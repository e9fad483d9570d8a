-- ===== src/Convert/Sorting.antt =====
-- sortTypes of cty/convert/sort_types.go: the types of a unification in the order in which they are
-- tried, as indices. A slice of slices is a list of lists, and a write at an index out of range,
-- which Go does not reach, changes nothing. The backing array of `queue` is `visited` and then the
-- queue itself; what is not written of it stays 0.
pub mod Visits
pub mod Once
use go_cty.Prelude.{
  ℕ, zero, suc, Bool, false, List, [], ◌∷◌, ◌++◌, length, drop, if◌then◌else◌, ◌==◌,
}
use go_cty.Prelude.Int.{ℤ, pos, negsuc, int_eq}
use go_cty.Types.{CtyType}
use go_cty.Convert.Compare.{minus_one, none_first, plus_one, compare_types}

module _ {ℓ} {A : Type ℓ} where
  -- `xs[i] = f(xs[i])`
  abbrev pub update : ℕ → (A → A) → List A → List A
  update i f [] = []
  update zero f (x ∷ xs) = f x ∷ xs
  update (suc i) f (x ∷ xs) = x ∷ update i f xs

  -- A slice of one value.
  abbrev pub filled : ℕ → A → List A
  filled zero x = []
  filled (suc n) x = x ∷ filled n x

abbrev pub snoc : ℕ → List ℕ → List ℕ
snoc j js = js ++ j ∷ []

-- `inDegree[j]++` and `inDegree[j]--`
abbrev pub increment : ℤ → ℤ
increment (pos n) = pos (suc n)
increment (negsuc zero) = pos 0
increment (negsuc (suc n)) = negsuc n

abbrev pub decrement : ℤ → ℤ
decrement (pos zero) = negsuc 0
decrement (pos (suc n)) = pos n
decrement (negsuc n) = negsuc (suc n)

-- The body of the two loops that build the graph.
abbrev pub link_pair : ℕ → CtyType → ℕ → CtyType → List (List ℕ) → List (List ℕ)
link_pair i t j u edges = elim (compare_types t u) [
  | minus_one ↦ update i (snoc j) edges
  | none_first ↦ edges
  | plus_one ↦ update j (snoc i) edges
]

-- The loop over j; the types are those from index j.
abbrev pub link_row : ℕ → CtyType → ℕ → List CtyType → List (List ℕ) → List (List ℕ)
link_row i t j [] edges = edges
link_row i t j (u ∷ us) edges = link_row i t (suc j) us (link_pair i t j u edges)

-- The loop over i; the types are those from index i.
abbrev pub link_all : ℕ → List CtyType → List (List ℕ) → List (List ℕ)
link_all i [] edges = edges
link_all i (t ∷ ts) edges = link_all (suc i) ts (link_row i t (suc i) ts edges)

abbrev pub edges_of : List CtyType → List (List ℕ)
edges_of tys = link_all 0 tys (filled (length tys) [])

-- The loops that compute the in-degrees.
abbrev pub count_outs : List ℕ → List ℤ → List ℤ
count_outs [] in_degree = in_degree
count_outs (j ∷ outs) in_degree = count_outs outs (update j increment in_degree)

abbrev pub count_edges : List (List ℕ) → List ℤ → List ℤ
count_edges [] in_degree = in_degree
count_edges (outs ∷ edges) in_degree = count_edges edges (count_outs outs in_degree)

-- The indices of in-degree 0, from index i on.
abbrev pub roots : ℕ → List ℤ → List ℕ
roots i [] = []
roots i (n ∷ in_degree) =
    let rest = roots (suc i) in_degree in if n == pos 0 then i ∷ rest else rest

-- `inDegree[j] == 0`
abbrev pub is_zero_at : ℕ → List ℤ → Bool
is_zero_at j [] = false
is_zero_at zero (n ∷ in_degree) = n == pos 0
is_zero_at (suc j) (n ∷ in_degree) = is_zero_at j in_degree

-- The loop over `edges[i]`.
abbrev pub relax : List ℕ → List ℤ → List ℕ → List ℤ × List ℕ
relax [] in_degree queue = (in_degree, queue)
relax (j ∷ outs) in_degree queue =
    let next = update j decrement in_degree in
    relax outs next (if is_zero_at j next then queue ++ j ∷ [] else queue)

-- `edges[i]`
abbrev pub outs_of : ℕ → List (List ℕ) → List ℕ
outs_of i [] = []
outs_of zero (outs ∷ edges) = outs
outs_of (suc i) (outs ∷ edges) = outs_of i edges

-- The loop over the queue, for at most so many rounds: what it has visited, and what is left.
unfoldable pub visit : ℕ → List (List ℕ) → List ℤ → List ℕ → List ℕ → List ℕ × List ℕ
visit n edges in_degree [] visited = (visited, [])
visit zero edges in_degree (i ∷ queue) visited = (visited, i ∷ queue)
visit (suc n) edges in_degree (i ∷ queue) visited =
    let next = relax (outs_of i edges) in_degree queue in
    visit n edges next.0 next.1 (visited ++ i ∷ [])

-- The loop over the queue of sortTypes, from its start.
unfoldable pub run_queue : List CtyType → List ℕ × List ℕ
unfolding visit
run_queue tys =
    let edges = edges_of tys in
    let in_degree = count_edges edges (filled (length tys) (pos 0)) in
    visit (length tys) edges in_degree (roots 0 in_degree) []

-- sortTypes
unfoldable pub sort_types : List CtyType → List ℕ
unfolding run_queue
sort_types tys =
    let visited = (run_queue tys).0 in visited ++ drop (length visited) (filled (length tys) 0)
