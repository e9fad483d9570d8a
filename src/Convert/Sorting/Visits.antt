-- ===== src/Convert/Sorting/Visits.antt =====
-- The rounds of the loop over the queue of sortTypes (cty/convert/sort_types.go).
use go_cty.Prelude.{
  ℕ, zero, suc, ◌+◌, ◌≤◌, ◌≡◌, refl, ◌∙◌, Bool-cases, inl, inr, List, [], ◌∷◌, ◌++◌, length,
  length-append, drop, if◌then◌else◌, arith,
}
use go_cty.Prelude.Int.{ℤ, pos, negsuc, int_eq}
use go_cty.Types.{CtyType}
use go_cty.Convert.Sorting.{
  update, filled, increment, decrement, edges_of, count_outs, count_edges, roots, is_zero_at, relax,
  outs_of, visit, run_queue,
}

-- How many in-degrees are zero or below.
abbrev spent : List ℤ → ℕ
spent [] = 0
spent (pos zero ∷ ns) = suc (spent ns)
spent (pos (suc n) ∷ ns) = spent ns
spent (negsuc n ∷ ns) = suc (spent ns)

spent_bound : (ns : List ℤ) → spent ns ≤ length ns
spent_bound [] = omega arith
spent_bound (pos zero ∷ ns) = omega (arith, spent_bound ns)
spent_bound (pos (suc n) ∷ ns) = omega (arith, spent_bound ns)
spent_bound (negsuc n ∷ ns) = omega (arith, spent_bound ns)

-- No in-degree is negative, as before the loop over the queue.
abbrev IsNatural : List ℤ → Type 0
IsNatural [] = Unit
IsNatural (pos n ∷ ns) = IsNatural ns
IsNatural (negsuc n ∷ ns) = ⊥

filled-IsNatural : (n : ℕ) → IsNatural (filled n (pos 0))
filled-IsNatural zero = tt
filled-IsNatural (suc n) = filled-IsNatural n

increment-IsNatural : (j : ℕ) (ns : List ℤ) → IsNatural ns → IsNatural (update j increment ns)
increment-IsNatural j [] h = tt
increment-IsNatural zero (pos n ∷ ns) h = h
increment-IsNatural (suc j) (pos n ∷ ns) h = increment-IsNatural j ns h
increment-IsNatural j (negsuc n ∷ ns) h = absurd h

count_outs-IsNatural : (outs : List ℕ) (ns : List ℤ) → IsNatural ns → IsNatural (count_outs outs ns)
count_outs-IsNatural [] ns h = h
count_outs-IsNatural (j ∷ outs) ns h = count_outs-IsNatural outs _ (increment-IsNatural j ns h)

count_edges-IsNatural :
    (edges : List (List ℕ)) (ns : List ℤ) → IsNatural ns → IsNatural (count_edges edges ns)
count_edges-IsNatural [] ns h = h
count_edges-IsNatural (outs ∷ edges) ns h =
    count_edges-IsNatural edges _ (count_outs-IsNatural outs ns h)

-- A node enters the queue exactly when its in-degree falls to zero.
spent-decrement :
    (j : ℕ) (ns : List ℤ)
    → spent (update j decrement ns)
      ≡ (if is_zero_at j (update j decrement ns) then suc (spent ns) else spent ns)
spent-decrement j [] = refl
spent-decrement zero (pos zero ∷ ns) = refl
spent-decrement zero (pos (suc zero) ∷ ns) = refl
spent-decrement zero (pos (suc (suc n)) ∷ ns) = ground arith
spent-decrement zero (negsuc n ∷ ns) = refl
spent-decrement (suc j) (pos zero ∷ ns) = ground (arith, spent-decrement j ns)
spent-decrement (suc j) (pos (suc n) ∷ ns) = spent-decrement j ns
spent-decrement (suc j) (negsuc n ∷ ns) = ground (arith, spent-decrement j ns)

-- What is queued grows with what is spent.
relax-spent :
    (outs : List ℕ) (ns : List ℤ) (queue : List ℕ)
    → length (relax outs ns queue).1 + spent ns ≡ spent (relax outs ns queue).0 + length queue
relax-spent [] ns queue = omega arith
relax-spent (j ∷ outs) ns queue =
    let next = update j decrement ns in
    elim (Bool-cases (is_zero_at j next)) [
      | inl y ↦ ground (
        arith,
        relax-spent outs next (queue ++ j ∷ []),
        length-append queue (j ∷ []),
        spent-decrement j ns,
      )
      | inr n ↦ ground (arith, relax-spent outs next queue, spent-decrement j ns)
    ]

length-update {ℓ} :
    {A : Type ℓ} (i : ℕ) (f : A → A) (xs : List A) → length (update i f xs) ≡ length xs
length-update i f [] = refl
length-update zero f (x ∷ xs) = refl
length-update (suc i) f (x ∷ xs) = omega (arith, length-update i f xs)

length-relax :
    (outs : List ℕ) (ns : List ℤ) (queue : List ℕ) → length (relax outs ns queue).0 ≡ length ns
length-relax [] ns queue = refl
length-relax (j ∷ outs) ns queue =
    let next = update j decrement ns in
    length-relax outs next (if is_zero_at j next then queue ++ j ∷ [] else queue)
    ∙ length-update j decrement ns

-- What was visited and what is queued are as many as the nodes of in-degree zero or below, so there
-- are no more rounds than nodes.
visit-length :
    (n : ℕ) (edges : List (List ℕ)) (ns : List ℤ) (queue visited : List ℕ)
    → length visited + length queue ≡ spent ns
    → length ns ≤ n + length visited
    → ((visit n edges ns queue visited).1 ≡ [])
      × (length (visit n edges ns queue visited).0 ≤ length ns)
unfolding visit
visit-length n edges ns [] visited e h = (refl, omega (arith, e, spent_bound ns))
visit-length zero edges ns (i ∷ queue) visited e h = absurd (omega (arith, e, h, spent_bound ns))
visit-length (suc n) edges ns (i ∷ queue) visited e h =
    let outs = outs_of i edges in
    let same = length-relax outs ns queue in
    let more = length-append visited (i ∷ []) in
    let rest =
      visit-length n edges (relax outs ns queue).0 (relax outs ns queue).1 (visited ++ i ∷ [])
        (omega (arith, e, relax-spent outs ns queue, more)) (omega (arith, h, same, more)) in
    (rest.0, omega (arith, rest.1, same))

spent-roots : (i : ℕ) (ns : List ℤ) → IsNatural ns → length (roots i ns) ≡ spent ns
spent-roots i [] h = refl
spent-roots i (pos zero ∷ ns) h = omega (arith, spent-roots (suc i) ns h)
spent-roots i (pos (suc n) ∷ ns) h = ground (arith, spent-roots (suc i) ns h)
spent-roots i (negsuc n ∷ ns) h = absurd h

length-filled {ℓ} : {A : Type ℓ} (n : ℕ) (x : A) → length (filled n x) ≡ n
length-filled zero x = refl
length-filled (suc n) x = omega (arith, length-filled n x)

length-count_outs : (outs : List ℕ) (ns : List ℤ) → length (count_outs outs ns) ≡ length ns
length-count_outs [] ns = refl
length-count_outs (j ∷ outs) ns =
    length-count_outs outs (update j increment ns) ∙ length-update j increment ns

length-count_edges :
    (edges : List (List ℕ)) (ns : List ℤ) → length (count_edges edges ns) ≡ length ns
length-count_edges [] ns = refl
length-count_edges (outs ∷ edges) ns =
    length-count_edges edges (count_outs outs ns) ∙ length-count_outs outs ns

pub length-padded :
    (n : ℕ) (visited : List ℕ)
    → length visited ≤ n
    → length (visited ++ drop (length visited) (filled n 0)) ≡ n
length-padded n [] h = length-filled n 0
length-padded zero (i ∷ visited) h = absurd (omega (arith, h))
length-padded (suc n) (i ∷ visited) h = omega (arith, length-padded n visited (omega (arith, h)))

pub run_queue-ends :
    (tys : List CtyType) → ((run_queue tys).1 ≡ []) × (length (run_queue tys).0 ≤ length tys)
unfolding run_queue
run_queue-ends tys =
    let zeros = filled (length tys) (pos 0) in
    let ns = count_edges (edges_of tys) zeros in
    let natural = count_edges-IsNatural (edges_of tys) zeros (filled-IsNatural (length tys)) in
    let size : length ns ≡ length tys =
      length-count_edges (edges_of tys) zeros ∙ length-filled (length tys) (pos 0) in
    let ends =
      visit-length (length tys) (edges_of tys) ns (roots 0 ns) []
        (omega (arith, spent-roots 0 ns natural)) (omega (arith, size)) in
    (ends.0, omega (arith, ends.1, size))
