-- ===== src/Convert/Sorting/Once.antt =====
-- Repetitions among the indices that sortTypes (cty/convert/sort_types.go) visits.
use go_cty.Prelude.{
  ℕ, zero, suc, ◌+◌, ◌≤◌, ◌≡◌, refl, ap, Bool, true, false, not, ◌&&◌, ◌||◌, Bool-cases, inl, inr,
  List, [], ◌∷◌, ◌++◌, length, length-append, if◌then◌else◌, ◌==◌, arith, nat_beq, nat_eq,
}
use mathlib.Core.List.{append_assoc, append-nil}
use go_cty.Prelude.Int.{ℤ, pos, negsuc, int_eq}
use go_cty.Types.{CtyType}
use go_cty.Convert.Sorting.{
  update, filled, decrement, edges_of, count_edges, roots, is_zero_at, relax, outs_of, visit,
  run_queue, sort_types,
}
use go_cty.Convert.Sorting.Visits.{run_queue-ends, length-padded}

-- Whether an in-degree is zero or below.
abbrev is_spent_at : ℕ → List ℤ → Bool
is_spent_at j [] = false
is_spent_at zero (pos zero ∷ ns) = true
is_spent_at zero (pos (suc n) ∷ ns) = false
is_spent_at zero (negsuc n ∷ ns) = true
is_spent_at (suc j) (n ∷ ns) = is_spent_at j ns

abbrev pub is_among : ℕ → List ℕ → Bool
is_among j [] = false
is_among j (k ∷ ks) = nat_beq k j || is_among j ks

-- No index stands twice.
abbrev pub is_distinct : List ℕ → Bool
is_distinct [] = true
is_distinct (j ∷ js) = not (is_among j js) && is_distinct js

all_spent : List ℤ → List ℕ → Bool
all_spent ns [] = true
all_spent ns (j ∷ js) = is_spent_at j ns && all_spent ns js

is_spent_at-decrement :
    (k j : ℕ) (ns : List ℤ) → is_spent_at k ns ≡ true → is_spent_at k (update j decrement ns) ≡ true
is_spent_at-decrement k j [] h = absurd (ground arith)
is_spent_at-decrement zero zero (pos zero ∷ ns) h = refl
is_spent_at-decrement zero zero (pos (suc n) ∷ ns) h = absurd (ground arith)
is_spent_at-decrement zero zero (negsuc n ∷ ns) h = refl
is_spent_at-decrement (suc k) zero (n ∷ ns) h = h
is_spent_at-decrement zero (suc j) (pos zero ∷ ns) h = refl
is_spent_at-decrement zero (suc j) (pos (suc n) ∷ ns) h = h
is_spent_at-decrement zero (suc j) (negsuc n ∷ ns) h = refl
is_spent_at-decrement (suc k) (suc j) (n ∷ ns) h = is_spent_at-decrement k j ns h

-- An in-degree that falls to zero was positive before.
falls_to_zero :
    (j : ℕ) (ns : List ℤ)
    → is_zero_at j (update j decrement ns) ≡ true
    → (is_spent_at j ns ≡ false) × (is_spent_at j (update j decrement ns) ≡ true)
falls_to_zero j [] h = absurd (ground arith)
falls_to_zero zero (pos zero ∷ ns) h = absurd (ground arith)
falls_to_zero zero (pos (suc zero) ∷ ns) h = (refl, refl)
falls_to_zero zero (pos (suc (suc n)) ∷ ns) h = absurd (ground arith)
falls_to_zero zero (negsuc n ∷ ns) h = absurd (ground arith)
falls_to_zero (suc j) (n ∷ ns) h = falls_to_zero j ns h

all_spent-decrement :
    (j : ℕ) (ns : List ℤ) (ks : List ℕ)
    → all_spent ns ks ≡ true
    → all_spent (update j decrement ns) ks ≡ true
unfolding all_spent
all_spent-decrement j ns [] h = refl
all_spent-decrement j ns (k ∷ ks) h =
    ground (arith, is_spent_at-decrement k j ns, all_spent-decrement j ns ks)

all_spent-snoc :
    (ns : List ℤ) (ks : List ℕ) (j : ℕ)
    → all_spent ns ks ≡ true
    → is_spent_at j ns ≡ true
    → all_spent ns (ks ++ j ∷ []) ≡ true
unfolding all_spent
all_spent-snoc ns [] j h k = ground arith
all_spent-snoc ns (i ∷ ks) j h k = ground (arith, all_spent-snoc ns ks j)

-- What is not spent is not among the spent.
all_spent-among :
    (ns : List ℤ) (ks : List ℕ) (j : ℕ)
    → all_spent ns ks ≡ true
    → is_spent_at j ns ≡ false
    → is_among j ks ≡ false
unfolding all_spent
all_spent-among ns [] j h k = refl
all_spent-among ns (i ∷ ks) j h k = elim (Bool-cases (nat_beq i j)) [
  | inl y ↦ let e : i ≡ j = ground arith in absurd (ground arith)
  | inr n ↦ ground (arith, all_spent-among ns ks j)
]

is_among-snoc : (i j : ℕ) (ks : List ℕ) → is_among i (ks ++ j ∷ []) ≡ (is_among i ks || nat_beq j i)
is_among-snoc i j [] = ground arith
is_among-snoc i j (k ∷ ks) = ground (arith, is_among-snoc i j ks)

is_distinct-snoc :
    (ks : List ℕ) (j : ℕ)
    → is_distinct ks ≡ true
    → is_among j ks ≡ false
    → is_distinct (ks ++ j ∷ []) ≡ true
is_distinct-snoc [] j d h = refl
is_distinct-snoc (k ∷ ks) j d h = ground (arith, is_distinct-snoc ks j, is_among-snoc k j ks)

-- All that was visited or queued is spent, and stands there once.
IsOnce : List ℤ → List ℕ → Type 0
IsOnce ns ks = (all_spent ns ks ≡ true) × (is_distinct ks ≡ true)

relax-next :
    (j : ℕ) (outs : List ℕ) (ns : List ℤ) (queue : List ℕ) (b : Bool)
    → is_zero_at j (update j decrement ns) ≡ b
    → relax (j ∷ outs) ns queue
      ≡ relax outs (update j decrement ns) (if b then queue ++ j ∷ [] else queue)
relax-next j outs ns queue b e =
    ap (λ c. relax outs (update j decrement ns) (if c then queue ++ j ∷ [] else queue)) e

relax-IsOnce :
    (outs : List ℕ) (ns : List ℤ) (visited queue : List ℕ)
    → IsOnce ns (visited ++ queue)
    → IsOnce (relax outs ns queue).0 (visited ++ (relax outs ns queue).1)
unfolding IsOnce
relax-IsOnce [] ns visited queue h = h
relax-IsOnce (j ∷ outs) ns visited queue h =
    let next = update j decrement ns in
    let kept = all_spent-decrement j ns (visited ++ queue) h.0 in
    elim (Bool-cases (is_zero_at j next)) [
      | inl y ↦
          let fresh = falls_to_zero j ns y in
          let longer : IsOnce next (visited ++ (queue ++ j ∷ [])) =
            rw (← append_assoc visited queue (j ∷ [])) (
              all_spent-snoc next (visited ++ queue) j kept fresh.1,
              is_distinct-snoc (visited ++ queue) j h.1
                  (all_spent-among ns (visited ++ queue) j h.0 fresh.0),
            ) in
          rw (relax-next j outs ns queue true y)
            (relax-IsOnce outs next visited (queue ++ j ∷ []) longer)
      | inr n ↦
          rw (relax-next j outs ns queue false n) (relax-IsOnce outs next visited queue (kept, h.1))
    ]

visit-is_distinct :
    (n : ℕ) (edges : List (List ℕ)) (ns : List ℤ) (queue visited : List ℕ)
    → IsOnce ns (visited ++ queue)
    → (visit n edges ns queue visited).1 ≡ []
    → is_distinct (visit n edges ns queue visited).0 ≡ true
unfolding visit IsOnce
visit-is_distinct zero edges ns [] visited h e = rw (append-nil visited) at h.1
visit-is_distinct (suc n) edges ns [] visited h e = rw (append-nil visited) at h.1
visit-is_distinct zero edges ns (i ∷ queue) visited h e = absurd (ground arith)
visit-is_distinct (suc n) edges ns (i ∷ queue) visited h e =
    let outs = outs_of i edges in
    let moved : IsOnce ns ((visited ++ i ∷ []) ++ queue) =
      rw (append_assoc visited (i ∷ []) queue) h in
    visit-is_distinct n edges (relax outs ns queue).0 (relax outs ns queue).1 (visited ++ i ∷ [])
      (relax-IsOnce outs ns (visited ++ i ∷ []) queue moved) e

-- The indices of the roots are those of spent nodes, and increase.
roots-above : (i j : ℕ) (ns : List ℤ) → j + 1 ≤ i → is_among j (roots i ns) ≡ false
roots-above i j [] h = refl
roots-above i j (n ∷ ns) h = ground (arith, roots-above (suc i) j ns (omega (arith, h)))

roots-is_distinct : (i : ℕ) (ns : List ℤ) → is_distinct (roots i ns) ≡ true
roots-is_distinct i [] = refl
roots-is_distinct i (n ∷ ns) =
    ground (arith, roots-is_distinct (suc i) ns, roots-above (suc i) i ns (omega arith))

is_spent_at-append :
    (before : List ℤ) (n : ℤ) (ns : List ℤ)
    → (n == pos 0) ≡ true
    → is_spent_at (length before) (before ++ n ∷ ns) ≡ true
is_spent_at-append [] (pos zero) ns h = refl
is_spent_at-append [] (pos (suc n)) ns h = absurd (ground arith)
is_spent_at-append [] (negsuc n) ns h = refl
is_spent_at-append (m ∷ before) n ns h = is_spent_at-append before n ns h

roots-spent : (before ns : List ℤ) → all_spent (before ++ ns) (roots (length before) ns) ≡ true
unfolding all_spent
roots-spent before [] = refl
roots-spent before (n ∷ ns) =
    let size : length (before ++ n ∷ []) ≡ suc (length before) =
      omega (arith, length-append before (n ∷ [])) in
    let later : all_spent (before ++ n ∷ ns) (roots (suc (length before)) ns) ≡ true =
      rw (size, append_assoc before (n ∷ []) ns) at (roots-spent (before ++ n ∷ []) ns) in
    elim (Bool-cases (n == pos 0)) [
      | inl y ↦ ground (arith, later, is_spent_at-append before n ns y)
      | inr other ↦ ground (arith, later)
    ]

-- The loop over the queue is at its end after as many rounds as there are types, sortTypes returns
-- as many indices as there are types, and the loop visits no index twice.
pub sort_types-is_distinct :
    (tys : List CtyType)
    → ((run_queue tys).1 ≡ [])
      × (length (sort_types tys) ≡ length tys)
      × (is_distinct (run_queue tys).0 ≡ true)
unfolding sort_types run_queue IsOnce
sort_types-is_distinct tys =
    let ends = run_queue-ends tys in
    let ns = count_edges (edges_of tys) (filled (length tys) (pos 0)) in
    let once : IsOnce ns (roots 0 ns) = (roots-spent [] ns, roots-is_distinct 0 ns) in
    (
      ends.0,
      length-padded (length tys) (run_queue tys).0 ends.1,
      visit-is_distinct (length tys) (edges_of tys) ns (roots 0 ns) [] once ends.0,
    )
