-- ===== src/Stdlib/Chunklist.antt =====
-- Impl of ChunklistFunc (cty/function/stdlib/collection.go), from the elements of the list and the
-- size, which is not negative, to the elements of the chunks. The marks of the arguments are set
-- aside before and put on the result after.
use Prim.Native.Nat.{◌%◌}
use native.Mathlib.Nat.{zero-mod, suc-mod, mod-lt, mod_self, mod-eq_of_lt}
use mathlib.Core.List.{append_assoc, append-nil}
use go_cty.Prelude.{
  ◌≢◌, ℕ, zero, suc, ◌+◌, ◌≤◌, ◌<◌, ◌≡◌, refl, sym, ap, ◌∙◌, ◌⊎◌, inl, inr, true, false, ◌||◌,
  Bool-cases, List, [], ◌∷◌, ◌++◌, length, nat_eq, if◌then◌else◌, arith, nat_beq,
}
use go_cty.Prelude.Tests.{nat_beq_iff}
use go_cty.Prelude.Lists.{length-append}

module _ {ℓ} {A : Type ℓ} where
  -- The loop over the elements; `l` is the length of the list.
  unfoldable pub chunk_loop : ℕ → ℕ → List A → ℕ → List A → List (List A) → List (List A)
  chunk_loop size l [] i chunk output = output
  chunk_loop size l (v ∷ vs) i chunk output =
      let chunk' = chunk ++ v ∷ [] in
      let full = chunk_loop size l vs (i + 1) [] (output ++ chunk' ∷ []) in
      let more = chunk_loop size l vs (i + 1) chunk' output in
      if nat_beq ((i + 1) % size) 0 || nat_beq (i + 1) l then full else more

  unfoldable pub chunklist : ℕ → List A → List (List A)
  unfolding chunk_loop
  chunklist size [] = []
  chunklist zero (v ∷ vs) = (v ∷ vs) ∷ []
  chunklist (suc n) (v ∷ vs) = chunk_loop (suc n) (length (v ∷ vs)) (v ∷ vs) 0 [] []

  -- The chunks, one after the other.
  abbrev pub joined : List (List A) → List A
  joined [] = []
  joined (c ∷ cs) = c ++ joined cs

  -- Every chunk but the last has the size, and the last has at least one element and no more than
  -- the size.
  abbrev pub Chunked : ℕ → List (List A) → Type 0
  Chunked size [] = Unit
  Chunked size (c ∷ []) = (0 < length c) × (length c ≤ size)
  Chunked size (c ∷ d ∷ rest) = (length c ≡ size) × Chunked size (d ∷ rest)

  -- What the loop does to the chunks that it has made already.
  chunk_loop-append :
      (size l : ℕ) (vs : List A) (i : ℕ) (chunk c : List A) (output : List (List A))
      → chunk_loop size l vs i chunk (c ∷ output) ≡ c ∷ chunk_loop size l vs i chunk output
  unfolding chunk_loop
  chunk_loop-append size l [] i chunk c output = refl
  chunk_loop-append size l (v ∷ vs) i chunk c output =
      elim (Bool-cases (nat_beq ((i + 1) % size) 0 || nat_beq (i + 1) l)) [
        | inl y ↦ rw y (chunk_loop-append size l vs (i + 1) [] c (output ++ (chunk ++ v ∷ []) ∷ []))
        | inr n ↦ rw n (chunk_loop-append size l vs (i + 1) (chunk ++ v ∷ []) c output)
      ]

  Chunked-cons :
      (n : ℕ) (c : List A) (cs : List (List A))
      → length c ≡ suc n
      → Chunked (suc n) cs
      → Chunked (suc n) (c ∷ cs)
  Chunked-cons n c [] h k = (omega (arith, h), omega (arith, h))
  Chunked-cons n c (d ∷ cs) h k = (h, k)

  length-snoc : (chunk : List A) (v : A) → length (chunk ++ v ∷ []) ≡ suc (length chunk)
  length-snoc chunk v = omega (arith, length-append chunk (v ∷ []))

smaller : (r n : ℕ) → r < suc n → nat_beq (suc r) (suc n) ≡ false → suc r < suc n
smaller r n h k = ground arith

mod_step :
    (i n : ℕ)
    → (((i + 1) % suc n ≡ 0) × (suc (i % suc n) ≡ suc n))
      ⊎ (((i + 1) % suc n ≡ suc (i % suc n)) × ((i + 1) % suc n ≢ 0))
mod_step i n =
    let next : (i + 1) % suc n ≡ suc (i % suc n) % suc n =
      ap (λ k. k % suc n) (omega arith) ∙ suc-mod i (suc n) in
    let below = mod-lt i {m = suc n} (omega arith) in
    elim (Bool-cases (nat_beq (suc (i % suc n)) (suc n))) [
      | inl y ↦
          let size = (nat_beq_iff (suc (i % suc n)) (suc n)).0 y in
          inl (next ∙ (ap (λ k. k % suc n) size ∙ mod_self (suc n)), size)
      | inr n' ↦
          let rest = next ∙ mod-eq_of_lt (smaller (i % suc n) n below n') in
          inr (rest, λ z. omega (arith, rest, z))
    ]

neither : (r j l : ℕ) → r ≢ 0 → j < l → (nat_beq r 0 || nat_beq j l) ≡ false
neither r j l h k = ground arith

-- The test of the loop.
test_true :
    (i n l : ℕ) → (i + 1) % suc n ≡ 0 → (nat_beq ((i + 1) % suc n) 0 || nat_beq (i + 1) l) ≡ true
test_true i n l h = rw h refl

test_false :
    (i n l : ℕ)
    → (i + 1) % suc n ≢ 0
    → i + 1 < l
    → (nat_beq ((i + 1) % suc n) 0 || nat_beq (i + 1) l) ≡ false
test_false i n l h k = neither ((i + 1) % suc n) (i + 1) l h k

module _ {ℓ} {A : Type ℓ} where
  -- The loop from a chunk begun.
  chunk_loop_lem :
      (n l : ℕ) (v : A) (vs : List A) (i : ℕ) (chunk : List A)
      → i + length (v ∷ vs) ≡ l
      → length chunk ≡ i % suc n
      → (joined (chunk_loop (suc n) l (v ∷ vs) i chunk []) ≡ chunk ++ v ∷ vs)
        × Chunked (suc n) (chunk_loop (suc n) l (v ∷ vs) i chunk [])
  unfolding chunk_loop
  chunk_loop_lem n l v [] i chunk h k =
      let last : nat_beq ((i + 1) % suc n) 0 || nat_beq (i + 1) l ≡ true = ground (arith, h) in
      rw last (
        append-nil (chunk ++ v ∷ []),
        (
          omega (arith, length-snoc chunk v),
          omega (arith, length-snoc chunk v, k, mod-lt i {m = suc n} (omega arith)),
        ),
      )
  chunk_loop_lem n l v (w ∷ ws) i chunk h k = elim (mod_step i n) [
    | inl (zero_rest, size) ↦
        let (whole, sizes) =
          chunk_loop_lem n l w ws (i + 1) [] (omega (arith, h)) (sym zero_rest) in
        rw (test_true i n l zero_rest) (
          rw (chunk_loop-append (suc n) l (w ∷ ws) (i + 1) [] (chunk ++ v ∷ []) []) (
            ap (λ r. (chunk ++ v ∷ []) ++ r) whole ∙ append_assoc chunk (v ∷ []) (w ∷ ws),
            Chunked-cons n (chunk ++ v ∷ []) _ (length-snoc chunk v ∙ (ap suc k ∙ size)) sizes,
          ))
    | inr (rest, not_zero) ↦
        let (whole, sizes) =
          chunk_loop_lem n l w ws (i + 1) (chunk ++ v ∷ []) (omega (arith, h))
            (length-snoc chunk v ∙ (ap suc k ∙ sym rest)) in
        rw (test_false i n l not_zero (omega (arith, h)))
          (whole ∙ append_assoc chunk (v ∷ []) (w ∷ ws), sizes)
  ]

  -- The chunks of a list that is not empty, for a size that is not zero, are the list when they are
  -- joined; every chunk but the last has the size, and the last is not empty and no larger. For a
  -- size of zero the list is the only chunk, however long (where the description of the parameter
  -- has the size as the maximum length). An empty list has no chunks.
  pub chunklist-Chunked :
      (n : ℕ) (v : A) (vs : List A)
      → (joined (chunklist (suc n) (v ∷ vs)) ≡ v ∷ vs)
        × Chunked (suc n) (chunklist (suc n) (v ∷ vs))
        × (chunklist 0 (v ∷ vs) ≡ (v ∷ vs) ∷ [])
        × ((size : ℕ) → chunklist {A = A} size [] ≡ [])
  unfolding chunklist
  chunklist-Chunked n v vs =
      let (whole, sizes) =
        chunk_loop_lem n (length (v ∷ vs)) v vs 0 [] (omega arith) (sym (zero-mod (suc n))) in
      (whole, sizes, refl, λ size. refl)
