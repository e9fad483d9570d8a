-- ===== src/Prelude/Sorting.antt =====
-- `sort.Ints` and `sort.SliceStable`, as a stable insertion sort by a `less` test.
pub mod Keys
use mathlib.Core.Path.{◌≡◌, refl, ◌∙◌}
use mathlib.Core.Bool.{Bool, true, false, ◌||◌}
use mathlib.Core.List.{List, [], ◌∷◌, ◌++◌}
use Prim.Native.Nat.{suc, ◌+◌}
use native.Mathlib.Omega.{arith}
use go_cty.Prelude.Tests.{if◌then◌else◌}
use go_cty.Prelude.Lists.{any, length, All, flat_map, length-append, any-append}

module _ {ℓ} {A : Type ℓ} (less : A → A → Bool) where
  pub insert_by : A → List A → List A
  insert_by x [] = x ∷ []
  insert_by x (y ∷ ys) = let rest = insert_by x ys in if less y x then y ∷ rest else x ∷ y ∷ ys

  unfoldable pub sort_by : List A → List A
  unfolding insert_by
  sort_by [] = []
  sort_by (x ∷ xs) = insert_by x (sort_by xs)

  any-insert_by : (p : A → Bool) (x : A) (ys : List A) → any p (insert_by x ys) ≡ (p x || any p ys)
  unfolding insert_by
  any-insert_by p x [] = refl
  any-insert_by p x (y ∷ ys) = ground (arith, any-insert_by p x ys)

  pub any-sort_by : (p : A → Bool) (xs : List A) → any p (sort_by xs) ≡ any p xs
  unfolding sort_by
  any-sort_by p [] = refl
  any-sort_by p (x ∷ xs) = ground (arith, any-insert_by p x (sort_by xs), any-sort_by p xs)

  length-insert_by : (x : A) (ys : List A) → length (insert_by x ys) ≡ suc (length ys)
  unfolding insert_by
  length-insert_by x [] = refl
  length-insert_by x (y ∷ ys) = ground (arith, length-insert_by x ys)

  pub length-sort_by : (xs : List A) → length (sort_by xs) ≡ length xs
  unfolding sort_by
  length-sort_by [] = refl
  length-sort_by (x ∷ xs) = ground (arith, length-insert_by x (sort_by xs), length-sort_by xs)

  -- No later element is less than an earlier one.
  abbrev pub Sorted : List A → Type 0
  Sorted [] = Unit
  Sorted (x ∷ xs) = All (λ y. less y x ≡ false) xs × Sorted xs

  -- `less` is a strict weak order, as the documentation of `sort.SliceStable` asks.
  pub record IsStrictWeak : Type ℓ where
    pub asymm : (a b : A) → less a b ≡ true → less b a ≡ false
    pub neg_trans : (a b c : A) → less b a ≡ false → less c b ≡ false → less c a ≡ false

  All-weaken :
      (x y : A) (zs : List A)
      → IsStrictWeak
      → less y x ≡ false
      → All (λ z. less z y ≡ false) zs
      → All (λ z. less z x ≡ false) zs
  All-weaken x y [] o h a = tt
  All-weaken x y (z ∷ zs) o h a = (o.neg_trans x y z h a.0, All-weaken x y zs o h a.1)

  All-insert_by : (P : A → Type 0) (x : A) (ys : List A) → P x → All P ys → All P (insert_by x ys)
  unfolding insert_by
  All-insert_by P x [] p a = (p, tt)
  All-insert_by P x (y ∷ ys) p a = ground (arith, All-insert_by P x ys)

  insert_by-Sorted : (x : A) (ys : List A) → IsStrictWeak → Sorted ys → Sorted (insert_by x ys)
  unfolding insert_by
  insert_by-Sorted x [] o s = (tt, tt)
  insert_by-Sorted x (y ∷ ys) o s = ground (
    arith,
    o.asymm y x,
    All-insert_by (λ z. less z y ≡ false) x ys,
    All-weaken x y ys o,
    insert_by-Sorted x ys o,
  )

  pub sort_by-Sorted : (xs : List A) → IsStrictWeak → Sorted (sort_by xs)
  unfolding sort_by
  sort_by-Sorted [] o = tt
  sort_by-Sorted (x ∷ xs) o = insert_by-Sorted x (sort_by xs) o (sort_by-Sorted xs o)

module _ {ℓ κ} {A : Type ℓ} {B : Type κ} (less : A → A → Bool) (f : A → List B) where
  flat_map-insert_by :
      (x : A) (xs : List A)
      → length (flat_map f (insert_by less x xs)) ≡ length (f x) + length (flat_map f xs)
  unfolding insert_by
  flat_map-insert_by x [] = length-append (f x) []
  flat_map-insert_by x (y ∷ ys) = ground (
    arith,
    flat_map-insert_by x ys,
    length-append (f y) (flat_map f (insert_by less x ys)),
    length-append (f y) (flat_map f ys),
    length-append (f x) (f y ++ flat_map f ys),
  )

  pub flat_map-sort_by :
      (xs : List A) → length (flat_map f (sort_by less xs)) ≡ length (flat_map f xs)
  unfolding sort_by
  flat_map-sort_by [] = refl
  flat_map-sort_by (x ∷ xs) = ground (
    arith,
    flat_map-insert_by x (sort_by less xs),
    flat_map-sort_by xs,
    length-append (f x) (flat_map f xs),
  )

module _ {ℓ} {A : Type ℓ} (related : A → A → Bool) where
  -- No element is related to a later one.
  abbrev pub Apart : List A → Type 0
  Apart [] = Unit
  Apart (x ∷ xs) = (any (related x) xs ≡ false) × Apart xs

  Apart-insert_by :
      (less : A → A → Bool) (x : A) (ys : List A)
      → ((a b : A) → related a b ≡ true → related b a ≡ true)
      → Apart (x ∷ ys)
      → Apart (insert_by less x ys)
  unfolding insert_by
  Apart-insert_by less x [] s h = (refl, tt)
  Apart-insert_by less x (y ∷ ys) s h =
      ground (arith, s y x, any-insert_by less (related y) x ys, Apart-insert_by less x ys s)

  pub Apart-sort_by :
      (less : A → A → Bool) (xs : List A)
      → ((a b : A) → related a b ≡ true → related b a ≡ true)
      → Apart xs
      → Apart (sort_by less xs)
  unfolding sort_by
  Apart-sort_by less [] s h = tt
  Apart-sort_by less (x ∷ xs) s h =
      Apart-insert_by less x (sort_by less xs) s
        (any-sort_by less (related x) xs ∙ h.0, Apart-sort_by less xs s h.1)

  pub Apart-append :
      (xs ys : List A)
      → Apart xs
      → Apart ys
      → All (λ x. any (related x) ys ≡ false) xs
      → Apart (xs ++ ys)
  Apart-append [] ys h k a = k
  Apart-append (x ∷ xs) ys h k a =
      (any-append (related x) xs ys ∙ ground (arith, h.0, a.0), Apart-append xs ys h.1 k a.1)
