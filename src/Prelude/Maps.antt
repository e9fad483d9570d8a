-- ===== src/Prelude/Maps.antt =====
-- Go's `map[K]V` as an association list, whose order stands for Go's unspecified order.
use Prim.Native.Nat.{suc}
use mathlib.Core.Path.{◌≡◌, refl}
use mathlib.Core.Bool.{true}
use mathlib.Core.Option.{Option, none, some}
use mathlib.Core.List.{List, [], ◌∷◌}
use native.Mathlib.Omega.{arith}
use go_cty.Prelude.Tests.{Equatable, ◌==◌, if◌then◌else◌}
use go_cty.Prelude.Lists.{any, is_some, length}

abbrev pub Map {ℓ κ} : Type ℓ → Type κ → Type (ℓ ⊔ κ)
Map K V = List (K × V)

module _ {ℓ κ} {K : Type ℓ} {V : Type κ} where
  abbrev pub keys : Map K V → List K
  keys [] = []
  keys ((k, v) ∷ m) = k ∷ keys m

module _ {ℓ κ} {K : Type ℓ} {V : Type κ} ⦃e : Equatable K⦄ where
  abbrev pub lookup : K → Map K V → Option V
  lookup j [] = none
  lookup j ((k, v) ∷ m) = if k == j then some v else lookup j m

  -- m[k] = v
  abbrev pub insert : K → V → Map K V → Map K V
  insert k v [] = (k, v) ∷ []
  insert k v ((j, w) ∷ m) = if j == k then (k, v) ∷ m else (j, w) ∷ insert k v m

  -- delete(m, k)
  abbrev pub delete : K → Map K V → Map K V
  delete k [] = []
  delete k ((j, w) ∷ m) = let rest = delete k m in if j == k then rest else (j, w) ∷ rest

  -- No key stands twice, as in every Go map.
  abbrev pub Unique : Map K V → Type κ
  Unique [] = Unit
  Unique ((k, v) ∷ m) = (lookup k m ≡ none) × Unique m

  pub lookup-insert :
      (k j : K) (v : V) (m : Map K V)
      → lookup j (insert k v m) ≡ (if k == j then some v else lookup j m)
  lookup-insert k j v [] = refl
  lookup-insert k j v ((i, w) ∷ m) =
      ground (arith, e.test_iff k j, e.test_iff i k, e.test_iff i j, lookup-insert k j v m)

  pub lookup-delete :
      (k j : K) (m : Map K V) → lookup j (delete k m) ≡ (if k == j then none else lookup j m)
  lookup-delete k j [] = ground arith
  lookup-delete k j ((i, w) ∷ m) =
      ground (arith, e.test_iff k j, e.test_iff i k, e.test_iff i j, lookup-delete k j m)

  pub insert-Unique : (k : K) (v : V) (m : Map K V) → Unique m → Unique (insert k v m)
  insert-Unique k v [] u = (refl, tt)
  insert-Unique k v ((i, w) ∷ m) u =
      ground (arith, e.test_iff i k, e.test_iff k i, lookup-insert k i v m, insert-Unique k v m)

  pub delete-Unique : (k : K) (m : Map K V) → Unique m → Unique (delete k m)
  delete-Unique k [] u = tt
  delete-Unique k ((i, w) ∷ m) u = ground (arith, lookup-delete k i m, delete-Unique k m)

  pub lookup-keys : (j : K) (m : Map K V) → is_some (lookup j m) ≡ any (λ k. k == j) (keys m)
  lookup-keys j [] = refl
  lookup-keys j ((k, v) ∷ m) = ground (arith, lookup-keys j m)

module _ {ℓ κ} {K : Type ℓ} {V : Type κ} ⦃e : Equatable K⦄ where
  length-delete :
      (k : K) (m : Map K V)
      → Unique m
      → (if is_some (lookup k m) then suc (length (delete k m)) else length (delete k m)) ≡ length m
  length-delete k [] u = refl
  length-delete k ((j, w) ∷ m) u = ground (arith, e.test_iff j k, length-delete k m)

  length-tail :
      (j : K) (w : V) (m m' : Map K V)
      → Unique m'
      → suc (length m) ≡ length m'
      → (is_some (lookup j ((j, w) ∷ m)) ≡ true → is_some (lookup j m') ≡ true)
      → length m ≡ length (delete j m')
  length-tail j w m m' u' n h = ground (arith, e.test_iff j j, length-delete j m' u')

  delete-covers :
      (k : K) (v : V) (m m' : Map K V)
      → lookup k m ≡ none
      → ((j : K) → is_some (lookup j ((k, v) ∷ m)) ≡ true → is_some (lookup j m') ≡ true)
      → (j : K) → is_some (lookup j m) ≡ true
      → is_some (lookup j (delete k m')) ≡ true
  delete-covers k v m m' u h j p = ground (arith, e.test_iff k j, lookup-delete k j m', h j)

  -- Of two maps of one size, if every key of the first is in the second, then the other way too.
  pub covers_symm :
      (m m' : Map K V)
      → Unique m
      → Unique m'
      → length m ≡ length m'
      → ((k : K) → is_some (lookup k m) ≡ true → is_some (lookup k m') ≡ true)
      → (k : K) → is_some (lookup k m') ≡ true
      → is_some (lookup k m) ≡ true
  covers_symm [] [] u u' n h k p = p
  covers_symm [] (x ∷ m') u u' n h k p = absurd (omega arith)
  covers_symm ((j, w) ∷ m) m' u u' n h k p = ground (
    arith,
    e.test_iff j k,
    e.test_iff j j,
    h j,
    lookup-delete j k m',
    length-delete j m' u',
    covers_symm m (delete j m') u.1 (delete-Unique j m' u') (length-tail j w m m' u' n (h j))
        (delete-covers j w m m' u.0 h) k,
  )

  -- Two maps with the same keys have one size.
  pub same_keys-length :
      (m m' : Map K V)
      → Unique m
      → Unique m'
      → ((k : K) → is_some (lookup k m) ≡ is_some (lookup k m'))
      → length m ≡ length m'
  same_keys-length [] [] u u' h = refl
  same_keys-length [] ((j, w) ∷ m') u u' h = absurd (ground (arith, h j, e.test_iff j j))
  same_keys-length ((j, w) ∷ m) m' u u' h = ground (
    arith,
    h j,
    e.test_iff j j,
    length-delete j m' u',
    same_keys-length m (delete j m') u.1 (delete-Unique j m' u')
        (λ k. ground (arith, h k, e.test_iff j k, lookup-delete j k m')),
  )
