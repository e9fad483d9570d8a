-- ===== src/Prelude/Sorting/Keys.antt =====
-- Sorting the entries of a map, whose keys are all different, and tests on a sorted list.
use mathlib.Core.Path.{◌≡◌, refl, ◌∙◌}
use mathlib.Core.Bool.{Bool, not}
use mathlib.Core.Option.{none, some}
use mathlib.Core.List.{List, [], ◌∷◌}
use native.Mathlib.Omega.{arith}
use go_cty.Prelude.Tests.{Equatable, ◌==◌, if◌then◌else◌}
use go_cty.Prelude.Lists.{any, all}
use go_cty.Prelude.Maps.{Map, lookup, Unique}
use go_cty.Prelude.Sorting.{insert_by, sort_by, any-sort_by}

module _ {ℓ κ} {K : Type ℓ} {V : Type κ} ⦃e : Equatable K⦄ (less : K × V → K × V → Bool) where
  lookup-insert_by :
      (k : K) (v : V) (m : Map K V) (j : K)
      → lookup k m ≡ none
      → lookup j (insert_by less (k, v) m) ≡ (if k == j then some v else lookup j m)
  unfolding insert_by
  lookup-insert_by k v [] j h = refl
  lookup-insert_by k v ((i, w) ∷ m) j h =
      ground (arith, e.test_iff i k, e.test_iff k j, e.test_iff i j, lookup-insert_by k v m j)

  insert_by-Unique :
      (k : K) (v : V) (m : Map K V)
      → lookup k m ≡ none
      → Unique m
      → Unique (insert_by less (k, v) m)
  unfolding insert_by
  insert_by-Unique k v [] h u = (refl, tt)
  insert_by-Unique k v ((i, w) ∷ m) h u =
      ground
        (arith, e.test_iff i k, e.test_iff k i, lookup-insert_by k v m i, insert_by-Unique k v m)

  pub lookup-sort_by :
      (m : Map K V) (j : K)
      → Unique m
      → (lookup j (sort_by less m) ≡ lookup j m) × Unique (sort_by less m)
  unfolding sort_by
  lookup-sort_by [] j u = (refl, tt)
  lookup-sort_by ((k, v) ∷ m) j u =
      let here = lookup-sort_by m k u.1 in
      let there = lookup-sort_by m j u.1 in
      let fresh : lookup k (sort_by less m) ≡ none = here.0 ∙ u.0 in
      (
        lookup-insert_by k v (sort_by less m) j fresh ∙ ground (arith, there.0),
        insert_by-Unique k v (sort_by less m) fresh here.1,
      )

module _ {ℓ} {A : Type ℓ} where
  all-any : (p : A → Bool) (xs : List A) → all p xs ≡ not (any (λ x. not (p x)) xs)
  all-any p [] = refl
  all-any p (x ∷ xs) = ground (arith, all-any p xs)

  pub all-sort_by :
      (less : A → A → Bool) (p : A → Bool) (xs : List A) → all p (sort_by less xs) ≡ all p xs
  all-sort_by less p xs =
      ground
        (arith, all-any p xs, all-any p (sort_by less xs), any-sort_by less (λ x. not (p x)) xs)
