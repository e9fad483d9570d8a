-- ===== src/HashSet/Copying.antt =====
-- Copy (cty/set/ops.go).
use go_cty.Prelude.{
  ◌≡◌, refl, sym, Bool, false, ◌∙◌, Option, none, some, List, [], ◌∷◌, is_some, ap, arith,
  if◌then◌else◌,
}
use go_cty.Prelude.Int.{ℤ, int_eq}
use go_cty.Prelude.Maps.{Map, lookup, insert, Unique, lookup-insert, insert-Unique}
use go_cty.HashSet.{Rules, HashSet, contains, has, copy, copy_vals}
use go_cty.HashSet.Lawful.{IsValid}

module _ {ℓ} {T : Type ℓ} where
  lookup-copy_vals :
      (m ret : Map ℤ (List T)) (j : ℤ)
      → Unique m
      → lookup j (copy_vals m ret) ≡ (if is_some (lookup j m) then lookup j m else lookup j ret)
  lookup-copy_vals [] ret j u = refl
  lookup-copy_vals ((k, v) ∷ m) ret j u = ground (
    arith,
    lookup-copy_vals m (insert k v ret) j u.1,
    lookup-insert k j v ret,
    int_eq.test_iff k j,
    u.0,
  )

  copy_vals-Unique : (m ret : Map ℤ (List T)) → Unique ret → Unique (copy_vals m ret)
  copy_vals-Unique [] ret u = u
  copy_vals-Unique ((k, v) ∷ m) ret u =
      copy_vals-Unique m (insert k v ret) (insert-Unique k v ret u)

module _ {ℓ} {R T : Type ℓ} ⦃i : Rules R T⦄ where
  lookup-copy : (s : HashSet R T) (j : ℤ) → Unique s.vals → lookup j (copy s).vals ≡ lookup j s.vals
  unfolding copy
  lookup-copy s j u = ground (arith, lookup-copy_vals s.vals [] j u)

  contained : HashSet R T → T → Option (List T) → Bool
  contained s w none = false
  contained s w (some bucket) = contains (i.equivalent s.rules w) bucket

  -- The copy of a well-formed set is well-formed and has exactly its values.
  pub has-copy :
      (s : HashSet R T) (w : T) → IsValid s → IsValid (copy s) × (has (copy s) w ≡ has s w)
  unfolding copy has contained
  has-copy s w ok = (
    record {
      unique = copy_vals-Unique s.vals [] tt;
      buckets = λ id b e. ok.buckets id b (sym (lookup-copy s id ok.unique) ∙ e);
    },
    ap (λ b. contained s w b) (lookup-copy s (i.hash s.rules w) ok.unique),
  )
