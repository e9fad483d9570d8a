-- ===== src/Values/RawEquality/Laws.antt =====
-- The laws of RawEquals (cty/value_ops.go).
use go_cty.Prelude.{◌≡◌, true, Equatable, nat_eq, string_eq, and_true, Bool-ext}
use go_cty.Values.{Value, unmark_force}
use go_cty.Values.RawEquality.{RawOps, same_header, same_content, raw_equals}
use go_cty.Values.RawEquality.Contents.{Sane, CapsuleLaws}
use go_cty.Values.RawEquality.Loops.{
  and_true_build, same, same_header_refl, same_header_parts, same_header_symm,
}
use go_cty.Values.RawEquality.Symmetry.{same_content_refl, same_content_symm}
use go_cty.Values.RawEquality.Transitivity.{same_content_trans, one_trans}

module _ {N M : Type 0} ⦃ops : RawOps N⦄ ⦃e : Equatable M⦄ where
  -- On values whose maps, marks and types are what Go's operations build, and with operations of
  -- capsule types that are equivalences, RawEquals is reflexive, symmetric and transitive.
  pub raw_equals_equivalence :
      CapsuleLaws ops.capsule_same
      → (v w x : Value N M) → Sane v
      → Sane w
      → Sane x
      → (raw_equals v v ≡ true)
        × (raw_equals v w ≡ raw_equals w v)
        × (raw_equals v w ≡ true → raw_equals w x ≡ true → raw_equals v x ≡ true)
  unfolding raw_equals
  raw_equals_equivalence laws v w x s r q = (
    and_true_build (same_header_refl v s) (same_content_refl laws v s),
    Bool-ext (same v w) (same w v) (turn v w s r) (turn w v r s),
    λ h k. one_trans laws v w x s r q h k (same_content_trans laws v w x s r q),
  )
    where
      turn : (a b : Value N M) → Sane a → Sane b → same a b ≡ true → same b a ≡ true
      turn a b sa sb h =
          let parts = and_true (same_header a b) (same_content a (unmark_force b)) h in
          let both = same_header_parts a b parts.0 in
          and_true_build (same_header_symm a b sa sb parts.0)
            (same_content_symm laws a b sa sb both.0 both.1 parts.1)
