-- ===== src/Values/RawEquality/Examples.antt =====
-- Tests of RawEquals.
use go_cty.Prelude.{
  ℕ, zero, suc, ◌≡◌, refl, true, false, none, some, List, [], ◌∷◌, nat_eq, string_eq,
}
use go_cty.Types.{Kind, primitive_type}
use go_cty.Types.Equality.{equals_within, equals}
use go_cty.Types.Depth.{depth}
use go_cty.Refinement.{refinement_nullable, tristate_false}
use go_cty.Prelude.Int.{ℤ, pos}
use go_cty.Values.{
  Value, number_val, unknown_val, map_val, marked_val, no_fields, field_then, type_of,
  has_same_marks,
}
use go_cty.Values.RawEquality.{RawOps, exact, raw_number_equal, raw_equals}
use go_cty.Values.RawEquality.Contents.{CapsuleLaws}
use go_cty.Values.RawEquality.Laws.{raw_equals_equivalence}

-- Numbers that are natural.
abbrev sign_nat : ℕ → ℤ
sign_nat zero = pos 0
sign_nat (suc n) = pos 1

instance abbrev plain_ops : RawOps ℕ
plain_ops = record {
  sign_of = sign_nat;
  accuracy = λ n. exact;
  int_of = λ n. pos n;
  text = λ n. "";
  capsule_same = λ t. none;
}

-- A map of two numbers, of which one is not known yet; `marks` are around it.
abbrev two_numbers : List ℕ → Value ℕ ℕ
two_numbers ms =
    marked_val
      (map_val (primitive_type Kind.number) (
        field_then "a" (number_val 4) (
          field_then "b"
            (unknown_val (primitive_type Kind.number) (some (refinement_nullable tristate_false)))
            no_fields)))
      ms

-- The order of marks does not matter, and the marks themselves do.
raw_equals_marks : raw_equals (two_numbers (1 ∷ 2 ∷ [])) (two_numbers (2 ∷ 1 ∷ [])) ≡ true
unfolding raw_equals raw_number_equal type_of has_same_marks equals equals_within depth
raw_equals_marks = refl

raw_equals_other_marks : raw_equals (two_numbers (1 ∷ 2 ∷ [])) (two_numbers (1 ∷ 3 ∷ [])) ≡ false
unfolding raw_equals raw_number_equal type_of has_same_marks equals equals_within depth
raw_equals_other_marks = refl

plain_laws : CapsuleLaws plain_ops.capsule_same
plain_laws t f h = cc

raw_equals_equivalence_example :
    (raw_equals (two_numbers (1 ∷ [])) (two_numbers (1 ∷ [])) ≡ true)
    × (raw_equals (two_numbers (1 ∷ [])) (two_numbers (1 ∷ 2 ∷ []))
        ≡ raw_equals (two_numbers (1 ∷ 2 ∷ [])) (two_numbers (1 ∷ [])))
    × (raw_equals (two_numbers (1 ∷ [])) (two_numbers (1 ∷ 2 ∷ [])) ≡ true
        → raw_equals (two_numbers (1 ∷ 2 ∷ [])) (two_numbers (2 ∷ 1 ∷ [])) ≡ true
        → raw_equals (two_numbers (1 ∷ [])) (two_numbers (2 ∷ 1 ∷ [])) ≡ true)
raw_equals_equivalence_example =
    raw_equals_equivalence plain_laws (two_numbers (1 ∷ [])) (two_numbers (1 ∷ 2 ∷ []))
      (two_numbers (2 ∷ 1 ∷ [])) (refl, (refl, tt), (tt, (refl, (refl, tt)), (tt, (tt, tt))))
      (refl, (refl, (refl, tt)), (tt, (refl, (refl, tt)), (tt, (tt, tt))))
      (refl, (refl, (refl, tt)), (tt, (refl, (refl, tt)), (tt, (tt, tt))))
