-- ===== src/Refinement/Range.antt =====
-- ValueRange and Value.Range (cty/value_range.go), without Includes and the arithmetic of ranges.
-- The outer `none` is a panic.
use go_cty.Prelude.{
  ℕ, ◌≡◌, Bool, true, false, ◌&&◌, not, Option, none, some, List, [], leb, nat_beq, if◌then◌else◌,
  arith,
}
use go_cty.Types.{CtyType, Kind, pseudo_type_dynamic, primitive_type, is_collection_type}
use go_cty.Refinement.{
  NumberOrder, tristate_true, tristate_false, tristate_unknown, is_tristate_false, Refinement,
  refinement_string, refinement_number, refinement_collection, refinement_nullable, Value,
  unknown_val, null_val, number_val, string_val, collection_val, structural_val, opaque_val,
  max_int, type_of, length_bounds, null, set_null, is_wholly_known,
}
use go_cty.Refinement.Meaning.{
  Outcome, null_outcome, number_outcome, text_outcome, length_outcome, other_outcome, above, below,
  has_prefix, denotes, suits,
}

pub record ValueRange (N : Type 0) : Type 0 where
  pub ty : CtyType
  pub raw : Refinement N

module _ {N : Type 0} where
  -- The refinement that Range makes for a known value that is not null, before `setNull`.
  abbrev pub synthesize : Value N → Refinement N
  synthesize (string_val s) = refinement_string tristate_unknown s
  synthesize (number_val n) =
      refinement_number tristate_unknown
        record { min = some n; max = some n; min_inc = true; max_inc = true }
  synthesize (collection_val t vs) = elim (length_bounds (collection_val t vs)) [
    | none ↦ refinement_nullable tristate_unknown
    | some real ↦
        if nat_beq (real.0) (real.1)
        then refinement_collection tristate_unknown (real.0) (real.0)
        else refinement_collection tristate_unknown 0 max_int
  ]
  synthesize _ = refinement_nullable tristate_unknown

  -- Range
  unfoldable pub range : Value N → ValueRange N
  range (unknown_val t none) = record { ty = t; raw = refinement_nullable tristate_unknown }
  range (unknown_val t (some r)) = record { ty = t; raw = r }
  range (null_val t) = record { ty = t; raw = refinement_nullable tristate_true }
  range v = record { ty = type_of v; raw = set_null tristate_false (synthesize v) }

  -- CouldBeNull and DefinitelyNotNull
  abbrev pub could_be_null : ValueRange N → Bool
  could_be_null r = not (is_tristate_false (null r.raw))

  abbrev pub definitely_not_null : ValueRange N → Bool
  definitely_not_null r = is_tristate_false (null r.raw)

  -- StringPrefix
  abbrev pub string_prefix_of : CtyType → Refinement N → Option (List ℕ)
  string_prefix_of pseudo_type_dynamic r = some []
  string_prefix_of (primitive_type Kind.string) (refinement_string t p) = some p
  string_prefix_of (primitive_type Kind.string) r = some []
  string_prefix_of t r = none

  -- LengthLowerBound and LengthUpperBound
  abbrev pub length_lower_of : CtyType → Refinement N → Option ℕ
  length_lower_of pseudo_type_dynamic r = some 0
  length_lower_of t (refinement_collection u a b) = if is_collection_type t then some a else none
  length_lower_of t r = if is_collection_type t then some 0 else none

  abbrev pub length_upper_of : CtyType → Refinement N → Option ℕ
  length_upper_of pseudo_type_dynamic r = some max_int
  length_upper_of t (refinement_collection u a b) = if is_collection_type t then some b else none
  length_upper_of t r = if is_collection_type t then some max_int else none

module _ {N : Type 0} ⦃o : NumberOrder N⦄ where
  -- NumberLowerBound and NumberUpperBound: the inner `none` is an unknown number.
  abbrev pub number_lower_of : CtyType → Refinement N → Option (Option N × Bool)
  number_lower_of pseudo_type_dynamic r = some (none, false)
  number_lower_of (primitive_type Kind.number) (refinement_number t r) = elim r.min [
    | none ↦ some (some o.neg_inf, false)
    | some a ↦ some (some a, r.min_inc)
  ]
  number_lower_of (primitive_type Kind.number) r = some (some o.neg_inf, false)
  number_lower_of t r = none

  abbrev pub number_upper_of : CtyType → Refinement N → Option (Option N × Bool)
  number_upper_of pseudo_type_dynamic r = some (none, false)
  number_upper_of (primitive_type Kind.number) (refinement_number t r) = elim r.max [
    | none ↦ some (some o.pos_inf, false)
    | some b ↦ some (some b, r.max_inc)
  ]
  number_upper_of (primitive_type Kind.number) r = some (some o.pos_inf, false)
  number_upper_of t r = none

  -- What the methods of a range say of an outcome. A method that panics says no.
  abbrev pub within : ValueRange N → Outcome N → Bool
  within r null_outcome = could_be_null r
  within r (number_outcome n) =
      elim (number_lower_of r.ty r.raw) [
        | none ↦ false
        | some a ↦ elim a.0 [ none ↦ true | some m ↦ above m a.1 (number_outcome n) ]
      ]
      && elim (number_upper_of r.ty r.raw) [
        | none ↦ false
        | some b ↦ elim b.0 [ none ↦ true | some m ↦ below m b.1 (number_outcome n) ]
      ]
  within r (text_outcome s) = elim (string_prefix_of r.ty r.raw) [
    | none ↦ false
    | some p ↦ has_prefix p s
  ]
  within r (length_outcome l) =
      elim (length_lower_of r.ty r.raw) [ none ↦ false | some a ↦ leb a l ]
      && elim (length_upper_of r.ty r.raw) [ none ↦ false | some b ↦ leb l b ]
  within r other_outcome = true

  -- The outcome is not an infinity, and a length is one that Go's `int` can hold.
  abbrev pub is_finite : Outcome N → Bool
  is_finite (number_outcome n) = o.less o.neg_inf n && o.less n o.pos_inf
  is_finite (length_outcome l) = leb l max_int
  is_finite _ = true

  -- The parts of the value agree with its type.
  abbrev pub is_typed : Value N → Bool
  is_typed (unknown_val t (some r)) = suits t r
  is_typed (collection_val t vs) = is_collection_type t
  is_typed _ = true

  -- The range of a value holds every outcome that the value may turn out to be, if it is not an
  -- infinity: for a number without a bound, the methods give the infinity as an exclusive bound.
  pub within-range :
      (v : Value N) (c : Outcome N)
      → is_typed v ≡ true
      → is_finite c ≡ true
      → denotes v c ≡ true
      → within (range v) c ≡ true
  unfolding range is_wholly_known
  within-range (unknown_val t none) c w f d = ground arith
  within-range (unknown_val t (some (refinement_number u r))) (number_outcome n) w f d =
      ground arith
  within-range (unknown_val t (some r)) c w f d = ground arith
  within-range (null_val t) c w f d = ground arith
  within-range (number_val m) c w f d = ground arith
  within-range (string_val s) c w f d = ground arith
  within-range (collection_val t vs) c w f d = ground arith
  within-range (structural_val t vs) c w f d = ground arith
  within-range (opaque_val t) c w f d = ground arith
