-- ===== src/Values/RawEquality.antt =====
-- RawEquals (cty/value_ops.go) and rawEqual of the refinements (cty/unknown_refinement.go): whether
-- two values are the same to an application, unknown values and marks included. `capsule_same` is
-- RawEquals of the operations that an application gives a capsule type, and none where it gives
-- none. AsValueSlice of a set is the list of its elements, in the order of its iteration.
pub mod Marking
pub mod Contents
pub mod Loops
pub mod Symmetry
pub mod Transitivity
pub mod Laws
mod Examples
use go_cty.Prelude.{
  ℕ, Bool, true, false, ◌&&◌, not, Option, none, some, String, List, [], ◌∷◌, length, Equatable,
  string_eq, nat_eq, ◌==◌, if◌then◌else◌,
}
use mathlib.Core.Bool.{beq}
use go_cty.Prelude.Int.{ℤ, int_eq}
use go_cty.Prelude.Maps.{Map, lookup}
use go_cty.Types.{CtyType}
use go_cty.Types.Equality.{equals}
use go_cty.Refinement.{
  Tristate, tristate_true, tristate_false, tristate_unknown, Refinement, refinement_string,
  refinement_number, refinement_collection, refinement_nullable,
}
use go_cty.Values.{
  Value, null_val, unknown_val, bool_val, number_val, string_val, list_val, set_val, map_val,
  tuple_val, object_val, capsule_val, marked_val, Values, no_values, value_then, Fields, no_fields,
  field_then, type_of, unmark_force, has_same_marks,
}

abbrev pub tristate_same : Tristate → Tristate → Bool
tristate_same tristate_true tristate_true = true
tristate_same tristate_false tristate_false = true
tristate_same tristate_unknown tristate_unknown = true
tristate_same _ _ = false

-- `r.prefix == other.prefix`
abbrev pub bytes_same : List ℕ → List ℕ → Bool
bytes_same [] [] = true
bytes_same (b ∷ bs) (c ∷ cs) = b == c && bytes_same bs cs
bytes_same _ _ = false

-- The case of RawEquals for two capsules: the operation of their type, or their addresses.
abbrev pub capsule_test : Option (ℕ → ℕ → Bool) → ℕ → ℕ → Bool
capsule_test none p q = p == q
capsule_test (some f) p q = f p q

-- Accuracy of math/big.
pub data Accuracy : Type 0 where
  below exact above : Accuracy

abbrev pub accuracy_same : Accuracy → Accuracy → Bool
accuracy_same below below = true
accuracy_same exact exact = true
accuracy_same above above = true
accuracy_same _ _ = false

-- What makes the raw content of the leaves comparable: of a `*big.Float` its Sign, the accuracy and
-- the integer that Int returns, and its Text, and RawEquals of the capsule types.
pub record RawOps (N : Type 0) : Type 0 where
  pub sign_of : N → ℤ
  pub accuracy : N → Accuracy
  pub int_of : N → ℤ
  pub text : N → String
  pub capsule_same : ℕ → Option (ℕ → ℕ → Bool)

-- The exception for negative zero.
abbrev pub no_negative_zero : String → String
no_negative_zero s = if s == "-0" then "0" else s

module _ {N : Type 0} ⦃ops : RawOps N⦄ where
  -- rawNumberEqual, of numbers that are not nil
  unfoldable pub raw_number_equal : N → N → Bool
  raw_number_equal a b =
      if not (ops.sign_of a == ops.sign_of b)
      then false
      else if not (accuracy_same (ops.accuracy a) (ops.accuracy b))
      then false
      else if accuracy_same (ops.accuracy a) exact
      then ops.int_of a == ops.int_of b
      else no_negative_zero (ops.text a) == no_negative_zero (ops.text b)

  -- RawEquals of the bounds, where `none` is NilVal.
  abbrev pub bound_same : Option N → Option N → Bool
  bound_same none none = true
  bound_same (some a) (some b) = raw_number_equal a b
  bound_same _ _ = false

  -- rawEqual of the refinements
  abbrev pub refinement_same : Refinement N → Refinement N → Bool
  refinement_same (refinement_string n p) (refinement_string m q) =
      tristate_same n m && bytes_same p q
  refinement_same (refinement_number n r) (refinement_number m s) =
      tristate_same n m
      && bound_same r.min s.min
      && bound_same r.max s.max
      && beq r.min_inc s.min_inc
      && beq r.max_inc s.max_inc
  refinement_same (refinement_collection n lo hi) (refinement_collection m lo' hi') =
      tristate_same n m && lo == lo' && hi == hi'
  refinement_same (refinement_nullable n) (refinement_nullable m) = tristate_same n m
  refinement_same _ _ = false

  -- The case of RawEquals for two unknown values.
  abbrev pub refinements_same : Option (Refinement N) → Option (Refinement N) → Bool
  refinements_same none none = true
  refinements_same (some r) (some s) = refinement_same r s
  refinements_same _ _ = false

module _ {N M : Type 0} where
  abbrev pub entries : Fields N M → Map String (Value N M)
  entries no_fields = []
  entries (field_then k v fs) = (k, v) ∷ entries fs

  -- What `v[name]` gives the comparison: an attribute that is missing is a nil content, which is a
  -- null, and an element that is missing ends it.
  abbrev pub missing_attribute : CtyType → Option (Value N M)
  missing_attribute t = some (null_val t)

  abbrev pub missing_element : CtyType → Option (Value N M)
  missing_element t = none

  abbrev pub found_or : Option (Value N M) → Option (Value N M) → Option (Value N M)
  found_or (some v) missing = some v
  found_or none missing = missing

  -- The comparison with what was found.
  abbrev pub on_found : Option (Value N M) → (Value N M → Bool) → Bool
  on_found none test = false
  on_found (some w) test = test w

module _ {N M : Type 0} ⦃ops : RawOps N⦄ ⦃e : Equatable M⦄ where
  -- The first two tests of RawEquals.
  abbrev pub same_header : Value N M → Value N M → Bool
  same_header v w = equals (type_of v) (type_of w) && has_same_marks v w

  unfoldable mutual
    -- RawEquals past these tests; the marker of the second is off already.
    pub same_content : Value N M → Value N M → Bool
    same_content (marked_val v ms) w = same_content v w
    same_content (null_val t) (null_val u) = true
    same_content (unknown_val t r) (unknown_val u s) = refinements_same r s
    same_content (bool_val a) (bool_val b) = beq a b
    same_content (number_val a) (number_val b) = raw_number_equal a b
    same_content (string_val a) (string_val b) = a == b
    same_content (list_val t vs) (list_val u ws) = same_elements vs ws
    same_content (set_val t vs) (set_val u ws) = same_elements vs ws
    same_content (tuple_val vs) (tuple_val ws) = same_elements vs ws
    same_content (map_val t fs) (map_val u gs) =
        length (entries fs) == length (entries gs) && same_fields missing_element fs (entries gs)
    same_content (object_val fs) (object_val gs) = same_fields missing_attribute fs (entries gs)
    same_content (capsule_val t p) (capsule_val u q) = capsule_test (ops.capsule_same t) p q
    same_content _ _ = false

    -- The loops over two slices; slices of different lengths are not the same.
    pub same_elements : Values N M → Values N M → Bool
    same_elements no_values no_values = true
    same_elements (value_then v vs) (value_then w ws) =
        same_header v w && same_content v (unmark_force w) && same_elements vs ws
    same_elements _ _ = false

    -- The loops over the attributes and over the keys.
    pub same_fields : (CtyType → Option (Value N M)) → Fields N M → Map String (Value N M) → Bool
    same_fields missing no_fields m = true
    same_fields missing (field_then k v fs) m =
        on_found (found_or (lookup k m) (missing (type_of v)))
          (λ w. same_header v w && same_content v (unmark_force w))
        && same_fields missing fs m

  -- RawEquals
  unfoldable pub raw_equals : Value N M → Value N M → Bool
  unfolding same_content
  raw_equals v w = same_header v w && same_content v (unmark_force w)
