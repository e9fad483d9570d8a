-- ===== src/Values/Logic.antt =====
-- Not, And and Or of values (cty/value_ops.go), with the check of operand types (cty/helper.go). A
-- panic is `none`.
pub mod Exact
use go_cty.Prelude.{
  Bool, true, false, not, ◌&&◌, ◌||◌, Option, none, some, List, [], ◌∷◌, Equatable, if◌then◌else◌,
}
use go_cty.Types.{CtyType, Kind, pseudo_type_dynamic, primitive_type, is_dynamic}
use go_cty.Types.Equality.{equals}
use go_cty.Refinement.{refinement_nullable, tristate_false}
use go_cty.Values.{
  Value, unknown_val, bool_val, type_of, is_marked, marks, unmark_force, with_marks,
}

abbrev bool : CtyType
bool = primitive_type Kind.bool

module _ {N M : Type 0} where
  -- The type assertion on the unknown content, without a marker.
  abbrev pub is_unknown : Value N M → Bool
  is_unknown (unknown_val t r) = true
  is_unknown _ = false

  -- `val.v.(bool)`
  abbrev pub raw_bool : Value N M → Option Bool
  raw_bool (bool_val b) = some b
  raw_bool _ = none

  -- `val == False` and `val == True`
  abbrev pub is_bool : Bool → Value N M → Bool
  is_bool true (bool_val true) = true
  is_bool false (bool_val false) = true
  is_bool b v = false

  -- The loop of typeCheck over the operands: whether one is dynamically typed, and whether one is
  -- unknown. `none` is the error.
  unfoldable pub check_operands : CtyType → List (Value N M) → Bool → Bool → Option (Bool × Bool)
  check_operands required [] has_dynamic has_unknown = some (has_dynamic, has_unknown)
  check_operands required (v ∷ vs) has_dynamic has_unknown =
      if is_dynamic (type_of v)
      then check_operands required vs true has_unknown
      else if not (equals (type_of v) required)
      then none
      else check_operands required vs has_dynamic (is_unknown v || has_unknown)

  -- typeCheck and mustTypeCheck: the short-circuit value, if there is one.
  unfoldable pub must_type_check :
      CtyType → CtyType → List (Value N M) → Option (Option (Value N M))
  unfolding check_operands
  must_type_check required ret vs = elim (check_operands required vs false false) [
    | none ↦ none
    | some (has_dynamic, has_unknown) ↦ some (
        if has_dynamic
        then some (unknown_val pseudo_type_dynamic none)
        else if has_unknown
        then some (unknown_val ret none)
        else none)
  ]

  -- forceShortCircuitType on a short-circuit value.
  unfoldable pub force_short_circuit_type : Value N M → CtyType → Option (Value N M)
  force_short_circuit_type v t =
      if is_dynamic (type_of v)
      then some (unknown_val t none)
      else if not (equals (type_of v) t)
      then none
      else some v

  -- RefineNotNull of an unknown Boolean.
  abbrev pub refine_not_null_bool : Value N M → Value N M
  refine_not_null_bool (unknown_val t r) = unknown_val t (some (refinement_nullable tristate_false))
  refine_not_null_bool v = v

  -- The result of a Boolean operation with an operand that is not known.
  unfoldable pub unknown_bool : Value N M → Option (Value N M)
  unfolding force_short_circuit_type
  unknown_bool short_circuit = elim (force_short_circuit_type short_circuit bool) [
    | none ↦ none
    | some v ↦ some (refine_not_null_bool v)
  ]

  -- `BoolVal` of an operation on two contents.
  abbrev pub on_bools : (Bool → Bool → Bool) → Option Bool → Option Bool → Option (Value N M)
  on_bools op (some a) (some b) = some (bool_val (op a b))
  on_bools op a b = none

  -- Not, And and Or without marks. `absorbing` is the operand that decides the result.
  unfoldable pub not_unmarked : Value N M → Option (Value N M)
  unfolding must_type_check unknown_bool
  not_unmarked v = elim (must_type_check bool bool (v ∷ [])) [
    | none ↦ none
    | some check ↦ elim check [
      | some short_circuit ↦ unknown_bool short_circuit
      | none ↦ elim (raw_bool v) [ none ↦ none | some b ↦ some (bool_val (not b)) ]
    ]
  ]

  unfoldable pub binary_unmarked :
      Bool → (Bool → Bool → Bool) → Value N M → Value N M → Option (Value N M)
  unfolding must_type_check unknown_bool
  binary_unmarked absorbing op v w = elim (must_type_check bool bool (v ∷ w ∷ [])) [
    | none ↦ none
    | some check ↦ elim check [
      | some short_circuit ↦
          if is_bool absorbing v || is_bool absorbing w
          then some (bool_val absorbing)
          else unknown_bool short_circuit
      | none ↦ on_bools op (raw_bool v) (raw_bool w)
    ]
  ]

module _ {N M : Type 0} ⦃e : Equatable M⦄ where
  abbrev pub with_marks_of_result : List (List M) → Option (Value N M) → Option (Value N M)
  with_marks_of_result ss none = none
  with_marks_of_result ss (some v) = some (with_marks ss v)

  -- Not
  unfoldable pub not_val : Value N M → Option (Value N M)
  unfolding not_unmarked
  not_val v =
      if is_marked v
      then with_marks_of_result (marks v ∷ []) (not_unmarked (unmark_force v))
      else not_unmarked v

  -- What And and Or do with marks.
  abbrev pub binary :
      (Value N M → Value N M → Option (Value N M)) → Value N M → Value N M → Option (Value N M)
  binary op v w =
      if is_marked v || is_marked w
      then with_marks_of_result (marks v ∷ marks w ∷ []) (op (unmark_force v) (unmark_force w))
      else op v w

  -- And
  unfoldable pub and_val : Value N M → Value N M → Option (Value N M)
  unfolding binary_unmarked
  and_val = binary (binary_unmarked false (λ a b. a && b))

  -- Or
  unfoldable pub or_val : Value N M → Value N M → Option (Value N M)
  unfolding binary_unmarked
  or_val = binary (binary_unmarked true (λ a b. a || b))
