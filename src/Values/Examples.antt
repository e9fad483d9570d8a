-- ===== src/Values/Examples.antt =====
-- Values with marks as the tests of cty/marks_test.go build them.
use go_cty.Prelude.{
  Option, string_eq, ◌&&◌, not, ℕ, zero, suc, ◌≡◌, refl, true, false, ◌||◌, none, some, [], ◌∷◌,
  nat_eq,
}
use go_cty.Values.{
  mark, unknown_val, null_val, type_of, Value, number_val, bool_val, tuple_val, list_val,
  marked_val, Values, no_values, value_then, has_member, unmark_force, has_mark, with_marks,
  has_mark_deep, contains_marked,
}
use go_cty.Values.Wrangle.{
  wrangle_drop, wrangle_expand, wrangle_replace, Wrangler, Numbers, wrangle_marks_deep, unmark_deep,
}
use go_cty.Types.{Kind, primitive_type}
use go_cty.Paths.{index_step}
use go_cty.Types.Equality.{equals}
use go_cty.Refinement.{refinement_nullable, tristate_false}
use go_cty.Values.Nulls.{unknown_as_null, list_val_of}
use go_cty.Values.Nulls.Known.{Homogeneous, Nulled, unknown_as_null-Nulled}
use go_cty.Values.Walk.{range_deep_values}
use go_cty.Values.Walk.Order.{listing, loop, range_deep_values-listing}
use go_cty.Values.Walk.Search.{marked_body, contains_marked-range_deep_values}
use go_cty.Values.Logic.{not_val, and_val, or_val}
use go_cty.Values.Logic.Exact.{Answers, reaches, may_be, logic_exact}
use go_cty.Values.WellMarked.{wrangle_marks_deep-is_well_marked}
use go_cty.Values.Stripping.{is_well_marked, strip_marks}
use go_cty.Values.Unmarking.{unmark_deep-strip_marks}

instance abbrev plain_numbers : Numbers ℕ
plain_numbers = record { of_nat = λ n. n }

-- cty.TupleVal([]cty.Value{cty.True.Mark(1), cty.NumberIntVal(5)}).WithMarks(2, 3)
abbrev pair_of_two : Value ℕ ℕ
pair_of_two =
    marked_val
      (tuple_val
        (value_then (marked_val (bool_val true) (1 ∷ [])) (value_then (number_val 5) no_values)))
      (2 ∷ 3 ∷ [])

unmark_deep-strip_marks_example :
    ((unmark_deep pair_of_two).0 ≡ strip_marks pair_of_two)
    × (contains_marked (unmark_deep pair_of_two).0 ≡ false)
    × (has_member 1 (unmark_deep pair_of_two).1 ≡ has_mark_deep 1 pair_of_two)
unmark_deep-strip_marks_example = unmark_deep-strip_marks pair_of_two 1 refl

unmark_deep_all :
    unmark_deep pair_of_two
    ≡ (tuple_val (value_then (bool_val true) (value_then (number_val 5) no_values)), 1 ∷ 3 ∷ 2 ∷ [])
unfolding unmark_deep
unmark_deep_all = refl

-- A wrangler that drops mark 3, moves mark 1 to the root and turns mark 2 into mark 7.
abbrev mixed : Wrangler ℕ ℕ ⊥ ℕ
mixed (suc zero) path s = record { action = some wrangle_expand; err = none; state = s }
mixed (suc (suc zero)) path s = record { action = some (wrangle_replace 7); err = none; state = s }
mixed (suc (suc (suc zero))) path s = record { action = some wrangle_drop; err = none; state = s }
mixed m path s = record { action = none; err = none; state = s }

wrangle_mixed :
    (wrangle_marks_deep (mixed ∷ []) 0 pair_of_two).0
    ≡ marked_val
        (tuple_val
          (value_then (marked_val (bool_val true) (1 ∷ [])) (value_then (number_val 5) no_values)))
        (1 ∷ 7 ∷ [])
unfolding wrangle_marks_deep
wrangle_mixed = refl

-- The paths of DeepValues, which visits a marked value before what is in it.
deep_paths :
    range_deep_values (λ path v seen. (true, path ∷ seen)) pair_of_two []
    ≡ (index_step (number_val 1) ∷ []) ∷ (index_step (number_val 0) ∷ []) ∷ [] ∷ []
unfolding range_deep_values
deep_paths = refl

range_deep_values-listing_example :
    range_deep_values marked_body pair_of_two false
    ≡ (loop marked_body (listing [] pair_of_two) false).1
range_deep_values-listing_example = range_deep_values-listing marked_body pair_of_two false

contains_marked-range_deep_values_example :
    range_deep_values marked_body pair_of_two false ≡ contains_marked pair_of_two
contains_marked-range_deep_values_example = contains_marked-range_deep_values pair_of_two

abbrev secret_false : Value ℕ ℕ
secret_false = marked_val (bool_val false) (4 ∷ [])

abbrev some_bool : Value ℕ ℕ
some_bool = marked_val (unknown_val (primitive_type Kind.bool) none) (5 ∷ [])

logic_exact_example :
    Answers
      (and_val secret_false some_bool)
      (reaches (λ a b. a && b) (unmark_force secret_false) (unmark_force some_bool))
      (λ j. has_mark j secret_false || has_mark j some_bool)
    × Answers
        (or_val secret_false some_bool)
        (reaches (λ a b. a || b) (unmark_force secret_false) (unmark_force some_bool))
        (λ j. has_mark j secret_false || has_mark j some_bool)
    × Answers
        (not_val secret_false)
        (λ c. may_be (unmark_force secret_false) (not c))
        (λ j. has_mark j secret_false)
logic_exact_example = logic_exact secret_false some_bool refl refl

and_decided : and_val secret_false some_bool ≡ some (marked_val (bool_val false) (5 ∷ 4 ∷ []))
unfolding and_val equals type_of with_marks
and_decided = refl

-- A null operand panics only where the other one is known.
and_null :
    (and_val {N = ℕ} {M = ℕ} (null_val (primitive_type Kind.bool)) (bool_val false) ≡ none)
    × (and_val {N = ℕ} {M = ℕ}
          (null_val (primitive_type Kind.bool))
          (unknown_val (primitive_type Kind.bool) none)
        ≡ some (unknown_val (primitive_type Kind.bool) (some (refinement_nullable tristate_false))))
unfolding and_val equals type_of
and_null = (refl, refl)

wrangle_marks_deep-is_well_marked_example :
    (is_well_marked (mark 8 pair_of_two) ≡ true)
    × (is_well_marked (with_marks ((3 ∷ []) ∷ []) pair_of_two) ≡ true)
    × (is_well_marked (unmark_force pair_of_two) ≡ true)
    × (is_well_marked (wrangle_marks_deep (mixed ∷ []) 0 pair_of_two).0 ≡ true)
wrangle_marks_deep-is_well_marked_example =
    wrangle_marks_deep-is_well_marked (mixed ∷ []) 0 ((3 ∷ []) ∷ []) 8 pair_of_two refl

-- cty.TupleVal([unknown number, cty.ListVal([unknown bool, true])]).Mark(1)
abbrev with_unknowns : Value ℕ ℕ
with_unknowns =
    marked_val
      (tuple_val (
        value_then (unknown_val (primitive_type Kind.number) none) (
          value_then
            (list_val (primitive_type Kind.bool) (
              value_then (unknown_val (primitive_type Kind.bool) none)
                (value_then (bool_val true) no_values)))
            no_values)))
      (1 ∷ [])

-- SetVal of what has no elements is a panic; the values here have no sets.
abbrev no_set_val : Values ℕ ℕ → Option (Value ℕ ℕ)
no_set_val vs = none

unknown_as_null_all :
    unknown_as_null no_set_val with_unknowns
    ≡ some (
        marked_val
          (tuple_val (
            value_then (null_val (primitive_type Kind.number)) (
              value_then
                (list_val (primitive_type Kind.bool) (
                  value_then
                    (null_val (primitive_type Kind.bool))
                    (value_then (bool_val true) no_values)))
                no_values)))
          (1 ∷ []))
unfolding unknown_as_null list_val_of with_marks type_of equals
unknown_as_null_all = refl

with_unknowns-Homogeneous : Homogeneous with_unknowns
unfolding type_of
with_unknowns-Homogeneous = (tt, ((tt, (refl, (refl, tt)), (tt, (tt, tt))), tt))

unknown_as_null-Nulled_example : Nulled with_unknowns (unknown_as_null no_set_val with_unknowns)
unknown_as_null-Nulled_example =
    unknown_as_null-Nulled no_set_val with_unknowns with_unknowns-Homogeneous
