-- ===== src/Refinement/Examples.antt =====
-- Tests of the builder, over numbers with two infinities, and the theorems at concrete builders.
use go_cty.Prelude.{
  ℕ, ◌≡◌, refl, Bool, true, false, ◌&&◌, none, some, Option, List, [], ◌∷◌, all, ltb, arith,
}
use go_cty.Types.{Kind, primitive_type, type_set, type_list, capsule_type}
use go_cty.Refinement.{
  NumberOrder, tristate_false, tristate_unknown, Refinement, refinement_string, refinement_number,
  refinement_collection, Value, unknown_val, number_val, collection_val, no_values, value_then,
}
use go_cty.Refinement.Builder.{Builder, refine, collection_length}
use go_cty.Refinement.Numbers.{new_value, number_range_inclusive}
use go_cty.Refinement.Meaning.{number_outcome, length_outcome, allows, denotes, is_valid}
use go_cty.Refinement.Requests.{
  Request, ask_not_null, ask_lower, ask_upper, ask_prefix, run, run_all, refine_with, meets,
  allows-run,
}
use go_cty.Refinement.Completion.{run-is_valid, new_value-denotes, refine_with-denotes}
use go_cty.Refinement.Panics.{run-none}
use go_cty.Refinement.Comparison.{less_than_val, greater_than_val, less_than_val-denotes}
use go_cty.Refinement.Range.{range, within, within-range}

data Extended : Type 0 where
  lowest highest : Extended
  finite : ℕ → Extended

-- Room for slices of fewer than a hundred values.
abbrev room : ℕ → Bool
room n = ltb n 100

abbrev extended_less : Extended → Extended → Bool
extended_less lowest lowest = false
extended_less lowest _ = true
extended_less highest _ = false
extended_less (finite a) lowest = false
extended_less (finite a) highest = true
extended_less (finite a) (finite b) = ltb a b

abbrev is_lowest : Extended → Bool
is_lowest lowest = true
is_lowest _ = false

abbrev is_highest : Extended → Bool
is_highest highest = true
is_highest _ = false

instance abbrev extended_order : NumberOrder Extended
extended_order = record {
  less = extended_less;
  asymm = λ a b h. ground arith;
  neg_trans = λ a b c h k. ground arith;
  neg_inf = lowest;
  pos_inf = highest;
  neg_inf_lowest = λ a. ground arith;
  pos_inf_highest = λ a. ground arith;
  is_neg_inf = is_lowest;
  is_pos_inf = is_highest;
  is_neg_inf_lowest = λ a b h. ground arith;
  is_pos_inf_highest = λ a b h. ground arith;
}

abbrev same_text : List ℕ → List ℕ
same_text s = s

abbrev some_number : Value Extended
some_number = unknown_val (primitive_type Kind.number) none

abbrev requests : List (Request Extended)
requests = ask_not_null ∷ ask_lower (finite 3) true ∷ ask_upper (finite 7) false ∷ []

abbrev three_to_seven : Refinement Extended
three_to_seven =
    refinement_number tristate_false
      record { min = some (finite 3); max = some (finite 7); min_inc = true; max_inc = false }

refined_number :
    refine_with same_text room requests some_number
    ≡ some (unknown_val (primitive_type Kind.number) (some three_to_seven))
unfolding refine_with refine run_all run new_value
refined_number = refl

collapsed_number :
    refine_with same_text room
      (ask_lower (finite 3) true ∷ ask_upper (finite 3) true ∷ ask_not_null ∷ [])
      some_number
    ≡ some (number_val (finite 3))
unfolding refine_with refine run_all run new_value
collapsed_number = refl

overlapping_prefix :
    refine_with {N = Extended} same_text room
      (ask_prefix (1 ∷ 2 ∷ []) ∷ ask_prefix (1 ∷ []) ∷ [])
      (unknown_val (primitive_type Kind.string) none)
    ≡ some (
        unknown_val
          (primitive_type Kind.string)
          (some (refinement_string tristate_unknown (1 ∷ 2 ∷ []))))
unfolding refine_with refine run_all run new_value
overlapping_prefix = refl

-- A list of known length becomes a known list of unknown elements.
abbrev listed : Option (Builder Extended)
unfolding run refine
listed = run same_text ask_not_null (refine (unknown_val (type_list (capsule_type 1)) none))

abbrev listed_one : Option (Builder Extended)
unfolding run refine collection_length
listed_one = elim listed [ none ↦ none | some b ↦ collection_length 1 b ]

collapsed_list :
    elim listed_one [ none ↦ none | some b ↦ new_value room b ]
    ≡ some (
        collection_val
          (type_list (capsule_type 1))
          (value_then (unknown_val (capsule_type 1) none) no_values))
unfolding refine run new_value collection_length
collapsed_list = refl

-- For a list whose settled length is too large NewValue panics.
abbrev endless : Builder Extended
endless = record {
  orig = unknown_val (type_list (capsule_type 1)) none;
  wip = some (refinement_collection tristate_false 100 100);
}

endless_list : new_value room endless ≡ none
unfolding new_value
endless_list = refl

-- A known number outside the range panics, and one inside does not.
asserted_number :
    elim (number_range_inclusive
      (number_val (finite 1))
      (number_val (finite 4))
      (refine (number_val (finite 5)))) [ none ↦ none | some b ↦ new_value room b ]
    ≡ none
unfolding refine new_value number_range_inclusive
asserted_number = refl

abbrev one_element : Builder Extended
one_element = record {
  orig = unknown_val (type_set (capsule_type 1)) none;
  wip = some (refinement_collection tristate_false 1 1);
}

refine_with-denotes_example :
    denotes
      (unknown_val (primitive_type Kind.number) (some three_to_seven))
      (number_outcome (finite 7))
    ≡ (denotes some_number (number_outcome (finite 7))
        && all (λ q. meets same_text q (number_outcome (finite 7))) requests)
refine_with-denotes_example =
    refine_with-denotes same_text room requests some_number
      (unknown_val (primitive_type Kind.number) (some three_to_seven)) (number_outcome (finite 7))
      refl refl refined_number

new_value-denotes_example :
    (v : Value Extended) × (new_value room one_element ≡ some v)
    × (denotes v (length_outcome 1) ≡ allows one_element (length_outcome 1))
new_value-denotes_example =
    new_value-denotes same_text room one_element (length_outcome 1) refl refl refl refl

abbrev lower_builder : Builder Extended
lower_builder = record {
  orig = some_number;
  wip = some (
      refinement_number tristate_unknown
        record { min = some (finite 3); max = none; min_inc = true; max_inc = false });
}

abbrev raised_builder : Builder Extended
raised_builder = record {
  orig = some_number;
  wip = some (
      refinement_number tristate_unknown
        record { min = some (finite 3); max = none; min_inc = false; max_inc = false });
}

raised : run same_text (ask_lower (finite 3) false) lower_builder ≡ some raised_builder
unfolding run
raised = refl

crossed : run same_text (ask_upper (finite 2) true) lower_builder ≡ none
unfolding run
crossed = refl

allows-run_example : allows raised_builder (number_outcome (finite 3)) ≡ (
    allows lower_builder (number_outcome (finite 3))
    && meets same_text (ask_lower (finite 3) false) (number_outcome (finite 3)))
allows-run_example =
    allows-run same_text (ask_lower (finite 3) false) lower_builder raised_builder
      (number_outcome (finite 3)) refl refl raised

run-is_valid_example : (raised_builder.orig ≡ lower_builder.orig) × (is_valid raised_builder ≡ true)
run-is_valid_example =
    run-is_valid same_text (ask_lower (finite 3) false) lower_builder raised_builder refl refl
      raised

run-none_example :
    (denotes some_number (number_outcome (finite 2))
      && allows lower_builder (number_outcome (finite 2))
      && meets same_text (ask_upper (finite 2) true) (number_outcome (finite 2)))
    ≡ false
run-none_example =
    run-none same_text (ask_upper (finite 2) true) some_number
      (refinement_number tristate_unknown
        record { min = some (finite 3); max = none; min_inc = true; max_inc = false })
      (number_outcome (finite 2)) refl refl refl refl (λ e. absurd (ground arith)) crossed

within-range_example :
    within
      (range (unknown_val (primitive_type Kind.number) (some three_to_seven)))
      (number_outcome (finite 4))
    ≡ true
within-range_example =
    within-range (unknown_val (primitive_type Kind.number) (some three_to_seven))
      (number_outcome (finite 4)) refl refl refl

-- A number without bounds may be the lowest infinity, and its range says no.
abbrev present_number : Value Extended
present_number = unknown_val (primitive_type Kind.number) (
    some (
      refinement_number tristate_false
        record { min = none; max = none; min_inc = false; max_inc = false }))

present_number-within :
    (denotes present_number (number_outcome lowest) ≡ true)
    × (within (range present_number) (number_outcome lowest) ≡ false)
unfolding range
present_number-within = (refl, refl)

-- A number of at most three, not known yet, is less than five.
abbrev at_most_three : Value Extended
at_most_three = unknown_val (primitive_type Kind.number) (
    some (
      refinement_number tristate_false
        record { min = none; max = some (finite 3); min_inc = false; max_inc = true }))

less_than_five : less_than_val at_most_three (number_val (finite 5)) ≡ some (some true)
unfolding less_than_val
less_than_five = refl

-- Bounds that touch leave the answer open, even where one of them is exclusive.
less_than_three : less_than_val at_most_three (number_val (finite 3)) ≡ some none
unfolding less_than_val
less_than_three = refl

less_than_val-denotes_example :
    (extended_less (finite 2) (finite 5) ≡ true)
    × (greater_than_val (number_val (finite 5)) at_most_three ≡ some (some true))
less_than_val-denotes_example =
    less_than_val-denotes at_most_three (number_val (finite 5)) (finite 2) (finite 5) true refl refl
      less_than_five
