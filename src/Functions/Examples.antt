-- ===== src/Functions/Examples.antt =====
-- Calls of small functions over natural numbers, with natural numbers as marks.
use go_cty.Prelude.{
  ℕ, ◌+◌, ◌≡◌, refl, inr, true, false, none, some, String, List, [], ◌∷◌, nat_eq, string_eq, arith,
}
use go_cty.Types.{CtyType, Kind, primitive_type, pseudo_type_dynamic}
use go_cty.Types.Equality.{equals}
use go_cty.Types.Conformance.{test_conformance, type_required}
use go_cty.Values.{
  Value, bool_val, list_val, set_val, map_val, tuple_val, object_val, capsule_val, contains_marked,
  has_mark_deep, number_val, string_val, null_val, unknown_val, marked_val, type_of, with_marks,
  has_mark,
}
use go_cty.Values.Wrangle.{Numbers, unmark_deep}
use go_cty.Functions.{
  Parameter, Spec, ImplFunc, returns, fails, panics, prepare, result, call_error, arg_error,
  must_not_be_null, nonconforming, panic_error, callback_panic, at_least_required, return_type,
  return_type_for_values,
}
use go_cty.Functions.Calling.{call, unpredictable}
use go_cty.Functions.Calls.{call-FitsAll}
use go_cty.Functions.Results.{call-test_conformance, call-unpredictable}
use go_cty.Functions.Arguments.{FitsAll}
use go_cty.Functions.Marking.{is_carried, call-is_carried}
use go_cty.Functions.Descriptions.{with_new_descriptions, call-with_new_descriptions}

instance abbrev plain_numbers : Numbers ℕ
plain_numbers = record { of_nat = λ n. n }

abbrev number : CtyType
number = primitive_type Kind.number

abbrev operand : Parameter
operand = record {
  name = "num";
  description = "";
  param_type = number;
  allow_null = false;
  allow_unknown = false;
  allow_dynamic_type = false;
  allow_marked = false;
}

abbrev sum : ImplFunc ℕ ℕ String
sum [] t = returns (number_val 0)
sum (number_val n ∷ rest) t = elim (sum rest t) [
  | returns v ↦ elim v [ number_val m ↦ returns (number_val (n + m)) | _ ↦ panics "not a number" ]
  | fails x ↦ fails x
  | panics x ↦ panics x
]
sum (v ∷ rest) t = panics "not a number"

abbrev adder : Spec ℕ ℕ String
adder = record {
  description = "adds";
  params = operand ∷ [];
  var_param = some operand;
  type_func = λ _. returns number;
  refine_result = none;
  impl = sum;
}

-- One and two, the second with mark 7.
abbrev one_two : List (Value ℕ ℕ)
one_two = number_val 1 ∷ marked_val (number_val 2) (7 ∷ []) ∷ []

abbrev three : Value ℕ ℕ
three = marked_val (number_val 3) (7 ∷ [])

adds : call adder one_two ≡ result three
unfolding call type_of test_conformance equals with_marks unmark_deep
adds = refl

adds_unknown :
    call adder (number_val 1 ∷ marked_val (unknown_val number none) (7 ∷ []) ∷ [])
    ≡ result (marked_val (unknown_val number none) (7 ∷ []))
unfolding call type_of test_conformance equals with_marks unmark_deep
adds_unknown = refl

adds_null :
    call adder (number_val 1 ∷ null_val number ∷ []) ≡ call_error (arg_error 1 must_not_be_null)
unfolding call type_of test_conformance equals with_marks unmark_deep
adds_null = refl

-- The index of a variadic argument of another type leaves out the positional ones.
adds_text :
    call adder (number_val 1 ∷ string_val "2" ∷ [])
    ≡ call_error
        (arg_error 0 (nonconforming ([], type_required number (primitive_type Kind.string))))
unfolding call type_of test_conformance equals with_marks unmark_deep
adds_text = refl

adds_nothing : call adder [] ≡ call_error (at_least_required 1 0)
unfolding call type_of test_conformance equals with_marks unmark_deep
adds_nothing = refl

-- A dynamically typed argument ends the check before the null that follows it.
adds_dynamic :
    call adder (unknown_val pseudo_type_dynamic none ∷ null_val number ∷ [])
    ≡ result (unknown_val pseudo_type_dynamic none)
unfolding call type_of test_conformance equals with_marks unmark_deep
adds_dynamic = refl

panicking :
    call (record adder { impl = λ _ _. panics "boom" }) one_two
    ≡ call_error (panic_error (callback_panic "boom"))
unfolding call type_of test_conformance equals with_marks unmark_deep
panicking = refl

static_type : return_type adder (number ∷ number ∷ []) ≡ inr number
unfolding return_type type_of test_conformance equals
static_type = refl

-- A function of one number, and another one that differs on null and marked arguments and on no
-- arguments.
abbrev plus_one : ImplFunc ℕ ℕ String
plus_one (number_val n ∷ rest) t = returns (number_val (n + 1))
plus_one _ t = panics "not a number"

abbrev plus_one_or_fail : ImplFunc ℕ ℕ String
plus_one_or_fail [] t = fails "no argument"
plus_one_or_fail (null_val u ∷ rest) t = fails "null"
plus_one_or_fail (marked_val v ms ∷ rest) t = fails "marked"
plus_one_or_fail vs t = plus_one vs t

abbrev successor : Spec ℕ ℕ String
successor = record {
  description = "adds one";
  params = operand ∷ [];
  var_param = none;
  type_func = λ _. returns number;
  refine_result = none;
  impl = plus_one;
}

marked_cannot : (v : Value ℕ ℕ) (ms : List ℕ) → contains_marked (marked_val v ms) ≡ false → ⊥
unfolding contains_marked
marked_cannot v ms h = ground arith

plus_one-same :
    (given : List (Value ℕ ℕ)) (t : CtyType)
    → FitsAll (operand ∷ []) none given
    → plus_one given t ≡ plus_one_or_fail given t
plus_one-same [] t h = absurd h
plus_one-same (null_val u ∷ rest) t h = absurd (ground (arith, h.0.1 refl))
plus_one-same (marked_val v ms ∷ rest) t h = absurd (marked_cannot v ms (h.0.0 refl))
plus_one-same (unknown_val u r ∷ rest) t h = refl
plus_one-same (bool_val b ∷ rest) t h = refl
plus_one-same (number_val n ∷ rest) t h = refl
plus_one-same (string_val x ∷ rest) t h = refl
plus_one-same (list_val u vs ∷ rest) t h = refl
plus_one-same (set_val u vs ∷ rest) t h = refl
plus_one-same (map_val u fs ∷ rest) t h = refl
plus_one-same (tuple_val vs ∷ rest) t h = refl
plus_one-same (object_val fs ∷ rest) t h = refl
plus_one-same (capsule_val u x ∷ rest) t h = refl

abbrev marked_two : List (Value ℕ ℕ)
marked_two = marked_val (number_val 2) (7 ∷ []) ∷ []

call-FitsAll_example :
    call successor marked_two ≡ call (record successor { impl = plus_one_or_fail }) marked_two
call-FitsAll_example = call-FitsAll successor plus_one_or_fail marked_two refl plus_one-same

typed : return_type_for_values adder one_two ≡ inr (number, false)
unfolding return_type_for_values type_of test_conformance equals unmark_deep
typed = refl

call-test_conformance_example : test_conformance (type_of three) number ≡ []
call-test_conformance_example =
    call-test_conformance adder one_two three number false tt tt typed adds

carried : is_carried 7 (operand ∷ []) (some operand) one_two ≡ true
unfolding has_mark_deep
carried = refl

call-is_carried_example : has_mark 7 three ≡ true
call-is_carried_example = call-is_carried adder one_two three 7 refl adds carried

call-unpredictable_example :
    call (unpredictable adder) one_two
    ≡ result (with_marks (prepare adder one_two).result_marks (unknown_val number none))
call-unpredictable_example = call-unpredictable adder one_two number false tt refl typed

abbrev renamed : Spec ℕ ℕ String
renamed = record {
  description = "sum";
  params = record operand { description = "first" } ∷ [];
  var_param = some (record operand { description = "others" });
  type_func = λ _. returns number;
  refine_result = none;
  impl = sum;
}

renames : with_new_descriptions adder "sum" ("first" ∷ "others" ∷ []) ≡ some renamed
unfolding with_new_descriptions
renames = refl

call-with_new_descriptions_example : call renamed one_two ≡ call adder one_two
call-with_new_descriptions_example =
    call-with_new_descriptions adder renamed "sum" ("first" ∷ "others" ∷ []) one_two renames
