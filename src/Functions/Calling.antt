-- ===== src/Functions/Calling.antt =====
-- Call and Unpredictable (cty/function/function.go and unpredictable.go), after the checks of the
-- arguments.
use go_cty.Prelude.{
  ◌⊎◌, inl, inr, Bool, ◌||◌, not, Option, none, some, List, [], ◌∷◌, Equatable, nat_eq,
  if◌then◌else◌,
}
use go_cty.Types.{CtyType, is_dynamic}
use go_cty.Types.Conformance.{Errors, test_conformance}
use go_cty.Values.{Value, unknown_val, type_of, is_known, marks, unmark_force, with_marks}
use go_cty.Values.Wrangle.{Numbers}
use go_cty.Functions.{
  CallError, Callback, Called, Prepared, Spec, call_error, callback_error, callback_panic, fails,
  panic_error, panics, prepare, refinement_panic, result, return_type_for_values, returns,
  unexpected_result,
}

module _ {N M E : Type 0} ⦃e : Equatable M⦄ where
  -- The result of Impl must conform to the type of the TypeFunc: the panic is intercepted.
  abbrev pub result_unless : Errors → CtyType → Value N M → Called N M E
  result_unless [] expected val = result val
  result_unless (err ∷ errs) expected val =
      call_error (panic_error (unexpected_result val expected err))

  abbrev pub result_of_type : CtyType → Value N M → Called N M E
  result_of_type expected val = result_unless (test_conformance (type_of val) expected) expected val

  -- The call of Impl, with the marks on its result.
  abbrev pub run_impl : CtyType → List (List M) → Callback E (Value N M) → Called N M E
  run_impl expected result_marks (fails x) = call_error (callback_error x)
  run_impl expected result_marks (panics x) = call_error (panic_error (callback_panic x))
  run_impl expected result_marks (returns val) =
      result_of_type expected (with_marks result_marks val)

  -- RefineWith: the marks are taken off, and put on again at the end.
  abbrev pub remarked : List M → Option (Value N M) → Called N M E
  remarked ms none = refinement_panic
  remarked ms (some refined) = result (with_marks (ms ∷ []) refined)

  abbrev pub refine_with : (Value N M → Option (Value N M)) → Value N M → Called N M E
  refine_with refine val = remarked (marks val) (refine (unmark_force val))

  -- The deferred refinement of the result.
  abbrev pub refine_returned : Option (Value N M → Option (Value N M)) → Called N M E → Called N M E
  refine_returned (some refine) (result val) =
      if is_known val || not (is_dynamic (type_of val)) then refine_with refine val else result val
  refine_returned refine called = called

module _ {N M E : Type 0} ⦃e : Equatable M⦄ ⦃num : Numbers N⦄ where
  -- Call after the check of the types.
  abbrev pub call_prepared : Spec N M E → CtyType → Bool → Prepared N M → Called N M E
  call_prepared spec expected dyn_type_args ready =
      let called =
        if dyn_type_args || ready.return_unknown
        then result (with_marks ready.result_marks (unknown_val expected none))
        else run_impl expected ready.result_marks (spec.impl ready.args expected) in
      refine_returned (if dyn_type_args then none else spec.refine_result) called

  unfoldable pub call_typed : Spec N M E → CtyType → Bool → List (Value N M) → Called N M E
  unfolding prepare
  call_typed spec expected dyn_type_args args =
      call_prepared spec expected dyn_type_args (prepare spec args)

  -- Call
  unfoldable pub call_when_typed :
      Spec N M E → List (Value N M) → CallError N M E ⊎ (CtyType × Bool) → Called N M E
  unfolding call_typed
  call_when_typed spec args (inl err) = call_error err
  call_when_typed spec args (inr (expected, dyn_type_args)) =
      call_typed spec expected dyn_type_args args

  unfoldable pub call : Spec N M E → List (Value N M) → Called N M E
  unfolding return_type_for_values call_when_typed
  call spec args = call_when_typed spec args (return_type_for_values spec args)

  -- Unpredictable
  unfoldable pub unpredictable : Spec N M E → Spec N M E
  unpredictable spec = record spec { impl = λ args ret_type. returns (unknown_val ret_type none) }
