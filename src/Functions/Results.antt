-- ===== src/Functions/Results.antt =====
-- The type and the marks of what Call returns.
use go_cty.Prelude.{
  ◌≡◌, refl, sym, ap, ◌∙◌, ◌⊎◌, inl, inr, Bool, true, false, ◌||◌, not, Bool-cases, Option, none,
  some, List, [], ◌∷◌, any, Equatable, arith, if◌then◌else◌,
}
use go_cty.Types.{is_dynamic, CtyType}
use go_cty.Types.SameType.{SameType-refl}
use go_cty.Types.Depth.{WellFormed}
use go_cty.Types.Conformance.{test_conformance, Errors}
use go_cty.Types.Conformance.Spec.{SameType-Conforms}
use go_cty.Types.Conformance.Complete.{test_conformance_iff}
use go_cty.Values.{
  Value, null_val, unknown_val, bool_val, number_val, string_val, list_val, set_val, map_val,
  tuple_val, object_val, capsule_val, marked_val, type_of, unmark_force, is_known, marks, any_marks,
  has_member, has_mark, with_marks,
}
use go_cty.Values.Marks.{has_mark-with_marks}
use go_cty.Values.Wrangle.{Numbers}
use go_cty.Functions.{
  Spec, Callback, returns, fails, panics, Called, result, call_error, refinement_panic, prepare,
  return_type_for_values, check_args,
}
use go_cty.Functions.Calling.{
  result_unless, run_impl, remarked, refine_returned, call_typed, call_when_typed, call,
  unpredictable,
}

test_conformance_refl : (t : CtyType) → WellFormed t → test_conformance t t ≡ []
test_conformance_refl t w = (test_conformance_iff t t w w).1 (SameType-Conforms (SameType-refl t))

module _ {N M : Type 0} where
  type_of-unmark_force : (v : Value N M) → type_of (unmark_force v) ≡ type_of v
  unfolding type_of
  type_of-unmark_force (marked_val v ms) = refl
  type_of-unmark_force (null_val t) = refl
  type_of-unmark_force (unknown_val t r) = refl
  type_of-unmark_force (bool_val b) = refl
  type_of-unmark_force (number_val n) = refl
  type_of-unmark_force (string_val s) = refl
  type_of-unmark_force (list_val t vs) = refl
  type_of-unmark_force (set_val t vs) = refl
  type_of-unmark_force (map_val t fs) = refl
  type_of-unmark_force (tuple_val vs) = refl
  type_of-unmark_force (object_val fs) = refl
  type_of-unmark_force (capsule_val t p) = refl

  -- A refinement that does not change the type, as NewValue does not.
  abbrev pub KeepsType : Option (Value N M → Option (Value N M)) → Type 0
  KeepsType none = Unit
  KeepsType (some refine) = (x y : Value N M) → refine x ≡ some y → type_of y ≡ type_of x

  keeps_unless :
      (b : Bool) (r : Option (Value N M → Option (Value N M)))
      → KeepsType r
      → KeepsType (if b then none else r)
  keeps_unless true r k = tt
  keeps_unless false r k = k

module _ {N M : Type 0} ⦃e : Equatable M⦄ where
  type_of-with_marks : (ss : List (List M)) (v : Value N M) → type_of (with_marks ss v) ≡ type_of v
  unfolding with_marks type_of
  type_of-with_marks [] v = refl
  type_of-with_marks (s ∷ ss) v = elim (Bool-cases (any_marks (marks v ∷ s ∷ ss))) [
    | inl y ↦ rw y (type_of-unmark_force v)
    | inr n ↦ rw n refl
  ]

module _ {N M E : Type 0} ⦃e : Equatable M⦄ where
  result_inj : {v w : Value N M} → ◌≡◌ {A = Called N M E} (result v) (result w) → v ≡ w
  result_inj h = ground arith

  remarked-keeps :
      (refine : Value N M → Option (Value N M)) (w v : Value N M) (o : Option (Value N M))
      → refine (unmark_force w) ≡ o
      → remarked {E = E} (marks w) o ≡ result v
      → ((j : M) → has_mark j w ≡ true → has_mark j v ≡ true)
        × (KeepsType (some refine) → type_of v ≡ type_of w)
  remarked-keeps refine w v none eq h = absurd (ground arith)
  remarked-keeps refine w v (some x) eq h =
      let same = result_inj h in
      (
        λ j k.
            ap (has_mark j) (sym same)
            ∙ ground (arith, (has_mark-with_marks (marks w ∷ []) x j).1, k),
        λ keeps.
            ap type_of (sym same)
            ∙ (type_of-with_marks (marks w ∷ []) x
                ∙ (keeps (unmark_force w) x eq ∙ type_of-unmark_force w)),
      )

  either :
      (b : Bool) (c : Called N M E) (w v : Value N M)
      → (if b then c else result w) ≡ result v
      → (c ≡ result v) ⊎ (◌≡◌ {A = Called N M E} (result w) (result v))
  either true c w v h = inl h
  either false c w v h = inr h

  unchanged-keeps :
      (w v : Value N M)
      → ◌≡◌ {A = Called N M E} (result w) (result v)
      → ((j : M) → has_mark j w ≡ true → has_mark j v ≡ true) × (type_of v ≡ type_of w)
  unchanged-keeps w v h =
      (λ j k. ap (has_mark j) (sym (result_inj h)) ∙ k, ap type_of (sym (result_inj h)))

  refine_returned-keeps :
      (r : Option (Value N M → Option (Value N M))) (w v : Value N M)
      → refine_returned {E = E} r (result w) ≡ result v
      → ((j : M) → has_mark j w ≡ true → has_mark j v ≡ true)
        × (KeepsType r → type_of v ≡ type_of w)
  refine_returned-keeps none w v h =
      let (marked, typed) = unchanged-keeps w v h in (marked, λ _. typed)
  refine_returned-keeps (some refine) w v h =
      elim (either (is_known w || not (is_dynamic (type_of w))) _ w v h) [
        | inl y ↦ remarked-keeps refine w v (refine (unmark_force w)) refl y
        | inr n ↦ let (marked, typed) = unchanged-keeps w v n in (marked, λ _. typed)
      ]

  conforming-result :
      (errs : Errors) (expected : CtyType) (w v : Value N M)
      → result_unless {E = E} errs expected w ≡ result v
      → (w ≡ v) × (errs ≡ [])
  conforming-result [] expected w v h = (result_inj h, refl)
  conforming-result (err ∷ errs) expected w v h = absurd (ground arith)

  -- A result without error comes from Impl and conforms.
  run_impl-result :
      (expected : CtyType) (ss : List (List M)) (c : Callback E (Value N M)) (v : Value N M)
      → run_impl expected ss c ≡ result v
      → (x : Value N M) × (with_marks ss x ≡ v)
        × (test_conformance (type_of (with_marks ss x)) expected ≡ [])
  run_impl-result expected ss (fails y) v h = absurd (ground arith)
  run_impl-result expected ss (panics y) v h = absurd (ground arith)
  run_impl-result expected ss (returns x) v h =
      let w = with_marks ss x in
      let (same, conforms) =
        conforming-result (test_conformance (type_of w) expected) expected w v h in
      (x, same, conforms)

  refine_returned-error :
      (r : Option (Value N M → Option (Value N M))) (c : Called N M E) (v : Value N M)
      → refine_returned r c ≡ result v
      → (w : Value N M) × (c ≡ result w) × (refine_returned {E = E} r (result w) ≡ result v)
  refine_returned-error r (result w) v h = (w, refl, h)
  refine_returned-error none (call_error x) v h = absurd (ground arith)
  refine_returned-error none refinement_panic v h = absurd (ground arith)
  refine_returned-error (some r) (call_error x) v h = absurd (ground arith)
  refine_returned-error (some r) refinement_panic v h = absurd (ground arith)

  -- The value before the refinement has the marks of the arguments and conforms.
  before_refinement :
      (expected : CtyType) (ss : List (List M)) (r : Option (Value N M → Option (Value N M)))
      (b : Bool) (c : Callback E (Value N M)) (v : Value N M)
      → refine_returned r
          (if b then result (with_marks ss (unknown_val expected none)) else run_impl expected ss c)
        ≡ result v
      → (x : Value N M) × (WellFormed expected
          → test_conformance (type_of (with_marks ss x)) expected ≡ [])
        × (refine_returned {E = E} r (result (with_marks ss x)) ≡ result v)
  unfolding type_of
  before_refinement expected ss r true c v h = (
    unknown_val expected none,
    λ wf.
        rw (type_of-with_marks ss (unknown_val expected none)) (test_conformance_refl expected wf),
    h,
  )
  before_refinement expected ss r false c v h =
      let (w, ran, kept) = refine_returned-error r (run_impl expected ss c) v h in
      let (x, same, conforms) = run_impl-result expected ss c w ran in
      (x, λ _. conforms, ap (λ y. refine_returned r (result y)) same ∙ kept)

  unknown-result :
      (b : Bool) (t : CtyType) (ss : List (List M)) (c : Callback E (Value N M))
      → WellFormed t
      → c ≡ returns (unknown_val t none)
      → (if b then result (with_marks ss (unknown_val t none)) else run_impl t ss c)
        ≡ result (with_marks ss (unknown_val t none))
  unfolding type_of
  unknown-result true t ss c wf h = refl
  unknown-result false t ss c wf h =
      rw (h, type_of-with_marks ss (unknown_val t none), test_conformance_refl t wf) refl

module _ {N M E : Type 0} ⦃e : Equatable M⦄ ⦃num : Numbers N⦄ where
  pub call_typed-result :
      (spec : Spec N M E) (expected : CtyType) (dyn : Bool) (args : List (Value N M))
      (v : Value N M)
      → call_typed spec expected dyn args ≡ result v
      → (WellFormed expected
          → KeepsType spec.refine_result
          → test_conformance (type_of v) expected ≡ [])
        × ((j : M)
            → any (has_member j) (prepare spec args).result_marks ≡ true
            → has_mark j v ≡ true)
  unfolding call_typed
  call_typed-result spec expected dyn args v h =
      let ss = (prepare spec args).result_marks in
      let r = if dyn then none else spec.refine_result in
      let (x, conforms, kept) =
        before_refinement expected ss r (dyn || (prepare spec args).return_unknown)
          (spec.impl (prepare spec args).args expected) v h in
      let (marked, typed) = refine_returned-keeps r (with_marks ss x) v kept in
      (
        λ wf keeps. rw (typed (keeps_unless dyn spec.refine_result keeps)) (conforms wf),
        λ j m. marked j (ground (arith, (has_mark-with_marks ss x j).1, m)),
      )

  -- The type of what Call returns conforms to the type that ReturnTypeForValues gives for the same
  -- arguments, if that type names each attribute once and the refinement of the result keeps the
  -- type.
  pub call-test_conformance :
      (spec : Spec N M E) (args : List (Value N M)) (v : Value N M) (t : CtyType) (dyn : Bool)
      → WellFormed t
      → KeepsType spec.refine_result
      → return_type_for_values spec args ≡ inr (t, dyn)
      → call spec args ≡ result v
      → test_conformance (type_of v) t ≡ []
  unfolding call call_when_typed
  call-test_conformance spec args v t dyn wf keeps r h =
      (call_typed-result spec t dyn args v (ap (call_when_typed spec args) (sym r) ∙ h)).0 wf keeps

  unrefined :
      (b : Bool) (r : Option (Value N M → Option (Value N M))) (c : Called N M E)
      → r ≡ none
      → refine_returned (if b then none else r) c ≡ c
  unrefined true none c h = refl
  unrefined false none c h = refl
  unrefined b (some r) c h = absurd (ground arith)

  -- A function that Unpredictable makes never fails once its arguments pass the check of the types:
  -- it returns the unknown value of the type that the original function has for the arguments,
  -- with the marks that the loops over the arguments collect. The type names each attribute once,
  -- and the function has no refinement for its result.
  pub call-unpredictable :
      (spec : Spec N M E) (args : List (Value N M)) (t : CtyType) (dyn : Bool)
      → WellFormed t
      → spec.refine_result ≡ none
      → return_type_for_values spec args ≡ inr (t, dyn)
      → call (unpredictable spec) args
        ≡ result (with_marks (prepare spec args).result_marks (unknown_val t none))
  unfolding call unpredictable call_when_typed return_type_for_values call_typed check_args prepare
  call-unpredictable spec args t dyn wf none_given r =
      ap (call_when_typed (unpredictable spec) args) r
      ∙ (unrefined dyn spec.refine_result _ none_given
          ∙ unknown-result (dyn || (prepare spec args).return_unknown) t
              (prepare spec args).result_marks (returns (unknown_val t none)) wf refl)
