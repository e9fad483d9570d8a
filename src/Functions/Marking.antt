-- ===== src/Functions/Marking.antt =====
-- The marks of the arguments on what Call returns.
use go_cty.Prelude.{
  ◌≡◌, refl, sym, ◌∙◌, ◌⊎◌, inl, inr, Bool, true, false, ◌&&◌, ◌||◌, not, Option, none, some, List,
  [], ◌∷◌, length, take, any, all, any-append, Equatable, arith, and_true, if◌then◌else◌,
}
use go_cty.Prelude.Lists.{drop}
use go_cty.Types.{CtyType}
use go_cty.Values.{Value, has_member, has_mark, has_mark_deep}
use go_cty.Values.Marks.{is_empty}
use go_cty.Values.Wrangle.{Numbers, unmark_deep}
use go_cty.Values.Stripping.{is_well_marked}
use go_cty.Values.Unmarking.{unmark_deep-strip_marks}
use go_cty.Functions.{
  Parameter, Spec, result, CallError, Prepared, prepare_arg, prepare_positional, prepare_variadic,
  prepare, return_type_for_values,
}
use go_cty.Functions.Calling.{call_when_typed, call}
use go_cty.Functions.Results.{call_typed-result}

module _ {M : Type 0} ⦃e : Equatable M⦄ where
  chosen_marks :
      (j : M) (marked : Bool) (found : List M) (rest : List (List M)) (deep : Bool)
      → has_member j found ≡ deep
      → any (has_member j) (if not marked && not (is_empty found) then found ∷ rest else rest)
        ≡ (not marked && deep || any (has_member j) rest)
  chosen_marks j true found rest deep h = refl
  chosen_marks j false [] rest deep h = rw (sym h) refl
  chosen_marks j false (m ∷ ms) rest deep h = rw (sym h) refl

module _ {N M : Type 0} ⦃e : Equatable M⦄ where
  -- Whether a mark stands anywhere in an argument whose parameter does not allow marks.
  abbrev pub is_carried : M → List Parameter → Option Parameter → List (Value N M) → Bool
  is_carried j (p ∷ ps) var (v ∷ vs) =
      (not p.allow_marked && has_mark_deep j v) || is_carried j ps var vs
  is_carried j [] (some p) (v ∷ vs) =
      (not p.allow_marked && has_mark_deep j v) || is_carried j [] (some p) vs
  is_carried j ps var vs = false

module _ {N M : Type 0} ⦃e : Equatable M⦄ ⦃num : Numbers N⦄ where
  prepare_arg-is_carried :
      (j : M) (p : Parameter) (v : Value N M) (rest : Prepared N M)
      → is_well_marked v ≡ true
      → any (has_member j) (prepare_arg p v rest).result_marks
        ≡ (not p.allow_marked && has_mark_deep j v || any (has_member j) rest.result_marks)
  prepare_arg-is_carried j p v rest w =
      chosen_marks j p.allow_marked (unmark_deep v).1 rest.result_marks (has_mark_deep j v)
        (unmark_deep-strip_marks v j w).2

  variadic-is_carried :
      (j : M) (var : Option Parameter) (vs : List (Value N M))
      → all is_well_marked vs ≡ true
      → any (has_member j) (prepare_variadic var vs).result_marks ≡ is_carried j [] var vs
  variadic-is_carried j none vs w = refl
  variadic-is_carried j (some p) [] w = refl
  variadic-is_carried j (some p) (v ∷ vs) w =
      let well = and_true (is_well_marked v) (all is_well_marked vs) w in
      rw (prepare_arg-is_carried j p v (prepare_variadic (some p) vs) well.0)
        (rw (variadic-is_carried j (some p) vs well.1) refl)

  both-is_carried :
      (j : M) (ps : List Parameter) (var : Option Parameter) (vs : List (Value N M))
      → all is_well_marked vs ≡ true
      → (any (has_member j) (prepare_positional ps (take (length ps) vs)).result_marks
          || any (has_member j) (prepare_variadic var (drop (length ps) vs)).result_marks)
        ≡ is_carried j ps var vs
  both-is_carried j [] var vs w = variadic-is_carried j var vs w
  both-is_carried j (p ∷ ps) none [] w = refl
  both-is_carried j (p ∷ ps) (some q) [] w = refl
  both-is_carried j (p ∷ ps) var (v ∷ vs) w =
      let well = and_true (is_well_marked v) (all is_well_marked vs) w in
      rw
        (
          prepare_arg-is_carried j p v (prepare_positional ps (take (length ps) vs)) well.0,
          sym (both-is_carried j ps var vs well.1),
        )
        (ground arith)

module _ {N M E : Type 0} ⦃e : Equatable M⦄ ⦃num : Numbers N⦄ where
  call_when_typed-is_carried :
      (spec : Spec N M E) (args : List (Value N M)) (v : Value N M) (j : M)
      (r : CallError N M E ⊎ (CtyType × Bool))
      → call_when_typed spec args r ≡ result v
      → any (has_member j) (prepare spec args).result_marks ≡ true
      → has_mark j v ≡ true
  unfolding call_when_typed
  call_when_typed-is_carried spec args v j (inl err) h k = absurd (ground arith)
  call_when_typed-is_carried spec args v j (inr (t, dyn)) h k =
      (call_typed-result spec t dyn args v h).1 j k

  -- A mark that stands anywhere in an argument, however deep, is on the value that Call returns if
  -- the argument's parameter does not allow marks; the markers of the arguments are as Go builds
  -- them.
  pub call-is_carried :
      (spec : Spec N M E) (args : List (Value N M)) (v : Value N M) (j : M)
      → all is_well_marked args ≡ true
      → call spec args ≡ result v
      → is_carried j spec.params spec.var_param args ≡ true
      → has_mark j v ≡ true
  unfolding call prepare
  call-is_carried spec args v j w h k =
      let n = length spec.params in
      call_when_typed-is_carried spec args v j (return_type_for_values spec args) h (
        any-append (has_member j) (prepare_positional spec.params (take n args)).result_marks
          (prepare_variadic spec.var_param (drop n args)).result_marks
        ∙ (both-is_carried j spec.params spec.var_param args w ∙ k))
