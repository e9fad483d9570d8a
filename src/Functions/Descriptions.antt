-- ===== src/Functions/Descriptions.antt =====
-- WithNewDescriptions (cty/function/function.go), which changes nothing but the descriptions.
use go_cty.Prelude.{
  ◌≡◌, refl, sym, ap, ◌∙◌, Bool, true, false, Option, none, some, String, List, [], ◌∷◌, length,
  take, Equatable, arith, ℕ, suc, if◌then◌else◌, ◌⊎◌, inl, inr, nat_eq, ◌==◌, ◌||◌,
}
use go_cty.Prelude.Lists.{drop}
use go_cty.Types.{CtyType}
use go_cty.Types.Conformance.Spec.{some_inj}
use go_cty.Values.{Value}
use go_cty.Values.Wrangle.{Numbers}
use go_cty.Functions.{
  Parameter, Spec, CallError, check_args, check_positional, check_variadic, check_number, prepare,
  prepare_positional, prepare_variadic, type_for, return_type_for_values,
}
use go_cty.Functions.Calling.{call_prepared, call_typed, call_when_typed, call}

-- The loop over the descriptions of the positional parameters; what is left is for the variadic
-- one.
abbrev pub describe_params : List Parameter → List String → List Parameter
describe_params (p ∷ ps) (d ∷ ds) = record p { description = d } ∷ describe_params ps ds
describe_params ps ds = ps

abbrev pub describe_var : Option Parameter → List String → Option Parameter
describe_var none ds = none
describe_var (some p) [] = some p
describe_var (some p) (d ∷ ds) = describe_var (some (record p { description = d })) ds

-- The test of the number of descriptions, whose failure is a panic.
abbrev pub descriptions_allowed : List Parameter → Option Parameter → List String → Bool
descriptions_allowed ps none ds = length ds == length ps
descriptions_allowed ps (some p) ds = length ds == suc (length ps) || length ds == length ps

module _ {N M E : Type 0} where
  -- WithNewDescriptions
  unfoldable pub with_new_descriptions : Spec N M E → String → List String → Option (Spec N M E)
  with_new_descriptions spec func_desc param_descs =
      if descriptions_allowed spec.params spec.var_param param_descs
      then some (record spec {
        description = func_desc;
        params = describe_params spec.params (take (length spec.params) param_descs);
        var_param = describe_var spec.var_param (drop (length spec.params) param_descs);
      })
      else none

length-describe_params :
    (ps : List Parameter) (ds : List String) → length (describe_params ps ds) ≡ length ps
length-describe_params [] ds = refl
length-describe_params (p ∷ ps) [] = refl
length-describe_params (p ∷ ps) (d ∷ ds) = ap suc (length-describe_params ps ds)

module _ {N M : Type 0} ⦃e : Equatable M⦄ ⦃num : Numbers N⦄ where
  prepare_positional-describe_params :
      (ps : List Parameter) (ds : List String) (vs : List (Value N M))
      → prepare_positional (describe_params ps ds) vs ≡ prepare_positional ps vs
  prepare_positional-describe_params [] ds vs = refl
  prepare_positional-describe_params (p ∷ ps) [] vs = refl
  prepare_positional-describe_params (p ∷ ps) (d ∷ ds) [] = refl
  prepare_positional-describe_params (p ∷ ps) (d ∷ ds) (v ∷ vs) =
      rw (prepare_positional-describe_params ps ds vs) refl

  prepare_variadic-described :
      (p : Parameter) (d : String) (vs : List (Value N M))
      → prepare_variadic (some (record p { description = d })) vs ≡ prepare_variadic (some p) vs
  prepare_variadic-described p d [] = refl
  prepare_variadic-described p d (v ∷ vs) = rw (prepare_variadic-described p d vs) refl

  prepare_variadic-describe_var :
      (var : Option Parameter) (ds : List String) (vs : List (Value N M))
      → prepare_variadic (describe_var var ds) vs ≡ prepare_variadic var vs
  prepare_variadic-describe_var none ds vs = refl
  prepare_variadic-describe_var (some p) [] vs = refl
  prepare_variadic-describe_var (some p) (d ∷ ds) vs =
      prepare_variadic-describe_var (some (record p { description = d })) ds vs
      ∙ prepare_variadic-described p d vs

module _ {N M E : Type 0} ⦃e : Equatable M⦄ ⦃num : Numbers N⦄ where
  check_positional-describe_params :
      (ps : List Parameter) (ds : List String) (i : ℕ) (vs : List (Value N M))
      → check_positional {E = E} (describe_params ps ds) i vs ≡ check_positional ps i vs
  check_positional-describe_params [] ds i vs = refl
  check_positional-describe_params (p ∷ ps) [] i vs = refl
  check_positional-describe_params (p ∷ ps) (d ∷ ds) i [] = refl
  check_positional-describe_params (p ∷ ps) (d ∷ ds) i (v ∷ vs) =
      rw (check_positional-describe_params ps ds (suc i) vs) refl

  check_variadic-described :
      (p : Parameter) (d : String) (n i : ℕ) (vs : List (Value N M))
      → check_variadic {E = E} (some (record p { description = d })) n i vs
        ≡ check_variadic (some p) n i vs
  check_variadic-described p d n i [] = refl
  check_variadic-described p d n i (v ∷ vs) = rw (check_variadic-described p d n (suc i) vs) refl

  check_variadic-describe_var :
      (var : Option Parameter) (ds : List String) (n i : ℕ) (vs : List (Value N M))
      → check_variadic {E = E} (describe_var var ds) n i vs ≡ check_variadic var n i vs
  check_variadic-describe_var none ds n i vs = refl
  check_variadic-describe_var (some p) [] n i vs = refl
  check_variadic-describe_var (some p) (d ∷ ds) n i vs =
      check_variadic-describe_var (some (record p { description = d })) ds n i vs
      ∙ check_variadic-described p d n i vs

  check_number-describe_var :
      (var : Option Parameter) (ds : List String) (n k : ℕ)
      → check_number {N = N} {M = M} {E = E} (describe_var var ds) n k ≡ check_number var n k
  check_number-describe_var none ds n k = refl
  check_number-describe_var (some p) [] n k = refl
  check_number-describe_var (some p) (d ∷ ds) n k =
      check_number-describe_var (some (record p { description = d })) ds n k

  abbrev described : Spec N M E → String → List String → List String → Spec N M E
  described spec desc ds es = record spec {
    description = desc;
    params = describe_params spec.params ds;
    var_param = describe_var spec.var_param es;
  }

  prepare-described :
      (spec : Spec N M E) (desc : String) (ds es : List String) (args : List (Value N M))
      → prepare (described spec desc ds es) args ≡ prepare spec args
  unfolding prepare
  prepare-described spec desc ds es args =
      rw
        (
          length-describe_params spec.params ds,
          prepare_positional-describe_params spec.params ds (take (length spec.params) args),
          prepare_variadic-describe_var spec.var_param es (drop (length spec.params) args),
        )
        refl

  check_args-described :
      (spec : Spec N M E) (desc : String) (ds es : List String) (args : List (Value N M))
      → check_args (described spec desc ds es) args ≡ check_args spec args
  unfolding check_args
  check_args-described spec desc ds es args =
      let n = length spec.params in
      rw
        (
          length-describe_params spec.params ds,
          check_number-describe_var spec.var_param es n (length args),
          check_positional-describe_params spec.params ds 0 (take n args),
          check_variadic-describe_var spec.var_param es n 0 (drop n args),
        )
        refl

  call_when_typed-described :
      (spec : Spec N M E) (desc : String) (ds es : List String) (args : List (Value N M))
      (r : CallError N M E ⊎ (CtyType × Bool))
      → call_when_typed (described spec desc ds es) args r ≡ call_when_typed spec args r
  unfolding call_when_typed call_typed
  call_when_typed-described spec desc ds es args (inl err) = refl
  call_when_typed-described spec desc ds es args (inr (t, dyn)) =
      ap (call_prepared spec t dyn) (prepare-described spec desc ds es args)

  call-described :
      (spec : Spec N M E) (desc : String) (ds es : List String) (args : List (Value N M))
      → call (described spec desc ds es) args ≡ call spec args
  unfolding call return_type_for_values
  call-described spec desc ds es args =
      call_when_typed-described spec desc ds es args _
      ∙ ap (λ c. call_when_typed spec args (type_for spec c))
          (check_args-described spec desc ds es args)

  new_is_described :
      (b : Bool) (spec new : Spec N M E) (desc : String) (ds es : List String)
      → (if b then some (described spec desc ds es) else none) ≡ some new
      → described spec desc ds es ≡ new
  new_is_described true spec new desc ds es h = some_inj h
  new_is_described false spec new desc ds es h = absurd (ground arith)

  -- A function with new descriptions returns what the function returned, on all arguments.
  pub call-with_new_descriptions :
      (spec new : Spec N M E) (desc : String) (ds : List String) (args : List (Value N M))
      → with_new_descriptions spec desc ds ≡ some new
      → call new args ≡ call spec args
  unfolding with_new_descriptions
  call-with_new_descriptions spec new desc ds args h =
      let n = length spec.params in
      let same =
        new_is_described (descriptions_allowed spec.params spec.var_param ds) spec new desc
          (take n ds) (drop n ds) h in
      ap (λ s. call s args) (sym same) ∙ call-described spec desc (take n ds) (drop n ds) args
