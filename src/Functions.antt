-- ===== src/Functions.antt =====
-- Functions over values (cty/function/function.go, argument.go, error.go and unpredictable.go). The
-- callbacks of a Spec are functions of the caller: a TypeFunc and an ImplFunc return a result,
-- return an error or panic. The callback of RefineResult stands with the builder around it, as the
-- function from an unmarked value to the refined one; `none` is a panic. Errors and the values of
-- panics that a callback makes are of a type `E`. An Impl does not return NilVal without an error.

pub mod Arguments
pub mod Calling
pub mod Calls
pub mod Results
pub mod Marking
pub mod Descriptions
pub mod Examples
use go_cty.Prelude.{
  ℕ, suc, ◌+◌, ◌⊎◌, inl, inr, Bool, true, false, ◌&&◌, ◌||◌, not, Option, none, some, String, List,
  [], ◌∷◌, ◌++◌, length, take, Equatable, nat_eq, ltb, ◌==◌, if◌then◌else◌,
}
use go_cty.Prelude.Lists.{drop}
use go_cty.Types.{CtyType, pseudo_type_dynamic, is_dynamic}
use go_cty.Types.Conformance.{TypePath, Problem, test_conformance}
use go_cty.Values.{Value, unknown_val, type_of, is_known, is_null, contains_marked}
use go_cty.Values.Marks.{is_empty}
use go_cty.Values.Wrangle.{Numbers, unmark_deep}

pub record Parameter : Type 0 where
  pub name : String
  pub description : String
  pub param_type : CtyType
  pub allow_null : Bool
  pub allow_unknown : Bool
  pub allow_dynamic_type : Bool
  pub allow_marked : Bool

-- What a callback does.
pub data Callback (E A : Type 0) : Type 0 where
  returns : A → Callback E A
  fails panics : E → Callback E A

abbrev pub TypeFunc : Type 0 → Type 0 → Type 0 → Type 0
TypeFunc N M E = List (Value N M) → Callback E CtyType

abbrev pub ImplFunc : Type 0 → Type 0 → Type 0 → Type 0
ImplFunc N M E = List (Value N M) → CtyType → Callback E (Value N M)

pub record Spec (N M E : Type 0) : Type 0 where
  pub description : String
  pub params : List Parameter
  pub var_param : Option Parameter
  pub type_func : TypeFunc N M E
  pub refine_result : Option (Value N M → Option (Value N M))
  pub impl : ImplFunc N M E

-- Why an argument is refused.
pub data ArgProblem : Type 0 where
  must_not_be_null : ArgProblem
  nonconforming : TypePath × Problem → ArgProblem

-- The value of a panic that errorForPanic wraps.
pub data PanicValue (N M E : Type 0) : Type 0 where
  callback_panic : E → PanicValue N M E
  unexpected_result : Value N M → CtyType → TypePath × Problem → PanicValue N M E

pub data CallError (N M E : Type 0) : Type 0 where
  wrong_number at_least_required : ℕ → ℕ → CallError N M E
  arg_error : ℕ → ArgProblem → CallError N M E
  callback_error : E → CallError N M E
  panic_error : PanicValue N M E → CallError N M E

-- How the check of the arguments ends: `dynamic` is the early return with DynamicPseudoType.
pub data Checked (N M E A : Type 0) : Type 0 where
  checked : A → Checked N M E A
  dynamic : Checked N M E A
  refused : CallError N M E → Checked N M E A

infixl 5 ◌>>=◌
abbrev pub ◌>>=◌ : {N M E A B : Type 0} → Checked N M E A → (A → Checked N M E B) → Checked N M E B
checked a >>= f = f a
dynamic >>= f = dynamic
refused e >>= f = refused e

-- How a call ends. A panic while the result is refined is not intercepted.
pub data Called (N M E : Type 0) : Type 0 where
  result : Value N M → Called N M E
  call_error : CallError N M E → Called N M E
  refinement_panic : Called N M E

-- What Call has after the loops over the arguments.
pub record Prepared (N M : Type 0) : Type 0 where
  pub args : List (Value N M)
  pub result_marks : List (List M)
  pub return_unknown : Bool

-- The test against the type of a parameter; `i` is the index that the error has.
abbrev pub conforming : {N M E A : Type 0} → ℕ → CtyType → CtyType → A → Checked N M E A
conforming i given want a = elim (test_conformance given want) [
  | [] ↦ checked a
  | err ∷ errs ↦ refused (arg_error i (nonconforming err))
]

module _ {N M : Type 0} ⦃e : Equatable M⦄ ⦃num : Numbers N⦄ where
  -- One argument at the call, before what the later ones give: unmarked if it must be, its marks
  -- kept for the result.
  abbrev pub prepare_arg : Parameter → Value N M → Prepared N M → Prepared N M
  prepare_arg p val rest =
      let (unwrapped, found) = unmark_deep val in
      let unmarking = not p.allow_marked && not (is_empty found) in
      record {
        args = (if unmarking then unwrapped else val) ∷ rest.args;
        result_marks = if unmarking then found ∷ rest.result_marks else rest.result_marks;
        return_unknown = (not (is_known val) && not p.allow_unknown) || rest.return_unknown;
      }

  abbrev pub nothing_prepared : Prepared N M
  nothing_prepared = record { args = []; result_marks = []; return_unknown = false }

  abbrev pub prepare_positional : List Parameter → List (Value N M) → Prepared N M
  prepare_positional (p ∷ ps) (v ∷ vs) = prepare_arg p v (prepare_positional ps vs)
  prepare_positional ps vs = nothing_prepared

  abbrev pub prepare_variadic : Option Parameter → List (Value N M) → Prepared N M
  prepare_variadic none vs = nothing_prepared
  prepare_variadic (some p) [] = nothing_prepared
  prepare_variadic (some p) (v ∷ vs) = prepare_arg p v (prepare_variadic (some p) vs)

module _ {N M : Type 0} where
  abbrev pub unknowns : List CtyType → List (Value N M)
  unknowns [] = []
  unknowns (t ∷ ts) = unknown_val t none ∷ unknowns ts

module _ {N M E : Type 0} ⦃e : Equatable M⦄ ⦃num : Numbers N⦄ where
  -- One argument at the check of the types, with the index for a null and the one for a type that
  -- does not conform. The result is the argument for the TypeFunc.
  abbrev pub check_arg : Parameter → ℕ → ℕ → Value N M → Checked N M E (Value N M)
  check_arg p null_index type_index val =
      let arg = if contains_marked val && not p.allow_marked then (unmark_deep val).0 else val in
      if is_null val && not p.allow_null
      then refused (arg_error null_index must_not_be_null)
      else if is_dynamic (type_of val)
      then (if not p.allow_dynamic_type then dynamic else checked arg)
      else conforming type_index (type_of val) p.param_type arg

  -- The loop over the positional arguments, and that over the others, from index `i` on of `n`
  -- positional ones.
  abbrev pub check_positional :
      List Parameter → ℕ → List (Value N M) → Checked N M E (List (Value N M))
  check_positional (p ∷ ps) i (v ∷ vs) =
      check_arg p i i v >>= λ a. check_positional ps (suc i) vs >>= λ rest. checked (a ∷ rest)
  check_positional ps i vs = checked []

  abbrev pub check_variadic :
      Option Parameter → ℕ → ℕ → List (Value N M) → Checked N M E (List (Value N M))
  check_variadic none n i vs = checked []
  check_variadic (some p) n i [] = checked []
  check_variadic (some p) n i (v ∷ vs) = check_arg p (i + n) i v >>= λ a.
      check_variadic (some p) n (suc i) vs >>= λ rest. checked (a ∷ rest)

  -- The test of the number of the arguments.
  abbrev pub check_number : Option Parameter → ℕ → ℕ → Checked N M E Unit
  check_number none required given =
      if not (given == required) then refused (wrong_number required given) else checked tt
  check_number (some p) required given =
      if ltb given required then refused (at_least_required required given) else checked tt

  -- The arguments that the TypeFunc sees.
  unfoldable pub check_args : Spec N M E → List (Value N M) → Checked N M E (List (Value N M))
  check_args spec args =
      let n = length spec.params in
      check_number spec.var_param n (length args) >>= λ _.
      check_positional spec.params 0 (take n args) >>= λ pos.
      check_variadic spec.var_param n 0 (drop n args) >>= λ rest. checked (pos ++ rest)

  -- The call of the TypeFunc, whose panics are intercepted.
  abbrev pub type_from : Callback E CtyType → CallError N M E ⊎ (CtyType × Bool)
  type_from (returns t) = inr (t, false)
  type_from (fails x) = inl (callback_error x)
  type_from (panics x) = inl (panic_error (callback_panic x))

  -- The type for the arguments that the TypeFunc sees.
  abbrev pub type_for :
      Spec N M E → Checked N M E (List (Value N M)) → CallError N M E ⊎ (CtyType × Bool)
  type_for spec (checked seen) = type_from (spec.type_func seen)
  type_for spec dynamic = inr (pseudo_type_dynamic, true)
  type_for spec (refused err) = inl err

  -- returnTypeForValues: the type, and whether an argument was dynamically typed.
  unfoldable pub return_type_for_values :
      Spec N M E → List (Value N M) → CallError N M E ⊎ (CtyType × Bool)
  unfolding check_args
  return_type_for_values spec args = type_for spec (check_args spec args)

  -- ReturnType: the arguments are unknown values.
  unfoldable pub return_type : Spec N M E → List CtyType → CallError N M E ⊎ CtyType
  unfolding return_type_for_values
  return_type spec types = elim (return_type_for_values spec (unknowns types)) [
    | inl err ↦ inl err
    | inr (t, dyn_typed_args) ↦ inr t
  ]

  -- Both loops of Call over the arguments.
  unfoldable pub prepare : Spec N M E → List (Value N M) → Prepared N M
  prepare spec args =
      let n = length spec.params in
      let pos = prepare_positional spec.params (take n args) in
      let var = prepare_variadic spec.var_param (drop n args) in
      record {
        args = pos.args ++ var.args;
        result_marks = pos.result_marks ++ var.result_marks;
        return_unknown = pos.return_unknown || var.return_unknown;
      }
