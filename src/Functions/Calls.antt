-- ===== src/Functions/Calls.antt =====
-- When Call runs Impl, and on which arguments.
use go_cty.Prelude.{
  ◌≡◌, refl, inl, inr, Bool, true, false, ◌||◌, Bool-cases, List, all, Equatable, arith,
}
use go_cty.Types.{CtyType}
use go_cty.Values.{Value}
use go_cty.Values.Wrangle.{Numbers}
use go_cty.Values.Stripping.{is_well_marked}
use go_cty.Functions.{
  Spec, ImplFunc, returns, fails, panics, Checked, checked, dynamic, refused, check_args, prepare,
  type_from, type_for, return_type_for_values,
}
use go_cty.Functions.Calling.{call_typed, call_when_typed, call}
use go_cty.Functions.Arguments.{FitsAll, prepare-FitsAll}

module _ {N M E : Type 0} ⦃e : Equatable M⦄ ⦃num : Numbers N⦄ where
  call_typed-impl :
      (spec : Spec N M E) (other : ImplFunc N M E) (expected : CtyType) (dyn : Bool)
      (args : List (Value N M))
      → (dyn || (prepare spec args).return_unknown ≡ false
          → spec.impl (prepare spec args).args expected ≡ other (prepare spec args).args expected)
      → call_typed spec expected dyn args
        ≡ call_typed (record spec { impl = other }) expected dyn args
  unfolding call_typed prepare
  call_typed-impl spec other expected dyn args h =
      elim (Bool-cases (dyn || (prepare spec args).return_unknown)) [
        | inl y ↦ rw y refl
        | inr n ↦ rw (n, h n) refl
      ]

  call_when_typed-impl :
      (spec : Spec N M E) (other : ImplFunc N M E) (args : List (Value N M))
      (c : Checked N M E (List (Value N M)))
      → all is_well_marked args ≡ true
      → ((given : List (Value N M)) (t : CtyType)
          → FitsAll spec.params spec.var_param given
          → spec.impl given t ≡ other given t)
      → check_args spec args ≡ c
      → call_when_typed spec args (type_for spec c)
        ≡ call_when_typed (record spec { impl = other }) args (type_for spec c)
  unfolding call_when_typed
  call_when_typed-impl spec other args (refused err) w same h = refl
  call_when_typed-impl spec other args dynamic w same h =
      call_typed-impl spec other _ true args (λ x. absurd (ground arith))
  call_when_typed-impl spec other args (checked seen) w same h =
      elim (spec.type_func seen)
        as (λ r.
          call_when_typed spec args (type_from r)
          ≡ call_when_typed (record spec { impl = other }) args (type_from r)) [
            | returns t ↦
                call_typed-impl spec other t false args
                  (λ x. same _ t (prepare-FitsAll spec args seen w h x))
            | fails x ↦ refl
            | panics x ↦ refl
          ]

  -- Call depends on Impl only at arguments that fit the parameters: two implementations that agree
  -- on the lists of the right length in which no argument is marked, null, unknown, of another type
  -- or dynamically typed where its parameter does not allow it give the same result on all
  -- arguments whose markers are as Go builds them.
  pub call-FitsAll :
      (spec : Spec N M E) (other : ImplFunc N M E) (args : List (Value N M))
      → all is_well_marked args ≡ true
      → ((given : List (Value N M)) (t : CtyType)
          → FitsAll spec.params spec.var_param given
          → spec.impl given t ≡ other given t)
      → call spec args ≡ call (record spec { impl = other }) args
  unfolding call return_type_for_values check_args
  call-FitsAll spec other args w same =
      call_when_typed-impl spec other args (check_args spec args) w same refl
