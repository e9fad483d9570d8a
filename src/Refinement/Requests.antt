-- ===== src/Refinement/Requests.antt =====
-- The requests that a refiner makes of a builder, one after the other (RefineWith of
-- cty/unknown_refinement.go), and what they leave.
use go_cty.Prelude.{
  ℕ, ◌≡◌, refl, sym, Bool, true, false, ◌&&◌, ◌||◌, not, Option, none, some, List, [], ◌∷◌, arith,
}
use go_cty.Refinement.{NumberOrder, Value, number_val, Refinement}
use go_cty.Refinement.Builder.{
  Builder, is_dynamic_val, refining, refine, not_null_step, null_step, length_lower_step,
  length_upper_step, prefix_step, not_null, to_null, collection_length_lower_bound,
  collection_length_upper_bound, string_prefix_full,
}
use go_cty.Refinement.Numbers.{
  lower_step, upper_step, number_range_lower_bound, number_range_upper_bound, new_value,
}
use go_cty.Refinement.Meaning.{
  Outcome, admits, allows, above, below, at_least, at_most, starts_with, is_null_outcome,
}
use go_cty.Refinement.Narrowing.{lower_step-admits, upper_step-admits, refining-allows}
use go_cty.Refinement.Kinds.{
  not_null_step-admits, null_step-admits, length_lower_step-admits, length_upper_step-admits,
  prefix_step-admits,
}

-- A call of one method of the builder.
pub data Request (N : Type 0) : Type 0 where
  ask_not_null ask_null : Request N
  ask_lower ask_upper : N → Bool → Request N
  ask_min_length ask_max_length : ℕ → Request N
  ask_prefix : List ℕ → Request N

module _ {N : Type 0} ⦃o : NumberOrder N⦄ where
  -- The request does not exclude the infinity that the builder takes for no bound.
  abbrev pub is_proper : Request N → Bool
  is_proper (ask_lower m inclusive) = not (o.is_neg_inf m) || inclusive
  is_proper (ask_upper m inclusive) = not (o.is_pos_inf m) || inclusive
  is_proper _ = true

module _ {N : Type 0} ⦃o : NumberOrder N⦄ (normalize : List ℕ → List ℕ) where
  -- The method.
  unfoldable pub run : Request N → Builder N → Option (Builder N)
  unfolding not_null to_null collection_length_lower_bound collection_length_upper_bound
      string_prefix_full number_range_lower_bound number_range_upper_bound
  run ask_not_null b = not_null b
  run ask_null b = to_null b
  run (ask_lower m inclusive) b = number_range_lower_bound (number_val m) inclusive b
  run (ask_upper m inclusive) b = number_range_upper_bound (number_val m) inclusive b
  run (ask_min_length n) b = collection_length_lower_bound n b
  run (ask_max_length n) b = collection_length_upper_bound n b
  run (ask_prefix p) b = string_prefix_full normalize p b

  -- The loop of RefineWith: each refiner mutates the builder that it is given.
  unfoldable pub run_all : List (Request N) → Builder N → Option (Builder N)
  unfolding run
  run_all [] b = some b
  run_all (q ∷ qs) b = elim (run q b) [ none ↦ none | some b' ↦ run_all qs b' ]

  -- RefineWith
  unfoldable pub refine_with : (ℕ → Bool) → List (Request N) → Value N → Option (Value N)
  unfolding refine run_all new_value
  refine_with makes [] v = some v
  refine_with makes (q ∷ qs) v = elim (run_all (q ∷ qs) (refine v)) [
    | none ↦ none
    | some b ↦ new_value makes b
  ]

  -- What the request asks of an outcome.
  abbrev pub meets : Request N → Outcome N → Bool
  meets ask_not_null c = not (is_null_outcome c)
  meets ask_null c = is_null_outcome c
  meets (ask_lower m inclusive) c = above m inclusive c
  meets (ask_upper m inclusive) c = below m inclusive c
  meets (ask_min_length n) c = at_least n c
  meets (ask_max_length n) c = at_most n c
  meets (ask_prefix p) c = starts_with (normalize p) c

  unfoldable pub step_of : Request N → Value N → Refinement N → Option (Refinement N)
  step_of ask_not_null v r = not_null_step v r
  step_of ask_null v r = null_step v r
  step_of (ask_lower m inclusive) v r = lower_step (number_val m) inclusive v r
  step_of (ask_upper m inclusive) v r = upper_step (number_val m) inclusive v r
  step_of (ask_min_length n) v r = length_lower_step n v r
  step_of (ask_max_length n) v r = length_upper_step n v r
  step_of (ask_prefix p) v r = prefix_step normalize p v r

  pub run-step_of : (q : Request N) (b : Builder N) → run q b ≡ refining b (step_of q b.orig)
  unfolding run step_of not_null to_null collection_length_lower_bound collection_length_upper_bound
      string_prefix_full number_range_lower_bound number_range_upper_bound
  run-step_of ask_not_null b = refl
  run-step_of ask_null b = refl
  run-step_of (ask_lower m i) b = refl
  run-step_of (ask_upper m i) b = refl
  run-step_of (ask_min_length n) b = refl
  run-step_of (ask_max_length n) b = refl
  run-step_of (ask_prefix p) b = refl

  step_of-admits :
      (q : Request N) (v : Value N) (r r' : Refinement N) (c : Outcome N)
      → is_proper q ≡ true
      → step_of q v r ≡ some r'
      → admits r' c ≡ (admits r c && meets q c)
  unfolding step_of
  step_of-admits ask_not_null v r r' c w h = not_null_step-admits v r r' c h
  step_of-admits ask_null v r r' c w h = null_step-admits v r r' c h
  step_of-admits (ask_lower m i) v r r' c w h = lower_step-admits m i v r r' c (λ e. ground arith) h
  step_of-admits (ask_upper m i) v r r' c w h = upper_step-admits m i v r r' c (λ e. ground arith) h
  step_of-admits (ask_min_length n) v r r' c w h = length_lower_step-admits n v r r' c h
  step_of-admits (ask_max_length n) v r r' c w h = length_upper_step-admits n v r r' c h
  step_of-admits (ask_prefix p) v r r' c w h = prefix_step-admits normalize p v r r' c h

  -- A method that does not panic leaves exactly the outcomes that were left before and that meet
  -- its request. The builder is not that of DynamicVal, and the request is not an exclusive bound
  -- at the infinity.
  pub allows-run :
      (q : Request N) (b b' : Builder N) (c : Outcome N)
      → is_dynamic_val b.orig ≡ false
      → is_proper q ≡ true
      → run q b ≡ some b'
      → allows b' c ≡ (allows b c && meets q c)
  allows-run q b b' c d w h =
      refining-allows b b' (step_of q b.orig) c (meets q c) d
        (λ r r' e. step_of-admits q b.orig r r' c w e) (rw (sym (run-step_of q b)) h)
