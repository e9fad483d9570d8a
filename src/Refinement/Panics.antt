-- ===== src/Refinement/Panics.antt =====
-- The panics of the builder's methods, against what is known of the value already.
use go_cty.Prelude.{
  ℕ, ◌≡◌, refl, sym, Bool, true, false, ◌&&◌, Option, none, some, List, [], ◌∷◌, length, ltb, leb,
  nat_beq_iff, arith,
}
use go_cty.Refinement.{
  NumberOrder, Tristate, Refinement, refinement_string, refinement_number, refinement_collection,
  Value, unknown_val, null_val, number_val, string_val, collection_val, structural_val, opaque_val,
}
use go_cty.Refinement.Builder.{
  is_dynamic_val, refining, length_lower_step, length_upper_step, prefix_step, overlap_equal,
}
use go_cty.Refinement.Meaning.{
  Outcome, number_outcome, text_outcome, length_outcome, admits, denotes, has_prefix,
  is_null_outcome,
}
use go_cty.Refinement.Kinds.{overlap_equal-long, overlap_equal-short}
use go_cty.Refinement.Requests.{
  Request, ask_not_null, ask_null, ask_lower, ask_upper, ask_min_length, ask_max_length, ask_prefix,
  run, meets, is_proper, step_of, run-step_of,
}
use go_cty.Refinement.Crossing.{is_well_refined, lower_step-none, upper_step-none}

prefixes-nested :
    (p q s : List ℕ)
    → ltb (length q) (length p) ≡ false
    → has_prefix p s ≡ true
    → has_prefix q s ≡ true
    → has_prefix p q ≡ true
prefixes-nested [] q s l h k = refl
prefixes-nested (a ∷ p) [] s l h k = ground arith
prefixes-nested (a ∷ p) (b ∷ q) [] l h k = ground arith
prefixes-nested (a ∷ p) (b ∷ q) (c ∷ s) l h k =
    ground (arith, prefixes-nested p q s, nat_beq_iff a c, nat_beq_iff b c, nat_beq_iff a b)

prefixes-overlap_equal :
    (p q s : List ℕ) → has_prefix p s ≡ true → has_prefix q s ≡ true → overlap_equal p q ≡ true
prefixes-overlap_equal p q s h k = ground (
  arith,
  overlap_equal-long p q,
  overlap_equal-short p q,
  prefixes-nested p q s,
  prefixes-nested q p s,
)

module _ {N : Type 0} ⦃o : NumberOrder N⦄ where
  length_lower_step-none :
      (k : ℕ) (v : Value N) (t : Tristate) (a b l : ℕ)
      → length_lower_step k v (refinement_collection t a b) ≡ none
      → denotes v (length_outcome l) ≡ true
      → (leb a l && leb l b && leb k l) ≡ false
  length_lower_step-none k v t a b l h d = ground arith

  length_upper_step-none :
      (k : ℕ) (v : Value N) (t : Tristate) (a b l : ℕ)
      → length_upper_step k v (refinement_collection t a b) ≡ none
      → denotes v (length_outcome l) ≡ true
      → (leb a l && leb l b && leb l k) ≡ false
  length_upper_step-none k v t a b l h d = ground arith

module _ {N : Type 0} ⦃o : NumberOrder N⦄ (normalize : List ℕ → List ℕ) where
  prefix_step-none :
      (p : List ℕ) (v : Value N) (t : Tristate) (have s : List ℕ)
      → prefix_step normalize p v (refinement_string t have) ≡ none
      → denotes v (text_outcome s) ≡ true
      → (has_prefix have s && has_prefix (normalize p) s) ≡ false
  prefix_step-none p (string_val x) t have s h d =
      ground (
        arith,
        prefixes-overlap_equal x (normalize p) s,
        prefixes-overlap_equal have (normalize p) s,
      )
  prefix_step-none p (unknown_val ty r) t have s h d =
      ground (arith, prefixes-overlap_equal have (normalize p) s)
  prefix_step-none p (null_val ty) t have s h d =
      ground (arith, prefixes-overlap_equal have (normalize p) s)
  prefix_step-none p (number_val ty) t have s h d =
      ground (arith, prefixes-overlap_equal have (normalize p) s)
  prefix_step-none p (collection_val ty vs) t have s h d =
      ground (arith, prefixes-overlap_equal have (normalize p) s)
  prefix_step-none p (structural_val ty vs) t have s h d =
      ground (arith, prefixes-overlap_equal have (normalize p) s)
  prefix_step-none p (opaque_val ty) t have s h d =
      ground (arith, prefixes-overlap_equal have (normalize p) s)

  -- The request can be made of the refinement: a number bound of a number, and so on.
  abbrev pub applies : Request N → Refinement N → Bool
  applies ask_not_null r = true
  applies ask_null r = true
  applies (ask_lower m i) (refinement_number t r) = true
  applies (ask_upper m i) (refinement_number t r) = true
  applies (ask_min_length n) (refinement_collection t a b) = true
  applies (ask_max_length n) (refinement_collection t a b) = true
  applies (ask_prefix p) (refinement_string t s) = true
  applies _ _ = false

  abbrev pub is_about_null : Request N → Bool
  is_about_null ask_not_null = true
  is_about_null ask_null = true
  is_about_null _ = false

  step_of-none :
      (q : Request N) (v : Value N) (r : Refinement N) (c : Outcome N)
      → is_well_refined v ≡ true
      → is_proper q ≡ true
      → applies q r ≡ true
      → (is_null_outcome c ≡ true → is_about_null q ≡ true)
      → step_of normalize q v r ≡ none
      → (denotes v c && admits r c && meets normalize q c) ≡ false
  unfolding step_of
  step_of-none ask_not_null v r c w p a n h = ground arith
  step_of-none ask_null v r c w p a n h = ground arith
  step_of-none (ask_lower m i) v (refinement_number t r) (number_outcome k) w p a n h =
      ground (arith, lower_step-none m i v t r k w (λ e. ground arith) h)
  step_of-none (ask_upper m i) v (refinement_number t r) (number_outcome k) w p a n h =
      ground (arith, upper_step-none m i v t r k w (λ e. ground arith) h)
  step_of-none (ask_min_length k) v (refinement_collection t x y) (length_outcome l) w p a n h =
      ground (arith, length_lower_step-none k v t x y l h)
  step_of-none (ask_max_length k) v (refinement_collection t x y) (length_outcome l) w p a n h =
      ground (arith, length_upper_step-none k v t x y l h)
  step_of-none (ask_prefix s) v (refinement_string t x) (text_outcome z) w p a n h =
      ground (arith, prefix_step-none s v t x z h)
  step_of-none q v r c w p a n h = ground arith

  refining-none :
      (v : Value N) (r : Refinement N) (f : Refinement N → Option (Refinement N))
      → is_dynamic_val v ≡ false
      → refining record { orig = v; wip = some r } f ≡ none
      → f r ≡ none
  refining-none v r f d h = ground arith

  -- Where a method panics on a request whose bound, if it has one, is known, not null and not marked,
  -- no outcome was left that the value may turn out to be and that meets the request. The builder is
  -- not that of DynamicVal; the refinement of its original value, if that has one, is of its type's
  -- kind and has bounds that do not cross; the request applies to the builder's refinement and does
  -- not exclude the infinity that the builder takes for no bound; and an outcome that is null counts
  -- only for NotNull and Null: a request for bounds that cross panics, although the value may still
  -- turn out to be null.
  pub run-none :
      (q : Request N) (v : Value N) (r : Refinement N) (c : Outcome N)
      → is_dynamic_val v ≡ false
      → is_well_refined v ≡ true
      → is_proper q ≡ true
      → applies q r ≡ true
      → (is_null_outcome c ≡ true → is_about_null q ≡ true)
      → run normalize q record { orig = v; wip = some r } ≡ none
      → (denotes v c && admits r c && meets normalize q c) ≡ false
  run-none q v r c d w p a n h = step_of-none q v r c w p a n (
      refining-none v r (step_of normalize q v) d
        (rw (sym (run-step_of normalize q record { orig = v; wip = some r })) h))
