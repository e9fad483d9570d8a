-- ===== src/Refinement/Crossing.antt =====
-- The panics of the number bounds: bounds that cross, and bounds that the value contradicts.
use go_cty.Prelude.{◌≡◌, refl, Bool, true, false, ◌&&◌, Option, none, some, arith}
use go_cty.Types.{CtyType}
use go_cty.Refinement.{
  NumberOrder, Tristate, NumberRange, Refinement, refinement_string, refinement_number,
  refinement_collection, refinement_nullable, Value, unknown_val, null_val, number_val, string_val,
  collection_val, structural_val, opaque_val, equal,
}
use go_cty.Refinement.Numbers.{
  lower_step, upper_step, refutes_lower, refutes_upper, consistent, with_min, with_max,
}
use go_cty.Refinement.Meaning.{number_outcome, denotes, suits, above, below, in_range}
use go_cty.Refinement.Narrowing.{in_range-lower, in_range-upper}

-- The value itself does not contradict the bound, and the comparison does not panic.
abbrev passes : Option Bool → Bool
passes (some false) = true
passes _ = false

module _ {N : Type 0} ⦃o : NumberOrder N⦄ where
  -- The refinement of an unknown value, if it has one, suits its type.
  abbrev pub is_well_refined : Value N → Bool
  is_well_refined (unknown_val t (some r)) = suits t r
  is_well_refined _ = true

  crossed-empty :
      (a b n : N) (i j : Bool)
      → consistent record { min = some a; max = some b; min_inc = i; max_inc = j } ≡ false
      → (above a i (number_outcome n) && below b j (number_outcome n)) ≡ false
  crossed-empty a b n i j h =
      ground (arith, o.neg_trans a n b, o.neg_trans n b a, o.neg_trans b a n, o.asymm a n)

  inconsistent-empty :
      (x y : Option N) (i j : Bool) (n : N)
      → consistent record { min = x; max = y; min_inc = i; max_inc = j } ≡ false
      → in_range record { min = x; max = y; min_inc = i; max_inc = j } n ≡ false
  inconsistent-empty none y i j n h = absurd (ground arith)
  inconsistent-empty (some a) none i j n h = absurd (ground arith)
  inconsistent-empty (some a) (some b) i j n h = crossed-empty a b n i j h

  lower_number :
      (m n k : N) (i : Bool)
      → passes (refutes_lower m i (number_val k)) ≡ false
      → equal k n ≡ true
      → above m i (number_outcome n) ≡ false
  lower_number m n k i h e = ground (arith, o.neg_trans m n k, o.neg_trans n k m, o.asymm m n)

  lower_unknown :
      (m n : N) (i : Bool) (t : CtyType) (r : Option (Refinement N))
      → is_well_refined (unknown_val t r) ≡ true
      → passes (refutes_lower m i (unknown_val t r)) ≡ false
      → denotes (unknown_val t r) (number_outcome n) ≡ true
      → above m i (number_outcome n) ≡ false
  lower_unknown m n i t none w h d = ground (arith, o.pos_inf_highest m)
  lower_unknown m n i t (some (refinement_number u r)) w h d =
      elim (r.max) as (λ x. x ≡ r.max → above m i (number_outcome n) ≡ false) [
        | none ↦ λ e. ground (arith, o.pos_inf_highest m)
        | some k ↦ λ e. ground (arith, o.asymm n k, o.asymm m n, o.neg_trans m n k)
      ]
        refl
  lower_unknown m n i t (some (refinement_string u p)) w h d = absurd (ground arith)
  lower_unknown m n i t (some (refinement_collection u a b)) w h d = absurd (ground arith)
  lower_unknown m n i t (some (refinement_nullable u)) w h d = absurd (ground arith)

  lower-refuted :
      (m n : N) (i : Bool) (v : Value N)
      → is_well_refined v ≡ true
      → passes (refutes_lower m i v) ≡ false
      → denotes v (number_outcome n) ≡ true
      → above m i (number_outcome n) ≡ false
  lower-refuted m n i (unknown_val t r) w h d = lower_unknown m n i t r w h d
  lower-refuted m n i (number_val k) w h d = lower_number m n k i h d
  lower-refuted m n i (null_val t) w h d = absurd (ground arith)
  lower-refuted m n i (string_val s) w h d = absurd (ground arith)
  lower-refuted m n i (collection_val t vs) w h d = absurd (ground arith)
  lower-refuted m n i (structural_val t vs) w h d = absurd (ground arith)
  lower-refuted m n i (opaque_val t) w h d = absurd (ground arith)

  upper_number :
      (m n k : N) (i : Bool)
      → passes (refutes_upper m i (number_val k)) ≡ false
      → equal k n ≡ true
      → below m i (number_outcome n) ≡ false
  upper_number m n k i h e = ground (arith, o.neg_trans k n m, o.neg_trans m k n, o.asymm n m)

  upper_unknown :
      (m n : N) (i : Bool) (t : CtyType) (r : Option (Refinement N))
      → is_well_refined (unknown_val t r) ≡ true
      → passes (refutes_upper m i (unknown_val t r)) ≡ false
      → denotes (unknown_val t r) (number_outcome n) ≡ true
      → below m i (number_outcome n) ≡ false
  upper_unknown m n i t none w h d = ground (arith, o.neg_inf_lowest m)
  upper_unknown m n i t (some (refinement_number u r)) w h d =
      elim (r.min) as (λ x. x ≡ r.min → below m i (number_outcome n) ≡ false) [
        | none ↦ λ e. ground (arith, o.neg_inf_lowest m)
        | some k ↦ λ e. ground (arith, o.asymm k n, o.asymm n m, o.neg_trans k n m)
      ]
        refl
  upper_unknown m n i t (some (refinement_string u p)) w h d = absurd (ground arith)
  upper_unknown m n i t (some (refinement_collection u a b)) w h d = absurd (ground arith)
  upper_unknown m n i t (some (refinement_nullable u)) w h d = absurd (ground arith)

  upper-refuted :
      (m n : N) (i : Bool) (v : Value N)
      → is_well_refined v ≡ true
      → passes (refutes_upper m i v) ≡ false
      → denotes v (number_outcome n) ≡ true
      → below m i (number_outcome n) ≡ false
  upper-refuted m n i (unknown_val t r) w h d = upper_unknown m n i t r w h d
  upper-refuted m n i (number_val k) w h d = upper_number m n k i h d
  upper-refuted m n i (null_val t) w h d = absurd (ground arith)
  upper-refuted m n i (string_val s) w h d = absurd (ground arith)
  upper-refuted m n i (collection_val t vs) w h d = absurd (ground arith)
  upper-refuted m n i (structural_val t vs) w h d = absurd (ground arith)
  upper-refuted m n i (opaque_val t) w h d = absurd (ground arith)

  pub lower_step-none :
      (m : N) (i : Bool) (v : Value N) (t : Tristate) (r : NumberRange N) (n : N)
      → is_well_refined v ≡ true
      → (o.is_neg_inf m ≡ true → i ≡ true)
      → lower_step (number_val m) i v (refinement_number t r) ≡ none
      → denotes v (number_outcome n) ≡ true
      → (in_range r n && above m i (number_outcome n)) ≡ false
  lower_step-none m i v t r n w p h d =
      let r' : NumberRange N = with_min m i r in
      ground (
        arith,
        lower-refuted m n i v w,
        inconsistent-empty r'.min r'.max r'.min_inc r'.max_inc n,
        in_range-lower m n i r p,
      )

  pub upper_step-none :
      (m : N) (i : Bool) (v : Value N) (t : Tristate) (r : NumberRange N) (n : N)
      → is_well_refined v ≡ true
      → (o.is_pos_inf m ≡ true → i ≡ true)
      → upper_step (number_val m) i v (refinement_number t r) ≡ none
      → denotes v (number_outcome n) ≡ true
      → (in_range r n && below m i (number_outcome n)) ≡ false
  upper_step-none m i v t r n w p h d =
      let r' : NumberRange N = with_max m i r in
      ground (
        arith,
        upper-refuted m n i v w,
        inconsistent-empty r'.min r'.max r'.min_inc r'.max_inc n,
        in_range-upper m n i r p,
      )
