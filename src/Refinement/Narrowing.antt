-- ===== src/Refinement/Narrowing.antt =====
-- The steps of the builder for number bounds, and the outcomes that they leave.
use go_cty.Prelude.{
  ◌≡◌, refl, Bool, true, false, ◌&&◌, Option, none, some, nat_eq, if◌then◌else◌, arith,
}
use go_cty.Refinement.{
  NumberOrder, Tristate, NumberRange, Refinement, refinement_string, refinement_number,
  refinement_collection, refinement_nullable, Value, number_val,
}
use go_cty.Refinement.Builder.{Builder, is_dynamic_val, refining}
use go_cty.Refinement.Numbers.{keeps_min, keeps_max, with_min, with_max, lower_step, upper_step}
use go_cty.Refinement.Meaning.{
  Outcome, null_outcome, number_outcome, text_outcome, length_outcome, other_outcome, admits,
  allows, above, below, in_range,
}

module _ {N : Type 0} ⦃o : NumberOrder N⦄ where
  kept-above :
      (m n : N) (i j : Bool) (a : Option N)
      → keeps_min m i record { min = a; max = none; min_inc = j; max_inc = false } ≡ true
      → elim a [ none ↦ true | some w ↦ above w j (number_outcome n) ] ≡ true
      → above m i (number_outcome n) ≡ true
  kept-above m n i j none h e = absurd (ground arith)
  kept-above m n i j (some w) h e =
      ground (arith, o.asymm w n, o.asymm n m, o.neg_trans n m w, o.neg_trans w n m)

  kept-below :
      (m n : N) (i j : Bool) (a : Option N)
      → keeps_max m i record { min = none; max = a; min_inc = false; max_inc = j } ≡ true
      → elim a [ none ↦ true | some w ↦ below w j (number_outcome n) ] ≡ true
      → below m i (number_outcome n) ≡ true
  kept-below m n i j none h e = absurd (ground arith)
  kept-below m n i j (some w) h e = ground (
    arith,
    o.asymm n w,
    o.asymm m n,
    o.neg_trans m n w,
    o.neg_trans w m n,
    o.neg_trans w n m,
    o.neg_trans n w m,
    o.neg_trans n m w,
    o.neg_trans m w n,
  )

  new-above :
      (m n : N) (i j : Bool) (a : Option N)
      → keeps_min m i record { min = a; max = none; min_inc = j; max_inc = false } ≡ false
      → above m i (number_outcome n) ≡ true
      → elim a [ none ↦ true | some w ↦ above w j (number_outcome n) ] ≡ true
  new-above m n i j none h e = refl
  new-above m n i j (some w) h e = ground (
    arith,
    o.asymm w m,
    o.asymm m n,
    o.asymm n w,
    o.neg_trans m n w,
    o.neg_trans w m n,
    o.neg_trans w n m,
    o.neg_trans n w m,
    o.neg_trans n m w,
    o.neg_trans m w n,
  )

  new-below :
      (m n : N) (i j : Bool) (a : Option N)
      → keeps_max m i record { min = none; max = a; min_inc = false; max_inc = j } ≡ false
      → below m i (number_outcome n) ≡ true
      → elim a [ none ↦ true | some w ↦ below w j (number_outcome n) ] ≡ true
  new-below m n i j none h e = refl
  new-below m n i j (some w) h e = ground (
    arith,
    o.asymm w m,
    o.asymm m n,
    o.asymm n w,
    o.asymm m w,
    o.neg_trans m n w,
    o.neg_trans w m n,
    o.neg_trans w n m,
    o.neg_trans n w m,
    o.neg_trans n m w,
    o.neg_trans m w n,
  )

  -- The bounds after the step, whether the earlier bound stays or the new one takes its place.
  pub in_range-lower :
      (m n : N) (i : Bool) (r : NumberRange N)
      → (o.is_neg_inf m ≡ true → i ≡ true)
      → in_range (if keeps_min m i r then r else with_min m i r) n
        ≡ (in_range r n && above m i (number_outcome n))
  in_range-lower m n i r w = ground (
    arith,
    kept-above m n i r.min_inc r.min,
    new-above m n i r.min_inc r.min,
    o.is_neg_inf_lowest m n,
  )

  pub in_range-upper :
      (m n : N) (i : Bool) (r : NumberRange N)
      → (o.is_pos_inf m ≡ true → i ≡ true)
      → in_range (if keeps_max m i r then r else with_max m i r) n
        ≡ (in_range r n && below m i (number_outcome n))
  in_range-upper m n i r w = ground (
    arith,
    kept-below m n i r.max_inc r.max,
    new-below m n i r.max_inc r.max,
    o.is_pos_inf_highest m n,
  )

  lower_step-range :
      (m : N) (i : Bool) (v : Value N) (t : Tristate) (r : NumberRange N) (r' : Refinement N)
      → lower_step (number_val m) i v (refinement_number t r) ≡ some r'
      → r' ≡ refinement_number t (if keeps_min m i r then r else with_min m i r)
  lower_step-range m i v t r r' h = ground arith

  upper_step-range :
      (m : N) (i : Bool) (v : Value N) (t : Tristate) (r : NumberRange N) (r' : Refinement N)
      → upper_step (number_val m) i v (refinement_number t r) ≡ some r'
      → r' ≡ refinement_number t (if keeps_max m i r then r else with_max m i r)
  upper_step-range m i v t r r' h = ground arith

  pub lower_step-admits :
      (m : N) (i : Bool) (v : Value N) (r r' : Refinement N) (c : Outcome N)
      → (o.is_neg_inf m ≡ true → i ≡ true)
      → lower_step (number_val m) i v r ≡ some r'
      → admits r' c ≡ (admits r c && above m i c)
  lower_step-admits m i v (refinement_number t r) r' (number_outcome n) w h =
      rw (lower_step-range m i v t r r' h) (ground (arith, in_range-lower m n i r w))
  lower_step-admits m i v (refinement_number t r) r' null_outcome w h =
      rw (lower_step-range m i v t r r' h) (ground arith)
  lower_step-admits m i v (refinement_number t r) r' (text_outcome s) w h =
      rw (lower_step-range m i v t r r' h) refl
  lower_step-admits m i v (refinement_number t r) r' (length_outcome l) w h =
      rw (lower_step-range m i v t r r' h) refl
  lower_step-admits m i v (refinement_number t r) r' other_outcome w h =
      rw (lower_step-range m i v t r r' h) refl
  lower_step-admits m i v (refinement_string t p) r' c w h = absurd (ground arith)
  lower_step-admits m i v (refinement_collection t a b) r' c w h = absurd (ground arith)
  lower_step-admits m i v (refinement_nullable t) r' c w h = absurd (ground arith)

  pub upper_step-admits :
      (m : N) (i : Bool) (v : Value N) (r r' : Refinement N) (c : Outcome N)
      → (o.is_pos_inf m ≡ true → i ≡ true)
      → upper_step (number_val m) i v r ≡ some r'
      → admits r' c ≡ (admits r c && below m i c)
  upper_step-admits m i v (refinement_number t r) r' (number_outcome n) w h =
      rw (upper_step-range m i v t r r' h) (ground (arith, in_range-upper m n i r w))
  upper_step-admits m i v (refinement_number t r) r' null_outcome w h =
      rw (upper_step-range m i v t r r' h) (ground arith)
  upper_step-admits m i v (refinement_number t r) r' (text_outcome s) w h =
      rw (upper_step-range m i v t r r' h) refl
  upper_step-admits m i v (refinement_number t r) r' (length_outcome l) w h =
      rw (upper_step-range m i v t r r' h) refl
  upper_step-admits m i v (refinement_number t r) r' other_outcome w h =
      rw (upper_step-range m i v t r r' h) refl
  upper_step-admits m i v (refinement_string t p) r' c w h = absurd (ground arith)
  upper_step-admits m i v (refinement_collection t a b) r' c w h = absurd (ground arith)
  upper_step-admits m i v (refinement_nullable t) r' c w h = absurd (ground arith)

  refined_at :
      (v : Value N) (q : Option (Refinement N)) (b' : Builder N)
      → elim q [ none ↦ none | some r' ↦ some record { orig = v; wip = some r' } ] ≡ some b'
      → (r' : Refinement N) × (q ≡ some r') × (b' ≡ record { orig = v; wip = some r' })
  refined_at v none b' h = absurd (ground arith)
  refined_at v (some r') b' h = (r', refl, ground arith)

  pub refining-some :
      (v : Value N) (w : Option (Refinement N)) (f : Refinement N → Option (Refinement N))
      (b' : Builder N)
      → is_dynamic_val v ≡ false
      → refining record { orig = v; wip = w } f ≡ some b'
      → (r : Refinement N) × (r' : Refinement N) × (w ≡ some r)
        × (f r ≡ some r')
        × (b' ≡ record { orig = v; wip = some r' })
  refining-some v none f b' d h = absurd (ground arith)
  refining-some v (some r) f b' d h =
      let found = refined_at v (f r) b' (ground arith) in (r, found.0, refl, found.1, found.2)

  pub refining-allows :
      (b b' : Builder N) (f : Refinement N → Option (Refinement N)) (c : Outcome N) (p : Bool)
      → is_dynamic_val b.orig ≡ false
      → ((r r' : Refinement N) → f r ≡ some r' → admits r' c ≡ (admits r c && p))
      → refining b f ≡ some b'
      → allows b' c ≡ (allows b c && p)
  refining-allows b b' f c p d s h =
      let found = refining-some b.orig b.wip f b' d h in
      rw (found.4, found.2, s found.0 found.1 found.3) refl
