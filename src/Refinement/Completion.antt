-- ===== src/Refinement/Completion.antt =====
-- Well-formed builders, and the values that NewValue and RefineWith make of them.
use go_cty.Prelude.{
  ℕ, zero, suc, ◌≡◌, refl, sym, ◌∙◌, Bool, true, false, ◌&&◌, not, Option, none, some, List, [],
  ◌∷◌, all, arith, inl, inr, Bool-cases,
}
use mathlib.Core.Path.{subst}
use go_cty.Types.{
  CtyType, pseudo_type_dynamic, primitive_type, type_list, type_set, type_map, type_object,
  type_tuple, capsule_type,
}
use go_cty.Refinement.{
  NumberOrder, Value, unknown_val, values_length, Refinement, Tristate, tristate_false,
  refinement_number, refinement_collection, refinement_string, refinement_nullable, type_of,
  is_known, is_wholly_known, equal,
}
use go_cty.Refinement.Builder.{Builder, is_dynamic_val, refine}
use go_cty.Refinement.Numbers.{
  unknown_elements, known_collection, collapse, new_value, slice_is_made,
}
use go_cty.Refinement.Meaning.{
  Outcome, null_outcome, number_outcome, text_outcome, length_outcome, other_outcome, admits,
  allows, denotes, suits, is_valid,
}
use go_cty.Refinement.Narrowing.{refining-some}
use go_cty.Refinement.Requests.{
  Request, ask_not_null, ask_null, ask_lower, ask_upper, ask_min_length, ask_max_length, ask_prefix,
  run, run_all, refine_with, meets, is_proper, step_of, run-step_of, allows-run,
}

length-unknown_elements :
    (N : Type 0) (n : ℕ) (t : CtyType) → values_length {N = N} (unknown_elements n t) ≡ n
length-unknown_elements N zero t = refl
length-unknown_elements N (suc n) t = ground (arith, length-unknown_elements N n t)

bind-some {ℓ κ} :
    {A : Type ℓ} {B : Type κ} (x : Option A) (f : A → Option B) (y : B)
    → elim x [ none ↦ none | some a ↦ f a ] ≡ some y
    → (a : A) × (x ≡ some a) × (f a ≡ some y)
bind-some none f y h = absurd (ground arith)
bind-some (some a) f y h = (a, refl, h)

module _ {N : Type 0} ⦃o : NumberOrder N⦄ (normalize : List ℕ → List ℕ) where
  step_of-suits :
      (q : Request N) (t : CtyType) (v : Value N) (r r' : Refinement N)
      → suits t r ≡ true
      → step_of normalize q v r ≡ some r'
      → suits t r' ≡ true
  unfolding step_of
  step_of-suits ask_not_null t v r r' s h = ground arith
  step_of-suits ask_null t v r r' s h = ground arith
  step_of-suits (ask_lower m i) t v r r' s h = ground arith
  step_of-suits (ask_upper m i) t v r r' s h = ground arith
  step_of-suits (ask_min_length n) t v r r' s h = ground arith
  step_of-suits (ask_max_length n) t v r r' s h = ground arith
  step_of-suits (ask_prefix p) t v r r' s h = ground arith

  -- A step of a builder that is not that of DynamicVal keeps it well-formed and does not touch the
  -- value that it refines.
  pub run-is_valid :
      (q : Request N) (b b' : Builder N)
      → is_dynamic_val b.orig ≡ false
      → is_valid b ≡ true
      → run normalize q b ≡ some b'
      → (b'.orig ≡ b.orig) × (is_valid b' ≡ true)
  run-is_valid q b b' d w h =
      let found =
        refining-some b.orig b.wip (step_of normalize q b.orig) b' d
          (rw (sym (run-step_of normalize q b)) h) in
      let old : suits (type_of b.orig) found.0 ≡ true =
        subst
          (λ x. elim x [ none ↦ is_dynamic_val b.orig | some r ↦ suits (type_of b.orig) r ] ≡ true)
          found.2 w in
      let suited = step_of-suits q (type_of b.orig) b.orig found.0 found.1 old found.3 in
      rw (found.4) (refl, suited)

  run-some :
      (q : Request N) (qs : List (Request N)) (b b' : Builder N)
      → run_all normalize (q ∷ qs) b ≡ some b'
      → (m : Builder N) × (run normalize q b ≡ some m) × (run_all normalize qs m ≡ some b')
  unfolding run_all
  run-some q qs b b' h = bind-some (run normalize q b) (run_all normalize qs) b' h

  run_all-allows :
      (qs : List (Request N)) (b b' : Builder N) (c : Outcome N)
      → is_dynamic_val b.orig ≡ false
      → is_valid b ≡ true
      → all is_proper qs ≡ true
      → run_all normalize qs b ≡ some b'
      → (b'.orig ≡ b.orig)
        × (is_valid b' ≡ true)
        × (allows b' c ≡ (allows b c && all (λ q. meets normalize q c) qs))
  unfolding run_all
  run_all-allows [] b b' c d w p h = ground arith
  run_all-allows (q ∷ qs) b b' c d w p h =
      let (m, e, k) = run-some q qs b b' h in
      let kept = run-is_valid q b m d w e in
      let rest = run_all-allows qs m b' c (rw (kept.0) d) kept.1 (ground arith) k in
      (
        rest.0 ∙ kept.0,
        rest.1,
        rest.2 ∙ ground (arith, allows-run normalize q b m c d (ground arith) e),
      )

  known_collection-denotes :
      (n : ℕ) (t : CtyType) (v : Value N) (c : Outcome N)
      → known_collection n t ≡ some v
      → denotes v c ≡ admits (refinement_collection tristate_false n n) c
  unfolding is_wholly_known
  known_collection-denotes zero (type_list t) v c h = ground arith
  known_collection-denotes zero (type_set t) v c h = ground arith
  known_collection-denotes zero (type_map t) v c h = ground arith
  known_collection-denotes (suc n) (type_list t) v c h =
      ground (arith, length-unknown_elements N n t)
  known_collection-denotes (suc n) (type_set t) v c h = ground arith
  known_collection-denotes (suc n) (type_map t) v c h = absurd (ground arith)
  known_collection-denotes n (primitive_type k) v c h = absurd (ground arith)
  known_collection-denotes n pseudo_type_dynamic v c h = absurd (ground arith)
  known_collection-denotes n (type_object fs os) v c h = absurd (ground arith)
  known_collection-denotes n (type_tuple ts) v c h = absurd (ground arith)
  known_collection-denotes n (capsule_type k) v c h = absurd (ground arith)

  equal-both : (a b n : N) → equal a b ≡ true → equal a n ≡ (not (o.less n a) && not (o.less b n))
  equal-both a b n h = ground (arith, o.neg_trans n b a, o.neg_trans n a b)

  collapse_number-denotes :
      (t : CtyType) (u : Tristate) (x y : Option N) (i j : Bool) (v : Value N) (c : Outcome N)
      → collapse t (refinement_number u record { min = x; max = y; min_inc = i; max_inc = j })
        ≡ some v
      → denotes v c
        ≡ admits (refinement_number u record { min = x; max = y; min_inc = i; max_inc = j }) c
  collapse_number-denotes t u none y i j v (number_outcome n) h = ground arith
  collapse_number-denotes t u (some a) none i j v (number_outcome n) h = ground arith
  collapse_number-denotes t u (some a) (some b) i j v (number_outcome n) h =
      ground (arith, equal-both a b n)
  collapse_number-denotes t u x y i j v null_outcome h = ground arith
  collapse_number-denotes t u x y i j v (text_outcome s) h = ground arith
  collapse_number-denotes t u x y i j v (length_outcome l) h = ground arith
  collapse_number-denotes t u x y i j v other_outcome h = ground arith

  collapse-denotes :
      (t : CtyType) (r : Refinement N) (v : Value N) (c : Outcome N)
      → collapse t r ≡ some v
      → denotes v c ≡ admits r c
  unfolding is_wholly_known
  collapse-denotes t (refinement_string u p) v c h = ground arith
  collapse-denotes t (refinement_nullable u) v c h = ground arith
  collapse-denotes t (refinement_collection u a b) v c h =
      ground (arith, known_collection-denotes a t v c)
  collapse-denotes t (refinement_number u r) v c h =
      collapse_number-denotes t u r.min r.max r.min_inc r.max_inc v c h

  finish :
      (t : CtyType) (r : Refinement N) (q : Option (Value N)) (c : Outcome N)
      → collapse t r ≡ q
      → (v : Value N) × (elim q [ none ↦ some (unknown_val t (some r)) | some v ↦ some v ] ≡ some v)
        × (denotes v c ≡ admits r c)
  finish t r none c e = (unknown_val t (some r), refl, refl)
  finish t r (some v) c e = (v, refl, collapse-denotes t r v c e)

  -- There is room for the elements of a list whose length is settled.
  abbrev pub has_room : (ℕ → Bool) → Builder N → Bool
  has_room makes b = elim b.wip [ none ↦ true | some r ↦ slice_is_made makes (type_of b.orig) r ]

  module _ (makes : ℕ → Bool) where
    new_value_of :
        (x : Value N) (w : Option (Refinement N)) (c : Outcome N)
        → is_known x ≡ false
        → is_dynamic_val x ≡ false
        → is_valid record { orig = x; wip = w } ≡ true
        → has_room makes record { orig = x; wip = w } ≡ true
        → (v : Value N) × (new_value makes record { orig = x; wip = w } ≡ some v)
          × (denotes v c ≡ allows record { orig = x; wip = w } c)
    unfolding new_value
    new_value_of x none c k d s room = absurd (ground arith)
    new_value_of x (some r) c k d s room =
        rw (k, d, room) (finish (type_of x) r (collapse (type_of x) r) c refl)

    new_value-has_room :
        (b : Builder N) (v : Value N)
        → is_known b.orig ≡ false
        → is_dynamic_val b.orig ≡ false
        → new_value makes b ≡ some v
        → has_room makes b ≡ true
    unfolding new_value
    new_value-has_room b v k d h = has_room_of b.orig b.wip k d h
      where
        has_room_of :
            (x : Value N) (w : Option (Refinement N))
            → is_known x ≡ false
            → is_dynamic_val x ≡ false
            → new_value makes record { orig = x; wip = w } ≡ some v
            → has_room makes record { orig = x; wip = w } ≡ true
        has_room_of x none k' d' h' = refl
        has_room_of x (some r) k' d' h' = elim (Bool-cases (slice_is_made makes (type_of x) r)) [
          | inl y ↦ y
          | inr n ↦ absurd (ground (arith, k', d', n, h'))
        ]

    -- NewValue of a well-formed builder of an unknown value other than DynamicVal does not panic,
    -- if there is room for the elements of a list whose length is settled, and what the result may
    -- turn out to be is exactly what the refinement leaves. Go's make, which panics where it has no
    -- room, is a parameter.
    pub new_value-denotes :
        (b : Builder N) (c : Outcome N)
        → is_known b.orig ≡ false
        → is_dynamic_val b.orig ≡ false
        → is_valid b ≡ true
        → has_room makes b ≡ true
        → (v : Value N) × (new_value makes b ≡ some v) × (denotes v c ≡ allows b c)
    new_value-denotes b c k d w room = new_value_of b.orig b.wip c k d w room

  -- An unknown value of a known type, whose refinement, if it has one, is of its type's kind and
  -- has bounds that do not cross.
  abbrev pub is_refinable : Value N → Bool
  is_refinable (unknown_val pseudo_type_dynamic none) = false
  is_refinable (unknown_val t none) = true
  is_refinable (unknown_val t (some r)) = suits t r
  is_refinable _ = false

  refine-facts :
      (v : Value N) (c : Outcome N)
      → is_refinable v ≡ true
      → ((refine v).orig ≡ v)
        × (is_valid (refine v) ≡ true)
        × (is_known v ≡ false)
        × (is_dynamic_val v ≡ false)
        × (allows (refine v) c ≡ denotes v c)
  unfolding refine
  refine-facts v c h = ground arith

  -- RefineWith of an unknown value that can be refined, where it does not panic, gives a value that
  -- may turn out to be exactly those outcomes that the value may turn out to be and that meet every
  -- request. No request is an exclusive bound at the infinity.
  pub refine_with-denotes :
      (makes : ℕ → Bool) (qs : List (Request N)) (v v' : Value N) (c : Outcome N)
      → is_refinable v ≡ true
      → all is_proper qs ≡ true
      → refine_with normalize makes qs v ≡ some v'
      → denotes v' c ≡ (denotes v c && all (λ q. meets normalize q c) qs)
  unfolding refine_with
  refine_with-denotes makes [] v v' c h p e = ground arith
  refine_with-denotes makes (q ∷ qs) v v' c h p e =
      let start = refine-facts v c h in
      let (b, ran, made) =
        bind-some (run_all normalize (q ∷ qs) (refine v)) (new_value makes) v' e in
      let kept = run_all-allows (q ∷ qs) (refine v) b c (rw (start.0) start.3) start.1 p ran in
      let same = kept.0 ∙ start.0 in
      let (known, dynamic) : (is_known b.orig ≡ false) × (is_dynamic_val b.orig ≡ false) =
        (rw same start.2, rw same start.3) in
      let room = new_value-has_room makes b v' known dynamic made in
      let done = new_value-denotes makes b c known dynamic kept.1 room in
      ground (arith, done.1, done.2, kept.2, start.4, made)
