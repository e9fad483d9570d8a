-- ===== src/Values/Unmarking.antt =====
-- UnmarkDeep against a plain recursion.
use go_cty.Prelude.{
  ℕ, zero, suc, ◌≡◌, refl, sym, ap, ap₂, and_true, ◌∙◌, Bool, true, false, ◌||◌, Option, none, some,
  String, List, [], ◌∷◌, ◌++◌, get_or, Equatable, if◌then◌else◌, arith,
}
use mathlib.Core.Path.{subst}
use go_cty.Paths.{PathStep, index_step, get_attr_step}
use go_cty.Values.{
  type_of, is_null, is_known, Value, null_val, unknown_val, bool_val, number_val, string_val,
  list_val, set_val, map_val, tuple_val, object_val, capsule_val, marked_val, Values, no_values,
  value_then, Fields, no_fields, field_then, has_member, insert_mark, insert_marks, delete_mark,
  with_marks, has_mark_deep, values_have_mark, fields_have_mark, contains_marked,
}
use go_cty.Values.Marks.{is_empty, delete_all, delete_all_self, has_member-insert_marks}
use go_cty.Values.Wrangle.{
  ValuePath, Progress, Numbers, wrangle_marks, wrangle_deep, wrangle_values, wrangle_fields,
  wrangle_marks_deep, rewrap, lift_new, join_new, collect, unmark_deep,
}
use go_cty.Values.Stripping.{
  type_of-strip_marks, is_null-strip_marks, is_known-strip_marks, contains_marked-none, strip_marks,
  strip_values, strip_fields, is_well_marked, values_are_well_marked, fields_are_well_marked,
  contains_marked-strip_marks, strip_values-same, values_have_mark-none,
}

module _ {M : Type 0} ⦃e : Equatable M⦄ where
  own_after :
      (j : M) (ms xs : List M) (b : Bool)
      → (b || has_member j (insert_marks ms xs)) ≡ ((has_member j ms || b) || has_member j xs)
  own_after j ms xs b = ground (arith, has_member-insert_marks j ms xs)

  some-delete_all :
      (ms xs : List M)
      → (if is_empty ms then some xs else some (delete_all ms xs)) ≡ some (delete_all ms xs)
  unfolding delete_all
  some-delete_all [] xs = refl
  some-delete_all (m ∷ ms) xs = refl

module _ {N M : Type 0} ⦃e : Equatable M⦄ where
  -- What a walk with `collect` leaves: the value without marks, the marks for the root as they
  -- were, and the marks found.
  abbrev Gathered :
      {A : Type 0} → A → (M → Bool) → Progress N M ⊥ (List M) → A → Progress N M ⊥ (List M) → Type 0
  Gathered want found p got q =
      (got ≡ want)
      × (q.top_marks ≡ p.top_marks)
      × ((j : M) → has_member j q.own ≡ (found j || has_member j p.own))

  lift-Gathered :
      {A B : Type 0} (c : A → B) (vs want : A) (found : M → Bool) (p : Progress N M ⊥ (List M))
      (st : Option A × Progress N M ⊥ (List M))
      → Gathered want found p (get_or st.0 vs) st.1
      → Gathered (c want) found p (get_or (lift_new c st).0 (c vs)) (lift_new c st).1
  lift-Gathered c vs want found p (none, q) (got, top, own) = (ap c got, top, own)
  lift-Gathered c vs want found p (some us, q) (got, top, own) = (ap c got, top, own)

  join-Gathered :
      {A B C : Type 0} (c : A → B → C) (v want : A) (vs wants : B) (f g : M → Bool)
      (p q : Progress N M ⊥ (List M)) (new : Option A) (st : Option B × Progress N M ⊥ (List M))
      → Gathered want f p (get_or new v) q
      → Gathered wants g q (get_or st.0 vs) st.1
      → Gathered
          (c want wants)
          (λ j. f j || g j)
          p
          (get_or (join_new c v vs new st).0 (c v vs))
          (join_new c v vs new st).1
  join-Gathered c v want vs wants f g p q none (none, r) (got, top, own) (got', top', own') =
      (ap₂ c got got', top' ∙ top, λ j. own' j ∙ ground (arith, own j))
  join-Gathered c v want vs wants f g p q none (some us, r) (got, top, own) (got', top', own') =
      (ap₂ c got got', top' ∙ top, λ j. own' j ∙ ground (arith, own j))
  join-Gathered c v want vs wants f g p q (some u) (rest, r) (got, top, own) (got', top', own') =
      (ap₂ c got got', top' ∙ top, λ j. own' j ∙ ground (arith, own j))

module _ {N M : Type 0} ⦃e : Equatable M⦄ where
  with_no_marks : (x : Value N M) → contains_marked x ≡ false → with_marks ([] ∷ []) x ≡ x
  unfolding with_marks contains_marked
  with_no_marks (marked_val v ms) h = absurd (ground arith)
  with_no_marks (null_val t) h = refl
  with_no_marks (unknown_val t r) h = refl
  with_no_marks (bool_val b) h = refl
  with_no_marks (number_val n) h = refl
  with_no_marks (string_val s) h = refl
  with_no_marks (list_val t vs) h = refl
  with_no_marks (set_val t vs) h = refl
  with_no_marks (map_val t fs) h = refl
  with_no_marks (tuple_val vs) h = refl
  with_no_marks (object_val fs) h = refl
  with_no_marks (capsule_val t p) h = refl

  -- No mark for the root on a value without a marker.
  with_marks-none :
      (x : Value N M) (tops : List M)
      → contains_marked x ≡ false
      → tops ≡ []
      → with_marks (tops ∷ []) x ≡ x
  unfolding with_marks contains_marked
  with_marks-none x tops h t = rw t (with_no_marks x h)

module _ {N M : Type 0} ⦃e : Equatable M⦄ ⦃num : Numbers N⦄ where
  wrangle_marks-collect :
      (ms : List M) (path : ValuePath N M) (given : List M) (new : Option (List M))
      (p : Progress N M ⊥ (List M))
      → wrangle_marks (collect ∷ []) ms path given (new, p) ≡ (
        if is_empty ms then new else some (delete_all ms (get_or new given)),
        record p { own = insert_marks ms p.own },
      )
  unfolding delete_all
  wrangle_marks-collect [] path given new p = refl
  wrangle_marks-collect (m ∷ ms) path given new p =
      wrangle_marks-collect ms path given (some (delete_mark m (get_or new given)))
        (record p { own = insert_mark m p.own })
      ∙ ap (λ x. (x, record p { own = insert_marks ms (insert_mark m p.own) }))
          (some-delete_all ms (delete_mark m (get_or new given)))

  wrangle_marks-all :
      (ms : List M) (path : ValuePath N M) (p : Progress N M ⊥ (List M))
      → is_empty ms ≡ false
      → wrangle_marks (collect ∷ []) ms path ms (none, p)
        ≡ (some [], record p { own = insert_marks ms p.own })
  wrangle_marks-all ms path p h =
      wrangle_marks-collect ms path ms none p ∙ rw (h, delete_all_self ms) refl

  mutual
    unfolding wrangle_deep strip_marks has_mark_deep contains_marked

    wrangle_deep-collect :
        (v : Value N M) (path : ValuePath N M) (p : Progress N M ⊥ (List M))
        → is_well_marked v ≡ true
        → Gathered
            (strip_marks v)
            (λ j. has_mark_deep j v)
            p
            (get_or (wrangle_deep (collect ∷ []) v path p).0 v)
            (wrangle_deep (collect ∷ []) v path p).1
    wrangle_deep-collect (marked_val v ms) path p h =
        let all = wrangle_marks-all ms path p (ground arith) in
        let q : Progress N M ⊥ (List M) = record p { own = insert_marks ms p.own } in
        let (got, top, own) = wrangle_deep-collect v path q (ground arith) in
        let after : Option (List M) × Progress N M ⊥ (List M)
            → Option (Value N M) × Progress N M ⊥ (List M) =
          λ st. rewrap v ms st.0 (wrangle_deep (collect ∷ []) v path st.1) in
        subst
          (λ st.
            Gathered (strip_marks v) (λ j. has_member j ms || has_mark_deep j v) p
              (get_or (after st).0 (marked_val v ms)) (after st).1)
          (sym all) (got, top, λ j. own j ∙ own_after j ms p.own (has_mark_deep j v))
    wrangle_deep-collect (list_val t vs) path p h =
        lift-Gathered (list_val t) vs (strip_values vs) (λ j. values_have_mark j vs) p
          (wrangle_values (collect ∷ []) vs zero path p) (wrangle_values-collect vs zero path p h)
    wrangle_deep-collect (set_val t vs) path p h = (
      ap (set_val t) (sym (strip_values-same vs (ground arith))),
      refl,
      λ j. rw (values_have_mark-none j vs (ground arith)) refl,
    )
    wrangle_deep-collect (tuple_val vs) path p h =
        lift-Gathered tuple_val vs (strip_values vs) (λ j. values_have_mark j vs) p
          (wrangle_values (collect ∷ []) vs zero path p) (wrangle_values-collect vs zero path p h)
    wrangle_deep-collect (map_val t fs) path p h =
        lift-Gathered (map_val t) fs (strip_fields fs) (λ j. fields_have_mark j fs) p
          (wrangle_fields (collect ∷ []) (λ k. index_step (string_val k)) fs path p)
          (wrangle_fields-collect (λ k. index_step (string_val k)) fs path p h)
    wrangle_deep-collect (object_val fs) path p h =
        lift-Gathered object_val fs (strip_fields fs) (λ j. fields_have_mark j fs) p
          (wrangle_fields (collect ∷ []) get_attr_step fs path p)
          (wrangle_fields-collect get_attr_step fs path p h)
    wrangle_deep-collect (null_val t) path p h = (refl, refl, λ j. refl)
    wrangle_deep-collect (unknown_val t r) path p h = (refl, refl, λ j. refl)
    wrangle_deep-collect (bool_val b) path p h = (refl, refl, λ j. refl)
    wrangle_deep-collect (number_val n) path p h = (refl, refl, λ j. refl)
    wrangle_deep-collect (string_val s) path p h = (refl, refl, λ j. refl)
    wrangle_deep-collect (capsule_val t x) path p h = (refl, refl, λ j. refl)

    wrangle_values-collect :
        (vs : Values N M) (i : ℕ) (path : ValuePath N M) (p : Progress N M ⊥ (List M))
        → values_are_well_marked vs ≡ true
        → Gathered
            (strip_values vs)
            (λ j. values_have_mark j vs)
            p
            (get_or (wrangle_values (collect ∷ []) vs i path p).0 vs)
            (wrangle_values (collect ∷ []) vs i path p).1
    wrangle_values-collect no_values i path p h = (refl, refl, λ j. refl)
    wrangle_values-collect (value_then v vs) i path p h =
        let parts = and_true (is_well_marked v) (values_are_well_marked vs) h in
        let here = path ++ index_step (number_val (num.of_nat i)) ∷ [] in
        let first = wrangle_deep (collect ∷ []) v here p in
        let rest = wrangle_values (collect ∷ []) vs (suc i) path first.1 in
        join-Gathered value_then v (strip_marks v) vs (strip_values vs) (λ j. has_mark_deep j v)
          (λ j. values_have_mark j vs) p first.1 first.0 rest
          (wrangle_deep-collect v here p parts.0)
          (wrangle_values-collect vs (suc i) path first.1 parts.1)

    wrangle_fields-collect :
        (step : String → PathStep (Value N M)) (fs : Fields N M) (path : ValuePath N M)
        (p : Progress N M ⊥ (List M))
        → fields_are_well_marked fs ≡ true
        → Gathered
            (strip_fields fs)
            (λ j. fields_have_mark j fs)
            p
            (get_or (wrangle_fields (collect ∷ []) step fs path p).0 fs)
            (wrangle_fields (collect ∷ []) step fs path p).1
    wrangle_fields-collect step no_fields path p h = (refl, refl, λ j. refl)
    wrangle_fields-collect step (field_then k v fs) path p h =
        let parts = and_true (is_well_marked v) (fields_are_well_marked fs) h in
        let here = path ++ step k ∷ [] in
        let first = wrangle_deep (collect ∷ []) v here p in
        let rest = wrangle_fields (collect ∷ []) step fs path first.1 in
        join-Gathered (field_then k) v (strip_marks v) fs (strip_fields fs) (λ j. has_mark_deep j v)
          (λ j. fields_have_mark j fs) p first.1 first.0 rest
          (wrangle_deep-collect v here p parts.0)
          (wrangle_fields-collect step fs path first.1 parts.1)

  unmark_deep_both :
      (v : Value N M)
      → is_well_marked v ≡ true
      → ((unmark_deep v).0 ≡ strip_marks v)
        × ((j : M) → has_member j (unmark_deep v).1 ≡ has_mark_deep j v)
  unfolding unmark_deep wrangle_marks_deep
  unmark_deep_both v h =
      let start : Progress N M ⊥ (List M) = record { top_marks = []; errs = []; own = [] } in
      let walked = wrangle_deep (collect ∷ []) v [] start in
      let (got, top, own) = wrangle_deep-collect v [] start h in
      let bare = ap contains_marked got ∙ contains_marked-strip_marks v in
      let whole = with_marks-none (get_or walked.0 v) walked.1.top_marks bare top in
      (whole ∙ got, λ j. own j ∙ ground arith)

  pub unmark_deep_bare :
      (v : Value N M) → is_well_marked v ≡ true → contains_marked (unmark_deep v).0 ≡ false
  unmark_deep_bare v h = ap contains_marked (unmark_deep_both v h).0 ∙ contains_marked-strip_marks v

  -- UnmarkDeep of a well-marked value takes every mark off and leaves the rest as it is: the
  -- result is the plain removal, in which nothing is marked, and the marks that come with it are
  -- exactly those that stand anywhere in the value.
  pub unmark_deep-strip_marks :
      (v : Value N M) (j : M)
      → is_well_marked v ≡ true
      → ((unmark_deep v).0 ≡ strip_marks v)
        × (contains_marked (unmark_deep v).0 ≡ false)
        × (has_member j (unmark_deep v).1 ≡ has_mark_deep j v)
  unmark_deep-strip_marks v j h =
      let (bare, found) = unmark_deep_both v h in (bare, unmark_deep_bare v h, found j)

  -- UnmarkDeep changes neither the type of a value nor whether it is null or known.
  pub unmark_deep-same :
      (v : Value N M)
      → is_well_marked v ≡ true
      → (type_of (unmark_deep v).0 ≡ type_of v)
        × (is_null (unmark_deep v).0 ≡ is_null v)
        × (is_known (unmark_deep v).0 ≡ is_known v)
  unmark_deep-same v h =
      rw (unmark_deep_both v h).0
        (type_of-strip_marks v, is_null-strip_marks v, is_known-strip_marks v)

  -- Where UnmarkDeep finds no mark there is no marker.
  pub unmark_deep-none :
      (v : Value N M) → is_well_marked v ≡ true → (unmark_deep v).1 ≡ [] → contains_marked v ≡ false
  unmark_deep-none v h k =
      contains_marked-none v h (λ j. sym ((unmark_deep_both v h).1 j) ∙ ap (has_member j) k)
