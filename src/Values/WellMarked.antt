-- ===== src/Values/WellMarked.antt =====
-- The operations on marked values keep the markers as Go builds them: one marker at most around a
-- content, with at least one mark, and none inside a set.
use go_cty.Prelude.{
  ℕ, zero, suc, ◌≡◌, refl, ◌∙◌, Bool, true, false, not, ◌&&◌, ◌||◌, Bool-cases, inl, inr, Option,
  none, some, String, List, [], ◌∷◌, ◌++◌, get_or, Equatable, and_true, arith,
}
use go_cty.Paths.{PathStep, index_step, get_attr_step}
use go_cty.Values.{
  Value, null_val, unknown_val, bool_val, number_val, string_val, list_val, set_val, map_val,
  tuple_val, object_val, capsule_val, marked_val, Values, no_values, value_then, Fields, no_fields,
  field_then, is_marked, marks, unmark_force, insert_mark, insert_marks, union_marks, any_marks,
  mark, with_marks, with_new_marks,
}
use go_cty.Values.Marks.{is_empty}
use go_cty.Values.Wrangle.{
  ValuePath, Wrangler, Progress, Numbers, rewrap, lift_new, join_new, wrangle_marks, wrangle_deep,
  wrangle_values, wrangle_fields, wrangle_marks_deep,
}
use go_cty.Values.Stripping.{is_well_marked, values_are_well_marked, fields_are_well_marked}

both_true : (a b : Bool) → a ≡ true → b ≡ true → a && b ≡ true
both_true a b h k = ground arith

module _ {N M : Type 0} where
  -- What is inside a marker has no marker around it.
  unmark_force-is_well_marked :
      (v : Value N M)
      → is_well_marked v ≡ true
      → (is_well_marked (unmark_force v) ≡ true) × (is_marked (unmark_force v) ≡ false)
  unmark_force-is_well_marked (marked_val v ms) h = (ground arith, ground arith)
  unmark_force-is_well_marked (null_val t) h = (h, refl)
  unmark_force-is_well_marked (unknown_val t r) h = (h, refl)
  unmark_force-is_well_marked (bool_val b) h = (h, refl)
  unmark_force-is_well_marked (number_val n) h = (h, refl)
  unmark_force-is_well_marked (string_val x) h = (h, refl)
  unmark_force-is_well_marked (list_val t vs) h = (h, refl)
  unmark_force-is_well_marked (set_val t vs) h = (h, refl)
  unmark_force-is_well_marked (map_val t fs) h = (h, refl)
  unmark_force-is_well_marked (tuple_val vs) h = (h, refl)
  unmark_force-is_well_marked (object_val fs) h = (h, refl)
  unmark_force-is_well_marked (capsule_val t p) h = (h, refl)

  marked_val-is_well_marked :
      (v : Value N M) (ms : List M)
      → is_well_marked v ≡ true
      → is_empty ms ≡ false
      → is_well_marked (marked_val (unmark_force v) ms) ≡ true
  marked_val-is_well_marked v ms h k =
      let (inner, bare) = unmark_force-is_well_marked v h in rw (k, bare, inner) refl

  with_new_marks-is_well_marked :
      (v : Value N M) (ms : List M)
      → is_well_marked v ≡ true
      → is_well_marked (with_new_marks v ms) ≡ true
  with_new_marks-is_well_marked v [] h = h
  with_new_marks-is_well_marked v (m ∷ ms) h = marked_val-is_well_marked v (m ∷ ms) h refl

module _ {M : Type 0} ⦃e : Equatable M⦄ where
  is_empty-insert_mark : (m : M) (xs : List M) → is_empty (insert_mark m xs) ≡ false
  is_empty-insert_mark m [] = refl
  is_empty-insert_mark m (x ∷ xs) = ground arith

  is_empty-insert_marks :
      (ms xs : List M) → is_empty (insert_marks ms xs) ≡ is_empty ms && is_empty xs
  is_empty-insert_marks [] xs = refl
  is_empty-insert_marks (m ∷ ms) xs =
      is_empty-insert_marks ms (insert_mark m xs) ∙ rw (is_empty-insert_mark m xs) (ground arith)

  is_empty-union_marks :
      (ss : List (List M)) (xs : List M)
      → is_empty (union_marks ss xs) ≡ not (any_marks ss) && is_empty xs
  is_empty-union_marks [] xs = refl
  is_empty-union_marks ([] ∷ ss) xs = is_empty-union_marks ss xs
  is_empty-union_marks ((m ∷ ms) ∷ ss) xs =
      is_empty-union_marks ss (insert_marks (m ∷ ms) xs)
      ∙ rw (is_empty-insert_marks (m ∷ ms) xs) (ground arith)

  any_marks-cons :
      (s : List M) (ss : List (List M)) → any_marks (s ∷ ss) ≡ (not (is_empty s) || any_marks ss)
  any_marks-cons [] ss = refl
  any_marks-cons (m ∷ ms) ss = refl

  some_mark :
      (own : List M) (ss : List (List M))
      → any_marks (own ∷ ss) ≡ true
      → is_empty (union_marks ss (insert_marks own [])) ≡ false
  some_mark own ss h = ground (
    arith,
    any_marks-cons own ss,
    is_empty-union_marks ss (insert_marks own []),
    is_empty-insert_marks own [],
  )

module _ {N M : Type 0} ⦃e : Equatable M⦄ where
  mark-is_well_marked :
      (m : M) (v : Value N M) → is_well_marked v ≡ true → is_well_marked (mark m v) ≡ true
  unfolding mark
  mark-is_well_marked m v h =
      marked_val-is_well_marked v (insert_mark m (marks v)) h (is_empty-insert_mark m (marks v))

  with_marks-is_well_marked :
      (ss : List (List M)) (v : Value N M)
      → is_well_marked v ≡ true
      → is_well_marked (with_marks ss v) ≡ true
  unfolding with_marks
  with_marks-is_well_marked [] v h = h
  with_marks-is_well_marked (s ∷ ss) v h = elim (Bool-cases (any_marks (marks v ∷ s ∷ ss))) [
    | inl y ↦ rw y (marked_val-is_well_marked v _ h (some_mark (marks v) (s ∷ ss) y))
    | inr n ↦ rw n h
  ]

module _ {N M E S : Type 0} ⦃e : Equatable M⦄ ⦃num : Numbers N⦄ where
  lift-well_marked :
      {A B : Type 0} (c : A → B) (well : A → Bool) (well' : B → Bool) (vs : A)
      (st : Option A × Progress N M E S)
      → ((us : A) → well' (c us) ≡ well us)
      → well (get_or st.0 vs) ≡ true
      → well' (get_or (lift_new c st).0 (c vs)) ≡ true
  lift-well_marked c well well' vs (none, q) k h = k vs ∙ h
  lift-well_marked c well well' vs (some us, q) k h = k us ∙ h

  join-well_marked :
      {A B C : Type 0} (c : A → B → C) (well : A → Bool) (well' : B → Bool) (well'' : C → Bool)
      (v : A) (vs : B) (new : Option A) (st : Option B × Progress N M E S)
      → ((u : A) (us : B) → well'' (c u us) ≡ well u && well' us)
      → well (get_or new v) ≡ true
      → well' (get_or st.0 vs) ≡ true
      → well'' (get_or (join_new c v vs new st).0 (c v vs)) ≡ true
  join-well_marked c well well' well'' v vs none (none, q) k h i = k v vs ∙ both_true _ _ h i
  join-well_marked c well well' well'' v vs none (some us, q) k h i = k v us ∙ both_true _ _ h i
  join-well_marked c well well' well'' v vs (some u) (rest, q) k h i =
      k u (get_or rest vs) ∙ both_true _ _ h i

  marker-is_well_marked :
      (v : Value N M) (ms : List M) (new : Option (List M))
      (st : Option (Value N M) × Progress N M E S)
      → is_well_marked (marked_val v ms) ≡ true
      → is_well_marked (get_or st.0 v) ≡ true
      → is_well_marked (get_or (rewrap v ms new st).0 (marked_val v ms)) ≡ true
  marker-is_well_marked v ms none (none, r) h k = h
  marker-is_well_marked v ms none (some u, r) h k = with_new_marks-is_well_marked u ms k
  marker-is_well_marked v ms (some ns) (inner, r) h k =
      with_new_marks-is_well_marked (get_or inner v) ns k

  mutual
    unfolding wrangle_deep

    wrangle_deep-is_well_marked :
        (ws : List (Wrangler N M E S)) (v : Value N M) (path : ValuePath N M) (p : Progress N M E S)
        → is_well_marked v ≡ true
        → is_well_marked (get_or (wrangle_deep ws v path p).0 v) ≡ true
    wrangle_deep-is_well_marked ws (marked_val v ms) path p h =
        let st = wrangle_marks ws ms path ms (none, p) in
        marker-is_well_marked v ms st.0 (wrangle_deep ws v path st.1) h
          (wrangle_deep-is_well_marked ws v path st.1 (ground arith))
    wrangle_deep-is_well_marked ws (list_val t vs) path p h =
        lift-well_marked (list_val t) values_are_well_marked is_well_marked vs
          (wrangle_values ws vs zero path p) (λ us. refl)
          (wrangle_values-are_well_marked ws vs zero path p h)
    wrangle_deep-is_well_marked ws (tuple_val vs) path p h =
        lift-well_marked tuple_val values_are_well_marked is_well_marked vs
          (wrangle_values ws vs zero path p) (λ us. refl)
          (wrangle_values-are_well_marked ws vs zero path p h)
    wrangle_deep-is_well_marked ws (map_val t fs) path p h =
        lift-well_marked (map_val t) fields_are_well_marked is_well_marked fs
          (wrangle_fields ws (λ k. index_step (string_val k)) fs path p) (λ gs. refl)
          (wrangle_fields-are_well_marked ws (λ k. index_step (string_val k)) fs path p h)
    wrangle_deep-is_well_marked ws (object_val fs) path p h =
        lift-well_marked object_val fields_are_well_marked is_well_marked fs
          (wrangle_fields ws get_attr_step fs path p) (λ gs. refl)
          (wrangle_fields-are_well_marked ws get_attr_step fs path p h)
    wrangle_deep-is_well_marked ws (null_val t) path q h = h
    wrangle_deep-is_well_marked ws (unknown_val t r) path q h = h
    wrangle_deep-is_well_marked ws (bool_val b) path q h = h
    wrangle_deep-is_well_marked ws (number_val n) path q h = h
    wrangle_deep-is_well_marked ws (string_val x) path q h = h
    wrangle_deep-is_well_marked ws (capsule_val t p) path q h = h
    wrangle_deep-is_well_marked ws (set_val t vs) path q h = h

    wrangle_values-are_well_marked :
        (ws : List (Wrangler N M E S)) (vs : Values N M) (i : ℕ) (path : ValuePath N M)
        (p : Progress N M E S)
        → values_are_well_marked vs ≡ true
        → values_are_well_marked (get_or (wrangle_values ws vs i path p).0 vs) ≡ true
    wrangle_values-are_well_marked ws no_values i path p h = refl
    wrangle_values-are_well_marked ws (value_then v vs) i path p h =
        let parts = and_true (is_well_marked v) (values_are_well_marked vs) h in
        let here = path ++ index_step (number_val (num.of_nat i)) ∷ [] in
        let first = wrangle_deep ws v here p in
        join-well_marked value_then is_well_marked values_are_well_marked values_are_well_marked v
          vs first.0 (wrangle_values ws vs (suc i) path first.1) (λ u us. refl)
          (wrangle_deep-is_well_marked ws v here p parts.0)
          (wrangle_values-are_well_marked ws vs (suc i) path first.1 parts.1)

    wrangle_fields-are_well_marked :
        (ws : List (Wrangler N M E S)) (step : String → PathStep (Value N M)) (fs : Fields N M)
        (path : ValuePath N M) (p : Progress N M E S)
        → fields_are_well_marked fs ≡ true
        → fields_are_well_marked (get_or (wrangle_fields ws step fs path p).0 fs) ≡ true
    wrangle_fields-are_well_marked ws step no_fields path p h = refl
    wrangle_fields-are_well_marked ws step (field_then k v fs) path p h =
        let parts = and_true (is_well_marked v) (fields_are_well_marked fs) h in
        let here = path ++ step k ∷ [] in
        let first = wrangle_deep ws v here p in
        join-well_marked (field_then k) is_well_marked fields_are_well_marked fields_are_well_marked
          v fs first.0 (wrangle_fields ws step fs path first.1) (λ u us. refl)
          (wrangle_deep-is_well_marked ws v here p parts.0)
          (wrangle_fields-are_well_marked ws step fs path first.1 parts.1)

  -- Mark, WithMarks, Unmark and WrangleMarksDeep, with any wranglers, keep the markers as Go builds
  -- them: one marker at most around a content, with at least one mark, and none inside a set.
  pub wrangle_marks_deep-is_well_marked :
      (ws : List (Wrangler N M E S)) (s : S) (ss : List (List M)) (m : M) (v : Value N M)
      → is_well_marked v ≡ true
      → (is_well_marked (mark m v) ≡ true)
        × (is_well_marked (with_marks ss v) ≡ true)
        × (is_well_marked (unmark_force v) ≡ true)
        × (is_well_marked (wrangle_marks_deep ws s v).0 ≡ true)
  unfolding wrangle_marks_deep
  wrangle_marks_deep-is_well_marked ws s ss m v h =
      let start : Progress N M E S = record { top_marks = []; errs = []; own = s } in
      let walked = wrangle_deep ws v [] start in
      (
        mark-is_well_marked m v h,
        with_marks-is_well_marked ss v h,
        (unmark_force-is_well_marked v h).0,
        with_marks-is_well_marked (walked.1.top_marks ∷ []) (get_or walked.0 v)
            (wrangle_deep-is_well_marked ws v [] start h),
      )
