-- ===== src/Values/Stripping.antt =====
-- The plain removal of all markers, the values that Go builds, and what has no mark.
use go_cty.Types.{type_object, type_tuple, type_then, attr}
use go_cty.Prelude.{
  ◌==◌, and_true, [], ◌∷◌, ◌||◌, ◌≡◌, refl, ap, ap₂, or_false, Bool, true, false, ◌&&◌, not,
  Equatable, arith,
}
use go_cty.Values.{
  type_of, types_of_values, attrs_of_fields, is_null, is_known, has_member, Value, null_val,
  unknown_val, bool_val, number_val, string_val, list_val, set_val, map_val, tuple_val, object_val,
  capsule_val, marked_val, Values, no_values, value_then, Fields, no_fields, field_then, is_marked,
  has_mark_deep, values_have_mark, fields_have_mark, contains_marked, values_contain_marked,
  fields_contain_marked,
}
use go_cty.Values.Marks.{is_empty}

module _ {N M : Type 0} where
  -- The specification: every marker is taken off.
  unfoldable mutual
    pub strip_marks : Value N M → Value N M
    strip_marks (marked_val v ms) = strip_marks v
    strip_marks (list_val t vs) = list_val t (strip_values vs)
    strip_marks (set_val t vs) = set_val t (strip_values vs)
    strip_marks (map_val t fs) = map_val t (strip_fields fs)
    strip_marks (tuple_val vs) = tuple_val (strip_values vs)
    strip_marks (object_val fs) = object_val (strip_fields fs)
    strip_marks (null_val t) = null_val t
    strip_marks (unknown_val t r) = unknown_val t r
    strip_marks (bool_val b) = bool_val b
    strip_marks (number_val n) = number_val n
    strip_marks (string_val s) = string_val s
    strip_marks (capsule_val t p) = capsule_val t p

    pub strip_values : Values N M → Values N M
    strip_values no_values = no_values
    strip_values (value_then v vs) = value_then (strip_marks v) (strip_values vs)

    pub strip_fields : Fields N M → Fields N M
    strip_fields no_fields = no_fields
    strip_fields (field_then k v fs) = field_then k (strip_marks v) (strip_fields fs)

  -- A marker has a mark and no marker inside, and nothing in a set has a mark: SetVal moves the
  -- marks of its elements to the set.
  abbrev mutual
    pub is_well_marked : Value N M → Bool
    is_well_marked (marked_val v ms) = not (is_empty ms) && not (is_marked v) && is_well_marked v
    is_well_marked (list_val t vs) = values_are_well_marked vs
    is_well_marked (set_val t vs) = not (values_contain_marked vs)
    is_well_marked (map_val t fs) = fields_are_well_marked fs
    is_well_marked (tuple_val vs) = values_are_well_marked vs
    is_well_marked (object_val fs) = fields_are_well_marked fs
    is_well_marked _ = true

    pub values_are_well_marked : Values N M → Bool
    values_are_well_marked no_values = true
    values_are_well_marked (value_then v vs) = is_well_marked v && values_are_well_marked vs

    pub fields_are_well_marked : Fields N M → Bool
    fields_are_well_marked no_fields = true
    fields_are_well_marked (field_then k v fs) = is_well_marked v && fields_are_well_marked fs

  mutual
    unfolding strip_marks contains_marked

    pub contains_marked-strip_marks : (v : Value N M) → contains_marked (strip_marks v) ≡ false
    contains_marked-strip_marks (marked_val v ms) = contains_marked-strip_marks v
    contains_marked-strip_marks (list_val t vs) = strip_values-unmarked vs
    contains_marked-strip_marks (set_val t vs) = strip_values-unmarked vs
    contains_marked-strip_marks (map_val t fs) = strip_fields-unmarked fs
    contains_marked-strip_marks (tuple_val vs) = strip_values-unmarked vs
    contains_marked-strip_marks (object_val fs) = strip_fields-unmarked fs
    contains_marked-strip_marks (null_val t) = refl
    contains_marked-strip_marks (unknown_val t r) = refl
    contains_marked-strip_marks (bool_val b) = refl
    contains_marked-strip_marks (number_val n) = refl
    contains_marked-strip_marks (string_val s) = refl
    contains_marked-strip_marks (capsule_val t p) = refl

    strip_values-unmarked : (vs : Values N M) → values_contain_marked (strip_values vs) ≡ false
    strip_values-unmarked no_values = refl
    strip_values-unmarked (value_then v vs) =
        ground (arith, contains_marked-strip_marks v, strip_values-unmarked vs)

    strip_fields-unmarked : (fs : Fields N M) → fields_contain_marked (strip_fields fs) ≡ false
    strip_fields-unmarked no_fields = refl
    strip_fields-unmarked (field_then k v fs) =
        ground (arith, contains_marked-strip_marks v, strip_fields-unmarked fs)

  -- What has no marker stays as it is.
  mutual
    unfolding strip_marks contains_marked

    pub strip_marks-same : (v : Value N M) → contains_marked v ≡ false → strip_marks v ≡ v
    strip_marks-same (marked_val v ms) h = absurd (ground arith)
    strip_marks-same (list_val t vs) h = ap (list_val t) (strip_values-same vs h)
    strip_marks-same (set_val t vs) h = ap (set_val t) (strip_values-same vs h)
    strip_marks-same (map_val t fs) h = ap (map_val t) (strip_fields-same fs h)
    strip_marks-same (tuple_val vs) h = ap tuple_val (strip_values-same vs h)
    strip_marks-same (object_val fs) h = ap object_val (strip_fields-same fs h)
    strip_marks-same (null_val t) h = refl
    strip_marks-same (unknown_val t r) h = refl
    strip_marks-same (bool_val b) h = refl
    strip_marks-same (number_val n) h = refl
    strip_marks-same (string_val s) h = refl
    strip_marks-same (capsule_val t p) h = refl

    pub strip_values-same :
        (vs : Values N M) → values_contain_marked vs ≡ false → strip_values vs ≡ vs
    strip_values-same no_values h = refl
    strip_values-same (value_then v vs) h =
        let parts = or_false (contains_marked v) (values_contain_marked vs) h in
        ap₂ value_then (strip_marks-same v parts.0) (strip_values-same vs parts.1)

    strip_fields-same : (fs : Fields N M) → fields_contain_marked fs ≡ false → strip_fields fs ≡ fs
    strip_fields-same no_fields h = refl
    strip_fields-same (field_then k v fs) h =
        let parts = or_false (contains_marked v) (fields_contain_marked fs) h in
        ap₂ (field_then k) (strip_marks-same v parts.0) (strip_fields-same fs parts.1)

  mutual
    unfolding type_of strip_marks

    pub type_of-strip_marks : (v : Value N M) → type_of (strip_marks v) ≡ type_of v
    type_of-strip_marks (marked_val v ms) = type_of-strip_marks v
    type_of-strip_marks (list_val t vs) = refl
    type_of-strip_marks (set_val t vs) = refl
    type_of-strip_marks (map_val t fs) = refl
    type_of-strip_marks (tuple_val vs) = ap type_tuple (types_of_values-strip vs)
    type_of-strip_marks (object_val fs) = ap (λ a. type_object a []) (attrs_of_fields-strip fs)
    type_of-strip_marks (null_val t) = refl
    type_of-strip_marks (unknown_val t r) = refl
    type_of-strip_marks (bool_val b) = refl
    type_of-strip_marks (number_val n) = refl
    type_of-strip_marks (string_val s) = refl
    type_of-strip_marks (capsule_val t p) = refl

    types_of_values-strip :
        (vs : Values N M) → types_of_values (strip_values vs) ≡ types_of_values vs
    types_of_values-strip no_values = refl
    types_of_values-strip (value_then v vs) =
        ap₂ type_then (type_of-strip_marks v) (types_of_values-strip vs)

    attrs_of_fields-strip :
        (fs : Fields N M) → attrs_of_fields (strip_fields fs) ≡ attrs_of_fields fs
    attrs_of_fields-strip no_fields = refl
    attrs_of_fields-strip (field_then k v fs) =
        ap₂ (attr k) (type_of-strip_marks v) (attrs_of_fields-strip fs)

  pub is_null-strip_marks : (v : Value N M) → is_null (strip_marks v) ≡ is_null v
  unfolding strip_marks
  is_null-strip_marks (marked_val v ms) = is_null-strip_marks v
  is_null-strip_marks (list_val t vs) = refl
  is_null-strip_marks (set_val t vs) = refl
  is_null-strip_marks (map_val t fs) = refl
  is_null-strip_marks (tuple_val vs) = refl
  is_null-strip_marks (object_val fs) = refl
  is_null-strip_marks (null_val t) = refl
  is_null-strip_marks (unknown_val t r) = refl
  is_null-strip_marks (bool_val b) = refl
  is_null-strip_marks (number_val n) = refl
  is_null-strip_marks (string_val s) = refl
  is_null-strip_marks (capsule_val t p) = refl

  pub is_known-strip_marks : (v : Value N M) → is_known (strip_marks v) ≡ is_known v
  unfolding strip_marks
  is_known-strip_marks (marked_val v ms) = is_known-strip_marks v
  is_known-strip_marks (list_val t vs) = refl
  is_known-strip_marks (set_val t vs) = refl
  is_known-strip_marks (map_val t fs) = refl
  is_known-strip_marks (tuple_val vs) = refl
  is_known-strip_marks (object_val fs) = refl
  is_known-strip_marks (null_val t) = refl
  is_known-strip_marks (unknown_val t r) = refl
  is_known-strip_marks (bool_val b) = refl
  is_known-strip_marks (number_val n) = refl
  is_known-strip_marks (string_val s) = refl
  is_known-strip_marks (capsule_val t p) = refl

module _ {M : Type 0} ⦃e : Equatable M⦄ where
  head_found : (m : M) (b c : Bool) → ((m == m || b) || c) ≡ false → ⊥
  head_found m b c h = ground (arith, e.test_iff m m)

module _ {N M : Type 0} ⦃e : Equatable M⦄ where
  mutual
    unfolding contains_marked has_mark_deep

    -- Where there is no marker there is no mark.
    pub has_mark_deep-none :
        (j : M) (v : Value N M) → contains_marked v ≡ false → has_mark_deep j v ≡ false
    has_mark_deep-none j (marked_val v ms) h = absurd (ground arith)
    has_mark_deep-none j (list_val t vs) h = values_have_mark-none j vs h
    has_mark_deep-none j (set_val t vs) h = values_have_mark-none j vs h
    has_mark_deep-none j (map_val t fs) h = fields_have_mark-none j fs h
    has_mark_deep-none j (tuple_val vs) h = values_have_mark-none j vs h
    has_mark_deep-none j (object_val fs) h = fields_have_mark-none j fs h
    has_mark_deep-none j (null_val t) h = refl
    has_mark_deep-none j (unknown_val t r) h = refl
    has_mark_deep-none j (bool_val b) h = refl
    has_mark_deep-none j (number_val n) h = refl
    has_mark_deep-none j (string_val s) h = refl
    has_mark_deep-none j (capsule_val t p) h = refl

    pub values_have_mark-none :
        (j : M) (vs : Values N M) → values_contain_marked vs ≡ false → values_have_mark j vs ≡ false
    values_have_mark-none j no_values h = refl
    values_have_mark-none j (value_then v vs) h =
        let parts = or_false (contains_marked v) (values_contain_marked vs) h in
        rw (has_mark_deep-none j v parts.0) (values_have_mark-none j vs parts.1)

    fields_have_mark-none :
        (j : M) (fs : Fields N M) → fields_contain_marked fs ≡ false → fields_have_mark j fs ≡ false
    fields_have_mark-none j no_fields h = refl
    fields_have_mark-none j (field_then k v fs) h =
        let parts = or_false (contains_marked v) (fields_contain_marked fs) h in
        rw (has_mark_deep-none j v parts.0) (fields_have_mark-none j fs parts.1)

  mutual
    unfolding contains_marked has_mark_deep

    -- Conversely a marker has a mark, where Go builds the value.
    pub contains_marked-none :
        (v : Value N M)
        → is_well_marked v ≡ true
        → ((j : M) → has_mark_deep j v ≡ false)
        → contains_marked v ≡ false
    contains_marked-none (marked_val v []) h k = absurd (ground arith)
    contains_marked-none (marked_val v (m ∷ ms)) h k =
        absurd (head_found m (has_member m ms) (has_mark_deep m v) (k m))
    contains_marked-none (list_val t vs) h k = values_contain_marked-none vs h k
    contains_marked-none (set_val t vs) h k = ground arith
    contains_marked-none (map_val t fs) h k = fields_contain_marked-none fs h k
    contains_marked-none (tuple_val vs) h k = values_contain_marked-none vs h k
    contains_marked-none (object_val fs) h k = fields_contain_marked-none fs h k
    contains_marked-none (null_val t) h k = refl
    contains_marked-none (unknown_val t r) h k = refl
    contains_marked-none (bool_val b) h k = refl
    contains_marked-none (number_val n) h k = refl
    contains_marked-none (string_val s) h k = refl
    contains_marked-none (capsule_val t p) h k = refl

    values_contain_marked-none :
        (vs : Values N M)
        → values_are_well_marked vs ≡ true
        → ((j : M) → values_have_mark j vs ≡ false)
        → values_contain_marked vs ≡ false
    values_contain_marked-none no_values h k = refl
    values_contain_marked-none (value_then v vs) h k =
        let parts = and_true (is_well_marked v) (values_are_well_marked vs) h in
        rw
          (contains_marked-none v parts.0
            (λ j. (or_false (has_mark_deep j v) (values_have_mark j vs) (k j)).0))
          (values_contain_marked-none vs parts.1
            (λ j. (or_false (has_mark_deep j v) (values_have_mark j vs) (k j)).1))

    fields_contain_marked-none :
        (fs : Fields N M)
        → fields_are_well_marked fs ≡ true
        → ((j : M) → fields_have_mark j fs ≡ false)
        → fields_contain_marked fs ≡ false
    fields_contain_marked-none no_fields h k = refl
    fields_contain_marked-none (field_then x v fs) h k =
        let parts = and_true (is_well_marked v) (fields_are_well_marked fs) h in
        rw
          (contains_marked-none v parts.0
            (λ j. (or_false (has_mark_deep j v) (fields_have_mark j fs) (k j)).0))
          (fields_contain_marked-none fs parts.1
            (λ j. (or_false (has_mark_deep j v) (fields_have_mark j fs) (k j)).1))
