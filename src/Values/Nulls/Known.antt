-- ===== src/Values/Nulls/Known.antt =====
-- What UnknownAsNull (cty/unknown_as_null.go) makes of a value.
use go_cty.Prelude.{
  ◌≡◌, refl, sym, ap, ap₂, ◌∙◌, true, ◌||◌, not, Option, some, String, List, [], ◌∷◌, All,
  Equatable, if◌then◌else◌, arith,
}
use mathlib.Core.Path.{subst}
use go_cty.Types.{CtyType, attr, type_then, type_object, type_tuple, is_dynamic}
use go_cty.Types.Depth.{WellFormed}
use go_cty.Types.Equality.{equals}
use go_cty.Types.Soundness.{equals_equivalence}
use go_cty.Values.{
  Value, null_val, unknown_val, bool_val, number_val, string_val, list_val, set_val, map_val,
  tuple_val, object_val, capsule_val, marked_val, Values, no_values, value_then, Fields, no_fields,
  field_then, type_of, types_of_values, attrs_of_fields, is_null, is_known, with_marks,
}
use go_cty.Values.Nulls.{
  element_type_from, value_types, field_types, on_elements, list_val_of, map_val_of,
  is_wholly_known, are_wholly_known, fields_are_wholly_known, put_value, put_field, unknown_as_null,
  nulls_in, nulls_in_fields,
}

module _ {N M : Type 0} where
  -- The elements of a list or a map are of its element type, and no set has an element.
  abbrev mutual
    pub Homogeneous : Value N M → Type 0
    Homogeneous (marked_val v ms) = Homogeneous v
    Homogeneous (list_val t vs) =
        WellFormed t × All (λ u. u ≡ t) (value_types vs) × HomogeneousValues vs
    Homogeneous (set_val t no_values) = Unit
    Homogeneous (set_val t (value_then v vs)) = ⊥
    Homogeneous (map_val t fs) =
        WellFormed t × All (λ u. u ≡ t) (field_types fs) × HomogeneousFields fs
    Homogeneous (tuple_val vs) = HomogeneousValues vs
    Homogeneous (object_val fs) = HomogeneousFields fs
    Homogeneous _ = Unit

    pub HomogeneousValues : Values N M → Type 0
    HomogeneousValues no_values = Unit
    HomogeneousValues (value_then v vs) = Homogeneous v × HomogeneousValues vs

    pub HomogeneousFields : Fields N M → Type 0
    HomogeneousFields no_fields = Unit
    HomogeneousFields (field_then k v fs) = Homogeneous v × HomogeneousFields fs

element_type_from-All :
    (t : CtyType) (ts : List CtyType)
    → WellFormed t
    → All (λ u. u ≡ t) ts
    → element_type_from t ts ≡ some t
element_type_from-All t [] w h = refl
element_type_from-All t (u ∷ ts) w h =
    let own : equals t u ≡ true = rw h.0 (equals_equivalence t t t w w w).0 in
    let next : (if is_dynamic t then u else t) ≡ t = ground (arith, h.0) in
    let rest = element_type_from-All t ts w h.1 in
    let onward : element_type_from (if is_dynamic t then u else t) ts ≡ some t = rw next rest in
    ground (arith, own, onward)

module _ {N M : Type 0} where
  list_val_of-All :
      (t : CtyType) (v : Value N M) (vs : Values N M)
      → WellFormed t
      → type_of v ≡ t
      → All (λ u. u ≡ t) (value_types vs)
      → list_val_of (value_then v vs) ≡ some (list_val t (value_then v vs))
  unfolding list_val_of
  list_val_of-All t v vs w e h =
      ap (λ o. on_elements o (λ u. some (list_val u (value_then v vs))))
        (ap (λ u. element_type_from u (value_types vs)) e
          ∙ element_type_from-All t (value_types vs) w h)

  map_val_of-All :
      (t : CtyType) (k : String) (v : Value N M) (fs : Fields N M)
      → WellFormed t
      → type_of v ≡ t
      → All (λ u. u ≡ t) (field_types fs)
      → map_val_of (field_then k v fs) ≡ some (map_val t (field_then k v fs))
  unfolding map_val_of
  map_val_of-All t k v fs w e h =
      ap (λ o. on_elements o (λ u. some (map_val u (field_then k v fs))))
        (ap (λ u. element_type_from u (field_types fs)) e
          ∙ element_type_from-All t (field_types fs) w h)

  -- A result that has the type of the value, and is null where the value is null or unknown.
  pub record Nulled (v : Value N M) (o : Option (Value N M)) : Type 0 where
    pub result : Value N M
    pub returned : o ≡ some result
    pub same_type : type_of result ≡ type_of v
    pub known : is_wholly_known result ≡ true
    pub null_where : is_null result ≡ (is_null v || not (is_known v))

  record NulledValues (vs : Values N M) (o : Option (Values N M)) : Type 0 where
    result : Values N M
    returned : o ≡ some result
    same_types : types_of_values result ≡ types_of_values vs
    same_list : value_types result ≡ value_types vs
    known : are_wholly_known result ≡ true

  record NulledFields (fs : Fields N M) (o : Option (Fields N M)) : Type 0 where
    result : Fields N M
    returned : o ≡ some result
    same_types : attrs_of_fields result ≡ attrs_of_fields fs
    same_list : field_types result ≡ field_types fs
    known : fields_are_wholly_known result ≡ true

module _ {N M : Type 0} ⦃e : Equatable M⦄ where
  -- Marks change neither the type nor what is known.
  with_marks-same :
      (ms : List M) (v : Value N M)
      → (type_of (with_marks (ms ∷ []) v) ≡ type_of v)
        × (is_wholly_known (with_marks (ms ∷ []) v) ≡ is_wholly_known v)
        × (is_null (with_marks (ms ∷ []) v) ≡ is_null v)
  unfolding with_marks type_of is_wholly_known
  with_marks-same [] (marked_val v []) = (refl, refl, refl)
  with_marks-same [] (marked_val v (o ∷ os)) = (refl, refl, refl)
  with_marks-same (m ∷ ms) (marked_val v []) = (refl, refl, refl)
  with_marks-same (m ∷ ms) (marked_val v (o ∷ os)) = (refl, refl, refl)
  with_marks-same [] _ = (refl, refl, refl)
  with_marks-same (m ∷ ms) _ = (refl, refl, refl)

  module _ (set_val_of : Values N M → Option (Value N M)) where
    marked-Nulled :
        (v : Value N M) (ms : List M)
        → Nulled v (unknown_as_null set_val_of v)
        → Nulled (marked_val v ms) (unknown_as_null set_val_of (marked_val v ms))
    unfolding unknown_as_null type_of
    marked-Nulled v ms n =
        let same = with_marks-same ms n.result in
        record {
          result = with_marks (ms ∷ []) n.result;
          returned = ap (λ o. on_elements o (λ w. some (with_marks (ms ∷ []) w))) n.returned;
          same_type = same.0 ∙ n.same_type;
          known = same.1 ∙ n.known;
          null_where = same.2 ∙ n.null_where;
        }

    list-Nulled :
        (t : CtyType) (v : Value N M) (vs : Values N M)
        → Homogeneous (list_val t (value_then v vs))
        → Nulled v (unknown_as_null set_val_of v)
        → NulledValues vs (nulls_in set_val_of vs)
        → Nulled
            (list_val t (value_then v vs))
            (unknown_as_null set_val_of (list_val t (value_then v vs)))
    unfolding unknown_as_null type_of is_wholly_known
    list-Nulled t v vs h n ns = record {
      result = list_val t (value_then n.result ns.result);
      returned =
          ap (λ o. on_elements o list_val_of) (ap₂ put_value n.returned ns.returned)
          ∙ list_val_of-All t n.result ns.result h.0 (n.same_type ∙ h.1.0)
              (subst (λ us. All (λ u. u ≡ t) us) (sym ns.same_list) h.1.1);
      same_type = refl;
      known = ground (arith, n.known, ns.known);
      null_where = refl;
    }

    map-Nulled :
        (t : CtyType) (k : String) (v : Value N M) (fs : Fields N M)
        → Homogeneous (map_val t (field_then k v fs))
        → Nulled v (unknown_as_null set_val_of v)
        → NulledFields fs (nulls_in_fields set_val_of fs)
        → Nulled
            (map_val t (field_then k v fs))
            (unknown_as_null set_val_of (map_val t (field_then k v fs)))
    unfolding unknown_as_null type_of is_wholly_known
    map-Nulled t k v fs h n ns = record {
      result = map_val t (field_then k n.result ns.result);
      returned =
          ap (λ o. on_elements o map_val_of) (ap₂ (put_field k) n.returned ns.returned)
          ∙ map_val_of-All t k n.result ns.result h.0 (n.same_type ∙ h.1.0)
              (subst (λ us. All (λ u. u ≡ t) us) (sym ns.same_list) h.1.1);
      same_type = refl;
      known = ground (arith, n.known, ns.known);
      null_where = refl;
    }

    -- What stays as it is.
    same-Nulled :
        (v : Value N M)
        → is_wholly_known v ≡ true
        → is_null v ≡ (is_null v || not (is_known v))
        → Nulled v (some v)
    same-Nulled v k n = record {
      result = v;
      returned = refl;
      same_type = refl;
      known = k;
      null_where = n;
    }

    mutual
      unfolding unknown_as_null type_of is_wholly_known

      value-Nulled : (v : Value N M) → Homogeneous v → Nulled v (unknown_as_null set_val_of v)
      value-Nulled (marked_val v ms) h = marked-Nulled v ms (value-Nulled v h)
      value-Nulled (null_val t) h = same-Nulled (null_val t) refl refl
      value-Nulled (unknown_val t r) h = record {
        result = null_val t;
        returned = refl;
        same_type = refl;
        known = refl;
        null_where = refl;
      }
      value-Nulled (bool_val b) h = same-Nulled (bool_val b) refl refl
      value-Nulled (number_val n) h = same-Nulled (number_val n) refl refl
      value-Nulled (string_val s) h = same-Nulled (string_val s) refl refl
      value-Nulled (capsule_val t p) h = same-Nulled (capsule_val t p) refl refl
      value-Nulled (list_val t no_values) h = same-Nulled (list_val t no_values) refl refl
      value-Nulled (list_val t (value_then v vs)) h =
          list-Nulled t v vs h (value-Nulled v h.2.0) (nulls_in-NulledValues vs h.2.1)
      value-Nulled (set_val t no_values) h = same-Nulled (set_val t no_values) refl refl
      value-Nulled (set_val t (value_then v vs)) h = absurd h
      value-Nulled (map_val t no_fields) h = same-Nulled (map_val t no_fields) refl refl
      value-Nulled (map_val t (field_then k v fs)) h =
          map-Nulled t k v fs h (value-Nulled v h.2.0) (nulls_in_fields-NulledFields fs h.2.1)
      value-Nulled (tuple_val vs) h =
          let ns = nulls_in-NulledValues vs h in
          record {
            result = tuple_val ns.result;
            returned = ap (λ o. on_elements o (λ ws. some (tuple_val ws))) ns.returned;
            same_type = ap type_tuple ns.same_types;
            known = ns.known;
            null_where = refl;
          }
      value-Nulled (object_val fs) h =
          let ns = nulls_in_fields-NulledFields fs h in
          record {
            result = object_val ns.result;
            returned = ap (λ o. on_elements o (λ gs. some (object_val gs))) ns.returned;
            same_type = ap (λ ats. type_object ats []) ns.same_types;
            known = ns.known;
            null_where = refl;
          }

      nulls_in-NulledValues :
          (vs : Values N M) → HomogeneousValues vs → NulledValues vs (nulls_in set_val_of vs)
      nulls_in-NulledValues no_values h = record {
        result = no_values;
        returned = refl;
        same_types = refl;
        same_list = refl;
        known = refl;
      }
      nulls_in-NulledValues (value_then v vs) h =
          let n = value-Nulled v h.0 in
          let ns = nulls_in-NulledValues vs h.1 in
          record {
            result = value_then n.result ns.result;
            returned = ap₂ put_value n.returned ns.returned;
            same_types = ap₂ type_then n.same_type ns.same_types;
            same_list = ap₂ ◌∷◌ n.same_type ns.same_list;
            known = ground (arith, n.known, ns.known);
          }

      nulls_in_fields-NulledFields :
          (fs : Fields N M) → HomogeneousFields fs → NulledFields fs (nulls_in_fields set_val_of fs)
      nulls_in_fields-NulledFields no_fields h = record {
        result = no_fields;
        returned = refl;
        same_types = refl;
        same_list = refl;
        known = refl;
      }
      nulls_in_fields-NulledFields (field_then k v fs) h =
          let n = value-Nulled v h.0 in
          let ns = nulls_in_fields-NulledFields fs h.1 in
          record {
            result = field_then k n.result ns.result;
            returned = ap₂ (put_field k) n.returned ns.returned;
            same_types = ap₂ (attr k) n.same_type ns.same_types;
            same_list = ap₂ ◌∷◌ n.same_type ns.same_list;
            known = ground (arith, n.known, ns.known);
          }

    -- For a value whose lists and maps are homogeneous and whose sets are empty: UnknownAsNull
    -- returns a value of the same type in which nothing is unknown at any depth, and which is null
    -- exactly if the given value is null or unknown.
    pub unknown_as_null-Nulled :
        (v : Value N M) → Homogeneous v → Nulled v (unknown_as_null set_val_of v)
    unknown_as_null-Nulled v h = value-Nulled v h
