-- ===== src/Convert/Conversions/Safety.antt =====
-- The steps of the conversions that getConversion (cty/convert/conversion.go) returns in safe mode.
use go_cty.Prelude.{
  ◌≡◌, refl, true, false, Option, none, some, String, List, [], ◌∷◌, arith, string_eq,
}
use go_cty.Types.{
  CtyType, Kind, bool, number, string, pseudo_type_dynamic, primitive_type, type_list, type_set,
  type_map, type_object, type_tuple, capsule_type, Attrs, no_attrs, attr, Types, no_types,
  type_then, tuple_element_types, attribute_types,
}
use go_cty.Convert.Plans.{
  Conversion, object_to_object, tuple_to_tuple, tuple_to_list, tuple_to_set, object_to_map,
  ElemConvs, AttrConvs, wrap, CapsuleConversions,
}
use go_cty.Convert.Conversions.{
  Unify, wanted_attrs, past_dynamic, between_capsules, list_known, set_known, map_known,
  primitive_known, tuple_known, object_known, from_primitive, get_conversion_known, get_conversion,
  tuple_elements, object_elements, attr_conversion, attr_convs_to, elem_convs_to, elem_convs,
}
use go_cty.Convert.Conversions.Steps.{
  is_safe, elems_are_safe, conversion_is_safe, elem_convs_are_safe, attr_convs_are_safe,
  put_elem-safe, keep_elem-safe, put_attr-safe, from_elems-safe, from_attrs-safe, wanted_attrs-safe,
}

module _ (unify : Unify) (ops : CapsuleConversions) where
  past_dynamic-safe :
      (src out : CtyType) (rest : Option Conversion)
      → conversion_is_safe rest ≡ true
      → conversion_is_safe (past_dynamic unify ops false src out rest) ≡ true
  past_dynamic-safe src out rest h = ground arith

  between_capsules-safe :
      (src out : CtyType) → conversion_is_safe (between_capsules unify ops false src out) ≡ true
  between_capsules-safe src out = ground arith

  from_primitive-safe : (k j : Kind) → conversion_is_safe (from_primitive false k j) ≡ true
  from_primitive-safe bool bool = refl
  from_primitive-safe bool number = refl
  from_primitive-safe bool string = refl
  from_primitive-safe number bool = refl
  from_primitive-safe number number = refl
  from_primitive-safe number string = refl
  from_primitive-safe string _ = refl

  primitive_known-safe :
      (k : Kind) (out : CtyType) → conversion_is_safe (primitive_known unify ops false k out) ≡ true
  primitive_known-safe k (primitive_type j) = from_primitive-safe k j
  primitive_known-safe k out = between_capsules-safe (primitive_type k) out

  module _ (known : CtyType → Option Conversion) (t : CtyType) where
    list_known-safe :
        (out : CtyType)
        → ((u : CtyType) → conversion_is_safe (known u) ≡ true)
        → conversion_is_safe (list_known unify ops false known t out) ≡ true
    list_known-safe (type_list out) h = ground (arith, h out)
    list_known-safe (type_set out) h = refl
    list_known-safe out h = between_capsules-safe (type_list t) out

    set_known-safe :
        (out : CtyType)
        → ((u : CtyType) → conversion_is_safe (known u) ≡ true)
        → conversion_is_safe (set_known unify ops false known t out) ≡ true
    set_known-safe (type_list out) h = ground (arith, h out)
    set_known-safe (type_set out) h = ground (arith, h out)
    set_known-safe out h = between_capsules-safe (type_set t) out

    map_known-safe :
        (out : CtyType)
        → ((u : CtyType) → conversion_is_safe (known u) ≡ true)
        → conversion_is_safe (map_known unify ops false known t out) ≡ true
    map_known-safe (type_map out) h = ground (arith, h out)
    map_known-safe (type_object outs opts) h = refl
    map_known-safe out h = between_capsules-safe (type_map t) out

  module _ (positions : List CtyType → Option ElemConvs) (each : CtyType → Option ElemConvs) where
    tuple_elements-safe :
        (f : CtyType → ElemConvs → Conversion) (ety : Option CtyType)
        → ((u : CtyType) (cs : ElemConvs) → is_safe (f u cs) ≡ elems_are_safe cs)
        → ((u : CtyType) → elem_convs_are_safe (each u) ≡ true)
        → conversion_is_safe (tuple_elements unify ops false f each ety) ≡ true
    tuple_elements-safe f none h k = refl
    tuple_elements-safe f (some u) h k = from_elems-safe (f u) (each u) (h u) (k u)

    tuple_known-safe :
        (ts : Types) (out : CtyType)
        → ((us : List CtyType) → elem_convs_are_safe (positions us) ≡ true)
        → ((u : CtyType) → elem_convs_are_safe (each u) ≡ true)
        → conversion_is_safe (tuple_known unify ops false positions each ts out) ≡ true
    tuple_known-safe ts (type_tuple outs) h k = ground (
      arith,
      from_elems-safe tuple_to_tuple (positions (tuple_element_types outs)) (λ ds. refl)
          (h (tuple_element_types outs)),
    )
    tuple_known-safe no_types (type_list out) h k = refl
    tuple_known-safe (type_then t ts) (type_list out) h k =
        tuple_elements-safe (λ ety. tuple_to_list ety false) _ (λ u cs. refl) k
    tuple_known-safe no_types (type_set out) h k = refl
    tuple_known-safe (type_then t ts) (type_set out) h k =
        tuple_elements-safe tuple_to_set _ (λ u cs. refl) k
    tuple_known-safe ts out h k = between_capsules-safe (type_tuple ts) out

  module _ (conv : String → CtyType → Option Conversion) (each : CtyType → Option AttrConvs) where
    object_elements-safe :
        (ety : Option CtyType)
        → ((u : CtyType) → attr_convs_are_safe (each u) ≡ true)
        → conversion_is_safe (object_elements unify ops false each ety) ≡ true
    object_elements-safe none k = refl
    object_elements-safe (some u) k =
        from_attrs-safe (object_to_map u false) (each u) (λ ds. refl) (k u)

    object_known-safe :
        (fs : Attrs) (os : List String) (out : CtyType)
        → ((name : String) (u : CtyType) → conversion_is_safe (conv name u) ≡ true)
        → ((u : CtyType) → attr_convs_are_safe (each u) ≡ true)
        → conversion_is_safe (object_known unify ops false conv each fs os out) ≡ true
    object_known-safe fs os (type_object outs opts) h k =
        from_attrs-safe (object_to_object (type_object outs opts))
          (wanted_attrs conv (attribute_types fs) opts (attribute_types outs)) (λ ds. refl)
          (wanted_attrs-safe conv (attribute_types fs) opts (attribute_types outs) h)
    object_known-safe no_attrs os (type_map out) h k = refl
    object_known-safe (attr name t fs) os (type_map out) h k = object_elements-safe _ k
    object_known-safe fs os out h k = between_capsules-safe (type_object fs os) out

  mutual
    unfolding get_conversion_known

    get_conversion_known-safe :
        (src out : CtyType)
        → conversion_is_safe (get_conversion_known unify ops false src out) ≡ true
    get_conversion_known-safe pseudo_type_dynamic out =
        past_dynamic-safe pseudo_type_dynamic out _ (between_capsules-safe pseudo_type_dynamic out)
    get_conversion_known-safe (primitive_type k) out =
        past_dynamic-safe (primitive_type k) out _ (primitive_known-safe k out)
    get_conversion_known-safe (type_list t) out = past_dynamic-safe (type_list t) out _ (
        list_known-safe (get_conversion_known unify ops false t) t out
          (get_conversion_known-safe t))
    get_conversion_known-safe (type_set t) out = past_dynamic-safe (type_set t) out _ (
        set_known-safe (get_conversion_known unify ops false t) t out (get_conversion_known-safe t))
    get_conversion_known-safe (type_map t) out = past_dynamic-safe (type_map t) out _ (
        map_known-safe (get_conversion_known unify ops false t) t out (get_conversion_known-safe t))
    get_conversion_known-safe (type_object fs os) out =
        past_dynamic-safe (type_object fs os) out _ (
          object_known-safe (attr_conversion unify ops false fs) (attr_convs_to unify ops false fs)
            fs os out (attr_conversion-safe fs) (attr_convs_to-safe fs))
    get_conversion_known-safe (type_tuple ts) out = past_dynamic-safe (type_tuple ts) out _ (
        tuple_known-safe (elem_convs unify ops false ts) (elem_convs_to unify ops false ts) ts out
          (elem_convs-safe ts) (elem_convs_to-safe ts))
    get_conversion_known-safe (capsule_type a) out =
        past_dynamic-safe (capsule_type a) out _ (between_capsules-safe (capsule_type a) out)

    attr_conversion-safe :
        (fs : Attrs) (name : String) (out : CtyType)
        → conversion_is_safe (attr_conversion unify ops false fs name out) ≡ true
    attr_conversion-safe no_attrs name out = refl
    attr_conversion-safe (attr k t fs) name out =
        ground (arith, get_conversion_known-safe t out, attr_conversion-safe fs name out)

    attr_convs_to-safe :
        (fs : Attrs) (out : CtyType)
        → attr_convs_are_safe (attr_convs_to unify ops false fs out) ≡ true
    attr_convs_to-safe no_attrs out = refl
    attr_convs_to-safe (attr k t fs) out = ground (
      arith,
      put_attr-safe k out (get_conversion_known unify ops false t out)
          (attr_convs_to unify ops false fs out) (get_conversion_known-safe t out)
          (attr_convs_to-safe fs out),
      attr_convs_to-safe fs out,
    )

    elem_convs_to-safe :
        (ts : Types) (out : CtyType)
        → elem_convs_are_safe (elem_convs_to unify ops false ts out) ≡ true
    elem_convs_to-safe no_types out = refl
    elem_convs_to-safe (type_then t ts) out = ground (
      arith,
      put_elem-safe out (get_conversion_known unify ops false t out)
          (elem_convs_to unify ops false ts out) (get_conversion_known-safe t out)
          (elem_convs_to-safe ts out),
      keep_elem-safe (elem_convs_to unify ops false ts out) (elem_convs_to-safe ts out),
    )

    elem_convs-safe :
        (ts : Types) (outs : List CtyType)
        → elem_convs_are_safe (elem_convs unify ops false ts outs) ≡ true
    elem_convs-safe (type_then t ts) (out ∷ outs) = ground (
      arith,
      put_elem-safe out (get_conversion_known unify ops false t out)
          (elem_convs unify ops false ts outs) (get_conversion_known-safe t out)
          (elem_convs-safe ts outs),
      keep_elem-safe (elem_convs unify ops false ts outs) (elem_convs-safe ts outs),
    )
    elem_convs-safe (type_then t ts) [] = refl
    elem_convs-safe no_types outs = refl

  -- A conversion that GetConversion returns never, at any depth, reads a number or a Boolean from a
  -- text, fixes up a value of the dynamic pseudo-type, looks for attributes in a map or asks a
  -- capsule type; nor does it, where it makes a list or a map and unifies the elements when it
  -- runs, ask for unsafe conversions there; and this for whatever types unify settles on.
  pub get_conversion-is_safe :
      (src out : CtyType) (c : Conversion)
      → get_conversion unify ops false src out ≡ some c
      → is_safe c ≡ true
  unfolding get_conversion
  get_conversion-is_safe src out c h = found _ c (get_conversion_known-safe src out) h
    where
      found :
          (k : Option Conversion) (d : Conversion)
          → conversion_is_safe k ≡ true
          → wrap out k ≡ some d
          → is_safe d ≡ true
      found none d t e = cc
      found (some x) d t e = ground arith
