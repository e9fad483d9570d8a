-- ===== src/Convert/Conversions/Widening.antt =====
-- The conversions of getConversion (cty/convert/conversion.go) in safe and in unsafe mode.
use go_cty.Prelude.{
  ◌≡◌, refl, true, false, Option, String, List, ◌∷◌, arith, if◌then◌else◌, string_eq, is_some,
}
use go_cty.Types.{
  CtyType, Kind, bool, number, string, pseudo_type_dynamic, primitive_type, type_list, type_set,
  type_map, type_object, type_tuple, capsule_type, Attrs, no_attrs, attr, Types, no_types,
  type_then, is_dynamic, tuple_element_types, attribute_types,
}
use go_cty.Types.Equality.{equals}
use go_cty.Types.Shape.{has_dynamic_types, elems_have_dynamic}
use go_cty.Convert.Plans.{
  Conversion, object_to_object, tuple_to_tuple, tuple_to_list, tuple_to_set, object_to_map,
  collection_to_list_by, collection_to_set_by, collection_to_map_by, ElemConvs, AttrConvs, wrap,
  put_elem, keep_elem, CapsuleConversions,
}
use go_cty.Convert.Conversions.{
  Unify, wanted_attrs, past_dynamic, between_capsules, collection_list, collection_set, list_known,
  set_known, map_known, primitive_known, tuple_known, object_known, sequence_type, from_primitive,
  get_conversion_known, get_conversion, tuple_elements, attr_conversion, attr_convs_to,
  elem_convs_to, elem_convs,
}
use go_cty.Convert.Conversions.Carrying.{
  Widens, wrap-Widens, from_elem-Widens, put_elem-Widens, keep_elem-Widens, put_attr-Widens,
  from_elems-Widens, from_attrs-Widens, first_elem-static, static_target, wanted_attrs-Widens,
}

module _ (unify : Unify) (ops : CapsuleConversions) where
  past_dynamic-Widens :
      (src out : CtyType) (x y : Option Conversion)
      → is_dynamic out ≡ false
      → Widens x y
      → Widens (past_dynamic unify ops false src out x) (past_dynamic unify ops true src out y)
  past_dynamic-Widens src out x y d h = λ e. ground (arith, h)

  between_capsules-Widens :
      (src out : CtyType) (y : Option Conversion)
      → Widens (between_capsules unify ops false src out) y
  between_capsules-Widens src out y = λ e. ground arith

  from_primitive-Widens : (k j : Kind) → Widens (from_primitive false k j) (from_primitive true k j)
  from_primitive-Widens bool bool = λ e. e
  from_primitive-Widens bool number = λ e. e
  from_primitive-Widens bool string = λ e. e
  from_primitive-Widens number bool = λ e. e
  from_primitive-Widens number number = λ e. e
  from_primitive-Widens number string = λ e. e
  from_primitive-Widens string _ = λ e. cc

  primitive_known-Widens :
      (k : Kind) (out : CtyType)
      → Widens (primitive_known unify ops false k out) (primitive_known unify ops true k out)
  primitive_known-Widens k (primitive_type j) = from_primitive-Widens k j
  primitive_known-Widens k out =
      between_capsules-Widens (primitive_type k) out (primitive_known unify ops true k out)

  module _ (known wider : CtyType → Option Conversion) (t : CtyType) where
    collection_list-Widens :
        (out : CtyType) (x y : Option Conversion)
        → Widens x y
        → Widens (collection_list unify ops false t out x) (collection_list unify ops true t out y)
    collection_list-Widens out x y h =
        λ e. ground (arith, from_elem-Widens (collection_to_list_by out) out x y h)

    collection_set-Widens :
        (out : CtyType) (x y : Option Conversion)
        → Widens x y
        → Widens (collection_set unify ops false t out x) (collection_set unify ops true t out y)
    collection_set-Widens out x y h =
        λ e. ground (arith, from_elem-Widens (collection_to_set_by out) out x y h)

    list_known-Widens :
        (out : CtyType)
        → has_dynamic_types out ≡ false
        → ((u : CtyType) → has_dynamic_types u ≡ false → Widens (known u) (wider u))
        → Widens (list_known unify ops false known t out) (list_known unify ops true wider t out)
    unfolding has_dynamic_types
    list_known-Widens (type_list out) d h =
        collection_list-Widens out (known out) (wider out) (h out d)
    list_known-Widens (type_set out) d h = λ e. cc
    list_known-Widens out d h =
        between_capsules-Widens (type_list t) out (list_known unify ops true wider t out)

    set_known-Widens :
        (out : CtyType)
        → has_dynamic_types out ≡ false
        → ((u : CtyType) → has_dynamic_types u ≡ false → Widens (known u) (wider u))
        → Widens (set_known unify ops false known t out) (set_known unify ops true wider t out)
    unfolding has_dynamic_types
    set_known-Widens (type_list out) d h =
        collection_list-Widens out (known out) (wider out) (h out d)
    set_known-Widens (type_set out) d h =
        collection_set-Widens out (known out) (wider out) (h out d)
    set_known-Widens out d h =
        between_capsules-Widens (type_set t) out (set_known unify ops true wider t out)

    map_known-Widens :
        (out : CtyType)
        → has_dynamic_types out ≡ false
        → ((u : CtyType) → has_dynamic_types u ≡ false → Widens (known u) (wider u))
        → Widens (map_known unify ops false known t out) (map_known unify ops true wider t out)
    unfolding has_dynamic_types
    map_known-Widens (type_map out) d h =
        from_elem-Widens (collection_to_map_by out) out (known out) (wider out) (h out d)
    map_known-Widens (type_object outs opts) d h = λ e. cc
    map_known-Widens out d h =
        between_capsules-Widens (type_map t) out (map_known unify ops true wider t out)

  module _ (positions wide_positions : List CtyType → Option ElemConvs)
      (each wide_each : CtyType → Option ElemConvs) where
    sequence-Widens :
        (f g : CtyType → ElemConvs → Conversion) (out : CtyType) (etys : List CtyType)
        → is_dynamic out ≡ false
        → Widens (each out) (wide_each out)
        → Widens
            (tuple_elements unify ops false f each (sequence_type unify ops false out etys))
            (tuple_elements unify ops true g wide_each (sequence_type unify ops true out etys))
    sequence-Widens f g out etys d h =
        rw (d) (from_elems-Widens (f out) (g out) (each out) (wide_each out) h)

    tuple_known-Widens :
        (ts : Types) (out : CtyType)
        → has_dynamic_types out ≡ false
        → ((us : Types)
            → elems_have_dynamic us ≡ false
            → Widens (positions (tuple_element_types us)) (wide_positions (tuple_element_types us)))
        → ((u : CtyType) → has_dynamic_types u ≡ false → Widens (each u) (wide_each u))
        → Widens
            (tuple_known unify ops false positions each ts out)
            (tuple_known unify ops true wide_positions wide_each ts out)
    unfolding has_dynamic_types
    tuple_known-Widens ts (type_tuple outs) d h k =
        let us = tuple_element_types outs in
        let inner =
          from_elems-Widens tuple_to_tuple tuple_to_tuple (positions us) (wide_positions us)
            (h outs d) in
        λ e. ground (arith, inner)
    tuple_known-Widens no_types (type_list out) d h k = λ e. refl
    tuple_known-Widens (type_then t ts) (type_list out) d h k =
        sequence-Widens (λ ety. tuple_to_list ety false) (λ ety. tuple_to_list ety true) out
          (t ∷ tuple_element_types ts) (static_target out d) (k out d)
    tuple_known-Widens no_types (type_set out) d h k = λ e. refl
    tuple_known-Widens (type_then t ts) (type_set out) d h k =
        sequence-Widens tuple_to_set tuple_to_set out (t ∷ tuple_element_types ts)
          (static_target out d) (k out d)
    tuple_known-Widens ts out d h k =
        between_capsules-Widens (type_tuple ts) out
          (tuple_known unify ops true wide_positions wide_each ts out)

  module _ (conv wider : String → CtyType → Option Conversion)
      (each wide_each : CtyType → Option AttrConvs) where
    object_known-Widens :
        (fs : Attrs) (os : List String) (out : CtyType)
        → has_dynamic_types out ≡ false
        → ((name : String) (u : CtyType)
            → has_dynamic_types u ≡ false
            → Widens (conv name u) (wider name u))
        → ((u : CtyType) → has_dynamic_types u ≡ false → Widens (each u) (wide_each u))
        → Widens
            (object_known unify ops false conv each fs os out)
            (object_known unify ops true wider wide_each fs os out)
    unfolding has_dynamic_types
    object_known-Widens fs os (type_object outs opts) d h k =
        from_attrs-Widens (object_to_object (type_object outs opts))
          (object_to_object (type_object outs opts))
          (wanted_attrs conv (attribute_types fs) opts (attribute_types outs))
          (wanted_attrs wider (attribute_types fs) opts (attribute_types outs))
          (wanted_attrs-Widens conv wider (attribute_types fs) opts outs d h)
    object_known-Widens no_attrs os (type_map out) d h k = λ e. refl
    object_known-Widens (attr name t fs) os (type_map out) d h k = rw (static_target out d) (
        from_attrs-Widens (object_to_map out false) (object_to_map out true) (each out)
          (wide_each out) (k out d))
    object_known-Widens fs os out d h k =
        between_capsules-Widens (type_object fs os) out
          (object_known unify ops true wider wide_each fs os out)

  elem-Widens :
      (t out : CtyType) (cs ds : Option ElemConvs)
      → Widens
          (get_conversion_known unify ops false t out)
          (get_conversion_known unify ops true t out)
      → Widens cs ds
      → Widens
          (if equals t out
            then keep_elem cs
            else put_elem (wrap out (get_conversion_known unify ops false t out)) cs)
          (if equals t out
            then keep_elem ds
            else put_elem (wrap out (get_conversion_known unify ops true t out)) ds)
  elem-Widens t out cs ds h k =
      let kept = keep_elem-Widens cs ds k in
      let put =
        put_elem-Widens out (get_conversion_known unify ops false t out)
          (get_conversion_known unify ops true t out) cs ds h k in
      λ e. ground (arith, kept, put)

  mutual
    unfolding get_conversion_known has_dynamic_types

    get_conversion_known-Widens :
        (src out : CtyType)
        → has_dynamic_types out ≡ false
        → Widens
            (get_conversion_known unify ops false src out)
            (get_conversion_known unify ops true src out)
    get_conversion_known-Widens pseudo_type_dynamic out d =
        past_dynamic-Widens pseudo_type_dynamic out
          (between_capsules unify ops false pseudo_type_dynamic out)
          (between_capsules unify ops true pseudo_type_dynamic out) (static_target out d)
          (between_capsules-Widens pseudo_type_dynamic out
            (between_capsules unify ops true pseudo_type_dynamic out))
    get_conversion_known-Widens (capsule_type a) out d =
        past_dynamic-Widens (capsule_type a) out
          (between_capsules unify ops false (capsule_type a) out)
          (between_capsules unify ops true (capsule_type a) out) (static_target out d)
          (between_capsules-Widens (capsule_type a) out
            (between_capsules unify ops true (capsule_type a) out))
    get_conversion_known-Widens (primitive_type k) out d =
        past_dynamic-Widens (primitive_type k) out (primitive_known unify ops false k out)
          (primitive_known unify ops true k out) (static_target out d)
          (primitive_known-Widens k out)
    get_conversion_known-Widens (type_list t) out d =
        let safe = get_conversion_known unify ops false t in
        let wide = get_conversion_known unify ops true t in
        past_dynamic-Widens (type_list t) out (list_known unify ops false safe t out)
          (list_known unify ops true wide t out) (static_target out d)
          (list_known-Widens safe wide t out d (get_conversion_known-Widens t))
    get_conversion_known-Widens (type_set t) out d =
        let safe = get_conversion_known unify ops false t in
        let wide = get_conversion_known unify ops true t in
        past_dynamic-Widens (type_set t) out (set_known unify ops false safe t out)
          (set_known unify ops true wide t out) (static_target out d)
          (set_known-Widens safe wide t out d (get_conversion_known-Widens t))
    get_conversion_known-Widens (type_map t) out d =
        let safe = get_conversion_known unify ops false t in
        let wide = get_conversion_known unify ops true t in
        past_dynamic-Widens (type_map t) out (map_known unify ops false safe t out)
          (map_known unify ops true wide t out) (static_target out d)
          (map_known-Widens safe wide t out d (get_conversion_known-Widens t))
    get_conversion_known-Widens (type_object fs os) out d =
        let conv = attr_conversion unify ops false fs in
        let wider = attr_conversion unify ops true fs in
        let each = attr_convs_to unify ops false fs in
        let wide_each = attr_convs_to unify ops true fs in
        past_dynamic-Widens (type_object fs os) out
          (object_known unify ops false conv each fs os out)
          (object_known unify ops true wider wide_each fs os out) (static_target out d)
          (object_known-Widens conv wider each wide_each fs os out d (attr_conversion-Widens fs)
            (attr_convs_to-Widens fs))
    get_conversion_known-Widens (type_tuple ts) out d =
        let positions = elem_convs unify ops false ts in
        let wide_positions = elem_convs unify ops true ts in
        let each = elem_convs_to unify ops false ts in
        let wide_each = elem_convs_to unify ops true ts in
        past_dynamic-Widens (type_tuple ts) out (tuple_known unify ops false positions each ts out)
          (tuple_known unify ops true wide_positions wide_each ts out) (static_target out d)
          (tuple_known-Widens positions wide_positions each wide_each ts out d
            (elem_convs-Widens ts) (elem_convs_to-Widens ts))

    attr_conversion-Widens :
        (fs : Attrs) (name : String) (out : CtyType)
        → has_dynamic_types out ≡ false
        → Widens
            (attr_conversion unify ops false fs name out)
            (attr_conversion unify ops true fs name out)
    attr_conversion-Widens no_attrs name out d = λ e. e
    attr_conversion-Widens (attr k t fs) name out d =
        let here = get_conversion_known-Widens t out d in
        let later = attr_conversion-Widens fs name out d in λ e. ground (arith, here, later)

    attr_convs_to-Widens :
        (fs : Attrs) (out : CtyType)
        → has_dynamic_types out ≡ false
        → Widens (attr_convs_to unify ops false fs out) (attr_convs_to unify ops true fs out)
    attr_convs_to-Widens no_attrs out d = λ e. e
    attr_convs_to-Widens (attr k t fs) out d =
        let rest = attr_convs_to-Widens fs out d in
        let put =
          put_attr-Widens k out (get_conversion_known unify ops false t out)
            (get_conversion_known unify ops true t out) (attr_convs_to unify ops false fs out)
            (attr_convs_to unify ops true fs out) (get_conversion_known-Widens t out d) rest in
        λ e. ground (arith, put, rest)

    elem_convs_to-Widens :
        (ts : Types) (out : CtyType)
        → has_dynamic_types out ≡ false
        → Widens (elem_convs_to unify ops false ts out) (elem_convs_to unify ops true ts out)
    elem_convs_to-Widens no_types out d = λ e. e
    elem_convs_to-Widens (type_then t ts) out d =
        elem-Widens t out (elem_convs_to unify ops false ts out)
          (elem_convs_to unify ops true ts out) (get_conversion_known-Widens t out d)
          (elem_convs_to-Widens ts out d)

    elem_convs-Widens :
        (ts us : Types)
        → elems_have_dynamic us ≡ false
        → Widens
            (elem_convs unify ops false ts (tuple_element_types us))
            (elem_convs unify ops true ts (tuple_element_types us))
    elem_convs-Widens no_types us d = λ e. e
    elem_convs-Widens (type_then t ts) no_types d = λ e. e
    elem_convs-Widens (type_then t ts) (type_then out us) d =
        let static = first_elem-static out us d in
        elem-Widens t out (elem_convs unify ops false ts (tuple_element_types us))
          (elem_convs unify ops true ts (tuple_element_types us))
          (get_conversion_known-Widens t out static.0) (elem_convs-Widens ts us static.1)

  -- If GetConversion finds a conversion to a type without the dynamic pseudo-type at any depth,
  -- then GetConversionUnsafe finds one too.
  pub get_conversion_widens :
      (src out : CtyType)
      → has_dynamic_types out ≡ false
      → is_some (get_conversion unify ops false src out) ≡ true
      → is_some (get_conversion unify ops true src out) ≡ true
  unfolding get_conversion
  get_conversion_widens src out d =
      wrap-Widens out (get_conversion_known unify ops false src out)
        (get_conversion_known unify ops true src out) (get_conversion_known-Widens src out d)
