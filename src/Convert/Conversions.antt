-- ===== src/Convert/Conversions.antt =====
-- getConversion of cty/convert/conversion.go, and the decisions of conversion_object.go,
-- conversion_tuple.go, conversion_primitive.go, conversion_collection.go and conversion_capsule.go:
-- whether there is a conversion from one type to another, and of which steps it is made.
-- `unify` of cty/convert/unify.go is an argument, and so are the operations that an application
-- gives its capsule types.
pub mod Steps
pub mod Safety
pub mod Carrying
pub mod Widening
use go_cty.Prelude.{
  Bool, true, not, ◌&&◌, ◌||◌, Option, none, some, String, List, [], ◌∷◌, length, ◌==◌,
  if◌then◌else◌, string_eq, nat_eq, all,
}
use go_cty.Prelude.Maps.{Map, lookup}
use go_cty.Types.{
  CtyType, Kind, bool, number, string, pseudo_type_dynamic, primitive_type, type_list, type_set,
  type_map, type_object, type_tuple, capsule_type, Attrs, no_attrs, attr, Types, no_types,
  type_then, attribute_types, tuple_element_types, is_dynamic, is_capsule_type, member,
}
use go_cty.Types.Equality.{equals}
use go_cty.Convert.Plans.{
  Conversion, wrapped, dynamic_passthrough, dynamic_fixup, primitive_conversion, object_to_object,
  tuple_to_tuple, collection_to_list, collection_to_set, collection_to_list_by,
  collection_to_set_by, collection_to_map_by, empty_to_list, empty_to_set, empty_to_map,
  tuple_to_list, tuple_to_set, object_to_map, map_to_object, to_capsule, from_capsule, ElemConvs,
  no_elems, AttrConvs, no_attr_convs, CapsuleConversions, wrap, put_elem, keep_elem, put_attr,
  keep_attr, bar_attr, from_elems, from_attrs, from_elem,
}

-- primitiveConversionsSafe, and primitiveConversionsUnsafe where that has nothing.
abbrev pub from_primitive : Bool → Kind → Kind → Option Conversion
from_primitive unsafe number string = some (primitive_conversion number string)
from_primitive unsafe bool string = some (primitive_conversion bool string)
from_primitive true string number = some (primitive_conversion string number)
from_primitive true string bool = some (primitive_conversion string bool)
from_primitive unsafe _ _ = none

-- The loop of conversionObjectToObject over the wanted attributes; `conv` is the recursive call for
-- the attribute of a name.
abbrev pub wanted_attrs :
    (String → CtyType → Option Conversion)
    → Map String CtyType
    → List String
    → Map String CtyType
    → Option AttrConvs
wanted_attrs conv ins optionals [] = some no_attr_convs
wanted_attrs conv ins optionals ((name, out) ∷ rest) =
    let next = wanted_attrs conv ins optionals rest in
    elim (lookup name ins) [
      | none ↦ if member name optionals then next else none
      | some t ↦
          if equals t out
          then keep_attr name next
          else put_attr name (wrap out (conv name out)) next
    ]

-- The loop of conversionMapToObject; `conv` is the recursive call for the element type.
abbrev pub filled_attrs :
    (CtyType → Option Conversion)
    → Bool
    → CtyType
    → List String
    → Map String CtyType
    → Option AttrConvs
filled_attrs conv unsafe ety optionals [] = some no_attr_convs
filled_attrs conv unsafe ety optionals ((name, out) ∷ rest) =
    let next = filled_attrs conv unsafe ety optionals rest in
    if equals out ety then keep_attr name next else elim (conv out) [
      | some c ↦ put_attr name (some (wrapped out c)) next
      | none ↦ if member name optionals && unsafe then bar_attr name next else none
    ]

-- The two loops that look for an element that is not of the dynamic pseudo-type.
abbrev pub all_dynamic : List CtyType → Bool
all_dynamic ts = all (λ t. equals t pseudo_type_dynamic) ts

abbrev pub first_of : Option Conversion → Option Conversion → Option Conversion
first_of (some c) d = some c
first_of none d = d

abbrev pub values_of : Map String CtyType → List CtyType
values_of [] = []
values_of ((k, t) ∷ m) = t ∷ values_of m

-- The type that `unify` settles on; the conversions that it returns are not used here.
abbrev pub Unify : Type 0
Unify = Bool → List CtyType → Option CtyType

module _ (unify : Unify) (ops : CapsuleConversions) (unsafe : Bool) where
  -- The element type that conversionTupleToList and conversionTupleToSet go for.
  abbrev pub sequence_type : CtyType → List CtyType → Option CtyType
  sequence_type ety etys =
      if is_dynamic ety
      then elim (unify unsafe etys) [
        | none ↦ none
        | some t ↦ if is_dynamic t && not (all_dynamic etys) then none else some t
      ]
      else some ety

  -- The element type that conversionObjectToMap goes for.
  abbrev pub mapping_type : CtyType → List CtyType → Option CtyType
  mapping_type ety atys = if is_dynamic ety then unify unsafe atys else some ety

  -- The case for capsule types, of which `src` or `out` is one.
  abbrev pub convert_to_capsule : CtyType → CtyType → Option Conversion
  convert_to_capsule src (capsule_type b) =
      if ops.conversion_to b src then some (to_capsule b src) else none
  convert_to_capsule src _ = none

  abbrev pub convert_from_capsule : CtyType → CtyType → Option Conversion
  convert_from_capsule (capsule_type a) out =
      if ops.conversion_from a out then some (from_capsule a out) else none
  convert_from_capsule src out = none

  abbrev pub between_capsules : CtyType → CtyType → Option Conversion
  between_capsules src out =
      if not (is_capsule_type src || is_capsule_type out)
      then none
      else if not unsafe
      then none
      else if equals src out
      then none
      else first_of (convert_to_capsule src out) (convert_from_capsule src out)

  -- The first two cases of getConversionKnown, ahead of those in `rest`.
  abbrev pub past_dynamic : CtyType → CtyType → Option Conversion → Option Conversion
  past_dynamic src out rest =
      if is_dynamic out
      then some dynamic_passthrough
      else if unsafe && is_dynamic src
      then some (dynamic_fixup out)
      else rest

  -- A collection to a list or a set; `conv` is the recursive call for the element types.
  abbrev pub collection_list : CtyType → CtyType → Option Conversion → Option Conversion
  collection_list ety out conv =
      if equals ety out
      then some (collection_to_list out)
      else from_elem (collection_to_list_by out) (wrap out conv)

  abbrev pub collection_set : CtyType → CtyType → Option Conversion → Option Conversion
  collection_set ety out conv =
      if equals ety out
      then some (collection_to_set out)
      else from_elem (collection_to_set_by out) (wrap out conv)

  -- getConversionKnown, by the kind of the type of the source; `known` is its recursion.
  abbrev pub list_known : (CtyType → Option Conversion) → CtyType → CtyType → Option Conversion
  list_known known ety (type_list out) = collection_list ety out (known out)
  list_known known ety (type_set out) =
      if not unsafe then none else collection_set ety out (known out)
  list_known known ety out = between_capsules (type_list ety) out

  abbrev pub set_known : (CtyType → Option Conversion) → CtyType → CtyType → Option Conversion
  set_known known ety (type_list out) = collection_list ety out (known out)
  set_known known ety (type_set out) = collection_set ety out (known out)
  set_known known ety out = between_capsules (type_set ety) out

  abbrev pub map_known : (CtyType → Option Conversion) → CtyType → CtyType → Option Conversion
  map_known known ety (type_map out) = from_elem (collection_to_map_by out) (wrap out (known out))
  map_known known ety (type_object outs opts) =
      if not unsafe
      then none
      else from_attrs (map_to_object (type_object outs opts))
          (filled_attrs known unsafe ety opts (attribute_types outs))
  map_known known ety out = between_capsules (type_map ety) out

  abbrev pub primitive_known : Kind → CtyType → Option Conversion
  primitive_known k (primitive_type j) = from_primitive unsafe k j
  primitive_known k out = between_capsules (primitive_type k) out

  -- conversionTupleToList and conversionTupleToSet past the empty tuple; `each` is the loop that
  -- makes elemConvs.
  abbrev pub tuple_elements :
      (CtyType → ElemConvs → Conversion)
      → (CtyType → Option ElemConvs)
      → Option CtyType
      → Option Conversion
  tuple_elements f each none = none
  tuple_elements f each (some ety) = from_elems (f ety) (each ety)

  -- conversionObjectToMap past the empty object.
  abbrev pub object_elements : (CtyType → Option AttrConvs) → Option CtyType → Option Conversion
  object_elements each none = none
  object_elements each (some ety) = from_attrs (object_to_map ety unsafe) (each ety)

  -- `positions` makes the conversions to the element types of a tuple, `each` to one type.
  abbrev pub tuple_known :
      (List CtyType → Option ElemConvs)
      → (CtyType → Option ElemConvs)
      → Types
      → CtyType
      → Option Conversion
  tuple_known positions each ts (type_tuple outs) =
      if not (length (tuple_element_types ts) == length (tuple_element_types outs))
      then none
      else from_elems tuple_to_tuple (positions (tuple_element_types outs))
  tuple_known positions each no_types (type_list out) = some (empty_to_list out)
  tuple_known positions each (type_then t ts) (type_list out) =
      tuple_elements (λ ety. tuple_to_list ety unsafe) each
        (sequence_type out (t ∷ tuple_element_types ts))
  tuple_known positions each no_types (type_set out) = some (empty_to_set out)
  tuple_known positions each (type_then t ts) (type_set out) =
      tuple_elements tuple_to_set each (sequence_type out (t ∷ tuple_element_types ts))
  tuple_known positions each ts out = between_capsules (type_tuple ts) out

  -- `conv` makes the conversion of the attribute of a name, `each` those of all to one type.
  abbrev pub object_known :
      (String → CtyType → Option Conversion)
      → (CtyType → Option AttrConvs)
      → Attrs
      → List String
      → CtyType
      → Option Conversion
  object_known conv each fs os (type_object outs opts) =
      from_attrs (object_to_object (type_object outs opts))
        (wanted_attrs conv (attribute_types fs) opts (attribute_types outs))
  object_known conv each no_attrs os (type_map out) = some (empty_to_map out)
  object_known conv each (attr k t fs) os (type_map out) =
      object_elements each (mapping_type out (t ∷ values_of (attribute_types fs)))
  object_known conv each fs os out = between_capsules (type_object fs os) out

  unfoldable mutual
    -- getConversionKnown
    pub get_conversion_known : CtyType → CtyType → Option Conversion
    get_conversion_known pseudo_type_dynamic out =
        past_dynamic pseudo_type_dynamic out (between_capsules pseudo_type_dynamic out)
    get_conversion_known (primitive_type k) out =
        past_dynamic (primitive_type k) out (primitive_known k out)
    get_conversion_known (type_list t) out =
        past_dynamic (type_list t) out (list_known (get_conversion_known t) t out)
    get_conversion_known (type_set t) out =
        past_dynamic (type_set t) out (set_known (get_conversion_known t) t out)
    get_conversion_known (type_map t) out =
        past_dynamic (type_map t) out (map_known (get_conversion_known t) t out)
    get_conversion_known (type_object fs os) out =
        past_dynamic (type_object fs os) out
          (object_known (attr_conversion fs) (attr_convs_to fs) fs os out)
    get_conversion_known (type_tuple ts) out =
        past_dynamic (type_tuple ts) out (tuple_known (elem_convs ts) (elem_convs_to ts) ts out)
    get_conversion_known (capsule_type a) out =
        past_dynamic (capsule_type a) out (between_capsules (capsule_type a) out)

    -- The call of conversionObjectToObject for the attribute of a name.
    pub attr_conversion : Attrs → String → CtyType → Option Conversion
    attr_conversion no_attrs name out = none
    attr_conversion (attr k t fs) name out =
        let later = attr_conversion fs name out in
        let here = get_conversion_known t out in if k == name then here else later

    -- The loop of conversionObjectToMap.
    pub attr_convs_to : Attrs → CtyType → Option AttrConvs
    attr_convs_to no_attrs out = some no_attr_convs
    attr_convs_to (attr k t fs) out =
        let next = attr_convs_to fs out in
        let here = get_conversion_known t out in
        if equals t out then next else put_attr k (wrap out here) next

    -- The loop of conversionTupleToList and of conversionTupleToSet.
    pub elem_convs_to : Types → CtyType → Option ElemConvs
    elem_convs_to no_types out = some no_elems
    elem_convs_to (type_then t ts) out =
        let next = elem_convs_to ts out in
        let here = get_conversion_known t out in
        if equals t out then keep_elem next else put_elem (wrap out here) next

    -- The loop of conversionTupleToTuple, over slices of one length.
    pub elem_convs : Types → List CtyType → Option ElemConvs
    elem_convs (type_then t ts) (out ∷ outs) =
        let next = elem_convs ts outs in
        let here = get_conversion_known t out in
        if equals t out then keep_elem next else put_elem (wrap out here) next
    elem_convs _ _ = some no_elems

  -- getConversion
  unfoldable pub get_conversion : CtyType → CtyType → Option Conversion
  unfolding get_conversion_known
  get_conversion src out = wrap out (get_conversion_known src out)
