-- ===== src/Convert/Conversions/Steps.antt =====
-- The steps that a conversion of cty/convert takes.
use go_cty.Prelude.{
  ◌≡◌, refl, ◌∙◌, Bool, true, false, not, ◌&&◌, Option, none, some, String, List, [], ◌∷◌, arith,
  string_eq,
}
use go_cty.Prelude.Maps.{Map}
use go_cty.Types.{CtyType, string, kind_beq}
use go_cty.Convert.Plans.{
  Conversion, wrapped, dynamic_passthrough, dynamic_fixup, primitive_conversion, object_to_object,
  tuple_to_tuple, collection_to_list, collection_to_set, collection_to_list_by,
  collection_to_set_by, collection_to_map_by, empty_to_list, empty_to_set, empty_to_map,
  tuple_to_list, tuple_to_set, object_to_map, map_to_object, to_capsule, from_capsule, ElemConvs,
  no_elems, kept, elem_by, AttrConvs, no_attr_convs, unchanged, incompatible, attr_by, wrap,
  put_elem, keep_elem, put_attr, keep_attr, from_elems, from_attrs,
}
use go_cty.Convert.Conversions.{wanted_attrs}

-- The steps that only unsafe conversions take: reading a number or a Boolean from a text, converting
-- a value of a type that is not known yet, looking for attributes in a map, asking a capsule type,
-- and asking for unsafe conversions when a list or a map that is made unifies its elements. A set that is made of a list is not told from one that is made of a set.
abbrev mutual
  pub is_safe : Conversion → Bool
  is_safe (wrapped out c) = is_safe c
  is_safe dynamic_passthrough = true
  is_safe (dynamic_fixup out) = false
  is_safe (primitive_conversion k j) = kind_beq j string
  is_safe (object_to_object out cs) = attrs_are_safe cs
  is_safe (tuple_to_tuple cs) = elems_are_safe cs
  is_safe (collection_to_list ety) = true
  is_safe (collection_to_set ety) = true
  is_safe (collection_to_list_by ety c) = is_safe c
  is_safe (collection_to_set_by ety c) = is_safe c
  is_safe (collection_to_map_by ety c) = is_safe c
  is_safe (empty_to_list ety) = true
  is_safe (empty_to_set ety) = true
  is_safe (empty_to_map ety) = true
  is_safe (tuple_to_list ety unsafe cs) = not unsafe && elems_are_safe cs
  is_safe (tuple_to_set ety cs) = elems_are_safe cs
  is_safe (object_to_map ety unsafe cs) = not unsafe && attrs_are_safe cs
  is_safe (map_to_object out cs) = false
  is_safe (to_capsule a t) = false
  is_safe (from_capsule a t) = false

  pub elems_are_safe : ElemConvs → Bool
  elems_are_safe no_elems = true
  elems_are_safe (kept cs) = elems_are_safe cs
  elems_are_safe (elem_by c cs) = is_safe c && elems_are_safe cs

  pub attrs_are_safe : AttrConvs → Bool
  attrs_are_safe no_attr_convs = true
  attrs_are_safe (unchanged name cs) = attrs_are_safe cs
  attrs_are_safe (incompatible name cs) = false
  attrs_are_safe (attr_by name c cs) = is_safe c && attrs_are_safe cs

-- The same of what may be nil.
abbrev pub conversion_is_safe : Option Conversion → Bool
conversion_is_safe none = true
conversion_is_safe (some c) = is_safe c

abbrev pub elem_convs_are_safe : Option ElemConvs → Bool
elem_convs_are_safe none = true
elem_convs_are_safe (some cs) = elems_are_safe cs

abbrev pub attr_convs_are_safe : Option AttrConvs → Bool
attr_convs_are_safe none = true
attr_convs_are_safe (some cs) = attrs_are_safe cs

pub put_elem-safe :
    (out : CtyType) (c : Option Conversion) (cs : Option ElemConvs)
    → conversion_is_safe c ≡ true
    → elem_convs_are_safe cs ≡ true
    → elem_convs_are_safe (put_elem (wrap out c) cs) ≡ true
put_elem-safe out none cs h k = refl
put_elem-safe out (some c) none h k = refl
put_elem-safe out (some c) (some cs) h k = ground arith

pub keep_elem-safe :
    (cs : Option ElemConvs)
    → elem_convs_are_safe cs ≡ true
    → elem_convs_are_safe (keep_elem cs) ≡ true
keep_elem-safe none k = refl
keep_elem-safe (some cs) k = k

pub put_attr-safe :
    (name : String) (out : CtyType) (c : Option Conversion) (cs : Option AttrConvs)
    → conversion_is_safe c ≡ true
    → attr_convs_are_safe cs ≡ true
    → attr_convs_are_safe (put_attr name (wrap out c) cs) ≡ true
put_attr-safe name out none cs h k = refl
put_attr-safe name out (some c) none h k = refl
put_attr-safe name out (some c) (some cs) h k = ground arith

keep_attr-safe :
    (name : String) (cs : Option AttrConvs)
    → attr_convs_are_safe cs ≡ true
    → attr_convs_are_safe (keep_attr name cs) ≡ true
keep_attr-safe name none k = refl
keep_attr-safe name (some cs) k = k

pub from_elems-safe :
    (f : ElemConvs → Conversion) (cs : Option ElemConvs)
    → ((ds : ElemConvs) → is_safe (f ds) ≡ elems_are_safe ds)
    → elem_convs_are_safe cs ≡ true
    → conversion_is_safe (from_elems f cs) ≡ true
from_elems-safe f none h k = refl
from_elems-safe f (some cs) h k = h cs ∙ k

pub from_attrs-safe :
    (f : AttrConvs → Conversion) (cs : Option AttrConvs)
    → ((ds : AttrConvs) → is_safe (f ds) ≡ attrs_are_safe ds)
    → attr_convs_are_safe cs ≡ true
    → conversion_is_safe (from_attrs f cs) ≡ true
from_attrs-safe f none h k = refl
from_attrs-safe f (some cs) h k = h cs ∙ k

pub wanted_attrs-safe :
    (conv : String → CtyType → Option Conversion) (ins : Map String CtyType) (opts : List String)
    (outs : Map String CtyType)
    → ((name : String) (out : CtyType) → conversion_is_safe (conv name out) ≡ true)
    → attr_convs_are_safe (wanted_attrs conv ins opts outs) ≡ true
wanted_attrs-safe conv ins opts [] h = refl
wanted_attrs-safe conv ins opts ((name, out) ∷ rest) h = ground (
  arith,
  wanted_attrs-safe conv ins opts rest h,
  keep_attr-safe name (wanted_attrs conv ins opts rest),
  put_attr-safe name out (conv name out) (wanted_attrs conv ins opts rest),
  h name out,
)
