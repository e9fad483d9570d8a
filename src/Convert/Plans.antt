-- ===== src/Convert/Plans.antt =====
-- The conversions of cty/convert: `conversion` of cty/convert/conversion.go. A Go closure is the data
-- that it captures, a value of `Conversion`; a conversion that is nil is `none`.
use go_cty.Prelude.{ℕ, Bool, Option, none, some, String, string_eq, nat_eq}
use go_cty.Types.{CtyType, Kind}

mutual
  -- `wrapped out c` is what getConversion makes of `c`. A name with `_by` has an element conversion.
  -- The Boolean is `unsafe` of the two closures that unify the elements when they run, by
  -- conversionUnifyListElements or conversionUnifyCollectionElements; that of `collection_to_map_by`
  -- does so in safe mode whatever it is made for.
  pub data Conversion : Type 0 where
    wrapped : CtyType → Conversion → Conversion
    dynamic_passthrough : Conversion
    dynamic_fixup : CtyType → Conversion
    primitive_conversion : Kind → Kind → Conversion
    object_to_object : CtyType → AttrConvs → Conversion
    tuple_to_tuple : ElemConvs → Conversion
    collection_to_list collection_to_set : CtyType → Conversion
    collection_to_list_by collection_to_set_by collection_to_map_by :
        CtyType → Conversion → Conversion
    empty_to_list empty_to_set empty_to_map : CtyType → Conversion
    tuple_to_list : CtyType → Bool → ElemConvs → Conversion
    tuple_to_set : CtyType → ElemConvs → Conversion
    object_to_map : CtyType → Bool → AttrConvs → Conversion
    map_to_object : CtyType → AttrConvs → Conversion
    to_capsule from_capsule : ℕ → CtyType → Conversion

  -- elemConvs, a slice: `kept` for nil.
  pub data ElemConvs : Type 0 where
    no_elems : ElemConvs
    kept : ElemConvs → ElemConvs
    elem_by : Conversion → ElemConvs → ElemConvs

  -- attrConvs, a map: `unchanged` for an attribute of the right type, and `incompatible` for one
  -- that an optional attribute of another type leaves without a conversion.
  pub data AttrConvs : Type 0 where
    no_attr_convs : AttrConvs
    unchanged incompatible : String → AttrConvs → AttrConvs
    attr_by : String → Conversion → AttrConvs → AttrConvs

-- ConversionTo and ConversionFrom of a capsule type: whether they give a conversion.
pub record CapsuleConversions : Type 0 where
  pub conversion_to : ℕ → CtyType → Bool
  pub conversion_from : ℕ → CtyType → Bool

-- getConversion, around a result of getConversionKnown.
abbrev pub wrap : CtyType → Option Conversion → Option Conversion
wrap out none = none
wrap out (some c) = some (wrapped out c)

abbrev pub put_elem : Option Conversion → Option ElemConvs → Option ElemConvs
put_elem none rest = none
put_elem (some c) none = none
put_elem (some c) (some cs) = some (elem_by c cs)

abbrev pub keep_elem : Option ElemConvs → Option ElemConvs
keep_elem none = none
keep_elem (some cs) = some (kept cs)

abbrev pub put_attr : String → Option Conversion → Option AttrConvs → Option AttrConvs
put_attr name none rest = none
put_attr name (some c) none = none
put_attr name (some c) (some cs) = some (attr_by name c cs)

abbrev pub keep_attr : String → Option AttrConvs → Option AttrConvs
keep_attr name none = none
keep_attr name (some cs) = some (unchanged name cs)

abbrev pub bar_attr : String → Option AttrConvs → Option AttrConvs
bar_attr name none = none
bar_attr name (some cs) = some (incompatible name cs)

abbrev pub from_elems : (ElemConvs → Conversion) → Option ElemConvs → Option Conversion
from_elems f none = none
from_elems f (some cs) = some (f cs)

abbrev pub from_attrs : (AttrConvs → Conversion) → Option AttrConvs → Option Conversion
from_attrs f none = none
from_attrs f (some cs) = some (f cs)

abbrev pub from_elem : (Conversion → Conversion) → Option Conversion → Option Conversion
from_elem f none = none
from_elem f (some c) = some (f c)
