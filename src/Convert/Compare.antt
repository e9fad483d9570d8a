-- ===== src/Convert/Compare.antt =====
-- compareTypes of cty/convert/compare_types.go, the preference order of unification.
pub mod Antisymmetry
use go_cty.Prelude.{
  ℕ, zero, suc, Bool, true, false, not, ◌&&◌, ◌||◌, none, some, String, List, [], ◌∷◌, max, length,
  ◌==◌, if◌then◌else◌, string_eq, nat_eq,
}
use go_cty.Prelude.Maps.{Map, lookup}
use go_cty.Types.{
  CtyType, Kind, primitive_type, type_list, type_set, type_map, type_object, type_tuple,
  attribute_types, tuple_element_types, kind_beq, is_dynamic, is_list_type, is_set_type,
  is_map_type, is_object_type, is_tuple_type,
}
use go_cty.Types.Depth.{depth}

-- The three results -1, 0 and 1.
pub data Sign : Type 0 where
  minus_one none_first plus_one : Sign

abbrev pub negate : Sign → Sign
negate minus_one = plus_one
negate none_first = none_first
negate plus_one = minus_one

abbrev pub is_minus : Sign → Bool
is_minus minus_one = true
is_minus _ = false

abbrev pub is_plus : Sign → Bool
is_plus plus_one = true
is_plus _ = false

-- The product with `swap`, where `true` stands for -1.
abbrev pub times : Bool → Sign → Sign
times true s = negate s
times false s = s

-- The switch at the end of the object and tuple cases.
abbrev pub verdict : Bool → Bool → Bool → Sign
verdict swap has_a_super has_b_super =
    if has_a_super && has_b_super
    then none_first
    else if has_a_super
    then times swap minus_one
    else if has_b_super
    then times swap plus_one
    else none_first

-- `for k := range atysA`; `cmp` is the recursive call.
abbrev pub compare_attrs :
    (CtyType → CtyType → Sign) → Bool → Bool → Bool → Map String CtyType → Map String CtyType → Sign
compare_attrs cmp swap has_a has_b [] atys_b = verdict swap has_a has_b
compare_attrs cmp swap has_a has_b ((k, t) ∷ atys_a) atys_b = elim (lookup k atys_b) [
  | none ↦ none_first
  | some u ↦
      compare_attrs cmp swap (is_minus (cmp t u) || has_a) (is_plus (cmp t u) || has_b) atys_a
        atys_b
]

-- `for i := range etysA`, over slices of one length.
abbrev pub compare_elems :
    (CtyType → CtyType → Sign) → Bool → Bool → Bool → List CtyType → List CtyType → Sign
compare_elems cmp swap has_a has_b (t ∷ etys_a) (u ∷ etys_b) =
    compare_elems cmp swap (is_minus (cmp t u) || has_a) (is_plus (cmp t u) || has_b) etys_a etys_b
compare_elems cmp swap has_a has_b _ _ = verdict swap has_a has_b

-- The switch that may exchange the two types.
abbrev pub is_swapped : CtyType → CtyType → Bool
is_swapped a b =
    is_tuple_type a && is_list_type b
    || is_object_type a && is_map_type b
    || is_set_type a && is_tuple_type b
    || is_set_type a && is_list_type b

-- The last cases, for two objects or two tuples.
abbrev pub compare_structural : (CtyType → CtyType → Sign) → Bool → CtyType → CtyType → Sign
compare_structural cmp swap (type_object fs opt) (type_object gs oopt) =
    if not (length (attribute_types fs) == length (attribute_types gs))
    then none_first
    else compare_attrs cmp swap false false (attribute_types fs) (attribute_types gs)
compare_structural cmp swap (type_tuple ts) (type_tuple us) =
    if not (length (tuple_element_types ts) == length (tuple_element_types us))
    then none_first
    else compare_elems cmp swap false false (tuple_element_types ts) (tuple_element_types us)
compare_structural cmp swap _ _ = none_first

-- What follows that switch.
abbrev pub compare_swapped : (CtyType → CtyType → Sign) → Bool → CtyType → CtyType → Sign
compare_swapped cmp swap a b =
    if is_set_type b && (is_tuple_type a || is_list_type a)
    then times swap minus_one
    else if is_list_type a && is_tuple_type b
    then times swap minus_one
    else if is_map_type a && is_object_type b
    then times swap minus_one
    else compare_structural cmp swap a b

abbrev pub compare_rest : (CtyType → CtyType → Sign) → CtyType → CtyType → Sign
compare_rest cmp a b =
    if is_swapped a b then compare_swapped cmp true b a else compare_swapped cmp false a b

-- The cases for two primitive types and for two collections of one kind, ahead of that switch.
abbrev pub compare_same_kind : (CtyType → CtyType → Sign) → CtyType → CtyType → Sign
compare_same_kind cmp (primitive_type k) (primitive_type j) =
    if kind_beq k Kind.string || kind_beq j Kind.string
    then if not (kind_beq k Kind.string)
      then plus_one
      else if not (kind_beq j Kind.string)
      then minus_one
      else none_first
    else compare_rest cmp (primitive_type k) (primitive_type j)
compare_same_kind cmp (type_list a) (type_list b) = cmp a b
compare_same_kind cmp (type_set a) (type_set b) = cmp a b
compare_same_kind cmp (type_map a) (type_map b) = cmp a b
compare_same_kind cmp a b = compare_rest cmp a b

-- compareTypes, within a bound of the depths.
unfoldable pub compare_within : ℕ → CtyType → CtyType → Sign
compare_within zero a b = none_first
compare_within (suc n) a b =
    let rest = compare_same_kind (compare_within n) a b in
    if is_dynamic a || is_dynamic b
    then if not (is_dynamic a)
      then minus_one
      else if not (is_dynamic b)
      then plus_one
      else none_first
    else rest

-- compareTypes
unfoldable pub compare_types : CtyType → CtyType → Sign
unfolding compare_within depth
compare_types a b = compare_within (max (depth a) (depth b)) a b
