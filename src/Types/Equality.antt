-- ===== src/Types/Equality.antt =====
-- `Equals` of every kind of type. An attribute type is compared with the receiver and the argument
-- exchanged, so the recursion is on a bound of both depths.
use go_cty.Prelude.{
  ℕ, zero, suc, Bool, true, false, not, none, some, String, List, [], ◌∷◌, max, length, ◌==◌,
  if◌then◌else◌, string_eq, nat_eq,
}
use mathlib.Core.Bool.{beq}
use go_cty.Prelude.Maps.{Map, lookup}
use go_cty.Types.{
  CtyType, kind_beq, pseudo_type_dynamic, primitive_type, type_list, type_set, type_map,
  type_object, type_tuple, capsule_type, attribute_types, tuple_element_types, member,
}
use go_cty.Types.Depth.{depth}

-- The loop over `t.AttrTypes` in typeObject.Equals; `eq` is the recursive call.
abbrev pub attrs_equal :
    (CtyType → CtyType → Bool)
    → List String
    → List String
    → Map String CtyType
    → Map String CtyType
    → Bool
attrs_equal eq opt oopt [] ot = true
attrs_equal eq opt oopt ((name, ty) ∷ rest) ot =
    let next = attrs_equal eq opt oopt rest ot in
    elim (lookup name ot) [
      | none ↦ false
      | some oty ↦
          if not (eq oty ty)
          then false
          else if not (beq (member name opt) (member name oopt))
          then false
          else next
    ]

-- The loop over `t.ElemTypes` in typeTuple.Equals, past the test of the lengths.
abbrev pub elems_equal : (CtyType → CtyType → Bool) → List CtyType → List CtyType → Bool
elems_equal eq [] [] = true
elems_equal eq (ty ∷ tys) (oty ∷ otys) =
    let next = elems_equal eq tys otys in if not (eq oty ty) then false else next
elems_equal eq _ _ = false

unfoldable pub equals_within : ℕ → CtyType → CtyType → Bool
equals_within zero t other = false
equals_within (suc n) pseudo_type_dynamic pseudo_type_dynamic = true
equals_within (suc n) (primitive_type k) (primitive_type j) = kind_beq j k
equals_within (suc n) (type_list t) (type_list o) = equals_within n t o
equals_within (suc n) (type_set t) (type_set o) = equals_within n t o
equals_within (suc n) (type_map t) (type_map o) = equals_within n t o
equals_within (suc n) (type_object fs opt) (type_object os oopt) =
    if not (length (attribute_types fs) == length (attribute_types os))
    then false
    else attrs_equal (equals_within n) opt oopt (attribute_types fs) (attribute_types os)
equals_within (suc n) (type_tuple ts) (type_tuple os) =
    if not (length (tuple_element_types ts) == length (tuple_element_types os))
    then false
    else elems_equal (equals_within n) (tuple_element_types ts) (tuple_element_types os)
equals_within (suc n) (capsule_type a) (capsule_type b) = b == a
equals_within (suc n) _ _ = false

-- Equals
unfoldable pub equals : CtyType → CtyType → Bool
unfolding equals_within depth
equals t other = equals_within (max (depth t) (depth other)) t other
