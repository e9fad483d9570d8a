-- ===== src/Types/Depth.antt =====
-- The nesting depth of a type, which bounds the recursions over two types at once.
use go_cty.Prelude.{ℕ, suc, ◌≤◌, ◌≡◌, some, String, max, arith, string_eq}
use go_cty.Prelude.Maps.{lookup, Unique}
use go_cty.Types.{
  CtyType, pseudo_type_dynamic, primitive_type, type_list, type_set, type_map, type_object,
  type_tuple, capsule_type, Attrs, no_attrs, attr, Types, no_types, type_then, attribute_types,
}

unfoldable mutual
  pub depth : CtyType → ℕ
  depth pseudo_type_dynamic = 1
  depth (primitive_type k) = 1
  depth (type_list t) = suc (depth t)
  depth (type_set t) = suc (depth t)
  depth (type_map t) = suc (depth t)
  depth (type_object fs os) = suc (depth_attrs fs)
  depth (type_tuple ts) = suc (depth_types ts)
  depth (capsule_type n) = 1

  pub depth_attrs : Attrs → ℕ
  depth_attrs no_attrs = 0
  depth_attrs (attr k t fs) = max (depth t) (depth_attrs fs)

  pub depth_types : Types → ℕ
  depth_types no_types = 0
  depth_types (type_then t ts) = max (depth t) (depth_types ts)

pub depth-lookup :
    (fs : Attrs) (k : String) (t : CtyType)
    → lookup k (attribute_types fs) ≡ some t
    → depth t ≤ depth_attrs fs
unfolding depth
depth-lookup no_attrs k t h = ground arith
depth-lookup (attr j u fs) k t h = ground (arith, depth-lookup fs k t)

pub depth_pos : (t : CtyType) → 1 ≤ depth t
unfolding depth
depth_pos pseudo_type_dynamic = omega arith
depth_pos _ = omega arith

-- No attribute name stands twice in an object type, at any depth: so it is for Go's maps.
abbrev mutual
  pub WellFormed : CtyType → Type 0
  WellFormed pseudo_type_dynamic = Unit
  WellFormed (primitive_type k) = Unit
  WellFormed (type_list t) = WellFormed t
  WellFormed (type_set t) = WellFormed t
  WellFormed (type_map t) = WellFormed t
  WellFormed (type_object fs os) = Unique (attribute_types fs) × WellFormedAttrs fs
  WellFormed (type_tuple ts) = WellFormedTypes ts
  WellFormed (capsule_type n) = Unit

  pub WellFormedAttrs : Attrs → Type 0
  WellFormedAttrs no_attrs = Unit
  WellFormedAttrs (attr k t fs) = WellFormed t × WellFormedAttrs fs

  pub WellFormedTypes : Types → Type 0
  WellFormedTypes no_types = Unit
  WellFormedTypes (type_then t ts) = WellFormed t × WellFormedTypes ts
