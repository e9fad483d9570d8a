-- ===== src/Types.antt =====
-- cty's types: type.go, primitive_type.go, list_type.go, set_type.go, map_type.go, object_type.go,
-- tuple_type.go, capsule.go, collection.go and the pseudo-type of unknown.go.
pub mod Depth
pub mod Equality
pub mod SameType
pub mod Soundness
pub mod Shape
pub mod Optional
pub mod Conformance
pub mod Json
mod Examples
use go_cty.Prelude.{ℕ, Bool, true, false, String, List, [], ◌∷◌, ◌==◌, ◌||◌, string_eq}
use go_cty.Prelude.Maps.{Map}

-- primitiveTypeKind
pub data Kind : Type 0 where
  bool number string : Kind

abbrev pub kind_beq : Kind → Kind → Bool
kind_beq bool bool = true
kind_beq number number = true
kind_beq string string = true
kind_beq _ _ = false

-- `type_object` has the attribute types and the names of the optional attributes. A capsule type
-- is known by the address of its description. `NilType`, the absence of a type, is an `Option`.
mutual
  pub data CtyType : Type 0 where
    pseudo_type_dynamic : CtyType
    primitive_type : Kind → CtyType
    type_list type_set type_map : CtyType → CtyType
    type_object : Attrs → List String → CtyType
    type_tuple : Types → CtyType
    capsule_type : ℕ → CtyType

  pub data Attrs : Type 0 where
    no_attrs : Attrs
    attr : String → CtyType → Attrs → Attrs

  pub data Types : Type 0 where
    no_types : Types
    type_then : CtyType → Types → Types

-- AttributeTypes, as a map.
abbrev pub attribute_types : Attrs → Map String CtyType
attribute_types no_attrs = []
attribute_types (attr k t fs) = (k, t) ∷ attribute_types fs

-- TupleElementTypes, as a slice.
abbrev pub tuple_element_types : Types → List CtyType
tuple_element_types no_types = []
tuple_element_types (type_then t ts) = t ∷ tuple_element_types ts

abbrev pub attrs_of : Map String CtyType → Attrs
attrs_of [] = no_attrs
attrs_of ((k, t) ∷ m) = attr k t (attrs_of m)

abbrev pub types_of : List CtyType → Types
types_of [] = no_types
types_of (t ∷ ts) = type_then t (types_of ts)

-- Membership in a `map[string]struct{}`.
abbrev pub member : String → List String → Bool
member k [] = false
member k (j ∷ js) = j == k || member k js

-- The type tests of the public interface.
abbrev pub is_dynamic : CtyType → Bool
is_dynamic pseudo_type_dynamic = true
is_dynamic _ = false

abbrev pub is_primitive_type : CtyType → Bool
is_primitive_type (primitive_type k) = true
is_primitive_type _ = false

abbrev pub is_list_type : CtyType → Bool
is_list_type (type_list t) = true
is_list_type _ = false

abbrev pub is_set_type : CtyType → Bool
is_set_type (type_set t) = true
is_set_type _ = false

abbrev pub is_map_type : CtyType → Bool
is_map_type (type_map t) = true
is_map_type _ = false

abbrev pub is_object_type : CtyType → Bool
is_object_type (type_object fs os) = true
is_object_type _ = false

abbrev pub is_tuple_type : CtyType → Bool
is_tuple_type (type_tuple ts) = true
is_tuple_type _ = false

abbrev pub is_capsule_type : CtyType → Bool
is_capsule_type (capsule_type n) = true
is_capsule_type _ = false

abbrev pub is_collection_type : CtyType → Bool
is_collection_type (type_list t) = true
is_collection_type (type_set t) = true
is_collection_type (type_map t) = true
is_collection_type _ = false
