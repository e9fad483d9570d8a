-- ===== src/Types/Shape.antt =====
-- HasDynamicTypes and WithoutOptionalAttributesDeep of type.go, and the constructors of object
-- types in object_type.go.
use go_cty.Prelude.{
  ◌≡◌, refl, Bool, true, false, Option, none, some, String, List, [], ◌∷◌, if◌then◌else◌, string_eq,
}
use go_cty.Prelude.Maps.{Map, lookup, insert}
use go_cty.Types.{
  CtyType, pseudo_type_dynamic, primitive_type, type_list, type_set, type_map, type_object,
  type_tuple, capsule_type, Attrs, no_attrs, attr, Types, no_types, type_then, attribute_types,
  attrs_of,
}

-- NormalizeString of ctystrings, which calls golang.org/x/text.
pub record Normalizer : Type 0 where
  pub normalize : String → String

unfoldable mutual
  -- HasDynamicTypes
  pub has_dynamic_types : CtyType → Bool
  has_dynamic_types pseudo_type_dynamic = true
  has_dynamic_types (primitive_type k) = false
  has_dynamic_types (type_list t) = has_dynamic_types t
  has_dynamic_types (type_set t) = has_dynamic_types t
  has_dynamic_types (type_map t) = has_dynamic_types t
  has_dynamic_types (type_object fs opt) = attrs_have_dynamic fs
  has_dynamic_types (type_tuple ts) = elems_have_dynamic ts
  has_dynamic_types (capsule_type n) = false

  pub attrs_have_dynamic : Attrs → Bool
  attrs_have_dynamic no_attrs = false
  attrs_have_dynamic (attr k t fs) =
      let rest = attrs_have_dynamic fs in if has_dynamic_types t then true else rest

  pub elems_have_dynamic : Types → Bool
  elems_have_dynamic no_types = false
  elems_have_dynamic (type_then t ts) =
      let rest = elems_have_dynamic ts in if has_dynamic_types t then true else rest

module _ ⦃n : Normalizer⦄ where
  -- `attrTypesNorm[NormalizeString(k)] = v` for each attribute.
  abbrev pub normalize_into : Map String CtyType → Map String CtyType → Map String CtyType
  normalize_into [] norm = norm
  normalize_into ((k, t) ∷ m) norm = normalize_into m (insert (n.normalize k) t norm)

  -- The loop over `optional`: `none` is the panic on an undeclared attribute.
  abbrev pub optional_set : Map String CtyType → List String → Option (List String)
  optional_set norm [] = some []
  optional_set norm (k ∷ ks) =
      let rest = optional_set norm ks in
      elim (lookup (n.normalize k) norm) [
        | none ↦ none
        | some t ↦ elim rest [ none ↦ none | some set ↦ some (n.normalize k ∷ set) ]
      ]

  -- ObjectWithOptionalAttrs
  unfoldable pub object_with_optional_attrs : Map String CtyType → List String → Option CtyType
  object_with_optional_attrs m optional =
      let norm = normalize_into m [] in
      elim (optional_set norm optional) [
        | none ↦ none
        | some set ↦ some (type_object (attrs_of norm) set)
      ]

  -- Object
  unfoldable pub object : Map String CtyType → CtyType
  object m = type_object (attrs_of (normalize_into m [])) []

  -- Object is ObjectWithOptionalAttrs with no optional attribute, which does not panic.
  object_lem : (m : Map String CtyType) → object_with_optional_attrs m [] ≡ some (object m)
  unfolding object object_with_optional_attrs
  object_lem m = refl

  unfoldable mutual
    unfolding object

    -- WithoutOptionalAttributesDeep
    pub without_optional_attributes_deep : CtyType → CtyType
    without_optional_attributes_deep pseudo_type_dynamic = pseudo_type_dynamic
    without_optional_attributes_deep (primitive_type k) = primitive_type k
    without_optional_attributes_deep (capsule_type a) = capsule_type a
    without_optional_attributes_deep (type_map t) = type_map (without_optional_attributes_deep t)
    without_optional_attributes_deep (type_list t) = type_list (without_optional_attributes_deep t)
    without_optional_attributes_deep (type_set t) = type_set (without_optional_attributes_deep t)
    without_optional_attributes_deep (type_tuple ts) = type_tuple (without_optional_elems ts)
    without_optional_attributes_deep (type_object fs opt) =
        object (attribute_types (without_optional_attrs fs))

    pub without_optional_attrs : Attrs → Attrs
    without_optional_attrs no_attrs = no_attrs
    without_optional_attrs (attr k t fs) =
        attr k (without_optional_attributes_deep t) (without_optional_attrs fs)

    pub without_optional_elems : Types → Types
    without_optional_elems no_types = no_types
    without_optional_elems (type_then t ts) =
        type_then (without_optional_attributes_deep t) (without_optional_elems ts)
