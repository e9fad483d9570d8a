-- ===== src/Types/Examples.antt =====
-- Tests of the operations on types, with text that is normal as it stands.
use go_cty.Prelude.{◌≡◌, ◌↔◌, refl, some, true, false, [], ◌∷◌}
use go_cty.Types.{
  CtyType, Kind, pseudo_type_dynamic, primitive_type, type_list, type_object, type_tuple, no_attrs,
  attr, no_types, type_then,
}
use go_cty.Types.Depth.{WellFormed}
use go_cty.Types.Equality.{equals}
use go_cty.Types.SameType.{SameType}
use go_cty.Types.Soundness.{equals_iff}
use go_cty.Types.Shape.{Normalizer, without_optional_attributes_deep}
use go_cty.Types.Optional.{Normal, strip, without_optional_attributes_deep-strip}
use go_cty.Types.Conformance.{
  test_conformance, missing_required_attribute, unsupported_attribute, get_attr_step, type_required,
}
use go_cty.Types.Conformance.Spec.{Conforms}
use go_cty.Types.Conformance.Complete.{test_conformance_iff}
use go_cty.Types.Json.{
  Json, json_string, json_array, json_object, item_then, no_items, field_then, no_fields, pair,
  marshal, unmarshal, decoded, panicked,
}
use go_cty.Types.Json.RoundTrip.{unmarshal-marshal}

instance abbrev plain : Normalizer
plain = record { normalize = λ s. s }

abbrev person : CtyType
person =
    type_object
      (attr "name" (primitive_type Kind.string)
        (attr "tags" (type_list pseudo_type_dynamic) no_attrs))
      ("tags" ∷ [])

-- The same attributes in another order.
abbrev nosrep : CtyType
nosrep =
    type_object
      (attr "tags" (type_list pseudo_type_dynamic)
        (attr "name" (primitive_type Kind.string) no_attrs))
      ("tags" ∷ [])

abbrev people : CtyType
people = type_tuple (type_then person (type_then nosrep no_types))

person-WellFormed : WellFormed person
person-WellFormed = ((refl, (refl, tt)), (tt, (tt, tt)))

nosrep-WellFormed : WellFormed nosrep
nosrep-WellFormed = ((refl, (refl, tt)), (tt, (tt, tt)))

people-WellFormed : WellFormed people
people-WellFormed = (person-WellFormed, (nosrep-WellFormed, tt))

people-Normal : Normal people
people-Normal = ((refl, tt, (refl, tt, tt)), ((refl, tt, (refl, tt, tt)), tt))

equals-nosrep : equals person nosrep ≡ true
unfolding equals
equals-nosrep = refl

equals_ne : equals person people ≡ false
unfolding equals
equals_ne = refl

conformance-names :
    test_conformance person (
      type_object
        (attr "nick" (primitive_type Kind.bool) (attr "name" (primitive_type Kind.bool) no_attrs))
        [])
    ≡ ([], unsupported_attribute "tags")
      ∷ ([], missing_required_attribute "nick")
      ∷ (
        get_attr_step "name" ∷ [],
        type_required (primitive_type Kind.bool) (primitive_type Kind.string),
      )
      ∷ []
unfolding test_conformance equals
conformance-names = refl

-- Types that differ in their optional attributes only conform, though they are not equal.
conformance_optional :
    (test_conformance person (strip person) ≡ []) × (equals person (strip person) ≡ false)
unfolding test_conformance equals strip
conformance_optional = (refl, refl)

equals_iff_example : (equals person nosrep ≡ true) ↔ SameType person nosrep
equals_iff_example = equals_iff person nosrep person-WellFormed nosrep-WellFormed

without_optional_attributes_deep-strip_example :
    without_optional_attributes_deep people ≡ strip people
without_optional_attributes_deep-strip_example =
    without_optional_attributes_deep-strip people people-WellFormed people-Normal

test_conformance_iff_example : (test_conformance person nosrep ≡ []) ↔ Conforms person nosrep
test_conformance_iff_example =
    test_conformance_iff person nosrep person-WellFormed nosrep-WellFormed

unmarshal-marshal_example :
    (j : Json) × (u : CtyType) × (marshal people ≡ some j)
    × (unmarshal j ≡ decoded u)
    × SameType u people
unmarshal-marshal_example = unmarshal-marshal people refl people-WellFormed people-Normal

-- The keys and the optional attributes are written in order.
marshal-person :
    marshal nosrep
    ≡ some (
        json_array (
          item_then (json_string "object") (
            item_then
              (json_object (
                field_then "name"
                  (json_string "string")
                  (field_then "tags" (pair "list" (json_string "dynamic")) no_fields)))
              (item_then (json_array (item_then (json_string "tags") no_items)) no_items))))
unfolding marshal
marshal-person = refl

-- An optional attribute that is not an attribute makes the decoder panic.
unmarshal_panic :
    unmarshal (
      json_array (
        item_then (json_string "object") (
          item_then
            (json_object no_fields)
            (item_then (json_array (item_then (json_string "a") no_items)) no_items))))
    ≡ panicked
unfolding unmarshal
unmarshal_panic = refl
