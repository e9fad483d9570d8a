-- ===== src/Types/Json.antt =====
-- MarshalJSON and UnmarshalJSON of types (cty/json.go), on trees of JSON values: the text of a
-- value is printed and read by encoding/json, which also decodes maps, slices and null.
pub mod Reading
pub mod RoundTrip
use Prim.Native.Nat.{Ordering}
use Prim.Native.String.{compare}
use go_cty.Prelude.{
  Bool, true, false, Option, none, some, String, List, [], ◌∷◌, string_eq, ◌==◌, if◌then◌else◌,
}
use go_cty.Prelude.Maps.{Map, insert}
use go_cty.Prelude.Sorting.{sort_by}
use go_cty.Types.{
  CtyType, Kind, pseudo_type_dynamic, primitive_type, type_list, type_set, type_map, type_object,
  type_tuple, capsule_type, Attrs, no_attrs, attr, Types, no_types, type_then, types_of,
}
use go_cty.Types.Shape.{Normalizer, object_with_optional_attrs, object}

-- A JSON value. `json_scalar` is a number or a Boolean.
mutual
  pub data Json : Type 0 where
    json_null json_scalar : Json
    json_string : String → Json
    json_array : JsonItems → Json
    json_object : JsonFields → Json

  pub data JsonItems : Type 0 where
    no_items : JsonItems
    item_then : Json → JsonItems → JsonItems

  pub data JsonFields : Type 0 where
    no_fields : JsonFields
    field_then : String → Json → JsonFields → JsonFields

abbrev pub fields_of : Map String Json → JsonFields
fields_of [] = no_fields
fields_of ((k, j) ∷ m) = field_then k j (fields_of m)

-- The array of strings of the optional attributes.
abbrev pub strings_of : List String → JsonItems
strings_of [] = no_items
strings_of (s ∷ ss) = item_then (json_string s) (strings_of ss)

-- `sort.Strings`, and the order in which encoding/json writes the keys of a map.
abbrev pub string_less : String → String → Bool
string_less a b = elim (compare a b) [ Ordering.lt ↦ true | _ ↦ false ]

abbrev pub key_less : String × Json → String × Json → Bool
key_less a b = string_less a.0 b.0

abbrev pub pair : String → Json → Json
pair name j = json_array (item_then (json_string name) (item_then j no_items))

-- MarshalJSON: `none` is the error for a capsule type.
unfoldable mutual
  unfolding sort_by

  pub marshal : CtyType → Option Json
  marshal (primitive_type Kind.bool) = some (json_string "bool")
  marshal (primitive_type Kind.number) = some (json_string "number")
  marshal (primitive_type Kind.string) = some (json_string "string")
  marshal (type_list t) = elim (marshal t) [ none ↦ none | some j ↦ some (pair "list" j) ]
  marshal (type_map t) = elim (marshal t) [ none ↦ none | some j ↦ some (pair "map" j) ]
  marshal (type_set t) = elim (marshal t) [ none ↦ none | some j ↦ some (pair "set" j) ]
  marshal (type_object fs opt) = elim (marshal_attrs fs) [
    | none ↦ none
    | some m ↦
        let atys = json_object (fields_of (sort_by key_less m)) in
        some (elim opt [
          | [] ↦ pair "object" atys
          | k ∷ ks ↦ json_array (
              item_then (json_string "object") (
                item_then atys
                  (item_then (json_array (strings_of (sort_by string_less (k ∷ ks)))) no_items)))
        ])
  ]
  marshal (type_tuple ts) = elim (marshal_elems ts) [
    | none ↦ none
    | some js ↦ some (pair "tuple" (json_array js))
  ]
  marshal pseudo_type_dynamic = some (json_string "dynamic")
  marshal (capsule_type n) = none

  pub marshal_attrs : Attrs → Option (Map String Json)
  marshal_attrs no_attrs = some []
  marshal_attrs (attr k t fs) = elim (marshal t) [
    | none ↦ none
    | some j ↦ elim (marshal_attrs fs) [ none ↦ none | some m ↦ some ((k, j) ∷ m) ]
  ]

  pub marshal_elems : Types → Option JsonItems
  marshal_elems no_types = some no_items
  marshal_elems (type_then t ts) = elim (marshal t) [
    | none ↦ none
    | some j ↦ elim (marshal_elems ts) [ none ↦ none | some js ↦ some (item_then j js) ]
  ]

-- What UnmarshalJSON does: it sets the type, returns an error, or panics.
pub data Decoded {ℓ} (A : Type ℓ) : Type ℓ where
  decoded : A → Decoded A
  rejected panicked : Decoded A

infixl 5 ◌>>=◌
abbrev pub ◌>>=◌ {ℓ κ} : {A : Type ℓ} {B : Type κ} → Decoded A → (A → Decoded B) → Decoded B
decoded a >>= f = f a
rejected >>= f = rejected
panicked >>= f = panicked

-- A JSON string as a type.
abbrev pub named_type : String → Decoded CtyType
named_type v =
    if v == "bool"
    then decoded (primitive_type Kind.bool)
    else if v == "number"
    then decoded (primitive_type Kind.number)
    else if v == "string"
    then decoded (primitive_type Kind.string)
    else if v == "dynamic"
    then decoded pseudo_type_dynamic
    else rejected

-- `var optionals []string`: a null element leaves the empty string.
abbrev pub decode_strings : JsonItems → Decoded (List String)
decode_strings no_items = decoded []
decode_strings (item_then (json_string s) js) = decode_strings js >>= λ ss. decoded (s ∷ ss)
decode_strings (item_then json_null js) = decode_strings js >>= λ ss. decoded ("" ∷ ss)
decode_strings (item_then _ js) = rejected

abbrev pub decode_optionals : Json → Decoded (List String)
decode_optionals (json_array js) = decode_strings js
decode_optionals json_null = decoded []
decode_optionals _ = rejected

module _ ⦃n : Normalizer⦄ where
  -- The closing bracket must follow.
  abbrev pub closed : JsonItems → CtyType → Decoded CtyType
  closed no_items t = decoded t
  closed (item_then j js) t = rejected

  -- The object case, after the attribute types.
  unfoldable pub decode_object : Map String CtyType → JsonItems → Decoded CtyType
  unfolding object object_with_optional_attrs
  decode_object atys no_items = decoded (object atys)
  decode_object atys (item_then j js) = decode_optionals j >>= λ optionals.
      elim (object_with_optional_attrs atys optionals) [ none ↦ panicked | some t ↦ closed js t ]

  -- The switch on the kind of a complex type. The second item is read as a type, as a map of types
  -- or as a slice of types.
  abbrev pub complex_type :
      String
      → Decoded CtyType
      → Decoded (Map String CtyType)
      → Decoded (List CtyType)
      → JsonItems
      → Decoded CtyType
  unfolding decode_object
  complex_type kind ety atys etys rest =
      if kind == "list"
      then (ety >>= λ t. closed rest (type_list t))
      else if kind == "map"
      then (ety >>= λ t. closed rest (type_map t))
      else if kind == "set"
      then (ety >>= λ t. closed rest (type_set t))
      else if kind == "object"
      then (atys >>= λ m. decode_object m rest)
      else if kind == "tuple"
      then (etys >>= λ ts. closed rest (type_tuple (types_of ts)))
      else rejected

  -- UnmarshalJSON
  unfoldable mutual
    unfolding decode_object

    pub unmarshal : Json → Decoded CtyType
    unmarshal (json_string v) = named_type v
    unmarshal (json_array (item_then (json_string kind) (item_then j rest))) =
        complex_type kind (unmarshal j) (unmarshal_map j) (unmarshal_slice j) rest
    unmarshal _ = rejected

    -- `var atys map[string]Type`: a repeated key keeps the last value.
    pub unmarshal_map : Json → Decoded (Map String CtyType)
    unmarshal_map (json_object fs) = unmarshal_fields fs []
    unmarshal_map json_null = decoded []
    unmarshal_map _ = rejected

    pub unmarshal_fields : JsonFields → Map String CtyType → Decoded (Map String CtyType)
    unmarshal_fields no_fields m = decoded m
    unmarshal_fields (field_then k j fs) m = unmarshal j >>= λ t. unmarshal_fields fs (insert k t m)

    -- `var etys []Type`
    pub unmarshal_slice : Json → Decoded (List CtyType)
    unmarshal_slice (json_array js) = unmarshal_items js
    unmarshal_slice json_null = decoded []
    unmarshal_slice _ = rejected

    pub unmarshal_items : JsonItems → Decoded (List CtyType)
    unmarshal_items no_items = decoded []
    unmarshal_items (item_then j js) =
        unmarshal j >>= λ t. unmarshal_items js >>= λ ts. decoded (t ∷ ts)
