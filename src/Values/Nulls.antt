-- ===== src/Values/Nulls.antt =====
-- UnknownAsNull (cty/unknown_as_null.go), ListVal and MapVal (cty/value_init.go) and IsWhollyKnown
-- (cty/value.go). A panic is `none`. Keys and attribute names are normal already, since they come
-- from values. `set_val_of` is SetVal.
pub mod Known
use go_cty.Prelude.{
  Bool, true, false, ◌&&◌, not, Option, none, some, String, List, [], ◌∷◌, Equatable, if◌then◌else◌,
}
use go_cty.Types.{CtyType, pseudo_type_dynamic, is_dynamic}
use go_cty.Types.Equality.{equals}
use go_cty.Values.{
  Value, null_val, unknown_val, bool_val, number_val, string_val, list_val, set_val, map_val,
  tuple_val, object_val, capsule_val, marked_val, Values, no_values, value_then, Fields, no_fields,
  field_then, type_of, with_marks,
}

-- The loop of ListVal and of MapVal over the types of the elements.
abbrev pub element_type_from : CtyType → List CtyType → Option CtyType
element_type_from ety [] = some ety
element_type_from ety (t ∷ ts) =
    let rest = element_type_from (if is_dynamic ety then t else ety) ts in
    if is_dynamic ety then rest else if not (is_dynamic t) && not (equals ety t) then none else rest

module _ {N M : Type 0} where
  abbrev pub value_types : Values N M → List CtyType
  value_types no_values = []
  value_types (value_then v vs) = type_of v ∷ value_types vs

  abbrev pub field_types : Fields N M → List CtyType
  field_types no_fields = []
  field_types (field_then k v fs) = type_of v ∷ field_types fs

  abbrev pub on_elements : {A : Type 0} → Option A → (A → Option (Value N M)) → Option (Value N M)
  on_elements none f = none
  on_elements (some x) f = f x

  -- ListVal
  unfoldable pub list_val_of : Values N M → Option (Value N M)
  list_val_of no_values = none
  list_val_of (value_then v vs) =
      on_elements (element_type_from pseudo_type_dynamic (type_of v ∷ value_types vs))
        (λ t. some (list_val t (value_then v vs)))

  -- MapVal
  unfoldable pub map_val_of : Fields N M → Option (Value N M)
  map_val_of no_fields = none
  map_val_of (field_then k v fs) =
      on_elements (element_type_from pseudo_type_dynamic (type_of v ∷ field_types fs))
        (λ t. some (map_val t (field_then k v fs)))

  -- IsWhollyKnown
  unfoldable mutual
    pub is_wholly_known : Value N M → Bool
    is_wholly_known (marked_val v ms) = is_wholly_known v
    is_wholly_known (unknown_val t r) = false
    is_wholly_known (list_val t vs) = are_wholly_known vs
    is_wholly_known (set_val t vs) = are_wholly_known vs
    is_wholly_known (tuple_val vs) = are_wholly_known vs
    is_wholly_known (map_val t fs) = fields_are_wholly_known fs
    is_wholly_known (object_val fs) = fields_are_wholly_known fs
    is_wholly_known _ = true

    pub are_wholly_known : Values N M → Bool
    are_wholly_known no_values = true
    are_wholly_known (value_then v vs) = is_wholly_known v && are_wholly_known vs

    pub fields_are_wholly_known : Fields N M → Bool
    fields_are_wholly_known no_fields = true
    fields_are_wholly_known (field_then k v fs) = is_wholly_known v && fields_are_wholly_known fs

  abbrev pub put_value : Option (Value N M) → Option (Values N M) → Option (Values N M)
  put_value none rest = none
  put_value (some v) none = none
  put_value (some v) (some vs) = some (value_then v vs)

module _ {N M : Type 0} where
  abbrev pub put_field : String → Option (Value N M) → Option (Fields N M) → Option (Fields N M)
  put_field k none rest = none
  put_field k (some v) none = none
  put_field k (some v) (some fs) = some (field_then k v fs)

module _ {N M : Type 0} ⦃e : Equatable M⦄ (set_val_of : Values N M → Option (Value N M)) where
  -- UnknownAsNull: what has no elements has nothing unknown in it.
  unfoldable mutual
    pub unknown_as_null : Value N M → Option (Value N M)
    unknown_as_null (marked_val v ms) =
        on_elements (unknown_as_null v) (λ w. some (with_marks (ms ∷ []) w))
    unknown_as_null (unknown_val t r) = some (null_val t)
    unknown_as_null (list_val t no_values) = some (list_val t no_values)
    unknown_as_null (list_val t (value_then v vs)) =
        on_elements (nulls_in (value_then v vs)) list_val_of
    unknown_as_null (set_val t no_values) = some (set_val t no_values)
    unknown_as_null (set_val t (value_then v vs)) =
        on_elements (nulls_in (value_then v vs)) set_val_of
    unknown_as_null (tuple_val vs) = on_elements (nulls_in vs) (λ ws. some (tuple_val ws))
    unknown_as_null (map_val t no_fields) = some (map_val t no_fields)
    unknown_as_null (map_val t (field_then k v fs)) =
        on_elements (nulls_in_fields (field_then k v fs)) map_val_of
    unknown_as_null (object_val fs) = on_elements (nulls_in_fields fs) (λ gs. some (object_val gs))
    unknown_as_null (null_val t) = some (null_val t)
    unknown_as_null (bool_val b) = some (bool_val b)
    unknown_as_null (number_val n) = some (number_val n)
    unknown_as_null (string_val x) = some (string_val x)
    unknown_as_null (capsule_val t p) = some (capsule_val t p)

    pub nulls_in : Values N M → Option (Values N M)
    nulls_in no_values = some no_values
    nulls_in (value_then v vs) = put_value (unknown_as_null v) (nulls_in vs)

    pub nulls_in_fields : Fields N M → Option (Fields N M)
    nulls_in_fields no_fields = some no_fields
    nulls_in_fields (field_then k v fs) = put_field k (unknown_as_null v) (nulls_in_fields fs)
