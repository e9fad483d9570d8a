-- ===== src/Types/Conformance.antt =====
-- TestConformance of type_conform.go.
pub mod Spec
pub mod Sound
pub mod Complete
use go_cty.Prelude.{
  ℕ, zero, suc, ◌+◌, not, none, some, String, List, [], ◌∷◌, ◌++◌, max, length, ◌==◌, if◌then◌else◌,
  string_eq, nat_eq,
}
use go_cty.Prelude.Maps.{Map, lookup}
use go_cty.Types.{
  CtyType, Kind, pseudo_type_dynamic, primitive_type, type_list, type_set, type_map, type_object,
  type_tuple, attribute_types, tuple_element_types,
}
use go_cty.Types.Equality.{equals}
use go_cty.Types.Depth.{depth}

-- A step of the path of an error: GetAttrStep, or IndexStep with a known number or with an unknown
-- value of a type.
pub data TypeStep : Type 0 where
  get_attr_step : String → TypeStep
  index_step : ℕ → TypeStep
  any_index_step : CtyType → TypeStep

-- The errors of testConformance, one constructor for each message.
pub data Problem : Type 0 where
  unsupported_attribute missing_required_attribute : String → Problem
  elements_required : ℕ → ℕ → Problem
  type_required : CtyType → CtyType → Problem

abbrev pub TypePath : Type 0
TypePath = List TypeStep

abbrev pub Errors : Type 0
Errors = List (TypePath × Problem)

-- `for k := range givenAttrs`
abbrev pub unsupported : TypePath → Map String CtyType → Map String CtyType → Errors
unsupported path [] want = []
unsupported path ((k, t) ∷ given) want =
    let rest = unsupported path given want in
    elim (lookup k want) [ none ↦ (path, unsupported_attribute k) ∷ rest | some u ↦ rest ]

-- `for k := range wantAttrs`, the first time
abbrev pub missing : TypePath → Map String CtyType → Map String CtyType → Errors
missing path given [] = []
missing path given ((k, u) ∷ want) =
    let rest = missing path given want in
    elim (lookup k given) [ none ↦ (path, missing_required_attribute k) ∷ rest | some t ↦ rest ]

-- `for k, wantAttrType := range wantAttrs`; `test` is the recursive call.
abbrev pub common_attrs :
    (CtyType → CtyType → TypePath → Errors)
    → TypePath
    → Map String CtyType
    → Map String CtyType
    → Errors
common_attrs test path given [] = []
common_attrs test path given ((k, want_attr) ∷ want) =
    let rest = common_attrs test path given want in
    elim (lookup k given) [
      | none ↦ rest
      | some given_attr ↦ test given_attr want_attr (path ++ get_attr_step k ∷ []) ++ rest
    ]

-- `for i, wantElemType := range wantElems`, of equal lengths, from index `i` on
abbrev pub elements :
    (CtyType → CtyType → TypePath → Errors) → TypePath → ℕ → List CtyType → List CtyType → Errors
elements test path i (g ∷ given) (w ∷ want) =
    test g w (path ++ index_step i ∷ []) ++ elements test path (i + 1) given want
elements test path i _ _ = []

-- What follows the two tests for equality.
abbrev pub diverge : (CtyType → CtyType → TypePath → Errors) → CtyType → CtyType → TypePath → Errors
diverge test (type_object fs opt) (type_object gs oopt) path =
    unsupported path (attribute_types fs) (attribute_types gs)
    ++ (missing path (attribute_types fs) (attribute_types gs)
        ++ common_attrs test path (attribute_types fs) (attribute_types gs))
diverge test (type_tuple ts) (type_tuple us) path =
    let given = tuple_element_types ts in
    let want = tuple_element_types us in
    if not (length given == length want)
    then (path, elements_required (length want) (length given)) ∷ []
    else elements test path 0 given want
diverge test (type_list t) (type_list u) path =
    test t u (path ++ any_index_step (primitive_type Kind.number) ∷ [])
diverge test (type_map t) (type_map u) path =
    test t u (path ++ any_index_step (primitive_type Kind.string) ∷ [])
diverge test (type_set t) (type_set u) path = test t u (path ++ any_index_step t ∷ [])
diverge test given want path = (path, type_required want given) ∷ []

-- testConformance, within a bound of the depths.
unfoldable pub conformance_within : ℕ → CtyType → CtyType → TypePath → Errors
conformance_within zero given want path = (path, type_required want given) ∷ []
conformance_within (suc n) given want path =
    let errs = diverge (conformance_within n) given want path in
    if equals want pseudo_type_dynamic then [] else if equals given want then [] else errs

-- TestConformance
unfoldable pub test_conformance : CtyType → CtyType → Errors
unfolding conformance_within depth
test_conformance t other = conformance_within (max (depth t) (depth other)) t other []
