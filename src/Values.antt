-- ===== src/Values.antt =====
-- Values and their marks (cty/value.go, cty/marks.go). A Go value is a type and a raw content; here
-- each kind of content is a constructor, which holds what the type adds to it. The elements of a
-- map or an object stand in the order in which Go iterates over them, by name. Marks are of a type
-- `M` that Go compares with `==`; a ValueMarks is a list of marks, in the order of its iteration.
pub mod Marks
pub mod Wrangle
pub mod Stripping
pub mod Unmarking
pub mod WellMarked
pub mod Walk
pub mod Logic
pub mod RawEquality
pub mod Nulls
pub mod Examples
use go_cty.Prelude.{
  ℕ, Bool, true, false, ◌||◌, not, Option, String, List, [], ◌∷◌, length, Equatable, nat_eq,
  string_eq, ◌==◌, if◌then◌else◌,
}
use go_cty.Types.{
  CtyType, Kind, primitive_type, type_list, type_set, type_map, type_object, type_tuple,
  capsule_type, Attrs, no_attrs, attr, Types, no_types, type_then,
}
use go_cty.Refinement.{Refinement}

mutual
  pub data Value (N M : Type 0) : Type 0 where
    null_val : CtyType → Value N M
    unknown_val : CtyType → Option (Refinement N) → Value N M
    bool_val : Bool → Value N M
    number_val : N → Value N M
    string_val : String → Value N M
    list_val : CtyType → Values N M → Value N M
    set_val : CtyType → Values N M → Value N M
    map_val : CtyType → Fields N M → Value N M
    tuple_val : Values N M → Value N M
    object_val : Fields N M → Value N M
    capsule_val : ℕ → ℕ → Value N M
    marked_val : Value N M → List M → Value N M

  pub data Values (N M : Type 0) : Type 0 where
    no_values : Values N M
    value_then : Value N M → Values N M → Values N M

  pub data Fields (N M : Type 0) : Type 0 where
    no_fields : Fields N M
    field_then : String → Value N M → Fields N M → Fields N M

-- Whether a mark is in a ValueMarks: Has.
abbrev pub has_member {ℓ} : {M : Type ℓ} ⦃e : Equatable M⦄ → M → List M → Bool
has_member m [] = false
has_member m (x ∷ xs) = x == m || has_member m xs

-- `marks[m] = struct{}{}`
abbrev pub insert_mark {ℓ} : {M : Type ℓ} ⦃e : Equatable M⦄ → M → List M → List M
insert_mark m xs = if has_member m xs then xs else m ∷ xs

-- `delete(marks, m)`
abbrev pub delete_mark {ℓ} : {M : Type ℓ} ⦃e : Equatable M⦄ → M → List M → List M
delete_mark m [] = []
delete_mark m (x ∷ xs) = let rest = delete_mark m xs in if x == m then rest else x ∷ rest

-- The insertions of all marks of one set into another.
abbrev pub insert_marks {ℓ} : {M : Type ℓ} ⦃e : Equatable M⦄ → List M → List M → List M
insert_marks [] to = to
insert_marks (m ∷ ms) to = insert_marks ms (insert_mark m to)

-- The union of several sets of marks.
abbrev pub union_marks {ℓ} : {M : Type ℓ} ⦃e : Equatable M⦄ → List (List M) → List M → List M
union_marks [] to = to
union_marks (s ∷ ss) to = union_marks ss (insert_marks s to)

-- The sum of the sizes, which decides whether there is any mark.
abbrev pub any_marks {ℓ} : {M : Type ℓ} → List (List M) → Bool
any_marks [] = false
any_marks ([] ∷ ss) = any_marks ss
any_marks ((m ∷ ms) ∷ ss) = true

-- ValueMarks.Equal: the sizes, then one inclusion.
abbrev pub all_in {ℓ} : {M : Type ℓ} ⦃e : Equatable M⦄ → List M → List M → Bool
all_in [] o = true
all_in (m ∷ ms) o = if has_member m o then all_in ms o else false

abbrev pub marks_equal {ℓ} : {M : Type ℓ} ⦃e : Equatable M⦄ → List M → List M → Bool
marks_equal m o = if not (length m == length o) then false else all_in m o

module _ {N M : Type 0} where
  -- Type
  unfoldable mutual
    pub type_of : Value N M → CtyType
    type_of (null_val t) = t
    type_of (unknown_val t r) = t
    type_of (bool_val b) = primitive_type Kind.bool
    type_of (number_val n) = primitive_type Kind.number
    type_of (string_val s) = primitive_type Kind.string
    type_of (list_val t vs) = type_list t
    type_of (set_val t vs) = type_set t
    type_of (map_val t fs) = type_map t
    type_of (tuple_val vs) = type_tuple (types_of_values vs)
    type_of (object_val fs) = type_object (attrs_of_fields fs) []
    type_of (capsule_val t p) = capsule_type t
    type_of (marked_val v ms) = type_of v

    pub types_of_values : Values N M → Types
    types_of_values no_values = no_types
    types_of_values (value_then v vs) = type_then (type_of v) (types_of_values vs)

    pub attrs_of_fields : Fields N M → Attrs
    attrs_of_fields no_fields = no_attrs
    attrs_of_fields (field_then k v fs) = attr k (type_of v) (attrs_of_fields fs)

  -- IsMarked
  abbrev pub is_marked : Value N M → Bool
  is_marked (marked_val v ms) = true
  is_marked _ = false

  -- Marks
  abbrev pub marks : Value N M → List M
  marks (marked_val v ms) = ms
  marks _ = []

  -- The first result of Unmark: what is inside a marker.
  abbrev pub unmark_force : Value N M → Value N M
  unmark_force (marked_val v ms) = v
  unmark_force v = v

  -- Unmark
  abbrev pub unmark : Value N M → Value N M × List M
  unmark v = (unmark_force v, marks v)

  -- IsKnown
  abbrev pub is_known : Value N M → Bool
  is_known (marked_val v ms) = is_known v
  is_known (unknown_val t r) = false
  is_known _ = true

  -- IsNull
  abbrev pub is_null : Value N M → Bool
  is_null (marked_val v ms) = is_null v
  is_null (null_val t) = true
  is_null _ = false

  -- A marker around a value, if there is a mark at all.
  abbrev pub with_new_marks : Value N M → List M → Value N M
  with_new_marks v [] = v
  with_new_marks v (m ∷ ms) = marked_val (unmark_force v) (m ∷ ms)

module _ {N M : Type 0} ⦃e : Equatable M⦄ where
  -- HasMark
  abbrev pub has_mark : M → Value N M → Bool
  has_mark m v = has_member m (marks v)

  -- Mark
  unfoldable pub mark : M → Value N M → Value N M
  mark m v = marked_val (unmark_force v) (insert_mark m (marks v))

  -- WithMarks
  unfoldable pub with_marks : List (List M) → Value N M → Value N M
  with_marks [] v = v
  with_marks (s ∷ ss) v =
      if any_marks (marks v ∷ s ∷ ss)
      then marked_val (unmark_force v) (union_marks (s ∷ ss) (insert_marks (marks v) []))
      else v

  -- WithSameMarks
  abbrev pub marks_of : List (Value N M) → List (List M)
  marks_of [] = []
  marks_of (v ∷ vs) = marks v ∷ marks_of vs

  unfoldable pub with_same_marks : List (Value N M) → Value N M → Value N M
  unfolding with_marks
  with_same_marks srcs v = with_marks (marks_of srcs) v

  -- HasSameMarks
  unfoldable pub has_same_marks : Value N M → Value N M → Bool
  has_same_marks (marked_val v ms) (marked_val w os) = marks_equal ms os
  has_same_marks (marked_val v ms) _ = false
  has_same_marks _ (marked_val w os) = false
  has_same_marks _ _ = true

  -- HasMarkDeep and ContainsMarked: a walk over the value and all that is in it.
  unfoldable mutual
    pub has_mark_deep : M → Value N M → Bool
    has_mark_deep m (marked_val v ms) = has_member m ms || has_mark_deep m v
    has_mark_deep m (list_val t vs) = values_have_mark m vs
    has_mark_deep m (set_val t vs) = values_have_mark m vs
    has_mark_deep m (map_val t fs) = fields_have_mark m fs
    has_mark_deep m (tuple_val vs) = values_have_mark m vs
    has_mark_deep m (object_val fs) = fields_have_mark m fs
    has_mark_deep m _ = false

    pub values_have_mark : M → Values N M → Bool
    values_have_mark m no_values = false
    values_have_mark m (value_then v vs) = has_mark_deep m v || values_have_mark m vs

    pub fields_have_mark : M → Fields N M → Bool
    fields_have_mark m no_fields = false
    fields_have_mark m (field_then k v fs) = has_mark_deep m v || fields_have_mark m fs

module _ {N M : Type 0} where
  unfoldable mutual
    pub contains_marked : Value N M → Bool
    contains_marked (marked_val v ms) = true
    contains_marked (list_val t vs) = values_contain_marked vs
    contains_marked (set_val t vs) = values_contain_marked vs
    contains_marked (map_val t fs) = fields_contain_marked fs
    contains_marked (tuple_val vs) = values_contain_marked vs
    contains_marked (object_val fs) = fields_contain_marked fs
    contains_marked _ = false

    pub values_contain_marked : Values N M → Bool
    values_contain_marked no_values = false
    values_contain_marked (value_then v vs) = contains_marked v || values_contain_marked vs

    pub fields_contain_marked : Fields N M → Bool
    fields_contain_marked no_fields = false
    fields_contain_marked (field_then k v fs) = contains_marked v || fields_contain_marked fs
