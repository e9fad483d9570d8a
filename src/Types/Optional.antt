-- ===== src/Types/Optional.antt =====
-- The laws of WithoutOptionalAttributesDeep, against a plain recursion that drops the names.
use go_cty.Prelude.{
  ◌≡◌, refl, ap, ap₂, sym, ◌∙◌, true, none, some, String, [], ◌∷◌, ◌++◌, arith, is_some, string_eq,
  ◌==◌, if◌then◌else◌,
}
use mathlib.Core.List.{append_assoc, append-nil}
use go_cty.Prelude.Maps.{Map, lookup, insert, Unique}
use go_cty.Types.{
  CtyType, pseudo_type_dynamic, primitive_type, type_list, type_set, type_map, type_object,
  type_tuple, capsule_type, Attrs, no_attrs, attr, Types, no_types, type_then, attribute_types,
  attrs_of,
}
use go_cty.Types.Depth.{WellFormed, WellFormedAttrs, WellFormedTypes}
use go_cty.Types.Shape.{
  Normalizer, has_dynamic_types, attrs_have_dynamic, elems_have_dynamic, normalize_into,
  without_optional_attributes_deep, without_optional_attrs, without_optional_elems,
}

-- The specification: every list of optional attributes becomes empty.
unfoldable mutual
  pub strip : CtyType → CtyType
  strip pseudo_type_dynamic = pseudo_type_dynamic
  strip (primitive_type k) = primitive_type k
  strip (type_list t) = type_list (strip t)
  strip (type_set t) = type_set (strip t)
  strip (type_map t) = type_map (strip t)
  strip (type_object fs opt) = type_object (strip_attrs fs) []
  strip (type_tuple ts) = type_tuple (strip_types ts)
  strip (capsule_type a) = capsule_type a

  pub strip_attrs : Attrs → Attrs
  strip_attrs no_attrs = no_attrs
  strip_attrs (attr k t fs) = attr k (strip t) (strip_attrs fs)

  pub strip_types : Types → Types
  strip_types no_types = no_types
  strip_types (type_then t ts) = type_then (strip t) (strip_types ts)

lookup-strip :
    (fs : Attrs) (k : String)
    → is_some (lookup k (attribute_types (strip_attrs fs)))
      ≡ is_some (lookup k (attribute_types fs))
unfolding strip
lookup-strip no_attrs k = refl
lookup-strip (attr j t fs) k = ground (arith, lookup-strip fs k)

strip-Unique :
    (fs : Attrs) → Unique (attribute_types fs) → Unique (attribute_types (strip_attrs fs))
unfolding strip
strip-Unique no_attrs u = tt
strip-Unique (attr j t fs) u = ground (arith, lookup-strip fs j, strip-Unique fs)

mutual
  unfolding strip

  pub strip-WellFormed : (t : CtyType) → WellFormed t → WellFormed (strip t)
  strip-WellFormed pseudo_type_dynamic w = tt
  strip-WellFormed (primitive_type k) w = tt
  strip-WellFormed (type_list t) w = strip-WellFormed t w
  strip-WellFormed (type_set t) w = strip-WellFormed t w
  strip-WellFormed (type_map t) w = strip-WellFormed t w
  strip-WellFormed (type_object fs opt) w = (strip-Unique fs w.0, strip_attrs-WellFormed fs w.1)
  strip-WellFormed (type_tuple ts) w = strip_types-WellFormed ts w
  strip-WellFormed (capsule_type a) w = tt

  strip_attrs-WellFormed : (fs : Attrs) → WellFormedAttrs fs → WellFormedAttrs (strip_attrs fs)
  strip_attrs-WellFormed no_attrs w = tt
  strip_attrs-WellFormed (attr k t fs) w = (strip-WellFormed t w.0, strip_attrs-WellFormed fs w.1)

  strip_types-WellFormed : (ts : Types) → WellFormedTypes ts → WellFormedTypes (strip_types ts)
  strip_types-WellFormed no_types w = tt
  strip_types-WellFormed (type_then t ts) w =
      (strip-WellFormed t w.0, strip_types-WellFormed ts w.1)

mutual
  unfolding strip has_dynamic_types

  has_dynamic_types-strip : (t : CtyType) → has_dynamic_types (strip t) ≡ has_dynamic_types t
  has_dynamic_types-strip pseudo_type_dynamic = refl
  has_dynamic_types-strip (primitive_type k) = refl
  has_dynamic_types-strip (type_list t) = has_dynamic_types-strip t
  has_dynamic_types-strip (type_set t) = has_dynamic_types-strip t
  has_dynamic_types-strip (type_map t) = has_dynamic_types-strip t
  has_dynamic_types-strip (type_object fs opt) = attrs_have_dynamic-strip fs
  has_dynamic_types-strip (type_tuple ts) = elems_have_dynamic-strip ts
  has_dynamic_types-strip (capsule_type a) = refl

  attrs_have_dynamic-strip :
      (fs : Attrs) → attrs_have_dynamic (strip_attrs fs) ≡ attrs_have_dynamic fs
  attrs_have_dynamic-strip no_attrs = refl
  attrs_have_dynamic-strip (attr k t fs) =
      rw (has_dynamic_types-strip t, attrs_have_dynamic-strip fs) refl

  elems_have_dynamic-strip :
      (ts : Types) → elems_have_dynamic (strip_types ts) ≡ elems_have_dynamic ts
  elems_have_dynamic-strip no_types = refl
  elems_have_dynamic-strip (type_then t ts) =
      rw (has_dynamic_types-strip t, elems_have_dynamic-strip ts) refl

mutual
  unfolding strip

  strip-strip : (t : CtyType) → strip (strip t) ≡ strip t
  strip-strip pseudo_type_dynamic = refl
  strip-strip (primitive_type k) = refl
  strip-strip (type_list t) = ap type_list (strip-strip t)
  strip-strip (type_set t) = ap type_set (strip-strip t)
  strip-strip (type_map t) = ap type_map (strip-strip t)
  strip-strip (type_object fs opt) = ap (λ gs. type_object gs []) (strip_attrs-strip fs)
  strip-strip (type_tuple ts) = ap type_tuple (strip_types-strip ts)
  strip-strip (capsule_type a) = refl

  strip_attrs-strip : (fs : Attrs) → strip_attrs (strip_attrs fs) ≡ strip_attrs fs
  strip_attrs-strip no_attrs = refl
  strip_attrs-strip (attr k t fs) = ap₂ (attr k) (strip-strip t) (strip_attrs-strip fs)

  strip_types-strip : (ts : Types) → strip_types (strip_types ts) ≡ strip_types ts
  strip_types-strip no_types = refl
  strip_types-strip (type_then t ts) = ap₂ type_then (strip-strip t) (strip_types-strip ts)

attrs_of-attribute_types : (fs : Attrs) → attrs_of (attribute_types fs) ≡ fs
attrs_of-attribute_types no_attrs = refl
attrs_of-attribute_types (attr k t fs) = ap (attr k t) (attrs_of-attribute_types fs)

insert-fresh :
    (k : String) (t : CtyType) (m : Map String CtyType)
    → lookup k m ≡ none
    → insert k t m ≡ m ++ (k, t) ∷ []
insert-fresh k t [] h = refl
insert-fresh k t ((j, u) ∷ m) h = ground (arith, insert-fresh k t m)

lookup-snoc :
    (j k : String) (t : CtyType) (m : Map String CtyType)
    → lookup j (m ++ (k, t) ∷ [])
      ≡ (if is_some (lookup j m) then lookup j m else if k == j then some t else none)
lookup-snoc j k t [] = ground arith
lookup-snoc j k t ((i, u) ∷ m) = ground (arith, lookup-snoc j k t m)

module _ ⦃n : Normalizer⦄ where
  -- Every attribute name is in normal form, at every depth.
  abbrev mutual
    pub Normal : CtyType → Type 0
    Normal pseudo_type_dynamic = Unit
    Normal (primitive_type k) = Unit
    Normal (type_list t) = Normal t
    Normal (type_set t) = Normal t
    Normal (type_map t) = Normal t
    Normal (type_object fs opt) = NormalAttrs fs
    Normal (type_tuple ts) = NormalTypes ts
    Normal (capsule_type a) = Unit

    pub NormalAttrs : Attrs → Type 0
    NormalAttrs no_attrs = Unit
    NormalAttrs (attr k t fs) = (n.normalize k ≡ k) × Normal t × NormalAttrs fs

    pub NormalTypes : Types → Type 0
    NormalTypes no_types = Unit
    NormalTypes (type_then t ts) = Normal t × NormalTypes ts

  -- Normalising names that are normal already keeps the attributes in place.
  normalize_into-strip :
      (fs : Attrs) (m : Map String CtyType)
      → NormalAttrs fs
      → Unique (attribute_types fs)
      → ((k : String) → is_some (lookup k (attribute_types fs)) ≡ true → lookup k m ≡ none)
      → normalize_into (attribute_types (strip_attrs fs)) m ≡ m ++ attribute_types (strip_attrs fs)
  unfolding strip
  normalize_into-strip no_attrs m h u d = sym (append-nil m)
  normalize_into-strip (attr k t fs) m h u d =
      ap (λ j. normalize_into (attribute_types (strip_attrs fs)) (insert j (strip t) m)) h.0
      ∙ ap (normalize_into (attribute_types (strip_attrs fs)))
          (insert-fresh k (strip t) m (d k (ground (arith, string_eq.test_iff k k))))
      ∙ normalize_into-strip fs (m ++ (k, strip t) ∷ []) h.2 u.1
          (λ j p. ground (arith, lookup-snoc j k (strip t) m, string_eq.test_iff k j, d j))
      ∙ append_assoc m ((k, strip t) ∷ []) (attribute_types (strip_attrs fs))

  mutual
    unfolding without_optional_attributes_deep strip

    without_optional-strip :
        (t : CtyType) → WellFormed t → Normal t → without_optional_attributes_deep t ≡ strip t
    without_optional-strip pseudo_type_dynamic w h = refl
    without_optional-strip (primitive_type k) w h = refl
    without_optional-strip (type_list t) w h = ap type_list (without_optional-strip t w h)
    without_optional-strip (type_set t) w h = ap type_set (without_optional-strip t w h)
    without_optional-strip (type_map t) w h = ap type_map (without_optional-strip t w h)
    without_optional-strip (type_object fs opt) w h =
        ap (λ gs. type_object (attrs_of (normalize_into (attribute_types gs) [])) [])
          (without_optional_attrs-strip fs w.1 h)
        ∙ ap (λ m. type_object (attrs_of m) []) (normalize_into-strip fs [] h w.0 (λ k p. refl))
        ∙ ap (λ gs. type_object gs []) (attrs_of-attribute_types (strip_attrs fs))
    without_optional-strip (type_tuple ts) w h = ap type_tuple (without_optional_elems-strip ts w h)
    without_optional-strip (capsule_type a) w h = refl

    without_optional_attrs-strip :
        (fs : Attrs)
        → WellFormedAttrs fs
        → NormalAttrs fs
        → without_optional_attrs fs ≡ strip_attrs fs
    without_optional_attrs-strip no_attrs w h = refl
    without_optional_attrs-strip (attr k t fs) w h =
        ap₂ (attr k) (without_optional-strip t w.0 h.1) (without_optional_attrs-strip fs w.1 h.2)

    without_optional_elems-strip :
        (ts : Types)
        → WellFormedTypes ts
        → NormalTypes ts
        → without_optional_elems ts ≡ strip_types ts
    without_optional_elems-strip no_types w h = refl
    without_optional_elems-strip (type_then t ts) w h =
        ap₂ type_then (without_optional-strip t w.0 h.0) (without_optional_elems-strip ts w.1 h.1)

  mutual
    unfolding strip

    strip-Normal : (t : CtyType) → Normal t → Normal (strip t)
    strip-Normal pseudo_type_dynamic h = tt
    strip-Normal (primitive_type k) h = tt
    strip-Normal (type_list t) h = strip-Normal t h
    strip-Normal (type_set t) h = strip-Normal t h
    strip-Normal (type_map t) h = strip-Normal t h
    strip-Normal (type_object fs opt) h = strip_attrs-Normal fs h
    strip-Normal (type_tuple ts) h = strip_types-Normal ts h
    strip-Normal (capsule_type a) h = tt

    strip_attrs-Normal : (fs : Attrs) → NormalAttrs fs → NormalAttrs (strip_attrs fs)
    strip_attrs-Normal no_attrs h = tt
    strip_attrs-Normal (attr k t fs) h = (h.0, strip-Normal t h.1, strip_attrs-Normal fs h.2)

    strip_types-Normal : (ts : Types) → NormalTypes ts → NormalTypes (strip_types ts)
    strip_types-Normal no_types h = tt
    strip_types-Normal (type_then t ts) h = (strip-Normal t h.0, strip_types-Normal ts h.1)

  -- On a type whose attribute names are unique and normal, WithoutOptionalAttributesDeep is the
  -- plain removal of every list of optional attributes.
  pub without_optional_attributes_deep-strip :
      (t : CtyType) → WellFormed t → Normal t → without_optional_attributes_deep t ≡ strip t
  without_optional_attributes_deep-strip t w h = without_optional-strip t w h

  -- On such a type, doing it twice is doing it once, and HasDynamicTypes does not change.
  pub without_optional_attributes_deep_idem :
      (t : CtyType)
      → WellFormed t
      → Normal t
      → (without_optional_attributes_deep (without_optional_attributes_deep t)
          ≡ without_optional_attributes_deep t)
        × (has_dynamic_types (without_optional_attributes_deep t) ≡ has_dynamic_types t)
  without_optional_attributes_deep_idem t w h = (
    rw (without_optional-strip t w h) (
        without_optional-strip (strip t) (strip-WellFormed t w) (strip-Normal t h) ∙ strip-strip t),
    rw (without_optional-strip t w h) (has_dynamic_types-strip t),
  )
