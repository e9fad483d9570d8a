-- ===== src/Types/Json/Reading.antt =====
-- How the entries of a JSON object are read back as the attributes of an object type.
use go_cty.Prelude.{
  ◌≡◌, refl, sym, ap, ◌∙◌, Bool, true, false, Option, none, some, String, List, [], ◌∷◌, any, all,
  is_some, string_eq, ◌==◌, Bool-cases, inl, inr, if◌then◌else◌, arith, ◌&&◌,
}
use mathlib.Core.Path.{subst}
use go_cty.Prelude.Maps.{Map, lookup, insert, Unique, lookup-insert, insert-Unique}
use go_cty.Prelude.Sorting.{sort_by, any-sort_by}
use go_cty.Types.{
  CtyType, pseudo_type_dynamic, primitive_type, type_list, type_set, type_map, type_object,
  type_tuple, capsule_type, Attrs, no_attrs, attr, Types, no_types, type_then, attribute_types,
  tuple_element_types, attrs_of, types_of, member,
}
use go_cty.Types.Shape.{Normalizer, normalize_into, optional_set}
use go_cty.Types.SameType.{SameType, SameField, SameField-is_some}
use go_cty.Types.Json.{
  Json, fields_of, strings_of, string_less, decoded, decode_strings, unmarshal, unmarshal_fields,
}

-- No capsule type at any depth, and every optional attribute is one of its object's.
abbrev mutual
  pub is_serializable : CtyType → Bool
  is_serializable pseudo_type_dynamic = true
  is_serializable (primitive_type k) = true
  is_serializable (type_list t) = is_serializable t
  is_serializable (type_set t) = is_serializable t
  is_serializable (type_map t) = is_serializable t
  is_serializable (type_object fs opt) =
      all (λ k. is_some (lookup k (attribute_types fs))) opt && attrs_are_serializable fs
  is_serializable (type_tuple ts) = elems_are_serializable ts
  is_serializable (capsule_type n) = false

  pub attrs_are_serializable : Attrs → Bool
  attrs_are_serializable no_attrs = true
  attrs_are_serializable (attr k t fs) = is_serializable t && attrs_are_serializable fs

  pub elems_are_serializable : Types → Bool
  elems_are_serializable no_types = true
  elems_are_serializable (type_then t ts) = is_serializable t && elems_are_serializable ts

member-any : (k : String) (js : List String) → member k js ≡ any (λ j. j == k) js
member-any k [] = refl
member-any k (j ∷ js) = ground (arith, member-any k js)

pub member-sort_by :
    (k : String) (js : List String) → member k (sort_by string_less js) ≡ member k js
member-sort_by k js =
    member-any k (sort_by string_less js)
    ∙ any-sort_by string_less (λ j. j == k) js
    ∙ sym (member-any k js)

pub decode_strings-strings_of : (ss : List String) → decode_strings (strings_of ss) ≡ decoded ss
decode_strings-strings_of [] = refl
decode_strings-strings_of (s ∷ ss) = rw (decode_strings-strings_of ss) refl

pub attribute_types-attrs_of : (m : Map String CtyType) → attribute_types (attrs_of m) ≡ m
attribute_types-attrs_of [] = refl
attribute_types-attrs_of ((k, t) ∷ m) = ap (λ r. (k, t) ∷ r) (attribute_types-attrs_of m)

pub tuple_element_types-types_of : (ts : List CtyType) → tuple_element_types (types_of ts) ≡ ts
tuple_element_types-types_of [] = refl
tuple_element_types-types_of (t ∷ ts) = ap (λ r. t ∷ r) (tuple_element_types-types_of ts)

some_inj {ℓ} : {A : Type ℓ} {a b : A} → some a ≡ some b → a ≡ b
some_inj e = ground arith

decoded_inj {ℓ} : {A : Type ℓ} {a b : A} → decoded a ≡ decoded b → a ≡ b
decoded_inj e = ground arith

module _ ⦃n : Normalizer⦄ where
  -- What an entry of a JSON object is read as.
  data ReadsAs : Option Json → Option CtyType → Type 0 where
    nothing : ReadsAs none none
    something : {j : Json} {t : CtyType} → unmarshal j ≡ decoded t → ReadsAs (some j) (some t)

  -- An entry of a JSON object that is read as an attribute's type.
  pub data Describes : Option Json → Option CtyType → Type 0 where
    undescribed : Describes none none
    described :
        {j : Json} {t : CtyType} (u : CtyType)
        → unmarshal j ≡ decoded u
        → SameType u t
        → Describes (some j) (some t)

  unmarshal_fields-lookup :
      (es : Map String Json) (acc : Map String CtyType)
      → Unique es
      → ((k : String) (j : Json) → lookup k es ≡ some j → (u : CtyType) × (unmarshal j ≡ decoded u))
      → Unique acc
      → (m : Map String CtyType) × (unmarshal_fields (fields_of es) acc ≡ decoded m)
        × Unique m
        × ((k : String)
            → (is_some (lookup k es) ≡ true → ReadsAs (lookup k es) (lookup k m))
              × (lookup k es ≡ none → lookup k m ≡ lookup k acc))
  unfolding unmarshal
  unmarshal_fields-lookup [] acc u d v =
      (acc, refl, v, λ k. (λ p. absurd (ground arith), λ p. refl))
  unmarshal_fields-lookup ((i, j) ∷ es) acc u d v =
      let first = d i j (ground (arith, string_eq.test_iff i i)) in
      let (m, read, uniq, look) =
        unmarshal_fields-lookup es (insert i first.0 acc) u.1
          (λ k j' p. d k j' (ground (arith, string_eq.test_iff i k, u.0)))
          (insert-Unique i first.0 acc v) in
      (
        m,
        rw (first.1) read,
        uniq,
        λ k. elim (Bool-cases (i == k)) [
          | inl here ↦
              let same : i ≡ k = (string_eq.test_iff i k).0 here in
              let found : lookup k m ≡ some first.0 =
                (look k).1 (rw (← same) u.0) ∙ ground (arith, lookup-insert i k first.0 acc) in
              (λ p. rw (here, found) (something first.1), λ p. absurd (ground arith))
          | inr away ↦ (
            λ p. rw away ((look k).0 (ground arith)),
            λ p. (look k).1 (ground arith) ∙ ground (arith, lookup-insert i k first.0 acc),
          )
        ],
      )

  pub normalize_into-lookup :
      (m acc : Map String CtyType) (k : String)
      → Unique m
      → ((j : String) → is_some (lookup j m) ≡ true → n.normalize j ≡ j)
      → lookup k (normalize_into m acc)
        ≡ (if is_some (lookup k m) then lookup k m else lookup k acc)
  normalize_into-lookup [] acc k u h = refl
  normalize_into-lookup ((i, t) ∷ m) acc k u h =
      let e : n.normalize i ≡ i = h i (ground (arith, string_eq.test_iff i i)) in
      ap (λ j. lookup k (normalize_into m (insert j t acc))) e
      ∙ normalize_into-lookup m (insert i t acc) k u.1 (λ j p. h j (ground arith))
      ∙ ground (arith, lookup-insert i k t acc, string_eq.test_iff i k, u.0)

  pub optional_set-same :
      (norm : Map String CtyType) (ks : List String)
      → ((j : String) → is_some (lookup j norm) ≡ true → n.normalize j ≡ j)
      → all (λ k. is_some (lookup k norm)) ks ≡ true
      → optional_set norm ks ≡ some ks
  optional_set-same norm [] h b = refl
  optional_set-same norm (k ∷ ks) h b =
      let e : n.normalize k ≡ k = h k (ground arith) in
      let rest : optional_set norm ks ≡ some ks = optional_set-same norm ks h (ground arith) in
      subst
        (λ i.
          elim (lookup i norm) [
            | none ↦ none
            | some t ↦ elim (optional_set norm ks) [ none ↦ none | some set ↦ some (i ∷ set) ]
          ]
          ≡ some (k ∷ ks))
        (sym e) (ground (arith, rest))

  ReadsAs_inv :
      {x : Option Json} {y : Option CtyType} (j : Json)
      → ReadsAs x y
      → x ≡ some j
      → (t : CtyType) × (y ≡ some t) × (unmarshal j ≡ decoded t)
  ReadsAs_inv j nothing e = absurd (ground arith)
  ReadsAs_inv j (something {t = t} p) e = (t, refl, rw (← some_inj e) p)

  Describes-SameField :
      {x : Option Json} {z : Option CtyType} (y : Option CtyType)
      → Describes x z
      → (is_some x ≡ true → ReadsAs x y) × (x ≡ none → y ≡ none)
      → SameField y z
  Describes-SameField y undescribed h = rw (h.1 refl) SameField.absent
  Describes-SameField y (described {j = j} {t = t} u p q) h =
      let (v, e, r) = ReadsAs_inv j (h.0 refl) refl in
      let same : u ≡ v = decoded_inj (sym p ∙ r) in
      rw e (SameField.present (subst (λ w. SameType w t) same q))

  pub Describes-is_some :
      {x : Option Json} {z : Option CtyType} → Describes x z → is_some x ≡ is_some z
  Describes-is_some undescribed = refl
  Describes-is_some (described u p q) = refl

  Describes-reads :
      {x : Option Json} {z : Option CtyType} (j : Json)
      → Describes x z
      → x ≡ some j
      → (u : CtyType) × (unmarshal j ≡ decoded u)
  Describes-reads j undescribed e = absurd (ground arith)
  Describes-reads j (described u p q) e = (u, rw (← some_inj e) p)

  -- The attributes that are read from the sorted entries, after normalisation of their names.
  pub attributes-same :
      (es : Map String Json) (fs : Attrs)
      → Unique es
      → ((k : String) → Describes (lookup k es) (lookup k (attribute_types fs)))
      → ((k : String) → is_some (lookup k (attribute_types fs)) ≡ true → n.normalize k ≡ k)
      → (m : Map String CtyType) × (unmarshal_fields (fields_of es) [] ≡ decoded m)
        × ((k : String)
            → SameField (lookup k (normalize_into m [])) (lookup k (attribute_types fs)))
  attributes-same es fs u d h =
      let (m, read, uniq, look) =
        unmarshal_fields-lookup es [] u (λ k j e. Describes-reads j (d k) e) tt in
      let same : (k : String) → SameField (lookup k m) (lookup k (attribute_types fs)) =
        λ k. Describes-SameField (lookup k m) (d k) (look k) in
      let kept : (k : String) → lookup k (normalize_into m []) ≡ lookup k m = λ k.
        normalize_into-lookup m [] k uniq (λ j p. h j (SameField-is_some (same j) ∙ p))
        ∙ ground arith in
      (m, read, λ k. rw kept (same k))
