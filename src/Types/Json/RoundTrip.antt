-- ===== src/Types/Json/RoundTrip.antt =====
-- A type that is written as JSON and read again.
use go_cty.Prelude.{
  ◌≡◌, refl, sym, ap, ◌∙◌, Bool, true, Option, none, some, String, List, [], ◌∷◌, all, is_some,
  string_eq, ◌==◌, Bool-cases, inl, inr, arith,
}
use go_cty.Prelude.Maps.{Map, lookup, Unique}
use go_cty.Prelude.Sorting.{sort_by}
use go_cty.Prelude.Sorting.Keys.{lookup-sort_by, all-sort_by}
use go_cty.Types.{
  CtyType, Kind, pseudo_type_dynamic, primitive_type, type_list, type_set, type_map, type_object,
  type_tuple, capsule_type, Attrs, no_attrs, attr, Types, no_types, type_then, attribute_types,
  tuple_element_types, attrs_of, types_of, member,
}
use go_cty.Types.Depth.{WellFormed, WellFormedAttrs, WellFormedTypes}
use go_cty.Types.Shape.{Normalizer, normalize_into, object, object_with_optional_attrs}
use go_cty.Types.Optional.{Normal, NormalAttrs, NormalTypes}
use go_cty.Types.SameType.{SameType, SameField, SameElems, SameField-is_some}
use go_cty.Types.Json.{
  Json, JsonItems, json_string, json_array, json_object, no_items, item_then, fields_of, strings_of,
  string_less, key_less, pair, marshal, marshal_attrs, marshal_elems, Decoded, decoded, panicked,
  ◌>>=◌, decode_object, closed, unmarshal, unmarshal_items,
}
use go_cty.Types.Json.Reading.{
  is_serializable, attrs_are_serializable, elems_are_serializable, member-sort_by,
  decode_strings-strings_of, attribute_types-attrs_of, tuple_element_types-types_of,
  optional_set-same, Describes, undescribed, described, Describes-is_some, attributes-same,
}

all_agree {ℓ} :
    {A : Type ℓ} (f g : A → Bool) (xs : List A) → ((x : A) → f x ≡ g x) → all f xs ≡ all g xs
all_agree f g [] h = refl
all_agree f g (x ∷ xs) h = ground (arith, h x, all_agree f g xs h)

module _ ⦃n : Normalizer⦄ where
  NormalAttrs-normal :
      (fs : Attrs) (k : String)
      → NormalAttrs fs
      → is_some (lookup k (attribute_types fs)) ≡ true
      → n.normalize k ≡ k
  NormalAttrs-normal no_attrs k h p = absurd (ground arith)
  NormalAttrs-normal (attr j t fs) k h p = elim (Bool-cases (j == k)) [
    | inl here ↦ rw (← (string_eq.test_iff j k).0 here) h.0
    | inr away ↦ NormalAttrs-normal fs k h.2 (ground arith)
  ]

  -- The type that an object is read as, from its attributes and its optional attributes.
  read_object :
      (fs : Attrs) (opt : List String) (m : Map String CtyType)
      → ((k : String) → SameField (lookup k (normalize_into m [])) (lookup k (attribute_types fs)))
      → ((k : String) → is_some (lookup k (attribute_types fs)) ≡ true → n.normalize k ≡ k)
      → all (λ k. is_some (lookup k (attribute_types fs))) opt ≡ true
      → (ss : List String) → ((k : String) → member k ss ≡ member k opt)
      → all (λ k. is_some (lookup k (attribute_types fs))) ss ≡ true
      → (object_with_optional_attrs m ss ≡ some (type_object (attrs_of (normalize_into m [])) ss))
        × SameType (type_object (attrs_of (normalize_into m [])) ss) (type_object fs opt)
  unfolding object_with_optional_attrs
  read_object fs opt m same h p ss e q =
      let norm = normalize_into m [] in
      (
        rw
            (
              object_with_optional_attrs,
              optional_set-same norm ss (λ k x. h k (SameField-is_some (same k) ∙ x))
                  (all_agree _ _ ss (λ k. sym (SameField-is_some (same k))) ∙ q),
            )
            refl,
        SameType.object (λ k. rw (attribute_types-attrs_of norm) (same k)) (λ k x. e k),
      )

  decode_object-optionals :
      (m : Map String CtyType) (ss : List String) (u : CtyType)
      → object_with_optional_attrs m ss ≡ some u
      → decode_object m (item_then (json_array (strings_of ss)) no_items) ≡ decoded u
  unfolding decode_object
  decode_object-optionals m ss u e =
      ap
        (λ x. x >>= λ optionals. elim (object_with_optional_attrs m optionals) [
          | none ↦ panicked
          | some t ↦ closed no_items t
        ])
        (decode_strings-strings_of ss)
      ∙ ap
          (λ (x : Option CtyType). elim x as (λ _. Decoded CtyType) [
            | none ↦ panicked
            | some t ↦ closed no_items t
          ])
          e

  mutual
    unfolding marshal unmarshal sort_by decode_object object

    read_back :
        (t : CtyType)
        → is_serializable t ≡ true
        → WellFormed t
        → Normal t
        → (j : Json) × (u : CtyType) × (marshal t ≡ some j)
          × (unmarshal j ≡ decoded u)
          × SameType u t
    read_back pseudo_type_dynamic s w h =
        (json_string "dynamic", pseudo_type_dynamic, refl, refl, SameType.dynamic)
    read_back (primitive_type Kind.bool) s w h =
        (json_string "bool", primitive_type Kind.bool, refl, refl, SameType.primitive refl)
    read_back (primitive_type Kind.number) s w h =
        (json_string "number", primitive_type Kind.number, refl, refl, SameType.primitive refl)
    read_back (primitive_type Kind.string) s w h =
        (json_string "string", primitive_type Kind.string, refl, refl, SameType.primitive refl)
    read_back (type_list t) s w h =
        let (j, u, p, q, r) = read_back t s w h in
        (pair "list" j, type_list u, rw p refl, rw q refl, SameType.list r)
    read_back (type_set t) s w h =
        let (j, u, p, q, r) = read_back t s w h in
        (pair "set" j, type_set u, rw p refl, rw q refl, SameType.set r)
    read_back (type_map t) s w h =
        let (j, u, p, q, r) = read_back t s w h in
        (pair "map" j, type_map u, rw p refl, rw q refl, SameType.map r)
    read_back (type_tuple ts) s w h =
        let (js, us, p, q, r) = read_elems ts s w h in
        (
          pair "tuple" (json_array js),
          type_tuple (types_of us),
          rw p refl,
          rw q refl,
          SameType.tuple (rw (tuple_element_types-types_of us) r),
        )
    read_back (type_object fs opt) s w h =
        let (m, e, uniq, d) = read_attrs fs (ground arith) w.1 h w.0 in
        let es = sort_by key_less m in
        let order : (k : String) → (lookup k es ≡ lookup k m) × Unique es =
          λ k. lookup-sort_by key_less m k uniq in
        let normal = λ (k : String). NormalAttrs-normal fs k h in
        let (r, read, same) =
          attributes-same es fs (order "").1 (λ k. rw ((order k).0) (d k)) normal in
        elim opt
            as (λ opt.
              all (λ k. is_some (lookup k (attribute_types fs))) opt ≡ true
              → (j : Json) × (u : CtyType) × (marshal (type_object fs opt) ≡ some j)
                × (unmarshal j ≡ decoded u)
                × SameType u (type_object fs opt)) [
                  | [] ↦ λ p. (
                    pair "object" (json_object (fields_of es)),
                    object r,
                    rw e refl,
                    rw read refl,
                    (read_object fs [] r same normal p [] (λ k. refl) refl).1,
                  )
                  | a ∷ ks ↦ λ p.
                      let ss = sort_by string_less (a ∷ ks) in
                      let back =
                        read_object fs (a ∷ ks) r same normal p ss (λ k. member-sort_by k (a ∷ ks))
                          (all-sort_by string_less (λ k. is_some (lookup k (attribute_types fs)))
                              (a ∷ ks)
                            ∙ p) in
                      (
                        json_array (
                            item_then (json_string "object") (
                              item_then (json_object (fields_of es))
                                (item_then (json_array (strings_of ss)) no_items))),
                        type_object (attrs_of (normalize_into r [])) ss,
                        rw e refl,
                        rw read (decode_object-optionals r ss _ back.0),
                        back.1,
                      )
                ]
          (ground arith)
    read_back (capsule_type a) s w h = absurd (ground arith)

    read_attrs :
        (fs : Attrs)
        → attrs_are_serializable fs ≡ true
        → WellFormedAttrs fs
        → NormalAttrs fs
        → Unique (attribute_types fs)
        → (m : Map String Json) × (marshal_attrs fs ≡ some m)
          × Unique m
          × ((k : String) → Describes (lookup k m) (lookup k (attribute_types fs)))
    read_attrs no_attrs s w h u = ([], refl, tt, λ k. undescribed)
    read_attrs (attr i t fs) s w h u =
        let (j, v, p, q, r) = read_back t (ground arith) w.0 h.1 in
        let (m, e, uniq, d) = read_attrs fs (ground arith) w.1 h.2 u.1 in
        (
          (i, j) ∷ m,
          rw (p, e) refl,
          (ground (arith, Describes-is_some (d i), u.0), uniq),
          λ k. elim (Bool-cases (i == k)) [
            | inl here ↦ rw here (described v q r)
            | inr away ↦ rw away (d k)
          ],
        )

    read_elems :
        (ts : Types)
        → elems_are_serializable ts ≡ true
        → WellFormedTypes ts
        → NormalTypes ts
        → (js : JsonItems) × (us : List CtyType) × (marshal_elems ts ≡ some js)
          × (unmarshal_items js ≡ decoded us)
          × SameElems us (tuple_element_types ts)
    read_elems no_types s w h = (no_items, [], refl, refl, SameElems.done)
    read_elems (type_then t ts) s w h =
        let (j, u, p, q, r) = read_back t (ground arith) w.0 h.0 in
        let (js, us, e, f, g) = read_elems ts (ground arith) w.1 h.1 in
        (item_then j js, u ∷ us, rw (p, e) refl, rw (q, f) refl, SameElems.and_then r g)

  -- A type without capsules, whose attribute names are unique and normal and whose optional
  -- attributes are attributes, is written as JSON without an error, and what was written is read
  -- as the same type, up to the order of attributes.
  pub unmarshal-marshal :
      (t : CtyType)
      → is_serializable t ≡ true
      → WellFormed t
      → Normal t
      → (j : Json) × (u : CtyType) × (marshal t ≡ some j) × (unmarshal j ≡ decoded u) × SameType u t
  unmarshal-marshal t s w h = read_back t s w h
