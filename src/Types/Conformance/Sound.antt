-- ===== src/Types/Conformance/Sound.antt =====
-- TestConformance where it finds no difference, against the meaning of conformance.
use go_cty.Prelude.{
  ℕ, zero, suc, ◌+◌, ◌≡◌, refl, true, Option, none, some, String, [], ◌∷◌, ◌++◌, arith, is_some,
  length, string_eq, nat_beq_iff, Bool-cases, Bool-ext, inl, inr, ◌==◌,
}
use go_cty.Prelude.Maps.{Map, lookup}
use go_cty.Types.{
  CtyType, pseudo_type_dynamic, type_list, type_set, type_map, type_object, type_tuple, Types,
  no_types, type_then, attribute_types, tuple_element_types,
}
use go_cty.Types.Depth.{WellFormed, WellFormedTypes}
use go_cty.Types.Equality.{equals}
use go_cty.Types.SameType.{SameType}
use go_cty.Types.Soundness.{equals_iff, lookup-WellFormed}
use go_cty.Types.Conformance.{
  TypePath, get_attr_step, index_step, Errors, unsupported, missing, common_attrs, elements,
  diverge, conformance_within,
}
use go_cty.Types.Conformance.Spec.{
  Conforms, ConformsField, ConformsElems, SameType-Conforms, any_type, list, set, map, object,
  tuple, absent, present, done, and_then, append_nil_inv, some_inj,
}

-- What an empty list of errors says about each loop.
unsupported-nil :
    (path : TypePath) (m m' : Map String CtyType) (k : String)
    → unsupported path m m' ≡ []
    → is_some (lookup k m) ≡ true
    → is_some (lookup k m') ≡ true
unsupported-nil path [] m' k h p = absurd (ground arith)
unsupported-nil path ((j, t) ∷ m) m' k h p =
    ground (arith, string_eq.test_iff j k, unsupported-nil path m m' k)

missing-nil :
    (path : TypePath) (m m' : Map String CtyType) (k : String)
    → missing path m m' ≡ []
    → is_some (lookup k m') ≡ true
    → is_some (lookup k m) ≡ true
missing-nil path m [] k h p = absurd (ground arith)
missing-nil path m ((j, t) ∷ m') k h p =
    ground (arith, string_eq.test_iff j k, missing-nil path m m' k)

common_attrs-step :
    (test : CtyType → CtyType → TypePath → Errors) (path : TypePath) (m m' : Map String CtyType)
    (j : String) (w : CtyType) (o : Option CtyType)
    → lookup j m ≡ o
    → common_attrs test path m ((j, w) ∷ m') ≡ []
    → (common_attrs test path m m' ≡ [])
      × ((t : CtyType) → o ≡ some t → test t w (path ++ get_attr_step j ∷ []) ≡ [])
common_attrs-step test path m m' j w none e h =
    (rw (e, common_attrs) at h, λ t p. absurd (ground arith))
common_attrs-step test path m m' j w (some g) e h =
    let both =
      append_nil_inv (test g w (path ++ get_attr_step j ∷ [])) _ (rw (e, common_attrs) at h) in
    (both.1, λ t p. rw (← (some_inj p)) both.0)

common_attrs-nil :
    (test : CtyType → CtyType → TypePath → Errors) (path : TypePath) (m m' : Map String CtyType)
    (k : String) (t u : CtyType)
    → common_attrs test path m m' ≡ []
    → lookup k m ≡ some t
    → lookup k m' ≡ some u
    → test t u (path ++ get_attr_step k ∷ []) ≡ []
common_attrs-nil test path m [] k t u h l l' = absurd (ground arith)
common_attrs-nil test path m ((j, w) ∷ m') k t u h l l' =
    let step = common_attrs-step test path m m' j w (lookup j m) refl h in
    elim (Bool-cases (j == k)) [
      | inl hit ↦
          let e : j ≡ k = (string_eq.test_iff j k).0 hit in
          let f : w ≡ u = some_inj (rw hit at l') in rw (← e, ← f) (step.1 t (rw e l))
      | inr miss ↦ common_attrs-nil test path m m' k t u step.0 l (rw miss at l')
    ]

elements-nil :
    (test : CtyType → CtyType → TypePath → Errors) (path : TypePath) (i : ℕ) (ts us : Types)
    → WellFormedTypes ts
    → WellFormedTypes us
    → length (tuple_element_types ts) ≡ length (tuple_element_types us)
    → ((t u : CtyType) (q : TypePath)
        → WellFormed t
        → WellFormed u
        → test t u q ≡ []
        → Conforms t u)
    → elements test path i (tuple_element_types ts) (tuple_element_types us) ≡ []
    → ConformsElems (tuple_element_types ts) (tuple_element_types us)
elements-nil test path i no_types no_types w v n f h = done
elements-nil test path i no_types (type_then u us) w v n f h = absurd (omega arith)
elements-nil test path i (type_then t ts) no_types w v n f h = absurd (omega arith)
elements-nil test path i (type_then t ts) (type_then u us) w v n f h =
    let both = append_nil_inv (test t u (path ++ index_step i ∷ [])) _ h in
    and_then (f t u (path ++ index_step i ∷ []) w.0 v.0 both.0)
      (elements-nil test path (i + 1) ts us w.1 v.1 (omega arith) f both.1)

pub ConformsField-intro :
    (o p : Option CtyType)
    → is_some o ≡ is_some p
    → ((t u : CtyType) → o ≡ some t → p ≡ some u → Conforms t u)
    → ConformsField o p
ConformsField-intro none none e f = absent
ConformsField-intro (some t) (some u) e f = present (f t u refl refl)
ConformsField-intro none (some u) e f = absurd (ground arith)
ConformsField-intro (some t) none e f = absurd (ground arith)

diverge-nil :
    (test : CtyType → CtyType → TypePath → Errors) (path : TypePath) (t u : CtyType)
    → WellFormed t
    → WellFormed u
    → ((a b : CtyType) (q : TypePath)
        → WellFormed a
        → WellFormed b
        → test a b q ≡ []
        → Conforms a b)
    → diverge test t u path ≡ []
    → Conforms t u
diverge-nil test path (type_list t) (type_list u) w v f h = list (f t u _ w v h)
diverge-nil test path (type_set t) (type_set u) w v f h = set (f t u _ w v h)
diverge-nil test path (type_map t) (type_map u) w v f h = map (f t u _ w v h)
diverge-nil test path (type_tuple ts) (type_tuple us) w v f h = tuple (
    elements-nil test path 0 ts us w v
      (ground
        (arith, nat_beq_iff (length (tuple_element_types ts)) (length (tuple_element_types us))))
      f (ground arith))
diverge-nil test path (type_object fs opt) (type_object gs oopt) w v f h =
    let m = attribute_types fs in
    let m' = attribute_types gs in
    let first = append_nil_inv (unsupported path m m') _ h in
    let rest = append_nil_inv (missing path m m') _ first.1 in
    object λ k.
      ConformsField-intro (lookup k m) (lookup k m')
        (Bool-ext _ _ (unsupported-nil path m m' k first.0) (missing-nil path m m' k rest.0))
        (λ a b la lb.
          f a b _ (lookup-WellFormed fs k a w.1 la) (lookup-WellFormed gs k b v.1 lb)
            (common_attrs-nil test path m m' k a b rest.1 la lb))
diverge-nil test path t u w v f h = ground arith

pub Conforms-dynamic : {t u : CtyType} → SameType u pseudo_type_dynamic → Conforms t u
Conforms-dynamic SameType.dynamic = any_type

pub conformance_within-sound :
    (n : ℕ) (t u : CtyType) (path : TypePath)
    → WellFormed t
    → WellFormed u
    → conformance_within n t u path ≡ []
    → Conforms t u
unfolding conformance_within
conformance_within-sound zero t u path w v h = absurd (ground arith)
conformance_within-sound (suc n) t u path w v h = elim (Bool-cases (equals u pseudo_type_dynamic)) [
  | inl e ↦ Conforms-dynamic ((equals_iff u pseudo_type_dynamic v tt).0 e)
  | inr ne ↦ elim (Bool-cases (equals t u)) [
    | inl same ↦ SameType-Conforms ((equals_iff t u w v).0 same)
    | inr differ ↦
        diverge-nil (conformance_within n) path t u w v (conformance_within-sound n)
          (rw (ne, differ) at h)
  ]
]
