-- ===== src/Types/Conformance/Complete.antt =====
-- TestConformance of types that conform, and the two directions together.
use go_cty.Prelude.{
  ℕ, zero, suc, ◌+◌, ◌≤◌, ◌≡◌, refl, sym, ap, ◌∙◌, ◌↔◌, ◌⊎◌, ◌≢◌, true, false, Option, none, some,
  String, List, [], ◌∷◌, ◌++◌, max, arith, is_some, length, string_eq, Bool-cases, inl, inr,
}
use mathlib.Core.Path.{subst, subst₂}
use native.Mathlib.Nat.{le_trans}
use go_cty.Prelude.Maps.{Map, lookup, Unique}
use go_cty.Types.{
  CtyType, pseudo_type_dynamic, primitive_type, capsule_type, Types, no_types, type_then,
  attribute_types, tuple_element_types,
}
use go_cty.Types.Depth.{depth, depth_types, depth-lookup, depth_pos, WellFormed, WellFormedTypes}
use go_cty.Types.Equality.{equals}
use go_cty.Types.SameType.{SameType}
use go_cty.Types.Soundness.{equals_iff, lookup-WellFormed}
use go_cty.Types.Conformance.{
  TypePath, get_attr_step, index_step, Errors, unsupported, missing, common_attrs, elements,
  diverge, conformance_within, test_conformance,
}
use go_cty.Types.Conformance.Spec.{
  Conforms, ConformsField, ConformsElems, any_type, primitive, capsule, list, set, map, object,
  tuple, absent, present, done, and_then, some_inj,
}
use go_cty.Types.Conformance.Sound.{conformance_within-sound}

-- Conversely, a type that conforms raises no error within a bound of both depths.
common_attrs-cons :
    (test : CtyType → CtyType → TypePath → Errors) (path : TypePath) (m m' : Map String CtyType)
    (j : String) (w : CtyType) (o : Option CtyType)
    → lookup j m ≡ o
    → common_attrs test path m m' ≡ []
    → ((t : CtyType) → lookup j m ≡ some t → test t w (path ++ get_attr_step j ∷ []) ≡ [])
    → common_attrs test path m ((j, w) ∷ m') ≡ []
common_attrs-cons test path m m' j w none e h f = rw (e, common_attrs) h
common_attrs-cons test path m m' j w (some t) e h f = rw (e, common_attrs, f t e) h

common_attrs-Conforms :
    (n : ℕ) (test : CtyType → CtyType → TypePath → Errors) (path : TypePath)
    (m m' : Map String CtyType)
    → ((k : String) (t u : CtyType)
        → lookup k m ≡ some t
        → lookup k m' ≡ some u
        → (q : TypePath) → test t u q ≡ [])
    → Unique m'
    → common_attrs test path m m' ≡ []
common_attrs-Conforms n test path m [] f u = refl
common_attrs-Conforms n test path m ((j, w) ∷ m') f u =
    common_attrs-cons test path m m' j w (lookup j m) refl
      (common_attrs-Conforms n test path m m'
        (λ k t v l l' q. f k t v l (ground (arith, string_eq.test_iff j k)) q) u.1)
      (λ t e. f j t w e (ground (arith, string_eq.test_iff j j)) (path ++ get_attr_step j ∷ []))

unsupported-Conforms :
    (path : TypePath) (m m' : Map String CtyType)
    → ((k : String) → is_some (lookup k m) ≡ true → is_some (lookup k m') ≡ true)
    → unsupported path m m' ≡ []
unsupported-Conforms path [] m' f = refl
unsupported-Conforms path ((j, t) ∷ m) m' f =
    ground (
      arith,
      string_eq.test_iff j j,
      f j,
      unsupported-Conforms path m m' (λ k p. f k (ground arith)),
    )

missing-Conforms :
    (path : TypePath) (m m' : Map String CtyType)
    → ((k : String) → is_some (lookup k m') ≡ true → is_some (lookup k m) ≡ true)
    → missing path m m' ≡ []
missing-Conforms path m [] f = refl
missing-Conforms path m ((j, t) ∷ m') f =
    ground
      (arith, string_eq.test_iff j j, f j, missing-Conforms path m m' (λ k p. f k (ground arith)))

ConformsField-is_some : {o p : Option CtyType} → ConformsField o p → is_some o ≡ is_some p
ConformsField-is_some absent = refl
ConformsField-is_some (present c) = refl

ConformsField-pair :
    {o p : Option CtyType} (t u : CtyType)
    → ConformsField o p
    → o ≡ some t
    → p ≡ some u
    → Conforms t u
ConformsField-pair t u absent e d = absurd (ground arith)
ConformsField-pair t u (present c) e d = subst₂ Conforms (some_inj e) (some_inj d) c

ConformsElems-length : {ts us : List CtyType} → ConformsElems ts us → length ts ≡ length us
ConformsElems-length done = refl
ConformsElems-length (and_then c r) = ap suc (ConformsElems-length r)

elems_head : {t u : CtyType} {ts us : List CtyType} → ConformsElems (t ∷ ts) (u ∷ us) → Conforms t u
elems_head (and_then c r) = c

elems_tail :
    {t u : CtyType} {ts us : List CtyType} → ConformsElems (t ∷ ts) (u ∷ us) → ConformsElems ts us
elems_tail (and_then c r) = r

dynamic_ne :
    {u : CtyType} → WellFormed u → equals u pseudo_type_dynamic ≡ false → u ≢ pseudo_type_dynamic
dynamic_ne {u} w h e = cc (
  h,
  (equals_iff u pseudo_type_dynamic w tt).1
      (subst (λ t. SameType t pseudo_type_dynamic) (sym e) SameType.dynamic),
)

-- The recursive call finds no error in a conforming pair whose depths are within the bound.
abbrev Accepts : ℕ → (CtyType → CtyType → TypePath → Errors) → Type 0
Accepts n test =
    (t u : CtyType) (q : TypePath)
    → Conforms t u
    → depth t ≤ n
    → depth u ≤ n
    → WellFormed t
    → WellFormed u
    → test t u q ≡ []

elements-Conforms :
    (n : ℕ) (test : CtyType → CtyType → TypePath → Errors) (path : TypePath) (i : ℕ) (ts us : Types)
    → ConformsElems (tuple_element_types ts) (tuple_element_types us)
    → depth_types ts ≤ n
    → depth_types us ≤ n
    → WellFormedTypes ts
    → WellFormedTypes us
    → Accepts n test
    → elements test path i (tuple_element_types ts) (tuple_element_types us) ≡ []
unfolding depth
elements-Conforms n test path i no_types us c d e w v f = refl
elements-Conforms n test path i (type_then t ts) no_types c d e w v f = refl
elements-Conforms n test path i (type_then t ts) (type_then u us) c d e w v f =
    rw (f t u (path ++ index_step i ∷ []) (elems_head c) (omega arith) (omega arith) w.0 v.0) (
      elements-Conforms n test path (i + 1) ts us (elems_tail c) (omega arith) (omega arith) w.1 v.1
        f)

diverge-Conforms :
    (n : ℕ) (test : CtyType → CtyType → TypePath → Errors) (path : TypePath) {t u : CtyType}
    → Conforms t u
    → u ≢ pseudo_type_dynamic
    → depth t ≤ suc n
    → depth u ≤ suc n
    → WellFormed t
    → WellFormed u
    → Accepts n test
    → (equals t u ≡ true) ⊎ (diverge test t u path ≡ [])
unfolding depth
diverge-Conforms n test path any_type ne d e w v f = absurd (ne refl)
diverge-Conforms n test path (primitive {k}) ne d e w v f =
    inl ((equals_iff (primitive_type k) (primitive_type k) tt tt).1 (SameType.primitive refl))
diverge-Conforms n test path (capsule {a}) ne d e w v f =
    inl ((equals_iff (capsule_type a) (capsule_type a) tt tt).1 (SameType.capsule refl))
diverge-Conforms n test path (list {t} {u} c) ne d e w v f =
    inr (f t u _ c (omega arith) (omega arith) w v)
diverge-Conforms n test path (set {t} {u} c) ne d e w v f =
    inr (f t u _ c (omega arith) (omega arith) w v)
diverge-Conforms n test path (map {t} {u} c) ne d e w v f =
    inr (f t u _ c (omega arith) (omega arith) w v)
diverge-Conforms n test path (tuple {ts} {us} c) ne d e w v f = inr (
    ground (
      arith,
      ConformsElems-length c,
      elements-Conforms n test path 0 ts us c (omega arith) (omega arith) w v f,
    ))
diverge-Conforms n test path (object {fs} {gs} c) ne d e w v f =
    let m = attribute_types fs in
    let m' = attribute_types gs in
    inr (
      rw (
        unsupported-Conforms path m m' (λ k p. sym (ConformsField-is_some (c k)) ∙ p),
        missing-Conforms path m m' (λ k p. ConformsField-is_some (c k) ∙ p),
        common_attrs-Conforms n test path m m'
            (λ k t u l l' q.
              f t u q (ConformsField-pair t u (c k) l l')
                (le_trans (depth-lookup fs k t l) (omega arith))
                (le_trans (depth-lookup gs k u l') (omega arith)) (lookup-WellFormed fs k t w.1 l)
                (lookup-WellFormed gs k u v.1 l'))
            v.0,
      ))

conformance_within_complete : (n : ℕ) → Accepts n (conformance_within n)
unfolding conformance_within
conformance_within_complete zero t u q c d e w v = absurd (omega (arith, depth_pos t))
conformance_within_complete (suc n) t u q c d e w v =
    elim (Bool-cases (equals u pseudo_type_dynamic)) [
      | inl dyn ↦ rw dyn refl
      | inr ne ↦
          elim (diverge-Conforms n (conformance_within n) q c (dynamic_ne v ne) d e w v
            (conformance_within_complete n)) [
              | inl same ↦ rw (ne, same) refl
              | inr none_left ↦ ground arith
            ]
    ]

-- For types whose objects name each attribute once, TestConformance returns no error exactly if
-- the given type is the other one up to two exceptions: the dynamic pseudo-type stands for any type
-- where it stands in the other type, and which attributes are optional makes no difference in
-- either type, although the comment of TestConformance names the first exception only.
pub test_conformance_iff :
    (t u : CtyType) → WellFormed t → WellFormed u → (test_conformance t u ≡ []) ↔ Conforms t u
unfolding test_conformance
test_conformance_iff t u w v = (
  conformance_within-sound (max (depth t) (depth u)) t u [] w v,
  λ c.
      conformance_within_complete (max (depth t) (depth u)) t u [] c (omega arith) (omega arith) w
        v,
)
