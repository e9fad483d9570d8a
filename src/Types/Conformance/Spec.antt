-- ===== src/Types/Conformance/Spec.antt =====
-- What it means that a type conforms to another, apart from the code of TestConformance.
use go_cty.Prelude.{ℕ, ◌≡◌, refl, Option, none, some, String, List, [], ◌∷◌, ◌++◌, arith, string_eq}
use mathlib.Core.Path.{subst}
use go_cty.Prelude.Maps.{lookup}
use go_cty.Types.{
  CtyType, Kind, pseudo_type_dynamic, primitive_type, type_list, type_set, type_map, type_object,
  type_tuple, capsule_type, Attrs, Types, attribute_types, tuple_element_types,
}
use go_cty.Types.SameType
use go_cty.Types.SameType.{SameType, SameField, SameElems}

-- The dynamic pseudo-type may stand in the wanted type for any type. Which attributes are optional
-- does not matter, in either type.
mutual
  pub data Conforms : CtyType → CtyType → Type 0 where
    any_type : {t : CtyType} → Conforms t pseudo_type_dynamic
    primitive : {k : Kind} → Conforms (primitive_type k) (primitive_type k)
    capsule : {a : ℕ} → Conforms (capsule_type a) (capsule_type a)
    list : {t u : CtyType} → Conforms t u → Conforms (type_list t) (type_list u)
    set : {t u : CtyType} → Conforms t u → Conforms (type_set t) (type_set u)
    map : {t u : CtyType} → Conforms t u → Conforms (type_map t) (type_map u)
    object :
        {fs gs : Attrs} {opt oopt : List String}
        → ((k : String)
            → ConformsField (lookup k (attribute_types fs)) (lookup k (attribute_types gs)))
        → Conforms (type_object fs opt) (type_object gs oopt)
    tuple :
        {ts us : Types}
        → ConformsElems (tuple_element_types ts) (tuple_element_types us)
        → Conforms (type_tuple ts) (type_tuple us)

  pub data ConformsField : Option CtyType → Option CtyType → Type 0 where
    absent : ConformsField none none
    present : {t u : CtyType} → Conforms t u → ConformsField (some t) (some u)

  pub data ConformsElems : List CtyType → List CtyType → Type 0 where
    done : ConformsElems [] []
    and_then :
        {t u : CtyType} {ts us : List CtyType}
        → Conforms t u
        → ConformsElems ts us
        → ConformsElems (t ∷ ts) (u ∷ us)

mutual
  pub SameType-Conforms : {t u : CtyType} → SameType t u → Conforms t u
  SameType-Conforms SameType.dynamic = any_type
  SameType-Conforms (SameType.primitive {k} e) =
      subst (λ j. Conforms (primitive_type k) (primitive_type j)) e primitive
  SameType-Conforms (SameType.capsule {a} e) =
      subst (λ b. Conforms (capsule_type a) (capsule_type b)) e capsule
  SameType-Conforms (SameType.list s) = list (SameType-Conforms s)
  SameType-Conforms (SameType.set s) = set (SameType-Conforms s)
  SameType-Conforms (SameType.map s) = map (SameType-Conforms s)
  SameType-Conforms (SameType.object f o) = object (λ k. SameField-Conforms (f k))
  SameType-Conforms (SameType.tuple s) = tuple (SameElems-Conforms s)

  SameField-Conforms : {o p : Option CtyType} → SameField o p → ConformsField o p
  SameField-Conforms SameType.absent = absent
  SameField-Conforms (SameType.present s) = present (SameType-Conforms s)

  SameElems-Conforms : {ts us : List CtyType} → SameElems ts us → ConformsElems ts us
  SameElems-Conforms SameType.done = done
  SameElems-Conforms (SameType.and_then s r) = and_then (SameType-Conforms s) (SameElems-Conforms r)

pub append_nil_inv {ℓ} : {A : Type ℓ} (xs ys : List A) → xs ++ ys ≡ [] → (xs ≡ []) × (ys ≡ [])
append_nil_inv [] ys h = (refl, h)
append_nil_inv (x ∷ xs) ys h = absurd (ground arith)

pub some_inj {ℓ} : {A : Type ℓ} {a b : A} → some a ≡ some b → a ≡ b
some_inj h = ground arith
