-- ===== src/Types/SameType.antt =====
-- What it means for two types to be the same: a specification of `Equals` that does not depend on
-- the order of attributes.
use go_cty.Prelude.{
  ℕ, ◌≡◌, refl, sym, ◌∙◌, Bool, true, false, ◌==◌, if◌then◌else◌, Option, none, some, String, List,
  [], ◌∷◌, is_some, string_eq,
}
use go_cty.Prelude.Maps.{lookup}
use go_cty.Types.{
  CtyType, Kind, pseudo_type_dynamic, primitive_type, type_list, type_set, type_map, type_object,
  type_tuple, capsule_type, Attrs, no_attrs, attr, Types, no_types, type_then, attribute_types,
  tuple_element_types, member,
}

mutual
  pub data SameType : CtyType → CtyType → Type 0 where
    dynamic : SameType pseudo_type_dynamic pseudo_type_dynamic
    primitive : {k j : Kind} → k ≡ j → SameType (primitive_type k) (primitive_type j)
    list : {t u : CtyType} → SameType t u → SameType (type_list t) (type_list u)
    set : {t u : CtyType} → SameType t u → SameType (type_set t) (type_set u)
    map : {t u : CtyType} → SameType t u → SameType (type_map t) (type_map u)
    object :
        {fs gs : Attrs} {opt oopt : List String}
        → ((k : String) → SameField (lookup k (attribute_types fs)) (lookup k (attribute_types gs)))
        → ((k : String)
            → is_some (lookup k (attribute_types fs)) ≡ true
            → member k opt ≡ member k oopt)
        → SameType (type_object fs opt) (type_object gs oopt)
    tuple :
        {ts us : Types}
        → SameElems (tuple_element_types ts) (tuple_element_types us)
        → SameType (type_tuple ts) (type_tuple us)
    capsule : {a b : ℕ} → a ≡ b → SameType (capsule_type a) (capsule_type b)

  pub data SameField : Option CtyType → Option CtyType → Type 0 where
    absent : SameField none none
    present : {t u : CtyType} → SameType t u → SameField (some t) (some u)

  pub data SameElems : List CtyType → List CtyType → Type 0 where
    done : SameElems [] []
    and_then :
        {t u : CtyType} {ts us : List CtyType}
        → SameType t u
        → SameElems ts us
        → SameElems (t ∷ ts) (u ∷ us)

pub SameField-is_some : {o p : Option CtyType} → SameField o p → is_some p ≡ is_some o
SameField-is_some absent = refl
SameField-is_some (present s) = refl

mutual
  pub SameType-symm : {t u : CtyType} → SameType t u → SameType u t
  SameType-symm dynamic = dynamic
  SameType-symm (primitive e) = primitive (sym e)
  SameType-symm (list s) = list (SameType-symm s)
  SameType-symm (set s) = set (SameType-symm s)
  SameType-symm (map s) = map (SameType-symm s)
  SameType-symm (object f o) =
      object (λ k. SameField-symm (f k)) (λ k p. sym (o k (sym (SameField-is_some (f k)) ∙ p)))
  SameType-symm (tuple s) = tuple (SameElems-symm s)
  SameType-symm (capsule e) = capsule (sym e)

  SameField-symm : {o p : Option CtyType} → SameField o p → SameField p o
  SameField-symm absent = absent
  SameField-symm (present s) = present (SameType-symm s)

  SameElems-symm : {ts us : List CtyType} → SameElems ts us → SameElems us ts
  SameElems-symm done = done
  SameElems-symm (and_then s r) = and_then (SameType-symm s) (SameElems-symm r)

mutual
  pub SameType-trans : {t u v : CtyType} → SameType t u → SameType u v → SameType t v
  SameType-trans dynamic dynamic = dynamic
  SameType-trans (primitive e) (primitive d) = primitive (e ∙ d)
  SameType-trans (list s) (list r) = list (SameType-trans s r)
  SameType-trans (set s) (set r) = set (SameType-trans s r)
  SameType-trans (map s) (map r) = map (SameType-trans s r)
  SameType-trans (object f o) (object g p) =
      object (λ k. SameField-trans (f k) (g k)) (λ k q. o k q ∙ p k (SameField-is_some (f k) ∙ q))
  SameType-trans (tuple s) (tuple r) = tuple (SameElems-trans s r)
  SameType-trans (capsule e) (capsule d) = capsule (e ∙ d)

  SameField-trans : {o p q : Option CtyType} → SameField o p → SameField p q → SameField o q
  SameField-trans absent absent = absent
  SameField-trans (present s) (present r) = present (SameType-trans s r)

  SameElems-trans : {ts us vs : List CtyType} → SameElems ts us → SameElems us vs → SameElems ts vs
  SameElems-trans done done = done
  SameElems-trans (and_then s r) (and_then s' r') =
      and_then (SameType-trans s s') (SameElems-trans r r')

if_same :
    (b : Bool) {t : CtyType} {o : Option CtyType}
    → SameType t t
    → SameField o o
    → SameField (if b then some t else o) (if b then some t else o)
if_same true s f = present s
if_same false s f = f

mutual
  pub SameType-refl : (t : CtyType) → SameType t t
  SameType-refl pseudo_type_dynamic = dynamic
  SameType-refl (primitive_type k) = primitive refl
  SameType-refl (type_list t) = list (SameType-refl t)
  SameType-refl (type_set t) = set (SameType-refl t)
  SameType-refl (type_map t) = map (SameType-refl t)
  SameType-refl (type_object fs opt) = object (λ k. SameField-refl fs k) (λ k p. refl)
  SameType-refl (type_tuple ts) = tuple (SameElems-refl ts)
  SameType-refl (capsule_type n) = capsule refl

  SameField-refl :
      (fs : Attrs) (k : String)
      → SameField (lookup k (attribute_types fs)) (lookup k (attribute_types fs))
  SameField-refl no_attrs k = absent
  SameField-refl (attr j t fs) k = if_same (j == k) (SameType-refl t) (SameField-refl fs k)

  SameElems-refl : (ts : Types) → SameElems (tuple_element_types ts) (tuple_element_types ts)
  SameElems-refl no_types = done
  SameElems-refl (type_then t ts) = and_then (SameType-refl t) (SameElems-refl ts)
