-- ===== src/Types/Soundness.antt =====
-- `Equals` against `SameType`.
use go_cty.Prelude.{
  ℕ, zero, suc, ◌≤◌, ◌≡◌, refl, sym, ◌∙◌, ◌↔◌, Bool, true, Option, none, some, String, List, [],
  ◌∷◌, max, arith, is_some, length, string_eq, nat_beq_iff, Bool-cases, Bool-ext, inl, inr, ◌==◌,
}
use mathlib.Core.Path.{subst, subst₂, ap}
use native.Mathlib.Nat.{le_trans}
use go_cty.Prelude.Maps.{Map, lookup, Unique, covers_symm, same_keys-length}
use go_cty.Types.{
  CtyType, Kind, bool, number, string, kind_beq, pseudo_type_dynamic, primitive_type, type_list,
  type_set, type_map, type_object, type_tuple, capsule_type, Attrs, no_attrs, attr, Types, no_types,
  type_then, attribute_types, tuple_element_types, member,
}
use go_cty.Types.Depth.{
  depth, depth_types, depth-lookup, depth_pos, WellFormed, WellFormedAttrs, WellFormedTypes,
}
use go_cty.Types.Equality.{attrs_equal, elems_equal, equals_within, equals}
use go_cty.Types.SameType
use go_cty.Types.SameType.{
  SameType, SameField, SameElems, SameType-symm, SameType-trans, SameType-refl, SameField-is_some,
}

kind_beq_sound : (k j : Kind) → kind_beq j k ≡ true → k ≡ j
kind_beq_sound bool j h = ground arith
kind_beq_sound number j h = ground arith
kind_beq_sound string j h = ground arith

kind_beq_refl : (k : Kind) → kind_beq k k ≡ true
kind_beq_refl bool = refl
kind_beq_refl _ = refl

pub lookup-WellFormed :
    (fs : Attrs) (k : String) (t : CtyType)
    → WellFormedAttrs fs
    → lookup k (attribute_types fs) ≡ some t
    → WellFormed t
lookup-WellFormed no_attrs k t w h = cc
lookup-WellFormed (attr j u fs) k t w h = elim (Bool-cases (j == k)) [
  | inl hit ↦ let e : u ≡ t = ground arith in subst WellFormed e w.0
  | inr miss ↦ lookup-WellFormed fs k t w.1 (rw miss at h)
]

-- What the loop of typeObject.Equals establishes for each attribute of the receiver.
module _ (eq : CtyType → CtyType → Bool) (opt oopt : List String) where
  attrs_equal-present :
      (m ot : Map String CtyType) (k : String)
      → attrs_equal eq opt oopt m ot ≡ true
      → is_some (lookup k m) ≡ true
      → (is_some (lookup k ot) ≡ true) × (member k opt ≡ member k oopt)
  attrs_equal-present [] ot k h l = absurd (ground arith)
  attrs_equal-present ((j, ty) ∷ m) ot k h l =
      ground (arith, string_eq.test_iff j k, attrs_equal-present m ot k)

  attrs_equal-pair :
      (m ot : Map String CtyType) (k : String) (t u : CtyType)
      → attrs_equal eq opt oopt m ot ≡ true
      → lookup k m ≡ some t
      → lookup k ot ≡ some u
      → eq u t ≡ true
  attrs_equal-pair [] ot k t u h l lo = absurd (ground arith)
  attrs_equal-pair ((j, ty) ∷ m) ot k t u h l lo =
      ground (arith, string_eq.test_iff j k, attrs_equal-pair m ot k t u)

  attrs_equal-step :
      (m ot : Map String CtyType) (j : String) (ty : CtyType) (o : Option CtyType)
      → lookup j ot ≡ o
      → is_some (lookup j ot) ≡ true
      → ((u : CtyType) → lookup j ot ≡ some u → eq u ty ≡ true)
      → member j opt ≡ member j oopt
      → attrs_equal eq opt oopt m ot ≡ true
      → attrs_equal eq opt oopt ((j, ty) ∷ m) ot ≡ true
  attrs_equal-step m ot j ty none e p f q h = ground arith
  attrs_equal-step m ot j ty (some u) e p f q h = ground (arith, f u e)

  -- The loop passes if it can pass for each attribute.
  attrs_equal-build :
      (m ot : Map String CtyType)
      → Unique m
      → ((k : String) → is_some (lookup k m) ≡ true → is_some (lookup k ot) ≡ true)
      → ((k : String) → is_some (lookup k m) ≡ true → member k opt ≡ member k oopt)
      → ((k : String) (t u : CtyType) → lookup k m ≡ some t → lookup k ot ≡ some u → eq u t ≡ true)
      → attrs_equal eq opt oopt m ot ≡ true
  attrs_equal-build [] ot w cover opts same = refl
  attrs_equal-build ((j, ty) ∷ m) ot w cover opts same =
      attrs_equal-step m ot j ty (lookup j ot) refl
        (cover j (ground (arith, string_eq.test_iff j j)))
        (λ u e. same j ty u (ground (arith, string_eq.test_iff j j)) e)
        (opts j (ground (arith, string_eq.test_iff j j)))
        (attrs_equal-build m ot w.1 (λ k p. cover k (ground arith)) (λ k p. opts k (ground arith))
          (λ k t u l lo. same k t u (ground (arith, string_eq.test_iff j k)) lo))

SameField-intro :
    (o p : Option CtyType)
    → is_some o ≡ is_some p
    → ((t u : CtyType) → o ≡ some t → p ≡ some u → SameType t u)
    → SameField o p
SameField-intro none none e f = SameType.absent
SameField-intro (some t) (some u) e f = SameType.present (f t u refl refl)
SameField-intro none (some u) e f = absurd (ground arith)
SameField-intro (some t) none e f = absurd (ground arith)

elems_equal-sound :
    (eq : CtyType → CtyType → Bool) (ts us : Types)
    → WellFormedTypes ts
    → WellFormedTypes us
    → ((t u : CtyType) → WellFormed t → WellFormed u → eq u t ≡ true → SameType t u)
    → elems_equal eq (tuple_element_types ts) (tuple_element_types us) ≡ true
    → SameElems (tuple_element_types ts) (tuple_element_types us)
elems_equal-sound eq no_types no_types w v f h = SameType.done
elems_equal-sound eq (type_then t ts) (type_then u us) w v f h =
    SameType.and_then (f t u w.0 v.0 (ground arith))
      (elems_equal-sound eq ts us w.1 v.1 f (ground arith))
elems_equal-sound eq no_types (type_then u us) w v f h = absurd (ground arith)
elems_equal-sound eq (type_then t ts) no_types w v f h = absurd (ground arith)

-- What Equals accepts is the same type.
equals_within-sound :
    (n : ℕ) (t u : CtyType)
    → WellFormed t
    → WellFormed u
    → equals_within n t u ≡ true
    → SameType t u
unfolding equals_within
equals_within-sound zero t u w v h = absurd (ground arith)
equals_within-sound (suc n) pseudo_type_dynamic pseudo_type_dynamic w v h = SameType.dynamic
equals_within-sound (suc n) (primitive_type k) (primitive_type j) w v h =
    SameType.primitive (kind_beq_sound k j h)
equals_within-sound (suc n) (type_list t) (type_list u) w v h =
    SameType.list (equals_within-sound n t u w v h)
equals_within-sound (suc n) (type_set t) (type_set u) w v h =
    SameType.set (equals_within-sound n t u w v h)
equals_within-sound (suc n) (type_map t) (type_map u) w v h =
    SameType.map (equals_within-sound n t u w v h)
equals_within-sound (suc n) (capsule_type a) (capsule_type b) w v h =
    SameType.capsule (sym ((nat_beq_iff b a).0 h))
equals_within-sound (suc n) (type_tuple ts) (type_tuple us) w v h = SameType.tuple (
    elems_equal-sound (equals_within n) ts us w v
      (λ a b wa wb e. SameType-symm (equals_within-sound n b a wb wa e)) (ground arith))
equals_within-sound (suc n) (type_object fs opt) (type_object gs oopt) w v h =
    let m = attribute_types fs in
    let m' = attribute_types gs in
    let loop : attrs_equal (equals_within n) opt oopt m m' ≡ true = ground arith in
    let present = attrs_equal-present (equals_within n) opt oopt m m' in
    SameType.object
      (λ k.
        SameField-intro (lookup k m) (lookup k m')
          (Bool-ext _ _ (λ p. (present k loop p).0)
            (covers_symm m m' w.0 v.0 (ground (arith, nat_beq_iff (length m) (length m')))
              (λ j p. (present j loop p).0) k))
          (λ a b la lb. SameType-symm (
            equals_within-sound n b a (lookup-WellFormed gs k b v.1 lb)
              (lookup-WellFormed fs k a w.1 la)
              (attrs_equal-pair (equals_within n) opt oopt m m' k a b loop la lb))))
      (λ k p. (present k loop p).1)
equals_within-sound (suc n) t u w v h = cc

SameField-pair :
    {o p : Option CtyType} (t u : CtyType) → SameField o p → o ≡ some t → p ≡ some u → SameType t u
SameField-pair t u SameType.absent e d = cc
SameField-pair t u (SameType.present {t = a} {u = b} s) e d =
    let ea : a ≡ t = ground arith in let eb : b ≡ u = ground arith in subst₂ SameType ea eb s

SameElems-length : {ts us : List CtyType} → SameElems ts us → length ts ≡ length us
SameElems-length SameType.done = refl
SameElems-length (SameType.and_then s r) = ap suc (SameElems-length r)

SameElems-head : {t u : CtyType} {ts us : List CtyType} → SameElems (t ∷ ts) (u ∷ us) → SameType t u
SameElems-head (SameType.and_then s r) = s

SameElems-tail :
    {t u : CtyType} {ts us : List CtyType} → SameElems (t ∷ ts) (u ∷ us) → SameElems ts us
SameElems-tail (SameType.and_then s r) = r

elems_equal_complete :
    (eq : CtyType → CtyType → Bool) (n : ℕ) (ts us : Types)
    → SameElems (tuple_element_types ts) (tuple_element_types us)
    → depth_types ts ≤ n
    → depth_types us ≤ n
    → WellFormedTypes ts
    → WellFormedTypes us
    → ((t u : CtyType)
        → SameType t u
        → depth t ≤ n
        → depth u ≤ n
        → WellFormed t
        → WellFormed u
        → eq u t ≡ true)
    → elems_equal eq (tuple_element_types ts) (tuple_element_types us) ≡ true
unfolding depth
elems_equal_complete eq n no_types no_types s d e w v f = refl
elems_equal_complete eq n no_types (type_then u us) s d e w v f =
    absurd (omega (arith, SameElems-length s))
elems_equal_complete eq n (type_then t ts) no_types s d e w v f =
    absurd (omega (arith, SameElems-length s))
elems_equal_complete eq n (type_then t ts) (type_then u us) s d e w v f = ground (
  arith,
  f t u (SameElems-head s) (omega arith) (omega arith) w.0 v.0,
  elems_equal_complete eq n ts us (SameElems-tail s) (omega arith) (omega arith) w.1 v.1 f,
)

same_length :
    (fs gs : Attrs)
    → ((k : String) → SameField (lookup k (attribute_types fs)) (lookup k (attribute_types gs)))
    → Unique (attribute_types fs)
    → Unique (attribute_types gs)
    → length (attribute_types fs) ≡ length (attribute_types gs)
same_length fs gs f u v =
    same_keys-length (attribute_types fs) (attribute_types gs) u v
      (λ k. sym (SameField-is_some (f k)))

-- What is the same type Equals accepts, within a bound of both depths.
equals_within_complete :
    (n : ℕ) (t u : CtyType)
    → SameType t u
    → depth t ≤ n
    → depth u ≤ n
    → WellFormed t
    → WellFormed u
    → equals_within n t u ≡ true
unfolding equals_within depth
equals_within_complete zero t u s d e w v = absurd (omega (arith, depth_pos t))
equals_within_complete (suc n) _ _ SameType.dynamic d e w v = refl
equals_within_complete (suc n) _ _ (SameType.primitive {k} p) d e w v = rw (← p) (kind_beq_refl k)
equals_within_complete (suc n) _ _ (SameType.list {t} {u} s) d e w v =
    equals_within_complete n t u s (omega arith) (omega arith) w v
equals_within_complete (suc n) _ _ (SameType.set {t} {u} s) d e w v =
    equals_within_complete n t u s (omega arith) (omega arith) w v
equals_within_complete (suc n) _ _ (SameType.map {t} {u} s) d e w v =
    equals_within_complete n t u s (omega arith) (omega arith) w v
equals_within_complete (suc n) _ _ (SameType.capsule {a} {b} p) d e w v =
    (nat_beq_iff b a).1 (sym p)
equals_within_complete (suc n) _ _ (SameType.tuple {ts} {us} s) d e w v = ground (
  arith,
  SameElems-length s,
  elems_equal_complete (equals_within n) n ts us s (omega arith) (omega arith) w v
      (λ a b sab da db wa wb. equals_within_complete n b a (SameType-symm sab) db da wb wa),
)
equals_within_complete (suc n) _ _ (SameType.object {fs} {gs} {opt} {oopt} f o) d e w v =
    let m = attribute_types fs in
    let m' = attribute_types gs in
    ground (
      arith,
      same_length fs gs f w.0 v.0,
      attrs_equal-build (equals_within n) opt oopt m m' w.0 (λ k p. SameField-is_some (f k) ∙ p) o
          (λ k a b la lb.
            equals_within_complete n b a (SameType-symm (SameField-pair a b (f k) la lb))
              (le_trans (depth-lookup gs k b lb) (omega arith))
              (le_trans (depth-lookup fs k a la) (omega arith)) (lookup-WellFormed gs k b v.1 lb)
              (lookup-WellFormed fs k a w.1 la)),
    )

-- For types whose objects name each attribute once, Equals accepts exactly the same types.
pub equals_iff : (t u : CtyType) → WellFormed t → WellFormed u → (equals t u ≡ true) ↔ SameType t u
unfolding equals
equals_iff t u w v = (
  equals_within-sound (max (depth t) (depth u)) t u w v,
  λ s. equals_within_complete (max (depth t) (depth u)) t u s (omega arith) (omega arith) w v,
)

-- Equals is reflexive, symmetric and transitive on such types.
pub equals_equivalence :
    (t u v : CtyType)
    → WellFormed t
    → WellFormed u
    → WellFormed v
    → (equals t t ≡ true)
      × (equals t u ≡ equals u t)
      × (equals t u ≡ true → equals u v ≡ true → equals t v ≡ true)
equals_equivalence t u v wt wu wv = (
  (equals_iff t t wt wt).1 (SameType-refl t),
  Bool-ext _ _ (λ h. (equals_iff u t wu wt).1 (SameType-symm ((equals_iff t u wt wu).0 h)))
      (λ h. (equals_iff t u wt wu).1 (SameType-symm ((equals_iff u t wu wt).0 h))),
  λ h k.
      (equals_iff t v wt wv).1
        (SameType-trans ((equals_iff t u wt wu).0 h) ((equals_iff u v wu wv).0 k)),
)
