-- ===== src/Convert/Compare/Antisymmetry.antt =====
-- compareTypes with its arguments exchanged.
use go_cty.Prelude.{
  ℕ, zero, suc, ◌≡◌, refl, sym, ap, ◌∙◌, Bool, true, false, ◌&&◌, ◌||◌, Option, none, some, String,
  [], ◌∷◌, max, arith, is_some, length, string_eq, nat_beq_iff, Bool-cases, Bool-ext, inl, inr,
  if◌then◌else◌,
}
use go_cty.Prelude.Maps.{Map, lookup, Unique, covers_symm}
use go_cty.Types.{
  CtyType, pseudo_type_dynamic, primitive_type, type_list, type_set, type_map, type_object,
  type_tuple, capsule_type, Types, no_types, type_then, attribute_types, tuple_element_types,
}
use go_cty.Types.Depth.{depth, WellFormed, WellFormedTypes}
use go_cty.Types.Soundness.{lookup-WellFormed}
use go_cty.Convert.Compare.{
  Sign, none_first, negate, is_minus, is_plus, verdict, compare_attrs, compare_elems,
  compare_same_kind, compare_within, compare_types,
}

-- The loops of the object case, one question at a time.
abbrev some_pair :
    (Sign → Bool) → (CtyType → CtyType → Sign) → Map String CtyType → Map String CtyType → Bool
some_pair test cmp [] m' = false
some_pair test cmp ((k, t) ∷ m) m' = elim (lookup k m') [
  | none ↦ some_pair test cmp m m'
  | some u ↦ test (cmp t u) || some_pair test cmp m m'
]

abbrev covered : Map String CtyType → Map String CtyType → Bool
covered [] m' = true
covered ((k, t) ∷ m) m' = is_some (lookup k m') && covered m m'

module _ (cmp : CtyType → CtyType → Sign) (swap : Bool) where
  abbrev attrs_verdict : Bool → Bool → Map String CtyType → Map String CtyType → Sign
  attrs_verdict has_a has_b m m' =
      if covered m m'
      then verdict swap (has_a || some_pair is_minus cmp m m') (has_b || some_pair is_plus cmp m m')
      else none_first

  compare_attrs-step :
      (has_a has_b : Bool) (m m' : Map String CtyType) (k : String) (t : CtyType)
      (o : Option CtyType)
      → lookup k m' ≡ o
      → ((a b : Bool) → compare_attrs cmp swap a b m m' ≡ attrs_verdict a b m m')
      → compare_attrs cmp swap has_a has_b ((k, t) ∷ m) m'
        ≡ attrs_verdict has_a has_b ((k, t) ∷ m) m'
  compare_attrs-step has_a has_b m m' k t none e ih = ground arith
  compare_attrs-step has_a has_b m m' k t (some u) e ih =
      ground (arith, ih (is_minus (cmp t u) || has_a) (is_plus (cmp t u) || has_b))

  compare_attrs_lem :
      (has_a has_b : Bool) (m m' : Map String CtyType)
      → compare_attrs cmp swap has_a has_b m m' ≡ attrs_verdict has_a has_b m m'
  compare_attrs_lem has_a has_b [] m' = ground arith
  compare_attrs_lem has_a has_b ((k, t) ∷ m) m' =
      compare_attrs-step has_a has_b m m' k t (lookup k m') refl (λ a b. compare_attrs_lem a b m m')

covered-lookup :
    (m m' : Map String CtyType) (k : String)
    → covered m m' ≡ true
    → is_some (lookup k m) ≡ true
    → is_some (lookup k m') ≡ true
covered-lookup [] m' k h p = absurd (ground arith)
covered-lookup ((j, t) ∷ m) m' k h p = ground (arith, string_eq.test_iff j k, covered-lookup m m' k)

covered-intro :
    (m m' : Map String CtyType)
    → ((k : String) → is_some (lookup k m) ≡ true → is_some (lookup k m') ≡ true)
    → covered m m' ≡ true
covered-intro [] m' f = refl
covered-intro ((j, t) ∷ m) m' f =
    ground (arith, string_eq.test_iff j j, f j, covered-intro m m' (λ k p. f k (ground arith)))

covered_symm :
    (m m' : Map String CtyType)
    → Unique m
    → Unique m'
    → length m ≡ length m'
    → covered m m' ≡ covered m' m
covered_symm m m' u u' n =
    Bool-ext _ _ (λ h. covered-intro m' m (covers_symm m m' u u' n (λ k. covered-lookup m m' k h)))
      (λ h. covered-intro m m' (covers_symm m' m u' u (sym n) (λ k. covered-lookup m' m k h)))

some_pair-intro :
    (test : Sign → Bool) (cmp : CtyType → CtyType → Sign) (m m' : Map String CtyType) (k : String)
    (t u : CtyType)
    → lookup k m ≡ some t
    → lookup k m' ≡ some u
    → test (cmp t u) ≡ true
    → some_pair test cmp m m' ≡ true
some_pair-intro test cmp [] m' k t u l l' h = absurd (ground arith)
some_pair-intro test cmp ((j, w) ∷ m) m' k t u l l' h =
    ground (arith, string_eq.test_iff j k, some_pair-intro test cmp m m' k t u)

-- A pair of attributes of one name that answers the test.
record Answers (test : Sign → Bool) (cmp : CtyType → CtyType → Sign) (m m' : Map String CtyType)
    : Type 0 where
  name : String
  left : CtyType
  right : CtyType
  at_left : lookup name m ≡ some left
  at_right : lookup name m' ≡ some right
  answer : test (cmp left right) ≡ true

Answers-later :
    {test : Sign → Bool} {cmp : CtyType → CtyType → Sign} {m m' : Map String CtyType} (j : String)
    (w : CtyType)
    → lookup j m ≡ none
    → Answers test cmp m m'
    → Answers test cmp ((j, w) ∷ m) m'
Answers-later {m} j w fresh a = record {
  name = a.name;
  left = a.left;
  right = a.right;
  at_right = a.at_right;
  answer = a.answer;
  at_left = later (a.at_left);
}
  where
    later : lookup a.name m ≡ some a.left → lookup a.name ((j, w) ∷ m) ≡ some a.left
    later e = ground (arith, string_eq.test_iff j a.name)

some_pair-step :
    (test : Sign → Bool) (cmp : CtyType → CtyType → Sign) (m m' : Map String CtyType) (j : String)
    (w : CtyType) (o : Option CtyType)
    → lookup j m' ≡ o
    → lookup j m ≡ none
    → some_pair test cmp ((j, w) ∷ m) m' ≡ true
    → (some_pair test cmp m m' ≡ true → Answers test cmp m m')
    → Answers test cmp ((j, w) ∷ m) m'
some_pair-step test cmp m m' j w none e fresh h ih =
    Answers-later j w fresh (ih (rw (e, some_pair) at h))
some_pair-step test cmp m m' j w (some v) e fresh h ih = elim (Bool-cases (test (cmp w v))) [
  | inl now ↦ record {
    name = j;
    left = w;
    right = v;
    at_left = ground (arith, string_eq.test_iff j j);
    at_right = e;
    answer = now;
  }
  | inr later ↦ Answers-later j w fresh (ih (ground arith))
]

some_pair-Answers :
    (test : Sign → Bool) (cmp : CtyType → CtyType → Sign) (m m' : Map String CtyType)
    → Unique m
    → some_pair test cmp m m' ≡ true
    → Answers test cmp m m'
some_pair-Answers test cmp [] m' u h = absurd (ground arith)
some_pair-Answers test cmp ((j, w) ∷ m) m' u h =
    some_pair-step test cmp m m' j w (lookup j m') refl u.0 h (some_pair-Answers test cmp m m' u.1)

-- What one order of the attributes answers, the other answers in reverse.
some_pair-flip :
    (test tested : Sign → Bool) (cmp : CtyType → CtyType → Sign) (m m' : Map String CtyType)
    → Unique m
    → ((k : String) (t u : CtyType)
        → lookup k m ≡ some t
        → lookup k m' ≡ some u
        → test (cmp t u) ≡ tested (cmp u t))
    → some_pair test cmp m m' ≡ true
    → some_pair tested cmp m' m ≡ true
some_pair-flip test tested cmp m m' u f h =
    let a = some_pair-Answers test cmp m m' u h in
    some_pair-intro tested cmp m' m a.name a.right a.left a.at_right a.at_left
      (sym (f a.name a.left a.right a.at_left a.at_right) ∙ a.answer)

is_minus-negate : (s : Sign) → is_minus (negate s) ≡ is_plus s
is_minus-negate s = ground arith

is_plus-negate : (s : Sign) → is_plus (negate s) ≡ is_minus s
is_plus-negate s = ground arith

verdict-flip : (a b : Bool) → verdict false b a ≡ negate (verdict false a b)
verdict-flip a b = ground arith

-- The attributes of one name answer the opposite.
abbrev OppositeAt : (CtyType → CtyType → Sign) → Map String CtyType → Map String CtyType → Type 0
OppositeAt cmp m m' =
    (k : String) (t u : CtyType)
    → lookup k m ≡ some t
    → lookup k m' ≡ some u
    → (cmp t u ≡ negate (cmp u t)) × (cmp u t ≡ negate (cmp t u))

some_pair-opposite :
    (cmp : CtyType → CtyType → Sign) (m m' : Map String CtyType)
    → Unique m
    → Unique m'
    → OppositeAt cmp m m'
    → some_pair is_minus cmp m m' ≡ some_pair is_plus cmp m' m
some_pair-opposite cmp m m' u u' f =
    Bool-ext _ _
      (some_pair-flip is_minus is_plus cmp m m' u
        (λ k t v l l'. ap is_minus (f k t v l l').0 ∙ is_minus-negate (cmp v t)))
      (some_pair-flip is_plus is_minus cmp m' m u'
        (λ k t v l l'. ap is_plus (f k v t l' l).1 ∙ is_plus-negate (cmp v t)))

compare_attrs-opposite :
    (cmp : CtyType → CtyType → Sign) (m m' : Map String CtyType)
    → Unique m
    → Unique m'
    → length m ≡ length m'
    → OppositeAt cmp m m'
    → compare_attrs cmp false false false m m' ≡ negate (compare_attrs cmp false false false m' m)
compare_attrs-opposite cmp m m' u u' n f =
    let back : OppositeAt cmp m' m = λ k t v l l'. ((f k v t l' l).1, (f k v t l' l).0) in
    ground (
      arith,
      compare_attrs_lem cmp false false false m m',
      compare_attrs_lem cmp false false false m' m,
      covered_symm m m' u u' n,
      some_pair-opposite cmp m m' u u' f,
      some_pair-opposite cmp m' m u' u back,
    )

compare_elems-opposite :
    (cmp : CtyType → CtyType → Sign) (a b : Bool) (ts us : Types)
    → WellFormedTypes ts
    → WellFormedTypes us
    → ((t u : CtyType) → WellFormed t → WellFormed u → cmp t u ≡ negate (cmp u t))
    → compare_elems cmp false a b (tuple_element_types ts) (tuple_element_types us)
      ≡ negate (compare_elems cmp false b a (tuple_element_types us) (tuple_element_types ts))
compare_elems-opposite cmp a b no_types no_types w v f = verdict-flip b a
compare_elems-opposite cmp a b no_types (type_then u us) w v f = verdict-flip b a
compare_elems-opposite cmp a b (type_then t ts) no_types w v f = verdict-flip b a
compare_elems-opposite cmp a b (type_then t ts) (type_then u us) w v f =
    rw
      (
        ap is_minus (f t u w.0 v.0) ∙ is_minus-negate (cmp u t),
        ap is_plus (f t u w.0 v.0) ∙ is_plus-negate (cmp u t),
      )
      (compare_elems-opposite cmp (is_plus (cmp u t) || a) (is_minus (cmp u t) || b) ts us w.1 v.1
        f)

compare_same_kind-opposite :
    (cmp : CtyType → CtyType → Sign) (a b : CtyType)
    → WellFormed a
    → WellFormed b
    → ((t u : CtyType) → WellFormed t → WellFormed u → cmp t u ≡ negate (cmp u t))
    → compare_same_kind cmp a b ≡ negate (compare_same_kind cmp b a)
compare_same_kind-opposite cmp (primitive_type k) (primitive_type j) w v f = ground arith
compare_same_kind-opposite cmp (type_list a) (type_list b) w v f = f a b w v
compare_same_kind-opposite cmp (type_set a) (type_set b) w v f = f a b w v
compare_same_kind-opposite cmp (type_map a) (type_map b) w v f = f a b w v
compare_same_kind-opposite cmp (type_tuple ts) (type_tuple us) w v f = ground (
  arith,
  nat_beq_iff (length (tuple_element_types ts)) (length (tuple_element_types us)),
  nat_beq_iff (length (tuple_element_types us)) (length (tuple_element_types ts)),
  compare_elems-opposite cmp false false ts us w v f,
)
compare_same_kind-opposite cmp (type_object fs opt) (type_object gs oopt) w v f =
    let m = attribute_types fs in
    let m' = attribute_types gs in
    let attrs : OppositeAt cmp m m' = λ k t u l l'.
      let wt = lookup-WellFormed fs k t w.1 l in
      let wu = lookup-WellFormed gs k u v.1 l' in (f t u wt wu, f u t wu wt) in
    ground (
      arith,
      nat_beq_iff (length m) (length m'),
      nat_beq_iff (length m') (length m),
      λ (n : length m ≡ length m'). compare_attrs-opposite cmp m m' w.0 v.0 n attrs,
    )
compare_same_kind-opposite cmp pseudo_type_dynamic pseudo_type_dynamic w v f = refl
compare_same_kind-opposite cmp (capsule_type a) (capsule_type b) w v f = refl
compare_same_kind-opposite cmp a b w v f = refl

compare_within-opposite :
    (n : ℕ) (a b : CtyType)
    → WellFormed a
    → WellFormed b
    → compare_within n a b ≡ negate (compare_within n b a)
unfolding compare_within
compare_within-opposite zero a b w v = refl
compare_within-opposite (suc n) a b w v =
    ground
      (arith, compare_same_kind-opposite (compare_within n) a b w v (compare_within-opposite n))

-- For types whose objects name each attribute once, exchanging the arguments of compareTypes
-- changes the sign of its result.
pub compare_types-opposite :
    (a b : CtyType) → WellFormed a → WellFormed b → compare_types a b ≡ negate (compare_types b a)
unfolding compare_types
compare_types-opposite a b w v =
    compare_within-opposite (max (depth a) (depth b)) a b w v
    ∙ ap (λ n. negate (compare_within n b a)) max_swap
  where
    max_swap : max (depth a) (depth b) ≡ max (depth b) (depth a)
    max_swap = omega arith
