-- ===== src/Values/RawEquality/Contents.antt =====
-- The values that Go builds, and the tests of RawEquals (cty/value_ops.go) of what has no elements.
use go_cty.Prelude.{
  ◌==◌, ◌↔◌, ℕ, ◌≡◌, refl, Bool, true, false, List, [], ◌∷◌, Equatable, nat_eq, is_some, arith,
  Option, none, some, String, string_eq,
}
use mathlib.Core.Bool.{beq}
use go_cty.Prelude.Int.{int_eq}
use go_cty.Prelude.Maps.{lookup, Unique}
use go_cty.Types.{attribute_types}
use go_cty.Types.Depth.{WellFormed, WellFormedAttrs, WellFormedTypes}
use go_cty.Refinement.{
  Tristate, tristate_true, tristate_false, tristate_unknown, Refinement, refinement_string,
  refinement_number, refinement_collection, refinement_nullable,
}
use go_cty.Values.{
  Value, null_val, unknown_val, bool_val, number_val, string_val, list_val, set_val, map_val,
  tuple_val, object_val, capsule_val, marked_val, Values, no_values, value_then, Fields, no_fields,
  field_then, type_of, types_of_values, attrs_of_fields, is_marked,
}
use go_cty.Values.RawEquality.{
  tristate_same, bytes_same, RawOps, raw_number_equal, Accuracy, below, exact, above, accuracy_same,
  no_negative_zero, bound_same, refinement_same, refinements_same, capsule_test, entries,
}
use go_cty.Values.RawEquality.Marking.{DistinctMarks}

module _ {N M : Type 0} ⦃e : Equatable M⦄ where
  -- What Go's maps, its types and the functions that mark a value ensure: no key, attribute or mark
  -- stands twice, and there is no marker in a marker.
  abbrev mutual
    pub Sane : Value N M → Type 0
    Sane (marked_val v ms) = (is_marked v ≡ false) × DistinctMarks ms × Sane v
    Sane (null_val t) = WellFormed t
    Sane (unknown_val t r) = WellFormed t
    Sane (list_val t vs) = WellFormed t × SaneValues vs
    Sane (set_val t vs) = WellFormed t × SaneValues vs
    Sane (map_val t fs) = WellFormed t × Unique (entries fs) × SaneFields fs
    Sane (tuple_val vs) = SaneValues vs
    Sane (object_val fs) = Unique (entries fs) × SaneFields fs
    Sane (bool_val b) = Unit
    Sane (number_val n) = Unit
    Sane (string_val s) = Unit
    Sane (capsule_val t p) = Unit

    pub SaneValues : Values N M → Type 0
    SaneValues no_values = Unit
    SaneValues (value_then v vs) = Sane v × SaneValues vs

    pub SaneFields : Fields N M → Type 0
    SaneFields no_fields = Unit
    SaneFields (field_then k v fs) = Sane v × SaneFields fs

  pub attrs-present :
      (fs : Fields N M) (k : String)
      → is_some (lookup k (attribute_types (attrs_of_fields fs))) ≡ is_some (lookup k (entries fs))
  unfolding type_of
  attrs-present no_fields k = refl
  attrs-present (field_then j v fs) k = ground (arith, attrs-present fs k)

  attrs-Unique :
      (fs : Fields N M) → Unique (entries fs) → Unique (attribute_types (attrs_of_fields fs))
  unfolding type_of
  attrs-Unique no_fields u = tt
  attrs-Unique (field_then j v fs) u = ground (arith, attrs-present fs j, attrs-Unique fs)

  mutual
    unfolding type_of

    pub type_of-WellFormed : (v : Value N M) → Sane v → WellFormed (type_of v)
    type_of-WellFormed (marked_val v ms) s = type_of-WellFormed v s.2
    type_of-WellFormed (null_val t) s = s
    type_of-WellFormed (unknown_val t r) s = s
    type_of-WellFormed (list_val t vs) s = s.0
    type_of-WellFormed (set_val t vs) s = s.0
    type_of-WellFormed (map_val t fs) s = s.0
    type_of-WellFormed (tuple_val vs) s = types_of_values-WellFormed vs s
    type_of-WellFormed (object_val fs) s = (attrs-Unique fs s.0, attrs_of_fields-WellFormed fs s.1)
    type_of-WellFormed (bool_val b) s = tt
    type_of-WellFormed (number_val n) s = tt
    type_of-WellFormed (string_val x) s = tt
    type_of-WellFormed (capsule_val t p) s = tt

    types_of_values-WellFormed :
        (vs : Values N M) → SaneValues vs → WellFormedTypes (types_of_values vs)
    types_of_values-WellFormed no_values s = tt
    types_of_values-WellFormed (value_then v vs) s =
        (type_of-WellFormed v s.0, types_of_values-WellFormed vs s.1)

    attrs_of_fields-WellFormed :
        (fs : Fields N M) → SaneFields fs → WellFormedAttrs (attrs_of_fields fs)
    attrs_of_fields-WellFormed no_fields s = tt
    attrs_of_fields-WellFormed (field_then k v fs) s =
        (type_of-WellFormed v s.0, attrs_of_fields-WellFormed fs s.1)

-- A Boolean test that is reflexive, symmetric and transitive.
pub record Equivalence {A : Type 0} (test : A → A → Bool) : Type 0 where
  pub same_self : (a : A) → test a a ≡ true
  pub same_back : (a b : A) → test a b ≡ true → test b a ≡ true
  pub same_both : (a b c : A) → test a b ≡ true → test b c ≡ true → test a c ≡ true

tristate_same-Equivalence : Equivalence tristate_same
tristate_same-Equivalence = record {
  same_self = self;
  same_back = λ a b h. ground arith;
  same_both = λ a b c h k. ground arith;
}
  where
    self : (a : Tristate) → tristate_same a a ≡ true
    self tristate_true = refl
    self tristate_false = refl
    self tristate_unknown = refl

pub beq-Equivalence : Equivalence beq
beq-Equivalence = record {
  same_self = λ a. ground arith;
  same_back = λ a b h. ground arith;
  same_both = λ a b c h k. ground arith;
}

accuracy_self : (a : Accuracy) → accuracy_same a a ≡ true
accuracy_self below = refl
accuracy_self exact = refl
accuracy_self above = refl

accuracy_sound : (a b : Accuracy) → accuracy_same a b ≡ true → a ≡ b
accuracy_sound below below h = refl
accuracy_sound exact exact h = refl
accuracy_sound above above h = refl
accuracy_sound a b h = cc

bytes_same_self : (a : List ℕ) → bytes_same a a ≡ true
bytes_same_self [] = refl
bytes_same_self (x ∷ a) = ground (arith, bytes_same_self a)

bytes_same_back : (a b : List ℕ) → bytes_same a b ≡ true → bytes_same b a ≡ true
bytes_same_back [] [] h = refl
bytes_same_back (x ∷ a) (y ∷ b) h = ground (arith, bytes_same_back a b)
bytes_same_back [] (y ∷ b) h = absurd (ground arith)
bytes_same_back (x ∷ a) [] h = absurd (ground arith)

bytes_same_both :
    (a b c : List ℕ) → bytes_same a b ≡ true → bytes_same b c ≡ true → bytes_same a c ≡ true
bytes_same_both [] [] c h k = k
bytes_same_both (x ∷ a) (y ∷ b) (z ∷ c) h k = ground (arith, bytes_same_both a b c)
bytes_same_both (x ∷ a) (y ∷ b) [] h k = absurd (ground arith)
bytes_same_both [] (y ∷ b) c h k = absurd (ground arith)
bytes_same_both (x ∷ a) [] c h k = absurd (ground arith)

bytes_same-Equivalence : Equivalence bytes_same
bytes_same-Equivalence = record {
  same_self = bytes_same_self;
  same_back = bytes_same_back;
  same_both = bytes_same_both;
}

module _ {N : Type 0} ⦃ops : RawOps N⦄ where
  pub raw_number_equal-Equivalence : Equivalence (raw_number_equal {N = N})
  unfolding raw_number_equal
  raw_number_equal-Equivalence = record {
    same_self = λ a. ground (
      arith,
      int_eq.test_iff (ops.sign_of a) (ops.sign_of a),
      int_eq.test_iff (ops.int_of a) (ops.int_of a),
      accuracy_self (ops.accuracy a),
      text_iff a a,
    );
    same_back = λ a b h. ground (
      arith,
      int_eq.test_iff (ops.sign_of a) (ops.sign_of b),
      int_eq.test_iff (ops.sign_of b) (ops.sign_of a),
      int_eq.test_iff (ops.int_of a) (ops.int_of b),
      int_eq.test_iff (ops.int_of b) (ops.int_of a),
      accuracy_sound (ops.accuracy a) (ops.accuracy b),
      accuracy_self (ops.accuracy a),
      text_iff a b,
      text_iff b a,
    );
    same_both = λ a b c h k. ground (
      arith,
      int_eq.test_iff (ops.sign_of a) (ops.sign_of b),
      int_eq.test_iff (ops.sign_of b) (ops.sign_of c),
      int_eq.test_iff (ops.sign_of a) (ops.sign_of c),
      int_eq.test_iff (ops.int_of a) (ops.int_of b),
      int_eq.test_iff (ops.int_of b) (ops.int_of c),
      int_eq.test_iff (ops.int_of a) (ops.int_of c),
      accuracy_sound (ops.accuracy a) (ops.accuracy b),
      accuracy_sound (ops.accuracy b) (ops.accuracy c),
      accuracy_self (ops.accuracy a),
      text_iff a b,
      text_iff b c,
      text_iff a c,
    );
  }
    where
      text_iff :
          (a b : N)
          → ((no_negative_zero (ops.text a) == no_negative_zero (ops.text b)) ≡ true)
            ↔ (no_negative_zero (ops.text a) ≡ no_negative_zero (ops.text b))
      text_iff a b =
          string_eq.test_iff (no_negative_zero (ops.text a)) (no_negative_zero (ops.text b))

  bound_same-Equivalence : Equivalence (bound_same {N = N})
  bound_same-Equivalence = record { same_self = self; same_back = back; same_both = both }
    where
      self : (a : Option N) → bound_same a a ≡ true
      self none = refl
      self (some a) = raw_number_equal-Equivalence.same_self a

      back : (a b : Option N) → bound_same a b ≡ true → bound_same b a ≡ true
      back none none h = refl
      back (some a) (some b) h = raw_number_equal-Equivalence.same_back a b h
      back none (some b) h = absurd (ground arith)
      back (some a) none h = absurd (ground arith)

      both :
          (a b c : Option N) → bound_same a b ≡ true → bound_same b c ≡ true → bound_same a c ≡ true
      both none none c h k = k
      both (some a) (some b) (some c) h k = raw_number_equal-Equivalence.same_both a b c h k
      both (some a) (some b) none h k = absurd (ground arith)
      both none (some b) c h k = absurd (ground arith)
      both (some a) none c h k = absurd (ground arith)

  refinement_same_self : (r : Refinement N) → refinement_same r r ≡ true
  refinement_same_self (refinement_string n p) = ground (arith, bytes_same_self p)
  refinement_same_self (refinement_number n r) =
      ground (arith, bound_same-Equivalence.same_self r.min, bound_same-Equivalence.same_self r.max)
  refinement_same_self (refinement_collection n lo hi) = ground arith
  refinement_same_self (refinement_nullable n) = ground arith

  refinement_same_back :
      (r s : Refinement N) → refinement_same r s ≡ true → refinement_same s r ≡ true
  refinement_same_back (refinement_string n p) (refinement_string m q) h =
      ground (arith, bytes_same_back p q)
  refinement_same_back (refinement_number n r) (refinement_number m s) h = ground (
    arith,
    bound_same-Equivalence.same_back r.min s.min,
    bound_same-Equivalence.same_back r.max s.max,
  )
  refinement_same_back (refinement_collection n lo hi) (refinement_collection m lo' hi') h =
      ground arith
  refinement_same_back (refinement_nullable n) (refinement_nullable m) h = ground arith
  refinement_same_back r s h = cc

  refinement_same_both :
      (r s t : Refinement N)
      → refinement_same r s ≡ true
      → refinement_same s t ≡ true
      → refinement_same r t ≡ true
  refinement_same_both (refinement_string n p) (refinement_string m q) (refinement_string l o) h k =
      ground (arith, bytes_same_both p q o)
  refinement_same_both (refinement_number n r) (refinement_number m s) (refinement_number l t) h k =
      ground (
        arith,
        bound_same-Equivalence.same_both r.min s.min t.min,
        bound_same-Equivalence.same_both r.max s.max t.max,
      )
  refinement_same_both (refinement_collection n a b) (refinement_collection m c d)
        (refinement_collection l i j) h k =
      ground arith
  refinement_same_both (refinement_nullable n) (refinement_nullable m) (refinement_nullable l) h k =
      ground arith
  refinement_same_both r s t h k = cc

  pub refinements_same-Equivalence : Equivalence (refinements_same {N = N})
  refinements_same-Equivalence = record { same_self = self; same_back = back; same_both = both }
    where
      self : (a : Option (Refinement N)) → refinements_same a a ≡ true
      self none = refl
      self (some a) = refinement_same_self a

      back :
          (a b : Option (Refinement N)) → refinements_same a b ≡ true → refinements_same b a ≡ true
      back none none h = refl
      back (some a) (some b) h = refinement_same_back a b h
      back none (some b) h = absurd (ground arith)
      back (some a) none h = absurd (ground arith)

      both :
          (a b c : Option (Refinement N))
          → refinements_same a b ≡ true
          → refinements_same b c ≡ true
          → refinements_same a c ≡ true
      both none none c h k = k
      both (some a) (some b) (some c) h k = refinement_same_both a b c h k
      both (some a) (some b) none h k = absurd (ground arith)
      both none (some b) c h k = absurd (ground arith)
      both (some a) none c h k = absurd (ground arith)

-- The operation that an application gives a capsule type has to be an equivalence.
abbrev pub CapsuleLaws : (ℕ → Option (ℕ → ℕ → Bool)) → Type 0
CapsuleLaws same = (t : ℕ) (f : ℕ → ℕ → Bool) → same t ≡ some f → Equivalence f

pub capsule_test-Equivalence :
    (same : ℕ → Option (ℕ → ℕ → Bool))
    → CapsuleLaws same
    → (t : ℕ) → Equivalence (capsule_test (same t))
capsule_test-Equivalence same laws t = by_operation (same t) (laws t)
  where
    by_operation :
        (o : Option (ℕ → ℕ → Bool))
        → ((f : ℕ → ℕ → Bool) → o ≡ some f → Equivalence f)
        → Equivalence (capsule_test o)
    by_operation none h = record {
      same_self = λ a. ground arith;
      same_back = λ a b h. ground arith;
      same_both = λ a b c h k. ground arith;
    }
    by_operation (some f) h =
        let f_equivalence = h f refl in
        record {
          same_self = f_equivalence.same_self;
          same_back = f_equivalence.same_back;
          same_both = f_equivalence.same_both;
        }
