-- ===== src/Values/RawEquality/Loops.antt =====
-- The loops of RawEquals over attributes and keys, and its tests of types and marks.
use go_cty.Prelude.{
  ℕ, ◌≡◌, refl, sym, ap, ◌∙◌, Bool, true, false, ◌&&◌, Bool-cases, inl, inr, [], length, Equatable,
  nat_eq, is_some, ◌==◌, arith, Option, none, some, String, string_eq, and_true,
}
use mathlib.Core.Path.{subst, subst₂}
use go_cty.Prelude.Maps.{Map, lookup, Unique, covers_symm}
use go_cty.Types.{CtyType, capsule_type, Attrs, type_object, attribute_types}
use go_cty.Types.Equality.{equals}
use go_cty.Types.SameType.{SameType, SameField-is_some}
use go_cty.Types.Soundness.{equals_equivalence, equals_iff}
use go_cty.Values.{
  Value, object_val, marked_val, Fields, no_fields, field_then, type_of, is_marked, unmark_force,
  has_same_marks, attrs_of_fields,
}
use go_cty.Values.RawEquality.{
  RawOps, entries, missing_element, found_or, on_found, same_header, same_content, same_fields,
}
use go_cty.Values.RawEquality.Marking.{marks_equal_refl, marks_equal_symm, marks_equal_trans}
use go_cty.Values.RawEquality.Contents.{Sane, SaneFields, type_of-WellFormed, attrs-present}

SameType-attrs :
    {ats bts : Attrs} (k : String)
    → SameType (type_object ats []) (type_object bts [])
    → is_some (lookup k (attribute_types bts)) ≡ is_some (lookup k (attribute_types ats))
SameType-attrs k (SameType.object f o) = SameField-is_some (f k)

pub and_true_build : {a b : Bool} → a ≡ true → b ≡ true → (a && b) ≡ true
and_true_build h k = ground arith

-- Capsule types that are equal are one type.
pub capsules_of_one_type : (a b : ℕ) → equals (capsule_type a) (capsule_type b) ≡ true → b ≡ a
capsules_of_one_type a b h = one_type ((equals_iff (capsule_type a) (capsule_type b) tt tt).0 h)
  where
    one_type : SameType (capsule_type a) (capsule_type b) → b ≡ a
    one_type (SameType.capsule eq) = sym eq

module _ {N M : Type 0} ⦃ops : RawOps N⦄ ⦃e : Equatable M⦄ where
  pub has_same_marks_refl : (v : Value N M) → has_same_marks v v ≡ true
  unfolding has_same_marks
  has_same_marks_refl (marked_val v ms) = marks_equal_refl ms
  has_same_marks_refl _ = refl

  -- The marks of both, or of none.
  pub has_same_marks-is_marked :
      (v w : Value N M) → has_same_marks v w ≡ true → is_marked v ≡ is_marked w
  unfolding has_same_marks
  has_same_marks-is_marked (marked_val v ms) (marked_val w os) h = refl
  has_same_marks-is_marked v w h = ground arith

  pub same_header_refl : (v : Value N M) → Sane v → same_header v v ≡ true
  same_header_refl v s =
      let w = type_of-WellFormed v s in
      ground (
        arith,
        has_same_marks_refl v,
        (equals_equivalence (type_of v) (type_of v) (type_of v) w w w).0,
      )

  -- RawEquals, as the loops call it.
  abbrev pub same : Value N M → Value N M → Bool
  same v w = same_header v w && same_content v (unmark_force w)

  pub unmarked : (v : Value N M) → is_marked v ≡ false → unmark_force v ≡ v
  unmarked (marked_val v ms) h = absurd (ground arith)
  unmarked _ h = refl

  on_found_get :
      (o : Option (Value N M)) (test : Value N M → Bool)
      → on_found o test ≡ true
      → (w : Value N M) × (o ≡ some w) × (test w ≡ true)
  on_found_get none test h = absurd (ground arith)
  on_found_get (some w) test h = (w, refl, h)

  on_found_build :
      (o missing : Option (Value N M)) (test : Value N M → Bool) (w : Value N M)
      → o ≡ some w
      → on_found (found_or o missing) test ≡ test w
  on_found_build none missing test w h = cc
  on_found_build (some v) missing test w h = ap test (ground arith)

  -- What the loop over the fields says of the field of a name, and what makes it pass.
  same_fields_get :
      (missing : CtyType → Option (Value N M)) (fs : Fields N M) (m : Map String (Value N M))
      (k : String) (v : Value N M)
      → same_fields missing fs m ≡ true
      → lookup k (entries fs) ≡ some v
      → (w : Value N M) × (found_or (lookup k m) (missing (type_of v)) ≡ some w) × (same v w ≡ true)
  unfolding same_content
  same_fields_get missing no_fields m k v h l = absurd (ground arith)
  same_fields_get missing (field_then j u fs) m k v h l =
      let parts =
        and_true (on_found (found_or (lookup j m) (missing (type_of u))) (same u))
          (same_fields missing fs m) h in
      let first = on_found_get (found_or (lookup j m) (missing (type_of u))) (same u) parts.0 in
      let later = same_fields_get missing fs m k v parts.1 in
      elim (Bool-cases (j == k)) [
        | inl y ↦
            let name : j ≡ k = (string_eq.test_iff j k).0 y in
            let here : u ≡ v = ground arith in
            (
              first.0,
              subst₂ (λ i x. found_or (lookup i m) (missing (type_of x)) ≡ some first.0) name here
                  first.1,
              subst (λ x. same x first.0 ≡ true) here first.2,
            )
        | inr n ↦ later (ground arith)
      ]

  pub same_fields_build :
      (missing : CtyType → Option (Value N M)) (fs : Fields N M) (m : Map String (Value N M))
      → Unique (entries fs)
      → ((k : String) (v : Value N M)
          → lookup k (entries fs) ≡ some v
          → (w : Value N M) × (lookup k m ≡ some w) × (same v w ≡ true))
      → same_fields missing fs m ≡ true
  unfolding same_content
  same_fields_build missing no_fields m u h = refl
  same_fields_build missing (field_then j v fs) m u h =
      let here = h j v (ground (arith, string_eq.test_iff j j)) in
      let rest =
        same_fields_build missing fs m u.1
          (λ k w l. h k w (ground (arith, string_eq.test_iff j k))) in
      ground (
        arith,
        on_found_build (lookup j m) (missing (type_of v)) (same v) here.0 here.1,
        here.2,
        rest,
      )

  -- The keys of one are keys of the other.
  abbrev pub KeysIn : Fields N M → Fields N M → Type 0
  KeysIn fs gs =
      (k : String) → is_some (lookup k (entries fs)) ≡ true → is_some (lookup k (entries gs)) ≡ true

  found_entry :
      (o missing : Option (Value N M)) (w : Value N M)
      → is_some o ≡ true
      → found_or o missing ≡ some w
      → o ≡ some w
  found_entry none missing w h k = cc
  found_entry (some v) missing w h k = k

  element_present :
      (o : Option (Value N M)) (w : Value N M) → found_or o none ≡ some w → is_some o ≡ true
  element_present none w h = cc
  element_present (some v) w h = refl

  some_injective : {v w : Value N M} → some v ≡ some w → v ≡ w
  some_injective h = ground arith

  some_entry : (o : Option (Value N M)) → is_some o ≡ true → (w : Value N M) × (o ≡ some w)
  some_entry none h = absurd (ground arith)
  some_entry (some w) h = (w, refl)

  pub lookup-Sane :
      (fs : Fields N M) (k : String) (v : Value N M)
      → SaneFields fs
      → lookup k (entries fs) ≡ some v
      → Sane v
  lookup-Sane no_fields k v s l = absurd (ground arith)
  lookup-Sane (field_then j u fs) k v s l = elim (Bool-cases (j == k)) [
    | inl y ↦ let eq : u ≡ v = ground arith in subst Sane eq s.0
    | inr n ↦ lookup-Sane fs k v s.1 (ground arith)
  ]

  -- Two objects of one type have the same attributes.
  pub objects-KeysIn :
      (fs gs : Fields N M)
      → Sane (object_val fs)
      → Sane (object_val gs)
      → equals (type_of (object_val fs)) (type_of (object_val gs)) ≡ true
      → KeysIn fs gs × KeysIn gs fs
  unfolding type_of
  objects-KeysIn fs gs s r h =
      let types =
        (equals_iff (type_object (attrs_of_fields fs) []) (type_object (attrs_of_fields gs) [])
            (type_of-WellFormed (object_val fs) s) (type_of-WellFormed (object_val gs) r)).0
          h in
      let keys = λ (k : String). SameType-attrs k types in
      (
        λ k p. sym (attrs-present gs k) ∙ (keys k ∙ (attrs-present fs k ∙ p)),
        λ k p. sym (attrs-present fs k) ∙ (sym (keys k) ∙ (attrs-present gs k ∙ p)),
      )

  -- A map whose elements all pass has the keys of a map of its length.
  pub maps-KeysIn :
      (fs gs : Fields N M)
      → Unique (entries fs)
      → Unique (entries gs)
      → length (entries fs) ≡ length (entries gs)
      → same_fields missing_element fs (entries gs) ≡ true
      → KeysIn fs gs × KeysIn gs fs
  maps-KeysIn fs gs u w n h =
      let there : (k : String)
          → is_some (lookup k (entries fs)) ≡ true
          → is_some (lookup k (entries gs)) ≡ true =
        λ k p.
          let v = some_entry (lookup k (entries fs)) p in
          let got = same_fields_get missing_element fs (entries gs) k v.0 h v.1 in
          element_present (lookup k (entries gs)) got.0 got.1 in
      (there, covers_symm (entries fs) (entries gs) u w n there)

  -- Turns the comparison of all fields round.
  pub same_fields_turn :
      (missing : CtyType → Option (Value N M)) (fs gs : Fields N M)
      → Unique (entries gs)
      → SaneFields gs
      → KeysIn fs gs × KeysIn gs fs
      → ((k : String) (v : Value N M)
          → lookup k (entries fs) ≡ some v
          → (w : Value N M) → Sane w
          → same v w ≡ true
          → same w v ≡ true)
      → same_fields missing fs (entries gs) ≡ true
      → same_fields missing gs (entries fs) ≡ true
  same_fields_turn missing fs gs u s keys back h =
      same_fields_build missing gs (entries fs) u (λ k w l.
        let v = some_entry (lookup k (entries fs)) (keys.1 k (rw l refl)) in
        let got = same_fields_get missing fs (entries gs) k v.0 h v.1 in
        let eq : w ≡ got.0 = some_injective (
          sym l
          ∙ found_entry (lookup k (entries gs)) (missing (type_of v.0)) got.0 (rw l refl) got.1) in
        (
          v.0,
          v.1,
          back k v.0 v.1 w (lookup-Sane gs k w s l) (subst (λ x. same v.0 x ≡ true) (sym eq) got.2),
        ))

  pub same_fields_chain :
      (missing : CtyType → Option (Value N M)) (fs gs hs : Fields N M)
      → Unique (entries fs)
      → SaneFields gs
      → SaneFields hs
      → KeysIn fs gs
      → KeysIn gs hs
      → ((k : String) (v : Value N M)
          → lookup k (entries fs) ≡ some v
          → (w x : Value N M) → Sane w
          → Sane x
          → same v w ≡ true
          → same w x ≡ true
          → same v x ≡ true)
      → same_fields missing fs (entries gs) ≡ true
      → same_fields missing gs (entries hs) ≡ true
      → same_fields missing fs (entries hs) ≡ true
  same_fields_chain missing fs gs hs u s r into onto both h k =
      same_fields_build missing fs (entries hs) u (λ name v l.
        let got = same_fields_get missing fs (entries gs) name v h l in
        let w =
          found_entry (lookup name (entries gs)) (missing (type_of v)) got.0 (into name (rw l refl))
            got.1 in
        let next = same_fields_get missing gs (entries hs) name got.0 k w in
        let x =
          found_entry (lookup name (entries hs)) (missing (type_of got.0)) next.0
            (onto name (rw w refl)) next.1 in
        (
          next.0,
          x,
          both name v l got.0 next.0 (lookup-Sane gs name got.0 s w)
              (lookup-Sane hs name next.0 r x) got.2 next.2,
        ))

  pub both_unmarked :
      (v w : Value N M) → is_marked v ≡ false → is_marked w ≡ false → has_same_marks v w ≡ true
  unfolding has_same_marks
  both_unmarked (marked_val v ms) w h k = absurd (ground arith)
  both_unmarked v (marked_val w os) h k = absurd (ground arith)
  both_unmarked v w h k = refl

  pub same_header_parts :
      (v w : Value N M)
      → same_header v w ≡ true
      → (equals (type_of v) (type_of w) ≡ true) × (has_same_marks v w ≡ true)
  same_header_parts v w h = and_true (equals (type_of v) (type_of w)) (has_same_marks v w) h

  has_same_marks_symm :
      (v w : Value N M) → Sane v → Sane w → has_same_marks v w ≡ true → has_same_marks w v ≡ true
  unfolding has_same_marks
  has_same_marks_symm (marked_val v ms) (marked_val w os) s r h = marks_equal_symm ms os s.1 r.1 h
  has_same_marks_symm v w s r h = ground (arith, has_same_marks-is_marked v w h, both_unmarked w v)

  has_same_marks_trans :
      (v w x : Value N M)
      → has_same_marks v w ≡ true
      → has_same_marks w x ≡ true
      → has_same_marks v x ≡ true
  unfolding has_same_marks
  has_same_marks_trans (marked_val v ms) (marked_val w os) (marked_val x ps) h k =
      marks_equal_trans ms os ps h k
  has_same_marks_trans v w x h k =
      ground
        (arith, has_same_marks-is_marked v w h, has_same_marks-is_marked w x k, both_unmarked v x)

  pub same_header_symm :
      (v w : Value N M) → Sane v → Sane w → same_header v w ≡ true → same_header w v ≡ true
  same_header_symm v w s r h =
      let parts = same_header_parts v w h in
      let a = type_of-WellFormed v s in
      let b = type_of-WellFormed w r in
      and_true_build
        (sym (equals_equivalence (type_of v) (type_of w) (type_of w) a b b).1 ∙ parts.0)
        (has_same_marks_symm v w s r parts.1)

  pub same_header_trans :
      (v w x : Value N M)
      → Sane v
      → Sane w
      → Sane x
      → same_header v w ≡ true
      → same_header w x ≡ true
      → same_header v x ≡ true
  same_header_trans v w x s r q h k =
      let a = same_header_parts v w h in
      let b = same_header_parts w x k in
      and_true_build
        ((equals_equivalence (type_of v) (type_of w) (type_of x) (type_of-WellFormed v s)
            (type_of-WellFormed w r) (type_of-WellFormed x q)).2
          a.0 b.0)
        (has_same_marks_trans v w x a.1 b.1)
