-- ===== src/Values/RawEquality/Symmetry.antt =====
-- RawEquals (cty/value_ops.go) of a value with itself, and of two values in either order.
use go_cty.Prelude.{
  ◌≡◌, refl, sym, true, Bool-cases, inl, inr, length, Equatable, nat_eq, nat_beq_iff, ◌==◌, arith,
  some, String, string_eq, and_true,
}
use mathlib.Core.Path.{subst}
use go_cty.Prelude.Maps.{lookup}
use go_cty.Types.Equality.{equals}
use go_cty.Values.{
  Value, null_val, unknown_val, bool_val, number_val, string_val, list_val, set_val, map_val,
  tuple_val, object_val, capsule_val, marked_val, Values, no_values, value_then, Fields, no_fields,
  field_then, type_of, unmark_force, has_same_marks,
}
use go_cty.Values.RawEquality.{
  RawOps, entries, missing_attribute, missing_element, same_header, same_content, same_elements,
  same_fields,
}
use go_cty.Values.RawEquality.Contents.{
  Sane, SaneValues, SaneFields, raw_number_equal-Equivalence, refinements_same-Equivalence,
  beq-Equivalence, CapsuleLaws, capsule_test-Equivalence,
}
use go_cty.Values.RawEquality.Loops.{
  and_true_build, capsules_of_one_type, same, unmarked, same_header_refl, same_fields_build,
  objects-KeysIn, maps-KeysIn, same_fields_turn, both_unmarked, same_header_parts, same_header_symm,
}

module _ {N M : Type 0} ⦃ops : RawOps N⦄ ⦃e : Equatable M⦄ where
  mutual
    unfolding same_content

    pub same_content_refl :
        CapsuleLaws ops.capsule_same
        → (v : Value N M) → Sane v
        → same_content v (unmark_force v) ≡ true
    same_content_refl laws (marked_val v ms) s =
        rw (unmarked v s.0) at (same_content_refl laws v s.2)
    same_content_refl laws (null_val t) s = refl
    same_content_refl laws (unknown_val t r) s = refinements_same-Equivalence.same_self r
    same_content_refl laws (bool_val b) s = beq-Equivalence.same_self b
    same_content_refl laws (number_val n) s = raw_number_equal-Equivalence.same_self n
    same_content_refl laws (string_val x) s = (string_eq.test_iff x x).1 refl
    same_content_refl laws (list_val t vs) s = same_elements_refl laws vs s.1
    same_content_refl laws (set_val t vs) s = same_elements_refl laws vs s.1
    same_content_refl laws (tuple_val vs) s = same_elements_refl laws vs s
    same_content_refl laws (map_val t fs) s =
        let inner =
          same_fields_build missing_element fs (entries fs) s.1
            (λ k v l. (v, l, fields_refl laws fs s.2 k v l)) in
        ground (arith, inner)
    same_content_refl laws (object_val fs) s =
        same_fields_build missing_attribute fs (entries fs) s.0
          (λ k v l. (v, l, fields_refl laws fs s.1 k v l))
    same_content_refl laws (capsule_val t p) s =
        (capsule_test-Equivalence ops.capsule_same laws t).same_self p

    same_elements_refl :
        CapsuleLaws ops.capsule_same
        → (vs : Values N M) → SaneValues vs
        → same_elements vs vs ≡ true
    same_elements_refl laws no_values s = refl
    same_elements_refl laws (value_then v vs) s = ground (
      arith,
      same_header_refl v s.0,
      same_content_refl laws v s.0,
      same_elements_refl laws vs s.1,
    )

    fields_refl :
        CapsuleLaws ops.capsule_same
        → (fs : Fields N M) → SaneFields fs
        → (k : String) (v : Value N M) → lookup k (entries fs) ≡ some v
        → same v v ≡ true
    fields_refl laws no_fields s k v l = absurd (ground arith)
    fields_refl laws (field_then j u fs) s k v l =
        let here : same u u ≡ true =
          ground (arith, same_header_refl u s.0, same_content_refl laws u s.0) in
        let later = fields_refl laws fs s.1 k v in
        elim (Bool-cases (j == k)) [
          | inl y ↦ let eq : u ≡ v = ground arith in subst (λ x. same x x ≡ true) eq here
          | inr n ↦ later (ground arith)
        ]

  mutual
    unfolding same_content type_of has_same_marks

    pub same_content_symm :
        CapsuleLaws ops.capsule_same
        → (v w : Value N M) → Sane v
        → Sane w
        → equals (type_of v) (type_of w) ≡ true
        → has_same_marks v w ≡ true
        → same_content v (unmark_force w) ≡ true
        → same_content w (unmark_force v) ≡ true
    same_content_symm laws (marked_val v ms) (marked_val w os) s r t m h =
        rw (unmarked v s.0) at
          (same_content_symm laws v w s.2 r.2 t (both_unmarked v w s.0 r.0) (rw (unmarked w r.0) h))
    same_content_symm laws (null_val a) (null_val b) s r t m h = refl
    same_content_symm laws (unknown_val a x) (unknown_val b y) s r t m h =
        refinements_same-Equivalence.same_back x y h
    same_content_symm laws (bool_val a) (bool_val b) s r t m h = beq-Equivalence.same_back a b h
    same_content_symm laws (number_val a) (number_val b) s r t m h =
        raw_number_equal-Equivalence.same_back a b h
    same_content_symm laws (string_val a) (string_val b) s r t m h =
        (string_eq.test_iff b a).1 (sym ((string_eq.test_iff a b).0 h))
    same_content_symm laws (list_val a vs) (list_val b ws) s r t m h =
        same_elements_symm laws vs ws s.1 r.1 h
    same_content_symm laws (set_val a vs) (set_val b ws) s r t m h =
        same_elements_symm laws vs ws s.1 r.1 h
    same_content_symm laws (tuple_val vs) (tuple_val ws) s r t m h =
        same_elements_symm laws vs ws s r h
    same_content_symm laws (map_val a fs) (map_val b gs) s r t m h =
        let n : length (entries fs) ≡ length (entries gs) =
          ground (arith, nat_beq_iff (length (entries fs)) (length (entries gs))) in
        let loop : same_fields missing_element fs (entries gs) ≡ true = ground arith in
        let turned =
          same_fields_turn missing_element fs gs r.1 r.2 (maps-KeysIn fs gs s.1 r.1 n loop)
            (fields_symm laws fs s.2) loop in
        ground (arith, turned)
    same_content_symm laws (object_val fs) (object_val gs) s r t m h =
        same_fields_turn missing_attribute fs gs r.0 r.1 (objects-KeysIn fs gs s r t)
          (fields_symm laws fs s.1) h
    same_content_symm laws (capsule_val a p) (capsule_val b q) s r t m h =
        let eq : b ≡ a = capsules_of_one_type a b t in
        rw eq ((capsule_test-Equivalence ops.capsule_same laws a).same_back p q h)
    same_content_symm laws v w s r t m h = cc

    same_elements_symm :
        CapsuleLaws ops.capsule_same
        → (vs ws : Values N M) → SaneValues vs
        → SaneValues ws
        → same_elements vs ws ≡ true
        → same_elements ws vs ≡ true
    same_elements_symm laws no_values no_values s r h = refl
    same_elements_symm laws (value_then v vs) (value_then w ws) s r h =
        let parts = and_true (same v w) (same_elements vs ws) (ground arith) in
        let rest = same_elements_symm laws vs ws s.1 r.1 parts.1 in
        let first = and_true (same_header v w) (same_content v (unmark_force w)) parts.0 in
        let both = same_header_parts v w first.0 in
        let header = same_header_symm v w s.0 r.0 first.0 in
        let inner = same_content_symm laws v w s.0 r.0 both.0 both.1 first.1 in
        ground (arith, rest, header, inner)
    same_elements_symm laws no_values (value_then w ws) s r h = cc
    same_elements_symm laws (value_then v vs) no_values s r h = cc

    fields_symm :
        CapsuleLaws ops.capsule_same
        → (fs : Fields N M) → SaneFields fs
        → (k : String) (v : Value N M) → lookup k (entries fs) ≡ some v
        → (w : Value N M) → Sane w
        → same v w ≡ true
        → same w v ≡ true
    fields_symm laws no_fields s k v l w r h = absurd (ground arith)
    fields_symm laws (field_then j u fs) s k v l w r h =
        let later = fields_symm laws fs s.1 k v in
        let own = λ (g : same u w ≡ true).
          let parts = and_true (same_header u w) (same_content u (unmark_force w)) g in
          let both = same_header_parts u w parts.0 in
          and_true_build (same_header_symm u w s.0 r parts.0)
            (same_content_symm laws u w s.0 r both.0 both.1 parts.1) in
        elim (Bool-cases (j == k)) [
          | inl y ↦
              let eq : u ≡ v = ground arith in
              subst (λ x. same w x ≡ true) eq (own (subst (λ x. same x w ≡ true) (sym eq) h))
          | inr n ↦ later (ground arith) w r h
        ]
