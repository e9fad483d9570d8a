-- ===== src/Values/RawEquality/Transitivity.antt =====
-- RawEquals (cty/value_ops.go) of three values.
use go_cty.Prelude.{
  ◌≡◌, refl, sym, ◌∙◌, true, ◌&&◌, Bool-cases, inl, inr, length, Equatable, nat_eq, nat_beq_iff,
  ◌==◌, arith, some, String, string_eq, and_true,
}
use mathlib.Core.Path.{subst}
use go_cty.Prelude.Maps.{lookup}
use go_cty.Values.{
  Value, null_val, unknown_val, bool_val, number_val, string_val, list_val, set_val, map_val,
  tuple_val, object_val, capsule_val, marked_val, Values, no_values, value_then, Fields, no_fields,
  field_then, type_of, unmark_force, has_same_marks,
}
use go_cty.Values.RawEquality.{
  RawOps, entries, missing_attribute, missing_element, same_header, same_content, same_elements,
  same_fields,
}
use go_cty.Values.RawEquality.Contents.{
  Sane, SaneValues, SaneFields, raw_number_equal-Equivalence, refinements_same-Equivalence,
  beq-Equivalence, CapsuleLaws, capsule_test-Equivalence,
}
use go_cty.Values.RawEquality.Loops.{
  and_true_build, capsules_of_one_type, same, unmarked, objects-KeysIn, maps-KeysIn,
  same_fields_chain, both_unmarked, same_header_parts, same_header_trans,
}

module _ {N M : Type 0} ⦃ops : RawOps N⦄ ⦃e : Equatable M⦄ where
  -- One step of transitivity, from that of the contents.
  pub one_trans :
      CapsuleLaws ops.capsule_same
      → (v w x : Value N M) → Sane v
      → Sane w
      → Sane x
      → same v w ≡ true
      → same w x ≡ true
      → (same_header v w ≡ true
          → same_header w x ≡ true
          → same_content v (unmark_force w) ≡ true
          → same_content w (unmark_force x) ≡ true
          → same_content v (unmark_force x) ≡ true)
      → same v x ≡ true
  one_trans laws v w x s r q h k inner =
      let a = and_true (same_header v w) (same_content v (unmark_force w)) h in
      let b = and_true (same_header w x) (same_content w (unmark_force x)) k in
      and_true_build (same_header_trans v w x s r q a.0 b.0) (inner a.0 b.0 a.1 b.1)

  map_parts :
      (fs gs : Fields N M)
      → (length (entries fs) == length (entries gs) && same_fields missing_element fs (entries gs))
        ≡ true
      → (length (entries fs) ≡ length (entries gs))
        × (same_fields missing_element fs (entries gs) ≡ true)
  map_parts fs gs h =
      let parts =
        and_true (length (entries fs) == length (entries gs))
          (same_fields missing_element fs (entries gs)) h in
      ((nat_beq_iff (length (entries fs)) (length (entries gs))).0 parts.0, parts.1)

  mutual
    unfolding same_content type_of has_same_marks

    pub same_content_trans :
        CapsuleLaws ops.capsule_same
        → (v w x : Value N M) → Sane v
        → Sane w
        → Sane x
        → same_header v w ≡ true
        → same_header w x ≡ true
        → same_content v (unmark_force w) ≡ true
        → same_content w (unmark_force x) ≡ true
        → same_content v (unmark_force x) ≡ true
    same_content_trans laws (marked_val v ms) (marked_val w os) (marked_val x ps) s r q t m h k =
        rw (unmarked x q.0) at (
          same_content_trans laws v w x s.2 r.2 q.2
            (and_true_build (same_header_parts (marked_val v ms) (marked_val w os) t).0
              (both_unmarked v w s.0 r.0))
            (and_true_build (same_header_parts (marked_val w os) (marked_val x ps) m).0
              (both_unmarked w x r.0 q.0))
            (rw (unmarked w r.0) h) (rw (unmarked x q.0) k))
    same_content_trans laws (null_val a) (null_val b) (null_val c) s r q t m h k = refl
    same_content_trans laws (unknown_val a x) (unknown_val b y) (unknown_val c z) s r q t m h k =
        refinements_same-Equivalence.same_both x y z h k
    same_content_trans laws (bool_val a) (bool_val b) (bool_val c) s r q t m h k =
        beq-Equivalence.same_both a b c h k
    same_content_trans laws (number_val a) (number_val b) (number_val c) s r q t m h k =
        raw_number_equal-Equivalence.same_both a b c h k
    same_content_trans laws (string_val a) (string_val b) (string_val c) s r q t m h k =
        (string_eq.test_iff a c).1 ((string_eq.test_iff a b).0 h ∙ (string_eq.test_iff b c).0 k)
    same_content_trans laws (list_val a vs) (list_val b ws) (list_val c xs) s r q t m h k =
        same_elements_trans laws vs ws xs s.1 r.1 q.1 h k
    same_content_trans laws (set_val a vs) (set_val b ws) (set_val c xs) s r q t m h k =
        same_elements_trans laws vs ws xs s.1 r.1 q.1 h k
    same_content_trans laws (tuple_val vs) (tuple_val ws) (tuple_val xs) s r q t m h k =
        same_elements_trans laws vs ws xs s r q h k
    same_content_trans laws (map_val a fs) (map_val b gs) (map_val c hs) s r q t m h k =
        let n = map_parts fs gs h in
        let o = map_parts gs hs k in
        let chained =
          same_fields_chain missing_element fs gs hs s.1 r.2 q.2
            (maps-KeysIn fs gs s.1 r.1 n.0 n.1).0 (maps-KeysIn gs hs r.1 q.1 o.0 o.1).0
            (fields_trans laws fs s.2) n.1 o.1 in
        and_true_build ((nat_beq_iff (length (entries fs)) (length (entries hs))).1 (n.0 ∙ o.0))
          chained
    same_content_trans laws (object_val fs) (object_val gs) (object_val hs) s r q t m h k =
        same_fields_chain missing_attribute fs gs hs s.0 r.1 q.1
          (objects-KeysIn fs gs s r (same_header_parts (object_val fs) (object_val gs) t).0).0
          (objects-KeysIn gs hs r q (same_header_parts (object_val gs) (object_val hs) m).0).0
          (fields_trans laws fs s.1) h k
    same_content_trans laws (capsule_val a i) (capsule_val b j) (capsule_val c l) s r q t m h k =
        let eq : b ≡ a =
          capsules_of_one_type a b
            (same_header_parts {N = N} {M = M} (capsule_val a i) (capsule_val b j) t).0 in
        (capsule_test-Equivalence ops.capsule_same laws a).same_both i j l h (rw (← eq) k)
    same_content_trans laws v w x s r q t m h k = ground arith

    same_elements_trans :
        CapsuleLaws ops.capsule_same
        → (vs ws xs : Values N M) → SaneValues vs
        → SaneValues ws
        → SaneValues xs
        → same_elements vs ws ≡ true
        → same_elements ws xs ≡ true
        → same_elements vs xs ≡ true
    same_elements_trans laws no_values no_values xs s r q h k = k
    same_elements_trans laws (value_then v vs) (value_then w ws) (value_then x xs) s r q h k =
        let a = and_true (same v w) (same_elements vs ws) h in
        let b = and_true (same w x) (same_elements ws xs) k in
        and_true_build
          (one_trans laws v w x s.0 r.0 q.0 a.0 b.0 (same_content_trans laws v w x s.0 r.0 q.0))
          (same_elements_trans laws vs ws xs s.1 r.1 q.1 a.1 b.1)
    same_elements_trans laws (value_then v vs) (value_then w ws) no_values s r q h k = cc
    same_elements_trans laws no_values (value_then w ws) xs s r q h k = cc
    same_elements_trans laws (value_then v vs) no_values xs s r q h k = cc

    fields_trans :
        CapsuleLaws ops.capsule_same
        → (fs : Fields N M) → SaneFields fs
        → (k : String) (v : Value N M) → lookup k (entries fs) ≡ some v
        → (w x : Value N M) → Sane w
        → Sane x
        → same v w ≡ true
        → same w x ≡ true
        → same v x ≡ true
    fields_trans laws no_fields s k v l w x r q h i = absurd (ground arith)
    fields_trans laws (field_then j u fs) s k v l w x r q h i =
        let later = fields_trans laws fs s.1 k v in
        let own = λ (g : same u w ≡ true).
          one_trans laws u w x s.0 r q g i (same_content_trans laws u w x s.0 r q) in
        elim (Bool-cases (j == k)) [
          | inl y ↦
              let eq : u ≡ v = ground arith in
              subst (λ z. same z x ≡ true) eq (own (subst (λ z. same z w ≡ true) (sym eq) h))
          | inr n ↦ later (ground arith) w x r q h i
        ]
