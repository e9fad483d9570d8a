-- ===== src/Paths/Equality.antt =====
-- The rules of path sets against the contract of the hash set, PathSet.Equal, AddAllSteps and the
-- prefixes of paths.
use go_cty.Prelude.{
  ℕ, zero, suc, ◌+◌, ◌≤◌, ◌≡◌, refl, sym, ap, ◌∙◌, Bool, true, ◌&&◌, ◌||◌, not, List, [], ◌∷◌,
  length, length-append, ◌++◌, take, map, any, all, ltb, leb, nat_eq, nat_beq_iff, string_eq, ◌==◌,
  Bool-ext, arith,
}
use go_cty.HashSet.{add, has, values, set_length}
use go_cty.HashSet.Lawful.{Lawful, IsValid}
use go_cty.HashSet.Membership.{has-add}
use go_cty.HashSet.Values.{any-values, length-values}
use go_cty.HashSet.Cardinality.{values-Apart, covers}
use go_cty.HashSet.Algebra.{Contract, has-equivalent}
use go_cty.Paths.{
  Keys, index_step, get_attr_step, PathOf, PathSetRules, path_set_rules, steps_equal, written,
  path_equivalent, path_rules, PathSet, add_from, add_all_steps, path_set_equal, path_equals,
  path_has_prefix,
}

same_rules_value : (r q : PathSetRules) → r ≡ q
same_rules_value path_set_rules path_set_rules = refl

module _ {K : Type 0} ⦃k : Keys K⦄ where
  steps_symm :
      (p q : PathOf K)
      → length p ≡ length q
      → steps_equal k.known_equal p q ≡ true
      → steps_equal k.known_equal q p ≡ true
  steps_symm [] [] n h = refl
  steps_symm [] (s ∷ q) n h = absurd (ground arith)
  steps_symm (s ∷ p) [] n h = absurd (ground arith)
  steps_symm (get_attr_step a ∷ p) (get_attr_step b ∷ q) n h =
      ground (arith, string_eq.test_iff a b, string_eq.test_iff b a, steps_symm p q)
  steps_symm (get_attr_step a ∷ p) (index_step b ∷ q) n h = absurd (ground arith)
  steps_symm (index_step a ∷ p) (get_attr_step b ∷ q) n h = absurd (ground arith)
  steps_symm (index_step a ∷ p) (index_step b ∷ q) n h = ground (arith, k.symm a b, steps_symm p q)

  steps_trans :
      (p q r : PathOf K)
      → steps_equal k.known_equal p q ≡ true
      → steps_equal k.known_equal q r ≡ true
      → steps_equal k.known_equal p r ≡ true
  steps_trans [] q r h g = refl
  steps_trans (get_attr_step a ∷ p) (get_attr_step b ∷ q) (get_attr_step c ∷ r) h g = ground (
    arith,
    string_eq.test_iff a b,
    string_eq.test_iff b c,
    string_eq.test_iff a c,
    steps_trans p q r,
  )
  steps_trans (index_step a ∷ p) (index_step b ∷ q) (index_step c ∷ r) h g =
      ground (arith, k.trans a b c, steps_trans p q r)
  steps_trans (s ∷ p) q r h g = ground arith

  steps_written :
      (p q : PathOf K)
      → length p ≡ length q
      → steps_equal k.known_equal p q ≡ true
      → map written p ≡ map written q
  steps_written [] [] n h = refl
  steps_written [] (s ∷ q) n h = absurd (ground arith)
  steps_written (s ∷ p) [] n h = absurd (ground arith)
  steps_written (get_attr_step a ∷ p) (get_attr_step b ∷ q) n h =
      ground (arith, string_eq.test_iff a b, steps_written p q)
  steps_written (get_attr_step a ∷ p) (index_step b ∷ q) n h = absurd (ground arith)
  steps_written (index_step a ∷ p) (get_attr_step b ∷ q) n h = absurd (ground arith)
  steps_written (index_step a ∷ p) (index_step b ∷ q) n h = ground (arith, steps_written p q)

  pub path_rules-Lawful : (r : PathSetRules) → Lawful (path_rules {K = K}) r
  path_rules-Lawful r = record {
    symm = λ a b h. ground (
      arith,
      nat_beq_iff (length a) (length b),
      nat_beq_iff (length b) (length a),
      steps_symm a b,
    );
    trans = λ a b c h g. ground (
      arith,
      nat_beq_iff (length a) (length b),
      nat_beq_iff (length b) (length c),
      nat_beq_iff (length a) (length c),
      steps_trans a b c,
    );
    same_hash = λ a b h.
        ap k.checksum
          (steps_written a b (ground (arith, nat_beq_iff (length a) (length b))) (ground arith));
  }

  -- pathSetRules keeps the contract of set.Rules: its equivalence is symmetric and transitive, paths
  -- that are equivalent have one hash, and all its instances are one. This rests on the laws of the
  -- equality of keys.
  pub path_rules-Contract : Contract (path_rules {K = K})
  path_rules-Contract = record { lawful = path_rules-Lawful; agree = λ r q e a b. refl }

  covered :
      (s o : PathSet K)
      → IsValid s
      → IsValid o
      → all (has o) (values s) ≡ true
      → (set_length s ≤ set_length o)
        × (set_length s ≡ set_length o → (w : PathOf K) → has o w ≡ true → has s w ≡ true)
  covered s o u v h =
      let both =
        covers (values s) o s.rules (same_rules_value o.rules s.rules) (path_rules-Lawful s.rules) v
          (values-Apart s (path_rules-Lawful s.rules) u) h in
      (
        ground (arith, both.0, length-values s u),
        λ e w g.
            sym (any-values s w (path_rules-Lawful s.rules) u) ∙ both.1 (length-values s u ∙ e) w g,
      )

  all-present :
      (o : PathSet K) (xs : List (PathOf K))
      → all (λ p. path_equivalent p p) xs ≡ true
      → ((p : PathOf K) → any (path_equivalent p) xs ≡ true → has o p ≡ true)
      → all (has o) xs ≡ true
  all-present o [] r h = refl
  all-present o (x ∷ xs) r h =
      ground (arith, h x, all-present o xs (ground arith) (λ p a. h p (ground (arith, a))))

  any-present :
      (o : PathSet K) (w : PathOf K) (xs : List (PathOf K))
      → all (has o) xs ≡ true
      → any (path_equivalent w) xs ≡ true
      → has o w ≡ true
  any-present o w [] h a = absurd (ground arith)
  any-present o w (x ∷ xs) h a =
      ground (arith, has-equivalent o w x (path_rules-Lawful o.rules), any-present o w xs)

  -- If Equal says that two well-formed sets are equal, they have the same paths.
  pub path_set_equal_sound :
      (s o : PathSet K) (w : PathOf K)
      → IsValid s
      → IsValid o
      → path_set_equal s o ≡ true
      → has s w ≡ has o w
  unfolding path_set_equal
  path_set_equal_sound s o w u v h =
      let present : all (has o) (values s) ≡ true = ground arith in
      let same : set_length s ≡ set_length o =
        ground (arith, nat_beq_iff (set_length s) (set_length o)) in
      Bool-ext (has s w) (has o w)
        (λ g. any-present o w (values s) present (any-values s w (path_rules-Lawful s.rules) u ∙ g))
        (λ g. (covered s o u v present).1 same w g)

  -- Equal says that two well-formed sets are equal if they have the same paths and no path in them
  -- has an unknown key, that is each is equivalent to itself.
  pub path_set_equal_complete :
      (s o : PathSet K)
      → IsValid s
      → IsValid o
      → all (λ p. path_equivalent p p) (values s) ≡ true
      → all (λ p. path_equivalent p p) (values o) ≡ true
      → ((w : PathOf K) → has s w ≡ has o w)
      → path_set_equal s o ≡ true
  unfolding path_set_equal
  path_set_equal_complete s o u v r q h =
      let there =
        all-present o (values s) r
          (λ p a. sym (h p) ∙ sym (any-values s p (path_rules-Lawful s.rules) u) ∙ a) in
      let back =
        all-present s (values o) q
          (λ p a. h p ∙ sym (any-values o p (path_rules-Lawful o.rules) v) ∙ a) in
      ground (
        arith,
        there,
        (covered s o u v there).0,
        (covered o s v u back).0,
        nat_beq_iff (set_length s) (set_length o),
      )

  -- The paths that lead to a path: it, and each one that stops before its end, without the root.
  abbrev pub leads_to : PathOf K → PathOf K → Bool
  leads_to w path = not (length w == 0) && steps_equal k.known_equal w path

  length-take : (n : ℕ) (p : PathOf K) → n ≤ length p → length (take n p) ≡ n
  length-take zero p h = refl
  length-take (suc n) [] h = absurd (ground arith)
  length-take (suc n) (s ∷ p) h = ground (arith, length-take n p)

  steps_equal-take :
      (n : ℕ) (w p : PathOf K)
      → length w ≡ n
      → n ≤ length p
      → steps_equal k.known_equal w (take n p) ≡ steps_equal k.known_equal w p
  steps_equal-take n [] p e h = refl
  steps_equal-take zero (s ∷ w) p e h = absurd (ground arith)
  steps_equal-take (suc n) (s ∷ w) [] e h = absurd (ground arith)
  steps_equal-take (suc n) (get_attr_step a ∷ w) (get_attr_step b ∷ p) e h =
      ground (arith, steps_equal-take n w p)
  steps_equal-take (suc n) (get_attr_step a ∷ w) (index_step b ∷ p) e h = refl
  steps_equal-take (suc n) (index_step a ∷ w) (get_attr_step b ∷ p) e h = refl
  steps_equal-take (suc n) (index_step a ∷ w) (index_step b ∷ p) e h =
      ground (arith, steps_equal-take n w p)

  equivalent-take :
      (n : ℕ) (w p : PathOf K)
      → n ≤ length p
      → path_equivalent w (take n p) ≡ (length w == n && steps_equal k.known_equal w p)
  equivalent-take n w p h = ground (
    arith,
    length-take n p h,
    steps_equal-take n w p,
    nat_beq_iff (length w) n,
    nat_beq_iff (length w) (length (take n p)),
  )

  has-add_from :
      (n i : ℕ) (path : PathOf K) (s : PathSet K) (w : PathOf K)
      → n + i ≡ suc (length path)
      → has (add_from n i path s) w ≡ (
          has s w || leb i (length w) && ltb (length w) (n + i) && steps_equal k.known_equal w path)
  has-add_from zero i path s w e = ground arith
  has-add_from (suc n) i path s w e = ground (
    arith,
    has-add_from n (suc i) path (add (take i path) s) w (ground arith),
    has-add s (take i path) w (path_rules-Lawful s.rules),
    equivalent-take i w path (ground arith),
    nat_beq_iff (length w) i,
  )

  steps_equal_short : (w p : PathOf K) → steps_equal k.known_equal w p ≡ true → length w ≤ length p
  steps_equal_short [] p h = omega arith
  steps_equal_short (s ∷ w) [] h = absurd (ground arith)
  steps_equal_short (s ∷ w) (t ∷ p) h = ground (arith, steps_equal_short w p)

  -- After AddAllSteps a set has the paths that it had and those that lead to the given path.
  pub has-add_all_steps :
      (path : PathOf K) (s : PathSet K) (w : PathOf K)
      → has (add_all_steps path s) w ≡ (has s w || leads_to w path)
  unfolding add_all_steps
  has-add_all_steps path s w = ground (
    arith,
    has-add_from (length path) 1 path s w (omega arith),
    steps_equal_short w path,
    nat_beq_iff (length w) 0,
  )

  steps_equal_refl : (p : PathOf K) → steps_equal k.raw_equal p p ≡ true
  steps_equal_refl [] = refl
  steps_equal_refl (get_attr_step a ∷ p) =
      ground (arith, string_eq.test_iff a a, steps_equal_refl p)
  steps_equal_refl (index_step a ∷ p) = ground (arith, k.raw_refl a, steps_equal_refl p)

  take-append : (p q : PathOf K) → take (length p) (p ++ q) ≡ p
  take-append [] q = refl
  take-append (s ∷ p) q = cc (take-append p q)

  -- A path that goes on from another, by any number of Index and GetAttr steps, has it as a prefix.
  pub path_has_prefix-append : (p q : PathOf K) → path_has_prefix (p ++ q) p ≡ true
  unfolding path_has_prefix path_equals
  path_has_prefix-append p q = ground (
    arith,
    take-append p q,
    steps_equal_refl p,
    length-append p q,
    nat_beq_iff (length p) (length p),
  )
