-- ===== src/HashSet/Algebra.antt =====
-- Union, Intersection, Subtract and SymmetricDifference of cty/set/ops.go against the Boolean
-- operations on membership.
use go_cty.Prelude.Int.{int_eq}
use go_cty.Prelude.{
  ◌≡◌, refl, ap, ap₂, sym, ◌∙◌, Bool, true, false, not, ◌&&◌, ◌||◌, some, List, [], ◌∷◌, arith, any,
  if◌then◌else◌, Bool-cases, Bool-ext, inl, inr, get_or,
}
use mathlib.Core.Bool.{and_comm}
use go_cty.Prelude.Maps.{lookup}
use go_cty.HashSet.{
  Rules, HashSet, contains, has, add, new_set, new_set_from_slice, add_when, values, union,
  intersection, subtract, symmetric_difference,
}
use go_cty.HashSet.Lawful.{Lawful, IsValid}
use go_cty.HashSet.Membership.{contains_trans, has-add, add-IsValid}
use go_cty.HashSet.Removal.{has_scan}
use go_cty.HashSet.Values.{any-values}

-- The contract of `Rules`: each instance is lawful, and instances that say that they are the same
-- have one equivalence.
pub record Contract {ℓ} {R T : Type ℓ} (i : Rules R T) : Type ℓ where
  pub lawful : (r : R) → Lawful i r
  pub agree :
      (r q : R) → i.same_rules r q ≡ true → (a b : T) → i.equivalent r a b ≡ i.equivalent q a b

module _ {ℓ} {R T : Type ℓ} ⦃i : Rules R T⦄ where
  rules-add : (v : T) (s : HashSet R T) → (add v s).rules ≡ s.rules
  unfolding add
  rules-add v s = ground arith

  rules-add_when :
      (p : T → Bool) (vs : List T) (s : HashSet R T) → (add_when p vs s).rules ≡ s.rules
  rules-add_when p [] s = refl
  rules-add_when p (v ∷ vs) s =
      ground (arith, rules-add v s, rules-add_when p vs (if p v then add v s else s))

  -- The loop of an operation, over the values that pass its test.
  has-add_when :
      (p : T → Bool) (vs : List T) (s : HashSet R T) (r : R) (w : T)
      → Lawful i r
      → s.rules ≡ r
      → has (add_when p vs s) w ≡ (has s w || any (λ v. p v && i.equivalent r w v) vs)
  has-add_when p [] s r w l e = ground arith
  has-add_when p (v ∷ vs) s r w l e = elim (Bool-cases (p v)) [
    | inl keep ↦ rw keep (
        has-add_when p vs (add v s) r w l (rules-add v s ∙ e)
        ∙ ground (arith, has-add s v w (rw e l)))
    | inr skip ↦ rw skip (has-add_when p vs s r w l e)
  ]

  add_when-IsValid :
      (p : T → Bool) (vs : List T) (s : HashSet R T)
      → Lawful i s.rules
      → IsValid s
      → IsValid (add_when p vs s)
  add_when-IsValid p [] s l ok = ok
  add_when-IsValid p (v ∷ vs) s l ok = elim (Bool-cases (p v)) [
    | inl keep ↦ rw keep (add_when-IsValid p vs (add v s) (rw rules-add l) (add-IsValid s v l ok))
    | inr skip ↦ rw skip (add_when-IsValid p vs s l ok)
  ]

  new_set-IsValid : (r : R) → IsValid {T = T} (new_set r)
  new_set-IsValid r = record { unique = tt; buckets = λ id b e. cc }

  has-new_set : (r : R) (w : T) → has (new_set r) w ≡ false
  unfolding has
  has-new_set r w = refl

  -- NewSetFromSlice makes a well-formed set of exactly the values of the slice.
  pub has-new_set_from_slice :
      (r : R) (vs : List T) (w : T)
      → Lawful i r
      → IsValid (new_set_from_slice r vs)
        × (has (new_set_from_slice r vs) w ≡ any (i.equivalent r w) vs)
  unfolding new_set_from_slice
  has-new_set_from_slice r vs w l = (
    add_when-IsValid (λ _. true) vs (new_set r) l (new_set-IsValid r),
    has-add_when (λ _. true) vs (new_set r) r w l refl ∙ rw has-new_set refl,
  )

  -- Membership does not tell equivalent values apart.
  pub has-equivalent :
      (s : HashSet R T) (w v : T)
      → Lawful i s.rules
      → i.equivalent s.rules w v ≡ true
      → has s w ≡ has s v
  has-equivalent s w v l e =
      rw (has_scan, has_scan, l.same_hash w v e)
        (scan (get_or (lookup (i.hash s.rules v) s.vals) []))
    where
      scan :
          (b : List T) → contains (i.equivalent s.rules w) b ≡ contains (i.equivalent s.rules v) b
      scan b =
          Bool-ext _ _ (contains_trans s.rules l v w b (l.symm w v e))
            (contains_trans s.rules l w v b e)

  -- A test that does not tell equivalent values apart can be made first.
  any-and :
      (r : R) (p : T → Bool) (w : T) (vs : List T)
      → ((v : T) → i.equivalent r w v ≡ true → p w ≡ p v)
      → any (λ v. p v && i.equivalent r w v) vs ≡ (p w && any (i.equivalent r w) vs)
  any-and r p w [] h = ground arith
  any-and r p w (v ∷ vs) h = ground (arith, h v, any-and r p w vs h)

  any-agree :
      (r q : R) (w : T) (vs : List T)
      → ((a b : T) → i.equivalent r a b ≡ i.equivalent q a b)
      → any (i.equivalent r w) vs ≡ any (i.equivalent q w) vs
  any-agree r q w [] h = refl
  any-agree r q w (v ∷ vs) h = ground (arith, h w v, any-agree r q w vs h)

module _ {ℓ} {R T : Type ℓ} ⦃i : Rules R T⦄ (c : Contract i) where
  -- One pass over the values of a set into a new set under the rules `r`.
  pass :
      (s out : HashSet R T) (r : R) (p : T → Bool) (w : T)
      → ((a b : T) → i.equivalent r a b ≡ i.equivalent s.rules a b)
      → ((v : T) → i.equivalent r w v ≡ true → p w ≡ p v)
      → IsValid s
      → out.rules ≡ r
      → has (add_when p (values s) out) w ≡ (has out w || p w && has s w)
  pass s out r p w same respects ok e =
      has-add_when p (values s) out r w (c.lawful r) e
      ∙ ap (λ b. has out w || b)
          (any-and r p w (values s) respects
            ∙ ap (λ b. p w && b)
                (any-agree r s.rules w (values s) same ∙ any-values s w (c.lawful s.rules) ok))

  pass-IsValid : (p : T → Bool) (vs : List T) (r : R) → IsValid (add_when p vs (new_set r))
  pass-IsValid p vs r = add_when-IsValid p vs (new_set r) (c.lawful r) (new_set-IsValid r)

  pass_twice-IsValid :
      (p q : T → Bool) (us vs : List T) (r : R)
      → IsValid (add_when q us (add_when p vs (new_set r)))
  pass_twice-IsValid p q us vs r =
      add_when-IsValid q us (add_when p vs (new_set r)) (c.lawful _) (pass-IsValid p vs r)

  -- `has s` asks the same of equivalent values, under the rules of `s` or any that agree.
  has_respects :
      (s : HashSet R T) (r : R) (w v : T)
      → ((a b : T) → i.equivalent r a b ≡ i.equivalent s.rules a b)
      → i.equivalent r w v ≡ true
      → has s w ≡ has s v
  has_respects s r w v same e = has-equivalent s w v (c.lawful s.rules) (sym (same w v) ∙ e)

  -- Under the same rules Union succeeds, with a well-formed set that has a value exactly if one of
  -- the two sets has it.
  pub has-union :
      (s1 s2 : HashSet R T)
      → IsValid s1
      → IsValid s2
      → i.same_rules s1.rules s2.rules ≡ true
      → (u : HashSet R T) × (union s1 s2 ≡ some u)
        × IsValid u
        × ((w : T) → has u w ≡ (has s1 w || has s2 w))
  unfolding union
  has-union s1 s2 ok1 ok2 same =
      let r = s1.rules in
      let first = add_when (λ _. true) (values s1) (new_set r) in
      (
        add_when (λ _. true) (values s2) first,
        rw same refl,
        pass_twice-IsValid (λ _. true) (λ _. true) (values s2) (values s1) r,
        λ w.
            pass s2 first r (λ _. true) w (c.agree r s2.rules same) (λ v e. refl) ok2
              (rules-add_when (λ _. true) (values s1) (new_set r))
            ∙ ap (λ b. b || has s2 w)
                (pass s1 (new_set r) r (λ _. true) w (λ a b. refl) (λ v e. refl) ok1 refl
                  ∙ rw has-new_set refl),
      )

  -- Under the same rules Intersection succeeds, with a well-formed set that has a value exactly if
  -- both sets have it.
  pub has-intersection :
      (s1 s2 : HashSet R T)
      → IsValid s1
      → IsValid s2
      → i.same_rules s1.rules s2.rules ≡ true
      → (u : HashSet R T) × (intersection s1 s2 ≡ some u)
        × IsValid u
        × ((w : T) → has u w ≡ (has s1 w && has s2 w))
  unfolding intersection
  has-intersection s1 s2 ok1 ok2 same =
      let r = s1.rules in
      (
        add_when (has s2) (values s1) (new_set r),
        rw same refl,
        pass-IsValid (has s2) (values s1) r,
        λ w.
            pass s1 (new_set r) r (has s2) w (λ a b. refl)
              (λ v. has_respects s2 r w v (c.agree r s2.rules same)) ok1 refl
            ∙ rw has-new_set (and_comm (has s2 w) (has s1 w)),
      )

  -- Under the same rules Subtract succeeds, with a well-formed set that has a value exactly if the
  -- first set has it and the second does not.
  pub has-subtract :
      (s1 s2 : HashSet R T)
      → IsValid s1
      → IsValid s2
      → i.same_rules s1.rules s2.rules ≡ true
      → (u : HashSet R T) × (subtract s1 s2 ≡ some u)
        × IsValid u
        × ((w : T) → has u w ≡ (has s1 w && not (has s2 w)))
  unfolding subtract
  has-subtract s1 s2 ok1 ok2 same =
      let r = s1.rules in
      (
        add_when (λ v. not (has s2 v)) (values s1) (new_set r),
        rw same refl,
        pass-IsValid (λ v. not (has s2 v)) (values s1) r,
        λ w.
            pass s1 (new_set r) r (λ v. not (has s2 v)) w (λ a b. refl)
              (λ v e. ap not (has_respects s2 r w v (c.agree r s2.rules same) e)) ok1 refl
            ∙ rw has-new_set (and_comm (not (has s2 w)) (has s1 w)),
      )

  -- Under the same rules SymmetricDifference succeeds, with a well-formed set that has a value
  -- exactly if one of the two sets has it and the other does not.
  pub has-symmetric_difference :
      (s1 s2 : HashSet R T)
      → IsValid s1
      → IsValid s2
      → i.same_rules s1.rules s2.rules ≡ true
      → (u : HashSet R T) × (symmetric_difference s1 s2 ≡ some u)
        × IsValid u
        × ((w : T) → has u w ≡ (has s1 w && not (has s2 w) || has s2 w && not (has s1 w)))
  unfolding symmetric_difference
  has-symmetric_difference s1 s2 ok1 ok2 same =
      let r = s1.rules in
      let first = add_when (λ v. not (has s2 v)) (values s1) (new_set r) in
      (
        add_when (λ v. not (has s1 v)) (values s2) first,
        rw same refl,
        pass_twice-IsValid (λ v. not (has s2 v)) (λ v. not (has s1 v)) (values s2) (values s1) r,
        λ w.
            pass s2 first r (λ v. not (has s1 v)) w (c.agree r s2.rules same)
              (λ v e. ap not (has_respects s1 r w v (λ a b. refl) e)) ok2
              (rules-add_when (λ v. not (has s2 v)) (values s1) (new_set r))
            ∙ ap₂ (λ a b. a || b)
                (pass s1 (new_set r) r (λ v. not (has s2 v)) w (λ a b. refl)
                    (λ v e. ap not (has_respects s2 r w v (c.agree r s2.rules same) e)) ok1 refl
                  ∙ rw has-new_set (and_comm (not (has s2 w)) (has s1 w)))
                (and_comm (not (has s1 w)) (has s2 w)),
      )
