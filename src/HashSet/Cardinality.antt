-- ===== src/HashSet/Cardinality.antt =====
-- The values that Values lists, one by one, and the sizes of sets that cover one another.
use go_cty.Prelude.{
  ◌≤◌, ◌≡◌, refl, sym, ◌∙◌, Bool, true, false, Option, none, some, List, [], ◌∷◌, length, any, all,
  get_or, any-flat_map, All, ◌==◌, arith,
}
use go_cty.Prelude.Int.{ℤ, ltb_ℤ, int_eq}
use go_cty.Prelude.Maps.{Map, keys, lookup, Unique, lookup-keys}
use go_cty.Prelude.Sorting.{sort_by, Apart, Apart-sort_by, Apart-append}
use go_cty.HashSet.{Rules, HashSet, contains-any, has, values, set_length, in_order, remove}
use go_cty.HashSet.Lawful.{Lawful, Distinct, IsValid}
use go_cty.HashSet.Membership.{bucket_facts}
use go_cty.HashSet.Removal.{has-remove, length-remove, remove-IsValid}
use go_cty.HashSet.Values.{any-single, other_bucket, in_buckets}

abbrev same_key : ℤ → ℤ → Bool
same_key a b = b == a

module _ {ℓ} {V : Type ℓ} where
  keys-Apart : (m : Map ℤ V) → Unique m → Apart same_key (keys m)
  keys-Apart [] u = tt
  keys-Apart ((k, v) ∷ m) u = (ground (arith, lookup-keys k m, u.0), keys-Apart m u.1)

module _ {ℓ} {R T : Type ℓ} ⦃i : Rules R T⦄ where
  Distinct-Apart : (r : R) (b : List T) → Distinct i r b → Apart (i.equivalent r) b
  Distinct-Apart r [] d = tt
  Distinct-Apart r (x ∷ b) d =
      (sym (contains-any (i.equivalent r x) b) ∙ d.0, Distinct-Apart r b d.1)

  -- A value has no equivalent in the buckets of other hashes.
  foreign :
      (s : HashSet R T) (x : T) (ks : List ℤ)
      → Lawful i s.rules
      → IsValid s
      → any (same_key (i.hash s.rules x)) ks ≡ false
      → any (i.equivalent s.rules x) (in_buckets s ks) ≡ false
  foreign s x ks l ok h =
      let test = i.equivalent s.rules x in
      let g : ℤ → Bool = λ id. any test (get_or (lookup id s.vals) []) in
      any-flat_map test (λ id. get_or (lookup id s.vals) []) ks
      ∙ any-single g (i.hash s.rules x) ks (λ id ne.
        other_bucket s.rules l x id (get_or (lookup id s.vals) [])
          (bucket_facts s id (lookup id s.vals) ok refl).0 ne)
      ∙ ground (arith, h)

  All-foreign :
      (s : HashSet R T) (k : ℤ) (ks : List ℤ) (b : List T)
      → Lawful i s.rules
      → IsValid s
      → any (same_key k) ks ≡ false
      → All (λ t. i.hash s.rules t ≡ k) b
      → All (λ x. any (i.equivalent s.rules x) (in_buckets s ks) ≡ false) b
  All-foreign s k ks [] l ok h a = tt
  All-foreign s k ks (x ∷ b) l ok h a =
      (foreign s x ks l ok (rw (a.0) h), All-foreign s k ks b l ok h a.1)

  in_buckets-Apart :
      (s : HashSet R T) (ks : List ℤ)
      → Lawful i s.rules
      → IsValid s
      → Apart same_key ks
      → Apart (i.equivalent s.rules) (in_buckets s ks)
  in_buckets-Apart s [] l ok a = tt
  in_buckets-Apart s (k ∷ ks) l ok a =
      let b = get_or (lookup k s.vals) [] in
      let facts = bucket_facts s k (lookup k s.vals) ok refl in
      Apart-append (i.equivalent s.rules) b (in_buckets s ks) (Distinct-Apart s.rules b facts.1)
        (in_buckets-Apart s ks l ok a.1) (All-foreign s k ks b l ok a.0 facts.0)

  in_order-Apart :
      (r : R) (o : Option (T → T → Bool)) (xs : List T)
      → Lawful i r
      → Apart (i.equivalent r) xs
      → Apart (i.equivalent r) (in_order o xs)
  in_order-Apart r none xs l a = a
  in_order-Apart r (some less) xs l a = Apart-sort_by (i.equivalent r) less xs l.symm a

  -- No two values that Values lists are equivalent.
  pub values-Apart :
      (s : HashSet R T) → Lawful i s.rules → IsValid s → Apart (i.equivalent s.rules) (values s)
  unfolding values
  values-Apart s l ok =
      in_order-Apart s.rules (i.less s.rules) (in_buckets s (sort_by ltb_ℤ (keys s.vals))) l (
        in_buckets-Apart s (sort_by ltb_ℤ (keys s.vals)) l ok (
          Apart-sort_by same_key ltb_ℤ (keys s.vals)
            (λ a b h. ground (arith, int_eq.test_iff a b, int_eq.test_iff b a))
            (keys-Apart s.vals ok.unique)))

  remove_rules : (o : HashSet R T) (v : T) → (remove v o).rules ≡ o.rules
  unfolding remove
  remove_rules o v = ground arith

  empty-has : (o : HashSet R T) (w : T) → IsValid o → set_length o ≡ 0 → has o w ≡ false
  empty-has o w ok e = ground (arith, length-remove o w ok)

  all-has-remove :
      (o : HashSet R T) (x : T) (xs : List T)
      → Lawful i o.rules
      → IsValid o
      → any (i.equivalent o.rules x) xs ≡ false
      → all (has o) xs ≡ true
      → all (has (remove x o)) xs ≡ true
  all-has-remove o x [] l ok a h = refl
  all-has-remove o x (y ∷ xs) l ok a h =
      ground (arith, has-remove o x y l ok, l.symm y x, all-has-remove o x xs l ok)

  -- A list without equivalent values, all in the set, is no longer than the set; and if it is as
  -- long, everything in the set has an equivalent in it.
  pub covers :
      (xs : List T) (o : HashSet R T) (r : R)
      → o.rules ≡ r
      → Lawful i r
      → IsValid o
      → Apart (i.equivalent r) xs
      → all (has o) xs ≡ true
      → (length xs ≤ set_length o)
        × (length xs ≡ set_length o → (w : T) → has o w ≡ true → any (i.equivalent r w) xs ≡ true)
  covers [] o r q l ok a h = (omega arith, λ e w k. absurd (ground (arith, empty-has o w ok)))
  covers (x ∷ xs) o r q l ok a h =
      let l' : Lawful i o.rules = rw q l in
      let rest =
        covers xs (remove x o) r (remove_rules o x ∙ q) l (remove-IsValid o x ok) a.1
          (all-has-remove o x xs l' ok (rw q a.0) (ground arith)) in
      (
        ground (arith, rest.0, length-remove o x ok),
        λ e w k.
            ground
              (arith, rest.1 (ground (arith, length-remove o x ok)) w, has-remove o x w l' ok, q),
      )
