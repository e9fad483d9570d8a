-- ===== src/HashSet/Values.antt =====
-- Values of cty/set/ops.go: what it lists, how many, and in which order.
use go_cty.Prelude.{
  ◌≡◌, ◌≢◌, refl, ◌∙◌, Bool, false, ◌&&◌, Option, none, some, List, [], ◌∷◌, arith, any, All,
  length, length-append, get_or, ◌==◌, any-flat_map, flat_map, Equatable,
}
use go_cty.Prelude.Int.{ℤ, int_eq, ltb_ℤ}
use go_cty.Prelude.Maps.{Map, keys, lookup, Unique, lookup-keys}
use go_cty.Prelude.Sorting.{
  sort_by, any-sort_by, length-sort_by, flat_map-sort_by, Sorted, IsStrictWeak, sort_by-Sorted,
}
use go_cty.HashSet.{Rules, HashSet, contains-any, has, values, set_length, total, in_order}
use go_cty.HashSet.Lawful.{Lawful, IsValid}
use go_cty.HashSet.Membership.{bucket_facts}

module _ {ℓ} {K : Type ℓ} ⦃e : Equatable K⦄ where
  -- A scan in which one key alone can succeed.
  pub any-single :
      (g : K → Bool) (h : K) (ks : List K)
      → ((k : K) → k ≢ h → g k ≡ false)
      → any g ks ≡ (g h && any (λ k. k == h) ks)
  any-single g h [] away = ground arith
  any-single g h (k ∷ ks) away = ground (arith, e.test_iff k h, away k, any-single g h ks away)

module _ {ℓ} {T : Type ℓ} where
  any-in_order :
      (p : T → Bool) (o : Option (T → T → Bool)) (xs : List T) → any p (in_order o xs) ≡ any p xs
  any-in_order p none xs = refl
  any-in_order p (some less) xs = any-sort_by less p xs

  length-in_order : (o : Option (T → T → Bool)) (xs : List T) → length (in_order o xs) ≡ length xs
  length-in_order none xs = refl
  length-in_order (some less) xs = length-sort_by less xs

  total-keys :
      (f : ℤ → List T) (m : Map ℤ (List T))
      → Unique m
      → ((id : ℤ) (b : List T) → lookup id m ≡ some b → f id ≡ b)
      → length (flat_map f (keys m)) ≡ total m
  total-keys f [] u h = refl
  total-keys f ((k, b) ∷ m) u h = ground (
    arith,
    h k b (ground (arith, int_eq.test_iff k k)),
    length-append (f k) (flat_map f (keys m)),
    total-keys f m u.1 (λ id c e. h id c (ground (arith, int_eq.test_iff k id))),
  )

module _ {ℓ} {R T : Type ℓ} ⦃i : Rules R T⦄ where
  abbrev pub in_buckets : HashSet R T → List ℤ → List T
  in_buckets s = flat_map (λ id. get_or (lookup id s.vals) [])

  -- Only the bucket of its own hash can hold something equivalent to `w`.
  pub other_bucket :
      (r : R) (l : Lawful i r) (w : T) (id : ℤ) (b : List T)
      → All (λ t. i.hash r t ≡ id) b
      → id ≢ i.hash r w
      → any (i.equivalent r w) b ≡ false
  other_bucket r l w id [] a ne = refl
  other_bucket r l w id (x ∷ b) a ne = ground (arith, l.same_hash w x, other_bucket r l w id b)

  any-in_buckets :
      (s : HashSet R T) (w : T)
      → Lawful i s.rules
      → IsValid s
      → any (i.equivalent s.rules w) (in_buckets s (sort_by ltb_ℤ (keys s.vals))) ≡ has s w
  unfolding has
  any-in_buckets s w l ok =
      let test = i.equivalent s.rules w in
      let hw = i.hash s.rules w in
      let g : ℤ → Bool = λ id. any test (get_or (lookup id s.vals) []) in
      any-flat_map test (λ id. get_or (lookup id s.vals) []) (sort_by ltb_ℤ (keys s.vals))
      ∙ any-sort_by ltb_ℤ g (keys s.vals)
      ∙ any-single g hw (keys s.vals) (λ id ne.
        other_bucket s.rules l w id (get_or (lookup id s.vals) [])
          (bucket_facts s id (lookup id s.vals) ok refl).0 ne)
      ∙ ground (arith, lookup-keys hw s.vals, contains-any test (get_or (lookup hw s.vals) []))

  -- Values lists a value equivalent to w exactly if the set has w.
  pub any-values :
      (s : HashSet R T) (w : T)
      → Lawful i s.rules
      → IsValid s
      → any (i.equivalent s.rules w) (values s) ≡ has s w
  unfolding values
  any-values s w l ok =
      any-in_order (i.equivalent s.rules w) (i.less s.rules) _ ∙ any-in_buckets s w l ok

  -- Values lists as many values as Length counts.
  pub length-values : (s : HashSet R T) → IsValid s → length (values s) ≡ set_length s
  unfolding values set_length
  length-values s ok =
      length-in_order (i.less s.rules) _
      ∙ flat_map-sort_by ltb_ℤ (λ id. get_or (lookup id s.vals) []) (keys s.vals)
      ∙ total-keys _ s.vals ok.unique (λ id b e. ground arith)

  -- Under ordered rules Values is in their order.
  pub values-Sorted :
      (s : HashSet R T) (less : T → T → Bool)
      → i.less s.rules ≡ some less
      → IsStrictWeak less
      → Sorted less (values s)
  unfolding values
  values-Sorted s less e o =
      rw e (sort_by-Sorted less (in_buckets s (sort_by ltb_ℤ (keys s.vals))) o)
