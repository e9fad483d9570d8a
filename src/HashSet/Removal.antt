-- ===== src/HashSet/Removal.antt =====
-- What Remove of cty/set/ops.go does to Has, to Length and to well-formedness.
use go_cty.Prelude.{
  suc, ◌+◌, ◌≡◌, refl, Bool, true, false, not, ◌&&◌, List, [], ◌∷◌, arith, All, Bool-cases, inl,
  inr, length, if◌then◌else◌, get_or, ◌==◌,
}
use go_cty.Prelude.Int.{ℤ, int_eq}
use go_cty.Prelude.Maps.{Map, lookup, Unique, lookup-insert, lookup-delete, delete-Unique}
use go_cty.HashSet.{
  Rules, HashSet, contains, without_first, length-without_first, has, remove, set_length, total,
  store_bucket,
}
use go_cty.HashSet.Lawful.{Lawful, Distinct, IsValid}
use go_cty.HashSet.Membership.{
  contains_trans, bucket_facts, insert-IsValid, total-insert, total-delete,
}

module _ {ℓ} {T : Type ℓ} where
  without_first-All :
      (P : T → Type 0) (test : T → Bool) (b : List T) → All P b → All P (without_first test b)
  without_first-All P test [] a = tt
  without_first-All P test (x ∷ b) a = ground (arith, without_first-All P test b)

  contains-without_first_le :
      (test p : T → Bool) (b : List T)
      → contains p b ≡ false
      → contains p (without_first test b) ≡ false
  contains-without_first_le test p [] h = refl
  contains-without_first_le test p (x ∷ b) h = ground (arith, contains-without_first_le test p b)

  lookup-store_bucket :
      (hv j : ℤ) (b : List T) (m : Map ℤ (List T))
      → get_or (lookup j (store_bucket hv b m)) [] ≡ (if hv == j then b else get_or (lookup j m) [])
  lookup-store_bucket hv j [] m = ground (arith, lookup-delete hv j m)
  lookup-store_bucket hv j (x ∷ b) m = ground (arith, lookup-insert hv j (x ∷ b) m)

  total-store_bucket :
      (hv : ℤ) (b : List T) (m : Map ℤ (List T))
      → Unique m
      → total (store_bucket hv b m) + length (get_or (lookup hv m) []) ≡ total m + length b
  total-store_bucket hv [] m u = ground (arith, total-delete hv m u)
  total-store_bucket hv (x ∷ b) m u = ground (arith, total-insert hv (x ∷ b) m)

module _ {ℓ} {R T : Type ℓ} ⦃i : Rules R T⦄ where
  without_first-Distinct :
      (r : R) (test : T → Bool) (b : List T) → Distinct i r b → Distinct i r (without_first test b)
  without_first-Distinct r test [] d = tt
  without_first-Distinct r test (x ∷ b) d =
      ground (
        arith,
        without_first-Distinct r test b,
        contains-without_first_le test (i.equivalent r x) b,
      )

  -- What is left of a bucket after Remove.
  contains-without_first :
      (r : R) (l : Lawful i r) (v w : T) (b : List T)
      → Distinct i r b
      → contains (i.equivalent r v) b ≡ true
      → contains (i.equivalent r w) (without_first (i.equivalent r v) b)
        ≡ (contains (i.equivalent r w) b && not (i.equivalent r w v))
  contains-without_first r l v w [] d h = ground arith
  contains-without_first r l v w (x ∷ b) d h = ground (
    arith,
    l.symm v x,
    l.symm w v,
    l.trans w v x,
    l.trans w x v,
    l.trans x v w,
    l.trans v w x,
    contains_trans r l x w b,
    contains-without_first r l v w b,
  )

  -- What `has` reads, as one scan.
  pub has_scan :
      (s : HashSet R T) (w : T)
      → has s w ≡ contains (i.equivalent s.rules w) (get_or (lookup (i.hash s.rules w) s.vals) [])
  unfolding has
  has_scan s w = ground arith

  contains_ne :
      (r : R) (l : Lawful i r) (v w : T) (b : List T)
      → contains (i.equivalent r v) b ≡ false
      → i.equivalent r w v ≡ true
      → contains (i.equivalent r w) b ≡ false
  contains_ne r l v w b h e = ground (arith, l.symm w v, contains_trans r l v w b)

  -- Remove as one test of the bucket, an absent one counting as empty.
  remove_lem :
      (s : HashSet R T) (v : T)
      → remove v s ≡ (
          if contains (i.equivalent s.rules v) (get_or (lookup (i.hash s.rules v) s.vals) [])
          then record s {
            vals =
                store_bucket
                  (i.hash s.rules v)
                  (without_first
                    (i.equivalent s.rules v)
                    (get_or (lookup (i.hash s.rules v) s.vals) []))
                  s.vals;
          }
          else s)
  unfolding remove
  remove_lem s v = ground arith

  -- After Remove(v) the set has w exactly if it had w and w is not equivalent to v.
  pub has-remove :
      (s : HashSet R T) (v w : T)
      → Lawful i s.rules
      → IsValid s
      → has (remove v s) w ≡ (has s w && not (i.equivalent s.rules w v))
  has-remove s v w l ok =
      let hv = i.hash s.rules v in
      let hw = i.hash s.rules w in
      let b = get_or (lookup hv s.vals) [] in
      let rest = without_first (i.equivalent s.rules v) b in
      let facts = bucket_facts s hv (lookup hv s.vals) ok refl in
      elim (Bool-cases (contains (i.equivalent s.rules v) b)) [
        | inl found ↦
            rw (remove_lem, found, has_scan, has_scan, lookup-store_bucket)
              (ground (
                arith,
                contains-without_first s.rules l v w b facts.1 found,
                l.same_hash w v,
                int_eq.test_iff hv hw,
              ))
        | inr missed ↦
            rw (remove_lem, missed, has_scan)
              (ground (arith, contains_ne s.rules l v w b missed, l.same_hash w v))
      ]

  -- Remove shortens the set by one if it has the value.
  pub length-remove :
      (s : HashSet R T) (v : T)
      → IsValid s
      → (if has s v then suc (set_length (remove v s)) else set_length (remove v s)) ≡ set_length s
  unfolding remove set_length has
  length-remove s v ok =
      let hv = i.hash s.rules v in
      let b = get_or (lookup hv s.vals) [] in
      let test = i.equivalent s.rules v in
      ground (
        arith,
        total-store_bucket hv (without_first test b) s.vals ok.unique,
        length-without_first test b,
      )

  store_bucket-IsValid :
      (s : HashSet R T) (hv : ℤ) (b : List T)
      → IsValid s
      → All (λ t. i.hash s.rules t ≡ hv) b
      → Distinct i s.rules b
      → IsValid (record s { vals = store_bucket hv b s.vals })
  store_bucket-IsValid s hv [] ok a d = record {
    unique = delete-Unique hv s.vals ok.unique;
    buckets = λ id c e. ok.buckets id c (ground (arith, lookup-delete hv id s.vals));
  }
  store_bucket-IsValid s hv (x ∷ b) ok a d =
      insert-IsValid s hv (x ∷ b) s.vals ok ok.unique (λ id away. refl)
        (record { filled = λ e. cc; hashed = a; distinct = d })

  -- Remove keeps a set well formed.
  pub remove-IsValid : (s : HashSet R T) (v : T) → IsValid s → IsValid (remove v s)
  remove-IsValid s v ok =
      let hv = i.hash s.rules v in
      let b = get_or (lookup hv s.vals) [] in
      let test = i.equivalent s.rules v in
      let facts = bucket_facts s hv (lookup hv s.vals) ok refl in
      elim (Bool-cases (contains test b)) [
        | inl found ↦
            rw (remove_lem, found)
              (store_bucket-IsValid s hv (without_first test b) ok
                (without_first-All _ test b facts.0)
                (without_first-Distinct s.rules test b facts.1))
        | inr missed ↦ rw (remove_lem, missed) ok
      ]
