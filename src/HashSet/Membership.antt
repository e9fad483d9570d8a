-- ===== src/HashSet/Membership.antt =====
-- What Add and Remove of cty/set/ops.go do to Has and to Length.
use go_cty.Prelude.{
  ◌+◌, ◌≡◌, ◌≢◌, refl, sym, ◌∙◌, Bool, true, false, ◌||◌, Option, none, some, List, [], ◌∷◌, ◌++◌,
  arith, All, All-append, Bool-cases, inl, inr, length, length-append, if◌then◌else◌, get_or, ◌==◌,
}
use mathlib.Core.Path.{subst₂}
use go_cty.Prelude.Int.{ℤ, int_eq}
use go_cty.Prelude.Maps.{Map, lookup, insert, delete, Unique, lookup-insert, insert-Unique}
use go_cty.HashSet.{Rules, HashSet, contains, has, add, set_length, total, ensure_bucket}
use go_cty.HashSet.Lawful.{Lawful, Distinct, IsBucket, IsValid}

module _ {ℓ} {T : Type ℓ} where
  contains-append :
      (test : T → Bool) (b : List T) (v : T)
      → contains test (b ++ v ∷ []) ≡ (contains test b || test v)
  contains-append test [] v = ground arith
  contains-append test (x ∷ b) v = ground (arith, contains-append test b v)

  append-ne-nil : (b : List T) (v : T) → b ++ v ∷ [] ≢ []
  append-ne-nil [] v e = cc
  append-ne-nil (x ∷ b) v e = cc

  lookup-ensure_bucket :
      (hv j : ℤ) (m : Map ℤ (List T))
      → lookup j (ensure_bucket hv m)
        ≡ (if hv == j then some (get_or (lookup hv m) []) else lookup j m)
  lookup-ensure_bucket hv j m = ground (arith, int_eq.test_iff hv j, lookup-insert hv j [] m)

  pub total-insert :
      (k : ℤ) (b : List T) (m : Map ℤ (List T))
      → total (insert k b m) + length (get_or (lookup k m) []) ≡ total m + length b
  total-insert k b [] = ground arith
  total-insert k b ((j, c) ∷ m) = ground (arith, total-insert k b m)

  pub total-delete :
      (k : ℤ) (m : Map ℤ (List T))
      → Unique m
      → total (delete k m) + length (get_or (lookup k m) []) ≡ total m
  total-delete k [] u = ground arith
  total-delete k ((j, c) ∷ m) u = ground (arith, int_eq.test_iff j k, total-delete k m)

  pub total-ensure_bucket : (k : ℤ) (m : Map ℤ (List T)) → total (ensure_bucket k m) ≡ total m
  total-ensure_bucket k m = ground (arith, total-insert k [] m)

  ensure_bucket-Unique : (hv : ℤ) (m : Map ℤ (List T)) → Unique m → Unique (ensure_bucket hv m)
  ensure_bucket-Unique hv m u = ground (arith, insert-Unique hv [] m u)

  -- The bucket that Add finds holds the value: then nothing changed.
  ensure_bucket-found :
      (test : T → Bool) (hv : ℤ) (m : Map ℤ (List T))
      → contains test (get_or (lookup hv m) []) ≡ true
      → ensure_bucket hv m ≡ m
  ensure_bucket-found test hv m h = ground arith

module _ {ℓ} {R T : Type ℓ} ⦃i : Rules R T⦄ where
  pub contains_trans :
      (r : R) (l : Lawful i r) (w v : T) (b : List T)
      → i.equivalent r w v ≡ true
      → contains (i.equivalent r v) b ≡ true
      → contains (i.equivalent r w) b ≡ true
  contains_trans r l w v [] e h = ground arith
  contains_trans r l w v (x ∷ b) e h = ground (arith, l.trans w v x, contains_trans r l w v b e)

  -- For rules whose equivalence is symmetric and transitive and that give equivalent values one hash:
  -- after Add(v) the set has w exactly if it had w before or w is equivalent to v.
  pub has-add :
      (s : HashSet R T) (v w : T)
      → Lawful i s.rules
      → has (add v s) w ≡ (has s w || i.equivalent s.rules w v)
  unfolding has add
  has-add s v w l = ground (
    arith,
    l.same_hash w v,
    contains_trans s.rules l w v (get_or (lookup (i.hash s.rules v) s.vals) []),
    contains-append (i.equivalent s.rules w) (get_or (lookup (i.hash s.rules v) s.vals) []) v,
    lookup-insert (i.hash s.rules v) (i.hash s.rules w) [] s.vals,
    int_eq.test_iff (i.hash s.rules v) (i.hash s.rules w),
    lookup-insert (i.hash s.rules v) (i.hash s.rules w)
        (get_or (lookup (i.hash s.rules v) s.vals) [] ++ v ∷ [])
        (ensure_bucket (i.hash s.rules v) s.vals),
  )

  Distinct-append :
      (r : R) (l : Lawful i r) (v : T) (b : List T)
      → Distinct i r b
      → contains (i.equivalent r v) b ≡ false
      → Distinct i r (b ++ v ∷ [])
  Distinct-append r l v [] d h = (refl, tt)
  Distinct-append r l v (x ∷ b) d h =
      ground (arith, contains-append (i.equivalent r x) b v, l.symm x v, Distinct-append r l v b)

  append-IsBucket :
      (r : R) (l : Lawful i r) (v : T) (b : List T)
      → All (λ t. i.hash r t ≡ i.hash r v) b
      → Distinct i r b
      → contains (i.equivalent r v) b ≡ false
      → IsBucket i r (i.hash r v) (b ++ v ∷ [])
  append-IsBucket r l v b a d h = record {
    filled = append-ne-nil b v;
    hashed = All-append _ b (v ∷ []) a (refl, tt);
    distinct = Distinct-append r l v b d h;
  }

  pub bucket_facts :
      (s : HashSet R T) (id : ℤ) (o : Option (List T))
      → IsValid s
      → lookup id s.vals ≡ o
      → All (λ t. i.hash s.rules t ≡ id) (get_or o []) × Distinct i s.rules (get_or o [])
  bucket_facts s id none ok e = (tt, tt)
  bucket_facts s id (some b) ok e = ((ok.buckets id b e).hashed, (ok.buckets id b e).distinct)

  -- A write of a good bucket keeps the other buckets.
  pub insert-IsValid :
      (s : HashSet R T) (hv : ℤ) (b : List T) (m : Map ℤ (List T))
      → IsValid s
      → Unique m
      → ((id : ℤ) → hv ≢ id → lookup id m ≡ lookup id s.vals)
      → IsBucket i s.rules hv b
      → IsValid (record s { vals = insert hv b m })
  insert-IsValid s hv b m ok u same new = record {
    unique = insert-Unique hv b m u;
    buckets = λ id c e. elim (Bool-cases (hv == id)) [
      | inl hit ↦
          let here : hv ≡ id = (int_eq.test_iff hv id).0 hit in
          let same_b : b ≡ c = ground (arith, lookup-insert hv id b m) in
          subst₂ (λ j d. IsBucket i s.rules j d) here same_b new
      | inr miss ↦
          let away : hv ≢ id = λ p. ground (arith, int_eq.test_iff hv id) in
          ok.buckets id c (sym (same id away) ∙ (ground (arith, lookup-insert hv id b m)))
    ];
  }

  -- Add keeps a set well formed.
  pub add-IsValid : (s : HashSet R T) (v : T) → Lawful i s.rules → IsValid s → IsValid (add v s)
  unfolding add
  add-IsValid s v l ok =
      let hv = i.hash s.rules v in
      let old = get_or (lookup hv s.vals) [] in
      let facts = bucket_facts s hv (lookup hv s.vals) ok refl in
      elim (Bool-cases (contains (i.equivalent s.rules v) old)) [
        | inl found ↦ rw (found, ensure_bucket-found _ hv s.vals found) ok
        | inr fresh ↦ rw fresh (
            insert-IsValid s hv (old ++ v ∷ []) (ensure_bucket hv s.vals) ok
              (ensure_bucket-Unique hv s.vals ok.unique)
              (λ id away. ground (arith, lookup-ensure_bucket hv id s.vals, int_eq.test_iff hv id))
              (append-IsBucket s.rules l v old facts.0 facts.1 fresh))
      ]

  -- Add lengthens the set by one unless it has the value already.
  pub length-add :
      (s : HashSet R T) (v : T)
      → set_length (add v s) ≡ (if has s v then set_length s else set_length s + 1)
  unfolding add set_length has
  length-add s v = ground (
    arith,
    total-insert (i.hash s.rules v) (get_or (lookup (i.hash s.rules v) s.vals) [] ++ v ∷ [])
        (ensure_bucket (i.hash s.rules v) s.vals),
    total-ensure_bucket (i.hash s.rules v) s.vals,
    lookup-ensure_bucket (i.hash s.rules v) (i.hash s.rules v) s.vals,
    length-append (get_or (lookup (i.hash s.rules v) s.vals) []) (v ∷ []),
    int_eq.test_iff (i.hash s.rules v) (i.hash s.rules v),
  )
