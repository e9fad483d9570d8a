-- ===== src/HashSet.antt =====
-- cty/set: a hash set over membership rules given by the caller (set.go, ops.go, rules.go,
-- iterator.go). The proofs are in the modules below.
mod Buckets
pub mod Values
pub mod Lawful
pub mod Membership
pub mod Removal
pub mod Copying
pub mod Cardinality
pub mod Algebra
mod Examples
unfoldable pub use Buckets.{contains, without_first}
pub use Buckets.{contains-any, length-without_first}
use go_cty.Prelude.{
  ℕ, ◌+◌, Bool, true, false, not, Option, none, some, List, [], ◌∷◌, ◌++◌, length, flat_map, get_or,
  if◌then◌else◌,
}
use go_cty.Prelude.Int.{ℤ, ltb_ℤ, int_eq}
use go_cty.Prelude.Maps.{Map, keys, lookup, insert, delete}
use go_cty.Prelude.Sorting.{sort_by}

-- `Rules` and `OrderedRules`: `R` is the type of rules instances. `less` is `none` where an
-- instance does not implement `OrderedRules`.
pub record Rules {ℓ} (R T : Type ℓ) : Type ℓ where
  pub hash : R → T → ℤ
  pub equivalent : R → T → T → Bool
  pub same_rules : R → R → Bool
  pub less : R → Option (T → T → Bool)

pub record HashSet {ℓ} (R T : Type ℓ) : Type ℓ where
  pub vals : Map ℤ (List T)
  pub rules : R

module _ {ℓ} {T : Type ℓ} where
  abbrev pub total : Map ℤ (List T) → ℕ
  total [] = 0
  total ((k, bucket) ∷ m) = total m + length bucket

  -- Copy, as a value: the entries of `vals`, one by one, under the same rules.
  abbrev pub copy_vals : Map ℤ (List T) → Map ℤ (List T) → Map ℤ (List T)
  copy_vals [] ret = ret
  copy_vals ((k, v) ∷ m) ret = copy_vals m (insert k v ret)

  -- The head of Add: `if _, ok := s.vals[hv]; !ok`.
  abbrev pub ensure_bucket : ℤ → Map ℤ (List T) → Map ℤ (List T)
  ensure_bucket hv m = elim (lookup hv m) [ none ↦ insert hv [] m | some b ↦ m ]

  -- The tail of Values: `if orderRules, ok := s.rules.(OrderedRules[T])`.
  abbrev pub in_order : Option (T → T → Bool) → List T → List T
  in_order none ret = ret
  in_order (some less) ret = sort_by less ret

  -- The tail of Remove: a bucket that becomes empty is deleted.
  abbrev pub store_bucket : ℤ → List T → Map ℤ (List T) → Map ℤ (List T)
  store_bucket hv [] m = delete hv m
  store_bucket hv (x ∷ xs) m = insert hv (x ∷ xs) m

module _ {ℓ} {R T : Type ℓ} where
  -- NewSet
  abbrev pub new_set : R → HashSet R T
  new_set r = record { vals = []; rules = r }

  -- Length
  unfoldable pub set_length : HashSet R T → ℕ
  set_length s = total s.vals

  unfoldable pub copy : HashSet R T → HashSet R T
  copy s = record { vals = copy_vals s.vals []; rules = s.rules }

module _ {ℓ} {R T : Type ℓ} ⦃i : Rules R T⦄ where
  -- Add. An absent bucket is first made, empty.
  unfoldable pub add : T → HashSet R T → HashSet R T
  add v s =
      let hv = i.hash s.rules v in
      let bucket = get_or (lookup hv s.vals) [] in
      let vals = ensure_bucket hv s.vals in
      if contains (i.equivalent s.rules v) bucket
      then record s { vals = vals }
      else record s { vals = insert hv (bucket ++ v ∷ []) vals }

  -- Remove
  pub remove : T → HashSet R T → HashSet R T
  remove v s =
      let hv = i.hash s.rules v in
      elim (lookup hv s.vals) [
        | none ↦ s
        | some bucket ↦
            if contains (i.equivalent s.rules v) bucket
            then record s {
              vals = store_bucket hv (without_first (i.equivalent s.rules v) bucket) s.vals;
            }
            else s
      ]

  -- Has
  unfoldable pub has : HashSet R T → T → Bool
  has s v = elim (lookup (i.hash s.rules v) s.vals) [
    | none ↦ false
    | some bucket ↦ contains (i.equivalent s.rules v) bucket
  ]

  -- Values: the buckets in the order of their ids, then the rules' own order, if they have one.
  unfoldable pub values : HashSet R T → List T
  unfolding sort_by
  values s =
      let ret = flat_map (λ id. get_or (lookup id s.vals) []) (sort_by ltb_ℤ (keys s.vals)) in
      in_order (i.less s.rules) ret

  -- NewSetFromSlice, and the loops of the operations below: Add of each value that passes a test.
  abbrev pub add_when : (T → Bool) → List T → HashSet R T → HashSet R T
  add_when p [] s = s
  add_when p (v ∷ vs) s = add_when p vs (if p v then add v s else s)

  unfoldable pub new_set_from_slice : R → List T → HashSet R T
  new_set_from_slice r vs = add_when (λ _. true) vs (new_set r)

  -- mustHaveSameRules: `none` is the panic.
  abbrev must_have_same_rules : HashSet R T → HashSet R T → HashSet R T → Option (HashSet R T)
  must_have_same_rules s1 s2 result = if i.same_rules s1.rules s2.rules then some result else none

  pub union : HashSet R T → HashSet R T → Option (HashSet R T)
  union s1 s2 =
      must_have_same_rules s1 s2
        (add_when (λ _. true) (values s2) (add_when (λ _. true) (values s1) (new_set s1.rules)))

  pub intersection : HashSet R T → HashSet R T → Option (HashSet R T)
  intersection s1 s2 = must_have_same_rules s1 s2 (add_when (has s2) (values s1) (new_set s1.rules))

  pub subtract : HashSet R T → HashSet R T → Option (HashSet R T)
  subtract s1 s2 =
      must_have_same_rules s1 s2 (add_when (λ v. not (has s2 v)) (values s1) (new_set s1.rules))

  pub symmetric_difference : HashSet R T → HashSet R T → Option (HashSet R T)
  symmetric_difference s1 s2 = must_have_same_rules s1 s2 (
      add_when (λ v. not (has s1 v)) (values s2)
        (add_when (λ v. not (has s2 v)) (values s1) (new_set s1.rules)))
