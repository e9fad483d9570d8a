-- ===== src/Paths.antt =====
-- Paths and sets of paths (cty/path.go and cty/path_set.go). An index key is a value, which is a
-- type `K` with its two equalities; the checksum of hash/crc64 is a parameter too.

pub mod Equality
pub mod IndexKeys
pub mod Examples
use go_cty.Prelude.{
  ℕ, zero, suc, ◌≡◌, Bool, true, false, ◌&&◌, not, none, String, List, [], ◌∷◌, ◌++◌, length, take,
  map, all, ltb, nat_eq, string_eq, ◌==◌, if◌then◌else◌,
}
use go_cty.Prelude.Int.{ℤ}
use go_cty.HashSet.{Rules, HashSet, add, has, values, set_length, new_set_from_slice}

-- The keys of index steps, without marks: on marked ones pathSetRules.Equivalent panics, as it asks
-- a marked Boolean for True or False. `known_equal` is that Equals of two keys is known and true, and
-- `raw_equal` is RawEquals. Of the laws the first equality has no reflexivity, as an unknown value is
-- not known to be equal to itself. Paths/IndexKeys has the keys that are numbers and texts, which
-- keep these laws; of keys of other types they are assumed.
-- `checksum` is the CRC of what is written, piece by piece.
pub record Keys (K : Type 0) : Type 0 where
  pub known_equal : K → K → Bool
  pub raw_equal : K → K → Bool
  pub checksum : List String → ℤ
  pub raw_refl : (a : K) → raw_equal a a ≡ true
  pub symm : (a b : K) → known_equal a b ≡ true → known_equal b a ≡ true
  pub trans : (a b c : K) → known_equal a b ≡ true → known_equal b c ≡ true → known_equal a c ≡ true

pub data PathStep (K : Type 0) : Type 0 where
  index_step : K → PathStep K
  get_attr_step : String → PathStep K

abbrev pub PathOf : Type 0 → Type 0
PathOf K = List (PathStep K)

-- pathSetRules, which has no fields.
pub data PathSetRules : Type 0 where
  path_set_rules : PathSetRules

abbrev pub PathSet : Type 0 → Type 0
PathSet K = HashSet PathSetRules (PathOf K)

module _ {K : Type 0} where
  -- Path.Index and Path.GetAttr
  abbrev pub index : K → PathOf K → PathOf K
  index v p = p ++ index_step v ∷ []

  abbrev pub get_attr : String → PathOf K → PathOf K
  get_attr name p = p ++ get_attr_step name ∷ []

  -- The loop over two paths of one length, with the equality of keys that its caller uses.
  abbrev pub steps_equal : (K → K → Bool) → PathOf K → PathOf K → Bool
  steps_equal eq [] q = true
  steps_equal eq (get_attr_step a ∷ p) (get_attr_step b ∷ q) = a == b && steps_equal eq p q
  steps_equal eq (index_step a ∷ p) (index_step b ∷ q) = eq a b && steps_equal eq p q
  steps_equal eq (s ∷ p) _ = false

  -- What pathSetRules.Hash writes for a step.
  abbrev pub written : PathStep K → String
  written (get_attr_step name) = name
  written (index_step k) = "#"

module _ {K : Type 0} ⦃k : Keys K⦄ where
  -- Path.Equals
  unfoldable pub path_equals : PathOf K → PathOf K → Bool
  path_equals p other =
      if not (length p == length other) then false else steps_equal k.raw_equal p other

  -- Path.HasPrefix
  unfoldable pub path_has_prefix : PathOf K → PathOf K → Bool
  unfolding path_equals
  path_has_prefix p prefix =
      if ltb (length p) (length prefix) then false else path_equals (take (length prefix) p) prefix

  -- pathSetRules.Equivalent
  abbrev pub path_equivalent : PathOf K → PathOf K → Bool
  path_equivalent a b = if not (length a == length b) then false else steps_equal k.known_equal a b

  instance abbrev pub path_rules : Rules PathSetRules (PathOf K)
  path_rules = record {
    hash = λ r p. k.checksum (map written p);
    equivalent = λ r. path_equivalent;
    same_rules = λ r q. true;
    less = λ r. none;
  }

  -- NewPathSet
  unfoldable pub new_path_set : List (PathOf K) → PathSet K
  new_path_set paths = new_set_from_slice path_set_rules paths

  -- AddAllSteps: the prefixes of lengths `i`, `i + 1`, … up to the whole path.
  abbrev pub add_from : ℕ → ℕ → PathOf K → PathSet K → PathSet K
  add_from zero i path s = s
  add_from (suc n) i path s = add_from n (suc i) path (add (take i path) s)

  unfoldable pub add_all_steps : PathOf K → PathSet K → PathSet K
  add_all_steps path s = add_from (length path) 1 path s

  -- Empty and List
  unfoldable pub is_empty : PathSet K → Bool
  is_empty s = set_length s == 0

  unfoldable pub list : PathSet K → List (PathOf K)
  unfolding is_empty
  list s = if is_empty s then [] else values s

  -- Equal
  unfoldable pub path_set_equal : PathSet K → PathSet K → Bool
  path_set_equal s other =
      if not (set_length s == set_length other) then false else all (has other) (values s)
