-- ===== src/Paths/IndexKeys.antt =====
-- The keys that Index, IndexInt and IndexString of cty/path.go put into a path: numbers and texts,
-- and unknown values of primitive types that are not refined, all without marks. Their two
-- equalities, from cty/value_ops.go, keep the laws that `Keys` asks for.
use go_cty.Prelude.{Bool, true, false, String, List, ◌≡◌, refl, sym, ◌∙◌, arith, string_eq, ◌==◌}
use go_cty.Prelude.Int.{ℤ}
use go_cty.Types.{Kind, kind_beq, bool, number, string}
use go_cty.Values.RawEquality.{RawOps, raw_number_equal}
use go_cty.Values.RawEquality.Contents.{raw_number_equal-Equivalence}
use go_cty.HashSet.Algebra.{Contract}
use go_cty.Paths.{Keys, path_rules}
use go_cty.Paths.Equality.{path_rules-Contract}

pub data IndexKey (N : Type 0) : Type 0 where
  number_key : N → IndexKey N
  string_key : String → IndexKey N
  unknown_key : Kind → IndexKey N

module _ {N : Type 0} ⦃ops : RawOps N⦄ where
  -- Equals of two keys is known and true.
  abbrev pub known_equal_keys : IndexKey N → IndexKey N → Bool
  known_equal_keys (number_key a) (number_key b) = raw_number_equal a b
  known_equal_keys (string_key a) (string_key b) = a == b
  known_equal_keys _ _ = false

  -- RawEquals of two keys
  abbrev pub raw_equal_keys : IndexKey N → IndexKey N → Bool
  raw_equal_keys (unknown_key k) (unknown_key j) = kind_beq j k
  raw_equal_keys a b = known_equal_keys a b

  pub raw_equal_keys_refl : (a : IndexKey N) → raw_equal_keys a a ≡ true
  raw_equal_keys_refl (number_key a) = raw_number_equal-Equivalence.same_self a
  raw_equal_keys_refl (string_key a) = (string_eq.test_iff a a).1 refl
  raw_equal_keys_refl (unknown_key bool) = refl
  raw_equal_keys_refl (unknown_key number) = refl
  raw_equal_keys_refl (unknown_key string) = refl

  pub known_equal_keys_symm :
      (a b : IndexKey N) → known_equal_keys a b ≡ true → known_equal_keys b a ≡ true
  known_equal_keys_symm (number_key a) (number_key b) h =
      raw_number_equal-Equivalence.same_back a b h
  known_equal_keys_symm (string_key a) (string_key b) h =
      (string_eq.test_iff b a).1 (sym ((string_eq.test_iff a b).0 h))
  known_equal_keys_symm a b h = absurd (ground arith)

  pub known_equal_keys_trans :
      (a b c : IndexKey N)
      → known_equal_keys a b ≡ true
      → known_equal_keys b c ≡ true
      → known_equal_keys a c ≡ true
  known_equal_keys_trans (number_key a) (number_key b) (number_key c) h g =
      raw_number_equal-Equivalence.same_both a b c h g
  known_equal_keys_trans (string_key a) (string_key b) (string_key c) h g =
      (string_eq.test_iff a c).1 ((string_eq.test_iff a b).0 h ∙ (string_eq.test_iff b c).0 g)
  known_equal_keys_trans a b c h g = absurd (ground arith)

  abbrev pub index_keys : (List String → ℤ) → Keys (IndexKey N)
  index_keys crc = record {
    known_equal = known_equal_keys;
    raw_equal = raw_equal_keys;
    checksum = crc;
    raw_refl = raw_equal_keys_refl;
    symm = known_equal_keys_symm;
    trans = known_equal_keys_trans;
  }

  -- For paths whose index keys are numbers, texts or unknown values of primitive types that are not
  -- refined, all without marks, pathSetRules keeps the contract of set.Rules: its equivalence is
  -- symmetric and transitive, paths that are equivalent have one hash, and all its instances are one.
  pub path_rules_of_keys-Contract :
      (crc : List String → ℤ) → Contract (path_rules ⦃k = index_keys crc⦄)
  path_rules_of_keys-Contract crc = path_rules-Contract ⦃k = index_keys crc⦄
