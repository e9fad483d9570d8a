-- ===== src/HashSet/Buckets.antt =====
-- The scans of one bucket in cty/set/ops.go.
use go_cty.Prelude.{
  suc, ◌≡◌, refl, Bool, true, false, List, [], ◌∷◌, length, any, arith, if◌then◌else◌,
}

module _ {ℓ} {T : Type ℓ} where
  -- The loop of Add and Has over a bucket.
  abbrev pub contains : (T → Bool) → List T → Bool
  contains test [] = false
  contains test (ev ∷ bucket) = if test ev then true else contains test bucket

  -- `append(bucket[:i], bucket[i+1:]...)` at the first `i` that passes the test.
  abbrev pub without_first : (T → Bool) → List T → List T
  without_first test [] = []
  without_first test (ev ∷ bucket) = if test ev then bucket else ev ∷ without_first test bucket

  pub contains-any : (test : T → Bool) (b : List T) → contains test b ≡ any test b
  contains-any test [] = refl
  contains-any test (x ∷ b) = ground (arith, contains-any test b)

  pub length-without_first :
      (test : T → Bool) (b : List T)
      → contains test b ≡ true
      → suc (length (without_first test b)) ≡ length b
  length-without_first test [] h = ground arith
  length-without_first test (x ∷ b) h = ground (arith, length-without_first test b)
