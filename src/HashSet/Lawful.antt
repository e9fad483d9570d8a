-- ===== src/HashSet/Lawful.antt =====
-- The contract of `Rules` in cty/set/rules.go, and the well-formedness of a set's buckets.
use go_cty.Prelude.{◌≡◌, ◌≢◌, true, false, some, List, [], ◌∷◌, All}
use go_cty.Prelude.Int.{ℤ, int_eq}
use go_cty.Prelude.Maps.{lookup, Unique}
use go_cty.HashSet.{Rules, HashSet, contains}

-- Equivalence is symmetric and transitive, and equivalent values have one hash. It need not be
-- reflexive: the rules of cty's own sets do not make an unknown value equivalent to itself.
pub record Lawful {ℓ} {R T : Type ℓ} (i : Rules R T) (r : R) : Type ℓ where
  pub symm : (a b : T) → i.equivalent r a b ≡ true → i.equivalent r b a ≡ true
  pub trans :
      (a b c : T)
      → i.equivalent r a b ≡ true
      → i.equivalent r b c ≡ true
      → i.equivalent r a c ≡ true
  pub same_hash : (a b : T) → i.equivalent r a b ≡ true → i.hash r a ≡ i.hash r b

module _ {ℓ} {R T : Type ℓ} where
  -- No two values of a bucket are equivalent.
  abbrev pub Distinct : Rules R T → R → List T → Type 0
  Distinct i r [] = Unit
  Distinct i r (x ∷ xs) = (contains (i.equivalent r x) xs ≡ false) × Distinct i r xs

  -- A bucket is not empty, its values hash to its id, and no two of them are equivalent.
  pub record IsBucket (i : Rules R T) (r : R) (id : ℤ) (bucket : List T) : Type ℓ where
    pub filled : bucket ≢ []
    pub hashed : All (λ t. i.hash r t ≡ id) bucket
    pub distinct : Distinct i r bucket

  pub record IsValid ⦃i : Rules R T⦄ (s : HashSet R T) : Type ℓ where
    pub unique : Unique s.vals
    pub buckets : (id : ℤ) (b : List T) → lookup id s.vals ≡ some b → IsBucket i s.rules id b
