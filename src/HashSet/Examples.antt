-- ===== src/HashSet/Examples.antt =====
-- Tests of the set operations, over numbers whose hash is their remainder modulo two.
use Prim.Native.Nat.{◌%◌}
use go_cty.Prelude.{
  ℕ, ◌≡◌, refl, Bool, not, ◌&&◌, ◌||◌, Option, none, some, [], ◌∷◌, arith, ltb, nat_beq,
  nat_beq_iff, if◌then◌else◌,
}
use go_cty.Prelude.Int.{pos}
use go_cty.Prelude.Sorting.{IsStrictWeak}
use go_cty.HashSet.{
  Rules, HashSet, add, remove, has, values, new_set_from_slice, union, intersection,
  symmetric_difference,
}
use go_cty.HashSet.Lawful.{Lawful, IsValid}
use go_cty.HashSet.Membership.{add-IsValid, has-add}
use go_cty.HashSet.Removal.{has-remove, remove-IsValid}
use go_cty.HashSet.Algebra.{
  Contract, has-new_set_from_slice, has-union, has-intersection, has-symmetric_difference,
}

-- The rules instance 0 has no order, the others have the order of the numbers.
abbrev order_of : ℕ → Option (ℕ → ℕ → Bool)
order_of r = if nat_beq r 0 then none else some ltb

instance abbrev parity : Rules ℕ ℕ
parity = record {
  hash = λ r t. pos (t % 2);
  equivalent = λ r a b. nat_beq a b;
  same_rules = λ r q. nat_beq r q;
  less = order_of;
}

parity-Lawful : (r : ℕ) → Lawful parity r
parity-Lawful r = record {
  symm = λ a b h. ground arith;
  trans = λ a b c h k. ground arith;
  same_hash = λ a b h. let e : a ≡ b = (nat_beq_iff a b).0 h in rw e;
}

parity-Contract : Contract parity
parity-Contract = record { lawful = parity-Lawful; agree = λ r q h a b. refl }

abbrev odds : HashSet ℕ ℕ
odds = new_set_from_slice 0 (3 ∷ 1 ∷ 3 ∷ 5 ∷ [])

abbrev small : HashSet ℕ ℕ
small = new_set_from_slice 0 (1 ∷ 2 ∷ 3 ∷ [])

abbrev ordered : HashSet ℕ ℕ
ordered = new_set_from_slice 1 (3 ∷ 2 ∷ 1 ∷ [])

odds-IsValid : IsValid odds
odds-IsValid = (has-new_set_from_slice 0 (3 ∷ 1 ∷ 3 ∷ 5 ∷ []) 0 (parity-Lawful 0)).0

small-IsValid : IsValid small
small-IsValid = (has-new_set_from_slice 0 (1 ∷ 2 ∷ 3 ∷ []) 0 (parity-Lawful 0)).0

ltb-IsStrictWeak : IsStrictWeak ltb
ltb-IsStrictWeak = record { asymm = λ a b h. ground arith; neg_trans = λ a b c h k. ground arith }

odds-values : values odds ≡ 3 ∷ 1 ∷ 5 ∷ []
unfolding values new_set_from_slice add
odds-values = refl

ordered-values : values ordered ≡ 1 ∷ 2 ∷ 3 ∷ []
unfolding values new_set_from_slice add
ordered-values = refl

removed_values : values (remove 1 odds) ≡ 3 ∷ 5 ∷ []
unfolding values new_set_from_slice add remove
removed_values = refl

add-IsValid_example : IsValid (add 7 odds)
add-IsValid_example = add-IsValid odds 7 (parity-Lawful odds.rules) odds-IsValid

has-remove_example : has (remove 1 odds) 3 ≡ (has odds 3 && not (nat_beq 3 1))
has-remove_example = has-remove odds 1 3 (parity-Lawful odds.rules) odds-IsValid

has-add_example : has (add 7 odds) 7 ≡ (has odds 7 || nat_beq 7 7)
has-add_example = has-add odds 7 7 (parity-Lawful odds.rules)

remove-IsValid_example : IsValid (remove 1 odds)
remove-IsValid_example = remove-IsValid odds 1 odds-IsValid

has-union_example :
    (u : HashSet ℕ ℕ) × (union odds small ≡ some u)
    × IsValid u
    × ((w : ℕ) → has u w ≡ (has odds w || has small w))
unfolding new_set_from_slice add
has-union_example = has-union parity-Contract odds small odds-IsValid small-IsValid refl

has-intersection_example :
    (u : HashSet ℕ ℕ) × (intersection odds small ≡ some u)
    × IsValid u
    × ((w : ℕ) → has u w ≡ (has odds w && has small w))
unfolding new_set_from_slice add
has-intersection_example =
    has-intersection parity-Contract odds small odds-IsValid small-IsValid refl

has-symmetric_difference_example :
    (u : HashSet ℕ ℕ) × (symmetric_difference odds small ≡ some u)
    × IsValid u
    × ((w : ℕ) → has u w ≡ (has odds w && not (has small w) || has small w && not (has odds w)))
unfolding new_set_from_slice add
has-symmetric_difference_example =
    has-symmetric_difference parity-Contract odds small odds-IsValid small-IsValid refl
