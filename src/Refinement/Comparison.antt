-- ===== src/Refinement/Comparison.antt =====
-- LessThan and GreaterThan of numbers (cty/value_ops.go), on values without marks. The outer `none`
-- is a panic, the inner one the unknown Boolean.
use go_cty.Prelude.{
  ◌≡◌, refl, sym, ap, ap₂, ◌∙◌, Bool, true, false, ◌&&◌, ◌||◌, not, Bool-ext, ◌⊎◌, inl, inr, Option,
  none, some, and_true, arith, if◌then◌else◌,
}
use go_cty.Types.{CtyType, Kind, primitive_type, is_dynamic}
use go_cty.Types.Conformance.Spec.{some_inj}
use go_cty.Refinement.{
  NumberOrder, refinement_number, Value, unknown_val, number_val, type_of, is_known,
}
use go_cty.Refinement.Meaning.{number_outcome, denotes}
use go_cty.Refinement.Range.{range, number_lower_of, number_upper_of}

-- `ty == Number`
abbrev is_number : CtyType → Bool
is_number (primitive_type Kind.number) = true
is_number _ = false

-- typeCheck of two operands: `none` is a mismatch, and otherwise whether it gives a short-circuit
-- value, which is unknown.
abbrev pub number_operands : {N : Type 0} → Value N → Value N → Option Bool
number_operands v w =
    if (is_dynamic (type_of v) || is_number (type_of v))
      && (is_dynamic (type_of w) || is_number (type_of w))
    then some
        (is_dynamic (type_of v) || is_dynamic (type_of w) || not (is_known v) || not (is_known w))
    else none

-- A comparison after the check of its operands: by their ranges, where that gives a short-circuit
-- value, or else by their contents.
abbrev pub compared : Option Bool → Option Bool → Option (Option Bool) → Option (Option Bool)
compared none by_range by_content = none
compared (some true) by_range by_content = some by_range
compared (some false) by_range by_content = by_content

chosen :
    (operands : Option Bool) (byrange : Option Bool) (known : Option (Option Bool)) (b : Bool)
    → compared operands byrange known ≡ some (some b)
    → (byrange ≡ some b) ⊎ (known ≡ some (some b))
chosen none r k b h = absurd (ground arith)
chosen (some true) r k b h = inl (some_inj h)
chosen (some false) r k b h = inr h

and_comm : (a b : Bool) → a && b ≡ (b && a)
and_comm a b = ground arith

number_operands_comm : {N : Type 0} (v w : Value N) → number_operands v w ≡ number_operands w v
number_operands_comm v w = ground arith

answer :
    (numbers p q b : Bool)
    → (if numbers then if p then some true else if q then some false else none else none) ≡ some b
    → ((numbers ≡ true) × (p ≡ true) × (b ≡ true)) ⊎ ((numbers ≡ true) × (q ≡ true) × (b ≡ false))
answer true true q b h = inl (refl, refl, sym (some_inj h))
answer true false true b h = inr (refl, refl, sym (some_inj h))
answer true false false b h = absurd (ground arith)
answer false p q b h = absurd (ground arith)

and_symm : (a b : Bool) → a && b ≡ true → b && a ≡ true
and_symm a b h = ground arith

module _ {N : Type 0} ⦃o : NumberOrder N⦄ where
  -- A bound that is known.
  abbrev bound : Option (Option N × Bool) → Option N
  bound none = none
  bound (some (m, inclusive)) = m

  unfoldable pub upper_of : Value N → Option N
  unfolding range
  upper_of v = bound (number_upper_of (range v).ty (range v).raw)

  unfoldable pub lower_of : Value N → Option N
  unfolding range
  lower_of v = bound (number_lower_of (range v).ty (range v).raw)

  -- `a < b` of two bounds that are known.
  abbrev pub is_less : Option N → Option N → Bool
  is_less (some a) (some b) = o.less a b
  is_less a b = false

  -- The attempt to answer by the ranges of the operands.
  unfoldable pub less_by_range : Value N → Value N → Option Bool
  unfolding upper_of lower_of
  less_by_range v w =
      if is_number (type_of v) && is_number (type_of w)
      then if is_less (upper_of v) (lower_of w)
        then some true
        else if is_less (upper_of w) (lower_of v)
        then some false
        else none
      else none

  unfoldable pub greater_by_range : Value N → Value N → Option Bool
  unfolding upper_of lower_of
  greater_by_range v w =
      if is_number (type_of v) && is_number (type_of w)
      then if is_less (upper_of w) (lower_of v)
        then some true
        else if is_less (upper_of v) (lower_of w)
        then some false
        else none
      else none

  -- `Cmp` of two contents; a null content panics.
  abbrev pub compare_numbers : (N → N → Bool) → Value N → Value N → Option (Option Bool)
  compare_numbers test (number_val n) (number_val m) = some (some (test n m))
  compare_numbers test v w = none

  -- LessThan
  unfoldable pub less_than_val : Value N → Value N → Option (Option Bool)
  unfolding less_by_range
  less_than_val v w =
      compared (number_operands v w) (less_by_range v w) (compare_numbers o.less v w)

  -- GreaterThan
  unfoldable pub greater_than_val : Value N → Value N → Option (Option Bool)
  unfolding greater_by_range
  greater_than_val v w =
      compared (number_operands v w) (greater_by_range v w)
        (compare_numbers (λ a b. o.less b a) v w)

  -- A number that a value may turn out to be is not beyond its bounds.
  upper_of-denotes :
      (v : Value N) (x b : N)
      → is_number (type_of v) ≡ true
      → denotes v (number_outcome x) ≡ true
      → upper_of v ≡ some b
      → o.less b x ≡ false
  unfolding upper_of
  upper_of-denotes (unknown_val (primitive_type Kind.number) none) x b t d h =
      ground (arith, o.pos_inf_highest x)
  upper_of-denotes (unknown_val (primitive_type Kind.number) (some (refinement_number u r))) x b t d
        h =
      ground (arith, o.pos_inf_highest x, o.asymm x b)
  upper_of-denotes (number_val m) x b t d h = ground arith
  upper_of-denotes v x b t d h = ground arith

  lower_of-denotes :
      (v : Value N) (x a : N)
      → is_number (type_of v) ≡ true
      → denotes v (number_outcome x) ≡ true
      → lower_of v ≡ some a
      → o.less x a ≡ false
  unfolding lower_of
  lower_of-denotes (unknown_val (primitive_type Kind.number) none) x b t d h =
      ground (arith, o.neg_inf_lowest x)
  lower_of-denotes (unknown_val (primitive_type Kind.number) (some (refinement_number u r))) x b t d
        h =
      ground (arith, o.neg_inf_lowest x, o.asymm b x)
  lower_of-denotes (number_val m) x b t d h = ground arith
  lower_of-denotes v x b t d h = ground arith

  less_between :
      (x y a b : N)
      → o.less b x ≡ false
      → o.less b a ≡ true
      → o.less y a ≡ false
      → o.less x y ≡ true
  less_between x y a b h k l = ground (arith, o.neg_trans y x b, o.neg_trans a y b)

  is_less-some :
      (a b : Option N)
      → is_less a b ≡ true
      → (m : N) × (n : N) × (a ≡ some m) × (b ≡ some n) × (o.less m n ≡ true)
  is_less-some none b h = absurd (ground arith)
  is_less-some (some m) none h = absurd (ground arith)
  is_less-some (some m) (some n) h = (m, n, refl, refl, h)

  -- What an upper bound below a lower bound says of the numbers.
  less_bounds :
      (v w : Value N) (x y : N)
      → is_number (type_of v) && is_number (type_of w) ≡ true
      → denotes v (number_outcome x) ≡ true
      → denotes w (number_outcome y) ≡ true
      → is_less (upper_of v) (lower_of w) ≡ true
      → o.less x y ≡ true
  less_bounds v w x y t d e h =
      let (m, n, upper, lower, less) = is_less-some (upper_of v) (lower_of w) h in
      let (tv, tw) = and_true (is_number (type_of v)) (is_number (type_of w)) t in
      less_between x y n m (upper_of-denotes v x m tv d upper) less
        (lower_of-denotes w y n tw e lower)

  less_by_range-denotes :
      (v w : Value N) (x y : N) (b : Bool)
      → denotes v (number_outcome x) ≡ true
      → denotes w (number_outcome y) ≡ true
      → less_by_range v w ≡ some b
      → o.less x y ≡ b
  unfolding less_by_range
  less_by_range-denotes v w x y b d e h =
      elim (answer (is_number (type_of v) && is_number (type_of w))
        (is_less (upper_of v) (lower_of w)) (is_less (upper_of w) (lower_of v)) b h) [
          | inl (t, p, q) ↦ less_bounds v w x y t d e p ∙ sym q
          | inr (t, p, q) ↦
              o.asymm y x (
                less_bounds w v y x (and_symm (is_number (type_of v)) (is_number (type_of w)) t) e d
                  p)
              ∙ sym q
        ]

  less_same :
      (n m x y : N)
      → o.less n x ≡ false
      → o.less x n ≡ false
      → o.less m y ≡ false
      → o.less y m ≡ false
      → o.less x y ≡ o.less n m
  less_same n m x y h k l j =
      Bool-ext (o.less x y) (o.less n m) (λ p. less_between n m y x k p l)
        (λ p. less_between x y m n h p j)

  compare_numbers-denotes :
      (v w : Value N) (x y : N) (b : Bool)
      → denotes v (number_outcome x) ≡ true
      → denotes w (number_outcome y) ≡ true
      → compare_numbers o.less v w ≡ some (some b)
      → o.less x y ≡ b
  compare_numbers-denotes (number_val n) (number_val m) x y b d e h =
      less_same n m x y (ground arith) (ground arith) (ground arith) (ground arith)
      ∙ some_inj (some_inj h)
  compare_numbers-denotes v w x y b d e h = absurd (ground arith)

  by_range_exchange : (v w : Value N) → greater_by_range v w ≡ less_by_range w v
  unfolding less_by_range greater_by_range
  by_range_exchange v w = rw (and_comm (is_number (type_of v)) (is_number (type_of w))) refl

  compare_exchange :
      (v w : Value N) → compare_numbers (λ a b. o.less b a) v w ≡ compare_numbers o.less w v
  compare_exchange v w = ground arith

  -- GreaterThan is LessThan of the operands exchanged, for any two values without marks: both give
  -- the same Boolean or are unknown, and for operands that are not numbers or that are null both
  -- panic or neither does.
  greater_than_val-less_than_val : (v w : Value N) → greater_than_val v w ≡ less_than_val w v
  unfolding less_than_val greater_than_val
  greater_than_val-less_than_val v w =
      ap (λ p. compared p (greater_by_range v w) (compare_numbers (λ a b. o.less b a) v w))
        (number_operands_comm v w)
      ∙ ap₂ (compared (number_operands w v)) (by_range_exchange v w) (compare_exchange v w)

  -- LessThan of operands that may be unknown: where it returns a known Boolean, that is the order of
  -- any two numbers that the operands may turn out to be, though it reads every bound as exclusive
  -- and unset bounds as infinities; and GreaterThan of the operands exchanged returns the same.
  pub less_than_val-denotes :
      (v w : Value N) (x y : N) (b : Bool)
      → denotes v (number_outcome x) ≡ true
      → denotes w (number_outcome y) ≡ true
      → less_than_val v w ≡ some (some b)
      → (o.less x y ≡ b) × (greater_than_val w v ≡ some (some b))
  unfolding less_than_val
  less_than_val-denotes v w x y b d e h = (
    elim (chosen (number_operands v w) (less_by_range v w) (compare_numbers o.less v w) b h) [
      | inl by_range ↦ less_by_range-denotes v w x y b d e by_range
      | inr known ↦ compare_numbers-denotes v w x y b d e known
    ],
    greater_than_val-less_than_val w v ∙ h,
  )
