-- ===== src/Refinement.antt =====
-- Values and their refinements (cty/unknown_refinement.go, and what it reads of cty/value_ops.go
-- and cty/value_range.go). A number is a `*big.Float`, which is an external type `N` with its
-- comparison `less`; a string is the list of its bytes. Values are without marks.
pub mod Builder
pub mod Numbers
pub mod Meaning
pub mod Narrowing
pub mod Kinds
pub mod Requests
pub mod Completion
pub mod Crossing
pub mod Panics
pub mod Range
pub mod Comparison
pub mod Examples
use go_cty.Prelude.{
  ℕ, suc, ◌≡◌, Bool, true, false, ◌&&◌, ◌||◌, not, Option, none, some, List, nat_beq, if◌then◌else◌,
}
use go_cty.Types.{CtyType, Kind, pseudo_type_dynamic, primitive_type, type_set}

-- The order of `big.Float.Cmp`, a strict weak order. Two numbers are `equal` here where Cmp is 0;
-- the code asks rawNumberEqual of primitive_type.go, which for fractions compares decimal texts and
-- so agrees with Cmp on fractions of one precision, to which this model is confined. `neg_inf` and
-- `pos_inf` stand for the variables NegativeInfinity and PositiveInfinity, below and above every
-- number, and the two tests for `==` with those variables, which compares addresses.
pub record NumberOrder (N : Type 0) : Type 0 where
  pub less : N → N → Bool
  pub asymm : (a b : N) → less a b ≡ true → less b a ≡ false
  pub neg_trans : (a b c : N) → less b a ≡ false → less c b ≡ false → less c a ≡ false
  pub neg_inf : N
  pub pos_inf : N
  pub neg_inf_lowest : (a : N) → less a neg_inf ≡ false
  pub pos_inf_highest : (a : N) → less pos_inf a ≡ false
  pub is_neg_inf : N → Bool
  pub is_pos_inf : N → Bool
  pub is_neg_inf_lowest : (a b : N) → is_neg_inf a ≡ true → less b a ≡ false
  pub is_pos_inf_highest : (a b : N) → is_pos_inf a ≡ true → less a b ≡ false

-- tristateBool
pub data Tristate : Type 0 where
  tristate_true tristate_false tristate_unknown : Tristate

abbrev pub is_tristate_true : Tristate → Bool
is_tristate_true tristate_true = true
is_tristate_true _ = false

abbrev pub is_tristate_false : Tristate → Bool
is_tristate_false tristate_false = true
is_tristate_false _ = false

-- The bounds of refinementNumber: `none` is NilVal. The builder stores only known numbers.
pub record NumberRange (N : Type 0) : Type 0 where
  pub min : Option N
  pub max : Option N
  pub min_inc : Bool
  pub max_inc : Bool

-- unknownValRefinement: each implementation embeds refinementNullable, the first argument.
pub data Refinement (N : Type 0) : Type 0 where
  refinement_string : Tristate → List ℕ → Refinement N
  refinement_number : Tristate → NumberRange N → Refinement N
  refinement_collection : Tristate → ℕ → ℕ → Refinement N
  refinement_nullable : Tristate → Refinement N

-- A collection is its elements; an object or a tuple is its attribute values or elements, and a
-- Boolean or a capsule has no content here. The type arguments are the types of the values.
mutual
  pub data Value (N : Type 0) : Type 0 where
    unknown_val : CtyType → Option (Refinement N) → Value N
    null_val : CtyType → Value N
    number_val : N → Value N
    string_val : List ℕ → Value N
    collection_val : CtyType → Values N → Value N
    structural_val : CtyType → Values N → Value N
    opaque_val : CtyType → Value N

  pub data Values (N : Type 0) : Type 0 where
    no_values : Values N
    value_then : Value N → Values N → Values N

-- math.MaxInt, on a 64-bit platform.
abbrev pub max_int : ℕ
max_int = 9223372036854775807

module _ {N : Type 0} where
  -- Type
  abbrev pub type_of : Value N → CtyType
  type_of (unknown_val t r) = t
  type_of (null_val t) = t
  type_of (number_val n) = primitive_type Kind.number
  type_of (string_val s) = primitive_type Kind.string
  type_of (collection_val t vs) = t
  type_of (structural_val t vs) = t
  type_of (opaque_val t) = t

  -- IsKnown
  abbrev pub is_known : Value N → Bool
  is_known (unknown_val t r) = false
  is_known _ = true

  -- IsNull
  abbrev pub is_null : Value N → Bool
  is_null (null_val t) = true
  is_null _ = false

  abbrev pub values_length : Values N → ℕ
  values_length no_values = 0
  values_length (value_then v vs) = suc (values_length vs)

  -- IsWhollyKnown
  unfoldable mutual
    pub is_wholly_known : Value N → Bool
    is_wholly_known (unknown_val t r) = false
    is_wholly_known (null_val t) = true
    is_wholly_known (number_val n) = true
    is_wholly_known (string_val s) = true
    is_wholly_known (collection_val t vs) = are_wholly_known vs
    is_wholly_known (structural_val t vs) = are_wholly_known vs
    is_wholly_known (opaque_val t) = true

    pub are_wholly_known : Values N → Bool
    are_wholly_known no_values = true
    are_wholly_known (value_then v vs) =
        let rest = are_wholly_known vs in if is_wholly_known v then rest else false

  -- Length of a known collection, as the least and the greatest number it can be.
  abbrev pub length_bounds : Value N → Option (ℕ × ℕ)
  unfolding is_wholly_known
  length_bounds (collection_val (type_set t) vs) =
      let n = values_length vs in
      if nat_beq n 1 || are_wholly_known vs then some (n, n) else some (1, n)
  length_bounds (collection_val t vs) = some (values_length vs, values_length vs)
  length_bounds _ = none

  -- null and setNull
  abbrev pub null : Refinement N → Tristate
  null (refinement_string t p) = t
  null (refinement_number t r) = t
  null (refinement_collection t a b) = t
  null (refinement_nullable t) = t

  abbrev pub set_null : Tristate → Refinement N → Refinement N
  set_null t (refinement_string u p) = refinement_string t p
  set_null t (refinement_number u r) = refinement_number t r
  set_null t (refinement_collection u a b) = refinement_collection t a b
  set_null t (refinement_nullable u) = refinement_nullable t

-- The comparisons of a known number with a value: the outer `none` is a panic on a null value or
-- on one of another type, the inner `none` an unknown answer.
module _ {N : Type 0} ⦃o : NumberOrder N⦄ where
  abbrev pub equal : N → N → Bool
  equal a b = not (o.less a b) && not (o.less b a)

  -- The bounds of Range().NumberLowerBound and NumberUpperBound of an unknown number.
  abbrev pub number_lower_bound : Option (Refinement N) → N
  number_lower_bound (some (refinement_number t r)) = elim r.min [ none ↦ o.neg_inf | some m ↦ m ]
  number_lower_bound _ = o.neg_inf

  abbrev pub number_upper_bound : Option (Refinement N) → N
  number_upper_bound (some (refinement_number t r)) = elim r.max [ none ↦ o.pos_inf | some m ↦ m ]
  number_upper_bound _ = o.pos_inf

  -- GreaterThan
  abbrev pub greater_than : N → Value N → Option (Option Bool)
  greater_than m (number_val n) = some (some (o.less n m))
  greater_than m (unknown_val (primitive_type Kind.number) r) =
      if o.less (number_upper_bound r) m
      then some (some true)
      else if o.less m (number_lower_bound r)
      then some (some false)
      else some none
  greater_than m (unknown_val pseudo_type_dynamic r) = some none
  greater_than m _ = none

  -- LessThan
  abbrev pub less_than : N → Value N → Option (Option Bool)
  less_than m (number_val n) = some (some (o.less m n))
  less_than m (unknown_val (primitive_type Kind.number) r) =
      if o.less m (number_lower_bound r)
      then some (some true)
      else if o.less (number_upper_bound r) m
      then some (some false)
      else some none
  less_than m (unknown_val pseudo_type_dynamic r) = some none
  less_than m _ = none

  -- Whether Equals is known to be true. It never is for an unknown value.
  abbrev pub equals_true : N → Value N → Bool
  equals_true m (number_val n) = equal m n
  equals_true m _ = false
