-- ===== src/Refinement/Numbers.antt =====
-- The number bounds of RefinementBuilder, and NewValue (cty/unknown_refinement.go).
use go_cty.Prelude.{
  ℕ, suc, zero, Bool, true, false, ◌&&◌, ◌||◌, not, Option, none, some, nat_beq, if◌then◌else◌,
}
use go_cty.Types.{CtyType, type_list, type_set, type_map}
use go_cty.Refinement.{
  NumberOrder, Tristate, tristate_true, tristate_false, tristate_unknown, NumberRange, Refinement,
  refinement_number, refinement_collection, Value, unknown_val, null_val, number_val,
  collection_val, Values, no_values, value_then, type_of, is_known, null, equal, greater_than,
  less_than, equals_true,
}
use go_cty.Refinement.Builder.{Builder, is_dynamic_val, refining}

module _ {N : Type 0} where
  -- A slice of `n` unknown elements.
  abbrev pub unknown_elements : ℕ → CtyType → Values N
  unknown_elements zero t = no_values
  unknown_elements (suc n) t = value_then (unknown_val t none) (unknown_elements n t)

  -- The value of a collection whose length is exactly `n`, where one can be built.
  abbrev pub known_collection : ℕ → CtyType → Option (Value N)
  known_collection zero (type_list t) = some (collection_val (type_list t) no_values)
  known_collection zero (type_set t) = some (collection_val (type_set t) no_values)
  known_collection zero (type_map t) = some (collection_val (type_map t) no_values)
  known_collection (suc n) (type_list t) =
      some (collection_val (type_list t) (unknown_elements (suc n) t))
  known_collection (suc n) (type_set t) =
      if nat_beq n 0 then some (collection_val (type_set t) (unknown_elements 1 t)) else none
  known_collection _ _ = none

module _ {N : Type 0} where
  -- The length of the slice that NewValue makes for a list whose length is settled.
  abbrev pub slice_length : CtyType → Refinement N → Option ℕ
  slice_length (type_list t) (refinement_collection tristate_false lo hi) =
      if nat_beq lo hi && not (nat_beq lo 0) then some lo else none
  slice_length t r = none

  -- `makes` is that the built-in make of Go has room for a slice of values of a length; where it
  -- has none it panics.
  abbrev pub slice_is_made : (ℕ → Bool) → CtyType → Refinement N → Bool
  slice_is_made makes t r = elim (slice_length t r) [ none ↦ true | some n ↦ makes n ]

module _ {N : Type 0} ⦃o : NumberOrder N⦄ where
  -- assertConsistentBounds: `false` is its panic.
  abbrev pub consistent : NumberRange N → Bool
  consistent r = elim r.min [
    | none ↦ true
    | some a ↦ elim r.max [
      | none ↦ true
      | some b ↦ if r.min_inc && r.max_inc then (o.less a b || equal a b) else o.less a b
    ]
  ]

  -- The bound contradicts the value itself; `none` is a panic of the comparison.
  abbrev pub refutes_lower : N → Bool → Value N → Option Bool
  refutes_lower m inclusive v = elim (greater_than m v) [
    | none ↦ none
    | some (some true) ↦ some true
    | some _ ↦ if inclusive then some false else some (equals_true m v)
  ]

  abbrev pub refutes_upper : N → Bool → Value N → Option Bool
  refutes_upper m inclusive v = elim (less_than m v) [
    | none ↦ none
    | some (some true) ↦ some true
    | some _ ↦ if inclusive then some false else some (equals_true m v)
  ]

  -- The earlier bound is more constrained.
  abbrev pub keeps_min : N → Bool → NumberRange N → Bool
  keeps_min m inclusive r = elim r.min [
    | none ↦ false
    | some w ↦ not (if inclusive && not r.min_inc then o.less w m else (o.less w m || equal m w))
  ]

  abbrev pub keeps_max : N → Bool → NumberRange N → Bool
  keeps_max m inclusive r = elim r.max [
    | none ↦ false
    | some w ↦ not (if inclusive && not r.max_inc then o.less m w else (o.less m w || equal m w))
  ]

  abbrev pub with_min : N → Bool → NumberRange N → NumberRange N
  with_min m inclusive r =
      if o.is_neg_inf m then r else record r { min = some m; min_inc = inclusive }

  abbrev pub with_max : N → Bool → NumberRange N → NumberRange N
  with_max m inclusive r =
      if o.is_pos_inf m then r else record r { max = some m; max_inc = inclusive }

  abbrev pub checked : Tristate → NumberRange N → Option (Refinement N)
  checked t r = if consistent r then some (refinement_number t r) else none

  -- NumberRangeLowerBound
  abbrev pub lower_step : Value N → Bool → Value N → Refinement N → Option (Refinement N)
  lower_step (unknown_val ty r) inclusive v (refinement_number t range) =
      some (refinement_number t range)
  lower_step (number_val m) inclusive v (refinement_number t range) =
      elim (refutes_lower m inclusive v) [
        | none ↦ none
        | some true ↦ none
        | some false ↦
            if keeps_min m inclusive range
            then some (refinement_number t range)
            else checked t (with_min m inclusive range)
      ]
  lower_step _ inclusive v _ = none

  unfoldable pub number_range_lower_bound : Value N → Bool → Builder N → Option (Builder N)
  number_range_lower_bound m inclusive b = refining b (lower_step m inclusive b.orig)

  -- NumberRangeUpperBound
  abbrev pub upper_step : Value N → Bool → Value N → Refinement N → Option (Refinement N)
  upper_step (unknown_val ty r) inclusive v (refinement_number t range) =
      some (refinement_number t range)
  upper_step (number_val m) inclusive v (refinement_number t range) =
      elim (refutes_upper m inclusive v) [
        | none ↦ none
        | some true ↦ none
        | some false ↦
            if keeps_max m inclusive range
            then some (refinement_number t range)
            else checked t (with_max m inclusive range)
      ]
  upper_step _ inclusive v _ = none

  unfoldable pub number_range_upper_bound : Value N → Bool → Builder N → Option (Builder N)
  number_range_upper_bound m inclusive b = refining b (upper_step m inclusive b.orig)

  -- NumberRangeInclusive
  unfoldable pub number_range_inclusive : Value N → Value N → Builder N → Option (Builder N)
  unfolding number_range_lower_bound number_range_upper_bound
  number_range_inclusive lo hi b = elim (number_range_lower_bound lo true b) [
    | none ↦ none
    | some b' ↦ number_range_upper_bound hi true b'
  ]

  -- The value that the refinement leaves as the only one, or nearly so.
  abbrev pub collapse : CtyType → Refinement N → Option (Value N)
  collapse t r = elim (null r) [
    | tristate_true ↦ some (null_val t)
    | tristate_unknown ↦ none
    | tristate_false ↦ elim r [
      | refinement_number _ range ↦
          if range.max_inc && range.min_inc
          then elim range.min [
            | none ↦ none
            | some a ↦ elim range.max [
              | none ↦ none
              | some b ↦ if equal a b then some (number_val a) else none
            ]
          ]
          else none
      | refinement_collection _ lo hi ↦ if nat_beq lo hi then known_collection lo t else none
      | _ ↦ none
    ]
  ]

  -- NewValue, without the marks. A builder without a refinement panics, though that of DynamicVal
  -- does not get that far, and so does a list for which there is no room.
  unfoldable pub new_value : (ℕ → Bool) → Builder N → Option (Value N)
  new_value makes b = if is_known b.orig || is_dynamic_val b.orig then some b.orig else elim b.wip [
    | none ↦ none
    | some r ↦
        if slice_is_made makes (type_of b.orig) r
        then elim (collapse (type_of b.orig) r) [
          | none ↦ some (unknown_val (type_of b.orig) (some r))
          | some v ↦ some v
        ]
        else none
  ]
