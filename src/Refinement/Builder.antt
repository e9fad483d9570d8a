-- ===== src/Refinement/Builder.antt =====
-- RefinementBuilder (cty/unknown_refinement.go). A panic is `none`. NormalizeString, which is
-- third-party code, is a parameter. Lengths are natural: a negative length is not modelled.
use go_cty.Prelude.{
  ℕ, Bool, true, false, ◌&&◌, not, Option, none, some, List, [], ◌∷◌, length, take, ltb, nat_eq,
  ◌==◌, if◌then◌else◌,
}
use Prim.Native.Nat.{min}
use go_cty.Types.{
  CtyType, Kind, pseudo_type_dynamic, primitive_type, type_list, type_set, type_map, type_object,
  type_tuple, capsule_type,
}
use go_cty.Refinement.{
  tristate_true, tristate_false, tristate_unknown, is_tristate_true, is_tristate_false, Refinement,
  refinement_string, refinement_number, refinement_collection, refinement_nullable, Value,
  unknown_val, string_val, max_int, type_of, is_known, is_null, length_bounds, null, set_null,
}

-- RefinementBuilder, without the marks.
pub record Builder (N : Type 0) : Type 0 where
  pub orig : Value N
  pub wip : Option (Refinement N)

abbrev pub bytes_equal : List ℕ → List ℕ → Bool
bytes_equal [] [] = true
bytes_equal (a ∷ s) (b ∷ t) = a == b && bytes_equal s t
bytes_equal _ _ = false

-- The comparison of the parts of two texts that overlap.
abbrev pub overlap_equal : List ℕ → List ℕ → Bool
overlap_equal have prefix =
    let n = min (length have) (length prefix) in bytes_equal (take n have) (take n prefix)

module _ {N : Type 0} where
  -- b.orig == DynamicVal
  abbrev pub is_dynamic_val : Value N → Bool
  is_dynamic_val (unknown_val pseudo_type_dynamic none) = true
  is_dynamic_val _ = false

  -- The refinement that Refine starts from, where the value has none.
  abbrev pub initial : CtyType → Bool → Option (Refinement N)
  initial (primitive_type Kind.string) is_null = some (refinement_string tristate_unknown [])
  initial (primitive_type Kind.number) is_null = some (
      refinement_number tristate_unknown
        record { min = none; max = none; min_inc = false; max_inc = false })
  initial (primitive_type Kind.bool) is_null = some (refinement_nullable tristate_unknown)
  initial (type_list t) is_null = some (refinement_collection tristate_unknown 0 max_int)
  initial (type_set t) is_null = some (refinement_collection tristate_unknown 0 max_int)
  initial (type_map t) is_null = some (refinement_collection tristate_unknown 0 max_int)
  initial (type_object fs os) is_null = some (refinement_nullable tristate_unknown)
  initial (type_tuple ts) is_null = some (refinement_nullable tristate_unknown)
  initial (capsule_type n) is_null = some (refinement_nullable tristate_unknown)
  initial pseudo_type_dynamic true = some (refinement_nullable tristate_true)
  initial pseudo_type_dynamic false = none

  -- Refine
  unfoldable pub refine : Value N → Builder N
  refine (unknown_val t (some r)) = record { orig = unknown_val t (some r); wip = some r }
  refine v = record { orig = v; wip = initial (type_of v) (is_null v) }

  -- refineable, and then the step on the refinement: DynamicVal is left alone, and a value that
  -- has no refinement panics.
  abbrev pub refining : Builder N → (Refinement N → Option (Refinement N)) → Option (Builder N)
  refining b f = if is_dynamic_val b.orig then some b else elim b.wip [
    | none ↦ none
    | some r ↦ elim (f r) [ none ↦ none | some r' ↦ some record b { wip = some r' } ]
  ]

  -- NotNull
  abbrev pub not_null_step : Value N → Refinement N → Option (Refinement N)
  not_null_step v r =
      if is_null v
      then none
      else if is_tristate_true (null r)
      then none
      else some (set_null tristate_false r)

  unfoldable pub not_null : Builder N → Option (Builder N)
  not_null b = refining b (not_null_step b.orig)

  -- Null
  abbrev pub null_step : Value N → Refinement N → Option (Refinement N)
  null_step v r =
      if is_known v && not (is_null v)
      then none
      else if is_tristate_false (null r)
      then none
      else some (set_null tristate_true r)

  unfoldable pub to_null : Builder N → Option (Builder N)
  to_null b = refining b (null_step b.orig)

  -- CollectionLengthLowerBound: the value's own length, then the earlier bound, then the check.
  abbrev pub length_lower_step : ℕ → Value N → Refinement N → Option (Refinement N)
  length_lower_step n v (refinement_collection t lo hi) =
      let fits =
        if is_known v
        then elim (length_bounds v) [ none ↦ false | some real ↦ not (ltb (real.1) n) ]
        else true in
      if not fits
      then none
      else if ltb n lo
      then some (refinement_collection t lo hi)
      else if ltb hi n
      then none
      else some (refinement_collection t n hi)
  length_lower_step n v _ = none

  unfoldable pub collection_length_lower_bound : ℕ → Builder N → Option (Builder N)
  collection_length_lower_bound n b = refining b (length_lower_step n b.orig)

  -- CollectionLengthUpperBound
  abbrev pub length_upper_step : ℕ → Value N → Refinement N → Option (Refinement N)
  length_upper_step n v (refinement_collection t lo hi) =
      let fits =
        if is_known v
        then elim (length_bounds v) [ none ↦ false | some real ↦ not (ltb n (real.0)) ]
        else true in
      if not fits
      then none
      else if ltb hi n
      then some (refinement_collection t lo hi)
      else if ltb n lo
      then none
      else some (refinement_collection t lo n)
  length_upper_step n v _ = none

  unfoldable pub collection_length_upper_bound : ℕ → Builder N → Option (Builder N)
  collection_length_upper_bound n b = refining b (length_upper_step n b.orig)

  -- CollectionLength
  unfoldable pub collection_length : ℕ → Builder N → Option (Builder N)
  unfolding collection_length_lower_bound collection_length_upper_bound
  collection_length n b = elim (collection_length_lower_bound n b) [
    | none ↦ none
    | some b' ↦ collection_length_upper_bound n b'
  ]

  -- StringPrefixFull
  abbrev pub prefix_step :
      (List ℕ → List ℕ) → List ℕ → Value N → Refinement N → Option (Refinement N)
  prefix_step normalize given v (refinement_string t have) =
      let prefix = normalize given in
      let fits : Bool = elim v [ string_val s ↦ overlap_equal s prefix | _ ↦ true ] in
      if not fits
      then none
      else if not (overlap_equal have prefix)
      then none
      else if ltb (length have) (length prefix)
      then some (refinement_string t prefix)
      else some (refinement_string t have)
  prefix_step normalize given v _ = none

  unfoldable pub string_prefix_full : (List ℕ → List ℕ) → List ℕ → Builder N → Option (Builder N)
  string_prefix_full normalize given b = refining b (prefix_step normalize given b.orig)
