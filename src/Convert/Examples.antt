-- ===== src/Convert/Examples.antt =====
-- Tests of the preference order, of conversions and of unification.
use go_cty.Prelude.{
  ℕ, ◌≡◌, refl, true, false, Option, none, some, List, [], ◌∷◌, length, get_elem?, is_some, nat_eq,
  string_eq,
}
use go_cty.Types.Equality.{equals_within, equals}
use go_cty.Types.Shape.{has_dynamic_types}
use go_cty.Convert.Plans.{
  Conversion, wrapped, object_to_map, attr_by, no_attr_convs, primitive_conversion,
  CapsuleConversions,
}
use go_cty.Convert.Conversions.{Unify, get_conversion}
use go_cty.Convert.Conversions.Steps.{is_safe}
use go_cty.Convert.Conversions.Safety.{get_conversion-is_safe}
use go_cty.Convert.Conversions.Widening.{get_conversion_widens}
use go_cty.Convert.Sorting.{run_queue, sort_types}
use go_cty.Convert.Sorting.Once.{is_among, is_distinct, sort_types-is_distinct}
use go_cty.Convert.Preference.{Settled, unify_by_preference, unify_by_preference-Settled}
use go_cty.Types.{
  CtyType, Kind, pseudo_type_dynamic, primitive_type, type_list, type_map, type_object, type_tuple,
  no_attrs, attr, no_types,
}
use go_cty.Types.Depth.{WellFormed, depth}
use go_cty.Convert.Compare.{minus_one, plus_one, negate, compare_types}
use go_cty.Convert.Compare.Antisymmetry.{compare_types-opposite}

abbrev named : Kind → CtyType
named k = type_object (attr "name" (primitive_type k) no_attrs) []

named-WellFormed : (k : Kind) → WellFormed (named k)
named-WellFormed k = ((refl, tt), (tt, tt))

-- A string may stand for a number, so the object with the string comes first.
compare_types-named : compare_types (named Kind.string) (named Kind.number) ≡ minus_one
unfolding compare_types
compare_types-named = refl

compare_types-tuple : compare_types (type_tuple no_types) (type_list pseudo_type_dynamic) ≡ plus_one
unfolding compare_types
compare_types-tuple = refl

compare_types-opposite_example :
    compare_types (named Kind.number) (named Kind.string)
    ≡ negate (compare_types (named Kind.string) (named Kind.number))
compare_types-opposite_example =
    compare_types-opposite (named Kind.number) (named Kind.string) (named-WellFormed Kind.number)
      (named-WellFormed Kind.string)

-- A unification that settles on the first type.
abbrev first_type : Unify
first_type unsafe [] = none
first_type unsafe (t ∷ ts) = some t

abbrev no_capsules : CapsuleConversions
no_capsules = record { conversion_to = λ a t. false; conversion_from = λ a t. false }

-- object({name = number}) to map(string)
get_conversion-named :
    get_conversion first_type no_capsules false
      (named Kind.number)
      (type_map (primitive_type Kind.string))
    ≡ some (
        wrapped (type_map (primitive_type Kind.string)) (
          object_to_map (primitive_type Kind.string) false (
            attr_by "name"
              (wrapped (primitive_type Kind.string) (primitive_conversion Kind.number Kind.string))
              no_attr_convs)))
unfolding get_conversion equals_within depth equals
get_conversion-named = refl

-- A list of strings becomes a list of numbers only where that may fail.
get_conversion_unsafe :
    get_conversion first_type no_capsules false
      (type_list (primitive_type Kind.string))
      (type_list (primitive_type Kind.number))
    ≡ none
unfolding get_conversion equals_within depth equals
get_conversion_unsafe = refl

get_conversion-is_safe_example :
    is_safe (
      wrapped (type_map (primitive_type Kind.string)) (
        object_to_map (primitive_type Kind.string) false (
          attr_by "name"
            (wrapped (primitive_type Kind.string) (primitive_conversion Kind.number Kind.string))
            no_attr_convs)))
    ≡ true
get_conversion-is_safe_example =
    get_conversion-is_safe first_type no_capsules (named Kind.number)
      (type_map (primitive_type Kind.string))
      (wrapped (type_map (primitive_type Kind.string)) (
        object_to_map (primitive_type Kind.string) false (
          attr_by "name"
            (wrapped (primitive_type Kind.string) (primitive_conversion Kind.number Kind.string))
            no_attr_convs)))
      get_conversion-named

static_map : has_dynamic_types (type_map (primitive_type Kind.string)) ≡ false
unfolding has_dynamic_types
static_map = refl

safe_map :
    is_some (
      get_conversion first_type no_capsules false
        (named Kind.number)
        (type_map (primitive_type Kind.string)))
    ≡ true
safe_map = rw get_conversion-named refl

get_conversion_widens_example :
    is_some (
      get_conversion first_type no_capsules true
        (named Kind.number)
        (type_map (primitive_type Kind.string)))
    ≡ true
get_conversion_widens_example =
    get_conversion_widens first_type no_capsules (named Kind.number)
      (type_map (primitive_type Kind.string)) static_map safe_map

-- number, string and bool: the string comes first.
abbrev three_types : List CtyType
three_types =
    primitive_type Kind.number ∷ primitive_type Kind.string ∷ primitive_type Kind.bool ∷ []

sort_types_three : sort_types three_types ≡ 1 ∷ 0 ∷ 2 ∷ []
unfolding sort_types compare_types
sort_types_three = refl

sort_types-is_distinct_example :
    ((run_queue three_types).1 ≡ [])
    × (length (sort_types three_types) ≡ length three_types)
    × (is_distinct (run_queue three_types).0 ≡ true)
sort_types-is_distinct_example = sort_types-is_distinct three_types

abbrev three_conversions : List (Option Conversion)
three_conversions =
    some (wrapped (primitive_type Kind.string) (primitive_conversion Kind.number Kind.string))
    ∷ none
    ∷ some (wrapped (primitive_type Kind.string) (primitive_conversion Kind.bool Kind.string))
    ∷ []

unify_three :
    unify_by_preference first_type no_capsules false three_types
    ≡ some (primitive_type Kind.string, three_conversions)
unfolding unify_by_preference sort_types compare_types get_conversion equals_within depth equals
unify_three = refl

unify_by_preference-Settled_example :
    ((idx : ℕ) × (get_elem? three_types idx ≡ some (primitive_type Kind.string))
      × (is_among idx (sort_types three_types) ≡ true))
    × (length three_conversions ≡ length three_types)
    × ((i : ℕ) (t : CtyType)
        → get_elem? three_types i ≡ some t
        → Settled first_type no_capsules false t
            (primitive_type Kind.string)
            (get_elem? three_conversions i))
unify_by_preference-Settled_example =
    unify_by_preference-Settled first_type no_capsules false three_types
      (primitive_type Kind.string) three_conversions (tt, (tt, (tt, tt))) unify_three
