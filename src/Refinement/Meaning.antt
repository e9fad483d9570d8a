-- ===== src/Refinement/Meaning.antt =====
-- What a value and a refinement promise: the outcomes that an unknown value may turn out to be.
use go_cty.Prelude.{
  ℕ, Bool, true, false, ◌&&◌, not, none, some, List, [], ◌∷◌, leb, nat_eq, ◌==◌, if◌then◌else◌,
}
use go_cty.Types.{
  CtyType, Kind, pseudo_type_dynamic, primitive_type, type_list, type_set, type_map, type_object,
  type_tuple, capsule_type,
}
use go_cty.Refinement.{
  NumberOrder, Tristate, tristate_true, tristate_false, NumberRange, Refinement, refinement_string,
  refinement_number, refinement_collection, refinement_nullable, Value, unknown_val, null_val,
  number_val, string_val, collection_val, structural_val, opaque_val, max_int, type_of,
  length_bounds, null, equal,
}
use go_cty.Refinement.Builder.{Builder, is_dynamic_val}
use go_cty.Refinement.Numbers.{consistent}

-- A known value, as far as a refinement can describe it.
pub data Outcome (N : Type 0) : Type 0 where
  null_outcome : Outcome N
  number_outcome : N → Outcome N
  text_outcome : List ℕ → Outcome N
  length_outcome : ℕ → Outcome N
  other_outcome : Outcome N

abbrev pub has_prefix : List ℕ → List ℕ → Bool
has_prefix [] s = true
has_prefix (a ∷ p) [] = false
has_prefix (a ∷ p) (c ∷ s) = a == c && has_prefix p s

abbrev pub allows_null : Tristate → Bool
allows_null tristate_false = false
allows_null _ = true

abbrev pub allows_known : Tristate → Bool
allows_known tristate_true = false
allows_known _ = true

module _ {N : Type 0} where
  -- The constraint of a length bound on an outcome that is a collection.
  abbrev pub at_least : ℕ → Outcome N → Bool
  at_least n (length_outcome l) = leb n l
  at_least n _ = true

  abbrev pub at_most : ℕ → Outcome N → Bool
  at_most n (length_outcome l) = leb l n
  at_most n _ = true

  abbrev pub starts_with : List ℕ → Outcome N → Bool
  starts_with p (text_outcome s) = has_prefix p s
  starts_with p _ = true

  abbrev pub is_null_outcome : Outcome N → Bool
  is_null_outcome null_outcome = true
  is_null_outcome _ = false

module _ {N : Type 0} ⦃o : NumberOrder N⦄ where
  -- The constraint of a number bound on an outcome that is a number.
  abbrev pub above : N → Bool → Outcome N → Bool
  above m inclusive (number_outcome n) = if inclusive then not (o.less n m) else o.less m n
  above m inclusive _ = true

  abbrev pub below : N → Bool → Outcome N → Bool
  below m inclusive (number_outcome n) = if inclusive then not (o.less m n) else o.less n m
  below m inclusive _ = true

  abbrev pub in_range : NumberRange N → N → Bool
  in_range r n =
      elim r.min [ none ↦ true | some a ↦ above a r.min_inc (number_outcome n) ]
      && elim r.max [ none ↦ true | some b ↦ below b r.max_inc (number_outcome n) ]

  -- The outcomes that a refinement leaves.
  abbrev pub admits : Refinement N → Outcome N → Bool
  admits r null_outcome = allows_null (null r)
  admits (refinement_string t p) (text_outcome s) = allows_known t && has_prefix p s
  admits (refinement_number t r) (number_outcome n) = allows_known t && in_range r n
  admits (refinement_collection t a b) (length_outcome l) = allows_known t && leb a l && leb l b
  admits (refinement_nullable t) other_outcome = allows_known t
  admits _ _ = false

  -- The outcomes that a builder leaves.
  abbrev pub allows : Builder N → Outcome N → Bool
  allows b c = elim b.wip [ none ↦ true | some r ↦ admits r c ]

  -- The outcomes of a type.
  abbrev pub fits : CtyType → Outcome N → Bool
  fits t null_outcome = true
  fits (primitive_type Kind.string) (text_outcome s) = true
  fits (primitive_type Kind.number) (number_outcome n) = true
  fits (primitive_type Kind.bool) other_outcome = true
  fits (type_list t) (length_outcome l) = leb l max_int
  fits (type_set t) (length_outcome l) = leb l max_int
  fits (type_map t) (length_outcome l) = leb l max_int
  fits (type_object fs os) other_outcome = true
  fits (type_tuple ts) other_outcome = true
  fits (capsule_type n) other_outcome = true
  fits pseudo_type_dynamic c = true
  fits _ _ = false

  -- The outcomes that a value may turn out to be, itself alone if it is known. A set with unknown
  -- elements may turn out shorter than it is.
  abbrev pub denotes : Value N → Outcome N → Bool
  denotes (unknown_val t none) c = fits t c
  denotes (unknown_val t (some r)) c = admits r c
  denotes (null_val t) c = is_null_outcome c
  denotes (number_val m) (number_outcome n) = equal m n
  denotes (string_val s) (text_outcome t) = has_prefix s t && has_prefix t s
  denotes (collection_val t vs) (length_outcome l) = elim (length_bounds (collection_val t vs)) [
    | none ↦ false
    | some real ↦ leb (real.0) l && leb l (real.1)
  ]
  denotes (structural_val t vs) other_outcome = true
  denotes (opaque_val t) other_outcome = true
  denotes _ _ = false

  -- The kinds of refinement that Refine gives to the values of a type.
  abbrev pub suits : CtyType → Refinement N → Bool
  suits (primitive_type Kind.string) (refinement_string t p) = true
  suits (primitive_type Kind.number) (refinement_number t r) = consistent r
  suits (primitive_type Kind.bool) (refinement_nullable t) = true
  suits (type_list t) (refinement_collection u a b) = leb a b
  suits (type_set t) (refinement_collection u a b) = leb a b
  suits (type_map t) (refinement_collection u a b) = leb a b
  suits (type_object fs os) (refinement_nullable t) = true
  suits (type_tuple ts) (refinement_nullable t) = true
  suits (capsule_type n) (refinement_nullable t) = true
  suits pseudo_type_dynamic (refinement_nullable tristate_true) = true
  suits _ _ = false

  -- Well-formed builders: only DynamicVal has no refinement, every other one has a refinement of
  -- its type's kind whose bounds do not cross.
  abbrev pub is_valid : Builder N → Bool
  is_valid b = elim b.wip [ none ↦ is_dynamic_val b.orig | some r ↦ suits (type_of b.orig) r ]
