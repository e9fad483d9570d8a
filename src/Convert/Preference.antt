-- ===== src/Convert/Preference.antt =====
-- The general case of `unify` (cty/convert/unify.go), past the cases for types of one kind: the
-- first type in the order of sortTypes to which all the others convert.
use go_cty.Prelude.{
  ℕ, zero, suc, inl, inr, ◌≡◌, refl, Bool, true, ◌||◌, Bool-cases, Option, none, some, List, [],
  ◌∷◌, length, get_elem?, if◌then◌else◌, ◌==◌, arith, nat_eq, is_some, sym, All, ◌+◌,
}
use mathlib.Core.Path.{subst, subst₂}
use go_cty.Types.{CtyType}
use go_cty.Types.Equality.{equals}
use go_cty.Types.Depth.{WellFormed}
use go_cty.Types.Soundness.{equals_equivalence}
use go_cty.Convert.Plans.{Conversion, CapsuleConversions}
use go_cty.Convert.Conversions.{Unify, get_conversion}
use go_cty.Convert.Sorting.{sort_types}
use go_cty.Convert.Sorting.Once.{is_among}

-- A type equals itself.
equals_own : (u t : CtyType) → WellFormed t → t ≡ u → equals t u ≡ true
equals_own u t w e = rw (← e) (equals_equivalence t t t w w w).0

All-get :
    (types : List CtyType) (i : ℕ) {t : CtyType}
    → All WellFormed types
    → get_elem? types i ≡ some t
    → WellFormed t
All-get [] i w e = absurd (ground arith)
All-get (u ∷ types) zero {t} w e = let same : u ≡ t = ground arith in subst WellFormed same w.0
All-get (u ∷ types) (suc i) w e = All-get types i w.1 e

abbrev pub put_conversion :
    Option Conversion → Option (List (Option Conversion)) → Option (List (Option Conversion))
put_conversion c none = none
put_conversion c (some cs) = some (c ∷ cs)

module _ (unify : Unify) (ops : CapsuleConversions) (unsafe : Bool) where
  -- The loop over the types, from index i on, for the wanted type and its index.
  abbrev pub conversions_to : ℕ → CtyType → ℕ → List CtyType → Option (List (Option Conversion))
  conversions_to want_idx want i [] = some []
  conversions_to want_idx want i (t ∷ ts) =
      let rest = conversions_to want_idx want (suc i) ts in
      if i == want_idx
      then put_conversion none rest
      else if equals t want
      then put_conversion none rest
      else elim (get_conversion unify ops unsafe t want) [
        | none ↦ none
        | some c ↦ put_conversion (some c) rest
      ]

  -- The loop over the order. An index that is out of range would be a panic.
  abbrev pub first_suitable : List CtyType → List ℕ → Option (CtyType × List (Option Conversion))
  first_suitable types [] = none
  first_suitable types (idx ∷ order) =
      let rest = first_suitable types order in
      elim (get_elem? types idx) [
        | none ↦ none
        | some want ↦ elim (conversions_to idx want 0 types) [
          | some convs ↦ some (want, convs)
          | none ↦ rest
        ]
      ]

  -- unify, from its call of sortTypes on
  unfoldable pub unify_by_preference : List CtyType → Option (CtyType × List (Option Conversion))
  unify_by_preference types = first_suitable types (sort_types types)

  -- What the entry of a type in the slice of conversions has to be.
  abbrev pub Settled : CtyType → CtyType → Option (Option Conversion) → Type 0
  Settled t want none = ⊥
  Settled t want (some none) = equals t want ≡ true
  Settled t want (some (some c)) = get_conversion unify ops unsafe t want ≡ some c

  conversions_to-cons :
      (idx : ℕ) (want : CtyType) (i : ℕ) (t : CtyType) (ts : List CtyType)
      (convs : List (Option Conversion))
      → conversions_to idx want i (t ∷ ts) ≡ some convs
      → (i ≡ idx → equals t want ≡ true)
      → (c : Option Conversion) × (cs : List (Option Conversion)) × (convs ≡ c ∷ cs)
        × Settled t want (some c)
        × (conversions_to idx want (suc i) ts ≡ some cs)
  conversions_to-cons idx want i t ts convs h same =
      read (conversions_to idx want (suc i) ts) (get_conversion unify ops unsafe t want) refl refl
    where
      read :
          (rest : Option (List (Option Conversion))) (d : Option Conversion)
          → conversions_to idx want (suc i) ts ≡ rest
          → get_conversion unify ops unsafe t want ≡ d
          → (c : Option Conversion) × (cs : List (Option Conversion)) × (convs ≡ c ∷ cs)
            × Settled t want (some c)
            × (conversions_to idx want (suc i) ts ≡ some cs)
      read none none e f = absurd (ground arith)
      read none (some c) e f = absurd (ground arith)
      read (some cs) none e f = (none, cs, ground arith, ground arith, e)
      read (some cs) (some c) e f = elim (Bool-cases (i == idx || equals t want)) [
        | inl y ↦ (none, cs, ground arith, ground arith, e)
        | inr n ↦ (some c, cs, ground arith, f, e)
      ]

  conversions_to-Settled :
      (idx : ℕ) (want : CtyType) (start : ℕ) (ts : List CtyType) (convs : List (Option Conversion))
      → conversions_to idx want start ts ≡ some convs
      → ((i : ℕ) (t : CtyType) → get_elem? ts i ≡ some t → start + i ≡ idx → equals t want ≡ true)
      → (length convs ≡ length ts)
        × ((i : ℕ) (t : CtyType) → get_elem? ts i ≡ some t → Settled t want (get_elem? convs i))
  conversions_to-Settled idx want start [] convs h same =
      (ground arith, λ i t e. absurd (ground arith))
  conversions_to-Settled idx want start (u ∷ ts) convs h same =
      let step =
        conversions_to-cons idx want start u ts convs h (λ e. same 0 u refl (omega (arith, e))) in
      let rest =
        conversions_to-Settled idx want (suc start) ts step.1 step.4
          (λ i t e f. same (suc i) t e (omega (arith, f))) in
      (ground (arith, rest.0, step.2), λ i t e. at_index step.0 step.1 step.2 step.3 rest.1 i t e)
    where
      at_index :
          (c : Option Conversion) (cs : List (Option Conversion))
          → convs ≡ c ∷ cs
          → Settled u want (some c)
          → ((i : ℕ) (t : CtyType) → get_elem? ts i ≡ some t → Settled t want (get_elem? cs i))
          → (i : ℕ) (t : CtyType) → get_elem? (u ∷ ts) i ≡ some t
          → Settled t want (get_elem? convs i)
      at_index c cs shape here later zero t e =
          let same_type : u ≡ t = ground arith in
          subst₂ (λ a ds. Settled a want (get_elem? ds 0)) same_type (sym shape) here
      at_index c cs shape here later (suc i) t e =
          subst (λ ds. Settled t want (get_elem? ds (suc i))) (sym shape) (later i t e)

  -- Where the loop over the order stops.
  first_suitable-found :
      (types : List CtyType) (order : List ℕ) (want : CtyType) (convs : List (Option Conversion))
      → first_suitable types order ≡ some (want, convs)
      → (idx : ℕ) × (get_elem? types idx ≡ some want)
        × (is_among idx order ≡ true)
        × (conversions_to idx want 0 types ≡ some convs)
  first_suitable-found types [] want convs h = absurd (ground arith)
  first_suitable-found types (idx ∷ order) want convs h =
      at_type (get_elem? types idx) (first_suitable-found types order want convs) refl
    where
      at_type :
          (w : Option CtyType)
          → (first_suitable types order ≡ some (want, convs)
              → (j : ℕ) × (get_elem? types j ≡ some want)
                × (is_among j order ≡ true)
                × (conversions_to j want 0 types ≡ some convs))
          → get_elem? types idx ≡ w
          → (j : ℕ) × (get_elem? types j ≡ some want)
            × (is_among j (idx ∷ order) ≡ true)
            × (conversions_to j want 0 types ≡ some convs)
      at_type none later e = absurd (ground arith)
      at_type (some w) later e = elim (Bool-cases (is_some (conversions_to idx w 0 types))) [
        | inl y ↦
            let same : w ≡ want = ground arith in
            (idx, ground arith, ground arith, rw (← same) (ground arith))
        | inr n ↦
            let found = later (ground arith) in (found.0, found.1, ground (arith, found.2), found.3)
      ]

  -- For types in which no attribute name stands twice: if unify comes to try the types one by one
  -- and returns a type and a slice of conversions, then that type is one of the given types, at an
  -- index that sortTypes gives, and the slice has an entry for each given type: nil only where the
  -- type equals the result, and else the conversion from it that getConversion returns.
  pub unify_by_preference-Settled :
      (types : List CtyType) (want : CtyType) (convs : List (Option Conversion))
      → All WellFormed types
      → unify_by_preference types ≡ some (want, convs)
      → ((idx : ℕ) × (get_elem? types idx ≡ some want) × (is_among idx (sort_types types) ≡ true))
        × (length convs ≡ length types)
        × ((i : ℕ) (t : CtyType) → get_elem? types i ≡ some t → Settled t want (get_elem? convs i))
  unfolding unify_by_preference
  unify_by_preference-Settled types want convs w h =
      let found = first_suitable-found types (sort_types types) want convs h in
      let each =
        conversions_to-Settled found.0 want 0 types convs found.3
          (λ i t e f. equals_own want t (All-get types i w e) (ground (arith, found.1, e, f))) in
      ((found.0, found.1, found.2), each.0, each.1)
