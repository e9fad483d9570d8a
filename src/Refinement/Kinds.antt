-- ===== src/Refinement/Kinds.antt =====
-- The steps of the builder for nullness, lengths and prefixes, and the outcomes that they leave.
use go_cty.Prelude.{
  ℕ, ◌≡◌, refl, true, false, ◌&&◌, not, some, List, [], ◌∷◌, ltb, length, nat_beq_iff, nat_eq,
  arith,
}
use go_cty.Refinement.{
  NumberOrder, Refinement, refinement_string, refinement_number, refinement_collection,
  refinement_nullable, Value,
}
use go_cty.Refinement.Builder.{
  not_null_step, null_step, length_lower_step, length_upper_step, overlap_equal, prefix_step,
}
use go_cty.Refinement.Meaning.{
  Outcome, null_outcome, number_outcome, text_outcome, length_outcome, other_outcome, admits,
  at_least, at_most, starts_with, has_prefix, is_null_outcome,
}

module _ {N : Type 0} ⦃o : NumberOrder N⦄ where
  pub not_null_step-admits :
      (v : Value N) (r r' : Refinement N) (c : Outcome N)
      → not_null_step v r ≡ some r'
      → admits r' c ≡ (admits r c && not (is_null_outcome c))
  not_null_step-admits v r r' c h = ground arith

  pub null_step-admits :
      (v : Value N) (r r' : Refinement N) (c : Outcome N)
      → null_step v r ≡ some r'
      → admits r' c ≡ (admits r c && is_null_outcome c)
  null_step-admits v r r' c h = ground arith

  pub length_lower_step-admits :
      (n : ℕ) (v : Value N) (r r' : Refinement N) (c : Outcome N)
      → length_lower_step n v r ≡ some r'
      → admits r' c ≡ (admits r c && at_least n c)
  length_lower_step-admits n v r r' c h = ground arith

  pub length_upper_step-admits :
      (n : ℕ) (v : Value N) (r r' : Refinement N) (c : Outcome N)
      → length_upper_step n v r ≡ some r'
      → admits r' c ≡ (admits r c && at_most n c)
  length_upper_step-admits n v r r' c h = ground arith

-- A text that overlaps another and is not shorter starts with it.
pub overlap_equal-long :
    (s t : List ℕ) → ltb (length s) (length t) ≡ true → overlap_equal s t ≡ has_prefix s t
overlap_equal-long [] t h = ground arith
overlap_equal-long (a ∷ s) [] h = ground arith
overlap_equal-long (a ∷ s) (b ∷ t) h = ground (arith, overlap_equal-long s t)

pub overlap_equal-short :
    (s t : List ℕ) → ltb (length s) (length t) ≡ false → overlap_equal s t ≡ has_prefix t s
overlap_equal-short s [] h = ground arith
overlap_equal-short [] (b ∷ t) h = ground arith
overlap_equal-short (a ∷ s) (b ∷ t) h =
    ground (arith, overlap_equal-short s t, nat_beq_iff a b, nat_beq_iff b a)

pub has_prefix_trans :
    (p q s : List ℕ) → has_prefix p q ≡ true → has_prefix q s ≡ true → has_prefix p s ≡ true
has_prefix_trans [] q s h k = refl
has_prefix_trans (a ∷ p) [] s h k = ground arith
has_prefix_trans (a ∷ p) (b ∷ q) [] h k = ground arith
has_prefix_trans (a ∷ p) (b ∷ q) (c ∷ s) h k =
    ground (arith, has_prefix_trans p q s, nat_beq_iff a b, nat_beq_iff b c, nat_beq_iff a c)

module _ {N : Type 0} ⦃o : NumberOrder N⦄ (normalize : List ℕ → List ℕ) where
  pub prefix_step-admits :
      (p : List ℕ) (v : Value N) (r r' : Refinement N) (c : Outcome N)
      → prefix_step normalize p v r ≡ some r'
      → admits r' c ≡ (admits r c && starts_with (normalize p) c)
  prefix_step-admits p v (refinement_string t q) r' (text_outcome s) h = ground (
    arith,
    overlap_equal-long q (normalize p),
    overlap_equal-short q (normalize p),
    has_prefix_trans q (normalize p) s,
    has_prefix_trans (normalize p) q s,
  )
  prefix_step-admits p v (refinement_string t q) r' null_outcome h = ground arith
  prefix_step-admits p v (refinement_string t q) r' (number_outcome n) h = ground arith
  prefix_step-admits p v (refinement_string t q) r' (length_outcome l) h = ground arith
  prefix_step-admits p v (refinement_string t q) r' other_outcome h = ground arith
  prefix_step-admits p v (refinement_number t r) r' c h = absurd (ground arith)
  prefix_step-admits p v (refinement_collection t a b) r' c h = absurd (ground arith)
  prefix_step-admits p v (refinement_nullable t) r' c h = absurd (ground arith)
