-- ===== src/Values/RawEquality/Marking.antt =====
-- HasSameMarks and ValueMarks.Equal (cty/marks.go) as tests of two sets of marks.
use go_cty.Prelude.{
  ◌≡◌, refl, sym, ◌∙◌, Bool, true, List, [], ◌∷◌, length, Equatable, nat_eq, nat_beq_iff, is_some,
  arith,
}
use go_cty.Prelude.Maps.{Map, lookup, Unique, covers_symm}
use go_cty.Values.{has_member, all_in, marks_equal}

module _ {M : Type 0} ⦃e : Equatable M⦄ where
  -- `map[any]struct{}`
  abbrev mark_map : List M → Map M Bool
  mark_map [] = []
  mark_map (m ∷ ms) = (m, true) ∷ mark_map ms

  -- No mark stands twice.
  abbrev pub DistinctMarks : List M → Type 0
  DistinctMarks ms = Unique (mark_map ms)

  lookup-mark_map : (m : M) (ms : List M) → is_some (lookup m (mark_map ms)) ≡ has_member m ms
  lookup-mark_map m [] = refl
  lookup-mark_map m (x ∷ xs) = ground (arith, lookup-mark_map m xs)

  length-mark_map : (ms : List M) → length (mark_map ms) ≡ length ms
  length-mark_map [] = refl
  length-mark_map (m ∷ ms) = omega (arith, length-mark_map ms)

  all_in-member :
      (ms os : List M) (m : M)
      → all_in ms os ≡ true
      → has_member m ms ≡ true
      → has_member m os ≡ true
  all_in-member [] os m h k = absurd (ground arith)
  all_in-member (x ∷ ms) os m h k = ground (arith, e.test_iff x m, all_in-member ms os m)

  all_in-build :
      (ms os : List M)
      → ((m : M) → has_member m ms ≡ true → has_member m os ≡ true)
      → all_in ms os ≡ true
  all_in-build [] os h = refl
  all_in-build (x ∷ ms) os h =
      ground (arith, h x, e.test_iff x x, all_in-build ms os (λ m k. h m (ground arith)))

  marks_equal-lengths :
      (ms os : List M) → marks_equal ms os ≡ true → (length ms ≡ length os) × (all_in ms os ≡ true)
  marks_equal-lengths ms os h = (ground (arith, nat_beq_iff (length ms) (length os)), ground arith)

  marks_equal-build :
      (ms os : List M) → length ms ≡ length os → all_in ms os ≡ true → marks_equal ms os ≡ true
  marks_equal-build ms os h k = ground (arith, nat_beq_iff (length ms) (length os))

  pub marks_equal_refl : (ms : List M) → marks_equal ms ms ≡ true
  marks_equal_refl ms = marks_equal-build ms ms refl (all_in-build ms ms (λ m k. k))

  pub marks_equal_symm :
      (ms os : List M)
      → DistinctMarks ms
      → DistinctMarks os
      → marks_equal ms os ≡ true
      → marks_equal os ms ≡ true
  marks_equal_symm ms os d f h =
      let both = marks_equal-lengths ms os h in
      let back =
        covers_symm (mark_map ms) (mark_map os) d f
          (length-mark_map ms ∙ (both.0 ∙ sym (length-mark_map os)))
          (λ m k.
            lookup-mark_map m os ∙ all_in-member ms os m both.1 (sym (lookup-mark_map m ms) ∙ k)) in
      marks_equal-build os ms (sym both.0)
        (all_in-build os ms (λ m k. sym (lookup-mark_map m ms) ∙ back m (lookup-mark_map m os ∙ k)))

  pub marks_equal_trans :
      (ms os ps : List M)
      → marks_equal ms os ≡ true
      → marks_equal os ps ≡ true
      → marks_equal ms ps ≡ true
  marks_equal_trans ms os ps h k =
      let a = marks_equal-lengths ms os h in
      let b = marks_equal-lengths os ps k in
      marks_equal-build ms ps (a.0 ∙ b.0)
        (all_in-build ms ps (λ m i. all_in-member os ps m b.1 (all_in-member ms os m a.1 i)))
