-- ===== src/Values/Marks.antt =====
-- Sets of marks as lists, and the marks that WithMarks, Mark and Unmark leave on a value.
use go_cty.Prelude.{
  ◌≡◌, refl, Bool, true, false, ◌&&◌, ◌||◌, not, List, [], ◌∷◌, any, Equatable, ◌==◌, arith,
}
use go_cty.Values.{
  Value, has_member, insert_mark, delete_mark, insert_marks, union_marks, any_marks, marks,
  unmark_force, has_mark, with_marks,
}

abbrev pub is_empty {ℓ} : {M : Type ℓ} → List M → Bool
is_empty [] = true
is_empty (m ∷ ms) = false

module _ {ℓ} {M : Type ℓ} ⦃e : Equatable M⦄ where
  pub has_member-insert_mark :
      (j m : M) (xs : List M) → has_member j (insert_mark m xs) ≡ (m == j || has_member j xs)
  has_member-insert_mark j m xs = ground (arith, e.test_iff m j)

  pub has_member-insert_marks :
      (j : M) (ms xs : List M)
      → has_member j (insert_marks ms xs) ≡ (has_member j ms || has_member j xs)
  has_member-insert_marks j [] xs = refl
  has_member-insert_marks j (m ∷ ms) xs =
      ground (arith, has_member-insert_marks j ms (insert_mark m xs), has_member-insert_mark j m xs)

  pub has_member-delete_mark :
      (j m : M) (xs : List M) → has_member j (delete_mark m xs) ≡ (not (m == j) && has_member j xs)
  has_member-delete_mark j m [] = ground arith
  has_member-delete_mark j m (x ∷ xs) =
      ground (arith, e.test_iff x m, e.test_iff m j, e.test_iff x j, has_member-delete_mark j m xs)

  has_member-union_marks :
      (j : M) (ss : List (List M)) (xs : List M)
      → has_member j (union_marks ss xs) ≡ (any (has_member j) ss || has_member j xs)
  has_member-union_marks j [] xs = refl
  has_member-union_marks j (s ∷ ss) xs =
      ground
        (arith, has_member-union_marks j ss (insert_marks s xs), has_member-insert_marks j s xs)

  no_marks : (j : M) (ss : List (List M)) → any_marks ss ≡ false → any (has_member j) ss ≡ false
  no_marks j [] h = refl
  no_marks j ([] ∷ ss) h = no_marks j ss h
  no_marks j ((m ∷ ms) ∷ ss) h = absurd (ground arith)

  -- The deletions of all marks of one set from another.
  unfoldable pub delete_all : List M → List M → List M
  delete_all [] xs = xs
  delete_all (m ∷ ms) xs = delete_all ms (delete_mark m xs)

  has_member-delete_all :
      (j : M) (ms xs : List M)
      → has_member j (delete_all ms xs) ≡ (not (has_member j ms) && has_member j xs)
  unfolding delete_all
  has_member-delete_all j [] xs = ground arith
  has_member-delete_all j (m ∷ ms) xs =
      ground (arith, has_member-delete_all j ms (delete_mark m xs), has_member-delete_mark j m xs)

  all_gone : (xs : List M) → ((j : M) → has_member j xs ≡ false) → xs ≡ []
  all_gone [] h = refl
  all_gone (x ∷ xs) h = absurd (ground (arith, h x, e.test_iff x x))

  pub delete_all_self : (ms : List M) → delete_all ms ms ≡ []
  delete_all_self ms =
      all_gone (delete_all ms ms) (λ j. ground (arith, has_member-delete_all j ms ms))

module _ {N M : Type 0} ⦃e : Equatable M⦄ where
  -- WithMarks leaves what is inside the marker as it was, and its result has a mark exactly if the
  -- value had it or one of the sets has it.
  pub has_mark-with_marks :
      (ss : List (List M)) (v : Value N M) (j : M)
      → (unmark_force (with_marks ss v) ≡ unmark_force v)
        × (has_mark j (with_marks ss v) ≡ (has_mark j v || any (has_member j) ss))
  unfolding with_marks
  has_mark-with_marks [] v j = (refl, ground arith)
  has_mark-with_marks (s ∷ ss) v j = (
    ground arith,
    ground (
      arith,
      no_marks j (marks v ∷ s ∷ ss),
      has_member-union_marks j (s ∷ ss) (insert_marks (marks v) []),
      has_member-insert_marks j (marks v) [],
    ),
  )
