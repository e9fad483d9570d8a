-- ===== src/Stdlib/Examples.antt =====
-- Tests of functions of the standard library.
use go_cty.Prelude.{ℕ, ◌≡◌, refl, [], ◌∷◌}
use go_cty.Stdlib.Chunklist.{chunklist, joined, Chunked, chunklist-Chunked}

chunks_of_two :
    chunklist {A = ℕ} 2 (4 ∷ 5 ∷ 6 ∷ 7 ∷ 8 ∷ []) ≡ (4 ∷ 5 ∷ []) ∷ (6 ∷ 7 ∷ []) ∷ (8 ∷ []) ∷ []
unfolding chunklist
chunks_of_two = refl

chunklist-Chunked_example :
    (joined {A = ℕ} (chunklist 2 (4 ∷ 5 ∷ 6 ∷ [])) ≡ 4 ∷ 5 ∷ 6 ∷ [])
    × Chunked {A = ℕ} 2 (chunklist 2 (4 ∷ 5 ∷ 6 ∷ []))
    × (chunklist {A = ℕ} 0 (4 ∷ 5 ∷ 6 ∷ []) ≡ (4 ∷ 5 ∷ 6 ∷ []) ∷ [])
    × ((size : ℕ) → chunklist {A = ℕ} size [] ≡ [])
chunklist-Chunked_example = chunklist-Chunked 1 4 (5 ∷ 6 ∷ [])
