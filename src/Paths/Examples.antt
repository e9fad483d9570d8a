-- ===== src/Paths/Examples.antt =====
-- Path sets whose index keys are numbers, of which `none` is an unknown one, and the theorems at
-- concrete sets.
use go_cty.Prelude.{
  ℕ, ◌≡◌, refl, Bool, true, false, ◌||◌, Option, none, some, [], ◌∷◌, length, all, nat_beq, arith,
  if◌then◌else◌,
}
use go_cty.Prelude.Int.{pos}
use go_cty.HashSet.{has, add, values, set_length, new_set_from_slice}
use go_cty.HashSet.Lawful.{IsValid}
use go_cty.HashSet.Algebra.{Contract, has-new_set_from_slice}
use go_cty.Prelude.Sorting.{sort_by}
use go_cty.Values.RawEquality.{RawOps, exact}
use go_cty.Paths.IndexKeys.{index_keys, path_rules_of_keys-Contract}
use go_cty.Paths.{
  Keys, index_step, get_attr_step, PathOf, path_set_rules, path_equivalent, path_rules, PathSet,
  new_path_set, add_all_steps, is_empty, list, path_set_equal,
}
use go_cty.Paths.Equality.{
  path_rules-Lawful, path_set_equal_sound, path_set_equal_complete, leads_to, has-add_all_steps,
}

abbrev both_known : Option ℕ → Option ℕ → Bool
both_known (some a) (some b) = nat_beq a b
both_known _ _ = false

abbrev raw_same : Option ℕ → Option ℕ → Bool
raw_same (some a) (some b) = nat_beq a b
raw_same none none = true
raw_same _ _ = false

instance abbrev number_keys : Keys (Option ℕ)
number_keys = record {
  known_equal = both_known;
  raw_equal = raw_same;
  checksum = λ pieces. pos (length pieces);
  raw_refl = λ a. ground arith;
  symm = λ a b h. ground arith;
  trans = λ a b c h g. ground arith;
}

abbrev name_path : PathOf (Option ℕ)
name_path = get_attr_step "name" ∷ []

abbrev first_name : PathOf (Option ℕ)
first_name = get_attr_step "people" ∷ index_step (some 0) ∷ get_attr_step "name" ∷ []

abbrev here : PathSet (Option ℕ)
unfolding new_path_set
here = new_path_set (name_path ∷ first_name ∷ [])

abbrev there : PathSet (Option ℕ)
unfolding new_path_set
there = new_path_set (first_name ∷ name_path ∷ first_name ∷ [])

here-IsValid : IsValid here
unfolding new_path_set
here-IsValid =
    (has-new_set_from_slice path_set_rules (name_path ∷ first_name ∷ []) []
      (path_rules-Lawful path_set_rules)).0

there-IsValid : IsValid there
unfolding new_path_set
there-IsValid =
    (has-new_set_from_slice path_set_rules (first_name ∷ name_path ∷ first_name ∷ []) []
      (path_rules-Lawful path_set_rules)).0

same_sets : path_set_equal here there ≡ true
unfolding path_set_equal new_path_set new_set_from_slice add has values set_length sort_by
same_sets = refl

-- A set with an unknown key is not equal to itself.
unknown_key :
    path_set_equal
      (new_path_set ((index_step none ∷ []) ∷ []))
      (new_path_set {K = Option ℕ} ((index_step none ∷ []) ∷ []))
    ≡ false
unfolding path_set_equal new_path_set new_set_from_slice add has values set_length sort_by
unknown_key = refl

listed_paths : list here ≡ name_path ∷ first_name ∷ []
unfolding list is_empty new_path_set new_set_from_slice add has values set_length sort_by
listed_paths = refl

instance abbrev whole_numbers : RawOps ℕ
whole_numbers = record {
  sign_of = λ n. if nat_beq n 0 then pos 0 else pos 1;
  accuracy = λ n. exact;
  int_of = λ n. pos n;
  text = λ n. "";
  capsule_same = λ t. none;
}

path_rules_of_keys-Contract_example :
    Contract (path_rules ⦃k = index_keys {N = ℕ} (λ pieces. pos (length pieces))⦄)
path_rules_of_keys-Contract_example = path_rules_of_keys-Contract (λ pieces. pos (length pieces))

path_set_equal_sound_example : has here first_name ≡ has there first_name
path_set_equal_sound_example =
    path_set_equal_sound here there first_name here-IsValid there-IsValid same_sets

here-values : all (λ p. path_equivalent p p) (values here) ≡ true
unfolding new_path_set new_set_from_slice add values sort_by
here-values = refl

path_set_equal_complete_example : path_set_equal here here ≡ true
path_set_equal_complete_example =
    path_set_equal_complete here here here-IsValid here-IsValid here-values here-values (λ w. refl)

has-add_all_steps_example :
    has (add_all_steps first_name here) (get_attr_step "people" ∷ [])
    ≡ (has here (get_attr_step "people" ∷ []) || leads_to (get_attr_step "people" ∷ []) first_name)
has-add_all_steps_example = has-add_all_steps first_name here (get_attr_step "people" ∷ [])
