-- ===== src/Values/Logic/Exact.antt =====
-- Not, And and Or against the logic of unknown operands.
use go_cty.Prelude.{
  ◌≡◌, refl, ◌∙◌, Bool, true, false, not, ◌&&◌, ◌||◌, Bool-cases, inl, inr, Option, none, some,
  List, [], ◌∷◌, Equatable, arith, any, or_false,
}
use mathlib.Core.Path.{subst}
use go_cty.Types.{
  Kind, pseudo_type_dynamic, primitive_type, type_list, type_set, type_map, type_object, type_tuple,
  capsule_type,
}
use go_cty.Types.Equality.{equals}
use go_cty.Refinement.{Refinement}
use go_cty.Values.{
  Value, unknown_val, bool_val, null_val, number_val, string_val, list_val, set_val, map_val,
  tuple_val, object_val, capsule_val, marked_val, type_of, is_marked, marks, unmark_force,
  with_marks, has_mark, has_member,
}
use go_cty.Values.Marks.{has_mark-with_marks}
use go_cty.Values.Logic.{
  not_unmarked, binary_unmarked, not_val, and_val, or_val, with_marks_of_result, binary,
}

module _ {N M : Type 0} where
  -- An operand: a known Boolean, or an unknown value that may turn out to be one.
  abbrev pub is_operand : Value N M → Bool
  is_operand (bool_val b) = true
  is_operand (unknown_val (primitive_type Kind.bool) r) = true
  is_operand (unknown_val pseudo_type_dynamic r) = true
  is_operand _ = false

  -- Whether a value may turn out to be a given Boolean.
  abbrev pub may_be : Value N M → Bool → Bool
  may_be (bool_val true) c = c
  may_be (bool_val false) c = not c
  may_be (unknown_val t r) c = true
  may_be v c = false

  -- Whether an operation on what two operands may turn out to be can have a given result.
  abbrev pub reaches : (Bool → Bool → Bool) → Value N M → Value N M → Bool → Bool
  reaches op v w c =
      (may_be v true && may_be w true && same (op true true) c)
      || (may_be v true && may_be w false && same (op true false) c)
      || (may_be v false && may_be w true && same (op false true) c)
      || (may_be v false && may_be w false && same (op false false) c)
    where
      same : Bool → Bool → Bool
      same true c = c
      same false c = not c

  -- The result of an operation: it exists, and it may be exactly what the operation can have.
  abbrev pub Exact : Option (Value N M) → (Bool → Bool) → Type 0
  Exact none f = ⊥
  Exact (some r) f =
      (may_be (unmark_force r) true ≡ f true)
      × (may_be (unmark_force r) false ≡ f false)
      × (is_marked r ≡ false)

  -- An operand is one of three.
  data Operand : Value N M → Type 0 where
    known : (b : Bool) → Operand (bool_val b)
    unknown_known_type :
        (r : Option (Refinement N)) → Operand (unknown_val (primitive_type Kind.bool) r)
    unknown_dynamic : (r : Option (Refinement N)) → Operand (unknown_val pseudo_type_dynamic r)

  Operand-cases : (v : Value N M) → is_operand v ≡ true → Operand v
  Operand-cases (bool_val b) h = known b
  Operand-cases (unknown_val (primitive_type Kind.bool) r) h = unknown_known_type r
  Operand-cases (unknown_val pseudo_type_dynamic r) h = unknown_dynamic r
  Operand-cases (null_val t) h = absurd (ground arith)
  Operand-cases (number_val n) h = absurd (ground arith)
  Operand-cases (string_val x) h = absurd (ground arith)
  Operand-cases (list_val t vs) h = absurd (ground arith)
  Operand-cases (set_val t vs) h = absurd (ground arith)
  Operand-cases (map_val t fs) h = absurd (ground arith)
  Operand-cases (tuple_val vs) h = absurd (ground arith)
  Operand-cases (object_val fs) h = absurd (ground arith)
  Operand-cases (capsule_val t p) h = absurd (ground arith)
  Operand-cases (marked_val u ms) h = absurd (ground arith)
  Operand-cases (unknown_val (primitive_type Kind.number) r) h = absurd (ground arith)
  Operand-cases (unknown_val (primitive_type Kind.string) r) h = absurd (ground arith)
  Operand-cases (unknown_val (type_list t) r) h = absurd (ground arith)
  Operand-cases (unknown_val (type_set t) r) h = absurd (ground arith)
  Operand-cases (unknown_val (type_map t) r) h = absurd (ground arith)
  Operand-cases (unknown_val (type_object fs opt) r) h = absurd (ground arith)
  Operand-cases (unknown_val (type_tuple ts) r) h = absurd (ground arith)
  Operand-cases (unknown_val (capsule_type k) r) h = absurd (ground arith)

  not_unmarked-Exact : (v : Value N M) → Operand v → Exact (not_unmarked v) (λ c. may_be v (not c))
  unfolding not_unmarked equals type_of
  not_unmarked-Exact _ (known true) = (refl, refl, refl)
  not_unmarked-Exact _ (known false) = (refl, refl, refl)
  not_unmarked-Exact _ (unknown_known_type r) = (refl, refl, refl)
  not_unmarked-Exact _ (unknown_dynamic r) = (refl, refl, refl)

  and_unmarked-Exact :
      (v w : Value N M)
      → Operand v
      → Operand w
      → Exact (binary_unmarked false (λ a b. a && b) v w) (reaches (λ a b. a && b) v w)
  unfolding binary_unmarked equals type_of
  and_unmarked-Exact _ _ (known true) (known true) = (refl, refl, refl)
  and_unmarked-Exact _ _ (known true) (known false) = (refl, refl, refl)
  and_unmarked-Exact _ _ (known true) (unknown_known_type q) = (refl, refl, refl)
  and_unmarked-Exact _ _ (known true) (unknown_dynamic q) = (refl, refl, refl)
  and_unmarked-Exact _ _ (known false) (known true) = (refl, refl, refl)
  and_unmarked-Exact _ _ (known false) (known false) = (refl, refl, refl)
  and_unmarked-Exact _ _ (known false) (unknown_known_type q) = (refl, refl, refl)
  and_unmarked-Exact _ _ (known false) (unknown_dynamic q) = (refl, refl, refl)
  and_unmarked-Exact _ _ (unknown_known_type r) (known true) = (refl, refl, refl)
  and_unmarked-Exact _ _ (unknown_known_type r) (known false) = (refl, refl, refl)
  and_unmarked-Exact _ _ (unknown_known_type r) (unknown_known_type q) = (refl, refl, refl)
  and_unmarked-Exact _ _ (unknown_known_type r) (unknown_dynamic q) = (refl, refl, refl)
  and_unmarked-Exact _ _ (unknown_dynamic r) (known true) = (refl, refl, refl)
  and_unmarked-Exact _ _ (unknown_dynamic r) (known false) = (refl, refl, refl)
  and_unmarked-Exact _ _ (unknown_dynamic r) (unknown_known_type q) = (refl, refl, refl)
  and_unmarked-Exact _ _ (unknown_dynamic r) (unknown_dynamic q) = (refl, refl, refl)

  or_unmarked-Exact :
      (v w : Value N M)
      → Operand v
      → Operand w
      → Exact (binary_unmarked true (λ a b. a || b) v w) (reaches (λ a b. a || b) v w)
  unfolding binary_unmarked equals type_of
  or_unmarked-Exact _ _ (known true) (known true) = (refl, refl, refl)
  or_unmarked-Exact _ _ (known true) (known false) = (refl, refl, refl)
  or_unmarked-Exact _ _ (known true) (unknown_known_type q) = (refl, refl, refl)
  or_unmarked-Exact _ _ (known true) (unknown_dynamic q) = (refl, refl, refl)
  or_unmarked-Exact _ _ (known false) (known true) = (refl, refl, refl)
  or_unmarked-Exact _ _ (known false) (known false) = (refl, refl, refl)
  or_unmarked-Exact _ _ (known false) (unknown_known_type q) = (refl, refl, refl)
  or_unmarked-Exact _ _ (known false) (unknown_dynamic q) = (refl, refl, refl)
  or_unmarked-Exact _ _ (unknown_known_type r) (known true) = (refl, refl, refl)
  or_unmarked-Exact _ _ (unknown_known_type r) (known false) = (refl, refl, refl)
  or_unmarked-Exact _ _ (unknown_known_type r) (unknown_known_type q) = (refl, refl, refl)
  or_unmarked-Exact _ _ (unknown_known_type r) (unknown_dynamic q) = (refl, refl, refl)
  or_unmarked-Exact _ _ (unknown_dynamic r) (known true) = (refl, refl, refl)
  or_unmarked-Exact _ _ (unknown_dynamic r) (known false) = (refl, refl, refl)
  or_unmarked-Exact _ _ (unknown_dynamic r) (unknown_known_type q) = (refl, refl, refl)
  or_unmarked-Exact _ _ (unknown_dynamic r) (unknown_dynamic q) = (refl, refl, refl)

  unmarked_is_bare : (v : Value N M) → is_marked v ≡ false → marks v ≡ []
  unmarked_is_bare (marked_val v ms) h = absurd (ground arith)
  unmarked_is_bare (null_val t) h = refl
  unmarked_is_bare (unknown_val t r) h = refl
  unmarked_is_bare (bool_val b) h = refl
  unmarked_is_bare (number_val n) h = refl
  unmarked_is_bare (string_val x) h = refl
  unmarked_is_bare (list_val t vs) h = refl
  unmarked_is_bare (set_val t vs) h = refl
  unmarked_is_bare (map_val t fs) h = refl
  unmarked_is_bare (tuple_val vs) h = refl
  unmarked_is_bare (object_val fs) h = refl
  unmarked_is_bare (capsule_val t p) h = refl

  unmarked_is_inside : (v : Value N M) → is_marked v ≡ false → unmark_force v ≡ v
  unmarked_is_inside (marked_val v ms) h = absurd (ground arith)
  unmarked_is_inside (null_val t) h = refl
  unmarked_is_inside (unknown_val t r) h = refl
  unmarked_is_inside (bool_val b) h = refl
  unmarked_is_inside (number_val n) h = refl
  unmarked_is_inside (string_val x) h = refl
  unmarked_is_inside (list_val t vs) h = refl
  unmarked_is_inside (set_val t vs) h = refl
  unmarked_is_inside (map_val t fs) h = refl
  unmarked_is_inside (tuple_val vs) h = refl
  unmarked_is_inside (object_val fs) h = refl
  unmarked_is_inside (capsule_val t p) h = refl

module _ {N M : Type 0} ⦃e : Equatable M⦄ where
  -- The result of a logical operation: it exists, it may turn out to be exactly the Booleans in
  -- `f`, and it has exactly the marks in `g`.
  abbrev pub Answers : Option (Value N M) → (Bool → Bool) → (M → Bool) → Type 0
  Answers none f g = ⊥
  Answers (some r) f g =
      (may_be (unmark_force r) true ≡ f true)
      × (may_be (unmark_force r) false ≡ f false)
      × ((j : M) → has_mark j r ≡ g j)

  unmark_force-with_marks :
      (ss : List (List M)) (r : Value N M) → unmark_force (with_marks ss r) ≡ unmark_force r
  unfolding with_marks
  unmark_force-with_marks [] r = refl
  unmark_force-with_marks (s ∷ ss) r = ground arith

  with_marks-Answers :
      (ss : List (List M)) (o : Option (Value N M)) (f : Bool → Bool) (g : M → Bool)
      → Exact o f
      → ((j : M) → any (has_member j) ss ≡ g j)
      → Answers (with_marks_of_result ss o) f g
  with_marks-Answers ss none f g h k = absurd h
  with_marks-Answers ss (some r) f g (is_true, is_false, bare) k = (
    rw (unmark_force-with_marks ss r) is_true,
    rw (unmark_force-with_marks ss r) is_false,
    λ j. (has_mark-with_marks ss r j).1 ∙ (rw (unmarked_is_bare r bare) refl ∙ k j),
  )

  unmarked-Answers :
      (o : Option (Value N M)) (f : Bool → Bool) (g : M → Bool)
      → Exact o f
      → ((j : M) → false ≡ g j)
      → Answers o f g
  unmarked-Answers none f g h k = absurd h
  unmarked-Answers (some r) f g (is_true, is_false, bare) k =
      (is_true, is_false, λ j. rw (unmarked_is_bare r bare) (k j))

  binary-Answers :
      (op : Value N M → Value N M → Option (Value N M)) (v w : Value N M) (f : Bool → Bool)
      → Exact (op (unmark_force v) (unmark_force w)) f
      → Answers (binary op v w) f (λ j. has_mark j v || has_mark j w)
  binary-Answers op v w f h = elim (Bool-cases (is_marked v || is_marked w)) [
    | inl y ↦ rw y (
        with_marks-Answers (marks v ∷ marks w ∷ []) (op (unmark_force v) (unmark_force w)) f _ h
          (λ j. ground arith))
    | inr n ↦
        let (bare_v, bare_w) = or_false (is_marked v) (is_marked w) n in
        rw n (
          unmarked-Answers (op v w) f _
            (subst (λ x. Exact (op x w) f) (unmarked_is_inside v bare_v)
              (subst (λ x. Exact (op (unmark_force v) x) f) (unmarked_is_inside w bare_w) h))
            (λ j. rw (unmarked_is_bare v bare_v, unmarked_is_bare w bare_w) refl))
  ]

  not_val-Answers :
      (v : Value N M) (f : Bool → Bool)
      → Exact (not_unmarked (unmark_force v)) f
      → Answers (not_val v) f (λ j. has_mark j v)
  unfolding not_val
  not_val-Answers v f h = elim (Bool-cases (is_marked v)) [
    | inl y ↦ rw y (
        with_marks-Answers (marks v ∷ []) (not_unmarked (unmark_force v)) f _ h (λ j. ground arith))
    | inr n ↦ rw n (
        unmarked-Answers (not_unmarked v) f _
          (subst (λ x. Exact (not_unmarked x) f) (unmarked_is_inside v n) h)
          (λ j. rw (unmarked_is_bare v n) refl))
  ]

  -- On operands that are Booleans or unknown, marked or not, And, Or and Not return a value. It is
  -- known exactly if the known operands decide the result, and then it is that result; if it is
  -- unknown it may turn out to be either. Its marks are those of the operands. An unknown operand
  -- may be of the dynamic pseudo-type: False.And(DynamicVal) is False and True.Or(DynamicVal) is
  -- True, although the documentation says of every operation on DynamicVal that its result is
  -- unknown.
  pub logic_exact :
      (v w : Value N M)
      → is_operand (unmark_force v) ≡ true
      → is_operand (unmark_force w) ≡ true
      → Answers
          (and_val v w)
          (reaches (λ a b. a && b) (unmark_force v) (unmark_force w))
          (λ j. has_mark j v || has_mark j w)
        × Answers
            (or_val v w)
            (reaches (λ a b. a || b) (unmark_force v) (unmark_force w))
            (λ j. has_mark j v || has_mark j w)
        × Answers (not_val v) (λ c. may_be (unmark_force v) (not c)) (λ j. has_mark j v)
  unfolding and_val or_val not_val
  logic_exact v w h k =
      let x = unmark_force v in
      let y = unmark_force w in
      let vx = Operand-cases x h in
      let wy = Operand-cases y k in
      (
        binary-Answers (binary_unmarked false (λ a b. a && b)) v w _ (and_unmarked-Exact x y vx wy),
        binary-Answers (binary_unmarked true (λ a b. a || b)) v w _ (or_unmarked-Exact x y vx wy),
        not_val-Answers v _ (not_unmarked-Exact x vx),
      )
