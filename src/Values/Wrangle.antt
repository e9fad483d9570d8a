-- ===== src/Values/Wrangle.antt =====
-- WrangleMarksDeep and UnmarkDeep (cty/marks_wrangle.go, cty/marks.go, cty/ctymarks/wrangle.go). A
-- wrangler is a Go closure: it takes and returns a state `S`, and may report an error. A path is
-- a list of steps, whose index keys are values.
use go_cty.Prelude.{
  ℕ, zero, suc, Option, none, some, String, List, [], ◌∷◌, ◌++◌, get_or, Equatable,
}
use go_cty.Paths.{PathStep, index_step, get_attr_step, PathOf}
use go_cty.Values.{
  Value, number_val, string_val, list_val, map_val, tuple_val, object_val, marked_val, Values,
  no_values, value_then, Fields, no_fields, field_then, insert_mark, delete_mark, with_new_marks,
  with_marks,
}

-- WrangleAction, without the nil action.
pub data WrangleAction (M : Type 0) : Type 0 where
  wrangle_keep wrangle_drop wrangle_expand : WrangleAction M
  wrangle_replace : M → WrangleAction M

-- The answer of a wrangler: `none` is the nil action.
pub record Answer (M E S : Type 0) : Type 0 where
  pub action : Option (WrangleAction M)
  pub err : Option E
  pub state : S

-- An integer as a number, NumberIntVal.
pub record Numbers (N : Type 0) : Type 0 where
  pub of_nat : ℕ → N

-- A path through values.
abbrev pub ValuePath : Type 0 → Type 0 → Type 0
ValuePath N M = PathOf (Value N M)

-- The variables that the whole walk shares: the marks for the root, the errors, each wrapped with
-- the path to where it arose, and the state of the closures.
pub record Progress (N M E S : Type 0) : Type 0 where
  pub top_marks : List M
  pub errs : List (ValuePath N M × E)
  pub own : S

-- WrangleFunc
abbrev pub Wrangler : Type 0 → Type 0 → Type 0 → Type 0 → Type 0
Wrangler N M E S = M → ValuePath N M → S → Answer M E S

abbrev pub add_err :
    {N M E : Type 0}
    → ValuePath N M
    → Option E
    → List (ValuePath N M × E)
    → List (ValuePath N M × E)
add_err path none es = es
add_err path (some x) es = es ++ (path, x) ∷ []

-- A value around new content, if there is new content.
abbrev pub lift_new : {A B P : Type 0} → (A → B) → Option A × P → Option B × P
lift_new c (none, p) = (none, p)
lift_new c (some us, p) = (some (c us), p)

-- A sequence with a new first element or new later ones: what did not change is copied.
abbrev pub join_new :
    {A B C P : Type 0} → (A → B → C) → A → B → Option A → Option B × P → Option C × P
join_new c v vs (some u) (rest, p) = (some (c u (get_or rest vs)), p)
join_new c v vs none (none, p) = (none, p)
join_new c v vs none (some us, p) = (some (c v us), p)

-- A marked value after its own marks and what is inside the marker.
abbrev pub rewrap :
    {N M P : Type 0}
    → Value N M
    → List M
    → Option (List M)
    → Option (Value N M) × P
    → Option (Value N M) × P
rewrap v ms none (none, p) = (none, p)
rewrap v ms none (some u, p) = (some (with_new_marks u ms), p)
rewrap v ms (some ns) (inner, p) = (some (with_new_marks (get_or inner v) ns), p)

module _ {N M E S : Type 0} ⦃e : Equatable M⦄ ⦃num : Numbers N⦄ where
  -- One mark under the wranglers in their order, until one takes an action. The marks that are to
  -- be on the new value are `none` as long as nothing has changed.
  abbrev pub wrangle_mark :
      List (Wrangler N M E S)
      → M
      → ValuePath N M
      → List M
      → Option (List M) × Progress N M E S
      → Option (List M) × Progress N M E S
  wrangle_mark [] m path given (new, p) = (new, p)
  wrangle_mark (w ∷ ws) m path given (new, p) =
      let a = w m path p.own in
      let q : Progress N M E S = record p { errs = add_err path a.err p.errs; own = a.state } in
      elim (a.action) [
        | none ↦ wrangle_mark ws m path given (new, q)
        | some act ↦ elim act [
          | wrangle_keep ↦ (new, q)
          | wrangle_expand ↦ (new, record q { top_marks = insert_mark m q.top_marks })
          | wrangle_drop ↦ (some (delete_mark m (get_or new given)), q)
          | wrangle_replace x ↦ (some (insert_mark x (delete_mark m (get_or new given))), q)
        ]
      ]

  -- The loop over the given marks.
  abbrev pub wrangle_marks :
      List (Wrangler N M E S)
      → List M
      → ValuePath N M
      → List M
      → Option (List M) × Progress N M E S
      → Option (List M) × Progress N M E S
  wrangle_marks ws [] path given st = st
  wrangle_marks ws (m ∷ ms) path given st =
      wrangle_marks ws ms path given (wrangle_mark ws m path given st)

  -- wrangleMarksDeep: `none` is NilVal, for a value that stays as it is.
  unfoldable mutual
    pub wrangle_deep :
        List (Wrangler N M E S)
        → Value N M
        → ValuePath N M
        → Progress N M E S
        → Option (Value N M) × Progress N M E S
    wrangle_deep ws (marked_val v ms) path p =
        let (new, q) = wrangle_marks ws ms path ms (none, p) in
        rewrap v ms new (wrangle_deep ws v path q)
    wrangle_deep ws (list_val t vs) path p =
        lift_new (list_val t) (wrangle_values ws vs zero path p)
    wrangle_deep ws (tuple_val vs) path p = lift_new tuple_val (wrangle_values ws vs zero path p)
    wrangle_deep ws (map_val t fs) path p =
        lift_new (map_val t) (wrangle_fields ws (λ k. index_step (string_val k)) fs path p)
    wrangle_deep ws (object_val fs) path p =
        lift_new object_val (wrangle_fields ws get_attr_step fs path p)
    wrangle_deep ws _ path p = (none, p)

    -- The loop over the elements of a list or a tuple. The unchanged ones are copied.
    pub wrangle_values :
        List (Wrangler N M E S)
        → Values N M
        → ℕ
        → ValuePath N M
        → Progress N M E S
        → Option (Values N M) × Progress N M E S
    wrangle_values ws no_values i path p = (none, p)
    wrangle_values ws (value_then v vs) i path p =
        let (new, q) = wrangle_deep ws v (path ++ index_step (number_val (num.of_nat i)) ∷ []) p in
        join_new value_then v vs new (wrangle_values ws vs (suc i) path q)

    -- The loop over the elements of a map or the attributes of an object.
    pub wrangle_fields :
        List (Wrangler N M E S)
        → (String → PathStep (Value N M))
        → Fields N M
        → ValuePath N M
        → Progress N M E S
        → Option (Fields N M) × Progress N M E S
    wrangle_fields ws step no_fields path p = (none, p)
    wrangle_fields ws step (field_then k v fs) path p =
        let (new, q) = wrangle_deep ws v (path ++ step k ∷ []) p in
        join_new (field_then k) v fs new (wrangle_fields ws step fs path q)

  -- WrangleMarksDeep: the value, the errors, and the state of the wranglers at the end.
  unfoldable pub wrangle_marks_deep :
      List (Wrangler N M E S) → S → Value N M → Value N M × List (ValuePath N M × E) × S
  unfolding wrangle_deep with_marks
  wrangle_marks_deep ws s v =
      let (new, p) = wrangle_deep ws v [] record { top_marks = []; errs = []; own = s } in
      (with_marks (p.top_marks ∷ []) (get_or new v), p.errs, p.own)

module _ {N M : Type 0} ⦃e : Equatable M⦄ ⦃num : Numbers N⦄ where
  -- The closure of UnmarkDeep, which drops each mark and collects it.
  abbrev pub collect : Wrangler N M ⊥ (List M)
  collect m path ms = record { action = some wrangle_drop; err = none; state = insert_mark m ms }

  -- UnmarkDeep
  unfoldable pub unmark_deep : Value N M → Value N M × List M
  unfolding wrangle_marks_deep
  unmark_deep v = let (new, errs, ms) = wrangle_marks_deep (collect ∷ []) [] v in (new, ms)
