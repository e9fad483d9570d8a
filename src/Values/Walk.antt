-- ===== src/Values/Walk.antt =====
-- Walk and DeepValues (cty/walk.go). The callback is a Go closure over a state `S`: it says whether
-- to go deeper, and may return an error, which ends the walk.
pub mod Order
pub mod Search
use go_cty.Prelude.{ℕ, zero, suc, Bool, true, false, Option, none, some, String, [], ◌∷◌, ◌++◌}
use go_cty.Paths.{PathStep, index_step, get_attr_step}
use go_cty.Values.{
  Value, null_val, unknown_val, bool_val, number_val, string_val, list_val, set_val, map_val,
  tuple_val, object_val, capsule_val, marked_val, Values, no_values, value_then, Fields, no_fields,
  field_then,
}
use go_cty.Values.Wrangle.{ValuePath, Numbers}

-- What a callback returns.
pub record Visit (E S : Type 0) : Type 0 where
  pub deeper : Bool
  pub err : Option E
  pub state : S

abbrev pub Visitor : Type 0 → Type 0 → Type 0 → Type 0 → Type 0
Visitor N M E S = ValuePath N M → Value N M → S → Visit E S

-- What follows the callback of a value: `inside` is the walk over what is in it.
abbrev pub after_visit : {E S : Type 0} → Visit E S → (S → Option E × S) → Option E × S
after_visit a inside = elim (a.err) [
  | some x ↦ (some x, a.state)
  | none ↦ elim (a.deeper) [ true ↦ inside a.state | false ↦ (none, a.state) ]
]

-- The next elements, unless there was an error.
abbrev pub unless_err : {E S : Type 0} → Option E × S → (S → Option E × S) → Option E × S
unless_err (some x, s) rest = (some x, s)
unless_err (none, s) rest = rest s

-- A value has nothing inside that can be visited.
abbrev pub nothing_inside : {E S : Type 0} → S → Option E × S
nothing_inside s = (none, s)

module _ {N M E S : Type 0} ⦃num : Numbers N⦄ where
  -- walk. The marker is taken off before the elements are visited; a set's element is its own key.
  unfoldable mutual
    pub walk : Visitor N M E S → ValuePath N M → Value N M → S → Option E × S
    walk cb path (marked_val v ms) s =
        after_visit (cb path (marked_val v ms) s) (walk_inside cb path v)
    walk cb path (null_val t) s = after_visit (cb path (null_val t) s) nothing_inside
    walk cb path (unknown_val t r) s = after_visit (cb path (unknown_val t r) s) nothing_inside
    walk cb path (bool_val b) s = after_visit (cb path (bool_val b) s) nothing_inside
    walk cb path (number_val n) s = after_visit (cb path (number_val n) s) nothing_inside
    walk cb path (string_val x) s = after_visit (cb path (string_val x) s) nothing_inside
    walk cb path (capsule_val t p) s = after_visit (cb path (capsule_val t p) s) nothing_inside
    walk cb path (list_val t vs) s =
        after_visit (cb path (list_val t vs) s) (walk_elements cb path zero vs)
    walk cb path (tuple_val vs) s =
        after_visit (cb path (tuple_val vs) s) (walk_elements cb path zero vs)
    walk cb path (set_val t vs) s = after_visit (cb path (set_val t vs) s) (walk_members cb path vs)
    walk cb path (map_val t fs) s =
        after_visit (cb path (map_val t fs) s)
          (walk_fields cb path (λ k. index_step (string_val k)) fs)
    walk cb path (object_val fs) s =
        after_visit (cb path (object_val fs) s) (walk_fields cb path get_attr_step fs)

    -- The elements of a value that was marked.
    pub walk_inside : Visitor N M E S → ValuePath N M → Value N M → S → Option E × S
    walk_inside cb path (list_val t vs) s = walk_elements cb path zero vs s
    walk_inside cb path (tuple_val vs) s = walk_elements cb path zero vs s
    walk_inside cb path (set_val t vs) s = walk_members cb path vs s
    walk_inside cb path (map_val t fs) s = walk_fields cb path (λ k. index_step (string_val k)) fs s
    walk_inside cb path (object_val fs) s = walk_fields cb path get_attr_step fs s
    walk_inside cb path _ s = (none, s)

    pub walk_elements : Visitor N M E S → ValuePath N M → ℕ → Values N M → S → Option E × S
    walk_elements cb path i no_values s = (none, s)
    walk_elements cb path i (value_then v vs) s =
        unless_err (walk cb (path ++ index_step (number_val (num.of_nat i)) ∷ []) v s)
          (walk_elements cb path (suc i) vs)

    pub walk_members : Visitor N M E S → ValuePath N M → Values N M → S → Option E × S
    walk_members cb path no_values s = (none, s)
    walk_members cb path (value_then v vs) s =
        unless_err (walk cb (path ++ index_step v ∷ []) v s) (walk_members cb path vs)

    pub walk_fields :
        Visitor N M E S
        → ValuePath N M
        → (String → PathStep (Value N M))
        → Fields N M
        → S
        → Option E × S
    walk_fields cb path step no_fields s = (none, s)
    walk_fields cb path step (field_then k v fs) s =
        unless_err (walk cb (path ++ step k ∷ []) v s) (walk_fields cb path step fs)

-- The error with which DeepValues stops the walk, io.EOF.
abbrev pub Stop : Type 0
Stop = Unit

-- The closure of DeepValues: whether the loop body goes on.
abbrev pub yielded : {S : Type 0} → Bool × S → Visit Stop S
yielded (true, s) = record { deeper = true; err = none; state = s }
yielded (false, s) = record { deeper = false; err = some tt; state = s }

-- The body of a loop over DeepValues: whether it goes on, and the variables after it.
abbrev pub Body : Type 0 → Type 0 → Type 0 → Type 0
Body N M S = ValuePath N M → Value N M → S → Bool × S

module _ {N M S : Type 0} ⦃num : Numbers N⦄ where
  -- `for path, v := range DeepValues(val)`
  unfoldable pub range_deep_values : Body N M S → Value N M → S → S
  unfolding walk
  range_deep_values body v s = (walk (λ path u t. yielded (body path u t)) [] v s).1
