-- ===== src/Values/Walk/Order.antt =====
-- The order of DeepValues, and the loops over it.
use go_cty.Prelude.{
  ℕ, zero, suc, ◌≡◌, refl, sym, ap, ◌∙◌, Bool, true, false, Option, none, some, String, List, [],
  ◌∷◌, ◌++◌,
}
use go_cty.Paths.{PathStep, index_step, get_attr_step}
use go_cty.Values.{
  Value, null_val, unknown_val, bool_val, number_val, string_val, list_val, set_val, map_val,
  tuple_val, object_val, capsule_val, marked_val, Values, no_values, value_then, Fields, no_fields,
  field_then,
}
use go_cty.Values.Wrangle.{ValuePath, Numbers}
use go_cty.Values.Walk.{
  Visitor, after_visit, unless_err, walk, walk_inside, walk_elements, walk_members, walk_fields,
  Stop, yielded, Body, range_deep_values,
}

module _ {N M : Type 0} ⦃num : Numbers N⦄ where
  -- A value with its path, then what is in it, in pre-order.
  unfoldable mutual
    pub listing : ValuePath N M → Value N M → List (ValuePath N M × Value N M)
    listing path (marked_val v ms) = (path, marked_val v ms) ∷ listing_inside path v
    listing path (null_val t) = (path, null_val t) ∷ []
    listing path (unknown_val t r) = (path, unknown_val t r) ∷ []
    listing path (bool_val b) = (path, bool_val b) ∷ []
    listing path (number_val n) = (path, number_val n) ∷ []
    listing path (string_val x) = (path, string_val x) ∷ []
    listing path (capsule_val t p) = (path, capsule_val t p) ∷ []
    listing path (list_val t vs) = (path, list_val t vs) ∷ listing_elements path zero vs
    listing path (tuple_val vs) = (path, tuple_val vs) ∷ listing_elements path zero vs
    listing path (set_val t vs) = (path, set_val t vs) ∷ listing_members path vs
    listing path (map_val t fs) =
        (path, map_val t fs) ∷ listing_fields path (λ k. index_step (string_val k)) fs
    listing path (object_val fs) = (path, object_val fs) ∷ listing_fields path get_attr_step fs

    pub listing_inside : ValuePath N M → Value N M → List (ValuePath N M × Value N M)
    listing_inside path (list_val t vs) = listing_elements path zero vs
    listing_inside path (tuple_val vs) = listing_elements path zero vs
    listing_inside path (set_val t vs) = listing_members path vs
    listing_inside path (map_val t fs) = listing_fields path (λ k. index_step (string_val k)) fs
    listing_inside path (object_val fs) = listing_fields path get_attr_step fs
    listing_inside path _ = []

    pub listing_elements : ValuePath N M → ℕ → Values N M → List (ValuePath N M × Value N M)
    listing_elements path i no_values = []
    listing_elements path i (value_then v vs) =
        listing (path ++ index_step (number_val (num.of_nat i)) ∷ []) v
        ++ listing_elements path (suc i) vs

    pub listing_members : ValuePath N M → Values N M → List (ValuePath N M × Value N M)
    listing_members path no_values = []
    listing_members path (value_then v vs) =
        listing (path ++ index_step v ∷ []) v ++ listing_members path vs

    pub listing_fields :
        ValuePath N M
        → (String → PathStep (Value N M))
        → Fields N M
        → List (ValuePath N M × Value N M)
    listing_fields path step no_fields = []
    listing_fields path step (field_then k v fs) =
        listing (path ++ step k ∷ []) v ++ listing_fields path step fs

module _ {S : Type 0} where
  -- What follows one run of the body.
  abbrev pub go_on : Bool × S → (S → Option Stop × S) → Option Stop × S
  go_on (true, s) rest = rest s
  go_on (false, s) rest = (some tt, s)

  go_on-after_visit :
      (st : Bool × S) (f g : S → Option Stop × S)
      → ((s : S) → f s ≡ g s)
      → after_visit (yielded st) f ≡ go_on st g
  go_on-after_visit (true, s) f g h = h s
  go_on-after_visit (false, s) f g h = refl

  go_on-unless_err :
      (st : Bool × S) (f g h : S → Option Stop × S)
      → ((s : S) → f s ≡ unless_err (g s) h)
      → go_on st f ≡ unless_err (go_on st g) h
  go_on-unless_err (true, s) f g h k = k s
  go_on-unless_err (false, s) f g h k = refl

  unless_err_same :
      (r : Option Stop × S) (f g : S → Option Stop × S)
      → ((s : S) → f s ≡ g s)
      → unless_err r f ≡ unless_err r g
  unless_err_same (some x, s) f g h = refl
  unless_err_same (none, s) f g h = h s

module _ {N M S : Type 0} ⦃num : Numbers N⦄ where
  -- A loop over a list of paths and values, which the body may end.
  unfoldable pub loop : Body N M S → List (ValuePath N M × Value N M) → S → Option Stop × S
  loop body [] s = (none, s)
  loop body ((path, v) ∷ rest) s = go_on (body path v s) (loop body rest)

  loop-append :
      (body : Body N M S) (xs ys : List (ValuePath N M × Value N M)) (s : S)
      → loop body (xs ++ ys) s ≡ unless_err (loop body xs s) (loop body ys)
  unfolding loop
  loop-append body [] ys s = refl
  loop-append body ((path, v) ∷ xs) ys s =
      go_on-unless_err (body path v s) (loop body (xs ++ ys)) (loop body xs) (loop body ys)
        (loop-append body xs ys)

  abbrev closure : Body N M S → Visitor N M Stop S
  closure body path v s = yielded (body path v s)

  -- One element, then the others.
  next-loop :
      (body : Body N M S) (xs ys : List (ValuePath N M × Value N M)) (r : Option Stop × S)
      (f : S → Option Stop × S) (s : S)
      → r ≡ loop body xs s
      → ((t : S) → f t ≡ loop body ys t)
      → unless_err r f ≡ loop body (xs ++ ys) s
  next-loop body xs ys r f s h k =
      unless_err_same r f (loop body ys) k
      ∙ (ap (λ x. unless_err x (loop body ys)) h ∙ sym (loop-append body xs ys s))

  mutual
    unfolding walk listing loop

    walk-listing :
        (body : Body N M S) (path : ValuePath N M) (v : Value N M) (s : S)
        → walk (closure body) path v s ≡ loop body (listing path v) s
    walk-listing body path (marked_val v ms) s =
        go_on-after_visit (body path (marked_val v ms) s) _ (loop body (listing_inside path v))
          (walk_inside-listing body path v)
    walk-listing body path (null_val t) s =
        go_on-after_visit (body path (null_val t) s) _ (loop body []) (λ t. refl)
    walk-listing body path (unknown_val t r) s =
        go_on-after_visit (body path (unknown_val t r) s) _ (loop body []) (λ t. refl)
    walk-listing body path (bool_val b) s =
        go_on-after_visit (body path (bool_val b) s) _ (loop body []) (λ t. refl)
    walk-listing body path (number_val n) s =
        go_on-after_visit (body path (number_val n) s) _ (loop body []) (λ t. refl)
    walk-listing body path (string_val x) s =
        go_on-after_visit (body path (string_val x) s) _ (loop body []) (λ t. refl)
    walk-listing body path (capsule_val t p) s =
        go_on-after_visit (body path (capsule_val t p) s) _ (loop body []) (λ t. refl)
    walk-listing body path (list_val t vs) s =
        go_on-after_visit (body path (list_val t vs) s) _
          (loop body (listing_elements path zero vs)) (walk_elements-listing body path zero vs)
    walk-listing body path (tuple_val vs) s =
        go_on-after_visit (body path (tuple_val vs) s) _ (loop body (listing_elements path zero vs))
          (walk_elements-listing body path zero vs)
    walk-listing body path (set_val t vs) s =
        go_on-after_visit (body path (set_val t vs) s) _ (loop body (listing_members path vs))
          (walk_members-listing body path vs)
    walk-listing body path (map_val t fs) s =
        go_on-after_visit (body path (map_val t fs) s) _
          (loop body (listing_fields path (λ k. index_step (string_val k)) fs))
          (walk_fields-listing body path (λ k. index_step (string_val k)) fs)
    walk-listing body path (object_val fs) s =
        go_on-after_visit (body path (object_val fs) s) _
          (loop body (listing_fields path get_attr_step fs))
          (walk_fields-listing body path get_attr_step fs)

    walk_inside-listing :
        (body : Body N M S) (path : ValuePath N M) (v : Value N M) (s : S)
        → walk_inside (closure body) path v s ≡ loop body (listing_inside path v) s
    walk_inside-listing body path (marked_val v ms) s = refl
    walk_inside-listing body path (null_val t) s = refl
    walk_inside-listing body path (unknown_val t r) s = refl
    walk_inside-listing body path (bool_val b) s = refl
    walk_inside-listing body path (number_val n) s = refl
    walk_inside-listing body path (string_val x) s = refl
    walk_inside-listing body path (capsule_val t p) s = refl
    walk_inside-listing body path (list_val t vs) s = walk_elements-listing body path zero vs s
    walk_inside-listing body path (tuple_val vs) s = walk_elements-listing body path zero vs s
    walk_inside-listing body path (set_val t vs) s = walk_members-listing body path vs s
    walk_inside-listing body path (map_val t fs) s =
        walk_fields-listing body path (λ k. index_step (string_val k)) fs s
    walk_inside-listing body path (object_val fs) s =
        walk_fields-listing body path get_attr_step fs s

    walk_elements-listing :
        (body : Body N M S) (path : ValuePath N M) (i : ℕ) (vs : Values N M) (s : S)
        → walk_elements (closure body) path i vs s ≡ loop body (listing_elements path i vs) s
    walk_elements-listing body path i no_values s = refl
    walk_elements-listing body path i (value_then v vs) s =
        let here = path ++ index_step (number_val (num.of_nat i)) ∷ [] in
        next-loop body (listing here v) (listing_elements path (suc i) vs) _
          (walk_elements (closure body) path (suc i) vs) s (walk-listing body here v s)
          (walk_elements-listing body path (suc i) vs)

    walk_members-listing :
        (body : Body N M S) (path : ValuePath N M) (vs : Values N M) (s : S)
        → walk_members (closure body) path vs s ≡ loop body (listing_members path vs) s
    walk_members-listing body path no_values s = refl
    walk_members-listing body path (value_then v vs) s =
        let here = path ++ index_step v ∷ [] in
        next-loop body (listing here v) (listing_members path vs) _
          (walk_members (closure body) path vs) s (walk-listing body here v s)
          (walk_members-listing body path vs)

    walk_fields-listing :
        (body : Body N M S) (path : ValuePath N M) (step : String → PathStep (Value N M))
        (fs : Fields N M) (s : S)
        → walk_fields (closure body) path step fs s ≡ loop body (listing_fields path step fs) s
    walk_fields-listing body path step no_fields s = refl
    walk_fields-listing body path step (field_then k v fs) s =
        let here = path ++ step k ∷ [] in
        next-loop body (listing here v) (listing_fields path step fs) _
          (walk_fields (closure body) path step fs) s (walk-listing body here v s)
          (walk_fields-listing body path step fs)

  -- A loop over DeepValues, which stops the walk by an error where its body ends it, is the loop
  -- over the list of the value and all that is in it, with their paths, in pre-order.
  pub range_deep_values-listing :
      (body : Body N M S) (v : Value N M) (s : S)
      → range_deep_values body v s ≡ (loop body (listing [] v) s).1
  unfolding range_deep_values
  range_deep_values-listing body v s = ap (λ r. r.1) (walk-listing body [] v s)
