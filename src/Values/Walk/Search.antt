-- ===== src/Values/Walk/Search.antt =====
-- ContainsMarked as a loop over DeepValues.
use go_cty.Prelude.{
  ℕ, zero, suc, ◌≡◌, refl, ◌∙◌, Bool, true, false, String, List, [], ◌∷◌, ◌++◌, any, any-append,
  arith, if◌then◌else◌,
}
use go_cty.Paths.{PathStep, index_step, get_attr_step}
use go_cty.Values.{
  Value, null_val, unknown_val, bool_val, number_val, string_val, list_val, set_val, map_val,
  tuple_val, object_val, capsule_val, marked_val, Values, no_values, value_then, Fields, no_fields,
  field_then, is_marked, contains_marked, values_contain_marked, fields_contain_marked,
}
use go_cty.Values.Wrangle.{ValuePath, Numbers}
use go_cty.Values.Walk.{Body, range_deep_values}
use go_cty.Values.Walk.Order.{
  listing, listing_elements, listing_members, listing_fields, loop, range_deep_values-listing,
}

module _ {N M : Type 0} where
  -- The loop body of ContainsMarked: at the first marked value it returns true.
  abbrev pub marked_body : Body N M Bool
  marked_body path v found = if is_marked v then (false, true) else (true, found)

  -- A value of the enumeration is marked.
  abbrev at_marked : ValuePath N M × Value N M → Bool
  at_marked (path, v) = is_marked v

module _ {N M : Type 0} ⦃num : Numbers N⦄ where
  loop-marked_body :
      (xs : List (ValuePath N M × Value N M)) → (loop marked_body xs false).1 ≡ any at_marked xs
  unfolding loop
  loop-marked_body [] = refl
  loop-marked_body ((path, v) ∷ xs) = ground (arith, loop-marked_body xs)

  mutual
    unfolding listing contains_marked

    any-listing :
        (path : ValuePath N M) (v : Value N M) → any at_marked (listing path v) ≡ contains_marked v
    any-listing path (marked_val v ms) = refl
    any-listing path (null_val t) = refl
    any-listing path (unknown_val t r) = refl
    any-listing path (bool_val b) = refl
    any-listing path (number_val n) = refl
    any-listing path (string_val x) = refl
    any-listing path (capsule_val t p) = refl
    any-listing path (list_val t vs) = any-listing_elements path zero vs
    any-listing path (tuple_val vs) = any-listing_elements path zero vs
    any-listing path (set_val t vs) = any-listing_members path vs
    any-listing path (map_val t fs) = any-listing_fields path (λ k. index_step (string_val k)) fs
    any-listing path (object_val fs) = any-listing_fields path get_attr_step fs

    any-listing_elements :
        (path : ValuePath N M) (i : ℕ) (vs : Values N M)
        → any at_marked (listing_elements path i vs) ≡ values_contain_marked vs
    any-listing_elements path i no_values = refl
    any-listing_elements path i (value_then v vs) =
        let here = path ++ index_step (number_val (num.of_nat i)) ∷ [] in
        any-append at_marked (listing here v) (listing_elements path (suc i) vs)
        ∙ rw (any-listing here v, any-listing_elements path (suc i) vs) refl

    any-listing_members :
        (path : ValuePath N M) (vs : Values N M)
        → any at_marked (listing_members path vs) ≡ values_contain_marked vs
    any-listing_members path no_values = refl
    any-listing_members path (value_then v vs) =
        let here = path ++ index_step v ∷ [] in
        any-append at_marked (listing here v) (listing_members path vs)
        ∙ rw (any-listing here v, any-listing_members path vs) refl

    any-listing_fields :
        (path : ValuePath N M) (step : String → PathStep (Value N M)) (fs : Fields N M)
        → any at_marked (listing_fields path step fs) ≡ fields_contain_marked fs
    any-listing_fields path step no_fields = refl
    any-listing_fields path step (field_then k v fs) =
        let here = path ++ step k ∷ [] in
        any-append at_marked (listing here v) (listing_fields path step fs)
        ∙ rw (any-listing here v, any-listing_fields path step fs) refl

  -- The loop of ContainsMarked over DeepValues, which returns at the first marked value, computes
  -- the plain recursion.
  pub contains_marked-range_deep_values :
      (v : Value N M) → range_deep_values marked_body v false ≡ contains_marked v
  contains_marked-range_deep_values v =
      range_deep_values-listing marked_body v false
      ∙ (loop-marked_body (listing [] v) ∙ any-listing [] v)
