-- ===== src/Functions/Arguments.antt =====
-- What the checks of Call guarantee about the arguments that Impl is given.
use go_cty.Prelude.{
  ◌∙◌, ◌≤◌, ℕ, suc, ◌≡◌, refl, ◌⊎◌, inl, inr, Bool, true, false, ◌&&◌, not, Option, none, some,
  List, [], ◌∷◌, ◌++◌, length, take, All, all, Equatable, arith, and_true, or_false, if◌then◌else◌,
  nat_eq,
}
use go_cty.Prelude.Lists.{drop, length-take, all-take, all-drop}
use go_cty.Types.Conformance.{test_conformance, Errors}
use go_cty.Values.{Value, type_of, is_known, is_null, contains_marked}
use go_cty.Values.Marks.{is_empty}
use go_cty.Values.Wrangle.{Numbers, unmark_deep}
use go_cty.Values.Stripping.{is_well_marked}
use go_cty.Values.Unmarking.{unmark_deep_bare, unmark_deep-same, unmark_deep-none}
use go_cty.Types.{is_dynamic, CtyType}
use go_cty.Functions.{
  Parameter, Spec, Checked, checked, dynamic, refused, ◌>>=◌, arg_error, nonconforming,
  must_not_be_null, check_arg, check_positional, check_variadic, check_number, check_args,
  prepare_positional, prepare_variadic, prepare,
}

module _ {N M : Type 0} where
  -- A value that a parameter with these four permissions and this type is ready for.
  abbrev pub Ready : Bool → Bool → Bool → Bool → CtyType → Value N M → Type 0
  Ready marked null unknown dyn want a =
      (marked ≡ false → contains_marked a ≡ false)
      × (null ≡ false → is_null a ≡ false)
      × (unknown ≡ false → is_known a ≡ true)
      × ((test_conformance (type_of a) want ≡ [])
          ⊎ ((is_dynamic (type_of a) ≡ true) × (dyn ≡ true)))

  -- An argument that the implementation of a parameter is ready for.
  abbrev pub Fits : Parameter → Value N M → Type 0
  Fits p a = Ready p.allow_marked p.allow_null p.allow_unknown p.allow_dynamic_type p.param_type a

  -- Each positional argument fits its parameter, and each other one the variadic parameter.
  abbrev pub FitsAll : List Parameter → Option Parameter → List (Value N M) → Type 0
  FitsAll (p ∷ ps) var (a ∷ rest) = Fits p a × FitsAll ps var rest
  FitsAll (p ∷ ps) var [] = ⊥
  FitsAll [] none [] = Unit
  FitsAll [] none (a ∷ rest) = ⊥
  FitsAll [] (some p) rest = All (Fits p) rest

  FitsAll-append :
      (ps : List Parameter) (var : Option Parameter) (xs ys : List (Value N M))
      → FitsAll ps none xs
      → FitsAll [] var ys
      → FitsAll ps var (xs ++ ys)
  FitsAll-append [] var [] ys h k = k
  FitsAll-append [] var (x ∷ xs) ys h k = absurd h
  FitsAll-append (p ∷ ps) var [] ys h k = absurd h
  FitsAll-append (p ∷ ps) var (x ∷ xs) ys h k = (h.0, FitsAll-append ps var xs ys h.1 k)

module _ {N M E : Type 0} where
  bind-checked :
      {A B : Type 0} (m : Checked N M E A) (f : A → Checked N M E B) (b : B)
      → (m >>= f) ≡ checked b
      → (a : A) × (m ≡ checked a) × (f a ≡ checked b)
  bind-checked (checked a) f b h = (a, refl, h)
  bind-checked dynamic f b h = absurd (ground arith)
  bind-checked (refused x) f b h = absurd (ground arith)

  -- The tests of check_arg, for an argument that passes.
  passed :
      (null_bad dyn allowed : Bool) (errs : Errors) (i j : ℕ) (arg a : Value N M)
      → (if null_bad
          then refused (arg_error i must_not_be_null)
          else if dyn
          then (if not allowed then dynamic else checked arg)
          else elim errs as (λ _. Checked N M E (Value N M)) [
            | [] ↦ checked arg
            | err ∷ more ↦ refused (arg_error j (nonconforming err))
          ])
        ≡ checked a
      → (null_bad ≡ false) × ((errs ≡ []) ⊎ ((dyn ≡ true) × (allowed ≡ true)))
  passed true dyn allowed errs i j arg a h = absurd (ground arith)
  passed false true true errs i j arg a h = (refl, inr (refl, refl))
  passed false true false errs i j arg a h = absurd (ground arith)
  passed false false allowed [] i j arg a h = (refl, inl refl)
  passed false false allowed (x ∷ errs) i j arg a h = absurd (ground arith)

module _ {N M : Type 0} ⦃e : Equatable M⦄ ⦃num : Numbers N⦄ where
  choice-Ready :
      (marked null unknown dyn : Bool) (want : CtyType) (v u : Value N M) (found : List M)
      → (contains_marked u ≡ false)
      → (found ≡ [] → contains_marked v ≡ false)
      → Ready true null unknown dyn want v
      → Ready true null unknown dyn want u
      → Ready marked null unknown dyn want (if not marked && not (is_empty found) then u else v)
  choice-Ready true null unknown dyn want v u found bare no_mark old new = old
  choice-Ready false null unknown dyn want v u [] bare no_mark old new =
      (λ _. no_mark refl, old.1, old.2, old.3)
  choice-Ready false null unknown dyn want v u (m ∷ ms) bare no_mark old new =
      (λ _. bare, new.1, new.2, new.3)

  same-Ready :
      (null unknown dyn : Bool) (want : CtyType) (v u : Value N M)
      → type_of u ≡ type_of v
      → is_null u ≡ is_null v
      → is_known u ≡ is_known v
      → Ready true null unknown dyn want v
      → Ready true null unknown dyn want u
  same-Ready null unknown dyn want v u t n k (m, nul, kno, con) =
      (λ h. absurd (ground arith), λ h. n ∙ nul h, λ h. k ∙ kno h, rw t con)

  -- What the loops of Call make of one argument.
  abbrev prepared_arg : Parameter → Value N M → Value N M
  prepared_arg p v =
      let (unwrapped, found) = unmark_deep v in
      if not p.allow_marked && not (is_empty found) then unwrapped else v

  prepared_arg-Fits :
      (p : Parameter) (v : Value N M)
      → is_well_marked v ≡ true
      → is_null v && not p.allow_null ≡ false
      → not (is_known v) && not p.allow_unknown ≡ false
      → (test_conformance (type_of v) p.param_type ≡ [])
        ⊎ ((is_dynamic (type_of v) ≡ true) × (p.allow_dynamic_type ≡ true))
      → Fits p (prepared_arg p v)
  prepared_arg-Fits p v w n u t =
      let (types, nulls, knowns) = unmark_deep-same v w in
      let old : Ready true p.allow_null p.allow_unknown p.allow_dynamic_type p.param_type v =
        (λ h. absurd (ground arith), λ h. ground arith, λ h. ground arith, t) in
      choice-Ready p.allow_marked _ _ _ _ v (unmark_deep v).0 (unmark_deep v).1
        (unmark_deep_bare v w) (unmark_deep-none v w) old
        (same-Ready _ _ _ _ v (unmark_deep v).0 types nulls knowns old)

module _ {N M E : Type 0} ⦃e : Equatable M⦄ ⦃num : Numbers N⦄ where
  check_arg-passed :
      (p : Parameter) (i j : ℕ) (v a : Value N M)
      → check_arg {E = E} p i j v ≡ checked a
      → (is_null v && not p.allow_null ≡ false)
        × ((test_conformance (type_of v) p.param_type ≡ [])
            ⊎ ((is_dynamic (type_of v) ≡ true) × (p.allow_dynamic_type ≡ true)))
  check_arg-passed p i j v a h =
      passed (is_null v && not p.allow_null) (is_dynamic (type_of v)) p.allow_dynamic_type
        (test_conformance (type_of v) p.param_type) i j _ a h

  positional-FitsAll :
      (ps : List Parameter) (i : ℕ) (args seen : List (Value N M))
      → length args ≡ length ps
      → all is_well_marked args ≡ true
      → check_positional {E = E} ps i args ≡ checked seen
      → (prepare_positional ps args).return_unknown ≡ false
      → FitsAll ps none (prepare_positional ps args).args
  positional-FitsAll [] i [] seen l w h u = tt
  positional-FitsAll [] i (v ∷ vs) seen l w h u = absurd (ground arith)
  positional-FitsAll (p ∷ ps) i [] seen l w h u = absurd (ground arith)
  positional-FitsAll (p ∷ ps) i (v ∷ vs) seen l w h u =
      let (a, one, more) = bind-checked (check_arg p i i v) _ seen h in
      let (rest, later, _) = bind-checked (check_positional {E = E} ps (suc i) vs) _ seen more in
      let well = and_true (is_well_marked v) (all is_well_marked vs) w in
      let known = or_false _ _ u in
      let (null, conforms) = check_arg-passed p i i v a one in
      (
        prepared_arg-Fits p v well.0 null known.0 conforms,
        positional-FitsAll ps (suc i) vs rest (omega (arith, l)) well.1 later known.1,
      )

  variadic-FitsAll :
      (var : Option Parameter) (n i : ℕ) (args seen : List (Value N M))
      → all is_well_marked args ≡ true
      → check_variadic {E = E} var n i args ≡ checked seen
      → (prepare_variadic var args).return_unknown ≡ false
      → FitsAll [] var (prepare_variadic var args).args
  variadic-FitsAll none n i args seen w h u = tt
  variadic-FitsAll (some p) n i [] seen w h u = tt
  variadic-FitsAll (some p) n i (v ∷ vs) seen w h u =
      let (a, one, more) = bind-checked (check_arg p _ i v) _ seen h in
      let (rest, later, _) =
        bind-checked (check_variadic {E = E} (some p) n (suc i) vs) _ seen more in
      let well = and_true (is_well_marked v) (all is_well_marked vs) w in
      let known = or_false _ _ u in
      let (null, conforms) = check_arg-passed p _ i v a one in
      (
        prepared_arg-Fits p v well.0 null known.0 conforms,
        variadic-FitsAll (some p) n (suc i) vs rest well.1 later known.1,
      )

  check_number-enough :
      (var : Option Parameter) (required given : ℕ)
      → check_number {N = N} {M = M} {E = E} var required given ≡ checked tt
      → required ≤ given
  check_number-enough none required given h = ground (arith, nat_eq.test_iff given required)
  check_number-enough (some p) required given h = ground arith

  -- Where the arguments pass the check of the types and none is unknown that must be known, those
  -- for Impl fit the parameters.
  pub prepare-FitsAll :
      (spec : Spec N M E) (args seen : List (Value N M))
      → all is_well_marked args ≡ true
      → check_args spec args ≡ checked seen
      → (prepare spec args).return_unknown ≡ false
      → FitsAll spec.params spec.var_param (prepare spec args).args
  unfolding check_args prepare
  prepare-FitsAll spec args seen w h u =
      let n = length spec.params in
      let (_, number, typed) =
        bind-checked (check_number {E = E} spec.var_param n (length args)) _ seen h in
      let (pos, first, later) =
        bind-checked (check_positional {E = E} spec.params 0 (take n args)) _ seen typed in
      let (rest, second, _) =
        bind-checked (check_variadic {E = E} spec.var_param n 0 (drop n args)) _ seen later in
      let known = or_false _ _ u in
      let enough = check_number-enough spec.var_param n (length args) number in
      FitsAll-append spec.params spec.var_param _ _
        (positional-FitsAll spec.params 0 (take n args) pos (length-take n args enough)
          (all-take is_well_marked n args w) first known.0)
        (variadic-FitsAll spec.var_param n 0 (drop n args) rest (all-drop is_well_marked n args w)
          second known.1)
