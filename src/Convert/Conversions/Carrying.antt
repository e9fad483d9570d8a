-- ===== src/Convert/Conversions/Carrying.antt =====
-- The parts of getConversion (cty/convert/conversion.go) over two recursions, one wider than the other.
use go_cty.Prelude.{
  ◌≡◌, refl, true, false, Option, none, some, String, List, arith, inl, inr, Bool-cases, string_eq,
  is_some,
}
use go_cty.Prelude.Maps.{Map}
use go_cty.Types.{
  CtyType, pseudo_type_dynamic, Attrs, no_attrs, attr, Types, type_then, is_dynamic,
  attribute_types,
}
use go_cty.Types.Shape.{has_dynamic_types, attrs_have_dynamic, elems_have_dynamic}
use go_cty.Convert.Plans.{
  Conversion, ElemConvs, AttrConvs, wrap, put_elem, keep_elem, put_attr, keep_attr, from_elems,
  from_attrs, from_elem,
}
use go_cty.Convert.Conversions.{wanted_attrs}

-- If the first is there, then so is the second.
abbrev pub Widens {ℓ} : {A : Type ℓ} → Option A → Option A → Type 0
Widens x y = is_some x ≡ true → is_some y ≡ true

pub from_elem-Widens :
    (f : Conversion → Conversion) (out : CtyType) (x y : Option Conversion)
    → Widens x y
    → Widens (from_elem f (wrap out x)) (from_elem f (wrap out y))
from_elem-Widens f out none y h = λ e. cc
from_elem-Widens f out (some c) none h = λ e. h refl
from_elem-Widens f out (some c) (some d) h = λ e. refl

pub wrap-Widens :
    (out : CtyType) (x y : Option Conversion) → Widens x y → Widens (wrap out x) (wrap out y)
wrap-Widens out none y h = λ e. cc
wrap-Widens out (some c) none h = λ e. h refl
wrap-Widens out (some c) (some d) h = λ e. refl

pub put_elem-Widens :
    (out : CtyType) (x y : Option Conversion) (cs ds : Option ElemConvs)
    → Widens x y
    → Widens cs ds
    → Widens (put_elem (wrap out x) cs) (put_elem (wrap out y) ds)
put_elem-Widens out none y cs ds h k = λ e. cc
put_elem-Widens out (some c) y none ds h k = λ e. cc
put_elem-Widens out (some c) none (some a) ds h k = λ e. h refl
put_elem-Widens out (some c) (some d) (some a) none h k = λ e. k refl
put_elem-Widens out (some c) (some d) (some a) (some b) h k = λ e. refl

pub keep_elem-Widens :
    (cs ds : Option ElemConvs) → Widens cs ds → Widens (keep_elem cs) (keep_elem ds)
keep_elem-Widens none ds k = λ e. cc
keep_elem-Widens (some a) none k = λ e. k refl
keep_elem-Widens (some a) (some b) k = λ e. refl

pub put_attr-Widens :
    (name : String) (out : CtyType) (x y : Option Conversion) (cs ds : Option AttrConvs)
    → Widens x y
    → Widens cs ds
    → Widens (put_attr name (wrap out x) cs) (put_attr name (wrap out y) ds)
put_attr-Widens name out none y cs ds h k = λ e. cc
put_attr-Widens name out (some c) y none ds h k = λ e. cc
put_attr-Widens name out (some c) none (some a) ds h k = λ e. h refl
put_attr-Widens name out (some c) (some d) (some a) none h k = λ e. k refl
put_attr-Widens name out (some c) (some d) (some a) (some b) h k = λ e. refl

pub keep_attr-Widens :
    (name : String) (cs ds : Option AttrConvs)
    → Widens cs ds
    → Widens (keep_attr name cs) (keep_attr name ds)
keep_attr-Widens name none ds k = λ e. cc
keep_attr-Widens name (some a) none k = λ e. k refl
keep_attr-Widens name (some a) (some b) k = λ e. refl

pub from_elems-Widens :
    (f g : ElemConvs → Conversion) (cs ds : Option ElemConvs)
    → Widens cs ds
    → Widens (from_elems f cs) (from_elems g ds)
from_elems-Widens f g none ds k = λ e. cc
from_elems-Widens f g (some a) none k = λ e. k refl
from_elems-Widens f g (some a) (some b) k = λ e. refl

pub from_attrs-Widens :
    (f g : AttrConvs → Conversion) (cs ds : Option AttrConvs)
    → Widens cs ds
    → Widens (from_attrs f cs) (from_attrs g ds)
from_attrs-Widens f g none ds k = λ e. cc
from_attrs-Widens f g (some a) none k = λ e. k refl
from_attrs-Widens f g (some a) (some b) k = λ e. refl

-- Nothing in the wanted attributes, or in the wanted elements, is of the dynamic pseudo-type.
pub first_attr-static :
    (k : String) (t : CtyType) (fs : Attrs)
    → attrs_have_dynamic (attr k t fs) ≡ false
    → (has_dynamic_types t ≡ false) × (attrs_have_dynamic fs ≡ false)
unfolding has_dynamic_types
first_attr-static k t fs h = elim (Bool-cases (has_dynamic_types t)) [
  | inl y ↦ absurd (ground arith)
  | inr n ↦ (n, ground arith)
]

pub first_elem-static :
    (t : CtyType) (ts : Types)
    → elems_have_dynamic (type_then t ts) ≡ false
    → (has_dynamic_types t ≡ false) × (elems_have_dynamic ts ≡ false)
unfolding has_dynamic_types
first_elem-static t ts h = elim (Bool-cases (has_dynamic_types t)) [
  | inl y ↦ absurd (ground arith)
  | inr n ↦ (n, ground arith)
]

pub static_target : (out : CtyType) → has_dynamic_types out ≡ false → is_dynamic out ≡ false
unfolding has_dynamic_types
static_target pseudo_type_dynamic h = absurd (ground arith)
static_target _ h = refl

pub wanted_attrs-Widens :
    (conv wider : String → CtyType → Option Conversion) (ins : Map String CtyType)
    (opts : List String) (outs : Attrs)
    → attrs_have_dynamic outs ≡ false
    → ((name : String) (out : CtyType)
        → has_dynamic_types out ≡ false
        → Widens (conv name out) (wider name out))
    → Widens
        (wanted_attrs conv ins opts (attribute_types outs))
        (wanted_attrs wider ins opts (attribute_types outs))
wanted_attrs-Widens conv wider ins opts no_attrs d h = λ e. refl
wanted_attrs-Widens conv wider ins opts (attr name out outs) d h =
    let static = first_attr-static name out outs d in
    let rest = wanted_attrs-Widens conv wider ins opts outs static.1 h in
    let xs = wanted_attrs conv ins opts (attribute_types outs) in
    let ys = wanted_attrs wider ins opts (attribute_types outs) in
    let kept = keep_attr-Widens name xs ys rest in
    let put =
      put_attr-Widens name out (conv name out) (wider name out) xs ys (h name out static.0) rest in
    λ e. ground (arith, kept, put, rest)
