-- ===== src/Meta/Views.antt =====
-- Proofs about the tables of src/plugins/pwr_tx2mon.c and src/plugins/pwr_ipmi.c: the arrays and
-- counters hold, for each object type, a list of attributes.
use native.Mathlib.Numerals.{add-one}
use pwrapi_ref.Prelude.{
  ℕ, zero, suc, ◌+◌, ◌≤◌, ◌<◌, ◌≡◌, refl, ap, ◌∙◌, arith, List, [], ◌∷◌, ◌++◌, map, Option, none,
  some, returns, if◌then◌else◌, ltb, length, get_elem?, set, take, take-set_end, length-set,
  length-take, lt→ltb, All, inl, inr, Option-cases,
}
use pwrapi_ref.Types.{AttrName}
use pwrapi_ref.Meta.{MetaObjectInfo, MetaInfo, max_attrs, add_attr}

-- The attributes of one object type, and the list of them for all types.
abbrev pub view : MetaObjectInfo → List AttrName
view o = take o.num_attrs o.attrs

abbrev pub views : MetaInfo → List (List AttrName)
views m = map view m.meta_obj

pub record IsSized (o : MetaObjectInfo) : Type 0 where
  pub size : length o.attrs ≡ max_attrs
  pub used : o.num_attrs ≤ max_attrs

-- What the calls do to the lists; `none` where an array would be left.
abbrev pub append_at : List (List AttrName) → ℕ → AttrName → Option (List (List AttrName))
append_at [] t a = none
append_at (v ∷ vs) zero a = if ltb (length v) max_attrs then some ((v ++ a ∷ []) ∷ vs) else none
append_at (v ∷ vs) (suc t) a = elim (append_at vs t a) [ none ↦ none | some r ↦ some (v ∷ r) ]

abbrev pub append_all : List (List AttrName) → ℕ → List AttrName → Option (List (List AttrName))
append_all vs t [] = some vs
append_all vs t (a ∷ attrs) = elim (append_at vs t a) [
  | none ↦ none
  | some r ↦ append_all r t attrs
]

abbrev pub append_plan :
    List (List AttrName) → List (ℕ × List AttrName) → Option (List (List AttrName))
append_plan vs [] = some vs
append_plan vs ((t, attrs) ∷ plan) = elim (append_all vs t attrs) [
  | none ↦ none
  | some r ↦ append_plan r plan
]

-- One write into the array of one object type.
add_attr-view :
    (o : MetaObjectInfo) (a : AttrName)
    → IsSized o
    → length (view o) < max_attrs
    → (o' : MetaObjectInfo) × (add_attr o a ≡ returns o')
      × IsSized o'
      × (view o' ≡ view o ++ a ∷ [])
unfolding add_attr
add_attr-view o a s h =
    let free : o.num_attrs < length o.attrs =
      omega (arith, length-take o.num_attrs o.attrs, s.size, s.used) in
    (
      record { num_attrs = o.num_attrs + 1; attrs = set o.attrs o.num_attrs a },
      rw (lt→ltb _ _ free),
      record { size = length-set o.attrs o.num_attrs a ∙ s.size; used = omega (arith, s.size) },
      rw add-one (take-set_end o.attrs o.num_attrs a free),
    )

pub enter-views :
    (objs : List MetaObjectInfo) (t : ℕ) (a : AttrName) (vs : List (List AttrName))
    → All IsSized objs
    → append_at (map view objs) t a ≡ some vs
    → (o : MetaObjectInfo) × (o' : MetaObjectInfo) × (get_elem? objs t ≡ some o)
      × (add_attr o a ≡ returns o')
      × All IsSized (set objs t o')
      × (map view (set objs t o') ≡ vs)
enter-views [] t a vs s e = cc
enter-views (o ∷ objs) zero a vs s e =
    let free : length (view o) < max_attrs = ground arith in
    let (o', done, sized, seen) = add_attr-view o a s.0 free in
    (o, o', refl, done, (sized, s.1), ap (λ v. v ∷ map view objs) seen ∙ fits free e)
  where
    fits :
        (free : length (view o) < max_attrs)
        → append_at (map view (o ∷ objs)) zero a ≡ some vs
        → (view o ++ a ∷ []) ∷ map view objs ≡ vs
    fits free h = ground arith
enter-views (o ∷ objs) (suc t) a vs s e = elim (Option-cases (append_at (map view objs) t a)) [
  | inl full ↦ absurd (never full e)
  | inr (rest, more) ↦
      let (p, p', at_t, done, sized, seen) = enter-views objs t a rest s.1 more in
      (p, p', at_t, done, (s.0, sized), ap (◌∷◌ (view o)) seen ∙ same rest more e)
]
  where
    never :
        append_at (map view objs) t a ≡ none
        → append_at (map view (o ∷ objs)) (suc t) a ≡ some vs
        → ⊥
    never full h = ground arith

    same :
        (rest : List (List AttrName))
        → append_at (map view objs) t a ≡ some rest
        → append_at (map view (o ∷ objs)) (suc t) a ≡ some vs
        → view o ∷ rest ≡ vs
    same rest more h = ground arith
