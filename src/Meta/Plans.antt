-- ===== src/Meta/Plans.antt =====
-- Proofs about the tables of src/plugins/pwr_tx2mon.c and src/plugins/pwr_ipmi.c: what `initMeta`
-- enters, and what a caller then reads.
use mathlib.Core.Path.{subst}
use pwrapi_ref.Prelude.{
  ℕ, suc, ◌+◌, ◌≡◌, refl, sym, ap, ◌∙◌, arith, List, [], ◌∷◌, map, none, some, Outcome, returns,
  ◌>>=◌, in_bounds, length, set, length-set, All, replicate, inl, inr, Option-cases,
}
use pwrapi_ref.Types.{AttrName}
use pwrapi_ref.Meta.{
  MetaObjectInfo, MetaInfo, max_objects, enter, enter_all, enter_object, enter_objects, cleared,
  reset, init_meta,
}
use pwrapi_ref.Meta.Views.{view, views, IsSized, append_at, append_all, append_plan, enter-views}

-- The arrays of a table have the sizes that C gives them.
pub record IsTable (m : MetaInfo) : Type 0 where
  pub objects : length m.meta_obj ≡ max_objects
  pub sized : All IsSized m.meta_obj

-- The call returns a table with `n` objects that holds the lists `vs`.
pub record Gives (o : Outcome MetaInfo) (n : ℕ) (vs : List (List AttrName)) : Type 0 where
  pub table : MetaInfo
  pub done : o ≡ returns table
  pub is_table : IsTable table
  pub count : table.num_objects ≡ n
  pub holds : views table ≡ vs

enter-Gives :
    (m : MetaInfo) (t : ℕ) (a : AttrName) (vs : List (List AttrName))
    → IsTable m
    → append_at (views m) t a ≡ some vs
    → Gives (enter m t a) m.num_objects vs
unfolding enter
enter-Gives m t a vs s e =
    let (o, o', at_t, added, sized, seen) = enter-views m.meta_obj t a vs s.sized e in
    record {
      table = record m { meta_obj = set m.meta_obj t o' };
      done = rw (at_t, in_bounds, added);
      is_table = record { objects = length-set m.meta_obj t o' ∙ s.objects; sized = sized };
      count = refl;
      holds = seen;
    }

enter_all-Gives :
    (attrs : List AttrName) (m : MetaInfo) (t : ℕ) (vs : List (List AttrName))
    → IsTable m
    → append_all (views m) t attrs ≡ some vs
    → Gives (enter_all m t attrs) m.num_objects vs
unfolding enter_all
enter_all-Gives [] m t vs s e = record {
  table = m;
  done = refl;
  is_table = s;
  count = refl;
  holds = ground arith;
}
enter_all-Gives (a ∷ attrs) m t vs s e = elim (Option-cases (append_at (views m) t a)) [
  | inl full ↦ absurd (never (rw (full, append_all) at e))
  | inr (v, fits) ↦
      let g = enter-Gives m t a v s fits in
      let h =
        enter_all-Gives attrs g.table t vs g.is_table (
          subst (λ r. append_all r t attrs ≡ some vs) (sym g.holds) (rw (fits, append_all) at e)) in
      record {
        table = h.table;
        done = rw (g.done, ◌>>=◌) h.done;
        is_table = h.is_table;
        count = h.count ∙ g.count;
        holds = h.holds;
      }
]
  where
    never : none ≡ some vs → ⊥
    never h = cc

enter_objects-Gives :
    (plan : List (ℕ × List AttrName)) (m : MetaInfo) (vs : List (List AttrName))
    → IsTable m
    → append_plan (views m) plan ≡ some vs
    → Gives (enter_objects m plan) (m.num_objects + length plan) vs
unfolding enter_objects enter_object
enter_objects-Gives [] m vs s e = record {
  table = m;
  done = refl;
  is_table = s;
  count = omega arith;
  holds = ground arith;
}
enter_objects-Gives ((t, attrs) ∷ plan) m vs s e =
    elim (Option-cases (append_all (views m) t attrs)) [
      | inl full ↦ absurd (never (rw (full, append_plan) at e))
      | inr (v, fits) ↦
          let g = enter_all-Gives attrs m t v s fits in
          let m' : MetaInfo = record (g.table) { num_objects = g.table.num_objects + 1 } in
          let h =
            enter_objects-Gives plan m' vs
              (record { objects = g.is_table.objects; sized = g.is_table.sized })
              (subst (λ r. append_plan r plan ≡ some vs) (sym g.holds)
                (rw (fits, append_plan) at e)) in
          record {
            table = h.table;
            done = rw (g.done, ◌>>=◌) h.done;
            is_table = h.is_table;
            count = omega (arith, h.count, g.count);
            holds = h.holds;
          }
    ]
  where
    never : none ≡ some vs → ⊥
    never h = cc

cleared-IsSized : (objs : List MetaObjectInfo) → All IsSized objs → All IsSized (map cleared objs)
cleared-IsSized [] s = tt
cleared-IsSized (o ∷ objs) s =
    (record { size = s.0.size; used = omega arith }, cleared-IsSized objs s.1)

length-cleared : (objs : List MetaObjectInfo) → length (map cleared objs) ≡ length objs
length-cleared [] = refl
length-cleared (o ∷ objs) = ap suc (length-cleared objs)

view-cleared :
    (objs : List MetaObjectInfo) → map view (map cleared objs) ≡ replicate (length objs) []
view-cleared [] = refl
view-cleared (o ∷ objs) = ap (◌∷◌ []) (view-cleared objs)

-- Where the attributes of the calls fit into arrays of their sizes, `initMeta` returns and leaves the
-- lists of its calls and their number, whatever the table held before.
pub init_meta-Gives :
    (plan : List (ℕ × List AttrName)) (m : MetaInfo) (vs : List (List AttrName))
    → IsTable m
    → append_plan (replicate max_objects []) plan ≡ some vs
    → Gives (init_meta plan m) (length plan) vs
unfolding init_meta
init_meta-Gives plan m vs s e =
    let empty : views (reset m) ≡ replicate max_objects [] =
      unfold reset in view-cleared m.meta_obj ∙ ap (λ n. replicate n []) s.objects in
    let g =
      enter_objects-Gives plan (reset m) vs
        (unfold reset in
          record {
            objects = length-cleared m.meta_obj ∙ s.objects;
            sized = cleared-IsSized m.meta_obj s.sized;
          })
        (subst (λ r. append_plan r plan ≡ some vs) (sym empty) e) in
    record {
      table = g.table;
      done = g.done;
      is_table = g.is_table;
      count = unfold reset in g.count ∙ omega arith;
      holds = g.holds;
    }
