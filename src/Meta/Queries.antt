-- ===== src/Meta/Queries.antt =====
-- Proofs about the tables of src/plugins/pwr_tx2mon.c and src/plugins/pwr_ipmi.c: what the framework
-- reads of them agrees, so that the arrays that it makes by the counts are filled exactly.
use pwrapi_ref.Prelude.{
  ℕ, zero, suc, ◌+◌, ◌≡◌, refl, sym, ap, ◌∙◌, arith, List, [], ◌∷◌, map, some, Bool, true, false,
  returns, in_bounds, if◌then◌else◌, ◌==◌, ==_self, length, length-take, get_elem?, All, replicate,
}
use pwrapi_ref.Types.{AttrName}
use pwrapi_ref.Meta.{
  MetaObjectInfo, MetaInfo, max_objects, init_meta, tx2mon_plan, ipmi_plan, num_objs, listed,
  read_objs, num_attrs_of, read_attrs,
}
use pwrapi_ref.Meta.Views.{view, views, IsSized, append_plan}
use pwrapi_ref.Meta.Plans.{IsTable, init_meta-Gives}

-- The types with a list that is not empty, from type `i` on.
abbrev pub nonempty : ℕ → List (List AttrName) → List ℕ
nonempty i [] = []
nonempty i ([] ∷ vs) = nonempty (i + 1) vs
nonempty i ((a ∷ v) ∷ vs) = i ∷ nonempty (i + 1) vs

length-view : (o : MetaObjectInfo) → IsSized o → length (view o) ≡ o.num_attrs
length-view o s = omega (arith, length-take o.num_attrs o.attrs, s.size, s.used)

nonempty-∷ :
    (i : ℕ) (v : List AttrName) (vs : List (List AttrName))
    → nonempty i (v ∷ vs) ≡ (if length v == 0 then nonempty (i + 1) vs else i ∷ nonempty (i + 1) vs)
nonempty-∷ i [] vs = refl
nonempty-∷ i (a ∷ v) vs = ground arith

listed-views :
    (i : ℕ) (objs : List MetaObjectInfo)
    → All IsSized objs
    → listed i objs ≡ nonempty i (map view objs)
unfolding listed
listed-views i [] s = refl
listed-views i (o ∷ objs) s =
    rw (nonempty-∷ i (view o) (map view objs), length-view o s.0, listed-views (i + 1) objs s.1)

read_objs-views :
    (m : MetaInfo) → IsTable m → read_objs m m.num_objects ≡ returns (nonempty 0 (views m))
unfolding read_objs
read_objs-views m s = rw (==_self m.num_objects, listed-views 0 m.meta_obj s.sized)

get_elem?-view :
    (objs : List MetaObjectInfo) (t : ℕ) (v : List AttrName)
    → All IsSized objs
    → get_elem? (map view objs) t ≡ some v
    → (o : MetaObjectInfo) × (get_elem? objs t ≡ some o) × (o.num_attrs ≡ length v) × (view o ≡ v)
get_elem?-view [] t v s e = cc
get_elem?-view (o ∷ objs) zero v s e =
    let same : view o ≡ v = cc in (o, refl, sym (length-view o s.0) ∙ ap length same, same)
get_elem?-view (o ∷ objs) (suc t) v s e = get_elem?-view objs t v s.1 e

-- The count of a type, and the array that is filled for that count.
read_attrs-view :
    (m : MetaInfo) (t : ℕ) (v : List AttrName)
    → IsTable m
    → get_elem? (views m) t ≡ some v
    → (num_attrs_of m t ≡ returns (length v)) × (read_attrs m t (length v) ≡ returns v)
unfolding num_attrs_of read_attrs
read_attrs-view m t v s e =
    let (o, at_t, count, same) = get_elem?-view m.meta_obj t v s.sized e in
    (
      rw (at_t, in_bounds) (ap returns count),
      rw (at_t, in_bounds, count, ==_self (length v)) (ap returns (rw count at same)),
    )

-- What the framework reads of a table, by the lists that it holds.
pub record Serves (m : MetaInfo) (vs : List (List AttrName)) : Type 0 where
  pub objs : read_objs m (num_objs m) ≡ returns (nonempty 0 vs)
  pub num : num_objs m ≡ length (nonempty 0 vs)
  pub attrs :
      (t : ℕ) (v : List AttrName)
      → get_elem? vs t ≡ some v
      → (num_attrs_of m t ≡ returns (length v)) × (read_attrs m t (length v) ≡ returns v)

init_meta-Serves :
    (plan : List (ℕ × List AttrName)) (m : MetaInfo) (vs : List (List AttrName))
    → IsTable m
    → append_plan (replicate max_objects []) plan ≡ some vs
    → length plan ≡ length (nonempty 0 vs)
    → (t : MetaInfo) × (init_meta plan m ≡ returns t) × Serves t vs
unfolding num_objs
init_meta-Serves plan m vs s e n =
    let g = init_meta-Gives plan m vs s e in
    (
      g.table,
      g.done,
      record {
        objs = read_objs-views g.table g.is_table ∙ ap (λ r. returns (nonempty 0 r)) g.holds;
        num = g.count ∙ n;
        attrs = λ t v at_t. read_attrs-view g.table t v g.is_table (rw g.holds at_t);
      },
    )

-- The lists that pwr_tx2mon.c enters, by the number of the object type.
abbrev pub tx2mon_views : List (List AttrName)
tx2mon_views =
    []
    ∷ []
    ∷ []
    ∷ []
    ∷ []
    ∷ (AttrName.temp ∷ AttrName.power ∷ AttrName.voltage ∷ AttrName.freq ∷ AttrName.energy ∷ [])
    ∷ (AttrName.freq ∷ AttrName.temp ∷ [])
    ∷ []
    ∷ []
    ∷ []
    ∷ (AttrName.power ∷ [])
    ∷ (AttrName.power ∷ [])
    ∷ (AttrName.power ∷ [])
    ∷ (AttrName.power ∷ [])
    ∷ []

-- Whatever the table of pwr_tx2mon.c held before in arrays of their sizes, once made it serves sockets, cores and the four parts of
-- a socket: the count of the object types is the number of types that are stored, and for each type
-- the count of its attributes is the number of attributes that are stored, in the order of the calls.
pub tx2mon-Serves :
    (m : MetaInfo)
    → IsTable m
    → (t : MetaInfo) × (init_meta tx2mon_plan m ≡ returns t) × Serves t tx2mon_views
tx2mon-Serves m s = init_meta-Serves tx2mon_plan m tx2mon_views s refl refl

abbrev pub ipmi_views : Bool → List (List AttrName)
ipmi_views has_power =
    []
    ∷ []
    ∷ []
    ∷ []
    ∷ (if has_power then AttrName.power ∷ [] else [])
    ∷ []
    ∷ []
    ∷ []
    ∷ []
    ∷ []
    ∷ []
    ∷ []
    ∷ []
    ∷ []
    ∷ []

-- The table of pwr_ipmi.c serves the power of a node if the node's power can be read when the table is
-- made, and no object at all if it cannot, whatever the table held before in arrays of their sizes.
pub ipmi-Serves :
    (has_power : Bool) (m : MetaInfo)
    → IsTable m
    → (t : MetaInfo) × (init_meta (ipmi_plan has_power) m ≡ returns t)
      × Serves t (ipmi_views has_power)
ipmi-Serves true m s = init_meta-Serves (ipmi_plan true) m (ipmi_views true) s refl refl
ipmi-Serves false m s = init_meta-Serves (ipmi_plan false) m (ipmi_views false) s refl refl
