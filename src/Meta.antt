-- ===== src/Meta.antt =====
-- src/plugins/pwr_tx2mon.c and src/plugins/pwr_ipmi.c: the table of the object types and attributes
-- that a plugin offers. Both plugins have the same functions over it; only what they enter differs.
pub mod Views
pub mod Plans
pub mod Queries
use pwrapi_ref.Prelude.{
  ℕ, zero, suc, ◌+◌, List, [], ◌∷◌, map, Option, none, some, Bool, true, false, Outcome, returns,
  aborts, faults, ◌>>=◌, ◌>>◌, assert, in_bounds, if◌then◌else◌, ◌==◌, ltb, length, get_elem?, set,
  take,
}
use pwrapi_ref.Prelude.Int.{ℤ, pos, negsuc}
use pwrapi_ref.Types.{ObjType, AttrName, obj_code}

-- struct MetaObjectInfo: `attrs` is an array of PWR_NUM_ATTR_NAMES.
pub record MetaObjectInfo : Type 0 where
  pub num_attrs : ℕ
  pub attrs : List AttrName

-- struct MetaInfo: `meta_obj` is an array of PWR_NUM_OBJ_TYPES.
pub record MetaInfo : Type 0 where
  pub num_objects : ℕ
  pub meta_obj : List MetaObjectInfo

abbrev pub max_attrs : ℕ
max_attrs = 18

abbrev pub max_objects : ℕ
max_objects = 14

-- info->attrs[info->numAttrs++] = attr
unfoldable pub add_attr : MetaObjectInfo → AttrName → Outcome MetaObjectInfo
add_attr o attr =
    if ltb o.num_attrs (length o.attrs)
    then returns (record { num_attrs = o.num_attrs + 1; attrs = set o.attrs o.num_attrs attr })
    else faults

-- addAttr( &_metaInfo.metaObj[type], attr )
unfoldable pub enter : MetaInfo → ℕ → AttrName → Outcome MetaInfo
enter m type attr = do
  o ← in_bounds (get_elem? m.meta_obj type)
  o' ← add_attr o attr
  returns (record m { meta_obj = set m.meta_obj type o' })

unfoldable pub enter_all : MetaInfo → ℕ → List AttrName → Outcome MetaInfo
enter_all m type [] = returns m
enter_all m type (attr ∷ attrs) = do m' ← enter m type attr; enter_all m' type attrs

-- The calls of one object type, with the `++_metaInfo.num_objects` that follows them.
unfoldable pub enter_object : MetaInfo → ℕ → List AttrName → Outcome MetaInfo
enter_object m type attrs = do
  m' ← enter_all m type attrs
  returns (record m' { num_objects = m'.num_objects + 1 })

unfoldable pub enter_objects : MetaInfo → List (ℕ × List AttrName) → Outcome MetaInfo
enter_objects m [] = returns m
enter_objects m ((type, attrs) ∷ plan) = do m' ← enter_object m type attrs; enter_objects m' plan

-- The loop at the start of `initMeta`: the attributes stay in their arrays.
abbrev pub cleared : MetaObjectInfo → MetaObjectInfo
cleared o = record o { num_attrs = 0 }

unfoldable pub reset : MetaInfo → MetaInfo
reset m = record { num_objects = 0; meta_obj = map cleared m.meta_obj }

-- `initMeta`, for the calls that follow its loop.
unfoldable pub init_meta : List (ℕ × List AttrName) → MetaInfo → Outcome MetaInfo
unfolding reset
init_meta plan m = enter_objects (reset m) plan

-- The calls of `initMeta` in pwr_tx2mon.c, by the number of the object type.
abbrev pub tx2mon_plan : List (ℕ × List AttrName)
tx2mon_plan =
    (6, AttrName.freq ∷ AttrName.temp ∷ [])
    ∷ (10, AttrName.power ∷ [])
    ∷ (11, AttrName.power ∷ [])
    ∷ (12, AttrName.power ∷ [])
    ∷ (13, AttrName.power ∷ [])
    ∷ (5, AttrName.temp ∷ AttrName.power ∷ AttrName.voltage ∷ AttrName.freq ∷ AttrName.energy ∷ [])
    ∷ []

-- Those of `initMeta` in pwr_ipmi.c; the test is `getNodePower( NULL )`.
abbrev pub ipmi_plan : Bool → List (ℕ × List AttrName)
ipmi_plan has_power = if has_power then (4, AttrName.power ∷ []) ∷ [] else []

unfoldable pub num_objs : MetaInfo → ℕ
num_objs m = m.num_objects

-- The loop of `readObjs` from type `i` on: the types that it stores, in order.
unfoldable pub listed : ℕ → List MetaObjectInfo → List ℕ
listed i [] = []
listed i (o ∷ objs) = let rest = listed (i + 1) objs in if o.num_attrs == 0 then rest else i ∷ rest

unfoldable pub read_objs : MetaInfo → ℕ → Outcome (List ℕ)
unfolding listed
read_objs m num_req = assert (num_req == m.num_objects) >> returns (listed 0 m.meta_obj)

unfoldable pub num_attrs_of : MetaInfo → ℕ → Outcome ℕ
num_attrs_of m type = do o ← in_bounds (get_elem? m.meta_obj type); returns o.num_attrs

-- The loop copies the first `numAttrs` entries.
unfoldable pub read_attrs : MetaInfo → ℕ → ℕ → Outcome (List AttrName)
read_attrs m type num_req = do
  o ← in_bounds (get_elem? m.meta_obj type)
  assert (num_req == o.num_attrs)
  returns (take o.num_attrs o.attrs)
