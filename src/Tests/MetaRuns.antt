-- ===== src/Tests/MetaRuns.antt =====
-- Runs of the tables of object types and attributes.
use pwrapi_ref.Prelude.{◌≡◌, refl, true, returns, replicate, arith}
use pwrapi_ref.Types.{AttrName}
use pwrapi_ref.Meta.{
  MetaObjectInfo, MetaInfo, max_attrs, max_objects, init_meta, tx2mon_plan, ipmi_plan,
}
use pwrapi_ref.Meta.Plans.{IsTable, Gives, init_meta-Gives}
use pwrapi_ref.Meta.Queries.{Serves, tx2mon_views, ipmi_views, tx2mon-Serves}

-- A table that an earlier call has filled.
abbrev used_object : MetaObjectInfo
used_object = record { num_attrs = 3; attrs = replicate max_attrs AttrName.pstate }

abbrev used_table : MetaInfo
used_table = record { num_objects = 14; meta_obj = replicate max_objects used_object }

used_table-IsTable : IsTable used_table
used_table-IsTable = record { objects = refl; sized = omega arith }

tx2mon-Serves_example :
    (t : MetaInfo) × (init_meta tx2mon_plan used_table ≡ returns t) × Serves t tx2mon_views
tx2mon-Serves_example = tx2mon-Serves used_table used_table-IsTable

init_meta-Gives_example : Gives (init_meta (ipmi_plan true) used_table) 1 (ipmi_views true)
init_meta-Gives_example =
    init_meta-Gives (ipmi_plan true) used_table (ipmi_views true) used_table-IsTable refl
