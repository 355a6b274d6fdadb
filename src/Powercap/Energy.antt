-- ===== src/Powercap/Energy.antt =====
-- src/plugins/pwr_powercap.c: the reads.
use pwrapi_ref.Prelude.{
  Option, none, some, List, [], ◌∷◌, Outcome, returns, faults, ◌>>=◌, in_bounds, get_elem?,
}
use pwrapi_ref.Prelude.Int.{ℤ, ◌-ℤ◌, at_index}
use pwrapi_ref.Prelude.Doubles.{Doubles}
use pwrapi_ref.Types.{ObjType, AttrName, ret_success, ret_failure}
use pwrapi_ref.Plugin.{Reading}
use pwrapi_ref.Powercap.Paths.{Text}
use pwrapi_ref.Powercap.Zones.{Zone, Package, opened}

-- The package is a pointer into the array: one that the index puts outside of it is `none`.
pub record Descriptor : Type 0 where
  pub type : ObjType
  pub pkg : Option Package

-- `sscanf` gives the type and the index of the open string.
unfoldable pub open_package : List Package → ObjType → ℤ → Descriptor
open_package pkgs type index = record { type = type; pkg = at_index pkgs index }

-- The counters, as they stand when the read is made.
module _ (counter : Text → Option ℤ) where
  -- `readValue2`: what a counter has gained since the start.
  unfoldable pub gained : Zone → Outcome ℤ
  unfolding ◌-ℤ◌
  gained z = do value ← opened (counter z.energy); returns (value -ℤ z.start_value)

  -- The switch over the type of the object; for other types the variable is never set.
  unfoldable pub energy_of : ObjType → Package → Outcome ℤ
  energy_of ObjType.mem p = do z ← in_bounds (get_elem? p.zones 0); gained z
  energy_of ObjType.socket p = do
    z ← in_bounds (get_elem? p.zones 0)
    value0 ← gained z
    value1 ← gained p.zone
    returns (value1 -ℤ value0)
  energy_of _ p = faults

  module _ {D : Type 0} (fl : Doubles D) where
    -- The attribute is not looked at: every attribute reads as the energy in joules.
    unfoldable pub read : Descriptor → AttrName → Option ℤ → Outcome (Reading D)
    read d attr now = do
      p ← in_bounds d.pkg
      value ← energy_of d.type p
      returns (record {
        status = ret_success;
        value = some (fl.div (fl.of_int value) (fl.literal 10000000 1));
        stamp = now;
      })

    -- One attribute at most; `none` for the reading says that nothing is written at all.
    unfoldable pub readv_one : Descriptor → List AttrName → ℤ → Outcome (ℤ × Option (Reading D))
    readv_one d (attr ∷ []) now = do r ← read d attr (some now); returns (r.status, some r)
    readv_one d attrs now = returns (ret_failure, none)
