-- ===== src/Ipmi.antt =====
-- src/plugins/pwr_ipmi.c: the power of a node, from a file that another program writes. Its table of
-- attributes stands in Meta.
pub mod Offered
use pwrapi_ref.Prelude.{Bool, true, false, Option, none, some}
use pwrapi_ref.Prelude.Int.{ℤ}
use pwrapi_ref.Prelude.Io.{Io}
use pwrapi_ref.Prelude.Doubles.{Doubles}
use pwrapi_ref.Types.{AttrName, ret_success, ret_failure}
use pwrapi_ref.Plugin.{Reading}

-- `power` is what `fscanf` finds in the file: `none` if the file cannot be opened or holds no number.
-- `clock` is `getTime`.
pub record System (D W : Type 0) : Type 0 where
  pub power : Io W (Option D)
  pub clock : Io W D

module _ {D W : Type 0} (fl : Doubles D) (sys : System D W) where
  abbrev pub found : Option D → Bool
  found none = false
  found (some p) = true

  -- getNodePower( NULL ), the test in `initMeta`.
  unfoldable pub has_node_power : Io W Bool
  has_node_power w = let (p, w') = sys.power w in (found p, w')

  abbrev pub power_status : Option D → ℤ
  power_status none = ret_failure
  power_status (some p) = ret_success

  -- The status and the value, by the attribute.
  abbrev pub power_value : AttrName → Io W (ℤ × Option D)
  power_value AttrName.power w = let (p, w') = sys.power w in ((power_status p, p), w')
  power_value _ w = ((ret_failure, none), w)

  -- The timestamp is written whether the read fails or not, where its pointer is not null.
  abbrev pub stamp_of : Bool → Io W (Option ℤ)
  stamp_of false w = (none, w)
  stamp_of true w = let (now, w') = sys.clock w in (some (fl.to_time now), w')

  unfoldable pub read : Bool → AttrName → Io W (Reading D)
  read timed attr w =
      let ((status, value), w1) = power_value attr w in
      let (stamp, w2) = stamp_of timed w1 in
      (record { status = status; value = value; stamp = stamp }, w2)
