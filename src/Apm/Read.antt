-- ===== src/Apm/Read.antt =====
-- src/plugins/pwr_apmdev.c: `pwr_apmdev_read` and the calls that are made of it.
use pwrapi_ref.Prelude.{
  ℕ, Option, none, some, List, Outcome, returns, faults, ◌==◌, if◌then◌else◌, get_or, ltb,
}
use pwrapi_ref.Prelude.Int.{pos, negsuc}
use pwrapi_ref.Prelude.Io.{Io}
use pwrapi_ref.Prelude.Doubles.{Doubles}
use pwrapi_ref.Types.{AttrName, double_size}
use pwrapi_ref.Plugin.{Reading, Arrays, readv}
use pwrapi_ref.Apm.Device.{System, Node, gather}
use pwrapi_ref.Apm.Scan.{Device, blank_node}

module _ {D W : Type 0} (fl : Doubles D) (sys : System W) where
  abbrev pub selected : AttrName → D → Option D
  selected AttrName.power power = some power
  selected _ power = none

  abbrev pub refusal : Reading D
  refusal = record { status = negsuc 0; value = none; stamp = none }

  unfoldable pub report : AttrName → Option D → Io W (Outcome (Reading D))
  report attr none w = (returns refusal, w)
  report attr (some power) w =
      let (now, w') = sys.clock w in
      (returns (record { status = pos 0; value = selected attr power; stamp = some now }), w')

  -- node[core]: the array has eight entries, and those that the start did not fill are zero.
  unfoldable pub node_at : Device D → Option (Node D)
  node_at dev =
      if ltb dev.core 8 then some (get_or dev.node dev.core (blank_node fl sys 0)) else none

  unfoldable pub read_node : Option (Node D) → AttrName → ℕ → Io W (Outcome (Reading D))
  unfolding report
  read_node none attr msr w = (faults, w)
  read_node (some node) attr msr w =
      let (power, w') = gather fl sys node msr w in report attr power w'

  -- `msr` is what the variable of that name in `apmdev_gather` holds before it is set.
  unfoldable pub read : Device D → AttrName → ℕ → ℕ → Io W (Outcome (Reading D))
  unfolding read_node node_at
  read dev attr len msr w =
      if len == double_size then read_node (node_at dev) attr msr w else (returns refusal, w)

  unfoldable pub readv_arrays :
      Device D → ℕ → ℕ → List AttrName → Arrays D → Io W (Outcome (Arrays D))
  readv_arrays dev msr = readv (λ attr. read dev attr double_size msr)
