-- ===== src/Tx2mon/Read.antt =====
-- src/plugins/pwr_tx2mon.c: `readDev` and `writeDev`.
use pwrapi_ref.Prelude.{
  ℕ, Bool, true, false, none, some, Outcome, returns, aborts, faults, ◌>>=◌, assert, in_bounds,
  ◌==◌, if◌then◌else◌,
}
use pwrapi_ref.Prelude.Int.{ℤ, pos, ltb_ℤ, at_index}
use pwrapi_ref.Prelude.Doubles.{Doubles}
use pwrapi_ref.Types.{ObjType, AttrName, ret_success, double_size}
use pwrapi_ref.Plugin.{Reading}
use pwrapi_ref.Tx2mon.Region.{Region, System, FdInfo, quot_ℤ, rem_ℤ, State, read_node}
use pwrapi_ref.Tx2mon.Registry.{deref}

module _ {D W : Type 0} (fl : Doubles D) (sys : System D W) where
  abbrev pub Call : Type 0 → Type 0
  Call A = State sys → Outcome (A × State sys)

  -- mV to V, and mW to W.
  abbrev pub milli : ℤ → D
  milli n = fl.div (fl.of_int n) (fl.literal 10000 1)

  -- The last step of a read; `timed` says that the pointer to the timestamp is not null.
  abbrev pub finish : Bool → D → Call (Reading D)
  finish false v s = returns (record { status = ret_success; value = some v; stamp = none }, s)
  finish true v (m, w) =
      let (now, w') = sys.clock w in
      returns
        (record { status = ret_success; value = some v; stamp = some (fl.to_time now) }, (m, w'))

  abbrev pub core_value : AttrName → ℤ → Region → Outcome D
  core_value AttrName.freq core r = do
    f ← in_bounds (at_index r.freq_cpu core)
    returns (fl.of_int f)
  core_value AttrName.temp core r = do
    t ← in_bounds (at_index r.tmon_cpu core)
    returns (sys.to_c t)
  core_value _ core r = aborts

  -- A division by zero has no defined behaviour.
  unfoldable pub read_core : Bool → ℤ → AttrName → ℕ → Call (Reading D)
  read_core timed id attr len s =
      let m = s.0 in
      if m.cores == 0 then faults else do
        _ ← assert (len == double_size)
        _ ← assert (ltb_ℤ (quot_ℤ id m.cores) (pos m.nodes))
        _ ← assert (ltb_ℤ (rem_ℤ id m.cores) (pos m.cores))
        (r, s') ← read_node sys (quot_ℤ id m.cores) s
        v ← core_value attr (rem_ℤ id m.cores) r
        finish timed v s'

  -- Three of the parts are added to what the value of the caller holds.
  abbrev pub power_of : ObjType → D → Region → D
  power_of ObjType.tx2_core old r = milli r.pwr_core
  power_of ObjType.tx2_sram old r = fl.add old (milli r.pwr_sram)
  power_of ObjType.tx2_mem old r = fl.add old (milli r.pwr_mem)
  power_of ObjType.tx2_soc old r = fl.add old (milli r.pwr_soc)
  power_of _ old r =
      fl.add
        (fl.add (fl.add (fl.add (milli r.pwr_core) (milli r.pwr_sram)) (milli r.pwr_mem))
          (milli r.pwr_soc))
        (fl.of_int (pos 12))

  abbrev pub socket_value : FdInfo D → AttrName → D → Region → Outcome D
  socket_value f AttrName.freq old r = returns (fl.of_int r.freq_socs)
  socket_value f AttrName.temp old r = returns (sys.to_c r.tmon_soc_avg)
  socket_value f AttrName.power old r = returns (power_of f.obj_type old r)
  socket_value f AttrName.voltage old r = returns (milli r.v_soc)
  socket_value f AttrName.energy old r = returns f.energy
  socket_value f _ old r = aborts

  unfoldable pub read_socket : Bool → FdInfo D → AttrName → D → ℕ → Call (Reading D)
  read_socket timed f attr old len s = do
    _ ← assert (len == double_size)
    _ ← assert (ltb_ℤ f.id (pos s.0.nodes))
    (r, s') ← read_node sys f.id s
    v ← socket_value f attr old r
    finish timed v s'

  abbrev pub read_object : ObjType → Bool → FdInfo D → AttrName → D → ℕ → Call (Reading D)
  read_object ObjType.socket timed f attr old len s = read_socket timed f attr old len s
  read_object ObjType.tx2_core timed f attr old len s = read_socket timed f attr old len s
  read_object ObjType.tx2_sram timed f attr old len s = read_socket timed f attr old len s
  read_object ObjType.tx2_mem timed f attr old len s = read_socket timed f attr old len s
  read_object ObjType.tx2_soc timed f attr old len s = read_socket timed f attr old len s
  read_object ObjType.core timed f attr old len s = read_core timed f.id attr len s
  read_object _ timed f attr old len s = aborts

  -- `pwr_tx2mon_dev_read`: `old` is what the value of the caller holds.
  unfoldable pub read_dev : Bool → ℕ → AttrName → D → ℕ → Call (Reading D)
  unfolding read_core read_socket
  read_dev timed h attr old len s = do
    f ← deref s.0 h
    read_object f.obj_type timed f attr old len s
