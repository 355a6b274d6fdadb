-- ===== src/Tx2mon/Region.antt =====
-- src/plugins/pwr_tx2mon.c: the state of the plugin, and which node and core a number stands for. The
-- structure `mc_oper_region` and the macro `to_c` are those of the driver of the monitor.
use pwrapi_ref.Prelude.{
  ℕ, suc, ◌/◌, ◌%◌, Option, List, Outcome, returns, faults, ◌>>=◌, in_bounds, get_elem?, set,
}
use pwrapi_ref.Prelude.Int.{ℤ, pos, negsuc, sub_ℕ}
use pwrapi_ref.Prelude.Io.{Io}
use pwrapi_ref.Types.{ObjType}

-- The fields of the region that are read.
pub record Region : Type 0 where
  pub freq_cpu : List ℤ
  pub tmon_cpu : List ℤ
  pub freq_socs : ℤ
  pub tmon_soc_avg : ℤ
  pub pwr_core : ℤ
  pub pwr_sram : ℤ
  pub pwr_mem : ℤ
  pub pwr_soc : ℤ
  pub v_soc : ℤ

-- `refresh` is `lseek` and `read` on the file of a node, into the buffer that holds a region: a read that
-- fails may leave the old one. `clock` is `getTime`.
pub record System (D W : Type 0) : Type 0 where
  pub refresh : ℕ → Region → Io W Region
  pub clock : Io W D
  pub to_c : ℤ → D

pub record FdInfo (D : Type 0) : Type 0 where
  pub obj_type : ObjType
  pub id : ℤ
  pub energy : D

-- `cores` is that of node 0. A descriptor is its place in `fds`, where `none` stands for one that is freed;
-- `energy_objs` holds such places.
pub record Monitor (D : Type 0) : Type 0 where
  pub nodes : ℕ
  pub cores : ℕ
  pub buf : List Region
  pub energy_objs : List (Option ℕ)
  pub last_sample : D
  pub fds : List (Option (FdInfo D))

-- Division and remainder of `int`, towards zero.
abbrev pub quot_ℤ : ℤ → ℕ → ℤ
quot_ℤ (pos n) k = pos (n / k)
quot_ℤ (negsuc n) k = sub_ℕ 0 (suc n / k)

abbrev pub rem_ℤ : ℤ → ℕ → ℤ
rem_ℤ (pos n) k = pos (n % k)
rem_ℤ (negsuc n) k = sub_ℕ 0 (suc n % k)

module _ {D W : Type 0} (sys : System D W) where
  abbrev pub State : Type 0
  State = Monitor D × W

  unfoldable pub read_node : ℤ → State → Outcome (Region × State)
  read_node (negsuc n) s = faults
  read_node (pos i) (m, w) = do
    old ← in_bounds (get_elem? m.buf i)
    let (region, w') = sys.refresh i old w
    returns (region, (record m { buf = set m.buf i region }, w'))
