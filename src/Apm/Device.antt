-- ===== src/Apm/Device.antt =====
-- src/plugins/pwr_apmdev.c: the configuration registers behind the command `setpci`, and the set-up of
-- one node by `pwr_apmdev_init`.
use Prim.Native.String.{String}
use pwrapi_ref.Prelude.{ℕ, Option, none, some, Bool, ◌||◌, List, if◌then◌else◌}
use pwrapi_ref.Prelude.Int.{ℤ, pos, eqb_ℤ}
use pwrapi_ref.Prelude.Io.{Io, Try, ◌>>=◌, give}
use pwrapi_ref.Prelude.Doubles.{Doubles}
use pwrapi_ref.Plugin.{written}
use pwrapi_ref.Cpuinfo.{Scanner, Rules}
use pwrapi_ref.Apm.Fields.{masked, tdp_to_watt_bits, run_avg_acc_cap}

-- What `setpci` prints for a node, a function and an offset: nothing (`none`), or a line, in which
-- `sscanf` with "%lx" finds a number or finds none. A write that works prints nothing.
pub record System (W : Type 0) : Type 0 where
  pub scan : Scanner
  pub junk : ℤ
  pub cpuinfo : Io W (Option (List String))
  pub query : ℕ → ℕ → ℕ → Io W (Option (Option ℕ))
  pub assign : ℕ → ℕ → ℕ → ℕ → Io W Bool
  -- The wall clock, in nanoseconds, as `gettimeofday` gives it.
  pub clock : Io W ℤ

pub record Node (D : Type 0) : Type 0 where
  pub number : ℕ
  pub tdp_to_watt : D
  pub run_avg_range : D
  pub avg_divide_by : D
  pub proc_tdp : D
  pub base_tdp : D
  pub off_core_pwr_watt : D

abbrev pub supported : ℤ → Bool
supported m = eqb_ℤ m (pos 1) || (eqb_ℤ m (pos 16) || eqb_ℤ m (pos 48))

abbrev pub rules : Rules
rules = record { vendor = "AuthenticAMD"; family = pos 21; supported = supported }

-- A line with no number is no failure: the variable `msr` of the caller then keeps its value `old`.
abbrev pub line_value : ℕ → Option (Option ℕ) → Option ℕ
line_value old none = none
line_value old (some found) = some (written found old)

module _ {D W : Type 0} (fl : Doubles D) (sys : System W) where
  unfoldable pub config_read : ℕ → ℕ → ℕ → ℕ → Try W ℕ
  config_read node reg offset old w =
      let (line, w') = sys.query node reg offset w in (line_value old line, w')

  unfoldable pub config_write : ℕ → ℕ → ℕ → ℕ → Try W (Unit {0})
  config_write node reg offset value w =
      let (ok, w') = sys.assign node reg offset value w in (if ok then some tt else none, w')

  unfoldable pub gather : Node D → ℕ → Try W D
  gather node old = do
    limit ← config_read node.number 0x5 0xe8 old
    cap ← config_read node.number 0x5 0xe0 limit
    give (
        fl.mul
          (fl.sub (fl.of_int (pos (masked limit 0x1fffffff 16)))
            (fl.div (fl.of_int (pos (run_avg_acc_cap cap))) node.avg_divide_by))
          node.tdp_to_watt)

  -- The range is forced to `wanted`, in the register too.
  unfoldable pub force_range : ℕ → ℕ → D → Try W D
  force_range number wanted range =
      if fl.eq range (fl.of_int (pos wanted))
      then give range
      else (do _ ← config_write number 0x5 0xe0 wanted; give (fl.of_int (pos wanted)))

  unfoldable pub checked_range : ℤ → ℕ → D → Try W D
  checked_range model number range =
      if eqb_ℤ model (pos 1)
      then force_range number 9 range
      else if eqb_ℤ model (pos 16) || eqb_ℤ model (pos 48)
      then force_range number 2 range
      else give range

  -- The second loop of the start, for one node; the number is the value that `msr` is left with.
  unfoldable pub set_up : ℤ → Node D → ℕ → Try W (Node D × ℕ)
  set_up model node old = do
    watt ← config_read node.number 0x5 0xe8 old
    range ← config_read node.number 0x5 0xe0 watt
    kept ← checked_range model node.number (fl.of_int (pos (masked range 0x000f 0)))
    tdp ← config_read node.number 0x4 0x1b8 range
    give (
      record node {
        tdp_to_watt = fl.div (fl.of_int (pos (tdp_to_watt_bits watt))) (fl.of_int (pos 65536));
        run_avg_range = kept;
        avg_divide_by = fl.pow (fl.literal 20 1) (fl.add kept (fl.of_int (pos 1)));
        proc_tdp = fl.of_int (pos (masked tdp 0xffff 0));
      },
      tdp,
    )
