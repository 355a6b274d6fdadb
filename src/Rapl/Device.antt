-- ===== src/Rapl/Device.antt =====
-- src/plugins/pwr_rapldev.c: the start of one package (`_pwr_rapldev_init`), which reads three
-- registers and keeps the units, the power information and the power limits that they hold.
use Prim.Native.String.{String}
use pwrapi_ref.Prelude.{ℕ, Option, List, Bool, ◌||◌}
use pwrapi_ref.Prelude.Int.{ℤ, pos, eqb_ℤ}
use pwrapi_ref.Prelude.Io.{Io, Try, ◌>>=◌, give}
use pwrapi_ref.Prelude.Doubles.{Doubles}
use pwrapi_ref.Cpuinfo.{Scanner, Rules, identify}
use pwrapi_ref.Rapl.Msr.{msr, msr_bit}

-- What the plugin asks of the system: the lines of /proc/cpuinfo (`none` if it cannot be opened),
-- /dev/cpu/N/msr, and `pread` of the eight bytes at an offset (`none` if it reads fewer).
pub record System (W : Type 0) : Type 0 where
  pub scan : Scanner
  pub junk : ℤ
  pub cpuinfo : Io W (Option (List String))
  pub open_msr : ℕ → Try W ℕ
  pub pread : ℕ → ℕ → Try W ℕ

pub record Units (D : Type 0) : Type 0 where
  pub power : D
  pub energy : D
  pub time : D

pub record Power (D : Type 0) : Type 0 where
  pub thermal : D
  pub minimum : D
  pub maximum : D
  pub window : D

pub record Limit (D : Type 0) : Type 0 where
  pub power1 : D
  pub window1 : D
  pub enabled1 : ℕ
  pub clamped1 : ℕ
  pub power2 : D
  pub window2 : D
  pub enabled2 : ℕ
  pub clamped2 : ℕ

pub record Device (D : Type 0) : Type 0 where
  pub fd : ℕ
  pub cpu_model : ℤ
  pub units : Units D
  pub power : Power D
  pub limit : Limit D

abbrev pub supported : ℤ → Bool
supported m =
    eqb_ℤ m (pos 42)
    || (eqb_ℤ m (pos 45) || (eqb_ℤ m (pos 58) || (eqb_ℤ m (pos 62) || eqb_ℤ m (pos 60))))

-- Any text that starts with GenuineIntel passes: 12 characters are compared.
abbrev pub rules : Rules
rules = record { vendor = "GenuineIntel"; family = pos 6; supported = supported }

module _ {D : Type 0} (fl : Doubles D) where
  abbrev pub scaled : D → ℕ → D
  scaled unit n = fl.mul unit (fl.of_int (pos n))

  abbrev pub half_to : ℕ → D
  half_to n = fl.pow (fl.literal 5 1) (fl.of_int (pos n))

  pub decode_units : ℕ → Units D
  decode_units raw = record {
    power = half_to (msr raw 0 0xf);
    energy = half_to (msr raw 8 0x1f);
    time = half_to (msr raw 16 0xf);
  }

  pub decode_power : Units D → ℕ → Power D
  decode_power u raw = record {
    thermal = scaled u.power (msr raw 0 0x7fff);
    minimum = scaled u.power (msr raw 16 0x7fff);
    maximum = scaled u.power (msr raw 32 0x7fff);
    window = scaled u.time (msr raw 48 0x7fff);
  }

  unfoldable pub decode_limit : Units D → ℕ → Limit D
  decode_limit u raw = record {
    power1 = scaled u.power (msr raw 0 0x7fff);
    window1 = scaled u.time (msr raw 17 0x7f);
    enabled1 = msr_bit raw 15;
    clamped1 = msr_bit raw 16;
    power2 = scaled u.power (msr raw 32 0x7fff);
    window2 = scaled u.time (msr raw 49 0x7f);
    enabled2 = msr_bit raw 47;
    clamped2 = msr_bit raw 48;
  }

  module _ {W : Type 0} (sys : System W) where
    pub recognise : Try W ℤ
    recognise w = let (lines, w') = sys.cpuinfo w in (identify rules sys.scan sys.junk lines, w')

    -- `none` is the null pointer.
    unfoldable pub init_package : ℕ → Try W (Device D)
    unfolding recognise decode_units decode_power
    init_package core = do
      model ← recognise
      fd ← sys.open_msr core
      units_raw ← sys.pread fd 0x606
      let units = decode_units units_raw
      power_raw ← sys.pread fd 0x614
      limit_raw ← sys.pread fd 0x610
      give (record {
        fd = fd;
        cpu_model = model;
        units = units;
        power = decode_power units power_raw;
        limit = decode_limit units limit_raw;
      })
