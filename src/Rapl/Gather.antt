-- ===== src/Rapl/Gather.antt =====
-- src/plugins/pwr_rapldev.c: `rapldev_gather`, which reads the registers of one layer.
use pwrapi_ref.Prelude.{ℕ, Bool, ◌||◌, if◌then◌else◌}
use pwrapi_ref.Prelude.Int.{ℤ, pos, eqb_ℤ, signed64}
use pwrapi_ref.Prelude.Io.{Try, ◌>>=◌, give}
use pwrapi_ref.Prelude.Doubles.{Doubles}
use pwrapi_ref.Rapl.Msr.{msr}
use pwrapi_ref.Rapl.Device.{System, Units}
use pwrapi_ref.Rapl.Packages.{Layer}

-- What the three pointers of the caller point to.
pub record Sample (D : Type 0) : Type 0 where
  pub energy : D
  pub time : D
  pub policy : ℕ

-- CPU_MODEL_SANDY_EP and CPU_MODEL_IVY_EP.
abbrev pub has_perf_status : ℤ → Bool
has_perf_status m = eqb_ℤ m (pos 45) || eqb_ℤ m (pos 62)

-- CPU_MODEL_SANDY, CPU_MODEL_IVY and CPU_MODEL_HASWELL.
abbrev pub has_pp1 : ℤ → Bool
has_pp1 m = eqb_ℤ m (pos 42) || (eqb_ℤ m (pos 58) || eqb_ℤ m (pos 60))

-- (double)msr * unit
abbrev pub in_units : {D : Type 0} → Doubles D → D → ℕ → D
in_units fl unit raw = fl.mul (fl.of_int (signed64 raw)) unit

module _ {D W : Type 0} (fl : Doubles D) (sys : System W) (fd : ℕ) (model : ℤ)
    (units : Units D) where
  pub read_energy : ℕ → Sample D → Try W (Sample D)
  read_energy reg s = do
    raw ← sys.pread fd reg
    give (record s { energy = in_units fl units.energy raw })

  pub read_policy : ℕ → Sample D → Try W (Sample D)
  read_policy reg s = do raw ← sys.pread fd reg; give (record s { policy = msr raw 0 0x1f })

  pub read_perf : ℕ → Sample D → Try W (Sample D)
  read_perf reg s =
      if has_perf_status model
      then (do raw ← sys.pread fd reg; give (record s { time = in_units fl units.time raw }))
      else give s

  unfoldable pub gather : Layer → Sample D → Try W (Sample D)
  unfolding read_energy read_policy read_perf
  gather Layer.invalid s = give s
  gather Layer.pkg s = do s' ← read_energy 0x611 s; read_perf 0x613 s'
  gather Layer.pp0 s = do s' ← read_energy 0x639 s; s'' ← read_policy 0x63a s'; read_perf 0x63b s''
  gather Layer.pp1 s =
      if has_pp1 model
      then (do s' ← read_energy 0x641 s; read_policy 0x642 s')
      else read_energy 0x619 s
