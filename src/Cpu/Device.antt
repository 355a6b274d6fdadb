-- ===== src/Cpu/Device.antt =====
-- src/plugins/pwr_cpudev.c: reading and writing the attributes of one processor.
use Prim.Native.String.{String}
use pwrapi_ref.Prelude.{
  ℕ, Bool, Option, none, some, List, [], ◌∷◌, Outcome, returns, aborts, faults, ◌==◌, if◌then◌else◌,
}
use pwrapi_ref.Prelude.Int.{ℤ, pos, negsuc}
use pwrapi_ref.Prelude.Io.{Io}
use pwrapi_ref.Prelude.Doubles.{Doubles}
use pwrapi_ref.Types.{AttrName, double_size}
use pwrapi_ref.Plugin.{Reading, Arrays, readv}
use pwrapi_ref.Counter.{Text, File, read_text}

-- The files below /sys/devices/system/cpu/cpuN (`none` if one cannot be opened), the writes to them, the
-- wall clock in nanoseconds and `atof`.
pub record System (D W : Type 0) : Type 0 where
  pub file : ℤ → String → Io W (Option File)
  pub put : ℤ → String → D → Io W Bool
  pub clock : Io W ℤ
  pub atof : Text → D

-- What a write gives back: its status, and what it stores in the value of its caller.
pub record Written (D : Type 0) : Type 0 where
  pub status : ℤ
  pub value : Option D

module _ {D W : Type 0} (fl : Doubles D) (sys : System D W) where
  abbrev pub parsed : Outcome (Option Text) → Outcome (Option D)
  parsed (returns none) = returns none
  parsed (returns (some t)) = returns (some (sys.atof t))
  parsed aborts = aborts
  parsed faults = faults

  abbrev pub contents : Option File → Outcome (Option D)
  contents none = returns none
  contents (some t) = parsed (read_text t)

  -- `cpudev_read`: `none` for a return of -1.
  unfoldable pub cpu_file : ℤ → String → Io W (Outcome (Option D))
  cpu_file cpu name w = let (f, w') = sys.file cpu name w in (contents f, w')

  -- (unsigned long long)0 has the bits of 0.0.
  abbrev pub zero_bits : D
  zero_bits = fl.of_int (pos 0)

  -- The end of a read that did not fail.
  abbrev pub stamped : Option D → Io W (Outcome (Reading D))
  stamped value w =
      let (now, w') = sys.clock w in
      (returns (record { status = pos 0; value = value; stamp = some now }), w')

  abbrev pub refusal : Reading D
  refusal = record { status = negsuc 0; value = none; stamp = none }

  abbrev pub from_file : Outcome (Option D) → Io W (Outcome (Reading D))
  from_file (returns none) w = (returns refusal, w)
  from_file (returns (some v)) w = stamped (some v) w
  from_file aborts w = (aborts, w)
  from_file faults w = (faults, w)

  unfoldable pub read_attr : ℤ → AttrName → Io W (Outcome (Reading D))
  read_attr cpu AttrName.pstate w = stamped (some zero_bits) w
  read_attr cpu AttrName.cstate w = stamped (some zero_bits) w
  read_attr cpu AttrName.sstate w = let (v, w') = cpu_file cpu "online" w in from_file v w'
  read_attr cpu AttrName.freq w = let (v, w') = cpu_file cpu "cpufreq" w in from_file v w'
  read_attr cpu AttrName.temp w = stamped (some zero_bits) w
  read_attr cpu _ w = stamped none w

  unfoldable pub read : ℤ → AttrName → ℕ → Io W (Outcome (Reading D))
  unfolding read_attr
  read cpu attr len w = if len == double_size then read_attr cpu attr w else (returns refusal, w)

  unfoldable pub readv_arrays : ℤ → ℕ → List AttrName → Arrays D → Io W (Outcome (Arrays D))
  readv_arrays cpu = readv (λ attr. read cpu attr double_size)

  unfoldable pub read_time : ℤ → Io W (Outcome (Reading D))
  read_time cpu = read cpu AttrName.freq double_size

  abbrev pub put_file : ℤ → String → D → Io W (Written D)
  put_file cpu name value w =
      let (ok, w') = sys.put cpu name value w in
      (record { status = if ok then pos 0 else negsuc 0; value = none }, w')

  abbrev pub cleared_value : Written D
  cleared_value = record { status = pos 0; value = some zero_bits }

  -- The three attributes with no file store a zero in the value that was to be written.
  unfoldable pub write_attr : ℤ → AttrName → D → Io W (Written D)
  write_attr cpu AttrName.pstate value w = (cleared_value, w)
  write_attr cpu AttrName.cstate value w = (cleared_value, w)
  write_attr cpu AttrName.sstate value w = put_file cpu "online" value w
  write_attr cpu AttrName.freq value w = put_file cpu "cpufreq" value w
  write_attr cpu AttrName.temp value w = (cleared_value, w)
  write_attr cpu _ value w = (record { status = pos 0; value = none }, w)

  unfoldable pub write : ℤ → AttrName → D → ℕ → Io W (Written D)
  unfolding write_attr
  write cpu attr value len w =
      if len == double_size
      then write_attr cpu attr value w
      else (record { status = negsuc 0; value = none }, w)

  -- The loop of `pwr_cpudev_writev`: each value as the write leaves it, with its status.
  unfoldable pub writev_slots : ℤ → List (AttrName × D) → Io W (List (Written D))
  writev_slots cpu [] w = ([], w)
  writev_slots cpu ((attr, value) ∷ slots) w =
      let (r, w1) = write cpu attr value double_size w in
      let (rest, w2) = writev_slots cpu slots w1 in (r ∷ rest, w2)

-- `pwr_cpudev_numAttrs` and `pwr_cpudev_readAttrs`, and the two calls for objects with one core.
abbrev pub offered : List AttrName
offered = AttrName.sstate ∷ AttrName.freq ∷ []
