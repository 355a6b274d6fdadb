-- ===== src/Xtpm/Device.antt =====
-- src/plugins/pwr_xtpmdev.c: opening, reading and writing. The descriptor is part of the state, since a
-- read changes the generation that it keeps.
use Prim.Native.String.{String}
use pwrapi_ref.Prelude.{
  ℕ, Bool, true, false, not, Option, none, some, List, Outcome, returns, aborts, faults, ◌==◌,
  if◌then◌else◌,
}
use pwrapi_ref.Prelude.Int.{ℤ, pos}
use pwrapi_ref.Prelude.Io.{Io}
use pwrapi_ref.Prelude.Doubles.{Doubles}
use pwrapi_ref.Types.{AttrName, ret_success, ret_failure, double_size}
use pwrapi_ref.Plugin.{Reading, Arrays, readv}
use pwrapi_ref.Counter.{Text, File, read_text}

-- The files under /sys/cray/pm_counters (`none` if one cannot be opened), the writes to them, the
-- wall clock in nanoseconds and `atof`.
pub record System (D W : Type 0) : Type 0 where
  pub file : String → Io W (Option File)
  pub put : String → D → Io W Bool
  pub clock : Io W ℤ
  pub atof : Text → D

-- `dev` says that the pointer is not null.
pub record Descriptor (D : Type 0) : Type 0 where
  pub dev : Bool
  pub generation : D

module _ {D W : Type 0} (fl : Doubles D) (sys : System D W) where
  abbrev pub parsed : Outcome (Option Text) → Outcome (Option D)
  parsed (returns none) = returns none
  parsed (returns (some t)) = returns (some (sys.atof t))
  parsed aborts = aborts
  parsed faults = faults

  abbrev pub contents : Option File → Outcome (Option D)
  contents none = returns none
  contents (some t) = parsed (read_text t)

  -- `xtpmdev_read`: `none` for a return of -1.
  unfoldable pub counter : String → Io W (Outcome (Option D))
  counter name w = let (f, w') = sys.file name w in (contents f, w')

  abbrev pub zero_double : D
  zero_double = fl.of_int (pos 0)

  -- What `pwr_xtpmdev_open` makes of the generation.
  abbrev pub opened : Outcome (Option D) → Outcome (Descriptor D)
  opened (returns (some g)) = returns (record { dev = true; generation = g })
  opened (returns none) = returns (record { dev = false; generation = zero_double })
  opened aborts = aborts
  opened faults = faults

  unfoldable pub open_device : Io W (Outcome (Descriptor D))
  open_device w = let (g, w') = counter "generation" w in (opened g, w')

  -- The counter that the switch of the read takes.
  abbrev pub counter_name : AttrName → Option String
  counter_name AttrName.energy = some "energy"
  counter_name AttrName.power = some "power"
  counter_name AttrName.power_limit_max = some "power_cap"
  counter_name _ = none

  abbrev pub failed : Option D → Option ℤ → Reading D
  failed value stamp = record { status = ret_failure; value = value; stamp = stamp }

  -- The state of a read is the descriptor and the world.
  abbrev pub State : Type 0
  State = Descriptor D × W

  -- The end of a read: the value and the timestamp are already stored when the generation is read.
  unfoldable pub settle : Option D → ℤ → Outcome (Option D) → Io State (Outcome (Reading D))
  settle value now (returns none) s = (returns (failed value (some now)), s)
  settle value now (returns (some g)) (d, w) = (
    returns (record { status = ret_success; value = value; stamp = some now }),
    (if fl.eq d.generation g then d else record d { generation = g }, w),
  )
  settle value now aborts s = (aborts, s)
  settle value now faults s = (faults, s)

  unfoldable pub check_generation : Option D → Io State (Outcome (Reading D))
  unfolding settle
  check_generation value (d, w) =
      let (now, w1) = sys.clock w in
      let (g, w2) = counter "generation" w1 in settle value now g (d, w2)

  -- What the counter of the attribute gave.
  unfoldable pub stored : Outcome (Option D) → Io State (Outcome (Reading D))
  unfolding check_generation
  stored (returns none) s = (returns (failed none none), s)
  stored (returns (some v)) s = check_generation (some v) s
  stored aborts s = (aborts, s)
  stored faults s = (faults, s)

  unfoldable pub read_counter : Option String → Io State (Outcome (Reading D))
  unfolding stored
  read_counter none s = check_generation none s
  read_counter (some name) (d, w) = let (v, w') = counter name w in stored v (d, w')

  -- A null device is answered before the length is looked at.
  unfoldable pub read : AttrName → ℕ → Io State (Outcome (Reading D))
  unfolding read_counter
  read attr len s =
      if not s.0.dev
      then (returns (record { status = pos 0; value = some zero_double; stamp = none }), s)
      else if len == double_size
      then read_counter (counter_name attr) s
      else (returns (failed none none), s)

  unfoldable pub readv_arrays : ℕ → List AttrName → Arrays D → Io State (Outcome (Arrays D))
  readv_arrays = readv (λ attr. read attr double_size)

  -- Only the power cap is written; any other attribute is answered with success.
  unfoldable pub write_attr : AttrName → D → Io W ℤ
  write_attr AttrName.power_limit_max value w =
      let (ok, w') = sys.put "power_cap" value w in (if ok then ret_success else ret_failure, w')
  write_attr _ value w = (ret_success, w)

  unfoldable pub write : Descriptor D → AttrName → D → ℕ → Io W ℤ
  unfolding write_attr
  write d attr value len w =
      if not d.dev
      then (ret_failure, w)
      else if len == double_size
      then write_attr attr value w
      else (ret_failure, w)
