-- ===== src/Tx2mon/Sampling.antt =====
-- src/plugins/pwr_tx2mon.c: `energy`, which the thread runs after every sleep, and the calls of the
-- plugin in the order in which the thread and the program happen to make them.
use pwrapi_ref.Prelude.{
  ℕ, zero, suc, ◌+◌, Bool, false, Option, none, some, List, [], ◌∷◌, Outcome, returns, ◌>>=◌,
  in_bounds, if◌then◌else◌, get_elem?, set, ltb,
}
use pwrapi_ref.Prelude.Int.{ℤ, pos}
use pwrapi_ref.Prelude.Doubles.{Doubles}
use pwrapi_ref.Types.{ObjType, AttrName, double_size}
use pwrapi_ref.Plugin.{written}
use pwrapi_ref.Tx2mon.Region.{System, FdInfo, Monitor, State}
use pwrapi_ref.Tx2mon.Registry.{deref, open_device, close_device}
use pwrapi_ref.Tx2mon.Read.{read_dev}

pub data Event (D : Type 0) : Type 0 where
  opens : ObjType → ℤ → Event D
  closes : ℕ → Event D
  reads : Bool → ℕ → AttrName → D → ℕ → Event D
  steps : Event D

-- Where the thread stands: between two rounds; in a round that began at a time, before an entry of the
-- array; with the descriptor of the entry in its hand; and with the power that it read through it.
pub data Thread (D : Type 0) : Type 0 where
  asleep : Thread D
  at_entry : D → ℕ → Thread D
  holding : D → ℕ → ℕ → Thread D
  measured : D → ℕ → ℕ → D → Thread D

module _ {D W : Type 0} (fl : Doubles D) (sys : System D W) where
  -- fd->energy += (now - devInfo->lastSample) * value
  abbrev pub gain : D → D → D → FdInfo D → FdInfo D
  gain now last value f = record f { energy = fl.add f.energy (fl.mul (fl.sub now last) value) }

  -- The variable `value` of the loop starts with no value of its own: `junk` is what it holds.
  unfoldable pub add_sample : D → D → ℕ → State sys → Outcome (State sys)
  add_sample junk now h s = do
    (r, (m, w)) ← read_dev fl sys false h AttrName.power junk double_size s
    f ← deref m h
    returns
        (record m { fds = set m.fds h (some (gain now m.last_sample (written r.value junk) f)) }, w)

  abbrev pub sample_entry : D → D → Option ℕ → State sys → Outcome (State sys)
  sample_entry junk now none s = returns s
  sample_entry junk now (some h) s =
      if fl.eq s.0.last_sample (fl.of_int (pos 0)) then returns s else add_sample junk now h s

  unfoldable pub sample_nodes : D → D → ℕ → ℕ → State sys → Outcome (State sys)
  sample_nodes junk now zero i s = returns s
  sample_nodes junk now (suc left) i s = do
    entry ← in_bounds (get_elem? s.0.energy_objs i)
    s' ← sample_entry junk now entry s
    sample_nodes junk now left (i + 1) s'

  -- A round with nothing in between.
  unfoldable pub sample : D → State sys → Outcome (State sys)
  sample junk (m, w) = do
    let (now, w') = sys.clock w
    (m', v) ← sample_nodes junk now m.nodes 0 (m, w')
    returns (record m' { last_sample = now }, v)

  -- `if ( fd && devInfo->lastSample )`.
  abbrev pub take_entry : D → ℕ → Option ℕ → Monitor D → Thread D
  take_entry now i none m = Thread.at_entry now (suc i)
  take_entry now i (some h) m =
      if fl.eq m.last_sample (fl.of_int (pos 0))
      then Thread.at_entry now (suc i)
      else Thread.holding now i h

  -- The same round step by step. There is no lock, so calls of the program may come between two steps:
  -- the thread takes a descriptor from the array, reads through it and adds to its energy.
  unfoldable pub thread_step : D → Thread D → State sys → Outcome (Thread D × State sys)
  thread_step junk Thread.asleep (m, w) =
      let (now, w') = sys.clock w in returns (Thread.at_entry now 0, (m, w'))
  thread_step junk (Thread.at_entry now i) (m, w) =
      if ltb i m.nodes
      then (in_bounds (get_elem? m.energy_objs i) >>= λ entry.
          returns (take_entry now i entry m, (m, w)))
      else returns (Thread.asleep, (record m { last_sample = now }, w))
  thread_step junk (Thread.holding now i h) s =
      read_dev fl sys false h AttrName.power junk double_size s >>= λ x.
      returns (Thread.measured now i h (written x.0.value junk), x.1)
  thread_step junk (Thread.measured now i h value) (m, w) = deref m h >>= λ f. returns (
    Thread.at_entry now (suc i),
    (record m { fds = set m.fds h (some (gain now m.last_sample value f)) }, w),
  )

  -- One call of the program, or one step of the thread.
  unfoldable pub happen : D → Event D → Thread D × State sys → Outcome (Thread D × State sys)
  happen junk (opens type id) (t, (m, w)) = open_device fl type id m >>= λ x. returns (t, (x.1, w))
  happen junk (closes h) (t, (m, w)) = close_device h m >>= λ m'. returns (t, (m', w))
  happen junk (reads timed h attr old len) (t, s) =
      read_dev fl sys timed h attr old len s >>= λ x. returns (t, x.1)
  happen junk steps (t, s) = thread_step junk t s

  unfoldable pub run : D → List (Event D) → Thread D × State sys → Outcome (Thread D × State sys)
  run junk [] s = returns s
  run junk (e ∷ events) s = do s' ← happen junk e s; run junk events s'
