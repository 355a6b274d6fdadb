-- ===== src/Tests/TxRuns.antt =====
-- Runs of the plugin for the monitor of the ThunderX2.
use pwrapi_ref.Prelude.{
  ℕ, ◌+◌, ◌*◌, ◌≡◌, refl, true, faults, none, some, List, [], ◌∷◌, returns, arith, set,
}
use pwrapi_ref.Prelude.Int.{ℤ, pos}
use pwrapi_ref.Types.{ObjType, AttrName, ret_success}
use pwrapi_ref.Tx2mon.Region.{Region, System, Monitor}
use pwrapi_ref.Tx2mon.Read.{read_core, read_dev}
use pwrapi_ref.Tx2mon.Sampling.{Event, Thread, thread_step}
use pwrapi_ref.Tx2mon.Registered.{Registered}
use pwrapi_ref.Tx2mon.Cores.{time_of, read_core-entry}
use pwrapi_ref.Tests.Fixtures.{whole}

abbrev quiet : Region
quiet = record {
  freq_cpu = pos 2000 ∷ pos 2001 ∷ [];
  tmon_cpu = pos 300 ∷ pos 301 ∷ [];
  freq_socs = pos 1000;
  tmon_soc_avg = pos 299;
  pwr_core = pos 10;
  pwr_sram = pos 20;
  pwr_mem = pos 30;
  pwr_soc = pos 40;
  v_soc = pos 800;
}

-- The world is the time; the buffers stay as they are.
abbrev machine : System ℤ ℕ
machine = record {
  refresh = λ node region w. (region, w);
  clock = λ w. (pos w, w + 1);
  to_c = λ n. n;
}

-- Two sockets with two cores each, just started.
abbrev fresh_monitor : Monitor ℤ
fresh_monitor = record {
  nodes = 2;
  cores = 2;
  buf = quiet ∷ quiet ∷ [];
  energy_objs = none ∷ none ∷ [];
  last_sample = pos 0;
  fds = [];
}

-- Socket 1 is opened. In its second round the thread takes the descriptor, and then the socket is closed.
abbrev history : List (Event ℤ)
history =
    Event.opens ObjType.socket (pos 1)
    ∷ Event.steps
    ∷ Event.steps
    ∷ Event.steps
    ∷ Event.steps
    ∷ Event.steps
    ∷ Event.steps
    ∷ Event.steps
    ∷ Event.closes 0
    ∷ []

abbrev left_over : Monitor ℤ
left_over = record fresh_monitor { last_sample = pos 7; fds = none ∷ [] }

abbrev in_hand : Thread ℤ
in_hand = Thread.holding (pos 8) 1 0

-- So the thread uses a freed descriptor.
race : thread_step whole machine (pos 0) in_hand (left_over, 9) ≡ faults
unfolding thread_step read_dev
race = refl

read_core-entry_example :
    read_core whole machine true (pos (1 * 2 + 1)) AttrName.freq 8 (fresh_monitor, 7)
    ≡ returns (
      record {
        status = ret_success;
        value = some (pos 2001);
        stamp = (time_of whole machine true 7).0;
      },
      (
        record fresh_monitor { buf = set fresh_monitor.buf 1 quiet },
        (time_of whole machine true 7).1,
      ),
    )
read_core-entry_example =
    read_core-entry whole machine true 1 1 fresh_monitor 7 quiet (pos 2001) (omega arith)
      (omega arith) refl refl
