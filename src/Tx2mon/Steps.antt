-- ===== src/Tx2mon/Steps.antt =====
-- Proofs about src/plugins/pwr_tx2mon.c: calls of the program between the steps of the thread.
use pwrapi_ref.Prelude.{ℕ, ◌<◌, ◌≡◌, ◌⊎◌, none, some, get_elem?}
use pwrapi_ref.Prelude.Int.{pos}
use pwrapi_ref.Prelude.Doubles.{Doubles}
use pwrapi_ref.Types.{ObjType}
use pwrapi_ref.Tx2mon.Region.{System, FdInfo, Monitor, State}
use pwrapi_ref.Tx2mon.Sampling.{Thread}
use pwrapi_ref.Tx2mon.Registered.{Registered}

-- A descriptor that the thread took: it has been freed since, or it is open for a socket there is.
abbrev pub Open : {D : Type 0} → Monitor D → ℕ → Type 0
Open {D} m h =
    (f : FdInfo D) × (j : ℕ) × (get_elem? m.fds h ≡ some (some f))
    × (f.obj_type ≡ ObjType.socket)
    × (f.id ≡ pos j)
    × (j < m.nodes)

abbrev pub Freed : {D : Type 0} → Monitor D → ℕ → Type 0
Freed m h = get_elem? m.fds h ≡ some none

abbrev pub Held : {D : Type 0} → Monitor D → ℕ → Type 0
Held m h = Freed m h ⊎ Open m h

-- What the thread has in its hand is such a descriptor.
abbrev pub Ready : {D : Type 0} → Monitor D → Thread D → Type 0
Ready m Thread.asleep = Unit {0}
Ready m (Thread.at_entry now i) = Unit {0}
Ready m (Thread.holding now i h) = Held m h
Ready m (Thread.measured now i h value) = Held m h

-- It has been freed.
abbrev pub HasFreed : {D : Type 0} → Monitor D → Thread D → Type 0
HasFreed m Thread.asleep = ⊥
HasFreed m (Thread.at_entry now i) = ⊥
HasFreed m (Thread.holding now i h) = Freed m h
HasFreed m (Thread.measured now i h value) = Freed m h

module _ {D W : Type 0} (fl : Doubles D) (sys : System D W) (junk : D) where
  -- The descriptors that are sampled are in place, and so is what the thread has in its hand.
  abbrev pub IsSound : Thread D × State sys → Type 0
  IsSound x = Registered x.1.0 × Ready x.1.0 x.0
