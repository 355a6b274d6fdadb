-- ===== src/Tx2mon/Registry.antt =====
-- src/plugins/pwr_tx2mon.c: opening and closing. A descriptor of a socket is entered for the thread that
-- samples energy.
use pwrapi_ref.Prelude.{
  ℕ, Bool, true, false, Option, none, some, List, [], ◌∷◌, ◌++◌, Outcome, returns, faults, ◌>>=◌,
  if◌then◌else◌, ltb, length, get_elem?, set,
}
use pwrapi_ref.Prelude.Int.{ℤ, pos, negsuc}
use pwrapi_ref.Prelude.Doubles.{Doubles}
use pwrapi_ref.Types.{ObjType}
use pwrapi_ref.Tx2mon.Region.{FdInfo, Monitor}

abbrev pub set_at {ℓ} : {A : Type ℓ} → List A → ℤ → A → Outcome (List A)
set_at xs (negsuc n) v = faults
set_at xs (pos i) v = if ltb i (length xs) then returns (set xs i v) else faults

abbrev pub is_socket : ObjType → Bool
is_socket ObjType.socket = true
is_socket _ = false

-- The descriptor at a pointer, which must not have been freed.
abbrev pub alive {ℓ} : {A : Type ℓ} → Option (Option A) → Outcome A
alive none = faults
alive (some none) = faults
alive (some (some f)) = returns f

abbrev pub deref : {D : Type 0} → Monitor D → ℕ → Outcome (FdInfo D)
deref m h = alive (get_elem? m.fds h)

-- What `pwr_tx2mon_dev_open` and `pwr_tx2mon_dev_close` do to the array of sampled descriptors.
abbrev pub register : Bool → List (Option ℕ) → ℤ → Option ℕ → Outcome (List (Option ℕ))
register true objs id h = set_at objs id h
register false objs id h = returns objs

module _ {D : Type 0} (fl : Doubles D) where
  -- The type and the number are those that `sscanf` finds in the open string.
  unfoldable pub open_device : ObjType → ℤ → Monitor D → Outcome (ℕ × Monitor D)
  open_device type id m = do
    objs ← register (is_socket type) m.energy_objs id (some (length m.fds))
    returns (
      length m.fds,
      record m {
        energy_objs = objs;
        fds = m.fds ++ some (record { obj_type = type; id = id; energy = fl.of_int (pos 0) }) ∷ [];
      },
    )

unfoldable pub close_device : {D : Type 0} → ℕ → Monitor D → Outcome (Monitor D)
close_device h m = do
  f ← deref m h
  objs ← register (is_socket f.obj_type) m.energy_objs f.id none
  returns (record m { energy_objs = objs; fds = set m.fds h none })
