-- ===== src/Rapl/Packages.antt =====
-- src/plugins/pwr_rapldev.c: `pwr_rapldev_init` counts the packages, and `pwr_rapldev_open` finds one.
use pwrapi_ref.Prelude.{
  ℕ, zero, suc, ◌+◌, Option, none, some, List, [], ◌∷◌, ◌++◌, Outcome, returns, aborts, faults,
  ◌>>=◌, ◌>>◌, assert, in_bounds, if◌then◌else◌, ltb, length,
}
use pwrapi_ref.Prelude.Int.{ℤ, pos, ltb_ℤ, sub_ℕ, at_index}
use pwrapi_ref.Prelude.Io.{Io}
use pwrapi_ref.Types.{ObjType}
use pwrapi_ref.Rapl.Device.{Device}

pub data Layer : Type 0 where
  invalid pkg pp0 pp1 : Layer

-- INTEL_LAYER_DRAM has the value of INTEL_LAYER_PP1.
abbrev pub dram : Layer
dram = Layer.pp1

-- A package that could not be started is kept, as a null pointer.
module _ {D W : Type 0} (start : ℕ → Io W (Option (Device D))) (package_id : ℕ → Option ℤ) where
  -- One processor with a package number: `pkgs` holds the packages so far.
  unfoldable pub count_cpu :
      ℤ → List (Option (Device D)) → Io W (Outcome (List (Option (Device D))))
  count_cpu id pkgs w =
      if ltb_ℤ (sub_ℕ (length pkgs) 1) id
      then (if ltb (length pkgs) 8
          then (let (dev, w') = start (length pkgs) w in (returns (pkgs ++ dev ∷ []), w'))
          else (aborts, w))
      else (returns pkgs, w)

  -- What one processor left is carried to the next, unless the process stopped.
  abbrev pub next_cpu : {A : Type 0} → Outcome A → (A → Io W (Outcome A)) → Io W (Outcome A)
  next_cpu (returns pkgs) rest w = rest pkgs w
  next_cpu aborts rest w = (aborts, w)
  next_cpu faults rest w = (faults, w)

  -- `left` processor numbers from `i` on: the loop stops at the first that has no file.
  unfoldable pub count_cpus :
      ℕ → ℕ → List (Option (Device D)) → Io W (Outcome (List (Option (Device D))))
  count_cpus zero i pkgs w = (returns pkgs, w)
  count_cpus (suc left) i pkgs w = elim (package_id i) [
    | none ↦ (returns pkgs, w)
    | some id ↦ let (o, w') = count_cpu id pkgs w in next_cpu o (λ p. count_cpus left (i + 1) p) w'
  ]

  abbrev pub assert_some : Outcome (List (Option (Device D))) → Outcome (List (Option (Device D)))
  assert_some (returns pkgs) = if ltb 0 (length pkgs) then returns pkgs else aborts
  assert_some aborts = aborts
  assert_some faults = faults

  unfoldable pub init : Io W (Outcome (List (Option (Device D))))
  init w = let (o, w') = count_cpus 512 0 [] w in (assert_some o, w')

-- `dev` is the pointer from `pkgs`, and `layers` the part of the array that `numLayers` counts; it is
-- `none` where the switch leaves `numLayers` unset, in memory from `malloc`.
pub record Descriptor (D : Type 0) : Type 0 where
  pub dev : Option (Device D)
  pub layers : Option (List Layer)

abbrev pub open_layers : ObjType → Option (List Layer)
open_layers ObjType.socket = some (Layer.pp0 ∷ Layer.pp1 ∷ [])
open_layers ObjType.mem = some (dram ∷ [])
open_layers _ = none

-- The type and the index are those that `sscanf` finds in the open string. The assertion lets a
-- negative index through.
unfoldable pub open_package :
    {D : Type 0} → List (Option (Device D)) → ObjType → ℤ → Outcome (Descriptor D)
open_package pkgs type index = do
  assert (ltb_ℤ index (pos (length pkgs)))
  dev ← in_bounds (at_index pkgs index)
  returns (record { dev = dev; layers = open_layers type })
