-- ===== src/Powercap/Release.antt =====
-- src/plugins/pwr_powercap.c: `powercap_dev_final`, with the allocated blocks as a set of addresses.
use pwrapi_ref.Prelude.{
  ℕ, zero, suc, Bool, false, List, [], ◌∷◌, Outcome, returns, faults, ◌>>=◌, ◌==◌, if◌then◌else◌,
}

abbrev pub Blocks : Type 0
Blocks = ℕ → Bool

-- What the release needs of a package: the address of its zones, and their number.
pub record Zoned : Type 0 where
  pub zones : ℕ
  pub num_zones : ℕ

-- `free` of a block that is not allocated has no defined behaviour.
unfoldable pub free : Blocks → ℕ → Outcome Blocks
free live a = if live a then returns (λ b. if b == a then false else live b) else faults

-- for ( j = 0; j < numZones; j++ ) free( zones );
unfoldable pub free_times : ℕ → ℕ → Blocks → Outcome Blocks
unfolding free
free_times zero a live = returns live
free_times (suc n) a live = do live' ← free live a; free_times n a live'

unfoldable pub free_packages : List Zoned → Blocks → Outcome Blocks
unfolding free_times
free_packages [] live = returns live
free_packages (p ∷ ps) live = do live' ← free_times p.num_zones p.zones live; free_packages ps live'

-- The arrays of the zones, then the array of the packages, the device information and the operations.
unfoldable pub final : List Zoned → ℕ → ℕ → ℕ → Blocks → Outcome Blocks
unfolding free_packages
final pkgs array info ops live = do
  a ← free_packages pkgs live
  b ← free a array
  c ← free b info
  free c ops
