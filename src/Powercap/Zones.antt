-- ===== src/Powercap/Zones.antt =====
-- src/plugins/pwr_powercap.c: how the packages and zones are found and where their counters start.
use pwrapi_ref.Prelude.{
  ℕ, zero, suc, ◌+◌, Option, none, some, List, [], ◌∷◌, ◌++◌, Outcome, returns, aborts, ◌>>=◌, ◌==◌,
  if◌then◌else◌,
}
use pwrapi_ref.Prelude.Int.{ℤ}
use pwrapi_ref.Powercap.Paths.{
  Text, codes, find_num_zones, numbered_name, zones_prefix, zone_directory, root_prefix,
  package_directory,
}

pub record Zone : Type 0 where
  pub name : Text
  pub energy : Text
  pub start_value : ℤ

-- `zones` is the array that `numZones` counts.
pub record Package : Type 0 where
  pub zone : Zone
  pub zones : List Zone

-- The files: a name file or a counter that cannot be opened is `none`. They are read once at the
-- start, so here they are functions of their path; `fuel` bounds the loops over files, which C leaves
-- unbounded.
pub record Files : Type 0 where
  pub dec : ℕ → Text
  pub name : Text → Option Text
  pub counter : Text → Option ℤ
  pub fuel : ℕ

-- assert(fp)
abbrev pub opened {ℓ} : {A : Type ℓ} → Option A → Outcome A
opened none = aborts
opened (some a) = returns a

module _ (fs : Files) where
  -- `none` stands for a directory with more entries than the fuel.
  unfoldable pub count_zones : Text → Option ℕ
  count_zones prefix = find_num_zones (λ num. fs.name (numbered_name fs.dec prefix num)) fs.fuel 0

  unfoldable pub init_zone : Text → Outcome Zone
  init_zone prefix = do
    name ← opened (fs.name (prefix ++ codes "/name"))
    value ← opened (fs.counter (prefix ++ codes "/energy_uj"))
    returns (record { name = name; energy = prefix ++ codes "/energy_uj"; start_value = value })

  -- The zones i, i + 1, … of a package, `left` of them.
  unfoldable pub init_zones : ℕ → Text → ℕ → ℕ → Outcome (List Zone)
  init_zones pkg prefix zero i = returns []
  init_zones pkg prefix (suc left) i = do
    z ← init_zone (zone_directory fs.dec prefix pkg i)
    zs ← init_zones pkg prefix left (i + 1)
    returns (z ∷ zs)

  -- The package's own name and counter are read as those of a zone are. Where the count does not come
  -- to an end the call does not return; that is reported as a stop.
  unfoldable pub init_package : ℕ → Text → Outcome Package
  init_package num prefix = do
    z ← init_zone prefix
    n ← opened (count_zones (zones_prefix fs.dec prefix))
    zs ← init_zones num prefix n 0
    returns (record { zone = z; zones = zs })

  unfoldable pub init_packages : ℕ → ℕ → Outcome (List Package)
  init_packages zero i = returns []
  init_packages (suc left) i = do
    p ← init_package i (package_directory fs.dec i)
    ps ← init_packages left (i + 1)
    returns (p ∷ ps)

  -- With no package the plugin returns a null pointer.
  unfoldable pub init : Outcome (Option (List Package))
  init = do
    n ← opened (count_zones root_prefix)
    ps ← init_packages n 0
    returns (if n == 0 then none else some ps)
