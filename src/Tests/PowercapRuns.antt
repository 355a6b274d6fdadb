-- ===== src/Tests/PowercapRuns.antt =====
-- Runs of the powercap plugin.
use pwrapi_ref.Prelude.{
  ℕ, ◌+◌, ◌≡◌, refl, Bool, true, false, Option, none, some, List, [], ◌∷◌, ◌++◌, returns, faults,
  arith, inl, inr, if◌then◌else◌, ltb, ◌==◌, length, ◌&&◌, ◌||◌,
}
use pwrapi_ref.Prelude.Int.{ℤ, pos, ◌+ℤ◌, ◌-ℤ◌}
use pwrapi_ref.Types.{ObjType}
use pwrapi_ref.Powercap.Paths.{
  Text, codes, find_suffix, find_num_zones, numbered_name, zones_prefix, zone_directory,
  package_directory,
}
use pwrapi_ref.Powercap.Zones.{
  Zone, Package, Files, init, count_zones, init_packages, init_package, init_zone, init_zones,
}
use pwrapi_ref.Powercap.Energy.{energy_of}
use pwrapi_ref.Powercap.Release.{Blocks, Zoned, final}
use pwrapi_ref.Powercap.Counts.{find_num_zones-eq}
use pwrapi_ref.Powercap.Totals.{energy_of-adds_up, init-reads_zero}
use pwrapi_ref.Powercap.Frees.{final-faults, final-returns}

abbrev same : Text → Text → Bool
same [] [] = true
same [] (d ∷ t) = false
same (c ∷ s) [] = false
same (c ∷ s) (d ∷ t) = (c == d) && same s t

abbrev dram_zone : Zone
dram_zone = record { name = 100 ∷ []; energy = 1 ∷ []; start_value = pos 100 }

abbrev socket : Package
socket = record {
  zone = record { name = 112 ∷ []; energy = 2 ∷ []; start_value = pos 1000 };
  zones = dram_zone ∷ [];
}

abbrev counters : Text → Option ℤ
counters path =
    if same path dram_zone.energy
    then some (pos 130)
    else if same path socket.zone.energy
    then some (pos 1100)
    else none

energy_of-adds_up_example :
    (mem rest : ℤ) × (energy_of counters ObjType.mem socket ≡ returns mem)
    × (energy_of counters ObjType.socket socket ≡ returns rest)
    × (mem +ℤ rest ≡ pos 1100 -ℤ pos 1000)
energy_of-adds_up_example =
    energy_of-adds_up counters socket dram_zone [] (pos 130) (pos 1100) refl refl refl

-- Numbers below ten, and a directory with two entries.
abbrev digit : ℕ → Text
digit n = (48 + n) ∷ []

abbrev two_entries : ℕ → Option Text
two_entries n = if ltb n 2 then some [] else none

find_num_zones-eq_example : find_num_zones two_entries 5 0 ≡ some 2
find_num_zones-eq_example =
    find_num_zones-eq two_entries 2 0 5 (omega arith) (λ j lt. ground arith) refl

-- A system with one package that has one zone.
abbrev directory : Text
directory = package_directory digit 0

abbrev subdirectory : Text
subdirectory = zone_directory digit directory 0 0

abbrev one_package : Files
one_package = record {
  dec = digit;
  name = λ path.
      if same path (directory ++ codes "/name")
        || (same path (subdirectory ++ codes "/name")
            || same path (numbered_name digit (zones_prefix digit directory) 0))
      then some []
      else none;
  counter = λ path. some (pos (length path));
  fuel = 3;
}

abbrev zone_at : Text → Zone
zone_at prefix = record {
  name = [];
  energy = prefix ++ codes "/energy_uj";
  start_value = pos (length (prefix ++ codes "/energy_uj"));
}

abbrev the_package : Package
the_package = record { zone = zone_at directory; zones = zone_at subdirectory ∷ [] }

init-reads_zero_example :
    (energy_of one_package.counter ObjType.mem the_package ≡ returns (pos 0))
    × (energy_of one_package.counter ObjType.socket the_package ≡ returns (pos 0))
unfolding init count_zones find_num_zones init_packages init_package init_zone find_suffix
    init_zones
init-reads_zero_example =
    init-reads_zero one_package (the_package ∷ []) 0 the_package (zone_at subdirectory) [] refl refl
      refl

abbrev three_live : Blocks
three_live a = ltb a 9

abbrev two_zones : List Zoned
two_zones = record { zones = 1; num_zones = 1 } ∷ record { zones = 2; num_zones = 2 } ∷ []

final-faults_example : final two_zones 3 4 5 three_live ≡ faults
final-faults_example = final-faults two_zones 3 4 5 three_live (inr (inl (omega arith)))

abbrev one_zone : List Zoned
one_zone = record { zones = 1; num_zones = 1 } ∷ record { zones = 2; num_zones = 0 } ∷ []

final-returns_example : (l : Blocks) × (final one_zone 3 4 5 three_live ≡ returns l)
final-returns_example = final-returns one_zone 3 4 5 three_live (omega arith) (ground arith)
