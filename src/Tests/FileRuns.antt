-- ===== src/Tests/FileRuns.antt =====
-- Runs of the counters in small files, of the XTPM plugin and of the recognition of the processor.
use pwrapi_ref.Prelude.{
  false, ℕ, ◌+◌, ◌≡◌, ◌⊎◌, refl, true, some, [], ◌∷◌, ◌++◌, returns, faults, arith, All, replicate,
}
use pwrapi_ref.Prelude.Int.{ℤ, pos, negsuc}
use pwrapi_ref.Types.{AttrName}
use pwrapi_ref.Counter.{Text, blank, read_text}
use pwrapi_ref.Counter.Blanks.{read_text-faults}
use pwrapi_ref.Cpuinfo.{identify}
use pwrapi_ref.Cpuinfo.Accepted.{Allows, identify-Allows}
use pwrapi_ref.Rapl.Device.{supported, rules}
use pwrapi_ref.Xtpm.Device.{System, Descriptor, counter, read}
use pwrapi_ref.Xtpm.Generations.{Follows, read-generation}
use pwrapi_ref.Tests.Fixtures.{whole, intel, intel_scan}

-- "250 J" and "250" with a line feed.
abbrev with_unit : Text
with_unit = (50 ∷ 53 ∷ 48 ∷ []) ++ blank ∷ 74 ∷ []

read_text-faults_example :
    read_text (record { bytes = 50 ∷ 53 ∷ 48 ∷ 10 ∷ []; fails = false }) ≡ faults
read_text-faults_example = read_text-faults (50 ∷ 53 ∷ 48 ∷ 10 ∷ []) (omega arith)

identify-Allows_example :
    All (Allows rules intel_scan) intel × ((supported (pos 45) ≡ true) ⊎ (pos 45 ≡ negsuc 0))
unfolding identify
identify-Allows_example = identify-Allows rules intel_scan (pos 0) intel refl

-- The world is the reading of the generation counter; each file that is read adds one to it.
abbrev cray : System ℤ ℕ
cray = record {
  file = λ name w. (some (record { bytes = replicate w 49 ++ blank ∷ []; fails = false }), w + 1);
  put = λ name value w. (true, w);
  clock = λ w. (pos w, w);
  atof = λ t. pos (length_of t);
}
  where
    length_of : Text → ℕ
    length_of [] = 0
    length_of (c ∷ t) = length_of t + 1

abbrev opened_at_two : Descriptor ℤ
opened_at_two = record { dev = true; generation = pos 3 }

read-generation_example :
    (g : ℤ) × (v : ℕ) × ((counter whole cray "generation" v).0 ≡ returns (some g))
    × Follows whole cray opened_at_two g (read whole cray AttrName.energy 8 (opened_at_two, 3)).1.0
unfolding read counter read_text
read-generation_example =
    read-generation whole cray AttrName.energy 8 opened_at_two 3 refl refl refl
