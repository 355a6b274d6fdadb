-- ===== src/Tests/RaplRuns.antt =====
-- Runs of the RAPL plugin.
use pwrapi_ref.Prelude.{
  Outcome, ℕ, ◌+◌, ◌<◌, ◌≡◌, ◌≢◌, refl, Option, none, some, List, [], ◌∷◌, returns, arith,
  if◌then◌else◌, ltb, length, get_elem?, ◌⊎◌, inl, inr, Bool-cases, ◌*◌,
}
use pwrapi_ref.Prelude.Int.{ℤ, pos, ◌+ℤ◌, ◌*ℤ◌}
use pwrapi_ref.Prelude.Io.{Io}
use pwrapi_ref.Types.{AttrName}
use pwrapi_ref.Plugin.{Reading, Arrays, readv}
use pwrapi_ref.Prelude.Io.{Io}
use pwrapi_ref.Plugin.Vector.{Slot, arrays, ended, fill, readv-fill}
use pwrapi_ref.Rapl.Device.{System, Units, Limit, Device, decode_limit}
use pwrapi_ref.Rapl.Packages.{Layer, init, count_cpus, count_cpu}
use pwrapi_ref.Rapl.Read.{read, refusal, timestamp, zero_double}
use pwrapi_ref.Rapl.Limits.{Half, register, packed, decode_limit-register}
use pwrapi_ref.Rapl.Counting.{IsDense, Present, init-counts_packages}
use pwrapi_ref.Rapl.Starting.{init-starts_by_index}
use pwrapi_ref.Rapl.Energy.{raw_at, read_leaves, read-sums_layers, read-stamps_zero}
use pwrapi_ref.Tests.Fixtures.{whole, intel, intel_scan}

-- Every register reads as its own offset; the world counts nothing.
abbrev machine : System ℕ
machine = record {
  scan = intel_scan;
  junk = pos 0;
  cpuinfo = λ w. (some intel, w);
  open_msr = λ core w. (some core, w);
  pread = λ fd reg w. (some reg, w);
}

abbrev units : Units ℤ
units = record { power = pos 2; energy = pos 3; time = pos 5 }

abbrev no_limit : Limit ℤ
no_limit = record {
  power1 = pos 0;
  window1 = pos 0;
  enabled1 = 0;
  clamped1 = 0;
  power2 = pos 0;
  window2 = pos 0;
  enabled2 = 0;
  clamped2 = 0;
}

abbrev package_of : ℤ → Device ℤ
package_of model = record {
  fd = 4;
  cpu_model = model;
  units = units;
  power = record { thermal = pos 0; minimum = pos 0; maximum = pos 0; window = pos 0 };
  limit = no_limit;
}

abbrev layers : List Layer
layers = Layer.pp0 ∷ Layer.pp1 ∷ []

read-sums_layers_example :
    (t : ℤ) × ((read whole machine
        (record { dev = some (package_of (pos 42)); layers = some layers })
        AttrName.energy
        8
        9).0
      ≡ returns
          (record { status = pos 0; value = some (pos (0x639 * 3 + 0x641 * 3)); stamp = some t }))
unfolding ◌+ℤ◌ ◌*ℤ◌ raw_at read_leaves
read-sums_layers_example =
    read-sums_layers whole machine (package_of (pos 42)) (λ reg w. (reg, refl)) layers 9

read-stamps_zero_example :
    (r : Reading ℤ) × ((read whole machine
        (record { dev = some (package_of (pos 42)); layers = some layers })
        AttrName.power
        8
        9).0
      ≡ returns r)
    × ((r ≡ refusal whole)
        ⊎ ((r.status ≡ pos 0) × (r.stamp ≡ some (timestamp whole (zero_double whole)))))
read-stamps_zero_example =
    read-stamps_zero whole machine (package_of (pos 42)) refl layers AttrName.power 9

abbrev slots : List (Slot ℤ)
slots =
    record { attr = AttrName.energy; value = pos 1; stamp = pos 2; status = pos 3 }
    ∷ record { attr = AttrName.temp; value = pos 4; stamp = pos 5; status = pos 6 }
    ∷ []

-- The energy and the temperature of a package, into arrays with room for one more.
abbrev package_read : AttrName → Io ℕ (Outcome (Reading ℤ))
package_read attr =
    read whole machine (record { dev = some (package_of (pos 42)); layers = some layers }) attr 8

abbrev room : Arrays ℤ
room = record { values = pos 7 ∷ []; stamps = pos 8 ∷ []; statuses = pos 9 ∷ [] }

readv-fill_example :
    readv package_read 2 (AttrName.energy ∷ AttrName.temp ∷ []) (arrays room slots) 9
    ≡ (ended room [] (fill package_read slots 9).0, (fill package_read slots 9).1)
readv-fill_example = readv-fill package_read slots room 9

abbrev low : Half
low = record { power = 120; enabled = 1; clamped = 0; window = 77; reserved = 3 }

abbrev high : Half
high = record { power = 0x7fff; enabled = 1; clamped = 1; window = 127; reserved = 255 }

decode_limit-register_example :
    decode_limit whole units (register low high) ≡ packed whole units low high
decode_limit-register_example =
    decode_limit-register whole units low high (omega arith) (omega arith)

-- Four processors, two on each package.
abbrev package_id : ℕ → Option ℤ
package_id j = if ltb j 2 then some (pos 0) else if ltb j 4 then some (pos 1) else none

abbrev start : ℕ → Io ℕ (Option (Device ℤ))
start k w = (some (package_of (pos k)), w)

package_id-IsDense : IsDense package_id
package_id-IsDense j p e = (0, ground arith, ground arith)

package_id-small : (j : ℕ) (id : ℤ) → package_id j ≡ some id → (p : ℕ) × (id ≡ pos p) × (p < 8)
package_id-small j id e = elim (Bool-cases (ltb j 2)) [
  | inl first ↦ (0, ground arith, omega arith)
  | inr second ↦ (1, ground arith, omega arith)
]

package_id-first : package_id 0 ≢ none
package_id-first = λ e. cc

package_id-Present : Present package_id 3
package_id-Present j h = ground arith

init-counts_packages_example :
    (r : List (Option (Device ℤ))) × ((init start package_id 5).0 ≡ returns r) × (1 < length r)
init-counts_packages_example =
    init-counts_packages start package_id package_id-IsDense package_id-small package_id-first 5 2 1
      (omega arith) package_id-Present refl

init-starts_by_index_example :
    get_elem? (some (package_of (pos 0)) ∷ some (package_of (pos 1)) ∷ []) 1
    ≡ some (some (package_of (pos 1)))
unfolding init count_cpus count_cpu
init-starts_by_index_example =
    init-starts_by_index start package_id (λ k. some (package_of (pos k))) (λ k w. refl) 5 refl 1
      (omega arith)
