-- ===== src/Apm/Fields.antt =====
-- src/plugins/pwr_apmdev.c: the macros MSR and LMSR, on `unsigned long`, and the two fields that take
-- more than a mask and a shift.
use Prim.Native.Nat.{bit_and, bit_or}
use pwrapi_ref.Prelude.{ℕ, ◌+◌, ◌-◌, ◌*◌, ◌/◌, ◌%◌, ◌^◌, if◌then◌else◌, leb}

-- MSR(X,Y,Z) masks before it shifts.
abbrev pub masked : ℕ → ℕ → ℕ → ℕ
masked x mask shift = bit_and x mask / 2 ^ shift

-- LMSR(X,Y,Z)
abbrev pub raised : ℕ → ℕ → ℕ → ℕ
raised x mask shift = bit_and x mask * 2 ^ shift % 2 ^ 64

-- D18F5xE8[15:0]: the ten high bits are stored below the six low bits.
unfoldable pub tdp_to_watt_bits : ℕ → ℕ
tdp_to_watt_bits raw = bit_or (raised raw 0x03ff 6) (masked raw 0xfc00 10)

abbrev pub complement : ℕ → ℕ
complement x = 2 ^ 64 - 1 - x

abbrev pub negate : ℕ → ℕ
negate x = (2 ^ 64 - x) % 2 ^ 64

-- The running average accumulator as it stands in an `unsigned long` after the test for its sign.
unfoldable pub run_avg_acc_cap : ℕ → ℕ
run_avg_acc_cap raw =
    let cap = masked raw 0x03ffffff 4 in
    if leb 0x200000 cap
    then negate (bit_and (complement (bit_and cap 0x1fffff)) 0x1fffff + 1)
    else cap
