-- ===== src/Rapl/Msr.antt =====
-- src/plugins/pwr_rapldev.c: the macros MSR and MSR_BIT, which take a field out of a register. The
-- register is a `long long`, so `>>` repeats the sign bit; it is modelled by its 64-bit pattern.
use Prim.Native.Nat.{bit_and}
use pwrapi_ref.Prelude.{ℕ, ◌+◌, ◌-◌, ◌/◌, ◌^◌, ltb, ◌==◌, if◌then◌else◌}

-- An arithmetic shift to the right of a 64-bit pattern.
abbrev pub sar : ℕ → ℕ → ℕ
sar w k = if ltb w (2 ^ 63) then w / 2 ^ k else w / 2 ^ k + (2 ^ 64 - 2 ^ (64 - k))

unfoldable pub msr : ℕ → ℕ → ℕ → ℕ
msr x shift mask = bit_and (sar x shift) mask

unfoldable pub msr_bit : ℕ → ℕ → ℕ
msr_bit x bit = if bit_and x (2 ^ bit) == 0 then 0 else 1
