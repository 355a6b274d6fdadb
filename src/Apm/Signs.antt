-- ===== src/Apm/Signs.antt =====
-- Proofs about src/plugins/pwr_apmdev.c: the fields of the power registers as arithmetic, and what the
-- sign of the accumulator becomes.
use Prim.Native.Nat.{bit_and, bit_or}
use pwrapi_ref.Prelude.{
  ℕ, ◌+◌, ◌-◌, ◌*◌, ◌/◌, ◌%◌, ◌^◌, ◌<◌, ◌≡◌, ap₂, ◌∙◌, arith, some, if◌then◌else◌, ltb,
}
use pwrapi_ref.Prelude.Int.{pos, negsuc, signed64}
use pwrapi_ref.Prelude.Doubles.{Doubles}
use pwrapi_ref.Prelude.Bits.{and_mask, and_shifted, or_fields}
use pwrapi_ref.Apm.Fields.{masked, raised, tdp_to_watt_bits, run_avg_acc_cap, complement}
use pwrapi_ref.Apm.Device.{System, Node, config_read, gather}

-- The 22-bit accumulator field of the register.
abbrev pub acc_field : ℕ → ℕ
acc_field raw = raw / 2 ^ 4 % 2 ^ 22

masked-acc : (raw : ℕ) → masked raw 0x03ffffff 4 ≡ acc_field raw
masked-acc raw = omega (arith, and_mask 26 raw)

run_avg_acc_cap-eq :
    (raw : ℕ)
    → run_avg_acc_cap raw
      ≡ (if ltb (acc_field raw) (2 ^ 21) then acc_field raw else 2 ^ 64 - (2 ^ 22 - acc_field raw))
unfolding run_avg_acc_cap
run_avg_acc_cap-eq raw = ground (
  arith,
  masked-acc raw,
  and_mask 21 (masked raw 0x03ffffff 4),
  and_mask 21 (complement (bit_and (masked raw 0x03ffffff 4) 0x1fffff)),
)

-- The bits of the accumulator are the two's complement of the signed field: bit 21 is its sign.
pub run_avg_acc_cap-signed :
    (raw : ℕ)
    → signed64 (run_avg_acc_cap raw) ≡ (
        if ltb (acc_field raw) (2 ^ 21)
        then pos (acc_field raw)
        else negsuc (2 ^ 22 - acc_field raw - 1))
run_avg_acc_cap-signed raw = ground (arith, run_avg_acc_cap-eq raw)

raised-low : (raw : ℕ) → raised raw 0x03ff 6 ≡ raw % 2 ^ 10 * 2 ^ 6
raised-low raw = omega (arith, and_mask 10 raw)

masked-high : (raw : ℕ) → masked raw 0xfc00 10 ≡ raw / 2 ^ 10 % 2 ^ 6
masked-high raw = omega (arith, and_shifted 10 raw 63, and_mask 6 (raw / 2 ^ 10))

-- The ten low bits of the register are the high bits of the factor, and its six high bits the low
-- ones, so the factor is below 65536.
pub tdp_to_watt_bits-eq :
    (raw : ℕ)
    → (tdp_to_watt_bits raw ≡ raw % 2 ^ 10 * 2 ^ 6 + raw / 2 ^ 10 % 2 ^ 6)
      × (tdp_to_watt_bits raw < 65536)
unfolding tdp_to_watt_bits
tdp_to_watt_bits-eq raw =
    let joined : tdp_to_watt_bits raw ≡ raw % 2 ^ 10 * 2 ^ 6 + raw / 2 ^ 10 % 2 ^ 6 =
      ap₂ bit_or (raised-low raw) (masked-high raw)
      ∙ or_fields 6 (raw % 2 ^ 10) (raw / 2 ^ 10 % 2 ^ 6) (omega arith) in
    (joined, omega (arith, joined))

masked-limit : (raw : ℕ) → masked raw 0x1fffffff 16 ≡ raw / 2 ^ 16 % 2 ^ 13
masked-limit raw = omega (arith, and_mask 29 raw)

module _ {D W : Type 0} (fl : Doubles D) (sys : System W) where
  -- If the limit register reads as `limit` and the accumulator register as `cap`, the power of a node
  -- is that of the 13-bit limit less the accumulator; but an accumulator with its sign bit set counts
  -- as a number just below 2 ^ 64, and not as a negative one.
  pub gather-power :
      (node : Node D) (old limit cap : ℕ) (w : W)
      → ((v : W) → sys.query node.number 0x5 0xe8 v ≡ (some (some limit), v))
      → ((v : W) → sys.query node.number 0x5 0xe0 v ≡ (some (some cap), v))
      → (gather fl sys node old w).0
        ≡ some (
            fl.mul
              (fl.sub (fl.of_int (pos (limit / 2 ^ 16 % 2 ^ 13))) (
                fl.div
                  (fl.of_int (
                    pos (
                      if ltb (acc_field cap) (2 ^ 21)
                      then acc_field cap
                      else 2 ^ 64 - (2 ^ 22 - acc_field cap))))
                  node.avg_divide_by))
              node.tdp_to_watt)
  unfolding gather config_read
  gather-power node old limit cap w at_limit at_cap =
      rw (at_limit w, at_cap w, masked-limit limit, run_avg_acc_cap-eq cap)
