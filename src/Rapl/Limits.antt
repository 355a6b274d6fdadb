-- ===== src/Rapl/Limits.antt =====
-- Proofs about src/plugins/pwr_rapldev.c: the power limit register, packed field by field, is read
-- back as it was packed, whatever its reserved bits hold.
use pwrapi_ref.Prelude.{ℕ, ◌+◌, ◌*◌, ◌^◌, ◌<◌, ◌≡◌, arith}
use pwrapi_ref.Prelude.Doubles.{Doubles}
use pwrapi_ref.Rapl.Fields.{msr-field, msr_bit_lem}
use pwrapi_ref.Rapl.Device.{Units, Limit, scaled, decode_limit}

-- One of the two limits: 15 bits of power, two flags, seven bits of window and eight reserved bits.
pub record Half : Type 0 where
  pub power : ℕ
  pub enabled : ℕ
  pub clamped : ℕ
  pub window : ℕ
  pub reserved : ℕ

pub record FitsHalf (h : Half) : Type 0 where
  pub power_fits : h.power < 2 ^ 15
  pub enabled_fits : h.enabled < 2
  pub clamped_fits : h.clamped < 2
  pub window_fits : h.window < 2 ^ 7
  pub reserved_fits : h.reserved < 2 ^ 8

abbrev pub half_word : Half → ℕ
half_word h =
    h.power + h.enabled * 2 ^ 15 + h.clamped * 2 ^ 16 + h.window * 2 ^ 17 + h.reserved * 2 ^ 24

abbrev pub register : Half → Half → ℕ
register lo hi = half_word lo + half_word hi * 2 ^ 32

module _ {D : Type 0} (fl : Doubles D) (u : Units D) where
  abbrev pub packed : Half → Half → Limit D
  packed lo hi = record {
    power1 = scaled fl u.power lo.power;
    window1 = scaled fl u.time lo.window;
    enabled1 = lo.enabled;
    clamped1 = lo.clamped;
    power2 = scaled fl u.power hi.power;
    window2 = scaled fl u.time hi.window;
    enabled2 = hi.enabled;
    clamped2 = hi.clamped;
  }

  -- The fields of two power limits that fit their places are decoded from the packed register as they
  -- were packed, whatever the reserved bits hold.
  pub decode_limit-register :
      (lo hi : Half) → FitsHalf lo → FitsHalf hi → decode_limit fl u (register lo hi) ≡ packed lo hi
  unfolding decode_limit
  decode_limit-register lo hi p q = ground (
    arith,
    msr-field (register lo hi) 0 15,
    msr-field (register lo hi) 17 7,
    msr-field (register lo hi) 32 15,
    msr-field (register lo hi) 49 7,
    msr_bit_lem (register lo hi) 15,
    msr_bit_lem (register lo hi) 16,
    msr_bit_lem (register lo hi) 47,
    msr_bit_lem (register lo hi) 48,
  )
