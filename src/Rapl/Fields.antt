-- ===== src/Rapl/Fields.antt =====
-- Proofs about src/plugins/pwr_rapldev.c: the macros MSR and MSR_BIT as arithmetic on the register,
-- and the power limit register taken apart.
use native.Mathlib.Nat.{
  one-le-pow, pow-suc, mul_assoc, mul-one, one-mul, add-zero, add-suc, mul-sub,
  add-mul-mod_self_left,
}
use pwrapi_ref.Prelude.{
  ℕ, zero, suc, ◌+◌, ◌-◌, ◌*◌, ◌/◌, ◌%◌, ◌^◌, ◌≤◌, ◌≡◌, ◌∙◌, ap, ap₂, sym, inl, inr, Bool-cases,
  arith, ltb,
}
use pwrapi_ref.Prelude.Bits.{and_mask, and_shifted}
use pwrapi_ref.Rapl.Msr.{msr, msr_bit, sar}

pow-add : (a b : ℕ) → 2 ^ (a + b) ≡ 2 ^ a * 2 ^ b
pow-add a zero = simp (add-zero, mul-one)
pow-add a (suc b) =
    ap (λ (t : ℕ). 2 ^ t) (add-suc a b)
    ∙ pow-suc 2 (a + b)
    ∙ ap (λ (t : ℕ). t * 2) (pow-add a b)
    ∙ mul_assoc (2 ^ a) (2 ^ b) 2
    ∙ ap (λ (t : ℕ). 2 ^ a * t) (sym (pow-suc 2 b))

split_64 : (s k j : ℕ) → s + k + j ≡ 64 → 2 ^ 64 ≡ 2 ^ s * (2 ^ k * 2 ^ j)
split_64 s k j e =
    ap (λ (t : ℕ). 2 ^ t) (sym e)
    ∙ pow-add (s + k) j
    ∙ ap (λ (t : ℕ). t * 2 ^ j) (pow-add s k)
    ∙ mul_assoc (2 ^ s) (2 ^ k) (2 ^ j)

rest_64 : (s k j : ℕ) → s + k + j ≡ 64 → 2 ^ (64 - s) ≡ 2 ^ k * 2 ^ j
rest_64 s k j e = ap (λ (t : ℕ). 2 ^ t) (omega arith) ∙ pow-add k j

sign_bits : (s k j : ℕ) → s + k + j ≡ 64 → 2 ^ 64 - 2 ^ (64 - s) ≡ 2 ^ k * (2 ^ j * (2 ^ s - 1))
sign_bits s k j e =
    let low = 2 ^ k * 2 ^ j in
    ap₂ ◌-◌ (split_64 s k j e) (rest_64 s k j e)
    ∙ omega (arith, one-le-pow s 2, mul-sub low (2 ^ s) 1, mul_assoc (2 ^ k) (2 ^ j) (2 ^ s - 1))

-- The repeated sign bit does not reach a field that lies within the 64 bits.
sar-mod : (w s k : ℕ) → s + k ≤ 64 → sar w s % 2 ^ k ≡ w / 2 ^ s % 2 ^ k
sar-mod w s k h = elim (Bool-cases (ltb w (2 ^ 63))) [
  | inl e ↦ rw e
  | inr e ↦
      rw (e, sign_bits s k (64 - (s + k)) (omega arith))
        (add-mul-mod_self_left (w / 2 ^ s) (2 ^ k) _)
]

-- A field of k bits at bit s is read as the bits of the register from s on, modulo 2 ^ k, if it lies
-- within the 64 bits; the sign of the register does not reach it.
pub msr-field : (w s k : ℕ) → s + k ≤ 64 → msr w s (2 ^ k - 1) ≡ w / 2 ^ s % 2 ^ k
unfolding msr
msr-field w s k h = and_mask k (sar w s) ∙ sar-mod w s k h

pub msr_bit_lem : (w b : ℕ) → msr_bit w b ≡ w / 2 ^ b % 2
unfolding msr_bit
msr_bit_lem w b = ground (
  arith,
  and_shifted b w 1,
  one-mul (2 ^ b),
  and_mask 1 (w / 2 ^ b),
  one-le-pow b 2,
  one-mul (2 ^ b),
)
