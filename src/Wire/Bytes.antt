-- ===== src/Wire/Bytes.antt =====
-- Proofs about src/pwr/serialize.h: the bytes of a word.
use Prim.Native.Nat.{bit_and, bit_or}
use native.Mathlib.Nat.{
  mul-le-mul_left, mul-lt-mul_of_pos_right, one-le-pow, add-mul-mod_self_left, mod-eq_of_lt,
  div-add-mod, mod-lt, mul-add, mul_assoc,
}
use native.Mathlib.Numerals.{towards_suc}
use pwrapi_ref.Prelude.{
  ℕ, zero, suc, ◌+◌, ◌*◌, ◌/◌, ◌%◌, ◌^◌, ◌<◌, ◌≡◌, ap, ◌∙◌, arith, ◌∷◌, returns,
}
use pwrapi_ref.Prelude.Bits.{and_mask, or_fields}
use pwrapi_ref.Wire.{Buf, out_from, out, in_from, get_word}

-- Byte `i` of a word, the lowest one first.
abbrev pub byte : ℕ → ℕ → ℕ
byte i w = w / 2 ^ (8 * i) % 256

pow_step : (n : ℕ) → 2 ^ (8 * suc n) ≡ 2 ^ (8 * n) * 256
pow_step n = ap (λ (k : ℕ). 2 ^ k) out_of ∙ simp towards_suc (omega arith)
  where
    out_of : 8 * suc n ≡ 8 * n + 8
    out_of = omega arith

pow_pos : (n : ℕ) → 0 < 2 ^ (8 * n)
pow_pos n = one-le-pow (8 * n) 2 (omega arith)

out_from-last :
    (i n w : ℕ) (buf : Buf) → out_from i (suc n) w buf ≡ byte (i + n) w ∷ out_from i n w buf
unfolding out_from
out_from-last i zero w buf =
    ap (λ c. c ∷ buf) (and_mask 8 (w / 2 ^ (8 * i)) ∙ ap (λ (k : ℕ). byte k w) (omega arith))
out_from-last i (suc n) w buf =
    out_from-last (suc i) n w (bit_and (w / 2 ^ (8 * i)) 255 ∷ buf)
    ∙ ap (λ (k : ℕ). byte k w ∷ out_from i (suc n) w buf) (omega arith)

out_from-top : (n w : ℕ) (buf : Buf) → out_from 0 (suc n) w buf ≡ byte n w ∷ out_from 0 n w buf
out_from-top n w buf =
    out_from-last 0 n w buf ∙ ap (λ (k : ℕ). byte k w ∷ out_from 0 n w buf) (omega arith)

-- A remainder by a product, by the two factors in turn.
mod_product : (a p k : ℕ) → 0 < p → 0 < k → a % (p * k) ≡ p * (a / p % k) + a % p
mod_product a p k hp hk =
    ap (λ (t : ℕ). t % (p * k)) whole
    ∙ add-mul-mod_self_left (p * (a / p % k) + a % p) (p * k) (a / p / k)
    ∙ mod-eq_of_lt below
  where
    whole : a ≡ p * (a / p % k) + a % p + p * k * (a / p / k)
    whole = omega (
      arith,
      div-add-mod a p,
      ap (λ (t : ℕ). p * t) (div-add-mod (a / p) k),
      mul-add p (k * (a / p / k)) (a / p % k),
      mul_assoc p k (a / p / k),
    )

    below : p * (a / p % k) + a % p < p * k
    below = omega (arith, mod-lt a hp, mul-le-mul_left p (mod-lt (a / p) hk))

low_split : (n w : ℕ) → w % 2 ^ (8 * suc n) ≡ byte n w * 2 ^ (8 * n) + w % 2 ^ (8 * n)
low_split n w =
    ap (λ (t : ℕ). w % t) (pow_step n)
    ∙ mod_product w (2 ^ (8 * n)) 256 (pow_pos n) (omega arith)
    ∙ omega arith

joined :
    (n q c : ℕ)
    → c < 256
    → bit_or (q * 2 ^ (8 * suc n)) (c * 2 ^ (8 * n)) ≡ (q * 256 + c) * 2 ^ (8 * n)
joined n q c h =
    or_fields (8 * suc n) q (c * 2 ^ (8 * n))
      (omega (arith, pow_step n, mul-lt-mul_of_pos_right h (pow_pos n)))
    ∙ omega (arith, ap (λ (t : ℕ). q * t) (pow_step n))

in_from-out :
    (n q w : ℕ) (buf : Buf)
    → in_from n (q * 2 ^ (8 * n)) (out_from 0 n w buf)
      ≡ returns (q * 2 ^ (8 * n) + w % 2 ^ (8 * n), buf)
unfolding in_from out_from
in_from-out zero q w buf = ap (λ (t : ℕ). returns (t, buf)) (omega arith)
in_from-out (suc n) q w buf =
    ap (in_from (suc n) (q * 2 ^ (8 * suc n))) (out_from-top n w buf)
    ∙ ap (λ (t : ℕ). in_from n t (out_from 0 n w buf))
        (joined n q (byte n w) (mod-lt _ (omega arith)))
    ∙ in_from-out n (q * 256 + byte n w) w buf
    ∙ ap (λ (t : ℕ). returns (t, buf))
        (omega (arith, low_split n w, ap (λ (t : ℕ). q * t) (pow_step n)))

-- Only the lowest `n` bytes of a word are written.
pub get_word-out_low :
    (n w : ℕ) (buf : Buf) → get_word n (out w n buf) ≡ returns (w % 2 ^ (8 * n), buf)
unfolding get_word out
get_word-out_low n w buf =
    ap (λ (t : ℕ). in_from n t (out_from 0 n w buf)) (omega arith)
    ∙ in_from-out n 0 w buf
    ∙ ap (λ (t : ℕ). returns (t, buf)) (omega arith)

-- A value of `n` bytes is read back, and what was below it is left.
pub get_word-out :
    (n w : ℕ) (buf : Buf) → w < 2 ^ (8 * n) → get_word n (out w n buf) ≡ returns (w, buf)
get_word-out n w buf h =
    get_word-out_low n w buf ∙ ap (λ (t : ℕ). returns (t, buf)) (mod-eq_of_lt h)
