-- ===== src/Prelude/Bits.antt =====
-- Masks and shifts of unsigned words as arithmetic. The native `bit_and` and `bit_or` compute at
-- numerals only; these laws hold at every word, by recursion on the width of the mask.
use Prim.Native.Nat.{ℕ, zero, suc, ◌+◌, ◌-◌, ◌*◌, ◌/◌, ◌%◌, ◌^◌, ◌≤◌, ◌<◌, min, max}
use Prim.Native.Nat.{bit_and, bit_or, digits, bitwise, bit_and-bitwise, bit_or-bitwise}
use mathlib.Core.Path.{◌≡◌, refl, ap, ◌∙◌}
use native.Mathlib.Nat.{pow-suc, one-le-pow, le_refl, mul-one, div-one, div-div-eq-div-mul}
use native.Mathlib.Omega.{arith}

-- The fuel of the library's digit recursion does not matter once it reaches the number.
module _ (rest : ℕ → ℕ) (f : ℕ → ℕ → ℕ) where
  digits_enough : (n m a b : ℕ) → a ≤ n → a ≤ m → digits rest f n a b ≡ digits rest f m a b
  digits_enough zero zero a b p q = refl
  digits_enough zero (suc m) zero b p q = refl
  digits_enough zero (suc m) (suc a) b p q = absurd (omega arith)
  digits_enough (suc n) zero zero b p q = refl
  digits_enough (suc n) zero (suc a) b p q = absurd (omega arith)
  digits_enough (suc n) (suc m) zero b p q = refl
  digits_enough (suc n) (suc m) (suc a) b p q =
      omega (arith, digits_enough n m (suc a / 2) (b / 2) (omega arith) (omega arith))

  bitwise_low :
      (a b : ℕ)
      → bitwise rest f (suc a) b ≡ bitwise rest f (suc a / 2) (b / 2) * 2 + f (suc a % 2) (b % 2)
  bitwise_low a b =
      omega (arith, digits_enough a (suc a / 2) (suc a / 2) (b / 2) (omega arith) (le_refl _))

-- The lowest digit of a conjunction and of a disjunction.
pub and_low : (a b : ℕ) → bit_and a b ≡ bit_and (a / 2) (b / 2) * 2 + min (a % 2) (b % 2)
and_low zero b = simp bit_and-bitwise (omega arith)
and_low (suc a) b = simp bit_and-bitwise (bitwise_low (λ y. 0) min a b)

pub or_low : (a b : ℕ) → bit_or a b ≡ bit_or (a / 2) (b / 2) * 2 + max (a % 2) (b % 2)
or_low zero b = simp bit_or-bitwise (omega arith)
or_low (suc a) b = simp bit_or-bitwise (bitwise_low (λ y. y) max a b)

and_none_fuel : (n a : ℕ) → a ≤ n → bit_and a 0 ≡ 0
and_none_fuel n zero h = refl
and_none_fuel zero (suc a) h = absurd (omega arith)
and_none_fuel (suc n) (suc a) h =
    omega (arith, and_low (suc a) 0, and_none_fuel n (suc a / 2) (omega arith))

or_none_fuel : (n a : ℕ) → a ≤ n → bit_or a 0 ≡ a
or_none_fuel n zero h = refl
or_none_fuel zero (suc a) h = absurd (omega arith)
or_none_fuel (suc n) (suc a) h =
    omega (arith, or_low (suc a) 0, or_none_fuel n (suc a / 2) (omega arith))

pub and_none : (a : ℕ) → bit_and a 0 ≡ 0
and_none a = and_none_fuel a a (le_refl a)

pub or_none : (a : ℕ) → bit_or a 0 ≡ a
or_none a = or_none_fuel a a (le_refl a)

double_pow : (q k : ℕ) → q * 2 ^ suc k ≡ 2 * (q * 2 ^ k)
double_pow q k = omega (arith, ap (λ (t : ℕ). q * t) (pow-suc 2 k))

half_pow : (a j : ℕ) → a / 2 / 2 ^ j ≡ a / 2 ^ suc j
half_pow a j = div-div-eq-div-mul a 2 (2 ^ j) ∙ ap (λ (t : ℕ). a / t) (omega (arith, pow-suc 2 j))

and_fields : (k q r : ℕ) → r < 2 ^ k → bit_and (q * 2 ^ k + r) (2 ^ k - 1) ≡ r
and_fields zero q r h = rw and_none (omega arith)
and_fields (suc k) q r h = ground (
  arith,
  and_low (q * 2 ^ suc k + r) (2 ^ suc k - 1),
  double_pow q k,
  pow-suc 2 k,
  and_fields k q (r / 2) (omega arith),
)

-- A mask of the `k` lowest bits is the remainder by `2 ^ k`.
pub and_mask : (k a : ℕ) → bit_and a (2 ^ k - 1) ≡ a % 2 ^ k
and_mask k a = ground (arith, one-le-pow k 2, and_fields k (a / 2 ^ k) (a % 2 ^ k))

-- Low zero bits of a mask: shift both down.
pub and_shifted : (j a m : ℕ) → bit_and a (m * 2 ^ j) ≡ bit_and (a / 2 ^ j) m * 2 ^ j
and_shifted zero a m = simp (mul-one, div-one)
and_shifted (suc j) a m = ground (
  arith,
  and_low a (m * 2 ^ suc j),
  double_pow m j,
  double_pow (bit_and (a / 2 ^ suc j) m) j,
  and_shifted j (a / 2) m,
  ap (λ t. bit_and t m) (half_pow a j),
)

-- Fields that do not overlap are joined by a sum.
pub or_fields : (k q r : ℕ) → r < 2 ^ k → bit_or (q * 2 ^ k) r ≡ q * 2 ^ k + r
or_fields zero q r h = ground (arith, or_none q)
or_fields (suc k) q r h =
    ground (arith, or_low (q * 2 ^ suc k) r, double_pow q k, or_fields k q (r / 2) (omega arith))
