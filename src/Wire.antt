-- ===== src/Wire.antt =====
-- src/pwr/serialize.h: the buffer that events are serialised into, and the operators `<<` and `>>`.
-- A buffer is kept with its last byte first, so `push_back` is a cons and `pop_back` a match. A
-- `double` is carried as its 64 bits, a character as a byte, a signed number as an integer.
pub mod Bytes
pub mod Values
use Prim.Native.Nat.{bit_and, bit_or}
use pwrapi_ref.Prelude.{
  ℕ, zero, suc, ◌+◌, ◌-◌, ◌*◌, ◌/◌, ◌%◌, ◌^◌, List, [], ◌∷◌, ◌++◌, Outcome, returns, aborts, faults,
  length, replicate, ltb, if◌then◌else◌,
}
use pwrapi_ref.Prelude.Int.{ℤ, pos, negsuc}

abbrev pub Buf : Type 0
Buf = List ℕ

-- A read off the end of the buffer; on an empty one `pop_back` has no defined behaviour.
abbrev pub Get {ℓ} : Type ℓ → Type ℓ
Get A = Buf → Outcome (A × Buf)

abbrev pub thread {ℓ κ} :
    {A : Type ℓ} {B : Type κ} → Outcome (A × Buf) → (A → Get B) → Outcome (B × Buf)
thread (returns (a, buf)) f = f a buf
thread aborts f = aborts
thread faults f = faults

infixl 5 ◌>>=◌
abbrev pub ◌>>=◌ {ℓ κ} : {A : Type ℓ} {B : Type κ} → Get A → (A → Get B) → Get B
◌>>=◌ m f buf = thread (m buf) f

abbrev pub give {ℓ} : {A : Type ℓ} → A → Get A
give a buf = returns (a, buf)

-- `SerialBuf::out`, from byte `i` of the word on.
unfoldable pub out_from : ℕ → ℕ → ℕ → Buf → Buf
out_from i zero tmp buf = buf
out_from i (suc n) tmp buf = out_from (suc i) n tmp (bit_and (tmp / 2 ^ (8 * i)) 255 ∷ buf)

unfoldable pub out : ℕ → ℕ → Buf → Buf
unfolding out_from
out tmp len = out_from 0 len tmp

-- `SerialBuf::in`, with `i` bytes to go; a value has at most 8 bytes, so no bit is shifted out.
unfoldable pub in_from : ℕ → ℕ → Get ℕ
in_from zero tmp buf = returns (tmp, buf)
in_from (suc i) tmp [] = faults
in_from (suc i) tmp (c ∷ buf) = in_from i (bit_or tmp (c * 2 ^ (8 * i))) buf

unfoldable pub get_word : ℕ → Get ℕ
unfolding in_from
get_word len = in_from len 0

-- The two operators at one type.
pub record Serial {ℓ} (A : Type ℓ) : Type ℓ where
  pub put : A → Buf → Buf
  pub get : Get A

-- An unsigned type of `len` bytes, or an enumeration without negative values.
unfoldable pub unsigned : ℕ → Serial ℕ
unsigned len = record { put = λ n. out n len; get = get_word len }

-- The cast to `uint64_t`, and the one from a word of `w` bits to a signed type.
abbrev pub to_word : ℤ → ℕ
to_word (pos n) = n
to_word (negsuc n) = 2 ^ 64 - 1 - n

abbrev pub to_signed : ℕ → ℕ → ℤ
to_signed w n = if ltb n (2 ^ (w - 1)) then pos n else negsuc (2 ^ w - 1 - n)

-- `int32_t`, `int`, and the enumerations that have a negative value.
unfoldable pub int32 : Serial ℤ
int32 = record {
  put = λ n. out (to_word n) 4;
  get = do
    n ← get_word 4
    give (to_signed 32 n);
}

-- One character of a string.
abbrev pub pop : Get ℕ
pop [] = faults
pop (c ∷ buf) = returns (c, buf)

abbrev pub character : Serial ℕ
character = record { put = ◌∷◌; get = pop }

-- A vector: the elements in order and then their number. The counter of both loops has 32 bits: from
-- 2 ^ 32 elements on, the loop of `<<` does not end (the model's does) and that of `>>` leaves the
-- last elements blank.
module _ {A : Type 0} (s : Serial A) where
  unfoldable pub put_all : List A → Buf → Buf
  put_all [] buf = buf
  put_all (x ∷ xs) buf = put_all xs (s.put x buf)

  unfoldable pub get_all : ℕ → List A → Get (List A)
  get_all zero xs = give xs
  get_all (suc n) xs = do x ← s.get; get_all n (x ∷ xs)

  unfoldable pub vector : A → Serial (List A)
  vector blank = record {
    put = λ xs buf. out (length xs) 8 (put_all xs buf);
    get = do
      len ← get_word 8
      xs ← get_all (len % 2 ^ 32) []
      give (xs ++ replicate (len - len % 2 ^ 32) blank);
  }

-- `std::string` is read and written by loops of the same form.
abbrev pub Text : Type 0
Text = List ℕ

unfoldable pub text : Serial Text
text = vector character 0
