-- ===== src/Wire/Values.antt =====
-- Proofs about src/pwr/serialize.h: what `<<` wrote, `>>` reads back.
use native.Mathlib.Nat.{mod-eq_of_lt}
use mathlib.Core.List.{append-nil}
use pwrapi_ref.Prelude.{
  ℕ, suc, ◌+◌, ◌-◌, ◌*◌, ◌%◌, ◌^◌, ◌<◌, ◌≡◌, refl, ap, ◌∙◌, arith, List, [], ◌∷◌, ◌++◌, returns,
  length, replicate, All,
}
use pwrapi_ref.Prelude.Int.{ℤ, pos, negsuc}
use pwrapi_ref.Wire.{
  Buf, Get, ◌>>=◌, give, thread, Serial, unsigned, int32, to_word, to_signed, character, put_all,
  get_all, vector, Text, text,
}
use pwrapi_ref.Wire.Bytes.{get_word-out, get_word-out_low}

-- `>>` undoes `<<` on the values of `Fits`, and leaves what was in the buffer before.
abbrev pub Restores : {A : Type 0} → Serial A → (A → Type 0) → Type 0
Restores {A} s Fits = (a : A) (buf : Buf) → Fits a → s.get (s.put a buf) ≡ returns (a, buf)

-- A read that starts with a value just written goes on with that value.
pub read_back :
    {A B : Type 0} (s : Serial A) {Fits : A → Type 0} (law : Restores s Fits) (k : A → Get B)
    {a : A} {buf : Buf}
    → Fits a
    → (s.get >>= k) (s.put a buf) ≡ k a buf
read_back s law k {a} {buf} h = ap (λ r. thread r k) (law a buf h)

abbrev pub Fits : ℕ → ℕ → Type 0
Fits len n = n < 2 ^ (8 * len)

abbrev pub IsInt32 : ℤ → Type 0
IsInt32 (pos n) = n < 2 ^ 31
IsInt32 (negsuc n) = n < 2 ^ 31

-- Fewer elements than the 32-bit counter of the loops can count.
abbrev pub IsShort : {A : Type 0} → List A → Type 0
IsShort xs = length xs < 2 ^ 32

pub unsigned-Restores : (len : ℕ) → Restores (unsigned len) (Fits len)
unfolding unsigned
unsigned-Restores len n buf h = get_word-out len n buf h

same_signed : (z : ℤ) → IsInt32 z → to_signed 32 (to_word z % 2 ^ 32) ≡ z
same_signed (pos n) h = ground arith
same_signed (negsuc n) h = ground arith

pub int32-Restores : Restores int32 IsInt32
unfolding int32
int32-Restores z buf h =
    ap (λ r. thread r (λ n. give (to_signed 32 n))) (get_word-out_low 4 (to_word z) buf)
    ∙ ap (λ t. returns (t, buf)) (same_signed z h)

module _ {A : Type 0} (s : Serial A) {P : A → Type 0} (law : Restores s P) (blank : A) where
  get_all-put_all :
      (xs ys : List A) (k : ℕ) (buf : Buf)
      → All P xs
      → get_all s (length xs + k) ys (put_all s xs buf) ≡ get_all s k (xs ++ ys) buf
  unfolding put_all get_all
  get_all-put_all [] ys k buf h = ap (λ n. get_all s n ys buf) (omega arith)
  get_all-put_all (x ∷ xs) ys k buf (hx, h) =
      ap (λ n. get_all s n ys (put_all s xs (s.put x buf))) suc_inside
      ∙ get_all-put_all xs ys (suc k) (s.put x buf) h
      ∙ read_back s law (λ y. get_all s k (y ∷ xs ++ ys)) hx
    where
      suc_inside : length (x ∷ xs) + k ≡ length xs + suc k
      suc_inside = omega arith

  all_read :
      (xs : List A) (buf : Buf)
      → All P xs
      → get_all s (length xs) [] (put_all s xs buf) ≡ returns (xs, buf)
  unfolding get_all
  all_read xs buf h =
      ap (λ n. get_all s n [] (put_all s xs buf)) (omega arith)
      ∙ get_all-put_all xs [] 0 buf h
      ∙ ap (λ ys. returns (ys, buf)) (append-nil xs)

  -- What is read for a number of elements.
  rest : ℕ → Get (List A)
  rest len = get_all s (len % 2 ^ 32) [] >>= λ xs. give (xs ++ replicate (len - len % 2 ^ 32) blank)

  rest-put_all :
      (xs : List A) (buf : Buf)
      → All P xs
      → IsShort xs
      → rest (length xs) (put_all s xs buf) ≡ returns (xs, buf)
  unfolding rest
  rest-put_all xs buf h short =
      rw (mod-eq_of_lt short) (rw (all_read xs buf h) (ap (λ ys. returns (ys, buf)) whole))
    where
      no_blanks : length xs - length xs ≡ 0
      no_blanks = omega arith

      whole : xs ++ replicate (length xs - length xs) blank ≡ xs
      whole = ap (λ n. xs ++ replicate n blank) no_blanks ∙ append-nil xs

  pub vector-Restores : Restores (vector s blank) (λ xs. All P xs × IsShort xs)
  unfolding vector rest
  vector-Restores xs buf (h, short) =
      ap (λ r. thread r rest) (get_word-out 8 (length xs) (put_all s xs buf) (omega arith))
      ∙ rest-put_all xs buf h short

-- A string of fewer than 2 ^ 32 bytes.
abbrev pub IsText : Text → Type 0
IsText t = length t < 2 ^ 32

abbrev Anything : ℕ → Type 0
Anything c = Unit {0}

all-Anything : (t : Text) → All Anything t
all-Anything [] = tt
all-Anything (c ∷ t) = (tt, all-Anything t)

pub text-Restores : Restores text IsText
unfolding text
text-Restores t buf h =
    vector-Restores character {P = Anything} (λ c b _. refl) 0 t buf (all-Anything t, h)
