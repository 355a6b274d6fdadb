-- ===== src/Cpu/Growing.antt =====
-- Proofs about src/plugins/pwr_cpudev.c: when the list of frequencies is what the file says.
use mathlib.Core.Path.{subst}
use pwrapi_ref.Prelude.{
  ℕ, zero, suc, ◌≤◌, ◌≡◌, ◌≢◌, refl, sym, ap, ap₂, ◌∙◌, arith, true, some, List, [], ◌∷◌, ◌++◌, map,
  returns, ==_of_ne, length, take, drop, drop-append, replicate, All,
}
use pwrapi_ref.Prelude.Int.{ℤ}
use pwrapi_ref.Counter.{Text, c_string}
use pwrapi_ref.Cpu.Frequencies.{Scan, is_digit, avail_freq, max_freqs}
use pwrapi_ref.Cpu.Listing.{IsWord, words_text, shown, avail_freq-shown}

-- Each word is at least as long as the one before it.
abbrev pub Growing : ℕ → List Text → Type 0
Growing n [] = Unit {0}
Growing n (word ∷ words) = (n ≤ length word) × Growing (length word) words

All-drop : (n m : ℕ) (u : Text) → n ≤ m → All (λ c. c ≡ 0) (drop n u) → All (λ c. c ≡ 0) (drop m u)
All-drop zero zero u h p = p
All-drop zero (suc m) [] h p = tt
All-drop zero (suc m) (c ∷ u) h p = All-drop zero m u (omega arith) p.1
All-drop (suc n) zero u h p = absurd (omega arith)
All-drop (suc n) (suc m) [] h p = tt
All-drop (suc n) (suc m) (c ∷ u) h p = All-drop n m u (omega arith) p

c_string-word :
    (word t : Text)
    → All (λ c. is_digit c ≡ true) word
    → All (λ c. c ≡ 0) t
    → c_string (word ++ t) ≡ word
c_string-word [] [] p z = refl
c_string-word [] (c ∷ t) p z = rw z.0
c_string-word (c ∷ word) t p z =
    let shape : c ≢ 0 = digit-ne (p.0) in
    rw (==_of_ne c 0 shape) (ap (◌∷◌ c) (c_string-word word t p.1 z))
  where
    digit-ne : is_digit c ≡ true → c ≢ 0
    digit-ne h = ground arith

shown-Growing :
    (old : Text) (n : ℕ) (words : List Text)
    → All (λ c. c ≡ 0) (drop n old)
    → All IsWord words
    → Growing n words
    → shown old words ≡ words
shown-Growing old n [] z ws g = refl
shown-Growing old n (word ∷ words) z ws g =
    let tail = All-drop n (length word) old g.0 z in
    let now = word ++ drop (length word) old in
    ap₂ ◌∷◌ (c_string-word word (drop (length word) old) ws.0.digits tail) (
      shown-Growing now (length word) words
        (subst (All (λ c. c ≡ 0)) (sym (drop-append word (drop (length word) old))) tail) ws.1 g.1)

-- With debugging output on, a file of at most 100 words, each of fewer than 20 digits and followed by
-- a blank, no word shorter than the one before it, gives the list of the words' own numbers.
pub avail_freq-Growing :
    (atoi : Text → ℤ) (words : List Text)
    → All IsWord words
    → Growing 0 words
    → length words ≤ max_freqs
    → (r : Scan) × (avail_freq true atoi (some (words_text words)) ≡ returns r)
      × (take r.count r.freq ≡ map atoi words)
avail_freq-Growing atoi words ws g room =
    let (r, done, count, listed) = avail_freq-shown atoi words ws room in
    (r, done, listed ∙ ap (map atoi) (shown-Growing (replicate 19 0) 0 words zeros ws g))
  where
    zeros : All {A = ℕ} (λ c. c ≡ 0) (drop 0 (replicate 19 0))
    zeros = omega arith
