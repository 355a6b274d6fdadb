-- ===== src/Cpu/Words.antt =====
-- Proofs about src/plugins/pwr_cpudev.c: what the array holds after a word has been written over its
-- start.
use pwrapi_ref.Prelude.{
  ℕ, zero, suc, ◌+◌, ◌≤◌, ◌≡◌, refl, ap, ap₂, ◌∙◌, arith, Bool, true, [], ◌∷◌, ◌++◌, length,
  length-set, lt→ltb, set, drop, All,
}
use pwrapi_ref.Prelude.Int.{ℤ}
use pwrapi_ref.Counter.{Text, c_string}
use pwrapi_ref.Cpu.Frequencies.{Scan, is_digit, has_zero, digit_step, char_step, scan_freqs}

-- The array with a word written over it from an index on.
abbrev pub overwrite : Text → ℕ → Text → Text
overwrite val k [] = val
overwrite val k (c ∷ word) = overwrite (set val k c) (suc k) word

overwrite-suc :
    (x : ℕ) (val : Text) (k : ℕ) (word : Text)
    → overwrite (x ∷ val) (suc k) word ≡ x ∷ overwrite val k word
overwrite-suc x val k [] = refl
overwrite-suc x val k (c ∷ word) = overwrite-suc x (set val k c) (suc k) word

pub overwrite-eq :
    (val word : Text)
    → length word ≤ length val
    → overwrite val 0 word ≡ word ++ drop (length word) val
overwrite-eq val [] h = refl
overwrite-eq [] (c ∷ word) h = absurd (omega arith)
overwrite-eq (x ∷ val) (c ∷ word) h =
    overwrite-suc c val 0 word ∙ ap (◌∷◌ c) (overwrite-eq val word (omega arith))

pub has_zero-end : (u : Text) → has_zero (u ++ 0 ∷ []) ≡ true
has_zero-end [] = refl
has_zero-end (c ∷ u) = ground (arith, has_zero-end u)

pub c_string-end : (u : Text) → c_string (u ++ 0 ∷ []) ≡ c_string u
c_string-end [] = refl
c_string-end (c ∷ u) = ground (arith, c_string-end u)

pub drop-end : (n : ℕ) (u : Text) → n ≤ length u → drop n (u ++ 0 ∷ []) ≡ drop n u ++ 0 ∷ []
drop-end zero u h = refl
drop-end (suc n) [] h = absurd (omega arith)
drop-end (suc n) (c ∷ u) h = drop-end n u (omega arith)

pub length-drop : (n : ℕ) (u : Text) → n ≤ length u → length (drop n u) + n ≡ length u
length-drop zero u h = omega arith
length-drop (suc n) [] h = absurd (omega arith)
length-drop (suc n) (c ∷ u) h = omega (arith, length-drop n u)

-- A text of digits is written over the array.
pub scan_freqs-digits :
    (debug : Bool) (atoi : Text → ℤ) (s : Scan) (word rest : Text)
    → All (λ c. is_digit c ≡ true) word
    → s.offset + length word ≤ length s.val
    → scan_freqs debug atoi s (word ++ rest)
      ≡ scan_freqs debug atoi
          (record s { val = overwrite s.val s.offset word; offset = s.offset + length word })
          rest
unfolding scan_freqs char_step digit_step
scan_freqs-digits debug atoi s [] rest p h =
    ap (λ o. scan_freqs debug atoi (record s { offset = o }) rest) (omega arith)
scan_freqs-digits debug atoi s (c ∷ word) rest p h =
    let s' : Scan = record s { val = set s.val s.offset c; offset = s.offset + 1 } in
    let ih =
      scan_freqs-digits debug atoi s' word rest p.1 (omega (arith, length-set s.val s.offset c)) in
    rw (p.0, lt→ltb s.offset (length s.val) (omega arith))
      (ih
        ∙ ap₂ (λ v o. scan_freqs debug atoi (record s { val = v; offset = o }) rest)
            (ap (λ k. overwrite (set s.val s.offset c) k word) (omega arith)) (omega arith))
