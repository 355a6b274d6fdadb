-- ===== src/Tests/CpuRuns.antt =====
-- Runs of the plugin for processors.
use pwrapi_ref.Prelude.{
  ℕ, ◌+◌, ◌*◌, ◌-◌, ◌≡◌, refl, true, false, none, some, [], ◌∷◌, ◌++◌, returns, arith, take,
  get_elem?, replicate,
}
use pwrapi_ref.Prelude.Int.{ℤ, pos}
use pwrapi_ref.Types.{AttrName}
use pwrapi_ref.Counter.{Text, blank}
use pwrapi_ref.Cpu.Frequencies.{Scan, avail_freq, scan_freqs, char_step, max_freqs}
use pwrapi_ref.Cpu.Growing.{avail_freq-Growing}
use pwrapi_ref.Cpu.Listing.{IsWord, words_text, avail_freq-shown, avail_freq-silent}
use pwrapi_ref.Cpu.Device.{System, read, write}
use pwrapi_ref.Cpu.Offered.{read-unoffered}
use pwrapi_ref.Tests.Fixtures.{whole}

-- The number of a text of digits.
abbrev decimal_from : ℕ → Text → ℕ
decimal_from n [] = n
decimal_from n (c ∷ t) = decimal_from (n * 10 + (c - 48)) t

abbrev decimal : Text → ℤ
decimal t = pos (decimal_from 0 t)

-- "800" and "1200".
abbrev slow : Text
slow = 56 ∷ 48 ∷ 48 ∷ []

abbrev fast : Text
fast = 49 ∷ 50 ∷ 48 ∷ 48 ∷ []

slow-IsWord : IsWord slow
slow-IsWord = record {
  digits = (refl, (refl, (refl, tt)));
  some_digit = omega arith;
  room = omega arith;
}

fast-IsWord : IsWord fast
fast-IsWord = record {
  digits = (refl, (refl, (refl, (refl, tt))));
  some_digit = omega arith;
  room = omega arith;
}

avail_freq-Growing_example :
    (r : Scan) × (avail_freq true decimal (some (words_text (slow ∷ fast ∷ []))) ≡ returns r)
    × (take r.count r.freq ≡ pos 800 ∷ pos 1200 ∷ [])
avail_freq-Growing_example =
    avail_freq-Growing decimal (slow ∷ fast ∷ []) (slow-IsWord, (fast-IsWord, tt)) (omega arith)
      (omega arith)

-- After 1200, the text 800 shows as 8000.
avail_freq-shown_example :
    (r : Scan) × (avail_freq true decimal (some (words_text (fast ∷ slow ∷ []))) ≡ returns r)
    × (r.count ≡ 2)
    × (take r.count r.freq ≡ pos 1200 ∷ pos 8000 ∷ [])
avail_freq-shown_example =
    avail_freq-shown decimal (fast ∷ slow ∷ []) (fast-IsWord, (slow-IsWord, tt)) (omega arith)

abbrev one_listed : Scan
one_listed = record {
  val = slow ++ replicate 17 0;
  offset = 0;
  freq = pos 800 ∷ replicate 99 (pos 0);
  count = 0;
}

avail_freq-silent_example :
    (one_listed.count ≡ 0)
    × (get_elem? one_listed.freq 3 ≡ get_elem? (replicate max_freqs (pos 0)) 3)
unfolding avail_freq scan_freqs char_step
avail_freq-silent_example =
    avail_freq-silent decimal (words_text (slow ∷ [])) {r = one_listed} refl 2

abbrev with_files : System ℤ ℕ
with_files = record {
  file = λ cpu name w. (some (record { bytes = fast ++ blank ∷ []; fails = false }), w);
  put = λ cpu name value w. (true, w + 1);
  clock = λ w. (pos w, w);
  atof = decimal;
}

abbrev without_files : System ℤ ℕ
without_files = record with_files {
  file = λ cpu name w. (none, w);
  put = λ cpu name value w. (false, w);
}

read-unoffered_example :
    (read whole with_files (pos 2) AttrName.temp 8 5
      ≡ read whole without_files (pos 2) AttrName.temp 8 5)
    × (write whole with_files (pos 2) AttrName.temp (pos 1) 8 5
        ≡ ((write whole without_files (pos 2) AttrName.temp (pos 1) 8 5).0, 5))
read-unoffered_example =
    read-unoffered whole with_files without_files (λ w. refl) (pos 2) AttrName.temp (pos 1) 8 5
      ((λ e. cc), ((λ e. cc), tt))
