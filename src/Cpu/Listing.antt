-- ===== src/Cpu/Listing.antt =====
-- Proofs about src/plugins/pwr_cpudev.c: which frequencies `cpudev_avail_freq` lists.
use mathlib.Core.List.{append_assoc, append-nil}
use native.Mathlib.Numerals.{add-one}
use pwrapi_ref.Prelude.{
  ℕ, suc, ◌+◌, ◌≤◌, ◌<◌, ◌≡◌, refl, sym, ap, ◌∙◌, arith, true, false, some, List, [], ◌∷◌, ◌++◌,
  map, returns, >>=-returns, ==_of_ne, length, length-append, length-set, lt→ltb, set, get_elem?,
  take, take-set_end, drop, get_elem?-set_ne, replicate, All,
}
use pwrapi_ref.Prelude.Int.{ℤ, pos}
use pwrapi_ref.Counter.{Text, c_string, blank, capacity}
use pwrapi_ref.Cpu.Frequencies.{
  Scan, is_digit, digit_step, blank_step, char_step, scan_freqs, avail_freq, fresh_scan, max_freqs,
}
use pwrapi_ref.Cpu.Words.{
  overwrite, overwrite-eq, has_zero-end, c_string-end, drop-end, length-drop, scan_freqs-digits,
}

-- A word of the file: digits, at least one and fewer than the array holds.
pub record IsWord (word : Text) : Type 0 where
  pub digits : All (λ c. is_digit c ≡ true) word
  pub some_digit : 0 < length word
  pub room : length word < capacity

-- The words, with a blank after each.
abbrev pub words_text : List Text → Text
words_text [] = []
words_text (word ∷ words) = word ++ blank ∷ words_text words

-- The texts that the array holds when the blanks are read: each word stands over the one before it, so
-- the end of a longer one shows. `old` is the array without its last byte.
abbrev pub shown : Text → List Text → List Text
shown old [] = []
shown old (word ∷ words) =
    let now = word ++ drop (length word) old in c_string now ∷ shown now words

module _ (atoi : Text → ℤ) where
  -- The array ends with a zero that no word reaches, and a word has just begun.
  record Between (s : Scan) (old : Text) : Type 0 where
    array : s.val ≡ old ++ 0 ∷ []
    size : length old ≡ 19
    start : s.offset ≡ 0

  blank_step-stores :
      (s : Scan) (u : Text)
      → s.val ≡ u ++ 0 ∷ []
      → 0 < s.offset
      → s.count < length s.freq
      → blank_step true atoi s
        ≡ returns (record s {
          freq = set s.freq s.count (atoi (c_string u));
          count = s.count + 1;
          offset = 0;
        })
  unfolding blank_step
  blank_step-stores s u array started free = rw (
    ==_of_ne s.offset 0 (omega arith),
    array,
    has_zero-end u,
    c_string-end u,
    lt→ltb s.count (length s.freq) free,
  )

  scan_freqs-word :
      (s : Scan) (old word rest : Text)
      → Between s old
      → IsWord word
      → s.count < length s.freq
      → let now = word ++ drop (length word) old in
        scan_freqs true atoi s (word ++ blank ∷ rest)
        ≡ scan_freqs true atoi
            (record {
              val = now ++ 0 ∷ [];
              offset = 0;
              freq = set s.freq s.count (atoi (c_string now));
              count = s.count + 1;
            })
            rest
  unfolding scan_freqs char_step
  scan_freqs-word s old word rest b w free =
      let now = word ++ drop (length word) old in
      let s1 : Scan = record s {
        val = overwrite s.val s.offset word;
        offset = s.offset + length word;
      } in
      let size : length s.val ≡ 20 =
        ap length b.array ∙ length-append old (0 ∷ []) ∙ omega (arith, b.size) in
      let fits : length word ≤ 19 = omega (arith, w.room) in
      let array : overwrite s.val s.offset word ≡ now ++ 0 ∷ [] =
        ap (λ k. overwrite s.val k word) b.start
        ∙ overwrite-eq s.val word (omega (arith, size))
        ∙ ap (λ t. word ++ t)
            (ap (drop (length word)) b.array ∙ drop-end (length word) old (omega (arith, b.size)))
        ∙ sym (append_assoc word (drop (length word) old) (0 ∷ [])) in
      scan_freqs-digits true atoi s word (blank ∷ rest) w.digits (omega (arith, size, b.start))
      ∙ rw (blank_step-stores s1 now array (omega (arith, w.some_digit)) free) (
          ap
            (λ t.
              scan_freqs true atoi
                (record {
                  val = t;
                  offset = 0;
                  freq = set s.freq s.count (atoi (c_string now));
                  count = s.count + 1;
                })
                rest)
            array)

  scan_freqs-words :
      (words : List Text) (s : Scan) (old : Text)
      → Between s old
      → All IsWord words
      → s.count + length words ≤ length s.freq
      → (r : Scan) × (scan_freqs true atoi s (words_text words) ≡ returns r)
        × (r.count ≡ s.count + length words)
        × (take r.count r.freq ≡ take s.count s.freq ++ map atoi (shown old words))
  unfolding scan_freqs
  scan_freqs-words [] s old b ws room = (s, refl, omega arith, sym (append-nil _))
  scan_freqs-words (word ∷ words) s old b ws room =
      let now = word ++ drop (length word) old in
      let s' : Scan = record {
        val = now ++ 0 ∷ [];
        offset = 0;
        freq = set s.freq s.count (atoi (c_string now));
        count = s.count + 1;
      } in
      let fits : length word ≤ 19 = omega (arith, ws.0.room) in
      let (r, done, count, listed) =
        scan_freqs-words words s' now
          (record {
            array = refl;
            size = omega (
              arith,
              length-append word (drop (length word) old),
              length-drop (length word) old (omega (arith, b.size)),
              b.size,
            );
            start = refl;
          })
          ws.1 (omega (arith, length-set s.freq s.count (atoi (c_string now)))) in
      (
        r,
        scan_freqs-word s old word (words_text words) b ws.0 (omega arith) ∙ done,
        omega (arith, count),
        listed
            ∙ ap (λ t. t ++ map atoi (shown now words))
                (rw add-one (take-set_end s.freq s.count (atoi (c_string now)) (omega arith)))
            ∙ append_assoc (take s.count s.freq) (atoi (c_string now) ∷ [])
                (map atoi (shown now words)),
      )

  -- With its output for debugging on, and for at most 100 words of digits that are shorter than 20, each
  -- followed by a blank, the function returns and lists one number for each word. The number is that
  -- of the word written over the words before it, so a word that is shorter than an earlier one keeps
  -- the end of it.
  pub avail_freq-shown :
      (words : List Text)
      → All IsWord words
      → length words ≤ max_freqs
      → (r : Scan) × (avail_freq true atoi (some (words_text words)) ≡ returns r)
        × (r.count ≡ length words)
        × (take r.count r.freq ≡ map atoi (shown (replicate 19 0) words))
  unfolding avail_freq
  avail_freq-shown words ws room =
      let (r, done, count, listed) =
        scan_freqs-words words fresh_scan (replicate 19 0)
          (record { array = refl; size = refl; start = refl }) ws (omega arith) in
      (r, done, omega (arith, count), listed)

  char_step-silent :
      (s : Scan) (c j : ℕ) {r : Scan}
      → char_step false atoi s c ≡ returns r
      → s.count ≡ 0
      → (r.count ≡ 0) × (get_elem? r.freq (suc j) ≡ get_elem? s.freq (suc j))
  unfolding char_step digit_step blank_step
  char_step-silent s c j e none_yet =
      ground (arith, get_elem?-set_ne s.freq 0 (suc j) (atoi (c_string s.val)) (λ h. cc))

  scan_freqs-silent :
      (s : Scan) (text : Text) (j : ℕ) {r : Scan}
      → scan_freqs false atoi s text ≡ returns r
      → s.count ≡ 0
      → (r.count ≡ 0) × (get_elem? r.freq (suc j) ≡ get_elem? s.freq (suc j))
  unfolding scan_freqs
  scan_freqs-silent s [] j e none_yet = ground arith
  scan_freqs-silent s (c ∷ text) j e none_yet =
      let (s', first, rest) = >>=-returns (char_step false atoi s c) _ e in
      let (still, kept) = char_step-silent s c j first none_yet in
      let (count, same) = scan_freqs-silent s' text j rest still in (count, same ∙ kept)

  -- Whatever the file holds, a run with no output for debugging that returns leaves the count at 0, and
  -- every place of the list but the first.
  pub avail_freq-silent :
      (text : Text) {r : Scan}
      → avail_freq false atoi (some text) ≡ returns r
      → (j : ℕ)
      → (r.count ≡ 0) × (get_elem? r.freq (suc j) ≡ get_elem? (replicate max_freqs (pos 0)) (suc j))
  unfolding avail_freq
  avail_freq-silent text e j = scan_freqs-silent fresh_scan text j e refl
