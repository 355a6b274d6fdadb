-- ===== src/Counter/Blanks.antt =====
-- Proofs about src/plugins/pwr_xtpmdev.c and src/plugins/pwr_cpudev.c: which files can be read.
use mathlib.Core.Path.{subst}
use mathlib.Core.List.{append_assoc}
use native.Mathlib.Nat.{zero-add, suc-add}
use pwrapi_ref.Prelude.{
  ℕ, zero, suc, ◌+◌, ◌-◌, ◌≤◌, ◌<◌, ◌≡◌, ◌≢◌, refl, sym, ap, ◌∙◌, arith, [], ◌∷◌, ◌++◌, returns,
  faults, Bool, false, some, ==_of_ne, length, length-append, get_or-set_ne, set, get_or, take,
  replicate, All,
}
use pwrapi_ref.Counter.{Text, blank, capacity, c_string, scan_text, read_text}

-- A byte of a number: no blank and no zero.
abbrev pub Plain : ℕ → Type 0
Plain c = (c ≢ blank) × (c ≢ 0)

get_or-replicate : (n i : ℕ) → get_or {A = ℕ} (replicate n 0) i 0 ≡ 0
get_or-replicate zero i = refl
get_or-replicate (suc n) zero = refl
get_or-replicate (suc n) (suc i) = get_or-replicate n i

-- What the array holds while the file is read: the bytes so far, then zeros.
padded : ℕ → Text → Text
padded n [] = replicate n 0
padded n (c ∷ cs) = c ∷ padded n cs

set-padded :
    (n : ℕ) (cs : Text) (c : ℕ) → set (padded (suc n) cs) (length cs) c ≡ padded n (cs ++ c ∷ [])
unfolding padded
set-padded n [] c = refl
set-padded n (d ∷ cs) c = ap (◌∷◌ d) (set-padded n cs c)

c_string-padded : (n : ℕ) (cs : Text) → All (λ c. c ≢ 0) cs → c_string (padded n cs) ≡ cs
unfolding padded
c_string-padded zero [] p = refl
c_string-padded (suc n) [] p = refl
c_string-padded n (c ∷ cs) p = rw (==_of_ne c 0 p.0) (ap (◌∷◌ c) (c_string-padded n cs p.1))

-- The loop in the middle of a number: `room` bytes are free after those of the number and the blank.
scan_text-word :
    (fails : Bool) (room : ℕ) (done word rest : Text)
    → All Plain word
    → scan_text fails
        (length word + suc room)
        (padded (length word + suc room) done)
        (length done)
        (word ++ blank ∷ rest)
      ≡ returns (some (c_string (padded room (done ++ (word ++ blank ∷ [])))))
scan_text-word fails room done [] rest p = rw zero-add (unfold scan_text in rw set-padded)
scan_text-word fails room done (c ∷ word) rest p =
    let n : ℕ = length word + suc room in
    let step : scan_text fails (suc n) (padded (suc n) done) (length done)
          (c ∷ (word ++ blank ∷ rest))
        ≡ scan_text fails n (padded n (done ++ c ∷ [])) (length (done ++ c ∷ []))
            (word ++ blank ∷ rest) =
      unfold scan_text in
      rw (==_of_ne c blank p.0.0, set-padded, length-append done (c ∷ [])) refl in
    rw suc-add (
      step
      ∙ scan_text-word fails room (done ++ c ∷ []) word rest p.1
      ∙ ap (λ t. returns (some (c_string (padded room t))))
          (append_assoc done (c ∷ []) (word ++ blank ∷ [])))

All-snoc : (word : Text) → All Plain word → All (λ c. c ≢ 0) (word ++ blank ∷ [])
All-snoc [] p = (omega arith, tt)
All-snoc (c ∷ word) p = (p.0.1, All-snoc word p.1)

replicate-padded : (n : ℕ) → replicate n 0 ≡ padded n []
unfolding padded
replicate-padded n = refl

-- A number of fewer than 20 bytes, none of them a blank or a zero, that is followed by a blank is read
-- whole with its blank, whatever follows.
pub read_text-word :
    (word rest : Text) (fails : Bool)
    → All Plain word
    → length word < capacity
    → read_text (record { bytes = word ++ blank ∷ rest; fails = fails })
      ≡ returns (some (word ++ blank ∷ []))
unfolding read_text padded
read_text-word word rest fails p h =
    let room : ℕ = 19 - length word in
    let size : length word + suc room ≡ 20 = omega arith in
    subst
      (λ n.
        scan_text fails n (replicate n 0) 0 (word ++ blank ∷ rest)
        ≡ returns (some (word ++ blank ∷ [])))
      size
      (scan_text-word fails room [] word rest p
        ∙ ap (λ t. returns (some t)) (c_string-padded room (word ++ blank ∷ []) (All-snoc word p)))

scan_text-faults :
    (left : ℕ) (strval : Text) (offset : ℕ) (rest : Text)
    → All (λ c. c ≢ blank) (take left rest)
    → ((j : ℕ) → offset ≤ j → get_or strval j 0 ≢ blank)
    → scan_text false left strval offset rest ≡ faults
unfolding scan_text
scan_text-faults zero strval offset [] p q = refl
scan_text-faults zero strval offset (c ∷ rest) p q = refl
scan_text-faults (suc left) strval offset [] p q =
    rw (==_of_ne (get_or strval offset 0) blank (q offset (omega arith)))
      (scan_text-faults left strval (offset + 1) [] (nothing left) (λ j h. q j (omega arith)))
  where
    nothing : (n : ℕ) → All (λ c. c ≢ blank) (take n [])
    nothing zero = tt
    nothing (suc n) = tt
scan_text-faults (suc left) strval offset (c ∷ rest) p q = rw (==_of_ne c blank p.0) (
    scan_text-faults left (set strval offset c) (offset + 1) rest p.1 (λ j h.
      subst (λ d. d ≢ blank) (sym (get_or-set_ne strval offset j c 0 (omega arith)))
        (q j (omega arith))))

-- A file with no blank among its first 20 bytes, such as one that holds a number and a line feed, is
-- never read: the loop leaves the array. None of its bytes is refused.
pub read_text-faults :
    (file : Text)
    → All (λ c. c ≢ blank) (take capacity file)
    → read_text (record { bytes = file; fails = false }) ≡ faults
unfolding read_text
read_text-faults file p =
    scan_text-faults capacity (replicate capacity 0) 0 file p
      (λ j h. subst (λ d. d ≢ blank) (sym (get_or-replicate capacity j)) (omega arith))
