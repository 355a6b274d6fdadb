-- ===== src/Cpu/Frequencies.antt =====
-- src/plugins/pwr_cpudev.c: `cpudev_avail_freq`, which reads a list of numbers from a file. `atoi` is a
-- parameter. The count of the numbers goes up inside the macro DBGP only, so `debug` says whether the
-- program is compiled with its output for debugging and the output of plugins is on.
use pwrapi_ref.Prelude.{
  ℕ, ◌+◌, Bool, true, false, not, ◌&&◌, Option, none, some, List, [], ◌∷◌, Outcome, returns, aborts,
  faults, ◌>>=◌, assert, ◌==◌, if◌then◌else◌, ltb, leb, length, set, replicate,
}
use pwrapi_ref.Prelude.Int.{ℤ, pos}
use pwrapi_ref.Counter.{Text, blank, capacity, c_string}

-- The local variables, the array and the count.
pub record Scan : Type 0 where
  pub val : Text
  pub offset : ℕ
  pub freq : List ℤ
  pub count : ℕ

abbrev pub is_digit : ℕ → Bool
is_digit c = leb 48 c && leb c 57

abbrev pub has_zero : Text → Bool
has_zero [] = false
has_zero (c ∷ cs) = if c == 0 then true else has_zero cs

abbrev pub max_freqs : ℕ
max_freqs = 100

-- What `pwr_cpudev_init` passes: an array and a count that `bzero` has cleared.
abbrev pub fresh_scan : Scan
fresh_scan = record {
  val = replicate capacity 0;
  offset = 0;
  freq = replicate max_freqs (pos 0);
  count = 0;
}

-- val[offset++] = c
unfoldable pub digit_step : Scan → ℕ → Outcome Scan
digit_step s c =
    if ltb s.offset (length s.val)
    then returns (record s { val = set s.val s.offset c; offset = s.offset + 1 })
    else faults

module _ (debug : Bool) (atoi : Text → ℤ) where
  -- `atoi` leaves the array where no zero ends the text.
  abbrev pub number : Text → Outcome ℤ
  number val = if has_zero val then returns (atoi (c_string val)) else faults

  -- freq[*count] = …, DBGP( …, freq[(*count)++] ), offset = 0: the text stays in the array.
  abbrev pub store_freq : Scan → ℤ → Outcome Scan
  store_freq s value =
      if ltb s.count (length s.freq)
      then returns (record s {
        freq = set s.freq s.count value;
        count = if debug then s.count + 1 else s.count;
        offset = 0;
      })
      else faults

  unfoldable pub blank_step : Scan → Outcome Scan
  blank_step s = do _ ← assert (not (s.offset == 0)); value ← number s.val; store_freq s value

  unfoldable pub char_step : Scan → ℕ → Outcome Scan
  unfolding digit_step blank_step
  char_step s c =
      if is_digit c then digit_step s c else if c == blank then blank_step s else returns s

  unfoldable pub scan_freqs : Scan → Text → Outcome Scan
  scan_freqs s [] = returns s
  scan_freqs s (c ∷ text) = do s' ← char_step s c; scan_freqs s' text

  -- `none` for a file that cannot be opened.
  unfoldable pub avail_freq : Option Text → Outcome Scan
  unfolding scan_freqs
  avail_freq none = aborts
  avail_freq (some text) = scan_freqs fresh_scan text
