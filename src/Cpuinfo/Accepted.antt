-- ===== src/Cpuinfo/Accepted.antt =====
-- Proofs about `rapldev_identify` and `apmdev_identify` (src/plugins): a processor is accepted only
-- if every line that the loop looks at allows it.
use Prim.Native.String.{String}
use mathlib.Core.Path.{subst}
use text.Mathlib.Text.{starts_with}
use pwrapi_ref.Prelude.{◌≡◌, ◌⊎◌, inr, refl, arith, true, false, some, List, [], ◌∷◌, All}
use pwrapi_ref.Prelude.Int.{ℤ, pos, negsuc, eqb_ℤ}
use pwrapi_ref.Cpuinfo.{
  Scanner, Rules, Found, is_vendor_line, is_family_line, is_model_line, line_step, vendor_step,
  family_step, model_step, read_lines, identify,
}

module _ (rules : Rules) (scan : Scanner) where
  -- What a line says of the processor, where it says something that `sscanf` can read.
  pub record Allows (line : String) : Type 0 where
    pub vendor_ok :
        (v : String)
        → is_vendor_line line ≡ true
        → scan.third_word line ≡ some v
        → starts_with v rules.vendor ≡ true
    pub family_ok :
        (n : ℤ)
        → is_vendor_line line ≡ false
        → is_family_line line ≡ true
        → scan.fourth_int line ≡ some n
        → eqb_ℤ n rules.family ≡ true
    pub model_ok :
        (n : ℤ)
        → is_vendor_line line ≡ false
        → is_family_line line ≡ false
        → is_model_line line ≡ true
        → scan.third_int line ≡ some n
        → rules.supported n ≡ true

  -- The model is a supported one, or that of a file with no model line.
  abbrev Known : Found → Type 0
  Known s = (rules.supported s.cpu_model ≡ true) ⊎ (s.cpu_model ≡ negsuc 0)

  abbrev step : Found → String → Found
  step s line = line_step rules scan s line

  step-retval : (s : Found) (line : String) → (step s line).retval ≡ pos 0 → s.retval ≡ pos 0
  unfolding line_step vendor_step family_step model_step
  step-retval s line e = ground arith

  step-Allows : (s : Found) (line : String) → (step s line).retval ≡ pos 0 → Allows line
  unfolding line_step vendor_step family_step model_step
  step-Allows s line e = record {
    vendor_ok = λ v is_vendor word. ground arith;
    family_ok = λ n not_vendor is_family int. ground arith;
    model_ok = λ n not_vendor not_family is_model int. ground arith;
  }

  step-Known :
      (s : Found) (line : String) → (step s line).retval ≡ pos 0 → Known s → Known (step s line)
  unfolding line_step vendor_step family_step model_step
  step-Known s line e k = ground arith

  read_lines-retval :
      (s : Found) (lines : List String)
      → (read_lines rules scan s lines).retval ≡ pos 0
      → s.retval ≡ pos 0
  unfolding read_lines
  read_lines-retval s [] e = e
  read_lines-retval s (line ∷ lines) e =
      step-retval s line (read_lines-retval (step s line) lines e)

  read_lines-Allows :
      (s : Found) (lines : List String)
      → (read_lines rules scan s lines).retval ≡ pos 0
      → Known s
      → All Allows lines × Known (read_lines rules scan s lines)
  unfolding read_lines
  read_lines-Allows s [] e k = (tt, k)
  read_lines-Allows s (line ∷ lines) e k =
      let r = read_lines-retval (step s line) lines e in
      let (allowed, known) = read_lines-Allows (step s line) lines e (step-Known s line r k) in
      ((step-Allows s line r, allowed), known)

  abbrev start : ℤ → Found
  start junk = record { cpu_model = negsuc 0; vendor = ""; family = junk; retval = pos 0 }

  identify-cases :
      (junk : ℤ) (lines : List String) {m : ℤ}
      → identify rules scan junk (some lines) ≡ some m
      → ((read_lines rules scan (start junk) lines).retval ≡ pos 0)
        × ((read_lines rules scan (start junk) lines).cpu_model ≡ m)
  unfolding identify
  identify-cases junk lines e = ground arith

  -- If the processor is identified as model m, then no vendor, family or model line that could be read
  -- speaks against it, and m is a supported model or the -1 of a file that names no model.
  pub identify-Allows :
      (junk : ℤ) (lines : List String) {m : ℤ}
      → identify rules scan junk (some lines) ≡ some m
      → All Allows lines × ((rules.supported m ≡ true) ⊎ (m ≡ negsuc 0))
  identify-Allows junk lines e =
      let (ok, model) = identify-cases junk lines e in
      let (allowed, known) = read_lines-Allows (start junk) lines ok (inr refl) in
      (allowed, subst (λ n. (rules.supported n ≡ true) ⊎ (n ≡ negsuc 0)) model known)
