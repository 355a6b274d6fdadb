-- ===== src/Cpuinfo.antt =====
-- How the plugins for RAPL (src/plugins/pwr_rapldev.c) and APM (src/plugins/pwr_apmdev.c) recognise
-- the processor from the lines of /proc/cpuinfo. The two functions differ in three constants, the
-- fields of `Rules`. A line is what one `fgets` gave; `sscanf` is a parameter.
pub mod Accepted
use Prim.Native.String.{String}
use text.Mathlib.Text.{starts_with}
use pwrapi_ref.Prelude.{Bool, true, false, Option, none, some, List, [], ◌∷◌, if◌then◌else◌}
use pwrapi_ref.Prelude.Int.{ℤ, pos, negsuc, eqb_ℤ}
use pwrapi_ref.Plugin.{written}

-- `sscanf` with the formats "%*s%*s%s", "%*s%*s%*s%d" and "%*s%*s%d"; `none` when it stores nothing.
pub record Scanner : Type 0 where
  pub third_word : String → Option String
  pub fourth_int : String → Option ℤ
  pub third_int : String → Option ℤ

pub record Rules : Type 0 where
  pub vendor : String
  pub family : ℤ
  pub supported : ℤ → Bool

-- The local variables of the loop.
pub record Found : Type 0 where
  pub cpu_model : ℤ
  pub vendor : String
  pub family : ℤ
  pub retval : ℤ

abbrev pub is_vendor_line : String → Bool
is_vendor_line line = starts_with line "vendor_i"

abbrev pub is_family_line : String → Bool
is_family_line line = starts_with line "cpu_family"

abbrev pub is_model_line : String → Bool
is_model_line line = starts_with line "model"

module _ (rules : Rules) (scan : Scanner) where
  pub vendor_step : Found → String → Found
  vendor_step s line =
      let vendor = written (scan.third_word line) s.vendor in
      if starts_with vendor rules.vendor
      then record s { vendor = vendor }
      else record s { vendor = vendor; retval = negsuc 0 }

  pub family_step : Found → String → Found
  family_step s line =
      let family = written (scan.fourth_int line) s.family in
      if eqb_ℤ family rules.family
      then record s { family = family }
      else record s { family = family; retval = negsuc 0 }

  pub model_step : Found → String → Found
  model_step s line =
      let model = written (scan.third_int line) s.cpu_model in
      if rules.supported model
      then record s { cpu_model = model }
      else record s { cpu_model = model; retval = negsuc 0 }

  pub line_step : Found → String → Found
  line_step s line =
      if is_vendor_line line
      then vendor_step s line
      else if is_family_line line
      then family_step s line
      else if is_model_line line
      then model_step s line
      else s

  unfoldable pub read_lines : Found → List String → Found
  read_lines s [] = s
  read_lines s (line ∷ lines) = read_lines (line_step s line) lines

  -- The C variable `family` starts with no value of its own: `junk` is what the stack holds. The
  -- result is `none` for a return of -1, and the model otherwise.
  unfoldable pub identify : ℤ → Option (List String) → Option ℤ
  unfolding read_lines line_step vendor_step family_step model_step
  identify junk none = none
  identify junk (some lines) =
      let s =
        read_lines (record { cpu_model = negsuc 0; vendor = ""; family = junk; retval = pos 0 })
          lines in
      if eqb_ℤ s.retval (pos 0) then some s.cpu_model else none
