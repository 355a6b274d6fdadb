-- ===== src/Powercap/Paths.antt =====
-- src/plugins/pwr_powercap.c: the names of the files. A text is the list of its bytes; how `sprintf`
-- writes a number is a parameter.
use Prim.Native.Char.{code}
use Prim.Native.String.{String}
use pwrapi_ref.Prelude.{
  ℕ, zero, suc, ◌+◌, Option, none, some, List, [], ◌∷◌, ◌++◌, ◌==◌, if◌then◌else◌, length, get_or,
  drop,
}

abbrev pub Text : Type 0
Text = List ℕ

abbrev pub codes : String → Text
codes String.[] = []
codes (String.◌∷◌ c s) = code c ∷ codes s

abbrev pub slash : ℕ
slash = 47

-- The loop of `findSuffix`: `n` is the distance of `end + 1` from the start of the text. The pointer is
-- moved once more when it has found the slash.
unfoldable pub back_to_slash : Text → ℕ → ℕ
back_to_slash path zero = zero
back_to_slash path (suc n) =
    let rest = back_to_slash path n in if get_or path n 0 == slash then n else rest

unfoldable pub find_suffix : Text → Text
unfolding back_to_slash
find_suffix path = drop (back_to_slash path (length path)) path

-- while( 1 ) { open prefix<num>/name, or stop; ++num; }: `exists` says which of the files open, and
-- `none` that the fuel ran out.
unfoldable pub find_num_zones : (ℕ → Option Text) → ℕ → ℕ → Option ℕ
find_num_zones name zero num = none
find_num_zones name (suc fuel) num = elim (name num) [
  | none ↦ some num
  | some _ ↦ find_num_zones name fuel (num + 1)
]

abbrev pub root_prefix : Text
root_prefix = codes "/sys/devices/virtual/powercap/intel-rapl/intel-rapl:"

module _ (dec : ℕ → Text) where
  -- "%s%d/name"
  abbrev pub numbered_name : Text → ℕ → Text
  numbered_name prefix num = prefix ++ dec num ++ codes "/name"

  -- "%s/%s:", with the suffix of the package's own directory.
  abbrev pub zones_prefix : Text → Text
  zones_prefix prefix = prefix ++ codes "/" ++ find_suffix prefix ++ codes ":"

  -- "%s/intel-rapl:%d:%d"
  abbrev pub zone_directory : Text → ℕ → ℕ → Text
  zone_directory prefix pkg zone =
      prefix ++ codes "/intel-rapl:" ++ dec pkg ++ codes ":" ++ dec zone

  -- "%s%d", with the prefix of all packages.
  abbrev pub package_directory : ℕ → Text
  package_directory pkg = root_prefix ++ dec pkg
