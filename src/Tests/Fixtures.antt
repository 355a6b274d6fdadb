-- ===== src/Tests/Fixtures.antt =====
-- What the runs share: whole numbers in the place of doubles, and a processor as /proc/cpuinfo shows it.
use Prim.Native.String.{String}
use pwrapi_ref.Prelude.{◌+◌, ◌≡◌, true, none, some, List, [], ◌∷◌, ==_self}
use pwrapi_ref.Prelude.Int.{ℤ, pos, ◌+ℤ◌, ◌-ℤ◌, ◌*ℤ◌, eqb_ℤ, pos_part, neg_part}
use pwrapi_ref.Prelude.Doubles.{Doubles}
use pwrapi_ref.Cpuinfo.{Scanner}

abbrev pub whole : Doubles ℤ
whole = record {
  of_int = λ n. n;
  literal = λ mantissa digits. pos mantissa;
  add = ◌+ℤ◌;
  sub = ◌-ℤ◌;
  mul = ◌*ℤ◌;
  div = λ a b. a;
  pow = λ a b. a;
  eq = eqb_ℤ;
  to_uint = pos_part;
  to_time = λ n. n;
}

pub eqb_ℤ-self : (n : ℤ) → eqb_ℤ n n ≡ true
eqb_ℤ-self n = ==_self (pos_part n + neg_part n)

abbrev pub intel : List String
intel = "vendor_id : GenuineIntel" ∷ "cpu family : 6" ∷ "model : 45" ∷ []

abbrev pub intel_scan : Scanner
intel_scan = record {
  third_word = λ line. some "GenuineIntel";
  fourth_int = λ line. some (pos 6);
  third_int = λ line. some (pos 45);
}

abbrev pub amd : List String
amd = "vendor_id : AuthenticAMD" ∷ "model : 16" ∷ []

abbrev pub amd_scan : Scanner
amd_scan = record {
  third_word = λ line. some "AuthenticAMD";
  fourth_int = λ line. none;
  third_int = λ line. some (pos 16);
}
