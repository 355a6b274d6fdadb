-- ===== src/Tests/ObjectRuns.antt =====
-- An object with two devices for its power, the second of which fails from the third access on, and groups.
use pwrapi_ref.Prelude.{
  ℕ, zero, suc, ◌+◌, ◌≡◌, refl, Bool, true, false, Option, none, some, faults, replicate, ◌++◌,
  Outcome, List, [], ◌∷◌, returns, ltb, ◌==◌, if◌then◌else◌, map,
}
use pwrapi_ref.Prelude.Int.{ℤ, pos, negsuc}
use pwrapi_ref.Types.{AttrName, ret_success, ret_failure}
use pwrapi_ref.Wire.{Text}
use pwrapi_ref.Client.{AccessError, Status, status_add, status_pop}
use pwrapi_ref.Objects.{
  Device, AttrInfo, Object, Buffers, attr_get_value, attr_set_value, attr_get_values,
  attr_start_log, attr_stop_log, attr_set_values, set_loop, attr_set_values_device, get_loop,
  attr_get_values_device, all_of, single_code, ret_invalid,
}
use pwrapi_ref.Objects.Codes.{attr_value-code, attr_value-faults}
use pwrapi_ref.Objects.Groups.{
  group_get_values, get_members, group_set_value, set_each, group_set_values, set_members,
  find_named, holds, add, remove,
}
use pwrapi_ref.Objects.Members.{adds, removes, member_after, Distinct, change_all-holds_once}

-- The world counts the accesses.
abbrev device : ℕ → Device ℕ
device v = record {
  read = λ attr w. (
    record {
      status = if ltb w 3 then ret_success else negsuc 4;
      value = some (v + w);
      stamp = none;
    },
    suc w,
  );
  write = λ attr v w. (if ltb w 3 then ret_success else negsuc 7, suc w);
  log_start = none;
  log_stop = none;
}

abbrev sum : List ℕ → ℕ
sum [] = 0
sum (x ∷ xs) = x + sum xs

abbrev no_devices : AttrInfo ℕ
no_devices = record { devices = []; comm = false; operation = sum; calc_time = λ ts. pos 0 }

abbrev of_power : AttrInfo ℕ
of_power = record no_devices { devices = device 10 ∷ device 20 ∷ [] }

abbrev node : Object ℕ
node = record {
  self = 2;
  name = 110 ∷ [];
  attr_info = replicate 6 no_devices ++ of_power ∷ replicate 11 no_devices;
}

abbrev untouched : Buffers
untouched = record { buf = λ i. 99; ts = λ i. pos 99 }

attr_value-code_example :
    (b' : Buffers) × ((attr_get_value node AttrName.power untouched 2).0 ≡ returns (negsuc 4, b'))
    × ((attr_set_value node AttrName.power (λ i. 5) 2).0 ≡ returns (negsuc 7))
attr_value-code_example = attr_value-code node AttrName.power of_power untouched (λ i. 5) 2 refl

get_voltage :
    (b' : Buffers) × ((attr_get_value node AttrName.voltage untouched 0).0
      ≡ returns (ret_invalid, b'))
    × ((attr_set_value node AttrName.voltage (λ i. 5) 0).0 ≡ returns ret_invalid)
get_voltage = attr_value-code node AttrName.voltage no_devices untouched (λ i. 5) 0 refl

-- PWR_ATTR_NOT_SPECIFIED has no entry in the vector.
get_unspecified :
    ((attr_get_value node AttrName.not_specified untouched 0).0 ≡ faults)
    × ((attr_set_value node AttrName.not_specified (λ i. 5) 0).0 ≡ faults)
get_unspecified = attr_value-faults node AttrName.not_specified untouched (λ i. 5) 0 refl

-- The first object gives 10 and 21, and the second device of the second object fails.
abbrev values : Outcome (ℤ × Buffers × Status) → List ℕ
values (returns (code, b, s)) = map b.buf (0 ∷ 1 ∷ 2 ∷ [])
values _ = []

group_values :
    values (group_get_values (λ i. node) (AttrName.power ∷ []) (1 ∷ 2 ∷ []) untouched [] 0).0
    ≡ 31 ∷ 0 ∷ 99 ∷ []
unfolding group_get_values get_members attr_get_values get_loop attr_get_values_device all_of
group_values = refl

-- The plugin has no logs, and the attribute without a device is refused with another code than in a read.
logs :
    ((attr_start_log node AttrName.power 0).0 ≡ returns ret_failure)
    × ((attr_stop_log node AttrName.voltage 0).0 ≡ returns ret_failure)
unfolding attr_start_log attr_stop_log all_of
logs = (refl, refl)

abbrev refusal : AccessError
refusal = record { obj = some 2; name = pos 6; error = negsuc 7 }

group_refused :
    (group_set_values (λ i. node) (AttrName.power ∷ []) (λ i. 5) (1 ∷ 2 ∷ []) [] 0).0
    ≡ returns (ret_failure, refusal ∷ [])
unfolding group_set_values set_members attr_set_values set_loop attr_set_values_device all_of
    status_add
group_refused = refl

-- The second object refuses, and its error is noted.
group_value :
    (group_set_value (λ i. node) AttrName.power (λ i. 5) (1 ∷ 2 ∷ []) [] 0).0
    ≡ returns (ret_failure, refusal ∷ [])
unfolding group_set_value set_each attr_set_value attr_set_values set_loop attr_set_values_device
    all_of status_add single_code status_pop
group_value = refl

-- The object "n.c" is found by the name "c" below its parent "n".
abbrev same : Text → Text → Bool
same [] [] = true
same (c ∷ s) (d ∷ t) = let rest = same s t in if c == d then rest else false
same _ _ = false

abbrev name_of : ℕ → Text
name_of zero = 110 ∷ []
name_of _ = 110 ∷ 46 ∷ 99 ∷ []

abbrev parent_of : ℕ → Option ℕ
parent_of zero = none
parent_of _ = some 0

found : find_named same name_of parent_of (99 ∷ []) (0 ∷ 7 ∷ []) ≡ some 7
unfolding find_named
found = refl

change_all-holds_once_example :
    Distinct (1 ∷ 3 ∷ [])
    × ((obj : ℕ)
        → holds (1 ∷ 3 ∷ []) obj
          ≡ member_after (adds 1 ∷ adds 2 ∷ adds 1 ∷ adds 3 ∷ removes 2 ∷ []) obj false)
unfolding add remove
change_all-holds_once_example =
    change_all-holds_once (adds 1 ∷ adds 2 ∷ adds 1 ∷ adds 3 ∷ removes 2 ∷ [])
