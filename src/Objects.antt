-- ===== src/Objects.antt =====
-- src/pwr/object.cc, object.h, device.h, attrInfo.h: an object reads and
-- writes its attributes through the devices that a configuration gave it. A device is what a plugin
-- offers for one descriptor, a parameter here. The caller's arrays are functions of an index.
pub mod Codes
pub mod Groups
pub mod Members
use pwrapi_ref.Prelude.{
  ℕ, zero, suc, ◌+◌, ◌*◌, Bool, true, false, not, ◌||◌, Option, none, some, List, [], ◌∷◌, map,
  Outcome, returns, aborts, faults, in_bounds, ◌==◌, if◌then◌else◌, length,
}
use pwrapi_ref.Prelude.Int.{ℤ, pos, negsuc, at_index}
use pwrapi_ref.Prelude.Acts.{Act, proceed, give, of, ◌>>=◌}
use pwrapi_ref.Types.{AttrName, attr_code, ret_success, ret_failure}
use pwrapi_ref.Plugin.{Reading, written}
use pwrapi_ref.Wire.{Text}
use pwrapi_ref.Client.{AccessError, Status, status_add, status_pop}

abbrev pub ret_status : ℤ
ret_status = negsuc 14

abbrev pub ret_invalid : ℤ
ret_invalid = negsuc 3

abbrev pub is_success : ℤ → Bool
is_success (pos zero) = true
is_success _ = false

-- What an access comes to: a value, or the code with which a device refuses.
pub data Result (A : Type 0) : Type 0 where
  done : A → Result A
  refused : ℤ → Result A

abbrev pub checked : {A : Type 0} → ℤ → A → Result A
checked r a = if is_success r then done a else refused r

-- `true` where there is none.
abbrev pub is_empty : {A : Type 0} → List A → Bool
is_empty [] = true
is_empty _ = false

module _ {W : Type 0} where
  abbrev pub joined : {A : Type 0} → A → Result (List A) × W → Result (List A) × W
  joined a (done vs, w) = (done (a ∷ vs), w)
  joined a (refused r, w) = (refused r, w)

  -- A loop over devices that returns the first code that is not that of success.
  abbrev pub then_all :
      {A : Type 0} → Result A × W → (W → Result (List A) × W) → Result (List A) × W
  then_all (refused r, w) rest = (refused r, w)
  then_all (done a, w) rest = joined a (rest w)

  unfoldable pub all_of : {D A : Type 0} → (D → W → Result A × W) → List D → W → Result (List A) × W
  all_of call [] w = (done [], w)
  all_of call (d ∷ ds) w = then_all (call d w) (all_of call ds)

-- The calls of a plugin; those for logs may be missing.
pub record Device (W : Type 0) : Type 0 where
  pub read : AttrName → W → Reading ℕ × W
  pub write : AttrName → ℕ → W → ℤ × W
  pub log_start : Option (AttrName → W → ℤ × W)
  pub log_stop : Option (AttrName → W → ℤ × W)

module _ {W : Type 0} where
  -- The value and the time were zero before.
  abbrev pub get_value : AttrName → Device W → W → Result (ℕ × ℤ) × W
  get_value attr d w =
      let (r, w') = d.read attr w in
      (checked r.status (written r.value 0, written r.stamp (pos 0)), w')

  abbrev pub set_value : AttrName → ℕ → Device W → W → Result (Unit {0}) × W
  set_value attr v d w = let (r, w') = d.write attr v w in (checked r tt, w')

  abbrev pub log_call : Option (AttrName → W → ℤ × W) → AttrName → W → Result (Unit {0}) × W
  log_call none attr w = (checked ret_failure tt, w)
  log_call (some call) attr w = let (r, w') = call attr w in (checked r tt, w')

  abbrev pub start_log : AttrName → Device W → W → Result (Unit {0}) × W
  start_log attr d = log_call d.log_start attr

  abbrev pub stop_log : AttrName → Device W → W → Result (Unit {0}) × W
  stop_log attr d = log_call d.log_stop attr

-- `AttrInfo`: the pointer `comm` is asked for null only.
pub record AttrInfo (W : Type 0) : Type 0 where
  pub devices : List (Device W)
  pub comm : Bool
  pub operation : List ℕ → ℕ
  pub calc_time : List ℤ → ℤ

-- `self` is the address of the object; `m_attrInfo` is a vector of PWR_NUM_ATTR_NAMES entries.
pub record Object (W : Type 0) : Type 0 where
  pub self : ℕ
  pub name : Text
  pub attr_info : List (AttrInfo W)

-- The values and the times of the caller.
pub record Buffers : Type 0 where
  pub buf : ℕ → ℕ
  pub ts : ℕ → ℤ

abbrev pub put : {A : Type 0} → (ℕ → A) → ℕ → A → ℕ → A
put f i a j = if i == j then a else f j

abbrev pub stored_at : ℕ → Option (ℕ × ℤ) → Buffers → Buffers
stored_at i none b = b
stored_at i (some (v, t)) b = record { buf = put b.buf i v; ts = put b.ts i t }

abbrev pub code_of_status : Status → ℤ
code_of_status [] = ret_success
code_of_status (e ∷ s) = ret_status

module _ {W : Type 0} where
  abbrev pub attr_is_valid : AttrInfo W → Bool
  attr_is_valid info = not (is_empty info.devices) || info.comm

  -- What the devices gave, put together; an attribute without a device leaves the buffer alone.
  abbrev pub put_together : AttrInfo W → Result (List (ℕ × ℤ)) → Result (Option (ℕ × ℤ))
  put_together info (refused r) = refused r
  put_together info (done []) = done none
  put_together info (done (v ∷ vs)) =
      done
        (some (info.operation (map (λ p. p.0) (v ∷ vs)), info.calc_time (map (λ p. p.1) (v ∷ vs))))

  unfoldable pub attr_get_values_device : AttrInfo W → AttrName → W → Result (Option (ℕ × ℤ)) × W
  attr_get_values_device info attr w =
      let (r, w') = all_of (get_value attr) info.devices w in (put_together info r, w')

  unfoldable pub attr_set_values_device :
      AttrInfo W → AttrName → ℕ → W → Result (List (Unit {0})) × W
  attr_set_values_device info attr v = all_of (set_value attr v) info.devices

  abbrev pub if_valid : {A : Type 0} → AttrInfo W → (W → Result A × W) → W → Result A × W
  if_valid info call w = if attr_is_valid info then call w else (refused ret_invalid, w)

  -- m_attrInfo[ attr ], which looks at no bound.
  abbrev pub info_of : Object W → AttrName → Outcome (AttrInfo W)
  info_of o attr = in_bounds (at_index o.attr_info (attr_code attr))

  -- A refusal is noted and ends the loop.
  abbrev pub noting :
      {A B : Type 0}
      → Object W
      → AttrName
      → B
      → Status
      → (A → Act W (B × Status))
      → Result A × W
      → Outcome (B × Status) × W
  noting o attr b s rest (done a, w) = rest a w
  noting o attr b s rest (refused r, w) =
      (returns (b, status_add s (some o.self) (attr_code attr) r), w)

  unfoldable pub get_loop :
      Object W → ℕ → List AttrName → Buffers → Status → Act W (Buffers × Status)
  get_loop o i [] b s w = (returns (b, s), w)
  get_loop o i (attr ∷ attrs) b s w =
      let zeroed = stored_at i (some (0, pos 0)) b in
      proceed (info_of o attr, w)
        (λ info w.
          noting o attr zeroed s (λ v. get_loop o (suc i) attrs (stored_at i v zeroed) s)
            (if_valid info (attr_get_values_device info attr) w))

  unfoldable pub attr_get_values :
      Object W → List AttrName → Buffers → Status → Act W (ℤ × Buffers × Status)
  attr_get_values o attrs b s = get_loop o 0 attrs b s >>= λ r. give (code_of_status r.1, r.0, r.1)

  unfoldable pub set_loop :
      Object W → ℕ → List AttrName → (ℕ → ℕ) → Status → Act W (Unit {0} × Status)
  set_loop o i [] buf s w = (returns (tt, s), w)
  set_loop o i (attr ∷ attrs) buf s w =
      proceed (info_of o attr, w)
        (λ info w.
          noting o attr tt s (λ _. set_loop o (suc i) attrs buf s)
            (if_valid info (attr_set_values_device info attr (buf i)) w))

  unfoldable pub attr_set_values : Object W → List AttrName → (ℕ → ℕ) → Status → Act W (ℤ × Status)
  attr_set_values o attrs buf s = set_loop o 0 attrs buf s >>= λ r. give (code_of_status r.1, r.1)

abbrev pub error_of : Option AccessError → Outcome ℤ
error_of none = faults
error_of (some e) = returns e.error

-- The code that is reported for one attribute.
abbrev pub popped : ℤ × Option AccessError × Status → Outcome ℤ
popped (r, e, s) = if is_success r then error_of e else aborts

unfoldable pub single_code : ℤ → Status → Outcome ℤ
single_code r s = if is_success r then returns ret_success else popped (status_pop s)

abbrev pub log_code : {A : Type 0} → Result A → ℤ
log_code (done a) = ret_success
log_code (refused r) = r

module _ {W : Type 0} where
  unfoldable pub attr_get_value : Object W → AttrName → Buffers → Act W (ℤ × Buffers)
  attr_get_value o attr b = attr_get_values o (attr ∷ []) b [] >>= λ r.
      of (single_code r.0 r.2) >>= λ code. give (code, r.1)

  unfoldable pub attr_set_value : Object W → AttrName → (ℕ → ℕ) → Act W ℤ
  attr_set_value o attr buf = attr_set_values o (attr ∷ []) buf [] >>= λ r. of (single_code r.0 r.1)

  abbrev pub attr_log : (Device W → W → Result (Unit {0}) × W) → AttrInfo W → Act W ℤ
  attr_log call info w =
      if attr_is_valid info
      then (let (r, w') = all_of call info.devices w in (returns (log_code r), w'))
      else (returns ret_failure, w)

  unfoldable pub attr_start_log : Object W → AttrName → Act W ℤ
  attr_start_log o attr = of (info_of o attr) >>= attr_log (start_log attr)

  unfoldable pub attr_stop_log : Object W → AttrName → Act W ℤ
  attr_stop_log o attr = of (info_of o attr) >>= attr_log (stop_log attr)
