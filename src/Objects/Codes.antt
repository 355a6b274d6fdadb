-- ===== src/Objects/Codes.antt =====
-- Proofs about src/pwr/object.cc: the code of an access to one attribute.
use pwrapi_ref.Prelude.{
  ℕ, ◌≡◌, refl, ap, ◌∙◌, Bool, true, false, returns, List, [], ◌∷◌, none, some, faults,
  if◌then◌else◌,
}
use pwrapi_ref.Prelude.Int.{ℤ, pos, at_index}
use pwrapi_ref.Prelude.Acts.{give, of, proceed, ◌>>=◌}
use pwrapi_ref.Types.{AttrName, attr_code, ret_success}
use pwrapi_ref.Plugin.{written}
use pwrapi_ref.Client.{Status, status_add, status_pop}
use pwrapi_ref.Objects.{
  Device, AttrInfo, Object, Buffers, Result, done, refused, checked, is_success, log_code, if_valid,
  attr_is_valid, ret_invalid, all_of, joined, then_all, put_together, get_value,
  attr_get_values_device, attr_set_values_device, attr_get_value, attr_get_values, get_loop,
  attr_set_value, attr_set_values, set_loop, single_code, noting, stored_at, code_of_status,
}

module _ {W : Type 0} where
  -- The first code of the devices, asked one after the other, that is not that of success.
  abbrev pub first_code : (Device W → W → ℤ × W) → List (Device W) → W → ℤ
  first_code ask [] w = ret_success
  first_code ask (d ∷ ds) w =
      let (r, w') = ask d w in let rest = first_code ask ds w' in if is_success r then rest else r

  -- The code of a device for a read and for a write, and that of an attribute for an access.
  abbrev pub read_code : AttrName → Device W → W → ℤ × W
  read_code attr d w = let (r, w') = d.read attr w in (r.status, w')

  abbrev pub info_code : AttrInfo W → (Device W → W → ℤ × W) → W → ℤ
  info_code info ask w = if attr_is_valid info then first_code ask info.devices w else ret_invalid

  joined-code :
      {A : Type 0} (a : A) (x : Result (List A) × W) → log_code (joined a x).0 ≡ log_code x.0
  joined-code a (done vs, w) = refl
  joined-code a (refused r, w) = refl

  then_all-code :
      {A : Type 0} (ok : Bool) (r : ℤ) (a : A) (w : W) (rest : W → Result (List A) × W)
      → log_code (then_all (if ok then done a else refused r, w) rest).0
        ≡ (if ok then log_code (rest w).0 else r)
  then_all-code true r a w rest = joined-code a (rest w)
  then_all-code false r a w rest = refl

  all_of-code :
      {A : Type 0} (ask : Device W → W → ℤ × W) (val : Device W → W → A) (ds : List (Device W))
      (w : W)
      → log_code (all_of (λ d w. (checked (ask d w).0 (val d w), (ask d w).1)) ds w).0
        ≡ first_code ask ds w
  unfolding all_of
  all_of-code ask val [] w = refl
  all_of-code ask val (d ∷ ds) w =
      let (r, w') = ask d w in
      then_all-code (is_success r) r (val d w) w'
        (all_of (λ d w. (checked (ask d w).0 (val d w), (ask d w).1)) ds)
      ∙ ap (λ c. if is_success r then c else r) (all_of-code ask val ds w')

  put_together-code :
      (info : AttrInfo W) (r : Result (List (ℕ × ℤ))) → log_code (put_together info r) ≡ log_code r
  put_together-code info (refused r) = refl
  put_together-code info (done []) = refl
  put_together-code info (done (v ∷ vs)) = refl

  if_valid-code :
      {A : Type 0} (info : AttrInfo W) (call : W → Result A × W) (w : W) {c : ℤ}
      → log_code (call w).0 ≡ c
      → log_code (if_valid info call w).0 ≡ (if attr_is_valid info then c else ret_invalid)
  if_valid-code info call w {c = c} e = go (attr_is_valid info)
    where
      go :
          (valid : Bool)
          → log_code (if valid then call w else (refused ret_invalid, w)).0
            ≡ (if valid then c else ret_invalid)
      go true = e
      go false = refl

  get_device-code :
      (info : AttrInfo W) (attr : AttrName) (w : W)
      → log_code (attr_get_values_device info attr w).0 ≡ first_code (read_code attr) info.devices w
  unfolding attr_get_values_device
  get_device-code info attr w =
      put_together-code info (all_of (get_value attr) info.devices w).0
      ∙ all_of-code (read_code attr)
          (λ d w. (written (d.read attr w).0.value 0, written (d.read attr w).0.stamp (pos 0)))
          info.devices w

  set_device-code :
      (info : AttrInfo W) (attr : AttrName) (v : ℕ) (w : W)
      → log_code (attr_set_values_device info attr v w).0
        ≡ first_code (λ d. d.write attr v) info.devices w
  unfolding attr_set_values_device
  set_device-code info attr v w = all_of-code (λ d. d.write attr v) (λ d w. tt) info.devices w

module _ {W : Type 0} (o : Object W) (attr : AttrName) where
  -- The error that was noted is there to be popped.
  noting-get :
      {A : Type 0} (b : Buffers) (f : A → Buffers) (x : Result A × W)
      → (b' : Buffers) × ((proceed {A = ℤ × Buffers × Status} {B = ℤ × Buffers}
            (proceed {A = Buffers × Status} {B = ℤ × Buffers × Status}
              (noting o attr b [] (λ a. give (f a, [])) x)
              (λ r. give (code_of_status r.1, r.0, r.1)))
            (λ r. of (single_code r.0 r.2) >>= λ code. give (code, r.1))).0
          ≡ returns (log_code x.0, b'))
  unfolding single_code status_pop status_add
  noting-get b f (done a, w) = (f a, refl)
  noting-get b f (refused r, w) = (b, refl)

  noting-set :
      {A : Type 0} (x : Result A × W)
      → (proceed {A = ℤ × Status} {B = ℤ}
          (proceed {A = Unit {0} × Status} {B = ℤ × Status}
            (noting o attr tt [] (λ a. give (tt, [])) x)
            (λ r. give (code_of_status r.1, r.1)))
          (λ r. of (single_code r.0 r.1))).0
        ≡ returns (log_code x.0)
  unfolding single_code status_pop status_add
  noting-set (done a, w) = refl
  noting-set (refused r, w) = refl

  -- An access to one attribute of an object, whose number is that of an entry of the object's vector,
  -- never aborts at the assertion that there is an error to report. A read returns PWR_RET_INVALID where
  -- the attribute has neither a device nor a communicator; otherwise the devices are read one after the
  -- other, and it returns the first code that is not that of success, or success where there is none. A
  -- write does the same.
  pub attr_value-code :
      (info : AttrInfo W) (b : Buffers) (buf : ℕ → ℕ) (w : W)
      → at_index o.attr_info (attr_code attr) ≡ some info
      → (b' : Buffers) × ((attr_get_value o attr b w).0
          ≡ returns (info_code info (read_code attr) w, b'))
        × ((attr_set_value o attr buf w).0 ≡ returns (info_code info (λ d. d.write attr (buf 0)) w))
  unfolding attr_get_value attr_get_values get_loop attr_set_value attr_set_values set_loop
  attr_value-code info b buf w h =
      let zeroed = stored_at 0 (some (0, pos 0)) b in
      let (b', got) =
        noting-get zeroed (λ v. stored_at 0 v zeroed)
          (if_valid info (attr_get_values_device info attr) w) in
      (
        b',
        rw h (
            got
            ∙ ap (λ c. returns (c, b'))
                (if_valid-code info (attr_get_values_device info attr) w
                  (get_device-code info attr w))),
        rw h (
            noting-set (if_valid info (attr_set_values_device info attr (buf 0)) w)
            ∙ ap returns (
                if_valid-code info (attr_set_values_device info attr (buf 0)) w
                  (set_device-code info attr (buf 0) w))),
      )

  -- An access with a number that the vector does not have, such as PWR_ATTR_INVALID or
  -- PWR_ATTR_NOT_SPECIFIED, reads outside of the vector.
  pub attr_value-faults :
      (b : Buffers) (buf : ℕ → ℕ) (w : W)
      → at_index o.attr_info (attr_code attr) ≡ none
      → ((attr_get_value o attr b w).0 ≡ faults) × ((attr_set_value o attr buf w).0 ≡ faults)
  unfolding attr_get_value attr_get_values get_loop attr_set_value attr_set_values set_loop
  attr_value-faults b buf w h = (rw h, rw h)
