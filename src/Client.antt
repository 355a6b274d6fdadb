-- ===== src/Client.antt =====
-- src/pwr/distRequest.cc, distRequest.h, request.h, status.h and the `process` functions of distComm.cc: what
-- a client has asked of the router, and how it waits for the answers. The memory of the caller is two
-- arrays, and a pointer into one of them an index.
pub mod Sending
pub mod Stored
pub mod Finished
pub mod Created
use pwrapi_ref.Prelude.{
  ℕ, zero, suc, Bool, true, false, Option, none, some, List, [], ◌∷◌, ◌++◌, Outcome, returns,
  aborts, faults, ◌>>=◌, ◌>>◌, assert, in_bounds, ◌==◌, ltb, if◌then◌else◌, length, set,
}
use pwrapi_ref.Prelude.Int.{ℤ, pos, negsuc}
use pwrapi_ref.Prelude.Maps.{find}
use pwrapi_ref.Types.{ret_success}
use pwrapi_ref.Wire.{Text}
use pwrapi_ref.Events.Responses.{CommRespEvent, CommLogRespEvent, CommGetSamplesRespEvent}
use pwrapi_ref.Events.Messages.{Message, head}

-- PWR_AttrAccessError, with the address of the object, `none` for a null pointer.
pub record AccessError : Type 0 where
  pub obj : Option ℕ
  pub name : ℤ
  pub error : ℤ

-- `Status`: its errors, the oldest first.
abbrev pub Status : Type 0
Status = List AccessError

abbrev pub ret_empty : ℤ
ret_empty = negsuc 2

abbrev pub ret_ipc : ℤ
ret_ipc = negsuc 13

unfoldable pub status_add : Status → Option ℕ → ℤ → ℤ → Status
status_add s obj name error = s ++ record { obj = obj; name = name; error = error } ∷ []

unfoldable pub status_pop : Status → ℤ × Option AccessError × Status
status_pop [] = (ret_empty, none, [])
status_pop (e ∷ s) = (ret_success, some e, s)

-- The classes derived from DistCommReq.
pub data CommReq : Type 0 where
  get_req set_req start_log_req stop_log_req get_samples_req : CommReq

-- Where the values and the times go, the memory there, the errors, the requests that are to be
-- answered (`m_commReqs`) and all that there are, by their addresses, PWR_CntxtGetObjByName of the
-- context, which gives an address or a null pointer, and the callback.
pub record Request : Type 0 where
  pub value : List (Option ℕ)
  pub time_stamp : List (Option ℕ)
  pub buf : List ℕ
  pub times : List ℕ
  pub status : Status
  pub comm_reqs : List ℕ
  pub objects : List (ℕ × CommReq)
  pub context : Text → Option ℕ
  pub callback : Bool
  pub called : ℕ

abbrev pub erase_req : List ℕ → ℕ → List ℕ
erase_req [] id = []
erase_req (i ∷ ids) id = let rest = erase_req ids id in if i == id then rest else i ∷ rest

unfoldable pub insert_req : Request → ℕ → CommReq → Request
insert_req r id req = record r {
  comm_reqs = id ∷ erase_req r.comm_reqs id;
  objects = (id, req) ∷ r.objects;
}

-- A store through a pointer.
unfoldable pub write_at : List ℕ → ℕ → ℕ → Outcome (List ℕ)
write_at mem i v = if ltb i (length mem) then returns (set mem i v) else faults

abbrev pub Memory : Type 0
Memory = List ℕ × List ℕ

-- The values and the times of one object, from two pointers on.
unfoldable pub copy_row : ℕ → ℕ → List ℕ → List ℕ → Memory → Outcome Memory
copy_row o q [] ts mem = returns mem
copy_row o q (v ∷ vs) [] mem = faults
copy_row o q (v ∷ vs) (t ∷ ts) mem = do
  buf ← write_at mem.0 o v
  times ← write_at mem.1 q t
  copy_row (suc o) (suc q) vs ts (buf, times)

-- A null pointer is not touched where there is nothing to copy.
abbrev pub copy_to : Option ℕ → Option ℕ → List ℕ → List ℕ → Memory → Outcome Memory
copy_to (some o) (some q) row ts mem = copy_row o q row ts mem
copy_to p q [] ts mem = returns mem
copy_to p q row ts mem = faults

abbrev pub head_or {ℓ} : {A : Type ℓ} → A → List A → A
head_or d [] = d
head_or d (x ∷ xs) = x

abbrev pub tail {ℓ} : {A : Type ℓ} → List A → List A
tail [] = []
tail (x ∷ xs) = xs

unfoldable pub copy_rows :
    List (Option ℕ) → List (Option ℕ) → List (List ℕ) → List (List ℕ) → Memory → Outcome Memory
copy_rows (p ∷ ps) qs (row ∷ rows) tss mem = do
  mem ← copy_to p (head_or none qs) row (head_or [] tss) mem
  copy_rows ps (tail qs) rows (tail tss) mem
copy_rows _ qs rows tss mem = returns mem

-- The errors of an answer are three vectors, and the one of values says how many they are. An object
-- that the context does not have is noted as a null pointer.
unfoldable pub note_errors :
    (Text → Option ℕ) → List Text → List ℤ → List ℤ → Status → Outcome Status
note_errors ctx objs attrs [] s = returns s
note_errors ctx (obj ∷ objs) (attr ∷ attrs) (value ∷ values) s =
    note_errors ctx objs attrs values (status_add s (ctx obj) attr value)
note_errors ctx _ _ (value ∷ values) s = faults

-- `DistRequest::getValue`.
unfoldable pub get_value : ℕ → CommRespEvent → Request → Outcome Request
get_value id ev r = do
  assert (length r.value == length ev.value)
  mem ← copy_rows r.value r.time_stamp ev.value ev.time_stamp (r.buf, r.times)
  s ← note_errors r.context ev.err_obj ev.err_attr ev.err_value r.status
  returns
      (record r { buf = mem.0; times = mem.1; status = s; comm_reqs = erase_req r.comm_reqs id })

-- `DistRequest::setValue` and `setRetval`.
unfoldable pub set_value : ℕ → List Text → List ℤ → List ℤ → Request → Outcome Request
set_value id objs attrs values r = do
  s ← note_errors r.context objs attrs values r.status
  returns (record r { status = s; comm_reqs = erase_req r.comm_reqs id })

-- `DistRequest::getSamples`: the samples go to the first pointer.
unfoldable pub copy_samples : ℕ → Option ℕ → List ℕ → List ℕ → Outcome (List ℕ)
copy_samples zero p samples buf = returns buf
copy_samples (suc n) (some o) (v ∷ samples) buf = do
  buf ← write_at buf o v
  copy_samples n (some (suc o)) samples buf
copy_samples (suc n) p samples buf = faults

unfoldable pub get_samples : ℕ → CommGetSamplesRespEvent → Request → Outcome Request
get_samples id ev r = do
  buf ← copy_samples ev.count (head_or none r.value) ev.samples r.buf
  q ← in_bounds (head_or none r.time_stamp)
  times ← write_at r.times q ev.start_time
  returns (record r { buf = buf; times = times; comm_reqs = erase_req r.comm_reqs id })

-- The virtual `process`, with the class that the event is cast to.
unfoldable pub process_answer : CommReq → ℕ → Message → Request → Outcome Request
process_answer CommReq.get_req id (Message.comm_resp ev) = get_value id ev
process_answer CommReq.set_req id (Message.comm_resp ev) =
    set_value id ev.err_obj ev.err_attr ev.err_value
process_answer CommReq.start_log_req id (Message.comm_log_resp ev) =
    set_value id ev.err_obj ev.err_attr ev.err_value
process_answer CommReq.stop_log_req id (Message.comm_log_resp ev) =
    set_value id ev.err_obj ev.err_attr ev.err_value
process_answer CommReq.get_samples_req id (Message.comm_get_samples_resp ev) = get_samples id ev
process_answer _ id ev = λ r. faults

-- One round of the loop of `wait`.
unfoldable pub take_event : Message → Request → Outcome Request
take_event ev r = do
  req ← in_bounds (find ◌==◌ r.objects (head ev).id)
  process_answer req (head ev).id ev r

abbrev pub exec_callback : Request → Request
exec_callback r = if r.callback then record r { called = suc r.called } else r

abbrev pub is_empty {ℓ} : {A : Type ℓ} → List A → Bool
is_empty [] = true
is_empty (x ∷ xs) = false

-- `DistRequest::wait` on the events that come, `none` for a channel that was closed. The first answer
-- is the return code, `none` while the loop waits for another event.
unfoldable pub wait : List (Option Message) → Request → Outcome (Option ℤ × Request)
wait [] r =
    returns (if is_empty r.comm_reqs then (some ret_success, exec_callback r) else (none, r))
wait (none ∷ evs) r =
    returns
      (if is_empty r.comm_reqs then (some ret_success, exec_callback r) else (some ret_ipc, r))
wait (some ev ∷ evs) r =
    if is_empty r.comm_reqs
    then returns (some ret_success, exec_callback r)
    else (take_event ev r >>= wait evs)
