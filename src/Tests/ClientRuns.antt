-- ===== src/Tests/ClientRuns.antt =====
-- A client that asks for the power of two objects, sets a value and starts a log.
use mathlib.Core.List.{reverse}
use pwrapi_ref.Prelude.{
  Option, if◌then◌else◌, ℕ, ◌≡◌, refl, true, false, none, some, List, [], ◌∷◌, ◌++◌, map, returns,
}
use pwrapi_ref.Prelude.Int.{pos, negsuc}
use pwrapi_ref.Types.{ret_success}
use pwrapi_ref.Wire.{Text}
use pwrapi_ref.Router.{same_text}
use pwrapi_ref.Events.{EventType, OpType}
use pwrapi_ref.Events.Responses.{CommRespEvent, CommLogRespEvent}
use pwrapi_ref.Events.Messages.{Message}
use pwrapi_ref.Client.{Request, CommReq, AccessError, get_value, wait, ret_ipc, exec_callback}
use pwrapi_ref.Client.Sending.{DistComm, creation}
use pwrapi_ref.Client.Stored.{pointers, errors, get_value-stores}
use pwrapi_ref.Client.Finished.{
  Answers, set_done, start_done, events, after_all, wait-finishes, wait-closed,
}
use pwrapi_ref.Client.Created.{
  Call, get_call, start_call, perform_all, request, perform_all-creates_once,
}
use pwrapi_ref.Tests.WireRuns.{header_of}

abbrev name : Text
name = 110 ∷ 48 ∷ []

-- Two attributes of two objects; the second object refuses one.
abbrev values : CommRespEvent
values = record {
  base = header_of EventType.comm_resp 7 OpType.get;
  time_stamp = (100 ∷ 101 ∷ []) ∷ (102 ∷ 103 ∷ []) ∷ [];
  value = (30 ∷ 31 ∷ []) ∷ (12 ∷ 0 ∷ []) ∷ [];
  grp_index = 0;
  err_obj = name ∷ [];
  err_attr = pos 6 ∷ [];
  err_value = negsuc 5 ∷ [];
}

-- Object 3 is called "n0", and there is no other.
abbrev context : Text → Option ℕ
context t = if same_text t name then some 3 else none

abbrev asked : Request
asked = record {
  value = pointers 0 2 2;
  time_stamp = pointers 0 2 2;
  buf = 0 ∷ 0 ∷ 0 ∷ 0 ∷ 77 ∷ [];
  times = 0 ∷ 0 ∷ 0 ∷ 0 ∷ [];
  status = [];
  comm_reqs = 7 ∷ [];
  objects = (7, CommReq.get_req) ∷ [];
  context = context;
  callback = false;
  called = 0;
}

get_value-stores_example :
    get_value 7 values asked
    ≡ returns (record asked {
      buf = 30 ∷ 31 ∷ 12 ∷ 0 ∷ 77 ∷ [];
      times = 100 ∷ 101 ∷ 102 ∷ 103 ∷ [];
      status = errors context (name ∷ []) (pos 6 ∷ []) (negsuc 5 ∷ []);
      comm_reqs = [];
    })
get_value-stores_example =
    get_value-stores 7 2 values asked ((0 ∷ 0 ∷ []) ∷ (0 ∷ 0 ∷ []) ∷ [])
      ((0 ∷ 0 ∷ []) ∷ (0 ∷ 0 ∷ []) ∷ []) (77 ∷ []) [] (refl, (refl, tt)) (refl, (refl, tt))
      (refl, (refl, tt)) (refl, (refl, tt)) refl refl refl refl refl refl refl refl refl

-- A value to set and a log to start; the log is answered first, with an error.
abbrev waiting : Request
waiting = record {
  value = none ∷ [];
  time_stamp = none ∷ [];
  buf = [];
  times = [];
  status = [];
  comm_reqs = 1 ∷ 2 ∷ [];
  objects = (1, CommReq.set_req) ∷ (2, CommReq.start_log_req) ∷ [];
  context = context;
  callback = true;
  called = 0;
}

abbrev started : CommLogRespEvent
started = record {
  base = header_of EventType.comm_log_resp 2 OpType.start;
  err_obj = name ∷ [];
  err_attr = pos 12 ∷ [];
  err_value = negsuc 1 ∷ [];
}

abbrev set_answer : CommRespEvent
set_answer = record {
  base = header_of EventType.comm_resp 1 OpType.set;
  time_stamp = [];
  value = [];
  grp_index = 0;
  err_obj = [];
  err_attr = [];
  err_value = [];
}

abbrev log_error : List AccessError
log_error = errors context (name ∷ []) (pos 12 ∷ []) (negsuc 1 ∷ [])

abbrev both : Answers
both = (Message.comm_log_resp started, log_error) ∷ (Message.comm_resp set_answer, []) ∷ []

wait-finishes_example :
    wait (events both ++ []) waiting
    ≡ returns (some ret_success, exec_callback (after_all waiting both))
wait-finishes_example =
    wait-finishes both [] waiting
      (start_done started refl refl refl, (set_done set_answer refl refl refl, tt))
      (refl, (refl, tt)) refl

abbrev first_only : Answers
first_only = (Message.comm_log_resp started, log_error) ∷ []

wait-closed_example :
    wait (events first_only ++ none ∷ []) waiting
    ≡ returns (some ret_ipc, after_all waiting first_only)
wait-closed_example =
    wait-closed first_only [] waiting (start_done started refl refl refl, tt) (refl, tt) refl

abbrev new_comm : DistComm
new_comm = record { comm_id = 5; objects = name ∷ []; opened = false; sent = [] }

abbrev calls : List Call
calls = get_call (pos 6 ∷ []) (1 ∷ []) 7 ∷ start_call (pos 12) 2 ∷ []

perform_all-creates_once_example :
    reverse (perform_all 0 calls new_comm).sent ≡ creation new_comm ∷ map (request 0 5) calls
perform_all-creates_once_example =
    perform_all-creates_once 0 (get_call (pos 6 ∷ []) (1 ∷ []) 7) (start_call (pos 12) 2 ∷ [])
      new_comm refl refl
