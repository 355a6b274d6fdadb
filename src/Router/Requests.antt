-- ===== src/Router/Requests.antt =====
-- tools/pwrdaemon/router/commCreateEvent.cc, commReqEvent.h, commLogEvents.h, commGetSamplesEvent.h and
-- client.cc: the events of a client, which the router passes on to the servers of its objects.
use pwrapi_ref.Prelude.{
  ℕ, suc, Bool, true, false, Option, none, some, List, [], ◌∷◌, ◌++◌, Outcome, returns, aborts,
  faults, ◌>>=◌, ◌>>◌, assert, in_bounds, ◌==◌, if◌then◌else◌, length, replicate, map,
}
use pwrapi_ref.Prelude.Int.{pos}
use pwrapi_ref.Prelude.Maps.{find, insert, erase}
use pwrapi_ref.Wire.{Text}
use pwrapi_ref.Events.{EventType, event_code, Event, CommEvent, OpType, op_code}
use pwrapi_ref.Events.Requests.{
  CommCreateEvent, CommReqEvent, CommLogReqEvent, CommGetSamplesReqEvent,
}
use pwrapi_ref.Events.Messages.{Message}
use pwrapi_ref.Router.{Router, Waiting, send_object}
use pwrapi_ref.Router.Answers.{CommReqInfo}

-- The constructor of an event: `junk` is what stands in the fields that it leaves unset.
abbrev pub new_event : EventType → Event
new_event type = record { type = event_code type; id = 0; status = pos 0 }

abbrev pub new_comm_event : ℕ → EventType → CommEvent
new_comm_event junk type = record {
  base = new_event type;
  comm_id = junk;
  op = op_code OpType.noop;
}

-- A new event that answers the one of `id`.
abbrev pub answer_to : ℕ → ℕ → EventType → CommEvent
answer_to junk id type =
    let ev = new_comm_event junk type in record ev { base = record ev.base { id = id } }

abbrev pub Step : Type 0
Step = Router → Outcome Router

-- `getClient` and `getCommList`.
unfoldable pub get_client : Router → ℕ → Outcome (List (ℕ × CommCreateEvent))
get_client r ec = present (find ◌==◌ r.client_map ec)
  where
    present : {A : Type 0} → Option A → Outcome A
    present none = aborts
    present (some a) = returns a

unfoldable pub get_comm_list : Router → ℕ → ℕ → Outcome (List (List Text))
get_comm_list r ec id = do
  comms ← get_client r ec
  ev ← in_bounds (find ◌==◌ comms id)
  returns ev.members

abbrev pub is_none : {A : Type 0} → Option A → Bool
is_none none = true
is_none (some a) = false

-- The answer is kept at the next free address.
abbrev pub new_info : Waiting → Router → Router
new_info info r = record r { infos = r.infos ++ some info ∷ [] }

abbrev pub next_info : Router → ℕ
next_info r = length r.infos

module _ (home : Message → Router → Outcome Router) (junk : ℕ) where
  -- An event to every source of an object, and to every source of every object of a group, with the
  -- object's number.
  unfoldable pub send_to_sources : (Text → Message) → List Text → Step
  send_to_sources make [] r = returns r
  send_to_sources make (name ∷ names) r = do
    r ← send_object home name (make name) r
    send_to_sources make names r

  unfoldable pub send_to_members : (ℕ → Text → Message) → ℕ → List (List Text) → Step
  send_to_members make i [] r = returns r
  send_to_members make i (names ∷ members) r = do
    r ← send_to_sources (make i) names r
    send_to_members make (suc i) members r

  -- `RtrCommCreateEvent::process`: each source is told of a group of its own.
  unfoldable pub process_create : ℕ → CommCreateEvent → Step
  process_create ec ev r = do
    comms ← get_client r ec
    assert (is_none (find ◌==◌ comms ev.base.comm_id))
    let comms = insert ◌==◌ comms ev.base.comm_id ev
    send_to_members
        (λ i name. Message.comm_create (record {
          base = new_comm_event ev.base.comm_id EventType.comm_create;
          members = (name ∷ []) ∷ [];
        }))
        0 ev.members (record r { client_map = insert ◌==◌ r.client_map ec comms })

  -- `RtrCommReqEvent::process`.
  unfoldable pub process_req : ℕ → CommReqEvent → Step
  process_req ec ev r = do
    members ← get_comm_list r ec ev.base.comm_id
    let is_get = ev.base.op == op_code OpType.get
    let rows : List (List ℕ) = if is_get then replicate (length members) [] else []
    let info : CommReqInfo = record {
      src = ec;
      op = ev.base.op;
      grp_info = map length members;
      pending = length members;
      value_op = if is_get then ev.value_op else [];
      resp_q = replicate (length members) [];
      resp = record {
        base = answer_to junk ev.base.base.id EventType.comm_resp;
        time_stamp = rows;
        value = rows;
        grp_index = junk;
        err_obj = [];
        err_attr = [];
        err_value = [];
      };
    }
    let base = record ev.base { base = record ev.base.base { id = next_info r } }
    send_to_members (λ i name. Message.comm_req (record ev { base = base; grp_index = i })) 0
        members (new_info (Waiting.on_values info) r)

  -- One object with one source only.
  abbrev pub assert_single : List (List Text) → Outcome (Unit {0})
  assert_single ((name ∷ []) ∷ []) = returns tt
  assert_single [] = aborts
  assert_single _ = aborts

  -- `RtrCommLogReqEvent::process`.
  unfoldable pub process_log_req : ℕ → CommLogReqEvent → Step
  process_log_req ec ev r = do
    members ← get_comm_list r ec ev.base.comm_id
    assert_single members
    let info = Waiting.on_log ec (record {
      base = answer_to junk ev.base.base.id EventType.comm_log_resp;
      err_obj = [];
      err_attr = [];
      err_value = [];
    })
    let base = record ev.base { base = record ev.base.base { id = next_info r } }
    send_to_members (λ i name. Message.comm_log_req (record ev { base = base })) 0 members
        (new_info info r)

  -- `RtrCommGetSamplesReqEvent::process`.
  unfoldable pub process_samples_req : ℕ → CommGetSamplesReqEvent → Step
  process_samples_req ec ev r = do
    members ← get_comm_list r ec ev.base.comm_id
    assert_single members
    let info = Waiting.on_samples ec (record {
      base = answer_to junk ev.base.base.id EventType.comm_get_samples_resp;
      start_time = junk;
      count = junk;
      samples = [];
      err_obj = [];
      err_attr = [];
      err_value = [];
    })
    let base = record ev.base { base = record ev.base.base { id = next_info r } }
    send_to_members (λ i name. Message.comm_get_samples_req (record ev { base = base })) 0 members
        (new_info info r)

  -- The destructor of a client: each of its communicators is taken down at the sources of the first
  -- object. (The source goes through them by number, the model as they stand in the list.)
  unfoldable pub destroy_comms : List (ℕ × CommCreateEvent) → Step
  destroy_comms [] r = returns r
  destroy_comms ((id, ev) ∷ comms) r = do
    names ← first_member ev.members
    let destroy = new_comm_event ev.base.comm_id EventType.comm_destroy
    r ← send_to_sources (λ name. Message.comm_destroy destroy) names r
    destroy_comms comms r
    where
      first_member : List (List Text) → Outcome (List Text)
      first_member [] = faults
      first_member (names ∷ members) = returns names

  abbrev pub comms_of : Option (List (ℕ × CommCreateEvent)) → List (ℕ × CommCreateEvent)
  comms_of none = []
  comms_of (some comms) = comms

  -- `delClientChan`.
  unfoldable pub del_client_chan : ℕ → Step
  del_client_chan ec r = do
    r ← destroy_comms (comms_of (find ◌==◌ r.client_map ec)) r
    returns (record r { client_map = erase ◌==◌ r.client_map ec })
