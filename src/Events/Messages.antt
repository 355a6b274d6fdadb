-- ===== src/Events/Messages.antt =====
-- tools/pwrdaemon/router/routerEvent.h, and what makes an event out of a type and a buffer:
-- src/pwr/allocEvent.cc, tools/pwrdaemon/router/allocEvent.cc and tools/pwrdaemon/server/allocEvent.cc.
use mathlib.Core.List.{reverse}
use pwrapi_ref.Prelude.{ℕ, List, [], ◌∷◌, get_elem?, Option, some, Outcome, aborts}
use pwrapi_ref.Prelude.Int.{pos}
use pwrapi_ref.Wire.{Buf, Get, ◌>>=◌, give, Serial}
use pwrapi_ref.Events.{EventType, event_code, u64, u32, bytes, Event, event, CommEvent, comm_event}
use pwrapi_ref.Events.Requests.{
  ServerConnectEvent, server_connect_event, CommCreateEvent, comm_create_event, CommReqEvent,
  comm_req_event, CommLogReqEvent, comm_log_req_event, CommGetSamplesReqEvent,
  comm_get_samples_req_event,
}
use pwrapi_ref.Events.Responses.{
  CommRespEvent, comm_resp_event, CommLogRespEvent, comm_log_resp_event, CommGetSamplesRespEvent,
  comm_get_samples_resp_event,
}

-- The payload is a buffer, so its last byte stands first; the vector in it is the other way round.
pub record RouterEvent : Type 0 where
  pub base : Event
  pub src : ℕ
  pub dest : ℕ
  pub event_type : ℕ
  pub payload : Buf

unfoldable pub router_event : Serial RouterEvent
router_event = record {
  put = λ e buf.
      bytes.put (reverse e.payload)
        (u32.put e.event_type (u64.put e.src (u64.put e.dest (event.put e.base buf))));
  get = do
    payload ← bytes.get
    event_type ← u32.get
    src ← u64.get
    dest ← u64.get
    base ← event.get
    give (record {
      base = base;
      src = src;
      dest = dest;
      event_type = event_type;
      payload = reverse payload;
    });
}

-- What an `Event*` points to, by its class.
pub data Message : Type 0 where
  server_connect : ServerConnectEvent → Message
  comm_create : CommCreateEvent → Message
  comm_destroy : CommEvent → Message
  comm_req : CommReqEvent → Message
  comm_resp : CommRespEvent → Message
  comm_log_req : CommLogReqEvent → Message
  comm_log_resp : CommLogRespEvent → Message
  comm_get_samples_req : CommGetSamplesReqEvent → Message
  comm_get_samples_resp : CommGetSamplesRespEvent → Message
  router2_router : RouterEvent → Message

-- The fields of the base class.
abbrev pub head : Message → Event
head (Message.server_connect e) = e.base
head (Message.comm_create e) = e.base.base
head (Message.comm_destroy e) = e.base
head (Message.comm_req e) = e.base.base
head (Message.comm_resp e) = e.base.base
head (Message.comm_log_req e) = e.base.base
head (Message.comm_log_resp e) = e.base.base
head (Message.comm_get_samples_req e) = e.base.base
head (Message.comm_get_samples_resp e) = e.base.base
head (Message.router2_router e) = e.base

-- The class's own type.
abbrev pub kind : Message → EventType
kind (Message.server_connect e) = EventType.server_connect
kind (Message.comm_create e) = EventType.comm_create
kind (Message.comm_destroy e) = EventType.comm_destroy
kind (Message.comm_req e) = EventType.comm_req
kind (Message.comm_resp e) = EventType.comm_resp
kind (Message.comm_log_req e) = EventType.comm_log_req
kind (Message.comm_log_resp e) = EventType.comm_log_resp
kind (Message.comm_get_samples_req e) = EventType.comm_get_samples_req
kind (Message.comm_get_samples_resp e) = EventType.comm_get_samples_resp
kind (Message.router2_router e) = EventType.router2_router

-- The virtual `serialize_out`.
unfoldable pub serialize_out : Message → Buf → Buf
serialize_out (Message.server_connect e) = server_connect_event.put e
serialize_out (Message.comm_create e) = comm_create_event.put e
serialize_out (Message.comm_destroy e) = comm_event.put e
serialize_out (Message.comm_req e) = comm_req_event.put e
serialize_out (Message.comm_resp e) = comm_resp_event.put e
serialize_out (Message.comm_log_req e) = comm_log_req_event.put e
serialize_out (Message.comm_log_resp e) = comm_log_resp_event.put e
serialize_out (Message.comm_get_samples_req e) = comm_get_samples_req_event.put e
serialize_out (Message.comm_get_samples_resp e) = comm_get_samples_resp_event.put e
serialize_out (Message.router2_router e) = router_event.put e

-- The enumerators in their order, so that a code is an index.
abbrev pub event_types : List EventType
event_types =
    EventType.not_set ∷ EventType.comm_create ∷ EventType.comm_destroy ∷ EventType.comm_req
    ∷ EventType.comm_resp ∷ EventType.comm_log_req ∷ EventType.comm_log_resp
    ∷ EventType.comm_get_samples_req ∷ EventType.comm_get_samples_resp ∷ EventType.server_connect
    ∷ EventType.router2_router ∷ []

abbrev pub event_type : ℕ → Option EventType
event_type = get_elem? event_types

-- `new E( buf )` for the class `E` of a message, which reads the buffer.
abbrev pub made : {A : Type 0} → Serial A → (A → Message) → Get Message
made s make = s.get >>= λ e. give (make e)

abbrev pub assert_0 : Get Message
assert_0 buf = aborts

-- `ctx_allocEvent`.
unfoldable pub alloc_event : Option EventType → Get Message
alloc_event (some EventType.comm_resp) = made comm_resp_event Message.comm_resp
alloc_event (some EventType.comm_log_resp) = made comm_log_resp_event Message.comm_log_resp
alloc_event (some EventType.comm_get_samples_resp) =
    made comm_get_samples_resp_event Message.comm_get_samples_resp
alloc_event _ = assert_0

-- `PWR_Router::allocRtrEvent` and `PWR_Server::allocRtrEvent`.
unfoldable pub alloc_rtr_event : Option EventType → Get Message
alloc_rtr_event (some EventType.router2_router) = made router_event Message.router2_router
alloc_rtr_event _ = assert_0

-- `PWR_Router::allocClientEvent`.
unfoldable pub alloc_client_event : Option EventType → Get Message
alloc_client_event (some EventType.comm_create) = made comm_create_event Message.comm_create
alloc_client_event (some EventType.comm_req) = made comm_req_event Message.comm_req
alloc_client_event (some EventType.comm_log_req) = made comm_log_req_event Message.comm_log_req
alloc_client_event (some EventType.comm_get_samples_req) =
    made comm_get_samples_req_event Message.comm_get_samples_req
alloc_client_event _ = assert_0

-- `PWR_Router::allocServerEvent`.
unfoldable pub alloc_server_event : Option EventType → Get Message
alloc_server_event (some EventType.router2_router) = made router_event Message.router2_router
alloc_server_event (some EventType.comm_resp) = made comm_resp_event Message.comm_resp
alloc_server_event (some EventType.comm_log_resp) = made comm_log_resp_event Message.comm_log_resp
alloc_server_event (some EventType.comm_get_samples_resp) =
    made comm_get_samples_resp_event Message.comm_get_samples_resp
alloc_server_event (some EventType.server_connect) =
    made server_connect_event Message.server_connect
alloc_server_event _ = assert_0

-- `PWR_Server::allocReqEvent`.
unfoldable pub alloc_req_event : Option EventType → Get Message
alloc_req_event (some EventType.comm_create) = made comm_create_event Message.comm_create
alloc_req_event (some EventType.comm_destroy) = made comm_event Message.comm_destroy
alloc_req_event (some EventType.comm_req) = made comm_req_event Message.comm_req
alloc_req_event (some EventType.comm_log_req) = made comm_log_req_event Message.comm_log_req
alloc_req_event (some EventType.comm_get_samples_req) =
    made comm_get_samples_req_event Message.comm_get_samples_req
alloc_req_event _ = assert_0

-- `RouterEvent( src, dest, ev )` and `getPayload`.
unfoldable pub wrap : ℕ → ℕ → Message → RouterEvent
wrap src dest ev = record {
  base = record { type = event_code EventType.router2_router; id = 0; status = pos 0 };
  src = src;
  dest = dest;
  event_type = (head ev).type;
  payload = serialize_out ev [];
}

unfoldable pub get_payload :
    (Option EventType → Get Message) → RouterEvent → Outcome (Message × Buf)
get_payload alloc e = alloc (event_type e.event_type) e.payload
