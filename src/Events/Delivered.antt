-- ===== src/Events/Delivered.antt =====
-- Proofs about the events that the components send each other: each receiver makes the sender's event
-- out of the type and the bytes that came with it.
use mathlib.Core.List.{reverse, reverse-reverse}
use pwrapi_ref.Prelude.{
  ℕ, ◌≡◌, refl, ap, ◌∙◌, [], All, returns, aborts, some, Option, Bool, true, false, if◌then◌else◌,
}
use pwrapi_ref.Wire.{Buf, Get, give, Serial, unsigned}
use pwrapi_ref.Wire.Values.{Restores, read_back, Fits, IsShort, unsigned-Restores, vector-Restores}
use pwrapi_ref.Events.Requests.{
  server_connect_event, comm_create_event, comm_req_event, comm_log_req_event,
  comm_get_samples_req_event,
}
use pwrapi_ref.Events.Responses.{comm_resp_event, comm_log_resp_event, comm_get_samples_resp_event}
use pwrapi_ref.Events.{comm_event, EventType, event_code, u64, u32, bytes, event}
use pwrapi_ref.Events.Messages.{
  RouterEvent, router_event, Message, wrap, get_payload, kind, head, serialize_out, event_type,
  made, alloc_event, alloc_rtr_event, alloc_client_event, alloc_server_event, alloc_req_event,
}
use pwrapi_ref.Events.Restored.{
  u64-Restores, u32-Restores, IsEvent, event-Restores, IsServerConnect,
  server_connect_event-Restores, IsComm, comm_event-Restores, IsCommCreate,
  comm_create_event-Restores, IsCommReq, comm_req_event-Restores, IsCommResp,
  comm_resp_event-Restores, IsCommLogReq, comm_log_req_event-Restores, IsCommLogResp,
  comm_log_resp_event-Restores, IsCommGetSamplesReq, comm_get_samples_req_event-Restores,
  IsCommGetSamplesResp, comm_get_samples_resp_event-Restores,
}

-- The payload is bytes, as many as a vector can count.
pub record IsRouter (e : RouterEvent) : Type 0 where
  pub base : IsEvent e.base
  pub src : Fits 8 e.src
  pub dest : Fits 8 e.dest
  pub event_type : Fits 4 e.event_type
  pub payload : All (Fits 1) (reverse e.payload) × IsShort (reverse e.payload)

pub router_event-Restores : Restores router_event IsRouter
unfolding router_event
router_event-Restores e buf h =
    read_back bytes (vector-Restores (unsigned 1) (unsigned-Restores 1) 0) _ h.payload
    ∙ read_back u32 u32-Restores _ h.event_type
    ∙ read_back u64 u64-Restores _ h.src
    ∙ read_back u64 u64-Restores _ h.dest
    ∙ read_back event event-Restores _ h.base
    ∙ ap (λ payload. returns (record e { payload = payload }, buf)) (reverse-reverse e.payload)

-- The fields of the message are in range.
abbrev pub IsMessage : Message → Type 0
IsMessage (Message.server_connect e) = IsServerConnect e
IsMessage (Message.comm_create e) = IsCommCreate e
IsMessage (Message.comm_destroy e) = IsComm e
IsMessage (Message.comm_req e) = IsCommReq e
IsMessage (Message.comm_resp e) = IsCommResp e
IsMessage (Message.comm_log_req e) = IsCommLogReq e
IsMessage (Message.comm_log_resp e) = IsCommLogResp e
IsMessage (Message.comm_get_samples_req e) = IsCommGetSamplesReq e
IsMessage (Message.comm_get_samples_resp e) = IsCommGetSamplesResp e
IsMessage (Message.router2_router e) = IsRouter e

-- The message carries the type of its class.
abbrev pub IsTyped : Message → Type 0
IsTyped m = (head m).type ≡ event_code (kind m)

-- The five functions that make events.
pub data Receiver : Type 0 where
  client_library server router_to_router router_to_client router_to_server : Receiver

abbrev pub alloc : Receiver → Option EventType → Get Message
alloc Receiver.client_library = alloc_event
alloc Receiver.server = alloc_req_event
alloc Receiver.router_to_router = alloc_rtr_event
alloc Receiver.router_to_client = alloc_client_event
alloc Receiver.router_to_server = alloc_server_event

-- The events that each of them is meant for.
abbrev pub takes_up : Receiver → EventType → Bool
takes_up Receiver.client_library EventType.comm_resp = true
takes_up Receiver.client_library EventType.comm_log_resp = true
takes_up Receiver.client_library EventType.comm_get_samples_resp = true
takes_up Receiver.server EventType.comm_create = true
takes_up Receiver.server EventType.comm_destroy = true
takes_up Receiver.server EventType.comm_req = true
takes_up Receiver.server EventType.comm_log_req = true
takes_up Receiver.server EventType.comm_get_samples_req = true
takes_up Receiver.router_to_router EventType.router2_router = true
takes_up Receiver.router_to_client EventType.comm_create = true
takes_up Receiver.router_to_client EventType.comm_req = true
takes_up Receiver.router_to_client EventType.comm_log_req = true
takes_up Receiver.router_to_client EventType.comm_get_samples_req = true
takes_up Receiver.router_to_server EventType.comm_resp = true
takes_up Receiver.router_to_server EventType.comm_log_resp = true
takes_up Receiver.router_to_server EventType.comm_get_samples_resp = true
takes_up Receiver.router_to_server EventType.server_connect = true
takes_up Receiver.router_to_server EventType.router2_router = true
takes_up _ _ = false

made-put :
    {A : Type 0} (s : Serial A) {Fits : A → Type 0} (law : Restores s Fits) (make : A → Message)
    (a : A) (buf : Buf)
    → Fits a
    → made s make (s.put a buf) ≡ returns (make a, buf)
made-put s law make a buf h = read_back s law (λ e. give (make e)) h

event_type-code : (t : EventType) → event_type (event_code t) ≡ some t
event_type-code t = elim t as (λ k. event_type (event_code k) ≡ some k) [
  | EventType.not_set ↦ refl
  | _ ↦ refl
]

abbrev Delivers : Message → Buf → Receiver → Type 0
Delivers m buf r =
    alloc r (some (kind m)) (serialize_out m buf)
    ≡ (if takes_up r (kind m) then returns (m, buf) else aborts)

by_kind : (r : Receiver) (m : Message) (buf : Buf) → IsMessage m → Delivers m buf r
unfolding alloc_event alloc_req_event alloc_rtr_event alloc_client_event alloc_server_event
    serialize_out
by_kind r (Message.server_connect e) buf h =
    let whole =
      made-put server_connect_event server_connect_event-Restores Message.server_connect e buf h in
    elim r as (Delivers (Message.server_connect e) buf) [
      | Receiver.router_to_server ↦ whole
      | _ ↦ refl
    ]
by_kind r (Message.comm_create e) buf h =
    let whole = made-put comm_create_event comm_create_event-Restores Message.comm_create e buf h in
    elim r as (Delivers (Message.comm_create e) buf) [
      | Receiver.server ↦ whole
      | Receiver.router_to_client ↦ whole
      | _ ↦ refl
    ]
by_kind r (Message.comm_destroy e) buf h =
    let whole = made-put comm_event comm_event-Restores Message.comm_destroy e buf h in
    elim r as (Delivers (Message.comm_destroy e) buf) [ Receiver.server ↦ whole | _ ↦ refl ]
by_kind r (Message.comm_req e) buf h =
    let whole = made-put comm_req_event comm_req_event-Restores Message.comm_req e buf h in
    elim r as (Delivers (Message.comm_req e) buf) [
      | Receiver.server ↦ whole
      | Receiver.router_to_client ↦ whole
      | _ ↦ refl
    ]
by_kind r (Message.comm_resp e) buf h =
    let whole = made-put comm_resp_event comm_resp_event-Restores Message.comm_resp e buf h in
    elim r as (Delivers (Message.comm_resp e) buf) [
      | Receiver.client_library ↦ whole
      | Receiver.router_to_server ↦ whole
      | _ ↦ refl
    ]
by_kind r (Message.comm_log_req e) buf h =
    let whole =
      made-put comm_log_req_event comm_log_req_event-Restores Message.comm_log_req e buf h in
    elim r as (Delivers (Message.comm_log_req e) buf) [
      | Receiver.server ↦ whole
      | Receiver.router_to_client ↦ whole
      | _ ↦ refl
    ]
by_kind r (Message.comm_log_resp e) buf h =
    let whole =
      made-put comm_log_resp_event comm_log_resp_event-Restores Message.comm_log_resp e buf h in
    elim r as (Delivers (Message.comm_log_resp e) buf) [
      | Receiver.client_library ↦ whole
      | Receiver.router_to_server ↦ whole
      | _ ↦ refl
    ]
by_kind r (Message.comm_get_samples_req e) buf h =
    let whole =
      made-put comm_get_samples_req_event comm_get_samples_req_event-Restores
        Message.comm_get_samples_req e buf h in
    elim r as (Delivers (Message.comm_get_samples_req e) buf) [
      | Receiver.server ↦ whole
      | Receiver.router_to_client ↦ whole
      | _ ↦ refl
    ]
by_kind r (Message.comm_get_samples_resp e) buf h =
    let whole =
      made-put comm_get_samples_resp_event comm_get_samples_resp_event-Restores
        Message.comm_get_samples_resp e buf h in
    elim r as (Delivers (Message.comm_get_samples_resp e) buf) [
      | Receiver.client_library ↦ whole
      | Receiver.router_to_server ↦ whole
      | _ ↦ refl
    ]
by_kind r (Message.router2_router e) buf h =
    let whole = made-put router_event router_event-Restores Message.router2_router e buf h in
    elim r as (Delivers (Message.router2_router e) buf) [
      | Receiver.router_to_router ↦ whole
      | Receiver.router_to_server ↦ whole
      | _ ↦ refl
    ]

-- Each receiver makes the message that was sent out of its type and its bytes, and leaves what was
-- in the buffer before it, if it is meant for such messages; on any other the process stops. The
-- message is in the range of its fields and carries the type of its class.
pub alloc-Delivers :
    (r : Receiver) (m : Message) (buf : Buf)
    → IsMessage m
    → IsTyped m
    → alloc r (event_type (head m).type) (serialize_out m buf)
      ≡ (if takes_up r (kind m) then returns (m, buf) else aborts)
alloc-Delivers r m buf h t =
    ap (λ n. alloc r (event_type n) (serialize_out m buf)) t
    ∙ ap (λ k. alloc r k (serialize_out m buf)) (event_type-code (kind m))
    ∙ by_kind r m buf h

-- A message that is wrapped for routing and serialised is read from its bytes as a router event whose
-- payload gives the message to a receiver that is meant for it, and stops the process of any other.
-- The message carries the type of its class; it and the router event around it are in range.
pub get_payload-wrap :
    (src dest : ℕ) (m : Message) (r : Receiver) (buf : Buf)
    → IsMessage m
    → IsTyped m
    → IsRouter (wrap src dest m)
    → (e : RouterEvent) × (alloc Receiver.router_to_router
          (event_type (wrap src dest m).base.type)
          (serialize_out (Message.router2_router (wrap src dest m)) buf)
        ≡ returns (Message.router2_router e, buf))
      × (get_payload (alloc r) e ≡ (if takes_up r (kind m) then returns (m, []) else aborts))
unfolding wrap get_payload
get_payload-wrap src dest m r buf h t w = (
  wrap src dest m,
  alloc-Delivers Receiver.router_to_router (Message.router2_router (wrap src dest m)) buf w refl,
  alloc-Delivers r m [] h t,
)
