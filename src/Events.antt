-- ===== src/Events.antt =====
-- src/pwr/event.h, events.h, eventType.h and tools/pwrdaemon/router/routerEvent.h: the events that
-- clients, routers and servers send each other, and their serialisation. A derived event holds its
-- base in a field. `put` is `serialize_out` and `get` is `serialize_in`, which takes the fields off
-- the buffer in the opposite order.
pub mod Requests
pub mod Responses
pub mod Messages
pub mod Restored
pub mod Delivered
use pwrapi_ref.Prelude.{ℕ, List, [], Outcome, returns, aborts, Option, none, some}
use pwrapi_ref.Prelude.Int.{ℤ, pos}
use pwrapi_ref.Wire.{Buf, Get, ◌>>=◌, thread, give, Serial, unsigned, int32, vector, Text, text}

pub data EventType : Type 0 where
  not_set comm_create comm_destroy comm_req comm_resp comm_log_req comm_log_resp : EventType
  comm_get_samples_req comm_get_samples_resp server_connect router2_router : EventType

abbrev pub event_code : EventType → ℕ
event_code EventType.not_set = 0
event_code EventType.comm_create = 1
event_code EventType.comm_destroy = 2
event_code EventType.comm_req = 3
event_code EventType.comm_resp = 4
event_code EventType.comm_log_req = 5
event_code EventType.comm_log_resp = 6
event_code EventType.comm_get_samples_req = 7
event_code EventType.comm_get_samples_resp = 8
event_code EventType.server_connect = 9
event_code EventType.router2_router = 10

abbrev pub u64 : Serial ℕ
u64 = unsigned 8

abbrev pub u32 : Serial ℕ
u32 = unsigned 4

-- `std::vector` of 64-bit words, of attribute names, of operations, of error codes and of names.
abbrev pub words : Serial (List ℕ)
words = vector u64 0

abbrev pub attrs : Serial (List ℤ)
attrs = vector int32 (pos 0)

abbrev pub enums : Serial (List ℕ)
enums = vector u32 0

abbrev pub texts : Serial (List Text)
texts = vector text []

abbrev pub bytes : Serial (List ℕ)
bytes = vector (unsigned 1) 0

pub record Event : Type 0 where
  pub type : ℕ
  pub id : ℕ
  pub status : ℤ

unfoldable pub event : Serial Event
event = record {
  put = λ e buf. int32.put e.status (u32.put e.type (u64.put e.id buf));
  get = do
    status ← int32.get
    type ← u32.get
    id ← u64.get
    give (record { type = type; id = id; status = status });
}

-- CommEvent::OpType.
pub data OpType : Type 0 where
  noop get set start stop clear : OpType

abbrev pub op_code : OpType → ℕ
op_code OpType.noop = 0
op_code OpType.get = 1
op_code OpType.set = 2
op_code OpType.start = 3
op_code OpType.stop = 4
op_code OpType.clear = 5

-- `op` is the code of an `OpType`: the reader casts whatever it finds.
pub record CommEvent : Type 0 where
  pub base : Event
  pub comm_id : ℕ
  pub op : ℕ

unfoldable pub comm_event : Serial CommEvent
comm_event = record {
  put = λ e buf. u32.put e.op (u64.put e.comm_id (event.put e.base buf));
  get = do
    op ← u32.get
    comm_id ← u64.get
    base ← event.get
    give (record { base = base; comm_id = comm_id; op = op });
}
