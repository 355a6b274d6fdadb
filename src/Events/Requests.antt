-- ===== src/Events/Requests.antt =====
-- src/pwr/events.h: the events that clients send, and the one that a server starts with.
use pwrapi_ref.Prelude.{ℕ, List, []}
use pwrapi_ref.Prelude.Int.{ℤ}
use pwrapi_ref.Wire.{◌>>=◌, give, Serial, int32, vector, Text, text}
use pwrapi_ref.Events.{u64, u32, words, attrs, enums, texts, Event, event, CommEvent, comm_event}

pub record ServerConnectEvent : Type 0 where
  pub base : Event
  pub name : Text

unfoldable pub server_connect_event : Serial ServerConnectEvent
server_connect_event = record {
  put = λ e buf. text.put e.name (event.put e.base buf);
  get = do
    name ← text.get
    base ← event.get
    give (record { base = base; name = name });
}

pub record CommCreateEvent : Type 0 where
  pub base : CommEvent
  pub members : List (List Text)

unfoldable pub comm_create_event : Serial CommCreateEvent
comm_create_event = record {
  put = λ e buf. (vector texts []).put e.members (comm_event.put e.base buf);
  get = do
    members ← (vector texts []).get
    base ← comm_event.get
    give (record { base = base; members = members });
}

-- The attributes and the operations are codes too.
pub record CommReqEvent : Type 0 where
  pub base : CommEvent
  pub grp_index : ℕ
  pub attr_name : List ℤ
  pub set_values : List ℕ
  pub value_op : List ℕ

unfoldable pub comm_req_event : Serial CommReqEvent
comm_req_event = record {
  put = λ e buf. u64.put e.grp_index (
      enums.put e.value_op
        (attrs.put e.attr_name (words.put e.set_values (comm_event.put e.base buf))));
  get = do
    grp_index ← u64.get
    value_op ← enums.get
    attr_name ← attrs.get
    set_values ← words.get
    base ← comm_event.get
    give (record {
      base = base;
      grp_index = grp_index;
      attr_name = attr_name;
      set_values = set_values;
      value_op = value_op;
    });
}

pub record CommLogReqEvent : Type 0 where
  pub base : CommEvent
  pub attr_name : ℤ

unfoldable pub comm_log_req_event : Serial CommLogReqEvent
comm_log_req_event = record {
  put = λ e buf. int32.put e.attr_name (comm_event.put e.base buf);
  get = do
    attr_name ← int32.get
    base ← comm_event.get
    give (record { base = base; attr_name = attr_name });
}

-- `period` is the bits of a double.
pub record CommGetSamplesReqEvent : Type 0 where
  pub base : CommEvent
  pub attr_name : ℤ
  pub start_time : ℕ
  pub period : ℕ
  pub count : ℕ

unfoldable pub comm_get_samples_req_event : Serial CommGetSamplesReqEvent
comm_get_samples_req_event = record {
  put = λ e buf.
      int32.put e.attr_name
        (u64.put e.start_time (u64.put e.period (u32.put e.count (comm_event.put e.base buf))));
  get = do
    attr_name ← int32.get
    start_time ← u64.get
    period ← u64.get
    count ← u32.get
    base ← comm_event.get
    give (record {
      base = base;
      attr_name = attr_name;
      start_time = start_time;
      period = period;
      count = count;
    });
}
