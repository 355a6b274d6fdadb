-- ===== src/Client/Sending.antt =====
-- src/pwr/distComm.cc: the requests that a communicator sends for its objects.
use pwrapi_ref.Prelude.{ℕ, Bool, true, List, [], ◌∷◌, if◌then◌else◌}
use pwrapi_ref.Prelude.Int.{ℤ, pos}
use pwrapi_ref.Wire.{Text}
use pwrapi_ref.Events.{EventType, event_code, CommEvent, OpType, op_code}
use pwrapi_ref.Events.Messages.{Message}

-- `opened` says that the channel is set; `sent` is what went out on it, the last event first.
pub record DistComm : Type 0 where
  pub comm_id : ℕ
  pub objects : List Text
  pub opened : Bool
  pub sent : List Message

-- An event of the communicator, with the number of the request.
abbrev pub comm_event_of : ℕ → EventType → OpType → ℕ → CommEvent
comm_event_of comm_id type op id = record {
  base = record { type = event_code type; id = id; status = pos 0 };
  comm_id = comm_id;
  op = op_code op;
}

abbrev pub creation : DistComm → Message
creation c = Message.comm_create (record {
  base = comm_event_of c.comm_id EventType.comm_create OpType.noop 0;
  members = c.objects ∷ [];
})

-- `getChannel`: the first use tells the router of the communicator.
unfoldable pub comm_channel : DistComm → DistComm
comm_channel c = if c.opened then c else record c { opened = true; sent = creation c ∷ c.sent }

unfoldable pub send : Message → DistComm → DistComm
send ev c = let c = comm_channel c in record c { sent = ev ∷ c.sent }

-- `junk` is what stands in a field that is not set.
module _ (junk : ℕ) where
  unfoldable pub get_values : List ℤ → List ℕ → ℕ → DistComm → DistComm
  get_values attrs ops id c =
      send
        (Message.comm_req (record {
          base = comm_event_of c.comm_id EventType.comm_req OpType.get id;
          grp_index = 0;
          attr_name = attrs;
          set_values = [];
          value_op = ops;
        }))
        c

  unfoldable pub set_values : List ℤ → List ℕ → ℕ → DistComm → DistComm
  set_values attrs values id c =
      send
        (Message.comm_req (record {
          base = comm_event_of c.comm_id EventType.comm_req OpType.set id;
          grp_index = junk;
          attr_name = attrs;
          set_values = values;
          value_op = [];
        }))
        c

unfoldable pub log_event : OpType → ℤ → ℕ → DistComm → Message
log_event op attr id c =
    Message.comm_log_req
      (record { base = comm_event_of c.comm_id EventType.comm_log_req op id; attr_name = attr })

unfoldable pub start_log : ℤ → ℕ → DistComm → DistComm
start_log attr id c = send (log_event OpType.start attr id c) c

unfoldable pub stop_log : ℤ → ℕ → DistComm → DistComm
stop_log attr id c = send (log_event OpType.stop attr id c) c

-- The times and the period are their 64 bits.
unfoldable pub request_samples : ℤ → ℕ → ℕ → ℕ → ℕ → DistComm → DistComm
request_samples attr start period count id c =
    send
      (Message.comm_get_samples_req (record {
        base = comm_event_of c.comm_id EventType.comm_get_samples_req OpType.noop id;
        attr_name = attr;
        start_time = start;
        period = period;
        count = count;
      }))
      c
