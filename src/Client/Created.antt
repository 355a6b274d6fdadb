-- ===== src/Client/Created.antt =====
-- Proofs about src/pwr/distComm.cc: what goes out on the channel of a communicator.
use mathlib.Core.List.{reverse, reverse-cons, append_assoc, append-nil}
use pwrapi_ref.Prelude.{ℕ, ◌≡◌, refl, sym, ap, ◌∙◌, true, false, List, [], ◌∷◌, ◌++◌, map}
use pwrapi_ref.Prelude.Int.{ℤ}
use pwrapi_ref.Events.{EventType, OpType}
use pwrapi_ref.Events.Messages.{Message}
use pwrapi_ref.Client.Sending.{
  DistComm, comm_event_of, creation, comm_channel, send, get_values, set_values, log_event,
  start_log, stop_log, request_samples,
}

-- A call of the communicator, with the number of its request last.
pub data Call : Type 0 where
  get_call : List ℤ → List ℕ → ℕ → Call
  set_call : List ℤ → List ℕ → ℕ → Call
  start_call : ℤ → ℕ → Call
  stop_call : ℤ → ℕ → Call
  samples_call : ℤ → ℕ → ℕ → ℕ → ℕ → Call

abbrev pub perform : ℕ → Call → DistComm → DistComm
perform junk (get_call attrs ops id) = get_values junk attrs ops id
perform junk (set_call attrs values id) = set_values junk attrs values id
perform junk (start_call attr id) = start_log attr id
perform junk (stop_call attr id) = stop_log attr id
perform junk (samples_call attr start period count id) = request_samples attr start period count id

abbrev pub perform_all : ℕ → List Call → DistComm → DistComm
perform_all junk [] c = c
perform_all junk (call ∷ calls) c = perform_all junk calls (perform junk call c)

-- The request of a call to the communicator `comm_id`.
abbrev pub request : ℕ → ℕ → Call → Message
request junk comm_id (get_call attrs ops id) = Message.comm_req (record {
  base = comm_event_of comm_id EventType.comm_req OpType.get id;
  grp_index = 0;
  attr_name = attrs;
  set_values = [];
  value_op = ops;
})
request junk comm_id (set_call attrs values id) = Message.comm_req (record {
  base = comm_event_of comm_id EventType.comm_req OpType.set id;
  grp_index = junk;
  attr_name = attrs;
  set_values = values;
  value_op = [];
})
request junk comm_id (start_call attr id) = Message.comm_log_req (record {
  base = comm_event_of comm_id EventType.comm_log_req OpType.start id;
  attr_name = attr;
})
request junk comm_id (stop_call attr id) = Message.comm_log_req (record {
  base = comm_event_of comm_id EventType.comm_log_req OpType.stop id;
  attr_name = attr;
})
request junk comm_id (samples_call attr start period count id) =
    Message.comm_get_samples_req (record {
      base = comm_event_of comm_id EventType.comm_get_samples_req OpType.noop id;
      attr_name = attr;
      start_time = start;
      period = period;
      count = count;
    })

perform-send :
    (junk : ℕ) (call : Call) (c : DistComm)
    → perform junk call c ≡ send (request junk c.comm_id call) c
unfolding get_values set_values log_event start_log stop_log request_samples
perform-send junk (get_call attrs ops id) c = refl
perform-send junk (set_call attrs values id) c = refl
perform-send junk (start_call attr id) c = refl
perform-send junk (stop_call attr id) c = refl
perform-send junk (samples_call attr start period count id) c = refl

-- A communicator whose channel is set sends the requests and nothing else.
perform_all-opened :
    (junk : ℕ) (calls : List Call) (c : DistComm)
    → c.opened ≡ true
    → reverse (perform_all junk calls c).sent ≡ reverse c.sent ++ map (request junk c.comm_id) calls
unfolding send comm_channel
perform_all-opened junk [] c e = sym (append-nil (reverse c.sent))
perform_all-opened junk (call ∷ calls) c e =
    ap (λ c. reverse (perform_all junk calls c).sent) (perform-send junk call c ∙ rw e)
    ∙ perform_all-opened junk calls (record c { sent = request junk c.comm_id call ∷ c.sent }) e
    ∙ ap (λ s. s ++ map (request junk c.comm_id) calls)
        (reverse-cons (request junk c.comm_id call) c.sent)
    ∙ append_assoc (reverse c.sent) (request junk c.comm_id call ∷ [])
        (map (request junk c.comm_id) calls)

send-fresh :
    (ev : Message) (c : DistComm)
    → c.opened ≡ false
    → c.sent ≡ []
    → send ev c ≡ record c { opened = true; sent = ev ∷ creation c ∷ [] }
unfolding send comm_channel
send-fresh ev c e s = rw (e, s)

-- A new communicator sends its creation, with all of its objects in one group, before the first
-- request, and then the requests of all the calls in their order; the creation goes out once.
pub perform_all-creates_once :
    (junk : ℕ) (call : Call) (calls : List Call) (c : DistComm)
    → c.opened ≡ false
    → c.sent ≡ []
    → reverse (perform_all junk (call ∷ calls) c).sent
      ≡ creation c ∷ map (request junk c.comm_id) (call ∷ calls)
perform_all-creates_once junk call calls c e s =
    let first = request junk c.comm_id call in
    ap (λ c. reverse (perform_all junk calls c).sent)
      (perform-send junk call c ∙ send-fresh first c e s)
    ∙ perform_all-opened junk calls (record c { opened = true; sent = first ∷ creation c ∷ [] })
        refl
