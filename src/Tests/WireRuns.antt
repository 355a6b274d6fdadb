-- ===== src/Tests/WireRuns.antt =====
-- Events on their way: an answer with an error, a request that is wrapped for a server, and a channel that
-- is a list of bytes.
use mathlib.Core.List.{reverse}
use pwrapi_ref.Prelude.{
  ℕ, ◌≤◌, leb, if◌then◌else◌, ap, ◌≡◌, ◌≢◌, refl, sym, ◌∙◌, arith, Bool, true, false, ◌&&◌,
  Bool-cases, inl, inr, ltb, ltb→lt, some, List, [], ◌∷◌, ◌++◌, map, returns, length, take, drop,
  All,
}
use pwrapi_ref.Prelude.Int.{pos, negsuc}
use pwrapi_ref.Wire.{out, out_from, unsigned, int32, vector, put_all, text}
use pwrapi_ref.Wire.Values.{Fits}
use pwrapi_ref.Events.{EventType, event_code, Event, event, CommEvent, comm_event, OpType, op_code}
use pwrapi_ref.Events.Requests.{CommReqEvent, comm_req_event}
use pwrapi_ref.Events.Responses.{CommLogRespEvent, comm_log_resp_event}
use pwrapi_ref.Events.Messages.{Message, RouterEvent, wrap, event_type, serialize_out, get_payload}
use pwrapi_ref.Events.Restored.{IsCommReq, IsCommLogResp}
use pwrapi_ref.Events.Delivered.{Receiver, alloc, IsRouter, alloc-Delivers, get_payload-wrap}
use pwrapi_ref.Channel.{Sockets}
use pwrapi_ref.Channel.Frames.{Stream, take-whole}
use pwrapi_ref.Channel.Order.{IsFor, send_all, take_off, take_off-send_all}

abbrev pub header : EventType → ℕ → Event
header type id = record { type = event_code type; id = id; status = negsuc 13 }

abbrev pub header_of : EventType → ℕ → OpType → CommEvent
header_of type id op = record { base = header type id; comm_id = 5; op = op_code op }

-- "n0", which refuses an attribute.
abbrev refused : CommLogRespEvent
refused = record {
  base = header_of EventType.comm_log_resp 9 OpType.start;
  err_obj = (110 ∷ 48 ∷ []) ∷ [];
  err_attr = negsuc 0 ∷ [];
  err_value = negsuc 12 ∷ [];
}

refused_fits : IsCommLogResp refused
refused_fits = record {
  base = record {
    base = record { type = omega arith; id = omega arith; status = omega arith };
    comm_id = omega arith;
    op = omega arith;
  };
  errors = record {
    objects = ((omega arith, tt), omega arith);
    attributes = ((omega arith, tt), omega arith);
    values = ((omega arith, tt), omega arith);
  };
}

alloc-Delivers_example :
    alloc Receiver.client_library
      (event_type 6)
      (serialize_out (Message.comm_log_resp refused) (7 ∷ []))
    ≡ returns (Message.comm_log_resp refused, 7 ∷ [])
alloc-Delivers_example =
    alloc-Delivers Receiver.client_library (Message.comm_log_resp refused) (7 ∷ []) refused_fits
      refl

abbrev pub get_power : CommReqEvent
get_power = record {
  base = header_of EventType.comm_req 4 OpType.get;
  grp_index = 0;
  attr_name = pos 6 ∷ [];
  set_values = [];
  value_op = 1 ∷ [];
}

get_power_fits : IsCommReq get_power
get_power_fits = record {
  base = record {
    base = record { type = omega arith; id = omega arith; status = omega arith };
    comm_id = omega arith;
    op = omega arith;
  };
  grp_index = omega arith;
  attr_name = ((omega arith, tt), omega arith);
  set_values = (tt, omega arith);
  value_op = ((omega arith, tt), omega arith);
}

abbrev all_bytes : List ℕ → Bool
all_bytes [] = true
all_bytes (b ∷ bs) = ltb b 256 && all_bytes bs

bytes_fit : (bs : List ℕ) → all_bytes bs ≡ true → All (Fits 1) bs
bytes_fit [] h = tt
bytes_fit (b ∷ bs) h = elim (Bool-cases (ltb b 256)) [
  | inl e ↦ (ltb→lt b 256 e, bytes_fit bs (sym (rw e) ∙ h))
  | inr e ↦ absurd (true_ne (sym h ∙ rw e))
]
  where
    true_ne : true ≢ false
    true_ne e = cc

abbrev wrapped : RouterEvent
wrapped = wrap 8589934591 4294967296 (Message.comm_req get_power)

wrapped_fits : IsRouter wrapped
unfolding wrap serialize_out comm_req_event comm_event event unsigned int32 vector put_all out
    out_from
wrapped_fits = record {
  base = record { type = omega arith; id = omega arith; status = omega arith };
  src = omega arith;
  dest = omega arith;
  event_type = omega arith;
  payload = (bytes_fit (reverse wrapped.payload) refl, omega arith);
}

get_payload-wrap_example :
    (e : RouterEvent) × (alloc Receiver.router_to_router
        (event_type 10)
        (serialize_out (Message.router2_router wrapped) [])
      ≡ returns (Message.router2_router e, []))
    × (get_payload (alloc Receiver.server) e ≡ returns (Message.comm_req get_power, []))
unfolding wrap
get_payload-wrap_example =
    get_payload-wrap 8589934591 4294967296 (Message.comm_req get_power) Receiver.server []
      get_power_fits refl wrapped_fits

-- As many bytes as are asked for, or all that are in flight.
abbrev ready : ℕ → List ℕ → ℕ
ready n w = if leb n (length w) then n else length w

-- Bytes in flight: a write puts its bytes behind them, a read takes what it wants from the front.
abbrev pipe : Sockets (List ℕ)
pipe = record {
  socket = λ w. (pos 3, w);
  no_delay = λ fd w. (pos 0, w);
  resolve = λ w. (true, w);
  connect = λ fd w. (pos 0, w);
  sleep = λ w. (0, w);
  read = λ fd n w. (some (take (ready n w) w), drop (ready n w) w);
  write = λ fd bs w. (pos (length bs), w ++ bs);
}

pipe-Stream : Stream pipe 3 4 (λ w. w)
pipe-Stream = record {
  write_part = λ bs w.
      inr (length bs, omega arith, refl, ap (λ bs. w ++ bs) (sym (take-whole (length bs) bs refl)));
  read_part = λ n w. inr (ready n w, ground arith, ground arith, (λ a b. ground arith), refl, refl);
}

abbrev answers : List Message
answers = Message.comm_log_resp refused ∷ Message.comm_log_resp refused ∷ []

refused-IsFor : IsFor Receiver.client_library (Message.comm_log_resp refused)
refused-IsFor = record {
  fits = refused_fits;
  typed = refl;
  taken = refl;
  long =
      unfold serialize_out comm_log_resp_event comm_event event unsigned int32 text vector put_all
        out out_from in
      omega arith;
}

-- This pipe cuts nothing short.
pipe_read : (n : ℕ) (w : List ℕ) → n ≤ length w → ready n w ≡ n
pipe_read n w h = ground arith

delivered :
    (w' : List ℕ) × (w'' : List ℕ) × (send_all pipe (pos 3) answers [] ≡ (returns (pos 3), w'))
    × (take_off pipe (alloc Receiver.client_library) 2 (pos 4) w'
        ≡ (returns (map some answers), w''))
delivered =
    elim (take_off-send_all pipe 3 4 (λ w. w) pipe-Stream Receiver.client_library answers []
      (refused-IsFor, (refused-IsFor, tt)) refl) [
        | inl (bad, (bs, w, cut)) ↦ absurd (cut refl)
        | inr (w', sent, got) ↦ elim got [
          | inl (bad, (n, w, room, cut)) ↦
              absurd (cut (ap (λ k. some (take k w)) (pipe_read n w room)))
          | inr (w'', all_got, left) ↦ (w', w'', sent, all_got)
        ]
      ]
