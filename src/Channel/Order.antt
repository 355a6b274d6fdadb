-- ===== src/Channel/Order.antt =====
-- Proofs about src/pwr/tcpEventChannel.cc: the events of a channel arrive in the order in which they
-- were sent.
use mathlib.Core.List.{append-nil, append_assoc}
use pwrapi_ref.Prelude.{
  ℕ, zero, suc, ◌<◌, ◌^◌, ◌≡◌, refl, sym, ap, ◌∙◌, arith, true, Option, some, List, [], ◌∷◌, ◌++◌,
  map, Outcome, returns, faults, inl, inr, ◌⊎◌, length, All, aborts, if◌then◌else◌,
}
use pwrapi_ref.Prelude.Int.{ℤ, pos}
use pwrapi_ref.Prelude.Acts.{Act, proceed, ◌>>=◌, give}
use pwrapi_ref.Wire.{Get, out, unsigned, int32, vector, text}
use pwrapi_ref.Events.{EventType, event, comm_event, event_code}
use pwrapi_ref.Events.Requests.{
  server_connect_event, comm_create_event, comm_req_event, comm_log_req_event,
  comm_get_samples_req_event,
}
use pwrapi_ref.Events.Responses.{comm_resp_event, comm_log_resp_event, comm_get_samples_resp_event}
use pwrapi_ref.Events.Messages.{Message, head, kind, serialize_out, event_type, router_event}
use pwrapi_ref.Events.Delivered.{Receiver, alloc, takes_up, IsMessage, IsTyped, alloc-Delivers}
use pwrapi_ref.Channel.{Sockets, send_event, get_event}
use pwrapi_ref.Channel.Frames.{frame, Stream, WriteCut, ReadCut, send_event-frame, get_event-frame}

-- No event is serialised to nothing: each ends with a word.
serialize_out-some : (m : Message) → 0 < length (serialize_out m [])
unfolding serialize_out out unsigned int32 text vector event comm_event server_connect_event
    comm_create_event comm_req_event comm_log_req_event comm_get_samples_req_event comm_resp_event
    comm_log_resp_event comm_get_samples_resp_event router_event
serialize_out-some (Message.server_connect e) = omega arith
serialize_out-some (Message.comm_create e) = omega arith
serialize_out-some (Message.comm_destroy e) = omega arith
serialize_out-some (Message.comm_req e) = omega arith
serialize_out-some (Message.comm_resp e) = omega arith
serialize_out-some (Message.comm_log_req e) = omega arith
serialize_out-some (Message.comm_log_resp e) = omega arith
serialize_out-some (Message.comm_get_samples_req e) = omega arith
serialize_out-some (Message.comm_get_samples_resp e) = omega arith
serialize_out-some (Message.router2_router e) = omega arith

module _ {W : Type 0} (sys : Sockets W) where
  abbrev pub send_all : ℤ → List Message → Act W ℤ
  send_all fd [] = give fd
  send_all fd (ev ∷ evs) = do fd ← send_event sys fd ev; send_all fd evs

  abbrev pub take_off : (Option EventType → Get Message) → ℕ → ℤ → Act W (List (Option Message))
  take_off make zero fd = give []
  take_off make (suc n) fd = do
    (fd, ev) ← get_event sys make fd
    evs ← take_off make n fd
    give (ev ∷ evs)

-- An event that `r` is meant for, in the range of its fields, of its class's type and not too long.
pub record IsFor (r : Receiver) (m : Message) : Type 0 where
  pub fits : IsMessage m
  pub typed : IsTyped m
  pub taken : takes_up r (kind m) ≡ true
  pub long : length (serialize_out m []) < 2 ^ 64

abbrev frames : List Message → List ℕ
frames [] = []
frames (m ∷ ms) = frame m ++ frames ms

typed_fits : (m : Message) → IsTyped m → (head m).type < 2 ^ 32
typed_fits m t = rw t (small (kind m))
  where
    small : (k : EventType) → event_code k < 2 ^ 32
    small k = elim k as (λ k. event_code k < 2 ^ 32) [
      | EventType.not_set ↦ omega arith
      | _ ↦ omega arith
    ]

-- A chain stops where its first call aborts.
stops :
    {W A B : Type 0} (x : Outcome A × W) (f : A → Act W B) → x.0 ≡ aborts → (proceed x f).0 ≡ aborts
stops (returns a, w) f h = cc
stops (aborts, w) f h = refl
stops (faults, w) f h = cc

module _ {W : Type 0} (sys : Sockets W) (o i : ℕ) (flight : W → List ℕ)
    (law : Stream sys o i flight) where
  send_all-frames :
      (ms : List Message) (w : W)
      → (((send_all sys (pos o) ms w).0 ≡ aborts) × WriteCut sys o)
        ⊎ ((w' : W) × (send_all sys (pos o) ms w ≡ (returns (pos o), w'))
            × (flight w' ≡ flight w ++ frames ms))
  send_all-frames [] w = inr (w, refl, sym (append-nil (flight w)))
  send_all-frames (m ∷ ms) w = elim (send_event-frame sys o i flight law m w) [
    | inl (bad, cut) ↦ inl (stops _ _ bad, cut)
    | inr (w1, sent, f1) ↦ elim (send_all-frames ms w1) [
      | inl (bad, cut) ↦ inl (rw (sent, bad) refl, cut)
      | inr (w2, all_sent, f2) ↦ inr (
        w2,
        rw (sent, all_sent) refl,
        f2 ∙ ap (λ bs. bs ++ frames ms) f1 ∙ append_assoc (flight w) (frame m) (frames ms),
      )
    ]
  ]

  take_off-frames :
      (r : Receiver) (ms : List Message) (w : W)
      → All (IsFor r) ms
      → flight w ≡ frames ms
      → (((take_off sys (alloc r) (length ms) (pos i) w).0 ≡ aborts) × ReadCut sys i flight)
        ⊎ ((w' : W) × (take_off sys (alloc r) (length ms) (pos i) w ≡ (returns (map some ms), w'))
            × (flight w' ≡ []))
  take_off-frames r [] w h f = inr (w, refl, f)
  take_off-frames r (m ∷ ms) w (h, hs) f =
      elim (get_event-frame sys o i flight law (alloc r) m (frames ms) w (typed_fits m h.typed)
        (serialize_out-some m) h.long makes f) [
          | inl (bad, cut) ↦ inl (stops _ _ bad, cut)
          | inr (w1, got, f1) ↦ elim (take_off-frames r ms w1 hs f1) [
            | inl (bad, cut) ↦ inl (rw (got, bad) refl, cut)
            | inr (w2, all_got, f2) ↦ inr (w2, rw (got, all_got) refl, f2)
          ]
        ]
    where
      makes : alloc r (event_type (head m).type) (serialize_out m []) ≡ returns (m, [])
      makes =
          alloc-Delivers r m [] h.fits h.typed
          ∙ ap (λ b. if b then returns (m, []) else aborts) h.taken

  pub take_off-send_all :
      (r : Receiver) (ms : List Message) (w : W)
      → All (IsFor r) ms
      → flight w ≡ []
      → (((send_all sys (pos o) ms w).0 ≡ aborts) × WriteCut sys o)
        ⊎ ((w' : W) × (send_all sys (pos o) ms w ≡ (returns (pos o), w'))
            × ((((take_off sys (alloc r) (length ms) (pos i) w').0 ≡ aborts) × ReadCut sys i flight)
                ⊎ ((w'' : W) × (take_off sys (alloc r) (length ms) (pos i) w'
                      ≡ (returns (map some ms), w''))
                    × (flight w'' ≡ []))))
  take_off-send_all r ms w h empty = elim (send_all-frames ms w) [
    | inl cut ↦ inl cut
    | inr (w', sent, f) ↦
        inr (w', sent, take_off-frames r ms w' h (f ∙ ap (λ bs. bs ++ frames ms) empty))
  ]
