-- ===== src/Router/Service.antt =====
-- Proofs about tools/pwrdaemon/router: a request for values from its arrival at the router to the answer.
use pwrapi_ref.Prelude.{
  ℕ, zero, suc, ◌^◌, ◌<◌, ◌≡◌, ◌≢◌, refl, sym, ap, ◌∙◌, arith, true, some, List, [], ◌∷◌, Outcome,
  returns, ◌==◌, ==_self, length, get_elem?, get_elem?-append_end, get_or, replicate,
  length-replicate, map, All,
}
use pwrapi_ref.Prelude.Maps.{find}
use pwrapi_ref.Wire.{Text}
use pwrapi_ref.Events.{EventType, event_code, OpType, op_code}
use pwrapi_ref.Events.Requests.{CommCreateEvent, CommReqEvent}
use pwrapi_ref.Events.Responses.{CommRespEvent}
use pwrapi_ref.Events.Messages.{Message}
use pwrapi_ref.Router.{Router, Waiting, find_route}
use pwrapi_ref.Router.Answers.{CommReqInfo}
use pwrapi_ref.Router.Requests.{
  answer_to, get_client, get_comm_list, new_info, next_info, send_to_members, process_req,
}
use pwrapi_ref.Router.Counts.{open_groups, open_groups-fresh}
use pwrapi_ref.Router.Sums.{AllAdd, total}
use pwrapi_ref.Router.Rounds.{of_group, Tallied}
use pwrapi_ref.Router.Answered.{Complete, IsFor, process_all, process_all-rest}
use pwrapi_ref.Router.Dispatch.{Routed, send_to_members-Kept}

-- The number of sources of each object.
abbrev pub sizes_of : List (List Text) → List ℕ
sizes_of members = map length members

length-sizes_of : (members : List (List Text)) → length (sizes_of members) ≡ length members
length-sizes_of [] = refl
length-sizes_of (names ∷ members) = ap suc (length-sizes_of members)

get_elem?-replicate : {A : Type 0} (n i : ℕ) (a : A) → i < n → get_elem? (replicate n a) i ≡ some a
get_elem?-replicate zero i a h = elim h [ ]
get_elem?-replicate (suc n) zero a h = refl
get_elem?-replicate (suc n) (suc i) a h = get_elem?-replicate n i a (omega arith)

pos_at : (xs : List ℕ) (g : ℕ) {k : ℕ} → All (λ n. 0 < n) xs → get_elem? xs g ≡ some k → 0 < k
pos_at [] g h e = cc
pos_at (x ∷ xs) zero (hx, h) e = ground arith
pos_at (x ∷ xs) (suc g) (hx, h) e = pos_at xs g h e

-- What the router keeps for a `Get` when it has come in.
abbrev fresh : ℕ → ℕ → CommReqEvent → List (List Text) → CommReqInfo
fresh junk ec ev members = record {
  src = ec;
  op = ev.base.op;
  grp_info = sizes_of members;
  pending = length members;
  value_op = ev.value_op;
  resp_q = replicate (length members) [];
  resp = record {
    base = answer_to junk ev.base.base.id EventType.comm_resp;
    time_stamp = replicate (length members) [];
    value = replicate (length members) [];
    grp_index = junk;
    err_obj = [];
    err_attr = [];
    err_value = [];
  };
}

abbrev passed_on : CommReqEvent → ℕ → ℕ → Text → Message
passed_on ev id i name =
    let base = record ev.base { base = record ev.base.base { id = id } } in
    Message.comm_req (record ev { base = base; grp_index = i })

module _ (add : ℕ → ℕ → ℕ) (junk ec : ℕ) (ev : CommReqEvent) (members : List (List Text)) where
  fresh-Tallied :
      ev.base.op ≡ op_code OpType.get
      → All (λ k. 0 < k) (sizes_of members)
      → Tallied add ev.value_op (sizes_of members) [] (fresh junk ec ev members)
  fresh-Tallied get some_sources = record {
    op = get;
    ops_kept = refl;
    sizes_kept = refl;
    queues = λ g lt.
        get_elem?-replicate (length members) g [] (omega (arith, length-sizes_of members, lt));
    queue_count = length-replicate (length members) [] ∙ sym (length-sizes_of members);
    count = sym (
        ap (λ n. open_groups (sizes_of members) (replicate {A = List CommRespEvent} n []))
          (sym (length-sizes_of members))
        ∙ open_groups-fresh CommRespEvent (sizes_of members) some_sources
        ∙ length-sizes_of members);
    value_rows = length-replicate (length members) [] ∙ sym (length-sizes_of members);
    stamp_rows = length-replicate (length members) [] ∙ sym (length-sizes_of members);
    sums = λ g full. absurd (omega (arith, pos_at (sizes_of members) g some_sources full));
  }

  process_req-fresh :
      (home : Message → Router → Outcome Router) (rt : Router) (comms : List (ℕ × CommCreateEvent))
      (create : CommCreateEvent)
      → find ◌==◌ rt.client_map ec ≡ some comms
      → find ◌==◌ comms ev.base.comm_id ≡ some create
      → create.members ≡ members
      → ev.base.op ≡ op_code OpType.get
      → process_req home junk ec ev rt
        ≡ send_to_members home junk
            (passed_on ev (next_info rt))
            0
            members
            (new_info (Waiting.on_values (fresh junk ec ev members)) rt)
  unfolding process_req get_comm_list get_client
  process_req-fresh home rt comms create at_ec at_id same get =
      let is_get : (ev.base.op == op_code OpType.get) ≡ true =
        rw get (==_self (op_code OpType.get)) in
      rw (at_ec, at_id, same, is_get)

  -- A `Get` of a client is answered once, after all the sources of its objects have answered, whatever
  -- the order in which they do: the answer goes to the client's channel, with the client's event
  -- number, and the value of attribute `i` of object `g` in it is the sum of what the sources of the
  -- object answered. The channel is a client's, with the communicator of the request; each object has
  -- a source, and each source a route; all the operations of the request are additions of doubles; the
  -- responses `r ∷ rs` carry the number under which the router keeps the request, each has a value and
  -- a timestamp for each attribute, and there are as many for each object as it has sources.
  pub process_req-answered :
      (home : Message → Router → Outcome Router) (rt : Router) (comms : List (ℕ × CommCreateEvent))
      (create : CommCreateEvent) (r : CommRespEvent) (rs : List CommRespEvent) (g k i : ℕ)
      → find ◌==◌ rt.client_map ec ≡ some comms
      → find ◌==◌ comms ev.base.comm_id ≡ some create
      → create.members ≡ members
      → ev.base.op ≡ op_code OpType.get
      → ev.base.base.type ≡ event_code EventType.comm_req
      → AllAdd ev.value_op
      → All (λ n. 0 < n) (sizes_of members)
      → All (All (Routed rt)) members
      → length members < 2 ^ 64
      → All (IsFor ev.value_op (sizes_of members) (next_info rt)) (r ∷ rs)
      → Complete (sizes_of members) (r ∷ rs)
      → get_elem? (sizes_of members) g ≡ some k
      → i < length ev.value_op
      → (rt1 : Router) × (rt2 : Router) × (resp : CommRespEvent) × (row : List ℕ) × (process_req
            home junk ec ev rt
          ≡ returns rt1)
        × (process_all add (r ∷ rs) rt1 ≡ returns rt2)
        × (rt2.sent ≡ (ec, Message.comm_resp resp) ∷ rt1.sent)
        × (resp.base.base.id ≡ ev.base.base.id)
        × (get_elem? resp.value g ≡ some row)
        × (get_or row i 0 ≡ total add i 0 (of_group g (r ∷ rs)))
  unfolding find_route
  process_req-answered home rt comms create r rs g k i at_ec at_id same get type adds some_sources
        routed few for whole at_g lt =
      let info = fresh junk ec ev members in
      let waiting = new_info (Waiting.on_values info) rt in
      let (rt1, sends, kept) =
        send_to_members-Kept home junk (passed_on ev (next_info rt)) 0 members waiting routed
          (λ j name. typed) in
      let at_info : get_elem? rt1.infos (next_info rt) ≡ some (some (Waiting.on_values info)) =
        ap (λ infos. get_elem? infos (next_info rt)) kept.infos
        ∙ get_elem?-append_end rt.infos (some (Waiting.on_values info)) in
      let (rt2, done, a) =
        process_all-rest add ev.value_op (sizes_of members) adds
          (omega (arith, length-sizes_of members)) (next_info rt) [] r rs info rt1
          (fresh-Tallied get some_sources) at_info tt for whole in
      let sum = a.sums g k at_g in
      (
        rt1,
        rt2,
        a.resp,
        sum.row,
        process_req-fresh home rt comms create at_ec at_id same get ∙ sends,
        done,
        a.sent,
        ap (λ e. e.id) a.base,
        sum.here,
        sum.each i lt,
      )
    where
      typed : ev.base.base.type ≢ event_code EventType.router2_router
      typed e = absurd (omega (arith, type, e))
