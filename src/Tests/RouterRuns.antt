-- ===== src/Tests/RouterRuns.antt =====
-- A router with two servers: a client asks for the power of a cabinet that two nodes add up to, and of a
-- node of its own.
use mathlib.Core.List.{reverse}
use pwrapi_ref.Prelude.{
  ℕ, zero, suc, ◌+◌, ◌<◌, All, ◌≡◌, ◌≢◌, refl, arith, inl, none, some, List, [], ◌∷◌, ◌++◌, Outcome,
  returns, faults, get_elem?, get_or, ◌==◌, map,
}
use pwrapi_ref.Prelude.Maps.{find}
use pwrapi_ref.Wire.{Text}
use pwrapi_ref.Events.{EventType, event_code, OpType}
use pwrapi_ref.Events.Requests.{CommCreateEvent}
use pwrapi_ref.Events.Responses.{CommRespEvent}
use pwrapi_ref.Events.Messages.{Message, RouterEvent, wrap}
use pwrapi_ref.Router.{
  Router, Core, find_route, find_server_chan, server_id, no_server, no_route, app_id, send_object,
  send_on, send_app,
}
use pwrapi_ref.Router.Requests.{process_req}
use pwrapi_ref.Router.Events.{process_connect}
use pwrapi_ref.Router.Answered.{Complete, IsFor, process_all}
use pwrapi_ref.Router.Service.{process_req-answered}
use pwrapi_ref.Router.Dispatch.{Routed}
use pwrapi_ref.Router.Routes.{
  on_channel, send_object-unrouted, process_connect-flushes, process_connect-faults,
}
use pwrapi_ref.Tests.WireRuns.{header_of, get_power}

abbrev node0 : Text
node0 = 110 ∷ 48 ∷ []

abbrev node1 : Text
node1 = 110 ∷ 49 ∷ []

abbrev members : List (List Text)
members = (node0 ∷ node1 ∷ []) ∷ (node1 ∷ []) ∷ []

abbrev create : CommCreateEvent
create = record { base = header_of EventType.comm_create 1 OpType.noop; members = members }

-- Router 2, below a parent on channel 90; node0 is server 0 on channel 70, node1 has not connected.
abbrev router : Router
router = record {
  rtr_id = 2;
  core = Core.tree (record { send = some 90; nid_start = 0; nid_stop = 0 } ∷ []);
  route_table = (node0, 8589934592) ∷ (node1, 8589934593) ∷ [];
  local_map = (0, 70) ∷ [];
  server_map = (70, node0) ∷ (71, []) ∷ [];
  client_map = (80, (5, create) ∷ []) ∷ [];
  pending_events = [];
  infos = [];
  sent = [];
}

abbrev response : ℕ → ℕ → CommRespEvent
response group value = record {
  base = header_of EventType.comm_resp 0 OpType.get;
  time_stamp = (1000 ∷ []) ∷ [];
  value = (value ∷ []) ∷ [];
  grp_index = group;
  err_obj = [];
  err_attr = [];
  err_value = [];
}

response-IsFor :
    (group value : ℕ) → group < 2 → IsFor (1 ∷ []) (2 ∷ 1 ∷ []) 0 (response group value)
response-IsFor group value lt = record {
  id = refl;
  group = lt;
  rows = record { values = refl; stamps = refl };
}

complete : Complete (2 ∷ 1 ∷ []) (response 0 30 ∷ response 1 7 ∷ response 0 12 ∷ [])
complete zero k e = ground arith
complete (suc zero) k e = ground arith
complete (suc (suc g)) k e = cc

routed : All (All (Routed router)) members
unfolding find_route
routed = ((inl refl, (inl refl, tt)), ((inl refl, tt), tt))

abbrev nowhere : Message → Router → Outcome Router
nowhere ev r = faults

process_req-answered_example :
    (rt1 : Router) × (rt2 : Router) × (resp : CommRespEvent) × (row : List ℕ) × (process_req nowhere
        0 80 get_power router
      ≡ returns rt1)
    × (process_all (λ a b. a + b) (response 0 30 ∷ response 1 7 ∷ response 0 12 ∷ []) rt1
        ≡ returns rt2)
    × (rt2.sent ≡ (80, Message.comm_resp resp) ∷ rt1.sent)
    × (resp.base.base.id ≡ 4)
    × (get_elem? resp.value 0 ≡ some row)
    × (get_or row 0 0 ≡ 42)
process_req-answered_example =
    process_req-answered (λ a b. a + b) 0 80 get_power members nowhere router ((5, create) ∷ [])
      create (response 0 30) (response 1 7 ∷ response 0 12 ∷ []) 0 2 0 refl refl refl refl refl
      (refl, tt) (omega arith, (omega arith, tt)) routed (omega arith)
      (
        response-IsFor 0 30 (omega arith),
        (response-IsFor 1 7 (omega arith), (response-IsFor 0 12 (omega arith), tt)),
      )
      complete refl (omega arith)

two_ne : 2 ≢ no_server
two_ne e = ground arith

three_ne : 3 ≢ event_code EventType.router2_router
three_ne e = ground arith

abbrev stranger : Text
stranger = 120 ∷ []

send_object-unrouted_example :
    send_object nowhere stranger (Message.comm_req get_power) router
    ≡ returns (
        send_on router 90 (
          Message.router2_router (wrap (app_id 2 no_server) no_route (Message.comm_req get_power))))
send_object-unrouted_example =
    send_object-unrouted nowhere router stranger (Message.comm_req get_power)
      (record { send = some 90; nid_start = 0; nid_stop = 0 }) [] 90 refl refl refl tt two_ne
      three_ne

-- Two requests are kept for node1, in router events.
abbrev kept : List Message
kept =
    map (λ ev. Message.router2_router (wrap (app_id 2 no_server) (app_id 2 1) ev))
      (Message.comm_req get_power ∷ Message.comm_create create ∷ [])

abbrev before : Router
before = record router { pending_events = (1, map some kept) ∷ [] }

one_ne : server_id (find_route before node1) ≢ no_server
unfolding find_route
one_ne e = ground arith

kept_there :
    find ◌==◌ before.pending_events (server_id (find_route before node1)) ≡ some (map some kept)
unfolding find_route
kept_there = refl

process_connect-flushes_example :
    (r' : Router) × (process_connect node1 (some 71) before ≡ returns r')
    × (reverse r'.sent ≡ [] ++ on_channel 71 kept)
    × (find ◌==◌ r'.pending_events (server_id (find_route before node1)) ≡ none)
    × (find_server_chan r' (server_id (find_route before node1)) ≡ some 71)
process_connect-flushes_example =
    process_connect-flushes before node1 71 [] refl one_ne kept kept_there

-- A request of another router for node1, which has not connected.
abbrev arrived : RouterEvent
arrived = wrap (app_id 3 no_server) (app_id 2 1) (Message.comm_req get_power)

abbrev unconnected : Router
unconnected = record router { local_map = [] }

process_connect-faults_example :
    (r' : Router) × (send_app nowhere arrived.dest (Message.router2_router arrived) unconnected
      ≡ returns r')
    × (process_connect node1 (some 71) r' ≡ faults)
unfolding find_route find_server_chan wrap
process_connect-faults_example =
    process_connect-faults nowhere arrived unconnected node1 71 [] refl refl refl
      (λ e. ground arith) refl refl
