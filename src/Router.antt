-- ===== src/Router.antt =====
-- tools/pwrdaemon/router/router.h, router.cc, treeCore.cc, torusCore.cc and rtrRouterEvent.h: the state of
-- a router, and how it sends an event on towards an object. A channel is a number; what is sent is
-- logged in `sent`, the last event first.
pub mod Answers
pub mod Requests
pub mod Events
pub mod Sums
pub mod Counts
pub mod Rounds
pub mod Tally
pub mod Answered
pub mod Dispatch
pub mod Service
pub mod Routes
use mathlib.Core.List.{reverse}
use pwrapi_ref.Prelude.{
  ℕ, zero, suc, ◌+◌, ◌-◌, ◌*◌, ◌/◌, ◌%◌, ◌^◌, Bool, true, false, ◌&&◌, Option, none, some, List, [],
  ◌∷◌, ◌++◌, Outcome, returns, ◌>>=◌, aborts, faults, ◌==◌, leb, if◌then◌else◌, length, get_elem?,
}
use pwrapi_ref.Prelude.Maps.{find, insert}
use pwrapi_ref.Wire.{Text}
use pwrapi_ref.Events.{EventType, event_code}
use pwrapi_ref.Events.Responses.{CommLogRespEvent, CommGetSamplesRespEvent}
use pwrapi_ref.Events.Requests.{CommCreateEvent}
use pwrapi_ref.Events.Messages.{Message, head, RouterEvent, wrap, get_payload, alloc_server_event}
use pwrapi_ref.Router.Answers.{CommReqInfo}

-- A link of the tree, with the routers that are behind it.
pub record Link : Type 0 where
  pub send : Option ℕ
  pub nid_start : ℕ
  pub nid_stop : ℕ

-- What a router hands to its neighbours: by the number of the router in a tree, always the same way
-- round a torus.
pub data Core : Type 0 where
  tree : List Link → Core
  torus : List (Option ℕ) → Core

abbrev pub behind : ℕ → Link → Bool
behind id link = leb link.nid_start id && leb id link.nid_stop

abbrev pub link_to : Option ℕ → ℕ → List Link → Option ℕ
link_to up id [] = up
link_to up id (link ∷ links) =
    let next = link_to up id links in if behind id link then link.send else next

-- `TreeCore::getChannel` and `TorusCore::getChannel`; the first link leads up the tree.
unfoldable pub get_channel : Core → ℕ → Outcome (Option ℕ)
get_channel (Core.tree []) id = returns none
get_channel (Core.tree (up ∷ links)) id = returns (link_to up.send id links)
get_channel (Core.torus []) id = faults
get_channel (Core.torus (link ∷ links)) id = returns link

-- What a request of a client is waiting for. The event's `id` that the servers answer with is the
-- address of this; the model's addresses count the requests, and one that was answered is gone.
pub data Waiting : Type 0 where
  on_values : CommReqInfo → Waiting
  on_log : ℕ → CommLogRespEvent → Waiting
  on_samples : ℕ → CommGetSamplesRespEvent → Waiting

-- `m_pendingEvents` keeps pointers: `none` is one to an event that has been freed since.
pub record Router : Type 0 where
  pub rtr_id : ℕ
  pub core : Core
  pub route_table : List (Text × ℕ)
  pub local_map : List (ℕ × ℕ)
  pub server_map : List (ℕ × Text)
  pub client_map : List (ℕ × List (ℕ × CommCreateEvent))
  pub pending_events : List (ℕ × List (Option Message))
  pub infos : List (Option Waiting)
  pub sent : List (ℕ × Message)

abbrev pub same_text : Text → Text → Bool
same_text [] [] = true
same_text (c ∷ s) (d ∷ t) = (c == d) && same_text s t
same_text _ _ = false

-- RTR_ID, SERVER_ID and APP_ID; -1 as an `unsigned`, and as an `AppID`.
abbrev pub router_id : ℕ → ℕ
router_id x = x / 2 ^ 32 % 2 ^ 32

abbrev pub server_id : ℕ → ℕ
server_id x = x % 2 ^ 32

abbrev pub app_id : ℕ → ℕ → ℕ
app_id router server = router * 2 ^ 32 + server

abbrev pub no_server : ℕ
no_server = 2 ^ 32 - 1

abbrev pub no_route : ℕ
no_route = 2 ^ 64 - 1

abbrev pub or_else : Option ℕ → ℕ → ℕ
or_else none d = d
or_else (some n) d = n

unfoldable pub find_route : Router → Text → ℕ
find_route r id = or_else (find same_text r.route_table id) no_route

unfoldable pub find_server_chan : Router → ℕ → Option ℕ
find_server_chan r id = if id == no_server then none else find ◌==◌ r.local_map id

abbrev pub waiting_for : {A : Type 0} → Option (List A) → List A
waiting_for none = []
waiting_for (some evs) = evs

abbrev pub send_on : Router → ℕ → Message → Router
send_on r ec ev = record r { sent = (ec, ev) ∷ r.sent }

unfoldable pub keep : Router → ℕ → Option Message → Router
keep r server ev =
    let evs = waiting_for (find ◌==◌ r.pending_events server) ++ ev ∷ [] in
    record r { pending_events = insert ◌==◌ r.pending_events server evs }

-- Without a channel the event is kept for the server. One that was made here is not freed.
unfoldable pub put_out : Router → ℕ → Option ℕ → Message → Router
unfolding keep
put_out r server none ev = keep r server (some ev)
put_out r server (some ec) ev = send_on r ec ev

-- A router event on its way is kept by its address too, but it belongs to the caller, who deletes it as
-- soon as `RtrRouterEvent::process`, which only calls this, has returned true.
unfoldable pub pass_on : Router → ℕ → Option ℕ → Message → Router
unfolding keep
pass_on r server none ev = keep r server none
pass_on r server (some ec) ev = send_on r ec ev

abbrev pub given : Option ℕ → Outcome (Option ℕ)
given none = aborts
given (some ec) = returns (some ec)

-- The `static_cast`, after a test of the type.
abbrev pub as_router_event : Message → Outcome RouterEvent
as_router_event (Message.router2_router e) = returns e
as_router_event _ = faults

-- `home` takes up an event that is for this router itself.
module _ (home : Message → Router → Outcome Router) where
  abbrev pub forward : ℕ → Option ℕ → Message → RouterEvent → Router → Outcome Router
  forward dest ec ev e r =
      if (router_id dest == r.rtr_id) && (server_id dest == no_server)
      then (get_payload alloc_server_event e >>= λ made. home made.0 r)
      else returns (pass_on r (server_id dest) ec ev)

  -- `Router::sendEvent( AppID, Event* )`.
  unfoldable pub send_app : ℕ → Message → Router → Outcome Router
  send_app dest ev r = do
    ec ←
        if router_id dest == r.rtr_id
        then returns (find_server_chan r (server_id dest))
        else (get_channel r.core (router_id dest) >>= given)
    if (head ev).type == event_code EventType.router2_router
        then (as_router_event ev >>= λ e. forward dest ec ev e r)
        else (let rev = wrap (app_id r.rtr_id no_server) dest ev in
            returns (put_out r (server_id dest) ec (Message.router2_router rev)))

  -- `Router::sendEvent( ObjID, Event* )`: the test for a missing route compares 32 bits of -1.
  unfoldable pub send_object : Text → Message → Router → Outcome Router
  send_object object ev r =
      let dest = find_route r object in if no_server == dest then returns r else send_app dest ev r
