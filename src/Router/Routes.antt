-- ===== src/Router/Routes.antt =====
-- Proofs about tools/pwrdaemon/router/router.cc: where events go, and what is kept for a server that is
-- not connected yet.
use mathlib.Core.List.{reverse, append-nil, reverse-cons, append_assoc}
use pwrapi_ref.Prelude.{
  ℕ, ◌≡◌, ◌≢◌, refl, sym, ap, ◌∙◌, false, faults, ◌>>=◌, Option, none, some, List, [], ◌∷◌, ◌++◌,
  Outcome, returns, ◌==◌, ==_self, ==_of_ne, Bool-cases, inl, inr, map, All,
}
use pwrapi_ref.Prelude.Maps.{find, erase, insert, find-insert}
use pwrapi_ref.Wire.{Text}
use pwrapi_ref.Events.{EventType, event_code}
use pwrapi_ref.Events.Messages.{Message, head, wrap, RouterEvent}
use pwrapi_ref.Router.{
  Router, Link, Core, behind, link_to, get_channel, find_route, find_server_chan, put_out, keep,
  waiting_for, send_app, app_id, pass_on, router_id, server_id, no_server, no_route, same_text,
  send_object, send_on,
}
use pwrapi_ref.Router.Events.{process_connect, add_server, do_pending, send_kept}
use pwrapi_ref.Router.Dispatch.{send_app-other}

abbrev NoneBehind : ℕ → List Link → Type 0
NoneBehind id links = All (λ link. behind id link ≡ false) links

link_to-up :
    (up : Option ℕ) (id : ℕ) (links : List Link) → NoneBehind id links → link_to up id links ≡ up
link_to-up up id [] h = refl
link_to-up up id (link ∷ links) (h, hs) = rw h (link_to-up up id links hs)

-- An event for an object that has no route is not dropped: it is sent up the tree, to a router and a
-- server that both have the number 2 ^ 32 - 1. The router is in a tree below a parent, has another
-- number, and no link says that the router of that number is behind it; the event is not one that is
-- already being routed.
pub send_object-unrouted :
    (home : Message → Router → Outcome Router) (r : Router) (name : Text) (ev : Message) (up : Link)
    (links : List Link) (ec : ℕ)
    → find same_text r.route_table name ≡ none
    → r.core ≡ Core.tree (up ∷ links)
    → up.send ≡ some ec
    → NoneBehind no_server links
    → r.rtr_id ≢ no_server
    → (head ev).type ≢ event_code EventType.router2_router
    → send_object home name ev r
      ≡ returns
          (send_on r ec (Message.router2_router (wrap (app_id r.rtr_id no_server) no_route ev)))
unfolding send_object find_route
send_object-unrouted home r name ev up links ec no_entry core at_up none_behind id type =
    rw no_entry
      (send_app-other home no_route ec ev r (λ e. id (sym e)) channel type ∙ ap returns parts)
  where
    channel : get_channel r.core (router_id no_route) ≡ returns (some ec)
    channel =
        ap (λ c. get_channel c no_server) core
        ∙ unfold get_channel in ap returns (link_to-up up.send no_server links none_behind ∙ at_up)

    parts :
        put_out r
          (server_id no_route)
          (some ec)
          (Message.router2_router (wrap (app_id r.rtr_id no_server) no_route ev))
        ≡ send_on r ec (Message.router2_router (wrap (app_id r.rtr_id no_server) no_route ev))
    parts = unfold put_out in refl

-- What was sent on a channel, in front of what was sent before.
abbrev pub on_channel : ℕ → List Message → List (ℕ × Message)
on_channel ec evs = map (λ ev. (ec, ev)) evs

-- The router after the events have gone out on the channel.
abbrev pub sent_on : ℕ → List Message → Router → Router
sent_on ec [] r = r
sent_on ec (ev ∷ evs) r = sent_on ec evs (send_on r ec ev)

send_kept-sent_on :
    (ec : ℕ) (evs : List Message) (rest : List (Option Message)) (r : Router)
    → send_kept ec (map some evs ++ rest) r ≡ send_kept ec rest (sent_on ec evs r)
send_kept-sent_on ec [] rest r = refl
send_kept-sent_on ec (ev ∷ evs) rest r = send_kept-sent_on ec evs rest (send_on r ec ev)

sent_on-sent :
    (ec : ℕ) (evs : List Message) (r : Router)
    → sent_on ec evs r ≡ record r { sent = (sent_on ec evs r).sent }
sent_on-sent ec [] r = refl
sent_on-sent ec (ev ∷ evs) r = sent_on-sent ec evs (send_on r ec ev)

sent_on-order :
    (ec : ℕ) (evs : List Message) (r : Router)
    → reverse (sent_on ec evs r).sent ≡ reverse r.sent ++ on_channel ec evs
sent_on-order ec [] r = sym (append-nil (reverse r.sent))
sent_on-order ec (ev ∷ evs) r =
    sent_on-order ec evs (send_on r ec ev)
    ∙ ap (λ s. s ++ on_channel ec evs) (reverse-cons (ec, ev) r.sent)
    ∙ append_assoc (reverse r.sent) ((ec, ev) ∷ []) (on_channel ec evs)

find-erase : {V : Type 0} (m : List (ℕ × V)) (k : ℕ) → find ◌==◌ (erase ◌==◌ m k) k ≡ none
find-erase [] k = refl
find-erase ((k', v) ∷ m) k = elim (Bool-cases (k' == k)) [
  | inl e ↦ rw e (find-erase m k)
  | inr e ↦ rw (e, e) (find-erase m k)
]

module _ (r : Router) (name : Text) (ec : ℕ) (old : Text)
    (at_ec : find ◌==◌ r.server_map ec ≡ some old)
    (server : server_id (find_route r name) ≢ no_server) where
  -- The router once the server is known.
  abbrev connected : Router
  connected = record r {
    local_map = insert ◌==◌ r.local_map (server_id (find_route r name)) ec;
    server_map = insert ◌==◌ r.server_map ec name;
  }

  no_dead_end : (server_id (find_route r name) == no_server) ≡ false
  no_dead_end = ==_of_ne (server_id (find_route r name)) no_server server

  some_route : (no_server == find_route r name) ≡ false
  some_route = ==_of_ne no_server (find_route r name) (λ e. server (ap server_id (sym e)))

  -- Connecting comes down to sending what was kept.
  process_connect-sends :
      (evs : List (Option Message))
      → find ◌==◌ r.pending_events (server_id (find_route r name)) ≡ some evs
      → process_connect name (some ec) r ≡ (
          send_kept ec evs connected >>= λ r'. returns (record r' {
            pending_events = erase ◌==◌ r'.pending_events (server_id (find_route r name));
          }))
  unfolding process_connect add_server do_pending find_server_chan
  process_connect-sends evs kept =
      rw (some_route, at_ec, no_dead_end, ==_self (server_id (find_route r name)), kept) refl

  -- A server that connects is sent the events that were kept for it, in the order in which they came,
  -- after all that was sent before, and none are kept for it from then on. Its object has a route with
  -- a server number other than 2 ^ 32 - 1, and events are kept, all of them router events that this
  -- router made itself, none that it got from another router.
  pub process_connect-flushes :
      (evs : List Message)
      → find ◌==◌ r.pending_events (server_id (find_route r name)) ≡ some (map some evs)
      → (r' : Router) × (process_connect name (some ec) r ≡ returns r')
        × (reverse r'.sent ≡ reverse r.sent ++ on_channel ec evs)
        × (find ◌==◌ r'.pending_events (server_id (find_route r name)) ≡ none)
        × (find_server_chan r' (server_id (find_route r name)) ≡ some ec)
  unfolding find_server_chan
  process_connect-flushes evs kept =
      let id = server_id (find_route r name) in
      let r2 = sent_on ec evs connected in
      (
        record r2 { pending_events = erase ◌==◌ r2.pending_events id },
        process_connect-sends (map some evs) kept
            ∙ ap
                (λ o.
                  ◌>>=◌ {A = Router} {B = Router} o (λ r'.
                    returns (record r' { pending_events = erase ◌==◌ r'.pending_events id })))
                (ap (λ l. send_kept ec l connected) (sym (append-nil (map some evs)))
                  ∙ send_kept-sent_on ec evs [] connected),
        sent_on-order ec evs connected,
        find-erase r2.pending_events id,
        rw no_dead_end
            (ap (λ r. find ◌==◌ r.local_map id) (sent_on-sent ec evs connected) ∙ rw (==_self id)),
      )

send_kept-freed :
    (ec : ℕ) (evs : List (Option Message)) (r : Router) → send_kept ec (evs ++ none ∷ []) r ≡ faults
send_kept-freed ec [] r = refl
send_kept-freed ec (none ∷ evs) r = refl
send_kept-freed ec (some ev ∷ evs) r = send_kept-freed ec evs (send_on r ec ev)

-- A router event that comes for a server of this router which is not connected is kept, and deleted by
-- its caller; when the server connects, the router uses the deleted event. The server's object has the
-- route that the event names, with a server number other than 2 ^ 32 - 1.
pub process_connect-faults :
    (home : Message → Router → Outcome Router) (e : RouterEvent) (r : Router) (name : Text) (ec : ℕ)
    (old : Text)
    → (head (Message.router2_router e)).type ≡ event_code EventType.router2_router
    → router_id e.dest ≡ r.rtr_id
    → server_id e.dest ≡ server_id (find_route r name)
    → server_id e.dest ≢ no_server
    → find_server_chan r (server_id e.dest) ≡ none
    → find ◌==◌ r.server_map ec ≡ some old
    → (r' : Router) × (send_app home e.dest (Message.router2_router e) r ≡ returns r')
      × (process_connect name (some ec) r' ≡ faults)
unfolding send_app pass_on keep find_route
process_connect-faults home e r name ec old type here same server absent at_ec =
    let id = server_id e.dest in
    let waiting = waiting_for (find ◌==◌ r.pending_events id) in
    let r' : Router = record r {
      pending_events = insert ◌==◌ r.pending_events id (waiting ++ none ∷ []);
    } in
    (
      r',
      rw (here, ==_self r.rtr_id, absent, type, ==_of_ne id no_server server) refl,
      process_connect-sends r' name ec old at_ec (λ q. server (same ∙ q)) (waiting ++ none ∷ [])
            (rw (sym same)
              (find-insert ◌==◌ r.pending_events id (waiting ++ none ∷ []) (==_self id)))
          ∙ ap
              (λ o. ◌>>=◌ {A = Router} {B = Router} o (λ r'. returns (record r' {
                pending_events = erase ◌==◌ r'.pending_events (server_id (find_route r name));
              })))
              (send_kept-freed ec waiting
                (connected r' name ec old at_ec (λ q. server (same ∙ q)))),
    )
