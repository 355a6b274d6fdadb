-- ===== src/Router/Dispatch.antt =====
-- Proofs about tools/pwrdaemon/router: a request goes out to all the sources of its objects.
use pwrapi_ref.Prelude.{
  ℕ, suc, ◌≡◌, ◌≢◌, ◌⊎◌, refl, ◌∙◌, arith, true, Option, none, some, List, [], ◌∷◌, Outcome,
  returns, ◌==◌, ==_self, ==_of_ne, Bool-cases, inl, inr, All,
}
use pwrapi_ref.Wire.{Text}
use pwrapi_ref.Events.{EventType, event_code}
use pwrapi_ref.Events.Messages.{Message, head, wrap}
use pwrapi_ref.Router.{
  Router, get_channel, find_route, find_server_chan, put_out, router_id, server_id, app_id,
  no_server, send_app, send_object,
}
use pwrapi_ref.Router.Requests.{send_to_sources, send_to_members}

-- Sending changes nothing but what was sent and what is kept for a server.
pub record Kept (r r' : Router) : Type 0 where
  pub rtr_id : r'.rtr_id ≡ r.rtr_id
  pub core : r'.core ≡ r.core
  pub route_table : r'.route_table ≡ r.route_table
  pub client_map : r'.client_map ≡ r.client_map
  pub infos : r'.infos ≡ r.infos

Kept-refl : (r : Router) → Kept r r
Kept-refl r = record {
  rtr_id = refl;
  core = refl;
  route_table = refl;
  client_map = refl;
  infos = refl;
}

Kept-trans : {r r' r'' : Router} → Kept r r' → Kept r' r'' → Kept r r''
Kept-trans k k' = record {
  rtr_id = k'.rtr_id ∙ k.rtr_id;
  core = k'.core ∙ k.core;
  route_table = k'.route_table ∙ k.route_table;
  client_map = k'.client_map ∙ k.client_map;
  infos = k'.infos ∙ k.infos;
}

put_out-Kept :
    (r : Router) (server : ℕ) (ec : Option ℕ) (ev : Message) → Kept r (put_out r server ec ev)
unfolding put_out
put_out-Kept r server none ev = record {
  rtr_id = refl;
  core = refl;
  route_table = refl;
  client_map = refl;
  infos = refl;
}
put_out-Kept r server (some ec) ev = record {
  rtr_id = refl;
  core = refl;
  route_table = refl;
  client_map = refl;
  infos = refl;
}

-- The route of an object ends at this router, or leads to another one by a channel.
abbrev pub Routed : Router → Text → Type 0
Routed r name =
    (router_id (find_route r name) ≡ r.rtr_id)
    ⊎ ((ec : ℕ) × (get_channel r.core (router_id (find_route r name)) ≡ returns (some ec)))

Routed-Kept : {r r' : Router} (name : Text) → Kept r r' → Routed r name → Routed r' name
unfolding find_route
Routed-Kept name k h = rw (k.rtr_id, k.core, k.route_table) h

All_Routed :
    {r r' : Router} (names : List Text) → Kept r r' → All (Routed r) names → All (Routed r') names
All_Routed [] k v = tt
All_Routed (name ∷ names) k (v, vs) = (Routed-Kept name k v, All_Routed names k vs)

All_All_Routed :
    {r r' : Router} (members : List (List Text))
    → Kept r r'
    → All (All (Routed r)) members
    → All (All (Routed r')) members
All_All_Routed [] k v = tt
All_All_Routed (names ∷ members) k (v, vs) = (All_Routed names k v, All_All_Routed members k vs)

module _ (home : Message → Router → Outcome Router) where
  abbrev rerouted : Router → ℕ → Message → Message
  rerouted r dest ev = Message.router2_router (wrap (app_id r.rtr_id no_server) dest ev)

  send_app-own :
      (dest : ℕ) (ev : Message) (r : Router)
      → router_id dest ≡ r.rtr_id
      → (head ev).type ≢ event_code EventType.router2_router
      → send_app home dest ev r
        ≡ returns
            (put_out r (server_id dest) (find_server_chan r (server_id dest)) (rerouted r dest ev))
  unfolding send_app
  send_app-own dest ev r e h =
      let here : (router_id dest == r.rtr_id) ≡ true = rw e (==_self r.rtr_id) in
      rw (here, ==_of_ne (head ev).type (event_code EventType.router2_router) h)

  pub send_app-other :
      (dest ec : ℕ) (ev : Message) (r : Router)
      → router_id dest ≢ r.rtr_id
      → get_channel r.core (router_id dest) ≡ returns (some ec)
      → (head ev).type ≢ event_code EventType.router2_router
      → send_app home dest ev r
        ≡ returns (put_out r (server_id dest) (some ec) (rerouted r dest ev))
  unfolding send_app
  send_app-other dest ec ev r e c h = rw (
    ==_of_ne (router_id dest) r.rtr_id e,
    c,
    ==_of_ne (head ev).type (event_code EventType.router2_router) h,
  )

  send_object-Kept :
      (name : Text) (ev : Message) (r : Router)
      → Routed r name
      → (head ev).type ≢ event_code EventType.router2_router
      → (r' : Router) × (send_object home name ev r ≡ returns r') × Kept r r'
  unfolding send_object
  send_object-Kept name ev r route h = elim (Bool-cases (no_server == find_route r name)) [
    | inl e ↦ (r, rw e, Kept-refl r)
    | inr e ↦ elim route [
      | inl own ↦ (
        _,
        rw (e, send_app-own (find_route r name) ev r own h),
        put_out-Kept r (server_id (find_route r name))
            (find_server_chan r (server_id (find_route r name)))
            (rerouted r (find_route r name) ev),
      )
      | inr (ec, c) ↦ elim (Bool-cases (router_id (find_route r name) == r.rtr_id)) [
        | inl own ↦ (
          _,
          rw (e, send_app-own (find_route r name) ev r (ground arith) h),
          put_out-Kept r (server_id (find_route r name))
              (find_server_chan r (server_id (find_route r name)))
              (rerouted r (find_route r name) ev),
        )
        | inr other ↦ (
          _,
          rw (e, send_app-other (find_route r name) ec ev r (λ same. ground arith) c h),
          put_out-Kept r (server_id (find_route r name)) (some ec)
              (rerouted r (find_route r name) ev),
        )
      ]
    ]
  ]

  module _ (junk : ℕ) where
    send_to_sources-Kept :
        (make : Text → Message) (names : List Text) (r : Router)
        → All (Routed r) names
        → ((name : Text) → (head (make name)).type ≢ event_code EventType.router2_router)
        → (r' : Router) × (send_to_sources home junk make names r ≡ returns r') × Kept r r'
    unfolding send_to_sources
    send_to_sources-Kept make [] r v h = (r, refl, Kept-refl r)
    send_to_sources-Kept make (name ∷ names) r (v, vs) h =
        let (r1, e1, k1) = send_object-Kept name (make name) r v (h name) in
        let (r2, e2, k2) = send_to_sources-Kept make names r1 (All_Routed names k1 vs) h in
        (r2, rw e1 e2, Kept-trans k1 k2)

    -- Every source of every object gets its event, and nothing else of the router changes.
    pub send_to_members-Kept :
        (make : ℕ → Text → Message) (i : ℕ) (members : List (List Text)) (r : Router)
        → All (All (Routed r)) members
        → ((i : ℕ) (name : Text) → (head (make i name)).type ≢ event_code EventType.router2_router)
        → (r' : Router) × (send_to_members home junk make i members r ≡ returns r') × Kept r r'
    unfolding send_to_members
    send_to_members-Kept make i [] r v h = (r, refl, Kept-refl r)
    send_to_members-Kept make i (names ∷ members) r (v, vs) h =
        let (r1, e1, k1) = send_to_sources-Kept (make i) names r v (h i) in
        let (r2, e2, k2) =
          send_to_members-Kept make (suc i) members r1 (All_All_Routed members k1 vs) h in
        (r2, rw e1 e2, Kept-trans k1 k2)
