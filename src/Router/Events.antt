-- ===== src/Router/Events.antt =====
-- tools/pwrdaemon/router/commRespEvent.h, commLogEvents.h, commGetSamplesEvent.h, serverEvents.h,
-- rtrRouterEvent.h and routerSelect.cc: what the router does with the events of its servers and of
-- other routers, and with a channel that is closed.
use pwrapi_ref.Prelude.{
  ℕ, zero, suc, not, ◌&&◌, Option, none, some, List, [], ◌∷◌, Outcome, returns, aborts, faults,
  ◌>>=◌, ◌>>◌, assert, in_bounds, ◌==◌, if◌then◌else◌, get_elem?, set,
}
use pwrapi_ref.Prelude.Maps.{find, insert, erase}
use pwrapi_ref.Wire.{Text}
use pwrapi_ref.Events.Responses.{CommRespEvent, CommLogRespEvent, CommGetSamplesRespEvent}
use pwrapi_ref.Events.Messages.{Message}
use pwrapi_ref.Router.{
  Router, Waiting, no_server, server_id, find_route, find_server_chan, send_on, send_app,
}
use pwrapi_ref.Router.Answers.{CommReqInfo, collect}
use pwrapi_ref.Router.Requests.{
  Step, process_create, process_req, process_log_req, process_samples_req, del_client_chan,
}

-- What stands at an address that a server sent back.
abbrev pub at_address : Router → ℕ → Outcome Waiting
at_address r id = in_bounds (get_elem? r.infos id) >>= in_bounds

abbrev pub as_values : Waiting → Outcome CommReqInfo
as_values (Waiting.on_values info) = returns info
as_values _ = faults

abbrev pub as_log : Waiting → Outcome (ℕ × CommLogRespEvent)
as_log (Waiting.on_log src resp) = returns (src, resp)
as_log _ = faults

abbrev pub as_samples : Waiting → Outcome (ℕ × CommGetSamplesRespEvent)
as_samples (Waiting.on_samples src resp) = returns (src, resp)
as_samples _ = faults

abbrev pub store : Router → ℕ → Option Waiting → Router
store r id info = record r { infos = set r.infos id info }

-- The answer to a client, and the request is gone.
abbrev pub answer : Router → ℕ → ℕ → Message → Router
answer r id src ev = send_on (store r id none) src ev

-- `RtrCommRespEvent::process`.
unfoldable pub process_resp : (ℕ → ℕ → ℕ) → CommRespEvent → Step
process_resp add ev r = do
  waiting ← at_address r ev.base.base.id
  info ← as_values waiting
  (info, closed) ← collect add info ev
  returns (
      if closed && (info.pending == 0)
      then answer r ev.base.base.id info.src (Message.comm_resp info.resp)
      else store r ev.base.base.id (some (Waiting.on_values info)))

-- `RtrCommLogRespEvent::process`; the assignment copies the errors only.
unfoldable pub process_log_resp : CommLogRespEvent → Step
process_log_resp ev r = do
  waiting ← at_address r ev.base.base.id
  (src, resp) ← as_log waiting
  returns (
      answer r ev.base.base.id src (
        Message.comm_log_resp
          (record resp { err_obj = ev.err_obj; err_attr = ev.err_attr; err_value = ev.err_value })))

-- `RtrCommGetSamplesRespEvent::process`; the assignment leaves the base alone.
unfoldable pub process_samples_resp : CommGetSamplesRespEvent → Step
process_samples_resp ev r = do
  waiting ← at_address r ev.base.base.id
  (src, resp) ← as_samples waiting
  returns (
      answer r ev.base.base.id src (Message.comm_get_samples_resp (record ev { base = resp.base })))

-- `addServer`: the name is kept with the channel, which a routed event does not have.
unfoldable pub add_server : Text → Option ℕ → Router → Outcome (ℕ × Router)
add_server name none r = assert (not (no_server == find_route r name)) >> faults
add_server name (some ec) r = do
  let id = find_route r name
  assert (not (no_server == id))
  _ ← in_bounds (find ◌==◌ r.server_map ec)
  returns (
    server_id id,
    record r {
      local_map = insert ◌==◌ r.local_map (server_id id) ec;
      server_map = insert ◌==◌ r.server_map ec name;
    },
  )

-- An event that was freed is used all the same.
abbrev pub send_kept : ℕ → List (Option Message) → Router → Outcome Router
send_kept ec [] r = returns r
send_kept ec (none ∷ evs) r = faults
send_kept ec (some ev ∷ evs) r = send_kept ec evs (send_on r ec ev)

abbrev pub kept_for : ℕ → Option ℕ → Option (List (Option Message)) → Router → Outcome Router
kept_for id ec none r = returns r
kept_for id none (some evs) r = aborts
kept_for id (some ec) (some evs) r = do
  r ← send_kept ec evs r
  returns (record r { pending_events = erase ◌==◌ r.pending_events id })

-- `doPending`.
unfoldable pub do_pending : ℕ → Step
do_pending id r = kept_for id (find_server_chan r id) (find ◌==◌ r.pending_events id) r

-- `RtrServerConnectEvent::process`.
unfoldable pub process_connect : Text → Option ℕ → Step
process_connect name ec r = do (id, r) ← add_server name ec r; do_pending id r

-- The channel of a client; only a routed event comes without one.
abbrev pub with_channel : Option ℕ → (ℕ → Step) → Step
with_channel none f r = aborts
with_channel (some ec) f r = f ec r

module _ (add : ℕ → ℕ → ℕ) (junk : ℕ) where
  -- The virtual `process`. The router has no class for the destruction of a communicator.
  unfoldable pub process_by : (Message → Step) → Option ℕ → Message → Step
  process_by home ec (Message.comm_create ev) =
      with_channel ec (λ ec. process_create home junk ec ev)
  process_by home ec (Message.comm_req ev) = with_channel ec (λ ec. process_req home junk ec ev)
  process_by home ec (Message.comm_log_req ev) =
      with_channel ec (λ ec. process_log_req home junk ec ev)
  process_by home ec (Message.comm_get_samples_req ev) =
      with_channel ec (λ ec. process_samples_req home junk ec ev)
  process_by home ec (Message.comm_resp ev) = process_resp add ev
  process_by home ec (Message.comm_log_resp ev) = process_log_resp ev
  process_by home ec (Message.comm_get_samples_resp ev) = process_samples_resp ev
  process_by home ec (Message.server_connect ev) = process_connect ev.name ec
  process_by home ec (Message.router2_router ev) = send_app home ev.dest (Message.router2_router ev)
  process_by home ec (Message.comm_destroy ev) = λ r. faults

  -- `depth` bounds how many router events may stand one inside the other; the payload of one for the
  -- router itself is processed without a channel.
  unfoldable pub process : ℕ → Option ℕ → Message → Step
  process zero = process_by (λ ev r. faults)
  process (suc depth) = process_by (process depth none)

-- Who is at the other end of a channel.
pub data Peer : Type 0 where
  client server router : Peer

module _ (add : ℕ → ℕ → ℕ) (junk : ℕ) (depth : ℕ) where
  -- `add` of the three kinds of channel, after an `accept`.
  abbrev pub add_chan : Peer → ℕ → Router → Router
  add_chan Peer.client ec r = record r { client_map = insert ◌==◌ r.client_map ec [] }
  add_chan Peer.server ec r = record r { server_map = insert ◌==◌ r.server_map ec [] }
  add_chan Peer.router ec r = r

  -- `del`; `~Server` takes the entry of server 0 out of the map, whichever server it is.
  unfoldable pub del_chan : Peer → ℕ → Step
  del_chan Peer.client ec r = del_client_chan (process add junk depth none) junk ec r
  del_chan Peer.server ec r =
      returns
        (record r { local_map = erase ◌==◌ r.local_map 0; server_map = erase ◌==◌ r.server_map ec })
  del_chan Peer.router ec r = returns r

  -- `EventData::process`: the next event of a channel, `none` when it was closed.
  unfoldable pub event_data : Peer → ℕ → Option Message → Step
  event_data peer ec none = del_chan peer ec
  event_data peer ec (some ev) = process add junk depth (some ec) ev
