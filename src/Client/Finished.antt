-- ===== src/Client/Finished.antt =====
-- Proofs about src/pwr/distRequest.cc: a client that waits gets its answers, in whatever order they come.
use mathlib.Core.List.{append-nil, append_assoc}
use pwrapi_ref.Prelude.{
  ℕ, ◌≡◌, sym, ap, ◌∙◌, false, Option, none, some, List, [], ◌∷◌, ◌++◌, map, returns, ◌==◌, length,
  All,
}
use pwrapi_ref.Prelude.Maps.{find}
use pwrapi_ref.Types.{ret_success}
use pwrapi_ref.Wire.{Text}
use pwrapi_ref.Events.Responses.{CommRespEvent, CommLogRespEvent}
use pwrapi_ref.Events.Messages.{Message, head}
use pwrapi_ref.Client.{
  Request, Status, CommReq, erase_req, set_value, process_answer, take_event, exec_callback,
  is_empty, wait, ret_ipc,
}
use pwrapi_ref.Client.Stored.{errors, note_errors-all}

-- An answer to a request that sets values or starts or stops a log: it says which errors there were.
pub data Verdict (ctx : Text → Option ℕ) : List (ℕ × CommReq) → Message → Status → Type 0 where
  set_done :
      {objects : List (ℕ × CommReq)} (ev : CommRespEvent)
      → find ◌==◌ objects ev.base.base.id ≡ some CommReq.set_req
      → length ev.err_obj ≡ length ev.err_value
      → length ev.err_attr ≡ length ev.err_value
      → Verdict ctx objects (Message.comm_resp ev) (errors ctx ev.err_obj ev.err_attr ev.err_value)
  start_done :
      {objects : List (ℕ × CommReq)} (ev : CommLogRespEvent)
      → find ◌==◌ objects ev.base.base.id ≡ some CommReq.start_log_req
      → length ev.err_obj ≡ length ev.err_value
      → length ev.err_attr ≡ length ev.err_value
      → Verdict ctx objects
          (Message.comm_log_resp ev)
          (errors ctx ev.err_obj ev.err_attr ev.err_value)
  stop_done :
      {objects : List (ℕ × CommReq)} (ev : CommLogRespEvent)
      → find ◌==◌ objects ev.base.base.id ≡ some CommReq.stop_log_req
      → length ev.err_obj ≡ length ev.err_value
      → length ev.err_attr ≡ length ev.err_value
      → Verdict ctx objects
          (Message.comm_log_resp ev)
          (errors ctx ev.err_obj ev.err_attr ev.err_value)

-- The request with the answer taken up.
abbrev pub after : Request → Message → Status → Request
after r ev s = record r { status = r.status ++ s; comm_reqs = erase_req r.comm_reqs (head ev).id }

take_event-Verdict :
    (r : Request) (ev : Message) (s : Status)
    → Verdict r.context r.objects ev s
    → take_event ev r ≡ returns (after r ev s)
unfolding take_event process_answer set_value
take_event-Verdict r _ _ (set_done ev at_id e e') =
    rw (at_id, note_errors-all r.context ev.err_obj ev.err_attr ev.err_value r.status e e')
take_event-Verdict r _ _ (start_done ev at_id e e') =
    rw (at_id, note_errors-all r.context ev.err_obj ev.err_attr ev.err_value r.status e e')
take_event-Verdict r _ _ (stop_done ev at_id e e') =
    rw (at_id, note_errors-all r.context ev.err_obj ev.err_attr ev.err_value r.status e e')

-- Answers in the order in which they come, each with its errors.
abbrev pub Answers : Type 0
Answers = List (Message × Status)

abbrev pub events : Answers → List (Option Message)
events answers = map (λ a. some a.0) answers

abbrev pub all_errors : Answers → Status
all_errors [] = []
all_errors (a ∷ answers) = a.1 ++ all_errors answers

abbrev pub left : List ℕ → Answers → List ℕ
left ids [] = ids
left ids (a ∷ answers) = left (erase_req ids (head a.0).id) answers

-- No answer comes when there is nothing left to wait for.
abbrev pub Awaited : List ℕ → Answers → Type 0
Awaited ids [] = Unit {0}
Awaited ids (a ∷ answers) = (is_empty ids ≡ false) × Awaited (erase_req ids (head a.0).id) answers

abbrev pub Verdicts : Request → Answers → Type 0
Verdicts r answers = All (λ a. Verdict r.context r.objects a.0 a.1) answers

abbrev pub after_all : Request → Answers → Request
after_all r answers = record r {
  status = r.status ++ all_errors answers;
  comm_reqs = left r.comm_reqs answers;
}

wait-events :
    (answers : Answers) (later : List (Option Message)) (r : Request)
    → Verdicts r answers
    → Awaited r.comm_reqs answers
    → wait (events answers ++ later) r ≡ wait later (after_all r answers)
unfolding wait
wait-events [] later r v w =
    ap (λ s. wait later (record r { status = s })) (sym (append-nil r.status))
wait-events ((ev, s) ∷ answers) later r (v, vs) (w, ws) =
    rw (w, take_event-Verdict r ev s v)
      (wait-events answers later (after r ev s) vs ws
        ∙ ap
            (λ status. wait later (record r {
              status = status;
              comm_reqs = left (erase_req r.comm_reqs (head ev).id) answers;
            }))
            (append_assoc r.status s (all_errors answers)))

wait-idle :
    (later : List (Option Message)) (r : Request)
    → r.comm_reqs ≡ []
    → wait later r ≡ returns (some ret_success, exec_callback r)
unfolding wait
wait-idle [] r e = rw (ap is_empty e)
wait-idle (none ∷ later) r e = rw (ap is_empty e)
wait-idle (some ev ∷ later) r e = rw (ap is_empty e)

-- A client that waits for requests that set values or start or stop logs comes back with success as
-- soon as each has been answered, whatever the order of the answers and whatever comes later: it has
-- all their errors, in the order in which they came, its callback has been called, and its memory is
-- as it was. Each answer is one to a request of the client, its vectors of errors are equally long,
-- none comes when all have been answered, and in the end all have been.
pub wait-finishes :
    (answers : Answers) (later : List (Option Message)) (r : Request)
    → Verdicts r answers
    → Awaited r.comm_reqs answers
    → left r.comm_reqs answers ≡ []
    → wait (events answers ++ later) r
      ≡ returns (some ret_success, exec_callback (after_all r answers))
wait-finishes answers later r v w e =
    wait-events answers later r v w ∙ wait-idle later (after_all r answers) e

-- If the channel is closed before all the requests have been answered, the client comes back with
-- PWR_RET_IPC: it has the errors of the answers that came, the requests that were not answered are
-- still there, and its callback has not been called. The answers that came are as for a client that
-- gets them all.
pub wait-closed :
    (answers : Answers) (later : List (Option Message)) (r : Request)
    → Verdicts r answers
    → Awaited r.comm_reqs answers
    → is_empty (left r.comm_reqs answers) ≡ false
    → wait (events answers ++ none ∷ later) r ≡ returns (some ret_ipc, after_all r answers)
unfolding wait
wait-closed answers later r v w e = wait-events answers (none ∷ later) r v w ∙ rw e
