-- ===== src/Channel.antt =====
-- src/pwr/tcpEventChannel.cc: sending an event over a socket and taking the next one off it, with the
-- connection that a client's channel makes first. A channel is its descriptor, -1 before that.
pub mod Frames
pub mod Order
use mathlib.Core.List.{reverse}
use pwrapi_ref.Prelude.{
  ℕ, zero, suc, Bool, true, false, not, Option, none, some, List, [], ◌∷◌, Outcome, returns, aborts,
  faults, length, ◌==◌, if◌then◌else◌, assert,
}
use pwrapi_ref.Prelude.Int.{ℤ, pos, negsuc, eqb_ℤ, ltb_ℤ}
use pwrapi_ref.Prelude.Io.{Io}
use pwrapi_ref.Prelude.Acts.{Act, ◌>>=◌, ◌>>◌, proceed, give, of, call}
use pwrapi_ref.Wire.{Buf, Get, out, get_word}
use pwrapi_ref.Events.{EventType}
use pwrapi_ref.Events.Messages.{Message, head, serialize_out, event_type}

-- The system calls: a read answers the bytes that it stored, `none` for -1; a write the number of
-- bytes that it took. `resolve` says that the host is known.
pub record Sockets (W : Type 0) : Type 0 where
  pub socket : Io W ℤ
  pub no_delay : ℤ → Io W ℤ
  pub resolve : Io W Bool
  pub connect : ℤ → Io W ℤ
  pub sleep : Io W ℕ
  pub read : ℤ → ℕ → Io W (Option (List ℕ))
  pub write : ℤ → List ℕ → Io W ℤ

-- The bytes of a number as they stand in memory, the lowest first.
abbrev pub in_memory : ℕ → ℕ → List ℕ
in_memory len n = reverse (out n len [])

-- All the bytes that were asked for.
abbrev pub all_stored : ℕ → Option (List ℕ) → Outcome (List ℕ)
all_stored n none = aborts
all_stored n (some bs) = if length bs == n then returns bs else aborts

abbrev pub value_of : {A : Type 0} → Outcome (A × Buf) → Outcome A
value_of (returns (a, buf)) = returns a
value_of aborts = aborts
value_of faults = faults

-- A number that was stored as bytes.
abbrev pub number : ℕ → List ℕ → Outcome ℕ
number len bs = value_of (get_word len (reverse bs))

module _ {W : Type 0} (sys : Sockets W) where
  -- `initClient`.
  unfoldable pub init_client : Act W ℤ
  init_client = do
    fd ← call sys.socket
    of (assert (not (ltb_ℤ fd (pos 0))))
    rc ← call (sys.no_delay fd)
    of (assert (eqb_ℤ rc (pos 0)))
    he ← call sys.resolve
    of (assert he)
    ret ← call (sys.connect fd)
    give (if eqb_ℤ ret (pos 0) then fd else negsuc 0)

  -- The loop of `xx`, with `count` more attempts to make: a failed one is followed by a second's sleep.
  abbrev pub again : Act W ℤ → ℤ → Act W ℤ
  again loop (pos fd) = give (pos fd)
  again loop (negsuc n) = do left ← call sys.sleep; if left == 0 then loop else give (negsuc n)

  unfoldable pub attempts : ℕ → Act W ℤ
  unfolding init_client
  attempts zero = init_client
  attempts (suc count) = do fd ← init_client; again (attempts count) fd

  abbrev pub connected : ℤ → Act W ℤ
  connected (negsuc zero) = attempts 60
  connected fd = give fd

  -- `sendEvent`; the answer is the descriptor that the channel keeps.
  unfoldable pub send_event : ℤ → Message → Act W ℤ
  send_event m_fd ev = do
    fd ← connected m_fd
    let buf = serialize_out ev []
    n ← call (sys.write fd (in_memory 4 (head ev).type))
    of (assert (eqb_ℤ n (pos 4)))
    n ← call (sys.write fd (in_memory 8 (length buf)))
    of (assert (eqb_ℤ n (pos 8)))
    n ← call (sys.write fd (reverse buf))
    of (assert (eqb_ℤ n (pos (length buf))))
    give fd

  -- A read that has to be whole; an empty buffer has no address to store at.
  unfoldable pub read_all : ℤ → ℕ → Act W (List ℕ)
  read_all fd zero = of faults
  read_all fd (suc n) = do bs ← call (sys.read fd (suc n)); of (all_stored (suc n) bs)

  -- The rest of an event of whose type `head` was read; no bytes at all are the end of the stream.
  unfoldable pub rest_of :
      (Option EventType → Get Message) → ℤ → Option (List ℕ) → Act W (Option Message)
  rest_of alloc fd (some []) = give none
  rest_of alloc fd head = do
    bs ← of (all_stored 4 head)
    type ← of (number 4 bs)
    bs ← read_all fd 8
    length ← of (number 8 bs)
    bs ← read_all fd length
    ev ← of (value_of (alloc (event_type type) (reverse bs)))
    give (some ev)

  -- `getEvent`, with the descriptor that the channel keeps; `none` is a null pointer.
  unfoldable pub get_event : (Option EventType → Get Message) → ℤ → Act W (ℤ × Option Message)
  get_event alloc m_fd = do
    fd ← connected m_fd
    head ← call (sys.read fd 4)
    ev ← rest_of alloc fd head
    give (fd, ev)
