-- ===== src/Channel/Frames.antt =====
-- Proofs about src/pwr/tcpEventChannel.cc: the bytes of one event on a socket.
use mathlib.Core.List.{reverse, append_assoc, reverse-reverse, append-nil}
use pwrapi_ref.Prelude.{
  ℕ, zero, suc, ◌+◌, ◌≤◌, ◌<◌, ◌*◌, ◌^◌, ◌≡◌, ◌≢◌, ◌⊎◌, inl, inr, refl, sym, ap, ◌∙◌, arith, Option,
  none, some, aborts, Bool-cases, ◌==◌, ==_iff, ==_of_ne, ==_ne, List, [], ◌∷◌, ◌++◌, returns,
  ==_self, length, take, drop, assert, length-append, length-reverse, length-take, take-append,
  drop-append,
}
use pwrapi_ref.Prelude.Int.{pos, negsuc, eqb_ℤ}
use pwrapi_ref.Wire.{Buf, Get, out, out_from, get_word}
use pwrapi_ref.Wire.Bytes.{get_word-out}
use pwrapi_ref.Events.{EventType}
use pwrapi_ref.Events.Messages.{Message, head, serialize_out, event_type}
use pwrapi_ref.Channel.{
  Sockets, in_memory, all_stored, number, value_of, send_event, read_all, rest_of, get_event,
}

-- What one event is on the wire.
abbrev pub frame : Message → List ℕ
frame ev =
    let buf = serialize_out ev [] in
    in_memory 4 (head ev).type ++ (in_memory 8 (length buf) ++ reverse buf)

pub length-out_from : (i n w : ℕ) (buf : Buf) → length (out_from i n w buf) ≡ n + length buf
unfolding out_from
length-out_from i zero w buf = omega arith
length-out_from i (suc n) w buf = omega (arith, length-out_from (suc i) n w (_ ∷ buf))

length-in_memory : (n w : ℕ) → length (in_memory n w) ≡ n
unfolding out
length-in_memory n w = length-reverse (out_from 0 n w []) ∙ omega (arith, length-out_from 0 n w [])

number-in_memory : (n w : ℕ) → w < 2 ^ (8 * n) → number n (in_memory n w) ≡ returns w
number-in_memory n w h =
    ap (λ buf. value_of (get_word n buf)) (reverse-reverse (out w n []))
    ∙ ap value_of (get_word-out n w [] h)

-- A connected pair of sockets, `flight` the bytes that were sent and not yet taken off. A write fails or
-- takes up a first part of its bytes, and a read fails or gets a first part of the bytes in flight, no
-- more than it asked for, and some if there are any.
pub record Stream {W : Type 0} (sys : Sockets W) (o i : ℕ) (flight : W → List ℕ) : Type 0 where
  pub write_part :
      (bs : List ℕ) (w : W)
      → ((sys.write (pos o) bs w).0 ≡ negsuc 0)
        ⊎ ((k : ℕ) × (k ≤ length bs)
            × ((sys.write (pos o) bs w).0 ≡ pos k)
            × (flight (sys.write (pos o) bs w).1 ≡ flight w ++ take k bs))
  pub read_part :
      (n : ℕ) (w : W)
      → ((sys.read (pos i) n w).0 ≡ none)
        ⊎ ((k : ℕ) × (k ≤ n)
            × (k ≤ length (flight w))
            × (0 < n → 0 < length (flight w) → 0 < k)
            × ((sys.read (pos i) n w).0 ≡ some (take k (flight w)))
            × (flight (sys.read (pos i) n w).1 ≡ drop k (flight w)))

-- What the code does not allow for: a write that does not take up all of its bytes, and a read that does
-- not get all that it asked for although as much is in flight.
abbrev pub WriteCut : {W : Type 0} → Sockets W → ℕ → Type 0
WriteCut {W} sys o = (bs : List ℕ) × (w : W) × ((sys.write (pos o) bs w).0 ≢ pos (length bs))

abbrev pub ReadCut : {W : Type 0} → Sockets W → ℕ → (W → List ℕ) → Type 0
ReadCut {W} sys i flight =
    (n : ℕ) × (w : W) × (n ≤ length (flight w))
    × ((sys.read (pos i) n w).0 ≢ some (take n (flight w)))

pub take-whole : (n : ℕ) (xs : List ℕ) → length xs ≡ n → take n xs ≡ xs
take-whole n xs e =
    sym (ap (λ n. take n xs) e) ∙ ap (take (length xs)) (sym (append-nil xs)) ∙ take-append xs []

take-ne : (j k : ℕ) (xs : List ℕ) → j ≤ length xs → k ≤ length xs → j ≢ k → take j xs ≢ take k xs
take-ne j k xs a b h e =
    h (omega (arith, length-take j xs, length-take k xs, ap (λ (l : List ℕ). length l) e))

all_stored-whole : (xs : List ℕ) (n : ℕ) → length xs ≡ n → all_stored n (some xs) ≡ returns xs
all_stored-whole xs n e = rw (e, ==_self n)

module _ {W : Type 0} (sys : Sockets W) (o i : ℕ) (flight : W → List ℕ)
    (law : Stream sys o i flight) where
  -- A write that was not whole aborts.
  whole_write :
      (bs : List ℕ) (n : ℕ) (w : W)
      → length bs ≡ n
      → ((assert (eqb_ℤ (sys.write (pos o) bs w).0 (pos n)) ≡ aborts) × WriteCut sys o)
        ⊎ ((assert (eqb_ℤ (sys.write (pos o) bs w).0 (pos n)) ≡ returns tt)
            × (flight (sys.write (pos o) bs w).1 ≡ flight w ++ bs))
  whole_write bs n w e = elim (law.write_part bs w) [
    | inl bad ↦ inl (rw bad (ground arith), (bs, w, λ q. apart (sym bad ∙ q)))
    | inr (k, fits, took, now) ↦ elim (Bool-cases (k == n)) [
      | inl same ↦
          let k_eq = (==_iff k n).0 same in
          inr (
            rw (took, k_eq, ==_self (n + 0)),
            now ∙ ap (λ bs. flight w ++ bs) (take-whole k bs (e ∙ sym k_eq)),
          )
      | inr other ↦
          let k_ne : k ≢ n = ==_ne k n other in
          inl (
            rw (took, ==_of_ne (k + 0) (n + 0) (omega (arith, k_ne))),
            (bs, w, λ q. k_ne (same_pos (sym took ∙ q) ∙ e)),
          )
    ]
  ]
    where
      apart : negsuc 0 ≡ pos (length bs) → ⊥
      apart q = cc

      same_pos : {j k : ℕ} → pos j ≡ pos k → j ≡ k
      same_pos q = cc

  -- An event goes out whole, after what is in flight, or the process aborts at a cut.
  pub send_event-frame :
      (ev : Message) (w : W)
      → (((send_event sys (pos o) ev w).0 ≡ aborts) × WriteCut sys o)
        ⊎ ((w' : W) × (send_event sys (pos o) ev w ≡ (returns (pos o), w'))
            × (flight w' ≡ flight w ++ frame ev))
  unfolding send_event
  send_event-frame ev w =
      let buf = serialize_out ev [] in
      let type = in_memory 4 (head ev).type in
      let size = in_memory 8 (length buf) in
      let w1 = (sys.write (pos o) type w).1 in
      let w2 = (sys.write (pos o) size w1).1 in
      let w3 = (sys.write (pos o) (reverse buf) w2).1 in
      elim (whole_write type 4 w (length-in_memory 4 (head ev).type)) [
        | inl (bad, cut) ↦ inl (rw bad refl, cut)
        | inr (ok1, f1) ↦ elim (whole_write size 8 w1 (length-in_memory 8 (length buf))) [
          | inl (bad, cut) ↦ inl (rw (ok1, bad) refl, cut)
          | inr (ok2, f2) ↦ elim (whole_write (reverse buf) (length buf) w2 (length-reverse buf)) [
            | inl (bad, cut) ↦ inl (rw (ok1, ok2, bad) refl, cut)
            | inr (ok3, f3) ↦ inr (
              w3,
              rw (ok1, ok2, ok3) refl,
              f3
                  ∙ ap (λ bs. bs ++ reverse buf) f2
                  ∙ ap (λ bs. (bs ++ size) ++ reverse buf) f1
                  ∙ append_assoc (flight w ++ type) size (reverse buf)
                  ∙ append_assoc (flight w) type (size ++ reverse buf),
            )
          ]
        ]
      ]

  -- A read of what stands in front: it gets all of it, or it was cut and what it got is not taken.
  read_front :
      (xs rest : List ℕ) (n : ℕ) (w : W)
      → length xs ≡ n
      → 0 < n
      → flight w ≡ xs ++ rest
      → ((all_stored n (sys.read (pos i) n w).0 ≡ aborts)
          × ((sys.read (pos i) n w).0 ≢ some [])
          × ReadCut sys i flight)
        ⊎ ((w' : W) × (sys.read (pos i) n w ≡ (some xs, w')) × (flight w' ≡ rest))
  read_front xs rest n w e h f =
      let room : n ≤ length (flight w) = rw f (omega (arith, length-append xs rest)) in
      elim (law.read_part n w) [
        | inl bad ↦
            inl (
              rw bad refl,
              (λ q. no_bytes (sym bad ∙ q)),
              (n, w, room, λ q. no_bytes (sym bad ∙ q)),
            )
        | inr (k, k_le, k_in, some_bytes, got, left) ↦ elim (Bool-cases (k == n)) [
          | inl same ↦
              let k_eq = (==_iff k n).0 same in
              inr (
                (sys.read (pos i) n w).1,
                ap (λ r. (r, (sys.read (pos i) n w).1))
                    (got ∙ ap some (ap (λ k. take k (flight w)) k_eq ∙ taken)),
                left ∙ ap (λ k. drop k (flight w)) k_eq ∙ rw (f, sym e) (drop-append xs rest),
              )
          | inr other ↦
              let k_ne : k ≢ n = ==_ne k n other in
              let size : length (take k (flight w)) ≡ k = omega (arith, length-take k (flight w)) in
              let k_pos : 0 < k = some_bytes h (omega arith) in
              inl (
                rw (got, size, ==_of_ne k n k_ne) refl,
                (λ q.
                    let none_there = ap (λ (l : List ℕ). length l) (same_some (sym got ∙ q)) in
                    absurd (omega (arith, size, none_there))),
                (n, w, room, λ q. take-ne k n (flight w) k_in room k_ne (same_some (sym got ∙ q))),
              )
        ]
      ]
    where
      taken : take n (flight w) ≡ xs
      taken = rw (f, sym e) (take-append xs rest)

      no_bytes : {xs : List ℕ} → none ≡ some xs → ⊥
      no_bytes q = cc

      same_some : {xs ys : List ℕ} → some xs ≡ some ys → xs ≡ ys
      same_some q = cc

  read_all-front :
      (xs rest : List ℕ) (n : ℕ) (w : W)
      → length xs ≡ n
      → 0 < n
      → flight w ≡ xs ++ rest
      → (((read_all sys (pos i) n w).0 ≡ aborts) × ReadCut sys i flight)
        ⊎ ((w' : W) × (read_all sys (pos i) n w ≡ (returns xs, w')) × (flight w' ≡ rest))
  unfolding read_all
  read_all-front xs rest zero w e h f = absurd (omega arith)
  read_all-front xs rest (suc n) w e h f = elim (read_front xs rest (suc n) w e h f) [
    | inl (bad, nonempty, cut) ↦ inl (bad, cut)
    | inr (w', got, left) ↦
        inr (w', rw got (ap (λ r. (r, w')) (all_stored-whole xs (suc n) e)), left)
  ]

  rest_of-cut :
      (alloc : Option EventType → Get Message) (type : Option (List ℕ)) (w : W)
      → type ≢ some []
      → all_stored 4 type ≡ aborts
      → (rest_of sys alloc (pos i) type w).0 ≡ aborts
  unfolding rest_of
  rest_of-cut alloc none w h bad = refl
  rest_of-cut alloc (some []) w h bad = absurd (h refl)
  rest_of-cut alloc (some (b ∷ bs)) w h bad = rw bad refl

  rest_of-frame :
      (alloc : Option EventType → Get Message) (ev : Message) (rest type : List ℕ) (w : W)
      → length type ≡ 4
      → number 4 type ≡ returns (head ev).type
      → 0 < length (serialize_out ev [])
      → length (serialize_out ev []) < 2 ^ 64
      → alloc (event_type (head ev).type) (serialize_out ev []) ≡ returns (ev, [])
      → flight w
        ≡ in_memory 8 (length (serialize_out ev [])) ++ (reverse (serialize_out ev []) ++ rest)
      → (((rest_of sys alloc (pos i) (some type) w).0 ≡ aborts) × ReadCut sys i flight)
        ⊎ ((w' : W) × (rest_of sys alloc (pos i) (some type) w ≡ (returns (some ev), w'))
            × (flight w' ≡ rest))
  unfolding rest_of
  rest_of-frame alloc ev rest [] w e t some_bytes long makes f = absurd (omega arith)
  rest_of-frame alloc ev rest (b ∷ bs) w e t some_bytes long makes f =
      let buf = serialize_out ev [] in
      let size = in_memory 8 (length buf) in
      let whole = all_stored-whole (b ∷ bs) 4 e in
      elim (read_all-front size (reverse buf ++ rest) 8 w (length-in_memory 8 (length buf))
        (omega arith) f) [
          | inl (bad, cut) ↦ inl (rw (whole, t, bad) refl, cut)
          | inr (w1, got_size, left1) ↦
              elim (read_all-front (reverse buf) rest (length buf) w1 (length-reverse buf)
                some_bytes left1) [
                  | inl (bad, cut) ↦
                      inl (
                        rw (whole, t, got_size, number-in_memory 8 (length buf) long, bad) refl,
                        cut,
                      )
                  | inr (w2, got, left2) ↦ inr (
                    w2,
                    rw
                        (
                          whole,
                          t,
                          got_size,
                          number-in_memory 8 (length buf) long,
                          got,
                          reverse-reverse buf,
                          makes,
                        )
                        refl,
                    left2,
                  )
                ]
        ]

  -- The event that stands in front of the stream is taken off it, as the receiver makes it, or the
  -- process aborts at a cut.
  pub get_event-frame :
      (alloc : Option EventType → Get Message) (ev : Message) (rest : List ℕ) (w : W)
      → (head ev).type < 2 ^ 32
      → 0 < length (serialize_out ev [])
      → length (serialize_out ev []) < 2 ^ 64
      → alloc (event_type (head ev).type) (serialize_out ev []) ≡ returns (ev, [])
      → flight w ≡ frame ev ++ rest
      → (((get_event sys alloc (pos i) w).0 ≡ aborts) × ReadCut sys i flight)
        ⊎ ((w' : W) × (get_event sys alloc (pos i) w ≡ (returns (pos i, some ev), w'))
            × (flight w' ≡ rest))
  unfolding get_event
  get_event-frame alloc ev rest w fits some_bytes long makes f =
      let buf = serialize_out ev [] in
      let type = in_memory 4 (head ev).type in
      let size = length-in_memory 4 (head ev).type in
      elim (read_front type (in_memory 8 (length buf) ++ (reverse buf ++ rest)) 4 w size
        (omega arith) in_parts) [
          | inl (bad, nonempty, cut) ↦ inl (
            rw (rest_of-cut alloc (sys.read (pos i) 4 w).0 (sys.read (pos i) 4 w).1 nonempty bad)
                refl,
            cut,
          )
          | inr (w1, got_type, left1) ↦
              elim (rest_of-frame alloc ev rest type w1 size
                (number-in_memory 4 (head ev).type fits) some_bytes long makes left1) [
                  | inl (bad, cut) ↦ inl (rw (got_type, bad) refl, cut)
                  | inr (w2, got, left2) ↦ inr (w2, rw (got_type, got) refl, left2)
                ]
        ]
    where
      in_parts :
          flight w
          ≡ in_memory 4 (head ev).type
            ++ (in_memory 8 (length (serialize_out ev []))
                ++ (reverse (serialize_out ev []) ++ rest))
      in_parts =
          let buf = serialize_out ev [] in
          f
          ∙ append_assoc (in_memory 4 (head ev).type) _ rest
          ∙ ap (λ bs. in_memory 4 (head ev).type ++ bs)
              (append_assoc (in_memory 8 (length buf)) (reverse buf) rest)
