-- ===== src/SubscriberServer/Delivery.antt =====
-- src/subscriber_server.hpp: what a broadcast sends, to whom, and what it counts.
use lob.Prelude.{
  ℕ, suc, ◌+◌, ◌≡◌, refl, ◌&&◌, Bool, true, false, List, [], ◌∷◌, ◌++◌, Option, none, some, inl,
  inr, if◌then◌else◌, ltb, Bytes, length, Bool-cases, arith, ◌==◌, ==_iff, All, sym, ap,
}
use lob.Prelude.Int.{ℤ}
use lob.Prelude.Maps.{has_text}
use lob.OfiTypes.{LevelDelta}
use lob.SubscriberServer.{
  Message, update_message, Action, send, close, Sockets, ClientState, SubscriberServer,
  backpressure_limit, stream_key, rows_of, next_seq, lock, target, targets_of, collect, send_all,
  deliver, is_empty, broadcast_update,
}

-- The numbers of messages and of closes among what the sockets were told.
unfoldable pub count_sends : List Action → ℕ
count_sends [] = 0
count_sends (send ws msg ∷ actions) = suc (count_sends actions)
count_sends (close ws ∷ actions) = count_sends actions

unfoldable pub count_closes : List Action → ℕ
count_closes [] = 0
count_closes (send ws msg ∷ actions) = count_closes actions
count_closes (close ws ∷ actions) = suc (count_closes actions)

-- Those to one socket.
unfoldable pub sends_to : ℕ → List Action → ℕ
sends_to ws [] = 0
sends_to ws (send v msg ∷ actions) =
    if v == ws then suc (sends_to ws actions) else sends_to ws actions
sends_to ws (close v ∷ actions) = sends_to ws actions

unfoldable pub closes_to : ℕ → List Action → ℕ
closes_to ws [] = 0
closes_to ws (send v msg ∷ actions) = closes_to ws actions
closes_to ws (close v ∷ actions) =
    if v == ws then suc (closes_to ws actions) else closes_to ws actions

-- How many clients subscribe to a stream on a socket that is alive.
abbrev pub on_socket : ℕ → Option ℕ → ℕ
on_socket ws none = 0
on_socket ws (some v) = if v == ws then 1 else 0

unfoldable pub listeners : (ℕ → Bool) → Bytes → List (Bytes × ClientState) → ℕ → ℕ
listeners alive key [] ws = 0
listeners alive key ((id, c) ∷ clients) ws =
    if has_text c.streams key
    then on_socket ws (lock alive c.ws) + listeners alive key clients ws
    else listeners alive key clients ws

-- Every message sent is the given one.
unfoldable pub Carries : Message → Action → Type 0
Carries msg (send ws m) = m ≡ msg
Carries msg (close ws) = Unit

unfoldable times : ℕ → List (Bytes × ℕ) → ℕ
times ws [] = 0
times ws ((id, v) ∷ targets) = if v == ws then suc (times ws targets) else times ws targets

times-append : (ws : ℕ) (xs ys : List (Bytes × ℕ)) → times ws (xs ++ ys) ≡ times ws xs + times ws ys
unfolding times
times-append ws [] ys = omega arith
times-append ws ((id, v) ∷ xs) ys = ground (arith, times-append ws xs ys)

times-target :
    (ws : ℕ) (id : Bytes) (found : Option ℕ) → times ws (target id found) ≡ on_socket ws found
unfolding times
times-target ws id none = refl
times-target ws id (some v) = refl

times-targets_of :
    (alive : ℕ → Bool) (key : Bytes) (clients : List (Bytes × ClientState)) (ws : ℕ)
    → times ws (targets_of alive key clients) ≡ listeners alive key clients ws
unfolding targets_of listeners times
times-targets_of alive key [] ws = refl
times-targets_of alive key ((id, c) ∷ clients) ws =
    let rest = times-targets_of alive key clients ws in
    elim (Bool-cases (has_text c.streams key)) [
      | inl subscribed ↦ rw subscribed omega (
        arith,
        rest,
        times-append ws (target id (lock alive c.ws)) (targets_of alive key clients),
        times-target ws id (lock alive c.ws),
      )
      | inr other ↦ rw other rest
    ]

module _ (sockets : Sockets) (msg : Message) where
  send_all-counts :
      (targets : List (Bytes × ℕ))
      → ((send_all sockets msg targets).1 ≡ count_sends (send_all sockets msg targets).0)
        × (length (send_all sockets msg targets).2 ≡ count_closes (send_all sockets msg targets).0)
  unfolding send_all count_sends count_closes
  send_all-counts [] = (refl, refl)
  send_all-counts ((id, ws) ∷ targets) =
      let (sent, closed) = send_all-counts targets in
      elim (Bool-cases (ltb backpressure_limit (sockets.buffered_amount ws))) [
        | inl full ↦ rw full (sent, omega (arith, closed))
        | inr room ↦ rw room (omega (arith, sent), closed)
      ]

  send_all-Carries :
      (targets : List (Bytes × ℕ)) → All (Carries msg) (send_all sockets msg targets).0
  unfolding send_all Carries
  send_all-Carries [] = tt
  send_all-Carries ((id, ws) ∷ targets) =
      let rest = send_all-Carries targets in
      elim (Bool-cases (ltb backpressure_limit (sockets.buffered_amount ws))) [
        | inl full ↦ rw full (tt, rest)
        | inr room ↦ rw room (refl, rest)
      ]

  send_all-times :
      (ws : ℕ) (targets : List (Bytes × ℕ))
      → (sends_to ws (send_all sockets msg targets).0
          ≡ (if ltb backpressure_limit (sockets.buffered_amount ws) then 0 else times ws targets))
        × (closes_to ws (send_all sockets msg targets).0
            ≡ (if ltb backpressure_limit (sockets.buffered_amount ws) then times ws targets else 0))
  unfolding send_all sends_to closes_to times
  send_all-times ws [] = (ground arith, ground arith)
  send_all-times ws ((id, v) ∷ targets) =
      let (sent, closed) = send_all-times ws targets in
      elim (Bool-cases (ltb backpressure_limit (sockets.buffered_amount v))) [
        | inl full ↦ rw full (ground (arith, sent, same v), ground (arith, closed, same v))
        | inr room ↦ rw room (ground (arith, sent, same v), ground (arith, closed, same v))
      ]
    where
      same :
          (x : ℕ)
          → (x == ws) ≡ true
          → ltb backpressure_limit (sockets.buffered_amount x)
            ≡ ltb backpressure_limit (sockets.buffered_amount ws)
      same x e = ap (λ y. ltb backpressure_limit (sockets.buffered_amount y)) ((==_iff x ws).0 e)

module _ (sockets : Sockets) (exchange symbol : Bytes) (deltas : List LevelDelta) (ts ofi_delta : ℤ)
    (s : SubscriberServer) where
  -- A broadcast adds to the counters of sent messages and of disconnects exactly the messages that
  -- it sent and the sockets that it closed.
  pub broadcast_update-counters :
      ((broadcast_update sockets exchange symbol deltas ts ofi_delta s).0.messages_sent
        ≡ s.messages_sent
          + count_sends (broadcast_update sockets exchange symbol deltas ts ofi_delta s).1)
      × ((broadcast_update sockets exchange symbol deltas ts ofi_delta s).0.backpressure_disconnects
          ≡ s.backpressure_disconnects
            + count_closes (broadcast_update sockets exchange symbol deltas ts ofi_delta s).1)
  unfolding broadcast_update collect deliver count_sends count_closes
  broadcast_update-counters =
      elim (Bool-cases (is_empty (rows_of true deltas) && is_empty (rows_of false deltas))) [
        | inl quiet ↦ rw quiet (omega arith, omega arith)
        | inr loud ↦
            let (sent, closed) =
              send_all-counts sockets
                (update_message exchange symbol ts (rows_of true deltas) (rows_of false deltas)
                  ofi_delta (next_seq s (stream_key exchange symbol)))
                (targets_of sockets.alive (stream_key exchange symbol) s.clients) in
            rw loud (omega (arith, sent), omega (arith, closed))
      ]

  -- If a broadcast has a row to send, each socket is sent one message for each client that
  -- subscribes to the stream on it, or none if its buffer is over the limit, and is closed only then;
  -- every message is the update with the genuine rows and the next sequence number of the stream.
  pub broadcast_update-listeners :
      (ws : ℕ)
      → (is_empty (rows_of true deltas) && is_empty (rows_of false deltas)) ≡ false
      → (sends_to ws (broadcast_update sockets exchange symbol deltas ts ofi_delta s).1 ≡ (
          if ltb backpressure_limit (sockets.buffered_amount ws)
          then 0
          else listeners sockets.alive (stream_key exchange symbol) s.clients ws))
        × (closes_to ws (broadcast_update sockets exchange symbol deltas ts ofi_delta s).1 ≡ (
            if ltb backpressure_limit (sockets.buffered_amount ws)
            then listeners sockets.alive (stream_key exchange symbol) s.clients ws
            else 0))
        × All
            (Carries (
              update_message exchange symbol ts
                (rows_of true deltas)
                (rows_of false deltas)
                ofi_delta
                (next_seq s (stream_key exchange symbol))))
            (broadcast_update sockets exchange symbol deltas ts ofi_delta s).1
  unfolding broadcast_update collect deliver
  broadcast_update-listeners ws loud =
      let msg =
        update_message exchange symbol ts (rows_of true deltas) (rows_of false deltas) ofi_delta
          (next_seq s (stream_key exchange symbol)) in
      let targets = targets_of sockets.alive (stream_key exchange symbol) s.clients in
      let who = times-targets_of sockets.alive (stream_key exchange symbol) s.clients ws in
      let (sent, closed) = send_all-times sockets msg ws targets in
      rw (loud, sym who) (sent, closed, send_all-Carries sockets msg targets)
