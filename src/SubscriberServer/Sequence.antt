-- ===== src/SubscriberServer/Sequence.antt =====
-- src/subscriber_server.hpp: the sequence numbers of a stream, over any interleaving of the locked
-- parts of the server's calls.
use lob.Prelude.{
  ℕ, ◌+◌, ◌%◌, ◌^◌, ◌≡◌, ◌<◌, refl, sym, ap, ◌∙◌, ◌&&◌, ◌||◌, not, Bool, true, false, List, [], ◌∷◌,
  Option, none, some, inl, inr, if◌then◌else◌, Bytes, Bool-cases, arith, same_text, text_iff,
}
use lob.Prelude.Int.{ℤ}
use lob.Prelude.Maps.{
  has_text, add_text, lookup, erase, map_some, none-ne-some, lookup-assign, lookup-modify,
  lookup-erase, has_text-add_text,
}
use lob.OrderBook.{OrderBook, get_snapshot}
use lob.SubscriberProtocol.{book_levels}
use lob.SubscriberServer.{
  Message, snapshot_message, Sockets, ClientState, SubscriberServer, found_snapshot, stream_key,
  seq_of, next_seq, or_zero, connect, disconnect, register, handle_unsubscribe, collect, deliver,
  erase_all, send_all, subscribe_key, insert_stream, unsubscribe_all,
}

-- One locked part of a call: a connection, a close, the registration of a stream, an unsubscribe
-- request, and the two halves of a broadcast.
pub data Event : Type 0 where
  connected : (id : Bytes) (ws : ℕ) → Event
  disconnected : (id : Bytes) → Event
  registered :
      (books : List (Bytes × OrderBook)) (now : ℤ) (ofi_depth : ℕ) (id exchange symbol : Bytes)
      → Event
  unsubscribed : (id : Bytes) (streams : List Bytes) → Event
  collected : (sockets : Sockets) (key : Bytes) → Event
  delivered : (sockets : Sockets) (msg : Message) (targets : List (Bytes × ℕ)) → Event

unfoldable pub step : Event → SubscriberServer → SubscriberServer
step (connected id ws) s = connect id ws s
step (disconnected id) s = disconnect id s
step (registered books now ofi_depth id exchange symbol) s =
    (register books now ofi_depth id exchange symbol s).0
step (unsubscribed id streams) s = handle_unsubscribe id streams s
step (collected sockets key) s = (collect sockets key s).0
step (delivered sockets msg targets) s = (deliver sockets msg targets s).0

unfoldable pub run : List Event → SubscriberServer → SubscriberServer
unfolding step
run [] s = s
run (e ∷ events) s = run events (step e s)

-- The updates of a stream among the events.
unfoldable pub is_update : Bytes → Event → ℕ
is_update key (connected id ws) = 0
is_update key (disconnected id) = 0
is_update key (registered books now ofi_depth id exchange symbol) = 0
is_update key (unsubscribed id streams) = 0
is_update key (collected sockets j) = if same_text j key then 1 else 0
is_update key (delivered sockets msg targets) = 0

unfoldable pub count_updates : Bytes → List Event → ℕ
unfolding is_update
count_updates key [] = 0
count_updates key (e ∷ events) = is_update key e + count_updates key events

step-seq :
    (key : Bytes) (e : Event) (s : SubscriberServer)
    → seq_of s key < 2 ^ 64
    → seq_of (step e s) key ≡ (seq_of s key + is_update key e) % 2 ^ 64
unfolding step is_update seq_of connect disconnect register handle_unsubscribe collect deliver
    next_seq
step-seq key (connected id ws) s small = omega arith
step-seq key (disconnected id) s small = omega arith
step-seq key (registered books now ofi_depth id exchange symbol) s small = omega arith
step-seq key (unsubscribed id streams) s small = omega arith
step-seq key (collected sockets j) s small =
    let at = lookup-assign j key ((or_zero (lookup s.seq_map j) + 1) % 2 ^ 64) s.seq_map in
    elim (Bool-cases (same_text j key)) [
      | inl same ↦
          rw (at, same)
            (ap (λ k. (or_zero (lookup s.seq_map k) + 1) % 2 ^ 64) ((text_iff j key).0 same))
      | inr other ↦ rw (at, other) (omega arith)
    ]
step-seq key (delivered sockets msg targets) s small = omega arith

-- The sequence number of a stream counts its updates, modulo 2 ^ 64, whatever else happens.
pub run-seq :
    (key : Bytes) (events : List Event) (s : SubscriberServer)
    → seq_of s key < 2 ^ 64
    → seq_of (run events s) key ≡ (seq_of s key + count_updates key events) % 2 ^ 64
unfolding run count_updates
run-seq key [] s small = omega arith
run-seq key (e ∷ events) s small =
    let first = step-seq key e s small in
    let rest = run-seq key events (step e s) (omega (arith, first)) in omega (arith, first, rest)

unfoldable pub snapshot_seq : Message → Option ℕ
snapshot_seq (Message.snapshot_message exchange symbol ts bids asks ofi_depth seq) = some seq
snapshot_seq (Message.update_message exchange symbol ts bids asks ofi_delta seq) = none
snapshot_seq (Message.error_message text) = none

found-seq :
    (exchange symbol : Bytes) (now : ℤ) (ofi_depth seq : ℕ) (found : Option OrderBook)
    {msg : Message}
    → found_snapshot exchange symbol now ofi_depth seq found ≡ some msg
    → snapshot_seq msg ≡ some seq
unfolding snapshot_seq
found-seq exchange symbol now ofi_depth seq none e = absurd (none-ne-some e)
found-seq exchange symbol now ofi_depth seq (some book) {msg} e =
    elim (Bool-cases (get_snapshot book).applied) [
      | inl ready ↦
          let got : some (
                snapshot_message exchange symbol now (book_levels (get_snapshot book).bids)
                  (book_levels (get_snapshot book).asks) ofi_depth seq)
              ≡ some msg =
            rw ready at e in
          cc
      | inr blank ↦ absurd (none-ne-some (rw blank at e))
    ]

module _ (books : List (Bytes × OrderBook)) (now : ℤ) (ofi_depth : ℕ) (id exchange symbol : Bytes)
    (s : SubscriberServer) where
  register-snapshot :
      {msg : Message}
      → (register books now ofi_depth id exchange symbol s).1 ≡ some msg
      → snapshot_seq msg ≡ some (seq_of s (stream_key exchange symbol))
  unfolding register
  register-snapshot sent =
      found-seq exchange symbol now ofi_depth (seq_of s (stream_key exchange symbol))
        (lookup books (stream_key exchange symbol)) sent

  register-seq :
      (key : Bytes)
      → seq_of (register books now ofi_depth id exchange symbol s).0 key ≡ seq_of s key
  unfolding register seq_of
  register-seq key = refl

collect-seq :
    (sockets : Sockets) (key : Bytes) (s : SubscriberServer)
    → (collect sockets key s).1 ≡ (seq_of s key + 1) % 2 ^ 64
unfolding collect next_seq
collect-seq sockets key s = refl

-- If a client is sent a snapshot with a sequence number, the update that follows the next k ones of
-- the stream carries that number plus k + 1, modulo 2 ^ 64, however the other calls interleave.
pub collect-after_snapshot :
    (books : List (Bytes × OrderBook)) (now : ℤ) (ofi_depth : ℕ) (id exchange symbol : Bytes)
    (s : SubscriberServer) (sockets : Sockets) (events : List Event) {msg : Message}
    → seq_of s (stream_key exchange symbol) < 2 ^ 64
    → (register books now ofi_depth id exchange symbol s).1 ≡ some msg
    → (map_some
        (λ n. (n + count_updates (stream_key exchange symbol) events + 1) % 2 ^ 64)
        (snapshot_seq msg))
      ≡ some
          (collect sockets
            (stream_key exchange symbol)
            (run events (register books now ofi_depth id exchange symbol s).0)).1
collect-after_snapshot books now ofi_depth id exchange symbol s sockets events small sent =
    let key : Bytes = stream_key exchange symbol in
    let s' : SubscriberServer = (register books now ofi_depth id exchange symbol s).0 in
    let same = register-seq books now ofi_depth id exchange symbol s key in
    let later = run-seq key events s' (omega (arith, same)) in
    rw (register-snapshot books now ofi_depth id exchange symbol s sent)
      (ap some (omega (arith, later, same, collect-seq sockets key (run events s'))))

-- Whether a client of the server subscribes to a stream.
abbrev pub has_stream : Bytes → Option ClientState → Bool
has_stream key none = false
has_stream key (some c) = has_text c.streams key

unfoldable pub subscribed : SubscriberServer → Bytes → Bytes → Bool
subscribed s id key = has_stream key (lookup s.clients id)

-- The events that leave a client's subscriptions alone: no reconnection under its id, close,
-- unsubscribe request or disconnect for a full buffer.
unfoldable pub keeps : Bytes → Event → Bool
keeps id (connected j ws) = not (same_text j id)
keeps id (disconnected j) = not (same_text j id)
keeps id (registered books now ofi_depth j exchange symbol) = true
keeps id (unsubscribed j streams) = not (same_text j id)
keeps id (collected sockets key) = true
keeps id (delivered sockets msg targets) = not (has_text (send_all sockets msg targets).2 id)

lookup-erase_all :
    (ids : List Bytes) (clients : List (Bytes × ClientState)) (id : Bytes)
    → has_text ids id ≡ false
    → lookup (erase_all ids clients) id ≡ lookup clients id
unfolding has_text
lookup-erase_all [] clients id h = refl
lookup-erase_all (j ∷ ids) clients id h =
    ground (arith, lookup-erase_all ids (erase j clients) id, lookup-erase j id clients)

has_stream-insert_stream :
    (id key j k : Bytes) (clients : List (Bytes × ClientState)) (found : Option ClientState)
    → lookup clients id ≡ found
    → has_stream k (lookup (insert_stream id key clients found) j)
      ≡ ((same_text id j && same_text key k) || has_stream k (lookup clients j))
unfolding has_text
has_stream-insert_stream id key j k clients none absent =
    rw (lookup-assign id j (record { ws = none; streams = key ∷ [] }) clients)
      (ground (arith, text_iff id j, absent))
has_stream-insert_stream id key j k clients (some c) found =
    rw (lookup-modify (λ x. record x { streams = add_text key x.streams }) id j clients)
      (elim (Bool-cases (same_text id j)) [
        | inl same ↦
            let at : lookup clients j ≡ some c =
              ap (lookup clients) (sym ((text_iff id j).0 same)) ∙ found in
            rw (same, at) (has_text-add_text key k c.streams)
        | inr other ↦ rw other refl
      ])

has_stream-subscribe_key :
    (id key j k : Bytes) (clients : List (Bytes × ClientState))
    → has_stream k (lookup (subscribe_key id key clients) j)
      ≡ ((same_text id j && same_text key k) || has_stream k (lookup clients j))
has_stream-subscribe_key id key j k clients =
    has_stream-insert_stream id key j k clients (lookup clients id) refl

step-subscribed :
    (id key : Bytes) (e : Event) (s : SubscriberServer)
    → keeps id e ≡ true
    → subscribed s id key ≡ true
    → subscribed (step e s) id key ≡ true
unfolding keeps subscribed step connect disconnect register handle_unsubscribe collect deliver
step-subscribed id key (connected j ws) s keep h =
    ground (arith, lookup-assign j id (record { ws = some ws; streams = [] }) s.clients)
step-subscribed id key (disconnected j) s keep h = ground (arith, lookup-erase j id s.clients)
step-subscribed id key (registered books now ofi_depth j exchange symbol) s keep h =
    ground (arith, has_stream-subscribe_key j (stream_key exchange symbol) id key s.clients)
step-subscribed id key (unsubscribed j streams) s keep h = ground (
  arith,
  lookup-modify (λ c. record c { streams = unsubscribe_all streams c.streams }) j id s.clients,
)
step-subscribed id key (collected sockets j) s keep h = h
step-subscribed id key (delivered sockets msg targets) s keep h =
    ground (arith, lookup-erase_all (send_all sockets msg targets).2 s.clients id)

unfoldable pub all_keep : Bytes → List Event → Bool
unfolding keeps
all_keep id [] = true
all_keep id (e ∷ events) = keeps id e && all_keep id events

run-subscribed :
    (id key : Bytes) (events : List Event) (s : SubscriberServer)
    → all_keep id events ≡ true
    → subscribed s id key ≡ true
    → subscribed (run events s) id key ≡ true
unfolding all_keep run
run-subscribed id key [] s keep h = h
run-subscribed id key (e ∷ events) s keep h =
    run-subscribed id key events (step e s) (ground (arith, keep))
      (step-subscribed id key e s (ground (arith, keep)) h)

register-starts :
    (books : List (Bytes × OrderBook)) (now : ℤ) (ofi_depth : ℕ) (id exchange symbol : Bytes)
    (s : SubscriberServer)
    → subscribed
        (register books now ofi_depth id exchange symbol s).0
        id
        (stream_key exchange symbol)
      ≡ true
unfolding subscribed register
register-starts books now ofi_depth id exchange symbol s = ground (
  arith,
  has_stream-subscribe_key id (stream_key exchange symbol) id (stream_key exchange symbol)
      s.clients,
  text_iff id id,
  text_iff (stream_key exchange symbol) (stream_key exchange symbol),
)

-- After a stream is registered for a client, the client subscribes to it through any events of which
-- none reconnects, closes or disconnects the client, or is an unsubscribe request of its own.
pub register-subscribed :
    (books : List (Bytes × OrderBook)) (now : ℤ) (ofi_depth : ℕ) (id exchange symbol : Bytes)
    (s : SubscriberServer) (events : List Event)
    → all_keep id events ≡ true
    → subscribed
        (run events (register books now ofi_depth id exchange symbol s).0)
        id
        (stream_key exchange symbol)
      ≡ true
register-subscribed books now ofi_depth id exchange symbol s events keep =
    run-subscribed id (stream_key exchange symbol) events
      (register books now ofi_depth id exchange symbol s).0 keep
      (register-starts books now ofi_depth id exchange symbol s)
