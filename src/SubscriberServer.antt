-- ===== src/SubscriberServer.antt =====
-- src/subscriber_server.hpp: the clients of the server, their subscriptions, and what is sent to
-- them. `mu_` is held where the tables are read and written; the sends are outside of it, so
-- `broadcastUpdate` is given in its two parts, `collect` and `deliver`, and `handleSubscribe` sends
-- the snapshot that `register` took under the lock. The WebSocket library is the parameter
-- `Sockets`, the time of day an argument, and a message is a value of `Message` before it is dumped.
pub mod Sequence
pub mod Delivery
pub mod Genuine
pub mod Messages
use lob.Prelude.{
  ℕ, zero, suc, ◌+◌, ◌%◌, ◌^◌, ◌*◌, Bool, true, false, not, ◌&&◌, List, [], ◌∷◌, ◌++◌, Option, none,
  some, if◌then◌else◌, ltb, Bytes, codes, same_text, length,
}
use lob.Prelude.Int.{ℤ}
use lob.Prelude.Maps.{lookup, assign, modify, erase, has_text, add_text, remove_text}
use lob.OfiTypes.{EventKind, genuine, backfill, maintenance, LevelDelta}
use lob.OrderBook.{OrderBook, Snapshot, get_snapshot}
use lob.SubscriberProtocol.{format_scaled, book_levels, parse_stream}
use lob.SubscriberProtocol.Request.{ParsedRequest, parse_client_message}
use lob.Json.{Json}

-- The rows of a message.
abbrev pub Rows : Type 0
Rows = List (Bytes × Bytes)

-- The arguments of `buildSnapshot`, `buildUpdate` and `buildError`; the OFI change of an update is
-- not yet divided by 10 ^ 8.
pub data Message : Type 0 where
  snapshot_message :
      (exchange symbol : Bytes) (ts : ℤ) (bids asks : Rows) (ofi_depth : ℕ) (seq : ℕ) → Message
  update_message :
      (exchange symbol : Bytes) (ts : ℤ) (bids asks : Rows) (ofi_delta : ℤ) (seq : ℕ) → Message
  error_message : Bytes → Message

-- What a socket is told to do.
pub data Action : Type 0 where
  send : (ws : ℕ) → Message → Action
  close : (ws : ℕ) → Action

-- The WebSocket library: whether `lock()` finds the socket, and the bytes that it has queued.
pub record Sockets : Type 0 where
  pub alive : ℕ → Bool
  pub buffered_amount : ℕ → ℕ

-- `weak_ptr`: `none` if it was never set.
pub record ClientState : Type 0 where
  pub ws : Option ℕ
  pub streams : List Bytes

pub record SubscriberServer : Type 0 where
  pub clients : List (Bytes × ClientState)
  pub seq_map : List (Bytes × ℕ)
  pub messages_sent : ℕ
  pub backpressure_disconnects : ℕ

abbrev pub new_server : SubscriberServer
new_server = record { clients = []; seq_map = []; messages_sent = 0; backpressure_disconnects = 0 }

abbrev pub backpressure_limit : ℕ
backpressure_limit = 1 * 1024 * 1024

abbrev pub stream_key : Bytes → Bytes → Bytes
stream_key exchange symbol = exchange ++ b'.' ∷ symbol

-- The connection callback, and the one for a close.
unfoldable pub connect : Bytes → ℕ → SubscriberServer → SubscriberServer
connect id ws s = record s { clients = assign id (record { ws = some ws; streams = [] }) s.clients }

unfoldable pub disconnect : Bytes → SubscriberServer → SubscriberServer
disconnect id s = record s { clients = erase id s.clients }

abbrev pub count_streams : List (Bytes × ClientState) → ℕ
count_streams [] = 0
count_streams (c ∷ clients) = length c.1.streams + count_streams clients

pub record SubscriberStats : Type 0 where
  pub connected_clients : ℕ
  pub active_subscriptions : ℕ
  pub messages_sent_total : ℕ
  pub backpressure_disconnects_total : ℕ

unfoldable pub get_stats : SubscriberServer → SubscriberStats
get_stats s = record {
  connected_clients = length s.clients;
  active_subscriptions = count_streams s.clients;
  messages_sent_total = s.messages_sent;
  backpressure_disconnects_total = s.backpressure_disconnects;
}

-- The rows of the genuine changes of one side.
abbrev pub is_genuine : EventKind → Bool
is_genuine genuine = true
is_genuine backfill = false
is_genuine maintenance = false

abbrev pub same_side : Bool → Bool → Bool
same_side true is_bid = is_bid
same_side false is_bid = not is_bid

unfoldable pub rows_of : Bool → List LevelDelta → Rows
rows_of side [] = []
rows_of side (d ∷ deltas) =
    if is_genuine d.kind && same_side side d.is_bid
    then (format_scaled d.price, format_scaled d.new_qty) ∷ rows_of side deltas
    else rows_of side deltas

-- The sequence number of a stream, 0 if it has had no update.
abbrev pub or_zero : Option ℕ → ℕ
or_zero none = 0
or_zero (some n) = n

unfoldable pub seq_of : SubscriberServer → Bytes → ℕ
seq_of s key = or_zero (lookup s.seq_map key)

-- `++seqMap_[key]`, a `uint64_t`
unfoldable pub next_seq : SubscriberServer → Bytes → ℕ
unfolding seq_of
next_seq s key = (seq_of s key + 1) % 2 ^ 64

-- `client.ws.lock()`
abbrev pub lock : (ℕ → Bool) → Option ℕ → Option ℕ
lock alive none = none
lock alive (some ws) = if alive ws then some ws else none

abbrev pub target : Bytes → Option ℕ → List (Bytes × ℕ)
target id none = []
target id (some ws) = (id, ws) ∷ []

unfoldable pub targets_of : (ℕ → Bool) → Bytes → List (Bytes × ClientState) → List (Bytes × ℕ)
targets_of alive key [] = []
targets_of alive key ((id, client) ∷ clients) =
    if has_text client.streams key
    then target id (lock alive client.ws) ++ targets_of alive key clients
    else targets_of alive key clients

-- The locked part of `broadcastUpdate`: the next sequence number, and who gets the update.
unfoldable pub collect :
    Sockets → Bytes → SubscriberServer → SubscriberServer × ℕ × List (Bytes × ℕ)
unfolding next_seq targets_of
collect sockets key s =
    let seq = next_seq s key in
    (record s { seq_map = assign key seq s.seq_map }, seq, targets_of sockets.alive key s.clients)

-- The loop over the targets: what is sent or closed, the number of messages, and the clients whose
-- buffer is too full.
unfoldable pub send_all : Sockets → Message → List (Bytes × ℕ) → List Action × ℕ × List Bytes
send_all sockets msg [] = ([], 0, [])
send_all sockets msg ((id, ws) ∷ targets) =
    let (actions, sent, full) = send_all sockets msg targets in
    if ltb backpressure_limit (sockets.buffered_amount ws)
    then (close ws ∷ actions, sent, id ∷ full)
    else (send ws msg ∷ actions, sent + 1, full)

abbrev pub erase_all : List Bytes → List (Bytes × ClientState) → List (Bytes × ClientState)
erase_all [] clients = clients
erase_all (id ∷ ids) clients = erase_all ids (erase id clients)

unfoldable pub deliver :
    Sockets → Message → List (Bytes × ℕ) → SubscriberServer → SubscriberServer × List Action
unfolding send_all
deliver sockets msg targets s =
    let (actions, sent, full) = send_all sockets msg targets in
    (
      record s {
        clients = erase_all full s.clients;
        messages_sent = s.messages_sent + sent;
        backpressure_disconnects = s.backpressure_disconnects + length full;
      },
      actions,
    )

abbrev pub is_empty : Rows → Bool
is_empty [] = true
is_empty (row ∷ rows) = false

-- `broadcastUpdate` with no other call between its two parts.
unfoldable pub broadcast_update :
    Sockets
    → Bytes
    → Bytes
    → List LevelDelta
    → ℤ
    → ℤ
    → SubscriberServer
    → SubscriberServer × List Action
unfolding rows_of collect deliver
broadcast_update sockets exchange symbol deltas ts ofi_delta s =
    let bids = rows_of true deltas in
    let asks = rows_of false deltas in
    let (s', seq, targets) = collect sockets (stream_key exchange symbol) s in
    if is_empty bids && is_empty asks
    then (s, [])
    else deliver sockets (update_message exchange symbol ts bids asks ofi_delta seq) targets s'

-- The locked part of `handleSubscribe` for one stream: the snapshot, if the book has one, and the
-- client, which `clients_[id]` makes if it has gone.
abbrev pub snapshot_of : Bytes → Bytes → ℤ → ℕ → ℕ → Snapshot → Option Message
snapshot_of exchange symbol now ofi_depth seq snap =
    if snap.applied
    then some (
        snapshot_message exchange symbol now (book_levels snap.bids) (book_levels snap.asks)
          ofi_depth seq)
    else none

abbrev pub insert_stream :
    Bytes → Bytes → List (Bytes × ClientState) → Option ClientState → List (Bytes × ClientState)
insert_stream id key clients none = assign id (record { ws = none; streams = key ∷ [] }) clients
insert_stream id key clients (some c) =
    modify (λ x. record x { streams = add_text key x.streams }) id clients

abbrev pub subscribe_key : Bytes → Bytes → List (Bytes × ClientState) → List (Bytes × ClientState)
subscribe_key id key clients = insert_stream id key clients (lookup clients id)

abbrev pub found_snapshot : Bytes → Bytes → ℤ → ℕ → ℕ → Option OrderBook → Option Message
found_snapshot exchange symbol now ofi_depth seq none = none
found_snapshot exchange symbol now ofi_depth seq (some book) =
    snapshot_of exchange symbol now ofi_depth seq (get_snapshot book)

unfoldable pub register :
    List (Bytes × OrderBook)
    → ℤ
    → ℕ
    → Bytes
    → Bytes
    → Bytes
    → SubscriberServer
    → SubscriberServer × Option Message
unfolding seq_of
register books now ofi_depth id exchange symbol s =
    let key = stream_key exchange symbol in
    let snap = found_snapshot exchange symbol now ofi_depth (seq_of s key) (lookup books key) in
    (record s { clients = subscribe_key id key s.clients }, snap)

abbrev pub send_some : ℕ → Option Message → List Action
send_some ws none = []
send_some ws (some msg) = send ws msg ∷ []

abbrev pub subscribe_parsed :
    List (Bytes × OrderBook)
    → ℤ
    → ℕ
    → ℕ
    → Bytes
    → Bytes
    → Option (Bytes × Bytes)
    → SubscriberServer
    → SubscriberServer × List Action
subscribe_parsed books now ofi_depth ws id stream none s =
    (s, send ws (error_message (codes "bad stream: " ++ stream)) ∷ [])
subscribe_parsed books now ofi_depth ws id stream (some (exchange, symbol)) s =
    let (s', snap) = register books now ofi_depth id exchange symbol s in (s', send_some ws snap)

-- `handleSubscribe` with no other call between its streams.
unfoldable pub handle_subscribe :
    List (Bytes × OrderBook)
    → ℤ
    → ℕ
    → ℕ
    → Bytes
    → List Bytes
    → SubscriberServer
    → SubscriberServer × List Action
unfolding register
handle_subscribe books now ofi_depth ws id [] s = (s, [])
handle_subscribe books now ofi_depth ws id (stream ∷ streams) s =
    let (s', actions) = subscribe_parsed books now ofi_depth ws id stream (parse_stream stream) s in
    let (s'', rest) = handle_subscribe books now ofi_depth ws id streams s' in
    (s'', actions ++ rest)

abbrev pub unsubscribe_parsed : Option (Bytes × Bytes) → List Bytes → List Bytes
unsubscribe_parsed none keys = keys
unsubscribe_parsed (some (exchange, symbol)) keys = remove_text (stream_key exchange symbol) keys

abbrev pub unsubscribe_all : List Bytes → List Bytes → List Bytes
unsubscribe_all [] keys = keys
unsubscribe_all (stream ∷ streams) keys =
    unsubscribe_all streams (unsubscribe_parsed (parse_stream stream) keys)

unfoldable pub handle_unsubscribe : Bytes → List Bytes → SubscriberServer → SubscriberServer
handle_unsubscribe id streams s = record s {
  clients = modify (λ c. record c { streams = unsubscribe_all streams c.streams }) id s.clients;
}

abbrev pub handle_request :
    List (Bytes × OrderBook)
    → ℤ
    → ℕ
    → ℕ
    → Bytes
    → Option ParsedRequest
    → SubscriberServer
    → SubscriberServer × List Action
handle_request books now ofi_depth ws id none s =
    (s, send ws (error_message (codes "invalid request")) ∷ [])
handle_request books now ofi_depth ws id (some req) s =
    if same_text req.op (codes "subscribe")
    then handle_subscribe books now ofi_depth ws id req.streams s
    else (handle_unsubscribe id req.streams s, [])

-- `onMessage`: the message is given as the JSON value that it parses to, if it does.
unfoldable pub on_message :
    Sockets
    → List (Bytes × OrderBook)
    → ℤ
    → ℕ
    → ℕ
    → Bytes
    → Option Json
    → SubscriberServer
    → SubscriberServer × List Action
unfolding handle_subscribe handle_unsubscribe
on_message sockets books now ofi_depth ws id msg s =
    if sockets.alive ws
    then handle_request books now ofi_depth ws id (parse_client_message msg) s
    else (s, [])
