-- ===== src/SubscriberServer/Messages.antt =====
-- src/subscriber_protocol.hpp: the JSON values of the messages. The double that the OFI change is
-- divided into is the parameter `native`.
use lob.Prelude.{ℕ, [], ◌∷◌, Bytes, codes}
use lob.Prelude.Int.{ℤ, pos}
use lob.Json.{Json, Items, Fields, integer, text, array, object, nil, cons, end, field}
use lob.SubscriberServer.{Message, snapshot_message, update_message, error_message, Rows}

abbrev pub rows_items : Rows → Items
rows_items [] = nil
rows_items ((price, qty) ∷ rows) =
    cons (array (cons (text price) (cons (text qty) nil))) (rows_items rows)

-- The fields that a snapshot and an update share.
abbrev pub head : Bytes → Bytes → Bytes → ℤ → ℕ → Fields → Fields
head kind exchange symbol ts seq fields = field (codes "type") (text kind) (
    field (codes "exchange") (text exchange) (
      field (codes "symbol") (text symbol)
        (field (codes "ts") (integer ts) (field (codes "seq") (integer (pos seq)) fields))))

abbrev pub levels : Rows → Rows → Fields
levels bids asks =
    field (codes "bids") (array (rows_items bids))
      (field (codes "asks") (array (rows_items asks)) end)

-- `buildSnapshot`, `buildUpdate` and `buildError`, before the value is dumped.
unfoldable pub message_json : (ℤ → Json) → Message → Json
message_json native (snapshot_message exchange symbol ts bids asks ofi_depth seq) = object (
    head (codes "snapshot") exchange symbol ts seq
      (field (codes "ofi_depth") (integer (pos ofi_depth)) (levels bids asks)))
message_json native (update_message exchange symbol ts bids asks ofi_delta seq) = object (
    head (codes "update") exchange symbol ts seq
      (field (codes "ofi_delta") (native ofi_delta) (levels bids asks)))
message_json native (error_message s) =
    object (field (codes "type") (text (codes "error")) (field (codes "message") (text s) end))
