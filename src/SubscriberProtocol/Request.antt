-- ===== src/SubscriberProtocol/Request.antt =====
-- `parseClientMessage`, on the JSON value of a message; a text that is no JSON is refused too.

use lob.Prelude.{
  ◌≡◌, refl, ap, Bool, ◌||◌, List, [], ◌∷◌, Option, none, some, if◌then◌else◌, Bytes, codes,
  same_text,
}
use lob.Json.{
  Json, text, array, object, field, end, find_field, member, elements, as_array, as_text, texts,
}

pub record ParsedRequest : Type 0 where
  pub op : Bytes
  pub streams : List Bytes

-- Every element must be a string.
unfoldable pub all_texts : List Json → Option (List Bytes)
all_texts [] = some []
all_texts (v ∷ vs) = elim (as_text (some v)) [
  | none ↦ none
  | some s ↦ elim (all_texts vs) [ none ↦ none | some ss ↦ some (s ∷ ss) ]
]

abbrev pub is_op : Bytes → Bool
is_op op = same_text op (codes "subscribe") || same_text op (codes "unsubscribe")

abbrev pub request_of : Bytes → Option (List Bytes) → Option ParsedRequest
request_of op none = none
request_of op (some streams) = some (record { op = op; streams = streams })

abbrev pub read_request : Option Bytes → Option (List Json) → Option ParsedRequest
read_request (some op) (some vs) = if is_op op then request_of op (all_texts vs) else none
read_request (some op) none = none
read_request none vs = none

unfoldable pub parse_client_message : Option Json → Option ParsedRequest
unfolding all_texts
parse_client_message none = none
parse_client_message (some j) =
    read_request (as_text (member j (codes "op"))) (as_array (member j (codes "streams")))

-- {"op": op, "streams": [...]}
abbrev pub request_json : Bytes → List Bytes → Json
request_json op streams =
    object (field (codes "op") (text op) (field (codes "streams") (array (texts streams)) end))

all_texts-texts : (streams : List Bytes) → all_texts (elements (texts streams)) ≡ some streams
unfolding all_texts
all_texts-texts [] = refl
all_texts-texts (s ∷ ss) = rw (all_texts-texts ss)

-- The request {"op": op, "streams": streams} is read as the two if the operation is "subscribe" or
-- "unsubscribe", and is refused otherwise.
pub parse-request_json :
    (op : Bytes) (streams : List Bytes)
    → parse_client_message (some (request_json op streams))
      ≡ (if is_op op then some (record { op = op; streams = streams }) else none)
unfolding parse_client_message find_field same_text
parse-request_json op streams =
    ap (λ r. if is_op op then request_of op r else none) (all_texts-texts streams)
