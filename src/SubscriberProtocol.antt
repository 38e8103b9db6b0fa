-- ===== src/SubscriberProtocol.antt =====
-- src/subscriber_protocol.hpp: how prices and quantities are written to subscribers, and how
-- the names of streams are read. The JSON messages themselves are built by the JSON library.
pub mod Format
pub mod Stream
pub mod Request
use lob.Prelude.{
  ℕ, zero, suc, ◌+◌, ◌-◌, ◌*◌, ◌/◌, ◌%◌, ◌^◌, Bool, ◌&&◌, List, [], ◌∷◌, ◌++◌, if◌then◌else◌, ltb,
  ◌==◌, length, Bytes, replicate, map, Option, none, some, codes, same_text,
}
use lob.Decimal.{before_dot, after_dot}
use lob.Prelude.Int.{ℤ, pos, pos_part, neg_part, ltb_ℤ}

-- The digits of a number in front of a text; the first argument bounds their number.
unfoldable pub digits_from : ℕ → ℕ → Bytes → Bytes
digits_from zero n acc = acc
digits_from (suc fuel) n acc =
    let rest = digits_from fuel (n / 10) ((b'0' + n % 10) ∷ acc) in
    if ltb n 10 then (b'0' + n % 10) ∷ acc else rest

-- std::to_string on `unsigned long long`, whose values have at most 20 digits.
unfoldable pub to_string : ℕ → Bytes
unfolding digits_from
to_string n = digits_from 20 n []

-- `while (frac.size() < 8) frac = "0" + frac`
unfoldable pub pad : Bytes → Bytes
pad s = replicate (8 - length s) b'0' ++ s

-- `while (!frac.empty() && frac.back() == '0') frac.pop_back()`
unfoldable pub strip_zeros : Bytes → Bytes
strip_zeros [] = []
strip_zeros (c ∷ s) =
    let rest = strip_zeros s in if (length rest == 0) && (c == b'0') then [] else c ∷ rest

unfoldable pub fraction : ℕ → Bytes
unfolding to_string pad strip_zeros
fraction n = strip_zeros (pad (to_string n))

unfoldable pub format_unsigned : ℕ → Bytes
unfolding fraction to_string
format_unsigned n =
    if n % 10 ^ 8 == 0
    then to_string (n / 10 ^ 8)
    else to_string (n / 10 ^ 8) ++ b'.' ∷ fraction (n % 10 ^ 8)

-- The absolute value is taken as an unsigned number, which holds it also for LLONG_MIN.
unfoldable pub format_scaled : ℤ → Bytes
unfolding format_unsigned
format_scaled scaled =
    let result = format_unsigned (pos_part scaled + neg_part scaled) in
    if ltb_ℤ scaled (pos 0) then b'-' ∷ result else result

-- `bookLevelsToJson`: the rows of the array.
unfoldable pub book_levels : List (ℤ × ℤ) → List (Bytes × Bytes)
unfolding format_scaled
book_levels levels = map (λ e. (format_scaled e.0, format_scaled e.1)) levels

-- `parseStream`: "exchange.SYMBOL.book". A search for '.' splits the text around it.
unfoldable pub parse_symbol : Bytes → Bytes → Option (Bytes × Bytes)
parse_symbol exchange rest = elim (after_dot rest) [
  | none ↦ none
  | some suffix ↦
      if length (before_dot rest) == 0
      then none
      else if same_text suffix (codes "book")
      then some (exchange, before_dot rest)
      else none
]

unfoldable pub parse_stream : Bytes → Option (Bytes × Bytes)
unfolding parse_symbol
parse_stream stream = elim (after_dot stream) [
  | none ↦ none
  | some rest ↦
      if length (before_dot stream) == 0 then none else parse_symbol (before_dot stream) rest
]
