-- ===== src/SubscriberProtocol/Stream.antt =====
-- What `parseStream` reads from a stream of the form "exchange.SYMBOL.book".

use lob.Prelude.{
  ◌<◌, ◌≡◌, refl, ap, false, arith, [], ◌∷◌, ◌++◌, some, ◌==◌, length, Bytes, codes, same_text_refl,
  All,
}
use lob.Decimal.{before_dot, after_dot}
use lob.SubscriberProtocol.{parse_symbol, parse_stream}

-- No byte of the text is a dot.
abbrev pub NoDot : Bytes → Type 0
NoDot s = All (λ c. (c == b'.') ≡ false) s

before_dot-append : (s t : Bytes) → NoDot s → before_dot (s ++ b'.' ∷ t) ≡ s
unfolding before_dot
before_dot-append [] t h = refl
before_dot-append (c ∷ s) t (hc, h) = rw (hc, before_dot-append s t h)

after_dot-append : (s t : Bytes) → NoDot s → after_dot (s ++ b'.' ∷ t) ≡ some t
unfolding after_dot
after_dot-append [] t h = refl
after_dot-append (c ∷ s) t (hc, h) = rw (hc, after_dot-append s t h)

some_length : (s : Bytes) → 0 < length s → (length s == 0) ≡ false
some_length s h = ground arith

-- The stream "exchange.SYMBOL.book" of an exchange and a symbol that have no dot and are not empty is
-- read as the two.
pub parse_stream_lem :
    (exchange symbol : Bytes)
    → NoDot exchange
    → NoDot symbol
    → 0 < length exchange
    → 0 < length symbol
    → parse_stream (exchange ++ b'.' ∷ (symbol ++ b'.' ∷ codes "book")) ≡ some (exchange, symbol)
unfolding parse_stream parse_symbol
parse_stream_lem e y he hy ne ny =
    rw
      (
        parse_stream,
        after_dot-append e (y ++ b'.' ∷ codes "book") he,
        before_dot-append e (y ++ b'.' ∷ codes "book") he,
        some_length e ne,
        parse_symbol,
        after_dot-append y (codes "book") hy,
        before_dot-append y (codes "book") hy,
        some_length y ny,
        same_text_refl (codes "book"),
      )
      (ap (λ (x : Bytes). some (x, y)) (before_dot-append e (y ++ b'.' ∷ codes "book") he))
