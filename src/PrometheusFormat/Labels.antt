-- ===== src/PrometheusFormat/Labels.antt =====
-- The labels of a line (src/prometheus_format.hpp) can be read from it.

use mathlib.Core.List.{append_cancel_left, append_cancel_right}
use lob.Prelude.{
  ℕ, ◌≡◌, refl, sym, ap, ◌∙◌, false, inl, inr, arith, Bool-cases, [], ◌∷◌, ◌++◌, append_assoc,
  Option, none, some, ◌==◌, if◌then◌else◌, Bytes, codes,
}
use lob.Prelude.Maps.{some_inj}
use lob.PrometheusFormat.{escape_byte, escape_label_value, write_line}

-- The byte that an escape sequence of the text format stands for.
abbrev unescaped : ℕ → ℕ
unescaped c = if c == b'n' then b'\n' else c

abbrev consed : ℕ → Option (Bytes × Bytes) → Option (Bytes × Bytes)
consed x none = none
consed x (some (v, rest)) = some (x ∷ v, rest)

-- Reads a label value up to the quote that ends it: the value and the text behind the quote.
unfoldable read_label : Bytes → Option (Bytes × Bytes)
read_label [] = none
read_label (c ∷ []) = if c == b'"' then some ([], []) else none
read_label (c ∷ d ∷ s) =
    let short = read_label s in
    let long = read_label (d ∷ s) in
    if c == b'"'
    then some ([], d ∷ s)
    else if c == b'\\'
    then consed (unescaped d) short
    else consed c long

read_label-plain :
    (c : ℕ) (s : Bytes)
    → (c == b'"') ≡ false
    → (c == b'\\') ≡ false
    → read_label (c ∷ s) ≡ consed c (read_label s)
unfolding read_label
read_label-plain c [] quote backslash = rw quote refl
read_label-plain c (d ∷ s) quote backslash = rw (quote, backslash) refl

read_label-end : (s : Bytes) → read_label (b'"' ∷ s) ≡ some ([], s)
unfolding read_label
read_label-end [] = refl
read_label-end (d ∷ s) = refl

read_label-escape_byte :
    (c : ℕ) (s : Bytes) → read_label (escape_byte c ++ s) ≡ consed c (read_label s)
unfolding read_label
read_label-escape_byte c s = elim (Bool-cases (c == b'\\')) [
  | inl e ↦ let at : c ≡ b'\\' = ground arith in rw at refl
  | inr backslash ↦ elim (Bool-cases (c == b'"')) [
    | inl e ↦ let at : c ≡ b'"' = ground arith in rw at refl
    | inr quote ↦ elim (Bool-cases (c == b'\n')) [
      | inl e ↦ let at : c ≡ b'\n' = ground arith in rw at refl
      | inr line ↦ rw (backslash, quote, line) (read_label-plain c s quote backslash)
    ]
  ]
]

read_label-escape : (v s : Bytes) → read_label (escape_label_value v ++ b'"' ∷ s) ≡ some (v, s)
unfolding escape_label_value
read_label-escape [] s = read_label-end s
read_label-escape (c ∷ v) s =
    ap read_label (append_assoc (escape_byte c) (escape_label_value v) (b'"' ∷ s))
    ∙ (read_label-escape_byte c _ ∙ ap (consed c) (read_label-escape v s))

label_inj :
    {v v' s s' : Bytes}
    → escape_label_value v ++ b'"' ∷ s ≡ escape_label_value v' ++ b'"' ∷ s'
    → (v ≡ v') × (s ≡ s')
label_inj {v} {v'} {s} {s'} e =
    let both =
      some_inj (sym (read_label-escape v s) ∙ (ap read_label e ∙ read_label-escape v' s')) in
    (ap (λ (r : Bytes × Bytes). r.0) both, ap (λ (r : Bytes × Bytes). r.1) both)

-- Two lines of one metric that are the same have the same exchange, symbol and value, whatever bytes
-- are in these: no label can end early or take in the next one.
pub write_line-injective :
    (name : Bytes) {ex ex' symbol symbol' value value' : Bytes}
    → write_line ex name symbol value ≡ write_line ex' name symbol' value'
    → (ex ≡ ex') × (symbol ≡ symbol') × (value ≡ value')
unfolding write_line
write_line-injective name {ex} {ex'} {symbol} {symbol'} {value} {value'} e =
    let (same_exchange, rest) = label_inj (
      append_cancel_left (codes "{exchange=\"") (after ex symbol value) (after ex' symbol' value')
        (append_cancel_left name _ _ e)) in
    let (same_symbol, rest') = label_inj (
      append_cancel_left (codes ",symbol=\"") (behind symbol value) (behind symbol' value') rest) in
    (
      same_exchange,
      same_symbol,
      append_cancel_right value value' (b'\n' ∷ [])
          (append_cancel_left (codes "} ") (value ++ b'\n' ∷ []) (value' ++ b'\n' ∷ []) rest'),
    )
  where
    behind : Bytes → Bytes → Bytes
    behind symbol value = escape_label_value symbol ++ (codes "\"} " ++ (value ++ b'\n' ∷ []))

    after : Bytes → Bytes → Bytes → Bytes
    after ex symbol value = escape_label_value ex ++ (codes "\",symbol=\"" ++ behind symbol value)
