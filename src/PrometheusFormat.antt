-- ===== src/PrometheusFormat.antt =====
-- src/prometheus_format.hpp: escapeLabelValue, and the lines that carry the labels of an exchange
-- and a symbol. How a number is written is up to the stream: its text is an argument.
pub mod Labels
use lob.Prelude.{ℕ, List, [], ◌∷◌, ◌++◌, ◌==◌, if◌then◌else◌, Bytes, codes}

-- The body of the loop: what a byte adds to `out`.
abbrev pub escape_byte : ℕ → Bytes
escape_byte c =
    if c == b'\\'
    then b'\\' ∷ b'\\' ∷ []
    else if c == b'"'
    then b'\\' ∷ b'"' ∷ []
    else if c == b'\n'
    then b'\\' ∷ b'n' ∷ []
    else c ∷ []

unfoldable pub escape_label_value : Bytes → Bytes
escape_label_value [] = []
escape_label_value (c ∷ v) = escape_byte c ++ escape_label_value v

-- `writeLine` with the exchange that it captures.
unfoldable pub write_line : Bytes → Bytes → Bytes → Bytes → Bytes
unfolding escape_label_value
write_line exchange name symbol value =
    name
    ++ (codes "{exchange=\""
        ++ (escape_label_value exchange
            ++ (codes "\",symbol=\""
                ++ (escape_label_value symbol ++ (codes "\"} " ++ (value ++ b'\n' ∷ []))))))
