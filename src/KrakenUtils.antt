-- ===== src/KrakenUtils.antt =====
-- src/kraken_utils.hpp: the depths that Kraken offers, and its levels as pairs of texts. The text of
-- a double, which `snprintf` writes, is the parameter `format`; it fails on a value that is not a
-- number.
use lob.Prelude.{
  ℕ, ◌≡◌, ◌≤◌, Bool, true, false, List, [], ◌∷◌, Option, none, some, if◌then◌else◌, leb, ◌==◌, ◌||◌,
  Bytes, codes, arith, Result, ok, err, runtime_error, ◌>>=◌,
}
use lob.Json.{Json, member}
use lob.OrderBook.Parse.{TextLevels}

abbrev pub valid_depths : List ℕ
valid_depths = 10 ∷ 25 ∷ 100 ∷ 500 ∷ 1000 ∷ []

abbrev pub last_up_to : ℕ → ℕ → List ℕ → ℕ
last_up_to requested best [] = best
last_up_to requested best (v ∷ depths) =
    last_up_to requested (if leb v requested then v else best) depths

-- `clampBookDepth`
unfoldable pub clamp_book_depth : ℕ → ℕ
clamp_book_depth requested = last_up_to requested 10 valid_depths

abbrev pub one_of : List ℕ → ℕ → Bool
one_of [] d = false
one_of (v ∷ depths) d = d == v || one_of depths d

-- If the requested depth is at least 10, the clamped one is on offer and at most the requested one, and
-- at least every depth on offer that is at most the requested one.
pub clamp_book_depth_lem :
    (requested v : ℕ)
    → 10 ≤ requested
    → one_of valid_depths v ≡ true
    → v ≤ requested
    → (one_of valid_depths (clamp_book_depth requested) ≡ true)
      × (clamp_book_depth requested ≤ requested)
      × (v ≤ clamp_book_depth requested)
unfolding clamp_book_depth
clamp_book_depth_lem requested v big offered fits =
    (ground arith, ground arith, ground (arith, offered, fits))

-- `level.at(key)`, written by `format`
abbrev pub at_format : (Json → Result Bytes) → Option Json → Result Bytes
at_format format none = err runtime_error
at_format format (some v) = format v

abbrev pub level_to_string_pair : (Json → Result Bytes) → Json → Result (Bytes × Bytes)
level_to_string_pair format level = at_format format (member level (codes "price")) >>= λ price.
    at_format format (member level (codes "qty")) >>= λ qty. ok (price, qty)

unfoldable pub levels_to_string_pairs : (Json → Result Bytes) → List Json → Result TextLevels
levels_to_string_pairs format [] = ok []
levels_to_string_pairs format (level ∷ levels) = level_to_string_pair format level >>= λ pair.
    levels_to_string_pairs format levels >>= λ pairs. ok (pair ∷ pairs)
