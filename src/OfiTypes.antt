-- ===== src/OfiTypes.antt =====
-- src/ofi_types.hpp: the level changes that an order book emits.
use lob.Prelude.{Bool, List}
use lob.Prelude.Int.{ℤ}

pub data EventKind : Type 0 where
  genuine backfill maintenance : EventKind

pub record LevelDelta : Type 0 where
  pub price : ℤ
  pub new_qty : ℤ
  pub delta_qty : ℤ
  pub is_bid : Bool
  pub was_in_view : Bool
  pub in_ofi_view : Bool
  pub kind : EventKind

-- `success` is false when a sequence gap was found.
pub record UpdateResult : Type 0 where
  pub success : Bool
  pub deltas : List LevelDelta

-- What the secondary changes of an update are marked with.
abbrev pub secondary : EventKind → EventKind
secondary backfill = backfill
secondary _ = maintenance
