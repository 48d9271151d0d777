-- ===== src/Rid/Store.antt =====
-- The tables of pkg/rid/store/cockroach (their schema is build/db_schemas/rid), as the state of a
-- transaction. A connection that fails is not modelled, and `Transact` is that of the other store.
pub mod Areas
pub mod Subscriptions
use inter_uss_platform.Base.{
  ℕ, String, Bool, true, false, Option, none, some, List, [], ◌∷◌, leb, all, nat_eq,
}
use inter_uss_platform.Models.Times.{Time}
use inter_uss_platform.Models.Platform.{Platform, CellUnion}

-- A row of `identification_service_areas`.
pub record AreaRow : Type 0 where
  pub id : String
  pub owner : String
  pub url : String
  pub cells : CellUnion
  pub starts_at : Option Time
  pub ends_at : Option Time
  pub writer : Option String
  pub updated_at : Time

-- A row of `subscriptions`.
pub record SubscriptionRow : Type 0 where
  pub id : String
  pub owner : String
  pub url : String
  pub notification_index : ℕ
  pub cells : CellUnion
  pub starts_at : Option Time
  pub ends_at : Option Time
  pub writer : Option String
  pub updated_at : Time

pub record Db : Type 0 where
  pub areas : List AreaRow
  pub subscriptions : List SubscriptionRow

-- What a transaction takes from outside: `transaction_timestamp()`, and what the clock of the
-- repository shows.
pub record Tx : Type 0 where
  pub timestamp : Time
  pub clock : Time

-- `ends_at >= $1`, which is not true of a row without an end.
unfoldable pub ends_from : Time → Option Time → Bool
ends_from t none = false
ends_from t (some end) = leb t end

-- `COALESCE(starts_at <= $2, true)`
unfoldable pub starts_by : Option Time → Option Time → Bool
starts_by (some start) (some latest) = leb start latest
starts_by _ _ = true

abbrev or_empty : Option String → String
or_empty none = ""
or_empty (some writer) = writer

unfoldable pub writer_of : Option String → String
writer_of w = or_empty w

-- `CellUnionToCellIdsWithValidation`: every cell is of level 13.
unfoldable pub valid_cells : Platform → CellUnion → Bool
valid_cells env cells = all (λ c. nat_eq (env.cell_level c) 13) cells

-- `CHECK (array_length(cells, 1) IS NOT NULL)` of both tables
abbrev pub has_cells : CellUnion → Bool
has_cells [] = false
has_cells (c ∷ cells) = true
