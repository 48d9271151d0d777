-- ===== src/Scd/Store.antt =====
-- The tables of pkg/scd/store/cockroach (their schema is build/db_schemas/scd), as the state of a
-- transaction, and the parts of statements that several of them share. The statements are those of
-- the SQL texts of that package. A connection that fails is not modelled, and neither is the
-- conversion of an identifier to a `pgtype.UUID`, which succeeds on those that were accepted.
pub mod Subscriptions
pub mod OperationalIntents
pub mod Constraints
pub mod Availabilities
pub mod Expired
pub mod Reads
pub mod Frame
pub mod Search
pub mod Runs
use inter_uss_platform.Base.{
  ℕ, String, Bool, true, ◌&&◌, Option, none, some, List, [], ◌∷◌, any, nat_eq, ltb, leb, map,
}
use inter_uss_platform.Base.Int.{leb_ℤ}
use inter_uss_platform.Base.Action.{Result, ok, err}
use inter_uss_platform.Api.{Float}
use inter_uss_platform.Errors.{Code, Fault, coded}
use inter_uss_platform.Models.Times.{Time}
use inter_uss_platform.Models.Platform.{CellUnion}
use inter_uss_platform.Scd.Models.Availability.{UssAvailabilityState}

-- A row of `scd_subscriptions`. Its altitudes are not stored, and its `version` is always 0.
pub record SubscriptionRow : Type 0 where
  pub id : String
  pub owner : String
  pub url : String
  pub notification_index : ℕ
  pub notify_for_operations : Bool
  pub notify_for_constraints : Bool
  pub implicit : Bool
  pub starts_at : Option Time
  pub ends_at : Option Time
  pub cells : CellUnion
  pub updated_at : Time

-- A row of `scd_operations`.
pub record OperationRow : Type 0 where
  pub id : String
  pub owner : String
  pub version : ℕ
  pub url : String
  pub altitude_lower : Option Float
  pub altitude_upper : Option Float
  pub starts_at : Option Time
  pub ends_at : Option Time
  pub subscription_id : Option String
  pub updated_at : Time
  pub state : String
  pub cells : CellUnion
  pub uss_requested_ovn : Option String
  pub past_ovns : List String

-- A row of `scd_constraints`.
pub record ConstraintRow : Type 0 where
  pub id : String
  pub owner : String
  pub version : ℕ
  pub url : String
  pub altitude_lower : Option Float
  pub altitude_upper : Option Float
  pub starts_at : Option Time
  pub ends_at : Option Time
  pub cells : CellUnion
  pub updated_at : Time

-- A row of `scd_uss_availability`.
pub record AvailabilityRow : Type 0 where
  pub id : String
  pub availability : UssAvailabilityState
  pub updated_at : Time

pub record Db : Type 0 where
  pub subscriptions : List SubscriptionRow
  pub operations : List OperationRow
  pub constraints : List ConstraintRow
  pub availabilities : List AvailabilityRow

-- What a transaction takes from outside: `transaction_timestamp()`, the result of `uuid.New()`, and
-- the order in which an `UPDATE … RETURNING` yields its rows.
pub record Tx : Type 0 where
  pub timestamp : Time
  pub new_uuid : String
  pub returning : List ℕ → List ℕ

-- `MaxResultLimit`
abbrev pub max_result_limit : ℕ
max_result_limit = 10000

-- The greatest value of an `INT4` column.
abbrev pub max_int4 : ℕ
max_int4 = 2147483647

-- `cells && other`
unfoldable pub overlap : CellUnion → CellUnion → Bool
overlap cells other = any (λ c. any (nat_eq c) other) cells

-- `COALESCE(a <= b, true)` on times, and on altitudes
unfoldable pub no_later : Option Time → Option Time → Bool
no_later (some a) (some b) = leb a b
no_later _ _ = true

unfoldable pub no_higher : Option Float → Option Float → Bool
no_higher (some a) (some b) = leb_ℤ a b
no_higher _ _ = true

-- `CHECK (starts_at IS NULL OR ends_at IS NULL OR starts_at < ends_at)`
unfoldable pub in_order : Option Time → Option Time → Bool
in_order (some a) (some b) = ltb a b
in_order _ _ = true

-- `fetchSubscription` and its likes: none, one, or an error.
unfoldable pub at_most_one : {A : Type 0} → List A → Result Fault (Option A)
at_most_one [] = ok none
at_most_one (x ∷ []) = ok (some x)
at_most_one (x ∷ y ∷ rest) = err (coded Code.no_code)
