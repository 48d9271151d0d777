-- ===== src/Rid/Store/Subscriptions.antt =====
-- pkg/rid/store/cockroach/subscriptions.go. The order in which `RETURNING` yields rows is left open;
-- here it is that of the table.
use inter_uss_platform.Base.{
  ℕ, ◌+◌, String, Bool, ◌&&◌, ◌||◌, not, Option, none, some, List, [], ◌∷◌, ◌++◌, map, any, filter,
  take, leb, nat_eq, str_eq, if◌then◌else◌,
}
use inter_uss_platform.Base.Tables.{delete_where, update_where}
use inter_uss_platform.Base.Action.{ok, err, Action, fail, gets}
use inter_uss_platform.Errors.{Code, Fault, coded}
use inter_uss_platform.Models.Times.{Time}
use inter_uss_platform.Models.Platform.{Platform, CellId, CellUnion}
use inter_uss_platform.Models.Versions.{version_from_time, to_timestamp}
use inter_uss_platform.Rid.Models.{Subscription}
use inter_uss_platform.Scd.Store.{max_result_limit, max_int4, overlap, in_order, at_most_one}
use inter_uss_platform.Rid.Store.{
  SubscriptionRow, Db, Tx, ends_from, writer_of, valid_cells, has_cells,
}
use inter_uss_platform.Rid.Store.Areas.{has_expired, written_by}

abbrev pub has_id : String → SubscriptionRow → Bool
has_id id r = str_eq r.id id

-- `WHERE id = $1 AND updated_at = $2`
unfoldable pub is_version : String → Time → SubscriptionRow → Bool
is_version id t r = str_eq r.id id && nat_eq r.updated_at t

-- One row as `process` reads it.
unfoldable pub subscription_of : SubscriptionRow → Subscription
subscription_of r = record {
  id = r.id;
  url = r.url;
  notification_index = r.notification_index;
  owner = r.owner;
  cells = r.cells;
  start_time = r.starts_at;
  end_time = r.ends_at;
  version = some (version_from_time r.updated_at);
  altitude_hi = none;
  altitude_lo = none;
  writer = writer_of r.writer;
}

unfoldable pub row_of : Tx → Subscription → SubscriptionRow
row_of tx s = record {
  id = s.id;
  owner = s.owner;
  url = s.url;
  notification_index = s.notification_index;
  cells = s.cells;
  starts_at = s.start_time;
  ends_at = s.end_time;
  writer = some s.writer;
  updated_at = tx.timestamp;
}

-- The row after an update, which leaves the owner as it is.
unfoldable pub updated_row : Tx → Subscription → SubscriptionRow → SubscriptionRow
updated_row tx s r = record r {
  url = s.url;
  notification_index = s.notification_index;
  cells = s.cells;
  starts_at = s.start_time;
  ends_at = s.end_time;
  writer = some s.writer;
  updated_at = tx.timestamp;
}

-- The rows of an owner that have not ended.
unfoldable pub is_current : Time → String → SubscriptionRow → Bool
is_current now owner r = str_eq r.owner owner && ends_from now r.ends_at

-- How often a cell is among some cells.
unfoldable pub occurrences : CellId → CellUnion → ℕ
occurrences c [] = 0
occurrences c (d ∷ cells) = (if nat_eq d c then 1 else 0) + occurrences c cells

-- `COUNT(*) … GROUP BY cell_id`, for one cell
unfoldable pub subscriptions_per_cell : Time → String → CellId → List SubscriptionRow → ℕ
unfolding is_current occurrences
subscriptions_per_cell now owner c [] = 0
subscriptions_per_cell now owner c (r ∷ rows) =
    (if is_current now owner r then occurrences c r.cells else 0)
    + subscriptions_per_cell now owner c rows

-- `IFNULL(MAX(…), 0)`
unfoldable pub greatest : List ℕ → ℕ
greatest [] = 0
greatest (n ∷ ns) = let rest = greatest ns in if leb n rest then rest else n

-- `MaxSubscriptionCountInCellsByOwner`
unfoldable pub max_subscription_count_in_cells_by_owner :
    Tx → CellUnion → String → Action Db Fault ℕ
max_subscription_count_in_cells_by_owner tx cells owner =
    gets
      (λ db. greatest (map (λ c. subscriptions_per_cell tx.clock owner c db.subscriptions) cells))

-- `GetSubscription`
unfoldable pub get_subscription : String → Action Db Fault (Option Subscription)
get_subscription id db =
    (at_most_one (map subscription_of (filter (has_id id) db.subscriptions)), db)

module _ (env : Platform) where
  -- `UpdateSubscription`. The checks of the table are on a row that is updated.
  unfoldable pub update_subscription : Tx → Subscription → Action Db Fault (Option Subscription)
  update_subscription tx s db =
      let here = is_version s.id (to_timestamp s.version) in
      if valid_cells env s.cells
        && (not (any here db.subscriptions)
            || (in_order s.start_time s.end_time && has_cells s.cells))
      then (
        at_most_one
            (map (λ r. subscription_of (updated_row tx s r)) (filter here db.subscriptions)),
        record db { subscriptions = update_where here (updated_row tx s) db.subscriptions },
      )
      else (err (coded Code.no_code), db)

  -- `InsertSubscription`, with the primary key and the checks of the table.
  unfoldable pub insert_subscription : Tx → Subscription → Action Db Fault (Option Subscription)
  insert_subscription tx s db =
      if valid_cells env s.cells
        && not (any (has_id s.id) db.subscriptions)
        && in_order s.start_time s.end_time
        && has_cells s.cells
      then (
        ok (some (subscription_of (row_of tx s))),
        record db { subscriptions = db.subscriptions ++ row_of tx s ∷ [] },
      )
      else (err (coded Code.no_code), db)

-- `DeleteSubscription`
unfoldable pub delete_subscription : Subscription → Action Db Fault (Option Subscription)
delete_subscription s db =
    let here = is_version s.id (to_timestamp s.version) in
    (
      at_most_one (map subscription_of (filter here db.subscriptions)),
      record db { subscriptions = delete_where here db.subscriptions },
    )

-- `cells && $1 AND ends_at >= $2`
unfoldable pub in_cells : CellUnion → Time → SubscriptionRow → Bool
in_cells cells now r = overlap r.cells cells && ends_from now r.ends_at

unfoldable pub increment : SubscriptionRow → SubscriptionRow
increment r = record r { notification_index = r.notification_index + 1 }

-- `UpdateNotificationIdxsInCells`
unfoldable pub update_notification_idxs_in_cells :
    Tx → CellUnion → Action Db Fault (List Subscription)
update_notification_idxs_in_cells tx cells db =
    if any (λ r. in_cells cells tx.clock r && leb max_int4 r.notification_index) db.subscriptions
    then (err (coded Code.no_code), db)
    else (
      ok (
          map (λ r. subscription_of (increment r))
            (filter (in_cells cells tx.clock) db.subscriptions)),
      record db {
        subscriptions = update_where (in_cells cells tx.clock) increment db.subscriptions;
      },
    )

-- `SearchSubscriptions`
unfoldable pub search_subscriptions : Tx → CellUnion → Action Db Fault (List Subscription)
search_subscriptions tx [] = fail (coded Code.bad_request)
search_subscriptions tx cells = gets (λ db.
    map subscription_of (take max_result_limit (filter (in_cells cells tx.clock) db.subscriptions)))

-- `SearchSubscriptionsByOwner`
unfoldable pub search_subscriptions_by_owner :
    Tx → CellUnion → String → Action Db Fault (List Subscription)
search_subscriptions_by_owner tx [] owner = fail (coded Code.bad_request)
search_subscriptions_by_owner tx cells owner = gets (λ db. map subscription_of (
    take max_result_limit
      (filter (λ r. in_cells cells tx.clock r && str_eq r.owner owner) db.subscriptions)))

-- `ListExpiredSubscriptions`
unfoldable pub list_expired_subscriptions : Tx → String → Action Db Fault (List Subscription)
list_expired_subscriptions tx writer = gets (λ db. map subscription_of (
    filter (λ r. has_expired tx.timestamp r.ends_at && written_by writer r.writer)
      db.subscriptions))
