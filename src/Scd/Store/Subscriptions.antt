-- ===== src/Scd/Store/Subscriptions.antt =====
-- pkg/scd/store/cockroach/subscriptions.go
use inter_uss_platform.Base.{
  ℕ, ◌+◌, String, Bool, ◌&&◌, ◌||◌, Option, none, List, [], map, any, filter, take, length, nat_eq,
  leb, str_eq, if◌then◌else◌,
}
use inter_uss_platform.Base.Tables.{upsert, delete_where, update_where}
use inter_uss_platform.Base.Action.{ok, err, Action, pure, lift, gets, ◌>>=◌}
use inter_uss_platform.Errors.{Code, Fault, coded}
use inter_uss_platform.Models.Platform.{Platform, CellUnion}
use inter_uss_platform.Models.Volumes.{Volume4D, calculate_spatial_covering}
use inter_uss_platform.Scd.Models.Ovns.{new_ovn_from_time}
use inter_uss_platform.Scd.Models.Subscriptions.{Subscription}
use inter_uss_platform.Scd.Store.OperationalIntents.{depends_on}
use inter_uss_platform.Scd.Store.{
  SubscriptionRow, Db, Tx, max_result_limit, max_int4, overlap, no_later, in_order, at_most_one,
}

abbrev pub has_id : String → SubscriptionRow → Bool
has_id id r = str_eq r.id id

unfoldable pub row_of : Tx → Subscription → SubscriptionRow
row_of tx s = record {
  id = s.id;
  owner = s.manager;
  url = s.uss_base_url;
  notification_index = s.notification_index;
  notify_for_operations = s.notify_for_operational_intents;
  notify_for_constraints = s.notify_for_constraints;
  implicit = s.implicit_subscription;
  starts_at = s.start_time;
  ends_at = s.end_time;
  cells = s.cells;
  updated_at = tx.timestamp;
}

-- The condition of the search.
unfoldable pub in_volume : CellUnion → Volume4D → SubscriptionRow → Bool
unfolding overlap no_later
in_volume cells v4d r =
    overlap r.cells cells && no_later r.starts_at v4d.end_time && no_later v4d.start_time r.ends_at

module _ (env : Platform) where
  -- One row as `fetchSubscriptions` reads it.
  unfoldable pub subscription_of : SubscriptionRow → Subscription
  subscription_of r = record {
    id = r.id;
    version = new_ovn_from_time env r.updated_at r.id;
    notification_index = r.notification_index;
    manager = r.owner;
    start_time = r.starts_at;
    end_time = r.ends_at;
    altitude_hi = none;
    altitude_lo = none;
    uss_base_url = r.url;
    notify_for_operational_intents = r.notify_for_operations;
    notify_for_constraints = r.notify_for_constraints;
    implicit_subscription = r.implicit;
    cells = r.cells;
  }

  -- `GetSubscription`
  unfoldable pub get_subscription : String → Action Db Fault (Option Subscription)
  unfolding at_most_one
  get_subscription id db =
      (at_most_one (map subscription_of (filter (has_id id) db.subscriptions)), db)

  -- `UpsertSubscription`, with the two checks of the table.
  unfoldable pub upsert_subscription : Tx → Subscription → Action Db Fault Subscription
  upsert_subscription tx s db =
      if in_order s.start_time s.end_time
        && (s.notify_for_operational_intents || s.notify_for_constraints)
      then (
        ok (subscription_of (row_of tx s)),
        record db { subscriptions = upsert (has_id s.id) (row_of tx s) db.subscriptions },
      )
      else (err (coded Code.no_code), db)

  -- `DeleteSubscription`. The foreign key of `scd_operations` is `ON DELETE CASCADE`.
  unfoldable pub delete_subscription : String → Action Db Fault (Unit {0})
  delete_subscription id db =
      if any (has_id id) db.subscriptions
      then (
        ok tt,
        record db {
          subscriptions = delete_where (has_id id) db.subscriptions;
          operations = delete_where (depends_on id) db.operations;
        },
      )
      else (err (coded Code.no_code), db)

  unfoldable pub search_rows : Volume4D → CellUnion → Action Db Fault (List Subscription)
  search_rows v4d [] = pure []
  search_rows v4d cells = gets (λ db.
      map subscription_of (take max_result_limit (filter (in_volume cells v4d) db.subscriptions)))

  -- `SearchSubscriptions`
  unfoldable pub search_subscriptions : Volume4D → Action Db Fault (List Subscription)
  unfolding search_rows
  search_subscriptions v4d = do
    cells ← lift (calculate_spatial_covering env v4d)
    search_rows v4d cells

-- `id = ANY($1)`
unfoldable pub is_listed : List String → SubscriptionRow → Bool
is_listed ids r = any (λ i. str_eq r.id i) ids

unfoldable pub increment : SubscriptionRow → SubscriptionRow
increment r = record r { notification_index = r.notification_index + 1 }

overflows : List String → SubscriptionRow → Bool
overflows ids r = is_listed ids r && leb max_int4 r.notification_index

-- The indices that `RETURNING notification_index` yields, in some order.
returned_indices : Tx → List String → List SubscriptionRow → List ℕ
returned_indices tx ids rows =
    tx.returning (map (λ r. (increment r).notification_index) (filter (is_listed ids) rows))

-- `IncrementNotificationIndices`
unfoldable pub increment_notification_indices : Tx → List String → Action Db Fault (List ℕ)
unfolding overflows returned_indices
increment_notification_indices tx ids db =
    if any (overflows ids) db.subscriptions then (err (coded Code.no_code), db) else (
      if nat_eq (length (returned_indices tx ids db.subscriptions)) (length ids)
          then ok (returned_indices tx ids db.subscriptions)
          else err (coded Code.no_code),
      record db { subscriptions = update_where (is_listed ids) increment db.subscriptions },
    )

-- `LockSubscriptionsOnCells`: a `SELECT … FOR UPDATE` whose result is dropped.
unfoldable pub lock_subscriptions_on_cells : CellUnion → Action Db Fault (Unit {0})
lock_subscriptions_on_cells cells = pure tt
