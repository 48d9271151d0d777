-- ===== src/Scd/OperationalIntents/Notify.antt =====
-- The subscriptions to notify: `computeNotificationVolume`, `IncrementNotificationIndices` of
-- pkg/scd/repos/repos.go, and `getRelevantSubscriptionsAndIncrementIndices`.
pub mod Frame
pub mod Increments
use inter_uss_platform.Base.{ℕ, String, Option, none, some, List, [], ◌∷◌, map, filter}
use inter_uss_platform.Base.Action.{Result, ok, err, Action, pure, ◌>>=◌, ◌>>◌}
use inter_uss_platform.Errors.{Fault}
use inter_uss_platform.Models.Platform.{Platform}
use inter_uss_platform.Models.Volumes.{Volume4D, geometry_func}
use inter_uss_platform.Models.Union.{union_volumes4d}
use inter_uss_platform.Scd.Models.OperationalIntents.{OperationalIntent}
use inter_uss_platform.Scd.Models.Subscriptions.{Subscription}
use inter_uss_platform.Scd.Store.{Db, Tx}
use inter_uss_platform.Scd.Store.Subscriptions.{
  search_subscriptions, increment_notification_indices,
}

-- The volume of an operational intent that is stored.
unfoldable pub volume_of : OperationalIntent → Volume4D
volume_of o = record {
  start_time = o.start_time;
  end_time = o.end_time;
  spatial_volume = some (record {
    altitude_hi = o.altitude_upper;
    altitude_lo = o.altitude_lower;
    footprint = some (geometry_func o.cells);
  });
}

-- `computeNotificationVolume`
unfoldable pub compute_notification_volume :
    Platform → Option OperationalIntent → Volume4D → Result Fault Volume4D
compute_notification_volume env none requested = ok requested
compute_notification_volume env (some previous) requested =
    union_volumes4d env (requested ∷ volume_of previous ∷ [])

-- `subs[i].NotificationIndex = newIndex`
unfoldable pub assign_indices : List Subscription → List ℕ → List Subscription
assign_indices (s ∷ subs) (i ∷ indices) =
    record s { notification_index = i } ∷ assign_indices subs indices
assign_indices subs indices = subs

-- `Subscriptions.IncrementNotificationIndices`
unfoldable pub increment_indices : Tx → List Subscription → Action Db Fault (List Subscription)
increment_indices tx subs = do
  indices ← increment_notification_indices tx (map (λ s. s.id) subs)
  pure (assign_indices subs indices)

-- `getRelevantSubscriptionsAndIncrementIndices`
unfoldable pub get_relevant_subscriptions_and_increment_indices :
    Platform → Tx → Volume4D → Action Db Fault (List Subscription)
get_relevant_subscriptions_and_increment_indices env tx volume = do
  all_subs ← search_subscriptions env volume
  increment_indices tx (filter (λ s. s.notify_for_operational_intents) all_subs)
