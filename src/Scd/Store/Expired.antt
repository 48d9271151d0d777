-- ===== src/Scd/Store/Expired.antt =====
-- The listings of expired rows of pkg/scd/store/cockroach, for the eviction.
use inter_uss_platform.Base.{Bool, Option, none, some, List, map, filter, take, leb}
use inter_uss_platform.Base.Action.{Action, gets}
use inter_uss_platform.Errors.{Fault}
use inter_uss_platform.Models.Times.{Time}
use inter_uss_platform.Models.Platform.{Platform}
use inter_uss_platform.Scd.Models.OperationalIntents.{OperationalIntent}
use inter_uss_platform.Scd.Models.Subscriptions.{Subscription}
use inter_uss_platform.Scd.Store.{Db, max_result_limit}
use inter_uss_platform.Scd.Store.Subscriptions.{subscription_of}
use inter_uss_platform.Scd.Store.OperationalIntents.{operational_intent_of}

-- `ends_at IS NOT NULL AND ends_at <= $1 OR ends_at IS NULL AND updated_at <= $1`
unfoldable pub has_expired : Time → Option Time → Time → Bool
has_expired threshold none updated_at = leb updated_at threshold
has_expired threshold (some end) updated_at = leb end threshold

module _ (env : Platform) (threshold : Time) where
  -- `ListExpiredSubscriptions`
  unfoldable pub list_expired_subscriptions : Action Db Fault (List Subscription)
  list_expired_subscriptions = gets (λ db. map (subscription_of env) (
      take max_result_limit
        (filter (λ r. has_expired threshold r.ends_at r.updated_at) db.subscriptions)))

  -- `ListExpiredOperationalIntents`
  unfoldable pub list_expired_operational_intents : Action Db Fault (List OperationalIntent)
  list_expired_operational_intents = gets (λ db. map (operational_intent_of env db.availabilities) (
      take max_result_limit
        (filter (λ r. has_expired threshold r.ends_at r.updated_at) db.operations)))
