-- ===== src/Rid/Application/Subscriptions.antt =====
-- pkg/rid/application/subscription.go
use inter_uss_platform.Base.{ℕ, String, not, Option, none, some, leb, str_eq, is_some}
use inter_uss_platform.Base.Action.{Result, ok, err, Action, fail_if, lift, transact, ◌>>=◌, ◌>>◌}
use inter_uss_platform.Errors.{Code, Fault, coded}
use inter_uss_platform.Models.Times.{Time}
use inter_uss_platform.Models.Platform.{Platform}
use inter_uss_platform.Models.Versions.{Version, matches}
use inter_uss_platform.Rid.Models.{Subscription, adjust_subscription_time_range}
use inter_uss_platform.Rid.Store.{Db, Tx}
use inter_uss_platform.Rid.Store.Subscriptions.{
  get_subscription, insert_subscription, update_subscription, delete_subscription,
  max_subscription_count_in_cells_by_owner,
}

-- `maxSubscriptionsPerArea`
abbrev pub max_subscriptions_per_area : ℕ
max_subscriptions_per_area = 10

-- The subscription that has to be there.
unfoldable pub found : Option Subscription → Result Fault Subscription
found none = err (coded Code.not_found)
found (some s) = ok s

-- The checks of an update and of a deletion, in their order.
unfoldable pub check_changeable :
    Option Version → String → Subscription → Action Db Fault (Unit {0})
check_changeable version owner old =
    fail_if (not (matches version old.version)) (coded Code.version_mismatch)
    >> fail_if (not (str_eq old.owner owner)) (coded Code.permission_denied)

module _ (env : Platform) (tx : Tx) where
  -- The check on the number of subscriptions in the area.
  unfoldable pub check_count : Subscription → Action Db Fault (Unit {0})
  check_count s = do
    count ← max_subscription_count_in_cells_by_owner tx s.cells s.owner
    fail_if (leb max_subscriptions_per_area count) (coded Code.exhausted)

  -- The action of the transaction of `InsertSubscription`, with the time range adjusted.
  unfoldable pub insert_subscription_action : Subscription → Action Db Fault (Option Subscription)
  insert_subscription_action s = do
    old ← get_subscription s.id
    fail_if (is_some old) (coded Code.already_exists)
    check_count s
    insert_subscription env tx s

  -- `InsertSubscription`
  unfoldable pub insert_subscription_app :
      Time → Subscription → Action Db Fault (Option Subscription)
  insert_subscription_app now s = do
    adjusted ← lift (adjust_subscription_time_range now none s)
    transact (insert_subscription_action adjusted)

  -- The action of the transaction of `UpdateSubscription`.
  unfoldable pub update_subscription_action :
      Time → Subscription → Action Db Fault (Option Subscription)
  update_subscription_action now s = do
    read ← get_subscription s.id
    old ← lift (found read)
    check_changeable s.version s.owner old
    adjusted ← lift (adjust_subscription_time_range now (some old) s)
    check_count adjusted
    update_subscription env tx adjusted

  -- `UpdateSubscription`
  unfoldable pub update_subscription_app :
      Time → Subscription → Action Db Fault (Option Subscription)
  update_subscription_app now s = transact (update_subscription_action now s)

  -- The action of the transaction of `DeleteSubscription`.
  unfoldable pub delete_subscription_action :
      String → String → Option Version → Action Db Fault (Option Subscription)
  delete_subscription_action id owner version = do
    read ← get_subscription id
    old ← lift (found read)
    check_changeable version owner old
    delete_subscription old

  -- `DeleteSubscription`
  unfoldable pub delete_subscription_app :
      String → String → Option Version → Action Db Fault (Option Subscription)
  delete_subscription_app id owner version = transact (delete_subscription_action id owner version)
