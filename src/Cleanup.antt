-- ===== src/Cleanup.antt =====
-- cmds/db-manager/cleanup/evict.go: the command that lists and deletes expired entities of strategic
-- conflict detection. Its log is not modelled.
pub mod Kept
use inter_uss_platform.Base.{ℕ, Bool, List, [], ◌∷◌, if◌then◌else◌}
use inter_uss_platform.Base.Action.{Action, pure, transact, ◌>>=◌, ◌>>◌}
use inter_uss_platform.Errors.{Fault}
use inter_uss_platform.Models.Times.{Time}
use inter_uss_platform.Models.Platform.{Platform}
use inter_uss_platform.Scd.Models.OperationalIntents.{OperationalIntent}
use inter_uss_platform.Scd.Models.Subscriptions.{Subscription}
use inter_uss_platform.Scd.Store.{Db}
use inter_uss_platform.Scd.Store.Subscriptions.{delete_subscription}
use inter_uss_platform.Scd.Store.OperationalIntents.{delete_operational_intent}
use inter_uss_platform.Scd.Store.Expired.{
  list_expired_subscriptions, list_expired_operational_intents,
}

-- The flags of the command that say what it does.
pub record Flags : Type 0 where
  pub list_scd_oirs : Bool
  pub list_scd_subs : Bool
  pub delete_expired : Bool

module _ (env : Platform) where
  unfoldable pub delete_operational_intents : List OperationalIntent → Action Db Fault (Unit {0})
  delete_operational_intents [] = pure tt
  delete_operational_intents (o ∷ os) =
      delete_operational_intent env o.id >> delete_operational_intents os

  unfoldable pub delete_subscriptions : List Subscription → Action Db Fault (Unit {0})
  delete_subscriptions [] = pure tt
  delete_subscriptions (s ∷ subs) = delete_subscription env s.id >> delete_subscriptions subs

  -- The part of the action on operational intents, where they are listed.
  unfoldable pub evict_operational_intents : Bool → Time → Action Db Fault (List OperationalIntent)
  evict_operational_intents delete_expired threshold = do
    expired ← list_expired_operational_intents env threshold
    if delete_expired then delete_operational_intents expired else pure tt
    pure expired

  -- The part on subscriptions.
  unfoldable pub evict_subscriptions : Bool → Time → Action Db Fault (List Subscription)
  evict_subscriptions delete_expired threshold = do
    expired ← list_expired_subscriptions env threshold
    if delete_expired then delete_subscriptions expired else pure tt
    pure expired

  -- The action of the transaction.
  unfoldable pub evict_action :
      Flags → Time → Action Db Fault (List OperationalIntent × List Subscription)
  evict_action flags threshold = do
    op_intents ←
        (if flags.list_scd_oirs
          then evict_operational_intents flags.delete_expired threshold
          else pure [])
    subs ←
        (if flags.list_scd_subs
          then evict_subscriptions flags.delete_expired threshold
          else pure [])
    pure (op_intents, subs)

  -- `evict`, from the transaction on.
  unfoldable pub evict : Flags → Time → Action Db Fault (List OperationalIntent × List Subscription)
  evict flags threshold = transact (evict_action flags threshold)
