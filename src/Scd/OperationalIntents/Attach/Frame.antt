-- ===== src/Scd/OperationalIntents/Attach/Frame.antt =====
-- What choosing the subscription does: which one is attached, and what it leaves alone.
use inter_uss_platform.Base.{String, Option, none, some}
use inter_uss_platform.Base.Action.Leaves.{Leaves, leaves_rules}
use inter_uss_platform.Models.Platform.{Platform}
use inter_uss_platform.Scd.Models.OperationalIntents.{OperationalIntent}
use inter_uss_platform.Scd.Models.Subscriptions.{Subscription}
use inter_uss_platform.Scd.Store.{Db, Tx}
use inter_uss_platform.Scd.Store.Frame.{others, reads, upsert_subscription-Leaves}
use inter_uss_platform.Scd.OperationalIntents.Params.{ValidOirParams}
use inter_uss_platform.Scd.OperationalIntents.Attach.{
  subscription_is_implicit_and_only_attached_to_oir, create_and_store_new_implicit_subscription,
  ensure_subscription_covers_oir, get_previous_subscription, previous_subscription_by_id,
  remove_previous_implicit_subscription, existing, named_subscription, attach_subscription,
}

module _ (env : Platform) where
  ruleset attach_rules = (reads, upsert_subscription-Leaves)

  create-Leaves :
      (tx : Tx) (manager : String) (p : ValidOirParams)
      → Leaves others (create_and_store_new_implicit_subscription env tx manager p)
  unfolding create_and_store_new_implicit_subscription
  create-Leaves tx manager p = search attach_rules

  ensure-Leaves :
      (tx : Tx) (sub : Subscription) (p : ValidOirParams)
      → Leaves others (ensure_subscription_covers_oir env tx sub p)
  unfolding ensure_subscription_covers_oir
  ensure-Leaves tx sub p = search attach_rules depth 12

  existing-Leaves : (o : Option Subscription) → Leaves others (existing env o)
  unfolding existing
  existing-Leaves none = search leaves_rules
  existing-Leaves (some s) = search leaves_rules

  named-Leaves :
      (p : ValidOirParams) (o : Option Subscription) → Leaves others (named_subscription env p o)
  unfolding named_subscription
  named-Leaves p none = search (attach_rules, existing-Leaves)
  named-Leaves p (some s) = search (attach_rules, existing-Leaves)

  pub attach-Leaves :
      (tx : Tx) (manager : String) (p : ValidOirParams) (previous : Option Subscription)
      → Leaves others (attach_subscription env tx manager p previous)
  unfolding attach_subscription
  attach-Leaves tx manager p previous =
      search (attach_rules, create-Leaves, named-Leaves, ensure-Leaves) depth 10

  by_id-Leaves :
      {T : Type 0} {part : Db → T} (id : Option String)
      → Leaves part (previous_subscription_by_id env id)
  unfolding previous_subscription_by_id
  by_id-Leaves none = search reads
  by_id-Leaves (some id) = search reads

  pub previous-Leaves :
      {T : Type 0} {part : Db → T} (old : Option OperationalIntent)
      → Leaves part (get_previous_subscription env old)
  unfolding get_previous_subscription
  previous-Leaves none = search reads
  previous-Leaves (some old) = by_id-Leaves old.subscription_id

  pub only_attached-Leaves :
      {T : Type 0} {part : Db → T} (id : String) (s : Option Subscription)
      → Leaves part (subscription_is_implicit_and_only_attached_to_oir env id s)
  unfolding subscription_is_implicit_and_only_attached_to_oir
  only_attached-Leaves id none = search reads
  only_attached-Leaves id (some s) = search reads

  pub removal-Leaves :
      {T : Type 0} {part : Db → T} (p : ValidOirParams) (s : Option Subscription)
      → Leaves part (remove_previous_implicit_subscription env p s)
  unfolding remove_previous_implicit_subscription
  removal-Leaves p s = search (reads, only_attached-Leaves)
