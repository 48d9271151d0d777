-- ===== src/Scd/OperationalIntents/Notify/Frame.antt =====
-- Notifying leaves the other tables alone.
use inter_uss_platform.Base.Action.Leaves.{Leaves}
use inter_uss_platform.Models.Platform.{Platform}
use inter_uss_platform.Models.Volumes.{Volume4D}
use inter_uss_platform.Scd.Store.{Tx}
use inter_uss_platform.Scd.Store.Frame.{others, reads, increment-Leaves}
use inter_uss_platform.Scd.OperationalIntents.Notify.{
  increment_indices, get_relevant_subscriptions_and_increment_indices,
}

module _ (env : Platform) where
  pub notify-Leaves :
      (tx : Tx) (v : Volume4D)
      → Leaves others (get_relevant_subscriptions_and_increment_indices env tx v)
  unfolding get_relevant_subscriptions_and_increment_indices increment_indices
  notify-Leaves tx v = search (reads, increment-Leaves)
