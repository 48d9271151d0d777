-- ===== src/Rid/Garbage.antt =====
-- pkg/rid/store/cockroach/garbage_collector.go. The statements run one by one, outside a transaction.
pub mod Stops
use inter_uss_platform.Base.{
  ℕ, ◌≡◌, ◌≤◌, ◌+◌, refl, sym, ap, ◌∙◌, inl, inr, String, Bool, true, false, ◌&&◌, Option, none,
  some, List, [], ◌∷◌, map, filter, length, take, Mem, arith,
}
use inter_uss_platform.Base.Action.{Result, ok, err, Action, pure, ◌>>=◌, ◌>>◌}
use inter_uss_platform.Errors.{Fault}
use inter_uss_platform.Rid.Models.{IdentificationServiceArea, Subscription}
use inter_uss_platform.Rid.Store.{Db, Tx}
use inter_uss_platform.Rid.Store.Areas.{delete_isa, list_expired_isas}
use inter_uss_platform.Rid.Store.Subscriptions.{delete_subscription, list_expired_subscriptions}

-- The rest of a loop, which goes on only where nothing was deleted.
go_on_unless : {A : Type 0} → Option A → Action Db Fault (Unit {0}) → Action Db Fault (Unit {0})
go_on_unless (some deleted) rest = pure tt
go_on_unless none rest = rest

-- The loop of `DeleteExpiredISAs`. Where a row was deleted it returns `Propagate(err, …)`, which is nil
-- as `err` is.
unfoldable pub delete_isas : List IdentificationServiceArea → Action Db Fault (Unit {0})
unfolding go_on_unless
delete_isas [] = pure tt
delete_isas (isa ∷ isas) = do deleted ← delete_isa isa; go_on_unless deleted (delete_isas isas)

-- The loop of `DeleteExpiredSubscriptions`, which is the same.
unfoldable pub delete_subscriptions : List Subscription → Action Db Fault (Unit {0})
unfolding go_on_unless
delete_subscriptions [] = pure tt
delete_subscriptions (s ∷ subs) = do
  deleted ← delete_subscription s
  go_on_unless deleted (delete_subscriptions subs)

module _ (tx : Tx) (writer : String) where
  -- `DeleteExpiredISAs`
  unfoldable pub delete_expired_isas : Action Db Fault (Unit {0})
  delete_expired_isas = do expired ← list_expired_isas tx writer; delete_isas expired

  -- `DeleteExpiredSubscriptions`
  unfoldable pub delete_expired_subscriptions : Action Db Fault (Unit {0})
  delete_expired_subscriptions = do
    expired ← list_expired_subscriptions tx writer
    delete_subscriptions expired

  -- `DeleteRIDExpiredRecords`
  unfoldable pub delete_rid_expired_records : Action Db Fault (Unit {0})
  delete_rid_expired_records = delete_expired_isas >> delete_expired_subscriptions
