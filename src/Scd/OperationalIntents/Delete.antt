-- ===== src/Scd/OperationalIntents/Delete.antt =====
-- `DeleteOperationalIntentReference`
pub mod Run
pub mod Effects
use inter_uss_platform.Base.{
  ℕ, String, Bool, true, false, not, Option, none, some, str_eq, if◌then◌else◌,
}
use inter_uss_platform.Base.Action.{
  Result, ok, err, Action, pure, fail, fail_if, lift, transact, ◌>>=◌, ◌>>◌,
}
use inter_uss_platform.Api.{ChangeOperationalIntentReferenceResponse}
use inter_uss_platform.Errors.{Code, Fault, coded}
use inter_uss_platform.Models.Platform.{Platform}
use inter_uss_platform.Models.Ids.{id_from_string}
use inter_uss_platform.Scd.Models.OperationalIntents.{OperationalIntent, to_rest}
use inter_uss_platform.Scd.Models.Subscriptions.{Subscription}
use inter_uss_platform.Scd.Store.{Db, Tx}
use inter_uss_platform.Scd.Store.Subscriptions.{
  get_subscription, delete_subscription, lock_subscriptions_on_cells,
}
use inter_uss_platform.Scd.Store.OperationalIntents.{
  get_operational_intent, delete_operational_intent,
}
use inter_uss_platform.Scd.Server.{
  Reply, failure, AuthorizationResult, set_auth_error, make_subscribers_to_notify, reply,
}
use inter_uss_platform.Scd.OperationalIntents.Attach.{
  subscription_is_implicit_and_only_attached_to_oir,
}
use inter_uss_platform.Scd.OperationalIntents.Notify.{
  volume_of, get_relevant_subscriptions_and_increment_indices,
}
use inter_uss_platform.Scd.OperationalIntents.Upsert.{Request}

module _ (env : Platform) (tx : Tx) where
  required_oir : Option OperationalIntent → Action Db Fault OperationalIntent
  required_oir none = fail (coded Code.not_found)
  required_oir (some old) = pure old

  required_subscription : Option Subscription → Action Db Fault (Option Subscription)
  required_subscription none = fail (coded Code.no_code)
  required_subscription (some sub) = pure (some sub)

  supporting_subscription : Option String → Action Db Fault (Option Subscription)
  supporting_subscription none = pure none
  supporting_subscription (some id) = do
    found ← get_subscription env id
    required_subscription found

  pub remove_implicit : Bool → Option Subscription → Action Db Fault (Unit {0})
  remove_implicit true (some previous) = delete_subscription env previous.id
  remove_implicit true none = fail Fault.panic
  remove_implicit false previous = pure tt

  -- The action of the transaction.
  unfoldable pub delete_action :
      String → String → String → Action Db Fault ChangeOperationalIntentReferenceResponse
  unfolding required_oir required_subscription supporting_subscription remove_implicit
  delete_action client id ovn = do
    found ← get_operational_intent env id
    old ← required_oir found
    fail_if (not (str_eq old.manager client)) (coded Code.permission_denied)
    fail_if (not (str_eq old.ovn ovn)) (coded Code.version_mismatch)
    lock_subscriptions_on_cells old.cells
    previous ← supporting_subscription old.subscription_id
    remove ← subscription_is_implicit_and_only_attached_to_oir env id previous
    subs ← get_relevant_subscriptions_and_increment_indices env tx (volume_of old)
    delete_operational_intent env id
    remove_implicit remove previous
    pure (record {
      operational_intent_reference = to_rest env old;
      subscribers = make_subscribers_to_notify subs;
    })

  unfoldable pub delete_status : Code → ℕ
  delete_status Code.permission_denied = 403
  delete_status Code.not_found = 404
  delete_status Code.version_mismatch = 409
  delete_status _ = 500

  delete_for :
      Result Fault String
      → Option String
      → String
      → Db
      → Reply ChangeOperationalIntentReferenceResponse × Db
  delete_for (err e) client ovn db = (failure 400, db)
  delete_for (ok id) none ovn db = (failure 403, db)
  delete_for (ok id) (some client) ovn db =
      if str_eq ovn ""
      then (failure 400, db)
      else let (r, db') = transact (delete_action client id ovn) db in (reply delete_status r, db')

  delete_authorized :
      Request (Unit {0}) → Option Code → Db → Reply ChangeOperationalIntentReferenceResponse × Db
  unfolding delete_for
  delete_authorized req (some code) db = (failure (set_auth_error code), db)
  delete_authorized req none db =
      delete_for (id_from_string env req.entityid) req.auth.client_id req.ovn db

  -- `DeleteOperationalIntentReference`
  unfoldable pub delete_operational_intent_reference :
      Request (Unit {0}) → Db → Reply ChangeOperationalIntentReferenceResponse × Db
  unfolding delete_authorized
  delete_operational_intent_reference req db = delete_authorized req req.auth.error db
