-- ===== src/Scd/OperationalIntents/Upsert.antt =====
-- `upsertOperationalIntentReference` and the two handlers that call it.
pub mod Run
pub mod Fencing
pub mod Refused
pub mod Effects
pub mod Row
pub mod Keys
use inter_uss_platform.Base.{
  ℕ, ◌+◌, ◌%◌, String, Bool, true, false, Option, none, some, List, [], ◌∷◌, ◌++◌, if◌then◌else◌,
}
use inter_uss_platform.Base.Action.{
  Result, ok, err, Action, pure, fail, lift, transact, ◌>>=◌, ◌>>◌,
}
use inter_uss_platform.Api.{
  PutOperationalIntentReferenceParameters, ChangeOperationalIntentReferenceResponse,
}
use inter_uss_platform.Errors.{Code, Fault, coded, with_code, deref}
use inter_uss_platform.Models.Times.{Time}
use inter_uss_platform.Models.Platform.{Platform}
use inter_uss_platform.Scd.Models.OperationalIntents.{
  OperationalIntent, state_requires_key, to_rest,
}
use inter_uss_platform.Scd.Models.Subscriptions.{Subscription}
use inter_uss_platform.Scd.Store.{Db, Tx}
use inter_uss_platform.Scd.Store.Subscriptions.{delete_subscription, lock_subscriptions_on_cells}
use inter_uss_platform.Scd.Store.OperationalIntents.{
  get_operational_intent, upsert_operational_intent,
}
use inter_uss_platform.Scd.Server.{
  Reply, failure, AuthorizationResult, set_auth_error, make_subscribers_to_notify, reply,
}
use inter_uss_platform.Scd.OperationalIntents.Params.{
  ValidOirParams, to_oir, validate_and_return_upsert_params,
  check_upsert_permissions_and_return_manager, validate_upsert_request_against_previous_oir,
}
use inter_uss_platform.Scd.OperationalIntents.Attach.{
  get_previous_subscription, remove_previous_implicit_subscription, attach_subscription,
}
use inter_uss_platform.Scd.OperationalIntents.Key.{validate_key_and_provide_conflict_response}
use inter_uss_platform.Scd.OperationalIntents.Notify.{
  compute_notification_volume, get_relevant_subscriptions_and_increment_indices,
}

-- `old.Version + 1` on an `int32`
unfoldable pub next_version : Option OperationalIntent → ℕ
next_version none = 1
next_version (some old) = (old.version + 1) % 4294967296

unfoldable pub next_past_ovns : Option OperationalIntent → String → List String
next_past_ovns none ovn = []
next_past_ovns (some old) ovn = old.past_ovns ++ ovn ∷ []

module _ (env : Platform) (tx : Tx) where
  pub check_key : String → ValidOirParams → Option Subscription → Action Db Fault (Unit {0})
  check_key manager p attached =
      if state_requires_key p.state
      then validate_key_and_provide_conflict_response env manager p attached
      else pure tt

  -- `DeleteSubscription` of the previous subscription, which is there if it is to be removed.
  pub remove_previous : Bool → Option Subscription → Action Db Fault (Unit {0})
  remove_previous true (some previous) = delete_subscription env previous.id
  remove_previous true none = fail Fault.panic
  remove_previous false previous = pure tt

  -- The writes: from the choice of a subscription to the removal of the previous one.
  unfoldable pub store_oir :
      String → ValidOirParams → Option OperationalIntent → Action Db Fault OperationalIntent
  unfolding check_key remove_previous next_version next_past_ovns
  store_oir manager p old = do
    previous ← get_previous_subscription env old
    remove ← remove_previous_implicit_subscription env p previous
    attached ← attach_subscription env tx manager p previous
    check_key manager p attached
    op ← lift (to_oir p manager attached (next_version old) (next_past_ovns old p.ovn))
    stored ← upsert_operational_intent env tx op
    remove_previous remove previous
    pure stored

  -- The action of the transaction.
  unfoldable pub upsert_action :
      String → ValidOirParams → Action Db Fault ChangeOperationalIntentReferenceResponse
  unfolding store_oir
  upsert_action manager p = do
    lock_subscriptions_on_cells p.cells
    old ← get_operational_intent env p.id
    lift (validate_upsert_request_against_previous_oir manager p.ovn old)
    stored ← store_oir manager p old
    volume ← lift (compute_notification_volume env old p.u_extent)
    subs ← get_relevant_subscriptions_and_increment_indices env tx volume
    pure (record {
      operational_intent_reference = to_rest env stored;
      subscribers = make_subscribers_to_notify subs;
    })

  -- `upsertOperationalIntentReference`
  unfoldable pub upsert_operational_intent_reference :
      Time
      → Bool
      → AuthorizationResult
      → String
      → String
      → PutOperationalIntentReferenceParameters
      → Action Db Fault ChangeOperationalIntentReferenceResponse
  unfolding upsert_action
  upsert_operational_intent_reference now allow_http auth entityid ovn params = do
    p ← lift (
        with_code Code.bad_request
          (validate_and_return_upsert_params env now entityid ovn params allow_http))
    manager ← lift (
        with_code Code.permission_denied (check_upsert_permissions_and_return_manager auth p.state))
    transact (upsert_action manager p)

-- The status for the code of a failed upsert; `MissingOVNs` has its own response.
unfoldable pub upsert_status : Code → ℕ
upsert_status Code.permission_denied = 403
upsert_status Code.bad_request = 400
upsert_status Code.not_found = 400
upsert_status Code.version_mismatch = 409
upsert_status Code.missing_ovns = 409
upsert_status _ = 500

-- A request to the API: who calls, whether its body could be read, and the body.
pub record Request (B : Type 0) : Type 0 where
  pub auth : AuthorizationResult
  pub entityid : String
  pub ovn : String
  pub body : Option B

module _ (env : Platform) (tx : Tx) (now : Time) (allow_http : Bool) where
  put_body :
      Request PutOperationalIntentReferenceParameters
      → String
      → Option PutOperationalIntentReferenceParameters
      → Db
      → Reply ChangeOperationalIntentReferenceResponse × Db
  put_body req ovn none db = (failure 400, db)
  put_body req ovn (some params) db =
      let (r, db') =
        upsert_operational_intent_reference env tx now allow_http req.auth req.entityid ovn params
          db in
      (reply upsert_status r, db')

  authorized_put :
      Request PutOperationalIntentReferenceParameters
      → String
      → Option Code
      → Db
      → Reply ChangeOperationalIntentReferenceResponse × Db
  unfolding put_body
  authorized_put req ovn (some code) db = (failure (set_auth_error code), db)
  authorized_put req ovn none db = put_body req ovn req.body db

  -- `CreateOperationalIntentReference`
  unfoldable pub create_operational_intent_reference :
      Request PutOperationalIntentReferenceParameters
      → Db
      → Reply ChangeOperationalIntentReferenceResponse × Db
  unfolding authorized_put
  create_operational_intent_reference req = authorized_put req "" req.auth.error

  -- `UpdateOperationalIntentReference`
  unfoldable pub update_operational_intent_reference :
      Request PutOperationalIntentReferenceParameters
      → Db
      → Reply ChangeOperationalIntentReferenceResponse × Db
  unfolding authorized_put
  update_operational_intent_reference req = authorized_put req req.ovn req.auth.error
