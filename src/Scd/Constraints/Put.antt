-- ===== src/Scd/Constraints/Put.antt =====
-- `PutConstraintReference` and the two handlers that call it.
use inter_uss_platform.Base.{ℕ, String, Bool, Option, none, some, List, filter}
use inter_uss_platform.Base.Action.{Action, pure, lift, transact, ◌>>=◌, ◌>>◌}
use inter_uss_platform.Api.{PutConstraintReferenceParameters, ChangeConstraintReferenceResponse}
use inter_uss_platform.Errors.{Code, Fault}
use inter_uss_platform.Models.Platform.{Platform}
use inter_uss_platform.Scd.Models.Constraints.{Constraint, to_rest}
use inter_uss_platform.Scd.Models.Subscriptions.{Subscription}
use inter_uss_platform.Scd.Store.{Db, Tx}
use inter_uss_platform.Scd.Store.Subscriptions.{search_subscriptions}
use inter_uss_platform.Scd.Store.Constraints.{get_constraint, upsert_constraint}
use inter_uss_platform.Scd.Server.{
  Reply, failure, set_auth_error, make_subscribers_to_notify, reply,
}
use inter_uss_platform.Scd.OperationalIntents.Notify.{increment_indices}
use inter_uss_platform.Scd.OperationalIntents.Upsert.{Request}
use inter_uss_platform.Scd.Constraints.Params.{
  ValidConstraintParams, validate_put_params, optional, check_previous, notification_volume,
  new_constraint,
}

module _ (env : Platform) where
  -- The constraint that is there, if any.
  unfoldable pub get_previous : String → Action Db Fault (Option Constraint)
  get_previous id db = let (r, u) = get_constraint env id db in (optional r, u)

  -- The subscriptions to notify of a constraint, their indices counted up.
  unfoldable pub notify_constraint : Tx → List Subscription → Action Db Fault (List Subscription)
  notify_constraint tx all_subs =
      increment_indices tx (filter (λ s. s.notify_for_constraints) all_subs)

  -- The action of the transaction.
  unfoldable pub put_action :
      Tx → String → ValidConstraintParams → Action Db Fault ChangeConstraintReferenceResponse
  put_action tx manager p = do
    old ← get_previous p.id
    lift (check_previous manager p.ovn old)
    volume ← lift (notification_volume env old p.u_extent)
    new ← lift (new_constraint manager p old)
    stored ← upsert_constraint env tx new
    all_subs ← search_subscriptions env volume
    subs ← notify_constraint tx all_subs
    pure (record {
      constraint_reference = to_rest env stored;
      subscribers = make_subscribers_to_notify subs;
    })

  -- `PutConstraintReference`
  unfoldable pub put_constraint_reference :
      Tx
      → Bool
      → String
      → String
      → String
      → PutConstraintReferenceParameters
      → Action Db Fault ChangeConstraintReferenceResponse
  put_constraint_reference tx allow_http manager entityid ovn params = do
    p ← lift (validate_put_params env allow_http entityid ovn params)
    transact (put_action tx manager p)

-- The status for the code of a failed put.
unfoldable pub put_status : Code → ℕ
put_status Code.permission_denied = 403
put_status Code.version_mismatch = 409
put_status Code.bad_request = 400
put_status _ = 500

module _ (env : Platform) (tx : Tx) (allow_http : Bool) where
  put_client :
      Request PutConstraintReferenceParameters
      → String
      → PutConstraintReferenceParameters
      → Option String
      → Db
      → Reply ChangeConstraintReferenceResponse × Db
  put_client req ovn params none db = (failure 403, db)
  put_client req ovn params (some manager) db =
      let (r, u) = put_constraint_reference env tx allow_http manager req.entityid ovn params db in
      (reply put_status r, u)

  put_body :
      Request PutConstraintReferenceParameters
      → String
      → Option PutConstraintReferenceParameters
      → Db
      → Reply ChangeConstraintReferenceResponse × Db
  unfolding put_client
  put_body req ovn none db = (failure 400, db)
  put_body req ovn (some params) db = put_client req ovn params req.auth.client_id db

  authorized_put :
      Request PutConstraintReferenceParameters
      → String
      → Option Code
      → Db
      → Reply ChangeConstraintReferenceResponse × Db
  unfolding put_body
  authorized_put req ovn (some code) db = (failure (set_auth_error code), db)
  authorized_put req ovn none db = put_body req ovn req.body db

  -- `CreateConstraintReference`
  unfoldable pub create_constraint_reference :
      Request PutConstraintReferenceParameters → Db → Reply ChangeConstraintReferenceResponse × Db
  unfolding authorized_put
  create_constraint_reference req = authorized_put req "" req.auth.error

  -- `UpdateConstraintReference`
  unfoldable pub update_constraint_reference :
      Request PutConstraintReferenceParameters → Db → Reply ChangeConstraintReferenceResponse × Db
  unfolding authorized_put
  update_constraint_reference req = authorized_put req req.ovn req.auth.error
