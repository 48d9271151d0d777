-- ===== src/Scd/Constraints/Delete.antt =====
-- `DeleteConstraintReference`
use inter_uss_platform.Base.{ℕ, String, Option, none, some, str_eq, if◌then◌else◌}
use inter_uss_platform.Base.Action.{Result, ok, err, Action, pure, lift, transact, ◌>>=◌, ◌>>◌}
use inter_uss_platform.Api.{ChangeConstraintReferenceResponse}
use inter_uss_platform.Errors.{Code, Fault}
use inter_uss_platform.Models.Platform.{Platform}
use inter_uss_platform.Models.Ids.{id_from_string}
use inter_uss_platform.Scd.Models.Constraints.{Constraint, to_rest}
use inter_uss_platform.Scd.Store.{Db, Tx}
use inter_uss_platform.Scd.Store.Subscriptions.{search_subscriptions}
use inter_uss_platform.Scd.Store.Constraints.{get_constraint, delete_constraint}
use inter_uss_platform.Scd.Server.{
  Reply, failure, set_auth_error, make_subscribers_to_notify, reply,
}
use inter_uss_platform.Scd.OperationalIntents.Upsert.{Request}
use inter_uss_platform.Scd.Constraints.Params.{required, check_owned, volume_of}
use inter_uss_platform.Scd.Constraints.Put.{notify_constraint}

module _ (env : Platform) (tx : Tx) where
  -- The constraint to delete.
  unfoldable pub get_required : String → Action Db Fault Constraint
  get_required id db = let (r, u) = get_constraint env id db in (required r, u)

  -- The action of the transaction.
  unfoldable pub delete_constraint_action :
      String → String → String → Action Db Fault ChangeConstraintReferenceResponse
  delete_constraint_action client id ovn = do
    old ← get_required id
    lift (check_owned client ovn old)
    all_subs ← search_subscriptions env (volume_of old)
    delete_constraint env id
    subs ← notify_constraint env tx all_subs
    pure (record {
      constraint_reference = to_rest env old;
      subscribers = make_subscribers_to_notify subs;
    })

  unfoldable pub delete_constraint_status : Code → ℕ
  delete_constraint_status Code.permission_denied = 403
  delete_constraint_status Code.bad_request = 400
  delete_constraint_status Code.not_found = 404
  delete_constraint_status Code.version_mismatch = 409
  delete_constraint_status _ = 500

  delete_for :
      Result Fault String
      → Option String
      → String
      → Db
      → Reply ChangeConstraintReferenceResponse × Db
  delete_for (err e) client ovn db = (failure 400, db)
  delete_for (ok id) none ovn db = (failure 403, db)
  delete_for (ok id) (some client) ovn db =
      if str_eq ovn ""
      then (failure 400, db)
      else let (r, u) = transact (delete_constraint_action client id ovn) db in
        (reply delete_constraint_status r, u)

  delete_authorized :
      Request (Unit {0}) → Option Code → Db → Reply ChangeConstraintReferenceResponse × Db
  unfolding delete_for
  delete_authorized req (some code) db = (failure (set_auth_error code), db)
  delete_authorized req none db =
      delete_for (id_from_string env req.entityid) req.auth.client_id req.ovn db

  -- `DeleteConstraintReference`
  unfoldable pub delete_constraint_reference :
      Request (Unit {0}) → Db → Reply ChangeConstraintReferenceResponse × Db
  unfolding delete_authorized
  delete_constraint_reference req db = delete_authorized req req.auth.error db
