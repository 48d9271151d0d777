-- ===== src/Scd/Subscriptions/Delete.antt =====
-- `DeleteSubscription`
use inter_uss_platform.Base.{ℕ, String, Option, none, some, List, [], ◌∷◌, str_eq, if◌then◌else◌}
use inter_uss_platform.Base.Action.{Result, ok, err, Action, pure, lift, transact, ◌>>=◌, ◌>>◌}
use inter_uss_platform.Api
use inter_uss_platform.Errors.{Code, Fault, coded}
use inter_uss_platform.Models.Platform.{Platform}
use inter_uss_platform.Models.Ids.{id_from_string}
use inter_uss_platform.Scd.Models.Subscriptions.{to_rest}
use inter_uss_platform.Scd.Store.{Db}
use inter_uss_platform.Scd.Store.Subscriptions.{get_subscription, delete_subscription}
use inter_uss_platform.Scd.Store.OperationalIntents.{get_dependent_operational_intents}
use inter_uss_platform.Scd.Server.{Reply, failure, set_auth_error, reply}
use inter_uss_platform.Scd.OperationalIntents.Upsert.{Request}
use inter_uss_platform.Scd.Subscriptions.Params.{check_deletable, found}

unfoldable pub no_dependents : List String → Result Fault (Unit {0})
no_dependents [] = ok tt
no_dependents (id ∷ ids) = err (coded Code.bad_request)

unfoldable pub delete_subscription_status : Code → ℕ
delete_subscription_status Code.permission_denied = 403
delete_subscription_status Code.bad_request = 400
delete_subscription_status Code.not_found = 404
delete_subscription_status Code.version_mismatch = 409
delete_subscription_status _ = 500

module _ (env : Platform) where
  -- The action of the transaction.
  unfoldable pub delete_subscription_action :
      String → String → String → Action Db Fault Api.Subscription
  delete_subscription_action client id version = do
    sub ← get_subscription env id
    old ← lift (found sub)
    lift (check_deletable client version old)
    dependents ← get_dependent_operational_intents env id
    lift (no_dependents dependents)
    delete_subscription env id
    pure (to_rest env old dependents)

  delete_client : String → String → Option String → Db → Reply Api.Subscription × Db
  delete_client id version none db = (failure 403, db)
  delete_client id version (some client) db =
      let (r, u) = transact (delete_subscription_action client id version) db in
      (reply delete_subscription_status r, u)

  delete_id : Result Fault String → String → Option String → Db → Reply Api.Subscription × Db
  unfolding delete_client
  delete_id (err e) version client db = (failure 400, db)
  delete_id (ok id) version client db =
      if str_eq version "" then (failure 400, db) else delete_client id version client db

  delete_authorized : Request (Unit {0}) → Option Code → Db → Reply Api.Subscription × Db
  unfolding delete_id
  delete_authorized req (some code) db = (failure (set_auth_error code), db)
  delete_authorized req none db =
      delete_id (id_from_string env req.entityid) req.ovn req.auth.client_id db

  -- `DeleteSubscription`; the field `ovn` of the request is the version it gives.
  unfoldable pub delete_subscription_handler : Request (Unit {0}) → Db → Reply Api.Subscription × Db
  unfolding delete_authorized
  delete_subscription_handler req db = delete_authorized req req.auth.error db
