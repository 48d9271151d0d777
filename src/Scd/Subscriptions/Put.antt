-- ===== src/Scd/Subscriptions/Put.antt =====
-- `PutSubscription` and the two handlers that call it.
use inter_uss_platform.Base.{ℕ, String, Bool, Option, none, some, List, [], ◌∷◌, map, if◌then◌else◌}
use inter_uss_platform.Base.Action.{Action, pure, lift, transact, ◌>>=◌, ◌>>◌}
use inter_uss_platform.Api.{
  OperationalIntentReference, ConstraintReference, PutSubscriptionParameters,
  PutSubscriptionResponse,
}
use inter_uss_platform.Errors.{Code, Fault}
use inter_uss_platform.Models.Times.{Time}
use inter_uss_platform.Models.Platform.{Platform, CellUnion}
use inter_uss_platform.Models.Volumes.{Volume4D, geometry_func}
use inter_uss_platform.Scd.Models.OperationalIntents.{OperationalIntent}
use inter_uss_platform.Scd.Models.OperationalIntents
use inter_uss_platform.Scd.Models.Subscriptions.{
  Subscription, to_rest, adjust_time_range, validate_dependent_ops,
}
use inter_uss_platform.Scd.Store.{Db, Tx}
use inter_uss_platform.Scd.Store.Subscriptions.{get_subscription, upsert_subscription}
use inter_uss_platform.Scd.Store.OperationalIntents.{
  get_operational_intent, search_operational_intents, get_dependent_operational_intents,
}
use inter_uss_platform.Scd.Store.Constraints.{search_constraints}
use inter_uss_platform.Scd.Server.{Reply, failure, set_auth_error, reply}
use inter_uss_platform.Scd.OperationalIntents.Key.{scrubbed_constraint}
use inter_uss_platform.Scd.OperationalIntents.Read.{hide_ovn}
use inter_uss_platform.Scd.OperationalIntents.Upsert.{Request}
use inter_uss_platform.Scd.Subscriptions.Params.{
  ValidSubscriptionParams, validate_put_params, check_previous,
}

-- The volume of a subscription that is stored.
unfoldable pub volume_of : Subscription → Volume4D
volume_of sub = record {
  start_time = sub.start_time;
  end_time = sub.end_time;
  spatial_volume = some (record {
    altitude_hi = sub.altitude_hi;
    altitude_lo = sub.altitude_lo;
    footprint = some (geometry_func sub.cells);
  });
}

module _ (env : Platform) where
  -- `GetOperations`
  unfoldable pub get_operations : List String → Action Db Fault (List (Option OperationalIntent))
  get_operations [] = pure []
  get_operations (id ∷ ids) = do
    operation ← get_operational_intent env id
    rest ← get_operations ids
    pure (operation ∷ rest)

  -- The dependents of the subscription that is there, which the new one has to cover.
  unfoldable pub check_dependents :
      Subscription → Option Subscription → Action Db Fault (List String)
  check_dependents subreq none = pure []
  check_dependents subreq (some old) = do
    dependents ← get_dependent_operational_intents env subreq.id
    operations ← get_operations dependents
    lift (validate_dependent_ops env subreq operations)
    pure dependents

  -- `subreq.NotificationIndex = old.NotificationIndex`
  unfoldable pub keep_index : Option Subscription → Subscription → Subscription
  keep_index none subreq = subreq
  keep_index (some old) subreq = record subreq { notification_index = old.notification_index }

  unfoldable pub search_on_cells :
      Subscription → CellUnion → Action Db Fault (List OperationalIntent)
  search_on_cells sub [] = pure []
  search_on_cells sub (c ∷ cells) = search_operational_intents env (volume_of sub)

  -- The operational intents in the volume of the subscription, if it has a cell.
  unfoldable pub relevant_operations : Subscription → Action Db Fault (List OperationalIntent)
  unfolding search_on_cells
  relevant_operations sub = search_on_cells sub sub.cells

  unfoldable pub operation_refs :
      String → Subscription → List OperationalIntent → Option (List OperationalIntentReference)
  operation_refs manager sub ops =
      if sub.notify_for_operational_intents
      then some (map (λ o. OperationalIntents.to_rest env (hide_ovn manager o)) ops)
      else none

  unfoldable pub constraint_refs :
      String → Volume4D → Subscription → Action Db Fault (Option (List ConstraintReference))
  constraint_refs manager extents sub =
      if sub.notify_for_constraints
      then (do
        constraints ← search_constraints env extents
        pure (some (map (scrubbed_constraint env manager) constraints)))
      else pure none

  -- The action of the transaction.
  unfoldable pub put_action :
      Tx → Time → String → ValidSubscriptionParams → Action Db Fault PutSubscriptionResponse
  put_action tx now manager p = do
    old ← get_subscription env p.subreq.id
    subreq ← lift (adjust_time_range now old p.subreq)
    lift (check_previous subreq old)
    dependents ← check_dependents (keep_index old subreq) old
    sub ← upsert_subscription env tx (keep_index old subreq)
    ops ← relevant_operations sub
    constraints ← constraint_refs manager p.extents sub
    pure (record {
      subscription = to_rest env sub dependents;
      operational_intent_references = operation_refs manager sub ops;
      constraint_references = constraints;
    })

  -- `PutSubscription`
  unfoldable pub put_subscription :
      Tx
      → Time
      → Bool
      → String
      → String
      → String
      → PutSubscriptionParameters
      → Action Db Fault PutSubscriptionResponse
  put_subscription tx now allow_http manager subscriptionid version params = do
    p ← lift (validate_put_params env allow_http manager subscriptionid version params)
    transact (put_action tx now manager p)

-- The status for the code of a failed put.
unfoldable pub put_status : Code → ℕ
put_status Code.permission_denied = 403
put_status Code.already_exists = 409
put_status Code.version_mismatch = 409
put_status Code.bad_request = 400
put_status Code.not_found = 400
put_status _ = 500

module _ (env : Platform) (tx : Tx) (now : Time) (allow_http : Bool) where
  put_client :
      Request PutSubscriptionParameters
      → String
      → PutSubscriptionParameters
      → Option String
      → Db
      → Reply PutSubscriptionResponse × Db
  put_client req version params none db = (failure 403, db)
  put_client req version params (some manager) db =
      let (r, u) = put_subscription env tx now allow_http manager req.entityid version params db in
      (reply put_status r, u)

  put_body :
      Request PutSubscriptionParameters
      → String
      → Option PutSubscriptionParameters
      → Db
      → Reply PutSubscriptionResponse × Db
  unfolding put_client
  put_body req version none db = (failure 400, db)
  put_body req version (some params) db = put_client req version params req.auth.client_id db

  authorized_put :
      Request PutSubscriptionParameters
      → String
      → Option Code
      → Db
      → Reply PutSubscriptionResponse × Db
  unfolding put_body
  authorized_put req version (some code) db = (failure (set_auth_error code), db)
  authorized_put req version none db = put_body req version req.body db

  -- `CreateSubscription`
  unfoldable pub create_subscription :
      Request PutSubscriptionParameters → Db → Reply PutSubscriptionResponse × Db
  unfolding authorized_put
  create_subscription req = authorized_put req "" req.auth.error

  -- `UpdateSubscription`; the field `ovn` of the request is its version.
  unfoldable pub update_subscription :
      Request PutSubscriptionParameters → Db → Reply PutSubscriptionResponse × Db
  unfolding authorized_put
  update_subscription req = authorized_put req req.ovn req.auth.error
