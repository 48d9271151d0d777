-- ===== src/Scd/Subscriptions/Read.antt =====
-- `GetSubscription` and `QuerySubscriptions`
use inter_uss_platform.Base.{
  ℕ, String, not, ◌&&◌, Option, none, some, List, [], ◌∷◌, ◌++◌, str_eq, if◌then◌else◌,
}
use inter_uss_platform.Base.Action.{Result, ok, err, Action, pure, lift, transact, ◌>>=◌, ◌>>◌}
use inter_uss_platform.Api
use inter_uss_platform.Errors.{Code, Fault, deref}
use inter_uss_platform.Models.Times.{Time, before}
use inter_uss_platform.Models.Platform.{Platform}
use inter_uss_platform.Models.Ids.{id_from_string}
use inter_uss_platform.Models.Volumes.{Volume4D, volume4d_from_scd_rest}
use inter_uss_platform.Scd.Models.Subscriptions.{Subscription, to_rest}
use inter_uss_platform.Scd.Store.{Db}
use inter_uss_platform.Scd.Store.Subscriptions.{get_subscription, search_subscriptions}
use inter_uss_platform.Scd.Store.OperationalIntents.{get_dependent_operational_intents}
use inter_uss_platform.Scd.Server.{Reply, failure, set_auth_error, reply}
use inter_uss_platform.Scd.OperationalIntents.Upsert.{Request}
use inter_uss_platform.Scd.Subscriptions.Params.{check_viewable, found}

unfoldable pub get_status : Code → ℕ
get_status Code.permission_denied = 403
get_status Code.bad_request = 400
get_status Code.not_found = 404
get_status _ = 500

unfoldable pub query_status : Code → ℕ
query_status Code.bad_request = 400
query_status Code.permission_denied = 403
query_status Code.area_too_large = 413
query_status _ = 500

module _ (env : Platform) where
  -- The action of the transaction of a get.
  unfoldable pub get_action : String → String → Action Db Fault Api.Subscription
  get_action client id = do
    read ← get_subscription env id
    sub ← lift (found read)
    lift (check_viewable client sub)
    dependents ← get_dependent_operational_intents env id
    pure (to_rest env sub dependents)

  get_for : Result Fault String → Option String → Db → Reply Api.Subscription × Db
  get_for (err e) client db = (failure 400, db)
  get_for (ok id) none db = (failure 403, db)
  get_for (ok id) (some client) db =
      let (r, u) = transact (get_action client id) db in (reply get_status r, u)

  get_authorized : Request (Unit {0}) → Option Code → Db → Reply Api.Subscription × Db
  unfolding get_for
  get_authorized req (some code) db = (failure (set_auth_error code), db)
  get_authorized req none db = get_for (id_from_string env req.entityid) req.auth.client_id db

  -- `GetSubscription`
  unfoldable pub get_subscription_handler : Request (Unit {0}) → Db → Reply Api.Subscription × Db
  unfolding get_authorized
  get_subscription_handler req db = get_authorized req req.auth.error db

  -- A subscription that the query found, as the items of the response it makes.
  unfoldable pub items_of : Time → String → Subscription → Action Db Fault (List Api.Subscription)
  items_of now client sub = do
    end ← lift (deref sub.end_time)
    if not (before end now) && str_eq sub.manager client
        then (do
          dependents ← get_dependent_operational_intents env sub.id
          pure (to_rest env sub dependents ∷ []))
        else pure []

  -- The loop of the query, which skips the subscriptions that have expired and those of others.
  unfoldable pub current_ones :
      Time → String → List Subscription → Action Db Fault (List Api.Subscription)
  unfolding items_of
  current_ones now client [] = pure []
  current_ones now client (sub ∷ subs) = do
    items ← items_of now client sub
    rest ← current_ones now client subs
    pure (items ++ rest)

  -- The action of the transaction of a query.
  unfoldable pub query_action : Time → String → Volume4D → Action Db Fault (List Api.Subscription)
  query_action now client vol4 = do
    subs ← search_subscriptions env vol4
    current_ones now client subs

  query_for : Time → Result Fault Volume4D → Option String → Db → Reply (List Api.Subscription) × Db
  query_for now (err Fault.panic) client db = (Reply.crashed, db)
  query_for now (err e) client db = (failure 400, db)
  query_for now (ok vol4) none db = (failure 403, db)
  query_for now (ok vol4) (some client) db =
      let (r, u) = transact (query_action now client vol4) db in (reply query_status r, u)

  -- The body is the parameter `area_of_interest`, which may be missing.
  query_body :
      Time
      → Request (Option Api.Volume4D)
      → Option (Option Api.Volume4D)
      → Db
      → Reply (List Api.Subscription) × Db
  unfolding query_for
  query_body now req none db = (failure 400, db)
  query_body now req (some none) db = (failure 400, db)
  query_body now req (some (some aoi)) db =
      query_for now (volume4d_from_scd_rest env aoi) req.auth.client_id db

  query_authorized :
      Time → Request (Option Api.Volume4D) → Option Code → Db → Reply (List Api.Subscription) × Db
  unfolding query_body
  query_authorized now req (some code) db = (failure (set_auth_error code), db)
  query_authorized now req none db = query_body now req req.body db

  -- `QuerySubscriptions`; `now` is its `nowMarker`.
  unfoldable pub query_subscriptions :
      Time → Request (Option Api.Volume4D) → Db → Reply (List Api.Subscription) × Db
  unfolding query_authorized
  query_subscriptions now req db = query_authorized now req req.auth.error db
