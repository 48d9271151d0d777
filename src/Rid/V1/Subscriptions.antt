-- ===== src/Rid/V1/Subscriptions.antt =====
-- pkg/rid/server/v1/subscription_handler.go: the reading, creation, update and deletion of
-- subscriptions.
use inter_uss_platform.Base.{ℕ, String, Bool, true, Option, none, some, List, map}
use inter_uss_platform.Base.Action.{Result, ok, err, Action, lift, ◌>>=◌}
use inter_uss_platform.Errors.{Code, Fault, coded, panic}
use inter_uss_platform.Models.Times.{Time}
use inter_uss_platform.Models.Platform.{Platform}
use inter_uss_platform.Models.Ids.{id_from_string}
use inter_uss_platform.Models.Versions.{Version, version_from_string}
use inter_uss_platform.Scd.Server.{Reply, failure, set_auth_error, reply}
use inter_uss_platform.Rid.Api
use inter_uss_platform.Rid.Api.{PutSubscriptionResponse}
use inter_uss_platform.Rid.Models.{IdentificationServiceArea, Subscription}
use inter_uss_platform.Rid.Store.{Db, Tx}
use inter_uss_platform.Rid.Store.Subscriptions.{get_subscription}
use inter_uss_platform.Rid.Application.Areas.{search_isas_from}
use inter_uss_platform.Rid.Application.Subscriptions.{
  insert_subscription_app, update_subscription_app, delete_subscription_app,
}
use inter_uss_platform.Rid.V1.Areas.{get_status, delete_status}
use inter_uss_platform.Rid.V1.Conversions.{to_identification_service_area, to_subscription}
use inter_uss_platform.Rid.V1.Params.{SubscriptionRequest, subscription_of_request}

unfoldable pub create_subscription_status : Code → ℕ
create_subscription_status Code.already_exists = 409
create_subscription_status Code.bad_request = 400
create_subscription_status Code.exhausted = 429
create_subscription_status _ = 500

unfoldable pub update_subscription_status : Code → ℕ
update_subscription_status Code.permission_denied = 403
update_subscription_status Code.version_mismatch = 409
update_subscription_status Code.bad_request = 400
update_subscription_status Code.not_found = 400
update_subscription_status Code.exhausted = 429
update_subscription_status _ = 500

module _ (env : Platform) where
  shown : Option Subscription → Result Fault Api.Subscription
  shown none = err (coded Code.not_found)
  shown (some s) = ok (to_subscription env s)

  -- The reply with a subscription that the application has returned.
  unfoldable pub returned : Option Subscription → Result Fault Api.Subscription
  returned none = err panic
  returned (some s) = ok (to_subscription env s)

  unfoldable pub put_response :
      Option Subscription → List IdentificationServiceArea → Result Fault PutSubscriptionResponse
  put_response none isas = err panic
  put_response (some s) isas = ok (record {
    service_areas = map (to_identification_service_area env) isas;
    subscription = to_subscription env s;
  })

  get_for : Result Fault String → Db → Reply Api.Subscription × Db
  unfolding shown
  get_for (err e) db = (failure 400, db)
  get_for (ok id) db =
      let (r, u) = (get_subscription id >>= λ s. lift (shown s)) db in (reply get_status r, u)

  get_authorized : Option Code → SubscriptionRequest → Db → Reply Api.Subscription × Db
  unfolding get_for
  get_authorized (some code) req db = (failure (set_auth_error code), db)
  get_authorized none req db = get_for (id_from_string env req.id) db

  -- `GetSubscription`
  unfoldable pub get_subscription_handler : SubscriptionRequest → Db → Reply Api.Subscription × Db
  unfolding get_authorized
  get_subscription_handler req db = get_authorized req.auth.error req db

-- The time `now` is when the application changes the subscription, and `afterwards` when it searches
-- the service areas, outside the transaction.
module _ (env : Platform) (tx : Tx) (now afterwards : Time) (locality : String) where
  -- The creation for a client.
  unfoldable pub create_subscription_for :
      Bool → String → SubscriptionRequest → Action Db Fault PutSubscriptionResponse
  create_subscription_for allow_http client req = do
    sub ← lift (subscription_of_request env allow_http locality client none req)
    inserted ← insert_subscription_app env tx now sub
    isas ← search_isas_from afterwards sub.cells none none
    lift (put_response env inserted isas)

  create_client :
      Bool → Option String → SubscriptionRequest → Db → Reply PutSubscriptionResponse × Db
  create_client allow_http none req db = (failure 403, db)
  create_client allow_http (some client) req db =
      let (r, u) = create_subscription_for allow_http client req db in
      (reply create_subscription_status r, u)

  create_authorized :
      Bool → Option Code → SubscriptionRequest → Db → Reply PutSubscriptionResponse × Db
  unfolding create_client
  create_authorized allow_http (some code) req db = (failure (set_auth_error code), db)
  create_authorized allow_http none req db = create_client allow_http req.auth.client_id req db

  -- `CreateSubscription`
  unfoldable pub create_subscription_handler :
      Bool → SubscriptionRequest → Db → Reply PutSubscriptionResponse × Db
  unfolding create_authorized
  create_subscription_handler allow_http req db = create_authorized allow_http req.auth.error req db

  -- The update for a client with a version.
  unfoldable pub update_subscription_for :
      String → Version → SubscriptionRequest → Action Db Fault PutSubscriptionResponse
  update_subscription_for client version req = do
    sub ← lift (subscription_of_request env true locality client (some version) req)
    updated ← update_subscription_app env tx now sub
    isas ← search_isas_from afterwards sub.cells none none
    lift (put_response env updated isas)

  update_client :
      Result Fault Version
      → Result Fault String
      → Option String
      → SubscriptionRequest
      → Db
      → Reply PutSubscriptionResponse × Db
  update_client (err e) id client req db = (failure 400, db)
  update_client (ok version) (err e) client req db = (failure 400, db)
  update_client (ok version) (ok id) none req db = (failure 403, db)
  update_client (ok version) (ok id) (some client) req db =
      let (r, u) = update_subscription_for client version req db in
      (reply update_subscription_status r, u)

  update_authorized : Option Code → SubscriptionRequest → Db → Reply PutSubscriptionResponse × Db
  unfolding update_client
  update_authorized (some code) req db = (failure (set_auth_error code), db)
  update_authorized none req db =
      update_client (version_from_string req.version) (id_from_string env req.id) req.auth.client_id
        req db

  -- `UpdateSubscription`
  unfoldable pub update_subscription_handler :
      SubscriptionRequest → Db → Reply PutSubscriptionResponse × Db
  unfolding update_authorized
  update_subscription_handler req db = update_authorized req.auth.error req db

module _ (env : Platform) (tx : Tx) where
  -- The deletion for a client, of an identifier with a version.
  unfoldable pub delete_subscription_for :
      String → Version → String → Action Db Fault Api.Subscription
  delete_subscription_for client version id = do
    deleted ← delete_subscription_app env tx id client (some version)
    lift (returned env deleted)

  delete_parsed :
      String → Result Fault Version → Result Fault String → Db → Reply Api.Subscription × Db
  delete_parsed client (err e) id db = (failure 400, db)
  delete_parsed client (ok version) (err e) db = (failure 400, db)
  delete_parsed client (ok version) (ok id) db =
      let (r, u) = delete_subscription_for client version id db in (reply delete_status r, u)

  delete_client : Option String → SubscriptionRequest → Db → Reply Api.Subscription × Db
  unfolding delete_parsed
  delete_client none req db = (failure 403, db)
  delete_client (some client) req db =
      delete_parsed client (version_from_string req.version) (id_from_string env req.id) db

  delete_authorized : Option Code → SubscriptionRequest → Db → Reply Api.Subscription × Db
  unfolding delete_client
  delete_authorized (some code) req db = (failure (set_auth_error code), db)
  delete_authorized none req db = delete_client req.auth.client_id req db

  -- `DeleteSubscription`
  unfoldable pub delete_subscription_handler :
      SubscriptionRequest → Db → Reply Api.Subscription × Db
  unfolding delete_authorized
  delete_subscription_handler req db = delete_authorized req.auth.error req db
