-- ===== src/Rid/V1/Areas.antt =====
-- pkg/rid/server/v1/isa_handler.go: the reading, creation, update and deletion of service areas.
pub mod Created
use inter_uss_platform.Base.{ℕ, String, Bool, true, Option, none, some, List}
use inter_uss_platform.Base.Action.{Result, ok, err, Action, lift, ◌>>=◌}
use inter_uss_platform.Errors.{Code, Fault, coded, panic}
use inter_uss_platform.Models.Times.{Time}
use inter_uss_platform.Models.Platform.{Platform}
use inter_uss_platform.Models.Ids.{id_from_string}
use inter_uss_platform.Models.Versions.{Version, version_from_string}
use inter_uss_platform.Scd.Server.{Reply, failure, set_auth_error, reply}
use inter_uss_platform.Rid.Api
use inter_uss_platform.Rid.Api.{
  IdentificationServiceAreaParameters, ChangeIdentificationServiceAreaResponse,
}
use inter_uss_platform.Rid.Models.{IdentificationServiceArea, Subscription}
use inter_uss_platform.Rid.Store.{Db, Tx}
use inter_uss_platform.Rid.Store.Areas.{get_isa}
use inter_uss_platform.Rid.Application.Areas.{insert_isa_app, update_isa_app, delete_isa_app}
use inter_uss_platform.Rid.V1.Params.{Request, area_of_request}
use inter_uss_platform.Rid.V1.Conversions.{
  to_identification_service_area, make_subscribers_to_notify,
}

unfoldable pub get_status : Code → ℕ
get_status Code.not_found = 404
get_status _ = 500

unfoldable pub create_status : Code → ℕ
create_status Code.already_exists = 409
create_status Code.bad_request = 400
create_status _ = 500

unfoldable pub update_status : Code → ℕ
update_status Code.permission_denied = 403
update_status Code.version_mismatch = 409
update_status Code.bad_request = 400
update_status Code.not_found = 400
update_status _ = 500

unfoldable pub delete_status : Code → ℕ
delete_status Code.permission_denied = 403
delete_status Code.version_mismatch = 409
delete_status Code.not_found = 404
delete_status _ = 500

module _ (env : Platform) where
  -- What the handlers reply with: the area, which has to be there, and whom to notify.
  unfoldable pub change_response :
      Option IdentificationServiceArea × List Subscription
      → Result Fault ChangeIdentificationServiceAreaResponse
  change_response (none, subs) = err panic
  change_response (some isa, subs) = ok (record {
    subscribers = make_subscribers_to_notify subs;
    service_area = to_identification_service_area env isa;
  })

  shown : Option IdentificationServiceArea → Result Fault Api.IdentificationServiceArea
  shown none = err (coded Code.not_found)
  shown (some isa) = ok (to_identification_service_area env isa)

  get_for : Result Fault String → Db → Reply Api.IdentificationServiceArea × Db
  unfolding shown
  get_for (err e) db = (failure 400, db)
  get_for (ok id) db =
      let (r, u) = (get_isa id >>= λ isa. lift (shown isa)) db in (reply get_status r, u)

  get_authorized : Option Code → Request → Db → Reply Api.IdentificationServiceArea × Db
  unfolding get_for
  get_authorized (some code) req db = (failure (set_auth_error code), db)
  get_authorized none req db = get_for (id_from_string env req.id) db

  -- `GetIdentificationServiceArea`
  unfoldable pub get_identification_service_area :
      Request → Db → Reply Api.IdentificationServiceArea × Db
  unfolding get_authorized
  get_identification_service_area req db = get_authorized req.auth.error req db

-- The handlers that change the tables run at a time, on a server with a locality.
module _ (env : Platform) (tx : Tx) (now : Time) (locality : String) where
  -- The creation for a client.
  unfoldable pub create_for :
      Bool → String → Request → Action Db Fault ChangeIdentificationServiceAreaResponse
  create_for allow_http client req = do
    isa ← lift (area_of_request env allow_http locality client none req)
    inserted ← insert_isa_app env tx now isa
    lift (change_response env inserted)

  create_client :
      Bool → Option String → Request → Db → Reply ChangeIdentificationServiceAreaResponse × Db
  create_client allow_http none req db = (failure 403, db)
  create_client allow_http (some client) req db =
      let (r, u) = create_for allow_http client req db in (reply create_status r, u)

  create_authorized :
      Bool → Option Code → Request → Db → Reply ChangeIdentificationServiceAreaResponse × Db
  unfolding create_client
  create_authorized allow_http (some code) req db = (failure (set_auth_error code), db)
  create_authorized allow_http none req db = create_client allow_http req.auth.client_id req db

  -- `CreateIdentificationServiceArea`
  unfoldable pub create_identification_service_area :
      Bool → Request → Db → Reply ChangeIdentificationServiceAreaResponse × Db
  unfolding create_authorized
  create_identification_service_area allow_http req db =
      create_authorized allow_http req.auth.error req db

  -- The update for a client with a version.
  unfoldable pub update_for :
      String → Version → Request → Action Db Fault ChangeIdentificationServiceAreaResponse
  update_for client version req = do
    isa ← lift (area_of_request env true locality client (some version) req)
    updated ← update_isa_app env tx now isa
    lift (change_response env updated)

  update_client :
      Result Fault Version
      → Option String
      → Request
      → Db
      → Reply ChangeIdentificationServiceAreaResponse × Db
  update_client (err e) client req db = (failure 400, db)
  update_client (ok version) none req db = (failure 403, db)
  update_client (ok version) (some client) req db =
      let (r, u) = update_for client version req db in (reply update_status r, u)

  update_authorized :
      Option Code → Request → Db → Reply ChangeIdentificationServiceAreaResponse × Db
  unfolding update_client
  update_authorized (some code) req db = (failure (set_auth_error code), db)
  update_authorized none req db =
      update_client (version_from_string req.version) req.auth.client_id req db

  -- `UpdateIdentificationServiceArea`
  unfoldable pub update_identification_service_area :
      Request → Db → Reply ChangeIdentificationServiceAreaResponse × Db
  unfolding update_authorized
  update_identification_service_area req db = update_authorized req.auth.error req db

module _ (env : Platform) (tx : Tx) where
  -- The deletion for a client, of an identifier with a version.
  unfoldable pub delete_for :
      String → Version → String → Action Db Fault ChangeIdentificationServiceAreaResponse
  delete_for client version id = do
    deleted ← delete_isa_app env tx id client (some version)
    lift (change_response env deleted)

  delete_parsed :
      String
      → Result Fault Version
      → Result Fault String
      → Db
      → Reply ChangeIdentificationServiceAreaResponse × Db
  delete_parsed client (err e) id db = (failure 400, db)
  delete_parsed client (ok version) (err e) db = (failure 400, db)
  delete_parsed client (ok version) (ok id) db =
      let (r, u) = delete_for client version id db in (reply delete_status r, u)

  delete_client : Option String → Request → Db → Reply ChangeIdentificationServiceAreaResponse × Db
  unfolding delete_parsed
  delete_client none req db = (failure 403, db)
  delete_client (some client) req db =
      delete_parsed client (version_from_string req.version) (id_from_string env req.id) db

  delete_authorized :
      Option Code → Request → Db → Reply ChangeIdentificationServiceAreaResponse × Db
  unfolding delete_client
  delete_authorized (some code) req db = (failure (set_auth_error code), db)
  delete_authorized none req db = delete_client req.auth.client_id req db

  -- `DeleteIdentificationServiceArea`
  unfoldable pub delete_identification_service_area :
      Request → Db → Reply ChangeIdentificationServiceAreaResponse × Db
  unfolding delete_authorized
  delete_identification_service_area req db = delete_authorized req.auth.error req db
