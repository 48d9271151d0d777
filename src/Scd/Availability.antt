-- ===== src/Scd/Availability.antt =====
-- pkg/scd/uss_availability_handler.go. A database of a version without the table is not modelled.
pub mod Effects
use inter_uss_platform.Base.{ℕ, String, Option, none, some, str_eq, if◌then◌else◌}
use inter_uss_platform.Base.Action.{Result, ok, err, Action, pure, lift, transact, ◌>>=◌}
use inter_uss_platform.Api.{UssAvailabilityStatusResponse, SetUssAvailabilityStatusParameters}
use inter_uss_platform.Errors.{Code, Fault, no_rows}
use inter_uss_platform.Models.Platform.{Platform}
use inter_uss_platform.Scd.Models.Availability.{
  UssAvailabilityState, UssAvailabilityStatus, to_rest, uss_availability_state_from_rest,
}
use inter_uss_platform.Scd.Store.{Db, Tx}
use inter_uss_platform.Scd.Store.Availabilities.{get_uss_availability, upsert_uss_availability}
use inter_uss_platform.Scd.Server.{Reply, failure, set_auth_error, reply}
use inter_uss_platform.Scd.OperationalIntents.Upsert.{Request}

-- `GetDefaultAvailabilityResponse`
unfoldable pub get_default_availability_response : String → UssAvailabilityStatusResponse
get_default_availability_response id = record { availability = "Unknown"; uss = id; version = "" }

unfoldable pub response_of : String → UssAvailabilityStatus → UssAvailabilityStatusResponse
response_of id s = record { availability = to_rest s.availability; uss = id; version = s.version }

-- A manager without a row has the default availability.
unfoldable pub or_default :
    String → Result Fault UssAvailabilityStatus → Result Fault UssAvailabilityStatusResponse
or_default id (ok s) = ok (response_of id s)
or_default id (err no_rows) = ok (get_default_availability_response id)
or_default id (err e) = err e

abbrev always_500 : Code → ℕ
always_500 code = 500

module _ (env : Platform) where
  -- The action of the transaction of a get.
  unfoldable pub get_action : String → Action Db Fault UssAvailabilityStatusResponse
  get_action id db = let (r, u) = get_uss_availability env id db in (or_default id r, u)

  get_authorized : Request (Unit {0}) → Option Code → Db → Reply UssAvailabilityStatusResponse × Db
  get_authorized req (some code) db = (failure (set_auth_error code), db)
  get_authorized req none db =
      if str_eq req.entityid ""
      then (failure 400, db)
      else let (r, u) = transact (get_action req.entityid) db in (reply always_500 r, u)

  -- `GetUssAvailability`; the field `entityid` of a request is the USS.
  unfoldable pub get_uss_availability_handler :
      Request (Unit {0}) → Db → Reply UssAvailabilityStatusResponse × Db
  unfolding get_authorized
  get_uss_availability_handler req db = get_authorized req req.auth.error db

  -- The action of the transaction of a set.
  unfoldable pub set_action :
      Tx → String → UssAvailabilityState → Action Db Fault UssAvailabilityStatusResponse
  set_action tx uss availability = do
    s ←
        upsert_uss_availability env tx
          (record { uss = uss; availability = availability; version = "" })
    pure (response_of uss s)

  set_state :
      Tx
      → String
      → Result Fault UssAvailabilityState
      → Db
      → Reply UssAvailabilityStatusResponse × Db
  set_state tx uss (err e) db = (failure 400, db)
  set_state tx uss (ok availability) db =
      let (r, u) = transact (set_action tx uss availability) db in (reply always_500 r, u)

  set_body :
      Tx
      → String
      → Option SetUssAvailabilityStatusParameters
      → Db
      → Reply UssAvailabilityStatusResponse × Db
  unfolding set_state
  set_body tx uss none db = (failure 400, db)
  set_body tx uss (some params) db =
      set_state tx uss (uss_availability_state_from_rest env params.availability) db

  set_authorized :
      Tx
      → Request SetUssAvailabilityStatusParameters
      → Option Code
      → Db
      → Reply UssAvailabilityStatusResponse × Db
  unfolding set_body
  set_authorized tx req (some code) db = (failure (set_auth_error code), db)
  set_authorized tx req none db =
      if str_eq req.entityid "" then (failure 400, db) else set_body tx req.entityid req.body db

  -- `SetUssAvailability`; the `old_version` of the parameters is not read.
  unfoldable pub set_uss_availability :
      Tx
      → Request SetUssAvailabilityStatusParameters
      → Db
      → Reply UssAvailabilityStatusResponse × Db
  unfolding set_authorized
  set_uss_availability tx req db = set_authorized tx req req.auth.error db
