-- ===== src/Rid/V1/Params.antt =====
-- The checks of the requests of pkg/rid/server/v1, and the service area or the subscription that a
-- request describes.
use inter_uss_platform.Base.{String, Bool, true, false, Option, none, some, List, [], ◌∷◌, str_eq}
use inter_uss_platform.Base.Action.{Result, ok, err}
use inter_uss_platform.Errors.{Code, Fault, coded, with_code, reject_if, ◌>>=◌, ◌>>◌}
use inter_uss_platform.Models.Platform.{Platform}
use inter_uss_platform.Models.Ids.{id_from_string}
use inter_uss_platform.Models.Versions.{Version}
use inter_uss_platform.Scd.Server.{AuthorizationResult}
use inter_uss_platform.Rid.Api.{IdentificationServiceAreaParameters, SubscriptionParameters}
use inter_uss_platform.Rid.Models.{
  IdentificationServiceArea, Subscription, set_isa_extents, set_subscription_extents, validate_url,
}
use inter_uss_platform.Rid.V1.Conversions.{from_volume4d}

-- A request: who calls, and the parameters, where the operation has them.
pub record Request : Type 0 where
  pub auth : AuthorizationResult
  pub id : String
  pub version : String
  pub body : Option IdentificationServiceAreaParameters

unfoldable pub is_missing : {A : Type 0} → List A → Bool
is_missing [] = true
is_missing (x ∷ xs) = false

required_body :
    Option IdentificationServiceAreaParameters → Result Fault IdentificationServiceAreaParameters
required_body none = err (coded Code.bad_request)
required_body (some body) = ok body

-- What a request says of an area, but for its extents.
unfoldable pub bare_area :
    String → String → Option Version → String → String → IdentificationServiceArea
bare_area locality client version id url = record {
  id = id;
  url = url;
  owner = client;
  cells = [];
  start_time = none;
  end_time = none;
  version = version;
  altitude_hi = none;
  altitude_lo = none;
  writer = locality;
}

module _ (env : Platform) where
  unfoldable pub check_url : Bool → String → Result Fault (Unit {0})
  check_url true url = ok tt
  check_url false url = validate_url env url

  -- The area that the request of a client describes. The flag says that each scheme of the URL is
  -- allowed; an update never checks the scheme.
  unfoldable pub area_of_request :
      Bool → String → String → Option Version → Request → Result Fault IdentificationServiceArea
  unfolding required_body
  area_of_request any_scheme locality client version req = do
    body ← required_body req.body
    reject_if (str_eq body.flights_url "") Code.bad_request
    reject_if (is_missing body.extents.spatial_volume.footprint.vertices) Code.bad_request
    extents ← with_code Code.bad_request (from_volume4d env body.extents)
    id ← with_code Code.bad_request (id_from_string env req.id)
    with_code Code.bad_request (check_url any_scheme body.flights_url)
    with_code Code.bad_request
        (set_isa_extents env (some extents) (bare_area locality client version id body.flights_url))

-- The same, for the handlers of subscriptions.
pub record SubscriptionRequest : Type 0 where
  pub auth : AuthorizationResult
  pub id : String
  pub version : String
  pub body : Option SubscriptionParameters

required_params : Option SubscriptionParameters → Result Fault SubscriptionParameters
required_params none = err (coded Code.bad_request)
required_params (some body) = ok body

required_url : Option String → Result Fault String
required_url none = err (coded Code.bad_request)
required_url (some url) = ok url

-- What a request says of a subscription, but for its extents.
unfoldable pub bare_subscription : String → String → Option Version → String → String → Subscription
bare_subscription locality client version id url = record {
  id = id;
  url = url;
  notification_index = 0;
  owner = client;
  cells = [];
  start_time = none;
  end_time = none;
  version = version;
  altitude_hi = none;
  altitude_lo = none;
  writer = locality;
}

module _ (env : Platform) where
  -- The subscription that the request of a client describes.
  unfoldable pub subscription_of_request :
      Bool → String → String → Option Version → SubscriptionRequest → Result Fault Subscription
  unfolding required_params required_url
  subscription_of_request any_scheme locality client version req = do
    body ← required_params req.body
    url ← required_url body.identification_service_area_url
    reject_if (is_missing body.extents.spatial_volume.footprint.vertices) Code.bad_request
    extents ← with_code Code.bad_request (from_volume4d env body.extents)
    id ← with_code Code.bad_request (id_from_string env req.id)
    with_code Code.bad_request (check_url env any_scheme url)
    with_code Code.bad_request (
        set_subscription_extents env (some extents)
          (bare_subscription locality client version id url))
