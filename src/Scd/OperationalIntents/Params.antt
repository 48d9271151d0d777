-- ===== src/Scd/OperationalIntents/Params.antt =====
-- The parameters of an upsert of an operational intent reference and their validation, which
-- touches no table: `validateAndReturnUpsertParams`, `checkUpsertPermissionsAndReturnManager` and
-- `validateUpsertRequestAgainstPreviousOIR`.
pub mod Valid
use inter_uss_platform.Base.{
  ℕ, String, Bool, true, false, not, ◌&&◌, ◌||◌, Option, none, some, List, [], ◌∷◌, any, str_eq,
  is_some, if◌then◌else◌,
}
use inter_uss_platform.Base.Action.{Result, ok, err}
use inter_uss_platform.Api
use inter_uss_platform.Api.{PutOperationalIntentReferenceParameters, ImplicitSubscriptionParameters}
use inter_uss_platform.Errors.{Code, Fault, coded, reject_if, deref, ◌>>=◌, ◌>>◌}
use inter_uss_platform.Models.Times.{Time, before, after}
use inter_uss_platform.Models.Platform.{Platform, CellUnion}
use inter_uss_platform.Models.Ids.{id_from_string, id_from_optional_string}
use inter_uss_platform.Models.Volumes.{Volume4D, calculate_spatial_covering, volume4d_from_scd_rest}
use inter_uss_platform.Models.Union.{union_volumes4d}
use inter_uss_platform.Scd.Models.Ovns.{validate_uss_base_url, new_ovn_from_uuid_v7_suffix}
use inter_uss_platform.Scd.Models.Availability.{unknown}
use inter_uss_platform.Scd.Models.OperationalIntents.{
  OperationalIntent, requires_subscription, is_valid_in_dss, requires_cmsa,
}
use inter_uss_platform.Scd.Models.Subscriptions.{Subscription}
use inter_uss_platform.Scd.Server.{AuthorizationResult}

pub record ImplicitSubscription : Type 0 where
  pub requested : Bool
  pub base_url : String
  pub for_constraints : Bool

-- `validOIRParams`; `key` is the set of its keys, and the parsed extents are not read again.
pub record ValidOirParams : Type 0 where
  pub id : String
  pub ovn : String
  pub new_ovn : String
  pub state : String
  pub u_extent : Volume4D
  pub cells : CellUnion
  pub subscription_id : String
  pub uss_base_url : String
  pub implicit_subscription : ImplicitSubscription
  pub key : List String

abbrev pub subscription_id_of : Option Subscription → Option String
subscription_id_of none = none
subscription_id_of (some sub) = some sub.id

-- `toOIR`. The store does not write the availability, which is left empty here.
unfoldable pub to_oir :
    ValidOirParams → String → Option Subscription → ℕ → List String → Result Fault OperationalIntent
to_oir vp manager attached_sub version past_ovns = do
  vol3 ← deref vp.u_extent.spatial_volume
  ok (record {
    id = vp.id;
    manager = manager;
    uss_availability = unknown;
    version = version;
    ovn = vp.new_ovn;
    past_ovns = past_ovns;
    start_time = vp.u_extent.start_time;
    end_time = vp.u_extent.end_time;
    altitude_lower = vol3.altitude_lo;
    altitude_upper = vol3.altitude_hi;
    cells = vp.cells;
    uss_base_url = vp.uss_base_url;
    subscription_id = subscription_id_of attached_sub;
    state = vp.state;
  })

abbrev missing : {A : Type 0} → Option A → Result Fault A
missing none = err (coded Code.no_code)
missing (some a) = ok a

or_false : Option Bool → Bool
or_false none = false
or_false (some b) = b

requested_implicit :
    Option String → Option ImplicitSubscriptionParameters → Result Fault ImplicitSubscription
unfolding or_false
requested_implicit sub_id none =
    ok (record { requested = false; base_url = ""; for_constraints = false })
requested_implicit sub_id (some new) = do
  reject_if (str_eq new.uss_base_url "") Code.no_code
  reject_if (is_some sub_id) Code.no_code
  ok (record {
    requested = true;
    base_url = new.uss_base_url;
    for_constraints = or_false new.notify_for_constraints;
  })

-- `RequiresSubscription() && subscriptionID.Empty() && (NewSubscription == nil || …)`
lacks_subscription : String → String → Option ImplicitSubscriptionParameters → Bool
lacks_subscription state sub_id none = requires_subscription state && str_eq sub_id ""
lacks_subscription state sub_id (some new) =
    requires_subscription state && str_eq sub_id "" && str_eq new.uss_base_url ""

ovns_of_key : Option (List String) → List String
ovns_of_key none = []
ovns_of_key (some ovns) = ovns

module _ (env : Platform) where
  optional_id : Option String → Result Fault String
  optional_id none = ok ""
  optional_id (some s) = id_from_optional_string env s

  check_new_subscription_url :
      Option ImplicitSubscriptionParameters → String → Result Fault (Unit {0})
  check_new_subscription_url none base_url = ok tt
  check_new_subscription_url (some _) base_url = validate_uss_base_url env base_url

  check_base_urls :
      Bool → String → Option ImplicitSubscriptionParameters → String → Result Fault (Unit {0})
  check_base_urls true uss_base_url new base_url = ok tt
  check_base_urls false uss_base_url new base_url =
      validate_uss_base_url env uss_base_url >> check_new_subscription_url new base_url

  unfoldable pub parse_extents : List Api.Volume4D → Result Fault (List Volume4D)
  parse_extents [] = ok []
  parse_extents (e ∷ es) = do v ← volume4d_from_scd_rest env e; vs ← parse_extents es; ok (v ∷ vs)

  requested_new_ovn : Time → String → Option String → Result Fault String
  requested_new_ovn now id none = ok ""
  requested_new_ovn now id (some suffix) = new_ovn_from_uuid_v7_suffix env now id suffix

  -- `validateAndReturnUpsertParams`
  unfoldable pub validate_and_return_upsert_params :
      Time
      → String
      → String
      → PutOperationalIntentReferenceParameters
      → Bool
      → Result Fault ValidOirParams
  unfolding optional_id check_new_subscription_url check_base_urls requested_new_ovn
      requested_implicit lacks_subscription ovns_of_key
  validate_and_return_upsert_params now entityid ovn params allow_http = do
    id ← id_from_string env entityid
    reject_if (str_eq params.uss_base_url "") Code.no_code
    subscription_id ← optional_id params.subscription_id
    implicit ← requested_implicit params.subscription_id params.new_subscription
    check_base_urls allow_http params.uss_base_url params.new_subscription implicit.base_url
    reject_if (not (is_valid_in_dss params.state)) Code.no_code
    extents ← parse_extents params.extents
    u_extent ← union_volumes4d env extents
    start ← missing u_extent.start_time
    end ← missing u_extent.end_time
    reject_if (after now end) Code.no_code
    reject_if (after start end) Code.no_code
    cells ← calculate_spatial_covering env u_extent
    reject_if (before end start) Code.no_code
    reject_if (str_eq ovn "" && not (str_eq params.state "Accepted")) Code.no_code
    new_ovn ← requested_new_ovn now id params.requested_ovn_suffix
    reject_if (lacks_subscription params.state subscription_id params.new_subscription) Code.no_code
    ok (record {
      id = id;
      ovn = ovn;
      new_ovn = new_ovn;
      state = params.state;
      u_extent = u_extent;
      cells = cells;
      subscription_id = subscription_id;
      uss_base_url = params.uss_base_url;
      implicit_subscription = implicit;
      key = ovns_of_key params.key;
    })

abbrev cmsa_scope : String
cmsa_scope = "utm.conformance_monitoring_sa"

-- `auth.HasScope` of pkg/auth/auth.go
unfoldable pub has_scope : List String → String → Bool
has_scope scopes required = any (λ scope. str_eq scope required) scopes

-- `checkUpsertPermissionsAndReturnManager`
unfoldable pub check_upsert_permissions_and_return_manager :
    AuthorizationResult → String → Result Fault String
check_upsert_permissions_and_return_manager auth requested_state = do
  client ← missing auth.client_id
  reject_if (requires_cmsa requested_state && not (has_scope auth.scopes cmsa_scope)) Code.no_code
  ok client

-- `validateUpsertRequestAgainstPreviousOIR`
unfoldable pub validate_upsert_request_against_previous_oir :
    String → String → Option OperationalIntent → Result Fault (Unit {0})
validate_upsert_request_against_previous_oir requesting_manager provided_ovn (some previous) = do
  reject_if (not (str_eq previous.manager requesting_manager)) Code.permission_denied
  reject_if (not (str_eq previous.ovn provided_ovn)) Code.version_mismatch
validate_upsert_request_against_previous_oir requesting_manager provided_ovn none =
    reject_if (not (str_eq provided_ovn "")) Code.not_found
