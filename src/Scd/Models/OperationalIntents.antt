-- ===== src/Scd/Models/OperationalIntents.antt =====
-- pkg/scd/models/operational_intents.go
use inter_uss_platform.Base.{
  ℕ, String, Bool, true, false, not, ◌&&◌, ◌||◌, Option, none, some, List, str_eq,
}
use inter_uss_platform.Api
use inter_uss_platform.Api.{Float}
use inter_uss_platform.Models.Times.{Time}
use inter_uss_platform.Models.Platform.{Platform, CellUnion}
use inter_uss_platform.Scd.Models.Ovns.{null_v4_uuid}
use inter_uss_platform.Scd.Models.Availability
use inter_uss_platform.Scd.Models.Availability.{UssAvailabilityState, down}

-- `RequiresSubscription`
unfoldable pub requires_subscription : String → Bool
requires_subscription s = not (str_eq s "Accepted")

-- The method `RequiresKey` of a state.
unfoldable pub state_requires_key : String → Bool
state_requires_key s = not (str_eq s "Nonconforming" || str_eq s "Contingent")

-- `IsValidInDSS`
unfoldable pub is_valid_in_dss : String → Bool
is_valid_in_dss s =
    str_eq s "Accepted" || str_eq s "Activated" || str_eq s "Nonconforming" || str_eq s "Contingent"

-- `RequiresCMSA`
unfoldable pub requires_cmsa : String → Bool
requires_cmsa s = str_eq s "Nonconforming" || str_eq s "Contingent"

-- `version` is the bit pattern of an `int32`.
pub record OperationalIntent : Type 0 where
  pub id : String
  pub manager : String
  pub uss_availability : UssAvailabilityState
  pub version : ℕ
  pub state : String
  pub ovn : String
  pub past_ovns : List String
  pub start_time : Option Time
  pub end_time : Option Time
  pub uss_base_url : String
  pub subscription_id : Option String
  pub altitude_lower : Option Float
  pub altitude_upper : Option Float
  pub cells : CellUnion

is_down : UssAvailabilityState → Bool
is_down down = true
is_down _ = false

-- The method `RequiresKey` of an operational intent.
unfoldable pub requires_key : OperationalIntent → Bool
unfolding is_down
requires_key o = not (is_down o.uss_availability && str_eq o.state "Accepted")

-- A time as the API shows it; `none` is the zero value of `restapi.Time`.
abbrev pub rest_time : Platform → Option Time → Option Api.Time
rest_time env none = none
rest_time env (some t) = some (record { value = env.format_time t; format = "RFC3339" })

subscription_id_or_null : Option String → String
subscription_id_or_null none = null_v4_uuid
subscription_id_or_null (some id) = id

-- `OperationalIntent.ToRest`
unfoldable pub to_rest : Platform → OperationalIntent → Api.OperationalIntentReference
unfolding subscription_id_or_null
to_rest env o = record {
  id = o.id;
  ovn = some o.ovn;
  manager = o.manager;
  version = o.version;
  uss_base_url = o.uss_base_url;
  subscription_id = subscription_id_or_null o.subscription_id;
  state = o.state;
  uss_availability = Availability.to_rest o.uss_availability;
  time_start = rest_time env o.start_time;
  time_end = rest_time env o.end_time;
}
