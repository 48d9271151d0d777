-- ===== src/Scd/Models/Availability.antt =====
-- pkg/scd/models/availability.go: the availability of a USS, as the three states that are stored.
use inter_uss_platform.Base.{String, ◌||◌, str_eq, if◌then◌else◌}
use inter_uss_platform.Base.Action.{Result, ok, err}
use inter_uss_platform.Errors.{Code, Fault, coded}
use inter_uss_platform.Models.Platform.{Platform}

pub data UssAvailabilityState : Type 0 where
  unknown normal down : UssAvailabilityState

pub record UssAvailabilityStatus : Type 0 where
  pub uss : String
  pub availability : UssAvailabilityState
  pub version : String

-- `ToRest`
unfoldable pub to_rest : UssAvailabilityState → String
to_rest unknown = "Unknown"
to_rest normal = "Normal"
to_rest down = "Down"

-- `UssAvailabilityStateFromRest`, which is `UssAvailabilityStateFromString`
unfoldable pub uss_availability_state_from_rest :
    Platform → String → Result Fault UssAvailabilityState
uss_availability_state_from_rest env s =
    if str_eq (env.to_lower s) "" || str_eq (env.to_lower s) "unknown"
    then ok unknown
    else if str_eq (env.to_lower s) "normal"
    then ok normal
    else if str_eq (env.to_lower s) "down"
    then ok down
    else err (coded Code.no_code)
