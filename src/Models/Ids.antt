-- ===== src/Models/Ids.antt =====
-- Identifiers, from pkg/models/models.go: `IDFromString`, `IDFromOptionalString`.
use inter_uss_platform.Base.{String, not, ◌||◌, Option, none, some, nat_eq, str_eq, if◌then◌else◌}
use inter_uss_platform.Base.Action.{Result, ok, err}
use inter_uss_platform.Errors.{Code, Fault, coded}
use inter_uss_platform.Models.Platform.{Platform, Uuid}

module _ (env : Platform) where
  checked_id : Option Uuid → Result Fault String
  checked_id none = err (coded Code.no_code)
  checked_id (some id) =
      if not id.is_rfc4122 || not (nat_eq id.version 4)
      then err (coded Code.no_code)
      else ok id.text

  unfoldable pub id_from_string : String → Result Fault String
  unfolding checked_id
  id_from_string s = checked_id (env.parse_uuid s)

  unfoldable pub id_from_optional_string : String → Result Fault String
  id_from_optional_string s = if str_eq s "" then ok "" else id_from_string s
