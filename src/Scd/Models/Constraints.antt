-- ===== src/Scd/Models/Constraints.antt =====
-- pkg/scd/models/constraints.go
use inter_uss_platform.Base.{ℕ, String, Option, some}
use inter_uss_platform.Api
use inter_uss_platform.Api.{Float}
use inter_uss_platform.Models.Times.{Time}
use inter_uss_platform.Models.Platform.{Platform, CellUnion}
use inter_uss_platform.Scd.Models.OperationalIntents.{rest_time}

-- `version` is the bit pattern of an `int32`. The field `UssAvailability` is never read.
pub record Constraint : Type 0 where
  pub id : String
  pub manager : String
  pub version : ℕ
  pub ovn : String
  pub start_time : Option Time
  pub end_time : Option Time
  pub uss_base_url : String
  pub altitude_lower : Option Float
  pub altitude_upper : Option Float
  pub cells : CellUnion

-- `Constraint.ToRest`
unfoldable pub to_rest : Platform → Constraint → Api.ConstraintReference
to_rest env c = record {
  id = c.id;
  ovn = some c.ovn;
  manager = c.manager;
  version = c.version;
  uss_base_url = c.uss_base_url;
  uss_availability = "Unknown";
  time_start = rest_time env c.start_time;
  time_end = rest_time env c.end_time;
}
