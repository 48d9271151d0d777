-- ===== src/Scd/Constraints/Params.antt =====
-- The checks of a request on a constraint before its transaction, and those on the constraint that is
-- there.
use inter_uss_platform.Base.{
  ℕ, ◌+◌, ◌%◌, String, Bool, true, false, not, Option, none, some, [], ◌∷◌, str_eq, is_some,
}
use inter_uss_platform.Base.Action.{Result, ok, err}
use inter_uss_platform.Api.{PutConstraintReferenceParameters}
use inter_uss_platform.Errors.{
  Code, Fault, coded, no_rows, with_code, reject_if, deref, ◌>>=◌, ◌>>◌,
}
use inter_uss_platform.Models.Platform.{Platform, CellUnion}
use inter_uss_platform.Models.Ids.{id_from_string}
use inter_uss_platform.Models.Volumes.{Volume4D, geometry_func, calculate_spatial_covering}
use inter_uss_platform.Models.Union.{union_volumes4d}
use inter_uss_platform.Scd.Models.Ovns.{validate_uss_base_url}
use inter_uss_platform.Scd.Models.Constraints.{Constraint}
use inter_uss_platform.Scd.OperationalIntents.Params.{parse_extents}

-- What `PutConstraintReference` has computed before its transaction.
pub record ValidConstraintParams : Type 0 where
  pub id : String
  pub ovn : String
  pub uss_base_url : String
  pub u_extent : Volume4D
  pub cells : CellUnion

check_base_url : Platform → Bool → String → Result Fault (Unit {0})
check_base_url env true url = ok tt
check_base_url env false url = validate_uss_base_url env url

-- The part of `PutConstraintReference` before its transaction.
unfoldable pub validate_put_params :
    Platform
    → Bool
    → String
    → String
    → PutConstraintReferenceParameters
    → Result Fault ValidConstraintParams
unfolding check_base_url
validate_put_params env allow_http entityid ovn params = do
  id ← with_code Code.bad_request (id_from_string env entityid)
  reject_if (str_eq params.uss_base_url "") Code.bad_request
  with_code Code.bad_request (check_base_url env allow_http params.uss_base_url)
  extents ← with_code Code.bad_request (parse_extents env params.extents)
  u_extent ← with_code Code.bad_request (union_volumes4d env extents)
  reject_if (not (is_some u_extent.start_time)) Code.bad_request
  reject_if (not (is_some u_extent.end_time)) Code.bad_request
  cells ← with_code Code.bad_request (calculate_spatial_covering env u_extent)
  ok (record {
    id = id;
    ovn = ovn;
    uss_base_url = params.uss_base_url;
    u_extent = u_extent;
    cells = cells;
  })

-- A constraint that is not there reads as none for a put.
unfoldable pub optional : Result Fault Constraint → Result Fault (Option Constraint)
optional (ok c) = ok (some c)
optional (err no_rows) = ok none
optional (err e) = err e

-- For a deletion, it is the error `NotFound`.
unfoldable pub required : Result Fault Constraint → Result Fault Constraint
required (ok c) = ok c
required (err no_rows) = err (coded Code.not_found)
required (err e) = err e

unfoldable pub check_owned : String → String → Constraint → Result Fault (Unit {0})
check_owned manager ovn old = do
  reject_if (not (str_eq old.manager manager)) Code.permission_denied
  reject_if (not (str_eq old.ovn ovn)) Code.version_mismatch

-- The checks of a put on the constraint that is there, if any.
unfoldable pub check_previous : String → String → Option Constraint → Result Fault (Unit {0})
check_previous manager ovn none = reject_if (not (str_eq ovn "")) Code.version_mismatch
check_previous manager ovn (some old) = check_owned manager ovn old

version_of : Option Constraint → ℕ
version_of none = 0
version_of (some old) = old.version

-- `int32` version of the constraint that is written
unfoldable pub next_version : Option Constraint → ℕ
unfolding version_of
next_version old = (version_of old + 1) % 4294967296

unfoldable pub volume_of : Constraint → Volume4D
volume_of c = record {
  start_time = c.start_time;
  end_time = c.end_time;
  spatial_volume = some (record {
    altitude_hi = c.altitude_upper;
    altitude_lo = c.altitude_lower;
    footprint = some (geometry_func c.cells);
  });
}

-- The volume to notify on.
unfoldable pub notification_volume : Platform → Option Constraint → Volume4D → Result Fault Volume4D
notification_volume env none u_extent = ok u_extent
notification_volume env (some old) u_extent = union_volumes4d env (u_extent ∷ volume_of old ∷ [])

-- The constraint that is written, which has no OVN yet.
unfoldable pub new_constraint :
    String → ValidConstraintParams → Option Constraint → Result Fault Constraint
new_constraint manager p old = do
  vol3 ← deref p.u_extent.spatial_volume
  ok (record {
    id = p.id;
    manager = manager;
    version = next_version old;
    ovn = "";
    start_time = p.u_extent.start_time;
    end_time = p.u_extent.end_time;
    uss_base_url = p.uss_base_url;
    altitude_lower = vol3.altitude_lo;
    altitude_upper = vol3.altitude_hi;
    cells = p.cells;
  })
