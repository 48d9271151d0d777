-- ===== src/Rid/Models.antt =====
-- pkg/rid/models: identification service areas and subscriptions.
use inter_uss_platform.Base.{ℕ, String, Option, none, some, str_eq, if◌then◌else◌}
use inter_uss_platform.Base.Action.{Result, ok, err}
use inter_uss_platform.Api.{Float}
use inter_uss_platform.Errors.{Code, Fault, coded, reject_if, deref, ◌>>=◌, ◌>>◌}
use inter_uss_platform.Models.Times.{Time, sub, is_negative}
use inter_uss_platform.Models.TimeRanges.{Bounds, adjusted_start, adjusted_end, adjust_range}
use inter_uss_platform.Models.Platform.{Platform, CellUnion}
use inter_uss_platform.Models.Volumes.{Volume4D, geometry_covering}
use inter_uss_platform.Models.Versions.{Version}

pub record IdentificationServiceArea : Type 0 where
  pub id : String
  pub url : String
  pub owner : String
  pub cells : CellUnion
  pub start_time : Option Time
  pub end_time : Option Time
  pub version : Option Version
  pub altitude_hi : Option Float
  pub altitude_lo : Option Float
  pub writer : String

pub record Subscription : Type 0 where
  pub id : String
  pub url : String
  pub notification_index : ℕ
  pub owner : String
  pub cells : CellUnion
  pub start_time : Option Time
  pub end_time : Option Time
  pub version : Option Version
  pub altitude_hi : Option Float
  pub altitude_lo : Option Float
  pub writer : String

-- The times, altitudes and cells that the two `SetExtents` take from a volume.
pub record Extents : Type 0 where
  pub start_time : Option Time
  pub end_time : Option Time
  pub altitude_hi : Option Float
  pub altitude_lo : Option Float
  pub cells : CellUnion

module _ (env : Platform) where
  -- The body of both `SetExtents`, for a volume that is there. An error covers the whole of it: the
  -- entity is then dropped.
  unfoldable pub extents_of : Volume4D → Result Fault Extents
  extents_of v = do
    space ← deref v.spatial_volume
    footprint ← deref space.footprint
    cells ← geometry_covering env footprint
    ok (record {
      start_time = v.start_time;
      end_time = v.end_time;
      altitude_hi = space.altitude_hi;
      altitude_lo = space.altitude_lo;
      cells = cells;
    })

  -- `IdentificationServiceArea.SetExtents`
  unfoldable pub set_isa_extents :
      Option Volume4D → IdentificationServiceArea → Result Fault IdentificationServiceArea
  set_isa_extents none isa = ok isa
  set_isa_extents (some v) isa = do
    e ← extents_of v
    ok (record isa {
      start_time = e.start_time;
      end_time = e.end_time;
      altitude_hi = e.altitude_hi;
      altitude_lo = e.altitude_lo;
      cells = e.cells;
    })

  -- `Subscription.SetExtents`
  unfoldable pub set_subscription_extents :
      Option Volume4D → Subscription → Result Fault Subscription
  set_subscription_extents none s = ok s
  set_subscription_extents (some v) s = do
    e ← extents_of v
    ok (record s {
      start_time = e.start_time;
      end_time = e.end_time;
      altitude_hi = e.altitude_hi;
      altitude_lo = e.altitude_lo;
      cells = e.cells;
    })

  -- `ValidateURL`
  unfoldable pub validate_url : String → Result Fault (Unit {0})
  validate_url s = elim (env.url_scheme s) [
    | none ↦ err (coded Code.no_code)
    | some scheme ↦ if str_eq scheme "https" then ok tt else err (coded Code.no_code)
  ]

required_end : Option Time → Result Fault Time
required_end none = err (coded Code.bad_request)
required_end (some end) = ok end

abbrev isa_bounds : Option IdentificationServiceArea → Option Bounds
isa_bounds none = none
isa_bounds (some i) = some (record { start_time = i.start_time; end_time = i.end_time })

-- `IdentificationServiceArea.AdjustTimeRange`: an end is required, and may be at any time after the
-- start.
unfoldable pub adjust_isa_time_range :
    Time
    → Option IdentificationServiceArea
    → IdentificationServiceArea
    → Result Fault IdentificationServiceArea
unfolding required_end
adjust_isa_time_range now old i = do
  start ← adjusted_start now i.start_time (isa_bounds old)
  end ← required_end (adjusted_end i.end_time (isa_bounds old))
  from ← deref start
  reject_if (is_negative (sub end from)) Code.bad_request
  ok (record i { start_time = start; end_time = some end })

abbrev subscription_bounds : Option Subscription → Option Bounds
subscription_bounds none = none
subscription_bounds (some s) = some (record { start_time = s.start_time; end_time = s.end_time })

-- `Subscription.AdjustTimeRange`
unfoldable pub adjust_subscription_time_range :
    Time → Option Subscription → Subscription → Result Fault Subscription
adjust_subscription_time_range now old s = do
  r ← adjust_range now s.start_time s.end_time (subscription_bounds old)
  ok (record s { start_time = some r.0; end_time = some r.1 })
