-- ===== src/Scd/Models/Subscriptions.antt =====
-- pkg/scd/models/subscriptions.go
use inter_uss_platform.Base.{
  ℕ, String, Bool, true, not, Option, none, some, List, [], ◌∷◌, if◌then◌else◌,
}
use inter_uss_platform.Base.Int.{ltb_ℤ}
use inter_uss_platform.Base.Action.{Result, ok}
use inter_uss_platform.Api
use inter_uss_platform.Api.{Float}
use inter_uss_platform.Errors.{Code, Fault, with_code, reject_if, deref, ◌>>=◌, ◌>>◌}
use inter_uss_platform.Models.Times.{Time, sub, longer, after}
use inter_uss_platform.Models.TimeRanges.{Bounds, adjust_range}
use inter_uss_platform.Models.Platform.{Platform, CellUnion}
use inter_uss_platform.Scd.Models.OperationalIntents.{OperationalIntent, rest_time}

pub record Subscription : Type 0 where
  pub id : String
  pub version : String
  pub notification_index : ℕ
  pub manager : String
  pub start_time : Option Time
  pub end_time : Option Time
  pub altitude_hi : Option Float
  pub altitude_lo : Option Float
  pub uss_base_url : String
  pub notify_for_operational_intents : Bool
  pub notify_for_constraints : Bool
  pub implicit_subscription : Bool
  pub cells : CellUnion

-- `Subscription.ToRest`, which returns no error.
unfoldable pub to_rest : Platform → Subscription → List String → Api.Subscription
to_rest env s dependents = record {
  id = s.id;
  version = s.version;
  notification_index = s.notification_index;
  uss_base_url = s.uss_base_url;
  notify_for_operational_intents = s.notify_for_operational_intents;
  notify_for_constraints = s.notify_for_constraints;
  implicit_subscription = s.implicit_subscription;
  time_start = rest_time env s.start_time;
  time_end = rest_time env s.end_time;
  dependent_operational_intents = dependents;
}

abbrev pub bounds : Option Subscription → Option Bounds
bounds none = none
bounds (some s) = some (record { start_time = s.start_time; end_time = s.end_time })

-- `Subscription.AdjustTimeRange`
unfoldable pub adjust_time_range :
    Time → Option Subscription → Subscription → Result Fault Subscription
adjust_time_range now old s = do
  r ← adjust_range now s.start_time s.end_time (bounds old)
  ok (record s { start_time = some r.0; end_time = some r.1 })

abbrev pub five_minutes : ℕ
five_minutes = 300000000000

-- `*op.AltitudeLower < *s.AltitudeLo || *op.AltitudeUpper > *s.AltitudeHi`: the second pair of
-- pointers is read only if the first test fails.
unfoldable pub altitude_outside : OperationalIntent → Subscription → Result Fault Bool
altitude_outside op s = do
  lower ← deref op.altitude_lower
  lo ← deref s.altitude_lo
  if ltb_ℤ lower lo
      then ok true
      else do upper ← deref op.altitude_upper; hi ← deref s.altitude_hi; ok (ltb_ℤ hi upper)

-- `Subscription.ValidateDependentOp`
unfoldable pub validate_dependent_op :
    Platform → Subscription → OperationalIntent → Result Fault (Unit {0})
unfolding altitude_outside
validate_dependent_op env s op = do
  reject_if (not (env.contains s.cells op.cells)) Code.no_code
  outside ← altitude_outside op s
  reject_if outside Code.no_code
  start ← deref s.start_time
  op_start ← deref op.start_time
  reject_if (longer (sub start op_start) five_minutes) Code.no_code
  op_end ← deref op.end_time
  end ← deref s.end_time
  reject_if (after op_end end) Code.no_code
  ok tt

-- `Subscription.ValidateDependentOps`; the operational intents are pointers, which may be nil.
unfoldable pub validate_dependent_ops :
    Platform → Subscription → List (Option OperationalIntent) → Result Fault (Unit {0})
validate_dependent_ops env s [] = ok tt
validate_dependent_ops env s (pointer ∷ ops) = do
  op ← deref pointer
  with_code Code.bad_request (validate_dependent_op env s op)
  validate_dependent_ops env s ops
