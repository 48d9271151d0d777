-- ===== src/Api.antt =====
-- The messages of the strategic conflict detection API (pkg/api/scdv1/types.gen.go) that the
-- handlers read and write. JSON numbers are `Float` values, kept by the order of their values.
use inter_uss_platform.Base.{ℕ, String, Bool, Option, List}
use inter_uss_platform.Base.Int.{ℤ}

-- A floating point number that is no NaN (JSON has none), as the integer that its bit pattern
-- stands for in sign and magnitude. That is order preserving, and -0 and +0 are one.
abbrev pub Float : Type 0
Float = ℤ

pub record Time : Type 0 where
  pub value : String
  pub format : String

pub record Radius : Type 0 where
  pub value : Float
  pub units : String

pub record Altitude : Type 0 where
  pub value : Float
  pub reference : String
  pub units : String

pub record LatLngPoint : Type 0 where
  pub lng : Float
  pub lat : Float

pub record Polygon : Type 0 where
  pub vertices : List LatLngPoint

pub record Circle : Type 0 where
  pub center : Option LatLngPoint
  pub radius : Option Radius

pub record Volume3D : Type 0 where
  pub outline_circle : Option Circle
  pub outline_polygon : Option Polygon
  pub altitude_lower : Option Altitude
  pub altitude_upper : Option Altitude

pub record Volume4D : Type 0 where
  pub volume : Volume3D
  pub time_start : Option Time
  pub time_end : Option Time

pub record SubscriptionState : Type 0 where
  pub subscription_id : String
  pub notification_index : ℕ

pub record SubscriberToNotify : Type 0 where
  pub subscriptions : List SubscriptionState
  pub uss_base_url : String

pub record Subscription : Type 0 where
  pub id : String
  pub version : String
  pub notification_index : ℕ
  pub time_start : Option Time
  pub time_end : Option Time
  pub uss_base_url : String
  pub notify_for_operational_intents : Bool
  pub notify_for_constraints : Bool
  pub implicit_subscription : Bool
  pub dependent_operational_intents : List String

pub record PutSubscriptionParameters : Type 0 where
  pub extents : Volume4D
  pub uss_base_url : String
  pub notify_for_operational_intents : Option Bool
  pub notify_for_constraints : Option Bool

pub record OperationalIntentReference : Type 0 where
  pub id : String
  pub manager : String
  pub uss_availability : String
  pub version : ℕ
  pub state : String
  pub ovn : Option String
  pub time_start : Option Time
  pub time_end : Option Time
  pub uss_base_url : String
  pub subscription_id : String

pub record ImplicitSubscriptionParameters : Type 0 where
  pub uss_base_url : String
  pub notify_for_constraints : Option Bool

pub record PutOperationalIntentReferenceParameters : Type 0 where
  pub extents : List Volume4D
  pub key : Option (List String)
  pub state : String
  pub uss_base_url : String
  pub subscription_id : Option String
  pub new_subscription : Option ImplicitSubscriptionParameters
  pub requested_ovn_suffix : Option String

pub record ChangeOperationalIntentReferenceResponse : Type 0 where
  pub subscribers : List SubscriberToNotify
  pub operational_intent_reference : OperationalIntentReference

pub record ConstraintReference : Type 0 where
  pub id : String
  pub manager : String
  pub uss_availability : String
  pub version : ℕ
  pub ovn : Option String
  pub time_start : Option Time
  pub time_end : Option Time
  pub uss_base_url : String

pub record AirspaceConflictResponse : Type 0 where
  pub missing_operational_intents : Option (List OperationalIntentReference)
  pub missing_constraints : Option (List ConstraintReference)

pub record PutSubscriptionResponse : Type 0 where
  pub subscription : Subscription
  pub operational_intent_references : Option (List OperationalIntentReference)
  pub constraint_references : Option (List ConstraintReference)

pub record PutConstraintReferenceParameters : Type 0 where
  pub extents : List Volume4D
  pub uss_base_url : String

pub record ChangeConstraintReferenceResponse : Type 0 where
  pub constraint_reference : ConstraintReference
  pub subscribers : List SubscriberToNotify

-- A `UssAvailabilityStatus` and its version.
pub record UssAvailabilityStatusResponse : Type 0 where
  pub availability : String
  pub uss : String
  pub version : String

pub record SetUssAvailabilityStatusParameters : Type 0 where
  pub old_version : String
  pub availability : String
