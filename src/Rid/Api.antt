-- ===== src/Rid/Api.antt =====
-- The messages of remote identification, version 1: pkg/api/ridv1/types.gen.go. A pointer is an
-- option. `Float` holds numbers of both widths.
use inter_uss_platform.Base.{ℕ, String, Option, List}
use inter_uss_platform.Api.{Float}

pub record LatLngPoint : Type 0 where
  pub lng : Float
  pub lat : Float

pub record GeoPolygon : Type 0 where
  pub vertices : List LatLngPoint

pub record Volume3D : Type 0 where
  pub footprint : GeoPolygon
  pub altitude_lo : Option Float
  pub altitude_hi : Option Float

pub record Volume4D : Type 0 where
  pub spatial_volume : Volume3D
  pub time_start : Option String
  pub time_end : Option String

-- `CreateIdentificationServiceAreaParameters` and `UpdateIdentificationServiceAreaParameters`, which
-- have the same fields.
pub record IdentificationServiceAreaParameters : Type 0 where
  pub extents : Volume4D
  pub flights_url : String

pub record IdentificationServiceArea : Type 0 where
  pub flights_url : String
  pub owner : String
  pub time_start : String
  pub time_end : String
  pub version : String
  pub id : String

pub record SubscriptionState : Type 0 where
  pub subscription_id : Option String
  pub notification_index : Option ℕ

pub record SubscriberToNotify : Type 0 where
  pub subscriptions : List SubscriptionState
  pub url : String

-- `PutIdentificationServiceAreaResponse` and `DeleteIdentificationServiceAreaResponse`, which have
-- the same fields.
pub record ChangeIdentificationServiceAreaResponse : Type 0 where
  pub subscribers : List SubscriberToNotify
  pub service_area : IdentificationServiceArea

-- `CreateSubscriptionParameters` and `UpdateSubscriptionParameters`, which have the same fields; the URL
-- is the one field of the callbacks.
pub record SubscriptionParameters : Type 0 where
  pub extents : Volume4D
  pub identification_service_area_url : Option String

pub record Subscription : Type 0 where
  pub id : String
  pub identification_service_area_url : Option String
  pub owner : String
  pub notification_index : ℕ
  pub time_end : Option String
  pub time_start : Option String
  pub version : String

pub record PutSubscriptionResponse : Type 0 where
  pub service_areas : List IdentificationServiceArea
  pub subscription : Subscription
