-- ===== src/Rid/V1/Conversions.antt =====
-- pkg/rid/models/api/v1/conversions.go: the messages and what the program works on.
use mathlib.Core.Option
use inter_uss_platform.Base.{
  String, Option, none, some, List, [], ◌∷◌, ◌++◌, map, str_eq, if◌then◌else◌,
}
use inter_uss_platform.Base.Action.{Result, ok, err}
use inter_uss_platform.Errors.{Code, Fault, coded, ◌>>=◌}
use inter_uss_platform.Models.Times.{Time}
use inter_uss_platform.Models.Platform.{Platform}
use inter_uss_platform.Models.Volumes.{LatLngPoint, Geometry, polygon, Volume3D, Volume4D}
use inter_uss_platform.Models.Versions.{Version}
use inter_uss_platform.Rid.Api
use inter_uss_platform.Rid.Api.{SubscriberToNotify, SubscriptionState}
use inter_uss_platform.Rid.Models.{IdentificationServiceArea, Subscription}

-- `FromLatLngPoint`
unfoldable pub from_lat_lng_point : Api.LatLngPoint → LatLngPoint
from_lat_lng_point pt = record { lat = pt.lat; lng = pt.lng }

-- `FromGeoPolygon`
unfoldable pub from_geo_polygon : Api.GeoPolygon → Geometry
from_geo_polygon footprint = polygon (map from_lat_lng_point footprint.vertices)

-- `FromVolume3D`
unfoldable pub from_volume3d : Api.Volume3D → Volume3D
from_volume3d vol3 = record {
  altitude_hi = vol3.altitude_hi;
  altitude_lo = vol3.altitude_lo;
  footprint = some (from_geo_polygon vol3.footprint);
}

module _ (env : Platform) where
  parsed_time : Option Time → Result Fault (Option Time)
  parsed_time none = err (coded Code.no_code)
  parsed_time (some t) = ok (some t)

  -- A time that a message may lack.
  unfoldable pub time_from_text : Option String → Result Fault (Option Time)
  unfolding parsed_time
  time_from_text none = ok none
  time_from_text (some s) = parsed_time (env.parse_time s)

  -- `FromVolume4D`
  unfoldable pub from_volume4d : Api.Volume4D → Result Fault Volume4D
  from_volume4d vol4 = do
    start ← time_from_text vol4.time_start
    end ← time_from_text vol4.time_end
    ok (record {
      spatial_volume = some (from_volume3d vol4.spatial_volume);
      end_time = end;
      start_time = start;
    })

  -- A time that is missing is an empty text.
  unfoldable pub text_of_time : Option Time → String
  text_of_time none = ""
  text_of_time (some t) = env.format_time t

  -- `Version.String`
  unfoldable pub text_of_version : Option Version → String
  text_of_version none = ""
  text_of_version (some v) = v.s

  -- `ToIdentificationServiceArea`
  unfoldable pub to_identification_service_area :
      IdentificationServiceArea → Api.IdentificationServiceArea
  to_identification_service_area i = record {
    flights_url = i.url;
    owner = i.owner;
    time_start = text_of_time i.start_time;
    time_end = text_of_time i.end_time;
    version = text_of_version i.version;
    id = i.id;
  }

module _ (env : Platform) where
  -- `ToSubscription`
  unfoldable pub to_subscription : Subscription → Api.Subscription
  to_subscription s = record {
    id = s.id;
    identification_service_area_url = some s.url;
    owner = s.owner;
    notification_index = s.notification_index;
    time_end = Option.map env.format_time s.end_time;
    time_start = Option.map env.format_time s.start_time;
    version = text_of_version env s.version;
  }

-- One round of the first loop of `MakeSubscribersToNotify`.
unfoldable pub add_state :
    String → SubscriptionState → List SubscriberToNotify → List SubscriberToNotify
add_state url st [] = record { subscriptions = st ∷ []; url = url } ∷ []
add_state url st (s ∷ rest) =
    let later = add_state url st rest in
    if str_eq s.url url
    then record s { subscriptions = s.subscriptions ++ st ∷ [] } ∷ rest
    else s ∷ later

unfoldable pub group_by_url : List SubscriberToNotify → List Subscription → List SubscriberToNotify
group_by_url groups [] = groups
group_by_url groups (sub ∷ subs) =
    group_by_url
      (add_state sub.url
        (record { subscription_id = some sub.id; notification_index = some sub.notification_index })
        groups)
      subs

-- `MakeSubscribersToNotify`. The order in which the Go map of URLs is read is left open; here it is
-- that of the first subscription with each URL.
unfoldable pub make_subscribers_to_notify : List Subscription → List SubscriberToNotify
make_subscribers_to_notify subscriptions = group_by_url [] subscriptions
