-- ===== src/Tests/Values.antt =====
-- Parameters, volumes, times and notifications, and the theorems at these values.
use inter_uss_platform.Base.{
  ◌%◌, ◌≡◌, ◌≤◌, ◌+◌, refl, inl, inr, true, false, none, some, [], ◌∷◌, ℕ, ◌<◌, List,
}
use inter_uss_platform.Base.Int.{pos, ◌≤ℤ◌}
use inter_uss_platform.Base.Action.{ok}
use inter_uss_platform.Api.{PutOperationalIntentReferenceParameters}
use inter_uss_platform.Models.Times.{Time, sub, abs, longer, is_negative, is_zero, after, before}
use inter_uss_platform.Models.TimeRanges.{
  adjust_range, max_subscription_duration, max_clock_skew, adjust_range_sound,
}
use inter_uss_platform.Models.Ids.{id_from_string, id_from_optional_string}
use inter_uss_platform.Models.Platform.{Platform, Uuid, Point}
use inter_uss_platform.Models.Volumes.{
  Volume4D, precomputed, geometry_covering, volume4d_from_scd_rest, calculate_spatial_covering,
  calculate_covering,
}
use inter_uss_platform.Base.Tests.{str_eq, str_eq-false}
use inter_uss_platform.Base.Lists.{any}
use inter_uss_platform.Scd.Models.OperationalIntents.{requires_subscription, is_valid_in_dss}
use inter_uss_platform.Scd.OperationalIntents.Params.{
  ValidOirParams, validate_and_return_upsert_params, parse_extents,
}
use inter_uss_platform.Scd.OperationalIntents.Params.Valid.{Valid, accepted_params-Valid}
use inter_uss_platform.Scd.OperationalIntents.Upsert.{Request, update_operational_intent_reference}
use inter_uss_platform.Scd.OperationalIntents.Upsert.Refused.{MayChange, Refuses, update_refused}
use inter_uss_platform.Errors.{some-injective}
use inter_uss_platform.Models.Chords.{
  chord_segments_intersect, vectors_intersect, same_side, loop_area_km2,
}
use inter_uss_platform.Models.Chords.Apart.{Apart}
use inter_uss_platform.Models.Covering.{
  covering, validate_loop, range, crosses_later, upper_bound, edges_cross, point_at, oriented,
  loop_or_polyline, max_allowed_area_km2,
}
use inter_uss_platform.Models.Covering.Sound.{IsOrientation, CoversLoop, covering_sound}
use inter_uss_platform.Models.Union.{union_volumes4d}
use inter_uss_platform.Models.Union.Hull.{IsHull, union_volumes4d-IsHull}
use inter_uss_platform.Scd.Models.Ovns.{
  ◌+++◌, validate_uss_base_url, new_ovn_from_uuid_v7_suffix, new_ovn_from_uuid_v7_suffix_sound,
}
use inter_uss_platform.Tests.Samples.{platform, volume, tx, db, second_row}

adjust-run : adjust_range 100 (some 200) none none ≡ ok (200, 200 + max_subscription_duration)
unfolding adjust_range longer sub is_negative
adjust-run = refl

-- Identifiers of version 7, at time 50.
abbrev platform_v7 : Platform
platform_v7 = record platform {
  parse_uuid = λ s. some (record { text = s; is_rfc4122 = true; version = 7; time = 50 });
}

ovn-run : new_ovn_from_uuid_v7_suffix platform_v7 60 "o1" "x" ≡ ok "o1_x"
unfolding new_ovn_from_uuid_v7_suffix abs sub
ovn-run = refl

adjust_range_sound_example :
    (200 ≤ 200 + max_subscription_duration)
    × (200 + max_subscription_duration ≤ 200 + max_subscription_duration)
    × ((t : Time) → some 200 ≡ some t → (200 ≡ t) × (100 ≤ t + max_clock_skew))
    × ((t : Time) → none ≡ some t → 200 + max_subscription_duration ≡ t)
adjust_range_sound_example =
    adjust_range_sound 100 (some 200) none none 200 (200 + max_subscription_duration) adjust-run

new_ovn_from_uuid_v7_suffix_sound_example :
    (u : Uuid) × (platform_v7.parse_uuid "x" ≡ some u)
    × (u.version ≡ 7)
    × (60 ≤ u.time + max_clock_skew)
    × (u.time ≤ 60 + max_clock_skew)
    × ("o1_x" ≡ "o1" +++ "_" +++ "x")
new_ovn_from_uuid_v7_suffix_sound_example =
    new_ovn_from_uuid_v7_suffix_sound platform_v7 60 "o1" "x" "o1_x" ovn-run

abbrev united : Volume4D
united = record volume {
  end_time = some 30;
  spatial_volume = some (record {
    footprint = some (precomputed (1 ∷ []));
    altitude_lo = some (pos 0);
    altitude_hi = some (pos 9);
  });
}

-- A volume with a later end and no start.
abbrev later : Volume4D
later = record volume { start_time = none; end_time = some 30 }

union-run : union_volumes4d platform (volume ∷ later ∷ []) ≡ ok united
unfolding union_volumes4d geometry_covering is_zero after before any
union-run = refl

union_volumes4d-IsHull_example : IsHull platform (volume ∷ later ∷ []) united
union_volumes4d-IsHull_example =
    union_volumes4d-IsHull platform (volume ∷ later ∷ []) united union-run

-- A request for a circle of 5 metres, at one time.
abbrev request : PutOperationalIntentReferenceParameters
request = record {
  extents =
      record {
        volume = record {
          outline_circle = some (record {
            center = some (record { lat = pos 0; lng = pos 0 });
            radius = some (record { value = pos 5; units = "M" });
          });
          outline_polygon = none;
          altitude_lower = none;
          altitude_upper = none;
        };
        time_start = some (record { value = "t"; format = "RFC3339" });
        time_end = some (record { value = "t"; format = "RFC3339" });
      }
      ∷ [];
  key = none;
  state = "Accepted";
  uss_base_url = "https://uss1";
  subscription_id = none;
  new_subscription = none;
  requested_ovn_suffix = none;
}

abbrev accepted : ValidOirParams
accepted = record {
  id = "o3";
  ovn = "";
  new_ovn = "";
  state = "Accepted";
  u_extent = record {
    spatial_volume = some (record {
      footprint = some (precomputed (1 ∷ []));
      altitude_lo = none;
      altitude_hi = none;
    });
    start_time = some 15;
    end_time = some 15;
  };
  cells = 1 ∷ [];
  subscription_id = "";
  uss_base_url = "https://uss1";
  implicit_subscription = record { requested = false; base_url = ""; for_constraints = false };
  key = [];
}

validate-run : validate_and_return_upsert_params platform 10 "o3" "" request false ≡ ok accepted
unfolding validate_and_return_upsert_params id_from_string str_eq id_from_optional_string
    validate_uss_base_url is_valid_in_dss parse_extents volume4d_from_scd_rest union_volumes4d
    geometry_covering is_zero after before calculate_spatial_covering calculate_covering
    requires_subscription any
validate-run = refl

accepted_params-Valid_example :
    (accepted.state ≡ request.state) × (accepted.ovn ≡ "") × Valid platform 10 accepted
accepted_params-Valid_example =
    accepted_params-Valid platform 10 "o3" "" request false accepted validate-run

-- The first user asks to change the operational intent of the second one, with its present OVN.
abbrev foreign : Request PutOperationalIntentReferenceParameters
foreign = record {
  auth = record { client_id = some "uss1"; scopes = []; error = none };
  entityid = "o2";
  ovn = "C";
  body = some request;
}

foreign-id : id_from_string platform foreign.entityid ≡ ok second_row.id
unfolding id_from_string
foreign-id = refl

foreign_caller : ¬ (MayChange platform tx 10 false foreign.auth foreign.ovn db second_row)
foreign_caller (e, k) = str_eq-false "uss1" "uss2" (unfold str_eq in refl) (some-injective e)

update_refused_example :
    Refuses platform tx 10 false
      (update_operational_intent_reference platform tx 10 false foreign db)
      db
update_refused_example =
    update_refused platform tx 10 false foreign db second_row (inr (inl refl)) foreign-id
      foreign_caller

-- A square.
abbrev square : List Point
square = (pos 0, pos 0) ∷ (pos 0, pos 1) ∷ (pos 1, pos 1) ∷ (pos 1, pos 0) ∷ []

covering-run : covering platform square ≡ ok (1 ∷ [])
unfolding covering validate_loop range crosses_later upper_bound edges_cross point_at oriented
    loop_or_polyline any chord_segments_intersect vectors_intersect same_side loop_area_km2
covering-run = refl

covering_sound_example :
    ((i j : ℕ)
      → i + 2 ≤ j
      → j < 4
      → ¬ ((i ≡ 0) × (j + 1 ≡ 4))
      → Apart platform
          (point_at square i)
          (point_at square (i + 1))
          (point_at square j)
          (point_at square ((j + 1) % 4)))
    × ((loop : List Point) × IsOrientation square loop
        × (loop_area_km2 platform loop ≤ℤ max_allowed_area_km2)
        × CoversLoop platform loop (1 ∷ []))
covering_sound_example = covering_sound platform square (1 ∷ []) covering-run
