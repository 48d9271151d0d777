-- ===== src/Tests/Served.antt =====
-- Version 1 of the API of remote identification: a service area that is created and then deleted.
use inter_uss_platform.Base.{◌≡◌, ◌+◌, refl, true, false, some, none, [], ◌∷◌, leb, arith}
use inter_uss_platform.Base.Int.{pos}
use inter_uss_platform.Base.Lists.{any}
use inter_uss_platform.Models.Versions.{unix_epoch}
use inter_uss_platform.Scd.Store.{max_int4}
use inter_uss_platform.Scd.Server.{Reply, success}
use inter_uss_platform.Rid.Api.{LatLngPoint, ChangeIdentificationServiceAreaResponse}
use inter_uss_platform.Rid.Store.{Db, Tx}
use inter_uss_platform.Rid.Store.Areas.{row_of}
use inter_uss_platform.Rid.Models.{IdentificationServiceArea}
use inter_uss_platform.Rid.V1.Conversions.{to_identification_service_area}
use inter_uss_platform.Rid.Store.Areas.{area_of}
use inter_uss_platform.Rid.V1.Params.{Request}
use inter_uss_platform.Rid.V1.Areas.{
  create_identification_service_area, delete_identification_service_area,
}
use inter_uss_platform.Rid.V1.Areas.Created.{deletion, created-deleted}
use inter_uss_platform.Tests.Samples.{platform}

abbrev at_epoch : Tx
at_epoch = record { timestamp = unix_epoch + 1; clock = 8 }

abbrev point : LatLngPoint
point = record { lng = pos 1; lat = pos 2 }

abbrev area_request : Request
area_request = record {
  auth = record { client_id = some "uss1"; scopes = []; error = none };
  id = "a1";
  version = "";
  body = some (record {
    extents = record {
      spatial_volume = record {
        footprint = record {
          vertices =
              point
              ∷ record { lng = pos 2; lat = pos 2 }
              ∷ record { lng = pos 2; lat = pos 3 }
              ∷ [];
        };
        altitude_lo = none;
        altitude_hi = none;
      };
      time_start = none;
      time_end = some "end";
    };
    flights_url = "https://uss1";
  });
}

abbrev created_area : IdentificationServiceArea
created_area = record {
  id = "a1";
  url = "https://uss1";
  owner = "uss1";
  cells = 1 ∷ [];
  start_time = some 8;
  end_time = some 15;
  version = none;
  altitude_hi = none;
  altitude_lo = none;
  writer = "local";
}

abbrev no_areas : Db
no_areas = record { areas = []; subscriptions = [] }

abbrev with_area : Db
with_area = record { areas = row_of at_epoch created_area ∷ []; subscriptions = [] }

abbrev created_reply : ChangeIdentificationServiceAreaResponse
created_reply = record {
  subscribers = [];
  service_area = to_identification_service_area platform (area_of (row_of at_epoch created_area));
}

create-run :
    create_identification_service_area platform at_epoch 8 "local" false area_request no_areas
    ≡ (success created_reply, with_area)
unfolding create_identification_service_area inter_uss_platform.Scd.Server.reply
    inter_uss_platform.Rid.V1.Areas.create_for inter_uss_platform.Base.Action.◌>>=◌
    inter_uss_platform.Rid.V1.Params.area_of_request inter_uss_platform.Base.Tests.str_eq
    inter_uss_platform.Rid.V1.Params.is_missing inter_uss_platform.Rid.V1.Conversions.from_volume4d
    inter_uss_platform.Rid.V1.Conversions.time_from_text
    inter_uss_platform.Models.Ids.id_from_string inter_uss_platform.Rid.V1.Params.check_url
    inter_uss_platform.Rid.Models.validate_url inter_uss_platform.Rid.Models.set_isa_extents
    inter_uss_platform.Rid.Models.extents_of inter_uss_platform.Rid.V1.Conversions.from_volume3d
    inter_uss_platform.Models.Volumes.geometry_covering
    inter_uss_platform.Rid.V1.Conversions.from_geo_polygon any
    inter_uss_platform.Rid.V1.Conversions.from_lat_lng_point inter_uss_platform.Base.Action.transact
    inter_uss_platform.Base.Lists.all inter_uss_platform.Base.Lists.filter
    inter_uss_platform.Base.Tables.update_where inter_uss_platform.Errors.get_code
    inter_uss_platform.Models.TimeRanges.adjusted_end
    inter_uss_platform.Models.TimeRanges.adjusted_start inter_uss_platform.Models.Times.is_negative
    inter_uss_platform.Models.Times.longer inter_uss_platform.Models.Times.sub
    inter_uss_platform.Models.Versions.digit inter_uss_platform.Models.Versions.format_digits
    inter_uss_platform.Models.Versions.unix_nano
    inter_uss_platform.Models.Versions.version_from_time
    inter_uss_platform.Rid.Application.Areas.insert_isa_action
    inter_uss_platform.Rid.Application.Areas.insert_isa_app
    inter_uss_platform.Rid.Models.adjust_isa_time_range
    inter_uss_platform.Rid.V1.Areas.change_response inter_uss_platform.Rid.V1.Areas.create_status
    inter_uss_platform.Rid.V1.Conversions.add_state
    inter_uss_platform.Rid.V1.Conversions.group_by_url
    inter_uss_platform.Rid.V1.Conversions.make_subscribers_to_notify
    inter_uss_platform.Rid.V1.Conversions.text_of_time
    inter_uss_platform.Rid.V1.Conversions.text_of_version to_identification_service_area
    inter_uss_platform.Rid.V1.Params.bare_area area_of inter_uss_platform.Rid.Store.Areas.get_isa
    inter_uss_platform.Rid.Store.Areas.insert_isa row_of
    inter_uss_platform.Rid.Store.Subscriptions.in_cells
    inter_uss_platform.Rid.Store.Subscriptions.increment
    inter_uss_platform.Rid.Store.Subscriptions.subscription_of
    inter_uss_platform.Rid.Store.Subscriptions.update_notification_idxs_in_cells
    inter_uss_platform.Rid.Store.ends_from inter_uss_platform.Rid.Store.valid_cells
    inter_uss_platform.Rid.Store.writer_of inter_uss_platform.Scd.Server.set_auth_error
    inter_uss_platform.Scd.Store.at_most_one inter_uss_platform.Scd.Store.in_order
    inter_uss_platform.Scd.Store.overlap inter_uss_platform.Models.Covering.covering
    inter_uss_platform.Models.Covering.validate_loop inter_uss_platform.Models.Covering.range
    inter_uss_platform.Models.Covering.crosses_later inter_uss_platform.Models.Covering.upper_bound
    inter_uss_platform.Models.Covering.loop_or_polyline
    inter_uss_platform.Models.Chords.loop_area_km2
create-run = refl

none_at_limit : any (λ r. leb max_int4 r.notification_index) with_area.subscriptions ≡ false
unfolding any
none_at_limit = refl

created-deleted_example :
    (reply : ChangeIdentificationServiceAreaResponse) × (after : Db)
    × (delete_identification_service_area platform at_epoch
          (deletion area_request created_reply.service_area.version)
          with_area
        ≡ (success reply, after))
    × (after.areas ≡ no_areas.areas)
created-deleted_example =
    created-deleted platform at_epoch at_epoch 8 "local" false area_request no_areas with_area
      created_reply create-run (omega arith) (omega arith) none_at_limit
