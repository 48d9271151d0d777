-- ===== src/Tests/Remote.antt =====
-- Remote identification: a subscription, and areas that have expired.
use inter_uss_platform.Base.{
  ◌+◌, ◌≡◌, ◌≢◌, ◌≤◌, ◌↔◌, ◌&&◌, refl, true, false, Option, some, none, [], ◌∷◌, Mem, length, leb,
  arith,
}
use inter_uss_platform.Base.Lists.{filter, any, take, all}
use inter_uss_platform.Base.Tests.{str_eq}
use inter_uss_platform.Base.Tables.{delete_where, update_where}
use inter_uss_platform.Base.Action.{ok, ◌>>=◌}
use inter_uss_platform.Models.Versions.{
  Version, matches, unix_epoch, version_from_time, version_from_string, to_timestamp,
}
use inter_uss_platform.Models.Versions.Texts.{version_from_string-version_from_time}
use inter_uss_platform.Scd.Store.{in_order, at_most_one, max_int4, overlap}
use inter_uss_platform.Rid.Models.{Subscription}
use inter_uss_platform.Rid.Store.{AreaRow, Db, Tx, valid_cells, ends_from, writer_of}
use inter_uss_platform.Rid.Store.Areas.{
  area_of, is_version, get_isa, delete_isa, list_expired_isas, has_expired, written_by,
}
use inter_uss_platform.Rid.Store.Subscriptions.{
  subscription_of, row_of, in_cells, increment, update_notification_idxs_in_cells, occurrences,
  subscriptions_per_cell, greatest, max_subscription_count_in_cells_by_owner, get_subscription,
  insert_subscription,
}
use inter_uss_platform.Rid.Application.Subscriptions.{check_count, insert_subscription_action}
use inter_uss_platform.Rid.Application.Areas.{found, check_deletable, delete_isa_action}
use inter_uss_platform.Rid.Application.Changes.{delete_isa_removes_only}
use inter_uss_platform.Rid.Application.Success.{Deletable}
use inter_uss_platform.Rid.Application.Limited.{Limited, Distinct}
use inter_uss_platform.Rid.Application.Reachable.{
  subscription_inserted, empty, then, Reachable-Limited,
}
use inter_uss_platform.Rid.Garbage.{delete_isas, delete_expired_isas}
use inter_uss_platform.Rid.Garbage.Stops.{delete_expired_isas_stops}
use inter_uss_platform.Tests.Samples.{platform}

version_round_trip_example :
    version_from_string (version_from_time (unix_epoch + 1)).s
    ≡ ok (version_from_time (unix_epoch + 1))
version_round_trip_example =
    version_from_string-version_from_time (unix_epoch + 1) (omega arith) (omega arith)

abbrev rid_tx : Tx
rid_tx = record { timestamp = 7; clock = 8 }

abbrev rid_subscription : Subscription
rid_subscription = record {
  id = "r1";
  url = "https://uss1";
  notification_index = 0;
  owner = "uss1";
  cells = 1 ∷ 2 ∷ [];
  start_time = some 10;
  end_time = some 20;
  version = none;
  altitude_hi = none;
  altitude_lo = none;
  writer = "";
}

abbrev no_rows : Db
no_rows = record { areas = []; subscriptions = [] }

abbrev one_row : Db
one_row = record { areas = []; subscriptions = row_of rid_tx rid_subscription ∷ [] }

insert-run :
    insert_subscription_action platform rid_tx rid_subscription no_rows
    ≡ (ok (some (subscription_of (row_of rid_tx rid_subscription))), one_row)
unfolding insert_subscription_action ◌>>=◌ get_subscription at_most_one filter check_count
    max_subscription_count_in_cells_by_owner greatest subscriptions_per_cell insert_subscription
    valid_cells all any in_order delete_expired_isas list_expired_isas delete_isas take has_expired
    written_by str_eq delete_isa is_version area_of to_timestamp version_from_time delete_where
insert-run = refl

cells-Distinct : Distinct (1 ∷ 2 ∷ [])
unfolding occurrences
cells-Distinct c = ground arith

Reachable-Limited_example : Limited 8 one_row.subscriptions
Reachable-Limited_example =
    Reachable-Limited platform (record { now = 8; db = one_row })
      (then empty (
        subscription_inserted rid_tx rid_subscription
          (some (subscription_of (row_of rid_tx rid_subscription))) no_rows one_row cells-Distinct
          insert-run))

abbrev old_area : AreaRow
old_area = record {
  id = "a1";
  owner = "uss1";
  url = "https://uss1";
  cells = 1 ∷ [];
  starts_at = some 10;
  ends_at = some 20;
  writer = some "w";
  updated_at = 3;
}

abbrev other_area : AreaRow
other_area = record old_area { id = "a2" }

abbrev two_areas : Db
two_areas = record { areas = old_area ∷ other_area ∷ []; subscriptions = [] }

abbrev one_area : Db
one_area = record { areas = other_area ∷ []; subscriptions = [] }

abbrev late_tx : Tx
late_tx = record { timestamp = 1800000000030; clock = 1800000000030 }

collect-run : delete_expired_isas late_tx "w" two_areas ≡ (ok tt, one_area)
unfolding delete_expired_isas ◌>>=◌ list_expired_isas delete_isas take filter has_expired written_by
    str_eq delete_isa at_most_one is_version area_of to_timestamp version_from_time delete_where
collect-run = refl

delete_expired_isas_stops_example : length two_areas.areas ≤ length one_area.areas + 1
delete_expired_isas_stops_example =
    delete_expired_isas_stops late_tx "w" two_areas one_area collect-run

abbrev watched : Db
watched = record {
  areas = old_area ∷ other_area ∷ [];
  subscriptions = row_of rid_tx rid_subscription ∷ [];
}

abbrev unwatched : Db
unwatched = record {
  areas = other_area ∷ [];
  subscriptions = record (row_of rid_tx rid_subscription) { notification_index = 1 } ∷ [];
}

abbrev present : Option Version
present = some (version_from_time 3)

present-run : matches present (some (version_from_time 3)) ≡ true
unfolding matches str_eq version_from_time inter_uss_platform.Models.Versions.format_digits
    inter_uss_platform.Models.Versions.unix_nano delete_isa_action ◌>>=◌ get_isa at_most_one filter
    found check_deletable area_of delete_isa is_version to_timestamp
    update_notification_idxs_in_cells any in_cells overlap row_of ends_from delete_where
    update_where inter_uss_platform.Models.Versions.digit increment subscription_of writer_of
present-run = refl

delete_isa-run : delete_isa_action platform rid_tx "a1" "uss1" present watched ≡ (
  ok (
    some (area_of old_area),
    subscription_of (record (row_of rid_tx rid_subscription) { notification_index = 1 }) ∷ [],
  ),
  unwatched,
)
unfolding delete_isa_action ◌>>=◌ get_isa at_most_one filter str_eq found check_deletable matches
    area_of version_from_time inter_uss_platform.Models.Versions.format_digits
    inter_uss_platform.Models.Versions.unix_nano delete_isa is_version to_timestamp
    update_notification_idxs_in_cells any in_cells overlap row_of ends_from delete_where
    update_where inter_uss_platform.Models.Versions.digit increment subscription_of writer_of
delete_isa-run = refl

delete_isa_removes_only_example :
    (row : AreaRow) × Mem row watched.areas
    × (row.id ≡ "a1")
    × (row.owner ≡ "uss1")
    × (matches present (some (version_from_time row.updated_at)) ≡ true)
    × ((other : AreaRow)
        → Mem other unwatched.areas ↔ (Mem other watched.areas × (other.id ≢ "a1")))
    × (unwatched.subscriptions
        ≡ update_where (in_cells row.cells rid_tx.clock) increment watched.subscriptions)
delete_isa_removes_only_example =
    delete_isa_removes_only platform rid_tx "a1" "uss1" present watched unwatched _ delete_isa-run

one-run : filter (λ r. str_eq r.id "a1") watched.areas ≡ old_area ∷ []
unfolding filter str_eq
one-run = refl

below-run :
    any
      (λ r. in_cells old_area.cells rid_tx.clock r && leb max_int4 r.notification_index)
      watched.subscriptions
    ≡ false
unfolding any in_cells overlap row_of ends_from
below-run = refl

-- The area of the test can be deleted.
watched-Deletable : Deletable rid_tx "a1" "uss1" present watched old_area
watched-Deletable = (one-run, refl, present-run, below-run)
