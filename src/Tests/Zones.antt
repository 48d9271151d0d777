-- ===== src/Tests/Zones.antt =====
-- A put and a deletion of a constraint, and the theorems at these runs.
use inter_uss_platform.Base.{◌≡◌, ◌≢◌, ◌↔◌, ◌⊎◌, refl, inl, Mem, true, some, [], ◌∷◌}
use inter_uss_platform.Base.Int.{pos}
use inter_uss_platform.Base.Action.{ok}
use inter_uss_platform.Api.{ChangeConstraintReferenceResponse}
use inter_uss_platform.Scd.Store.{ConstraintRow, Db}
use inter_uss_platform.Base.Action.{◌>>=◌}
use inter_uss_platform.Scd.Store.Subscriptions.{
  subscription_of, increment, increment_notification_indices, is_listed, search_subscriptions,
}
use inter_uss_platform.Base.Lists.{filter, any, take}
use inter_uss_platform.Base.Tests.{str_eq}
use inter_uss_platform.Base.Tables.{delete_where, update_where, upsert}
use inter_uss_platform.Models.Times.{after, before, is_zero}
use inter_uss_platform.Models.Union.{precomputed_cells, union_volumes4d}
use inter_uss_platform.Models.Volumes.{
  calculate_covering, calculate_spatial_covering, geometry_covering,
}
use inter_uss_platform.Scd.Models.Ovns.{new_ovn_from_time}
use inter_uss_platform.Scd.OperationalIntents.Notify.{assign_indices, increment_indices}
use inter_uss_platform.Scd.Server.{make_subscribers_to_notify}
use inter_uss_platform.Scd.Store.{in_order, no_later, overlap}
use inter_uss_platform.Base.Lists.{all}
use inter_uss_platform.Scd.Store.Constraints.{
  get_constraint, upsert_constraint, delete_constraint, constraint_of,
}
use inter_uss_platform.Scd.Constraints.Params.{
  ValidConstraintParams, optional, required, check_owned, check_previous, notification_volume,
  new_constraint,
}
use inter_uss_platform.Scd.Constraints.Put.{get_previous, notify_constraint, put_action}
use inter_uss_platform.Scd.Constraints.Delete.{get_required, delete_constraint_action}
use inter_uss_platform.Scd.Constraints.Run.{Describes}
use inter_uss_platform.Scd.Constraints.Effects.{
  Follows, put_replaces_only, put_fencing, delete_constraint_removes_only,
}
use inter_uss_platform.Scd.Constraints.Refinement.{MapStep, view, put, Change-MapStep}
use inter_uss_platform.Tests.Samples.{platform, tx, explicit_row, db, volume}

abbrev zone_row : ConstraintRow
zone_row = record {
  id = "c1";
  owner = "uss1";
  version = 1;
  url = "https://uss1";
  altitude_lower = some (pos 0);
  altitude_upper = some (pos 9);
  starts_at = some 10;
  ends_at = some 20;
  cells = 1 ∷ [];
  updated_at = 3;
}

abbrev zone_db : Db
zone_db = record db {
  subscriptions = record explicit_row { notify_for_constraints = true } ∷ [];
  constraints = zone_row ∷ [];
}

abbrev zone_params : ValidConstraintParams
zone_params = record {
  id = "c1";
  ovn = "c1";
  uss_base_url = "https://uss1";
  u_extent = volume;
  cells = 1 ∷ [];
}

abbrev put_db : Db
put_db = record zone_db {
  subscriptions =
      record explicit_row { notify_for_constraints = true; notification_index = 1 } ∷ [];
  constraints =
      record zone_row { version = 2; starts_at = some 12; ends_at = some 22; updated_at = 7 } ∷ [];
}

abbrev put_reply : ChangeConstraintReferenceResponse
put_reply = record {
  constraint_reference = record {
    id = "c1";
    manager = "uss1";
    uss_availability = "Unknown";
    version = 2;
    ovn = some "c1";
    time_start = some (record { value = ""; format = "RFC3339" });
    time_end = some (record { value = ""; format = "RFC3339" });
    uss_base_url = "https://uss1";
  };
  subscribers =
      record {
        subscriptions = record { subscription_id = "s2"; notification_index = 1 } ∷ [];
        uss_base_url = "https://uss2";
      }
      ∷ [];
}

put-run : put_action platform tx "uss1" zone_params zone_db ≡ (ok put_reply, put_db)
unfolding ◌>>=◌ filter str_eq any take delete_where update_where upsert after before is_zero
    precomputed_cells union_volumes4d calculate_covering calculate_spatial_covering
    geometry_covering increment increment_notification_indices is_listed search_subscriptions
    subscription_of in_order no_later overlap increment_indices assign_indices
    make_subscribers_to_notify new_ovn_from_time
    inter_uss_platform.Scd.Store.Subscriptions.in_volume
    inter_uss_platform.Scd.Store.Subscriptions.search_rows all get_constraint upsert_constraint
    delete_constraint constraint_of inter_uss_platform.Scd.Store.Constraints.row_of
    inter_uss_platform.Scd.Models.Constraints.to_rest optional required check_owned check_previous
    inter_uss_platform.Scd.Constraints.Params.next_version
    inter_uss_platform.Scd.Constraints.Params.volume_of notification_volume new_constraint
    get_previous notify_constraint put_action get_required delete_constraint_action
put-run = refl

put_replaces_only_example :
    (row : ConstraintRow) × Describes platform tx "uss1" zone_params row
    × Follows platform tx zone_db "c1" row
    × (put_db.operations ≡ zone_db.operations)
    × ((other : ConstraintRow)
        → Mem other put_db.constraints
          ↔ ((other ≡ row) ⊎ ((other.id ≢ "c1") × Mem other zone_db.constraints)))
put_replaces_only_example =
    put_replaces_only platform tx "uss1" zone_params zone_db put_db put_reply put-run

put_fencing_example :
    (zone_row.owner ≡ "uss1") × ((constraint_of platform zone_row).ovn ≡ zone_params.ovn)
put_fencing_example =
    put_fencing platform tx "uss1" zone_params zone_db put_db put_reply zone_row put-run (inl refl)
      refl

abbrev cleared_db : Db
cleared_db = record put_db { constraints = [] }

abbrev cleared_reply : ChangeConstraintReferenceResponse
cleared_reply = record put_reply {
  constraint_reference = record put_reply.constraint_reference { version = 1 };
}

clear-run :
    delete_constraint_action platform tx "uss1" "c1" "c1" zone_db ≡ (ok cleared_reply, cleared_db)
unfolding ◌>>=◌ filter str_eq any take delete_where update_where upsert after before is_zero
    precomputed_cells union_volumes4d calculate_covering calculate_spatial_covering
    geometry_covering increment increment_notification_indices is_listed search_subscriptions
    subscription_of in_order no_later overlap increment_indices assign_indices
    make_subscribers_to_notify new_ovn_from_time
    inter_uss_platform.Scd.Store.Subscriptions.in_volume
    inter_uss_platform.Scd.Store.Subscriptions.search_rows all get_constraint upsert_constraint
    delete_constraint constraint_of inter_uss_platform.Scd.Store.Constraints.row_of
    inter_uss_platform.Scd.Models.Constraints.to_rest optional required check_owned check_previous
    inter_uss_platform.Scd.Constraints.Params.next_version
    inter_uss_platform.Scd.Constraints.Params.volume_of notification_volume new_constraint
    get_previous notify_constraint put_action get_required delete_constraint_action
clear-run = refl

delete_constraint_removes_only_example :
    (row : ConstraintRow) × Mem row zone_db.constraints
    × (row.id ≡ "c1")
    × (row.owner ≡ "uss1")
    × ((constraint_of platform row).ovn ≡ "c1")
    × ((other : ConstraintRow)
        → Mem other cleared_db.constraints ↔ (Mem other zone_db.constraints × (other.id ≢ "c1")))
delete_constraint_removes_only_example =
    delete_constraint_removes_only platform tx "uss1" "c1" "c1" zone_db cleared_db cleared_reply
      clear-run

Change-MapStep_example : MapStep "uss1" (view zone_db) (view put_db)
Change-MapStep_example =
    Change-MapStep platform "uss1" zone_db put_db (put tx zone_params put_reply put-run)
