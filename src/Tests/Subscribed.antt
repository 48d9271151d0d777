-- ===== src/Tests/Subscribed.antt =====
-- A put, a deletion and a query of subscriptions, and the theorems at these runs.
use inter_uss_platform.Base.{
  ◌+◌, ◌≡◌, ◌≢◌, ◌≤◌, ◌↔◌, ◌⊎◌, refl, inl, inr, Mem, true, false, some, none, [], ◌∷◌, arith,
}
use inter_uss_platform.Base.Lists.{filter, any, take}
use inter_uss_platform.Base.Tests.{str_eq}
use inter_uss_platform.Base.Action.{ok, ◌>>=◌}
use inter_uss_platform.Base.Tables.{delete_where, upsert}
use inter_uss_platform.Api
use inter_uss_platform.Api.{PutSubscriptionResponse}
use inter_uss_platform.Api.{UssAvailabilityStatusResponse}
use inter_uss_platform.Scd.Models.Availability.{normal}
use inter_uss_platform.Scd.Availability.{get_action, set_action}
use inter_uss_platform.Scd.Availability.Effects.{get-set_availability}
use inter_uss_platform.Models.Times.{Time, sub, longer, after, before, is_negative}
use inter_uss_platform.Models.TimeRanges.{
  adjust_range, adjusted_start, adjusted_end, max_subscription_duration,
}
use inter_uss_platform.Models.Volumes.{
  geometry_covering, calculate_covering, calculate_spatial_covering,
}
use inter_uss_platform.Scd.Models.Ovns.{new_ovn_from_time}
use inter_uss_platform.Scd.Models.Subscriptions.{
  Subscription, adjust_time_range, validate_dependent_op, validate_dependent_ops, altitude_outside,
  to_rest,
}
use inter_uss_platform.Scd.Store.{
  SubscriptionRow, OperationRow, Db, in_order, no_later, no_higher, overlap, at_most_one,
}
use inter_uss_platform.Scd.Store.Frame.{others}
use inter_uss_platform.Scd.Store.Subscriptions.{
  subscription_of, row_of, in_volume, get_subscription, upsert_subscription, delete_subscription,
  search_subscriptions,
}
use inter_uss_platform.Scd.Store.OperationalIntents.{
  operational_intent_of, availability_of, depends_on, get_operational_intent,
  get_dependent_operational_intents, search_operational_intents, search_spatial, search_footprint,
}
use inter_uss_platform.Scd.OperationalIntents.Read.{hide_ovn}
use inter_uss_platform.Scd.Subscriptions.Params.{
  ValidSubscriptionParams, check_previous, check_deletable, found,
}
use inter_uss_platform.Scd.Subscriptions.Put.{
  get_operations, check_dependents, keep_index, search_on_cells, relevant_operations,
  operation_refs, constraint_refs, volume_of, put_action,
}
use inter_uss_platform.Scd.Subscriptions.Delete.{no_dependents, delete_subscription_action}
use inter_uss_platform.Scd.Subscriptions.Read.{current_ones, query_action}
use inter_uss_platform.Scd.Subscriptions.Effects.{
  Describes, put_subscription_fencing, put_subscription_replaces_only,
}
use inter_uss_platform.Scd.Subscriptions.Covers.{Covers, put_subscription-Covers}
use inter_uss_platform.Scd.Subscriptions.Removal.{delete_subscription_removes_only}
use inter_uss_platform.Scd.Subscriptions.Queried.{Shown, query_subscriptions_shows}
use inter_uss_platform.Tests.Samples.{
  platform, tx, implicit_row, explicit_row, first_row, second_row, db, volume, volume3d,
}
use inter_uss_platform.Tests.Queries.{own_reference, other_reference}

abbrev requested : ValidSubscriptionParams
requested = record {
  subreq = record {
    id = "s2";
    version = "s2";
    notification_index = 0;
    manager = "uss2";
    start_time = some 12;
    end_time = none;
    altitude_hi = volume3d.altitude_hi;
    altitude_lo = volume3d.altitude_lo;
    uss_base_url = "https://uss2";
    notify_for_operational_intents = true;
    notify_for_constraints = false;
    implicit_subscription = false;
    cells = 1 ∷ [];
  };
  extents = record volume { end_time = none };
}

abbrev replaced_row : SubscriptionRow
replaced_row = record explicit_row { starts_at = some 12; updated_at = 7 }

abbrev replaced_db : Db
replaced_db = record db { subscriptions = implicit_row ∷ replaced_row ∷ [] }

abbrev moment : Api.Time
moment = record { value = ""; format = "RFC3339" }

abbrev item : Api.Subscription
item = record {
  id = "s2";
  version = "s2";
  notification_index = 0;
  time_start = some moment;
  time_end = some moment;
  uss_base_url = "https://uss2";
  notify_for_operational_intents = true;
  notify_for_constraints = false;
  implicit_subscription = false;
  dependent_operational_intents = "o2" ∷ [];
}

abbrev replaced_reply : PutSubscriptionResponse
replaced_reply = record {
  subscription = item;
  operational_intent_references = some (
      record own_reference { ovn = some "Available from USS" }
      ∷ record other_reference { ovn = some "C" }
      ∷ []);
  constraint_references = none;
}

replace-run : put_action platform tx 12 "uss2" requested db ≡ (ok replaced_reply, replaced_db)
unfolding ◌>>=◌ put_action get_subscription filter str_eq adjust_time_range adjust_range longer sub
    subscription_of is_negative check_previous new_ovn_from_time check_dependents
    get_dependent_operational_intents get_operations depends_on keep_index get_operational_intent
    any take delete_where upsert adjusted_end adjusted_start after calculate_covering
    calculate_spatial_covering geometry_covering inter_uss_platform.Scd.Models.Availability.to_rest
    inter_uss_platform.Scd.Models.Constraints.to_rest
    inter_uss_platform.Scd.Models.OperationalIntents.to_rest altitude_outside to_rest
    validate_dependent_op validate_dependent_ops
    inter_uss_platform.Scd.OperationalIntents.Key.scrubbed_constraint hide_ovn
    inter_uss_platform.Scd.Store.Constraints.constraint_of
    inter_uss_platform.Scd.Store.Constraints.in_volume
    inter_uss_platform.Scd.Store.Constraints.search_constraints
    inter_uss_platform.Scd.Store.Constraints.search_rows availability_of
    inter_uss_platform.Scd.Store.OperationalIntents.in_volume operational_intent_of search_footprint
    search_operational_intents inter_uss_platform.Scd.Store.OperationalIntents.search_rows
    search_spatial row_of upsert_subscription at_most_one in_order no_higher no_later overlap
    constraint_refs operation_refs relevant_operations search_on_cells volume_of
replace-run = refl

put_subscription_fencing_example :
    (explicit_row.owner ≡ "uss2") × ((subscription_of platform explicit_row).version ≡ "s2")
put_subscription_fencing_example =
    put_subscription_fencing platform tx 12 "uss2" requested db replaced_db replaced_reply
      explicit_row replace-run (inr (inl refl)) refl

put_subscription_replaces_only_example :
    (row : SubscriptionRow) × Describes tx requested row
    × ((start : Time) × (end : Time) × (row.starts_at ≡ some start)
        × (row.ends_at ≡ some end)
        × (start ≤ end)
        × (end ≤ start + max_subscription_duration))
    × ((previous : SubscriptionRow)
        → Mem previous db.subscriptions
        → previous.id ≡ "s2"
        → row.notification_index ≡ previous.notification_index)
    × (others replaced_db ≡ others db)
    × ((other : SubscriptionRow)
        → Mem other replaced_db.subscriptions
          ↔ ((other ≡ row) ⊎ ((other.id ≢ "s2") × Mem other db.subscriptions)))
put_subscription_replaces_only_example =
    put_subscription_replaces_only platform tx 12 "uss2" requested db replaced_db replaced_reply
      replace-run

depends-run : depends_on "s2" second_row ≡ true
unfolding depends_on str_eq delete_subscription_action ◌>>=◌ get_subscription filter found
    check_deletable subscription_of new_ovn_from_time get_dependent_operational_intents
    no_dependents delete_subscription any to_rest delete_where calculate_spatial_covering
    calculate_covering geometry_covering in_volume query_action search_subscriptions current_ones
    take before
depends-run = refl

put_subscription-Covers_example :
    (s : Subscription) × (s.id ≡ "s2")
    × (s.altitude_lo ≡ requested.subreq.altitude_lo)
    × (s.altitude_hi ≡ requested.subreq.altitude_hi)
    × Mem (row_of tx s) replaced_db.subscriptions
    × Covers platform s (operational_intent_of platform db.availabilities second_row)
put_subscription-Covers_example =
    put_subscription-Covers platform tx 12 "uss2" requested db replaced_db replaced_reply
      explicit_row second_row replace-run (inr (inl refl)) refl (inr (inl refl)) depends-run

-- The same airspace without the operational intent that the second subscription serves.
abbrev lone_db : Db
lone_db = record db { operations = first_row ∷ [] }

abbrev freed_db : Db
freed_db = record lone_db { subscriptions = implicit_row ∷ [] }

abbrev lone_item : Api.Subscription
lone_item = record item { dependent_operational_intents = [] }

free-run : delete_subscription_action platform "uss2" "s2" "s2" lone_db ≡ (ok lone_item, freed_db)
unfolding delete_subscription_action ◌>>=◌ get_subscription filter str_eq found check_deletable
    subscription_of new_ovn_from_time get_dependent_operational_intents no_dependents depends_on
    delete_subscription any to_rest delete_where calculate_spatial_covering calculate_covering
    geometry_covering in_volume
free-run = refl

delete_subscription_removes_only_example :
    (row : SubscriptionRow) × Mem row lone_db.subscriptions
    × (row.id ≡ "s2")
    × (row.owner ≡ "uss2")
    × ((subscription_of platform row).version ≡ "s2")
    × ((other : SubscriptionRow)
        → Mem other freed_db.subscriptions ↔ (Mem other lone_db.subscriptions × (other.id ≢ "s2")))
    × ((o : OperationRow) → Mem o freed_db.operations ↔ Mem o lone_db.operations)
delete_subscription_removes_only_example =
    delete_subscription_removes_only platform "uss2" "s2" "s2" lone_db freed_db lone_item free-run

shown-run : query_action platform 12 "uss2" volume db ≡ (ok (item ∷ []), db)
unfolding query_action ◌>>=◌ calculate_spatial_covering calculate_covering geometry_covering
    in_volume filter any search_subscriptions current_ones take subscription_of before str_eq
    get_dependent_operational_intents to_rest new_ovn_from_time depends_on
shown-run = refl

covering-run : calculate_spatial_covering platform volume ≡ ok (1 ∷ [])
unfolding calculate_spatial_covering calculate_covering geometry_covering in_volume filter any
covering-run = refl

query_subscriptions_shows_example : Mem item (item ∷ []) ↔ (
    (row : SubscriptionRow) × Mem row db.subscriptions
    × (in_volume (1 ∷ []) volume row ≡ true)
    × Shown platform 12 "uss2" db (subscription_of platform row) item)
unfolding in_volume filter any
query_subscriptions_shows_example =
    query_subscriptions_shows platform 12 "uss2" volume (1 ∷ []) db db (item ∷ []) item shown-run
      covering-run (omega arith)

get-set_availability_example :
    (r : UssAvailabilityStatusResponse) × (db' : Db) × (set_action platform tx "uss1" normal db
      ≡ (ok r, db'))
    × (get_action platform "uss1" db' ≡ (ok r, db'))
    × (r.availability ≡ inter_uss_platform.Scd.Models.Availability.to_rest normal)
    × (availability_of db'.availabilities "uss1" ≡ normal)
    × (db'.operations ≡ db.operations)
get-set_availability_example = get-set_availability platform tx "uss1" normal db
