-- ===== src/Tests/Notices.antt =====
-- Conflicts and notifications, and the theorems at these runs.
use inter_uss_platform.Base.{
  ◌≡◌, refl, sym, ap, ◌∙◌, inl, inr, true, false, none, some, List, [], ◌∷◌, Mem, str_eq-false,
  arith,
}
use inter_uss_platform.Base.Action.{ok, err}
use inter_uss_platform.Api.{OperationalIntentReference, AirspaceConflictResponse}
use inter_uss_platform.Errors.{conflict}
use inter_uss_platform.Scd.Models.OperationalIntents.{OperationalIntent}
use inter_uss_platform.Scd.Models.Subscriptions.{Subscription}
use inter_uss_platform.Scd.Store.{SubscriptionRow, Db}
use inter_uss_platform.Scd.OperationalIntents.Params.{ValidOirParams}
use inter_uss_platform.Scd.OperationalIntents.Key.Missing.{Tells, conflict_scrubbed}
use inter_uss_platform.Scd.OperationalIntents.Notify.Increments.{
  notify_increments, notify_keeps_others,
}
use inter_uss_platform.Tests.Samples.{
  platform, tx, implicit_row, explicit_row, explicit_row_notified, first_row, second_row, db,
  volume, params, changed_reply,
}
use inter_uss_platform.Base.Action.{◌>>=◌}
use inter_uss_platform.Scd.Store.Subscriptions.{
  lock_subscriptions_on_cells, get_subscription, subscription_of, increment,
  increment_notification_indices, is_listed, search_subscriptions, upsert_subscription,
  delete_subscription,
}
use inter_uss_platform.Scd.Store.OperationalIntents.{
  get_operational_intent, operational_intent_of, get_dependent_operational_intents, depends_on,
  availability_of, checks, refers, requested_ovn, upsert_operational_intent,
  search_operational_intents, search_spatial, search_footprint, delete_operational_intent,
}
use inter_uss_platform.Base.Lists.{filter, any, take}
use inter_uss_platform.Base.Tests.{str_eq}
use inter_uss_platform.Scd.OperationalIntents.Params.{
  validate_upsert_request_against_previous_oir, to_oir,
}
use inter_uss_platform.Scd.OperationalIntents.Attach.{
  get_previous_subscription, remove_previous_implicit_subscription, is_being_replaced,
  subscription_is_implicit_and_only_attached_to_oir, attach_subscription,
  create_and_store_new_implicit_subscription,
}
use inter_uss_platform.Base.Tables.{delete_where, update_where, upsert}
use inter_uss_platform.Models.Times.{after, before, is_zero}
use inter_uss_platform.Models.Union.{precomputed_cells, union_volumes4d}
use inter_uss_platform.Models.Volumes.{
  calculate_covering, calculate_spatial_covering, geometry_covering,
}
use inter_uss_platform.Scd.Models.OperationalIntents.{requires_key, state_requires_key}
use inter_uss_platform.Scd.Models.Ovns.{new_ovn_from_time}
use inter_uss_platform.Scd.OperationalIntents.Notify.{
  assign_indices, compute_notification_volume, get_relevant_subscriptions_and_increment_indices,
  increment_indices, volume_of,
}
use inter_uss_platform.Scd.OperationalIntents.Upsert.{
  next_past_ovns, next_version, store_oir, upsert_action,
}
use inter_uss_platform.Scd.Server.{make_subscribers_to_notify}
use inter_uss_platform.Scd.Store.{at_most_one, in_order, no_later, no_higher, overlap}
use inter_uss_platform.Scd.OperationalIntents.Key.{
  validate_key_and_provide_conflict_response, is_missing, in_key, search_if_notified, scrubbed,
}
use inter_uss_platform.Scd.OperationalIntents.Delete.{delete_action}

abbrev without_key : ValidOirParams
without_key = record params { key = [] }

abbrev relevant : List OperationalIntent
relevant =
    operational_intent_of platform [] first_row ∷ operational_intent_of platform [] second_row ∷ []

-- The reference of the operational intent of the other user, its OVN scrubbed.
abbrev missing_reference : OperationalIntentReference
missing_reference = record changed_reply.operational_intent_reference {
  id = "o2";
  manager = "uss2";
  version = 1;
  state = "Accepted";
  ovn = some "Available from USS";
  uss_base_url = "https://uss2";
  subscription_id = "s2";
}

abbrev response : AirspaceConflictResponse
response = record {
  missing_operational_intents = some (missing_reference ∷ []);
  missing_constraints = none;
}

search-run : search_operational_intents platform without_key.u_extent db ≡ (ok relevant, db)
unfolding ◌>>=◌ lock_subscriptions_on_cells get_operational_intent filter str_eq
    validate_upsert_request_against_previous_oir operational_intent_of get_previous_subscription
    get_subscription remove_previous_implicit_subscription is_being_replaced subscription_of
    subscription_is_implicit_and_only_attached_to_oir get_dependent_operational_intents depends_on
    attach_subscription create_and_store_new_implicit_subscription any take delete_where
    update_where upsert after before is_zero precomputed_cells union_volumes4d calculate_covering
    calculate_spatial_covering geometry_covering inter_uss_platform.Scd.Models.Availability.to_rest
    inter_uss_platform.Scd.Models.OperationalIntents.to_rest new_ovn_from_time assign_indices
    compute_notification_volume get_relevant_subscriptions_and_increment_indices increment_indices
    volume_of to_oir next_past_ovns next_version store_oir upsert_action make_subscribers_to_notify
    availability_of checks refers requested_ovn
    inter_uss_platform.Scd.Store.OperationalIntents.row_of upsert_operational_intent
    inter_uss_platform.Scd.Store.Subscriptions.in_volume increment increment_notification_indices
    is_listed inter_uss_platform.Scd.Store.Subscriptions.row_of
    inter_uss_platform.Scd.Store.Subscriptions.search_rows search_subscriptions upsert_subscription
    delete_subscription at_most_one in_order no_later no_higher overlap
    validate_key_and_provide_conflict_response is_missing in_key requires_key state_requires_key
    search_operational_intents search_spatial search_footprint
    inter_uss_platform.Scd.Store.OperationalIntents.search_rows
    inter_uss_platform.Scd.Store.OperationalIntents.in_volume delete_action
    delete_operational_intent search_if_notified scrubbed
search-run = refl

conflict-run :
    validate_key_and_provide_conflict_response platform "uss1" without_key none db
    ≡ (err (conflict response), db)
unfolding ◌>>=◌ lock_subscriptions_on_cells get_operational_intent filter str_eq
    validate_upsert_request_against_previous_oir operational_intent_of get_previous_subscription
    get_subscription remove_previous_implicit_subscription is_being_replaced subscription_of
    subscription_is_implicit_and_only_attached_to_oir get_dependent_operational_intents depends_on
    attach_subscription create_and_store_new_implicit_subscription any take delete_where
    update_where upsert after before is_zero precomputed_cells union_volumes4d calculate_covering
    calculate_spatial_covering geometry_covering inter_uss_platform.Scd.Models.Availability.to_rest
    inter_uss_platform.Scd.Models.OperationalIntents.to_rest new_ovn_from_time assign_indices
    compute_notification_volume get_relevant_subscriptions_and_increment_indices increment_indices
    volume_of to_oir next_past_ovns next_version store_oir upsert_action make_subscribers_to_notify
    availability_of checks refers requested_ovn
    inter_uss_platform.Scd.Store.OperationalIntents.row_of upsert_operational_intent
    inter_uss_platform.Scd.Store.Subscriptions.in_volume increment increment_notification_indices
    is_listed inter_uss_platform.Scd.Store.Subscriptions.row_of
    inter_uss_platform.Scd.Store.Subscriptions.search_rows search_subscriptions upsert_subscription
    delete_subscription at_most_one in_order no_later no_higher overlap
    validate_key_and_provide_conflict_response is_missing in_key requires_key state_requires_key
    search_operational_intents search_spatial search_footprint
    inter_uss_platform.Scd.Store.OperationalIntents.search_rows
    inter_uss_platform.Scd.Store.OperationalIntents.in_volume delete_action
    delete_operational_intent search_if_notified scrubbed
conflict-run = refl

conflict_scrubbed_example :
    ((o : OperationalIntent) × Mem o relevant
      × (is_missing without_key o ≡ true)
      × (missing_reference.id ≡ o.id))
    × Tells platform "uss1" missing_reference
unfolding search_if_notified
conflict_scrubbed_example =
    conflict_scrubbed platform "uss1" without_key none db db db db relevant [] response
      missing_reference search-run refl conflict-run (inl refl)

-- The second user's subscription, and one that did not ask for operational intents.
abbrev silent_row : SubscriptionRow
silent_row = record implicit_row { notify_for_operations = false; notify_for_constraints = true }

abbrev quiet_db : Db
quiet_db = record db { subscriptions = silent_row ∷ explicit_row ∷ [] }

abbrev notified_db : Db
notified_db = record db { subscriptions = silent_row ∷ explicit_row_notified ∷ [] }

abbrev notified : List Subscription
notified = subscription_of platform explicit_row_notified ∷ []

notify-run :
    get_relevant_subscriptions_and_increment_indices platform tx volume quiet_db
    ≡ (ok notified, notified_db)
unfolding ◌>>=◌ lock_subscriptions_on_cells get_operational_intent filter str_eq
    validate_upsert_request_against_previous_oir operational_intent_of get_previous_subscription
    get_subscription remove_previous_implicit_subscription is_being_replaced subscription_of
    subscription_is_implicit_and_only_attached_to_oir get_dependent_operational_intents depends_on
    attach_subscription create_and_store_new_implicit_subscription any take delete_where
    update_where upsert after before is_zero precomputed_cells union_volumes4d calculate_covering
    calculate_spatial_covering geometry_covering inter_uss_platform.Scd.Models.Availability.to_rest
    inter_uss_platform.Scd.Models.OperationalIntents.to_rest new_ovn_from_time assign_indices
    compute_notification_volume get_relevant_subscriptions_and_increment_indices increment_indices
    volume_of to_oir next_past_ovns next_version store_oir upsert_action make_subscribers_to_notify
    availability_of checks refers requested_ovn
    inter_uss_platform.Scd.Store.OperationalIntents.row_of upsert_operational_intent
    inter_uss_platform.Scd.Store.Subscriptions.in_volume increment increment_notification_indices
    is_listed inter_uss_platform.Scd.Store.Subscriptions.row_of
    inter_uss_platform.Scd.Store.Subscriptions.search_rows search_subscriptions upsert_subscription
    delete_subscription at_most_one in_order no_later no_higher overlap
    validate_key_and_provide_conflict_response is_missing in_key requires_key state_requires_key
    search_operational_intents search_spatial search_footprint
    inter_uss_platform.Scd.Store.OperationalIntents.search_rows
    inter_uss_platform.Scd.Store.OperationalIntents.in_volume delete_action
    delete_operational_intent search_if_notified scrubbed
notify-run = refl

notify_increments_example : Mem (increment explicit_row) notified_db.subscriptions
unfolding ◌>>=◌ lock_subscriptions_on_cells get_operational_intent filter str_eq
    validate_upsert_request_against_previous_oir operational_intent_of get_previous_subscription
    get_subscription remove_previous_implicit_subscription is_being_replaced subscription_of
    subscription_is_implicit_and_only_attached_to_oir get_dependent_operational_intents depends_on
    attach_subscription create_and_store_new_implicit_subscription any take delete_where
    update_where upsert after before is_zero precomputed_cells union_volumes4d calculate_covering
    calculate_spatial_covering geometry_covering inter_uss_platform.Scd.Models.Availability.to_rest
    inter_uss_platform.Scd.Models.OperationalIntents.to_rest new_ovn_from_time assign_indices
    compute_notification_volume get_relevant_subscriptions_and_increment_indices increment_indices
    volume_of to_oir next_past_ovns next_version store_oir upsert_action make_subscribers_to_notify
    availability_of checks refers requested_ovn
    inter_uss_platform.Scd.Store.OperationalIntents.row_of upsert_operational_intent
    inter_uss_platform.Scd.Store.Subscriptions.in_volume increment increment_notification_indices
    is_listed inter_uss_platform.Scd.Store.Subscriptions.row_of
    inter_uss_platform.Scd.Store.Subscriptions.search_rows search_subscriptions upsert_subscription
    delete_subscription at_most_one in_order no_later no_higher overlap
    validate_key_and_provide_conflict_response is_missing in_key requires_key state_requires_key
    search_operational_intents search_spatial search_footprint
    inter_uss_platform.Scd.Store.OperationalIntents.search_rows
    inter_uss_platform.Scd.Store.OperationalIntents.in_volume delete_action
    delete_operational_intent search_if_notified scrubbed
notify_increments_example =
    notify_increments platform tx volume (1 ∷ []) quiet_db notified_db notified explicit_row
      notify-run refl (omega arith) (inr (inl refl)) refl refl

distinct :
    (a b : SubscriptionRow)
    → Mem a quiet_db.subscriptions
    → Mem b quiet_db.subscriptions
    → a.id ≡ b.id
    → a ≡ b
distinct a b (inl e) (inl f) h = e ∙ sym f
distinct a b (inl e) (inr (inl f)) h =
    absurd (
      str_eq-false "s1" "s2" (unfold str_eq in refl)
        (sym (ap (λ r. r.id) e) ∙ h ∙ ap (λ r. r.id) f))
distinct a b (inr (inl e)) (inl f) h =
    absurd (
      str_eq-false "s2" "s1" (unfold str_eq in refl)
        (sym (ap (λ r. r.id) e) ∙ h ∙ ap (λ r. r.id) f))
distinct a b (inr (inl e)) (inr (inl f)) h = e ∙ sym f
distinct a b (inr (inr never)) n h = elim never [ ]
distinct a b m (inr (inr never)) h = elim never [ ]

notify_keeps_others_example : Mem silent_row notified_db.subscriptions
unfolding ◌>>=◌ lock_subscriptions_on_cells get_operational_intent filter str_eq
    validate_upsert_request_against_previous_oir operational_intent_of get_previous_subscription
    get_subscription remove_previous_implicit_subscription is_being_replaced subscription_of
    subscription_is_implicit_and_only_attached_to_oir get_dependent_operational_intents depends_on
    attach_subscription create_and_store_new_implicit_subscription any take delete_where
    update_where upsert after before is_zero precomputed_cells union_volumes4d calculate_covering
    calculate_spatial_covering geometry_covering inter_uss_platform.Scd.Models.Availability.to_rest
    inter_uss_platform.Scd.Models.OperationalIntents.to_rest new_ovn_from_time assign_indices
    compute_notification_volume get_relevant_subscriptions_and_increment_indices increment_indices
    volume_of to_oir next_past_ovns next_version store_oir upsert_action make_subscribers_to_notify
    availability_of checks refers requested_ovn
    inter_uss_platform.Scd.Store.OperationalIntents.row_of upsert_operational_intent
    inter_uss_platform.Scd.Store.Subscriptions.in_volume increment increment_notification_indices
    is_listed inter_uss_platform.Scd.Store.Subscriptions.row_of
    inter_uss_platform.Scd.Store.Subscriptions.search_rows search_subscriptions upsert_subscription
    delete_subscription at_most_one in_order no_later no_higher overlap
    validate_key_and_provide_conflict_response is_missing in_key requires_key state_requires_key
    search_operational_intents search_spatial search_footprint
    inter_uss_platform.Scd.Store.OperationalIntents.search_rows
    inter_uss_platform.Scd.Store.OperationalIntents.in_volume delete_action
    delete_operational_intent search_if_notified scrubbed
notify_keeps_others_example =
    notify_keeps_others platform tx volume (1 ∷ []) quiet_db notified_db notified silent_row
      notify-run refl distinct (inl refl) refl
