-- ===== src/Tests/Intents.antt =====
-- Changes and deletions of operational intents, and the theorems at these runs.
use inter_uss_platform.Base.{
  ◌≡◌, ◌≢◌, ◌↔◌, ◌∙◌, refl, sym, ap, inl, inr, [], ◌∷◌, Mem, true, str_eq-false, arith,
}
use inter_uss_platform.Base.Action.{ok}
use inter_uss_platform.Models.Volumes.{geometry_func}
use inter_uss_platform.Scd.Store.{OperationRow}
use inter_uss_platform.Scd.OperationalIntents.Upsert.Keys.{upsert_key_safety}
use inter_uss_platform.Scd.OperationalIntents.Upsert.Effects.{upsert_keeps_others}
use inter_uss_platform.Scd.OperationalIntents.Upsert.Row.{
  Fresh, Describes, Attaches, Follows, upsert_stores,
}
use inter_uss_platform.Scd.OperationalIntents.Upsert.Fencing.{upsert_fencing}
use inter_uss_platform.Scd.OperationalIntents.Delete.Effects.{delete_fencing, delete_removes_only}
use inter_uss_platform.Tests.Samples.{
  platform, tx, first_row, second_row, db, volume3d, params, changed_db, changed_reply, deleted_db,
  deleted_reply,
}
use inter_uss_platform.Base.Action.{◌>>=◌}
use inter_uss_platform.Scd.Store.Subscriptions.{
  lock_subscriptions_on_cells, get_subscription, subscription_of, increment,
  increment_notification_indices, is_listed, search_subscriptions, upsert_subscription,
  delete_subscription,
}
use inter_uss_platform.Scd.Store.OperationalIntents.{
  get_operational_intent, operational_intent_of, get_dependent_operational_intents, depends_on,
  availability_of, checks, refers, requested_ovn, upsert_operational_intent,
  search_operational_intents, search_spatial, search_footprint, delete_operational_intent,
}
use inter_uss_platform.Base.Lists.{filter, any, take}
use inter_uss_platform.Base.Tests.{str_eq}
use inter_uss_platform.Scd.OperationalIntents.Params.{
  validate_upsert_request_against_previous_oir, to_oir,
}
use inter_uss_platform.Scd.OperationalIntents.Attach.{
  get_previous_subscription, remove_previous_implicit_subscription, is_being_replaced,
  subscription_is_implicit_and_only_attached_to_oir, attach_subscription,
  create_and_store_new_implicit_subscription,
}
use inter_uss_platform.Base.Tables.{delete_where, update_where, upsert}
use inter_uss_platform.Models.Times.{after, before, is_zero}
use inter_uss_platform.Models.Union.{precomputed_cells, union_volumes4d}
use inter_uss_platform.Models.Volumes.{
  calculate_covering, calculate_spatial_covering, geometry_covering,
}
use inter_uss_platform.Scd.Models.OperationalIntents.{requires_key, state_requires_key}
use inter_uss_platform.Scd.Models.Ovns.{new_ovn_from_time}
use inter_uss_platform.Scd.OperationalIntents.Notify.{
  assign_indices, compute_notification_volume, get_relevant_subscriptions_and_increment_indices,
  increment_indices, volume_of,
}
use inter_uss_platform.Scd.OperationalIntents.Upsert.{
  next_past_ovns, next_version, store_oir, upsert_action,
}
use inter_uss_platform.Scd.Server.{make_subscribers_to_notify}
use inter_uss_platform.Scd.Store.{at_most_one, in_order, no_later, no_higher, overlap}
use inter_uss_platform.Scd.OperationalIntents.Key.{
  validate_key_and_provide_conflict_response, is_missing, in_key, search_if_notified, scrubbed,
}
use inter_uss_platform.Scd.OperationalIntents.Delete.{delete_action}

upsert-run : upsert_action platform tx "uss1" params db ≡ (ok changed_reply, changed_db)
unfolding ◌>>=◌ lock_subscriptions_on_cells get_operational_intent filter str_eq
    validate_upsert_request_against_previous_oir operational_intent_of get_previous_subscription
    get_subscription remove_previous_implicit_subscription is_being_replaced subscription_of
    subscription_is_implicit_and_only_attached_to_oir get_dependent_operational_intents depends_on
    attach_subscription create_and_store_new_implicit_subscription any take delete_where
    update_where upsert after before is_zero precomputed_cells union_volumes4d calculate_covering
    calculate_spatial_covering geometry_covering inter_uss_platform.Scd.Models.Availability.to_rest
    inter_uss_platform.Scd.Models.OperationalIntents.to_rest new_ovn_from_time assign_indices
    compute_notification_volume get_relevant_subscriptions_and_increment_indices increment_indices
    volume_of to_oir next_past_ovns next_version store_oir upsert_action make_subscribers_to_notify
    availability_of checks refers requested_ovn
    inter_uss_platform.Scd.Store.OperationalIntents.row_of upsert_operational_intent
    inter_uss_platform.Scd.Store.Subscriptions.in_volume increment increment_notification_indices
    is_listed inter_uss_platform.Scd.Store.Subscriptions.row_of
    inter_uss_platform.Scd.Store.Subscriptions.search_rows search_subscriptions upsert_subscription
    delete_subscription at_most_one in_order no_later no_higher overlap
    validate_key_and_provide_conflict_response is_missing in_key requires_key state_requires_key
    search_operational_intents search_spatial search_footprint
    inter_uss_platform.Scd.Store.OperationalIntents.search_rows
    inter_uss_platform.Scd.Store.OperationalIntents.in_volume delete_action
    delete_operational_intent search_if_notified scrubbed
upsert-run = refl

others_differ : second_row.id ≢ params.id
others_differ = str_eq-false "o2" "o1" (unfold str_eq in refl)

upsert_key_safety_example : in_key params (operational_intent_of platform [] second_row).ovn ≡ true
unfolding ◌>>=◌ lock_subscriptions_on_cells get_operational_intent filter str_eq
    validate_upsert_request_against_previous_oir operational_intent_of get_previous_subscription
    get_subscription remove_previous_implicit_subscription is_being_replaced subscription_of
    subscription_is_implicit_and_only_attached_to_oir get_dependent_operational_intents depends_on
    attach_subscription create_and_store_new_implicit_subscription any take delete_where
    update_where upsert after before is_zero precomputed_cells union_volumes4d calculate_covering
    calculate_spatial_covering geometry_covering inter_uss_platform.Scd.Models.Availability.to_rest
    inter_uss_platform.Scd.Models.OperationalIntents.to_rest new_ovn_from_time assign_indices
    compute_notification_volume get_relevant_subscriptions_and_increment_indices increment_indices
    volume_of to_oir next_past_ovns next_version store_oir upsert_action make_subscribers_to_notify
    availability_of checks refers requested_ovn
    inter_uss_platform.Scd.Store.OperationalIntents.row_of upsert_operational_intent
    inter_uss_platform.Scd.Store.Subscriptions.in_volume increment increment_notification_indices
    is_listed inter_uss_platform.Scd.Store.Subscriptions.row_of
    inter_uss_platform.Scd.Store.Subscriptions.search_rows search_subscriptions upsert_subscription
    delete_subscription at_most_one in_order no_later no_higher overlap
    validate_key_and_provide_conflict_response is_missing in_key requires_key state_requires_key
    search_operational_intents search_spatial search_footprint
    inter_uss_platform.Scd.Store.OperationalIntents.search_rows
    inter_uss_platform.Scd.Store.OperationalIntents.in_volume delete_action
    delete_operational_intent search_if_notified scrubbed
upsert_key_safety_example =
    upsert_key_safety platform tx "uss1" params volume3d (geometry_func (1 ∷ [])) (1 ∷ []) db
      changed_db changed_reply second_row upsert-run refl refl refl refl (omega arith)
      (inr (inl refl)) refl others_differ refl

upsert_keeps_others_example : Mem second_row db.operations ↔ Mem second_row changed_db.operations
upsert_keeps_others_example =
    upsert_keeps_others platform tx "uss1" params db changed_db changed_reply second_row upsert-run
      others_differ

fresh : Fresh tx db
fresh s (inl e) q = str_eq-false "s1" "s3" (unfold str_eq in refl) (sym (ap (λ r. r.id) e) ∙ q)
fresh s (inr (inl e)) q =
    str_eq-false "s2" "s3" (unfold str_eq in refl) (sym (ap (λ r. r.id) e) ∙ q)
fresh s (inr (inr never)) q = elim never [ ]

upsert_stores_example :
    (row : OperationRow) × Describes tx "uss1" params row
    × Attaches tx params row
    × Follows db params row
    × Mem row changed_db.operations
    × ((other : OperationRow) → Mem other changed_db.operations → other.id ≡ "o1" → other ≡ row)
upsert_stores_example =
    upsert_stores platform tx "uss1" params db changed_db changed_reply upsert-run fresh

upsert_fencing_example :
    (first_row.owner ≡ "uss1") × ((operational_intent_of platform [] first_row).ovn ≡ "A")
upsert_fencing_example =
    upsert_fencing platform tx "uss1" params db changed_db changed_reply first_row upsert-run
      (inl refl) refl

delete-run : delete_action platform tx "uss1" "o1" "A" db ≡ (ok deleted_reply, deleted_db)
unfolding ◌>>=◌ lock_subscriptions_on_cells get_operational_intent filter str_eq
    validate_upsert_request_against_previous_oir operational_intent_of get_previous_subscription
    get_subscription remove_previous_implicit_subscription is_being_replaced subscription_of
    subscription_is_implicit_and_only_attached_to_oir get_dependent_operational_intents depends_on
    attach_subscription create_and_store_new_implicit_subscription any take delete_where
    update_where upsert after before is_zero precomputed_cells union_volumes4d calculate_covering
    calculate_spatial_covering geometry_covering inter_uss_platform.Scd.Models.Availability.to_rest
    inter_uss_platform.Scd.Models.OperationalIntents.to_rest new_ovn_from_time assign_indices
    compute_notification_volume get_relevant_subscriptions_and_increment_indices increment_indices
    volume_of to_oir next_past_ovns next_version store_oir upsert_action make_subscribers_to_notify
    availability_of checks refers requested_ovn
    inter_uss_platform.Scd.Store.OperationalIntents.row_of upsert_operational_intent
    inter_uss_platform.Scd.Store.Subscriptions.in_volume increment increment_notification_indices
    is_listed inter_uss_platform.Scd.Store.Subscriptions.row_of
    inter_uss_platform.Scd.Store.Subscriptions.search_rows search_subscriptions upsert_subscription
    delete_subscription at_most_one in_order no_later no_higher overlap
    validate_key_and_provide_conflict_response is_missing in_key requires_key state_requires_key
    search_operational_intents search_spatial search_footprint
    inter_uss_platform.Scd.Store.OperationalIntents.search_rows
    inter_uss_platform.Scd.Store.OperationalIntents.in_volume delete_action
    delete_operational_intent search_if_notified scrubbed
delete-run = refl

delete_fencing_example :
    (row : OperationRow) × Mem row db.operations
    × (row.id ≡ "o1")
    × (row.owner ≡ "uss1")
    × ((operational_intent_of platform [] row).ovn ≡ "A")
delete_fencing_example =
    delete_fencing platform tx "uss1" "o1" "A" db deleted_db deleted_reply delete-run

delete_removes_only_example :
    Mem second_row deleted_db.operations ↔ (Mem second_row db.operations × (second_row.id ≢ "o1"))
delete_removes_only_example =
    delete_removes_only platform tx "uss1" "o1" "A" db deleted_db deleted_reply second_row
      delete-run
