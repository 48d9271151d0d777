-- ===== src/Scd/OperationalIntents/Upsert/Run.antt =====
-- The parts that an upsert which succeeded went through, and what its reads and its last steps
-- leave alone.
use inter_uss_platform.Base.{◌≡◌, sym, ap, ◌∙◌, String, Bool, Option, none, some, List}
use inter_uss_platform.Base.Action.{ok, lift, bind_elim}
use inter_uss_platform.Base.Action.Leaves.{Leaves, Leaves-lift}
use inter_uss_platform.Api.{ChangeOperationalIntentReferenceResponse}
use inter_uss_platform.Models.Platform.{Platform}
use inter_uss_platform.Models.Volumes.{Volume4D}
use inter_uss_platform.Scd.Models.OperationalIntents.{OperationalIntent}
use inter_uss_platform.Scd.Models.Subscriptions.{Subscription}
use inter_uss_platform.Scd.Store.{Db, Tx}
use inter_uss_platform.Scd.Store.Subscriptions.{lock_subscriptions_on_cells}
use inter_uss_platform.Scd.Store.Frame.{reads, lock-Leaves, get_operational_intent-Leaves}
use inter_uss_platform.Scd.Store.OperationalIntents.{
  get_operational_intent, upsert_operational_intent,
}
use inter_uss_platform.Scd.OperationalIntents.Params.{
  ValidOirParams, to_oir, validate_upsert_request_against_previous_oir,
}
use inter_uss_platform.Scd.OperationalIntents.Attach.{
  get_previous_subscription, remove_previous_implicit_subscription, attach_subscription,
}
use inter_uss_platform.Scd.OperationalIntents.Attach.Frame.{previous-Leaves, removal-Leaves}
use inter_uss_platform.Scd.OperationalIntents.Key.{
  validate_key_and_provide_conflict_response, search_if_notified,
}
use inter_uss_platform.Scd.OperationalIntents.Notify.{
  compute_notification_volume, get_relevant_subscriptions_and_increment_indices,
}
use inter_uss_platform.Scd.OperationalIntents.Notify.Frame.{notify-Leaves}
use inter_uss_platform.Scd.Store.Runs.{read_elim}
use inter_uss_platform.Scd.OperationalIntents.Upsert.{
  next_version, next_past_ovns, check_key, remove_previous, store_oir, upsert_action,
}

module _ (env : Platform) where
  constraints-Leaves :
      {T : Type 0} {part : Db → T} (p : ValidOirParams) (attached : Option Subscription)
      → Leaves part (search_if_notified env p attached)
  unfolding search_if_notified
  constraints-Leaves p none = search reads
  constraints-Leaves p (some s) = search reads

  key-Leaves :
      {T : Type 0} {part : Db → T} (tx : Tx) (manager : String) (p : ValidOirParams)
      (attached : Option Subscription)
      → Leaves part (check_key env tx manager p attached)
  unfolding check_key validate_key_and_provide_conflict_response
  key-Leaves tx manager p attached = search (reads, constraints-Leaves)

  -- The steps of `store_oir`, with the states between them. The reads leave the state as it was.
  pub record Stored (tx : Tx) (manager : String) (p : ValidOirParams)
      (old : Option OperationalIntent) (db db' : Db) (stored : OperationalIntent) : Type 0 where
    pub previous : Option Subscription
    pub remove : Bool
    pub attached : Option Subscription
    pub op : OperationalIntent
    pub attached_db : Db
    pub stored_db : Db
    pub previous_ok : get_previous_subscription env old db ≡ (ok previous, db)
    pub remove_ok : remove_previous_implicit_subscription env p previous db ≡ (ok remove, db)
    pub attached_ok : attach_subscription env tx manager p previous db ≡ (ok attached, attached_db)
    pub key_ok : check_key env tx manager p attached attached_db ≡ (ok tt, attached_db)
    pub op_ok : to_oir p manager attached (next_version old) (next_past_ovns old p.ovn) ≡ ok op
    pub stored_ok : upsert_operational_intent env tx op attached_db ≡ (ok stored, stored_db)
    pub removed_ok : remove_previous env tx remove previous stored_db ≡ (ok tt, db')

  pub store_oir_run :
      (tx : Tx) (manager : String) (p : ValidOirParams) (old : Option OperationalIntent)
      (stored : OperationalIntent) (db db' : Db)
      → store_oir env tx manager p old db ≡ (ok stored, db')
      → Stored tx manager p old db db' stored
  unfolding store_oir
  store_oir_run tx manager p old stored db db' h =
      read_elim (get_previous_subscription env old) _ db (previous-Leaves env old) h
        λ previous q1 h1.
          read_elim (remove_previous_implicit_subscription env p previous) _ db
            (removal-Leaves env p previous) h1
            λ remove q2 h2.
              bind_elim (attach_subscription env tx manager p previous) _ db h2 λ attached u3 q3 h3.
                read_elim (check_key env tx manager p attached) _ u3
                  (key-Leaves tx manager p attached) h3
                  λ unit q4 h4.
                    bind_elim
                      (lift
                        (to_oir p manager attached (next_version old) (next_past_ovns old p.ovn)))
                      _ u3 h4
                      λ op u5 q5 h5.
                        bind_elim (upsert_operational_intent env tx op) _ u5 h5 λ s u6 q6 h6.
                          bind_elim (remove_previous env tx remove previous) _ u6 h6
                            λ unit2 u7 q7 h7. record {
                              previous = previous;
                              remove = remove;
                              attached = attached;
                              op = op;
                              attached_db = u3;
                              stored_db = u6;
                              previous_ok = q1;
                              remove_ok = q2;
                              attached_ok = q3;
                              key_ok = q4;
                              op_ok = ap (λ x. x.0) q5;
                              stored_ok = cc;
                              removed_ok = cc;
                            }

  -- The steps of `upsert_action`.
  pub record Committed (tx : Tx) (manager : String) (p : ValidOirParams) (db db' : Db)
      : Type 0 where
    pub old : Option OperationalIntent
    pub stored : OperationalIntent
    pub written : Db
    pub old_ok : get_operational_intent env p.id db ≡ (ok old, db)
    pub valid_ok : validate_upsert_request_against_previous_oir manager p.ovn old ≡ ok tt
    pub store_ok : Stored tx manager p old db written stored
    pub volume : Volume4D
    pub volume_ok : compute_notification_volume env old p.u_extent ≡ ok volume
    pub subs : List Subscription
    pub notified_ok :
        get_relevant_subscriptions_and_increment_indices env tx volume written ≡ (ok subs, db')

  pub upsert_action_run :
      (tx : Tx) (manager : String) (p : ValidOirParams) (db db' : Db)
      (r : ChangeOperationalIntentReferenceResponse)
      → upsert_action env tx manager p db ≡ (ok r, db')
      → Committed tx manager p db db'
  unfolding upsert_action
  upsert_action_run tx manager p db db' r h =
      read_elim (lock_subscriptions_on_cells p.cells) _ db (lock-Leaves p.cells) h λ unit q1 h1.
        read_elim (get_operational_intent env p.id) _ db (get_operational_intent-Leaves env p.id) h1
          λ old q2 h2.
            read_elim (lift (validate_upsert_request_against_previous_oir manager p.ovn old)) _ db
              (Leaves-lift _) h2
              λ unit2 q3 h3. bind_elim (store_oir env tx manager p old) _ db h3 λ stored u4 q4 h4.
                read_elim (lift (compute_notification_volume env old p.u_extent)) _ u4
                  (Leaves-lift _) h4
                  λ volume q5 h5.
                    bind_elim (get_relevant_subscriptions_and_increment_indices env tx volume) _ u4
                      h5
                      λ subs u6 q6 h6. record {
                        old = old;
                        stored = stored;
                        written = u4;
                        old_ok = q2;
                        valid_ok = ap (λ x. x.0) q3;
                        store_ok = store_oir_run tx manager p old stored db u4 q4;
                        volume = volume;
                        volume_ok = ap (λ x. x.0) q5;
                        subs = subs;
                        notified_ok = cc;
                      }

  -- The steps after the writes leave the operational intents as they are.
  pub Committed-operations :
      (tx : Tx) (manager : String) (p : ValidOirParams) (db db' : Db)
      (c : Committed tx manager p db db')
      → db'.operations ≡ c.written.operations
  Committed-operations tx manager p db db' c =
      sym (ap (λ x. x.1.operations) c.notified_ok)
      ∙ ap (λ x. x.0) ((notify-Leaves env tx c.volume).at c.written)
