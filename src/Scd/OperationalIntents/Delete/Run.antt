-- ===== src/Scd/OperationalIntents/Delete/Run.antt =====
-- The parts that a deletion which succeeded went through.
use inter_uss_platform.Base.{
  ◌≡◌, ap, ◌∙◌, String, Bool, true, not, Option, none, some, List, str_eq, str_eq-true, arith,
}
use inter_uss_platform.Base.Action.{ok, fail_if, ok-injective, bind_elim}
use inter_uss_platform.Base.Action.Leaves.{Leaves, Leaves-fail_if}
use inter_uss_platform.Api.{ChangeOperationalIntentReferenceResponse}
use inter_uss_platform.Errors.{Code, coded}
use inter_uss_platform.Models.Platform.{Platform}
use inter_uss_platform.Scd.Models.OperationalIntents.{OperationalIntent}
use inter_uss_platform.Scd.Models.Subscriptions.{Subscription}
use inter_uss_platform.Scd.Store.{Db, Tx}
use inter_uss_platform.Scd.Store.Frame.{reads, get_operational_intent-Leaves, lock-Leaves}
use inter_uss_platform.Scd.Store.Subscriptions.{lock_subscriptions_on_cells}
use inter_uss_platform.Scd.Store.OperationalIntents.{
  get_operational_intent, delete_operational_intent,
}
use inter_uss_platform.Scd.OperationalIntents.Attach.{
  subscription_is_implicit_and_only_attached_to_oir,
}
use inter_uss_platform.Scd.OperationalIntents.Attach.Frame.{only_attached-Leaves}
use inter_uss_platform.Scd.OperationalIntents.Notify.{
  volume_of, get_relevant_subscriptions_and_increment_indices,
}
use inter_uss_platform.Scd.Store.Runs.{read_elim}
use inter_uss_platform.Scd.OperationalIntents.Delete.{
  required_oir, required_subscription, supporting_subscription, remove_implicit, delete_action,
}

module _ (env : Platform) (tx : Tx) where
  supporting-Leaves :
      {T : Type 0} {part : Db → T} (id : Option String)
      → Leaves part (supporting_subscription env tx id)
  unfolding supporting_subscription required_subscription
  supporting-Leaves none = search reads
  supporting-Leaves (some id) = search (reads, required-Leaves)
    where
      required-Leaves :
          {T : Type 0} {part : Db → T} (s : Option Subscription)
          → Leaves part (required_subscription env tx s)
      required-Leaves none = search reads
      required-Leaves (some s) = search reads

  required_run :
      (found : Option OperationalIntent) (o : OperationalIntent) (db u : Db)
      → required_oir env tx found db ≡ (ok o, u)
      → found ≡ some o
  unfolding required_oir
  required_run none o db u h = absurd (cc)
  required_run (some a) o db u h = ap some (ok-injective (ap (λ x. x.0) h))

  required_oir-Leaves :
      {T : Type 0} {part : Db → T} (found : Option OperationalIntent)
      → Leaves part (required_oir env tx found)
  unfolding required_oir
  required_oir-Leaves none = search reads
  required_oir-Leaves (some o) = search reads

  passed :
      (a b : String) (c : Code) (db u : Db)
      → fail_if (not (str_eq a b)) (coded c) db ≡ (ok tt, u)
      → a ≡ b
  passed a b c db u h = let q : str_eq a b ≡ true = ground arith in str_eq-true a b q

  -- The steps of `delete_action`: the checks, the notification, and the two deletions.
  pub record Deleted (client id ovn : String) (db db' : Db) : Type 0 where
    pub old : OperationalIntent
    pub previous : Option Subscription
    pub remove : Bool
    pub subs : List Subscription
    pub notified : Db
    pub gone : Db
    pub old_ok : get_operational_intent env id db ≡ (ok (some old), db)
    pub manager_ok : old.manager ≡ client
    pub ovn_ok : old.ovn ≡ ovn
    pub remove_ok :
        subscription_is_implicit_and_only_attached_to_oir env id previous db ≡ (ok remove, db)
    pub notified_ok :
        get_relevant_subscriptions_and_increment_indices env tx (volume_of old) db
        ≡ (ok subs, notified)
    pub gone_ok : delete_operational_intent env id notified ≡ (ok tt, gone)
    pub removed_ok : remove_implicit env tx remove previous gone ≡ (ok tt, db')

  pub delete_action_run :
      (client id ovn : String) (db db' : Db) (r : ChangeOperationalIntentReferenceResponse)
      → delete_action env tx client id ovn db ≡ (ok r, db')
      → Deleted client id ovn db db'
  unfolding delete_action
  delete_action_run client id ovn db db' r h =
      read_elim (get_operational_intent env id) _ db (get_operational_intent-Leaves env id) h
        λ found q1 h1.
          read_elim (required_oir env tx found) _ db (required_oir-Leaves found) h1 λ old q2 h2.
            read_elim (fail_if (not (str_eq old.manager client)) (coded Code.permission_denied)) _
              db (Leaves-fail_if _ _) h2
              λ unit1 q3 h3.
                read_elim (fail_if (not (str_eq old.ovn ovn)) (coded Code.version_mismatch)) _ db
                  (Leaves-fail_if _ _) h3
                  λ unit2 q4 h4.
                    read_elim (lock_subscriptions_on_cells old.cells) _ db (lock-Leaves old.cells)
                      h4
                      λ unit3 q5 h5.
                        read_elim (supporting_subscription env tx old.subscription_id) _ db
                          (supporting-Leaves old.subscription_id) h5
                          λ previous q6 h6.
                            read_elim
                              (subscription_is_implicit_and_only_attached_to_oir env id previous) _
                              db (only_attached-Leaves env id previous) h6
                              λ remove q7 h7.
                                bind_elim
                                  (get_relevant_subscriptions_and_increment_indices env tx
                                    (volume_of old))
                                  _ db h7
                                  λ subs u8 q8 h8.
                                    bind_elim (delete_operational_intent env id) _ u8 h8
                                      λ unit9 u9 q9 h9.
                                        bind_elim (remove_implicit env tx remove previous) _ u9 h9
                                          λ unit10 u10 q10 h10. record {
                                            old = old;
                                            previous = previous;
                                            remove = remove;
                                            subs = subs;
                                            notified = u8;
                                            gone = u9;
                                            old_ok =
                                                q1
                                                ∙ ap (λ o. (ok o, db))
                                                    (required_run found old db db q2);
                                            manager_ok =
                                                passed old.manager client Code.permission_denied db
                                                  db q3;
                                            ovn_ok =
                                                passed old.ovn ovn Code.version_mismatch db db q4;
                                            remove_ok = q7;
                                            notified_ok = q8;
                                            gone_ok = q9;
                                            removed_ok = cc;
                                          }
