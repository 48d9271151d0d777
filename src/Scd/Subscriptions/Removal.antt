-- ===== src/Scd/Subscriptions/Removal.antt =====
-- What a deletion of a subscription that succeeds required, and what it does to the tables.
use inter_uss_platform.Base.{
  ◌≡◌, ◌≢◌, ◌↔◌, sym, ap, ◌∙◌, inl, inr, String, true, false, Option, none, some, List, [], ◌∷◌,
  filter, Mem, mem-map, mem-filter, str_eq, str_eq-true, Bool-cases, arith,
}
use mathlib.Core.Path.{subst}
use inter_uss_platform.Base.Tables.{
  delete_where, mem-delete_iff, mem-delete_where, mem-delete_where_inv,
}
use inter_uss_platform.Base.Action.{ok, lift, ok-injective, bind_elim}
use inter_uss_platform.Base.Action.Leaves.{Leaves-lift}
use inter_uss_platform.Api
use inter_uss_platform.Api.{PutSubscriptionResponse}
use inter_uss_platform.Models.Platform.{Platform}
use inter_uss_platform.Scd.Models.Subscriptions.{Subscription}
use inter_uss_platform.Scd.Store.{SubscriptionRow, OperationRow, Db}
use inter_uss_platform.Scd.Store.Frame.{get_subscription-Leaves, get_dependent-Leaves}
use inter_uss_platform.Scd.Store.Reads.{get_subscription-some}
use inter_uss_platform.Scd.Store.Runs.{read_elim}
use inter_uss_platform.Scd.Store.Subscriptions.{
  has_id, subscription_of, get_subscription, delete_subscription,
}
use inter_uss_platform.Scd.Store.OperationalIntents.{depends_on, get_dependent_operational_intents}
use inter_uss_platform.Scd.Subscriptions.Params.{check_deletable, found}
use inter_uss_platform.Scd.Subscriptions.Delete.{no_dependents, delete_subscription_action}

module _ (env : Platform) where
  found_ok : (o : Option Subscription) (s : Subscription) → found o ≡ ok s → o ≡ some s
  unfolding found
  found_ok none s h = absurd (cc)
  found_ok (some t) s h = cc

  deletable :
      (client version : String) (old : Subscription)
      → check_deletable client version old ≡ ok tt
      → (old.manager ≡ client) × (old.version ≡ version)
  unfolding check_deletable
  deletable client version old h =
      let a : str_eq old.manager client ≡ true = ground arith in
      let b : str_eq old.version version ≡ true = ground arith in
      (str_eq-true old.manager client a, str_eq-true old.version version b)

  deleted :
      (id : String) (db u : Db)
      → delete_subscription env id db ≡ (ok tt, u)
      → u ≡ record db {
        subscriptions = delete_where (has_id id) db.subscriptions;
        operations = delete_where (depends_on id) db.operations;
      }
  unfolding delete_subscription
  deleted id db u h = ground arith

  none_depends :
      (id : String) (db u : Db) (dependents : List String) (row : OperationRow)
      → get_dependent_operational_intents env id db ≡ (ok dependents, u)
      → no_dependents dependents ≡ ok tt
      → Mem row db.operations
      → depends_on id row ≡ false
  unfolding get_dependent_operational_intents no_dependents
  none_depends id db u [] row h q m = elim (Bool-cases (depends_on id row)) [
    | inl depends ↦
        elim (subst (Mem row.id) (ok-injective (ap (λ x. x.0) h)) (
          mem-map (λ r. r.id) (filter (depends_on id) db.operations) row
            (mem-filter (depends_on id) db.operations row depends m))) [ ]
    | inr other ↦ other
  ]
  none_depends id db u (d ∷ ds) row h q m = absurd (cc)

  -- A deletion that succeeds was asked for by the manager of the subscription with its present version.
  -- It removes that subscription and no other, and no operational intent, although the deletion of
  -- a subscription cascades to those that refer to it.
  pub delete_subscription_removes_only :
      (client id version : String) (db db' : Db) (r : Api.Subscription)
      → delete_subscription_action env client id version db ≡ (ok r, db')
      → (row : SubscriptionRow) × Mem row db.subscriptions
        × (row.id ≡ id)
        × (row.owner ≡ client)
        × ((subscription_of env row).version ≡ version)
        × ((other : SubscriptionRow)
            → Mem other db'.subscriptions ↔ (Mem other db.subscriptions × (other.id ≢ id)))
        × ((o : OperationRow) → Mem o db'.operations ↔ Mem o db.operations)
  unfolding delete_subscription_action subscription_of
  delete_subscription_removes_only client id version db db' r h =
      read_elim (get_subscription env id) _ db (get_subscription-Leaves env id) h λ read q1 h1.
        read_elim (lift (found read)) _ db (Leaves-lift _) h1 λ old q2 h2.
          read_elim (lift (check_deletable client version old)) _ db (Leaves-lift _) h2
            λ unit q3 h3.
              read_elim (get_dependent_operational_intents env id) _ db
                (get_dependent-Leaves env id) h3
                λ dependents q4 h4.
                  read_elim (lift (no_dependents dependents)) _ db (Leaves-lift _) h4 λ unit2 q5 h5.
                    bind_elim (delete_subscription env id) _ db h5 λ unit3 u q6 h6.
                      let (row, m, i, e) =
                        get_subscription-some env id db db old
                          (q1 ∙ ap (λ o. (ok o, db)) (found_ok read old (ap (λ x. x.0) q2))) in
                      let (mine, current) = deletable client version old (ap (λ x. x.0) q3) in
                      let end_state = sym (ap (λ x. x.1) h6) ∙ deleted id db u q6 in
                      let operations : db'.operations ≡ delete_where (depends_on id) db.operations =
                        ap (λ x. x.operations) end_state in
                      (
                        row,
                        m,
                        i,
                        ap (λ s. s.manager) (sym e) ∙ mine,
                        ap (λ s. s.version) (sym e) ∙ current,
                        λ other.
                            mem-delete_iff (λ x. x.id) id db.subscriptions db'.subscriptions other
                              (ap (λ x. x.subscriptions) end_state),
                        λ o. (
                          λ k.
                              (mem-delete_where_inv (depends_on id) db.operations o
                                (subst (Mem o) operations k)).1,
                          λ k. subst (Mem o) (sym operations) (
                              mem-delete_where (depends_on id) db.operations o
                                (none_depends id db db dependents o q4 (ap (λ x. x.0) q5) k) k),
                        ),
                      )
