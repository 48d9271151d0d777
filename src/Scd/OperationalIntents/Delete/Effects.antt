-- ===== src/Scd/OperationalIntents/Delete/Effects.antt =====
-- What a deletion that succeeds required, and what it does to the table of operational intents.
use inter_uss_platform.Base.{
  ◌≡◌, ◌≢◌, ◌↔◌, refl, sym, ap, ◌∙◌, inl, inr, String, Bool, true, false, Option, none, some, Mem,
  str_eq_of_ne, str_eq-false, Bool-cases, arith,
}
use mathlib.Core.Path.{subst}
use inter_uss_platform.Base.Tables.{delete_where, mem-delete_where, mem-delete_where_inv}
use inter_uss_platform.Base.Action.{ok}
use inter_uss_platform.Api.{ChangeOperationalIntentReferenceResponse}
use inter_uss_platform.Models.Platform.{Platform}
use inter_uss_platform.Scd.Models.Subscriptions.{Subscription}
use inter_uss_platform.Scd.Store.{OperationRow, Db, Tx}
use inter_uss_platform.Scd.Store.Reads.{get_operational_intent-some}
use inter_uss_platform.Scd.Store.OperationalIntents.{
  has_id, depends_on, operational_intent_of, delete_operational_intent,
}
use inter_uss_platform.Scd.OperationalIntents.Attach.Removal.{OnlyAttached, only_attached}
use inter_uss_platform.Scd.OperationalIntents.Notify.{volume_of}
use inter_uss_platform.Scd.OperationalIntents.Notify.Frame.{notify-Leaves}
use inter_uss_platform.Scd.OperationalIntents.Upsert.Effects.{delete_rows}
use inter_uss_platform.Scd.OperationalIntents.Delete.{remove_implicit, delete_action}
use inter_uss_platform.Scd.OperationalIntents.Delete.Run.{delete_action_run}

module _ (env : Platform) (tx : Tx) where
  -- A deletion that succeeds was asked for by the manager of the operational intent, who presented its
  -- present OVN.
  pub delete_fencing :
      (client id ovn : String) (db db' : Db) (r : ChangeOperationalIntentReferenceResponse)
      → delete_action env tx client id ovn db ≡ (ok r, db')
      → (row : OperationRow) × Mem row db.operations
        × (row.id ≡ id)
        × (row.owner ≡ client)
        × ((operational_intent_of env db.availabilities row).ovn ≡ ovn)
  unfolding operational_intent_of
  delete_fencing client id ovn db db' r h =
      let d = delete_action_run env tx client id ovn db db' r h in
      let (row, m, e, f) = get_operational_intent-some env id db db d.old d.old_ok in
      (row, m, e, ap (λ o. o.manager) (sym f) ∙ d.manager_ok, ap (λ o. o.ovn) (sym f) ∙ d.ovn_ok)

  gone_rows :
      (id : String) (db db' : Db)
      → delete_operational_intent env id db ≡ (ok tt, db')
      → db'.operations ≡ delete_where (has_id id) db.operations
  unfolding delete_operational_intent
  gone_rows id db db' h = ground arith

  -- The removal of the subscription is a cascade to no other operational intent.
  removal_keeps :
      (id : String) (remove : Bool) (previous : Option Subscription) (db u db' : Db)
      → (remove ≡ true → OnlyAttached id previous db)
      → remove_implicit env tx remove previous u ≡ (ok tt, db')
      → (row : OperationRow) → row.id ≢ id
      → Mem row db.operations
      → Mem row u.operations
      → Mem row db'.operations
  unfolding remove_implicit
  removal_keeps id false previous db u db' d h row ne m k =
      subst (λ v. Mem row v.operations) (ap (λ x. x.1) h) k
  removal_keeps id true none db u db' d h row ne m k = absurd (cc)
  removal_keeps id true (some s) db u db' d h row ne m k =
      subst (Mem row) (sym (delete_rows env tx s.id u db' h)) (
        mem-delete_where (depends_on s.id) u.operations row
          (elim (Bool-cases (depends_on s.id row)) [
            | inl dependent ↦ absurd (ne ((d refl).1 row m dependent))
            | inr other ↦ other
          ])
          k)

  removal_adds_nothing :
      (remove : Bool) (previous : Option Subscription) (u db' : Db)
      → remove_implicit env tx remove previous u ≡ (ok tt, db')
      → (row : OperationRow) → Mem row db'.operations
      → Mem row u.operations
  unfolding remove_implicit
  removal_adds_nothing false previous u db' h row k =
      subst (λ v. Mem row v.operations) (sym (ap (λ x. x.1) h)) k
  removal_adds_nothing true none u db' h row k = absurd (cc)
  removal_adds_nothing true (some s) u db' h row k =
      (mem-delete_where_inv (depends_on s.id) u.operations row
        (subst (Mem row) (delete_rows env tx s.id u db' h) k)).1

  -- After a deletion that succeeds, the operational intents are those there were but for the one with
  -- the identifier: the removal of its implicit subscription cascades to none of the others.
  pub delete_removes_only :
      (client id ovn : String) (db db' : Db) (r : ChangeOperationalIntentReferenceResponse)
      (row : OperationRow)
      → delete_action env tx client id ovn db ≡ (ok r, db')
      → Mem row db'.operations ↔ (Mem row db.operations × (row.id ≢ id))
  delete_removes_only client id ovn db db' r row h =
      let d = delete_action_run env tx client id ovn db db' r h in
      let notified : d.notified.operations ≡ db.operations =
        sym (ap (λ x. x.1.operations) d.notified_ok)
        ∙ ap (λ x. x.0) ((notify-Leaves env tx (volume_of d.old)).at db) in
      let rows : d.gone.operations ≡ delete_where (has_id id) db.operations =
        gone_rows id d.notified d.gone d.gone_ok ∙ ap (delete_where (has_id id)) notified in
      (
        λ m.
            let (q, k) = mem-delete_where_inv (has_id id) db.operations row (
              subst (Mem row) rows
                (removal_adds_nothing d.remove d.previous d.gone db' d.removed_ok row m)) in
            (k, str_eq-false row.id id q),
        λ m.
            removal_keeps id d.remove d.previous db d.gone db'
              (λ e. only_attached env id db db d.previous (d.remove_ok ∙ ap (λ b. (ok b, db)) e))
              d.removed_ok row m.1 m.0
              (subst (Mem row) (sym rows)
                (mem-delete_where (has_id id) db.operations row (str_eq_of_ne row.id id m.1) m.0)),
      )
