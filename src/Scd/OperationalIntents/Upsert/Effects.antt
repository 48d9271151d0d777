-- ===== src/Scd/OperationalIntents/Upsert/Effects.antt =====
-- What an upsert that succeeds does to the table of operational intents.
use inter_uss_platform.Base.{
  ℕ, ◌≡◌, ◌≢◌, refl, sym, ap, ◌∙◌, ◌↔◌, inl, inr, String, Bool, true, false, Option, none, some,
  List, Mem, str_eq_of_ne, Bool-cases, arith,
}
use inter_uss_platform.Base.Tables.{
  upsert, delete_where, mem-upsert, mem-upsert_inv, mem-delete_where, mem-delete_where_inv,
}
use mathlib.Core.Path.{subst}
use inter_uss_platform.Base.Action.{ok}
use inter_uss_platform.Api.{ChangeOperationalIntentReferenceResponse}
use inter_uss_platform.Models.Platform.{Platform}
use inter_uss_platform.Scd.Models.OperationalIntents.{OperationalIntent}
use inter_uss_platform.Scd.Models.Subscriptions.{Subscription}
use inter_uss_platform.Scd.Store.{OperationRow, Db, Tx}
use inter_uss_platform.Scd.Store.Subscriptions.{delete_subscription}
use inter_uss_platform.Scd.Store.OperationalIntents.{
  row_of, has_id, depends_on, upsert_operational_intent,
}
use inter_uss_platform.Scd.OperationalIntents.Params.{ValidOirParams, to_oir}
use inter_uss_platform.Scd.OperationalIntents.Attach.Frame.{attach-Leaves}
use inter_uss_platform.Scd.OperationalIntents.Attach.Removal.{Removable, removable}
use inter_uss_platform.Scd.OperationalIntents.Upsert.{upsert_action, remove_previous}
use inter_uss_platform.Scd.OperationalIntents.Upsert.Run.{
  Stored, upsert_action_run, Committed-operations,
}

module _ (env : Platform) (tx : Tx) where
  -- The write itself.
  upsert_rows :
      (o r : OperationalIntent) (db db' : Db)
      → upsert_operational_intent env tx o db ≡ (ok r, db')
      → db'.operations ≡ upsert (has_id o.id) (row_of tx o) db.operations
  unfolding upsert_operational_intent
  upsert_rows o r db db' h = ground arith

  pub delete_rows :
      (id : String) (db db' : Db)
      → delete_subscription env id db ≡ (ok tt, db')
      → db'.operations ≡ delete_where (depends_on id) db.operations
  unfolding delete_subscription
  delete_rows id db db' h = ground arith

  to_oir_id :
      (p : ValidOirParams) (manager : String) (s : Option Subscription) (version : ℕ)
      (past : List String) (o : OperationalIntent)
      → to_oir p manager s version past ≡ ok o
      → o.id ≡ p.id
  unfolding to_oir
  to_oir_id p manager s version past o h = ground arith

  row_of_id :
      (p : ValidOirParams) (manager : String) (s : Option Subscription) (version : ℕ)
      (past : List String) (o : OperationalIntent)
      → to_oir p manager s version past ≡ ok o
      → (row_of tx o).id ≡ p.id
  unfolding row_of
  row_of_id p manager s version past o h = to_oir_id p manager s version past o h

  -- The removal of the previous subscription, applied to what it was decided on.
  removal_keeps :
      (p : ValidOirParams) (remove : Bool) (previous : Option Subscription) (db u db' : Db)
      → (remove ≡ true → Removable p previous db)
      → remove_previous env tx remove previous u ≡ (ok tt, db')
      → (row : OperationRow) → row.id ≢ p.id
      → Mem row db.operations
      → Mem row u.operations
      → Mem row db'.operations
  unfolding remove_previous
  removal_keeps p false previous db u db' d h row ne m k =
      subst (λ v. Mem row v.operations) (ap (λ x. x.1) h) k
  removal_keeps p true none db u db' d h row ne m k = absurd (cc)
  removal_keeps p true (some s) db u db' d h row ne m k =
      subst (Mem row) (sym (delete_rows s.id u db' h)) (
        mem-delete_where (depends_on s.id) u.operations row
          (elim (Bool-cases (depends_on s.id row)) [
            | inl dependent ↦ absurd (ne ((d refl).1.1 row m dependent))
            | inr other ↦ other
          ])
          k)

  pub removal_adds_nothing :
      (remove : Bool) (previous : Option Subscription) (u db' : Db)
      → remove_previous env tx remove previous u ≡ (ok tt, db')
      → (row : OperationRow) → Mem row db'.operations
      → Mem row u.operations
  unfolding remove_previous
  removal_adds_nothing false previous u db' h row k =
      subst (λ v. Mem row v.operations) (sym (ap (λ x. x.1) h)) k
  removal_adds_nothing true none u db' h row k = absurd (cc)
  removal_adds_nothing true (some s) u db' h row k =
      (mem-delete_where_inv (depends_on s.id) u.operations row
        (subst (Mem row) (delete_rows s.id u db' h) k)).1

  pub Stored-operations :
      (manager : String) (p : ValidOirParams) (old : Option OperationalIntent) (db db' : Db)
      (stored : OperationalIntent) (s : Stored env tx manager p old db db' stored)
      → s.stored_db.operations ≡ upsert (has_id p.id) (row_of tx s.op) db.operations
  Stored-operations manager p old db db' stored s =
      upsert_rows s.op stored s.attached_db s.stored_db s.stored_ok
      ∙ ap (λ id. upsert (has_id id) (row_of tx s.op) s.attached_db.operations)
          (to_oir_id p manager s.attached _ _ s.op s.op_ok)
      ∙ ap (upsert (has_id p.id) (row_of tx s.op)) (
          sym (ap (λ x. x.1.operations) s.attached_ok)
          ∙ ap (λ x. x.0) ((attach-Leaves env tx manager p s.previous).at db))

  pub decided :
      (manager : String) (p : ValidOirParams) (old : Option OperationalIntent) (db db' : Db)
      (stored : OperationalIntent) (s : Stored env tx manager p old db db' stored)
      → s.remove ≡ true
      → Removable p s.previous db
  decided manager p old db db' stored s e =
      removable env p db db s.previous (s.remove_ok ∙ ap (λ b. (ok b, db)) e)

  -- An upsert that succeeds keeps every operational intent with another identifier exactly as it was,
  -- and adds none: the removal of the previous implicit subscription cascades to none of them.
  pub upsert_keeps_others :
      (manager : String) (p : ValidOirParams) (db db' : Db)
      (r : ChangeOperationalIntentReferenceResponse) (row : OperationRow)
      → upsert_action env tx manager p db ≡ (ok r, db')
      → row.id ≢ p.id
      → Mem row db.operations ↔ Mem row db'.operations
  upsert_keeps_others manager p db db' r row h ne =
      let c = upsert_action_run env tx manager p db db' r h in
      let s = c.store_ok in
      let same = Committed-operations env tx manager p db db' c in
      let rows = Stored-operations manager p c.old db c.written c.stored s in
      (
        λ m. subst (Mem row) (sym same) (
            removal_keeps p s.remove s.previous db s.stored_db c.written
              (decided manager p c.old db c.written c.stored s) s.removed_ok row ne m
              (subst (Mem row) (sym rows) (
                mem-upsert (has_id p.id) (row_of tx s.op) db.operations row
                  (str_eq_of_ne row.id p.id ne) m))),
        λ m.
            elim (mem-upsert_inv (has_id p.id) (row_of tx s.op) db.operations row (
              subst (Mem row) rows (
                removal_adds_nothing s.remove s.previous s.stored_db c.written s.removed_ok row
                  (subst (Mem row) same m)))) [
                    | inl e ↦
                        absurd
                          (ne (ap (λ x. x.id) e ∙ row_of_id p manager s.attached _ _ s.op s.op_ok))
                    | inr q ↦ q.1
                  ],
      )
