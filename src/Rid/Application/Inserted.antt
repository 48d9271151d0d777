-- ===== src/Rid/Application/Inserted.antt =====
-- What an insertion of a service area that succeeds does.
use inter_uss_platform.Base.{
  ◌≡◌, sym, ap, ◌∙◌, false, Option, none, some, List, [], ◌∷◌, ◌++◌, is_some, arith,
}
use inter_uss_platform.Base.Lists.{any}
use inter_uss_platform.Base.Action.{ok, ok-injective, lift, fail_if, bind_elim}
use inter_uss_platform.Base.Action.Leaves.{Leaves-lift, Leaves-fail_if}
use inter_uss_platform.Base.Action.Runs.{read_elim, transact_ok}
use inter_uss_platform.Errors.{Code, coded}
use inter_uss_platform.Models.Times.{Time}
use inter_uss_platform.Models.Platform.{Platform}
use inter_uss_platform.Rid.Models.{IdentificationServiceArea, Subscription, adjust_isa_time_range}
use inter_uss_platform.Rid.Store.{Db, Tx}
use inter_uss_platform.Rid.Store.Areas.{has_id, row_of, area_of, get_isa, insert_isa}
use inter_uss_platform.Rid.Store.Subscriptions.{update_notification_idxs_in_cells}
use inter_uss_platform.Rid.Application.Areas.{insert_isa_action, insert_isa_app}
use inter_uss_platform.Rid.Application.Frame.{get_isa-Leaves}
use inter_uss_platform.Rid.Application.Changes.{notified}

module _ (env : Platform) (tx : Tx) where
  inserted :
      (i : IdentificationServiceArea) (o : Option IdentificationServiceArea) (db u : Db)
      → insert_isa env tx i db ≡ (ok o, u)
      → (o ≡ some (area_of (row_of tx i)))
        × (any (has_id i.id) db.areas ≡ false)
        × (u.areas ≡ db.areas ++ row_of tx i ∷ [])
  unfolding insert_isa
  inserted i o db u h = ground arith

  pub insert_isa_run :
      (i : IdentificationServiceArea) (db db' : Db)
      (r : Option IdentificationServiceArea × List Subscription)
      → insert_isa_action env tx i db ≡ (ok r, db')
      → (r.0 ≡ some (area_of (row_of tx i)))
        × (any (has_id i.id) db.areas ≡ false)
        × (db'.areas ≡ db.areas ++ row_of tx i ∷ [])
  unfolding insert_isa_action
  insert_isa_run i db db' r h = read_elim (get_isa i.id) _ db (get_isa-Leaves i.id) h λ old q1 h1.
      read_elim (fail_if (is_some old) (coded Code.already_exists)) _ db (Leaves-fail_if _ _) h1
        λ unit q2 h2.
          bind_elim (update_notification_idxs_in_cells tx i.cells) _ db h2 λ subs u q3 h3.
            bind_elim (insert_isa env tx i) _ u h3 λ ret v q4 h4.
              let (o, fresh, rows) = inserted i ret u v q4 in
              let (same, counted) = notified tx i.cells db u subs q3 in
              (
                sym (ap (λ x. x.0) (ok-injective (ap (λ x. x.0) h4))) ∙ o,
                sym (ap (λ l. any (has_id i.id) l) same) ∙ fresh,
                sym (ap (λ x. x.1.areas) h4) ∙ rows ∙ ap (λ l. l ++ row_of tx i ∷ []) same,
              )

  adjusted_keeps :
      (now : Time) (i a : IdentificationServiceArea)
      → adjust_isa_time_range now none i ≡ ok a
      → (a.id ≡ i.id) × (a.owner ≡ i.owner)
  unfolding adjust_isa_time_range
  adjusted_keeps now i a h = ground arith

  -- The parts of an insertion that succeeded.
  pub insert_isa_app_run :
      (now : Time) (i : IdentificationServiceArea) (db db' : Db)
      (r : Option IdentificationServiceArea × List Subscription)
      → insert_isa_app env tx now i db ≡ (ok r, db')
      → (a : IdentificationServiceArea) × ((a.id ≡ i.id) × (a.owner ≡ i.owner))
        × (r.0 ≡ some (area_of (row_of tx a)))
        × (any (has_id a.id) db.areas ≡ false)
        × (db'.areas ≡ db.areas ++ row_of tx a ∷ [])
  unfolding insert_isa_app
  insert_isa_app_run now i db db' r h =
      read_elim (lift (adjust_isa_time_range now none i)) _ db (Leaves-lift _) h λ a q k.
        let (o, fresh, rows) =
          insert_isa_run a db db' r (transact_ok (insert_isa_action env tx a) db db' r k) in
        (a, adjusted_keeps now i a (ap (λ x. x.0) q), o, fresh, rows)
