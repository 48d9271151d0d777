-- ===== src/Scd/Constraints/Run.antt =====
-- The parts that a put of a constraint which succeeded went through.
use inter_uss_platform.Base.{◌≡◌, refl, sym, ap, ◌∙◌, String, Option, some, List, arith}
use inter_uss_platform.Base.Tables.{upsert}
use inter_uss_platform.Base.Action.{ok, ok-injective, lift, bind_elim}
use inter_uss_platform.Base.Action.Leaves.{Leaves, Leaves-lift}
use inter_uss_platform.Api.{ChangeConstraintReferenceResponse}
use inter_uss_platform.Errors.{deref, deref-eq-ok, >>=-elim}
use inter_uss_platform.Models.Volumes.{Volume3D}
use inter_uss_platform.Models.Platform.{Platform}
use inter_uss_platform.Scd.Models.Constraints.{Constraint}
use inter_uss_platform.Scd.Models.Subscriptions.{Subscription}
use inter_uss_platform.Scd.Store.{ConstraintRow, Db, Tx}
use inter_uss_platform.Scd.Store.Frame.{
  others, reads, increment-Leaves, search_subscriptions-Leaves,
}
use inter_uss_platform.Scd.Store.Runs.{read_elim}
use inter_uss_platform.Scd.Store.Subscriptions.{search_subscriptions}
use inter_uss_platform.Scd.Store.Constraints.{has_id, row_of, get_constraint, upsert_constraint}
use inter_uss_platform.Scd.OperationalIntents.Notify.{increment_indices}
use inter_uss_platform.Scd.Constraints.Params.{
  ValidConstraintParams, check_previous, notification_volume, new_constraint, next_version,
}
use inter_uss_platform.Scd.Constraints.Put.{get_previous, notify_constraint, put_action}
use inter_uss_platform.Scd.Constraints.Delete.{get_required}

module _ (env : Platform) (tx : Tx) where
  get_previous-Leaves :
      {T : Type 0} {part : Db → T} (id : String) → Leaves part (get_previous env id)
  unfolding get_previous get_constraint
  get_previous-Leaves id = record { at = λ db. refl }

  pub get_required-Leaves :
      {T : Type 0} {part : Db → T} (id : String) → Leaves part (get_required env tx id)
  unfolding get_required get_constraint
  get_required-Leaves id = record { at = λ db. refl }

  pub notify-Leaves : (subs : List Subscription) → Leaves others (notify_constraint env tx subs)
  unfolding notify_constraint increment_indices
  notify-Leaves subs = search (reads, increment-Leaves)

  written :
      (c r : Constraint) (db u : Db)
      → upsert_constraint env tx c db ≡ (ok r, u)
      → others u
        ≡ (db.operations, upsert (has_id c.id) (row_of tx c) db.constraints, db.availabilities)
  unfolding upsert_constraint
  written c r db u h = ground arith

  -- The parts of a put that succeeded.
  pub put_run :
      (manager : String) (p : ValidConstraintParams) (db db' : Db)
      (r : ChangeConstraintReferenceResponse)
      → put_action env tx manager p db ≡ (ok r, db')
      → (old : Option Constraint) × (c : Constraint) × (get_previous env p.id db ≡ (ok old, db))
        × (check_previous manager p.ovn old ≡ ok tt)
        × (new_constraint manager p old ≡ ok c)
        × (others db'
            ≡ (db.operations, upsert (has_id c.id) (row_of tx c) db.constraints, db.availabilities))
  unfolding put_action
  put_run manager p db db' r h =
      read_elim (get_previous env p.id) _ db (get_previous-Leaves p.id) h λ old q1 h1.
        read_elim (lift (check_previous manager p.ovn old)) _ db (Leaves-lift _) h1 λ unit q2 h2.
          read_elim (lift (notification_volume env old p.u_extent)) _ db (Leaves-lift _) h2
            λ volume q3 h3.
              read_elim (lift (new_constraint manager p old)) _ db (Leaves-lift _) h3 λ c q4 h4.
                bind_elim (upsert_constraint env tx c) _ db h4 λ stored u q5 h5.
                  read_elim (search_subscriptions env volume) _ u
                    (search_subscriptions-Leaves env volume) h5
                    λ all_subs q6 h6.
                      bind_elim (notify_constraint env tx all_subs) _ u h6 λ subs w q7 h7. (
                        old,
                        c,
                        q1,
                        ap (λ x. x.0) q2,
                        ap (λ x. x.0) q4,
                        sym (ap (λ x. others x.1) h7)
                            ∙ sym (ap (λ x. others x.1) q7)
                            ∙ (notify-Leaves all_subs).at u
                            ∙ written c stored db u q5,
                      )

  -- What the parameters of a put say of a row, but for its version.
  abbrev pub Describes : String → ValidConstraintParams → ConstraintRow → Type 0
  Describes manager p row =
      (row.id ≡ p.id)
      × (row.owner ≡ manager)
      × (row.url ≡ p.uss_base_url)
      × (row.cells ≡ p.cells)
      × (row.starts_at ≡ p.u_extent.start_time)
      × (row.ends_at ≡ p.u_extent.end_time)
      × (row.updated_at ≡ tx.timestamp)
      × ((space : Volume3D) × (p.u_extent.spatial_volume ≡ some space)
          × (row.altitude_lower ≡ space.altitude_lo)
          × (row.altitude_upper ≡ space.altitude_hi))

  pub described :
      (manager : String) (p : ValidConstraintParams) (old : Option Constraint) (c : Constraint)
      → new_constraint manager p old ≡ ok c
      → Describes manager p (row_of tx c) × (c.version ≡ next_version old)
  unfolding new_constraint row_of
  described manager p old c h = >>=-elim (deref p.u_extent.spatial_volume) _ h λ space q k.
      let e = sym (ok-injective k) in
      (
        (
          ap (λ x. x.id) e,
          ap (λ x. x.manager) e,
          ap (λ x. x.uss_base_url) e,
          ap (λ x. x.cells) e,
          ap (λ x. x.start_time) e,
          ap (λ x. x.end_time) e,
          refl,
          (
            space,
            deref-eq-ok p.u_extent.spatial_volume space q,
            ap (λ x. x.altitude_lower) e,
            ap (λ x. x.altitude_upper) e,
          ),
        ),
        ap (λ x. x.version) e,
      )
