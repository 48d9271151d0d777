-- ===== src/Scd/OperationalIntents/Upsert/Keys.antt =====
-- What a key has to name: every operational intent in the volume that requires it.
use inter_uss_platform.Base.{
  ◌≡◌, ◌≢◌, ◌≤◌, sym, ap, ◌∙◌, String, true, Option, some, Mem, filter, length, if◌then◌else◌,
}
use mathlib.Core.Path.{subst}
use inter_uss_platform.Base.Action.{ok, pure}
use inter_uss_platform.Api.{ChangeOperationalIntentReferenceResponse}
use inter_uss_platform.Models.Platform.{Platform, CellUnion}
use inter_uss_platform.Models.Volumes.{Volume3D, Geometry, geometry_covering}
use inter_uss_platform.Scd.Models.OperationalIntents.{requires_key, state_requires_key}
use inter_uss_platform.Scd.Models.Subscriptions.{Subscription}
use inter_uss_platform.Scd.Store.{OperationRow, Db, Tx, max_result_limit}
use inter_uss_platform.Scd.Store.OperationalIntents.{operational_intent_of, in_volume}
use inter_uss_platform.Scd.OperationalIntents.Params.{ValidOirParams}
use inter_uss_platform.Scd.OperationalIntents.Attach.Frame.{attach-Leaves}
use inter_uss_platform.Scd.OperationalIntents.Key.{
  in_key, validate_key_and_provide_conflict_response,
}
use inter_uss_platform.Scd.OperationalIntents.Key.Missing.{validated_key}
use inter_uss_platform.Scd.OperationalIntents.Upsert.{upsert_action, check_key}
use inter_uss_platform.Scd.OperationalIntents.Upsert.Run.{upsert_action_run}

module _ (env : Platform) (tx : Tx) (manager : String) (p : ValidOirParams) (w : Volume3D)
    (g : Geometry) (cells : CellUnion) where
  check_key_run :
      (attached : Option Subscription) (db : Db)
      → check_key env tx manager p attached db ≡ (ok tt, db)
      → state_requires_key p.state ≡ true
      → validate_key_and_provide_conflict_response env manager p attached db ≡ (ok tt, db)
  unfolding check_key
  check_key_run attached db h e =
      subst
        (λ b.
          (if b then validate_key_and_provide_conflict_response env manager p attached else pure tt)
            db
          ≡ (ok tt, db))
        e h

  -- An upsert to a state that requires a key succeeds only if the key has the OVN of every other
  -- operational intent in the requested volume, unless that one is accepted and its manager is down.
  -- The volume has a footprint that can be covered, and the limit on results is not exceeded.
  pub upsert_key_safety :
      (db db' : Db) (r : ChangeOperationalIntentReferenceResponse) (row : OperationRow)
      → upsert_action env tx manager p db ≡ (ok r, db')
      → state_requires_key p.state ≡ true
      → p.u_extent.spatial_volume ≡ some w
      → w.footprint ≡ some g
      → geometry_covering env g ≡ ok cells
      → length (filter (in_volume cells w p.u_extent) db.operations) ≤ max_result_limit
      → Mem row db.operations
      → in_volume cells w p.u_extent row ≡ true
      → row.id ≢ p.id
      → requires_key (operational_intent_of env db.availabilities row) ≡ true
      → in_key p (operational_intent_of env db.availabilities row).ovn ≡ true
  upsert_key_safety db db' r row h e s f c l m i ne q =
      let run = upsert_action_run env tx manager p db db' r h in
      let t = run.store_ok in
      let same =
        sym (ap (λ x. (x.1.operations, x.1.constraints, x.1.availabilities)) t.attached_ok)
        ∙ (attach-Leaves env tx manager p t.previous).at db in
      let rows : t.attached_db.operations ≡ db.operations = ap (λ x. x.0) same in
      let avail : t.attached_db.availabilities ≡ db.availabilities = ap (λ x. x.2) same in
      subst (λ a. in_key p (operational_intent_of env a row).ovn ≡ true) avail
        (validated_key env manager p w g cells t.attached t.attached_db row
          (check_key_run t.attached t.attached_db t.key_ok e) s f c
          (subst (λ x. length (filter (in_volume cells w p.u_extent) x) ≤ max_result_limit)
            (sym rows) l)
          (subst (Mem row) (sym rows) m) i ne
          (subst (λ a. requires_key (operational_intent_of env a row) ≡ true) (sym avail) q))
