-- ===== src/Scd/OperationalIntents/Upsert/Fencing.antt =====
-- Who may change an operational intent: its manager, who has to present its present OVN.
use inter_uss_platform.Base.{
  ◌≡◌, sym, ap, ◌∙◌, String, true, some, Mem, str_eq, str_eq-true, str_eq_of_eq, arith,
}
use inter_uss_platform.Base.Action.{ok}
use inter_uss_platform.Api.{ChangeOperationalIntentReferenceResponse}
use inter_uss_platform.Models.Platform.{Platform}
use inter_uss_platform.Scd.Models.OperationalIntents.{OperationalIntent}
use inter_uss_platform.Scd.Store.{OperationRow, Db, Tx}
use inter_uss_platform.Scd.Store.Reads.{get_operational_intent_of_mem}
use inter_uss_platform.Scd.Store.OperationalIntents.{operational_intent_of}
use inter_uss_platform.Scd.OperationalIntents.Params.{
  ValidOirParams, validate_upsert_request_against_previous_oir,
}
use inter_uss_platform.Scd.OperationalIntents.Upsert.{upsert_action}
use inter_uss_platform.Scd.OperationalIntents.Upsert.Run.{upsert_action_run}

validate_ok :
    (manager ovn : String) (o : OperationalIntent)
    → validate_upsert_request_against_previous_oir manager ovn (some o) ≡ ok tt
    → (o.manager ≡ manager) × (o.ovn ≡ ovn)
unfolding validate_upsert_request_against_previous_oir
validate_ok manager ovn o h =
    let h1 : str_eq o.manager manager ≡ true = ground arith in
    let h2 : str_eq o.ovn ovn ≡ true = ground arith in
    (str_eq-true o.manager manager h1, str_eq-true o.ovn ovn h2)

module _ (env : Platform) where
  -- An upsert that succeeds on an identifier that is taken was made by the manager of the operational
  -- intent, and the OVN it gave is the present one.
  pub upsert_fencing :
      (tx : Tx) (manager : String) (p : ValidOirParams) (db db' : Db)
      (r : ChangeOperationalIntentReferenceResponse) (row : OperationRow)
      → upsert_action env tx manager p db ≡ (ok r, db')
      → Mem row db.operations
      → row.id ≡ p.id
      → (row.owner ≡ manager) × ((operational_intent_of env db.availabilities row).ovn ≡ p.ovn)
  unfolding operational_intent_of
  upsert_fencing tx manager p db db' r row h m e =
      let c = upsert_action_run env tx manager p db db' r h in
      let f =
        get_operational_intent_of_mem env p.id db db c.old row c.old_ok m
          (str_eq_of_eq row.id p.id e) in
      validate_ok manager p.ovn (operational_intent_of env db.availabilities row)
        (ap (validate_upsert_request_against_previous_oir manager p.ovn) (sym f) ∙ c.valid_ok)
