-- ===== src/Scd/OperationalIntents/Read/Scrubbed.antt =====
-- What the reads tell of the OVNs.
use inter_uss_platform.Base.{
  ◌≡◌, refl, sym, ap, inl, inr, String, Option, none, some, List, Mem, mem-map_inv, str_eq,
  str_eq-true, Bool-cases,
}
use mathlib.Core.Path.{subst}
use inter_uss_platform.Base.Action.{ok, ok-injective}
use inter_uss_platform.Api.{OperationalIntentReference}
use inter_uss_platform.Models.Platform.{Platform}
use inter_uss_platform.Models.Volumes.{Volume4D}
use inter_uss_platform.Scd.Models.OperationalIntents.{OperationalIntent, to_rest}
use inter_uss_platform.Scd.Store.{Db}
use inter_uss_platform.Scd.Store.Frame.{
  search_operational_intents-Leaves, get_operational_intent-Leaves,
}
use inter_uss_platform.Scd.Store.Runs.{read_elim}
use inter_uss_platform.Scd.Store.OperationalIntents.{
  get_operational_intent, search_operational_intents,
}
use inter_uss_platform.Scd.OperationalIntents.Key.{scrubbed}
use inter_uss_platform.Scd.OperationalIntents.Key.Missing.{Tells, scrubbed-Tells}
use inter_uss_platform.Scd.OperationalIntents.Read.{
  hide_ovn, reference_for, get_action, query_action,
}

module _ (env : Platform) (client : String) (db db' : Db) where
  hidden-Tells : (o : OperationalIntent) → Tells env client (to_rest env (hide_ovn client o))
  unfolding hide_ovn to_rest
  hidden-Tells o = elim (Bool-cases (str_eq o.manager client)) [
    | inl mine ↦ rw mine (inl (str_eq-true o.manager client mine))
    | inr another ↦ rw another (inr refl)
  ]

  reference-Tells :
      (found : Option OperationalIntent) (ref : OperationalIntentReference)
      → reference_for env client found db ≡ (ok ref, db')
      → Tells env client ref × (db' ≡ db)
  unfolding reference_for
  reference-Tells none ref h = absurd (cc)
  reference-Tells (some o) ref h = (
    subst (Tells env client) (ok-injective (ap (λ x. x.0) h)) (hidden-Tells o),
    sym (ap (λ x. x.1) h),
  )

  -- A get that succeeds tells the OVN to the manager only, and leaves the database as it was.
  get-Tells :
      (id : String) (ref : OperationalIntentReference)
      → get_action env client id db ≡ (ok ref, db')
      → Tells env client ref × (db' ≡ db)
  unfolding get_action
  get-Tells id ref h =
      read_elim (get_operational_intent env id) _ db (get_operational_intent-Leaves env id) h
        λ found q k. reference-Tells found ref k

  -- A query of operational intents that succeeds leaves the database as it was, also where it finds
  -- nothing, and gives no OVN of one that the client does not manage.
  pub query_scrubbed :
      (vol4 : Volume4D) (refs : List OperationalIntentReference)
      → query_action env client vol4 db ≡ (ok refs, db')
      → (db' ≡ db) × ((ref : OperationalIntentReference) → Mem ref refs → Tells env client ref)
  unfolding query_action
  query_scrubbed vol4 refs h =
      read_elim (search_operational_intents env vol4) _ db
        (search_operational_intents-Leaves env vol4) h
        λ ops q k. (
          sym (ap (λ x. x.1) k),
          λ ref m.
              let (o, e, n) =
                mem-map_inv (scrubbed env client) ops ref
                  (subst (Mem ref) (ok-injective (sym (ap (λ x. x.0) k))) m) in
              subst (Tells env client) (sym e) (scrubbed-Tells env client o),
        )
