-- ===== src/Scd/OperationalIntents/Key/Missing.antt =====
-- What a check of the key that passes shows, and what a check that fails reports.
use inter_uss_platform.Base.{
  ◌≡◌, ◌≢◌, ◌≤◌, refl, sym, ap, ◌∙◌, String, true, false, Option, none, some, List, [], ◌∷◌, Mem,
  map, filter, length, filter-nil, mem-map_inv, mem-filter_inv, str_eq, str_eq_of_ne, str_eq-true,
  ◌⊎◌, Bool-cases, inl, inr, arith,
}
use mathlib.Core.Path.{subst}
use inter_uss_platform.Base.Action.{Result, ok, err, bind_elim, bind_step}
use inter_uss_platform.Api.{OperationalIntentReference, AirspaceConflictResponse}
use inter_uss_platform.Errors.{Fault, conflict}
use inter_uss_platform.Models.Platform.{Platform, CellUnion}
use inter_uss_platform.Models.Volumes.{Volume3D, Geometry, geometry_covering}
use inter_uss_platform.Scd.Models.OperationalIntents.{OperationalIntent, requires_key}
use inter_uss_platform.Scd.Models.OperationalIntents
use inter_uss_platform.Scd.Models.Ovns.{no_ovn_phrase}
use inter_uss_platform.Scd.Models.Constraints.{Constraint}
use inter_uss_platform.Scd.Models.Subscriptions.{Subscription}
use inter_uss_platform.Scd.Store.{OperationRow, Db, max_result_limit}
use inter_uss_platform.Scd.Store.Search.{search_operational_intents_finds}
use inter_uss_platform.Scd.Store.OperationalIntents.{
  operational_intent_of, in_volume, search_operational_intents,
}
use inter_uss_platform.Scd.OperationalIntents.Params.{ValidOirParams}
use inter_uss_platform.Scd.OperationalIntents.Key.{
  unless_empty, scrubbed, in_key, is_missing, is_missing_constraint, search_if_notified,
  conflict_response, validate_key_and_provide_conflict_response,
}

module _ (env : Platform) (manager : String) (p : ValidOirParams) where
  nothing_missing :
      (ops : List OperationalIntent) (cs : List Constraint)
      → conflict_response env manager ops cs ≡ ok tt
      → ops ≡ []
  unfolding conflict_response
  nothing_missing [] cs h = refl
  nothing_missing (o ∷ ops) cs h = absurd (cc)

  not_missing :
      (o : OperationalIntent)
      → is_missing p o ≡ false
      → requires_key o ≡ true
      → str_eq o.id p.id ≡ false
      → in_key p o.ovn ≡ true
  unfolding is_missing
  not_missing o h q e = ground arith

  pub validated_key :
      (w : Volume3D) (g : Geometry) (cells : CellUnion) (attached : Option Subscription) (db : Db)
      (row : OperationRow)
      → validate_key_and_provide_conflict_response env manager p attached db ≡ (ok tt, db)
      → p.u_extent.spatial_volume ≡ some w
      → w.footprint ≡ some g
      → geometry_covering env g ≡ ok cells
      → length (filter (in_volume cells w p.u_extent) db.operations) ≤ max_result_limit
      → Mem row db.operations
      → in_volume cells w p.u_extent row ≡ true
      → row.id ≢ p.id
      → requires_key (operational_intent_of env db.availabilities row) ≡ true
      → in_key p (operational_intent_of env db.availabilities row).ovn ≡ true
  unfolding validate_key_and_provide_conflict_response operational_intent_of
  validated_key w g cells attached db row h s f c l m i ne q =
      let o = operational_intent_of env db.availabilities row in
      bind_elim (search_operational_intents env p.u_extent) _ db h λ relevant u1 q1 h1.
        bind_elim (search_if_notified env p attached) _ u1 h1 λ constraints u2 q2 h2.
          not_missing o
            (filter-nil (is_missing p) relevant o
              (nothing_missing (filter (is_missing p) relevant)
                (filter (is_missing_constraint p) constraints) (ap (λ x. x.0) h2))
              (search_operational_intents_finds env p.u_extent w cells db u1 g relevant row q1 s f c
                l m i))
            q (id_differs db row ne)
    where
      id_differs :
          (db : Db) (row : OperationRow)
          → row.id ≢ p.id
          → str_eq (operational_intent_of env db.availabilities row).id p.id ≡ false
      id_differs db row ne = str_eq_of_ne row.id p.id ne

-- Whether a reference tells its OVN.
abbrev pub Tells : Platform → String → OperationalIntentReference → Type 0
Tells env manager ref = (ref.manager ≡ manager) ⊎ (ref.ovn ≡ some no_ovn_phrase)

abbrev references : Option (List OperationalIntentReference) → List OperationalIntentReference
references none = []
references (some refs) = refs

module _ (env : Platform) (manager : String) where
  pub scrubbed-Tells : (o : OperationalIntent) → Tells env manager (scrubbed env manager o)
  unfolding scrubbed OperationalIntents.to_rest
  scrubbed-Tells o = elim (Bool-cases (str_eq o.manager manager)) [
    | inl mine ↦ rw mine (inl (str_eq-true o.manager manager mine))
    | inr another ↦ rw another (inr refl)
  ]

  references_of : (xs : List OperationalIntentReference) → references (unless_empty xs) ≡ xs
  unfolding unless_empty
  references_of [] = refl
  references_of (x ∷ xs) = refl

  missing_of :
      {a b : AirspaceConflictResponse}
      → ◌≡◌ {A = Result Fault (Unit {0})} (err (conflict a)) (err (conflict b))
      → a.missing_operational_intents ≡ b.missing_operational_intents
  missing_of h = cc

  response_refs :
      (ops : List OperationalIntent) (cs : List Constraint) (c : AirspaceConflictResponse)
      → conflict_response env manager ops cs ≡ err (conflict c)
      → references c.missing_operational_intents ≡ map (scrubbed env manager) ops
  unfolding conflict_response
  response_refs [] [] c h = absurd (cc)
  response_refs [] (k ∷ ks) c h = ap references (sym (missing_of h))
  response_refs (o ∷ ops) cs c h =
      ap references (sym (missing_of h)) ∙ references_of (map (scrubbed env manager) (o ∷ ops))

  Tells-all :
      (ops : List OperationalIntent) (ref : OperationalIntentReference)
      → Mem ref (map (scrubbed env manager) ops)
      → Tells env manager ref
  Tells-all ops ref m =
      let (o, e, k) = mem-map_inv (scrubbed env manager) ops ref m in
      subst (Tells env manager) (sym e) (scrubbed-Tells o)

  scrubbed_id : (o : OperationalIntent) → (scrubbed env manager o).id ≡ o.id
  unfolding scrubbed OperationalIntents.to_rest
  scrubbed_id o = ground arith

  -- A conflict that the check of a key reports names operational intents that were found and are
  -- missing from the key, and it tells no OVN of one whose manager is not the caller.
  pub conflict_scrubbed :
      (p : ValidOirParams) (attached : Option Subscription) (db u v w : Db)
      (relevant : List OperationalIntent) (cs : List Constraint) (c : AirspaceConflictResponse)
      (ref : OperationalIntentReference)
      → search_operational_intents env p.u_extent db ≡ (ok relevant, u)
      → search_if_notified env p attached u ≡ (ok cs, v)
      → validate_key_and_provide_conflict_response env manager p attached db ≡ (err (conflict c), w)
      → Mem ref (references c.missing_operational_intents)
      → ((o : OperationalIntent) × Mem o relevant × (is_missing p o ≡ true) × (ref.id ≡ o.id))
        × Tells env manager ref
  unfolding validate_key_and_provide_conflict_response
  conflict_scrubbed p attached db u v w relevant cs c ref q r h m =
      let run =
        sym (
          bind_step (search_operational_intents env p.u_extent) _ db u relevant q
          ∙ bind_step (search_if_notified env p attached) _ u v cs r)
        ∙ h in
      let refs =
        response_refs (filter (is_missing p) relevant) (filter (is_missing_constraint p) cs) c
          (ap (λ x. x.0) run) in
      let (o, e, k) =
        mem-map_inv (scrubbed env manager) (filter (is_missing p) relevant) ref
          (subst (Mem ref) refs m) in
      let (missing, found) = mem-filter_inv (is_missing p) relevant o k in
      (
        (o, found, missing, ap (λ x. x.id) e ∙ scrubbed_id o),
        Tells-all (filter (is_missing p) relevant) ref (subst (Mem ref) refs m),
      )
