-- ===== src/Scd/OperationalIntents/Upsert/Refused.antt =====
-- An update of an operational intent by another than its manager, or with an OVN that is not the
-- present one, is refused by the handler and changes nothing.
use inter_uss_platform.Base.{
  ◌≡◌, ◌≢◌, refl, sym, ap, ◌∙◌, inl, inr, ◌⊎◌, String, Bool, Option, none, some, Mem, arith,
}
use inter_uss_platform.Base.Action.{Action, Result, ok, ok-injective, err, lift, transact, ◌>>=◌}
use inter_uss_platform.Base.Action.Leaves.{Leaves-lift}
use inter_uss_platform.Base.Action.Runs.{read_elim, transact_ok}
use inter_uss_platform.Api.{
  PutOperationalIntentReferenceParameters, ChangeOperationalIntentReferenceResponse,
}
use inter_uss_platform.Errors.{Code, with_code, with_code-eq-ok}
use inter_uss_platform.Models.Times.{Time}
use inter_uss_platform.Models.Platform.{Platform}
use inter_uss_platform.Models.Ids.{id_from_string}
use inter_uss_platform.Scd.Store.{OperationRow, Db, Tx}
use inter_uss_platform.Scd.Store.OperationalIntents.{operational_intent_of}
use inter_uss_platform.Scd.Server.{Reply, success, AuthorizationResult, reply_success}
use inter_uss_platform.Scd.OperationalIntents.Params.{
  ValidOirParams, validate_and_return_upsert_params, check_upsert_permissions_and_return_manager,
}
use inter_uss_platform.Scd.OperationalIntents.Upsert.{
  Request, put_body, authorized_put, upsert_status, upsert_action,
  upsert_operational_intent_reference, update_operational_intent_reference,
}
use inter_uss_platform.Scd.OperationalIntents.Upsert.Fencing.{upsert_fencing}

-- A run that fails leaves the state as it was.
abbrev Undone : {S E A : Type 0} → Action S E A → S → Type 0
Undone {A = A} m s = ((a : A) × ((m s).0 ≡ ok a)) ⊎ ((m s).1 ≡ s)

module _ {S E A : Type 0} where
  lift-Undone :
      {B : Type 0} (r : Result E A) (f : A → Action S E B) (s : S)
      → ((a : A) → Undone (f a) s)
      → Undone (lift r >>= f) s
  unfolding ◌>>=◌
  lift-Undone (ok a) f s h = h a
  lift-Undone (err e) f s h = inr refl

  rolled_back :
      (s t : S) (r : Result E A) → ((a : A) × (r ≡ ok a)) ⊎ ((elim r [ ok _ ↦ t | err _ ↦ s ]) ≡ s)
  rolled_back s t (ok a) = inl (a, refl)
  rolled_back s t (err e) = inr refl

  transact-Undone : (m : Action S E A) (s : S) → Undone (transact m) s
  unfolding transact
  transact-Undone m s = rolled_back s (m s).1 (m s).0

accepted_id :
    (env : Platform) (now : Time) (entityid ovn : String)
    (params : PutOperationalIntentReferenceParameters) (allow_http : Bool) (p : ValidOirParams)
    → validate_and_return_upsert_params env now entityid ovn params allow_http ≡ ok p
    → (id_from_string env entityid ≡ ok p.id) × (p.ovn ≡ ovn)
unfolding validate_and_return_upsert_params
accepted_id env now entityid ovn params allow_http p h = ground arith

allowed_manager :
    (auth : AuthorizationResult) (state manager : String)
    → check_upsert_permissions_and_return_manager auth state ≡ ok manager
    → auth.client_id ≡ some manager
unfolding check_upsert_permissions_and_return_manager
allowed_manager auth state manager h = ground arith

module _ (env : Platform) (tx : Tx) (now : Time) (allow_http : Bool) where
  -- What an upsert that succeeds went through.
  committed :
      (auth : AuthorizationResult) (entityid ovn : String)
      (params : PutOperationalIntentReferenceParameters) (db t : Db)
      (r : ChangeOperationalIntentReferenceResponse)
      → upsert_operational_intent_reference env tx now allow_http auth entityid ovn params db
        ≡ (ok r, t)
      → (p : ValidOirParams) × (manager : String) × ((id_from_string env entityid ≡ ok p.id)
          × (p.ovn ≡ ovn))
        × (auth.client_id ≡ some manager)
        × (upsert_action env tx manager p db ≡ (ok r, t))
  unfolding upsert_operational_intent_reference
  committed auth entityid ovn params db t r h =
      read_elim
        (lift (
          with_code Code.bad_request
            (validate_and_return_upsert_params env now entityid ovn params allow_http)))
        _ db (Leaves-lift _) h
        λ p q k.
          read_elim
            (lift (
              with_code Code.permission_denied
                (check_upsert_permissions_and_return_manager auth p.state)))
            _ db (Leaves-lift _) k
            λ manager q2 k2. (
              p,
              manager,
              accepted_id env now entityid ovn params allow_http p
                  (with_code-eq-ok Code.bad_request _ p (ap (λ x. x.0) q)),
              allowed_manager auth p.state manager
                  (with_code-eq-ok Code.permission_denied _ manager (ap (λ x. x.0) q2)),
              transact_ok (upsert_action env tx manager p) db t r k2,
            )

  upsert-Undone :
      (auth : AuthorizationResult) (entityid ovn : String)
      (params : PutOperationalIntentReferenceParameters) (db : Db)
      → Undone
          (upsert_operational_intent_reference env tx now allow_http auth entityid ovn params)
          db
  unfolding upsert_operational_intent_reference
  upsert-Undone auth entityid ovn params db =
      lift-Undone _ _ db
        λ p. lift-Undone _ _ db λ manager. transact-Undone (upsert_action env tx manager p) db

  -- The caller manages the operational intent and gives its present OVN.
  abbrev pub MayChange : AuthorizationResult → String → Db → OperationRow → Type 0
  MayChange auth ovn db row =
      (auth.client_id ≡ some row.owner)
      × ((operational_intent_of env db.availabilities row).ovn ≡ ovn)

  -- There is no success, and the database is as before.
  abbrev pub Refuses : Reply ChangeOperationalIntentReferenceResponse × Db → Db → Type 0
  Refuses q db = ((r : ChangeOperationalIntentReferenceResponse) → q.0 ≢ success r) × (q.1 ≡ db)

  never_ok :
      (auth : AuthorizationResult) (entityid ovn : String)
      (params : PutOperationalIntentReferenceParameters) (db : Db) (row : OperationRow)
      → Mem row db.operations
      → id_from_string env entityid ≡ ok row.id
      → ¬ (MayChange auth ovn db row)
      → (r : ChangeOperationalIntentReferenceResponse)
      → ¬ (
          (upsert_operational_intent_reference env tx now allow_http auth entityid ovn params db).0
          ≡ ok r)
  never_ok auth entityid ovn params db row m i d r e =
      let (p, manager, (id, given), client, run) = committed auth entityid ovn params db _ r (λ j. (
        e j,
        (upsert_operational_intent_reference env tx now allow_http auth entityid ovn params db).1,
      )) in
      let (owner, current) =
        upsert_fencing env tx manager p db _ r row run m (ok-injective (sym i ∙ id)) in
      d (client ∙ ap some (sym owner), current ∙ given)

  body-Refuses :
      (req : Request PutOperationalIntentReferenceParameters) (ovn : String)
      (body : Option PutOperationalIntentReferenceParameters) (db : Db) (row : OperationRow)
      → Mem row db.operations
      → id_from_string env req.entityid ≡ ok row.id
      → ¬ (MayChange req.auth ovn db row)
      → Refuses (put_body env tx now allow_http req ovn body db) db
  unfolding put_body
  body-Refuses req ovn none db row m i d = (λ r e. absurd (cc), refl)
  body-Refuses req ovn (some params) db row m i d =
      let never = never_ok req.auth req.entityid ovn params db row m i d in
      (
        λ r e. never r (reply_success upsert_status _ r e),
        elim (upsert-Undone req.auth req.entityid ovn params db) [
          | inl (r, e) ↦ absurd (never r e)
          | inr same ↦ same
        ],
      )

  put-Refuses :
      (req : Request PutOperationalIntentReferenceParameters) (ovn : String) (code : Option Code)
      (db : Db) (row : OperationRow)
      → Mem row db.operations
      → id_from_string env req.entityid ≡ ok row.id
      → ¬ (MayChange req.auth ovn db row)
      → Refuses (authorized_put env tx now allow_http req ovn code db) db
  unfolding authorized_put
  put-Refuses req ovn none db row m i d = body-Refuses req ovn req.body db row m i d
  put-Refuses req ovn (some code) db row m i d = (λ r e. absurd (cc), refl)

  -- The update of an operational intent that is there, by a caller that does not manage it or does not
  -- give its present OVN, whatever else is in the request, is not replied to with success and leaves
  -- the whole database as it was.
  pub update_refused :
      (req : Request PutOperationalIntentReferenceParameters) (db : Db) (row : OperationRow)
      → Mem row db.operations
      → id_from_string env req.entityid ≡ ok row.id
      → ¬ (MayChange req.auth req.ovn db row)
      → Refuses (update_operational_intent_reference env tx now allow_http req db) db
  unfolding update_operational_intent_reference
  update_refused req db row m i d = put-Refuses req req.ovn req.auth.error db row m i d
