-- ===== src/Scd/Subscriptions/Covers.antt =====
-- A put of a subscription that succeeds covers the operational intents that depend on it.
use inter_uss_platform.Base.{
  ◌+◌, ◌≡◌, ◌≤◌, sym, ap, ◌∙◌, inl, inr, String, Bool, true, false, not, Option, none, some, List,
  [], ◌∷◌, filter, Mem, mem-map, mem-filter, str_eq_of_eq, arith, Bool-cases, if◌then◌else◌,
}
use mathlib.Core.Path.{subst}
use inter_uss_platform.Base.Int.{ltb_ℤ}
use inter_uss_platform.Base.Action.{Result, ok, lift, ok-injective, bind_elim}
use inter_uss_platform.Api.{Float, PutSubscriptionResponse}
use inter_uss_platform.Errors.{
  Code, Fault, with_code, reject_if, deref, deref-eq-ok, some-injective, reject_if-eq-ok,
  with_code-eq-ok, ◌>>=◌, >>=-elim,
}
use inter_uss_platform.Models.Times.{Time, sub, longer, longer-sub, after}
use inter_uss_platform.Models.Platform.{Platform}
use inter_uss_platform.Scd.Models.OperationalIntents.{OperationalIntent}
use inter_uss_platform.Base.Tables.{mem-upsert_self}
use inter_uss_platform.Scd.Store.{SubscriptionRow, OperationRow, Db, Tx}
use inter_uss_platform.Scd.Store.Frame.{get_operational_intent-Leaves, get_dependent-Leaves}
use inter_uss_platform.Scd.Store.Reads.{get_operational_intent_of_mem, get_subscription_of_mem}
use inter_uss_platform.Scd.Store.Runs.{read_elim}
use inter_uss_platform.Scd.Store.Subscriptions.{has_id, row_of, subscription_of}
use inter_uss_platform.Scd.Store.OperationalIntents.{
  depends_on, operational_intent_of, get_operational_intent, get_dependent_operational_intents,
}
use inter_uss_platform.Scd.Subscriptions.Params.{ValidSubscriptionParams}
use inter_uss_platform.Scd.Subscriptions.Put.{
  get_operations, check_dependents, keep_index, put_action,
}
use inter_uss_platform.Scd.Subscriptions.Run.{Committed, put_run, get_operations-Leaves}
use inter_uss_platform.Scd.Subscriptions.Effects.{stored_row}
use inter_uss_platform.Scd.Models.Subscriptions.{
  Subscription, five_minutes, altitude_outside, validate_dependent_op, validate_dependent_ops,
}

-- The subscription covers the operational intent in its cells and altitudes, and in time but for five
-- minutes at the start.
pub record Covers (env : Platform) (s : Subscription) (op : OperationalIntent) : Type 0 where
  pub cells : env.contains s.cells op.cells ≡ true
  pub altitudes :
      (lo : Float) × (hi : Float) × (lower : Float) × (upper : Float) × (s.altitude_lo ≡ some lo)
      × (s.altitude_hi ≡ some hi)
      × (op.altitude_lower ≡ some lower)
      × (op.altitude_upper ≡ some upper)
      × (ltb_ℤ lower lo ≡ false)
      × (ltb_ℤ hi upper ≡ false)
  pub times :
      (start : Time) × (end : Time) × (op_start : Time) × (op_end : Time) × (s.start_time
        ≡ some start)
      × (s.end_time ≡ some end)
      × (op.start_time ≡ some op_start)
      × (op.end_time ≡ some op_end)
      × (start ≤ op_start + five_minutes)
      × (op_end ≤ end)

module _ (env : Platform) (s : Subscription) where
  altitude_inside :
      (op : OperationalIntent)
      → altitude_outside op s ≡ ok false
      → (lo : Float) × (hi : Float) × (lower : Float) × (upper : Float) × (s.altitude_lo ≡ some lo)
        × (s.altitude_hi ≡ some hi)
        × (op.altitude_lower ≡ some lower)
        × (op.altitude_upper ≡ some upper)
        × (ltb_ℤ lower lo ≡ false)
        × (ltb_ℤ hi upper ≡ false)
  unfolding altitude_outside
  altitude_inside op h = >>=-elim (deref op.altitude_lower) _ h λ lower q1 h1.
      >>=-elim (deref s.altitude_lo) _ h1 λ lo q2 h2. elim (Bool-cases (ltb_ℤ lower lo)) [
        | inl below ↦
            absurd
              (differ (subst (λ b. (if b then ok true else upper_outside op) ≡ ok false) below h2))
        | inr above ↦
            >>=-elim (deref op.altitude_upper) _
              (subst (λ b. (if b then ok true else upper_outside op) ≡ ok false) above h2)
              λ upper q3 h3. >>=-elim (deref s.altitude_hi) _ h3 λ hi q4 h4. (
                lo,
                hi,
                lower,
                upper,
                deref-eq-ok s.altitude_lo lo q2,
                deref-eq-ok s.altitude_hi hi q4,
                deref-eq-ok op.altitude_lower lower q1,
                deref-eq-ok op.altitude_upper upper q3,
                above,
                ok-injective h4,
              )
      ]
    where
      upper_outside : OperationalIntent → Result Fault Bool
      upper_outside op =
          deref op.altitude_upper >>= λ upper. deref s.altitude_hi >>= λ hi. ok (ltb_ℤ hi upper)

      differ : ¬ (◌≡◌ {A = Result Fault Bool} (ok true) (ok false))
      differ q = absurd (cc)

  validate_dependent_op-Covers :
      (op : OperationalIntent) → validate_dependent_op env s op ≡ ok tt → Covers env s op
  unfolding validate_dependent_op after
  validate_dependent_op-Covers op h =
      >>=-elim (reject_if (not (env.contains s.cells op.cells)) Code.no_code) _ h λ u1 q1 h1.
        >>=-elim (altitude_outside op s) _ h1 λ outside q2 h2.
          >>=-elim (reject_if outside Code.no_code) _ h2 λ u3 q3 h3.
            >>=-elim (deref s.start_time) _ h3 λ start q4 h4.
              >>=-elim (deref op.start_time) _ h4 λ op_start q5 h5.
                >>=-elim (reject_if (longer (sub start op_start) five_minutes) Code.no_code) _ h5
                  λ u6 q6 h6. >>=-elim (deref op.end_time) _ h6 λ op_end q7 h7.
                    >>=-elim (deref s.end_time) _ h7 λ end q8 h8.
                      >>=-elim (reject_if (after op_end end) Code.no_code) _ h8 λ u9 q9 h9.
                        let late = reject_if-eq-ok _ _ u6 q6 in
                        let over = reject_if-eq-ok _ _ u9 q9 in
                        let contained = reject_if-eq-ok _ _ u1 q1 in
                        record {
                          cells = ground arith;
                          altitudes =
                              altitude_inside op (q2 ∙ ap ok (reject_if-eq-ok outside _ u3 q3));
                          times = (
                            start,
                            end,
                            op_start,
                            op_end,
                            deref-eq-ok s.start_time start q4,
                            deref-eq-ok s.end_time end q8,
                            deref-eq-ok op.start_time op_start q5,
                            deref-eq-ok op.end_time op_end q7,
                            ground (arith, longer-sub start op_start five_minutes (omega arith)),
                            ground arith,
                          );
                        }

  validate_dependent_ops-Covers :
      (ops : List (Option OperationalIntent)) (o : OperationalIntent)
      → validate_dependent_ops env s ops ≡ ok tt
      → Mem (some o) ops
      → Covers env s o
  unfolding validate_dependent_ops
  validate_dependent_ops-Covers [] o h m = elim m [ ]
  validate_dependent_ops-Covers (pointer ∷ ops) o h m = >>=-elim (deref pointer) _ h λ op q1 h1.
      >>=-elim (with_code Code.bad_request (validate_dependent_op env s op)) _ h1 λ u q2 h2.
        elim m [
          | inl e ↦
              subst (Covers env s) (some-injective (sym (deref-eq-ok pointer op q1) ∙ sym e))
                (validate_dependent_op-Covers op (with_code-eq-ok _ _ tt q2))
          | inr k ↦ validate_dependent_ops-Covers ops o h2 k
        ]

module _ (env : Platform) where
  get_operations_finds :
      (ids : List String) (db u : Db) (ops : List (Option OperationalIntent)) (row : OperationRow)
      → get_operations env ids db ≡ (ok ops, u)
      → Mem row.id ids
      → Mem row db.operations
      → Mem (some (operational_intent_of env db.availabilities row)) ops
  unfolding get_operations
  get_operations_finds [] db u ops row h m k = elim m [ ]
  get_operations_finds (id ∷ ids) db u ops row h m k =
      read_elim (get_operational_intent env id) _ db (get_operational_intent-Leaves env id) h
        λ o q1 h1.
          read_elim (get_operations env ids) _ db (get_operations-Leaves env ids) h1 λ rest q2 h2.
            subst (Mem (some (operational_intent_of env db.availabilities row)))
              (ok-injective (ap (λ x. x.0) h2))
              (elim m [
                | inl e ↦ inl (
                    sym (
                      get_operational_intent_of_mem env id db db o row q1 k
                        (str_eq_of_eq row.id id e)))
                | inr n ↦ inr (get_operations_finds ids db db rest row q2 n k)
              ])

  checked-Covers :
      (s prev : Subscription) (old : Option Subscription) (db : Db) (dependents : List String)
      (row : OperationRow)
      → old ≡ some prev
      → check_dependents env s old db ≡ (ok dependents, db)
      → Mem row db.operations
      → depends_on s.id row ≡ true
      → Covers env s (operational_intent_of env db.availabilities row)
  unfolding check_dependents get_dependent_operational_intents
  checked-Covers s prev none db dependents row e h m d = absurd (cc)
  checked-Covers s prev (some old) db dependents row e h m d =
      read_elim (get_dependent_operational_intents env s.id) _ db (get_dependent-Leaves env s.id) h
        λ ids q1 h1.
          read_elim (get_operations env ids) _ db (get_operations-Leaves env ids) h1 λ ops q2 h2.
            bind_elim (lift (validate_dependent_ops env s ops)) _ db h2 λ unit u q3 h3.
              validate_dependent_ops-Covers env s ops
                (operational_intent_of env db.availabilities row) (ap (λ x. x.0) q3)
                (get_operations_finds ids db db ops row q2
                  (subst (Mem row.id) (ok-injective (ap (λ x. x.0) q1)) (
                    mem-map (λ r. r.id) (filter (depends_on s.id) db.operations) row
                      (mem-filter (depends_on s.id) db.operations row d m)))
                  m)

-- A put that succeeds on a subscription that is there stores one that covers each operational intent
-- that depends on it.
pub put_subscription-Covers :
    (env : Platform) (tx : Tx) (now : Time) (manager : String) (p : ValidSubscriptionParams)
    (db db' : Db) (r : PutSubscriptionResponse) (previous : SubscriptionRow) (row : OperationRow)
    → put_action env tx now manager p db ≡ (ok r, db')
    → Mem previous db.subscriptions
    → previous.id ≡ p.subreq.id
    → Mem row db.operations
    → depends_on p.subreq.id row ≡ true
    → (s : Subscription) × (s.id ≡ p.subreq.id)
      × (s.altitude_lo ≡ p.subreq.altitude_lo)
      × (s.altitude_hi ≡ p.subreq.altitude_hi)
      × Mem (row_of tx s) db'.subscriptions
      × Covers env s (operational_intent_of env db.availabilities row)
put_subscription-Covers env tx now manager p db db' r previous row h m e n d =
    let c : Committed env tx now p db db' = put_run env tx now manager p db db' r h in
    let (t, k, like, end_state) = stored_row env tx now manager p db db' c in
    let s : Subscription = keep_index env c.old c.subreq in
    let there =
      get_subscription_of_mem env p.subreq.id db db c.old previous c.old_ok m
        (str_eq_of_eq previous.id p.subreq.id e) in
    (
      s,
      ap (λ x. x.id) like,
      ap (λ x. x.altitude_lo) like,
      ap (λ x. x.altitude_hi) like,
      subst (Mem (row_of tx s)) (sym (ap (λ x. x.subscriptions) end_state))
          (mem-upsert_self (has_id p.subreq.id) (row_of tx s) db.subscriptions),
      checked-Covers env s (subscription_of env previous) c.old db c.dependents row there c.checked
          n (subst (λ id. depends_on id row ≡ true) (sym (ap (λ x. x.id) like)) d),
    )
