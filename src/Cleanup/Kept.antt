-- ===== src/Cleanup/Kept.antt =====
-- What an eviction keeps.
use inter_uss_platform.Base.{
  ◌≡◌, ◌≢◌, refl, sym, ap, ◌∙◌, inl, inr, String, Bool, true, false, List, [], ◌∷◌, filter, take,
  Mem, mem-map_inv, mem-take, mem-filter_inv, str_eq_of_ne, Bool-cases, arith, if◌then◌else◌,
}
use mathlib.Core.Path.{subst}
use inter_uss_platform.Base.Tables.{delete_where, mem-delete_where}
use inter_uss_platform.Base.Action.{ok, pure, bind_elim, ok-injective}
use inter_uss_platform.Base.Action.Leaves.{Leaves, Leaves-gets}
use inter_uss_platform.Base.Action.Runs.{read_elim}
use inter_uss_platform.Models.Times.{Time}
use inter_uss_platform.Models.Platform.{Platform}
use inter_uss_platform.Scd.Models.OperationalIntents.{OperationalIntent}
use inter_uss_platform.Scd.Models.Subscriptions.{Subscription}
use inter_uss_platform.Scd.Store.{OperationRow, SubscriptionRow, Db, max_result_limit}
use inter_uss_platform.Scd.Store.Subscriptions.{subscription_of, delete_subscription}
use inter_uss_platform.Scd.Store.OperationalIntents.{
  has_id, depends_on, operational_intent_of, delete_operational_intent,
}
use inter_uss_platform.Scd.Store.Expired.{
  has_expired, list_expired_subscriptions, list_expired_operational_intents,
}
use inter_uss_platform.Cleanup.{
  Flags, delete_operational_intents, delete_subscriptions, evict_operational_intents,
  evict_subscriptions, evict_action,
}

-- The rows of each table have different identifiers.
abbrev pub DistinctIds : List OperationRow → Type 0
DistinctIds rows = (a b : OperationRow) → Mem a rows → Mem b rows → a.id ≡ b.id → a ≡ b

module _ (env : Platform) (threshold : Time) (row : OperationRow) where
  gone :
      (id : String) (db u : Db)
      → delete_operational_intent env id db ≡ (ok tt, u)
      → u ≡ record db { operations = delete_where (has_id id) db.operations }
  unfolding delete_operational_intent
  gone id db u h = ground arith

  cascaded :
      (id : String) (db u : Db)
      → delete_subscription env id db ≡ (ok tt, u)
      → u.operations ≡ delete_where (depends_on id) db.operations
  unfolding delete_subscription
  cascaded id db u h = ground arith

  -- Deleting other operational intents.
  others_deleted :
      (os : List OperationalIntent) (db u : Db)
      → delete_operational_intents env os db ≡ (ok tt, u)
      → ((o : OperationalIntent) → Mem o os → row.id ≢ o.id)
      → Mem row db.operations
      → Mem row u.operations × (u.subscriptions ≡ db.subscriptions)
  unfolding delete_operational_intents
  others_deleted [] db u h ne m =
      (subst (λ x. Mem row x.operations) (ap (λ x. x.1) h) m, sym (ap (λ x. x.1.subscriptions) h))
  others_deleted (o ∷ os) db u h ne m =
      bind_elim (delete_operational_intent env o.id) _ db h λ unit v q k.
        let rows = gone o.id db v q in
        let (n, same) =
          others_deleted os v u k (λ p i. ne p (inr i))
            (subst (λ x. Mem row x.operations) (sym rows)
              (mem-delete_where (has_id o.id) db.operations row
                (str_eq_of_ne row.id o.id (ne o (inl refl))) m)) in
        (n, same ∙ ap (λ x. x.subscriptions) rows)

  -- Deleting subscriptions that the operational intent does not refer to.
  unrelated_deleted :
      (subs : List Subscription) (db u : Db)
      → delete_subscriptions env subs db ≡ (ok tt, u)
      → ((s : Subscription) → Mem s subs → depends_on s.id row ≡ false)
      → Mem row db.operations
      → Mem row u.operations
  unfolding delete_subscriptions
  unrelated_deleted [] db u h ne m = subst (λ x. Mem row x.operations) (ap (λ x. x.1) h) m
  unrelated_deleted (s ∷ subs) db u h ne m =
      bind_elim (delete_subscription env s.id) _ db h λ unit v q k.
        unrelated_deleted subs v u k (λ p i. ne p (inr i))
          (subst (Mem row) (sym (cascaded s.id db v q))
            (mem-delete_where (depends_on s.id) db.operations row (ne s (inl refl)) m))

  -- What is listed is expired.
  listed_intent :
      (db u : Db) (os : List OperationalIntent) (o : OperationalIntent)
      → list_expired_operational_intents env threshold db ≡ (ok os, u)
      → Mem o os
      → (r : OperationRow) × Mem r db.operations
        × (o.id ≡ r.id)
        × (has_expired threshold r.ends_at r.updated_at ≡ true)
  unfolding list_expired_operational_intents operational_intent_of
  listed_intent db u os o h m =
      let expired = λ (r : OperationRow). has_expired threshold r.ends_at r.updated_at in
      let (r, e, k) =
        mem-map_inv (operational_intent_of env db.availabilities)
          (take max_result_limit (filter expired db.operations)) o
          (subst (Mem o) (ok-injective (sym (ap (λ x. x.0) h))) m) in
      let (q, i) =
        mem-filter_inv expired db.operations r
          (mem-take max_result_limit (filter expired db.operations) r k) in
      (r, i, ap (λ x. x.id) e, q)

  listed_subscription :
      (db u : Db) (subs : List Subscription) (s : Subscription)
      → list_expired_subscriptions env threshold db ≡ (ok subs, u)
      → Mem s subs
      → (r : SubscriptionRow) × Mem r db.subscriptions
        × (s.id ≡ r.id)
        × (has_expired threshold r.ends_at r.updated_at ≡ true)
  unfolding list_expired_subscriptions subscription_of
  listed_subscription db u subs s h m =
      let expired = λ (r : SubscriptionRow). has_expired threshold r.ends_at r.updated_at in
      let (r, e, k) =
        mem-map_inv (subscription_of env) (take max_result_limit (filter expired db.subscriptions))
          s (subst (Mem s) (ok-injective (sym (ap (λ x. x.0) h))) m) in
      let (q, i) =
        mem-filter_inv expired db.subscriptions r
          (mem-take max_result_limit (filter expired db.subscriptions) r k) in
      (r, i, ap (λ x. x.id) e, q)

  intents_Leaves :
      {T : Type 0} {part : Db → T} → Leaves part (list_expired_operational_intents env threshold)
  unfolding list_expired_operational_intents
  intents_Leaves = Leaves-gets _

  subscriptions_Leaves :
      {T : Type 0} {part : Db → T} → Leaves part (list_expired_subscriptions env threshold)
  unfolding list_expired_subscriptions
  subscriptions_Leaves = Leaves-gets _

  -- The part on operational intents, whichever the flags.
  intents_evicted :
      (list delete : Bool) (db u : Db) (os : List OperationalIntent)
      → (if list then evict_operational_intents env delete threshold else pure []) db ≡ (ok os, u)
      → DistinctIds db.operations
      → has_expired threshold row.ends_at row.updated_at ≡ false
      → Mem row db.operations
      → Mem row u.operations × (u.subscriptions ≡ db.subscriptions)
  unfolding evict_operational_intents
  intents_evicted false delete db u os h d live m =
      (subst (λ x. Mem row x.operations) (ap (λ x. x.1) h) m, sym (ap (λ x. x.1.subscriptions) h))
  intents_evicted true false db u os h d live m =
      read_elim (list_expired_operational_intents env threshold) _ db intents_Leaves h
        λ expired q k. bind_elim (pure tt) _ db k λ unit v q2 k2.
          let same : db ≡ u = ap (λ x. x.1) q2 ∙ ap (λ x. x.1) k2 in
          (subst (λ x. Mem row x.operations) same m, sym (ap (λ x. x.subscriptions) same))
  intents_evicted true true db u os h d live m =
      read_elim (list_expired_operational_intents env threshold) _ db intents_Leaves h
        λ expired q k. bind_elim (delete_operational_intents env expired) _ db k λ unit v q2 k2.
          let (n, same) =
            others_deleted expired db v q2
              (λ o i e.
                let (r, j, id_is, late) = listed_intent db db expired o q i in
                differ
                  (subst (λ x. has_expired threshold x.ends_at x.updated_at ≡ true)
                    (d r row j m (sym id_is ∙ sym e)) late)
                  live)
              m in
          (
            subst (λ x. Mem row x.operations) (ap (λ x. x.1) k2) n,
            sym (ap (λ x. x.1.subscriptions) k2) ∙ same,
          )
    where
      differ : {b : Bool} → b ≡ true → b ≡ false → ⊥
      differ p q = absurd (cc)

  -- The part on subscriptions, whichever the flags.
  subscriptions_evicted :
      (list delete : Bool) (db u : Db) (subs : List Subscription)
      → (if list then evict_subscriptions env delete threshold else pure []) db ≡ (ok subs, u)
      → ((s : SubscriptionRow)
          → Mem s db.subscriptions
          → depends_on s.id row ≡ true
          → has_expired threshold s.ends_at s.updated_at ≡ false)
      → Mem row db.operations
      → Mem row u.operations
  unfolding evict_subscriptions
  subscriptions_evicted false delete db u subs h live m =
      subst (λ x. Mem row x.operations) (ap (λ x. x.1) h) m
  subscriptions_evicted true false db u subs h live m =
      read_elim (list_expired_subscriptions env threshold) _ db subscriptions_Leaves h
        λ expired q k.
          bind_elim (pure tt) _ db k λ unit v q2 k2.
            subst (λ x. Mem row x.operations) (ap (λ x. x.1) q2 ∙ ap (λ x. x.1) k2) m
  subscriptions_evicted true true db u subs h live m =
      read_elim (list_expired_subscriptions env threshold) _ db subscriptions_Leaves h
        λ expired q k. bind_elim (delete_subscriptions env expired) _ db k λ unit v q2 k2.
          subst (λ x. Mem row x.operations) (ap (λ x. x.1) k2)
            (unrelated_deleted expired db v q2
              (λ s i.
                let (r, j, id_is, late) = listed_subscription db db expired s q i in
                elim (Bool-cases (depends_on s.id row)) [
                  | inl dependent ↦ absurd (
                      differ late (live r j (subst (λ x. depends_on x row ≡ true) id_is dependent)))
                  | inr other ↦ other
                ])
              m)
    where
      differ : {b : Bool} → b ≡ true → b ≡ false → ⊥
      differ p q = absurd (cc)

-- An eviction that succeeds keeps every operational intent that has not expired and whose subscription
-- has not either, if no two operational intents have one identifier.
pub evict_keeps :
    (env : Platform) (flags : Flags) (threshold : Time) (db db' : Db)
    (r : List OperationalIntent × List Subscription) (row : OperationRow)
    → evict_action env flags threshold db ≡ (ok r, db')
    → DistinctIds db.operations
    → has_expired threshold row.ends_at row.updated_at ≡ false
    → ((s : SubscriptionRow)
        → Mem s db.subscriptions
        → depends_on s.id row ≡ true
        → has_expired threshold s.ends_at s.updated_at ≡ false)
    → Mem row db.operations
    → Mem row db'.operations
unfolding evict_action
evict_keeps env flags threshold db db' r row h d live sub_live m =
    bind_elim
      (if flags.list_scd_oirs
        then evict_operational_intents env flags.delete_expired threshold
        else pure [])
      _ db h
      λ os u q k.
        bind_elim
          (if flags.list_scd_subs
            then evict_subscriptions env flags.delete_expired threshold
            else pure [])
          _ u k
          λ subs v q2 k2.
            let (n, same) =
              intents_evicted env threshold row flags.list_scd_oirs flags.delete_expired db u os q d
                live m in
            subst (λ x. Mem row x.operations) (ap (λ x. x.1) k2)
              (subscriptions_evicted env threshold row flags.list_scd_subs flags.delete_expired u v
                subs q2 (λ s i. sub_live s (subst (Mem s) same i)) n)
