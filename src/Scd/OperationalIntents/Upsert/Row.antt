-- ===== src/Scd/OperationalIntents/Upsert/Row.antt =====
-- The row that an upsert which succeeds writes, and that it is still there at the end.
use inter_uss_platform.Base.{
  ℕ, ◌+◌, ◌%◌, ◌++◌, [], ◌∷◌, str_eq_of_eq, ◌≡◌, ◌≢◌, refl, sym, ap, ◌∙◌, ◌⊎◌, inl, inr, String,
  Bool, true, false, Option, none, some, List, Mem, str_eq, str_eq_of_ne, str_eq-false, arith,
}
use mathlib.Core.Path.{subst}
use inter_uss_platform.Base.Tables.{mem-upsert_self, mem-upsert_inv, mem-delete_where}
use inter_uss_platform.Base.Action.{ok, ok-injective}
use inter_uss_platform.Errors.{deref, deref-eq-ok, >>=-elim}
use inter_uss_platform.Models.Volumes.{Volume3D}
use inter_uss_platform.Api.{ChangeOperationalIntentReferenceResponse}
use inter_uss_platform.Models.Platform.{Platform}
use inter_uss_platform.Scd.Models.OperationalIntents.{OperationalIntent}
use inter_uss_platform.Scd.Models.Subscriptions.{Subscription}
use inter_uss_platform.Scd.Store.{SubscriptionRow, OperationRow, Db, Tx}
use inter_uss_platform.Scd.Store.Reads.{get_operational_intent_of_mem, get_operational_intent-some}
use inter_uss_platform.Scd.Store.OperationalIntents.{
  row_of, has_id, depends_on, requested_ovn, get_operational_intent, operational_intent_of,
}
use inter_uss_platform.Scd.OperationalIntents.Params.{ValidOirParams, to_oir, subscription_id_of}
use inter_uss_platform.Scd.OperationalIntents.Attach.{get_previous_subscription}
use inter_uss_platform.Scd.OperationalIntents.Attach.Choice.{attach_id, attach_chosen, chosen}
use inter_uss_platform.Scd.OperationalIntents.Attach.Removal.{Removable, previous_known}
use inter_uss_platform.Scd.OperationalIntents.Upsert.{
  upsert_action, remove_previous, next_version, next_past_ovns,
}
use inter_uss_platform.Scd.OperationalIntents.Upsert.Run.{
  Stored, upsert_action_run, Committed-operations,
}
use inter_uss_platform.Scd.OperationalIntents.Upsert.Effects.{
  delete_rows, Stored-operations, decided, removal_adds_nothing,
}

-- No subscription has the identifier that the transaction is about to take.
abbrev pub Fresh : Tx → Db → Type 0
Fresh tx db = (s : SubscriptionRow) → Mem s db.subscriptions → s.id ≢ tx.new_uuid

-- What the parameters of an upsert say of a row, but for its subscription, its version and its past
-- OVNs.
abbrev pub Describes : Tx → String → ValidOirParams → OperationRow → Type 0
Describes tx manager p row =
    (row.id ≡ p.id)
    × (row.owner ≡ manager)
    × (row.state ≡ p.state)
    × (row.cells ≡ p.cells)
    × (row.url ≡ p.uss_base_url)
    × (row.starts_at ≡ p.u_extent.start_time)
    × (row.ends_at ≡ p.u_extent.end_time)
    × (row.updated_at ≡ tx.timestamp)
    × ((space : Volume3D) × (p.u_extent.spatial_volume ≡ some space)
        × (row.altitude_lower ≡ space.altitude_lo)
        × (row.altitude_upper ≡ space.altitude_hi))
    × (p.new_ovn ≡ "" → row.uss_requested_ovn ≡ none)
    × (p.new_ovn ≢ "" → row.uss_requested_ovn ≡ some p.new_ovn)

-- The subscription of a row: the one that the parameters name, or else a new one where they ask for
-- one, or else none.
abbrev pub Attaches : Tx → ValidOirParams → OperationRow → Type 0
Attaches tx p row =
    (p.subscription_id ≢ "" → row.subscription_id ≡ some p.subscription_id)
    × (p.subscription_id ≡ ""
        → p.implicit_subscription.requested ≡ true
        → row.subscription_id ≡ some tx.new_uuid)
    × (p.subscription_id ≡ ""
        → p.implicit_subscription.requested ≡ false
        → row.subscription_id ≡ none)

-- The version and the past OVNs of a row: they follow those of the row it replaces, or start anew.
abbrev pub Follows : Db → ValidOirParams → OperationRow → Type 0
Follows db p row =
    ((previous : OperationRow)
      → Mem previous db.operations
      → previous.id ≡ p.id
      → (row.version ≡ (previous.version + 1) % 4294967296)
        × (row.past_ovns ≡ previous.past_ovns ++ p.ovn ∷ []))
    × (((previous : OperationRow) → Mem previous db.operations → previous.id ≢ p.id)
        → (row.version ≡ 1) × (row.past_ovns ≡ []))

module _ (env : Platform) (tx : Tx) (manager : String) (p : ValidOirParams) where
  described :
      (s : Option Subscription) (version : ℕ) (past : List String) (o : OperationalIntent)
      → to_oir p manager s version past ≡ ok o
      → Describes tx manager p (row_of tx o)
        × (o.subscription_id ≡ subscription_id_of s)
        × (o.version ≡ version)
        × (o.past_ovns ≡ past)
  unfolding to_oir row_of requested_ovn
  described s version past o h = >>=-elim (deref p.u_extent.spatial_volume) _ h λ space q k.
      let e = sym (ok-injective k) in
      (
        (
          ap (λ x. x.id) e,
          ap (λ x. x.manager) e,
          ap (λ x. x.state) e,
          ap (λ x. x.cells) e,
          ap (λ x. x.uss_base_url) e,
          ap (λ x. x.start_time) e,
          ap (λ x. x.end_time) e,
          refl,
          (
            space,
            deref-eq-ok p.u_extent.spatial_volume space q,
            ap (λ x. x.altitude_lower) e,
            ap (λ x. x.altitude_upper) e,
          ),
          λ d. ap (λ x. requested_ovn x.ovn) e ∙ rw (str_eq_of_eq p.new_ovn "" d) refl,
          λ d. ap (λ x. requested_ovn x.ovn) e ∙ rw (str_eq_of_ne p.new_ovn "" d) refl,
        ),
        ap (λ x. x.subscription_id) e,
        ap (λ x. x.version) e,
        ap (λ x. x.past_ovns) e,
      )

  attaches :
      (o : OperationalIntent) → o.subscription_id ≡ chosen env tx p → Attaches tx p (row_of tx o)
  unfolding row_of
  attaches o h = (
    λ d. let e = str_eq_of_ne p.subscription_id "" d in ground arith,
    λ e r. let f = str_eq_of_eq p.subscription_id "" e in ground arith,
    λ e r. let f = str_eq_of_eq p.subscription_id "" e in ground arith,
  )

  follows :
      (db : Db) (old : Option OperationalIntent) (o : OperationalIntent)
      → get_operational_intent env p.id db ≡ (ok old, db)
      → o.version ≡ next_version old
      → o.past_ovns ≡ next_past_ovns old p.ovn
      → Follows db p (row_of tx o)
  unfolding row_of next_version next_past_ovns operational_intent_of
  follows db old o q v w = (
    λ previous m i.
        let e =
          get_operational_intent_of_mem env p.id db db old previous q m
            (str_eq_of_eq previous.id p.id i) in
        (v ∙ ap next_version e, w ∙ ap (λ x. next_past_ovns x p.ovn) e),
    λ none_there. fresh_start old q v w none_there,
  )
    where
      fresh_start :
          (x : Option OperationalIntent)
          → get_operational_intent env p.id db ≡ (ok x, db)
          → o.version ≡ next_version x
          → o.past_ovns ≡ next_past_ovns x p.ovn
          → ((previous : OperationRow) → Mem previous db.operations → previous.id ≢ p.id)
          → (o.version ≡ 1) × (o.past_ovns ≡ [])
      fresh_start none r a b n = (a, b)
      fresh_start (some x) r a b n =
          let (previous, m, i, e) = get_operational_intent-some env p.id db db x r in
          absurd (n previous m i)

  -- The subscription that is removed is not the one that the new row refers to.
  not_dependent :
      (s : Subscription) (attached : Option Subscription) (db db' : Db) (o : OperationalIntent)
      → str_eq p.subscription_id s.id ≡ false
      → s.id ≢ tx.new_uuid
      → ((a : Subscription) → attached ≡ some a → (a.id ≡ p.subscription_id) ⊎ (a.id ≡ tx.new_uuid))
      → o.subscription_id ≡ subscription_id_of attached
      → depends_on s.id (row_of tx o) ≡ false
  unfolding depends_on row_of
  not_dependent s none db db' o d f a e = rw e refl
  not_dependent s (some t) db db' o d f a e = rw e (
      str_eq_of_ne t.id s.id (elim (a t refl) [
        | inl named ↦ λ q. str_eq-false p.subscription_id s.id d (sym named ∙ q)
        | inr new ↦ λ q. f (sym q ∙ new)
      ]))

  row_survives :
      (old : Option OperationalIntent) (db db' : Db) (stored : OperationalIntent)
      (s : Stored env tx manager p old db db' stored)
      → Fresh tx db
      → Mem (row_of tx s.op) db'.operations
  unfolding remove_previous
  row_survives old db db' stored s fresh =
      go s.remove s.previous s.previous_ok (decided env tx manager p old db db' stored s)
        s.removed_ok
    where
      here : Mem (row_of tx s.op) s.stored_db.operations
      here =
          subst (Mem (row_of tx s.op))
            (sym (Stored-operations env tx manager p old db db' stored s))
            (mem-upsert_self (has_id p.id) (row_of tx s.op) db.operations)

      go :
          (remove : Bool) (previous : Option Subscription)
          → get_previous_subscription env old db ≡ (ok previous, db)
          → (remove ≡ true → Removable p previous db)
          → remove_previous env tx remove previous s.stored_db ≡ (ok tt, db')
          → Mem (row_of tx s.op) db'.operations
      go false previous q d h =
          subst (λ v. Mem (row_of tx s.op) v.operations) (ap (λ x. x.1) h) here
      go true none q d h = absurd (cc)
      go true (some t) q d h =
          let (r, m, e) = previous_known env db db old t q in
          subst (Mem (row_of tx s.op)) (sym (delete_rows env tx t.id s.stored_db db' h)) (
            mem-delete_where (depends_on t.id) s.stored_db.operations (row_of tx s.op)
              (not_dependent t s.attached db db' s.op (d refl).0 (λ f. fresh r m (sym e ∙ f))
                (λ a f.
                  attach_id env tx manager p s.previous a db s.attached_db
                    (s.attached_ok ∙ ap (λ o. (ok o, s.attached_db)) f))
                (described s.attached _ _ s.op s.op_ok).1)
              here)

  -- An upsert that succeeds leaves a row that the parameters describe in each column, held by the
  -- caller, with the version after that of the row it replaces and with the OVN it replaces among the
  -- past ones, and it is the only row with the identifier; the new identifier of the transaction is that
  -- of no subscription.
  pub upsert_stores :
      (db db' : Db) (r : ChangeOperationalIntentReferenceResponse)
      → upsert_action env tx manager p db ≡ (ok r, db')
      → Fresh tx db
      → (row : OperationRow) × Describes tx manager p row
        × Attaches tx p row
        × Follows db p row
        × Mem row db'.operations
        × ((other : OperationRow) → Mem other db'.operations → other.id ≡ p.id → other ≡ row)
  upsert_stores db db' r h fresh =
      let c = upsert_action_run env tx manager p db db' r h in
      let s = c.store_ok in
      let same = Committed-operations env tx manager p db db' c in
      let rows = Stored-operations env tx manager p c.old db c.written c.stored s in
      let (describes, sub, version, past) = described s.attached _ _ s.op s.op_ok in
      (
        row_of tx s.op,
        describes,
        attaches s.op (
            sub
            ∙ attach_chosen env tx manager p s.previous s.attached db s.attached_db s.attached_ok),
        follows db c.old s.op c.old_ok version past,
        subst (Mem (row_of tx s.op)) (sym same) (row_survives c.old db c.written c.stored s fresh),
        λ other m e.
            elim (mem-upsert_inv (has_id p.id) (row_of tx s.op) db.operations other (
              subst (Mem other) rows (
                removal_adds_nothing env tx s.remove s.previous s.stored_db c.written s.removed_ok
                  other (subst (Mem other) same m)))) [
                    | inl f ↦ f
                    | inr q ↦ absurd (str_eq-false other.id p.id q.0 e)
                  ],
      )
