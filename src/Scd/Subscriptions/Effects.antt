-- ===== src/Scd/Subscriptions/Effects.antt =====
-- What a put of a subscription that succeeds required, and what it does to the tables.
use inter_uss_platform.Base.{
  ℕ, ◌+◌, ◌≡◌, ◌≢◌, ◌≤◌, ◌↔◌, ◌⊎◌, refl, sym, ap, ◌∙◌, String, true, Option, none, some, Mem,
  str_eq, str_eq-true, str_eq_of_eq, arith,
}
use inter_uss_platform.Base.Tables.{upsert, mem-upsert_iff}
use inter_uss_platform.Base.Action.{ok, ok-injective}
use inter_uss_platform.Api.{PutSubscriptionResponse}
use inter_uss_platform.Errors.{>>=-elim}
use inter_uss_platform.Models.Times.{Time}
use inter_uss_platform.Models.TimeRanges.{
  adjust_range, adjust_range_sound, max_subscription_duration,
}
use inter_uss_platform.Models.Platform.{Platform}
use inter_uss_platform.Scd.Models.Subscriptions.{Subscription, bounds, adjust_time_range}
use inter_uss_platform.Scd.Store.{SubscriptionRow, Db, Tx}
use inter_uss_platform.Scd.Store.Frame.{others}
use inter_uss_platform.Scd.Store.Reads.{get_subscription_of_mem}
use inter_uss_platform.Scd.Store.Subscriptions.{
  has_id, row_of, subscription_of, upsert_subscription,
}
use inter_uss_platform.Scd.Subscriptions.Params.{ValidSubscriptionParams, check_previous}
use inter_uss_platform.Scd.Subscriptions.Put.{keep_index, put_action}
use inter_uss_platform.Scd.Subscriptions.Run.{Committed, put_run}

-- What the parameters of a put say of a row.
abbrev pub Describes : Tx → ValidSubscriptionParams → SubscriptionRow → Type 0
Describes tx p row =
    (row.id ≡ p.subreq.id)
    × (row.owner ≡ p.subreq.manager)
    × (row.url ≡ p.subreq.uss_base_url)
    × (row.notify_for_operations ≡ p.subreq.notify_for_operational_intents)
    × (row.notify_for_constraints ≡ p.subreq.notify_for_constraints)
    × (row.implicit ≡ p.subreq.implicit_subscription)
    × (row.cells ≡ p.subreq.cells)
    × (row.updated_at ≡ tx.timestamp)

abbrev with_index : ℕ → Subscription → Subscription
with_index n s = record s { notification_index = n }

abbrev with_row : Db → SubscriptionRow → String → Db
with_row db row id = record db { subscriptions = upsert (has_id id) row db.subscriptions }

module _ (env : Platform) (tx : Tx) (now : Time) (manager : String)
    (p : ValidSubscriptionParams) where
  -- What the adjusted times are.
  adjusted_range :
      (old : Option Subscription) (q s : Subscription)
      → adjust_time_range now old q ≡ ok s
      → (r : Time × Time) × (adjust_range now q.start_time q.end_time (bounds old) ≡ ok r)
        × (s ≡ record q { start_time = some r.0; end_time = some r.1 })
  unfolding adjust_time_range
  adjusted_range old q s h =
      >>=-elim (adjust_range now q.start_time q.end_time (bounds old)) _ h
        λ r e k. (r, e, ok-injective (sym k))

  owned :
      (q old : Subscription)
      → check_previous q (some old) ≡ ok tt
      → (old.manager ≡ q.manager) × (old.version ≡ q.version)
  unfolding check_previous
  owned q old h =
      let a : str_eq old.manager q.manager ≡ true = ground arith in
      let b : str_eq q.version old.version ≡ true = ground arith in
      (str_eq-true old.manager q.manager a, sym (str_eq-true q.version old.version b))

  created : (q : Subscription) → check_previous q none ≡ ok tt → q.version ≡ ""
  unfolding check_previous
  created q h = let b : str_eq q.version "" ≡ true = ground arith in str_eq-true q.version "" b

  -- A put that succeeds on an identifier that is taken was made by the manager of that subscription,
  -- and the version it gave is the present one.
  pub put_subscription_fencing :
      (db db' : Db) (r : PutSubscriptionResponse) (row : SubscriptionRow)
      → put_action env tx now manager p db ≡ (ok r, db')
      → Mem row db.subscriptions
      → row.id ≡ p.subreq.id
      → (row.owner ≡ p.subreq.manager) × ((subscription_of env row).version ≡ p.subreq.version)
  unfolding subscription_of
  put_subscription_fencing db db' r row h m e =
      let c : Committed env tx now p db db' = put_run env tx now manager p db db' r h in
      let there : c.old ≡ some (subscription_of env row) =
        get_subscription_of_mem env p.subreq.id db db c.old row c.old_ok m
          (str_eq_of_eq row.id p.subreq.id e) in
      let (t, k, same) = adjusted_range c.old p.subreq c.subreq c.adjusted in
      let (a, b) =
        owned c.subreq (subscription_of env row)
          (ap (check_previous c.subreq) (sym there) ∙ c.allowed) in
      (a ∙ ap (λ s. s.manager) same, b ∙ ap (λ s. s.version) same)

  written :
      (s r : Subscription) (db u : Db)
      → upsert_subscription env tx s db ≡ (ok r, u)
      → u ≡ record db { subscriptions = upsert (has_id s.id) (row_of tx s) db.subscriptions }
  unfolding upsert_subscription
  written s r db u h = ground arith

  kept_index :
      (old : Option Subscription) (prev q : Subscription)
      → old ≡ some prev
      → (keep_index env old q).notification_index ≡ prev.notification_index
  unfolding keep_index
  kept_index old prev q e = rw e refl

  kept_rest :
      (old : Option Subscription) (q : Subscription)
      → keep_index env old q
        ≡ record q { notification_index = (keep_index env old q).notification_index }
  unfolding keep_index
  kept_rest none q = refl
  kept_rest (some old) q = refl

  -- What was stored, and the database afterwards.
  pub stored_row :
      (db db' : Db) (c : Committed env tx now p db db')
      → (t : Time × Time) × (adjust_range now p.subreq.start_time p.subreq.end_time (bounds c.old)
          ≡ ok t)
        × (keep_index env c.old c.subreq ≡ record p.subreq {
          start_time = some t.0;
          end_time = some t.1;
          notification_index = (keep_index env c.old c.subreq).notification_index;
        })
        × (db' ≡ record db {
          subscriptions =
              upsert
                (has_id p.subreq.id)
                (row_of tx (keep_index env c.old c.subreq))
                db.subscriptions;
        })
  stored_row db db' c =
      let (t, k, same) = adjusted_range c.old p.subreq c.subreq c.adjusted in
      let s = keep_index env c.old c.subreq in
      let like : s ≡ record p.subreq {
        start_time = some t.0;
        end_time = some t.1;
        notification_index = s.notification_index;
      } =
        kept_rest c.old c.subreq ∙ ap (with_index s.notification_index) same in
      (
        t,
        k,
        like,
        written s c.stored.0 db db' c.stored.1
            ∙ ap (with_row db (row_of tx s)) (ap (λ x. x.id) like),
      )

  -- After a put that succeeds, the subscriptions are the one that the parameters describe, owned by the
  -- caller, with a time range in order and at most a day long, and those there were under other
  -- identifiers. The notification index is that of the subscription it replaces, and no other table
  -- has changed.
  pub put_subscription_replaces_only :
      (db db' : Db) (r : PutSubscriptionResponse)
      → put_action env tx now manager p db ≡ (ok r, db')
      → (row : SubscriptionRow) × Describes tx p row
        × ((start : Time) × (end : Time) × (row.starts_at ≡ some start)
            × (row.ends_at ≡ some end)
            × (start ≤ end)
            × (end ≤ start + max_subscription_duration))
        × ((previous : SubscriptionRow)
            → Mem previous db.subscriptions
            → previous.id ≡ p.subreq.id
            → row.notification_index ≡ previous.notification_index)
        × (others db' ≡ others db)
        × ((other : SubscriptionRow)
            → Mem other db'.subscriptions
              ↔ ((other ≡ row) ⊎ ((other.id ≢ p.subreq.id) × Mem other db.subscriptions)))
  unfolding row_of subscription_of
  put_subscription_replaces_only db db' r h =
      let c : Committed env tx now p db db' = put_run env tx now manager p db db' r h in
      let (t, k, like, end_state) = stored_row db db' c in
      let (le, day, starts, ends) =
        adjust_range_sound now p.subreq.start_time p.subreq.end_time (bounds c.old) t.0 t.1 k in
      (
        row_of tx (keep_index env c.old c.subreq),
        (
          ap (λ x. x.id) like,
          ap (λ x. x.manager) like,
          ap (λ x. x.uss_base_url) like,
          ap (λ x. x.notify_for_operational_intents) like,
          ap (λ x. x.notify_for_constraints) like,
          ap (λ x. x.implicit_subscription) like,
          ap (λ x. x.cells) like,
          refl,
        ),
        (t.0, t.1, ap (λ x. x.start_time) like, ap (λ x. x.end_time) like, le, day),
        λ previous m e. kept_index c.old (subscription_of env previous) c.subreq (
            get_subscription_of_mem env p.subreq.id db db c.old previous c.old_ok m
              (str_eq_of_eq previous.id p.subreq.id e)),
        ap others end_state,
        λ other.
            mem-upsert_iff (λ x. x.id) p.subreq.id db.subscriptions db'.subscriptions other
              (row_of tx (keep_index env c.old c.subreq)) (ap (λ x. x.subscriptions) end_state),
      )
