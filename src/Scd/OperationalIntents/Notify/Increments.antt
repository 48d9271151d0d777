-- ===== src/Scd/OperationalIntents/Notify/Increments.antt =====
-- Which notification indices a change counts up.
use inter_uss_platform.Base.{
  ℕ, ◌≡◌, ◌≤◌, ◌&&◌, sym, ap, ◌∙◌, String, true, false, List, Mem, map, filter, length, any_of_mem,
  mem_of_any, mem-map, mem-map_inv, mem-filter, mem-filter_inv, str_eq, str_eq_refl, str_eq-true,
  Bool-cases, inl, inr, arith, if◌then◌else◌,
}
use mathlib.Core.Path.{subst}
use inter_uss_platform.Base.Tables.{update_where, mem-update_where}
use inter_uss_platform.Base.Action.{ok, bind_elim}
use inter_uss_platform.Models.Platform.{Platform, CellUnion}
use inter_uss_platform.Models.Volumes.{Volume4D, calculate_spatial_covering}
use inter_uss_platform.Scd.Models.Subscriptions.{Subscription}
use inter_uss_platform.Scd.Store.{SubscriptionRow, Db, Tx, max_result_limit}
use inter_uss_platform.Scd.Store.Frame.{search_subscriptions-Leaves}
use inter_uss_platform.Scd.Store.Runs.{read_elim}
use inter_uss_platform.Scd.Store.Search.{search_subscriptions_finds, search_subscriptions_only}
use inter_uss_platform.Scd.Store.Subscriptions.{
  subscription_of, in_volume, is_listed, increment, search_subscriptions,
  increment_notification_indices,
}
use inter_uss_platform.Scd.OperationalIntents.Notify.{
  increment_indices, get_relevant_subscriptions_and_increment_indices,
}

increment_rows :
    (tx : Tx) (ids : List String) (indices : List ℕ) (db db' : Db)
    → increment_notification_indices tx ids db ≡ (ok indices, db')
    → db'.subscriptions ≡ update_where (is_listed ids) increment db.subscriptions
unfolding increment_notification_indices
increment_rows tx ids indices db db' h = ground arith

abbrev notified : List Subscription → List String
notified all = map (λ s. s.id) (filter (λ s. s.notify_for_operational_intents) all)

module _ (env : Platform) (tx : Tx) (v : Volume4D) (cells : CellUnion) (db db' : Db) where
  -- The steps of the notification.
  notify_run :
      (subs : List Subscription)
      → get_relevant_subscriptions_and_increment_indices env tx v db ≡ (ok subs, db')
      → (all : List Subscription) × (search_subscriptions env v db ≡ (ok all, db))
        × (db'.subscriptions ≡ update_where (is_listed (notified all)) increment db.subscriptions)
  unfolding get_relevant_subscriptions_and_increment_indices increment_indices
  notify_run subs h =
      read_elim (search_subscriptions env v) _ db (search_subscriptions-Leaves env v) h λ all q1 h1.
        bind_elim (increment_notification_indices tx (notified all)) _ db h1 λ indices u2 q2 h2. (
          all,
          q1,
          sym (ap (λ x. x.1.subscriptions) h2) ∙ increment_rows tx (notified all) indices db u2 q2,
        )

  listed :
      (all : List Subscription) (row : SubscriptionRow)
      → Mem (subscription_of env row) all
      → row.notify_for_operations ≡ true
      → is_listed (notified all) row ≡ true
  unfolding is_listed subscription_of
  listed all row m n =
      any_of_mem (λ i. str_eq row.id i) (notified all) row.id
        (mem-map (λ s. s.id) (filter (λ s. s.notify_for_operational_intents) all)
          (subscription_of env row)
          (mem-filter (λ s. s.notify_for_operational_intents) all (subscription_of env row) n m))
        (str_eq_refl row.id)

  -- A notification that succeeds counts up the index of each subscription in the volume that asked
  -- for operational intents, within the limit on results.
  pub notify_increments :
      (subs : List Subscription) (row : SubscriptionRow)
      → get_relevant_subscriptions_and_increment_indices env tx v db ≡ (ok subs, db')
      → calculate_spatial_covering env v ≡ ok cells
      → length (filter (in_volume cells v) db.subscriptions) ≤ max_result_limit
      → Mem row db.subscriptions
      → in_volume cells v row ≡ true
      → row.notify_for_operations ≡ true
      → Mem (increment row) db'.subscriptions
  notify_increments subs row h c l m i n =
      let (all, q, e) = notify_run subs h in
      let found = search_subscriptions_finds env v cells db db all row q c l m i in
      subst (Mem (increment row)) (sym e) (
        subst
          (λ b.
            Mem (if b then increment row else row)
              (update_where (is_listed (notified all)) increment db.subscriptions))
          (listed all row found n)
          (mem-update_where (is_listed (notified all)) increment db.subscriptions row m))

  -- It leaves every other subscription as it was: one outside the volume, or one that did not ask for
  -- operational intents. The identifiers of subscriptions are distinct.
  pub notify_keeps_others :
      (subs : List Subscription) (row : SubscriptionRow)
      → get_relevant_subscriptions_and_increment_indices env tx v db ≡ (ok subs, db')
      → calculate_spatial_covering env v ≡ ok cells
      → ((a b : SubscriptionRow)
          → Mem a db.subscriptions
          → Mem b db.subscriptions
          → a.id ≡ b.id
          → a ≡ b)
      → Mem row db.subscriptions
      → (in_volume cells v row && row.notify_for_operations) ≡ false
      → Mem row db'.subscriptions
  unfolding is_listed subscription_of
  notify_keeps_others subs row h c unique m o =
      let (all, q, e) = notify_run subs h in
      let unlisted : is_listed (notified all) row ≡ false =
        elim (Bool-cases (is_listed (notified all) row)) [
          | inl is ↦ absurd (listed_only all q is)
          | inr no_one ↦ no_one
        ] in
      subst (Mem row) (sym e) (
        subst
          (λ b.
            Mem (if b then increment row else row)
              (update_where (is_listed (notified all)) increment db.subscriptions))
          unlisted (mem-update_where (is_listed (notified all)) increment db.subscriptions row m))
    where
      listed_only :
          (all : List Subscription)
          → search_subscriptions env v db ≡ (ok all, db)
          → ¬ (is_listed (notified all) row ≡ true)
      listed_only all q is =
          let (i, k, f) = mem_of_any (λ i. str_eq row.id i) (notified all) is in
          let (s, g, l) =
            mem-map_inv (λ s. s.id) (filter (λ s. s.notify_for_operational_intents) all) i k in
          let (asked, there) = mem-filter_inv (λ s. s.notify_for_operational_intents) all s l in
          let (r, w, n, j) = search_subscriptions_only env v cells db db all s q c there in
          let same : row ≡ r = unique row r m n (str_eq-true row.id i f ∙ g ∙ ap (λ s. s.id) w) in
          let inside : in_volume cells v row ≡ true = ap (in_volume cells v) same ∙ j in
          let asks : row.notify_for_operations ≡ true =
            ap (λ r. r.notify_for_operations) same
            ∙ sym (ap (λ s. s.notify_for_operational_intents) w)
            ∙ asked in
          ground arith
