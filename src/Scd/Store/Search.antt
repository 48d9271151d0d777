-- ===== src/Scd/Store/Search.antt =====
-- What a search finds: every row that matches, as long as the limit on results does not cut it short.
use inter_uss_platform.Base.{
  ℕ, ◌≡◌, ◌≤◌, sym, ap, ◌∙◌, Bool, true, some, List, [], ◌∷◌, Mem, map, filter, any, length, take,
  take_all, mem-map, mem-map_inv, mem-take, mem-filter, mem-filter_inv, mem_of_any, and_true,
  nat_eq,
}
use mathlib.Core.Path.{subst}
use inter_uss_platform.Base.Action.{ok, lift, ok-injective, bind_elim}
use inter_uss_platform.Errors.{Code, with_code}
use inter_uss_platform.Models.Platform.{Platform, CellUnion}
use inter_uss_platform.Models.Volumes.{
  Volume3D, Volume4D, Geometry, geometry_covering, calculate_spatial_covering,
}
use inter_uss_platform.Scd.Models.OperationalIntents.{OperationalIntent}
use inter_uss_platform.Scd.Models.Subscriptions.{Subscription}
use inter_uss_platform.Scd.Store.{SubscriptionRow, OperationRow, Db, max_result_limit, overlap}
use inter_uss_platform.Scd.Store.OperationalIntents
use inter_uss_platform.Scd.Store.OperationalIntents.{
  operational_intent_of, search_operational_intents, search_spatial, search_footprint,
}
use inter_uss_platform.Scd.Store.Subscriptions
use inter_uss_platform.Scd.Store.Subscriptions.{subscription_of, search_subscriptions}

module _ {A B : Type 0} (f : A → B) (p : A → Bool) (n : ℕ) (xs : List A) where
  mem-limited :
      (a : A)
      → length (filter p xs) ≤ n
      → Mem a xs
      → p a ≡ true
      → Mem (f a) (map f (take n (filter p xs)))
  mem-limited a l m h =
      mem-map f (take n (filter p xs)) a (rw (take_all n (filter p xs) l) (mem-filter p xs a h m))

  mem-limited_inv :
      (b : B) → Mem b (map f (take n (filter p xs))) → (a : A) × (b ≡ f a) × Mem a xs × (p a ≡ true)
  mem-limited_inv b m =
      let (a, e, k) = mem-map_inv f (take n (filter p xs)) b m in
      let (q, i) = mem-filter_inv p xs a (mem-take n (filter p xs) a k) in (a, e, i, q)

overlap_empty : (xs : CellUnion) → ¬ (overlap xs [] ≡ true)
unfolding overlap
overlap_empty xs h =
    let (x, m, e) = mem_of_any (λ c. any (nat_eq c) []) xs h in
    let (y, k, q) = mem_of_any (nat_eq x) [] e in elim k [ ]

module _ (env : Platform) (v : Volume4D) (w : Volume3D) (cells : CellUnion) (db db' : Db) where
  oir_rows_found :
      (cs : CellUnion) (os : List OperationalIntent) (row : OperationRow)
      → OperationalIntents.search_rows env w v cs db ≡ (ok os, db')
      → length (filter (OperationalIntents.in_volume cs w v) db.operations) ≤ max_result_limit
      → Mem row db.operations
      → OperationalIntents.in_volume cs w v row ≡ true
      → Mem (operational_intent_of env db.availabilities row) os
  unfolding OperationalIntents.search_rows
  oir_rows_found [] os row h l m i = absurd (cc)
  oir_rows_found (c ∷ cs) os row h l m i =
      subst (Mem (operational_intent_of env db.availabilities row)) (ok-injective (ap (λ x. x.0) h))
        (mem-limited (operational_intent_of env db.availabilities)
          (OperationalIntents.in_volume (c ∷ cs) w v) max_result_limit db.operations row l m i)

  -- Every row in the volume is found.
  pub search_operational_intents_finds :
      (g : Geometry) (os : List OperationalIntent) (row : OperationRow)
      → search_operational_intents env v db ≡ (ok os, db')
      → v.spatial_volume ≡ some w
      → w.footprint ≡ some g
      → geometry_covering env g ≡ ok cells
      → length (filter (OperationalIntents.in_volume cells w v) db.operations) ≤ max_result_limit
      → Mem row db.operations
      → OperationalIntents.in_volume cells w v row ≡ true
      → Mem (operational_intent_of env db.availabilities row) os
  unfolding search_operational_intents search_spatial search_footprint
  search_operational_intents_finds g os row h s f c l m i =
      bind_elim (lift (with_code Code.bad_request (geometry_covering env g))) _ db
        (subst (λ o. search_footprint env v w o db ≡ (ok os, db')) f
          (subst (λ o. search_spatial env v o db ≡ (ok os, db')) s h))
        λ cs u q k.
          oir_rows_found cells os row
            (subst (λ t. OperationalIntents.search_rows env w v cells t ≡ (ok os, db'))
              (sym (ap (λ x. x.1) q))
              (subst (λ x. OperationalIntents.search_rows env w v x u ≡ (ok os, db'))
                (ok-injective (sym (ap (λ x. x.0) q) ∙ ap (with_code Code.bad_request) c)) k))
            l m i

module _ (env : Platform) (v : Volume4D) (cells : CellUnion) (db db' : Db) where
  sub_rows_found :
      (cs : CellUnion) (ss : List Subscription) (row : SubscriptionRow)
      → Subscriptions.search_rows env v cs db ≡ (ok ss, db')
      → length (filter (Subscriptions.in_volume cs v) db.subscriptions) ≤ max_result_limit
      → Mem row db.subscriptions
      → Subscriptions.in_volume cs v row ≡ true
      → Mem (subscription_of env row) ss
  unfolding Subscriptions.search_rows Subscriptions.in_volume
  sub_rows_found [] ss row h l m i =
      absurd (overlap_empty row.cells (and_true _ _ (and_true _ _ i).0).0)
  sub_rows_found (c ∷ cs) ss row h l m i =
      subst (Mem (subscription_of env row)) (ok-injective (ap (λ x. x.0) h)) (
        mem-limited (subscription_of env) (Subscriptions.in_volume (c ∷ cs) v) max_result_limit
          db.subscriptions row l m i)

  -- Every subscription in the volume is found.
  pub search_subscriptions_finds :
      (ss : List Subscription) (row : SubscriptionRow)
      → search_subscriptions env v db ≡ (ok ss, db')
      → calculate_spatial_covering env v ≡ ok cells
      → length (filter (Subscriptions.in_volume cells v) db.subscriptions) ≤ max_result_limit
      → Mem row db.subscriptions
      → Subscriptions.in_volume cells v row ≡ true
      → Mem (subscription_of env row) ss
  unfolding search_subscriptions
  search_subscriptions_finds ss row h c l m i =
      bind_elim (lift (calculate_spatial_covering env v)) _ db h λ cs u q k.
        sub_rows_found cells ss row
          (subst (λ t. Subscriptions.search_rows env v cells t ≡ (ok ss, db'))
            (sym (ap (λ x. x.1) q))
            (subst (λ x. Subscriptions.search_rows env v x u ≡ (ok ss, db'))
              (ok-injective (sym (ap (λ x. x.0) q) ∙ c)) k))
          l m i

  sub_rows_only :
      (cs : CellUnion) (ss : List Subscription) (s : Subscription)
      → Subscriptions.search_rows env v cs db ≡ (ok ss, db')
      → Mem s ss
      → (row : SubscriptionRow) × (s ≡ subscription_of env row)
        × Mem row db.subscriptions
        × (Subscriptions.in_volume cs v row ≡ true)
  unfolding Subscriptions.search_rows
  sub_rows_only [] ss s h m = elim (subst (Mem s) (sym (ok-injective (ap (λ x. x.0) h))) m) [ ]
  sub_rows_only (c ∷ cs) ss s h m =
      mem-limited_inv (subscription_of env) (Subscriptions.in_volume (c ∷ cs) v) max_result_limit
        db.subscriptions s (subst (Mem s) (sym (ok-injective (ap (λ x. x.0) h))) m)

  -- Nothing else is found.
  pub search_subscriptions_only :
      (ss : List Subscription) (s : Subscription)
      → search_subscriptions env v db ≡ (ok ss, db')
      → calculate_spatial_covering env v ≡ ok cells
      → Mem s ss
      → (row : SubscriptionRow) × (s ≡ subscription_of env row)
        × Mem row db.subscriptions
        × (Subscriptions.in_volume cells v row ≡ true)
  unfolding search_subscriptions
  search_subscriptions_only ss s h c m =
      bind_elim (lift (calculate_spatial_covering env v)) _ db h λ cs u q k.
        sub_rows_only cells ss s
          (subst (λ t. Subscriptions.search_rows env v cells t ≡ (ok ss, db'))
            (sym (ap (λ x. x.1) q))
            (subst (λ x. Subscriptions.search_rows env v x u ≡ (ok ss, db'))
              (ok-injective (sym (ap (λ x. x.0) q) ∙ c)) k))
          m
