-- ===== src/Scd/Store/Reads.antt =====
-- What a read by identifier returns.
use inter_uss_platform.Base.{
  ◌≡◌, refl, sym, ap, ◌∙◌, String, true, Option, some, List, [], ◌∷◌, map, filter, Mem, mem-filter,
  mem-filter_inv, str_eq-true, inl, inr,
}
use inter_uss_platform.Base.Action.{ok, ok-injective}
use inter_uss_platform.Models.Platform.{Platform}
use inter_uss_platform.Scd.Models.OperationalIntents.{OperationalIntent}
use inter_uss_platform.Scd.Models.Subscriptions.{Subscription}
use inter_uss_platform.Scd.Store.{SubscriptionRow, OperationRow, Db, at_most_one}
use inter_uss_platform.Scd.Store.Subscriptions
use inter_uss_platform.Scd.Store.Subscriptions.{subscription_of, get_subscription}
use inter_uss_platform.Scd.Store.OperationalIntents
use inter_uss_platform.Scd.Store.OperationalIntents.{operational_intent_of, get_operational_intent}

module _ {A B : Type 0} (f : A → B) where
  pub at_most_one_of_mem :
      (xs : List A) (o : Option B) (a : A)
      → at_most_one (map f xs) ≡ ok o
      → Mem a xs
      → o ≡ some (f a)
  unfolding at_most_one
  at_most_one_of_mem [] o a h m = elim m [ ]
  at_most_one_of_mem (x ∷ []) o a h (inl e) = sym (ok-injective h) ∙ ap (λ y. some (f y)) (sym e)
  at_most_one_of_mem (x ∷ []) o a h (inr m) = elim m [ ]
  at_most_one_of_mem (x ∷ y ∷ rest) o a h m = absurd (cc)

  pub at_most_one-some :
      (xs : List A) (b : B) → at_most_one (map f xs) ≡ ok (some b) → (a : A) × Mem a xs × (b ≡ f a)
  unfolding at_most_one
  at_most_one-some [] b h = absurd (cc)
  at_most_one-some (x ∷ []) b h = (x, inl refl, cc)
  at_most_one-some (x ∷ y ∷ rest) b h = absurd (cc)

module _ (env : Platform) (id : String) (db db' : Db) where
  -- A read that succeeds returns the row with the identifier, if there is one.
  pub get_operational_intent_of_mem :
      (o : Option OperationalIntent) (r : OperationRow)
      → get_operational_intent env id db ≡ (ok o, db')
      → Mem r db.operations
      → OperationalIntents.has_id id r ≡ true
      → o ≡ some (operational_intent_of env db.availabilities r)
  unfolding get_operational_intent
  get_operational_intent_of_mem o r h m e =
      at_most_one_of_mem (operational_intent_of env db.availabilities)
        (filter (OperationalIntents.has_id id) db.operations) o r (ap (λ x. x.0) h)
        (mem-filter (OperationalIntents.has_id id) db.operations r e m)

  pub get_operational_intent-some :
      (o : OperationalIntent)
      → get_operational_intent env id db ≡ (ok (some o), db')
      → (r : OperationRow) × Mem r db.operations
        × (r.id ≡ id)
        × (o ≡ operational_intent_of env db.availabilities r)
  unfolding get_operational_intent
  get_operational_intent-some o h =
      let (r, m, e) =
        at_most_one-some (operational_intent_of env db.availabilities)
          (filter (OperationalIntents.has_id id) db.operations) o (ap (λ x. x.0) h) in
      let (q, k) = mem-filter_inv (OperationalIntents.has_id id) db.operations r m in
      (r, k, str_eq-true r.id id q, e)

  pub get_subscription_of_mem :
      (o : Option Subscription) (r : SubscriptionRow)
      → get_subscription env id db ≡ (ok o, db')
      → Mem r db.subscriptions
      → Subscriptions.has_id id r ≡ true
      → o ≡ some (subscription_of env r)
  unfolding get_subscription
  get_subscription_of_mem o r h m e =
      at_most_one_of_mem (subscription_of env) (filter (Subscriptions.has_id id) db.subscriptions) o
        r (ap (λ x. x.0) h) (mem-filter (Subscriptions.has_id id) db.subscriptions r e m)

  pub get_subscription-some :
      (s : Subscription)
      → get_subscription env id db ≡ (ok (some s), db')
      → (r : SubscriptionRow) × Mem r db.subscriptions × (r.id ≡ id) × (s ≡ subscription_of env r)
  unfolding get_subscription
  get_subscription-some s h =
      let (r, m, e) =
        at_most_one-some (subscription_of env) (filter (Subscriptions.has_id id) db.subscriptions) s
          (ap (λ x. x.0) h) in
      let (q, k) = mem-filter_inv (Subscriptions.has_id id) db.subscriptions r m in
      (r, k, str_eq-true r.id id q, e)
