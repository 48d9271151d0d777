-- ===== src/Scd/OperationalIntents/Attach/Removal.antt =====
-- When the previous subscription is to be removed, and what its removal then cascades to.
use inter_uss_platform.Base.{
  ◌≡◌, refl, ap, ◌∙◌, inl, inr, String, Bool, true, false, not, Option, none, some, List, [], ◌∷◌,
  filter, Mem, Never, mem-filter, mem-map, str_eq, str_eq-true, if◌then◌else◌,
}
use mathlib.Core.Path.{subst}
use inter_uss_platform.Base.Action.{ok, pure, lift, ok-injective, bind_elim, ◌>>=◌}
use inter_uss_platform.Models.Platform.{Platform}
use inter_uss_platform.Scd.Models.Subscriptions.{Subscription}
use inter_uss_platform.Scd.Store.{SubscriptionRow, OperationRow, Db}
use inter_uss_platform.Scd.Store.Reads.{get_subscription-some}
use inter_uss_platform.Scd.Store.Subscriptions.{subscription_of}
use inter_uss_platform.Scd.Models.OperationalIntents.{OperationalIntent}
use inter_uss_platform.Scd.Store.OperationalIntents.{get_dependent_operational_intents, depends_on}
use inter_uss_platform.Scd.OperationalIntents.Params.{ValidOirParams}
use inter_uss_platform.Scd.OperationalIntents.Attach.{
  only_dependent, subscription_is_implicit_and_only_attached_to_oir, is_being_replaced,
  get_previous_subscription, previous_subscription_by_id, remove_previous_implicit_subscription,
}

only_dependent-true :
    (id : String) (ids : List String) (i : String)
    → only_dependent id ids ≡ ok true
    → Mem i ids
    → i ≡ id
unfolding only_dependent
only_dependent-true id [] i h m = elim m [ ]
only_dependent-true id (x ∷ []) i h (inl e) = e ∙ str_eq-true x id (ok-injective h)
only_dependent-true id (x ∷ []) i h (inr m) = elim m [ ]
only_dependent-true id (x ∷ y ∷ rest) i h m = absurd (cc)

-- What a positive answer says of the subscription.
abbrev pub OnlyAttached : String → Option Subscription → Db → Type 0
OnlyAttached id none db = Unit
OnlyAttached id (some s) db =
    (s.implicit_subscription ≡ true)
    × ((r : OperationRow) → Mem r db.operations → depends_on s.id r ≡ true → r.id ≡ id)

module _ (env : Platform) (id : String) (db db' : Db) where
  -- A positive answer means that the subscription is implicit and that no other operational intent
  -- depends on it.
  pub only_attached :
      (s : Option Subscription)
      → subscription_is_implicit_and_only_attached_to_oir env id s db ≡ (ok true, db')
      → OnlyAttached id s db
  unfolding subscription_is_implicit_and_only_attached_to_oir get_dependent_operational_intents
  only_attached none h = tt
  only_attached (some s) h = go s.implicit_subscription refl h
    where
      go :
          (b : Bool)
          → s.implicit_subscription ≡ b
          → (if b
                then (get_dependent_operational_intents env s.id
                    >>= (λ ids. lift (only_dependent id ids)))
                else pure false)
              db
            ≡ (ok true, db')
          → (s.implicit_subscription ≡ true)
            × ((r : OperationRow) → Mem r db.operations → depends_on s.id r ≡ true → r.id ≡ id)
      go false e k = absurd (cc)
      go true e k = bind_elim (get_dependent_operational_intents env s.id) _ db k λ ids u q l. (
        e,
        λ r m d. only_dependent-true id ids r.id (ap (λ x. x.0) l) (
            subst (Mem r.id) (ok-injective (ap (λ x. x.0) q)) (
              mem-map (λ x. x.id) (filter (depends_on s.id) db.operations) r
                (mem-filter (depends_on s.id) db.operations r d m))),
      )

-- What a positive answer says, for an upsert.
abbrev pub Removable : ValidOirParams → Option Subscription → Db → Type 0
Removable p none db = Never
Removable p (some s) db = (str_eq p.subscription_id s.id ≡ false) × OnlyAttached p.id (some s) db

module _ (env : Platform) (p : ValidOirParams) (db db' : Db) where
  pub removable :
      (s : Option Subscription)
      → remove_previous_implicit_subscription env p s db ≡ (ok true, db')
      → Removable p s db
  unfolding remove_previous_implicit_subscription is_being_replaced
  removable none h = absurd (cc)
  removable (some s) h = go (str_eq p.subscription_id s.id) refl h
    where
      go :
          (b : Bool)
          → str_eq p.subscription_id s.id ≡ b
          → (if not b
                then subscription_is_implicit_and_only_attached_to_oir env p.id (some s)
                else pure false)
              db
            ≡ (ok true, db')
          → Removable p (some s) db
      go true e k = absurd (cc)
      go false e k = (e, only_attached env p.id db db' (some s) k)

module _ (env : Platform) (db db' : Db) where
  -- The previous subscription is one that is stored.
  by_id_known :
      (id : Option String) (s : Subscription)
      → previous_subscription_by_id env id db ≡ (ok (some s), db')
      → (r : SubscriptionRow) × Mem r db.subscriptions × (s.id ≡ r.id)
  unfolding previous_subscription_by_id subscription_of
  by_id_known none s h = absurd (cc)
  by_id_known (some id) s h =
      let (r, m, e, f) = get_subscription-some env id db db' s h in (r, m, ap (λ x. x.id) f)

  pub previous_known :
      (old : Option OperationalIntent) (s : Subscription)
      → get_previous_subscription env old db ≡ (ok (some s), db')
      → (r : SubscriptionRow) × Mem r db.subscriptions × (s.id ≡ r.id)
  unfolding get_previous_subscription
  previous_known none s h = absurd (cc)
  previous_known (some old) s h = by_id_known old.subscription_id s h
