-- ===== src/Scd/OperationalIntents/Attach/Choice.antt =====
-- Which subscription is attached, and when the previous one is to be removed.
use inter_uss_platform.Base.{
  ℕ, ◌≡◌, refl, sym, ap, ◌∙◌, ◌⊎◌, inl, inr, String, Bool, true, false, not, Option, none, some,
  List, str_eq, str_eq-true, arith, if◌then◌else◌,
}
use inter_uss_platform.Base.Action.{ok, pure, lift, ok-injective, bind_elim, ◌>>=◌, ◌>>◌, fail_if}
use inter_uss_platform.Errors.{Code, Fault, coded, deref, some-injective}
use inter_uss_platform.Models.Times.{Time}
use inter_uss_platform.Models.Platform.{Platform}
use inter_uss_platform.Scd.Models.Subscriptions.{Subscription}
use inter_uss_platform.Scd.Store.{Db, Tx}
use inter_uss_platform.Scd.Store.Reads.{get_subscription-some}
use inter_uss_platform.Scd.Store.Subscriptions.{
  get_subscription, upsert_subscription, subscription_of, row_of,
}
use inter_uss_platform.Scd.OperationalIntents.Params.{ValidOirParams, subscription_id_of}
use inter_uss_platform.Scd.OperationalIntents.Attach.{
  create_and_store_new_implicit_subscription, cover_start, cover_end, cover_cells,
  ensure_subscription_covers_oir, is_being_replaced, existing, named_subscription,
  attach_subscription,
}

module _ (env : Platform) where
  upsert_subscription_id :
      (tx : Tx) (s r : Subscription) (db db' : Db)
      → upsert_subscription env tx s db ≡ (ok r, db')
      → r.id ≡ s.id
  unfolding upsert_subscription subscription_of row_of
  upsert_subscription_id tx s r db db' h = ground arith

  cover_start_id :
      (t : Time) (s : Subscription) (b : Bool) (r : Subscription × Bool)
      → cover_start env t (s, b) ≡ ok r
      → r.0.id ≡ s.id
  unfolding cover_start
  cover_start_id t s b r h = ground arith

  cover_end_id :
      (t : Time) (s : Subscription) (b : Bool) (r : Subscription × Bool)
      → cover_end env t (s, b) ≡ ok r
      → r.0.id ≡ s.id
  unfolding cover_end
  cover_end_id t s b r h = ground arith

  cover_cells_id :
      (cells : List ℕ) (s : Subscription) (b : Bool) (r : Subscription × Bool)
      → cover_cells env cells (s, b) ≡ ok r
      → r.0.id ≡ s.id
  unfolding cover_cells
  cover_cells_id cells s b r h = ground arith

  store_if_changed_id :
      (tx : Tx) (s r : Subscription) (b : Bool) (db db' : Db)
      → (if b then upsert_subscription env tx s else pure s) db ≡ (ok r, db')
      → r.id ≡ s.id
  store_if_changed_id tx s r true db db' h = upsert_subscription_id tx s r db db' h
  store_if_changed_id tx s r false db db' h = cc

  ensure_id :
      (tx : Tx) (s : Subscription) (p : ValidOirParams) (r : Subscription) (db db' : Db)
      → ensure_subscription_covers_oir env tx s p db ≡ (ok r, db')
      → r.id ≡ s.id
  unfolding ensure_subscription_covers_oir
  ensure_id tx s p r db db' h = bind_elim (lift (deref p.u_extent.start_time)) _ db h λ t u1 q1 h1.
      bind_elim (lift (cover_start env t (s, false))) _ u1 h1 λ s1 u2 q2 h2.
        bind_elim (lift (deref p.u_extent.end_time)) _ u2 h2 λ e u3 q3 h3.
          bind_elim (lift (cover_end env e s1)) _ u3 h3 λ s2 u4 q4 h4.
            bind_elim (lift (cover_cells env p.cells s2)) _ u4 h4 λ s3 u5 q5 h5.
              store_if_changed_id tx s3.0 r s3.1 u5 db' h5
              ∙ cover_cells_id p.cells s2.0 s2.1 s3 (ap (λ x. x.0) q5)
              ∙ cover_end_id e s1.0 s1.1 s2 (ap (λ x. x.0) q4)
              ∙ cover_start_id t s false s1 (ap (λ x. x.0) q2)

  existing_id :
      (p : ValidOirParams) (found : Option Subscription) (r : Subscription) (db u w db' : Db)
      → get_subscription env p.subscription_id db ≡ (ok found, u)
      → existing env found w ≡ (ok r, db')
      → r.id ≡ p.subscription_id
  unfolding existing subscription_of
  existing_id p none r db u w db' q k = absurd (cc)
  existing_id p (some s) r db u w db' q k =
      let (row, m, e, f) = get_subscription-some env p.subscription_id db u s q in
      ap (λ x. x.id) (ok-injective (sym (ap (λ x. x.0) k))) ∙ ap (λ x. x.id) f ∙ e

  fetched_id :
      (p : ValidOirParams) (r : Subscription) (db db' : Db)
      → (get_subscription env p.subscription_id >>= existing env) db ≡ (ok r, db')
      → r.id ≡ p.subscription_id
  fetched_id p r db db' h =
      bind_elim (get_subscription env p.subscription_id) _ db h
        λ found u q k. existing_id p found r db u u db' q k

  named_previous_id :
      (p : ValidOirParams) (s r : Subscription) (db db' : Db) (b : Bool)
      → str_eq p.subscription_id s.id ≡ b
      → (if not b then get_subscription env p.subscription_id >>= existing env else pure s) db
        ≡ (ok r, db')
      → r.id ≡ p.subscription_id
  named_previous_id p s r db db' true q h =
      ap (λ x. x.id) (ok-injective (sym (ap (λ x. x.0) h)))
      ∙ sym (str_eq-true p.subscription_id s.id q)
  named_previous_id p s r db db' false q h = fetched_id p r db db' h

  named_id :
      (p : ValidOirParams) (previous : Option Subscription) (r : Subscription) (db db' : Db)
      → named_subscription env p previous db ≡ (ok r, db')
      → r.id ≡ p.subscription_id
  unfolding named_subscription is_being_replaced
  named_id p none r db db' h = fetched_id p r db db' h
  named_id p (some s) r db db' h =
      named_previous_id p s r db db' (str_eq p.subscription_id s.id) refl h

  create_id :
      (tx : Tx) (manager : String) (p : ValidOirParams) (r : Subscription) (db db' : Db)
      → create_and_store_new_implicit_subscription env tx manager p db ≡ (ok r, db')
      → r.id ≡ tx.new_uuid
  unfolding create_and_store_new_implicit_subscription
  create_id tx manager p r db db' h =
      bind_elim (lift (deref p.u_extent.spatial_volume)) _ db h
        λ v u q k. upsert_subscription_id tx _ r u db' k

  -- The identifier of the subscription that is attached: the one that was named, or else that of the
  -- new one, if one is requested.
  abbrev pub chosen : Tx → ValidOirParams → Option String
  chosen tx p =
      if str_eq p.subscription_id ""
      then (if p.implicit_subscription.requested then some tx.new_uuid else none)
      else some p.subscription_id

  pub attach_chosen :
      (tx : Tx) (manager : String) (p : ValidOirParams) (previous a : Option Subscription)
      (db db' : Db)
      → attach_subscription env tx manager p previous db ≡ (ok a, db')
      → subscription_id_of a ≡ chosen tx p
  unfolding attach_subscription
  attach_chosen tx manager p previous a db db' h =
      go (str_eq p.subscription_id "") p.implicit_subscription.requested h
    where
      wrapped :
          (s : Subscription) (u : Db)
          → pure {S = Db} {E = Fault} (some s) u ≡ (ok a, db')
          → a ≡ some s
      wrapped s u k = cc

      named_ids :
          (s : Subscription) (id : String) → a ≡ some s → s.id ≡ id → subscription_id_of a ≡ some id
      named_ids s id e i = ap subscription_id_of e ∙ ap some i

      go :
          (b c : Bool)
          → (if b
                then (if c
                    then create_and_store_new_implicit_subscription env tx manager p
                      >>= (λ s. pure (some s))
                    else pure none)
                else (named_subscription env p previous >>= (λ named.
                    fail_if (not (str_eq named.manager manager)) (coded Code.permission_denied)
                    >> (ensure_subscription_covers_oir env tx named p >>= (λ s. pure (some s))))))
              db
            ≡ (ok a, db')
          → subscription_id_of a
            ≡ (if b then (if c then some tx.new_uuid else none) else some p.subscription_id)
      go true true k =
          bind_elim (create_and_store_new_implicit_subscription env tx manager p) _ db k
            λ s u q l. named_ids s tx.new_uuid (wrapped s u l) (create_id tx manager p s db u q)
      go true false k = ap subscription_id_of (sym (ok-injective (ap (λ x. x.0) k)))
      go false c k = bind_elim (named_subscription env p previous) _ db k λ named u q l.
          bind_elim (fail_if (not (str_eq named.manager manager)) (coded Code.permission_denied)) _
            u l
            λ t u2 q2 l2.
              bind_elim (ensure_subscription_covers_oir env tx named p) _ u2 l2 λ s u3 q3 l3.
                named_ids s p.subscription_id (wrapped s u3 l3)
                  (ensure_id tx named p s u2 u3 q3 ∙ named_id p previous named db u q)

  -- The subscription that is attached is the one that was named, or else the new one.
  pub attach_id :
      (tx : Tx) (manager : String) (p : ValidOirParams) (previous : Option Subscription)
      (r : Subscription) (db db' : Db)
      → attach_subscription env tx manager p previous db ≡ (ok (some r), db')
      → (r.id ≡ p.subscription_id) ⊎ (r.id ≡ tx.new_uuid)
  attach_id tx manager p previous r db db' h =
      go (str_eq p.subscription_id "") p.implicit_subscription.requested
        (attach_chosen tx manager p previous (some r) db db' h)
    where
      go :
          (b c : Bool)
          → some r.id
            ≡ (if b then (if c then some tx.new_uuid else none) else some p.subscription_id)
          → (r.id ≡ p.subscription_id) ⊎ (r.id ≡ tx.new_uuid)
      go true true k = inr (some-injective k)
      go true false k = absurd (cc)
      go false c k = inl (some-injective k)
