-- ===== src/Scd/OperationalIntents/Attach.antt =====
-- The subscription of an operational intent: `subscriptionIsImplicitAndOnlyAttachedToOIR`,
-- `createAndStoreNewImplicitSubscription`, `ensureSubscriptionCoversOIR`, and the part of
-- `upsertOperationalIntentReference` that chooses which subscription is attached.
pub mod Frame
pub mod Choice
pub mod Removal
use inter_uss_platform.Base.{
  ℕ, String, Bool, true, false, not, ◌&&◌, ◌||◌, Option, none, some, List, [], ◌∷◌, str_eq, is_some,
  if◌then◌else◌,
}
use inter_uss_platform.Base.Action.{Result, ok, err, Action, pure, fail, fail_if, lift, ◌>>=◌, ◌>>◌}
use inter_uss_platform.Errors.{Code, Fault, coded, deref}
use inter_uss_platform.Models.Times.{Time, before, after}
use inter_uss_platform.Models.Platform.{Platform}
use inter_uss_platform.Scd.Models.OperationalIntents.{OperationalIntent}
use inter_uss_platform.Scd.Models.Subscriptions.{Subscription}
use inter_uss_platform.Scd.Store.{Db, Tx}
use inter_uss_platform.Scd.Store.Subscriptions.{get_subscription, upsert_subscription}
use inter_uss_platform.Scd.Store.OperationalIntents.{get_dependent_operational_intents}
use inter_uss_platform.Scd.OperationalIntents.Params.{ValidOirParams}

-- The test on the dependents of an implicit subscription.
only_dependent : String → List String → Result Fault Bool
only_dependent oir_id [] = err (coded Code.no_code)
only_dependent oir_id (id ∷ []) = ok (str_eq id oir_id)
only_dependent oir_id (id ∷ j ∷ rest) = ok false

module _ (env : Platform) where
  -- `subscriptionIsImplicitAndOnlyAttachedToOIR`
  unfoldable pub subscription_is_implicit_and_only_attached_to_oir :
      String → Option Subscription → Action Db Fault Bool
  unfolding only_dependent
  subscription_is_implicit_and_only_attached_to_oir oir_id none = pure false
  subscription_is_implicit_and_only_attached_to_oir oir_id (some sub) =
      if sub.implicit_subscription
      then (do
        dependents ← get_dependent_operational_intents env sub.id
        lift (only_dependent oir_id dependents))
      else pure false

  -- `createAndStoreNewImplicitSubscription`
  unfoldable pub create_and_store_new_implicit_subscription :
      Tx → String → ValidOirParams → Action Db Fault Subscription
  create_and_store_new_implicit_subscription tx manager p = do
    vol3 ← lift (deref p.u_extent.spatial_volume)
    upsert_subscription env tx (record {
      id = tx.new_uuid;
      version = "";
      notification_index = 0;
      manager = manager;
      start_time = p.u_extent.start_time;
      end_time = p.u_extent.end_time;
      altitude_lo = vol3.altitude_lo;
      altitude_hi = vol3.altitude_hi;
      cells = p.cells;
      uss_base_url = p.implicit_subscription.base_url;
      notify_for_operational_intents = true;
      notify_for_constraints = p.implicit_subscription.for_constraints;
      implicit_subscription = true;
    })

  -- Each step returns the subscription and whether it has changed.
  cover_start : Time → Subscription × Bool → Result Fault (Subscription × Bool)
  cover_start start (sub, updated) = elim sub.start_time [
    | none ↦ ok (sub, updated)
    | some t ↦
        if after t start
        then (if sub.implicit_subscription
            then ok (record sub { start_time = some start }, true)
            else err (coded Code.bad_request))
        else ok (sub, updated)
  ]

  cover_end : Time → Subscription × Bool → Result Fault (Subscription × Bool)
  cover_end end (sub, updated) = elim sub.end_time [
    | none ↦ ok (sub, updated)
    | some t ↦
        if before t end
        then (if sub.implicit_subscription
            then ok (record sub { end_time = some end }, true)
            else err (coded Code.bad_request))
        else ok (sub, updated)
  ]

  cover_cells : List ℕ → Subscription × Bool → Result Fault (Subscription × Bool)
  cover_cells cells (sub, updated) =
      if env.contains sub.cells cells
      then ok (sub, updated)
      else if sub.implicit_subscription
      then ok (record sub { cells = env.cell_union sub.cells cells }, true)
      else err (coded Code.bad_request)

  -- `ensureSubscriptionCoversOIR`
  unfoldable pub ensure_subscription_covers_oir :
      Tx → Subscription → ValidOirParams → Action Db Fault Subscription
  unfolding cover_start cover_end cover_cells
  ensure_subscription_covers_oir tx sub p = do
    start ← lift (deref p.u_extent.start_time)
    s1 ← lift (cover_start start (sub, false))
    end ← lift (deref p.u_extent.end_time)
    s2 ← lift (cover_end end s1)
    s3 ← lift (cover_cells p.cells s2)
    if s3.1 then upsert_subscription env tx s3.0 else pure s3.0

  -- The subscription of the operational intent that is replaced, if there is one.
  previous_subscription_by_id : Option String → Action Db Fault (Option Subscription)
  previous_subscription_by_id none = pure none
  previous_subscription_by_id (some id) = get_subscription env id

  unfoldable pub get_previous_subscription :
      Option OperationalIntent → Action Db Fault (Option Subscription)
  unfolding previous_subscription_by_id
  get_previous_subscription none = pure none
  get_previous_subscription (some old) = previous_subscription_by_id old.subscription_id

  -- `previousSubIsBeingReplaced`
  unfoldable pub is_being_replaced : ValidOirParams → Option Subscription → Bool
  is_being_replaced p none = false
  is_being_replaced p (some previous) = not (str_eq p.subscription_id previous.id)

  -- `removePreviousImplicitSubscription`
  unfoldable pub remove_previous_implicit_subscription :
      ValidOirParams → Option Subscription → Action Db Fault Bool
  remove_previous_implicit_subscription p previous =
      if is_being_replaced p previous
      then subscription_is_implicit_and_only_attached_to_oir p.id previous
      else pure false

  existing : Option Subscription → Action Db Fault Subscription
  existing none = fail (coded Code.bad_request)
  existing (some sub) = pure sub

  -- The subscription that the parameters name: the previous one, or else read from the store.
  unfoldable pub named_subscription :
      ValidOirParams → Option Subscription → Action Db Fault Subscription
  unfolding existing
  named_subscription p none = do found ← get_subscription env p.subscription_id; existing found
  named_subscription p (some previous) =
      if is_being_replaced p (some previous)
      then (do found ← get_subscription env p.subscription_id; existing found)
      else pure previous

  -- `attachedSub`, as it is when the key is checked
  unfoldable pub attach_subscription :
      Tx → String → ValidOirParams → Option Subscription → Action Db Fault (Option Subscription)
  attach_subscription tx manager p previous =
      if str_eq p.subscription_id ""
      then (if p.implicit_subscription.requested
          then (do sub ← create_and_store_new_implicit_subscription tx manager p; pure (some sub))
          else pure none)
      else (do
        named ← named_subscription p previous
        fail_if (not (str_eq named.manager manager)) (coded Code.permission_denied)
        sub ← ensure_subscription_covers_oir tx named p
        pure (some sub))
