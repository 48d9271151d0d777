-- ===== src/Scd/OperationalIntents/Key.antt =====
-- The key of an upsert: `validateKeyAndProvideConflictResponse`.
pub mod Missing
use inter_uss_platform.Base.{
  ℕ, String, Bool, true, false, not, ◌&&◌, Option, none, some, List, [], ◌∷◌, map, any, filter,
  str_eq, if◌then◌else◌,
}
use inter_uss_platform.Base.Action.{Result, ok, err, Action, pure, lift, ◌>>=◌, ◌>>◌}
use inter_uss_platform.Api
use inter_uss_platform.Api.{
  OperationalIntentReference, ConstraintReference, AirspaceConflictResponse,
}
use inter_uss_platform.Errors.{Fault, conflict}
use inter_uss_platform.Models.Platform.{Platform}
use inter_uss_platform.Scd.Models.Ovns.{no_ovn_phrase}
use inter_uss_platform.Scd.Models.OperationalIntents
use inter_uss_platform.Scd.Models.OperationalIntents.{OperationalIntent, requires_key}
use inter_uss_platform.Scd.Models.Constraints
use inter_uss_platform.Scd.Models.Constraints.{Constraint}
use inter_uss_platform.Scd.Models.Subscriptions.{Subscription}
use inter_uss_platform.Scd.Store.{Db}
use inter_uss_platform.Scd.Store.OperationalIntents.{search_operational_intents}
use inter_uss_platform.Scd.Store.Constraints.{search_constraints}
use inter_uss_platform.Scd.OperationalIntents.Params.{ValidOirParams}

unfoldable pub in_key : ValidOirParams → String → Bool
in_key p ovn = any (str_eq ovn) p.key

-- The operational intent being changed need not be in the key.
unfoldable pub is_missing : ValidOirParams → OperationalIntent → Bool
is_missing p o = not (in_key p o.ovn) && requires_key o && not (str_eq o.id p.id)

unfoldable pub is_missing_constraint : ValidOirParams → Constraint → Bool
is_missing_constraint p c = not (in_key p c.ovn)

-- The list of references in a response, which is left out where nothing is missing.
unless_empty : {A : Type 0} → List A → Option (List A)
unless_empty [] = none
unless_empty (x ∷ xs) = some (x ∷ xs)

module _ (env : Platform) where
  -- The reference of a missing operational intent, its OVN scrubbed unless the client owns it.
  unfoldable pub scrubbed : String → OperationalIntent → OperationalIntentReference
  scrubbed manager o =
      let p = OperationalIntents.to_rest env o in
      if str_eq o.manager manager then p else record p { ovn = some no_ovn_phrase }

  unfoldable pub scrubbed_constraint : String → Constraint → ConstraintReference
  scrubbed_constraint manager c =
      let p = Constraints.to_rest env c in
      if str_eq c.manager manager then p else record p { ovn = some no_ovn_phrase }

  unfoldable pub search_if_notified :
      ValidOirParams → Option Subscription → Action Db Fault (List Constraint)
  search_if_notified p none = pure []
  search_if_notified p (some sub) =
      if sub.notify_for_constraints then search_constraints env p.u_extent else pure []

  conflict_response : String → List OperationalIntent → List Constraint → Result Fault (Unit {0})
  unfolding unless_empty
  conflict_response manager [] [] = ok tt
  conflict_response manager ops constraints = err (
      conflict (record {
        missing_operational_intents = unless_empty (map (scrubbed manager) ops);
        missing_constraints = unless_empty (map (scrubbed_constraint manager) constraints);
      }))

  -- `validateKeyAndProvideConflictResponse`; its two results are one error here.
  unfoldable pub validate_key_and_provide_conflict_response :
      String → ValidOirParams → Option Subscription → Action Db Fault (Unit {0})
  unfolding search_if_notified conflict_response
  validate_key_and_provide_conflict_response manager p attached = do
    relevant ← search_operational_intents env p.u_extent
    constraints ← search_if_notified p attached
    lift (
        conflict_response manager (filter (is_missing p) relevant)
          (filter (is_missing_constraint p) constraints))
