-- ===== src/Scd/Server.antt =====
-- pkg/scd/server.go: what the handlers share. A reply is a body or a status with an error message,
-- and `crashed` is a handler that panicked, which closes the connection.
use inter_uss_platform.Base.{ℕ, ◌≡◌, String, Option, List, [], ◌∷◌, ◌++◌, str_eq, if◌then◌else◌}
use inter_uss_platform.Base.Action.{Result, ok, err}
use inter_uss_platform.Api.{AirspaceConflictResponse, SubscriberToNotify, SubscriptionState}
use inter_uss_platform.Errors.{
  Code, Fault, panic, coded, no_rows, missing_footprint, missing_spatial_volume, conflict, get_code,
}
use inter_uss_platform.Scd.Models.Subscriptions.{Subscription}

pub data Reply (A : Type 0) : Type 0 where
  success : A → Reply A
  failure : ℕ → Reply A
  airspace_conflict : AirspaceConflictResponse → Reply A
  crashed : Reply A

-- `api.AuthorizationResult`; an error is present as its code.
pub record AuthorizationResult : Type 0 where
  pub client_id : Option String
  pub scopes : List String
  pub error : Option Code

-- The status that `setAuthError` fills in.
unfoldable pub set_auth_error : Code → ℕ
set_auth_error Code.unauthenticated = 401
set_auth_error Code.permission_denied = 403
set_auth_error _ = 500

-- One round of the first loop of `makeSubscribersToNotify`: the state goes to its URL's list.
add_state : String → SubscriptionState → List SubscriberToNotify → List SubscriberToNotify
add_state url st [] = record { uss_base_url = url; subscriptions = st ∷ [] } ∷ []
add_state url st (s ∷ rest) =
    let later = add_state url st rest in
    if str_eq s.uss_base_url url
    then record s { subscriptions = s.subscriptions ++ st ∷ [] } ∷ rest
    else s ∷ later

group_by_url : List SubscriberToNotify → List Subscription → List SubscriberToNotify
group_by_url groups [] = groups
group_by_url groups (sub ∷ subs) =
    group_by_url
      (add_state sub.uss_base_url
        (record { subscription_id = sub.id; notification_index = sub.notification_index }) groups)
      subs

-- `makeSubscribersToNotify`. The order in which the Go map of URLs is read is left open; here it is
-- that of the first subscription with each URL.
unfoldable pub make_subscribers_to_notify : List Subscription → List SubscriberToNotify
unfolding group_by_url add_state
make_subscribers_to_notify = group_by_url []

-- A reply from a result, given the status for each code.
unfoldable pub reply : {A : Type 0} → (Code → ℕ) → Result Fault A → Reply A
reply status (ok a) = success a
reply status (err panic) = crashed
reply status (err (conflict c)) = airspace_conflict c
reply status (err e) = failure (status (get_code e))

-- A reply with success is that to a result.
pub reply_success :
    {A : Type 0} (status : Code → ℕ) (r : Result Fault A) (a : A)
    → reply status r ≡ success a
    → r ≡ ok a
unfolding reply
reply_success status (ok b) a h = cc
reply_success status (err panic) a h = absurd (cc)
reply_success status (err (coded c)) a h = absurd (cc)
reply_success status (err no_rows) a h = absurd (cc)
reply_success status (err missing_footprint) a h = absurd (cc)
reply_success status (err missing_spatial_volume) a h = absurd (cc)
reply_success status (err (conflict c)) a h = absurd (cc)
