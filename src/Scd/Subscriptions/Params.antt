-- ===== src/Scd/Subscriptions/Params.antt =====
-- The checks of a request for a subscription before its transaction, and those on the subscription
-- that is there.
use inter_uss_platform.Base.{String, Bool, true, false, not, ◌||◌, Option, none, some, [], str_eq}
use inter_uss_platform.Base.Action.{Result, ok, err}
use inter_uss_platform.Api.{PutSubscriptionParameters}
use inter_uss_platform.Errors.{
  Code, Fault, coded, panic, missing_footprint, missing_spatial_volume, with_code, reject_if, deref,
  ◌>>=◌, ◌>>◌,
}
use inter_uss_platform.Models.Platform.{Platform, CellUnion}
use inter_uss_platform.Models.Ids.{id_from_string}
use inter_uss_platform.Models.Volumes.{Volume4D, calculate_spatial_covering, volume4d_from_scd_rest}
use inter_uss_platform.Scd.Models.Ovns.{validate_uss_base_url}
use inter_uss_platform.Scd.Models.Subscriptions.{Subscription}

-- What `PutSubscription` has computed before its transaction.
pub record ValidSubscriptionParams : Type 0 where
  pub subreq : Subscription
  pub extents : Volume4D

check_base_url : Platform → Bool → String → Result Fault (Unit {0})
check_base_url env true url = ok tt
check_base_url env false url = validate_uss_base_url env url

-- A volume or a footprint that is missing is tolerated, and reads as no cell.
tolerate_missing : Result Fault CellUnion → Result Fault CellUnion
tolerate_missing (ok cells) = ok cells
tolerate_missing (err missing_spatial_volume) = ok []
tolerate_missing (err missing_footprint) = ok []
tolerate_missing (err panic) = err panic
tolerate_missing (err _) = err (coded Code.bad_request)

or_false : Option Bool → Bool
or_false none = false
or_false (some b) = b

-- The part of `PutSubscription` before its transaction.
unfoldable pub validate_put_params :
    Platform
    → Bool
    → String
    → String
    → String
    → PutSubscriptionParameters
    → Result Fault ValidSubscriptionParams
unfolding check_base_url tolerate_missing or_false
validate_put_params env allow_http manager subscriptionid version params = do
  id ← with_code Code.bad_request (id_from_string env subscriptionid)
  with_code Code.bad_request (check_base_url env allow_http params.uss_base_url)
  extents ← with_code Code.bad_request (volume4d_from_scd_rest env params.extents)
  cells ← tolerate_missing (calculate_spatial_covering env extents)
  vol3 ← deref extents.spatial_volume
  reject_if
      (not
        (or_false params.notify_for_operational_intents || or_false params.notify_for_constraints))
      Code.bad_request
  ok (record {
    subreq = record {
      id = id;
      version = version;
      notification_index = 0;
      manager = manager;
      start_time = extents.start_time;
      end_time = extents.end_time;
      altitude_lo = vol3.altitude_lo;
      altitude_hi = vol3.altitude_hi;
      uss_base_url = params.uss_base_url;
      notify_for_operational_intents = or_false params.notify_for_operational_intents;
      notify_for_constraints = or_false params.notify_for_constraints;
      implicit_subscription = false;
      cells = cells;
    };
    extents = extents;
  })

-- The checks of a put against the subscription that is there, if any.
unfoldable pub check_previous : Subscription → Option Subscription → Result Fault (Unit {0})
check_previous subreq none = reject_if (not (str_eq subreq.version "")) Code.not_found
check_previous subreq (some old) = do
  reject_if (str_eq subreq.version "") Code.already_exists
  reject_if (not (str_eq subreq.version old.version)) Code.version_mismatch
  reject_if (not (str_eq old.manager subreq.manager)) Code.permission_denied

-- The checks of a deletion on the subscription that is there.
unfoldable pub check_deletable : String → String → Subscription → Result Fault (Unit {0})
check_deletable client version old = do
  reject_if (not (str_eq old.manager client)) Code.permission_denied
  reject_if (not (str_eq old.version version)) Code.version_mismatch

-- The check of a get.
unfoldable pub check_viewable : String → Subscription → Result Fault (Unit {0})
check_viewable client sub = reject_if (not (str_eq client sub.manager)) Code.permission_denied

-- Where the subscription must be there.
unfoldable pub found : Option Subscription → Result Fault Subscription
found none = err (coded Code.not_found)
found (some sub) = ok sub
