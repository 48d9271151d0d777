-- ===== src/Scd/OperationalIntents/Read.antt =====
-- `GetOperationalIntentReference` and `QueryOperationalIntentReferences`
pub mod Scrubbed
use inter_uss_platform.Base.{ℕ, String, Option, none, some, List, map, str_eq, if◌then◌else◌}
use inter_uss_platform.Base.Action.{Result, ok, err, Action, pure, fail, lift, transact, ◌>>=◌}
use inter_uss_platform.Api
use inter_uss_platform.Api.{OperationalIntentReference}
use inter_uss_platform.Errors.{Code, Fault, coded}
use inter_uss_platform.Models.Platform.{Platform}
use inter_uss_platform.Models.Ids.{id_from_string}
use inter_uss_platform.Models.Volumes.{Volume4D, volume4d_from_scd_rest}
use inter_uss_platform.Scd.Models.Ovns.{no_ovn_phrase}
use inter_uss_platform.Scd.Models.OperationalIntents.{OperationalIntent, to_rest}
use inter_uss_platform.Scd.Store.{Db}
use inter_uss_platform.Scd.Store.OperationalIntents.{
  get_operational_intent, search_operational_intents,
}
use inter_uss_platform.Scd.Server.{Reply, failure, set_auth_error, reply}
use inter_uss_platform.Scd.OperationalIntents.Key.{scrubbed}
use inter_uss_platform.Scd.OperationalIntents.Upsert.{Request}

unfoldable pub get_status : Code → ℕ
get_status Code.not_found = 404
get_status _ = 500

unfoldable pub query_status : Code → ℕ
query_status Code.bad_request = 400
query_status _ = 500

-- The OVN is hidden from a client that does not manage the operational intent.
unfoldable pub hide_ovn : String → OperationalIntent → OperationalIntent
hide_ovn client o = if str_eq o.manager client then o else record o { ovn = no_ovn_phrase }

module _ (env : Platform) where
  reference_for : String → Option OperationalIntent → Action Db Fault OperationalIntentReference
  reference_for client none = fail (coded Code.not_found)
  reference_for client (some o) = pure (to_rest env (hide_ovn client o))

  -- The action of the transaction of a get.
  unfoldable pub get_action : String → String → Action Db Fault OperationalIntentReference
  unfolding reference_for
  get_action client id = do found ← get_operational_intent env id; reference_for client found

  -- The action of the transaction of a query.
  unfoldable pub query_action :
      String → Volume4D → Action Db Fault (List OperationalIntentReference)
  query_action client vol4 = do
    ops ← search_operational_intents env vol4
    pure (map (scrubbed env client) ops)

  get_for : Result Fault String → Option String → Db → Reply OperationalIntentReference × Db
  get_for (err e) client db = (failure 400, db)
  get_for (ok id) none db = (failure 403, db)
  get_for (ok id) (some client) db =
      let (r, u) = transact (get_action client id) db in (reply get_status r, u)

  get_authorized : Request (Unit {0}) → Option Code → Db → Reply OperationalIntentReference × Db
  unfolding get_for
  get_authorized req (some code) db = (failure (set_auth_error code), db)
  get_authorized req none db = get_for (id_from_string env req.entityid) req.auth.client_id db

  -- `GetOperationalIntentReference`
  unfoldable pub get_operational_intent_reference :
      Request (Unit {0}) → Db → Reply OperationalIntentReference × Db
  unfolding get_authorized
  get_operational_intent_reference req db = get_authorized req req.auth.error db

  query_for :
      Result Fault Volume4D → Option String → Db → Reply (List OperationalIntentReference) × Db
  query_for (err Fault.panic) client db = (Reply.crashed, db)
  query_for (err e) client db = (failure 400, db)
  query_for (ok vol4) none db = (failure 403, db)
  query_for (ok vol4) (some client) db =
      let (r, u) = transact (query_action client vol4) db in (reply query_status r, u)

  -- The body is the parameter `area_of_interest`, which may be missing.
  query_body :
      Request (Option Api.Volume4D)
      → Option (Option Api.Volume4D)
      → Db
      → Reply (List OperationalIntentReference) × Db
  unfolding query_for
  query_body req none db = (failure 400, db)
  query_body req (some none) db = (failure 400, db)
  query_body req (some (some aoi)) db =
      query_for (volume4d_from_scd_rest env aoi) req.auth.client_id db

  query_authorized :
      Request (Option Api.Volume4D)
      → Option Code
      → Db
      → Reply (List OperationalIntentReference) × Db
  unfolding query_body
  query_authorized req (some code) db = (failure (set_auth_error code), db)
  query_authorized req none db = query_body req req.body db

  -- `QueryOperationalIntentReferences`
  unfoldable pub query_operational_intent_references :
      Request (Option Api.Volume4D) → Db → Reply (List OperationalIntentReference) × Db
  unfolding query_authorized
  query_operational_intent_references req db = query_authorized req req.auth.error db
