-- ===== src/Scd/Constraints/Read.antt =====
-- `GetConstraintReference` and `QueryConstraintReferences`
use inter_uss_platform.Base.{
  ℕ, String, Option, none, some, List, [], ◌∷◌, map, str_eq, if◌then◌else◌,
}
use inter_uss_platform.Base.Action.{Result, ok, err, Action, pure, lift, transact, ◌>>=◌}
use inter_uss_platform.Api
use inter_uss_platform.Api.{ConstraintReference}
use inter_uss_platform.Errors.{Code, Fault, panic}
use inter_uss_platform.Models.Platform.{Platform}
use inter_uss_platform.Models.Ids.{id_from_string}
use inter_uss_platform.Models.Volumes.{Volume4D, volume4d_from_scd_rest}
use inter_uss_platform.Scd.Models.Ovns.{no_ovn_phrase}
use inter_uss_platform.Scd.Models.Constraints.{Constraint, to_rest}
use inter_uss_platform.Scd.Store.{Db, Tx}
use inter_uss_platform.Scd.Store.Constraints.{search_constraints}
use inter_uss_platform.Scd.Server.{Reply, failure, set_auth_error, reply}
use inter_uss_platform.Scd.OperationalIntents.Key.{scrubbed_constraint}
use inter_uss_platform.Scd.OperationalIntents.Upsert.{Request}
use inter_uss_platform.Scd.Constraints.Delete.{get_required}

unfoldable pub get_constraint_status : Code → ℕ
get_constraint_status Code.not_found = 404
get_constraint_status _ = 500

-- The OVN is hidden from a client that does not manage the constraint.
unfoldable pub hide_ovn : String → Constraint → Constraint
hide_ovn client c = if str_eq c.manager client then c else record c { ovn = no_ovn_phrase }

abbrev always_500 : Code → ℕ
always_500 code = 500

module _ (env : Platform) where
  -- The action of the transaction of a get.
  unfoldable pub get_action : Tx → String → String → Action Db Fault ConstraintReference
  get_action tx client id = do c ← get_required env tx id; pure (to_rest env (hide_ovn client c))

  get_for : Tx → Result Fault String → Option String → Db → Reply ConstraintReference × Db
  get_for tx (err e) client db = (failure 400, db)
  get_for tx (ok id) none db = (failure 403, db)
  get_for tx (ok id) (some client) db =
      let (r, u) = transact (get_action tx client id) db in (reply get_constraint_status r, u)

  get_authorized : Tx → Request (Unit {0}) → Option Code → Db → Reply ConstraintReference × Db
  unfolding get_for
  get_authorized tx req (some code) db = (failure (set_auth_error code), db)
  get_authorized tx req none db = get_for tx (id_from_string env req.entityid) req.auth.client_id db

  -- `GetConstraintReference`
  unfoldable pub get_constraint_reference :
      Tx → Request (Unit {0}) → Db → Reply ConstraintReference × Db
  unfolding get_authorized
  get_constraint_reference tx req db = get_authorized tx req req.auth.error db

  -- The loop of the query, which reads the identity of the client for each constraint.
  unfoldable pub references :
      Option String → List Constraint → Result Fault (List ConstraintReference)
  references client [] = ok []
  references none (c ∷ constraints) = err panic
  references (some client) (c ∷ constraints) =
      ok (map (scrubbed_constraint env client) (c ∷ constraints))

  -- The action of the transaction of a query.
  unfoldable pub query_action :
      Option String → Volume4D → Action Db Fault (List ConstraintReference)
  query_action client vol4 = do
    constraints ← search_constraints env vol4
    lift (references client constraints)

  query_for : Result Fault Volume4D → Option String → Db → Reply (List ConstraintReference) × Db
  query_for (err panic) client db = (Reply.crashed, db)
  query_for (err e) client db = (failure 400, db)
  query_for (ok vol4) client db =
      let (r, u) = transact (query_action client vol4) db in (reply always_500 r, u)

  -- The body is the parameter `area_of_interest`, which may be missing.
  query_body :
      Request (Option Api.Volume4D)
      → Option (Option Api.Volume4D)
      → Db
      → Reply (List ConstraintReference) × Db
  unfolding query_for
  query_body req none db = (failure 400, db)
  query_body req (some none) db = (failure 400, db)
  query_body req (some (some aoi)) db =
      query_for (volume4d_from_scd_rest env aoi) req.auth.client_id db

  query_authorized :
      Request (Option Api.Volume4D) → Option Code → Db → Reply (List ConstraintReference) × Db
  unfolding query_body
  query_authorized req (some code) db = (failure (set_auth_error code), db)
  query_authorized req none db = query_body req req.body db

  -- `QueryConstraintReferences`
  unfoldable pub query_constraint_references :
      Request (Option Api.Volume4D) → Db → Reply (List ConstraintReference) × Db
  unfolding query_authorized
  query_constraint_references req db = query_authorized req req.auth.error db
