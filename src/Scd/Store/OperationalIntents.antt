-- ===== src/Scd/Store/OperationalIntents.antt =====
-- pkg/scd/store/cockroach/operational_intents.go, and the reading of availabilities that it does.
use inter_uss_platform.Base.{
  String, Bool, true, false, not, ◌&&◌, Option, none, some, List, [], ◌∷◌, map, any, filter, take,
  str_eq, if◌then◌else◌,
}
use inter_uss_platform.Base.Tables.{upsert, delete_where}
use inter_uss_platform.Base.Action.{ok, err, Action, fail, lift, gets, ◌>>=◌}
use inter_uss_platform.Errors.{Code, Fault, coded, with_code}
use inter_uss_platform.Models.Platform.{Platform, CellUnion}
use inter_uss_platform.Models.Volumes.{Geometry, Volume3D, Volume4D, geometry_covering}
use inter_uss_platform.Scd.Models.Ovns.{new_ovn_from_time}
use inter_uss_platform.Scd.Models.Availability.{UssAvailabilityState, unknown}
use inter_uss_platform.Scd.Models.OperationalIntents.{OperationalIntent}
use inter_uss_platform.Scd.Store.{
  SubscriptionRow, OperationRow, AvailabilityRow, Db, Tx, max_result_limit, overlap, no_later,
  no_higher, in_order, at_most_one,
}

abbrev pub has_id : String → OperationRow → Bool
has_id id r = str_eq r.id id

-- `WHERE subscription_id = $1`
unfoldable pub depends_on : String → OperationRow → Bool
depends_on id o = elim o.subscription_id [ none ↦ false | some i ↦ str_eq i id ]

-- An OVN is stored only if the client has asked for it.
unfoldable pub requested_ovn : String → Option String
requested_ovn ovn = if str_eq ovn "" then none else some ovn

unfoldable pub row_of : Tx → OperationalIntent → OperationRow
unfolding requested_ovn
row_of tx o = record {
  id = o.id;
  owner = o.manager;
  version = o.version;
  url = o.uss_base_url;
  altitude_lower = o.altitude_lower;
  altitude_upper = o.altitude_upper;
  starts_at = o.start_time;
  ends_at = o.end_time;
  subscription_id = o.subscription_id;
  updated_at = tx.timestamp;
  state = o.state;
  cells = o.cells;
  uss_requested_ovn = requested_ovn o.ovn;
  past_ovns = o.past_ovns;
}

listed : List String → Option String → Bool
listed ovns none = false
listed ovns (some ovn) = any (str_eq ovn) ovns

-- The checks of the table on the times and on `past_ovns`.
unfoldable pub checks : OperationRow → Bool
unfolding listed in_order
checks r =
    in_order r.starts_at r.ends_at
    && not (any (str_eq "") r.past_ovns)
    && not (listed r.past_ovns r.uss_requested_ovn)

-- The foreign key `subscription_id REFERENCES scd_subscriptions(id)`.
unfoldable pub refers : List SubscriptionRow → Option String → Bool
refers subs none = true
refers subs (some id) = any (λ s. str_eq s.id id) subs

-- The condition of the search.
unfoldable pub in_volume : CellUnion → Volume3D → Volume4D → OperationRow → Bool
unfolding overlap no_later no_higher
in_volume cells v3d v4d r =
    overlap r.cells cells
    && no_higher v3d.altitude_lo r.altitude_upper
    && no_higher r.altitude_lower v3d.altitude_hi
    && no_later v4d.start_time r.ends_at
    && no_later r.starts_at v4d.end_time

-- The last row read for a manager, if any: `GetUssAvailability`, where no row reads as unknown.
unfoldable pub availability_of : List AvailabilityRow → String → UssAvailabilityState
availability_of [] manager = unknown
availability_of (a ∷ rest) manager =
    if str_eq a.id manager then a.availability else availability_of rest manager

module _ (env : Platform) where
  ovn_of : OperationRow → Option String → String
  ovn_of r none = new_ovn_from_time env r.updated_at r.id
  ovn_of r (some ovn) = ovn

  -- One row as `fetchOperationalIntents` reads it.
  unfoldable pub operational_intent_of : List AvailabilityRow → OperationRow → OperationalIntent
  unfolding ovn_of
  operational_intent_of availabilities r = record {
    id = r.id;
    manager = r.owner;
    uss_availability = availability_of availabilities r.owner;
    version = r.version;
    state = r.state;
    ovn = ovn_of r r.uss_requested_ovn;
    past_ovns = r.past_ovns;
    start_time = r.starts_at;
    end_time = r.ends_at;
    uss_base_url = r.url;
    subscription_id = r.subscription_id;
    altitude_lower = r.altitude_lower;
    altitude_upper = r.altitude_upper;
    cells = r.cells;
  }

  -- `GetOperationalIntent`
  unfoldable pub get_operational_intent : String → Action Db Fault (Option OperationalIntent)
  unfolding at_most_one
  get_operational_intent id db = (
    at_most_one (map (operational_intent_of db.availabilities) (filter (has_id id) db.operations)),
    db,
  )

  -- `DeleteOperationalIntent`
  unfoldable pub delete_operational_intent : String → Action Db Fault (Unit {0})
  delete_operational_intent id db =
      if any (has_id id) db.operations
      then (ok tt, record db { operations = delete_where (has_id id) db.operations })
      else (err (coded Code.no_code), db)

  -- `UpsertOperationalIntent`
  unfoldable pub upsert_operational_intent :
      Tx → OperationalIntent → Action Db Fault OperationalIntent
  upsert_operational_intent tx o db =
      if checks (row_of tx o) && refers db.subscriptions o.subscription_id
      then (
        ok (operational_intent_of db.availabilities (row_of tx o)),
        record db { operations = upsert (has_id o.id) (row_of tx o) db.operations },
      )
      else (err (coded Code.no_code), db)

  unfoldable pub search_rows :
      Volume3D → Volume4D → CellUnion → Action Db Fault (List OperationalIntent)
  search_rows v3d v4d [] = fail (coded Code.bad_request)
  search_rows v3d v4d cells = gets (λ db.
      map (operational_intent_of db.availabilities)
        (take max_result_limit (filter (in_volume cells v3d v4d) db.operations)))

  unfoldable pub search_footprint :
      Volume4D → Volume3D → Option Geometry → Action Db Fault (List OperationalIntent)
  unfolding search_rows
  search_footprint v4d v3d none = fail (coded Code.bad_request)
  search_footprint v4d v3d (some g) = do
    cells ← lift (with_code Code.bad_request (geometry_covering env g))
    search_rows v3d v4d cells

  unfoldable pub search_spatial :
      Volume4D → Option Volume3D → Action Db Fault (List OperationalIntent)
  unfolding search_footprint
  search_spatial v4d none = fail (coded Code.bad_request)
  search_spatial v4d (some v3d) = search_footprint v4d v3d v3d.footprint

  -- `SearchOperationalIntents`
  unfoldable pub search_operational_intents : Volume4D → Action Db Fault (List OperationalIntent)
  unfolding search_spatial
  search_operational_intents v4d = search_spatial v4d v4d.spatial_volume

  -- `GetDependentOperationalIntents`
  unfoldable pub get_dependent_operational_intents : String → Action Db Fault (List String)
  get_dependent_operational_intents subscription_id =
      gets (λ db. map (λ r. r.id) (filter (depends_on subscription_id) db.operations))
