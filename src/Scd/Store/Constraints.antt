-- ===== src/Scd/Store/Constraints.antt =====
-- pkg/scd/store/cockroach/constraints.go
pub mod Reads
use inter_uss_platform.Base.{
  String, Bool, true, false, ◌&&◌, List, [], ◌∷◌, map, filter, take, any, all, str_eq, nat_eq,
  if◌then◌else◌,
}
use inter_uss_platform.Base.Tables.{upsert, delete_where}
use inter_uss_platform.Base.Action.{Result, ok, err, Action, pure, lift, gets, ◌>>=◌}
use inter_uss_platform.Errors.{Code, Fault, coded, no_rows}
use inter_uss_platform.Models.Platform.{Platform, CellUnion}
use inter_uss_platform.Models.Volumes.{Volume4D, calculate_spatial_covering}
use inter_uss_platform.Scd.Models.Ovns.{new_ovn_from_time}
use inter_uss_platform.Scd.Models.Constraints.{Constraint}
use inter_uss_platform.Scd.Store.{
  ConstraintRow, Db, Tx, max_result_limit, overlap, no_later, in_order,
}

abbrev pub has_id : String → ConstraintRow → Bool
has_id id r = str_eq r.id id

-- The condition of the search.
unfoldable pub in_volume : CellUnion → Volume4D → ConstraintRow → Bool
unfolding overlap no_later
in_volume cells v4d r =
    overlap r.cells cells && no_later r.starts_at v4d.end_time && no_later v4d.start_time r.ends_at

unfoldable pub row_of : Tx → Constraint → ConstraintRow
row_of tx c = record {
  id = c.id;
  owner = c.manager;
  version = c.version;
  url = c.uss_base_url;
  altitude_lower = c.altitude_lower;
  altitude_upper = c.altitude_upper;
  starts_at = c.start_time;
  ends_at = c.end_time;
  cells = c.cells;
  updated_at = tx.timestamp;
}

-- `CHECK (array_length(cells, 1) IS NOT NULL)`
has_cells : CellUnion → Bool
has_cells [] = false
has_cells (c ∷ cells) = true

module _ (env : Platform) where
  -- One row as `fetchConstraints` reads it.
  unfoldable pub constraint_of : ConstraintRow → Constraint
  constraint_of r = record {
    id = r.id;
    manager = r.owner;
    version = r.version;
    ovn = new_ovn_from_time env r.updated_at r.id;
    start_time = r.starts_at;
    end_time = r.ends_at;
    uss_base_url = r.url;
    altitude_lower = r.altitude_lower;
    altitude_upper = r.altitude_upper;
    cells = r.cells;
  }

  exactly_one : List Constraint → Result Fault Constraint
  exactly_one [] = err no_rows
  exactly_one (c ∷ []) = ok c
  exactly_one (c ∷ d ∷ rest) = err (coded Code.no_code)

  -- `GetConstraint`
  unfoldable pub get_constraint : String → Action Db Fault Constraint
  unfolding exactly_one
  get_constraint id db = (exactly_one (map constraint_of (filter (has_id id) db.constraints)), db)

  unfoldable pub search_rows : Volume4D → CellUnion → Action Db Fault (List Constraint)
  search_rows v4d [] = pure []
  search_rows v4d cells = gets (λ db.
      map constraint_of (take max_result_limit (filter (in_volume cells v4d) db.constraints)))

  -- `SearchConstraints`
  unfoldable pub search_constraints : Volume4D → Action Db Fault (List Constraint)
  unfolding search_rows
  search_constraints v4d = do
    cells ← lift (calculate_spatial_covering env v4d)
    search_rows v4d cells

  -- `CellUnionToCellIdsWithValidation`: every cell is of level 13.
  valid_cells : CellUnion → Bool
  valid_cells cells = all (λ c. nat_eq (env.cell_level c) 13) cells

  -- `UpsertConstraint`, with the checks of the table.
  unfoldable pub upsert_constraint : Tx → Constraint → Action Db Fault Constraint
  unfolding valid_cells has_cells
  upsert_constraint tx c db =
      if valid_cells c.cells && has_cells c.cells && in_order c.start_time c.end_time
      then (
        ok (constraint_of (row_of tx c)),
        record db { constraints = upsert (has_id c.id) (row_of tx c) db.constraints },
      )
      else (err (coded Code.no_code), db)

  -- `DeleteConstraint`
  unfoldable pub delete_constraint : String → Action Db Fault (Unit {0})
  delete_constraint id db =
      if any (has_id id) db.constraints
      then (ok tt, record db { constraints = delete_where (has_id id) db.constraints })
      else (err no_rows, db)
