-- ===== src/Rid/Store/Areas.antt =====
-- pkg/rid/store/cockroach/identification_service_area.go
use inter_uss_platform.Base.{
  ℕ, ◌+◌, String, Bool, false, ◌&&◌, ◌||◌, not, Option, none, some, List, [], ◌∷◌, ◌++◌, map, any,
  filter, take, leb, nat_eq, str_eq, if◌then◌else◌,
}
use inter_uss_platform.Base.Tables.{delete_where, update_where}
use inter_uss_platform.Base.Action.{ok, err, Action, fail, gets}
use inter_uss_platform.Errors.{Code, Fault, coded}
use inter_uss_platform.Models.Times.{Time}
use inter_uss_platform.Models.Platform.{Platform, CellUnion}
use inter_uss_platform.Models.Versions.{version_from_time, to_timestamp}
use inter_uss_platform.Rid.Models.{IdentificationServiceArea}
use inter_uss_platform.Scd.Store.{max_result_limit, overlap, in_order, at_most_one}
use inter_uss_platform.Rid.Store.{
  AreaRow, Db, Tx, ends_from, starts_by, writer_of, valid_cells, has_cells,
}

abbrev pub has_id : String → AreaRow → Bool
has_id id r = str_eq r.id id

-- `WHERE id = $1 AND updated_at = $2`
unfoldable pub is_version : String → Time → AreaRow → Bool
is_version id t r = str_eq r.id id && nat_eq r.updated_at t

-- One row as `fetchISAs` reads it.
unfoldable pub area_of : AreaRow → IdentificationServiceArea
area_of r = record {
  id = r.id;
  url = r.url;
  owner = r.owner;
  cells = r.cells;
  start_time = r.starts_at;
  end_time = r.ends_at;
  version = some (version_from_time r.updated_at);
  altitude_hi = none;
  altitude_lo = none;
  writer = writer_of r.writer;
}

unfoldable pub row_of : Tx → IdentificationServiceArea → AreaRow
row_of tx i = record {
  id = i.id;
  owner = i.owner;
  url = i.url;
  cells = i.cells;
  starts_at = i.start_time;
  ends_at = i.end_time;
  writer = some i.writer;
  updated_at = tx.timestamp;
}

-- The row after an update, which leaves the owner as it is.
unfoldable pub updated_row : Tx → IdentificationServiceArea → AreaRow → AreaRow
updated_row tx i r = record r {
  url = i.url;
  cells = i.cells;
  starts_at = i.start_time;
  ends_at = i.end_time;
  writer = some i.writer;
  updated_at = tx.timestamp;
}

-- `GetISA`; `FOR UPDATE` locks the row and changes nothing.
unfoldable pub get_isa : String → Action Db Fault (Option IdentificationServiceArea)
get_isa id db = (at_most_one (map area_of (filter (has_id id) db.areas)), db)

module _ (env : Platform) where
  -- `InsertISA`, with the primary key and the checks of the table.
  unfoldable pub insert_isa :
      Tx → IdentificationServiceArea → Action Db Fault (Option IdentificationServiceArea)
  insert_isa tx i db =
      if valid_cells env i.cells
        && not (any (has_id i.id) db.areas)
        && in_order i.start_time i.end_time
        && has_cells i.cells
      then (ok (some (area_of (row_of tx i))), record db { areas = db.areas ++ row_of tx i ∷ [] })
      else (err (coded Code.no_code), db)

  -- `UpdateISA`. The checks of the table are on a row that is updated.
  unfoldable pub update_isa :
      Tx → IdentificationServiceArea → Action Db Fault (Option IdentificationServiceArea)
  update_isa tx i db =
      let here = is_version i.id (to_timestamp i.version) in
      if valid_cells env i.cells
        && (not (any here db.areas) || (in_order i.start_time i.end_time && has_cells i.cells))
      then (
        at_most_one (map (λ r. area_of (updated_row tx i r)) (filter here db.areas)),
        record db { areas = update_where here (updated_row tx i) db.areas },
      )
      else (err (coded Code.no_code), db)

-- `DeleteISA`
unfoldable pub delete_isa :
    IdentificationServiceArea → Action Db Fault (Option IdentificationServiceArea)
delete_isa i db =
    let here = is_version i.id (to_timestamp i.version) in
    (
      at_most_one (map area_of (filter here db.areas)),
      record db { areas = delete_where here db.areas },
    )

-- The condition of the search.
unfoldable pub in_search : CellUnion → Time → Option Time → AreaRow → Bool
in_search cells earliest latest r =
    ends_from earliest r.ends_at && starts_by r.starts_at latest && overlap r.cells cells

-- `SearchISAs`, where `earliest` is given.
unfoldable pub search_isas :
    CellUnion → Time → Option Time → Action Db Fault (List IdentificationServiceArea)
search_isas [] earliest latest = fail (coded Code.bad_request)
search_isas cells earliest latest =
    gets (λ db.
      map area_of (take max_result_limit (filter (in_search cells earliest latest) db.areas)))

-- `expiredDurationInMin`, in nanoseconds
abbrev pub expired_duration : ℕ
expired_duration = 1800000000000

-- `ends_at + INTERVAL '30' MINUTE <= CURRENT_TIMESTAMP`
unfoldable pub has_expired : Time → Option Time → Bool
has_expired now none = false
has_expired now (some end) = leb (end + expired_duration) now

-- `writer = …`; a comparison with NULL is never true.
unfoldable pub written_by : String → Option String → Bool
written_by writer none = false
written_by writer (some w) = str_eq w writer

-- `ListExpiredISAs`
unfoldable pub list_expired_isas : Tx → String → Action Db Fault (List IdentificationServiceArea)
list_expired_isas tx writer = gets (λ db. map area_of (
    take max_result_limit
      (filter (λ r. has_expired tx.timestamp r.ends_at && written_by writer r.writer) db.areas)))
