-- ===== src/Scd/Store/Availabilities.antt =====
-- pkg/scd/store/cockroach/availability.go
use inter_uss_platform.Base.{String, Bool, List, [], ◌∷◌, map, filter, str_eq}
use inter_uss_platform.Base.Tables.{upsert}
use inter_uss_platform.Base.Action.{Result, ok, err, Action}
use inter_uss_platform.Errors.{Code, Fault, coded, no_rows}
use inter_uss_platform.Models.Platform.{Platform}
use inter_uss_platform.Scd.Models.Ovns.{new_ovn_from_time}
use inter_uss_platform.Scd.Models.Availability.{UssAvailabilityStatus}
use inter_uss_platform.Scd.Store.{AvailabilityRow, Db, Tx}

abbrev pub has_id : String → AvailabilityRow → Bool
has_id id r = str_eq r.id id

unfoldable pub row_of : Tx → UssAvailabilityStatus → AvailabilityRow
row_of tx s = record { id = s.uss; availability = s.availability; updated_at = tx.timestamp }

-- `fetchAvailability`
unfoldable pub only_status : List UssAvailabilityStatus → Result Fault UssAvailabilityStatus
only_status [] = err no_rows
only_status (s ∷ []) = ok s
only_status (s ∷ t ∷ rest) = err (coded Code.no_code)

module _ (env : Platform) where
  -- One row as `fetchAvailabilities` reads it.
  unfoldable pub status_of : AvailabilityRow → UssAvailabilityStatus
  status_of r = record {
    uss = r.id;
    availability = r.availability;
    version = new_ovn_from_time env r.updated_at r.id;
  }

  -- `GetUssAvailability`
  unfoldable pub get_uss_availability : String → Action Db Fault UssAvailabilityStatus
  get_uss_availability id db =
      (only_status (map status_of (filter (has_id id) db.availabilities)), db)

  -- `UpsertUssAvailability`
  unfoldable pub upsert_uss_availability :
      Tx → UssAvailabilityStatus → Action Db Fault UssAvailabilityStatus
  upsert_uss_availability tx s db = (
    ok (status_of (row_of tx s)),
    record db { availabilities = upsert (has_id s.uss) (row_of tx s) db.availabilities },
  )
