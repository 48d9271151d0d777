-- ===== src/Scd/Availability/Effects.antt =====
-- What is read after a set of an availability.
use inter_uss_platform.Base.{
  ◌≡◌, refl, ap, String, List, [], ◌∷◌, map, str_eq, str_eq_of_eq, str_eq_refl, Bool-cases, inl,
  inr,
}
use inter_uss_platform.Base.Lists.{filter}
use inter_uss_platform.Base.Tables.{upsert, delete_where, filter-upsert_self}
use inter_uss_platform.Base.Action.{ok, ◌>>=◌}
use inter_uss_platform.Api.{UssAvailabilityStatusResponse}
use inter_uss_platform.Models.Platform.{Platform}
use inter_uss_platform.Scd.Models.Availability.{UssAvailabilityState, to_rest}
use inter_uss_platform.Scd.Store.{AvailabilityRow, Db, Tx}
use inter_uss_platform.Scd.Store.Availabilities.{
  has_id, row_of, status_of, only_status, get_uss_availability, upsert_uss_availability,
}
use inter_uss_platform.Scd.Store.OperationalIntents.{availability_of}
use inter_uss_platform.Scd.Availability.{response_of, or_default, get_action, set_action}

-- The row that was written is the one that operational intents are read with.
availability_of-upsert :
    (uss : String) (row : AvailabilityRow) (rows : List AvailabilityRow)
    → row.id ≡ uss
    → availability_of (upsert (has_id uss) row rows) uss ≡ row.availability
unfolding availability_of upsert delete_where filter
availability_of-upsert uss row [] e = rw (str_eq_of_eq row.id uss e) refl
availability_of-upsert uss row (x ∷ rows) e = elim (Bool-cases (str_eq x.id uss)) [
  | inl same ↦ rw same (availability_of-upsert uss row rows e)
  | inr other ↦ rw (other, other) (availability_of-upsert uss row rows e)
]

module _ (env : Platform) (tx : Tx) where
  -- A set always succeeds. A get that follows it replies as the set did, with the state that was set,
  -- which is also that of the operational intents of the USS; these are otherwise as they were.
  pub get-set_availability :
      (uss : String) (state : UssAvailabilityState) (db : Db)
      → (r : UssAvailabilityStatusResponse) × (db' : Db) × (set_action env tx uss state db
          ≡ (ok r, db'))
        × (get_action env uss db' ≡ (ok r, db'))
        × (r.availability ≡ to_rest state)
        × (availability_of db'.availabilities uss ≡ state)
        × (db'.operations ≡ db.operations)
  unfolding set_action get_action ◌>>=◌ upsert_uss_availability get_uss_availability response_of
      status_of row_of or_default only_status
  get-set_availability uss state db =
      let row = row_of tx (record { uss = uss; availability = state; version = "" }) in
      let db' : Db = record db { availabilities = upsert (has_id uss) row db.availabilities } in
      (
        response_of uss (status_of env row),
        db',
        refl,
        ap (λ l. (or_default uss (only_status (map (status_of env) l)), db'))
            (filter-upsert_self (has_id uss) row db.availabilities (str_eq_refl uss)),
        refl,
        availability_of-upsert uss row db.availabilities refl,
        refl,
      )
