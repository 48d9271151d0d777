-- ===== src/Rid/Application/Success.antt =====
-- When the deletion of a service area succeeds.
use inter_uss_platform.Base.{
  ◌≡◌, refl, sym, ap, ◌∙◌, String, true, false, ◌&&◌, Option, some, [], ◌∷◌, map, leb,
  filter-filter, str_eq_of_eq, ◌↔◌, ◌≢◌, arith,
}
use mathlib.Core.Path.{subst}
use inter_uss_platform.Base.Lists.{filter, any, Mem}
use inter_uss_platform.Base.Tables.{delete_where, update_where}
use inter_uss_platform.Base.Action.{ok, ◌>>=◌}
use inter_uss_platform.Models.Platform.{Platform}
use inter_uss_platform.Models.Times.{Time}
use inter_uss_platform.Models.Versions.{Version, version_from_time, matches, to_timestamp}
use inter_uss_platform.Scd.Store.{at_most_one, max_int4}
use inter_uss_platform.Rid.Models.{IdentificationServiceArea}
use inter_uss_platform.Rid.Store.{AreaRow, Db, Tx}
use inter_uss_platform.Rid.Store.Areas.{has_id, is_version, area_of, get_isa, delete_isa}
use inter_uss_platform.Rid.Store.Subscriptions.{
  in_cells, increment, subscription_of, update_notification_idxs_in_cells,
}
use inter_uss_platform.Rid.Application.Areas.{found, check_deletable, delete_isa_action}
use inter_uss_platform.Rid.Application.Changes.{own_version}

pub version_has_id :
    (id : String) (t : Time) (row : AreaRow) → is_version id t row ≡ true → has_id id row ≡ true
unfolding is_version
version_has_id id t row h = ground arith

-- The statement of a deletion matches the one row with the identifier.
one_matched :
    (id : String) (db : Db) (row : AreaRow)
    → filter (has_id id) db.areas ≡ row ∷ []
    → row.id ≡ id
    → filter (is_version row.id row.updated_at) db.areas ≡ row ∷ []
unfolding filter
one_matched id db row one i =
    sym (
      filter-filter (is_version row.id row.updated_at) (has_id id) db.areas
        λ a h. subst (λ j. has_id j a ≡ true) i (version_has_id row.id row.updated_at a h))
    ∙ ap (filter (is_version row.id row.updated_at)) one
    ∙ rw (own_version row) refl

module _ (env : Platform) (tx : Tx) (id owner : String) (version : Option Version) (db : Db)
    (row : AreaRow) (one : filter (has_id id) db.areas ≡ row ∷ []) (i : row.id ≡ id)
    (o : row.owner ≡ owner) (v : matches version (some (version_from_time row.updated_at)) ≡ true)
    (below : any
        (λ r. in_cells row.cells tx.clock r && leb max_int4 r.notification_index)
        db.subscriptions
      ≡ false) where
  pub delete_isa_run : delete_isa_action env tx id owner version db ≡ (
    ok (
      some (area_of row),
      map
          (λ r. subscription_of (increment r))
          (filter (in_cells row.cells tx.clock) db.subscriptions),
    ),
    record {
      areas = delete_where (is_version row.id row.updated_at) db.areas;
      subscriptions = update_where (in_cells row.cells tx.clock) increment db.subscriptions;
    },
  )
  unfolding delete_isa_action get_isa found check_deletable delete_isa
      update_notification_idxs_in_cells ◌>>=◌ at_most_one area_of to_timestamp version_from_time
  delete_isa_run =
      rw (one, v, str_eq_of_eq row.owner owner o, one_matched id db row one i, below) refl

-- The one area with an identifier may be deleted by an owner who gives a version: it is the owner's, the
-- version is the present one, and no subscription on its cells that has not ended has the largest index.
abbrev pub Deletable : Tx → String → String → Option Version → Db → AreaRow → Type 0
Deletable tx id owner version db row =
    (filter (has_id id) db.areas ≡ row ∷ [])
    × (row.owner ≡ owner)
    × (matches version (some (version_from_time row.updated_at)) ≡ true)
    × (any (λ r. in_cells row.cells tx.clock r && leb max_int4 r.notification_index)
          db.subscriptions
        ≡ false)

-- A run that returns the area that was there, and leaves the other ones.
abbrev pub Deletes : String → Db → AreaRow → Option IdentificationServiceArea → Db → Type 0
Deletes id db row area db' =
    (area ≡ some (area_of row))
    × ((other : AreaRow) → Mem other db'.areas ↔ (Mem other db.areas × (other.id ≢ id)))
