-- ===== src/Scd/Constraints/Refinement.antt =====
-- The table of constraints as a map from identifiers to rows, of which each client changes its own.
use inter_uss_platform.Base.{◌≡◌, sym, ap, ◌∙◌, String, Option, none, some, str_eq, if◌then◌else◌}
use mathlib.Core.Path.{subst}
use inter_uss_platform.Base.Tables.{upsert}
use inter_uss_platform.Base.Keyed.{
  with_key, with_key-some, with_key-upsert, with_key-delete_where, with_key_of_mem,
}
use inter_uss_platform.Base.Action.{ok}
use inter_uss_platform.Api.{ChangeConstraintReferenceResponse}
use inter_uss_platform.Models.Platform.{Platform}
use inter_uss_platform.Scd.Store.{ConstraintRow, Db, Tx}
use inter_uss_platform.Scd.Store.Constraints.{has_id, row_of}
use inter_uss_platform.Scd.Store.Constraints.Reads.{get_constraint_ok}
use inter_uss_platform.Scd.Constraints.Params.{ValidConstraintParams}
use inter_uss_platform.Scd.Constraints.Put.{put_action}
use inter_uss_platform.Scd.Constraints.Delete.{delete_constraint_action}
use inter_uss_platform.Scd.Constraints.Run.{put_run, described}
use inter_uss_platform.Scd.Constraints.Effects.{put_fencing, delete_run, deleted_owner}

-- A map from identifiers to rows.
abbrev pub Map : Type 0
Map = String → Option ConstraintRow

-- The map with another value for one key.
unfoldable pub assign : String → Option ConstraintRow → Map → Map
assign key value m id = if str_eq id key then value else m id

-- The map that a table stands for.
unfoldable pub view : Db → Map
view db id = with_key (λ r. r.id) id db.constraints

-- What a client may do to the map: give a key that is free or its own a row that it owns, and remove
-- such a row.
pub data MapStep (client : String) : Map → Map → Type 0 where
  assigned :
      (m : Map) (key : String) (row : ConstraintRow)
      → row.id ≡ key
      → row.owner ≡ client
      → ((previous : ConstraintRow) → m key ≡ some previous → previous.owner ≡ client)
      → MapStep client m (assign key (some row) m)
  removed :
      (m : Map) (key : String) (row : ConstraintRow)
      → m key ≡ some row
      → row.owner ≡ client
      → MapStep client m (assign key none m)

-- What the handlers do to the tables on behalf of a client.
pub data Change (env : Platform) (client : String) (db db' : Db) : Type 0 where
  put :
      (tx : Tx) (p : ValidConstraintParams) (r : ChangeConstraintReferenceResponse)
      → put_action env tx client p db ≡ (ok r, db')
      → Change env client db db'
  deleted :
      (tx : Tx) (id ovn : String) (r : ChangeConstraintReferenceResponse)
      → delete_constraint_action env tx client id ovn db ≡ (ok r, db')
      → Change env client db db'

module _ (env : Platform) (client : String) (db db' : Db) where
  put-MapStep :
      (tx : Tx) (p : ValidConstraintParams) (r : ChangeConstraintReferenceResponse)
      → put_action env tx client p db ≡ (ok r, db')
      → MapStep client (view db) (view db')
  unfolding view assign row_of
  put-MapStep tx p r h =
      let (old, c, q1, q2, q3, e) = put_run env tx client p db db' r h in
      let (describes, version) = described env tx client p old c q3 in
      let i = describes.0 in
      let o = describes.1 in
      let rows : db'.constraints ≡ upsert (has_id p.id) (row_of tx c) db.constraints =
        ap (λ x. x.1) e ∙ ap (λ j. upsert (has_id j) (row_of tx c) db.constraints) i in
      let views : (key : String) → assign p.id (some (row_of tx c)) (view db) key ≡ view db' key =
        λ key.
          sym (with_key-upsert (λ x. x.id) p.id db.constraints (row_of tx c) key i)
          ∙ sym (ap (with_key (λ x. x.id) key) rows) in
      subst (MapStep client (view db)) (λ j key. views key j)
        (MapStep.assigned (view db) p.id (row_of tx c) i o λ previous q.
          let (m, same) = with_key-some (λ x. x.id) p.id db.constraints previous q in
          (put_fencing env tx client p db db' r previous h m same).0)

  delete-MapStep :
      (tx : Tx) (id ovn : String) (r : ChangeConstraintReferenceResponse)
      → delete_constraint_action env tx client id ovn db ≡ (ok r, db')
      → MapStep client (view db) (view db')
  unfolding view assign
  delete-MapStep tx id ovn r h =
      let (old, q, owners, rows) = delete_run env tx client id ovn db db' r h in
      let (row, m, i, e) = get_constraint_ok env id db old q in
      let (first, there) = with_key_of_mem (λ x. x.id) id db.constraints row m i in
      let (n, same) = with_key-some (λ x. x.id) id db.constraints first there in
      let views : (key : String) → assign id none (view db) key ≡ view db' key = λ key.
        sym (with_key-delete_where (λ x. x.id) id db.constraints key)
        ∙ sym (ap (with_key (λ x. x.id) key) rows) in
      subst (MapStep client (view db)) (λ j key. views key j)
        (MapStep.removed (view db) id first there
          (deleted_owner env tx client id ovn db db' r first h n same))

  -- What the handlers do to the table of constraints on behalf of a client is a step of the map: a put
  -- that succeeds gives its identifier a row that the client owns, where it was free or the client's
  -- own, a deletion that succeeds removes a row of the client, and no other identifier has another row
  -- than before.
  pub Change-MapStep : Change env client db db' → MapStep client (view db) (view db')
  Change-MapStep (put tx p r h) = put-MapStep tx p r h
  Change-MapStep (deleted tx id ovn r h) = delete-MapStep tx id ovn r h
