-- ===== src/Rid/Application/Changes.antt =====
-- What an insertion or a deletion of a service area that succeeds required, and what it does.
use inter_uss_platform.Base.{
  Bool, ◌≡◌, ◌≢◌, ◌↔◌, sym, ap, ◌∙◌, String, true, false, not, Option, none, some, List, Mem,
  filter, str_eq, str_eq-true, str_eq_of_eq, str_eq_of_ne, str_eq_refl, mem-filter, mem-filter_inv,
  arith,
}
use mathlib.Core.Path.{subst}
use inter_uss_platform.Base.Tables.{
  delete_where, update_where, mem-delete_where, mem-delete_where_inv,
}
use inter_uss_platform.Base.Action.{ok, lift, fail_if, bind_elim}
use inter_uss_platform.Base.Action.Leaves.{Leaves-lift, Leaves-fail_if}
use inter_uss_platform.Base.Action.Runs.{read_elim, passed}
use inter_uss_platform.Errors.{Code, coded}
use inter_uss_platform.Models.Times.{Time}
use inter_uss_platform.Models.Platform.{Platform, CellUnion}
use inter_uss_platform.Models.Versions.{Version, version_from_time, matches, to_timestamp}
use inter_uss_platform.Scd.Store.Reads.{at_most_one_of_mem, at_most_one-some}
use inter_uss_platform.Rid.Models.{IdentificationServiceArea, Subscription}
use inter_uss_platform.Rid.Store.{AreaRow, Db, Tx}
use inter_uss_platform.Rid.Store.Areas.{has_id, is_version, area_of, get_isa, delete_isa}
use inter_uss_platform.Rid.Store.Subscriptions.{
  in_cells, increment, update_notification_idxs_in_cells,
}
use inter_uss_platform.Rid.Application.Areas.{found, check_deletable, delete_isa_action}
use inter_uss_platform.Rid.Application.Frame.{get_isa-Leaves, check_deletable-Leaves}

-- The area that a read found: it has its row, and each row with the identifier reads as it.
read_area :
    (id : String) (db : Db) (read : Option IdentificationServiceArea)
    (old : IdentificationServiceArea)
    → get_isa id db ≡ (ok read, db)
    → found read ≡ ok old
    → ((row : AreaRow) × Mem row db.areas × (row.id ≡ id) × (old ≡ area_of row))
      × ((other : AreaRow) → Mem other db.areas → other.id ≡ id → old ≡ area_of other)
unfolding found get_isa
read_area id db (some a) old q h =
    let same : a ≡ old = ground arith in
    let (row, m, e) = at_most_one-some area_of (filter (has_id id) db.areas) a (ap (λ x. x.0) q) in
    let (k, n) = mem-filter_inv (has_id id) db.areas row m in
    (
      (row, n, str_eq-true row.id id k, sym same ∙ e),
      λ other o i.
          let there =
            at_most_one_of_mem area_of (filter (has_id id) db.areas) (some a) other
              (ap (λ x. x.0) q)
              (mem-filter (has_id id) db.areas other (str_eq_of_eq other.id id i) o) in
          ground arith,
    )
read_area id db none old q h = absurd (ground arith)

pub deletable :
    (version : Option Version) (owner : String) (old : IdentificationServiceArea) (db : Db)
    → check_deletable version owner old db ≡ (ok tt, db)
    → (matches version old.version ≡ true) × (old.owner ≡ owner)
unfolding check_deletable
deletable version owner old db h =
    read_elim (fail_if (not (matches version old.version)) (coded Code.version_mismatch)) _ db
      (Leaves-fail_if _ _) h
      λ unit q k.
        let a = passed (not (matches version old.version)) _ db db q in
        let b = passed (not (str_eq old.owner owner)) _ db db k in
        (ground arith, str_eq-true old.owner owner (ground arith))

pub own_version : (row : AreaRow) → is_version row.id row.updated_at row ≡ true
unfolding is_version
own_version row = ground (arith, str_eq_refl row.id)

other_version : (id : String) (t : Time) (row : AreaRow) → row.id ≢ id → is_version id t row ≡ false
unfolding is_version
other_version id t row d = ground (arith, str_eq_of_ne row.id id d)

-- The areas that are left.
left :
    (id : String) (old : IdentificationServiceArea) (before after : List AreaRow)
    → old.id ≡ id
    → ((other : AreaRow) → Mem other before → other.id ≡ id → old ≡ area_of other)
    → after ≡ delete_where (is_version old.id (to_timestamp old.version)) before
    → (other : AreaRow) → Mem other after ↔ (Mem other before × (other.id ≢ id))
unfolding area_of to_timestamp version_from_time
left id old before after i every rows other = (
  λ m.
      let (late, n) =
        mem-delete_where_inv (is_version old.id (to_timestamp old.version)) before other
          (subst (Mem other) rows m) in
      (
        n,
        λ same. absurd (
            differ late (
              subst (λ o. is_version o.id (to_timestamp o.version) other ≡ true)
                (sym (every other n same)) (own_version other))),
      ),
  λ (n, d). subst (Mem other) (sym rows) (
      mem-delete_where (is_version old.id (to_timestamp old.version)) before other
        (other_version old.id (to_timestamp old.version) other (λ e. d (e ∙ i))) n),
)
  where
    differ : {b : Bool} → b ≡ false → b ≡ true → ⊥
    differ p q = absurd (cc)

pub notified :
    (tx : Tx) (cells : CellUnion) (db u : Db) (subs : List Subscription)
    → update_notification_idxs_in_cells tx cells db ≡ (ok subs, u)
    → (u.areas ≡ db.areas)
      × (u.subscriptions ≡ update_where (in_cells cells tx.clock) increment db.subscriptions)
unfolding update_notification_idxs_in_cells
notified tx cells db u subs h = ground arith

pub removed :
    (old : IdentificationServiceArea) (o : Option IdentificationServiceArea) (db u : Db)
    → delete_isa old db ≡ (ok o, u)
    → (u.areas ≡ delete_where (is_version old.id (to_timestamp old.version)) db.areas)
      × (u.subscriptions ≡ db.subscriptions)
unfolding delete_isa
removed old o db u h = (sym (ap (λ x. x.1.areas) h), sym (ap (λ x. x.1.subscriptions) h))

module _ (env : Platform) (tx : Tx) where
  -- A deletion of a service area that succeeds was asked for by its owner with its present version; it
  -- removes that area and no other, and counts up the index of each subscription on its cells that has
  -- not ended, and of no other.
  pub delete_isa_removes_only :
      (id owner : String) (version : Option Version) (db db' : Db)
      (r : Option IdentificationServiceArea × List Subscription)
      → delete_isa_action env tx id owner version db ≡ (ok r, db')
      → (row : AreaRow) × Mem row db.areas
        × (row.id ≡ id)
        × (row.owner ≡ owner)
        × (matches version (some (version_from_time row.updated_at)) ≡ true)
        × ((other : AreaRow) → Mem other db'.areas ↔ (Mem other db.areas × (other.id ≢ id)))
        × (db'.subscriptions
            ≡ update_where (in_cells row.cells tx.clock) increment db.subscriptions)
  unfolding delete_isa_action area_of
  delete_isa_removes_only id owner version db db' r h =
      read_elim (get_isa id) _ db (get_isa-Leaves id) h λ read q1 h1.
        read_elim (lift (found read)) _ db (Leaves-lift _) h1 λ old q2 h2.
          read_elim (check_deletable version owner old) _ db
            (check_deletable-Leaves version owner old) h2
            λ unit q3 h3. bind_elim (delete_isa old) _ db h3 λ ret u q4 h4.
              bind_elim (update_notification_idxs_in_cells tx old.cells) _ u h4 λ subs v q5 h5.
                let ((row, m, i, e), every) = read_area id db read old q1 (ap (λ x. x.0) q2) in
                let (current, mine) = deletable version owner old db q3 in
                let (areas, subscriptions) = notified tx old.cells u v subs q5 in
                let (gone, alone) = removed old ret db u q4 in
                let final : v ≡ db' = ap (λ x. x.1) h5 in
                (
                  row,
                  m,
                  i,
                  ap (λ o. o.owner) (sym e) ∙ mine,
                  subst (λ o. matches version o.version ≡ true) e current,
                  left id old db.areas db'.areas (ap (λ o. o.id) e ∙ i) every
                      (sym (ap (λ x. x.areas) final) ∙ areas ∙ gone),
                  subst
                      (λ o.
                        db'.subscriptions
                        ≡ update_where (in_cells o.cells tx.clock) increment db.subscriptions)
                      e
                      (sym (ap (λ x. x.subscriptions) final)
                        ∙ subscriptions
                        ∙ ap (update_where (in_cells old.cells tx.clock) increment) alone),
                )
