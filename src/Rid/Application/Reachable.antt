-- ===== src/Rid/Application/Reachable.antt =====
-- The limit holds at every database that the application reaches, however its transactions follow on
-- one another and time passes between them.
use inter_uss_platform.Base.{◌≡◌, ◌≤◌, sym, ap, ◌∙◌, String, Option, List, [], arith}
use mathlib.Core.Path.{subst}
use inter_uss_platform.Base.Tables.{delete_where, update_where}
use inter_uss_platform.Base.Action.{ok, Action, fail_if, lift, bind_elim}
use inter_uss_platform.Base.Action.Leaves.{Leaves, Leaves-lift, Leaves-fail_if}
use inter_uss_platform.Base.Action.Runs.{read_elim}
use inter_uss_platform.Errors.{Code, Fault, coded}
use inter_uss_platform.Models.Times.{Time}
use inter_uss_platform.Models.Platform.{Platform, CellUnion}
use inter_uss_platform.Models.Versions.{Version, to_timestamp}
use inter_uss_platform.Rid.Models.{IdentificationServiceArea, Subscription, adjust_isa_time_range}
use inter_uss_platform.Rid.Store.{Db, Tx}
use inter_uss_platform.Rid.Store.Areas.{get_isa, insert_isa, update_isa, delete_isa}
use inter_uss_platform.Rid.Store.Subscriptions.{
  subscriptions_per_cell, is_version, in_cells, increment, get_subscription, delete_subscription,
  update_notification_idxs_in_cells,
}
use inter_uss_platform.Rid.Application.Areas.{
  check_deletable, check_updatable, insert_isa_action, update_isa_action, delete_isa_action,
}
use inter_uss_platform.Rid.Application.Areas
use inter_uss_platform.Rid.Application.Subscriptions.{
  max_subscriptions_per_area, found, check_changeable, insert_subscription_action,
  update_subscription_action, delete_subscription_action,
}
use inter_uss_platform.Rid.Application.Frame.{
  get_subscription-Leaves, get_isa-Leaves, check_changeable-Leaves, check_deletable-Leaves,
  check_updatable-Leaves, insert_isa-Leaves, update_isa-Leaves, delete_isa-Leaves,
}
use inter_uss_platform.Rid.Application.Limit.{
  count-delete_where, count-update_where, count-later, weight-increment,
}
use inter_uss_platform.Rid.Application.Limited.{Limited, Distinct, insert-Limited, update-Limited}

-- The database at a moment.
pub record Moment : Type 0 where
  pub now : Time
  pub db : Db

-- What may happen: a transaction that commits, or time that passes. One that fails changes nothing.
pub data Step (env : Platform) : Moment → Moment → Type 0 where
  passes :
      (now later : Time) (db : Db)
      → now ≤ later
      → Step env (record { now = now; db = db }) (record { now = later; db = db })
  subscription_inserted :
      (tx : Tx) (s : Subscription) (r : Option Subscription) (db db' : Db)
      → Distinct s.cells
      → insert_subscription_action env tx s db ≡ (ok r, db')
      → Step env (record { now = tx.clock; db = db }) (record { now = tx.clock; db = db' })
  subscription_updated :
      (tx : Tx) (now : Time) (s : Subscription) (r : Option Subscription) (db db' : Db)
      → Distinct s.cells
      → update_subscription_action env tx now s db ≡ (ok r, db')
      → Step env (record { now = tx.clock; db = db }) (record { now = tx.clock; db = db' })
  subscription_deleted :
      (tx : Tx) (id owner : String) (version : Option Version) (r : Option Subscription)
      (db db' : Db)
      → delete_subscription_action env tx id owner version db ≡ (ok r, db')
      → Step env (record { now = tx.clock; db = db }) (record { now = tx.clock; db = db' })
  isa_inserted :
      (tx : Tx) (isa : IdentificationServiceArea)
      (r : Option IdentificationServiceArea × List Subscription) (db db' : Db)
      → insert_isa_action env tx isa db ≡ (ok r, db')
      → Step env (record { now = tx.clock; db = db }) (record { now = tx.clock; db = db' })
  isa_updated :
      (tx : Tx) (now : Time) (isa : IdentificationServiceArea)
      (r : Option IdentificationServiceArea × List Subscription) (db db' : Db)
      → update_isa_action env tx now isa db ≡ (ok r, db')
      → Step env (record { now = tx.clock; db = db }) (record { now = tx.clock; db = db' })
  isa_deleted :
      (tx : Tx) (id owner : String) (version : Option Version)
      (r : Option IdentificationServiceArea × List Subscription) (db db' : Db)
      → delete_isa_action env tx id owner version db ≡ (ok r, db')
      → Step env (record { now = tx.clock; db = db }) (record { now = tx.clock; db = db' })

-- Reached from tables without rows.
pub data Reachable (env : Platform) : Moment → Type 0 where
  empty :
      {now : Time}
      → Reachable env (record { now = now; db = record { areas = []; subscriptions = [] } })
  then : {a b : Moment} → Reachable env a → Step env a b → Reachable env b

module _ (env : Platform) (tx : Tx) where
  deleted :
      (s : Subscription) (r : Option Subscription) (db u : Db)
      → delete_subscription s db ≡ (ok r, u)
      → u.subscriptions ≡ delete_where (is_version s.id (to_timestamp s.version)) db.subscriptions
  unfolding delete_subscription
  deleted s r db u h = sym (ap (λ x. x.1.subscriptions) h)

  delete-Limited :
      (id owner : String) (version : Option Version) (db db' : Db) (r : Option Subscription)
      → delete_subscription_action env tx id owner version db ≡ (ok r, db')
      → Limited tx.clock db.subscriptions
      → Limited tx.clock db'.subscriptions
  unfolding delete_subscription_action
  delete-Limited id owner version db db' r h l o c =
      read_elim (get_subscription id) _ db (get_subscription-Leaves id) h λ read q1 h1.
        read_elim (lift (found read)) _ db (Leaves-lift _) h1 λ old q2 h2.
          read_elim (check_changeable version owner old) _ db
            (check_changeable-Leaves version owner old) h2
            λ unit q3 h3.
              subst (λ x. subscriptions_per_cell tx.clock o c x ≤ max_subscriptions_per_area)
                (sym (deleted old r db db' h3))
                (omega (
                  arith,
                  l o c,
                  count-delete_where tx.clock o c (is_version old.id (to_timestamp old.version))
                      db.subscriptions,
                ))

  notify-Limited :
      (cells : CellUnion) (subs : List Subscription) (db u : Db)
      → update_notification_idxs_in_cells tx cells db ≡ (ok subs, u)
      → Limited tx.clock db.subscriptions
      → Limited tx.clock u.subscriptions
  unfolding update_notification_idxs_in_cells
  notify-Limited cells subs db u h l o c =
      let rows : u.subscriptions
          ≡ update_where (in_cells cells tx.clock) increment db.subscriptions =
        ground arith in
      subst (λ x. subscriptions_per_cell tx.clock o c x ≤ max_subscriptions_per_area) (sym rows)
        (omega (
          arith,
          l o c,
          count-update_where tx.clock o c (in_cells cells tx.clock) increment db.subscriptions
              (weight-increment tx.clock o c),
        ))

  -- A change of the areas that leaves the subscriptions alone keeps the limit.
  kept :
      {A : Type 0} (m : Action Db Fault A) (a : A) (db u : Db)
      → Leaves (λ x. x.subscriptions) m
      → m db ≡ (ok a, u)
      → Limited tx.clock db.subscriptions
      → Limited tx.clock u.subscriptions
  kept m a db u leaves h l =
      subst (Limited tx.clock) (sym (leaves.at db) ∙ ap (λ x. x.1.subscriptions) h) l

  insert_isa-Limited :
      (isa : IdentificationServiceArea) (db db' : Db)
      (r : Option IdentificationServiceArea × List Subscription)
      → insert_isa_action env tx isa db ≡ (ok r, db')
      → Limited tx.clock db.subscriptions
      → Limited tx.clock db'.subscriptions
  unfolding insert_isa_action
  insert_isa-Limited isa db db' r h l =
      read_elim (get_isa isa.id) _ db (get_isa-Leaves isa.id) h λ old q1 h1.
        read_elim (fail_if _ (coded Code.already_exists)) _ db (Leaves-fail_if _ _) h1 λ unit q2 h2.
          bind_elim (update_notification_idxs_in_cells tx isa.cells) _ db h2 λ subs u q3 h3.
            bind_elim (insert_isa env tx isa) _ u h3 λ ret v q4 h4.
              subst (λ x. Limited tx.clock x.subscriptions) (ap (λ x. x.1) h4)
                (kept (insert_isa env tx isa) ret u v (insert_isa-Leaves env tx isa) q4
                  (notify-Limited isa.cells subs db u q3 l))

  update_isa-Limited :
      (now : Time) (isa : IdentificationServiceArea) (db db' : Db)
      (r : Option IdentificationServiceArea × List Subscription)
      → update_isa_action env tx now isa db ≡ (ok r, db')
      → Limited tx.clock db.subscriptions
      → Limited tx.clock db'.subscriptions
  unfolding update_isa_action
  update_isa-Limited now isa db db' r h l =
      read_elim (get_isa isa.id) _ db (get_isa-Leaves isa.id) h λ read q1 h1.
        read_elim (lift (Areas.found read)) _ db (Leaves-lift _) h1 λ old q2 h2.
          read_elim (check_updatable isa old) _ db (check_updatable-Leaves isa old) h2 λ unit q3 h3.
            read_elim (lift (adjust_isa_time_range now _ isa)) _ db (Leaves-lift _) h3 λ t q4 h4.
              bind_elim (update_isa env tx t) _ db h4 λ ret u q5 h5.
                bind_elim (update_notification_idxs_in_cells tx _) _ u h5 λ subs v q6 h6.
                  subst (λ x. Limited tx.clock x.subscriptions) (ap (λ x. x.1) h6)
                    (notify-Limited _ subs u v q6
                      (kept (update_isa env tx t) ret db u (update_isa-Leaves env tx t) q5 l))

  delete_isa-Limited :
      (id owner : String) (version : Option Version) (db db' : Db)
      (r : Option IdentificationServiceArea × List Subscription)
      → delete_isa_action env tx id owner version db ≡ (ok r, db')
      → Limited tx.clock db.subscriptions
      → Limited tx.clock db'.subscriptions
  unfolding delete_isa_action
  delete_isa-Limited id owner version db db' r h l =
      read_elim (get_isa id) _ db (get_isa-Leaves id) h λ read q1 h1.
        read_elim (lift (Areas.found read)) _ db (Leaves-lift _) h1 λ old q2 h2.
          read_elim (check_deletable version owner old) _ db
            (check_deletable-Leaves version owner old) h2
            λ unit q3 h3. bind_elim (delete_isa old) _ db h3 λ ret u q5 h5.
              bind_elim (update_notification_idxs_in_cells tx _) _ u h5 λ subs v q6 h6.
                subst (λ x. Limited tx.clock x.subscriptions) (ap (λ x. x.1) h6)
                  (notify-Limited _ subs u v q6
                    (kept (delete_isa old) ret db u (delete_isa-Leaves old) q5 l))

Step-Limited :
    (env : Platform) (a b : Moment)
    → Step env a b
    → Limited a.now a.db.subscriptions
    → Limited b.now b.db.subscriptions
Step-Limited env a b (passes now later db le) l =
    λ o c. omega (arith, l o c, count-later now later o c db.subscriptions le)
Step-Limited env a b (subscription_inserted tx s r db db' d h) l =
    insert-Limited env tx s db db' r h l d
Step-Limited env a b (subscription_updated tx now s r db db' d h) l =
    update-Limited env tx now s db db' r h l d
Step-Limited env a b (subscription_deleted tx id owner version r db db' h) l =
    delete-Limited env tx id owner version db db' r h l
Step-Limited env a b (isa_inserted tx isa r db db' h) l = insert_isa-Limited env tx isa db db' r h l
Step-Limited env a b (isa_updated tx now isa r db db' h) l =
    update_isa-Limited env tx now isa db db' r h l
Step-Limited env a b (isa_deleted tx id owner version r db db' h) l =
    delete_isa-Limited env tx id owner version db db' r h l

-- However transactions of the application follow on one another from empty tables, no owner ever has
-- more than ten subscriptions on a cell that have not ended, if no cell is twice in a covering.
pub Reachable-Limited :
    (env : Platform) (m : Moment) → Reachable env m → Limited m.now m.db.subscriptions
unfolding subscriptions_per_cell
Reachable-Limited env m empty = λ o c. omega arith
Reachable-Limited env m (then {a = a} r s) = Step-Limited env a m s (Reachable-Limited env a r)
