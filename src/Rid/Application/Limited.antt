-- ===== src/Rid/Application/Limited.antt =====
-- Each transaction keeps the number of subscriptions of an owner on a cell within the limit.
use inter_uss_platform.Base.{
  ℕ, ◌+◌, ◌≡◌, ◌≢◌, ◌≤◌, ◌<◌, refl, sym, ap, ◌∙◌, inl, inr, String, true, false, not, Option, none,
  some, List, [], ◌∷◌, ◌++◌, map, filter, Mem, mem-map, mem-filter, and_true, leb, str_eq,
  str_eq-true, str_eq-false, str_eq_of_ne, str_eq_of_eq, Bool-cases, arith, if◌then◌else◌,
}
use mathlib.Core.Path.{subst}
use inter_uss_platform.Base.Tables.{update_where}
use inter_uss_platform.Base.Action.{ok, fail_if, lift, ok-injective}
use inter_uss_platform.Base.Action.Leaves.{Leaves-lift, Leaves-fail_if}
use inter_uss_platform.Base.Action.Runs.{read_elim, passed}
use inter_uss_platform.Errors.{Code, coded, some-injective, >>=-elim}
use inter_uss_platform.Models.Times.{Time}
use inter_uss_platform.Models.TimeRanges.{adjust_range}
use inter_uss_platform.Models.Platform.{Platform, CellId, CellUnion}
use inter_uss_platform.Scd.Store.Reads.{at_most_one_of_mem}
use inter_uss_platform.Models.Versions.{Version, matches, to_timestamp}
use inter_uss_platform.Scd.Store.{at_most_one}
use inter_uss_platform.Rid.Models.{Subscription, adjust_subscription_time_range}
use inter_uss_platform.Rid.Store.{SubscriptionRow, Db, Tx}
use inter_uss_platform.Rid.Store.Subscriptions.{
  is_current, occurrences, subscriptions_per_cell, greatest, row_of, updated_row, is_version,
  has_id, max_subscription_count_in_cells_by_owner, get_subscription, insert_subscription,
  update_subscription, subscription_of,
}
use inter_uss_platform.Rid.Application.Subscriptions.{
  max_subscriptions_per_area, found, check_changeable, check_count, insert_subscription_action,
  update_subscription_action,
}
use inter_uss_platform.Rid.Application.Frame.{
  get_subscription-Leaves, max_count-Leaves, check_changeable-Leaves, check_count-Leaves,
}
use inter_uss_platform.Rid.Application.Limit.{
  weight, count-append, count-update_one, mem_of_occurrences, mem-le-greatest,
}

-- No owner has more subscriptions on a cell than the limit, of those that have not ended.
abbrev pub Limited : Time → List SubscriptionRow → Type 0
Limited now rows =
    (owner : String) (c : CellId)
    → subscriptions_per_cell now owner c rows ≤ max_subscriptions_per_area

-- No cell is twice among the cells, as in each covering.
abbrev pub Distinct : CellUnion → Type 0
Distinct cells = (c : CellId) → occurrences c cells ≤ 1

module _ (env : Platform) (tx : Tx) where
  -- What the check on the number tells.
  counted :
      (s : Subscription) (db u : Db) (c : CellId)
      → check_count env tx s db ≡ (ok tt, u)
      → 1 ≤ occurrences c s.cells
      → subscriptions_per_cell tx.clock s.owner c db.subscriptions < max_subscriptions_per_area
  unfolding check_count max_subscription_count_in_cells_by_owner
  counted s db u c h o =
      read_elim (max_subscription_count_in_cells_by_owner tx s.cells s.owner) _ db
        (max_count-Leaves tx s.cells s.owner) h
        λ n q k.
          let n_is : greatest
                (map (λ d. subscriptions_per_cell tx.clock s.owner d db.subscriptions) s.cells)
              ≡ n =
            ok-injective (ap (λ x. x.0) q) in
          let below : leb max_subscriptions_per_area n ≡ false =
            passed _ (coded Code.exhausted) db u k in
          let le = mem-le-greatest (subscriptions_per_cell tx.clock s.owner c db.subscriptions) _ (
            mem-map (λ d. subscriptions_per_cell tx.clock s.owner d db.subscriptions) s.cells c
              (mem_of_occurrences c s.cells o)) in
          ground (arith, le, n_is, below)

  -- A table with one row more, after the check.
  within :
      (s : Subscription) (db u : Db) (owner : String) (c : CellId) (w : ℕ)
      → check_count env tx s db ≡ (ok tt, u)
      → Limited tx.clock db.subscriptions
      → Distinct s.cells
      → w ≤ occurrences c s.cells
      → (owner ≢ s.owner → w ≡ 0)
      → subscriptions_per_cell tx.clock owner c db.subscriptions + w ≤ max_subscriptions_per_area
  within s db u owner c w h l d k other = elim (Bool-cases (str_eq owner s.owner)) [
    | inl e ↦ elim (Bool-cases (leb 1 (occurrences c s.cells))) [
      | inl o ↦
          let room = counted s db u c h (ground arith) in
          ground (
            arith,
            d c,
            subst
                (λ x.
                  subscriptions_per_cell tx.clock x c db.subscriptions < max_subscriptions_per_area)
                (sym (str_eq-true owner s.owner e)) room,
          )
      | inr o ↦ ground (arith, l owner c)
    ]
    | inr e ↦ omega (arith, l owner c, other (str_eq-false owner s.owner e))
  ]

  weight-bound :
      (r : SubscriptionRow) (owner : String) (c : CellId)
      → weight tx.clock owner c r ≤ occurrences c r.cells
  unfolding weight
  weight-bound r owner c = ground arith

  weight_other :
      (r : SubscriptionRow) (owner : String) (c : CellId)
      → r.owner ≢ owner
      → weight tx.clock owner c r ≡ 0
  unfolding weight is_current
  weight_other r owner c ne = rw (str_eq_of_ne r.owner owner ne) refl

  inserted :
      (s : Subscription) (r : Option Subscription) (db u : Db)
      → insert_subscription env tx s db ≡ (ok r, u)
      → u.subscriptions ≡ db.subscriptions ++ row_of tx s ∷ []
  unfolding insert_subscription
  inserted s r db u h = ground arith

  -- An insertion of a subscription that succeeds keeps the limit.
  pub insert-Limited :
      (s : Subscription) (db db' : Db) (r : Option Subscription)
      → insert_subscription_action env tx s db ≡ (ok r, db')
      → Limited tx.clock db.subscriptions
      → Distinct s.cells
      → Limited tx.clock db'.subscriptions
  unfolding insert_subscription_action row_of
  insert-Limited s db db' r h l d owner c =
      read_elim (get_subscription s.id) _ db (get_subscription-Leaves s.id) h λ old q1 h1.
        read_elim (fail_if _ (coded Code.already_exists)) _ db (Leaves-fail_if _ _) h1 λ unit q2 h2.
          read_elim (check_count env tx s) _ db (check_count-Leaves env tx s) h2 λ unit3 q3 h3.
            let new = row_of tx s in
            let room =
              within s db db owner c (weight tx.clock owner c new) q3 l d (weight-bound new owner c)
                (λ ne. weight_other new owner c (λ e. ne (sym e))) in
            subst
              (λ rows. subscriptions_per_cell tx.clock owner c rows ≤ max_subscriptions_per_area)
              (sym (inserted s r db db' h3))
              (omega (arith, room, count-append tx.clock owner c db.subscriptions new))

  found_ok : (o : Option Subscription) (s : Subscription) → found o ≡ ok s → o ≡ some s
  unfolding found
  found_ok none s h = absurd (cc)
  found_ok (some t) s h = cc

  pub owned :
      (version : Option Version) (owner : String) (old : Subscription) (db u : Db)
      → check_changeable version owner old db ≡ (ok tt, u)
      → (old.owner ≡ owner) × (matches version old.version ≡ true)
  unfolding check_changeable
  owned version owner old db u h =
      read_elim (fail_if (not (matches version old.version)) (coded Code.version_mismatch)) _ db
        (Leaves-fail_if _ _) h
        λ unit q k.
          let other = passed _ (coded Code.permission_denied) db u k in
          let stale = passed _ (coded Code.version_mismatch) db db q in
          let same : str_eq old.owner owner ≡ true = ground arith in
          (str_eq-true old.owner owner same, ground arith)

  -- The row of the subscription that was read.
  pub row_owner :
      (id : String) (old : Subscription) (db u : Db) (r : SubscriptionRow)
      → get_subscription id db ≡ (ok (some old), u)
      → Mem r db.subscriptions
      → r.id ≡ id
      → old ≡ subscription_of r
  unfolding get_subscription
  row_owner id old db u r h m e = some-injective (
      at_most_one_of_mem subscription_of (filter (has_id id) db.subscriptions) (some old) r
        (ap (λ x. x.0) h) (mem-filter (has_id id) db.subscriptions r (str_eq_of_eq r.id id e) m))

  updated :
      (s : Subscription) (r : Option Subscription) (db u : Db)
      → update_subscription env tx s db ≡ (ok r, u)
      → (at_most_one (
            map
              (λ x. subscription_of (updated_row tx s x))
              (filter (is_version s.id (to_timestamp s.version)) db.subscriptions))
          ≡ ok r)
        × (u.subscriptions
            ≡ update_where
                (is_version s.id (to_timestamp s.version))
                (updated_row tx s)
                db.subscriptions)
  unfolding update_subscription
  updated s r db u h = ground arith

  adjusted_as :
      (now : Time) (old s t : Subscription)
      → adjust_subscription_time_range now (some old) s ≡ ok t
      → (t.id ≡ s.id) × (t.owner ≡ s.owner) × (t.cells ≡ s.cells)
  unfolding adjust_subscription_time_range
  adjusted_as now old s t h = >>=-elim (adjust_range now s.start_time s.end_time _) _ h λ r q k.
      let e = ok-injective (sym k) in (ap (λ x. x.id) e, ap (λ x. x.owner) e, ap (λ x. x.cells) e)

  is_version_id :
      (id : String) (t : Time) (r : SubscriptionRow) → is_version id t r ≡ true → r.id ≡ id
  unfolding is_version
  is_version_id id t r h = str_eq-true r.id id (and_true _ _ h).0

  weight-updated :
      (t : Subscription) (x : SubscriptionRow) (owner : String) (c : CellId)
      → x.owner ≡ t.owner
      → weight tx.clock owner c (updated_row tx t x)
        ≤ (if str_eq owner t.owner then occurrences c t.cells else 0)
  unfolding weight updated_row is_current
  weight-updated t x owner c e = elim (Bool-cases (str_eq x.owner owner)) [
    | inl same ↦
        rw (same, str_eq_of_eq owner t.owner (sym (str_eq-true x.owner owner same) ∙ e))
          (ground arith)
    | inr other ↦ rw other (ground arith)
  ]

  -- An update of a subscription that succeeds keeps the limit.
  pub update-Limited :
      (now : Time) (s : Subscription) (db db' : Db) (r : Option Subscription)
      → update_subscription_action env tx now s db ≡ (ok r, db')
      → Limited tx.clock db.subscriptions
      → Distinct s.cells
      → Limited tx.clock db'.subscriptions
  unfolding update_subscription_action updated_row subscription_of
  update-Limited now s db db' r h l d owner c =
      read_elim (get_subscription s.id) _ db (get_subscription-Leaves s.id) h λ read q1 h1.
        read_elim (lift (found read)) _ db (Leaves-lift _) h1 λ old q2 h2.
          read_elim (check_changeable s.version s.owner old) _ db
            (check_changeable-Leaves s.version s.owner old) h2
            λ unit q3 h3.
              read_elim (lift (adjust_subscription_time_range now (some old) s)) _ db
                (Leaves-lift _) h3
                λ t q4 h4.
                  read_elim (check_count env tx t) _ db (check_count-Leaves env tx t) h4
                    λ unit5 q5 h5.
                      let (one, rows) = updated t r db db' h5 in
                      let (i, o, cells) = adjusted_as now old s t (ap (λ x. x.0) q4) in
                      let mine = (owned s.version s.owner old db db q3).0 in
                      let there =
                        q1 ∙ ap (λ x. (ok x, db)) (found_ok read old (ap (λ x. x.0) q2)) in
                      let w = if str_eq owner t.owner then occurrences c t.cells else 0 in
                      let room =
                        within t db db owner c w q5 l
                          (λ x. subst (λ y. occurrences x y ≤ 1) (sym cells) (d x)) (ground arith)
                          (λ ne. rw (str_eq_of_ne owner t.owner ne) refl) in
                      subst
                        (λ x.
                          subscriptions_per_cell tx.clock owner c x ≤ max_subscriptions_per_area)
                        (sym rows)
                        (omega (
                          arith,
                          room,
                          count-update_one tx.clock owner c
                              (λ x. subscription_of (updated_row tx t x))
                              (is_version t.id (to_timestamp t.version)) (updated_row tx t) w
                              db.subscriptions r one
                              (λ x m e.
                                let id_is : x.id ≡ s.id =
                                  is_version_id t.id (to_timestamp t.version) x e ∙ i in
                                weight-updated t x owner c (
                                  sym (ap (λ y. y.owner) (row_owner s.id old db db x there m id_is))
                                  ∙ mine
                                  ∙ sym o)),
                        ))
