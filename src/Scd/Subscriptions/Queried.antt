-- ===== src/Scd/Subscriptions/Queried.antt =====
-- What a query of subscriptions returns.
use inter_uss_platform.Base.{
  ◌≡◌, ◌≤◌, ◌↔◌, refl, sym, ap, ◌∙◌, inl, inr, String, Bool, true, false, not, ◌&&◌, some, List, [],
  ◌∷◌, map, filter, length, Mem, mem-append_left, mem-append_right, mem-append_cases, str_eq,
  str_eq-true, str_eq_of_eq, arith, if◌then◌else◌,
}
use mathlib.Core.Path.{subst}
use inter_uss_platform.Base.Action.{ok, lift, pure, ok-injective, ◌>>=◌}
use inter_uss_platform.Base.Action.Leaves.{Leaves, Leaves-lift, Leaves-bind, Leaves-pure}
use inter_uss_platform.Api
use inter_uss_platform.Errors.{deref, deref-eq-ok, some-injective}
use inter_uss_platform.Models.Times.{Time, before}
use inter_uss_platform.Models.Platform.{Platform, CellUnion}
use inter_uss_platform.Models.Volumes.{Volume4D, calculate_spatial_covering}
use inter_uss_platform.Scd.Models.Subscriptions.{Subscription, to_rest}
use inter_uss_platform.Scd.Store.{SubscriptionRow, Db, max_result_limit}
use inter_uss_platform.Scd.Store.Frame.{reads, search_subscriptions-Leaves}
use inter_uss_platform.Scd.Store.Search.{search_subscriptions_finds, search_subscriptions_only}
use inter_uss_platform.Scd.Store.Runs.{read_elim}
use inter_uss_platform.Scd.Store.Subscriptions.{in_volume, subscription_of, search_subscriptions}
use inter_uss_platform.Scd.Store.OperationalIntents.{depends_on, get_dependent_operational_intents}
use inter_uss_platform.Scd.Subscriptions.Read.{items_of, current_ones, query_action}

-- The subscription is that of the client and has not ended, and the item is what it reads as.
abbrev pub Shown : Platform → Time → String → Db → Subscription → Api.Subscription → Type 0
Shown env now client db sub item =
    (end : Time) × (sub.end_time ≡ some end)
    × (now ≤ end)
    × (sub.manager ≡ client)
    × (item ≡ to_rest env sub (map (λ r. r.id) (filter (depends_on sub.id) db.operations)))

module _ (env : Platform) (now : Time) (client : String) (db : Db) where
  items_of-Leaves :
      {T : Type 0} {part : Db → T} (sub : Subscription) → Leaves part (items_of env now client sub)
  unfolding items_of
  items_of-Leaves sub = search reads

  current_ones-Leaves :
      {T : Type 0} {part : Db → T} (subs : List Subscription)
      → Leaves part (current_ones env now client subs)
  unfolding current_ones
  current_ones-Leaves [] = Leaves-pure _
  current_ones-Leaves (sub ∷ subs) =
      Leaves-bind _ _ (items_of-Leaves sub)
        λ items. Leaves-bind _ _ (current_ones-Leaves subs) λ rest. Leaves-pure _

  Shown-chosen :
      (sub : Subscription) (end : Time) (item : Api.Subscription)
      → sub.end_time ≡ some end
      → Shown env now client db sub item
      → ¬ (not (before end now) && str_eq sub.manager client ≡ false)
  unfolding before
  Shown-chosen sub end item e (t, e2, le, mine, q) h =
      let late : now ≤ end = subst (λ x. now ≤ x) (some-injective (sym e2 ∙ e)) le in
      let owned : str_eq sub.manager client ≡ true = str_eq_of_eq sub.manager client mine in
      ground arith

  chosen-Shown :
      (b : Bool) (sub : Subscription) (end : Time) (items : List Api.Subscription)
      (item : Api.Subscription) (u : Db)
      → (not (before end now) && str_eq sub.manager client) ≡ b
      → sub.end_time ≡ some end
      → (if b
            then (get_dependent_operational_intents env sub.id >>= λ dependents.
                pure (to_rest env sub dependents ∷ []))
            else pure [])
          db
        ≡ (ok items, u)
      → Mem item items ↔ Shown env now client db sub item
  unfolding get_dependent_operational_intents before ◌>>=◌
  chosen-Shown true sub end items item u h e k =
      let at_end : now ≤ end = ground arith in
      let mine : str_eq sub.manager client ≡ true = ground arith in
      (
        λ m. elim (subst (Mem item) (ok-injective (sym (ap (λ x. x.0) k))) m) [
          | inl q ↦ (end, e, at_end, str_eq-true sub.manager client mine, q)
          | inr n ↦ elim n [ ]
        ],
        λ s. subst (Mem item) (ok-injective (ap (λ x. x.0) k)) (inl s.4),
      )
  chosen-Shown false sub end items item u h e k = (
    λ m. elim (subst (Mem item) (ok-injective (sym (ap (λ x. x.0) k))) m) [ ],
    λ s. absurd (Shown-chosen sub end item e s h),
  )

  items_of-Shown :
      (sub : Subscription) (items : List Api.Subscription) (item : Api.Subscription) (u : Db)
      → items_of env now client sub db ≡ (ok items, u)
      → Mem item items ↔ Shown env now client db sub item
  unfolding items_of
  items_of-Shown sub items item u h =
      read_elim (lift (deref sub.end_time)) _ db (Leaves-lift _) h λ end q k.
        chosen-Shown (not (before end now) && str_eq sub.manager client) sub end items item u refl
          (deref-eq-ok sub.end_time end (ap (λ x. x.0) q)) k

  current_ones-Shown :
      (subs : List Subscription) (items : List Api.Subscription) (item : Api.Subscription) (u : Db)
      → current_ones env now client subs db ≡ (ok items, u)
      → Mem item items ↔ ((sub : Subscription) × Mem sub subs × Shown env now client db sub item)
  unfolding current_ones
  current_ones-Shown [] items item u h =
      (λ m. elim (subst (Mem item) (sym (ok-injective (ap (λ x. x.0) h))) m) [ ], λ s. elim s.1 [ ])
  current_ones-Shown (sub ∷ subs) items item u h =
      read_elim (items_of env now client sub) _ db (items_of-Leaves sub) h λ first q1 h1.
        read_elim (current_ones env now client subs) _ db (current_ones-Leaves subs) h1
          λ rest q2 h2.
            let one = items_of-Shown sub first item db q1 in
            let others = current_ones-Shown subs rest item db q2 in
            let all_items = ok-injective (ap (λ x. x.0) h2) in
            (
              λ m. elim (mem-append_cases first rest item (subst (Mem item) (sym all_items) m)) [
                | inl k ↦ (sub, inl refl, one.0 k)
                | inr k ↦ let s = others.0 k in (s.0, inr s.1, s.2)
              ],
              λ s. subst (Mem item) all_items (elim s.1 [
                | inl e ↦
                    mem-append_left first rest item
                      (one.1 (subst (λ x. Shown env now client db x item) e s.2))
                | inr k ↦ mem-append_right first rest item (others.1 (s.0, k, s.2))
              ]),
            )

-- A query of subscriptions that succeeds returns those in the volume that the client manages and that
-- have not ended, each with the operational intents that depend on it, and no other.
pub query_subscriptions_shows :
    (env : Platform) (now : Time) (client : String) (v : Volume4D) (cells : CellUnion) (db db' : Db)
    (items : List Api.Subscription) (item : Api.Subscription)
    → query_action env now client v db ≡ (ok items, db')
    → calculate_spatial_covering env v ≡ ok cells
    → length (filter (in_volume cells v) db.subscriptions) ≤ max_result_limit
    → Mem item items ↔ (
        (row : SubscriptionRow) × Mem row db.subscriptions
        × (in_volume cells v row ≡ true)
        × Shown env now client db (subscription_of env row) item)
unfolding query_action
query_subscriptions_shows env now client v cells db db' items item h c l =
    read_elim (search_subscriptions env v) _ db (search_subscriptions-Leaves env v) h λ subs q k.
      let shown = current_ones-Shown env now client db subs items item db' k in
      (
        λ m.
            let (sub, n, s) = shown.0 m in
            let (row, e, i, inside) = search_subscriptions_only env v cells db db subs sub q c n in
            (row, i, inside, subst (λ x. Shown env now client db x item) e s),
        λ s. shown.1 (
          subscription_of env s.0,
          search_subscriptions_finds env v cells db db subs s.0 q c l s.1 s.2,
          s.3,
        ),
      )
