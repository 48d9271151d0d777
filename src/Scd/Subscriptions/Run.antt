-- ===== src/Scd/Subscriptions/Run.antt =====
-- The parts that a put of a subscription which succeeded went through.
use inter_uss_platform.Base.{◌≡◌, ap, ◌∙◌, String, Option, none, some, List, [], ◌∷◌}
use inter_uss_platform.Base.Action.{ok, lift, bind_elim}
use inter_uss_platform.Base.Action.Leaves.{Leaves, Leaves-lift, Leaves-bind, Leaves-pure}
use inter_uss_platform.Api.{PutSubscriptionResponse}
use inter_uss_platform.Models.Times.{Time}
use inter_uss_platform.Models.Platform.{Platform, CellUnion}
use inter_uss_platform.Models.Volumes.{Volume4D}
use inter_uss_platform.Scd.Models.Subscriptions.{Subscription, adjust_time_range}
use inter_uss_platform.Scd.Store.{Db, Tx}
use inter_uss_platform.Scd.Store.Frame.{
  reads, get_subscription-Leaves, get_operational_intent-Leaves,
}
use inter_uss_platform.Scd.Store.Runs.{read_elim}
use inter_uss_platform.Scd.Store.Subscriptions.{get_subscription, upsert_subscription}
use inter_uss_platform.Scd.Subscriptions.Params.{ValidSubscriptionParams, check_previous}
use inter_uss_platform.Scd.Subscriptions.Put.{
  get_operations, check_dependents, keep_index, search_on_cells, relevant_operations,
  constraint_refs, put_action,
}

module _ (env : Platform) where
  pub get_operations-Leaves :
      {T : Type 0} {part : Db → T} (ids : List String) → Leaves part (get_operations env ids)
  unfolding get_operations
  get_operations-Leaves [] = search reads
  get_operations-Leaves (id ∷ ids) =
      Leaves-bind _ _ (get_operational_intent-Leaves env id)
        λ o. Leaves-bind _ _ (get_operations-Leaves ids) λ rest. Leaves-pure _

  pub check_dependents-Leaves :
      {T : Type 0} {part : Db → T} (s : Subscription) (old : Option Subscription)
      → Leaves part (check_dependents env s old)
  unfolding check_dependents
  check_dependents-Leaves s none = search reads
  check_dependents-Leaves s (some old) = search (reads, get_operations-Leaves)

  search_on_cells-Leaves :
      {T : Type 0} {part : Db → T} (s : Subscription) (cells : CellUnion)
      → Leaves part (search_on_cells env s cells)
  unfolding search_on_cells
  search_on_cells-Leaves s [] = search reads
  search_on_cells-Leaves s (c ∷ cells) = search reads

  relevant_operations-Leaves :
      {T : Type 0} {part : Db → T} (s : Subscription) → Leaves part (relevant_operations env s)
  unfolding relevant_operations
  relevant_operations-Leaves s = search_on_cells-Leaves s s.cells

  constraint_refs-Leaves :
      {T : Type 0} {part : Db → T} (manager : String) (v : Volume4D) (s : Subscription)
      → Leaves part (constraint_refs env manager v s)
  unfolding constraint_refs
  constraint_refs-Leaves manager v s = search reads

  -- What a put that succeeded went through: what was there, the request with its times adjusted, and
  -- its dependents.
  pub record Committed (tx : Tx) (now : Time) (p : ValidSubscriptionParams) (db db' : Db)
      : Type 0 where
    pub old : Option Subscription
    pub subreq : Subscription
    pub dependents : List String
    pub old_ok : get_subscription env p.subreq.id db ≡ (ok old, db)
    pub adjusted : adjust_time_range now old p.subreq ≡ ok subreq
    pub allowed : check_previous subreq old ≡ ok tt
    pub checked : check_dependents env (keep_index env old subreq) old db ≡ (ok dependents, db)
    pub stored :
        (r : Subscription) × upsert_subscription env tx (keep_index env old subreq) db ≡ (ok r, db')

  pub put_run :
      (tx : Tx) (now : Time) (manager : String) (p : ValidSubscriptionParams) (db db' : Db)
      (r : PutSubscriptionResponse)
      → put_action env tx now manager p db ≡ (ok r, db')
      → Committed tx now p db db'
  unfolding put_action
  put_run tx now manager p db db' r h =
      read_elim (get_subscription env p.subreq.id) _ db (get_subscription-Leaves env _) h
        λ old q1 h1.
          read_elim (lift (adjust_time_range now old p.subreq)) _ db (Leaves-lift _) h1
            λ subreq q2 h2.
              read_elim (lift (check_previous subreq old)) _ db (Leaves-lift _) h2 λ unit q3 h3.
                read_elim (check_dependents env (keep_index env old subreq) old) _ db
                  (check_dependents-Leaves _ old) h3
                  λ dependents q4 h4.
                    bind_elim (upsert_subscription env tx (keep_index env old subreq)) _ db h4
                      λ sub u q5 h5.
                        read_elim (relevant_operations env sub) _ u (relevant_operations-Leaves sub)
                          h5
                          λ ops q6 h6.
                            read_elim (constraint_refs env manager p.extents sub) _ u
                              (constraint_refs-Leaves manager _ sub) h6
                              λ refs q7 h7. record {
                                old = old;
                                subreq = subreq;
                                dependents = dependents;
                                old_ok = q1;
                                adjusted = ap (λ x. x.0) q2;
                                allowed = ap (λ x. x.0) q3;
                                checked = q4;
                                stored = (sub, q5 ∙ ap (λ x. (ok sub, x.1)) h7);
                              }
