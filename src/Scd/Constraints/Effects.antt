-- ===== src/Scd/Constraints/Effects.antt =====
-- What a put or a deletion of a constraint that succeeds required, and what it does to the table.
use inter_uss_platform.Base.{
  ◌+◌, ◌%◌, none, ◌≡◌, ◌≢◌, ◌↔◌, ◌⊎◌, sym, ap, ◌∙◌, inl, inr, String, true, Option, some, Mem,
  str_eq, str_eq-true, str_eq_of_eq, arith,
}
use inter_uss_platform.Base.Tables.{upsert, delete_where, mem-upsert_iff, mem-delete_iff}
use inter_uss_platform.Base.Action.{Result, ok, err, lift, ok-injective, bind_elim}
use inter_uss_platform.Base.Action.Leaves.{Leaves-lift}
use inter_uss_platform.Api.{ChangeConstraintReferenceResponse}
use inter_uss_platform.Errors.{Code, Fault, coded}
use inter_uss_platform.Models.Platform.{Platform}
use inter_uss_platform.Scd.Models.Constraints.{Constraint}
use inter_uss_platform.Scd.Store.{ConstraintRow, Db, Tx}
use inter_uss_platform.Scd.Store.Frame.{others, search_subscriptions-Leaves}
use inter_uss_platform.Scd.Store.Runs.{read_elim}
use inter_uss_platform.Scd.Store.Subscriptions.{search_subscriptions}
use inter_uss_platform.Scd.Store.Constraints.{
  has_id, row_of, constraint_of, get_constraint, delete_constraint,
}
use inter_uss_platform.Scd.Store.Constraints.Reads.{get_constraint_of_mem, get_constraint_ok}
use inter_uss_platform.Scd.Constraints.Params.{
  ValidConstraintParams, optional, required, check_owned, check_previous, volume_of, next_version,
}
use inter_uss_platform.Scd.Constraints.Put.{get_previous, notify_constraint, put_action}
use inter_uss_platform.Scd.Constraints.Delete.{get_required, delete_constraint_action}
use inter_uss_platform.Scd.Constraints.Run.{
  Describes, get_required-Leaves, notify-Leaves, put_run, described,
}

module _ (env : Platform) (tx : Tx) where
  owned :
      (manager ovn : String) (c : Constraint)
      → check_owned manager ovn c ≡ ok tt
      → (c.manager ≡ manager) × (c.ovn ≡ ovn)
  unfolding check_owned
  owned manager ovn c h =
      let a : str_eq c.manager manager ≡ true = ground arith in
      let b : str_eq c.ovn ovn ≡ true = ground arith in
      (str_eq-true c.manager manager a, str_eq-true c.ovn ovn b)

  previous_of_mem :
      (id : String) (db : Db) (old : Option Constraint) (row : ConstraintRow)
      → get_previous env id db ≡ (ok old, db)
      → Mem row db.constraints
      → row.id ≡ id
      → old ≡ some (constraint_of env row)
  unfolding get_previous optional
  previous_of_mem id db old row h m e =
      elim (get_constraint_of_mem env id db row m (str_eq_of_eq row.id id e)) [
        | inl there ↦ ok-injective (sym (ap (λ x. x.0) h) ∙ ap optional there)
        | inr twice ↦ absurd (differ (sym (ap (λ x. x.0) h) ∙ ap optional twice))
      ]
    where
      differ : ¬ (◌≡◌ {A = Result Fault (Option Constraint)} (ok old) (err (coded Code.no_code)))
      differ q = cc

  optional-some :
      (r : Result Fault Constraint) (c : Constraint) → optional r ≡ ok (some c) → r ≡ ok c
  unfolding optional
  optional-some (ok a) c h = cc
  optional-some (err e) c h = absurd (ground arith)

  -- The version of a row: it follows that of the row it replaces, or is the first.
  abbrev pub Follows : Db → String → ConstraintRow → Type 0
  Follows db id row =
      ((previous : ConstraintRow)
        → Mem previous db.constraints
        → previous.id ≡ id
        → row.version ≡ (previous.version + 1) % 4294967296)
      × (((previous : ConstraintRow) → Mem previous db.constraints → previous.id ≢ id)
          → row.version ≡ 1)

  follows :
      (id : String) (db : Db) (old : Option Constraint) (c : Constraint)
      → get_previous env id db ≡ (ok old, db)
      → c.version ≡ next_version old
      → Follows db id (row_of tx c)
  unfolding row_of next_version constraint_of get_previous
  follows id db old c q v = (
    λ previous m i. v ∙ ap next_version (previous_of_mem id db old previous q m i),
    λ none_there. first old q v none_there,
  )
    where
      first :
          (x : Option Constraint)
          → get_previous env id db ≡ (ok x, db)
          → c.version ≡ next_version x
          → ((previous : ConstraintRow) → Mem previous db.constraints → previous.id ≢ id)
          → c.version ≡ 1
      first none r a n = a
      first (some x) r a n =
          let (previous, m, i, e) =
            get_constraint_ok env id db x (optional-some _ x (ap (λ y. y.0) r)) in
          absurd (n previous m i)

  -- After a put that succeeds, the constraints are one that the parameters describe in each column, owned
  -- by the caller, with the version after that of the constraint it replaces, and those there were under
  -- other identifiers; the operational intents are those before.
  pub put_replaces_only :
      (manager : String) (p : ValidConstraintParams) (db db' : Db)
      (r : ChangeConstraintReferenceResponse)
      → put_action env tx manager p db ≡ (ok r, db')
      → (row : ConstraintRow) × Describes env tx manager p row
        × Follows db p.id row
        × (db'.operations ≡ db.operations)
        × ((other : ConstraintRow)
            → Mem other db'.constraints
              ↔ ((other ≡ row) ⊎ ((other.id ≢ p.id) × Mem other db.constraints)))
  unfolding row_of
  put_replaces_only manager p db db' r h =
      let (old, c, q1, q2, q3, e) = put_run env tx manager p db db' r h in
      let (describes, version) = described env tx manager p old c q3 in
      let rows : db'.constraints ≡ upsert (has_id p.id) (row_of tx c) db.constraints =
        ap (λ x. x.1) e ∙ ap (λ j. upsert (has_id j) (row_of tx c) db.constraints) describes.0 in
      (
        row_of tx c,
        describes,
        follows p.id db old c q1 version,
        ap (λ x. x.0) e,
        λ other.
            mem-upsert_iff (λ x. x.id) p.id db.constraints db'.constraints other (row_of tx c) rows,
      )

  -- A put that succeeds on an identifier that is taken was made by the manager of that constraint, and
  -- the OVN it gave is the present one.
  pub put_fencing :
      (manager : String) (p : ValidConstraintParams) (db db' : Db)
      (r : ChangeConstraintReferenceResponse) (row : ConstraintRow)
      → put_action env tx manager p db ≡ (ok r, db')
      → Mem row db.constraints
      → row.id ≡ p.id
      → (row.owner ≡ manager) × ((constraint_of env row).ovn ≡ p.ovn)
  unfolding check_previous constraint_of
  put_fencing manager p db db' r row h m e =
      let (old, c, q1, q2, q3, f) = put_run env tx manager p db db' r h in
      owned manager p.ovn (constraint_of env row)
        (ap (check_previous manager p.ovn) (sym (previous_of_mem p.id db old row q1 m e)) ∙ q2)

  required_ok : (r : Result Fault Constraint) (c : Constraint) → required r ≡ ok c → r ≡ ok c
  unfolding required
  required_ok (ok a) c h = h
  required_ok (err e) c h = absurd (ground arith)

  deleted :
      (id : String) (db u : Db)
      → delete_constraint env id db ≡ (ok tt, u)
      → others u ≡ (db.operations, delete_where (has_id id) db.constraints, db.availabilities)
  unfolding delete_constraint
  deleted id db u h = ground arith

  -- The parts of a deletion that succeeded.
  pub delete_run :
      (client id ovn : String) (db db' : Db) (r : ChangeConstraintReferenceResponse)
      → delete_constraint_action env tx client id ovn db ≡ (ok r, db')
      → (old : Constraint) × ((get_constraint env id db).0 ≡ ok old)
        × ((old.manager ≡ client) × (old.ovn ≡ ovn))
        × (db'.constraints ≡ delete_where (has_id id) db.constraints)
  unfolding delete_constraint_action get_required
  delete_run client id ovn db db' r h =
      read_elim (get_required env tx id) _ db (get_required-Leaves env tx id) h λ old q1 h1.
        read_elim (lift (check_owned client ovn old)) _ db (Leaves-lift _) h1 λ unit q2 h2.
          read_elim (search_subscriptions env (volume_of old)) _ db
            (search_subscriptions-Leaves env (volume_of old)) h2
            λ all_subs q3 h3. bind_elim (delete_constraint env id) _ db h3 λ unit2 u q4 h4.
              bind_elim (notify_constraint env tx all_subs) _ u h4 λ subs w q5 h5. (
                old,
                required_ok _ old (ap (λ x. x.0) q1),
                owned client ovn old (ap (λ x. x.0) q2),
                sym (ap (λ x. x.1.constraints) h5)
                    ∙ sym (ap (λ x. x.1.constraints) q5)
                    ∙ ap (λ x. x.1) ((notify-Leaves env tx all_subs).at u)
                    ∙ ap (λ x. x.1) (deleted id db u q4),
              )

  -- A deletion that succeeds was asked for by the manager of the constraint with its present OVN, and it
  -- removes that constraint and no other.
  pub delete_constraint_removes_only :
      (client id ovn : String) (db db' : Db) (r : ChangeConstraintReferenceResponse)
      → delete_constraint_action env tx client id ovn db ≡ (ok r, db')
      → (row : ConstraintRow) × Mem row db.constraints
        × (row.id ≡ id)
        × (row.owner ≡ client)
        × ((constraint_of env row).ovn ≡ ovn)
        × ((other : ConstraintRow)
            → Mem other db'.constraints ↔ (Mem other db.constraints × (other.id ≢ id)))
  unfolding constraint_of
  delete_constraint_removes_only client id ovn db db' r h =
      let (old, q, (mine, current), rows) = delete_run client id ovn db db' r h in
      let (row, m, i, e) = get_constraint_ok env id db old q in
      (
        row,
        m,
        i,
        ap (λ c. c.manager) (sym e) ∙ mine,
        ap (λ c. c.ovn) (sym e) ∙ current,
        λ other. mem-delete_iff (λ x. x.id) id db.constraints db'.constraints other rows,
      )

  -- Each row with the identifier is the one that was read.
  pub deleted_owner :
      (client id ovn : String) (db db' : Db) (r : ChangeConstraintReferenceResponse)
      (row : ConstraintRow)
      → delete_constraint_action env tx client id ovn db ≡ (ok r, db')
      → Mem row db.constraints
      → row.id ≡ id
      → row.owner ≡ client
  unfolding constraint_of
  deleted_owner client id ovn db db' r row h m e =
      let (old, q, (mine, current), rows) = delete_run client id ovn db db' r h in
      elim (get_constraint_of_mem env id db row m (str_eq_of_eq row.id id e)) [
        | inl there ↦ ap (λ c. c.manager) (ok-injective (sym there ∙ q)) ∙ mine
        | inr twice ↦ absurd (differ old (sym q ∙ twice))
      ]
    where
      differ :
          (c : Constraint) → ¬ (◌≡◌ {A = Result Fault Constraint} (ok c) (err (coded Code.no_code)))
      differ c q = cc
