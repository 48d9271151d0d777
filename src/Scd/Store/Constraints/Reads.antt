-- ===== src/Scd/Store/Constraints/Reads.antt =====
-- What a read of a constraint by identifier returns.
use inter_uss_platform.Base.{
  ◌≡◌, ◌⊎◌, inl, inr, refl, ap, sym, String, true, List, [], ◌∷◌, map, filter, Mem, mem-filter,
  mem-filter_inv, str_eq-true,
}
use inter_uss_platform.Base.Action.{ok, err}
use inter_uss_platform.Errors.{Code, coded}
use inter_uss_platform.Models.Platform.{Platform}
use inter_uss_platform.Scd.Models.Constraints.{Constraint}
use inter_uss_platform.Scd.Store.{ConstraintRow, Db}
use inter_uss_platform.Scd.Store.Constraints.{has_id, constraint_of, exactly_one, get_constraint}

module _ (env : Platform) where
  exactly_one_of_mem :
      (xs : List ConstraintRow) (a : ConstraintRow)
      → Mem a xs
      → (exactly_one env (map (constraint_of env) xs) ≡ ok (constraint_of env a))
        ⊎ (exactly_one env (map (constraint_of env) xs) ≡ err (coded Code.no_code))
  unfolding exactly_one
  exactly_one_of_mem [] a m = elim m [ ]
  exactly_one_of_mem (x ∷ []) a (inl e) = inl (ap (λ y. ok (constraint_of env y)) (sym e))
  exactly_one_of_mem (x ∷ []) a (inr m) = elim m [ ]
  exactly_one_of_mem (x ∷ y ∷ rest) a m = inr refl

  exactly_one_ok :
      (xs : List ConstraintRow) (c : Constraint)
      → exactly_one env (map (constraint_of env) xs) ≡ ok c
      → (a : ConstraintRow) × Mem a xs × (c ≡ constraint_of env a)
  unfolding exactly_one
  exactly_one_ok [] c h = absurd (cc)
  exactly_one_ok (x ∷ []) c h = (x, inl refl, cc)
  exactly_one_ok (x ∷ y ∷ rest) c h = absurd (cc)

  -- If a row has the identifier, a read returns it or fails on a second one.
  pub get_constraint_of_mem :
      (id : String) (db : Db) (a : ConstraintRow)
      → Mem a db.constraints
      → has_id id a ≡ true
      → ((get_constraint env id db).0 ≡ ok (constraint_of env a))
        ⊎ ((get_constraint env id db).0 ≡ err (coded Code.no_code))
  unfolding get_constraint
  get_constraint_of_mem id db a m h =
      exactly_one_of_mem (filter (has_id id) db.constraints) a
        (mem-filter (has_id id) db.constraints a h m)

  -- A constraint that was read has its row.
  pub get_constraint_ok :
      (id : String) (db : Db) (c : Constraint)
      → (get_constraint env id db).0 ≡ ok c
      → (a : ConstraintRow) × Mem a db.constraints × (a.id ≡ id) × (c ≡ constraint_of env a)
  unfolding get_constraint
  get_constraint_ok id db c h =
      let (a, m, e) = exactly_one_ok (filter (has_id id) db.constraints) c h in
      let (q, k) = mem-filter_inv (has_id id) db.constraints a m in (a, k, str_eq-true a.id id q, e)
