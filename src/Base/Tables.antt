-- ===== src/Base/Tables.antt =====
-- Tables with a primary key, as lists of rows, and the statements that write them. SQL leaves the
-- order of the rows open, and so an upserted row may stand anywhere.
use mathlib.Core.Bool.{Bool, true, false, not}
use Prim.Native.String.{String}
use mathlib.Core.List.{List, [], ◌∷◌, ◌++◌}
use mathlib.Core.Logic.{◌≢◌, ◌⊎◌, ◌↔◌, inl, inr}
use mathlib.Core.Path.{◌≡◌, refl, sym, ap, subst, ◌∙◌}
use native.Mathlib.Omega.{arith}
use inter_uss_platform.Base.Tests.{if◌then◌else◌, Bool-cases, str_eq, str_eq_of_ne, str_eq-false}
use inter_uss_platform.Base.Lists.{
  filter, any, Mem, mem-filter, mem-filter_inv, mem-append_left, mem-append_right, mem-append_cases,
}

module _ {ℓ} {A : Type ℓ} where
  -- `DELETE FROM … WHERE p`
  unfoldable pub delete_where : (A → Bool) → List A → List A
  delete_where p xs = filter (λ x. not (p x)) xs

  -- `UPSERT`, where `same` selects the rows with the key of the new row
  unfoldable pub upsert : (A → Bool) → A → List A → List A
  unfolding delete_where
  upsert same row xs = delete_where same xs ++ row ∷ []

  -- `UPDATE … SET … WHERE p`
  unfoldable pub update_where : (A → Bool) → (A → A) → List A → List A
  update_where p f [] = []
  update_where p f (x ∷ xs) = (if p x then f x else x) ∷ update_where p f xs

  filter-append : (p : A → Bool) (xs ys : List A) → filter p (xs ++ ys) ≡ filter p xs ++ filter p ys
  unfolding filter
  filter-append p [] ys = refl
  filter-append p (x ∷ xs) ys = ground (arith, filter-append p xs ys)

  filter-filter-not : (p : A → Bool) (xs : List A) → filter p (filter (λ x. not (p x)) xs) ≡ []
  unfolding filter
  filter-filter-not p [] = refl
  filter-filter-not p (x ∷ xs) = elim (Bool-cases (p x)) [
    | inl e ↦ rw e (filter-filter-not p xs)
    | inr e ↦ rw e (rw e (filter-filter-not p xs))
  ]

  -- After an upsert, the row with that key is the new one.
  pub filter-upsert_self :
      (same : A → Bool) (row : A) (xs : List A)
      → same row ≡ true
      → filter same (upsert same row xs) ≡ row ∷ []
  unfolding upsert
  filter-upsert_self same row xs h =
      filter-append same (filter (λ x. not (same x)) xs) (row ∷ [])
      ∙ rw filter-filter-not (unfold filter in rw h)

  -- A row with another key is there after the upsert exactly if it was there before.
  pub mem-upsert :
      (same : A → Bool) (row : A) (xs : List A) (a : A)
      → same a ≡ false
      → Mem a xs
      → Mem a (upsert same row xs)
  unfolding upsert
  mem-upsert same row xs a h m =
      mem-append_left _ (row ∷ []) a (mem-filter (λ x. not (same x)) xs a (rw h) m)

  pub mem-upsert_self : (same : A → Bool) (row : A) (xs : List A) → Mem row (upsert same row xs)
  unfolding upsert
  mem-upsert_self same row xs =
      mem-append_right (filter (λ x. not (same x)) xs) (row ∷ []) row (inl refl)

  pub mem-upsert_inv :
      (same : A → Bool) (row : A) (xs : List A) (a : A)
      → Mem a (upsert same row xs)
      → (a ≡ row) ⊎ ((same a ≡ false) × Mem a xs)
  unfolding upsert
  mem-upsert_inv same row xs a m =
      elim (mem-append_cases (filter (λ x. not (same x)) xs) (row ∷ []) a m) [
        | inl old ↦
            let (q, k) = mem-filter_inv (λ x. not (same x)) xs a old in inr (ground arith, k)
        | inr (inl e) ↦ inl e
        | inr (inr never) ↦ elim never [ ]
      ]

  pub mem-delete_where :
      (p : A → Bool) (xs : List A) (a : A) → p a ≡ false → Mem a xs → Mem a (delete_where p xs)
  unfolding delete_where
  mem-delete_where p xs a h m = mem-filter (λ x. not (p x)) xs a (rw h) m

  pub mem-delete_where_inv :
      (p : A → Bool) (xs : List A) (a : A) → Mem a (delete_where p xs) → (p a ≡ false) × Mem a xs
  unfolding delete_where
  mem-delete_where_inv p xs a m =
      let (q, k) = mem-filter_inv (λ x. not (p x)) xs a m in (ground arith, k)

  -- The rows after an update are those before, each one changed if the condition holds of it.
  pub mem-update_where :
      (p : A → Bool) (f : A → A) (xs : List A) (a : A)
      → Mem a xs
      → Mem (if p a then f a else a) (update_where p f xs)
  unfolding update_where
  mem-update_where p f [] a m = elim m [ ]
  mem-update_where p f (x ∷ xs) a (inl e) = inl (ap (λ y. if p y then f y else y) e)
  mem-update_where p f (x ∷ xs) a (inr m) = inr (mem-update_where p f xs a m)

  pub mem-update_where_inv :
      (p : A → Bool) (f : A → A) (xs : List A) (b : A)
      → Mem b (update_where p f xs)
      → (a : A) × Mem a xs × (b ≡ (if p a then f a else a))
  unfolding update_where
  mem-update_where_inv p f [] b m = elim m [ ]
  mem-update_where_inv p f (x ∷ xs) b (inl e) = (x, inl refl, e)
  mem-update_where_inv p f (x ∷ xs) b (inr m) =
      let (a, k, e) = mem-update_where_inv p f xs b m in (a, inr k, e)

-- The rows `ys` after a statement that selects by a text key.
module _ {ℓ} {A : Type ℓ} (id : A → String) (key : String) (xs ys : List A) (a : A) where
  has_key : A → Bool
  has_key r = str_eq (id r) key

  pub mem-upsert_iff :
      (row : A)
      → ys ≡ upsert (λ r. str_eq (id r) key) row xs
      → Mem a ys ↔ ((a ≡ row) ⊎ ((id a ≢ key) × Mem a xs))
  unfolding has_key
  mem-upsert_iff row rows = (
    λ m. elim (mem-upsert_inv has_key row xs a (subst (Mem a) rows m)) [
      | inl e ↦ inl e
      | inr k ↦ inr (str_eq-false (id a) key k.0, k.1)
    ],
    λ s. subst (Mem a) (sym rows) (elim s [
      | inl e ↦ subst (λ b. Mem b (upsert has_key row xs)) (sym e) (mem-upsert_self has_key row xs)
      | inr k ↦ mem-upsert has_key row xs a (str_eq_of_ne (id a) key k.0) k.1
    ]),
  )

  pub mem-delete_iff :
      ys ≡ delete_where (λ r. str_eq (id r) key) xs → Mem a ys ↔ (Mem a xs × (id a ≢ key))
  unfolding has_key
  mem-delete_iff rows = (
    λ m.
        let (q, k) = mem-delete_where_inv has_key xs a (subst (Mem a) rows m) in
        (k, str_eq-false (id a) key q),
    λ k. subst (Mem a) (sym rows) (mem-delete_where has_key xs a (str_eq_of_ne (id a) key k.1) k.0),
  )

-- A deletion of the row that was added last.
pub delete_where-append_new {ℓ} :
    {A : Type ℓ} (p : A → Bool) (xs : List A) (x : A)
    → any p xs ≡ false
    → p x ≡ true
    → delete_where p (xs ++ x ∷ []) ≡ xs
unfolding delete_where filter any
delete_where-append_new p [] x h e = rw e refl
delete_where-append_new p (y ∷ ys) x h e = elim (Bool-cases (p y)) [
  | inl f ↦ absurd (ground arith)
  | inr f ↦ rw f (ap (λ l. y ∷ l) (delete_where-append_new p ys x (ground arith) e))
]
