-- ===== src/Base/Keyed.antt =====
-- A table as a map: the first row with a key, before and after a statement that selects by a key.
use Prim.Native.String.{String}
use mathlib.Core.Bool.{true, false}
use mathlib.Core.List.{List, [], ◌∷◌, ◌++◌}
use mathlib.Core.Logic.{inl, inr}
use mathlib.Core.Option.{Option, none, some}
use mathlib.Core.Path.{◌≡◌, refl, sym, ap, ◌∙◌}
use native.Mathlib.Omega.{arith}
use inter_uss_platform.Base.Tests.{
  if◌then◌else◌, Bool-cases, str_eq, str_eq-true, str_eq_of_eq, str_eq_of_ne, str_eq-false,
}
use inter_uss_platform.Base.Lists.{filter, find, Mem}
use inter_uss_platform.Base.Tables.{delete_where, upsert}

module _ {A : Type 0} (id : A → String) where
  pub with_key : String → List A → Option A
  with_key key xs = find (λ r. str_eq (id r) key) xs

  -- What is found has the key, and stands in the table.
  pub with_key-some :
      (key : String) (xs : List A) (a : A) → with_key key xs ≡ some a → Mem a xs × (id a ≡ key)
  unfolding with_key find
  with_key-some key [] a h = absurd (cc)
  with_key-some key (x ∷ xs) a h = elim (Bool-cases (str_eq (id x) key)) [
    | inl e ↦
        let same : x ≡ a = ground arith in
        (inl (sym same), ap id (sym same) ∙ str_eq-true (id x) key e)
    | inr e ↦ let (m, k) = with_key-some key xs a (ground arith) in (inr m, k)
  ]

  pub with_key-delete_where :
      (key : String) (xs : List A) (k : String)
      → with_key k (delete_where (λ r. str_eq (id r) key) xs)
        ≡ (if str_eq k key then none else with_key k xs)
  unfolding with_key delete_where filter find
  with_key-delete_where key [] k = ground arith
  with_key-delete_where key (x ∷ xs) k = elim (Bool-cases (str_eq (id x) key)) [
    | inl e ↦ elim (Bool-cases (str_eq k key)) [
      | inl f ↦ rw (e, f) (with_key-delete_where key xs k ∙ (rw f refl))
      | inr f ↦ rw (e, f, other x e f) (with_key-delete_where key xs k ∙ (rw f refl))
    ]
    | inr e ↦ elim (Bool-cases (str_eq (id x) k)) [
      | inl f ↦
          rw
            (e, f, str_eq_of_ne k key (λ q. str_eq-false (id x) key e (str_eq-true (id x) k f ∙ q)))
            refl
      | inr f ↦ rw (e, f) (with_key-delete_where key xs k)
    ]
  ]
    where
      other : (y : A) → str_eq (id y) key ≡ true → str_eq k key ≡ false → str_eq (id y) k ≡ false
      other y e f =
          str_eq_of_ne (id y) k (λ q. str_eq-false k key f (sym q ∙ str_eq-true (id y) key e))

  append_row :
      (xs : List A) (row : A) (k : String)
      → with_key k (xs ++ row ∷ []) ≡ elim (with_key k xs) [
        | none ↦ (if str_eq (id row) k then some row else none)
        | some a ↦ some a
      ]
  unfolding with_key find
  append_row [] row k = refl
  append_row (x ∷ xs) row k = elim (Bool-cases (str_eq (id x) k)) [
    | inl e ↦ rw e refl
    | inr e ↦ rw e (append_row xs row k)
  ]

  replaced :
      (key k : String) (row : A) (found previous : Option A)
      → id row ≡ key
      → found ≡ (if str_eq k key then none else previous)
      → elim found [ none ↦ (if str_eq (id row) k then some row else none) | some a ↦ some a ]
        ≡ (if str_eq k key then some row else previous)
  replaced key k row found previous e h = elim (Bool-cases (str_eq k key)) [
    | inl f ↦ rw (h, f, str_eq_of_eq (id row) k (e ∙ sym (str_eq-true k key f))) refl
    | inr f ↦ rw (h, f) (rest previous f)
  ]
    where
      rest :
          (m : Option A)
          → str_eq k key ≡ false
          → elim m [ none ↦ (if str_eq (id row) k then some row else none) | some a ↦ some a ] ≡ m
      rest none f = rw (str_eq_of_ne (id row) k (λ q. str_eq-false k key f (sym q ∙ e))) refl
      rest (some a) f = refl

  pub with_key-upsert :
      (key : String) (xs : List A) (row : A) (k : String)
      → id row ≡ key
      → with_key k (upsert (λ r. str_eq (id r) key) row xs)
        ≡ (if str_eq k key then some row else with_key k xs)
  unfolding upsert
  with_key-upsert key xs row k e =
      append_row (delete_where (λ r. str_eq (id r) key) xs) row k
      ∙ replaced key k row _ (with_key k xs) e (with_key-delete_where key xs k)

  -- A row with the key makes the table have one at it.
  pub with_key_of_mem :
      (key : String) (xs : List A) (a : A)
      → Mem a xs
      → id a ≡ key
      → (b : A) × (with_key key xs ≡ some b)
  unfolding with_key find
  with_key_of_mem key [] a m e = elim m [ ]
  with_key_of_mem key (x ∷ xs) a m e = elim (Bool-cases (str_eq (id x) key)) [
    | inl f ↦ (x, rw f refl)
    | inr f ↦ elim m [
      | inl same ↦ absurd (str_eq-false (id x) key f (ap id (sym same) ∙ e))
      | inr later ↦ let (b, q) = with_key_of_mem key xs a later e in (b, rw f q)
    ]
  ]
