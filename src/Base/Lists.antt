-- ===== src/Base/Lists.antt =====
-- Lists with lengths in the native numbers, membership as a predicate, and Boolean searches.
use Prim.Native.Nat.{ℕ, zero, suc, ◌≤◌}
use mathlib.Core.Bool.{Bool, true, false, ◌&&◌, ◌||◌}
use mathlib.Core.List.{List, [], ◌∷◌, ◌++◌, map}
use mathlib.Core.Logic.{◌⊎◌, inl, inr}
use mathlib.Core.Option.{Option, none, some}
use mathlib.Core.Path.{◌≡◌, refl, ap, sym, subst, ◌∙◌}
use native.Mathlib.Omega.{arith}
use inter_uss_platform.Base.Tests.{if◌then◌else◌, Bool-cases}

module _ {ℓ} {A : Type ℓ} where
  abbrev pub length : List A → ℕ
  length [] = 0
  length (x ∷ xs) = suc (length xs)

  unfoldable pub take : ℕ → List A → List A
  take zero xs = []
  take (suc n) [] = []
  take (suc n) (x ∷ xs) = x ∷ take n xs

  pub take_all : (n : ℕ) (xs : List A) → length xs ≤ n → take n xs ≡ xs
  unfolding take
  take_all zero [] h = refl
  take_all zero (x ∷ xs) h = absurd (omega arith)
  take_all (suc n) [] h = refl
  take_all (suc n) (x ∷ xs) h = ap (◌∷◌ x) (take_all n xs (omega arith))

  unfoldable pub filter : (A → Bool) → List A → List A
  filter p [] = []
  filter p (x ∷ xs) = let rest = filter p xs in if p x then x ∷ rest else rest

  unfoldable pub any : (A → Bool) → List A → Bool
  any p [] = false
  any p (x ∷ xs) = p x || any p xs

  unfoldable pub all : (A → Bool) → List A → Bool
  all p [] = true
  all p (x ∷ xs) = p x && all p xs

  unfoldable pub find : (A → Bool) → List A → Option A
  find p [] = none
  find p (x ∷ xs) = let rest = find p xs in if p x then some x else rest

-- The empty type at each level.
pub data Never {ℓ} : Type ℓ where

-- Membership, by recursion, so that the tactics read it.
abbrev pub Mem {ℓ} : {A : Type ℓ} → A → List A → Type ℓ
Mem a [] = Never
Mem a (x ∷ xs) = (a ≡ x) ⊎ Mem a xs

-- Every element satisfies `P`.
abbrev pub All {ℓ κ} : {A : Type ℓ} → (A → Type κ) → List A → Type κ
All P [] = Unit
All P (x ∷ xs) = P x × All P xs

module _ {ℓ} {A : Type ℓ} where
  pub All-mem {κ} : (P : A → Type κ) (xs : List A) (a : A) → All P xs → Mem a xs → P a
  All-mem P [] a h m = elim m [ ]
  All-mem P (x ∷ xs) a h (inl e) = subst P (sym e) h.0
  All-mem P (x ∷ xs) a h (inr m) = All-mem P xs a h.1 m

  pub All-of_mem {κ} : (P : A → Type κ) (xs : List A) → ((a : A) → Mem a xs → P a) → All P xs
  All-of_mem P [] h = tt
  All-of_mem P (x ∷ xs) h = (h x (inl refl), All-of_mem P xs (λ a m. h a (inr m)))

  pub mem-filter :
      (p : A → Bool) (xs : List A) (a : A) → p a ≡ true → Mem a xs → Mem a (filter p xs)
  unfolding filter
  mem-filter p [] a h m = m
  mem-filter p (x ∷ xs) a h (inl e) = rw (← e) (rw h (inl refl))
  mem-filter p (x ∷ xs) a h (inr m) = elim (Bool-cases (p x)) [
    | inl kept ↦ rw kept (inr (mem-filter p xs a h m))
    | inr dropped ↦ rw dropped (mem-filter p xs a h m)
  ]

  pub mem-filter_inv :
      (p : A → Bool) (xs : List A) (a : A) → Mem a (filter p xs) → (p a ≡ true) × Mem a xs
  unfolding filter
  mem-filter_inv p [] a m = elim m [ ]
  mem-filter_inv p (x ∷ xs) a m = go (p x) refl (mem-filter_inv p xs a) m
    where
      go :
          (b : Bool)
          → p x ≡ b
          → (Mem a (filter p xs) → (p a ≡ true) × Mem a xs)
          → Mem a (if b then x ∷ filter p xs else filter p xs)
          → (p a ≡ true) × Mem a (x ∷ xs)
      go true e ih (inl f) = (ap p f ∙ e, inl f)
      go true e ih (inr n) = let (q, k) = ih n in (q, inr k)
      go false e ih n = let (q, k) = ih n in (q, inr k)

  pub mem-take : (n : ℕ) (xs : List A) (a : A) → Mem a (take n xs) → Mem a xs
  unfolding take
  mem-take zero xs a m = elim m [ ]
  mem-take (suc n) [] a m = elim m [ ]
  mem-take (suc n) (x ∷ xs) a (inl e) = inl e
  mem-take (suc n) (x ∷ xs) a (inr m) = inr (mem-take n xs a m)

  pub length-map {κ} : {B : Type κ} (f : A → B) (xs : List A) → length (map f xs) ≡ length xs
  length-map f [] = refl
  length-map f (x ∷ xs) = ap suc (length-map f xs)

  pub mem-map {κ} : {B : Type κ} (f : A → B) (xs : List A) (a : A) → Mem a xs → Mem (f a) (map f xs)
  mem-map f [] a m = elim m [ ]
  mem-map f (x ∷ xs) a (inl e) = inl (ap f e)
  mem-map f (x ∷ xs) a (inr m) = inr (mem-map f xs a m)

  pub mem-map_inv {κ} :
      {B : Type κ} (f : A → B) (xs : List A) (b : B)
      → Mem b (map f xs)
      → (a : A) × (b ≡ f a) × Mem a xs
  mem-map_inv f [] b m = elim m [ ]
  mem-map_inv f (x ∷ xs) b (inl e) = (x, e, inl refl)
  mem-map_inv f (x ∷ xs) b (inr m) = let (a, e, k) = mem-map_inv f xs b m in (a, e, inr k)

  pub any_of_mem : (p : A → Bool) (xs : List A) (a : A) → Mem a xs → p a ≡ true → any p xs ≡ true
  unfolding any
  any_of_mem p [] a m h = elim m [ ]
  any_of_mem p (x ∷ xs) a (inl e) h = rw (← e) (rw h)
  any_of_mem p (x ∷ xs) a (inr m) h = ground (arith, any_of_mem p xs a m h)

  pub mem_of_any :
      (p : A → Bool) (xs : List A) → any p xs ≡ true → (a : A) × Mem a xs × (p a ≡ true)
  unfolding any
  mem_of_any p [] h = absurd (cc)
  mem_of_any p (x ∷ xs) h = elim (Bool-cases (p x)) [
    | inl e ↦ (x, inl refl, e)
    | inr e ↦ let (a, m, q) = mem_of_any p xs (ground arith) in (a, inr m, q)
  ]

  pub filter-nil : (p : A → Bool) (xs : List A) (a : A) → filter p xs ≡ [] → Mem a xs → p a ≡ false
  filter-nil p xs a h m = elim (Bool-cases (p a)) [
    | inl e ↦ elim (rw h at (mem-filter p xs a e m)) [ ]
    | inr e ↦ e
  ]

  pub mem-append_left : (xs ys : List A) (a : A) → Mem a xs → Mem a (xs ++ ys)
  mem-append_left [] ys a m = elim m [ ]
  mem-append_left (x ∷ xs) ys a (inl e) = inl e
  mem-append_left (x ∷ xs) ys a (inr m) = inr (mem-append_left xs ys a m)

  pub mem-append_right : (xs ys : List A) (a : A) → Mem a ys → Mem a (xs ++ ys)
  mem-append_right [] ys a m = m
  mem-append_right (x ∷ xs) ys a m = inr (mem-append_right xs ys a m)

  pub mem-append_cases : (xs ys : List A) (a : A) → Mem a (xs ++ ys) → Mem a xs ⊎ Mem a ys
  mem-append_cases [] ys a m = inr m
  mem-append_cases (x ∷ xs) ys a (inl e) = inl (inl e)
  mem-append_cases (x ∷ xs) ys a (inr m) = elim (mem-append_cases xs ys a m) [
    | inl left ↦ inl (inr left)
    | inr right ↦ inr right
  ]

-- A filter by a weaker test makes no difference to a filter.
pub filter-filter {ℓ} :
    {A : Type ℓ} (p q : A → Bool) (xs : List A)
    → ((a : A) → p a ≡ true → q a ≡ true)
    → filter p (filter q xs) ≡ filter p xs
unfolding filter
filter-filter p q [] h = refl
filter-filter p q (x ∷ xs) h = elim (Bool-cases (q x)) [
  | inl e ↦ rw e (ground (arith, filter-filter p q xs h))
  | inr e ↦
      let other : p x ≡ false = elim (Bool-cases (p x)) [
        | inl f ↦ absurd (differ e (h x f))
        | inr f ↦ f
      ] in
      rw (e, other) (filter-filter p q xs h)
]
  where
    differ : {b : Bool} → b ≡ false → b ≡ true → ⊥
    differ a b = absurd (cc)

-- The one that is added last is the only match, where there was none.
pub filter-append_new {ℓ} :
    {A : Type ℓ} (p : A → Bool) (xs : List A) (x : A)
    → any p xs ≡ false
    → p x ≡ true
    → filter p (xs ++ x ∷ []) ≡ x ∷ []
unfolding filter any
filter-append_new p [] x h e = rw e refl
filter-append_new p (y ∷ ys) x h e = elim (Bool-cases (p y)) [
  | inl f ↦ absurd (ground arith)
  | inr f ↦ rw f (filter-append_new p ys x (ground arith) e)
]

-- A stronger test holds of none, where a test holds of none.
pub any_of_weaker {ℓ} :
    {A : Type ℓ} (p q : A → Bool) (xs : List A)
    → ((a : A) → p a ≡ true → q a ≡ true)
    → any q xs ≡ false
    → any p xs ≡ false
unfolding any
any_of_weaker p q [] h e = refl
any_of_weaker p q (x ∷ xs) h e = elim (Bool-cases (p x)) [
  | inl f ↦ let g = h x f in absurd (ground arith)
  | inr f ↦ rw f (any_of_weaker p q xs h (ground arith))
]
