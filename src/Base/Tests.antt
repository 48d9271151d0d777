-- ===== src/Base/Tests.antt =====
-- Boolean tests on numbers, texts and options, and how to split on them.
use Prim.Native.Nat.{ℕ, compare, Ordering}
use Prim.Native.String.{String}
use mathlib.Core.Bool.{Bool, true, false, ◌&&◌}
use mathlib.Core.Logic.{◌⊎◌, ◌≢◌, inl, inr}
use mathlib.Core.Option.{Option, none, some}
use mathlib.Core.Path.{◌≡◌, refl}
use native.Mathlib.Omega.{arith}
use text.Mathlib.Text.{◌==◌}
use text.Mathlib.TextEquality.{eq_iff}

abbrev pub ltb : ℕ → ℕ → Bool
ltb a b = elim (compare a b) [ Ordering.lt ↦ true | _ ↦ false ]

abbrev pub leb : ℕ → ℕ → Bool
leb a b = elim (compare a b) [ Ordering.gt ↦ false | _ ↦ true ]

abbrev pub nat_eq : ℕ → ℕ → Bool
nat_eq a b = elim (compare a b) [ Ordering.eq ↦ true | _ ↦ false ]

infix 1 if◌then◌else◌
abbrev pub if◌then◌else◌ {ℓ} : {A : Type ℓ} → Bool → A → A → A
if true then x else y = x
if false then x else y = y

-- Equality of texts, shut: proofs read it through `str_eq-true` and its companions.
unfoldable pub str_eq : String → String → Bool
str_eq a b = a == b

pub str_eq-true : (a b : String) → str_eq a b ≡ true → a ≡ b
unfolding str_eq
str_eq-true a b h = (eq_iff a b).0 h

pub str_eq_of_eq : (a b : String) → a ≡ b → str_eq a b ≡ true
unfolding str_eq
str_eq_of_eq a b h = (eq_iff a b).1 h

pub str_eq_refl : (a : String) → str_eq a a ≡ true
str_eq_refl a = str_eq_of_eq a a refl

pub Bool-cases : (b : Bool) → (b ≡ true) ⊎ (b ≡ false)
Bool-cases true = inl refl
Bool-cases false = inr refl

pub str_eq-false : (a b : String) → str_eq a b ≡ false → a ≢ b
str_eq-false a b h e = ground (arith, str_eq_of_eq a b e)

pub str_eq_of_ne : (a b : String) → a ≢ b → str_eq a b ≡ false
str_eq_of_ne a b h = elim (Bool-cases (str_eq a b)) [
  | inl same ↦ absurd (h (str_eq-true a b same))
  | inr differ ↦ differ
]

pub Option-cases {ℓ} : {A : Type ℓ} (o : Option A) → (o ≡ none) ⊎ ((a : A) × (o ≡ some a))
Option-cases none = inl refl
Option-cases (some a) = inr (a, refl)

abbrev pub is_some {ℓ} : {A : Type ℓ} → Option A → Bool
is_some none = false
is_some (some _) = true

-- The two parts of a conjunction of tests.
pub and_true : (a b : Bool) → (a && b) ≡ true → (a ≡ true) × (b ≡ true)
and_true a b h = ground arith
