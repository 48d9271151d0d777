-- ===== src/Models/Versions/Texts.antt =====
-- A version that is written as a text is read back.
use Prim.Native.Nat.{ℕ, zero, suc, ◌+◌, ◌*◌, ◌/◌, ◌%◌, ◌≤◌, ◌<◌}
use Prim.Native.String.{String, [], ◌∷◌}
use mathlib.Core.Bool.{Bool, true, false, ◌&&◌}
use mathlib.Core.Option.{Option, none, some}
use mathlib.Core.Path.{◌≡◌, refl, sym, ap, ◌∙◌, subst}
use native.Mathlib.Omega.{arith}
use mathlib.Core.Logic.{◌≢◌, inl, inr}
use inter_uss_platform.Base.Tests.{ltb, nat_eq, str_eq_of_ne, and_true, Bool-cases}
use inter_uss_platform.Base.Action.{ok}
use inter_uss_platform.Models.Times.{Time}
use inter_uss_platform.Models.Versions.{
  unix_epoch, two_64, two_63, unix_nano, from_unix_nano, digit, format_digits, digit_value,
  parse_digits, parsed_version, version_from_string, version_from_time,
}

unix_nano-from :
    (t : Time)
    → unix_epoch ≤ t + two_63
    → t < unix_epoch + two_63
    → (unix_nano t < two_64) × (from_unix_nano (unix_nano t) ≡ t)
unfolding unix_nano from_unix_nano
unix_nano-from t low high = (omega arith, ground arith)

equal : (a b : ℕ) → nat_eq a b ≡ true → a ≡ b
equal a b h = ground arith

all_below : (ℕ → Bool) → ℕ → Bool
all_below p zero = true
all_below p (suc n) = p n && all_below p n

all_below-at : (p : ℕ → Bool) (n d : ℕ) → all_below p n ≡ true → d < n → p d ≡ true
unfolding all_below
all_below-at p zero d h l = absurd (omega arith)
all_below-at p (suc n) d h l =
    let (here, rest) = and_true (p n) (all_below p n) h in
    elim (Bool-cases (nat_eq d n)) [
      | inl e ↦ subst (λ x. p x ≡ true) (sym (equal d n e)) here
      | inr e ↦ all_below-at p n d rest (ground arith)
    ]

reads_back : ℕ → Bool
reads_back d = elim (digit_value (digit d)) [ none ↦ false | some e ↦ nat_eq e d ]

all_read_back : all_below reads_back 32 ≡ true
unfolding all_below reads_back digit_value digit
all_read_back = refl

is_value :
    (o : Option ℕ) (d : ℕ) → (elim o [ none ↦ false | some e ↦ nat_eq e d ]) ≡ true → o ≡ some d
is_value none d h = absurd (cc)
is_value (some e) d h = ap some (equal e d h)

digit_value-digit : (d : ℕ) → d < 32 → digit_value (digit d) ≡ some d
unfolding reads_back
digit_value-digit d h =
    is_value (digit_value (digit d)) d (all_below-at reads_back 32 d all_read_back h)

-- The number of texts of as many digits.
limit : ℕ → ℕ
limit zero = 1
limit (suc fuel) = 32 * limit fuel

parse_digit :
    (n d : ℕ) (rest : String)
    → d < 32
    → parse_digits n (digit d ∷ rest) ≡ parse_digits (n * 32 + d) rest
unfolding parse_digits
parse_digit n d rest h = rw (parse_digits, digit_value-digit d h) refl

limit_13 : limit 13 ≡ 36893488147419103232
unfolding limit
limit_13 = refl

parse-format_digits :
    (fuel n : ℕ) (rest : String)
    → n < limit fuel
    → parse_digits 0 (format_digits fuel n rest) ≡ parse_digits n rest
unfolding format_digits limit
parse-format_digits zero n rest h = ap (λ x. parse_digits x rest) (omega arith)
parse-format_digits (suc fuel) n rest h = elim (Bool-cases (ltb n 32)) [
  | inl small ↦
      rw small (parse_digit 0 n rest (ground arith) ∙ ap (λ x. parse_digits x rest) (omega arith))
  | inr large ↦ rw large (
      parse-format_digits fuel (n / 32) (digit (n % 32) ∷ rest) (omega arith)
      ∙ parse_digit (n / 32) (n % 32) rest (omega arith)
      ∙ ap (λ x. parse_digits x rest) (omega arith))
]

has_digit : String → Bool
has_digit [] = false
has_digit (c ∷ s) = true

format_digits-has_digit :
    (fuel n : ℕ) (rest : String)
    → has_digit rest ≡ true
    → has_digit (format_digits fuel n rest) ≡ true
unfolding format_digits has_digit
format_digits-has_digit zero n rest h = h
format_digits-has_digit (suc fuel) n rest h = elim (Bool-cases (ltb n 32)) [
  | inl small ↦ rw small refl
  | inr large ↦ rw large (format_digits-has_digit fuel (n / 32) (digit (n % 32) ∷ rest) refl)
]

has_digit-ne : (s : String) → has_digit s ≡ true → s ≢ ""
unfolding has_digit
has_digit-ne [] h e = absurd (cc)
has_digit-ne (c ∷ s) h e = absurd (cc)

some_digit : (n : ℕ) → has_digit (format_digits 13 n []) ≡ true
unfolding format_digits has_digit
some_digit n = elim (Bool-cases (ltb n 32)) [
  | inl small ↦ rw small refl
  | inr large ↦ rw large (format_digits-has_digit 12 (n / 32) (digit (n % 32) ∷ []) refl)
]

parsed_back :
    (s : String) (n : ℕ)
    → n < two_64
    → parsed_version s (some n) ≡ ok (record { t = from_unix_nano n; s = s })
unfolding parsed_version
parsed_back s n h = ground arith

-- A version that is made from a time between the years 1678 and 2262 is read back from its text.
pub version_from_string-version_from_time :
    (t : Time)
    → unix_epoch ≤ t + two_63
    → t < unix_epoch + two_63
    → version_from_string (version_from_time t).s ≡ ok (version_from_time t)
unfolding version_from_string version_from_time parse_digits
version_from_string-version_from_time t low high =
    let (small, back) = unix_nano-from t low high in
    let text = format_digits 13 (unix_nano t) [] in
    rw (str_eq_of_ne text "" (has_digit-ne text (some_digit (unix_nano t)))) (
      ap (parsed_version text)
        (parse-format_digits 13 (unix_nano t) [] (omega (arith, small, limit_13)))
      ∙ parsed_back text (unix_nano t) small
      ∙ ap (λ x. ok (record { t = x; s = text })) back)
