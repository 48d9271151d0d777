-- ===== src/Models/Versions.antt =====
-- Versions of remote identification entities, from pkg/models/models.go: a time and its text, the
-- number of nanoseconds since 1970 in base 32, as `strconv` writes and reads it.
pub mod Texts
use Prim.Native.Nat.{ℕ, zero, suc, ◌+◌, ◌*◌, ◌-◌, ◌/◌, ◌%◌}
use Prim.Native.Char.{Char, code}
use Prim.Native.String.{String, [], ◌∷◌, char_at}
use mathlib.Core.Bool.{Bool, true, false, ◌&&◌}
use mathlib.Core.Option.{Option, none, some}
use inter_uss_platform.Base.Tests.{ltb, leb, str_eq, if◌then◌else◌}
use inter_uss_platform.Base.Action.{Result, ok, err}
use inter_uss_platform.Errors.{Code, Fault, coded}
use inter_uss_platform.Models.Times.{Time, zero_time}

pub record Version : Type 0 where
  pub t : Time
  pub s : String

-- The first of January 1970.
abbrev pub unix_epoch : Time
unix_epoch = 62167305600000000000

abbrev pub two_64 : ℕ
two_64 = 18446744073709551616

abbrev pub two_63 : ℕ
two_63 = 9223372036854775808

-- `uint64(t.UnixNano())`, which wraps around; the times of the API are less than 2 ^ 64 nanoseconds
-- times 4 before it.
unfoldable pub unix_nano : Time → ℕ
unix_nano t = (t + 4 * two_64 - unix_epoch) % two_64

-- `time.Unix(0, int64(nanos))`
unfoldable pub from_unix_nano : ℕ → Time
from_unix_nano n = if ltb n two_63 then unix_epoch + n else unix_epoch + n - two_64

-- The digit of a number below 32.
unfoldable pub digit : ℕ → Char
digit d = char_at "0123456789abcdefghijklmnopqrstuv" d

-- `strconv.FormatUint` in base 32: the digits of a number in front of a text. For a number below
-- 2 ^ 64 there are at most 13.
unfoldable pub format_digits : ℕ → ℕ → String → String
unfolding digit
format_digits zero n rest = rest
format_digits (suc fuel) n rest =
    let longer = format_digits fuel (n / 32) (digit (n % 32) ∷ rest) in
    if ltb n 32 then digit n ∷ rest else longer

between : ℕ → ℕ → ℕ → Bool
between low high n = leb low n && leb n high

in_base : ℕ → Option ℕ
in_base d = if ltb d 32 then some d else none

-- The value of a digit, of either case.
unfoldable pub digit_value : Char → Option ℕ
unfolding between in_base
digit_value c =
    if between 48 57 (code c)
    then in_base (code c - 48)
    else if between 65 90 (code c)
    then in_base (code c - 55)
    else if between 97 122 (code c)
    then in_base (code c - 87)
    else none

-- The loop of `strconv.ParseUint`.
unfoldable pub parse_digits : ℕ → String → Option ℕ
parse_digits n [] = some n
parse_digits n (c ∷ s) = elim (digit_value c) [ none ↦ none | some d ↦ parse_digits (n * 32 + d) s ]

parsed_version : String → Option ℕ → Result Fault Version
parsed_version s none = err (coded Code.no_code)
parsed_version s (some n) =
    if ltb n two_64 then ok (record { t = from_unix_nano n; s = s }) else err (coded Code.no_code)

-- `VersionFromString`
unfoldable pub version_from_string : String → Result Fault Version
unfolding parsed_version
version_from_string s =
    if str_eq s "" then err (coded Code.no_code) else parsed_version s (parse_digits 0 s)

-- `VersionFromTime`
unfoldable pub version_from_time : Time → Version
version_from_time t = record { t = t; s = format_digits 13 (unix_nano t) [] }

-- `Version.Matches`
unfoldable pub matches : Option Version → Option Version → Bool
matches (some v) (some w) = str_eq v.s w.s
matches _ _ = false

-- `Version.ToTimestamp`
unfoldable pub to_timestamp : Option Version → Time
to_timestamp none = zero_time
to_timestamp (some v) = v.t
