-- ===== src/Scd/Models/Ovns.antt =====
-- Opaque version numbers and the checks of pkg/scd/models/models.go.
use Prim.Native.Char.{Char, code}
use Prim.Native.String
use inter_uss_platform.Base.{
  ℕ, ◌+◌, ◌≤◌, ◌≡◌, String, Bool, Option-cases, inl, inr, not, ◌&&◌, Option, none, some, arith,
  nat_eq, leb, ltb, str_eq, if◌then◌else◌,
}
use inter_uss_platform.Base.Action.{Result, ok, err}
use inter_uss_platform.Errors.{Code, Fault, coded}
use inter_uss_platform.Models.Times.{Time, abs, sub, abs-sub-le}
use inter_uss_platform.Models.TimeRanges.{max_clock_skew}
use inter_uss_platform.Models.Platform.{Platform, Uuid}

abbrev pub no_ovn_phrase : String
no_ovn_phrase = "Available from USS"

abbrev pub null_v4_uuid : String
null_v4_uuid = "00000000-0000-4000-8000-000000000000"

infixr 65 ◌+++◌
-- The concatenation of two texts.
abbrev pub ◌+++◌ : String → String → String
a +++ b = Prim.Native.String.◌++◌ a b

-- `strings.Replace(s, old, new, -1)` for texts of one character.
replace : Char → Char → String → String
replace old new String.[] = String.[]
replace old new (String.◌∷◌ c s) =
    String.◌∷◌ (if nat_eq (code c) (code old) then new else c) (replace old new s)

module _ (env : Platform) where
  -- `NewOVNFromTime`
  unfoldable pub new_ovn_from_time : Time → String → String
  unfolding replace
  new_ovn_from_time t salt =
      replace "=" "_" (replace "/" "." (replace "+" "-" (env.digest (salt +++ env.format_time t))))

  checked_suffix : Time → String → String → Option Uuid → Result Fault String
  checked_suffix now oi_id suffix none = err (coded Code.no_code)
  checked_suffix now oi_id suffix (some uuid_v7) =
      if not (nat_eq uuid_v7.version 7)
      then err (coded Code.no_code)
      else if ltb max_clock_skew (abs (sub now uuid_v7.time))
      then err (coded Code.no_code)
      else ok (oi_id +++ "_" +++ suffix)

  -- `NewOVNFromUUIDv7Suffix`
  unfoldable pub new_ovn_from_uuid_v7_suffix : Time → String → String → Result Fault String
  unfolding checked_suffix
  new_ovn_from_uuid_v7_suffix now oi_id suffix =
      checked_suffix now oi_id suffix (env.parse_uuid suffix)

  checked_scheme : Option String → Result Fault (Unit {0})
  checked_scheme none = err (coded Code.no_code)
  checked_scheme (some scheme) = if str_eq scheme "https" then ok tt else err (coded Code.no_code)

  -- `ValidateUSSBaseURL`
  unfoldable pub validate_uss_base_url : String → Result Fault (Unit {0})
  unfolding checked_scheme
  validate_uss_base_url s = checked_scheme (env.url_scheme s)

  -- An OVN that a client asks for is made of the identifier and a suffix that is a version 7 UUID
  -- whose time is at most five minutes from now, on either side.
  pub new_ovn_from_uuid_v7_suffix_sound :
      (now : Time) (oi_id suffix ovn : String)
      → new_ovn_from_uuid_v7_suffix now oi_id suffix ≡ ok ovn
      → (u : Uuid) × (env.parse_uuid suffix ≡ some u)
        × (u.version ≡ 7)
        × (now ≤ u.time + max_clock_skew)
        × (u.time ≤ now + max_clock_skew)
        × (ovn ≡ oi_id +++ "_" +++ suffix)
  unfolding new_ovn_from_uuid_v7_suffix
  new_ovn_from_uuid_v7_suffix_sound now oi_id suffix ovn h =
      elim (Option-cases (env.parse_uuid suffix)) [
        | inl e ↦ absurd (ground arith)
        | inr (u, e) ↦
            let (within, after) =
              abs-sub-le now u.time max_clock_skew (omega arith) (ground arith) in
            (u, e, ground arith, within, after, ground arith)
      ]

-- The bytes of a character in UTF-8.
width : Char → ℕ
width c =
    if ltb (code c) 128
    then 1
    else if ltb (code c) 2048
    then 2
    else if ltb (code c) 65536
    then 3
    else 4

-- Go's `len` of a text, which counts bytes.
len : String → ℕ
unfolding width
len String.[] = 0
len (String.◌∷◌ c s) = width c + len s

-- `OVN.Valid`
unfoldable pub valid : String → Bool
unfolding len
valid ovn = leb 16 (len ovn) && leb (len ovn) 128
