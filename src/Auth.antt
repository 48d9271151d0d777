-- ===== src/Auth.antt =====
-- pkg/auth: the check of the scopes of a client against those that an operation requires. The
-- signature of a token is checked by a library.
pub mod Options
use inter_uss_platform.Base.{
  ℕ, ◌+◌, String, Bool, not, Option, none, some, List, [], ◌∷◌, ◌++◌, map, any, filter, str_eq,
  if◌then◌else◌,
}

-- A `ScopeSet`, as the list of its scopes, and a `api.AuthorizationOption`: the scopes for each of its
-- schemes, in the order in which the map is read.
abbrev pub ScopeSet : Type 0
ScopeSet = List String

abbrev pub AuthorizationOption : Type 0
AuthorizationOption = List (String × List String)

unfoldable pub present : ScopeSet → String → Bool
present scopes required = any (λ scope. str_eq scope required) scopes

-- `ScopeSet.ValidateRequiredScopes`: the scopes that are missing, or none where the validation passes.
unfoldable pub validate_required_scopes : ScopeSet → List String → List String
validate_required_scopes scopes required = filter (λ r. not (present scopes r)) required

-- The scopes of all schemes of an option.
unfoldable pub required_scopes : AuthorizationOption → List String
required_scopes [] = []
required_scopes ((scheme, scopes) ∷ schemes) = scopes ++ required_scopes schemes

-- What `validateScopes` returns: it passes, or each option fails by its number with scopes missing.
pub data Validation : Type 0 where
  pass : Validation
  fail : List (ℕ × List String) → Validation

-- The rest of the loop after an option, whose missing scopes are given.
unfoldable pub after_option : ℕ → List String → Validation → Validation
after_option index [] rest = pass
after_option index (m ∷ missing) pass = pass
after_option index (m ∷ missing) (fail failures) = fail ((index, m ∷ missing) ∷ failures)

-- The loop over the options from one number on.
unfoldable pub validate_options : ℕ → List AuthorizationOption → ScopeSet → Validation
validate_options index [] scopes = fail []
validate_options index (option ∷ options) scopes =
    let rest = validate_options (index + 1) options scopes in
    after_option index (validate_required_scopes scopes (required_scopes option)) rest

-- `validateScopes`
unfoldable pub validate_scopes : List AuthorizationOption → ScopeSet → Validation
validate_scopes [] scopes = pass
validate_scopes (option ∷ options) scopes = validate_options 0 (option ∷ options) scopes
