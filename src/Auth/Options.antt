-- ===== src/Auth/Options.antt =====
-- When the validation of scopes passes.
use inter_uss_platform.Base.{
  ℕ, ◌+◌, ◌≡◌, ◌↔◌, ◌⊎◌, refl, sym, inl, inr, String, true, not, List, [], ◌∷◌, Mem, mem-filter_inv,
  filter-nil, any_of_mem, mem_of_any, str_eq, str_eq-true, str_eq_of_eq, arith,
}
use mathlib.Core.Path.{subst}
use inter_uss_platform.Auth.{
  ScopeSet, AuthorizationOption, present, validate_required_scopes, required_scopes, Validation,
  pass, fail, after_option, validate_options, validate_scopes,
}

-- The client has each scope that the option requires.
abbrev pub Satisfies : ScopeSet → AuthorizationOption → Type 0
Satisfies scopes option = (r : String) → Mem r (required_scopes option) → Mem r scopes

present-mem : (scopes : ScopeSet) (r : String) → present scopes r ≡ true → Mem r scopes
unfolding present
present-mem scopes r h =
    let (s, m, e) = mem_of_any (λ scope. str_eq scope r) scopes h in
    subst (λ x. Mem x scopes) (str_eq-true s r e) m

present_of_mem : (scopes : ScopeSet) (r : String) → Mem r scopes → present scopes r ≡ true
unfolding present
present_of_mem scopes r m = any_of_mem (λ scope. str_eq scope r) scopes r m (str_eq_of_eq r r refl)

none_missing :
    (scopes : ScopeSet) (option : AuthorizationOption)
    → validate_required_scopes scopes (required_scopes option) ≡ []
    → Satisfies scopes option
unfolding validate_required_scopes
none_missing scopes option h r m =
    let q = filter-nil (λ x. not (present scopes x)) (required_scopes option) r h m in
    present-mem scopes r (ground arith)

missing_absurd :
    (scopes : ScopeSet) (option : AuthorizationOption) (x : String) (xs : List String)
    → validate_required_scopes scopes (required_scopes option) ≡ x ∷ xs
    → ¬ (Satisfies scopes option)
unfolding validate_required_scopes
missing_absurd scopes option x xs h s =
    let (q, m) =
      mem-filter_inv (λ r. not (present scopes r)) (required_scopes option) x
        (subst (Mem x) (sym h) (inl refl)) in
    let p = present_of_mem scopes x (s x m) in absurd (ground arith)

-- One round of the loop.
after_option-pass :
    (scopes : ScopeSet) (option : AuthorizationOption) (options : List AuthorizationOption)
    (index : ℕ) (missing : List String) (rest : Validation)
    → validate_required_scopes scopes (required_scopes option) ≡ missing
    → rest ≡ pass ↔ ((o : AuthorizationOption) × Mem o options × Satisfies scopes o)
    → after_option index missing rest ≡ pass
      ↔ ((o : AuthorizationOption) × Mem o (option ∷ options) × Satisfies scopes o)
unfolding after_option
after_option-pass scopes option options index [] rest h r =
    (λ e. (option, inl refl, none_missing scopes option h), λ s. refl)
after_option-pass scopes option options index (x ∷ xs) pass h r =
    (λ e. let (o, m, s) = r.0 refl in (o, inr m, s), λ s. refl)
after_option-pass scopes option options index (x ∷ xs) (fail failures) h r = (
  λ e. absurd (cc),
  λ (o, m, s). absurd (elim m [
    | inl e ↦ missing_absurd scopes option x xs h (subst (Satisfies scopes) e s)
    | inr k ↦ failed (r.1 (o, k, s))
  ]),
)
  where
    failed : ¬ (fail failures ≡ pass)
    failed e = absurd (cc)

validate_options-pass :
    (index : ℕ) (options : List AuthorizationOption) (scopes : ScopeSet)
    → validate_options index options scopes ≡ pass
      ↔ ((o : AuthorizationOption) × Mem o options × Satisfies scopes o)
unfolding validate_options
validate_options-pass index [] scopes = (λ e. absurd (cc), λ (o, m, s). elim m [ ])
validate_options-pass index (option ∷ options) scopes =
    after_option-pass scopes option options index
      (validate_required_scopes scopes (required_scopes option))
      (validate_options (index + 1) options scopes) refl
      (validate_options-pass (index + 1) options scopes)

-- The validation of scopes passes just where no option is given, or the client has each scope of one
-- of them.
pub validate_scopes-pass :
    (options : List AuthorizationOption) (scopes : ScopeSet)
    → validate_scopes options scopes ≡ pass
      ↔ ((options ≡ []) ⊎ ((o : AuthorizationOption) × Mem o options × Satisfies scopes o))
unfolding validate_scopes
validate_scopes-pass [] scopes = (λ e. inl refl, λ s. refl)
validate_scopes-pass (option ∷ options) scopes =
    let loop = validate_options-pass 0 (option ∷ options) scopes in
    (
      λ e. inr (loop.0 e),
      λ s. elim s [ inl none_given ↦ absurd (given none_given) | inr satisfied ↦ loop.1 satisfied ],
    )
  where
    given : ¬ (option ∷ options ≡ [])
    given e = absurd (cc)
