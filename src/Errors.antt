-- ===== src/Errors.antt =====
-- The error codes of pkg/errors/errors.go, and the error values that the handlers tell apart.
-- The texts of the messages are not modelled.
use inter_uss_platform.Base.{◌≡◌, refl, Bool, true, false, Option, none, some}
use inter_uss_platform.Base.Action.{Result, ok, err}
use inter_uss_platform.Api.{AirspaceConflictResponse}

pub data Code : Type 0 where
  area_too_large missing_ovns already_exists bad_request version_mismatch not_found : Code
  permission_denied exhausted unauthenticated no_code : Code

-- `stacktrace` carries a code along: `Propagate` keeps it, and `PropagateWithCode` replaces it.
-- `missing_footprint` and `missing_spatial_volume` are the sentinels of pkg/geo/errors.go, `no_rows`
-- is `pgx.ErrNoRows`, `conflict` is the error coded `MissingOVNs` with the response that goes with
-- it, and `panic` is a nil pointer dereference, which is no error value.
pub data Fault : Type 0 where
  coded : Code → Fault
  missing_footprint missing_spatial_volume no_rows panic : Fault
  conflict : AirspaceConflictResponse → Fault

-- `stacktrace.GetCode`
unfoldable pub get_code : Fault → Code
get_code (coded c) = c
get_code missing_footprint = Code.bad_request
get_code missing_spatial_volume = Code.bad_request
get_code no_rows = Code.no_code
get_code panic = Code.no_code
get_code (conflict _) = Code.missing_ovns

-- `stacktrace.PropagateWithCode`; a panic is not caught by it.
abbrev pub with_code : {A : Type 0} → Code → Result Fault A → Result Fault A
with_code c (ok a) = ok a
with_code c (err panic) = err panic
with_code c (err _) = err (coded c)

infixl 5 ◌>>=◌ ◌>>◌
abbrev pub ◌>>=◌ : {A B : Type 0} → Result Fault A → (A → Result Fault B) → Result Fault B
ok a >>= f = f a
err e >>= f = err e

abbrev pub ◌>>◌ : {B : Type 0} → Result Fault (Unit {0}) → Result Fault B → Result Fault B
m >> k = m >>= λ _. k

abbrev pub reject_if : Bool → Code → Result Fault (Unit {0})
reject_if true c = err (coded c)
reject_if false c = ok tt

-- A pointer dereference.
abbrev pub deref : {A : Type 0} → Option A → Result Fault A
deref none = err panic
deref (some a) = ok a

-- A chain that succeeded went through its first step: what follows from the step's success and that
-- of the rest follows from the chain's.
pub >>=-elim {ℓ} :
    {S T : Type 0} {P : Type ℓ} (step : Result Fault S) (rest : S → Result Fault T) {t : T}
    → (step >>= rest) ≡ ok t
    → ((s : S) → step ≡ ok s → rest s ≡ ok t → P)
    → P
>>=-elim (ok s) rest run k = k s refl run
>>=-elim (err fault) rest run k = absurd (cc)

pub >>=-eq-ok :
    {S T : Type 0} (step : Result Fault S) (rest : S → Result Fault T) {t : T}
    → (step >>= rest) ≡ ok t
    → (s : S) × (step ≡ ok s) × (rest s ≡ ok t)
>>=-eq-ok step rest run = >>=-elim step rest run λ s first second. (s, first, second)

pub some-injective : {A : Type 0} {a b : A} → ◌≡◌ {A = Option A} (some a) (some b) → a ≡ b
some-injective h = cc

pub deref-eq-ok : {A : Type 0} (o : Option A) (a : A) → deref o ≡ ok a → o ≡ some a
deref-eq-ok none a h = absurd (cc)
deref-eq-ok (some b) a h = cc

pub reject_if-eq-ok : (b : Bool) (c : Code) (u : Unit {0}) → reject_if b c ≡ ok u → b ≡ false
reject_if-eq-ok true c u h = absurd (cc)
reject_if-eq-ok false c u h = refl

pub with_code-eq-ok :
    {A : Type 0} (c : Code) (r : Result Fault A) (a : A) → with_code c r ≡ ok a → r ≡ ok a
with_code-eq-ok c (ok b) a h = h
with_code-eq-ok c (err panic) a h = absurd (cc)
with_code-eq-ok c (err (coded d)) a h = absurd (cc)
with_code-eq-ok c (err missing_footprint) a h = absurd (cc)
with_code-eq-ok c (err missing_spatial_volume) a h = absurd (cc)
with_code-eq-ok c (err no_rows) a h = absurd (cc)
with_code-eq-ok c (err (conflict r)) a h = absurd (cc)
