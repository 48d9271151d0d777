-- ===== src/Base/Action.antt =====
-- A computation in a transaction: it reads and writes a state, and succeeds or fails.
pub mod Leaves
pub mod Runs
use mathlib.Core.Path.{◌≡◌, refl, ap}
use mathlib.Core.Bool.{Bool}
use inter_uss_platform.Base.Tests.{if◌then◌else◌}

pub data Result (E A : Type 0) : Type 0 where
  ok : A → Result E A
  err : E → Result E A

pub ok-injective : {E A : Type 0} {a b : A} → ◌≡◌ {A = Result E A} (ok a) (ok b) → a ≡ b
ok-injective h = cc

abbrev pub Action : Type 0 → Type 0 → Type 0 → Type 0
Action S E A = S → Result E A × S

module _ {S E A : Type 0} where
  abbrev pub pure : A → Action S E A
  pure a s = (ok a, s)

  abbrev pub fail : E → Action S E A
  fail e s = (err e, s)

  abbrev pub lift : Result E A → Action S E A
  lift r s = (r, s)

  abbrev pub gets : (S → A) → Action S E A
  gets f s = (ok (f s), s)

module _ {S E A B : Type 0} where
  abbrev pub continue : Result E A → (A → Action S E B) → Action S E B
  continue (ok a) f s = f a s
  continue (err e) f s = (err e, s)

  infixl 5 ◌>>=◌
  unfoldable pub ◌>>=◌ : Action S E A → (A → Action S E B) → Action S E B
  ◌>>=◌ m f s = let (r, s') = m s in continue r f s'

module _ {S E : Type 0} where
  infixl 5 ◌>>◌
  abbrev pub ◌>>◌ : {B : Type 0} → Action S E (Unit {0}) → Action S E B → Action S E B
  m >> k = m >>= λ _. k

  abbrev pub fail_if : Bool → E → Action S E (Unit {0})
  fail_if b e s = (if b then err e else ok tt, s)

  abbrev pub modify : (S → S) → Action S E (Unit {0})
  modify f s = (ok tt, f s)

-- A run that succeeded went through its first part.
module _ {S E A B : Type 0} (m : Action S E A) (f : A → Action S E B) (s : S) {b : B} {t : S} where
  continue_ok :
      (r : Result E A) (u : S)
      → continue r f u ≡ (ok b, t)
      → (a : A) × (r ≡ ok a) × (f a u ≡ (ok b, t))
  continue_ok (ok a) u h = (a, refl, h)
  continue_ok (err e) u h = absurd (cc)

  pub bind_ok :
      (m >>= f) s ≡ (ok b, t) → (a : A) × (u : S) × (m s ≡ (ok a, u)) × (f a u ≡ (ok b, t))
  unfolding ◌>>=◌
  bind_ok h = let (a, e, k) = continue_ok (m s).0 (m s).1 h in (a, (m s).1, λ i. (e i, (m s).1), k)

-- A run whose first part succeeds goes on from there.
pub bind_step :
    {S E A B : Type 0} (m : Action S E A) (f : A → Action S E B) (s u : S) (a : A)
    → m s ≡ (ok a, u)
    → (m >>= f) s ≡ f a u
unfolding ◌>>=◌
bind_step m f s u a h = ap (λ r. continue r.0 f r.1) h

-- The same, for a conclusion that names what the part returned.
pub bind_elim {ℓ} :
    {S E A B : Type 0} {P : Type ℓ} (m : Action S E A) (f : A → Action S E B) (s : S) {b : B}
    {t : S}
    → (m >>= f) s ≡ (ok b, t)
    → ((a : A) (u : S) → m s ≡ (ok a, u) → f a u ≡ (ok b, t) → P)
    → P
bind_elim m f s h k = let (a, u, q, r) = bind_ok m f s h in k a u q r

-- `Transact`: the transaction commits when the action succeeds, and is rolled back otherwise.
module _ {S E A : Type 0} where
  unfoldable pub transact : Action S E A → Action S E A
  transact m s = let (r, t) = m s in (r, elim r [ ok _ ↦ t | err _ ↦ s ])
