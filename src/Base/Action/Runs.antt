-- ===== src/Base/Action/Runs.antt =====
-- How to go through a run in which a part only reads.
use mathlib.Core.Bool.{Bool, true, false}
use mathlib.Core.Path.{◌≡◌, refl, ap, sym, subst, ◌∙◌}
use inter_uss_platform.Base.Action.{Result, Action, ok, err, transact, fail_if, bind_elim, ◌>>=◌}
use inter_uss_platform.Base.Action.Leaves.{Leaves}

abbrev whole : {S : Type 0} → S → S
whole s = s

module _ {S E A : Type 0} (m : Action S E A) (s u : S) (a : A) where
  -- A read that returned something returned it in the state in which it ran.
  same_state : Leaves whole m → m s ≡ (ok a, u) → m s ≡ (ok a, s)
  same_state l q = λ i. ((ap (λ x. x.0) q) i, l.at s i)

  state_eq : Leaves whole m → m s ≡ (ok a, u) → u ≡ s
  state_eq l q = sym (ap (λ x. x.1) q) ∙ l.at s

-- A read within a run, which goes on from the same state.
pub read_elim :
    {S E A B P : Type 0} (m : Action S E A) (f : A → Action S E B) (s : S) {b : B} {t : S}
    → Leaves whole m
    → (m >>= f) s ≡ (ok b, t)
    → ((a : A) → m s ≡ (ok a, s) → f a s ≡ (ok b, t) → P)
    → P
read_elim m f s {b = b} {t = t} l h k = bind_elim m f s h λ a u q r.
    k a (same_state m s u a l q) (subst (λ v. f a v ≡ (ok b, t)) (state_eq m s u a l q) r)

-- A guard that lets a run pass did not hold.
pub passed : {S E : Type 0} (b : Bool) (e : E) (s u : S) → fail_if b e s ≡ (ok tt, u) → b ≡ false
passed true e s u h = absurd (cc)
passed false e s u h = refl

-- A transaction that commits is its action.
module _ {S E A : Type 0} (s t : S) (a : A) where
  committed :
      (p : Result E A × S)
      → ◌≡◌ {A = Result E A × S} (p.0, elim p.0 [ ok _ ↦ p.1 | err _ ↦ s ]) (ok a, t)
      → p ≡ (ok a, t)
  committed (ok b, u) q = q
  committed (err e, u) q = absurd (cc)

pub transact_ok :
    {S E A : Type 0} (m : Action S E A) (s t : S) (a : A)
    → transact m s ≡ (ok a, t)
    → m s ≡ (ok a, t)
unfolding transact
transact_ok m s t a h = committed s t a (m s) h

pub transact_commits :
    {S E A : Type 0} (m : Action S E A) (s t : S) (a : A)
    → m s ≡ (ok a, t)
    → transact m s ≡ (ok a, t)
unfolding transact
transact_commits m s t a h = ap (λ p. (p.0, elim p.0 [ ok _ ↦ p.1 | err _ ↦ s ])) h
