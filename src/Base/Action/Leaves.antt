-- ===== src/Base/Action/Leaves.antt =====
-- What a computation leaves as it was: a part of the state, whether it succeeds or fails.
use mathlib.Core.Bool.{Bool, true, false}
use mathlib.Core.Path.{◌≡◌, refl, ◌∙◌}
use inter_uss_platform.Base.Tests.{if◌then◌else◌}
use inter_uss_platform.Base.Action.{
  Result, ok, err, Action, pure, fail, lift, gets, fail_if, continue, ◌>>=◌,
}

pub record Leaves {S E A T : Type 0} (part : S → T) (m : Action S E A) : Type 0 where
  pub at : (s : S) → part (m s).1 ≡ part s

module _ {S E A T : Type 0} {part : S → T} where
  pub Leaves-pure : (a : A) → Leaves {E = E} part (pure a)
  Leaves-pure a = record { at = λ s. refl }

  pub Leaves-fail : (e : E) → Leaves {A = A} part (fail e)
  Leaves-fail e = record { at = λ s. refl }

  pub Leaves-lift : (r : Result E A) → Leaves part (lift r)
  Leaves-lift r = record { at = λ s. refl }

  pub Leaves-gets : (f : S → A) → Leaves {E = E} part (gets f)
  Leaves-gets f = record { at = λ s. refl }

  pub Leaves-if :
      (b : Bool) (m n : Action S E A)
      → Leaves part m
      → Leaves part n
      → Leaves part (if b then m else n)
  Leaves-if true m n h k = h
  Leaves-if false m n h k = k

module _ {S E T : Type 0} {part : S → T} where
  pub Leaves-fail_if : (b : Bool) (e : E) → Leaves part (fail_if b e)
  Leaves-fail_if b e = record { at = λ s. refl }

module _ {S E A B T : Type 0} {part : S → T} (m : Action S E A) (f : A → Action S E B) where
  pub Leaves-bind : Leaves part m → ((a : A) → Leaves part (f a)) → Leaves part (m >>= f)
  unfolding ◌>>=◌
  Leaves-bind h k = record { at = λ s. go (m s).0 (m s).1 ∙ h.at s }
    where
      go : (r : Result E A) (u : S) → part (continue r f u).1 ≡ part u
      go (ok a) u = (k a).at u
      go (err e) u = refl

pub ruleset leaves_rules =
    (Leaves-pure, Leaves-fail, Leaves-lift, Leaves-gets, Leaves-if, Leaves-fail_if, Leaves-bind)
