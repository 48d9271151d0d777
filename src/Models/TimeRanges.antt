-- ===== src/Models/TimeRanges.antt =====
-- The time range that a request asks for, adjusted and checked: the body that `AdjustTimeRange` has
-- in pkg/scd/models/subscriptions.go and in pkg/rid/models/subscriptions.go.
use inter_uss_platform.Base.{ℕ, ◌+◌, ◌≤◌, ◌≡◌, ◌∙◌, Option, none, some, arith, if◌then◌else◌}
use inter_uss_platform.Base.Action.{Result, ok, err}
use inter_uss_platform.Errors.{Code, Fault, coded, deref, deref-eq-ok, >>=-elim, ◌>>=◌}
use inter_uss_platform.Models.Times.{Time, sub, longer, is_negative, longer-sub, is_negative-sub}

abbrev pub max_clock_skew : ℕ
max_clock_skew = 300000000000

abbrev pub max_subscription_duration : ℕ
max_subscription_duration = 86400000000000

-- The bounds of the entity that is replaced, if there is one.
pub record Bounds : Type 0 where
  pub start_time : Option Time
  pub end_time : Option Time

-- `s.StartTime` after the first step.
unfoldable pub adjusted_start : Time → Option Time → Option Bounds → Result Fault (Option Time)
adjusted_start now none none = ok (some now)
adjusted_start now none (some old) = ok old.start_time
adjusted_start now (some start) old =
    if longer (sub now start) max_clock_skew then err (coded Code.bad_request) else ok (some start)

-- `s.EndTime` after the second step.
unfoldable pub adjusted_end : Option Time → Option Bounds → Option Time
adjusted_end (some end) old = some end
adjusted_end none none = none
adjusted_end none (some old) = old.end_time

-- The third step: a start time and the default end.
end_or_default : Option Time → Option Time → Result Fault Time
end_or_default start (some end) = ok end
end_or_default start none = do s ← deref start; ok (s + max_subscription_duration)

checked_range : Time → Time → Result Fault (Time × Time)
checked_range start end =
    if is_negative (sub end start)
    then err (coded Code.bad_request)
    else if longer (sub end start) max_subscription_duration
    then err (coded Code.bad_request)
    else ok (start, end)

unfoldable pub adjust_range :
    Time → Option Time → Option Time → Option Bounds → Result Fault (Time × Time)
unfolding adjusted_start adjusted_end end_or_default checked_range
adjust_range now start end old = do
  start' ← adjusted_start now start old
  end' ← end_or_default start' (adjusted_end end old)
  s ← deref start'
  checked_range s end'

checked_range_sound :
    (a b s e : Time)
    → checked_range a b ≡ ok (s, e)
    → (s ≡ a) × (e ≡ b) × (a ≤ b) × (b ≤ a + max_subscription_duration)
unfolding checked_range
checked_range_sound a b s e h =
    ground (arith, longer-sub b a max_subscription_duration (omega arith), is_negative-sub b a)

adjusted_start_sound :
    (now : Time) (start : Option Time) (old : Option Bounds) (r : Option Time) (t : Time)
    → adjusted_start now start old ≡ ok r
    → start ≡ some t
    → (r ≡ some t) × (now ≤ t + max_clock_skew)
unfolding adjusted_start
adjusted_start_sound now start old r t h k =
    ground (arith, longer-sub now t max_clock_skew (omega arith))

end_or_default_sound :
    (start end : Option Time) (old : Option Bounds) (e t : Time)
    → end_or_default start (adjusted_end end old) ≡ ok e
    → end ≡ some t
    → e ≡ t
unfolding end_or_default adjusted_end
end_or_default_sound start end old e t h k = ground arith

-- An accepted range is in order and at most a day long. A start that the request names is kept, and
-- is at most five minutes in the past; an end that the request names is kept.
pub adjust_range_sound :
    (now : Time) (start end : Option Time) (old : Option Bounds) (s e : Time)
    → adjust_range now start end old ≡ ok (s, e)
    → (s ≤ e)
      × (e ≤ s + max_subscription_duration)
      × ((t : Time) → start ≡ some t → (s ≡ t) × (now ≤ t + max_clock_skew))
      × ((t : Time) → end ≡ some t → e ≡ t)
unfolding adjust_range
adjust_range_sound now start end old s e h = >>=-elim (adjusted_start now start old) _ h λ s1 q1 h1.
    >>=-elim (end_or_default s1 (adjusted_end end old)) _ h1 λ e1 q2 h2.
      >>=-elim (deref s1) _ h2 λ s2 q3 h3.
        let (es, ee, le, day) = checked_range_sound s2 e1 s e h3 in
        (
          omega arith,
          omega arith,
          λ t k.
              let (kept, fresh) = adjusted_start_sound now start old s1 t q1 k in
              (cc (es, deref-eq-ok s1 s2 q3, kept), fresh),
          λ t k. ee ∙ end_or_default_sound s1 end old e1 t q2 k,
        )
