-- ===== src/Rid/Application/Limit.antt =====
-- No owner has more subscriptions on a cell than the limit: the counts of a table and what each
-- statement does to them.
use inter_uss_platform.Base.{
  ℕ, ◌+◌, ◌≡◌, ◌≤◌, refl, ap, inl, inr, String, Bool, true, Option, none, some, List, [], ◌∷◌, ◌++◌,
  map, Mem, nat_eq, Bool-cases, arith, if◌then◌else◌,
}
use mathlib.Core.Path.{subst}
use inter_uss_platform.Base.Lists.{filter}
use inter_uss_platform.Base.Tables.{delete_where, update_where}
use inter_uss_platform.Base.Action.{ok}
use inter_uss_platform.Models.Times.{Time}
use inter_uss_platform.Models.Platform.{CellId, CellUnion}
use inter_uss_platform.Scd.Store.{at_most_one}
use inter_uss_platform.Rid.Store.{SubscriptionRow, ends_from}
use inter_uss_platform.Rid.Store.Subscriptions.{
  is_current, occurrences, subscriptions_per_cell, greatest, increment,
}

module _ (now : Time) (owner : String) (c : CellId) where
  -- What one row counts for.
  unfoldable pub weight : SubscriptionRow → ℕ
  weight r = if is_current now owner r then occurrences c r.cells else 0

  abbrev count : List SubscriptionRow → ℕ
  count rows = subscriptions_per_cell now owner c rows

  count-cons :
      (r : SubscriptionRow) (rows : List SubscriptionRow) → count (r ∷ rows) ≡ weight r + count rows
  unfolding subscriptions_per_cell weight
  count-cons r rows = refl

  pub count-append :
      (rows : List SubscriptionRow) (r : SubscriptionRow)
      → count (rows ++ r ∷ []) ≡ count rows + weight r
  unfolding subscriptions_per_cell weight
  count-append [] r = omega arith
  count-append (x ∷ rows) r = omega (arith, count-append rows r)

  pub count-delete_where :
      (p : SubscriptionRow → Bool) (rows : List SubscriptionRow)
      → count (delete_where p rows) ≤ count rows
  unfolding delete_where subscriptions_per_cell filter
  count-delete_where p [] = omega arith
  count-delete_where p (x ∷ rows) = elim (Bool-cases (p x)) [
    | inl e ↦ rw e (omega (arith, count-cons x rows, count-delete_where p rows))
    | inr e ↦ rw e (
        omega
          (arith, count-cons x rows, count-cons x (delete_where p rows), count-delete_where p rows))
  ]

  -- An update that changes no weight.
  pub count-update_where :
      (p : SubscriptionRow → Bool) (f : SubscriptionRow → SubscriptionRow)
      (rows : List SubscriptionRow)
      → ((r : SubscriptionRow) → weight (f r) ≡ weight r)
      → count (update_where p f rows) ≡ count rows
  unfolding update_where
  count-update_where p f [] same = refl
  count-update_where p f (x ∷ rows) same = elim (Bool-cases (p x)) [
    | inl e ↦ rw e (
        omega (
          arith,
          count-cons (f x) (update_where p f rows),
          count-cons x rows,
          same x,
          count-update_where p f rows same,
        ))
    | inr e ↦ rw e (
        omega (
          arith,
          count-cons x (update_where p f rows),
          count-cons x rows,
          count-update_where p f rows same,
        ))
  ]

  unmatched :
      (p : SubscriptionRow → Bool) (f : SubscriptionRow → SubscriptionRow)
      (rows : List SubscriptionRow)
      → filter p rows ≡ []
      → update_where p f rows ≡ rows
  unfolding update_where filter
  unmatched p f [] h = refl
  unmatched p f (x ∷ rows) h = elim (Bool-cases (p x)) [
    | inl e ↦
        absurd (matched (subst (λ b. (if b then x ∷ filter p rows else filter p rows) ≡ []) e h))
    | inr e ↦ rw e (
        ap (λ l. x ∷ l)
          (unmatched p f rows
            (subst (λ b. (if b then x ∷ filter p rows else filter p rows) ≡ []) e h)))
  ]
    where
      matched : ¬ (x ∷ filter p rows ≡ [])
      matched q = absurd (cc)

  -- An update of at most one row, to one that counts for at most `bound`.
  pub count-update_one :
      {B : Type 0} (g : SubscriptionRow → B) (p : SubscriptionRow → Bool)
      (f : SubscriptionRow → SubscriptionRow) (bound : ℕ) (rows : List SubscriptionRow)
      (o : Option B)
      → at_most_one (map g (filter p rows)) ≡ ok o
      → ((r : SubscriptionRow) → Mem r rows → p r ≡ true → weight (f r) ≤ bound)
      → count (update_where p f rows) ≤ count rows + bound
  unfolding update_where filter at_most_one
  count-update_one g p f bound [] o h k = omega arith
  count-update_one g p f bound (x ∷ rows) o h k = elim (Bool-cases (p x)) [
    | inl e ↦
        let alone : update_where p f rows ≡ rows = unmatched p f rows (
          one_left (filter p rows) (
            subst (λ b. at_most_one (map g (if b then x ∷ filter p rows else filter p rows)) ≡ ok o)
              e h)) in
        rw (e, alone) (omega (arith, count-cons (f x) rows, count-cons x rows, k x (inl refl) e))
    | inr e ↦ rw e (
        omega (
          arith,
          count-cons x (update_where p f rows),
          count-cons x rows,
          count-update_one g p f bound rows o
              (subst
                (λ b. at_most_one (map g (if b then x ∷ filter p rows else filter p rows)) ≡ ok o) e
                h)
              (λ r m. k r (inr m)),
        ))
  ]
    where
      one_left : (l : List SubscriptionRow) → at_most_one (map g (x ∷ l)) ≡ ok o → l ≡ []
      one_left [] q = refl
      one_left (y ∷ l) q = absurd (cc)

-- A cell that occurs is among the cells.
pub mem_of_occurrences : (c : CellId) (cells : CellUnion) → 1 ≤ occurrences c cells → Mem c cells
unfolding occurrences
mem_of_occurrences c [] h = absurd (omega arith)
mem_of_occurrences c (d ∷ cells) h = elim (Bool-cases (nat_eq d c)) [
  | inl e ↦ inl (ground arith)
  | inr e ↦ inr (mem_of_occurrences c cells (ground arith))
]

pub mem-le-greatest : (n : ℕ) (ns : List ℕ) → Mem n ns → n ≤ greatest ns
unfolding greatest
mem-le-greatest n [] m = elim m [ ]
mem-le-greatest n (k ∷ ns) (inl e) = ground arith
mem-le-greatest n (k ∷ ns) (inr m) = ground (arith, mem-le-greatest n ns m)

-- As time passes the counts do not grow.
ends_from-le :
    (now later : Time) (end : Option Time)
    → now ≤ later
    → ends_from later end ≡ true
    → ends_from now end ≡ true
unfolding ends_from
ends_from-le now later none l h = absurd (cc)
ends_from-le now later (some end) l h = ground arith

weight-le :
    (now later : Time) (owner : String) (c : CellId) (r : SubscriptionRow)
    → now ≤ later
    → weight later owner c r ≤ weight now owner c r
unfolding weight is_current
weight-le now later owner c r l = elim (Bool-cases (ends_from later r.ends_at)) [
  | inl e ↦ rw (e, ends_from-le now later r.ends_at l e) (omega arith)
  | inr e ↦ ground arith
]

pub count-later :
    (now later : Time) (owner : String) (c : CellId) (rows : List SubscriptionRow)
    → now ≤ later
    → subscriptions_per_cell later owner c rows ≤ subscriptions_per_cell now owner c rows
unfolding subscriptions_per_cell weight
count-later now later owner c [] l = omega arith
count-later now later owner c (r ∷ rows) l =
    omega (arith, weight-le now later owner c r l, count-later now later owner c rows l)

-- A notification changes no count.
pub weight-increment :
    (now : Time) (owner : String) (c : CellId) (r : SubscriptionRow)
    → weight now owner c (increment r) ≡ weight now owner c r
unfolding weight increment is_current
weight-increment now owner c r = refl
