-- ===== src/Models/Covering/Sound.antt =====
-- What the points of a polygon satisfy that was covered.
use inter_uss_platform.Base.{
  ℕ, zero, suc, ◌+◌, ◌-◌, ◌%◌, ◌<◌, ◌≤◌, ◌≡◌, ◌⊎◌, refl, inl, inr, Bool, true, false, not, List,
  Mem, any, any_of_mem, length, nat_eq, Bool-cases, arith,
}
use mathlib.Core.Path.{subst}
use inter_uss_platform.Base.Int.{pos, ltb_ℤ, leb_ℤ, ◌≤ℤ◌}
use inter_uss_platform.Base.Action.{ok, ok-injective}
use inter_uss_platform.Errors.{Code, reject_if, >>=-elim}
use inter_uss_platform.Models.Platform.{Platform, Point, CellUnion}
use inter_uss_platform.Models.Chords.{loop_area_km2}
use inter_uss_platform.Models.Chords.Apart.{Apart, chord_segments_intersect-Apart}
use inter_uss_platform.Models.Covering.{
  range, point_at, reverse, upper_bound, edges_cross, crosses_later, validate_loop, oriented,
  loop_or_polyline, covering, max_allowed_area_km2,
}

mem-range : (start count k : ℕ) → start ≤ k → k < start + count → Mem k (range start count)
unfolding range
mem-range start zero k h l = absurd (omega arith)
mem-range start (suc count) k h l = elim (Bool-cases (nat_eq k start)) [
  | inl e ↦ inl (ground arith)
  | inr e ↦ inr (mem-range (start + 1) count k (ground arith) (omega arith))
]

none_in :
    {A : Type 0} (p : A → Bool) (xs : List A) (a : A) → any p xs ≡ false → Mem a xs → p a ≡ false
none_in p xs a h m = elim (Bool-cases (p a)) [
  | inl e ↦ absurd (contradiction (any_of_mem p xs a m e))
  | inr e ↦ e
]
  where
    contradiction : ¬ (any p xs ≡ true)
    contradiction k = cc

passed : (b : Bool) (c : Code) → reject_if b c ≡ ok tt → b ≡ false
passed b c h = ground arith

-- The points from which two edges come that share no point are among those that the loops visit.
visited : (n i j : ℕ) → i + 2 ≤ j → j < n → ¬ ((i ≡ 0) × (j + 1 ≡ n)) → j < upper_bound n i
unfolding upper_bound
visited n i j l u d = elim (Bool-cases (nat_eq i 0)) [
  | inl e ↦
      let first : i ≡ 0 = ground arith in
      let other : ¬ (j + 1 ≡ n) = λ last. d (first, last) in rw e (omega (arith, other))
  | inr e ↦ rw e u
]

-- The loop that is covered: the points in their order, or in the other one.
abbrev pub IsOrientation : List Point → List Point → Type 0
IsOrientation points loop = (loop ≡ points) ⊎ (loop ≡ reverse points)

module _ (env : Platform) where
  oriented-IsOrientation : (points : List Point) → IsOrientation points (oriented env points)
  unfolding oriented
  oriented-IsOrientation points =
      elim (Bool-cases (ltb_ℤ max_allowed_area_km2 (loop_area_km2 env points))) [
        | inl e ↦ inr (rw e refl)
        | inr e ↦ inl (rw e refl)
      ]

  -- The cells of a loop are those of its boundary where it has no area, and else those of its inside.
  abbrev pub CoversLoop : List Point → CellUnion → Type 0
  CoversLoop loop cells =
      ((loop_area_km2 env loop ≤ℤ pos 0) × (cells ≡ env.polyline_covering loop))
      ⊎ ((¬ (loop_area_km2 env loop ≤ℤ pos 0)) × (cells ≡ env.loop_covering loop))

  loop_or_polyline-CoversLoop : (loop : List Point) → CoversLoop loop (loop_or_polyline env loop)
  unfolding loop_or_polyline
  loop_or_polyline-CoversLoop loop = elim (Bool-cases (leb_ℤ (loop_area_km2 env loop) (pos 0))) [
    | inl e ↦ inl (ground arith, rw e refl)
    | inr e ↦ inr (ground arith, rw e refl)
  ]

  edge_tests :
      (points : List Point) (i j : ℕ)
      → validate_loop env points ≡ ok tt
      → i + 2 ≤ j
      → j < length points
      → ¬ ((i ≡ 0) × (j + 1 ≡ length points))
      → edges_cross env points i j ≡ false
  unfolding validate_loop crosses_later
  edge_tests points i j q l u d =
      none_in (edges_cross env points i) (range (i + 2) (upper_bound (length points) i - (i + 2))) j
        (none_in (crosses_later env points) (range 0 (length points - 2)) i (passed _ _ q)
          (mem-range 0 (length points - 2) i (omega arith) (omega arith)))
        (let v = visited (length points) i j l u d in
          mem-range (i + 2) (upper_bound (length points) i - (i + 2)) j l (omega arith))

  -- In a polygon that is covered, any two edges that share no point are apart: one has both ends on
  -- one side of the point where their planes meet, or one reaches it the short way round the earth and
  -- the other one the long way; the cells are those of the loop of its points in one of their two orders, whose
  -- area is at most the limit, and those of a line where the loop has no area.
  pub covering_sound :
      (points : List Point) (cells : CellUnion)
      → covering env points ≡ ok cells
      → ((i j : ℕ)
          → i + 2 ≤ j
          → j < length points
          → ¬ ((i ≡ 0) × (j + 1 ≡ length points))
          → Apart env
              (point_at points i)
              (point_at points (i + 1))
              (point_at points j)
              (point_at points ((j + 1) % length points)))
        × ((loop : List Point) × IsOrientation points loop
            × (loop_area_km2 env loop ≤ℤ max_allowed_area_km2)
            × CoversLoop loop cells)
  unfolding covering edges_cross
  covering_sound points cells h = >>=-elim (validate_loop env points) _ h λ t1 q1 h1.
      >>=-elim (reject_if (not (env.loop_is_valid points)) Code.no_code) _ h1 λ t2 q2 h2.
        >>=-elim
          (reject_if (ltb_ℤ max_allowed_area_km2 (loop_area_km2 env (oriented env points)))
            Code.area_too_large)
          _ h2
          λ t3 q3 h3. (
            λ i j l u d.
                chord_segments_intersect-Apart env _ _ _ _ (edge_tests points i j q1 l u d),
            (
              oriented env points,
              oriented-IsOrientation points,
              (let small = passed _ _ q3 in ground arith),
              subst (CoversLoop (oriented env points)) (ok-injective h3)
                  (loop_or_polyline-CoversLoop (oriented env points)),
            ),
          )
