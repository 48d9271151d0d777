-- ===== src/Models/Union/Reaches.antt =====
-- What `UnionVolumes4D` returns reaches each bound that one of the volumes has. A bound that a volume
-- lacks does not count, though the comment of the source reads it as a volume without limit.
use mathlib.Core.Path.{subst}
use inter_uss_platform.Base.{
  ℕ, ◌≤◌, ◌≡◌, sym, ◌∙◌, ◌⊎◌, inl, inr, true, Option, none, some, List, [], ◌∷◌, ◌++◌, any, nat_eq,
  Mem, mem_of_any, mem-append_left, mem-append_right, arith, if◌then◌else◌, Bool-cases, Never,
}
use inter_uss_platform.Base.Int.{◌≤ℤ◌}
use inter_uss_platform.Base.Action.{ok, ok-injective}
use inter_uss_platform.Api.{Float}
use inter_uss_platform.Errors.{>>=-eq-ok}
use inter_uss_platform.Models.Times.{Time, before, after, is_zero}
use inter_uss_platform.Models.Platform.{Platform, CellId, CellUnion}
use inter_uss_platform.Models.Volumes.{Geometry, precomputed, Volume3D, Volume4D, geometry_covering}
use inter_uss_platform.Models.Union.{
  empty_volume3d, union_end, union_start, union_lo, union_hi, merge, precomputed_cells,
  union_footprint, union_volume3d, union_spatial, union_volume, union_from, union_volumes4d,
}

-- The end `u` is no earlier than the end `e` of a volume that has one. Go's zero time reads as none.
abbrev pub ReachesEnd : Option Time → Option Time → Type 0
ReachesEnd _ none = Unit
ReachesEnd none (some e) = is_zero e ≡ true
ReachesEnd (some u) (some e) = (e ≤ u) ⊎ (is_zero e ≡ true)

abbrev pub ReachesStart : Option Time → Option Time → Type 0
ReachesStart _ none = Unit
ReachesStart none (some e) = is_zero e ≡ true
ReachesStart (some u) (some e) = (u ≤ e) ⊎ (is_zero e ≡ true)

abbrev pub ReachesLo : Option Float → Option Float → Type 0
ReachesLo _ none = Unit
ReachesLo none (some a) = Never
ReachesLo (some u) (some a) = u ≤ℤ a

abbrev pub ReachesHi : Option Float → Option Float → Type 0
ReachesHi _ none = Unit
ReachesHi none (some a) = Never
ReachesHi (some u) (some a) = a ≤ℤ u

union_end-ReachesEnd : (r v : Option Time) → ReachesEnd (union_end r v) v
unfolding union_end after is_zero
union_end-ReachesEnd r v = ground arith

union_end-keeps : (r v w : Option Time) → ReachesEnd r w → ReachesEnd (union_end r v) w
unfolding union_end after is_zero
union_end-keeps r v w h = ground arith

union_start-ReachesStart : (r v : Option Time) → ReachesStart (union_start r v) v
unfolding union_start before is_zero
union_start-ReachesStart r v = ground arith

union_start-keeps : (r v w : Option Time) → ReachesStart r w → ReachesStart (union_start r v) w
unfolding union_start before is_zero
union_start-keeps r v w h = ground arith

union_lo-ReachesLo : (r v : Option Float) → ReachesLo (union_lo r v) v
unfolding union_lo
union_lo-ReachesLo r v = ground arith

union_lo-keeps : (r v w : Option Float) → ReachesLo r w → ReachesLo (union_lo r v) w
unfolding union_lo
union_lo-keeps r v w h = ground arith

union_hi-ReachesHi : (r v : Option Float) → ReachesHi (union_hi r v) v
unfolding union_hi
union_hi-ReachesHi r v = ground arith

union_hi-keeps : (r v w : Option Float) → ReachesHi r w → ReachesHi (union_hi r v) w
unfolding union_hi
union_hi-keeps r v w h = ground arith

merge-keeps : (pcg ids : CellUnion) (c : CellId) → Mem c pcg → Mem c (merge pcg ids)
unfolding merge
merge-keeps pcg [] c m = m
merge-keeps pcg (id ∷ ids) c m = elim (Bool-cases (any (nat_eq id) pcg)) [
  | inl old ↦ rw old (merge-keeps pcg ids c m)
  | inr new ↦ rw new (merge-keeps (pcg ++ id ∷ []) ids c (mem-append_left pcg (id ∷ []) c m))
]

nat_eq-true : (a b : ℕ) → nat_eq a b ≡ true → a ≡ b
nat_eq-true a b h = ground arith

merge-covers : (pcg ids : CellUnion) (c : CellId) → Mem c ids → Mem c (merge pcg ids)
unfolding merge
merge-covers pcg [] c m = elim m [ ]
merge-covers pcg (id ∷ ids) c (inl e) = elim (Bool-cases (any (nat_eq id) pcg)) [
  | inl old ↦
      let (a, m, q) = mem_of_any (nat_eq id) pcg old in
      rw old (merge-keeps pcg ids c (rw (e ∙ nat_eq-true id a q) m))
  | inr new ↦ rw new (merge-keeps (pcg ++ id ∷ []) ids c (mem-append_right pcg (id ∷ []) c (inl e)))
]
merge-covers pcg (id ∷ ids) c (inr m) =
    merge-covers (if any (nat_eq id) pcg then pcg else pcg ++ id ∷ []) ids c m

module _ (env : Platform) where
  -- Each cell of a footprint is among the cells of the union.
  abbrev pub ReachesFootprint : Option Geometry → Option Geometry → Type 0
  ReachesFootprint u none = Unit
  ReachesFootprint u (some g) =
      (cells : CellUnion) (c : CellId)
      → geometry_covering env g ≡ ok cells
      → Mem c cells
      → Mem c (precomputed_cells u)

  abbrev pub ReachesVolume3D : Volume3D → Volume3D → Type 0
  ReachesVolume3D u v =
      ReachesLo u.altitude_lo v.altitude_lo
      × ReachesHi u.altitude_hi v.altitude_hi
      × ReachesFootprint u.footprint v.footprint

  abbrev pub ReachesSpatial : Option Volume3D → Option Volume3D → Type 0
  ReachesSpatial _ none = Unit
  ReachesSpatial none (some v) = Never
  ReachesSpatial (some u) (some v) = ReachesVolume3D u v

  abbrev pub Reaches : Volume4D → Volume4D → Type 0
  Reaches u v =
      ReachesEnd u.end_time v.end_time
      × ReachesStart u.start_time v.start_time
      × ReachesSpatial u.spatial_volume v.spatial_volume

  -- `u` covers all that `r` covered, and `v`.
  abbrev Extends : {A B : Type 0} → (A → B → Type 0) → A → B → A → Type 0
  Extends {A} {B} Cov r v u = Cov u v × ((w : B) → Cov r w → Cov u w)

  merged-keeps :
      (r w : Option Geometry) (cells : CellUnion)
      → ReachesFootprint r w
      → ReachesFootprint (some (precomputed (merge (precomputed_cells r) cells))) w
  unfolding precomputed_cells
  merged-keeps r none cells k = tt
  merged-keeps r (some g) cells k =
      λ xs c q m. merge-keeps (precomputed_cells r) cells c (k xs c q m)

  footprint-reaches :
      (r v u : Option Geometry) → union_footprint env r v ≡ ok u → Extends ReachesFootprint r v u
  unfolding union_footprint precomputed_cells
  footprint-reaches r none u h = rw (← ok-injective h) (tt, λ w k. k)
  footprint-reaches r (some g) u h =
      let (cells, q, k) = >>=-eq-ok (geometry_covering env g) _ h in
      subst (Extends ReachesFootprint r (some g)) (ok-injective k) (
        λ xs c p m.
            merge-covers (precomputed_cells r) cells c (subst (Mem c) (ok-injective (sym p ∙ q)) m),
        λ w j. merged-keeps r w cells j,
      )

  volume3d-keeps :
      (r v : Volume3D) (f : Option Geometry) (w : Option Volume3D)
      → ((g : Option Geometry) → ReachesFootprint r.footprint g → ReachesFootprint f g)
      → ReachesSpatial (some r) w
      → ReachesSpatial
          (some (record {
            altitude_lo = union_lo r.altitude_lo v.altitude_lo;
            altitude_hi = union_hi r.altitude_hi v.altitude_hi;
            footprint = f;
          }))
          w
  volume3d-keeps r v f none keeps k = tt
  volume3d-keeps r v f (some x) keeps k = (
    union_lo-keeps r.altitude_lo v.altitude_lo x.altitude_lo k.0,
    union_hi-keeps r.altitude_hi v.altitude_hi x.altitude_hi k.1,
    keeps x.footprint k.2,
  )

  volume3d-covers :
      (r v : Volume3D) (u : Option Volume3D)
      → union_volume3d env r v ≡ ok u
      → Extends ReachesSpatial (some r) (some v) u
  unfolding union_volume3d
  volume3d-covers r v u h =
      let (f, q, k) = >>=-eq-ok (union_footprint env r.footprint v.footprint) _ h in
      let (covers, keeps) = footprint-reaches r.footprint v.footprint f q in
      subst (Extends ReachesSpatial (some r) (some v)) (ok-injective k) (
        (
          union_lo-ReachesLo r.altitude_lo v.altitude_lo,
          union_hi-ReachesHi r.altitude_hi v.altitude_hi,
          covers,
        ),
        λ w j. volume3d-keeps r v f w keeps j,
      )

  nothing-keeps : (u w : Option Volume3D) → ReachesSpatial none w → ReachesSpatial u w
  nothing-keeps u none k = tt
  nothing-keeps u (some x) k = elim k [ ]

  spatial-covers :
      (r v u : Option Volume3D) → union_spatial env r v ≡ ok u → Extends ReachesSpatial r v u
  unfolding union_spatial
  spatial-covers r none u h = rw (← ok-injective h) (tt, λ w k. k)
  spatial-covers none (some v) u h =
      ((volume3d-covers (empty_volume3d env) v u h).0, nothing-keeps u)
  spatial-covers (some r) (some v) u h = volume3d-covers r v u h

  volume-Reaches : (r v u : Volume4D) → union_volume env r v ≡ ok u → Extends Reaches r v u
  unfolding union_volume
  volume-Reaches r v u h =
      let (x, q, k) = >>=-eq-ok (union_spatial env r.spatial_volume v.spatial_volume) _ h in
      let (covers, keeps) = spatial-covers r.spatial_volume v.spatial_volume x q in
      subst (Extends Reaches r v) (ok-injective k) (
        (
          union_end-ReachesEnd r.end_time v.end_time,
          union_start-ReachesStart r.start_time v.start_time,
          covers,
        ),
        λ w j. (
          union_end-keeps r.end_time v.end_time w.end_time j.0,
          union_start-keeps r.start_time v.start_time w.start_time j.1,
          keeps w.spatial_volume j.2,
        ),
      )

  -- The rounds that are left cover their volumes, and all that was covered before.
  union_from-Reaches :
      (r : Volume4D) (vs : List Volume4D) (u : Volume4D)
      → union_from env r vs ≡ ok u
      → ((v : Volume4D) → Mem v vs → Reaches u v) × ((w : Volume4D) → Reaches r w → Reaches u w)
  unfolding union_from
  union_from-Reaches r [] u h =
      (λ v m. elim m [ ], λ w k. subst (λ x. Reaches x w) (ok-injective h) k)
  union_from-Reaches r (v ∷ vs) u h =
      let (x, q, k) = >>=-eq-ok (union_volume env r v) (λ y. union_from env y vs) h in
      let (covers, keeps) = volume-Reaches r v x q in
      let (rest, keep) = union_from-Reaches x vs u k in
      (
        λ y m. elim m [ inl e ↦ keep y (subst (Reaches x) (sym e) covers) | inr n ↦ rest y n ],
        λ w j. keep w (keeps w j),
      )

  -- A union reaches the bounds of each of its volumes, where the volume has them: the end is no earlier
  -- and the start no later (a time that is Go's zero value excepted), its altitudes lie within those of
  -- the union, and each cell of its footprint's covering is a cell of the union.
  pub union_volumes4d-Reaches :
      (vs : List Volume4D) (u v : Volume4D) → union_volumes4d env vs ≡ ok u → Mem v vs → Reaches u v
  unfolding union_volumes4d
  union_volumes4d-Reaches vs u v h m = (union_from-Reaches _ vs u h).0 v m
