-- ===== src/Models/Union/Hull.antt =====
-- What `UnionVolumes4D` returns has no bound and no cell but those of the volumes.
use inter_uss_platform.Base.{
  ◌≡◌, refl, sym, ap, ◌∙◌, ◌⊎◌, inl, inr, Option, none, some, List, [], ◌∷◌, ◌++◌, Mem, any, nat_eq,
  mem-append_cases, arith, Never, Bool, true, false, if◌then◌else◌,
}
use mathlib.Core.Path.{subst}
use inter_uss_platform.Base.Action.{ok, ok-injective}
use inter_uss_platform.Api.{Float}
use inter_uss_platform.Errors.{>>=-eq-ok}
use inter_uss_platform.Models.Times.{Time}
use inter_uss_platform.Models.Platform.{Platform, CellId, CellUnion}
use inter_uss_platform.Models.Volumes.{
  Geometry, precomputed, geometry_func, circle, polygon, Volume3D, Volume4D, geometry_covering,
}
use inter_uss_platform.Models.Union.{
  empty_volume3d, union_end, union_start, union_lo, union_hi, merge, precomputed_cells,
  union_footprint, union_volume3d, union_spatial, union_volume, union_from, union_volumes4d,
}
use inter_uss_platform.Models.Union.Reaches.{Reaches, union_volumes4d-Reaches}

union_end-cases :
    (r v : Option Time) (t : Time) → union_end r v ≡ some t → (r ≡ some t) ⊎ (v ≡ some t)
unfolding union_end
union_end-cases r v t h = ground arith

union_start-cases :
    (r v : Option Time) (t : Time) → union_start r v ≡ some t → (r ≡ some t) ⊎ (v ≡ some t)
unfolding union_start
union_start-cases r v t h = ground arith

union_lo-cases :
    (r v : Option Float) (a : Float) → union_lo r v ≡ some a → (r ≡ some a) ⊎ (v ≡ some a)
unfolding union_lo
union_lo-cases r v a h = ground arith

union_hi-cases :
    (r v : Option Float) (a : Float) → union_hi r v ≡ some a → (r ≡ some a) ⊎ (v ≡ some a)
unfolding union_hi
union_hi-cases r v a h = ground arith

added-cases :
    (b : Bool) (pcg : CellUnion) (id c : CellId)
    → Mem c (if b then pcg else pcg ++ id ∷ [])
    → Mem c pcg ⊎ (c ≡ id)
added-cases true pcg id c m = inl m
added-cases false pcg id c m = elim (mem-append_cases pcg (id ∷ []) c m) [
  | inl old ↦ inl old
  | inr (inl e) ↦ inr e
  | inr (inr never) ↦ elim never [ ]
]

merge-cases : (pcg ids : CellUnion) (c : CellId) → Mem c (merge pcg ids) → Mem c pcg ⊎ Mem c ids
unfolding merge
merge-cases pcg [] c m = inl m
merge-cases pcg (id ∷ ids) c m =
    elim (merge-cases (if any (nat_eq id) pcg then pcg else pcg ++ id ∷ []) ids c m) [
      | inr later ↦ inr (inr later)
      | inl now ↦ elim (added-cases (any (nat_eq id) pcg) pcg id c now) [
        | inl old ↦ inl old
        | inr e ↦ inr (inl e)
      ]
    ]

-- A lower or an upper altitude that a volume has.
abbrev pub HasLo : Option Volume3D → Float → Type 0
HasLo none a = Never
HasLo (some v) a = v.altitude_lo ≡ some a

abbrev pub HasHi : Option Volume3D → Float → Type 0
HasHi none a = Never
HasHi (some v) a = v.altitude_hi ≡ some a

module _ (env : Platform) where
  abbrev pub HasFootprint : Option Geometry → CellId → Type 0
  HasFootprint none c = Never
  HasFootprint (some g) c = (cells : CellUnion) × (geometry_covering env g ≡ ok cells) × Mem c cells

  -- A cell of the covering of a volume's footprint.
  abbrev pub HasCell : Option Volume3D → CellId → Type 0
  HasCell none c = Never
  HasCell (some v) c = HasFootprint v.footprint c

  precomputed-HasFootprint :
      (r : Option Geometry) (c : CellId) → Mem c (precomputed_cells r) → HasFootprint r c
  unfolding precomputed_cells geometry_covering
  precomputed-HasFootprint none c m = elim m [ ]
  precomputed-HasFootprint (some (precomputed cells)) c m = (cells, refl, m)
  precomputed-HasFootprint (some (geometry_func cells)) c m = elim m [ ]
  precomputed-HasFootprint (some (circle g)) c m = elim m [ ]
  precomputed-HasFootprint (some (polygon g)) c m = elim m [ ]

  footprint-cases :
      (r v u : Option Geometry) (c : CellId)
      → union_footprint env r v ≡ ok u
      → HasFootprint u c
      → HasFootprint r c ⊎ HasFootprint v c
  unfolding union_footprint geometry_covering
  footprint-cases r none u c h k = inl (subst (λ x. HasFootprint x c) (sym (ok-injective h)) k)
  footprint-cases r (some g) u c h k =
      let (cells, q, l) = >>=-eq-ok (geometry_covering env g) _ h in
      let m = merged cells (subst (λ x. HasFootprint x c) (sym (ok-injective l)) k) in
      elim (merge-cases (precomputed_cells r) cells c m) [
        | inl old ↦ inl (precomputed-HasFootprint r c old)
        | inr new ↦ inr (the_footprint cells q new)
      ]
    where
      merged :
          (cells : CellUnion)
          → HasFootprint (some (precomputed (merge (precomputed_cells r) cells))) c
          → Mem c (merge (precomputed_cells r) cells)
      merged cells (xs, e, m) = subst (Mem c) (sym (ok-injective e)) m

      the_footprint :
          (cells : CellUnion)
          → geometry_covering env g ≡ ok cells
          → Mem c cells
          → HasFootprint (some g) c
      the_footprint cells q m = (cells, q, m)

  -- What a round of the loop brings into a result was in it or is in the volume.
  abbrev Stems : (Volume4D → Type 0) → Type 0
  Stems P = (r v u : Volume4D) → union_volume env r v ≡ ok u → P u → P r ⊎ P v

  stems :
      (P : Volume4D → Type 0)
      → Stems P
      → (r : Volume4D) (vs : List Volume4D) (u : Volume4D) → union_from env r vs ≡ ok u
      → P u
      → P r ⊎ ((v : Volume4D) × Mem v vs × P v)
  unfolding union_from
  stems P step r [] u h k = inl (subst P (sym (ok-injective h)) k)
  stems P step r (v ∷ vs) u h k =
      let (x, q, l) = >>=-eq-ok (union_volume env r v) (λ y. union_from env y vs) h in
      elim (stems P step x vs u l k) [
        | inr (w, m, j) ↦ inr (w, inr m, j)
        | inl j ↦ elim (step r v x q j) [ inl old ↦ inl old | inr new ↦ inr (v, inl refl, new) ]
      ]

  end-Stems : (t : Time) → Stems (λ w. w.end_time ≡ some t)
  unfolding union_volume
  end-Stems t r v u h k =
      let (x, q, l) = >>=-eq-ok (union_spatial env r.spatial_volume v.spatial_volume) _ h in
      union_end-cases r.end_time v.end_time t (ap (λ w. w.end_time) (ok-injective l) ∙ k)

  start-Stems : (t : Time) → Stems (λ w. w.start_time ≡ some t)
  unfolding union_volume
  start-Stems t r v u h k =
      let (x, q, l) = >>=-eq-ok (union_spatial env r.spatial_volume v.spatial_volume) _ h in
      union_start-cases r.start_time v.start_time t (ap (λ w. w.start_time) (ok-injective l) ∙ k)

  -- The same for what is said of the space of a volume.
  spatial-Stems :
      (P : Option Volume3D → Type 0)
      → ¬ (P (some (empty_volume3d env)))
      → ((r v : Volume3D) (u : Option Volume3D)
          → union_volume3d env r v ≡ ok u
          → P u
          → P (some r) ⊎ P (some v))
      → Stems (λ w. P w.spatial_volume)
  unfolding union_volume union_spatial
  spatial-Stems P empty step r v u h k =
      let (x, q, l) = >>=-eq-ok (union_spatial env r.spatial_volume v.spatial_volume) _ h in
      go r.spatial_volume v.spatial_volume x q
        (subst P (sym (ap (λ w. w.spatial_volume) (ok-injective l))) k)
    where
      go : (a b x : Option Volume3D) → union_spatial env a b ≡ ok x → P x → P a ⊎ P b
      go a none x q j = inl (subst P (sym (ok-injective q)) j)
      go none (some b) x q j = elim (step (empty_volume3d env) b x q j) [
        | inl e ↦ absurd (empty e)
        | inr new ↦ inr new
      ]
      go (some a) (some b) x q j = step a b x q j

  lo-step :
      (t : Float) (r v : Volume3D) (u : Option Volume3D)
      → union_volume3d env r v ≡ ok u
      → HasLo u t
      → HasLo (some r) t ⊎ HasLo (some v) t
  unfolding union_volume3d
  lo-step t r v u h k =
      let (f, q, l) = >>=-eq-ok (union_footprint env r.footprint v.footprint) _ h in
      union_lo-cases r.altitude_lo v.altitude_lo t (subst (λ x. HasLo x t) (sym (ok-injective l)) k)

  hi-step :
      (t : Float) (r v : Volume3D) (u : Option Volume3D)
      → union_volume3d env r v ≡ ok u
      → HasHi u t
      → HasHi (some r) t ⊎ HasHi (some v) t
  unfolding union_volume3d
  hi-step t r v u h k =
      let (f, q, l) = >>=-eq-ok (union_footprint env r.footprint v.footprint) _ h in
      union_hi-cases r.altitude_hi v.altitude_hi t (subst (λ x. HasHi x t) (sym (ok-injective l)) k)

  cell-step :
      (c : CellId) (r v : Volume3D) (u : Option Volume3D)
      → union_volume3d env r v ≡ ok u
      → HasCell u c
      → HasCell (some r) c ⊎ HasCell (some v) c
  unfolding union_volume3d
  cell-step c r v u h k =
      let (f, q, l) = >>=-eq-ok (union_footprint env r.footprint v.footprint) _ h in
      footprint-cases r.footprint v.footprint f c q
        (subst (λ x. HasCell x c) (sym (ok-injective l)) k)

  -- Each thing that a union has, one of its volumes has.
  abbrev pub Comes : (Volume4D → Type 0) → List Volume4D → Volume4D → Type 0
  Comes P vs u = P u → (v : Volume4D) × Mem v vs × P v

  -- The volume `u` is made of the bounds and cells that the volumes have, and of no other.
  abbrev pub IsHull : List Volume4D → Volume4D → Type 0
  IsHull vs u =
      ((v : Volume4D) → Mem v vs → Reaches env u v)
      × ((t : Time) → Comes (λ w. w.end_time ≡ some t) vs u)
      × ((t : Time) → Comes (λ w. w.start_time ≡ some t) vs u)
      × ((a : Float) → Comes (λ w. HasLo w.spatial_volume a) vs u)
      × ((a : Float) → Comes (λ w. HasHi w.spatial_volume a) vs u)
      × ((c : CellId) → Comes (λ w. HasCell w.spatial_volume c) vs u)

  comes :
      (P : Volume4D → Type 0)
      → Stems P
      → ¬ (P (record { spatial_volume = none; end_time = none; start_time = none }))
      → (vs : List Volume4D) (u : Volume4D) → union_volumes4d env vs ≡ ok u
      → Comes P vs u
  unfolding union_volumes4d
  comes P step empty vs u h k = elim (stems P step _ vs u h k) [
    | inl e ↦ absurd (empty e)
    | inr found ↦ found
  ]

  -- The union of volumes is made of the bounds and the cells that they have: its end is the latest of
  -- their ends and its start the earliest of their starts (Go's zero time excepted), its altitudes are
  -- the lowest and the highest of theirs, and its cells are those of their footprints' coverings. A
  -- bound that a volume lacks does not count.
  pub union_volumes4d-IsHull :
      (vs : List Volume4D) (u : Volume4D) → union_volumes4d env vs ≡ ok u → IsHull vs u
  union_volumes4d-IsHull vs u h = (
    λ v m. union_volumes4d-Reaches env vs u v h m,
    λ t. comes _ (end-Stems t) (λ e. absurd (cc)) vs u h,
    λ t. comes _ (start-Stems t) (λ e. absurd (cc)) vs u h,
    λ a.
        comes _ (spatial-Stems (λ x. HasLo x a) (λ e. absurd (cc)) (lo-step a)) (λ e. elim e [ ]) vs
          u h,
    λ a.
        comes _ (spatial-Stems (λ x. HasHi x a) (λ e. absurd (cc)) (hi-step a)) (λ e. elim e [ ]) vs
          u h,
    λ c.
        comes _ (spatial-Stems (λ x. HasCell x c) (λ e. elim e [ ]) (cell-step c)) (λ e. elim e [ ])
          vs u h,
  )
