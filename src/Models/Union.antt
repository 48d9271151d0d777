-- ===== src/Models/Union.antt =====
-- `UnionVolumes4D` of pkg/models/geo.go.
pub mod Reaches
pub mod Hull
use inter_uss_platform.Base.{
  ℕ, Bool, Option, none, some, List, [], ◌∷◌, ◌++◌, any, nat_eq, if◌then◌else◌,
}
use inter_uss_platform.Base.Int.{ltb_ℤ}
use inter_uss_platform.Base.Action.{Result, ok, err}
use inter_uss_platform.Api.{Float}
use inter_uss_platform.Errors.{Fault, ◌>>=◌}
use inter_uss_platform.Models.Times.{Time, before, after, is_zero}
use inter_uss_platform.Models.Platform.{Platform, CellId, CellUnion}
use inter_uss_platform.Models.Volumes.{
  Geometry, geometry_func, precomputed, circle, polygon, Volume3D, Volume4D, geometry_covering,
}

-- `timeP`
time_p : Time → Option Time
time_p t = if is_zero t then none else some t

-- The bound so far and the bound of one more volume.
union_end : Option Time → Option Time → Option Time
unfolding time_p
union_end result none = result
union_end none (some t) = time_p t
union_end (some r) (some t) = if after t r then some t else some r

union_start : Option Time → Option Time → Option Time
unfolding time_p
union_start result none = result
union_start none (some t) = time_p t
union_start (some r) (some t) = if before t r then some t else some r

union_lo : Option Float → Option Float → Option Float
union_lo result none = result
union_lo none (some a) = some a
union_lo (some r) (some a) = if ltb_ℤ a r then some a else some r

union_hi : Option Float → Option Float → Option Float
union_hi result none = result
union_hi none (some a) = some a
union_hi (some r) (some a) = if ltb_ℤ r a then some a else some r

-- `merge`, on a set of cells that is a list; the order in which a Go map is read is left open.
merge : CellUnion → CellUnion → CellUnion
merge pcg [] = pcg
merge pcg (id ∷ ids) = merge (if any (nat_eq id) pcg then pcg else pcg ++ id ∷ []) ids

unfoldable pub precomputed_cells : Option Geometry → CellUnion
precomputed_cells (some (precomputed cells)) = cells
precomputed_cells _ = []

module _ (env : Platform) where
  union_footprint : Option Geometry → Option Geometry → Result Fault (Option Geometry)
  union_footprint result none = ok result
  union_footprint result (some g) = do
    cells ← geometry_covering env g
    ok (some (precomputed (merge (precomputed_cells result) cells)))

  abbrev pub empty_volume3d : Volume3D
  empty_volume3d = record { altitude_hi = none; altitude_lo = none; footprint = none }

  union_volume3d : Volume3D → Volume3D → Result Fault (Option Volume3D)
  union_volume3d r v = do
    footprint ← union_footprint r.footprint v.footprint
    ok (
        some (record {
          altitude_lo = union_lo r.altitude_lo v.altitude_lo;
          altitude_hi = union_hi r.altitude_hi v.altitude_hi;
          footprint = footprint;
        }))

  union_spatial : Option Volume3D → Option Volume3D → Result Fault (Option Volume3D)
  union_spatial result none = ok result
  union_spatial none (some v) = union_volume3d empty_volume3d v
  union_spatial (some r) (some v) = union_volume3d r v

  -- One round of the loop.
  union_volume : Volume4D → Volume4D → Result Fault Volume4D
  union_volume result volume = do
    spatial ← union_spatial result.spatial_volume volume.spatial_volume
    ok (record {
      end_time = union_end result.end_time volume.end_time;
      start_time = union_start result.start_time volume.start_time;
      spatial_volume = spatial;
    })

  union_from : Volume4D → List Volume4D → Result Fault Volume4D
  union_from result [] = ok result
  union_from result (v ∷ vs) = do r ← union_volume result v; union_from r vs

  unfoldable pub union_volumes4d : List Volume4D → Result Fault Volume4D
  unfolding union_from union_volume union_spatial union_volume3d union_footprint precomputed_cells
      merge union_hi union_lo union_start union_end
  union_volumes4d =
      union_from (record { spatial_volume = none; end_time = none; start_time = none })
