-- ===== src/Models/Covering.antt =====
-- pkg/geo/s2.go: the covering of a polygon, over the functions of the S2 library.
pub mod Sound
use inter_uss_platform.Base.{
  ℕ, zero, suc, ◌+◌, ◌-◌, ◌%◌, Bool, not, List, [], ◌∷◌, ◌++◌, any, length, nat_eq, if◌then◌else◌,
}
use inter_uss_platform.Base.Int.{pos, ltb_ℤ, leb_ℤ}
use inter_uss_platform.Base.Action.{Result, ok, err}
use inter_uss_platform.Api.{Float}
use inter_uss_platform.Errors.{Code, Fault, coded, reject_if, ◌>>=◌, ◌>>◌}
use inter_uss_platform.Models.Platform.{Platform, Point, CellUnion}
use inter_uss_platform.Models.Chords.{chord_segments_intersect, loop_area_km2}

-- `maxAllowedAreaKm2`, 2500 as a `float64`
abbrev pub max_allowed_area_km2 : Float
max_allowed_area_km2 = pos 4657715973212602368

-- The numbers of a loop from `start`, `count` of them.
unfoldable pub range : ℕ → ℕ → List ℕ
range start zero = []
range start (suc count) = start ∷ range (start + 1) count

-- `points[k]`, for an index that is in range.
unfoldable pub point_at : List Point → ℕ → Point
point_at [] k = (pos 0, pos 0)
point_at (p ∷ points) zero = p
point_at (p ∷ points) (suc k) = point_at points k

unfoldable pub reverse : List Point → List Point
reverse [] = []
reverse (p ∷ points) = reverse points ++ p ∷ []

-- The upper bound of the inner loop: the last edge meets the first one.
unfoldable pub upper_bound : ℕ → ℕ → ℕ
upper_bound n i = if nat_eq i 0 then n - 1 else n

module _ (env : Platform) where
  -- Whether the edges from the points `i` and `j` cross.
  unfoldable pub edges_cross : List Point → ℕ → ℕ → Bool
  edges_cross points i j =
      chord_segments_intersect env (point_at points i) (point_at points (i + 1)) (point_at points j)
        (point_at points ((j + 1) % length points))

  unfoldable pub crosses_later : List Point → ℕ → Bool
  crosses_later points i =
      any (edges_cross points i) (range (i + 2) (upper_bound (length points) i - (i + 2)))

  -- `validateLoop`
  unfoldable pub validate_loop : List Point → Result Fault (Unit {0})
  validate_loop points =
      reject_if (any (crosses_later points) (range 0 (length points - 2))) Code.no_code

  -- The loop whose area is smaller than half of the earth's, if one is.
  unfoldable pub oriented : List Point → List Point
  oriented points =
      if ltb_ℤ max_allowed_area_km2 (loop_area_km2 env points) then reverse points else points

  unfoldable pub loop_or_polyline : List Point → CellUnion
  loop_or_polyline loop =
      if leb_ℤ (loop_area_km2 env loop) (pos 0)
      then env.polyline_covering loop
      else env.loop_covering loop

  -- `Covering`
  unfoldable pub covering : List Point → Result Fault CellUnion
  covering points = do
    validate_loop points
    reject_if (not (env.loop_is_valid points)) Code.no_code
    reject_if (ltb_ℤ max_allowed_area_km2 (loop_area_km2 env (oriented points))) Code.area_too_large
    ok (loop_or_polyline (oriented points))
