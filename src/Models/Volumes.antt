-- ===== src/Models/Volumes.antt =====
-- Volumes of space and time: pkg/models/geo.go, and their reading from the API in
-- pkg/models/scd_conversions.go.
use inter_uss_platform.Base.{
  String, Bool, ◌||◌, Option, none, some, List, map, ltb, not, str_eq, any, length, if◌then◌else◌,
}
use inter_uss_platform.Base.Int.{pos, negsuc, ltb_ℤ}
use inter_uss_platform.Base.Action.{Result, ok, err}
use inter_uss_platform.Api
use inter_uss_platform.Api.{Float}
use inter_uss_platform.Errors.{
  Code, Fault, coded, missing_footprint, missing_spatial_volume, deref, ◌>>=◌,
}
use inter_uss_platform.Models.Times.{Time}
use inter_uss_platform.Models.Covering.{covering}
use inter_uss_platform.Models.Platform.{Platform, CellUnion}

pub record LatLngPoint : Type 0 where
  pub lat : Float
  pub lng : Float

pub record GeoCircle : Type 0 where
  pub center : LatLngPoint
  pub radius_meter : Float

-- The implementations of the interface `Geometry`. Every `GeometryFunc` of the program returns the
-- cells that it was made with; `precomputed` is `precomputedCellGeometry`.
pub data Geometry : Type 0 where
  circle : GeoCircle → Geometry
  polygon : List LatLngPoint → Geometry
  geometry_func precomputed : CellUnion → Geometry

pub record Volume3D : Type 0 where
  pub altitude_hi : Option Float
  pub altitude_lo : Option Float
  pub footprint : Option Geometry

pub record Volume4D : Type 0 where
  pub spatial_volume : Option Volume3D
  pub end_time : Option Time
  pub start_time : Option Time

-- The bounds ±90 and ±180 as `float64`.
abbrev max_lat : Float
max_lat = pos 4636033603912859648

abbrev min_lat : Float
min_lat = negsuc 4636033603912859647

abbrev max_lng : Float
max_lng = pos 4640537203540230144

abbrev min_lng : Float
min_lng = negsuc 4640537203540230143

pub off_earth : LatLngPoint → Bool
off_earth p =
    ltb_ℤ max_lat p.lat || ltb_ℤ p.lat min_lat || ltb_ℤ max_lng p.lng || ltb_ℤ p.lng min_lng

module _ (env : Platform) where
  -- `CalculateCovering` of each geometry
  unfoldable pub geometry_covering : Geometry → Result Fault CellUnion
  unfolding off_earth
  geometry_covering (circle gc) =
      if off_earth gc.center
      then err (coded Code.bad_request)
      else if not (ltb_ℤ (pos 0) gc.radius_meter)
      then err (coded Code.bad_request)
      else ok (env.circle_covering gc.center.lat gc.center.lng gc.radius_meter)
  geometry_covering (polygon vertices) =
      if any off_earth vertices
      then err (coded Code.bad_request)
      else if ltb (length vertices) 3
      then err (coded Code.bad_request)
      else covering env (map (λ p. (p.lat, p.lng)) vertices)
  geometry_covering (geometry_func cells) = ok cells
  geometry_covering (precomputed cells) = ok cells

  footprint_covering : Option Geometry → Result Fault CellUnion
  footprint_covering none = err missing_footprint
  footprint_covering (some g) = geometry_covering g

  -- `Volume3D.CalculateCovering`
  unfoldable pub calculate_covering : Volume3D → Result Fault CellUnion
  unfolding footprint_covering
  calculate_covering v = footprint_covering v.footprint

  spatial_covering : Option Volume3D → Result Fault CellUnion
  spatial_covering none = err missing_spatial_volume
  spatial_covering (some v) = calculate_covering v

  -- `Volume4D.CalculateSpatialCovering`
  unfoldable pub calculate_spatial_covering : Volume4D → Result Fault CellUnion
  unfolding spatial_covering
  calculate_spatial_covering v = spatial_covering v.spatial_volume

  -- `LatLngPointFromSCDRest`; the conversions between `float64` types change nothing.
  abbrev lat_lng_point_from_scd_rest : Api.LatLngPoint → LatLngPoint
  lat_lng_point_from_scd_rest p = record { lat = p.lat; lng = p.lng }

  -- A unit that the map `unitToMeterMultiplicativeFactors` lacks reads as the factor 0.
  unit_factor : String → Float
  unit_factor units = if str_eq units "M" then pos 1065353216 else pos 0

  geo_circle_from_scd_rest : Api.Circle → Result Fault GeoCircle
  unfolding unit_factor
  geo_circle_from_scd_rest c = do
    center ← deref c.center
    radius ← deref c.radius
    ok (record {
      center = lat_lng_point_from_scd_rest center;
      radius_meter = env.mul_float32 (unit_factor radius.units) radius.value;
    })

  altitude_from_scd_rest : Option Api.Altitude → Result Fault (Option Float)
  altitude_from_scd_rest none = ok none
  altitude_from_scd_rest (some a) =
      if not (str_eq a.units "M")
      then err (coded Code.no_code)
      else if not (str_eq a.reference "W84")
      then err (coded Code.no_code)
      else ok (some (env.float32 a.value))

  outline_from_scd_rest : Option Api.Circle → Option Api.Polygon → Result Fault (Option Geometry)
  unfolding geo_circle_from_scd_rest
  outline_from_scd_rest (some _) (some _) = err (coded Code.no_code)
  outline_from_scd_rest none (some p) =
      ok (some (polygon (map lat_lng_point_from_scd_rest p.vertices)))
  outline_from_scd_rest (some c) none = do gc ← geo_circle_from_scd_rest c; ok (some (circle gc))
  outline_from_scd_rest none none = ok none

  -- `Volume3DFromSCDRest`
  pub volume3d_from_scd_rest : Api.Volume3D → Result Fault Volume3D
  unfolding altitude_from_scd_rest outline_from_scd_rest
  volume3d_from_scd_rest v = do
    lo ← altitude_from_scd_rest v.altitude_lower
    hi ← altitude_from_scd_rest v.altitude_upper
    footprint ← outline_from_scd_rest v.outline_circle v.outline_polygon
    ok (record { footprint = footprint; altitude_lo = lo; altitude_hi = hi })

  time_from_rest : Option Api.Time → Result Fault (Option Time)
  time_from_rest none = ok none
  time_from_rest (some t) = elim (env.parse_time t.value) [
    | none ↦ err (coded Code.no_code)
    | some ts ↦ ok (some ts)
  ]

  -- `Volume4DFromSCDRest`
  unfoldable pub volume4d_from_scd_rest : Api.Volume4D → Result Fault Volume4D
  unfolding volume3d_from_scd_rest time_from_rest
  volume4d_from_scd_rest v = do
    vol3 ← volume3d_from_scd_rest v.volume
    start ← time_from_rest v.time_start
    end ← time_from_rest v.time_end
    ok (record { spatial_volume = some vol3; start_time = start; end_time = end })
