-- ===== src/Models/Platform.antt =====
-- What the program takes from code that is not in the repository: github.com/google/uuid, net/url,
-- time, crypto/sha256 with encoding/base64, and github.com/golang/geo/s2.
use inter_uss_platform.Base.{ℕ, String, Bool, Option, List}
use inter_uss_platform.Api.{Float}
use inter_uss_platform.Models.Times.{Time}

-- What the code reads of a `uuid.UUID`: its text, whether its variant is `RFC4122`, its version, and
-- the time that a version 7 identifier holds.
pub record Uuid : Type 0 where
  pub text : String
  pub is_rfc4122 : Bool
  pub version : ℕ
  pub time : Time

-- A cell of the S2 library, `s2.CellID`, and a list of them, `s2.CellUnion`.
abbrev pub CellId : Type 0
CellId = ℕ

abbrev pub CellUnion : Type 0
CellUnion = List CellId

-- A point on the earth, `s2.PointFromLatLng`, as its latitude and longitude in degrees.
abbrev pub Point : Type 0
Point = Float × Float

-- The vector of a point, `r3.Vector`.
abbrev pub Vector : Type 0
Vector = Float × Float × Float

pub record Platform : Type 0 where
  -- `uuid.Parse`
  pub parse_uuid : String → Option Uuid
  -- the scheme of `url.Parse`
  pub url_scheme : String → Option String
  -- `strings.ToLower`
  pub to_lower : String → String
  -- `time.Parse(time.RFC3339Nano, …)` and `Format(time.RFC3339Nano)`
  pub parse_time : String → Option Time
  pub format_time : Time → String
  -- the standard base64 text of the SHA-256 sum of a text
  pub digest : String → String
  -- the conversion from `float64` to `float32`, and the product of two `float32`
  pub float32 : Float → Float
  pub mul_float32 : Float → Float → Float
  -- `RegionCoverer.Covering` of the 20-gon around (lat, lng) with a radius in metres
  pub circle_covering : Float → Float → Float → CellUnion
  -- the sum, product and quotient of two `float64`
  pub add_float : Float → Float → Float
  pub mul_float : Float → Float → Float
  pub div_float : Float → Float → Float
  -- the vector of `s2.PointFromLatLng`, and `Cross`, `Normalize`, `Dot` and `Angle` of vectors
  pub vector_of : Point → Vector
  pub cross : Vector → Vector → Vector
  pub normalize : Vector → Vector
  pub dot : Vector → Vector → Float
  pub angle : Vector → Vector → Float
  -- `Loop.Validate`, `Loop.IsEmpty` and `Loop.Area`
  pub loop_is_valid : List Point → Bool
  pub loop_is_empty : List Point → Bool
  pub loop_area : List Point → Float
  -- `RegionCoverer.Covering` of a loop and of a polyline
  pub loop_covering : List Point → CellUnion
  pub polyline_covering : List Point → CellUnion
  -- `CellUnion.Contains` and `s2.CellUnionFromUnion`
  pub contains : CellUnion → CellUnion → Bool
  pub cell_union : CellUnion → CellUnion → CellUnion
  -- `CellUnion.Denormalize(13, 1)`
  pub denormalize : CellUnion → CellUnion
  -- `CellID.Level`
  pub cell_level : CellId → ℕ
