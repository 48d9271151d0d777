-- ===== src/Models/Chords.antt =====
-- pkg/geo/s2.go: whether two chord segments intersect, and the area of a loop, over the vectors of
-- the S2 library.
pub mod Apart
use inter_uss_platform.Base.{Bool, true, false, List, if◌then◌else◌}
use inter_uss_platform.Base.Int.{pos, ltb_ℤ, leb_ℤ}
use inter_uss_platform.Api.{Float}
use inter_uss_platform.Models.Platform.{Platform, Point, Vector}

-- `math.Pi`, `4.0 * math.Pi` and `earthAreaKm2`, as `float64`
abbrev pub pi : Float
pi = pos 4614256656552045848

abbrev pub four_pi : Float
four_pi = pos 4623263855806786840

abbrev pub earth_area_km2 : Float
earth_area_km2 = pos 4737337196858572800

-- Whether both chords take the short way, or both the long way.
unfoldable pub same_way : Float → Float → Bool
same_way l1p l2p =
    if (if leb_ℤ l1p pi then leb_ℤ l2p pi else false)
    then true
    else if leb_ℤ pi l1p
    then leb_ℤ pi l2p
    else false

module _ (env : Platform) where
  -- `loopAreaKm2`
  unfoldable pub loop_area_km2 : List Point → Float
  loop_area_km2 loop =
      if env.loop_is_empty loop
      then pos 0
      else env.div_float (env.mul_float (env.loop_area loop) earth_area_km2) four_pi

  -- The possible intersection of the planes through two chords.
  unfoldable pub intersection_point : Vector → Vector → Vector → Vector → Vector
  intersection_point p1a p1b p2a p2b =
      env.normalize (env.cross (env.cross p1a p1b) (env.cross p2a p2b))

  -- Whether both ends of a chord are on the same side of the intersection.
  unfoldable pub same_side : Vector → Vector → Vector → Bool
  same_side a b ip = ltb_ℤ (pos 0) (env.dot (env.cross a ip) (env.cross b ip))

  -- The length of the chord from `a` over the intersection to `b`.
  unfoldable pub chord_length : Vector → Vector → Vector → Float
  chord_length a b ip = env.add_float (env.angle a ip) (env.angle ip b)

  unfoldable pub vectors_intersect : Vector → Vector → Vector → Vector → Vector → Bool
  vectors_intersect p1a p1b p2a p2b ip =
      if same_side p1a p1b ip
      then false
      else if same_side p2a p2b ip
      then false
      else same_way (chord_length p1a p1b ip) (chord_length p2a p2b ip)

  -- `chordSegmentsIntersect`
  unfoldable pub chord_segments_intersect : Point → Point → Point → Point → Bool
  chord_segments_intersect p q r s =
      let p1a = env.vector_of p in
      let p1b = env.vector_of q in
      let p2a = env.vector_of r in
      let p2b = env.vector_of s in
      vectors_intersect p1a p1b p2a p2b (intersection_point p1a p1b p2a p2b)
