-- ===== src/Models/Chords/Apart.antt =====
-- When two chord segments do not intersect.
use inter_uss_platform.Base.{◌≡◌, ◌⊎◌, inl, inr, true, false, Bool-cases, arith}
use inter_uss_platform.Base.Int.{pos, ◌≤ℤ◌}
use inter_uss_platform.Api.{Float}
use inter_uss_platform.Models.Platform.{Platform, Point, Vector}
use inter_uss_platform.Models.Chords.{
  pi, intersection_point, same_side, chord_length, same_way, vectors_intersect,
  chord_segments_intersect,
}

-- One length is less than π and the other one more.
abbrev pub OppositeWays : Float → Float → Type 0
OppositeWays l1p l2p = ((¬ (pi ≤ℤ l1p)) × (¬ (l2p ≤ℤ pi))) ⊎ ((¬ (pi ≤ℤ l2p)) × (¬ (l1p ≤ℤ pi)))

same_way-OppositeWays : (l1p l2p : Float) → same_way l1p l2p ≡ false → OppositeWays l1p l2p
unfolding same_way
same_way-OppositeWays l1p l2p h = ground arith

module _ (env : Platform) where
  abbrev pub OnOneSide : Vector → Vector → Vector → Type 0
  OnOneSide a b ip = ¬ (env.dot (env.cross a ip) (env.cross b ip) ≤ℤ pos 0)

  -- One of the chords has both ends on one side of the intersection of their planes, or one goes
  -- there the short way round the earth and the other one the long way.
  abbrev pub ApartAt : Vector → Vector → Vector → Vector → Vector → Type 0
  ApartAt p1a p1b p2a p2b ip =
      OnOneSide p1a p1b ip
      ⊎ (OnOneSide p2a p2b ip
          ⊎ OppositeWays (env.add_float (env.angle p1a ip) (env.angle ip p1b))
              (env.add_float (env.angle p2a ip) (env.angle ip p2b)))

  abbrev pub Apart : Point → Point → Point → Point → Type 0
  Apart p q r s =
      let p1a = env.vector_of p in
      let p1b = env.vector_of q in
      let p2a = env.vector_of r in
      let p2b = env.vector_of s in
      ApartAt p1a p1b p2a p2b (env.normalize (env.cross (env.cross p1a p1b) (env.cross p2a p2b)))

  same_side-OnOneSide : (a b ip : Vector) → same_side env a b ip ≡ true → OnOneSide a b ip
  unfolding same_side
  same_side-OnOneSide a b ip h = ground arith

  vectors_intersect-ApartAt :
      (a b c d ip : Vector) → vectors_intersect env a b c d ip ≡ false → ApartAt a b c d ip
  unfolding vectors_intersect chord_length
  vectors_intersect-ApartAt a b c d ip h = elim (Bool-cases (same_side env a b ip)) [
    | inl e ↦ inl (same_side-OnOneSide a b ip e)
    | inr e ↦ elim (Bool-cases (same_side env c d ip)) [
      | inl k ↦ inr (inl (same_side-OnOneSide c d ip k))
      | inr k ↦ inr (inr (same_way-OppositeWays _ _ (last e k)))
    ]
  ]
    where
      last :
          same_side env a b ip ≡ false
          → same_side env c d ip ≡ false
          → same_way (chord_length env a b ip) (chord_length env c d ip) ≡ false
      last e k = ground arith

  pub chord_segments_intersect-Apart :
      (p q r s : Point) → chord_segments_intersect env p q r s ≡ false → Apart p q r s
  unfolding chord_segments_intersect intersection_point
  chord_segments_intersect-Apart p q r s h = vectors_intersect-ApartAt _ _ _ _ _ h
