-- ===== src/Media/Thumbnail.antt =====
-- internal/media/handler.go `makeThumbnail`: the size of the thumbnail. The code computes with float64,
-- which `Float` stands for; the image sizes are far below 2^53, up to which each integer is a float64.
use chatroom_server.Base.{
  ℕ, ◌^◌, ◌≤◌, ◌<◌, ◌≡◌, Bool, true, false, ltb, if◌then◌else◌, arith, Bool-cases, inl, inr,
}

pub record Float : Type 1 where
  pub F : Type 0
  pub of_int : ℕ → F
  pub mul : F → F → F
  pub div : F → F → F
  pub lt : F → F → Bool
  -- `int(x)`; where that is no natural number, which the code does not meet, 0.
  pub trunc : F → ℕ

-- The integers that float64 has, each with all below it.
abbrev pub exact : ℕ
exact = 2 ^ 53

-- What IEEE 754 says of the code's operations, each of which rounds its exact result: rounding is
-- monotone and leaves a float64 as it is, and a quotient below 2^50 that is multiplied back is off by
-- less than one.
pub record IsFloat (L : Float) : Type 0 where
  pub lt_irrefl : (x : L.F) → L.lt x x ≡ false
  pub mul_mono :
      (s : L.F) (a b : ℕ)
      → a ≤ b
      → b < exact
      → L.trunc (L.mul (L.of_int a) s) ≤ L.trunc (L.mul (L.of_int b) s)
  pub mul-le :
      (s : L.F) (n : ℕ)
      → n < exact
      → L.lt (L.of_int 1) s ≡ false
      → L.trunc (L.mul (L.of_int n) s) ≤ n
  pub mul-div-le :
      (k n : ℕ)
      → k < 2 ^ 50
      → 0 < n
      → n < exact
      → L.trunc (L.mul (L.of_int n) (L.div (L.of_int k) (L.of_int n))) ≤ k
  pub le_of_lt-div :
      (k n : ℕ)
      → k < 2 ^ 50
      → 0 < n
      → n < exact
      → L.lt (L.of_int 1) (L.div (L.of_int k) (L.of_int n)) ≡ true
      → n ≤ k

abbrev pub thumb_max_dim : ℕ
thumb_max_dim = 320

abbrev pub long_edge : ℕ → ℕ → ℕ
long_edge w h = if ltb w h then h else w

abbrev pub at_least_one : ℕ → ℕ
at_least_one d = if ltb d 1 then 1 else d

module _ (L : Float) where
  abbrev pub scale : ℕ → ℕ → L.F
  scale w h =
      let s = L.div (L.of_int thumb_max_dim) (L.of_int (long_edge w h)) in
      if L.lt (L.of_int 1) s then L.of_int 1 else s

  abbrev pub scaled : ℕ → L.F → ℕ
  scaled d s = at_least_one (L.trunc (L.mul (L.of_int d) s))

  -- `dstW` and `dstH`
  unfoldable pub thumbnail_size : ℕ → ℕ → ℕ × ℕ
  thumbnail_size w h = (scaled w (scale w h), scaled h (scale w h))

module _ (L : Float) (lawful : IsFloat L) (w h : ℕ) (pw : 0 < w) (lw : w < exact)
    (lh : h < exact) where
  small : thumb_max_dim < 2 ^ 50
  small = omega arith

  scale-lt : L.lt (L.of_int 1) (scale L w h) ≡ false
  scale-lt =
      let s = L.div (L.of_int thumb_max_dim) (L.of_int (long_edge w h)) in
      elim (Bool-cases (L.lt (L.of_int 1) s)) [
        | inl e ↦ rw e (lawful.lt_irrefl (L.of_int 1))
        | inr e ↦ rw e e
      ]

  trunc-scale :
      (d : ℕ) → d ≤ long_edge w h → L.trunc (L.mul (L.of_int d) (scale L w h)) ≤ thumb_max_dim
  trunc-scale d below =
      let n = long_edge w h in
      let pos : 0 < n = ground arith in
      let bound : n < exact = ground arith in
      let s = L.div (L.of_int thumb_max_dim) (L.of_int n) in
      elim (Bool-cases (L.lt (L.of_int 1) s)) [
        | inl e ↦ rw e (
            omega (
              arith,
              lawful.le_of_lt-div thumb_max_dim n small pos bound e,
              lawful.mul-le (L.of_int 1) d (omega arith) (lawful.lt_irrefl (L.of_int 1)),
            ))
        | inr e ↦ rw e (
            omega (
              arith,
              lawful.mul_mono s d n below bound,
              lawful.mul-div-le thumb_max_dim n small pos bound,
            ))
      ]

  edge_bounds :
      (d : ℕ)
      → 0 < d
      → d ≤ long_edge w h
      → (1 ≤ scaled L d (scale L w h))
        × (scaled L d (scale L w h) ≤ thumb_max_dim)
        × (scaled L d (scale L w h) ≤ d)
  edge_bounds d p below =
      let bound : d < exact = ground arith in
      ground (arith, trunc-scale d below, lawful.mul-le (scale L w h) d bound scale-lt)

-- With an arithmetic that keeps the laws of float64: each edge of the thumbnail of an image whose edges
-- are not empty and below 2^53 is at least 1, at most 320, and at most the image's edge, so that no image
-- is enlarged.
pub thumbnail_size_bounds :
    (L : Float)
    → IsFloat L
    → (w h : ℕ) → 0 < w
    → 0 < h
    → w < exact
    → h < exact
    → let (tw, th) = thumbnail_size L w h in
      ((1 ≤ tw) × (tw ≤ thumb_max_dim) × (tw ≤ w)) × ((1 ≤ th) × (th ≤ thumb_max_dim) × (th ≤ h))
unfolding thumbnail_size
thumbnail_size_bounds L lawful w h pw ph lw lh = (
  edge_bounds L lawful w h pw lw lh w pw (ground arith),
  edge_bounds L lawful w h pw lw lh h ph (ground arith),
)
