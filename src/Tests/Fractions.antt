-- ===== src/Tests/Fractions.antt =====
-- Exact fractions in the place of float64, and the size of a thumbnail computed with them.
use chatroom_server.Base.{ℕ, ◌*◌, ◌/◌, ◌≤◌, ◌≡◌, ltb, arith, Bool-cases, inl, inr, ◌==◌}
use native.Mathlib.Nat.{
  le-div_iff_mul-le, div-le_of_le-mul, div-mul-le_self, mul-le-mul_right, div-zero, mul_comm,
}
use chatroom_server.Media.Thumbnail.{
  Float, IsFloat, thumb_max_dim, thumbnail_size, thumbnail_size_bounds,
}

-- A numerator and a denominator.
abbrev pub fractions : Float
fractions = record {
  F = ℕ × ℕ;
  of_int = λ n. (n, 1);
  mul = λ x y. (x.0 * y.0, x.1 * y.1);
  div = λ x y. (x.0 * y.1, x.1 * y.0);
  lt = λ x y. ltb (x.0 * y.1) (y.0 * x.1);
  trunc = λ x. x.0 / x.1;
}

div_mono : (a b k : ℕ) → a ≤ b → a / k ≤ b / k
div_mono a b k h = elim (Bool-cases (k == 0)) [
  | inl e ↦ let z : k ≡ 0 = ground arith in rw z (ground (arith, div-zero a, div-zero b))
  | inr e ↦ (le-div_iff_mul-le (ground arith)).1 (ground (arith, div-mul-le_self a k))
]

fractions-IsFloat : IsFloat fractions
fractions-IsFloat = record {
  lt_irrefl = λ x. ground arith;
  mul_mono = λ s a b h lt. div_mono (a * s.0) (b * s.0) (1 * s.1) (mul-le-mul_right s.0 h);
  mul-le = λ s n lt h.
      let le : s.0 ≤ s.1 = ground arith in
      div-le_of_le-mul (1 * s.1) (ground (arith, mul-le-mul_right n le, mul_comm n s.0));
  mul-div-le = λ k n small pos lt. div-le_of_le-mul (1 * (1 * n)) (ground (arith, mul_comm n k));
  le_of_lt-div = λ k n small pos lt h. ground arith;
}

thumbnail_size_bounds_example :
    ((1 ≤ 320) × (320 ≤ thumb_max_dim) × (320 ≤ 640)) × ((1 ≤ 1) × (1 ≤ thumb_max_dim) × (1 ≤ 1))
unfolding thumbnail_size
thumbnail_size_bounds_example =
    thumbnail_size_bounds fractions fractions-IsFloat 640 1 (omega arith) (omega arith)
      (omega arith) (omega arith)
