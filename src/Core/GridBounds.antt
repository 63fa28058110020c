-- ===== src/Core/GridBounds.antt =====
-- What a grid shape that passes `validate` guarantees (src/cumes/core/grid_shape.cpp).
use native.Mathlib.Nat.{mod-eq_of_lt}
use cu_mes.Base.{
  zero, suc, Bool-cases, inl, inr, leb→le, leb, if◌then◌else◌, ℕ, ◌+◌, ◌*◌, ◌/◌, ◌%◌, ◌^◌, ◌≤◌, ◌<◌,
  ◌≡◌, none, some, ℤ, pos, negsuc, pos_part, ◌≤ℤ◌, IsI32, arith,
}
use cu_mes.Core.CheckedSize.{size_mod, size_max, to_size, checked_mul, checked_add}
use cu_mes.Core.GridShape.{GridShape, full_points, modes, product_or_zero}

div_bound : (a b m : ℕ) → 0 < a → b ≤ m / a → a * b ≤ m
div_bound a b m p h = grind arith

div_bound_lt : (a b m : ℕ) → 0 < a → m / a < b → m < a * b
div_bound_lt a b m p h = grind arith

checked_mul_fits : (a b : ℕ) → a * b ≤ size_max → checked_mul a b ≡ some (a * b)
unfolding checked_mul
checked_mul_fits a b h =
    ground (arith, div_bound_lt a b size_max, mod-eq_of_lt {n = a * b} {m = size_mod})

checked_mul_overflows : (a b : ℕ) → size_max < a * b → checked_mul a b ≡ none
unfolding checked_mul
checked_mul_overflows zero b h = absurd (omega arith)
checked_mul_overflows (suc a) b h = ground (arith, div_bound (suc a) b size_max)

-- The checked product is the product if that fits in `size_t`, and nothing otherwise.
pub checked_mul_exact :
    (a b : ℕ) → checked_mul a b ≡ (if leb (a * b) size_max then some (a * b) else none)
checked_mul_exact a b = ground (arith, checked_mul_fits a b, checked_mul_overflows a b)

-- The checked sum is the sum if that fits in `size_t`, and nothing otherwise.
pub checked_add_exact :
    (a b : ℕ)
    → a ≤ size_max
    → checked_add a b ≡ (if leb (a + b) size_max then some (a + b) else none)
unfolding checked_add
checked_add_exact a b h = ground arith

triple_zero : (x y z : ℕ) → size_max < x * y → x * y * z ≤ size_max → x * y * z ≡ 0
triple_zero x y zero h k = omega arith
triple_zero x y (suc z) h k = absurd (omega arith)

pub product_or_zero_lem :
    (x y z : ℕ) → product_or_zero x y z ≡ (if leb (x * y * z) size_max then x * y * z else 0)
product_or_zero_lem x y z = elim (Bool-cases (leb (x * y) size_max)) [
  | inl fits ↦
      rw (checked_mul_fits x y (leb→le _ _ fits), product_or_zero)
        (rw (checked_mul_exact (x * y) z) (ground arith))
  | inr over ↦
      rw (checked_mul_overflows x y (ground arith), product_or_zero)
        (ground (arith, triple_zero x y z))
]

-- Every extent is a 32-bit number.
pub record IsInt32Shape (s : GridShape) : Type 0 where
  pub ns : IsI32 s.ns
  pub ntheta : IsI32 s.ntheta
  pub nzeta : IsI32 s.nzeta
  pub mpol : IsI32 s.mpol
  pub ntor : IsI32 s.ntor

-- The extents as numbers.
abbrev pub points : GridShape → ℕ
points s = pos_part s.ns * pos_part s.ntheta * pos_part s.nzeta

-- The documented invariants of a resolved shape, and a point count that fits in `size_t`.
pub record IsResolved (s : GridShape) : Type 0 where
  pub surfaces : pos 3 ≤ℤ s.ns
  pub poloidal : pos 2 ≤ℤ s.mpol
  pub toroidal : pos 0 ≤ℤ s.ntor
  pub periods : pos 1 ≤ℤ s.nfp
  pub theta : pos 2 ≤ℤ s.ntheta
  pub theta_even : pos_part s.ntheta % 2 ≡ 0
  pub zeta : pos 1 ≤ℤ s.nzeta
  pub fits : points s ≤ size_max

pub to_size-nonneg : (a : ℤ) → IsI32 a → pos 0 ≤ℤ a → to_size a ≡ pos_part a
to_size-nonneg (pos n) h k = omega arith
to_size-nonneg (negsuc n) h k = absurd (omega arith)

mode_product_small : (m n : ℕ) → m < 2 ^ 31 → n < 2 ^ 31 → m * (n + 1) ≤ size_max
mode_product_small m n h k = grind arith

-- Neither factor can make the mode count of a 32-bit shape overflow.
pub modes_exact :
    (s : GridShape)
    → IsInt32Shape s
    → pos 0 ≤ℤ s.mpol
    → pos 0 ≤ℤ s.ntor
    → modes s ≡ pos_part s.mpol * (pos_part s.ntor + 1)
unfolding modes
modes_exact s h m n =
    rw (to_size-nonneg s.mpol h.mpol m, to_size-nonneg s.ntor h.ntor n)
      (ground (
        arith,
        checked_mul_fits (pos_part s.mpol) (pos_part s.ntor + 1),
        mode_product_small (pos_part s.mpol) (pos_part s.ntor),
      ))

pub full_points_exact :
    (s : GridShape)
    → IsInt32Shape s
    → pos 0 ≤ℤ s.ns
    → pos 0 ≤ℤ s.ntheta
    → pos 0 ≤ℤ s.nzeta
    → full_points s ≡ (if leb (points s) size_max then points s else 0)
unfolding full_points
full_points_exact s h a b c =
    rw
      (
        to_size-nonneg s.ns h.ns a,
        to_size-nonneg s.ntheta h.ntheta b,
        to_size-nonneg s.nzeta h.nzeta c,
      )
      (product_or_zero_lem (pos_part s.ns) (pos_part s.ntheta) (pos_part s.nzeta))
