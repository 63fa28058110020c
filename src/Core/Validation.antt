-- ===== src/Core/Validation.antt =====
-- `GridShape::validate` of src/cumes/core/grid_shape.cpp accepts exactly the resolved shapes.
use cu_mes.Base.{
  ℕ, zero, suc, ◌+◌, ◌-◌, ◌*◌, ◌%◌, ◌≤◌, ◌<◌, ◌≡◌, ◌≢◌, ◌↔◌, false, none, some, ℤ, pos, negsuc,
  pos_part, ◌≤ℤ◌, IsI32, arith,
}
use cu_mes.Core.CheckedSize.{to_size}
use cu_mes.Core.GridShape.{
  GridShape, full_points, half_points, modes, validate, pred_ℤ, is_odd, mode_count_overflows,
}
use cu_mes.Core.GridBounds.{
  IsInt32Shape, IsResolved, modes_exact, full_points_exact, product_or_zero_lem, to_size-nonneg,
}

mul_pos : (a b : ℕ) → 0 < a → 0 < b → 0 < a * b
mul_pos a b h k = grind arith

points_pos : (a b c : ℕ) → 0 < a → 0 < b → 0 < c → 0 < a * b * c
points_pos a b c h k l = mul_pos (a * b) c (mul_pos a b h k) l

even_of_nonneg : (n : ℤ) → pos 0 ≤ℤ n → is_odd n ≡ false → pos_part n % 2 ≡ 0
even_of_nonneg (pos n) h e = ground arith
even_of_nonneg (negsuc n) h e = absurd (omega arith)

odd_of_nonneg : (n : ℤ) → pos 0 ≤ℤ n → pos_part n % 2 ≡ 0 → is_odd n ≡ false
odd_of_nonneg (pos n) h e = ground arith
odd_of_nonneg (negsuc n) h e = absurd (omega arith)

accepted-IsResolved : (s : GridShape) → IsInt32Shape s → validate s ≡ none → IsResolved s
unfolding validate
accepted-IsResolved s h e = ground (arith, full_points_exact s h, even_of_nonneg s.ntheta)

IsResolved-accepted : (s : GridShape) → IsInt32Shape s → IsResolved s → validate s ≡ none
unfolding validate
IsResolved-accepted s h r = ground (
  arith,
  full_points_exact s h,
  modes_exact s h,
  odd_of_nonneg s.ntheta,
  points_pos (pos_part s.ns) (pos_part s.ntheta) (pos_part s.nzeta),
  mul_pos (pos_part s.mpol) (pos_part s.ntor + 1),
)

-- A shape of 32-bit extents is accepted exactly when it meets the documented invariants and its
-- point count fits in `size_t`.
pub validate_iff : (s : GridShape) → IsInt32Shape s → (validate s ≡ none) ↔ IsResolved s
validate_iff s h = (accepted-IsResolved s h, IsResolved-accepted s h)

half_le_full : (n a b : ℕ) → 0 < n → (n - 1) * a * b ≤ n * a * b
half_le_full n a b h = grind arith

pub to_size_pred : (n : ℤ) → IsI32 n → pos 1 ≤ℤ n → to_size (pred_ℤ n) ≡ pos_part n - 1
to_size_pred (pos n) h k = ground arith
to_size_pred (negsuc n) h k = absurd (omega arith)

half_points_exact :
    (s : GridShape)
    → IsInt32Shape s
    → IsResolved s
    → half_points s ≡ (pos_part s.ns - 1) * pos_part s.ntheta * pos_part s.nzeta
unfolding half_points
half_points_exact s h r =
    rw
      (
        to_size_pred s.ns h.ns (omega (arith, r.surfaces)),
        to_size-nonneg s.ntheta h.ntheta (omega (arith, r.theta)),
        to_size-nonneg s.nzeta h.nzeta (omega (arith, r.zeta)),
      )
      (ground (
        arith,
        r.surfaces,
        r.fits,
        product_or_zero_lem (pos_part s.ns - 1) (pos_part s.ntheta) (pos_part s.nzeta),
        half_le_full (pos_part s.ns) (pos_part s.ntheta) (pos_part s.nzeta),
      ))

full_of_resolved :
    (s : GridShape)
    → IsInt32Shape s
    → IsResolved s
    → full_points s ≡ pos_part s.ns * pos_part s.ntheta * pos_part s.nzeta
full_of_resolved s h r = ground (arith, full_points_exact s h, r.surfaces, r.theta, r.zeta, r.fits)

half_lt_full : (n a b : ℕ) → 0 < n → 0 < a → 0 < b → (n - 1) * a * b < n * a * b
half_lt_full zero a b h k l = elim h [ ]
half_lt_full (suc n) a b h k l = grind (arith, mul_pos a b)

extents_of_counts :
    (s : GridShape) {full half mode : ℕ}
    → full ≡ pos_part s.ns * pos_part s.ntheta * pos_part s.nzeta
    → half ≡ (pos_part s.ns - 1) * pos_part s.ntheta * pos_part s.nzeta
    → mode ≡ pos_part s.mpol * (pos_part s.ntor + 1)
    → IsResolved s
    → (full ≡ pos_part s.ns * pos_part s.ntheta * pos_part s.nzeta)
      × (half ≡ (pos_part s.ns - 1) * pos_part s.ntheta * pos_part s.nzeta)
      × (mode ≡ pos_part s.mpol * (pos_part s.ntor + 1))
      × (0 < half)
      × (half < full)
      × (0 < mode)
extents_of_counts s f h m r = (
  f,
  h,
  m,
  rw h (
      points_pos (pos_part s.ns - 1) (pos_part s.ntheta) (pos_part s.nzeta)
        (omega (arith, r.surfaces)) (omega (arith, r.theta)) (omega (arith, r.zeta))),
  rw (f, h)
      (half_lt_full (pos_part s.ns) (pos_part s.ntheta) (pos_part s.nzeta)
        (omega (arith, r.surfaces)) (omega (arith, r.theta)) (omega (arith, r.zeta))),
  rw m (mul_pos (pos_part s.mpol) (pos_part s.ntor + 1) (omega (arith, r.poloidal)) (omega arith)),
)

-- An accepted shape of 32-bit extents has exactly the point and mode counts that its extents give,
-- none of them 0, and fewer points on the half grid than on the full grid.
pub accepted_extents :
    (s : GridShape)
    → IsInt32Shape s
    → validate s ≡ none
    → (full_points s ≡ pos_part s.ns * pos_part s.ntheta * pos_part s.nzeta)
      × (half_points s ≡ (pos_part s.ns - 1) * pos_part s.ntheta * pos_part s.nzeta)
      × (modes s ≡ pos_part s.mpol * (pos_part s.ntor + 1))
      × (0 < half_points s)
      × (half_points s < full_points s)
      × (0 < modes s)
accepted_extents s h e =
    let r = accepted-IsResolved s h e in
    extents_of_counts s (full_of_resolved s h r) (half_points_exact s h r)
      (modes_exact s h (omega (arith, r.poloidal)) r.toroidal) r

-- For 32-bit extents the error about the mode count is never reported.
pub mode_count_error_unreachable :
    (s : GridShape) → IsInt32Shape s → validate s ≢ some mode_count_overflows
unfolding validate
mode_count_error_unreachable s h e =
    ground (arith, modes_exact s h, mul_pos (pos_part s.mpol) (pos_part s.ntor + 1))
