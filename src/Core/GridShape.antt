-- ===== src/Core/GridShape.antt =====
-- include/cumes/core/grid_shape.hpp and src/cumes/core/grid_shape.cpp.
use cu_mes.Base.{
  ℕ, ◌+◌, ◌-◌, ◌/◌, ◌%◌, Bool, Option, none, some, ◌||◌, not, ℤ, pos, negsuc, pos_part, neg_part,
  ltb_ℤ, ◌==◌, if◌then◌else◌,
}
use cu_mes.Core.CheckedSize.{size_mod, to_size, checked_mul}

pub record GridShape : Type 0 where
  pub ns : ℤ
  pub ntheta : ℤ
  pub nzeta : ℤ
  pub mpol : ℤ
  pub ntor : ℤ
  pub nfp : ℤ
  pub lasym : Bool

-- The messages of `validate`, in the order of its tests.
pub data ShapeError : Type 0 where
  ns_too_small mpol_too_small ntor_negative nfp_too_small ntheta_not_even nzeta_too_small :
      ShapeError
  mode_count_overflows point_count_overflows : ShapeError

abbrev pub value_or_zero : Option ℕ → ℕ
value_or_zero none = 0
value_or_zero (some n) = n

-- `auto a = checked_mul(x, y); if (!a) return 0; return checked_mul(*a, z).value_or(0);`
abbrev pub product_or_zero : ℕ → ℕ → ℕ → ℕ
product_or_zero x y z = elim (checked_mul x y) [
  | none ↦ 0
  | some a ↦ value_or_zero (checked_mul a z)
]

unfoldable pub full_points : GridShape → ℕ
full_points s = product_or_zero (to_size s.ns) (to_size s.ntheta) (to_size s.nzeta)

-- `n - 1` of a positive `int`.
abbrev pub pred_ℤ : ℤ → ℤ
pred_ℤ (pos n) = if n == 0 then negsuc 0 else pos (n - 1)
pred_ℤ (negsuc n) = negsuc (n + 1)

unfoldable pub half_points : GridShape → ℕ
half_points s =
    if ltb_ℤ s.ns (pos 1)
    then 0
    else product_or_zero (to_size (pred_ℤ s.ns)) (to_size s.ntheta) (to_size s.nzeta)

unfoldable pub modes : GridShape → ℕ
modes s = value_or_zero (checked_mul (to_size s.mpol) ((to_size s.ntor + 1) % size_mod))

-- `ntheta / 2 + 1`, where the division of a negative `int` goes towards zero.
unfoldable pub ntheta_reduced : GridShape → ℤ
ntheta_reduced s = elim s.ntheta [
  | pos n ↦ pos (n / 2 + 1)
  | negsuc n ↦
      if (n + 1) / 2 == 0
      then pos 1
      else if (n + 1) / 2 == 1
      then pos 0
      else negsuc ((n + 1) / 2 - 2)
]

-- `ntheta % 2 != 0`
abbrev pub is_odd : ℤ → Bool
is_odd n = not ((pos_part n + neg_part n) % 2 == 0)

-- `none` is the empty `Status`.
unfoldable pub validate : GridShape → Option ShapeError
validate s =
    if ltb_ℤ s.ns (pos 3)
    then some ns_too_small
    else if ltb_ℤ s.mpol (pos 2)
    then some mpol_too_small
    else if ltb_ℤ s.ntor (pos 0)
    then some ntor_negative
    else if ltb_ℤ s.nfp (pos 1)
    then some nfp_too_small
    else if ltb_ℤ s.ntheta (pos 2) || is_odd s.ntheta
    then some ntheta_not_even
    else if ltb_ℤ s.nzeta (pos 1)
    then some nzeta_too_small
    else if modes s == 0
    then some mode_count_overflows
    else if full_points s == 0
    then some point_count_overflows
    else none
