-- ===== src/Core/ModeTable.antt =====
-- include/cumes/core/mode_table.hpp and src/cumes/core/mode_table.cpp. The scalar type with its
-- constants and product is a parameter; the loops run over the extents as numbers, none of them
-- negative in a resolved shape.
use cu_mes.Base.{
  ℕ, zero, suc, ◌+◌, ◌-◌, ◌*◌, ◌%◌, ◌^◌, ltb, ℤ, pos, negsuc, List, [], ◌∷◌, ◌++◌, pos_part,
  if◌then◌else◌, ◌==◌,
}
use cu_mes.Core.GridShape.{GridShape}

pub data ModeParity : Type 0 where
  even odd : ModeParity

-- The `int` of a product of two numbers that are not negative.
unfoldable pub wrap_i32 : ℕ → ℤ
wrap_i32 x = let r = x % 2 ^ 32 in if ltb r (2 ^ 31) then pos r else negsuc (2 ^ 32 - 1 - r)

-- What the table needs of the scalar type `T`.
pub record TableScalar : Type 1 where
  pub T : Type 0
  pub one : T
  pub root_two : T
  -- `T(i)` of an `int`
  pub of_int : ℤ → T
  pub times : T → T → T

module _ (scalar : TableScalar) where
  open scalar use {T, one, root_two, of_int, times}

  pub record ModeEntry : Type 0 where
    pub m : ℕ
    pub n : ℕ
    pub physical_n : ℤ
    pub first_surface : ℕ
    pub mn_scale : T
    pub xmpq : T
    pub parity : ModeParity

  unfoldable pub entry : ℕ → ℕ → ℕ → ModeEntry
  entry nfp m n = record {
    m = m;
    n = n;
    physical_n = wrap_i32 (n * nfp);
    first_surface = if m == 0 then 0 else 1;
    mn_scale = times (if m == 0 then one else root_two) (if n == 0 then one else root_two);
    xmpq = of_int (wrap_i32 (m * (m - 1)));
    parity = if m % 2 == 0 then even else odd;
  }

  -- `for (n = first; n < first + left; ++n)`
  unfoldable pub toroidal_loop : ℕ → ℕ → ℕ → ℕ → List ModeEntry
  toroidal_loop nfp m first zero = []
  toroidal_loop nfp m first (suc left) = entry nfp m first ∷ toroidal_loop nfp m (first + 1) left

  -- `for (m = first; m < first + left; ++m)`
  unfoldable pub poloidal_loop : ℕ → ℕ → ℕ → ℕ → List ModeEntry
  poloidal_loop nfp ntor first zero = []
  poloidal_loop nfp ntor first (suc left) =
      toroidal_loop nfp first 0 (ntor + 1) ++ poloidal_loop nfp ntor (first + 1) left

  unfoldable pub build : GridShape → List ModeEntry
  build s = poloidal_loop (pos_part s.nfp) (pos_part s.ntor) 0 (pos_part s.mpol)
