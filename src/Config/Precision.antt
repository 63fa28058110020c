-- ===== src/Config/Precision.antt =====
-- include/cumes/config/precision_policy.hpp and solver_options.hpp.
use cu_mes.Base.{Bool, ◌&&◌}
use cu_mes.Solver.Scalar.{Scalar}

pub data PrecisionPolicy : Type 0 where
  verify_double fast_double mixed_float debug_double : PrecisionPolicy

pub record SolverOptions : Type 0 where
  pub precision : PrecisionPolicy
  pub strict_schema : Bool

module _ (s : Scalar) where
  open s use {T}

  unfoldable pub tolerance_floor : PrecisionPolicy → T
  tolerance_floor mixed_float = s.decimal 1 6
  tolerance_floor verify_double = s.decimal 1 16
  tolerance_floor fast_double = s.decimal 1 16
  tolerance_floor debug_double = s.decimal 1 16

  -- `ftol >= floor` is `floor <= ftol`, also where one of them is not a number.
  unfoldable pub tolerance_achievable : T → PrecisionPolicy → Bool
  tolerance_achievable ftol policy = s.lt s.zero ftol && s.le (tolerance_floor policy) ftol
