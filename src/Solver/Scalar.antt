-- ===== src/Solver/Scalar.antt =====
-- The floating-point type `T` of the solver templates, with the operations that the controller and
-- the start policy use. The operations are those of the language and its library and have no
-- definition here; theorems that need laws of them say which.
use cu_mes.Base.{ℕ, Bool, if◌then◌else◌}

pub record Scalar : Type 1 where
  pub T : Type 0
  pub zero : T
  pub one : T
  -- `T(x)` of the literal `mantissa * 10^(-decimals)`
  pub decimal : ℕ → ℕ → T
  pub negate : T → T
  pub plus : T → T → T
  pub minus : T → T → T
  pub times : T → T → T
  pub over : T → T → T
  pub fmax : T → T → T
  pub abs : T → T
  pub log : T → T
  pub lt : T → T → Bool
  pub le : T → T → Bool
  pub eq : T → T → Bool
  pub is_finite : T → Bool

-- `std::min(a, b)`: `(b < a) ? b : a`
unfoldable pub std_min : (s : Scalar) → s.T → s.T → s.T
std_min s a b = if s.lt b a then b else a
