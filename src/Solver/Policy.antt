-- ===== src/Solver/Policy.antt =====
-- include/cumes/solver/control_policy.hpp: the parameters of the iteration policy. A floating-point
-- parameter is its literal, a mantissa and a number of decimals.
use cu_mes.Base.{ℕ}
use cu_mes.Solver.Scalar.{Scalar}

abbrev pub damping_history_length : ℕ
damping_history_length = 10

abbrev pub preconditioner_refresh_interval : ℕ
preconditioner_refresh_interval = 25

abbrev pub checkpoint_refresh_min_age : ℕ
checkpoint_refresh_min_age = 10

abbrev pub bad_progress_min_age : ℕ
bad_progress_min_age = 12

abbrev pub bad_progress_min_iteration : ℕ
bad_progress_min_iteration = 50

abbrev pub first_maintenance_bad_jacobian_count : ℕ
first_maintenance_bad_jacobian_count = 25

abbrev pub second_maintenance_bad_jacobian_count : ℕ
second_maintenance_bad_jacobian_count = 50

abbrev pub step_recovery_age : ℕ
step_recovery_age = 250

abbrev pub free_boundary_coarse_max_surfaces : ℕ
free_boundary_coarse_max_surfaces = 25

module _ (s : Scalar) where
  open s use {T, decimal}

  -- 0.15
  abbrev pub damping_log_ratio_limit : T
  damping_log_ratio_limit = decimal 15 2

  -- 2.0
  abbrev pub damping_time_scale_divisor : T
  damping_time_scale_divisor = decimal 2 0

  -- 1.0e-12
  abbrev pub jacobian_relative_threshold : T
  jacobian_relative_threshold = decimal 1 12

  -- 0.9
  abbrev pub restart_step_factor : T
  restart_step_factor = decimal 9 1

  -- 100.0
  abbrev pub bad_jacobian_residual_growth_factor : T
  bad_jacobian_residual_growth_factor = decimal 100 0

  -- 1.0e-2
  abbrev pub bad_progress_rz_residual_threshold : T
  bad_progress_rz_residual_threshold = decimal 1 2

  -- 1.03
  abbrev pub bad_progress_step_divisor : T
  bad_progress_step_divisor = decimal 103 2

  -- 0.98
  abbrev pub first_maintenance_step_factor : T
  first_maintenance_step_factor = decimal 98 2

  -- 0.96
  abbrev pub second_maintenance_step_factor : T
  second_maintenance_step_factor = decimal 96 2

  -- 1.1
  abbrev pub step_recovery_factor : T
  step_recovery_factor = decimal 11 1
