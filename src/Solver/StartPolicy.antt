-- ===== src/Solver/StartPolicy.antt =====
-- include/cumes/solver/start_policy.hpp: the initial step of a stage, with the numbers of
-- control_policy.hpp that it uses.
use cu_mes.Base.{ℕ, Bool, not, ◌&&◌, ◌||◌, ℤ, pos, ltb_ℤ, leb_ℤ, eqb_ℤ, if◌then◌else◌}
use cu_mes.Solver.Scalar.{Scalar}
use cu_mes.Solver.Policy.{free_boundary_coarse_max_surfaces}

abbrev pub free_boundary_coarse_step_numerator : ℕ
free_boundary_coarse_step_numerator = 17

abbrev pub free_boundary_coarse_step_denominator : ℕ
free_boundary_coarse_step_denominator = 14

abbrev pub axisymmetric_single_grid_step_numerator : ℕ
axisymmetric_single_grid_step_numerator = 7

abbrev pub axisymmetric_single_grid_step_denominator : ℕ
axisymmetric_single_grid_step_denominator = 6

abbrev pub axisymmetric_coarse_step_numerator : ℕ
axisymmetric_coarse_step_numerator = 17

abbrev pub axisymmetric_coarse_step_denominator : ℕ
axisymmetric_coarse_step_denominator = 15

abbrev pub axisymmetric_refined_step_numerator : ℕ
axisymmetric_refined_step_numerator = 6

abbrev pub axisymmetric_refined_step_denominator : ℕ
axisymmetric_refined_step_denominator = 5

module _ (s : Scalar) where
  open s use {T}

  -- `step * T(numerator) / T(denominator)`
  abbrev pub scaled_step : T → ℕ → ℕ → T
  scaled_step step numerator denominator =
      s.over (s.times step (s.decimal numerator 0)) (s.decimal denominator 0)

  -- `narrow` is `sizeof(T) < sizeof(double)`.
  unfoldable pub initial_step_for_stage : Bool → T → ℤ → ℤ → Bool → ℤ → ℤ → ℤ → T
  initial_step_for_stage narrow step ntor nzeta free_boundary surfaces stage_count stage_index =
      if narrow
      then step
      else if free_boundary
      then (if ltb_ℤ (pos 0) ntor && leb_ℤ surfaces (pos free_boundary_coarse_max_surfaces)
          then scaled_step step free_boundary_coarse_step_numerator
              free_boundary_coarse_step_denominator
          else step)
      else if not (eqb_ℤ ntor (pos 0)) || not (eqb_ℤ nzeta (pos 1))
      then step
      else if eqb_ℤ stage_count (pos 1)
      then scaled_step step axisymmetric_single_grid_step_numerator
          axisymmetric_single_grid_step_denominator
      else if eqb_ℤ stage_index (pos 0)
      then scaled_step step axisymmetric_coarse_step_numerator axisymmetric_coarse_step_denominator
      else scaled_step step axisymmetric_refined_step_numerator
          axisymmetric_refined_step_denominator
