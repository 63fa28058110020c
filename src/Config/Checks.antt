-- ===== src/Config/Checks.antt =====
-- The checks of `validate` in src/cumes/config/validated_problem.cpp, block by block. Each gives the
-- issues that it appends to the report. `disabled` is the build switch CUMES_VACUUM_FIELD_DISABLED.
use Prim.Native.String.{String}
use text.Mathlib.Text as Text
use cu_mes.Base.{
  ℕ, ◌+◌, ◌-◌, Bool, true, false, ◌&&◌, ◌||◌, not, Option, none, some, List, [], ◌∷◌, ◌++◌, length,
  ltb, leb, ◌==◌, if◌then◌else◌, ℤ, pos, negsuc, ltb_ℤ, eqb_ℤ,
}
use cu_mes.Core.CheckedSize.{to_size}
use cu_mes.Core.GridShape.{is_odd}
use cu_mes.Solver.Scalar.{Scalar}
use cu_mes.Config.Spec.{
  CurrentModel, fixed_iota, prescribed_current, ProfileType, power_series, two_power, StageRequest,
  MakegridParametersSpec, FreeBoundarySpec, ProblemSpec,
}
use cu_mes.Config.Precision.{SolverOptions, tolerance_achievable}
use cu_mes.Config.Profiles.{PowerMath, torflux, eval_curr_profile}
use cu_mes.Config.Report.{
  Key, name, field, Message, mpol_range, ntor_range, nfp_range, phiedge_not_finite, phiedge_zero,
  curtor_not_finite, two_power_too_short, flux_not_finite, flux_zero, flux_ill_scaled,
  current_not_finite, current_zero, current_ill_scaled, delt_not_positive, ntheta_range,
  nzeta_range, adiabatic_index_not_zero, nvacskip_range, vacuum_field_disabled, two_field_sources,
  no_field_source, no_coil_currents, normalized_by_currents, field_periods_differ,
  grid_maximum_too_small, too_few_grid_points, phi_points_odd, axis_length, asymmetric_coefficients,
  no_stage, ns_range, ns_not_increasing, niter_range, ftol_not_positive, ftol_below_floor, Report,
  report_error, when,
}

-- `n + 1` of an `int` below its maximum.
abbrev pub next_ℤ : ℤ → ℤ
next_ℤ (pos n) = pos (n + 1)
next_ℤ (negsuc n) = if n == 0 then pos 0 else negsuc (n - 1)

abbrev pub is_empty {ℓ} : {A : Type ℓ} → List A → Bool
is_empty [] = true
is_empty (x ∷ xs) = false

abbrev pub is_empty_text : String → Bool
is_empty_text s = Text.◌==◌ s ""

abbrev pub is_two_power : ProfileType → Bool
is_two_power two_power = true
is_two_power power_series = false

abbrev pub prescribes_current : CurrentModel → Bool
prescribes_current prescribed_current = true
prescribes_current fixed_iota = false

module _ (s : Scalar) where
  open s use {T}

  unfoldable pub check_scalars : ProblemSpec s → Report T
  check_scalars spec =
      when (ltb_ℤ spec.mpol (pos 2) || ltb_ℤ (pos 16) spec.mpol)
        (report_error (name "mpol") mpol_range)
      ++ (when (ltb_ℤ spec.ntor (pos 0) || ltb_ℤ (pos 15) spec.ntor)
            (report_error (name "ntor") ntor_range)
          ++ (when (ltb_ℤ spec.nfp (pos 1)) (report_error (name "nfp") nfp_range)
              ++ ((if not (s.is_finite spec.physical.phiedge)
                    then report_error (name "phiedge") phiedge_not_finite
                    else when (s.eq spec.physical.phiedge s.zero)
                        (report_error (name "phiedge") phiedge_zero))
                  ++ when (not (s.is_finite spec.physical.curtor))
                      (report_error (name "curtor") curtor_not_finite))))

  unfoldable pub check_profile_lengths : ProblemSpec s → Report T
  check_profile_lengths spec =
      when (is_two_power spec.mass.type_of && ltb (length spec.mass.coefficients) 3)
        (report_error (name "am") two_power_too_short)
      ++ when (is_two_power spec.current.type_of && ltb (length spec.current.coefficients) 3)
          (report_error (name "ac") two_power_too_short)

  -- An edge value that would be divided by: not finite, zero, or too small.
  unfoldable pub check_edge : T → Key → Message T → Message T → Message T → Report T
  check_edge edge key not_finite is_zero ill_scaled =
      if not (s.is_finite edge)
      then report_error key not_finite
      else if s.eq edge s.zero
      then report_error key is_zero
      else when (s.lt (s.abs edge) (s.decimal 1 30)) (report_error key ill_scaled)

  unfoldable pub check_edges : PowerMath s → ProblemSpec s → Report T
  check_edges math spec =
      check_edge (torflux s math spec s.one) (name "aphi") flux_not_finite flux_zero flux_ill_scaled
      ++ when (prescribes_current spec.current_model && not (s.eq spec.physical.curtor s.zero)) (
          check_edge (eval_curr_profile s math spec s.one) (name "ac") current_not_finite
            current_zero current_ill_scaled)

  unfoldable pub check_steps : ProblemSpec s → Report T
  check_steps spec =
      when (s.le spec.delt s.zero) (report_error (name "delt") delt_not_positive)
      ++ (when (ltb_ℤ spec.angular.ntheta (pos 0) || ltb_ℤ (pos 256) spec.angular.ntheta)
            (report_error (name "ntheta") ntheta_range)
          ++ (when (ltb_ℤ spec.angular.nzeta (pos 0) || ltb_ℤ (pos 256) spec.angular.nzeta)
                (report_error (name "nzeta") nzeta_range)
              ++ (when (not (s.eq spec.physical.adiabatic_index s.zero))
                    (report_error (name "adiabatic_index") adiabatic_index_not_zero)
                  ++ when (ltb_ℤ spec.free_boundary.nvacskip (pos 1))
                      (report_error (name "nvacskip") nvacskip_range))))

  abbrev pub makegrid : String → Key
  makegrid f = field (name "makegrid_parameters") f

  unfoldable pub check_makegrid : MakegridParametersSpec s → ℤ → Report T
  check_makegrid p nfp =
      when p.normalize_by_currents
        (report_error (makegrid "normalize_by_currents") normalized_by_currents)
      ++ (when (not (eqb_ℤ p.number_of_field_periods nfp))
            (report_error (makegrid "number_of_field_periods") field_periods_differ)
          ++ (when (not (s.lt p.r_grid_minimum p.r_grid_maximum))
                (report_error (makegrid "r_grid_maximum") grid_maximum_too_small)
              ++ (when (ltb_ℤ p.number_of_r_grid_points (pos 2))
                    (report_error (makegrid "number_of_r_grid_points") too_few_grid_points)
                  ++ (when (not (s.lt p.z_grid_minimum p.z_grid_maximum))
                        (report_error (makegrid "z_grid_maximum") grid_maximum_too_small)
                      ++ (when (ltb_ℤ p.number_of_z_grid_points (pos 2))
                            (report_error (makegrid "number_of_z_grid_points") too_few_grid_points)
                          ++ (when (ltb_ℤ p.number_of_phi_grid_points (pos 1)) (
                                report_error (makegrid "number_of_phi_grid_points")
                                  too_few_grid_points)
                              ++ when
                                  (p.assume_stellarator_symmetry
                                    && is_odd p.number_of_phi_grid_points)
                                  (report_error (makegrid "number_of_phi_grid_points")
                                    phi_points_odd)))))))

  unfoldable pub check_embedded : Option (MakegridParametersSpec s) → ℤ → Report T
  unfolding check_makegrid
  check_embedded none nfp = []
  check_embedded (some p) nfp = check_makegrid p nfp

  abbrev pub has_value : Option (MakegridParametersSpec s) → Bool
  has_value none = false
  has_value (some p) = true

  -- Where the external field comes from.
  unfoldable pub check_field_source : FreeBoundarySpec s → Report T
  check_field_source f =
      let has_mgrid = not (is_empty_text f.mgrid_file) in
      let has_coils = not (is_empty_text f.coils_file) in
      let has_parameters = not (is_empty_text f.makegrid_parameters_file) in
      let has_embedded = has_value f.embedded_makegrid_parameters in
      if has_mgrid && (has_coils || has_parameters || has_embedded)
      then report_error (name "mgrid_file") two_field_sources
      else when (not has_mgrid && not (has_coils && (has_parameters || has_embedded)))
          (report_error (name "mgrid_file") no_field_source)

  unfoldable pub check_free_boundary : Bool → ProblemSpec s → Report T
  check_free_boundary disabled spec = when spec.free_boundary.lfreeb (
      when disabled (report_error (name "lfreeb") vacuum_field_disabled)
      ++ (check_field_source spec.free_boundary
          ++ (when (is_empty spec.free_boundary.extcur)
                (report_error (name "extcur") no_coil_currents)
              ++ check_embedded spec.free_boundary.embedded_makegrid_parameters spec.nfp)))

  -- `has_axis && axis.size() != static_cast<std::size_t>(ntor + 1)`
  unfoldable pub check_axis_vector : Bool → List T → ℤ → String → Report T
  check_axis_vector has_axis axis ntor key =
      when (has_axis && not (length axis == to_size (next_ℤ ntor)))
        (report_error (name key) axis_length)

  unfoldable pub check_axes : ProblemSpec s → Report T
  check_axes spec =
      check_axis_vector spec.has_raxis_c spec.raxis_c spec.ntor "raxis_c"
      ++ (check_axis_vector spec.has_zaxis_s spec.zaxis_s spec.ntor "zaxis_s"
          ++ (when
                (not spec.lasym
                  && (not (is_empty spec.raxis_s)
                      || (not (is_empty spec.zaxis_c)
                          || (not (is_empty spec.rbs) || not (is_empty spec.zbc)))))
                (report_error (name "lasym") asymmetric_coefficients)
              ++ when spec.lasym (
                  check_axis_vector spec.has_raxis_s spec.raxis_s spec.ntor "raxis_s"
                  ++ check_axis_vector spec.has_zaxis_c spec.zaxis_c spec.ntor "zaxis_c")))

  -- `g > 0 && ns <= previous`
  abbrev pub not_above : Option ℕ → ℕ → Bool
  not_above none ns = false
  not_above (some previous) ns = leb ns previous

  unfoldable pub check_stage : SolverOptions → Option ℕ → StageRequest s → Report T
  check_stage options previous st =
      when (ltb st.radial_surfaces 3 || ltb 512 st.radial_surfaces)
        (report_error (name "ns_array") ns_range)
      ++ (when (not_above previous st.radial_surfaces)
            (report_error (name "ns_array") ns_not_increasing)
          ++ (when (ltb st.max_iterations 1) (report_error (name "niter_array") niter_range)
              ++ (when (s.le st.tolerance s.zero)
                    (report_error (name "ftol_array") ftol_not_positive)
                  ++ when (not (tolerance_achievable s st.tolerance options.precision)) (
                      report_error (name "ftol_array")
                        (ftol_below_floor st.tolerance options.precision)))))

  -- The loop over the stages; `previous` is the number of surfaces of the stage before.
  unfoldable pub check_stage_list : SolverOptions → Option ℕ → List (StageRequest s) → Report T
  check_stage_list options previous [] = []
  check_stage_list options previous (st ∷ rest) =
      check_stage options previous st ++ check_stage_list options (some st.radial_surfaces) rest

  unfoldable pub check_stages : SolverOptions → ProblemSpec s → Report T
  check_stages options spec =
      when (is_empty spec.stages) (report_error (name "ns_array") no_stage)
      ++ check_stage_list options none spec.stages
