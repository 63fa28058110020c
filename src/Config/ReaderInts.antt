-- ===== src/Config/ReaderInts.antt =====
-- Every integer of the problem that `map_problem_spec` of src/cumes/config/json_reader.cpp returns
-- fits in an `int`, block by block.

use cu_mes.Base.{
  ◌^◌, ◌<◌, ◌≡◌, ◌||◌, Option, none, some, List, [], ◌∷◌, ◌++◌, All, ℤ, pos, IsI32, eqb_ℤ,
  either_way, arith, subst, Option-cases, inl, inr,
}
use cu_mes.Solver.Scalar.{Scalar}
use cu_mes.Config.Spec.{
  BoundaryHarmonic, StageRequest, MakegridParametersSpec, ProblemSpec, default_stage,
  default_makegrid_parameters, default_problem,
}
use cu_mes.Config.Precision.{SolverOptions}
use cu_mes.Config.Report.{Key, name, report_error, stage_arrays_incomplete}
use cu_mes.Config.Json.{Value, find, as_object}
use cu_mes.Config.Reading.{get_int, pure}
use cu_mes.Config.Reader.{is_present, read_makegrid_fields, read_makegrid_parameters}
use cu_mes.Config.Mapping.{
  read_resolution, current_model_of, read_current_model, read_physical, read_free_boundary,
  read_profiles, zip_stages, read_stage_arrays, read_stages, read_boundary_keys, read_profile_types,
  map_fields, read_fields,
}
use cu_mes.Config.ReadAndValidate.{ParsedProblem, map_problem_spec}
use cu_mes.Config.ReaderBounds.{
  option_inv, Yields, if_present_inv, zero-IsI32, read_int_array-IsI32, HasModeInts,
  int_field-IsI32, harmonics_field-HasModeInts,
}

module _ (s : Scalar) where
  open s use {T}

  pub record HasGridInts (p : MakegridParametersSpec s) : Type 0 where
    pub periods : IsI32 p.number_of_field_periods
    pub r_points : IsI32 p.number_of_r_grid_points
    pub z_points : IsI32 p.number_of_z_grid_points
    pub phi_points : IsI32 p.number_of_phi_grid_points

  abbrev pub HasEmbeddedInts : Option (MakegridParametersSpec s) → Type 0
  HasEmbeddedInts none = Unit {0}
  HasEmbeddedInts (some p) = HasGridInts p

  -- The counts of a stage come from values of `int`.
  pub record HasStageInts (st : StageRequest s) : Type 0 where
    pub surfaces : st.radial_surfaces < 2 ^ 31
    pub iterations : st.max_iterations < 2 ^ 31

  pub record AreInts (mpol ntor nfp ntheta nzeta nvacskip : ℤ)
      (makegrid : Option (MakegridParametersSpec s)) (rbc zbs rbs zbc : List (BoundaryHarmonic s))
      (stages : List (StageRequest s)) : Type 0 where
    pub mpol_fits : IsI32 mpol
    pub ntor_fits : IsI32 ntor
    pub nfp_fits : IsI32 nfp
    pub ntheta_fits : IsI32 ntheta
    pub nzeta_fits : IsI32 nzeta
    pub nvacskip_fits : IsI32 nvacskip
    pub makegrid_fits : HasEmbeddedInts makegrid
    pub rbc_fits : All (HasModeInts s) rbc
    pub zbs_fits : All (HasModeInts s) zbs
    pub rbs_fits : All (HasModeInts s) rbs
    pub zbc_fits : All (HasModeInts s) zbc
    pub stages_fit : All HasStageInts stages

  abbrev pub HasInts : ProblemSpec s → Type 0
  HasInts p =
      AreInts p.mpol p.ntor p.nfp p.angular.ntheta p.angular.nzeta p.free_boundary.nvacskip
        p.free_boundary.embedded_makegrid_parameters p.rbc p.zbs p.rbs p.zbc p.stages

  default_problem-HasInts : HasInts (default_problem s)
  unfolding default_problem
  default_problem-HasInts = record {
    mpol_fits = (omega arith, omega arith);
    ntor_fits = zero-IsI32 s;
    nfp_fits = (omega arith, omega arith);
    ntheta_fits = zero-IsI32 s;
    nzeta_fits = zero-IsI32 s;
    nvacskip_fits = (omega arith, omega arith);
    makegrid_fits = tt;
    rbc_fits = tt;
    zbs_fits = tt;
    rbs_fits = tt;
    zbc_fits = tt;
    stages_fit = tt;
  }

  module _ (of_int64 : ℤ → T) (root : Value T) where
    read_resolution-HasInts :
        (p : ProblemSpec s) → HasInts p → HasInts (read_resolution s of_int64 root p).0
    unfolding read_resolution
    read_resolution-HasInts p h = record {
      mpol_fits = int_field-IsI32 s of_int64 root _ _ _ h.mpol_fits;
      ntor_fits = int_field-IsI32 s of_int64 root _ _ _ h.ntor_fits;
      nfp_fits = int_field-IsI32 s of_int64 root _ _ _ h.nfp_fits;
      ntheta_fits = int_field-IsI32 s of_int64 root _ _ _ h.ntheta_fits;
      nzeta_fits = int_field-IsI32 s of_int64 root _ _ _ h.nzeta_fits;
      nvacskip_fits = h.nvacskip_fits;
      makegrid_fits = h.makegrid_fits;
      rbc_fits = h.rbc_fits;
      zbs_fits = h.zbs_fits;
      rbs_fits = h.rbs_fits;
      zbc_fits = h.zbc_fits;
      stages_fit = h.stages_fit;
    }

    current_model_of-HasInts :
        (p : ProblemSpec s) (nc : ℤ) → HasInts p → HasInts (current_model_of s of_int64 p nc).0
    unfolding current_model_of
    current_model_of-HasInts p nc h =
        either_way (Yields s HasInts) (eqb_ℤ nc (pos 0)) _ _ h
          (either_way (Yields s HasInts) (eqb_ℤ nc (pos 1)) _ _ h h)

    read_current_model-HasInts :
        (p : ProblemSpec s) → HasInts p → HasInts (read_current_model s of_int64 root p).0
    unfolding read_current_model
    read_current_model-HasInts p h =
        if_present_inv s HasInts root "ncurr" p _ h
          λ v. current_model_of-HasInts p (get_int s v (name "ncurr") (pos 0)).0 h

    read_physical-HasInts :
        (p : ProblemSpec s) → HasInts p → HasInts (read_physical s of_int64 root p).0
    unfolding read_physical
    read_physical-HasInts p h = h

    read_profiles-HasInts :
        (p : ProblemSpec s) → HasInts p → HasInts (read_profiles s of_int64 root p).0
    unfolding read_profiles
    read_profiles-HasInts p h = h

    read_profile_types-HasInts :
        (p : ProblemSpec s) → HasInts p → HasInts (read_profile_types s of_int64 root p).0
    unfolding read_profile_types
    read_profile_types-HasInts p h = h

    read_boundary_keys-HasInts :
        (p : ProblemSpec s) → HasInts p → HasInts (read_boundary_keys s of_int64 root p).0
    unfolding read_boundary_keys
    read_boundary_keys-HasInts p h = record {
      mpol_fits = h.mpol_fits;
      ntor_fits = h.ntor_fits;
      nfp_fits = h.nfp_fits;
      ntheta_fits = h.ntheta_fits;
      nzeta_fits = h.nzeta_fits;
      nvacskip_fits = h.nvacskip_fits;
      makegrid_fits = h.makegrid_fits;
      rbc_fits = harmonics_field-HasModeInts s of_int64 root "rbc" p.rbc h.rbc_fits;
      zbs_fits = harmonics_field-HasModeInts s of_int64 root "zbs" p.zbs h.zbs_fits;
      rbs_fits = harmonics_field-HasModeInts s of_int64 root "rbs" p.rbs h.rbs_fits;
      zbc_fits = harmonics_field-HasModeInts s of_int64 root "zbc" p.zbc h.zbc_fits;
      stages_fit = h.stages_fit;
    }

    read_makegrid_parameters-HasGridInts :
        (v : Value T) (key : Key) → HasGridInts (read_makegrid_parameters s of_int64 v key).0
    unfolding read_makegrid_parameters read_makegrid_fields default_makegrid_parameters
    read_makegrid_parameters-HasGridInts v key =
        option_inv (Yields s HasGridInts) (as_object v) _ _
          (record {
            periods = zero-IsI32 s;
            r_points = zero-IsI32 s;
            z_points = zero-IsI32 s;
            phi_points = zero-IsI32 s;
          })
          λ keys. record {
            periods = int_field-IsI32 s of_int64 v _ _ (pos 0) (zero-IsI32 s);
            r_points = int_field-IsI32 s of_int64 v _ _ (pos 0) (zero-IsI32 s);
            z_points = int_field-IsI32 s of_int64 v _ _ (pos 0) (zero-IsI32 s);
            phi_points = int_field-IsI32 s of_int64 v _ _ (pos 0) (zero-IsI32 s);
          }

    read_free_boundary-HasInts :
        (p : ProblemSpec s) → HasInts p → HasInts (read_free_boundary s of_int64 root p).0
    unfolding read_free_boundary
    read_free_boundary-HasInts p h = record {
      mpol_fits = h.mpol_fits;
      ntor_fits = h.ntor_fits;
      nfp_fits = h.nfp_fits;
      ntheta_fits = h.ntheta_fits;
      nzeta_fits = h.nzeta_fits;
      nvacskip_fits = int_field-IsI32 s of_int64 root _ _ _ h.nvacskip_fits;
      makegrid_fits =
          if_present_inv s HasEmbeddedInts root "makegrid_parameters" _ _ h.makegrid_fits
            (λ v. read_makegrid_parameters-HasGridInts v (name "makegrid_parameters"));
      rbc_fits = h.rbc_fits;
      zbs_fits = h.zbs_fits;
      rbs_fits = h.rbs_fits;
      zbc_fits = h.zbc_fits;
      stages_fit = h.stages_fit;
    }

    zip_stages-HasStageInts :
        (ns niter : List ℤ) (ftol : List T)
        → All IsI32 ns
        → All IsI32 niter
        → All HasStageInts (zip_stages s of_int64 ns niter ftol)
    unfolding zip_stages
    zip_stages-HasStageInts [] niter ftol a b = tt
    zip_stages-HasStageInts (n ∷ ns) [] ftol a b = tt
    zip_stages-HasStageInts (n ∷ ns) (i ∷ niter) [] a b = tt
    zip_stages-HasStageInts (n ∷ ns) (i ∷ niter) (f ∷ ftol) a b = (
      record { surfaces = a.0.0; iterations = b.0.0 },
      zip_stages-HasStageInts ns niter ftol a.1 b.1,
    )

    All-append :
        (xs ys : List (StageRequest s))
        → All HasStageInts xs
        → All HasStageInts ys
        → All HasStageInts (xs ++ ys)
    All-append [] ys h k = k
    All-append (x ∷ xs) ys h k = (h.0, All-append xs ys h.1 k)

    default_stage-HasStageInts : HasStageInts (default_stage s)
    unfolding default_stage
    default_stage-HasStageInts = record { surfaces = omega arith; iterations = omega arith }

    read_stages-HasInts :
        (p : ProblemSpec s) → HasInts p → HasInts (read_stages s of_int64 root p).0
    unfolding read_stages read_stage_arrays
    read_stages-HasInts p h = record {
      mpol_fits = h.mpol_fits;
      ntor_fits = h.ntor_fits;
      nfp_fits = h.nfp_fits;
      ntheta_fits = h.ntheta_fits;
      nzeta_fits = h.nzeta_fits;
      nvacskip_fits = h.nvacskip_fits;
      makegrid_fits = h.makegrid_fits;
      rbc_fits = h.rbc_fits;
      zbs_fits = h.zbs_fits;
      rbs_fits = h.rbs_fits;
      zbc_fits = h.zbc_fits;
      stages_fit = All-append p.stages _ h.stages_fit (
          option_inv (Yields s (All HasStageInts)) (find "ns_array" root) _ _
            (either_way (Yields s (All HasStageInts))
              (is_present (find "niter_array" root) || is_present (find "ftol_array" root))
              ([], report_error (name "ns_array") stage_arrays_incomplete)
              (pure (default_stage s ∷ [])) tt (default_stage-HasStageInts, tt))
            λ ns. option_inv (Yields s (All HasStageInts)) (find "niter_array" root) _ _ tt λ niter.
              option_inv (Yields s (All HasStageInts)) (find "ftol_array" root) _ _ tt λ ftol.
                zip_stages-HasStageInts _ _ _ (read_int_array-IsI32 s ns _)
                  (read_int_array-IsI32 s niter _));
    }

    map_fields-HasInts : (p : ProblemSpec s) → HasInts p → HasInts (map_fields s of_int64 root p).0
    unfolding map_fields read_fields
    map_fields-HasInts p0 h0 =
        let p1 : ProblemSpec s = (read_resolution s of_int64 root p0).0 in
        let h1 : HasInts p1 = read_resolution-HasInts p0 h0 in
        let p2 : ProblemSpec s = (read_current_model s of_int64 root p1).0 in
        let h2 : HasInts p2 = read_current_model-HasInts p1 h1 in
        let p3 : ProblemSpec s = (read_physical s of_int64 root p2).0 in
        let h3 : HasInts p3 = read_physical-HasInts p2 h2 in
        let p4 : ProblemSpec s = (read_free_boundary s of_int64 root p3).0 in
        let h4 : HasInts p4 = read_free_boundary-HasInts p3 h3 in
        let p5 : ProblemSpec s = (read_profiles s of_int64 root p4).0 in
        let h5 : HasInts p5 = read_profiles-HasInts p4 h4 in
        let p6 : ProblemSpec s = (read_stages s of_int64 root p5).0 in
        let h6 : HasInts p6 = read_stages-HasInts p5 h5 in
        let p7 : ProblemSpec s = (read_boundary_keys s of_int64 root p6).0 in
        let h7 : HasInts p7 = read_boundary_keys-HasInts p6 h6 in
        let p8 : ProblemSpec s = (read_profile_types s of_int64 root p7).0 in
        let h8 : HasInts p8 = read_profile_types-HasInts p7 h7 in h8

  -- Every integer of the mapped problem fits in an `int`, whatever the document holds: the
  -- resolution, the numbers of the external field, the mode numbers of all four families and the
  -- counts of the stages, which are not negative.
  pub map_problem_spec-HasInts :
      (of_int64 : ℤ → T) (root : Value T) (options : SolverOptions) (parsed : ParsedProblem s)
      → map_problem_spec s of_int64 root options ≡ some parsed
      → HasInts parsed.spec
  unfolding map_problem_spec
  map_problem_spec-HasInts of_int64 root options parsed e = elim (Option-cases (as_object root)) [
    | inl none_object ↦ absurd (ground (arith, none_object, e))
    | inr (keys, object) ↦
        let same : (map_fields s of_int64 root (default_problem s)).0 ≡ parsed.spec =
          ground (arith, object, e) in
        subst HasInts same
          (map_fields-HasInts of_int64 root (default_problem s) (default_problem-HasInts))
  ]
