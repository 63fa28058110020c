-- ===== src/Config/Validate.antt =====
-- `validate` of src/cumes/config/validated_problem.cpp and the class ValidatedProblem of
-- include/cumes/config/validated_problem.hpp.
use cu_mes.Base.{
  ℕ, ◌+◌, ◌-◌, ◌*◌, ◌/◌, Bool, ◌&&◌, List, [], ◌∷◌, ◌++◌, map, length, take, replicate,
  if◌then◌else◌, ℤ, pos, pos_part, neg_part, ltb_ℤ, eqb_ℤ,
}
use cu_mes.Core.GridShape.{GridShape, modes}
use cu_mes.Core.ModeTable.{TableScalar, ModeEntry, build}
use cu_mes.Solver.Scalar.{Scalar}
use cu_mes.Config.Spec.{BoundaryHarmonic, StageRequest, ProblemSpec}
use cu_mes.Config.Precision.{SolverOptions}
use cu_mes.Config.Profiles.{PowerMath}
use cu_mes.Config.Report.{name, no_coefficient, Report, report_error, when, has_errors}
use cu_mes.Config.Checks.{
  is_empty, check_scalars, check_profile_lengths, check_edges, check_steps, check_free_boundary,
  check_axes, check_stages,
}
use cu_mes.Config.Folding.{keep_symmetric, keep_asymmetric, FoldedBoundary, fold_boundary}

-- The four lists of harmonics after the boundary block, and its issues.
pub record KeptBoundary (s : Scalar) : Type 0 where
  pub rbc : List (BoundaryHarmonic s)
  pub zbs : List (BoundaryHarmonic s)
  pub rbs : List (BoundaryHarmonic s)
  pub zbc : List (BoundaryHarmonic s)
  pub issues : Report s.T

module _ (s : Scalar) (math : PowerMath s) where
  open s use {T}

  abbrev pub table_scalar : TableScalar
  table_scalar = record {
    T = T;
    one = s.one;
    root_two = math.root_two;
    of_int = λ i.
        if ltb_ℤ i (pos 0) then s.negate (math.of_int (neg_part i)) else math.of_int (pos_part i);
    times = s.times;
  }

  unfoldable pub keep_boundary : ProblemSpec s → KeptBoundary s
  keep_boundary spec =
      let rbc = keep_symmetric s spec.mpol spec.ntor "rbc" spec.rbc in
      let zbs = keep_symmetric s spec.mpol spec.ntor "zbs" spec.zbs in
      let rbs = keep_asymmetric s spec.mpol spec.ntor "rbs" spec.rbs in
      let zbc = keep_asymmetric s spec.mpol spec.ntor "zbc" spec.zbc in
      record {
        rbc = rbc.0;
        zbs = zbs.0;
        rbs = rbs.0;
        zbc = zbc.0;
        issues =
            rbc.1
            ++ (zbs.1
                ++ (rbs.1
                    ++ (zbc.1
                        ++ (when (is_empty rbc.0) (report_error (name "rbc") no_coefficient)
                            ++ when (is_empty zbs.0 && is_empty zbc.0)
                                (report_error (name "zbs") no_coefficient)))));
      }

  -- The whole report of a problem, `kept` being what the boundary block keeps.
  unfoldable pub report_of : Bool → SolverOptions → ProblemSpec s → KeptBoundary s → Report T
  report_of disabled options spec kept =
      check_scalars s spec
      ++ (check_profile_lengths s spec
          ++ (check_edges s math spec
              ++ (check_steps s spec
                  ++ (check_free_boundary s disabled spec
                      ++ (check_axes s spec ++ (check_stages s options spec ++ kept.issues))))))

  -- The angular resolution of a problem without errors, whose `mpol` and `ntor` are not negative.
  unfoldable pub resolve_ntheta : ℤ → ℤ → ℤ
  resolve_ntheta mpol ntheta =
      let least = pos (2 * pos_part mpol + 6) in
      let wanted = if ltb_ℤ ntheta least then least else ntheta in pos (2 * (pos_part wanted / 2))

  unfoldable pub resolve_nzeta : ℤ → ℤ → ℤ
  resolve_nzeta ntor nzeta =
      if eqb_ℤ ntor (pos 0)
      then (if ltb_ℤ nzeta (pos 1) then pos 1 else nzeta)
      else if ltb_ℤ nzeta (pos (2 * pos_part ntor + 4))
      then pos (2 * pos_part ntor + 4)
      else nzeta

  -- `v.resize(n, 0.0)`
  abbrev pub resize : ℕ → List T → List T
  resize n v = take n v ++ replicate (n - length v) s.zero

  -- The specification as it is stored: resolved angles, padded axes, the kept harmonics.
  unfoldable pub normalized : ProblemSpec s → KeptBoundary s → ProblemSpec s
  normalized spec kept =
      let n = pos_part spec.ntor + 1 in
      record spec {
        angular = record {
          ntheta = resolve_ntheta spec.mpol spec.angular.ntheta;
          nzeta = resolve_nzeta spec.ntor spec.angular.nzeta;
        };
        raxis_c = resize n spec.raxis_c;
        zaxis_s = resize n spec.zaxis_s;
        raxis_s = if spec.lasym then resize n spec.raxis_s else spec.raxis_s;
        zaxis_c = if spec.lasym then resize n spec.zaxis_c else spec.zaxis_c;
        rbc = kept.rbc;
        zbs = kept.zbs;
        rbs = kept.rbs;
        zbc = kept.zbc;
      }

  unfoldable pub stage_shape : ProblemSpec s → StageRequest s → GridShape
  stage_shape spec st = record {
    ns = pos st.radial_surfaces;
    ntheta = spec.angular.ntheta;
    nzeta = spec.angular.nzeta;
    mpol = spec.mpol;
    ntor = spec.ntor;
    nfp = spec.nfp;
    lasym = spec.lasym;
  }

  pub record ValidatedProblem : Type 0 where
    pub spec : ProblemSpec s
    pub options : SolverOptions
    pub stage_shapes : List GridShape
    pub mode_table : List (ModeEntry table_scalar)
    pub boundary : FoldedBoundary s
    pub warnings : Report T

  pub data ValidationResult : Type 0 where
    accepted : ValidatedProblem → ValidationResult
    rejected : Report T → ValidationResult

  -- `shape()`, the first stage's shape. A problem without errors has a stage.
  unfoldable pub shape : ProblemSpec s → List (StageRequest s) → GridShape
  unfolding stage_shape
  shape spec [] =
      stage_shape spec (record { radial_surfaces = 0; max_iterations = 0; tolerance = s.zero })
  shape spec (st ∷ rest) = stage_shape spec st

  unfoldable pub assemble : SolverOptions → ProblemSpec s → Report T → ValidatedProblem
  assemble options spec report = record {
    spec = spec;
    options = options;
    stage_shapes = map (stage_shape spec) spec.stages;
    mode_table = build table_scalar (shape spec spec.stages);
    boundary = fold_boundary s spec (modes (shape spec spec.stages));
    warnings = report;
  }

  unfoldable pub validate : Bool → ProblemSpec s → SolverOptions → ValidationResult
  validate disabled spec options =
      let kept = keep_boundary spec in
      let report = report_of disabled options spec kept in
      if has_errors report
      then rejected report
      else accepted (assemble options (normalized spec kept) report)
