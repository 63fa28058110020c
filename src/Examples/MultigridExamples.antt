-- ===== src/Examples/MultigridExamples.antt =====
-- A run over three radial stages whose last one does not converge.
use cu_mes.Base.{ℕ, ◌≡◌, ◌↔◌, refl, true, false, some, List, [], ◌∷◌, ◌++◌, length, ltb, pos, arith}
use cu_mes.Config.Spec.{StageRequest}
use cu_mes.Solver.Multigrid.{
  Backend, Settings, Outcome, run, stage_loop, start, status, converged_status, linear, solve_stage,
  enter_stage, stage_input, stage_report,
}
use cu_mes.Solver.MultigridReport.{Visited, sum_iterations, AllConverged, EndsAt, run_report}
use cu_mes.Examples.Fixed.{fixed}

-- The storage lists the numbers of surfaces it has had, and a stage converges if it has 100 iterations.
abbrev backend : Backend fixed
backend = record {
  Storage = List ℕ;
  Vacuum = ℕ;
  Snapshot = ℕ;
  run_stage = λ i storage vacuum. (
    storage,
    vacuum,
    record {
      converged = ltb 99 i.max_iter;
      iterations = i.max_iter;
      fsqr = pos 1;
      fsqz = pos 1;
      fsql = pos 1;
      delt = i.delt;
      restarts = [];
    },
    some i.ns,
  );
  prolong = λ r ns_old ns storage. storage ++ ns ∷ [];
  stage_transition = λ ns_old ns vacuum. vacuum;
  stage_end = λ vacuum. vacuum;
}

abbrev settings : Settings fixed
settings = record {
  configured_delt = pos 900000;
  is_float = false;
  ntor = pos 0;
  nzeta = pos 1;
  lfreeb = true;
  n_grids = 3;
  interpolation = linear;
}

abbrev stage : ℕ → ℕ → StageRequest fixed
stage ns max_iter = record { radial_surfaces = ns; max_iterations = max_iter; tolerance = pos 1 }

abbrev schedule : List (StageRequest fixed)
schedule = stage 5 200 ∷ stage 7 100 ∷ stage 9 50 ∷ []

abbrev outcome : Outcome fixed backend
outcome = run fixed backend settings (pos 900000) schedule (5 ∷ []) (some 0)

-- The run ends in the stage with index 2, and the state has been prolonged twice.
outcome_ends :
    (outcome.failed_stage ≡ some 2)
    × (outcome.state ≡ 5 ∷ 7 ∷ 9 ∷ [])
    × (outcome.total_iterations ≡ 350)
unfolding run stage_loop start solve_stage enter_stage stage_input stage_report
outcome_ends = (refl, refl, refl)

run_report_example :
    Visited fixed schedule outcome.stages
    × (outcome.total_iterations ≡ sum_iterations fixed outcome.stages)
    × ((status fixed backend outcome ≡ converged_status)
        ↔ ((length outcome.stages ≡ length schedule) × AllConverged fixed outcome.stages))
    × EndsAt fixed backend settings settings.n_grids outcome outcome.failed_stage
run_report_example =
    run_report fixed backend settings (pos 900000) schedule (5 ∷ []) (some 0) (omega arith) refl
