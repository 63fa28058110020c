-- ===== src/Solver/Multigrid.antt =====
-- include/cumes/solver/multigrid_solver.hpp: the loop over the radial stages. The device state, the
-- solve of one stage, the prolongation and the vacuum operator are parameters; the wall times and the
-- printed lines are left out, and so is the thread that computes the spline matrices ahead.
use cu_mes.Base.{
  ℕ, ◌+◌, Bool, true, false, not, ◌&&◌, Option, none, some, List, [], ◌∷◌, ◌++◌, ltb, ◌==◌,
  if◌then◌else◌, ℤ, pos, eqb_ℤ,
}
use cu_mes.Solver.Scalar.{Scalar}
use cu_mes.Solver.StartPolicy.{initial_step_for_stage}
use cu_mes.Config.Spec.{StageRequest}
use cu_mes.Io.Report.{RunStatus}

pub data RadialInterpolation : Type 0 where
  linear catmull_rom bspline : RadialInterpolation

-- The values of `RunStatus`.
abbrev pub converged_status : RunStatus
converged_status = 0

abbrev pub not_converged_status : RunStatus
not_converged_status = 1

-- `std::getenv(...)` and `std::atoi(e) != 0`: `none` where the variable is not set.
pub record Environment : Type 0 where
  pub force_catmull : Option Bool
  pub force_linear : Option Bool

abbrev pub forced : Option Bool → Bool
forced none = false
forced (some nonzero) = nonzero

-- The policy of the prolongation: `wide` is `sizeof(T) == sizeof(double)` and `has_bspline` the build
-- switch; the environment is absent where the process environment is not used.
unfoldable pub choose_interpolation :
    Bool → Bool → Bool → ℤ → Option Environment → Option RadialInterpolation → RadialInterpolation
choose_interpolation wide has_bspline lfreeb ntor environment override =
    let qualified =
      if wide
      then (if not lfreeb
          then (if has_bspline then bspline else catmull_rom)
          else if not (eqb_ℤ ntor (pos 0))
          then catmull_rom
          else linear)
      else linear in
    elim override [
      | some r ↦ r
      | none ↦ elim environment [
        | none ↦ qualified
        | some e ↦
            if forced e.force_linear
            then linear
            else if forced e.force_catmull && wide
            then catmull_rom
            else qualified
      ]
    ]

module _ (s : Scalar) where
  open s use {T}

  -- The parameters of a stage that the loop sets, and what it asks the stage for.
  pub record StageInput : Type 0 where
    pub ns : ℕ
    pub max_iter : ℕ
    pub ftol : T
    pub delt : T
    pub wants_output : Bool
    pub enable_step_recovery : Bool

  pub record SolverResult : Type 0 where
    pub converged : Bool
    pub iterations : ℕ
    pub fsqr : T
    pub fsqz : T
    pub fsql : T
    pub delt : T
    pub restarts : List ℕ

  pub record StageReport : Type 0 where
    pub ns : ℕ
    pub effective_iterations : ℕ
    pub converged : Bool
    pub fsqr : T
    pub fsqz : T
    pub fsql : T
    pub restarts : List ℕ

  -- What runs on the device.
  pub record Backend : Type 1 where
    pub Storage : Type 0
    pub Vacuum : Type 0
    pub Snapshot : Type 0
    -- `StageSolver<T>::run`: the state, the vacuum, the result and the captured fields
    pub run_stage :
        StageInput
        → Storage
        → Option Vacuum
        → Storage × Option Vacuum × SolverResult × Option Snapshot
    -- `Prolongation<T>::enqueue` from the old to the new number of surfaces
    pub prolong : RadialInterpolation → ℕ → ℕ → Storage → Storage
    -- `FreeBoundaryOperator<T>::on_stage_transition` and `on_stage_end`
    pub stage_transition : ℕ → ℕ → Vacuum → Vacuum
    pub stage_end : Vacuum → Vacuum

  -- What does not change over the loop.
  pub record Settings : Type 0 where
    pub configured_delt : T
    pub is_float : Bool
    pub ntor : ℤ
    pub nzeta : ℤ
    pub lfreeb : Bool
    pub n_grids : ℕ
    pub interpolation : RadialInterpolation

  module _ (b : Backend) where
    open b use {Storage, Vacuum, Snapshot}

    pub record Outcome : Type 0 where
      pub state : Storage
      pub result : SolverResult
      pub vacuum : Option Vacuum
      pub total_iterations : ℕ
      pub stages : List StageReport
      pub snapshot : Option Snapshot
      -- `none` is -1
      pub failed_stage : Option ℕ

    abbrev on_vacuum : (Vacuum → Vacuum) → Option Vacuum → Option Vacuum
    on_vacuum f none = none
    on_vacuum f (some v) = some (f v)

    abbrev is_present : Option Vacuum → Bool
    is_present none = false
    is_present (some v) = true

    unfoldable pub stage_input : Settings → Bool → ℕ → StageRequest s → StageInput
    stage_input c has_vacuum g st = record {
      ns = st.radial_surfaces;
      max_iter = st.max_iterations;
      ftol = st.tolerance;
      delt =
          initial_step_for_stage s c.is_float c.configured_delt c.ntor c.nzeta c.lfreeb
            (pos st.radial_surfaces) (pos c.n_grids) (pos g);
      wants_output = (g + 1) == c.n_grids;
      enable_step_recovery = not has_vacuum;
    }

    unfoldable pub stage_report : StageRequest s → SolverResult → StageReport
    stage_report st r = record {
      ns = st.radial_surfaces;
      effective_iterations = r.iterations;
      converged = r.converged;
      fsqr = r.fsqr;
      fsqz = r.fsqz;
      fsql = r.fsql;
      restarts = r.restarts;
    }

    -- The prolongation of the state and the vacuum's transition, from the second stage on.
    unfoldable pub enter_stage : Settings → ℕ → ℕ → ℕ → Outcome → Outcome
    enter_stage c g ns_old ns o =
        if ltb 0 g
        then record o {
          state = b.prolong c.interpolation ns_old ns o.state;
          vacuum = on_vacuum (b.stage_transition ns_old ns) o.vacuum;
        }
        else o

    -- One turn of the loop up to the test that ends it.
    unfoldable pub solve_stage : Settings → ℕ → StageRequest s → Outcome → Outcome
    unfolding stage_input stage_report
    solve_stage c g st o =
        let input = stage_input c (is_present o.vacuum) g st in
        let (state, vacuum, result, captured) = b.run_stage input o.state o.vacuum in
        record o {
          state = state;
          result = result;
          vacuum = on_vacuum b.stage_end vacuum;
          total_iterations = o.total_iterations + result.iterations;
          stages = o.stages ++ stage_report st result ∷ [];
          snapshot = if input.wants_output then captured else o.snapshot;
        }

    -- The loop from stage `g` on, whose predecessor has `ns_old` surfaces.
    unfoldable pub stage_loop : Settings → ℕ → ℕ → List (StageRequest s) → Outcome → Outcome
    stage_loop c g ns_old [] o = o
    stage_loop c g ns_old (st ∷ rest) o =
        let next = solve_stage c g st (enter_stage c g ns_old st.radial_surfaces o) in
        let later = stage_loop c (g + 1) st.radial_surfaces rest next in
        if not next.result.converged && ltb 1 c.n_grids
        then record next { failed_stage = some g }
        else later

    -- The result before the first stage: `{false, 0, 1, 1, 1, default step, {}}`.
    unfoldable pub start : T → Storage → Option Vacuum → Outcome
    start default_initial_step seed vacuum = record {
      state = seed;
      result = record {
        converged = false;
        iterations = 0;
        fsqr = s.one;
        fsqz = s.one;
        fsql = s.one;
        delt = default_initial_step;
        restarts = [];
      };
      vacuum = vacuum;
      total_iterations = 0;
      stages = [];
      snapshot = none;
      failed_stage = none;
    }

    unfoldable pub run : Settings → T → List (StageRequest s) → Storage → Option Vacuum → Outcome
    unfolding start
    run c default_initial_step stages seed vacuum =
        stage_loop c 0 0 stages (start default_initial_step seed vacuum)

    -- `out.report.status`
    unfoldable pub status : Outcome → RunStatus
    status o = if o.result.converged then converged_status else not_converged_status
