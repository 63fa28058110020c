-- ===== src/Solver/Controller.antt =====
-- include/cumes/solver/iteration_controller.hpp, with the records of control_record.hpp. The counters
-- are numbers that do not wrap; that the anchor never passes the iteration is an invariant, so the
-- differences are those of the source.
use cu_mes.Base.{
  ℕ, ◌+◌, ◌-◌, ◌%◌, Bool, true, false, ◌&&◌, ◌||◌, not, List, [], ◌∷◌, ◌++◌, replicate, ltb, leb,
  ◌==◌, if◌then◌else◌,
}
use cu_mes.Solver.Scalar.{Scalar, std_min}
use cu_mes.Solver.Policy.{
  damping_history_length, preconditioner_refresh_interval, first_maintenance_bad_jacobian_count,
  second_maintenance_bad_jacobian_count, step_recovery_age, damping_log_ratio_limit,
  jacobian_relative_threshold, restart_step_factor, bad_progress_step_divisor,
  first_maintenance_step_factor, second_maintenance_step_factor, step_recovery_factor,
}

pub data RestartReason : Type 0 where
  keep_going bad_jacobian bad_progress : RestartReason

pub record InvariantVerdict : Type 0 where
  pub nonfinite : Bool
  pub converged : Bool

module _ (s : Scalar) where
  open s use {T}

  pub record Options : Type 0 where
    pub delta_t0 : T
    pub ftol : T
    pub dtau_floor : T
    pub enable_step_recovery : Bool

  pub record JacobianStatus : Type 0 where
    pub min_oriented : T
    pub max_abs : T
    pub nonfinite_count : T
    pub min_index : ℕ

  -- A residual triple.
  pub record Triple : Type 0 where
    pub r : T
    pub z : T
    pub l : T

  pub record Damping : Type 0 where
    pub b1 : T
    pub fac : T
    pub otav : T
    pub dtau : T

  pub record RestartDecision : Type 0 where
    pub reason : RestartReason
    pub do_refresh : Bool
    pub damping : Damping

  pub record Controller : Type 0 where
    pub delt0 : T
    pub ftol : T
    pub dtau_floor : T
    pub step_recovery_enabled : Bool
    pub delt : T
    pub iter2 : ℕ
    pub iter1 : ℕ
    pub log_anchor : ℕ
    pub ijacob : ℕ
    pub res0 : T
    pub fsq_prev : T
    pub fsqz_prev : T
    pub inv_tau_hist : List T
    pub step_recovery_attempted : Bool
    -- the iterations of the restart events, oldest first
    pub restart_events : List ℕ

  -- Ten samples of `0.15 / delt`.
  abbrev pub initial_history : T → List T
  initial_history delt = replicate damping_history_length (s.over (damping_log_ratio_limit s) delt)

  unfoldable pub init : Options → Controller
  init o = record {
    delt0 = o.delta_t0;
    ftol = o.ftol;
    dtau_floor = o.dtau_floor;
    step_recovery_enabled = o.enable_step_recovery;
    delt = o.delta_t0;
    iter2 = 1;
    iter1 = 1;
    log_anchor = 0;
    ijacob = 0;
    res0 = s.negate s.one;
    fsq_prev = s.one;
    fsqz_prev = s.zero;
    inv_tau_hist = initial_history o.delta_t0;
    step_recovery_attempted = false;
    restart_events = [];
  }

  unfoldable pub reset_constraint_reference : Controller → Bool
  reset_constraint_reference c = c.iter2 == c.iter1

  unfoldable pub refresh_preconditioner : Controller → Bool
  refresh_preconditioner c = (c.iter2 - c.iter1) % preconditioner_refresh_interval == 0

  unfoldable pub reset_correction_momentum : Controller → Controller
  reset_correction_momentum c = record c {
    res0 = s.negate s.one;
    fsq_prev = s.one;
    inv_tau_hist = initial_history c.delt0;
  }

  -- `iter1_ = iter2_; log_anchor_ = iter2_; restart_events_.push_back(RestartEvent{iter2_});`
  abbrev pub anchored : Controller → Controller
  anchored c = record c {
    iter1 = c.iter2;
    log_anchor = c.iter2;
    restart_events = c.restart_events ++ c.iter2 ∷ [];
  }

  abbrev pub at_maintenance_count : ℕ → Bool
  at_maintenance_count n =
      (n == first_maintenance_bad_jacobian_count) || (n == second_maintenance_bad_jacobian_count)

  abbrev pub maintenance_reset : Controller → Controller
  maintenance_reset c =
      let count = c.ijacob + 1 in
      anchored (record c {
        ijacob = count;
        delt =
            s.times
              (if ltb count second_maintenance_bad_jacobian_count
                then first_maintenance_step_factor s
                else second_maintenance_step_factor s)
              c.delt0;
      })

  -- The new state, and whether a reset occurred.
  unfoldable pub next_schedule : Controller → Controller × Bool
  next_schedule c =
      if at_maintenance_count c.ijacob then (maintenance_reset c, true) else (c, false)

  unfoldable pub invalid_jacobian : JacobianStatus → ℕ → Bool
  invalid_jacobian j n_zn_t =
      s.lt s.zero j.nonfinite_count
      || s.le j.max_abs s.zero
      || s.le j.min_oriented s.zero
      || (s.lt j.min_oriented (s.times (jacobian_relative_threshold s) j.max_abs)
          && leb n_zn_t j.min_index)

  -- `delt_ *= 0.9` and a new anchor.
  unfoldable pub reject_jacobian : Controller → Controller
  reject_jacobian c = anchored (record c { delt = s.times c.delt (restart_step_factor s) })

  unfoldable pub jacobian_invalid : Controller → JacobianStatus → ℕ → Controller × Bool
  unfolding reject_jacobian
  jacobian_invalid c j n_zn_t =
      if invalid_jacobian j n_zn_t then (reject_jacobian c, true) else (c, false)

  unfoldable pub classify_invariant : Controller → Triple → Controller × InvariantVerdict
  unfolding reject_jacobian
  classify_invariant c i =
      let seen = record c { fsqz_prev = i.z } in
      if not (s.is_finite i.r && s.is_finite i.z && s.is_finite i.l)
      then (reject_jacobian seen, record { nonfinite = true; converged = false })
      else (
        seen,
        record {
          nonfinite = false;
          converged = s.le i.r c.ftol && s.le i.z c.ftol && s.le i.l c.ftol;
        },
      )

  unfoldable pub vacuum_soft_restart : Controller → Controller
  vacuum_soft_restart c = anchored (record c { ijacob = c.ijacob + 1 })

  -- `iter2` has been advanced.
  unfoldable pub recover_step : Controller → Controller
  unfolding std_min
  recover_step c =
      if c.step_recovery_enabled
        && not c.step_recovery_attempted
        && leb step_recovery_age (c.iter2 - c.iter1)
        && s.lt c.delt c.delt0
      then record c {
        delt = std_min s c.delt0 (s.times c.delt (step_recovery_factor s));
        step_recovery_attempted = true;
      }
      else c

  -- The branches of `after_descent`, by the reason of the decision.
  unfoldable pub after_descent : Controller → RestartReason → Controller
  unfolding recover_step
  after_descent c keep_going = recover_step (record c { iter2 = c.iter2 + 1 })
  after_descent c bad_jacobian =
      anchored (record c { delt = s.times c.delt (restart_step_factor s); ijacob = c.ijacob + 1 })
  after_descent c bad_progress =
      anchored (record c { delt = s.over c.delt (bad_progress_step_divisor s) })
