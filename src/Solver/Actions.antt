-- ===== src/Solver/Actions.antt =====
-- The calls that the stage solver makes on the controller of
-- include/cumes/solver/iteration_controller.hpp, as a sequence of actions.
use cu_mes.Base.{ℕ, ◌≤◌, ◌≡◌, Bool, true, false, ◌⊎◌, [], ◌∷◌, ◌++◌}
use cu_mes.Solver.Scalar.{Scalar}
use cu_mes.Solver.Controller.{
  RestartReason, keep_going, bad_jacobian, bad_progress, Options, JacobianStatus, Triple,
  Controller, init, reset_correction_momentum, next_schedule, reject_jacobian, jacobian_invalid,
  classify_invariant, vacuum_soft_restart, after_descent,
}
use cu_mes.Solver.Decision.{decide_restart}

module _ (s : Scalar) where
  -- A call that may change the controller.
  pub data Action : Type 0 where
    schedule : Action
    inspect_jacobian : JacobianStatus s → ℕ → Action
    reject : Action
    classify : Triple s → Action
    decide : Triple s → Triple s → Action
    activate_vacuum : Action
    descend : RestartReason → Action
    forget_momentum : Action

  abbrev is_restart : RestartReason → Bool
  is_restart keep_going = false
  is_restart bad_jacobian = true
  is_restart bad_progress = true

  -- The state after the call, and whether the call is one that restarts: by its returned flag,
  -- where it returns one.
  unfoldable pub perform : Controller s → Action → Controller s × Bool
  unfolding next_schedule jacobian_invalid classify_invariant
  perform c schedule = next_schedule s c
  perform c (inspect_jacobian j n_zn_t) = jacobian_invalid s c j n_zn_t
  perform c reject = (reject_jacobian s c, true)
  perform c (classify i) = let r = classify_invariant s c i in (r.0, r.1.nonfinite)
  perform c (decide p i) = ((decide_restart s c p i).0, false)
  perform c activate_vacuum = (vacuum_soft_restart s c, true)
  perform c (descend reason) = (after_descent s c reason, is_restart reason)
  perform c forget_momentum = (reset_correction_momentum s c, false)

  abbrev pub after : Controller s → Action → Controller s
  after c a = (perform c a).0

  -- The states of the controllers built from the options `o`.
  pub data Reachable (o : Options s) : Controller s → Type 0 where
    start : Reachable o (init s o)
    call : (c : Controller s) (a : Action) → Reachable o c → Reachable o (after c a)

  -- The call anchors `c` at its iteration and records the event.
  pub record IsAnchored (c c' : Controller s) : Type 0 where
    pub iter2 : c'.iter2 ≡ c.iter2
    pub iter1 : c'.iter1 ≡ c.iter2
    pub log_anchor : c'.log_anchor ≡ c.iter2
    pub events : c'.restart_events ≡ c.restart_events ++ c.iter2 ∷ []

  -- The call leaves the anchor of `c`, and does not turn the iteration back.
  pub record IsKept (c c' : Controller s) : Type 0 where
    pub iter2 : c.iter2 ≤ c'.iter2
    pub iter1 : c'.iter1 ≡ c.iter1
    pub log_anchor : c'.log_anchor ≡ c.log_anchor
    pub events : c'.restart_events ≡ c.restart_events

  -- What a call with the result `r` did to `c`.
  abbrev pub Effect : Controller s → Controller s × Bool → Type 0
  Effect c r = ((r.1 ≡ true) × IsAnchored c r.0) ⊎ ((r.1 ≡ false) × IsKept c r.0)
