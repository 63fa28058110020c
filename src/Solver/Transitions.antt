-- ===== src/Solver/Transitions.antt =====
-- What each call of the controller does to its anchor.
use cu_mes.Base.{
  ℕ, ◌+◌, ◌≡◌, refl, Bool, true, false, inl, inr, not, ◌&&◌, leb, ◌-◌, if◌then◌else◌, Bool-cases,
  arith,
}
use cu_mes.Solver.Scalar.{Scalar}
use cu_mes.Solver.Policy.{step_recovery_age}
use cu_mes.Solver.Controller.{
  RestartReason, keep_going, bad_jacobian, bad_progress, JacobianStatus, Triple, Controller,
  reset_correction_momentum, next_schedule, at_maintenance_count, invalid_jacobian, reject_jacobian,
  jacobian_invalid, classify_invariant, InvariantVerdict, vacuum_soft_restart, recover_step,
  after_descent,
}
use cu_mes.Solver.Decision.{decide_restart}
use cu_mes.Solver.Actions.{
  Action, schedule, inspect_jacobian, reject, classify, decide, activate_vacuum, descend,
  forget_momentum, perform, IsAnchored, IsKept, Effect,
}

module _ (s : Scalar) where
  anchored-Effect : (c c' : Controller s) → IsAnchored s c c' → Effect s c (c', true)
  anchored-Effect c c' h = inl (refl, h)

  kept-Effect : (c c' : Controller s) → IsKept s c c' → Effect s c (c', false)
  kept-Effect c c' h = inr (refl, h)

  same :
      (c c' : Controller s)
      → c'.iter2 ≡ c.iter2
      → c'.iter1 ≡ c.iter1
      → c'.log_anchor ≡ c.log_anchor
      → c'.restart_events ≡ c.restart_events
      → IsKept s c c'
  same c c' i2 i1 la ev = record {
    iter2 = omega (arith, i2);
    iter1 = i1;
    log_anchor = la;
    events = ev;
  }

  schedule-Effect : (c : Controller s) → Effect s c (next_schedule s c)
  unfolding next_schedule
  schedule-Effect c = elim (Bool-cases (at_maintenance_count s c.ijacob)) [
    | inl h ↦ rw h (
        anchored-Effect c _
          (record { iter2 = refl; iter1 = refl; log_anchor = refl; events = refl }))
    | inr h ↦ rw h (kept-Effect c _ (same c c refl refl refl refl))
  ]

  rejected-IsAnchored : (c : Controller s) → IsAnchored s c (reject_jacobian s c)
  unfolding reject_jacobian
  rejected-IsAnchored c = record { iter2 = refl; iter1 = refl; log_anchor = refl; events = refl }

  jacobian-Effect :
      (c : Controller s) (j : JacobianStatus s) (n : ℕ) → Effect s c (jacobian_invalid s c j n)
  unfolding jacobian_invalid
  jacobian-Effect c j n = elim (Bool-cases (invalid_jacobian s j n)) [
    | inl h ↦ rw h (anchored-Effect c _ (rejected-IsAnchored c))
    | inr h ↦ rw h (kept-Effect c _ (same c c refl refl refl refl))
  ]

  verdict-Effect :
      (c : Controller s) (b : Bool) (x y : Controller s × InvariantVerdict)
      → Effect s c (x.0, x.1.nonfinite)
      → Effect s c (y.0, y.1.nonfinite)
      → Effect s c ((if b then x else y).0, (if b then x else y).1.nonfinite)
  verdict-Effect c true x y hx hy = hx
  verdict-Effect c false x y hx hy = hy

  classify-Effect : (c : Controller s) (i : Triple s) → Effect s c (perform s c (classify i))
  unfolding perform classify_invariant
  classify-Effect c i =
      let seen = record c { fsqz_prev = i.z } in
      let h = rejected-IsAnchored seen in
      verdict-Effect c (not (s.is_finite i.r && s.is_finite i.z && s.is_finite i.l)) _ _
        (anchored-Effect c _ (record {
          iter2 = h.iter2;
          iter1 = h.iter1;
          log_anchor = h.log_anchor;
          events = h.events;
        }))
        (kept-Effect c _ (same c _ refl refl refl refl))

  recovered-IsKept : (c : Controller s) → IsKept s c (recover_step s c)
  unfolding recover_step
  recovered-IsKept c =
      elim (Bool-cases (
        c.step_recovery_enabled
        && not c.step_recovery_attempted
        && leb step_recovery_age (c.iter2 - c.iter1)
        && s.lt c.delt c.delt0)) [
          | inl h ↦ rw h (same c _ refl refl refl refl)
          | inr h ↦ rw h (same c c refl refl refl refl)
        ]

  descend-Effect :
      (c : Controller s) (reason : RestartReason) → Effect s c (perform s c (descend reason))
  unfolding perform after_descent
  descend-Effect c keep_going =
      let h = recovered-IsKept (record c { iter2 = c.iter2 + 1 }) in
      kept-Effect c _ (record {
        iter2 = omega (arith, h.iter2);
        iter1 = h.iter1;
        log_anchor = h.log_anchor;
        events = h.events;
      })
  descend-Effect c bad_jacobian =
      anchored-Effect c _ (record { iter2 = refl; iter1 = refl; log_anchor = refl; events = refl })
  descend-Effect c bad_progress =
      anchored-Effect c _ (record { iter2 = refl; iter1 = refl; log_anchor = refl; events = refl })

  -- A call anchors the controller at its iteration and records the event if it reports a restart;
  -- otherwise the anchor and the events stay, and the iteration does not fall.
  pub perform-Effect : (c : Controller s) (a : Action s) → Effect s c (perform s c a)
  unfolding perform decide_restart reset_correction_momentum vacuum_soft_restart
  perform-Effect c schedule = schedule-Effect c
  perform-Effect c (inspect_jacobian j n) = jacobian-Effect c j n
  perform-Effect c reject = anchored-Effect c _ (rejected-IsAnchored c)
  perform-Effect c (classify i) = classify-Effect c i
  perform-Effect c (decide p i) = kept-Effect c _ (same c _ refl refl refl refl)
  perform-Effect c activate_vacuum =
      anchored-Effect c _ (record { iter2 = refl; iter1 = refl; log_anchor = refl; events = refl })
  perform-Effect c (descend reason) = descend-Effect c reason
  perform-Effect c forget_momentum = kept-Effect c _ (same c _ refl refl refl refl)
