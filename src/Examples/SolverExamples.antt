-- ===== src/Examples/SolverExamples.antt =====
-- Runs of the controller on concrete numbers.
use cu_mes.Base.{
  ℕ, ◌+◌, ◌/◌, ◌≤◌, ◌<◌, ◌≡◌, refl, true, false, List, [], ◌∷◌, ◌++◌, length, drop, if◌then◌else◌,
  pos, arith,
}
use cu_mes.Solver.Controller.{
  keep_going, bad_jacobian, Options, Triple, Controller, reset_constraint_reference,
  refresh_preconditioner, init, next_schedule, after_descent, recover_step,
}
use cu_mes.Solver.Decision.{decide_restart, next_history, inverse_tau, choose, next_res0}
use cu_mes.Solver.Scalar.{std_min}
use cu_mes.Solver.Actions.{
  schedule, decide, descend, reject, activate_vacuum, perform, after, Reachable, start, call,
}
use cu_mes.Solver.Anchors.{IsWellAnchored, Reachable-IsWellAnchored, events_counted, restart_flags}
use cu_mes.Solver.Progress.{Permitted, decide_restart-Permitted, pass, passes, passes_advance}
use cu_mes.Solver.History.{Reachable-window}
use cu_mes.Solver.StepBound.{Reachable-step}
use cu_mes.Solver.Maintenance.{next_schedule-settles, at_most_two_resets, resets}
use cu_mes.Examples.Fixed.{fixed, fixed-IsOrdered}

abbrev options : Options fixed
options = record {
  delta_t0 = pos 900000;
  ftol = pos 1;
  dtau_floor = pos 0;
  enable_step_recovery = true;
}

abbrev start_state : Controller fixed
start_state = init fixed options

abbrev triple : ℕ → Triple fixed
triple n = record { r = pos n; z = pos n; l = pos n }

abbrev calm : Triple fixed × Triple fixed
calm = (triple 1000, triple 1000)

abbrev wild : Triple fixed × Triple fixed
wild = (triple 9000000, triple 9000000)

-- The second pass restarts, the third is its anchor pass.
abbrev residuals : List (Triple fixed × Triple fixed)
residuals = calm ∷ wild ∷ wild ∷ calm ∷ []

-- The state when 25 bad Jacobians have been counted.
abbrev troubled : Controller fixed
troubled = record start_state { ijacob = 25; iter2 = 40; iter1 = 30 }

-- The state after a first good pass.
abbrev second : Controller fixed
second =
    after fixed (after fixed start_state (decide (triple 1000) (triple 1000))) (descend keep_going)

second-Reachable : Reachable fixed options second
second-Reachable = call _ (descend keep_going) (call _ (decide (triple 1000) (triple 1000)) start)

-- The iteration and the events after the four passes.
four_passes :
    ((passes fixed start_state residuals).iter2 ≡ 4)
    × ((passes fixed start_state residuals).restart_events ≡ 2 ∷ [])
unfolding passes pass init decide_restart after_descent recover_step choose next_res0 std_min
four_passes = (refl, refl)

-- A step of 0.9 after one bad Jacobian at iteration 2.
shrunk_step :
    (after fixed
      (after fixed second (decide (triple 9000000) (triple 9000000)))
      (descend bad_jacobian)).delt
    ≡ pos 810000
unfolding perform init decide_restart after_descent recover_step
shrunk_step = refl

-- The maintenance reset at 25 bad Jacobians sets the step to 0.98 of the initial one.
maintained_step :
    ((next_schedule fixed troubled).0.delt ≡ pos 882000) × ((next_schedule fixed troubled).1 ≡ true)
unfolding next_schedule init
maintained_step = (refl, refl)

Reachable-IsWellAnchored_example : IsWellAnchored fixed second
Reachable-IsWellAnchored_example = Reachable-IsWellAnchored fixed options second second-Reachable

events_counted_example :
    length (perform fixed second reject).0.restart_events
    ≡ length second.restart_events + (if (perform fixed second reject).1 then 1 else 0)
events_counted_example = events_counted fixed second reject

decide_restart-Permitted_example :
    Permitted fixed second
      (decide_restart fixed second (triple 9000000) (triple 9000000)).1.reason
      (decide_restart fixed second (triple 9000000) (triple 9000000)).1.do_refresh
decide_restart-Permitted_example =
    decide_restart-Permitted fixed second (triple 9000000) (triple 9000000)

passes_advance_example :
    start_state.iter2 + length residuals / 2 ≤ (passes fixed start_state residuals).iter2
passes_advance_example = passes_advance fixed start_state residuals

second_is_past_anchor : second.iter1 < second.iter2
unfolding perform init decide_restart after_descent recover_step
second_is_past_anchor = omega arith

Reachable-window_example :
    next_history fixed second (pos 3000)
    ≡ drop 1 second.inv_tau_hist ++ inverse_tau fixed second (pos 3000) ∷ []
Reachable-window_example =
    Reachable-window fixed options second (pos 3000) second-Reachable second_is_past_anchor

Reachable-step_example :
    (fixed.le fixed.zero second.delt ≡ true) × (fixed.le second.delt options.delta_t0 ≡ true)
Reachable-step_example = Reachable-step fixed fixed-IsOrdered options second refl second-Reachable

next_schedule-settles_example :
    next_schedule fixed (next_schedule fixed troubled).0 ≡ ((next_schedule fixed troubled).0, false)
next_schedule-settles_example = next_schedule-settles fixed troubled

at_most_two_resets_example : resets fixed troubled (schedule ∷ activate_vacuum ∷ schedule ∷ []) ≤ 2
at_most_two_resets_example =
    at_most_two_resets fixed troubled (schedule ∷ activate_vacuum ∷ schedule ∷ [])

restart_flags_example :
    (reset_constraint_reference fixed (perform fixed second reject).0 ≡ true)
    × (refresh_preconditioner fixed (perform fixed second reject).0 ≡ true)
restart_flags_example = restart_flags fixed second reject (unfold perform in refl)
