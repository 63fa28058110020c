-- ===== src/Solver/Decision.antt =====
-- `decide_restart` of include/cumes/solver/iteration_controller.hpp: the damping history, the damping
-- coefficients, and the reason of a restart.
use cu_mes.Base.{◌-◌, Bool, true, false, ◌&&◌, ◌||◌, not, List, [], ◌∷◌, ltb, ◌==◌, if◌then◌else◌}
use cu_mes.Solver.Scalar.{Scalar, std_min}
use cu_mes.Solver.Policy.{
  checkpoint_refresh_min_age, bad_progress_min_age, bad_progress_min_iteration,
  damping_log_ratio_limit, damping_time_scale_divisor, bad_jacobian_residual_growth_factor,
  bad_progress_rz_residual_threshold,
}
use cu_mes.Solver.Controller.{
  RestartReason, keep_going, bad_jacobian, bad_progress, Controller, Triple, Damping,
  RestartDecision, initial_history,
}

module _ (s : Scalar) where
  open s use {T}

  -- `for (ii = 0; ii < 9; ++ii) h[ii] = h[ii + 1];`
  unfoldable pub shift : List T → List T
  shift [] = []
  shift (x ∷ []) = x ∷ []
  shift (x ∷ y ∷ rest) = y ∷ shift (y ∷ rest)

  -- `h[9] = v;`
  unfoldable pub set_last : List T → T → List T
  set_last [] v = []
  set_last (x ∷ []) v = v ∷ []
  set_last (x ∷ y ∷ rest) v = x ∷ set_last (y ∷ rest) v

  unfoldable pub sum_from : T → List T → T
  sum_from acc [] = acc
  sum_from acc (x ∷ xs) = sum_from (s.plus acc x) xs

  -- The sample of one pass.
  unfoldable pub inverse_tau : Controller s → T → T
  unfolding std_min
  inverse_tau c fsq =
      s.over
        (if not (s.eq fsq s.zero)
          then std_min s (s.abs (s.log (s.over fsq c.fsq_prev))) (damping_log_ratio_limit s)
          else s.zero)
        c.delt

  unfoldable pub next_history : Controller s → T → List T
  unfolding shift set_last inverse_tau
  next_history c fsq =
      let shifted =
        shift (if c.iter2 == c.iter1 then initial_history s c.delt else c.inv_tau_hist) in
      if ltb c.iter1 c.iter2 then set_last shifted (inverse_tau c fsq) else shifted

  unfoldable pub damping_of : Controller s → List T → Damping s
  unfolding sum_from
  damping_of c hist =
      let otav = s.over (sum_from s.zero hist) (s.decimal 10 0) in
      let free = s.over (s.times c.delt otav) (damping_time_scale_divisor s) in
      let dtau = (if s.lt s.zero c.dtau_floor then s.fmax free c.dtau_floor else free) in
      record {
        b1 = s.minus s.one dtau;
        fac = s.over s.one (s.plus s.one dtau);
        otav = otav;
        dtau = dtau;
      }

  -- The running minimum.
  unfoldable pub next_res0 : Controller s → T → T
  unfolding std_min
  next_res0 c fsq =
      let base = (if (c.iter2 == c.iter1) || s.eq c.res0 (s.negate s.one) then fsq else c.res0) in
      std_min s base fsq

  -- The reason and the refresh flag, from the sum, its running minimum and the invariant residuals.
  unfoldable pub choose : Controller s → T → T → Triple s → RestartReason × Bool
  choose c fsq res0 i =
      if s.le fsq res0 && ltb checkpoint_refresh_min_age (c.iter2 - c.iter1)
      then (keep_going, true)
      else if s.lt (s.times (bad_jacobian_residual_growth_factor s) res0) fsq && ltb c.iter1 c.iter2
      then (bad_jacobian, false)
      else if ltb bad_progress_min_age (c.iter2 - c.iter1)
          && ltb bad_progress_min_iteration c.iter2
          && s.lt (bad_progress_rz_residual_threshold s) (s.plus i.r i.z)
      then (bad_progress, false)
      else (keep_going, false)

  unfoldable pub decide_restart :
      Controller s → Triple s → Triple s → Controller s × RestartDecision s
  unfolding next_history damping_of next_res0 choose
  decide_restart c p i =
      let fsq = s.plus (s.plus p.r p.z) p.l in
      let hist = next_history c fsq in
      let res0 = next_res0 c fsq in
      let (reason, refresh) = choose c fsq res0 i in
      (
        record c { inv_tau_hist = hist; fsq_prev = fsq; res0 = res0 },
        record { reason = reason; do_refresh = refresh; damping = damping_of c hist },
      )
