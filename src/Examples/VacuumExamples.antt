-- ===== src/Examples/VacuumExamples.antt =====
-- The vacuum pressure turned on over five passes, and the handover to a finer stage.
use cu_mes.Base.{ℕ, ◌≡◌, ◌≤◌, refl, true, false, none, List, [], ◌∷◌, map, pos, arith}
use cu_mes.Solver.Vacuum.{
  VacuumHost, Vacuum, construct, active, advance, run_host_update, finish_host_update,
  on_iteration_end, on_stage_transition,
}
use cu_mes.Solver.VacuumPasses.{
  Pass, evaluate, seen, after_pass, vacuum_passes, soft_restarts, IsFactored,
}
use cu_mes.Solver.VacuumFactors.{vacuum_passes-IsFactored}
use cu_mes.Solver.VacuumRestarts.{at_most_one_soft_restart, handover}
use cu_mes.Examples.Fixed.{fixed}

abbrev host : VacuumHost fixed
host = record { to_int = λ x. 3; pi = pos 3141592; mu_0 = pos 1 }

-- A pass at iteration `n` after an evaluation with the residual `r`.
abbrev pass_at : ℕ → ℕ → Pass fixed
pass_at n r = record {
  iter2 = n;
  iter1 = 1;
  previous_fsqr = pos r;
  previous_fsqz = pos 0;
  averages = record {
    buco_last = pos 0;
    buco_prev = pos 0;
    bvco_last = pos 1000000;
    bvco_prev = pos 1000000;
  };
  field = λ full current. (pos 0, pos 1000000);
  finished = true;
}

-- The residual falls below the threshold of 0.03 before the third pass.
abbrev five_passes : List (Pass fixed)
five_passes =
    pass_at 1 1000000 ∷ pass_at 2 1000000 ∷ pass_at 3 10000 ∷ pass_at 4 10000 ∷ pass_at 5 10000 ∷ []

abbrev cold : Vacuum fixed
cold = construct fixed 1 false none

abbrev hot : Vacuum fixed
hot = record cold { state = active; has_factors = true }

five_seen :
    (map (λ x. x.updated) (vacuum_passes fixed host five_passes cold)
      ≡ false ∷ true ∷ true ∷ true ∷ true ∷ [])
    × (map (λ x. x.soft_restart) (vacuum_passes fixed host five_passes cold)
        ≡ false ∷ false ∷ true ∷ false ∷ false ∷ [])
    × (map (λ x. x.edge_force) (vacuum_passes fixed host five_passes cold)
        ≡ false ∷ false ∷ true ∷ true ∷ true ∷ [])
    × (map (λ x. x.full) (vacuum_passes fixed host five_passes cold)
        ≡ false ∷ true ∷ true ∷ true ∷ false ∷ [])
unfolding vacuum_passes seen after_pass evaluate advance run_host_update finish_host_update
    on_iteration_end construct
five_seen = (refl, refl, refl, refl)

at_most_one_soft_restart_example :
    (soft_restarts fixed (vacuum_passes fixed host five_passes cold) ≤ 1)
    × (cold.state ≡ active → soft_restarts fixed (vacuum_passes fixed host five_passes cold) ≡ 0)
at_most_one_soft_restart_example =
    at_most_one_soft_restart fixed host five_passes cold (refl, (refl, (refl, (refl, (refl, tt)))))

vacuum_passes-IsFactored_example :
    IsFactored fixed cold.has_factors (vacuum_passes fixed host five_passes cold)
vacuum_passes-IsFactored_example = vacuum_passes-IsFactored fixed host five_passes cold

handover_example :
    ((seen fixed host (pass_at 1 1000000) (on_stage_transition fixed 5 7 hot)).updated ≡ true)
    × ((seen fixed host (pass_at 1 1000000) (on_stage_transition fixed 5 7 hot)).failure ≡ none
        → (seen fixed host (pass_at 1 1000000) (on_stage_transition fixed 5 7 hot)).edge_force
          ≡ true)
handover_example = handover fixed host 5 7 (pass_at 1 1000000) hot (omega arith) (omega arith) refl
