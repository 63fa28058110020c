-- ===== src/Solver/VacuumPasses.antt =====
-- How the loop over the passes in src/kernels/solver_impl.cuh calls the vacuum operator, and what
-- that gives for its soft restarts, its factorizations and the handover to a finer stage.
use cu_mes.Base.{
  ℕ, ◌+◌, ◌≡◌, Bool, true, ◌&&◌, ◌||◌, Option, none, some, List, [], ◌∷◌, if◌then◌else◌,
}
use cu_mes.Solver.Scalar.{Scalar}
use cu_mes.Solver.Vacuum.{
  VacuumError, Vacuum, Averages, VacuumHost, advance, run_host_update, on_iteration_end,
}

module _ (s : Scalar) where
  open s use {T}

  -- What a pass gives to the operator; `finished` says that the pass gets to its end and is not left
  -- for an invalid Jacobian or a nonfinite residual.
  pub record Pass : Type 0 where
    pub iter2 : ℕ
    pub iter1 : ℕ
    pub previous_fsqr : T
    pub previous_fsqz : T
    pub averages : Averages s
    pub field : Bool → T → T × T
    pub finished : Bool

  -- What the loop reads of the operator after the evaluation of a pass.
  pub record Seen : Type 0 where
    pub failure : Option VacuumError
    pub updated : Bool
    pub full : Bool
    pub soft_restart : Bool
    pub edge_force : Bool

  module _ (h : VacuumHost s) where
    unfoldable pub evaluate : Pass → Vacuum s → Option VacuumError × Vacuum s
    evaluate x v =
        let advanced = advance s h x.iter2 x.iter1 x.previous_fsqr x.previous_fsqz v in
        if advanced.run_block
        then run_host_update s h x.averages x.field advanced
        else (none, advanced)

    unfoldable pub seen : Pass → Vacuum s → Seen
    unfolding evaluate
    seen x v =
        let (failure, u) = evaluate x v in
        record {
          failure = failure;
          updated = u.run_block;
          full = u.full_update;
          soft_restart = u.soft_restart;
          edge_force = u.run_block && u.edge_gate;
        }

    unfoldable pub after_pass : Pass → Vacuum s → Vacuum s
    unfolding evaluate
    after_pass x v = if x.finished then on_iteration_end s (evaluate x v).1 else (evaluate x v).1

    abbrev pub if_running : Option VacuumError → List Seen → List Seen
    if_running none later = later
    if_running (some e) later = []

    -- The passes of a stage; an exception ends them.
    unfoldable pub vacuum_passes : List Pass → Vacuum s → List Seen
    vacuum_passes [] v = []
    vacuum_passes (x ∷ rest) v =
        seen x v ∷ if_running (seen x v).failure (vacuum_passes rest (after_pass x v))

  abbrev pub soft_restarts : List Seen → ℕ
  soft_restarts [] = 0
  soft_restarts (x ∷ xs) = (if x.soft_restart then 1 else 0) + soft_restarts xs

  -- Every partial update comes after a full one.
  abbrev pub IsFactored : Bool → List Seen → Type 0
  IsFactored factored [] = Unit {0}
  IsFactored factored (x ∷ xs) =
      (x.updated ≡ true → (x.full || factored) ≡ true)
      × IsFactored (factored || (x.updated && x.full)) xs
