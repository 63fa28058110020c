-- ===== src/Solver/VacuumRestarts.antt =====
-- The soft restarts and the handover to a finer stage of the vacuum operator of
-- src/free_boundary_impl.cuh.
use cu_mes.Base.{
  ℕ, ◌+◌, ◌≡◌, ◌≤◌, ◌<◌, ap, Bool, true, false, refl, if_either, Option, none, some, List, [], ◌∷◌,
  All, if◌then◌else◌, arith,
}
use cu_mes.Solver.Scalar.{Scalar}
use cu_mes.Solver.Vacuum.{
  VacuumState, off, initializing, initialized, active, VacuumError, Vacuum, Averages, VacuumHost,
  next_state, promoted, is_initialized, advance, run_host_update, finish_host_update,
  on_iteration_end, on_stage_transition,
}
use cu_mes.Solver.VacuumPasses.{
  Pass, Seen, evaluate, seen, after_pass, if_running, vacuum_passes, soft_restarts,
}

-- The soft restarts that a state still has before it.
abbrev soft_left : VacuumState → ℕ
soft_left off = 1
soft_left initializing = 1
soft_left initialized = 1
soft_left active = 0

abbrev count : Bool → ℕ
count restart = if restart then 1 else 0

one_left : (st : VacuumState) → soft_left st ≤ 1
one_left off = omega arith
one_left initializing = omega arith
one_left initialized = omega arith
one_left active = omega arith

next_left : (st : VacuumState) → soft_left (next_state st) ≤ soft_left st
next_left off = omega arith
next_left initializing = omega arith
next_left initialized = omega arith
next_left active = omega arith

promoted_left : (st : VacuumState) → soft_left (promoted st) ≤ soft_left st
promoted_left off = omega arith
promoted_left initializing = omega arith
promoted_left initialized = omega arith
promoted_left active = omega arith

initialized_left : (st : VacuumState) → is_initialized st ≡ true → soft_left st ≡ 1
initialized_left off e = ground arith
initialized_left initializing e = ground arith
initialized_left initialized e = refl
initialized_left active e = ground arith

module _ (s : Scalar) (h : VacuumHost s) where
  request_paid :
      (soft : Bool) (u : Vacuum s) (n : ℕ)
      → soft_left u.state ≤ n
      → (soft ≡ true → is_initialized u.state ≡ true)
      → count soft + soft_left (on_iteration_end s u).state ≤ n
  unfolding on_iteration_end
  request_paid true u n left k = ground (arith, left, k refl, initialized_left u.state (k refl))
  request_paid false u n left k = ground (arith, left)

  -- A soft restart is requested in the one state that is left at the end of the pass.
  abbrev Requested : VacuumState → Vacuum s → Type 0
  Requested before u =
      (soft_left u.state ≤ soft_left before)
      × (u.soft_restart ≡ true → is_initialized u.state ≡ true)

  advance-Requested :
      (iter2 iter1 : ℕ) (fsqr fsqz : s.T) (v : Vacuum s)
      → (soft_left (advance s h iter2 iter1 fsqr fsqz v).state ≤ soft_left v.state)
        × ((advance s h iter2 iter1 fsqr fsqz v).soft_restart ≡ false)
  unfolding advance
  advance-Requested iter2 iter1 fsqr fsqz v = (ground (arith, next_left v.state), ground arith)

  run_host_update-Requested :
      (a : Averages s) (field : Bool → s.T → s.T × s.T) (v : Vacuum s)
      → v.soft_restart ≡ false
      → Requested v.state (run_host_update s h a field v).1
  unfolding run_host_update finish_host_update
  run_host_update-Requested a field v e =
      (ground (arith, promoted_left v.state), λ k. ground (arith, e))

  evaluate-Requested : (x : Pass s) (v : Vacuum s) → Requested v.state (evaluate s h x v).1
  unfolding evaluate
  evaluate-Requested x v =
      let a : Vacuum s = advance s h x.iter2 x.iter1 x.previous_fsqr x.previous_fsqz v in
      let (left, none_yet) = advance-Requested x.iter2 x.iter1 x.previous_fsqr x.previous_fsqz v in
      let u = run_host_update-Requested x.averages x.field a none_yet in
      if_either (λ (r : Option VacuumError × Vacuum s). Requested v.state r.1) a.run_block
        (λ runs. (omega (arith, left, u.0), u.1)) (λ idle. (left, λ k. ground (arith, none_yet, k)))

  restart_paid :
      (x : Pass s) (v : Vacuum s)
      → x.finished ≡ true
      → count (seen s h x v).soft_restart + soft_left (after_pass s h x v).state ≤ soft_left v.state
  unfolding seen after_pass
  restart_paid x v e =
      let u : Vacuum s = (evaluate s h x v).1 in
      let (left, requested) = evaluate-Requested x v in
      rw e (request_paid u.soft_restart u (soft_left v.state) left requested)

  running_restarts :
      (e : Option VacuumError) (l : List (Seen s)) (n : ℕ)
      → soft_restarts s l ≤ n
      → soft_restarts s (if_running s h e l) ≤ n
  running_restarts none l n k = k
  running_restarts (some e) l n k = omega arith

  restarts_paid :
      (xs : List (Pass s)) (v : Vacuum s)
      → All (λ x. x.finished ≡ true) xs
      → soft_restarts s (vacuum_passes s h xs v) ≤ soft_left v.state
  unfolding vacuum_passes
  restarts_paid [] v k = omega arith
  restarts_paid (x ∷ rest) v k =
      let next = after_pass s h x v in
      let later =
        running_restarts (seen s h x v).failure (vacuum_passes s h rest next) (soft_left next.state)
          (restarts_paid rest next k.1) in
      omega (arith, later, restart_paid x v k.0)

  -- A stage whose passes all get to their end requests at most one soft restart, and none if the
  -- vacuum pressure is fully on at its start.
  pub at_most_one_soft_restart :
      (xs : List (Pass s)) (v : Vacuum s)
      → All (λ x. x.finished ≡ true) xs
      → (soft_restarts s (vacuum_passes s h xs v) ≤ 1)
        × (v.state ≡ active → soft_restarts s (vacuum_passes s h xs v) ≡ 0)
  at_most_one_soft_restart xs v k = (
    omega (arith, restarts_paid xs v k, one_left v.state),
    λ e. omega (arith, restarts_paid xs v k, ap soft_left e),
  )

  -- After the transition to a stage with more surfaces with the pressure fully on, the first pass runs
  -- the vacuum block, whatever its iteration is, and applies the edge force unless the update fails.
  pub handover :
      (ns_old ns_new : ℕ) (x : Pass s) (v : Vacuum s)
      → 1 ≤ ns_old
      → ns_old < ns_new
      → v.state ≡ active
      → let first = seen s h x (on_stage_transition s ns_old ns_new v) in
        (first.updated ≡ true) × (first.failure ≡ none → first.edge_force ≡ true)
  unfolding seen evaluate advance run_host_update finish_host_update on_stage_transition
  handover ns_old ns_new x v k l e = (ground (arith, k, l), λ f. ground (arith, k, l))
