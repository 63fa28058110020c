-- ===== src/Solver/Maintenance.antt =====
-- The maintenance branch of the controller of include/cumes/solver/iteration_controller.hpp
-- (next_schedule) and its counter of bad Jacobians.
use cu_mes.Base.{
  ℕ, ◌+◌, ◌≤◌, ◌≡◌, refl, Bool, true, false, inl, inr, List, [], ◌∷◌, if◌then◌else◌, either_way,
  Bool-cases, ltb, arith,
}
use cu_mes.Solver.Scalar.{Scalar}
use cu_mes.Solver.Controller.{
  RestartReason, keep_going, bad_jacobian, bad_progress, Controller, next_schedule,
  at_maintenance_count, jacobian_invalid, reject_jacobian, classify_invariant, vacuum_soft_restart,
  recover_step, after_descent, reset_correction_momentum,
}
use cu_mes.Solver.Decision.{decide_restart}
use cu_mes.Solver.Actions.{
  Action, schedule, inspect_jacobian, reject, classify, decide, activate_vacuum, descend,
  forget_momentum, perform, after,
}

module _ (s : Scalar) where
  after_maintenance :
      (n : ℕ) → at_maintenance_count s n ≡ true → at_maintenance_count s (n + 1) ≡ false
  after_maintenance n h = ground arith

  -- A second call of `next_schedule` changes nothing and returns false.
  pub next_schedule-settles :
      (c : Controller s) → next_schedule s (next_schedule s c).0 ≡ ((next_schedule s c).0, false)
  unfolding next_schedule
  next_schedule-settles c = elim (Bool-cases (at_maintenance_count s c.ijacob)) [
    | inl h ↦ rw h (rw (after_maintenance c.ijacob h) refl)
    | inr h ↦ rw h (rw h refl)
  ]

  unfoldable pub run : Controller s → List (Action s) → Controller s
  run c [] = c
  run c (a ∷ calls) = run (after s c a) calls

  unfoldable pub is_reset : Controller s → Action s → Bool
  is_reset c schedule = (next_schedule s c).1
  is_reset c _ = false

  -- The calls of `next_schedule` that returned `true`.
  unfoldable pub resets : Controller s → List (Action s) → ℕ
  unfolding is_reset
  resets c [] = 0
  resets c (a ∷ calls) = (if is_reset c a then 1 else 0) + resets (after s c a) calls

  -- How many of the counts 25 and 50 are passed.
  abbrev passed : ℕ → ℕ
  passed n = (if ltb 25 n then 1 else 0) + (if ltb 50 n then 1 else 0)

  passed_monotone : (m n : ℕ) → m ≤ n → passed m ≤ passed n
  passed_monotone m n h = ground arith

  reset_passes : (n : ℕ) → at_maintenance_count s n ≡ true → 1 + passed n ≤ passed (n + 1)
  reset_passes n h = ground arith

  schedule_passes :
      (c : Controller s)
      → (if (next_schedule s c).1 then 1 else 0) + passed c.ijacob
        ≤ passed (next_schedule s c).0.ijacob
  unfolding next_schedule
  schedule_passes c = elim (Bool-cases (at_maintenance_count s c.ijacob)) [
    | inl h ↦ rw h (reset_passes c.ijacob h)
    | inr h ↦ rw h (omega arith)
  ]

  -- The counter of the state that a call returns is at least that of `c`.
  abbrev Counts : {A : Type 0} → Controller s → Controller s × A → Type 0
  Counts c r = c.ijacob ≤ r.0.ijacob

  same_count : (n : ℕ) → n ≤ n
  same_count n = omega arith

  next_count : (n : ℕ) → n ≤ n + 1
  next_count n = omega arith

  counts_silently : (m n : ℕ) → m ≤ n → 0 + passed m ≤ passed n
  counts_silently m n h = omega (arith, passed_monotone m n h)

  descend_counts :
      (c : Controller s) (reason : RestartReason) → c.ijacob ≤ (after_descent s c reason).ijacob
  unfolding after_descent recover_step
  descend_counts c keep_going =
      either_way (λ (d : Controller s). c.ijacob ≤ d.ijacob) _ _ _ (same_count c.ijacob)
        (same_count c.ijacob)
  descend_counts c bad_jacobian = omega arith
  descend_counts c bad_progress = omega arith

  -- No call lowers the counter.
  call_counts : (c : Controller s) (a : Action s) → c.ijacob ≤ (after s c a).ijacob
  unfolding perform next_schedule jacobian_invalid reject_jacobian classify_invariant decide_restart
      vacuum_soft_restart reset_correction_momentum
  call_counts c schedule = either_way (Counts c) _ _ _ (next_count c.ijacob) (same_count c.ijacob)
  call_counts c (inspect_jacobian j n) =
      either_way (Counts c) _ _ _ (same_count c.ijacob) (same_count c.ijacob)
  call_counts c reject = same_count c.ijacob
  call_counts c (classify i) =
      either_way (Counts c) _ _ _ (same_count c.ijacob) (same_count c.ijacob)
  call_counts c (decide p i) = same_count c.ijacob
  call_counts c activate_vacuum = omega arith
  call_counts c (descend reason) = descend_counts c reason
  call_counts c forget_momentum = same_count c.ijacob

  call_passes :
      (c : Controller s) (a : Action s)
      → (if is_reset c a then 1 else 0) + passed c.ijacob ≤ passed (after s c a).ijacob
  unfolding is_reset perform
  call_passes c schedule = schedule_passes c
  call_passes c (inspect_jacobian j n) = counts_silently _ _ (call_counts c (inspect_jacobian j n))
  call_passes c reject = counts_silently _ _ (call_counts c reject)
  call_passes c (classify i) = counts_silently _ _ (call_counts c (classify i))
  call_passes c (decide p i) = counts_silently _ _ (call_counts c (decide p i))
  call_passes c activate_vacuum = counts_silently _ _ (call_counts c activate_vacuum)
  call_passes c (descend reason) = counts_silently _ _ (call_counts c (descend reason))
  call_passes c forget_momentum = counts_silently _ _ (call_counts c forget_momentum)

  resets_pass :
      (c : Controller s) (calls : List (Action s))
      → resets c calls + passed c.ijacob ≤ passed (run c calls).ijacob
  unfolding resets run
  resets_pass c [] = omega arith
  resets_pass c (a ∷ calls) = omega (arith, call_passes c a, resets_pass (after s c a) calls)

  -- In every sequence of calls on a controller, at most two calls of `next_schedule` reset it.
  pub at_most_two_resets : (c : Controller s) (calls : List (Action s)) → resets c calls ≤ 2
  at_most_two_resets c calls = ground (arith, resets_pass c calls)
