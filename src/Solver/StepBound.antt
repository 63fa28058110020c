-- ===== src/Solver/StepBound.antt =====
-- The time step of the controller of include/cumes/solver/iteration_controller.hpp never exceeds the
-- initial one. The laws of the scalar are those of IEEE arithmetic on numbers that are not negative.
use cu_mes.Base.{subst, ◌∙◌, ◌≡◌, refl, true, inl, inr, either_way, Bool-cases, ltb, ◌+◌}
use cu_mes.Solver.Scalar.{Scalar, std_min}
use cu_mes.Solver.Policy.{
  restart_step_factor, bad_progress_step_divisor, second_maintenance_bad_jacobian_count,
  first_maintenance_step_factor, second_maintenance_step_factor, step_recovery_factor,
}
use cu_mes.Solver.Controller.{
  RestartReason, keep_going, bad_jacobian, bad_progress, Options, Controller, init, next_schedule,
  maintenance_reset, jacobian_invalid, reject_jacobian, classify_invariant, vacuum_soft_restart,
  recover_step, after_descent, reset_correction_momentum,
}
use cu_mes.Solver.Decision.{decide_restart}
use cu_mes.Solver.Actions.{
  Action, schedule, inspect_jacobian, reject, classify, decide, activate_vacuum, descend,
  forget_momentum, perform, after, Reachable, start, call,
}

-- What the bound needs of the floating-point operations: on numbers `x` with `0 ≤ x` the order is
-- reflexive and transitive and contains the strict one, a product with 0.9, 0.96 or 0.98 and a
-- quotient by 1.03 lie between 0 and `x`, and a product with 1.1 is not negative.
pub record IsOrdered (s : Scalar) : Type 0 where
  pub reflexive : (x : s.T) → s.le s.zero x ≡ true → s.le x x ≡ true
  pub transitive : (x y z : s.T) → s.le x y ≡ true → s.le y z ≡ true → s.le x z ≡ true
  pub strict : (x y : s.T) → s.lt x y ≡ true → s.le x y ≡ true
  pub restart_shrinks :
      (x : s.T)
      → s.le s.zero x ≡ true
      → (s.le s.zero (s.times x (restart_step_factor s)) ≡ true)
        × (s.le (s.times x (restart_step_factor s)) x ≡ true)
  pub progress_shrinks :
      (x : s.T)
      → s.le s.zero x ≡ true
      → (s.le s.zero (s.over x (bad_progress_step_divisor s)) ≡ true)
        × (s.le (s.over x (bad_progress_step_divisor s)) x ≡ true)
  pub first_shrinks :
      (x : s.T)
      → s.le s.zero x ≡ true
      → (s.le s.zero (s.times (first_maintenance_step_factor s) x) ≡ true)
        × (s.le (s.times (first_maintenance_step_factor s) x) x ≡ true)
  pub second_shrinks :
      (x : s.T)
      → s.le s.zero x ≡ true
      → (s.le s.zero (s.times (second_maintenance_step_factor s) x) ≡ true)
        × (s.le (s.times (second_maintenance_step_factor s) x) x ≡ true)
  pub recovery_not_negative :
      (x : s.T) → s.le s.zero x ≡ true → s.le s.zero (s.times x (step_recovery_factor s)) ≡ true

module _ (s : Scalar) where
  -- The initial step in the state that a call returns is that of `c`.
  abbrev KeepsInitial : {A : Type 0} → Controller s → Controller s × A → Type 0
  KeepsInitial c r = r.0.delt0 ≡ c.delt0

  descend_initial :
      (c : Controller s) (reason : RestartReason) → (after_descent s c reason).delt0 ≡ c.delt0
  unfolding after_descent recover_step
  descend_initial c keep_going =
      either_way (λ (d : Controller s). d.delt0 ≡ c.delt0) _ _ _ refl refl
  descend_initial c bad_jacobian = refl
  descend_initial c bad_progress = refl

  after_initial : (c : Controller s) (a : Action s) → (after s c a).delt0 ≡ c.delt0
  unfolding perform next_schedule reject_jacobian jacobian_invalid classify_invariant decide_restart
      vacuum_soft_restart reset_correction_momentum
  after_initial c schedule = either_way (KeepsInitial c) _ _ _ refl refl
  after_initial c (inspect_jacobian j n) = either_way (KeepsInitial c) _ _ _ refl refl
  after_initial c reject = refl
  after_initial c (classify i) = either_way (KeepsInitial c) _ _ _ refl refl
  after_initial c (decide p i) = refl
  after_initial c activate_vacuum = refl
  after_initial c (descend reason) = descend_initial c reason
  after_initial c forget_momentum = refl

  Reachable-initial : (o : Options s) (c : Controller s) → Reachable s o c → c.delt0 ≡ o.delta_t0
  unfolding init
  Reachable-initial o _ start = refl
  Reachable-initial o _ (call c a r) = after_initial c a ∙ Reachable-initial o c r

module _ (s : Scalar) (laws : IsOrdered s) where
  open laws use {
    reflexive, transitive, strict, restart_shrinks, progress_shrinks, first_shrinks, second_shrinks,
    recovery_not_negative,
  }

  -- The step is between 0 and the initial one.
  record IsBounded (c : Controller s) : Type 0 where
    pub low : s.le s.zero c.delt ≡ true
    pub high : s.le c.delt c.delt0 ≡ true

  -- The controller with the step multiplied by something that shrinks.
  shrunk :
      (c d : Controller s)
      → d.delt0 ≡ c.delt0
      → IsBounded c
      → (s.le s.zero d.delt ≡ true) × (s.le d.delt c.delt ≡ true)
      → IsBounded d
  shrunk c d e b (l, h) = record {
    low = l;
    high = rw e (transitive d.delt c.delt c.delt0 h b.high);
  }

  initial_not_negative : (c : Controller s) → IsBounded c → s.le s.zero c.delt0 ≡ true
  initial_not_negative c b = transitive s.zero c.delt c.delt0 b.low b.high

  same_step : (c d : Controller s) → d.delt0 ≡ c.delt0 → d.delt ≡ c.delt → IsBounded c → IsBounded d
  same_step c d e f b = record { low = rw f b.low; high = rw (e, f) b.high }

  rejected-IsBounded : (c : Controller s) → IsBounded c → IsBounded (reject_jacobian s c)
  unfolding reject_jacobian
  rejected-IsBounded c b = shrunk c _ refl b (restart_shrinks c.delt b.low)

  min_low :
      (x y : s.T) → s.le s.zero x ≡ true → s.le s.zero y ≡ true → s.le s.zero (std_min s x y) ≡ true
  unfolding std_min
  min_low x y h k = either_way (λ m. s.le s.zero m ≡ true) (s.lt y x) y x k h

  min_high : (x y : s.T) → s.le s.zero x ≡ true → s.le (std_min s x y) x ≡ true
  unfolding std_min
  min_high x y h = elim (Bool-cases (s.lt y x)) [
    | inl e ↦ rw e (strict y x e)
    | inr e ↦ rw e (reflexive x h)
  ]

  recovered-IsBounded : (c : Controller s) → IsBounded c → IsBounded (recover_step s c)
  unfolding recover_step
  recovered-IsBounded c b =
      let up = s.times c.delt (step_recovery_factor s) in
      either_way IsBounded _ _ _
        (record {
          low = min_low c.delt0 up (initial_not_negative c b) (recovery_not_negative c.delt b.low);
          high = min_high c.delt0 up (initial_not_negative c b);
        })
        b

  descend-IsBounded :
      (c : Controller s) (reason : RestartReason)
      → IsBounded c
      → IsBounded (after_descent s c reason)
  unfolding after_descent
  descend-IsBounded c keep_going b =
      recovered-IsBounded (record c { iter2 = c.iter2 + 1 }) (same_step c _ refl refl b)
  descend-IsBounded c bad_jacobian b = shrunk c _ refl b (restart_shrinks c.delt b.low)
  descend-IsBounded c bad_progress b = shrunk c _ refl b (progress_shrinks c.delt b.low)

  -- Bounded in the state that a call returns.
  abbrev ReturnsBounded : {A : Type 0} → Controller s × A → Type 0
  ReturnsBounded r = IsBounded r.0

  maintained-IsBounded : (c : Controller s) → IsBounded c → IsBounded (maintenance_reset s c)
  maintained-IsBounded c b =
      let initial = initial_not_negative c b in
      let factor_shrinks =
        either_way
          (λ f.
            (s.le s.zero (s.times f c.delt0) ≡ true) × (s.le (s.times f c.delt0) c.delt0 ≡ true))
          (ltb (c.ijacob + 1) second_maintenance_bad_jacobian_count)
          (first_maintenance_step_factor s) (second_maintenance_step_factor s)
          (first_shrinks c.delt0 initial) (second_shrinks c.delt0 initial) in
      record { low = factor_shrinks.0; high = factor_shrinks.1 }

  schedule-IsBounded : (c : Controller s) → IsBounded c → IsBounded (next_schedule s c).0
  unfolding next_schedule
  schedule-IsBounded c b = either_way ReturnsBounded _ _ _ (maintained-IsBounded c b) b

  after-IsBounded : (c : Controller s) (a : Action s) → IsBounded c → IsBounded (after s c a)
  unfolding perform reset_correction_momentum vacuum_soft_restart jacobian_invalid
      classify_invariant decide_restart
  after-IsBounded c schedule b = schedule-IsBounded c b
  after-IsBounded c (inspect_jacobian j n) b =
      either_way ReturnsBounded _ _ _ (rejected-IsBounded c b) b
  after-IsBounded c reject b = rejected-IsBounded c b
  after-IsBounded c (classify i) b =
      let seen = same_step c (record c { fsqz_prev = i.z }) refl refl b in
      either_way ReturnsBounded _ _ _ (shrunk c _ refl b (restart_shrinks c.delt b.low)) seen
  after-IsBounded c (decide p i) b = same_step c _ refl refl b
  after-IsBounded c activate_vacuum b = same_step c _ refl refl b
  after-IsBounded c (descend reason) b = descend-IsBounded c reason b
  after-IsBounded c forget_momentum b = same_step c _ refl refl b

  init-IsBounded : (o : Options s) → s.le s.zero o.delta_t0 ≡ true → IsBounded (init s o)
  unfolding init
  init-IsBounded o h = record { low = h; high = reflexive o.delta_t0 h }

  Reachable-bound :
      (o : Options s) (c : Controller s)
      → s.le s.zero o.delta_t0 ≡ true
      → Reachable s o c
      → IsBounded c
  Reachable-bound o _ h start = init-IsBounded o h
  Reachable-bound o _ h (call c a r) = after-IsBounded c a (Reachable-bound o c h r)

  -- Over arithmetic with the laws of `IsOrdered`, if the initial step of the options is not negative,
  -- then after every sequence of calls the step is not negative and at most that initial step.
  pub Reachable-step :
      (o : Options s) (c : Controller s)
      → s.le s.zero o.delta_t0 ≡ true
      → Reachable s o c
      → (s.le s.zero c.delt ≡ true) × (s.le c.delt o.delta_t0 ≡ true)
  Reachable-step o c h r =
      let b = Reachable-bound o c h r in
      (b.low, subst (λ d. s.le c.delt d ≡ true) (Reachable-initial s o c r) b.high)
