-- ===== src/Solver/History.antt =====
-- The damping history of the controller of include/cumes/solver/iteration_controller.hpp: the loops
-- that shift it and set its last sample, as a sliding window.
use cu_mes.Base.{
  ℕ, ◌<◌, ◌≡◌, refl, ap, ◌∙◌, false, List, [], ◌∷◌, ◌++◌, length, drop, if◌then◌else◌, either_way,
  ◌==◌, lt→ltb, arith,
}
use cu_mes.Solver.Scalar.{Scalar}
use cu_mes.Solver.Controller.{
  RestartReason, keep_going, bad_jacobian, bad_progress, Options, Controller, init, initial_history,
  next_schedule, jacobian_invalid, reject_jacobian, classify_invariant, vacuum_soft_restart,
  recover_step, after_descent, reset_correction_momentum,
}
use cu_mes.Solver.Decision.{shift, set_last, inverse_tau, next_history, decide_restart}
use cu_mes.Solver.Actions.{
  Action, schedule, inspect_jacobian, reject, classify, decide, activate_vacuum, descend,
  forget_momentum, perform, after, Reachable, start, call,
}

module _ (s : Scalar) where
  length-shift : (xs : List s.T) → length (shift s xs) ≡ length xs
  unfolding shift
  length-shift [] = refl
  length-shift (x ∷ []) = refl
  length-shift (x ∷ y ∷ xs) = omega (arith, length-shift (y ∷ xs))

  length-set_last : (xs : List s.T) (v : s.T) → length (set_last s xs v) ≡ length xs
  unfolding set_last
  length-set_last [] v = refl
  length-set_last (x ∷ []) v = refl
  length-set_last (x ∷ y ∷ xs) v = omega (arith, length-set_last (y ∷ xs) v)

  set_last-shift :
      (x : s.T) (xs : List s.T) (v : s.T) → set_last s (shift s (x ∷ xs)) v ≡ xs ++ v ∷ []
  unfolding shift set_last
  set_last-shift x [] v = refl
  set_last-shift x (y ∷ []) v = refl
  set_last-shift x (y ∷ z ∷ xs) v = ap (λ l. y ∷ l) (set_last-shift y (z ∷ xs) v)

  later_is_not_equal : (a b : ℕ) → a < b → (b == a) ≡ false
  later_is_not_equal a b h = ground arith

  -- Past the anchor pass the history loses its oldest sample and takes the new one at its end.
  pub next_history-window :
      (c : Controller s) (fsq x : s.T) (xs : List s.T)
      → c.iter1 < c.iter2
      → c.inv_tau_hist ≡ x ∷ xs
      → next_history s c fsq ≡ xs ++ inverse_tau s c fsq ∷ []
  unfolding next_history
  next_history-window c fsq x xs h e =
      rw (later_is_not_equal c.iter1 c.iter2 h, lt→ltb c.iter1 c.iter2 h, e)
        (set_last-shift x xs (inverse_tau s c fsq))

  -- Ten samples.
  abbrev IsTen : List s.T → Type 0
  IsTen xs = length xs ≡ 10

  history-IsTen :
      (c : Controller s) (fsq : s.T) → IsTen c.inv_tau_hist → IsTen (next_history s c fsq)
  unfolding next_history
  history-IsTen c fsq h =
      let shifted_is_ten =
        length-shift (if c.iter2 == c.iter1 then initial_history s c.delt else c.inv_tau_hist)
        ∙ either_way IsTen (c.iter2 == c.iter1) (initial_history s c.delt) c.inv_tau_hist refl h in
      either_way IsTen _ _ _ (length-set_last _ _ ∙ shifted_is_ten) shifted_is_ten

  -- Ten samples in the state that a call returns.
  abbrev ReturnsTen : {A : Type 0} → Controller s × A → Type 0
  ReturnsTen r = IsTen r.0.inv_tau_hist

  descend-IsTen :
      (c : Controller s) (reason : RestartReason)
      → IsTen c.inv_tau_hist
      → IsTen (after_descent s c reason).inv_tau_hist
  unfolding after_descent recover_step
  descend-IsTen c keep_going h = either_way (λ (d : Controller s). IsTen d.inv_tau_hist) _ _ _ h h
  descend-IsTen c bad_jacobian h = h
  descend-IsTen c bad_progress h = h

  after-IsTen :
      (c : Controller s) (a : Action s) → IsTen c.inv_tau_hist → IsTen (after s c a).inv_tau_hist
  unfolding perform reset_correction_momentum vacuum_soft_restart reject_jacobian jacobian_invalid
      next_schedule classify_invariant decide_restart
  after-IsTen c schedule h = either_way ReturnsTen _ _ _ h h
  after-IsTen c (inspect_jacobian j n) h = either_way ReturnsTen _ _ _ h h
  after-IsTen c reject h = h
  after-IsTen c (classify i) h = either_way ReturnsTen _ _ _ h h
  after-IsTen c (decide p i) h = history-IsTen c _ h
  after-IsTen c activate_vacuum h = h
  after-IsTen c (descend reason) h = descend-IsTen c reason h
  after-IsTen c forget_momentum h = refl

  -- The history has ten samples after every sequence of calls.
  Reachable-IsTen :
      (o : Options s) (c : Controller s) → Reachable s o c → length c.inv_tau_hist ≡ 10
  unfolding init
  Reachable-IsTen o _ start = refl
  Reachable-IsTen o _ (call c a h) = after-IsTen c a (Reachable-IsTen o c h)

  ten_is_cons :
      (c : Controller s) (fsq : s.T) (xs : List s.T)
      → IsTen xs
      → c.iter1 < c.iter2
      → c.inv_tau_hist ≡ xs
      → next_history s c fsq ≡ drop 1 xs ++ inverse_tau s c fsq ∷ []
  ten_is_cons c fsq [] h l e = absurd (omega (arith, h))
  ten_is_cons c fsq (x ∷ xs) h l e = next_history-window c fsq x xs l e

  -- In a state that a sequence of calls reaches, past the anchor pass, the history drops its oldest
  -- sample and appends that of the pass.
  pub Reachable-window :
      (o : Options s) (c : Controller s) (fsq : s.T)
      → Reachable s o c
      → c.iter1 < c.iter2
      → next_history s c fsq ≡ drop 1 c.inv_tau_hist ++ inverse_tau s c fsq ∷ []
  Reachable-window o c fsq h l = ten_is_cons c fsq c.inv_tau_hist (Reachable-IsTen o c h) l refl
