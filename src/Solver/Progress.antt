-- ===== src/Solver/Progress.antt =====
-- What one pass of the loop asks of the controller of
-- include/cumes/solver/iteration_controller.hpp (decide_restart, then after_descent), and how
-- passes advance the iteration.
use cu_mes.Base.{
  suc, ◌+◌, ◌-◌, ◌/◌, ◌≤◌, ◌<◌, ◌≡◌, refl, sym, ◌∙◌, Bool, true, false, ◌⊎◌, inl, inr, List, [],
  ◌∷◌, length, if◌then◌else◌, either_way, ltb→lt, ◌&&◌, arith,
}
use cu_mes.Solver.Scalar.{Scalar}
use cu_mes.Solver.Controller.{
  RestartReason, keep_going, bad_jacobian, bad_progress, Triple, Controller, after_descent,
  recover_step,
}
use cu_mes.Solver.Decision.{choose, decide_restart}

module _ (s : Scalar) where
  -- The decisions that the age of the anchor and the iteration permit: a checkpoint refresh, a
  -- restart for either reason, or neither.
  pub data Permitted (c : Controller s) : RestartReason → Bool → Type 0 where
    proceed : Permitted c keep_going false
    refresh : 10 < c.iter2 - c.iter1 → Permitted c keep_going true
    growth : c.iter1 < c.iter2 → Permitted c bad_jacobian false
    stall : 12 < c.iter2 - c.iter1 → 50 < c.iter2 → Permitted c bad_progress false

  and_right : (a b : Bool) → (a && b) ≡ true → b ≡ true
  and_right true b h = h
  and_right false b h = cc

  and_left : (a b : Bool) → (a && b) ≡ true → a ≡ true
  and_left true b h = refl
  and_left false b h = h

  Permitted-if :
      (c : Controller s) (b : Bool) (x y : RestartReason × Bool)
      → (b ≡ true → Permitted c x.0 x.1)
      → Permitted c y.0 y.1
      → Permitted c (if b then x else y).0 (if b then x else y).1
  Permitted-if c true x y hx hy = hx refl
  Permitted-if c false x y hx hy = hy

  choose-Permitted :
      (c : Controller s) (fsq res0 : s.T) (i : Triple s)
      → Permitted c (choose s c fsq res0 i).0 (choose s c fsq res0 i).1
  unfolding choose
  choose-Permitted c fsq res0 i =
      Permitted-if c _ _ _ (λ h. refresh (ltb→lt 10 (c.iter2 - c.iter1) (and_right _ _ h)))
        (Permitted-if c _ _ _ (λ h. growth (ltb→lt c.iter1 c.iter2 (and_right _ _ h)))
          (Permitted-if c _ _ _
            (λ h.
              stall (ltb→lt 12 (c.iter2 - c.iter1) (and_left _ _ (and_left _ _ h)))
                (ltb→lt 50 c.iter2 (and_right _ _ (and_left _ _ h))))
            proceed))

  -- Whatever the residuals are, the decision refreshes the checkpoint only if it does not restart
  -- and the anchor is more than 10 iterations old, restarts for residual growth only past the
  -- anchor pass, and for slow progress only if the anchor is more than 12 iterations old and the
  -- iteration is past 50.
  pub decide_restart-Permitted :
      (c : Controller s) (p i : Triple s)
      → Permitted c (decide_restart s c p i).1.reason (decide_restart s c p i).1.do_refresh
  unfolding decide_restart
  decide_restart-Permitted c p i = choose-Permitted c _ _ i

  recovered_iter2 : (c : Controller s) → (recover_step s c).iter2 ≡ c.iter2
  unfolding recover_step
  recovered_iter2 c = either_way (λ (c' : Controller s). c'.iter2 ≡ c.iter2) _ _ _ refl refl

  recovered_events : (c : Controller s) → (recover_step s c).restart_events ≡ c.restart_events
  unfolding recover_step
  recovered_events c =
      either_way (λ (c' : Controller s). c'.restart_events ≡ c.restart_events) _ _ _ refl refl

  -- One pass of the loop, with the residuals that it measured.
  unfoldable pub pass : Controller s → Triple s × Triple s → Controller s
  pass c x = let r = decide_restart s c x.0 x.1 in after_descent s r.0 r.1.reason

  unfoldable pub passes : Controller s → List (Triple s × Triple s) → Controller s
  unfolding pass
  passes c [] = c
  passes c (x ∷ xs) = passes (pass c x) xs

  anchored_choice :
      (c : Controller s) (reason : RestartReason) (b : Bool)
      → c.iter1 ≡ c.iter2
      → Permitted c reason b
      → (reason ≡ keep_going) × (b ≡ false)
  anchored_choice c _ _ h proceed = (refl, refl)
  anchored_choice c _ _ h (refresh old) = absurd (omega arith)
  anchored_choice c _ _ h (growth old) = absurd (omega arith)
  anchored_choice c _ _ h (stall old late) = absurd (omega arith)

  -- On the anchor pass the decision never restarts and never refreshes, whatever the residuals are.
  anchor_pass-keep_going :
      (c : Controller s) (p i : Triple s)
      → c.iter1 ≡ c.iter2
      → ((decide_restart s c p i).1.reason ≡ keep_going)
        × ((decide_restart s c p i).1.do_refresh ≡ false)
  anchor_pass-keep_going c p i h = anchored_choice c _ _ h (decide_restart-Permitted c p i)

  descend_advances : (c : Controller s) → (after_descent s c keep_going).iter2 ≡ suc c.iter2
  unfolding after_descent
  descend_advances c = omega (arith, recovered_iter2 (record c { iter2 = c.iter2 + 1 }))

  -- The iteration advances by one, or the anchor moves to it.
  descend_moves :
      (c : Controller s) (reason : RestartReason)
      → ((after_descent s c reason).iter2 ≡ suc c.iter2)
        ⊎ (((after_descent s c reason).iter2 ≡ c.iter2)
            × ((after_descent s c reason).iter1 ≡ c.iter2))
  unfolding after_descent
  descend_moves c keep_going = inl (descend_advances c)
  descend_moves c bad_jacobian = inr (refl, refl)
  descend_moves c bad_progress = inr (refl, refl)

  descended :
      (c : Controller s) (x : Triple s × Triple s)
      → (after_descent s (decide_restart s c x.0 x.1).0 keep_going).iter2 ≡ suc c.iter2
  unfolding decide_restart
  descended c x = descend_advances (decide_restart s c x.0 x.1).0

  pass_moves :
      (c : Controller s) (x : Triple s × Triple s)
      → ((pass c x).iter2 ≡ suc c.iter2)
        ⊎ (((pass c x).iter2 ≡ c.iter2) × ((pass c x).iter1 ≡ c.iter2))
  unfolding pass decide_restart
  pass_moves c x =
      descend_moves (decide_restart s c x.0 x.1).0 (decide_restart s c x.0 x.1).1.reason

  anchor_pass_advances :
      (c : Controller s) (x : Triple s × Triple s)
      → c.iter1 ≡ c.iter2
      → (pass c x).iter2 ≡ suc c.iter2
  unfolding pass
  anchor_pass_advances c x h = rw ((anchor_pass-keep_going c x.0 x.1 h).0) (descended c x)

  -- Two passes advance the iteration, whatever their residuals are: a pass that restarts is
  -- followed by one that does not.
  two_passes_advance :
      (c : Controller s) (x y : Triple s × Triple s) → suc c.iter2 ≤ (pass (pass c x) y).iter2
  two_passes_advance c x y = elim (pass_moves c x) [
    | inl e ↦ elim (pass_moves (pass c x) y) [
      | inl f ↦ omega (arith, e, f)
      | inr (f, g) ↦ omega (arith, e, f)
    ]
    | inr (e, a) ↦ omega (arith, e, anchor_pass_advances (pass c x) y (a ∙ sym e))
  ]

  -- From any state, `n` passes advance the iteration by at least `n / 2`, whatever the residuals
  -- are.
  pub passes_advance :
      (c : Controller s) (xs : List (Triple s × Triple s))
      → c.iter2 + length xs / 2 ≤ (passes c xs).iter2
  unfolding passes
  passes_advance c [] = omega arith
  passes_advance c (x ∷ []) = elim (pass_moves c x) [
    | inl e ↦ omega (arith, e)
    | inr (e, a) ↦ omega (arith, e)
  ]
  passes_advance c (x ∷ y ∷ xs) =
      omega (arith, two_passes_advance c x y, passes_advance (pass (pass c x) y) xs)
