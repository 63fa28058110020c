-- ===== src/Solver/Anchors.antt =====
-- The anchor, the iteration and the recorded events of the controller of
-- include/cumes/solver/iteration_controller.hpp, over every sequence of calls.
use cu_mes.Base.{
  true, ==-refl, ℕ, ◌+◌, ◌≤◌, ◌≡◌, refl, sym, ◌∙◌, Bool, inl, inr, List, [], ◌∷◌, ◌++◌, length,
  length-append, if◌then◌else◌, arith,
}
use cu_mes.Solver.Scalar.{Scalar}
use cu_mes.Solver.Controller.{
  Options, Controller, reset_constraint_reference, refresh_preconditioner, init,
}
use cu_mes.Solver.Actions.{
  Action, perform, after, IsAnchored, IsKept, Effect, Reachable, start, call,
}
use cu_mes.Solver.Transitions.{perform-Effect}

-- The numbers do not fall, and the first is at least `low`.
abbrev pub Ascending : ℕ → List ℕ → Type 0
Ascending low [] = Unit
Ascending low (x ∷ xs) = (low ≤ x) × Ascending x xs

abbrev pub last_or : ℕ → List ℕ → ℕ
last_or d [] = d
last_or d (x ∷ xs) = last_or x xs

last_or-append : (d : ℕ) (xs : List ℕ) (n : ℕ) → last_or d (xs ++ n ∷ []) ≡ n
last_or-append d [] n = refl
last_or-append d (x ∷ xs) n = last_or-append x xs n

append-Ascending :
    (low : ℕ) (xs : List ℕ) (n : ℕ)
    → Ascending low xs
    → last_or low xs ≤ n
    → Ascending low (xs ++ n ∷ [])
append-Ascending low [] n h k = (k, tt)
append-Ascending low (x ∷ xs) n (p, h) k = (p, append-Ascending x xs n h k)

module _ (s : Scalar) where
  -- The anchor is the last recorded iteration, or the first one of all; none was recorded later
  -- than the present iteration, and they are in order.
  pub record IsWellAnchored (c : Controller s) : Type 0 where
    pub positive : 1 ≤ c.iter1
    pub behind : c.iter1 ≤ c.iter2
    pub ascending : Ascending 1 c.restart_events
    pub anchor : last_or 1 c.restart_events ≡ c.iter1
    pub output : last_or 0 c.restart_events ≡ c.log_anchor

  anchored-IsWellAnchored :
      (c c' : Controller s) → IsWellAnchored c → IsAnchored s c c' → IsWellAnchored c'
  anchored-IsWellAnchored c c' w h = record {
    positive = omega (arith, w.positive, w.behind, h.iter1);
    behind = omega (arith, h.iter1, h.iter2);
    ascending = rw h.events (
        append-Ascending 1 c.restart_events c.iter2 w.ascending
          (omega (arith, w.anchor, w.behind)));
    anchor = rw h.events (last_or-append 1 c.restart_events c.iter2 ∙ sym h.iter1);
    output = rw h.events (last_or-append 0 c.restart_events c.iter2 ∙ sym h.log_anchor);
  }

  kept-IsWellAnchored : (c c' : Controller s) → IsWellAnchored c → IsKept s c c' → IsWellAnchored c'
  kept-IsWellAnchored c c' w h = record {
    positive = omega (arith, w.positive, h.iter1);
    behind = omega (arith, w.behind, h.iter1, h.iter2);
    ascending = rw h.events w.ascending;
    anchor = rw h.events (w.anchor ∙ sym h.iter1);
    output = rw h.events (w.output ∙ sym h.log_anchor);
  }

  Effect-IsWellAnchored :
      (c : Controller s) (r : Controller s × Bool)
      → IsWellAnchored c
      → Effect s c r
      → IsWellAnchored r.0
  Effect-IsWellAnchored c r w (inl (e, h)) = anchored-IsWellAnchored c r.0 w h
  Effect-IsWellAnchored c r w (inr (e, h)) = kept-IsWellAnchored c r.0 w h

  pub init-IsWellAnchored : (o : Options s) → IsWellAnchored (init s o)
  unfolding init
  init-IsWellAnchored o = record {
    positive = omega arith;
    behind = omega arith;
    ascending = tt;
    anchor = refl;
    output = refl;
  }

  pub after-IsWellAnchored :
      (c : Controller s) (a : Action s) → IsWellAnchored c → IsWellAnchored (after s c a)
  after-IsWellAnchored c a w = Effect-IsWellAnchored c _ w (perform-Effect s c a)

  -- After every sequence of calls the anchor is at least 1 and not past the iteration, the
  -- recorded restart iterations start at 1 or later and never fall, the last of them is the restart
  -- anchor (1 if there is none) and the output anchor (0 if there is none).
  pub Reachable-IsWellAnchored :
      (o : Options s) (c : Controller s) → Reachable s o c → IsWellAnchored c
  Reachable-IsWellAnchored o _ start = init-IsWellAnchored o
  Reachable-IsWellAnchored o _ (call c a h) =
      after-IsWellAnchored c a (Reachable-IsWellAnchored o c h)

  one_if : Bool → ℕ
  one_if b = if b then 1 else 0

  -- A call adds exactly one event if it reports a restart, and none otherwise.
  pub events_counted :
      (c : Controller s) (a : Action s)
      → length (perform s c a).0.restart_events
        ≡ length c.restart_events + (if (perform s c a).1 then 1 else 0)
  events_counted c a = elim (perform-Effect s c a) [
    | inl (e, h) ↦ rw (e, h.events) (length-append c.restart_events (c.iter2 ∷ []))
    | inr (e, h) ↦ rw (e, h.events) (omega arith)
  ]

  anchor_flags :
      (c : Controller s)
      → c.iter1 ≡ c.iter2
      → (reset_constraint_reference s c ≡ true) × (refresh_preconditioner s c ≡ true)
  unfolding reset_constraint_reference refresh_preconditioner
  anchor_flags c h = (rw h (==-refl c.iter2), ground (arith, h))

  -- In the state after a call that reports a restart, the controller asks for the constraint
  -- reference to be reset and for the preconditioner to be refreshed.
  pub restart_flags :
      (c : Controller s) (a : Action s)
      → (perform s c a).1 ≡ true
      → (reset_constraint_reference s (perform s c a).0 ≡ true)
        × (refresh_preconditioner s (perform s c a).0 ≡ true)
  restart_flags c a h = elim (perform-Effect s c a) [
    | inl (e, moved) ↦ anchor_flags (perform s c a).0 (moved.iter1 ∙ sym moved.iter2)
    | inr (e, kept) ↦ absurd (ground (arith, h, e))
  ]
