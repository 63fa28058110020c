-- ===== src/Solver/VacuumFactors.antt =====
-- The factorizations that the vacuum operator of src/free_boundary_impl.cuh keeps over the passes.
use cu_mes.Base.{
  ℕ, ◌≡◌, subst, ◌∙◌, Bool, true, if_either, ◌&&◌, ◌||◌, Option, none, some, List, [], ◌∷◌, arith,
}
use cu_mes.Solver.Scalar.{Scalar}
use cu_mes.Solver.Vacuum.{
  VacuumError, Vacuum, Averages, VacuumHost, advance, run_host_update, finish_host_update,
  on_iteration_end,
}
use cu_mes.Solver.VacuumPasses.{
  Pass, Seen, evaluate, seen, after_pass, if_running, vacuum_passes, IsFactored,
}

module _ (s : Scalar) (h : VacuumHost s) where
  -- The update that `u` records after `v`.
  abbrev Factored : Vacuum s → Vacuum s → Type 0
  Factored v u =
      (u.run_block ≡ true → (u.full_update || v.has_factors) ≡ true)
      × (u.has_factors ≡ (v.has_factors || (u.run_block && u.full_update)))

  advance-factors :
      (iter2 iter1 : ℕ) (fsqr fsqz : s.T) (v : Vacuum s)
      → let a = advance s h iter2 iter1 fsqr fsqz v in
        (a.has_factors ≡ v.has_factors)
        × (a.run_block ≡ true → (a.full_update || v.has_factors) ≡ true)
  unfolding advance
  advance-factors iter2 iter1 fsqr fsqz v = (ground arith, λ e. ground arith)

  run_host_update-factors :
      (a : Averages s) (field : Bool → s.T → s.T × s.T) (v : Vacuum s)
      → let u = (run_host_update s h a field v).1 in
        (u.has_factors ≡ (v.full_update || v.has_factors))
        × (u.run_block ≡ v.run_block)
        × (u.full_update ≡ v.full_update)
  unfolding run_host_update finish_host_update
  run_host_update-factors a field v = (ground arith, ground arith, ground arith)

  updated_factors :
      (v a u : Vacuum s)
      → a.has_factors ≡ v.has_factors
      → (a.run_block ≡ true → (a.full_update || v.has_factors) ≡ true)
      → a.run_block ≡ true
      → (u.has_factors ≡ (a.full_update || a.has_factors))
        × (u.run_block ≡ a.run_block)
        × (u.full_update ≡ a.full_update)
      → Factored v u
  updated_factors v a u e f runs g =
      (λ k. ground (arith, e, f runs, g.2), ground (arith, e, runs, g.0, g.1, g.2))

  evaluate-factors : (x : Pass s) (v : Vacuum s) → Factored v (evaluate s h x v).1
  unfolding evaluate
  evaluate-factors x v =
      let a : Vacuum s = advance s h x.iter2 x.iter1 x.previous_fsqr x.previous_fsqz v in
      let (same, full) = advance-factors x.iter2 x.iter1 x.previous_fsqr x.previous_fsqz v in
      if_either (λ (r : Option VacuumError × Vacuum s). Factored v r.1) a.run_block
        (λ runs.
          updated_factors v a (run_host_update s h x.averages x.field a).1 same full runs
            (run_host_update-factors x.averages x.field a))
        (λ idle. (full, ground (arith, same, idle)))

  same_factors : (u : Vacuum s) → (on_iteration_end s u).has_factors ≡ u.has_factors
  unfolding on_iteration_end
  same_factors u = ground arith

  pass_factors :
      (x : Pass s) (v : Vacuum s)
      → (after_pass s h x v).has_factors
        ≡ (v.has_factors || ((seen s h x v).updated && (seen s h x v).full))
  unfolding seen after_pass
  pass_factors x v =
      if_either
        (λ (u : Vacuum s).
          u.has_factors
          ≡ (v.has_factors || ((evaluate s h x v).1.run_block && (evaluate s h x v).1.full_update)))
        x.finished (λ e. same_factors (evaluate s h x v).1 ∙ (evaluate-factors x v).1)
        (λ e. (evaluate-factors x v).1)

  if_running-IsFactored :
      (e : Option VacuumError) (b : Bool) (l : List (Seen s))
      → IsFactored s b l
      → IsFactored s b (if_running s h e l)
  if_running-IsFactored none b l k = k
  if_running-IsFactored (some e) b l k = tt

  -- Over a stage every partial update of the vacuum solver comes after a full one, in this stage or
  -- before it.
  pub vacuum_passes-IsFactored :
      (xs : List (Pass s)) (v : Vacuum s) → IsFactored s v.has_factors (vacuum_passes s h xs v)
  unfolding vacuum_passes seen
  vacuum_passes-IsFactored [] v = tt
  vacuum_passes-IsFactored (x ∷ rest) v =
      let next = after_pass s h x v in
      (
        (evaluate-factors x v).0,
        if_running-IsFactored (seen s h x v).failure _ _ (
            subst (λ b. IsFactored s b (vacuum_passes s h rest next)) (pass_factors x v)
              (vacuum_passes-IsFactored rest next)),
      )
