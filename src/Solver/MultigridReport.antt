-- ===== src/Solver/MultigridReport.antt =====
-- What the report of include/cumes/solver/multigrid_solver.hpp says of a run over the stages.
use cu_mes.Base.{
  ℕ, ◌+◌, ◌≡◌, ◌≤◌, ◌↔◌, ◌∙◌, sym, ap, subst, refl, Bool, true, false, not, ◌&&◌, if_either, Option,
  none, some, List, [], ◌∷◌, ◌++◌, append_assoc, All, length, length-append, ltb, Bool-cases, inl,
  inr, arith,
}
use cu_mes.Solver.Scalar.{Scalar}
use cu_mes.Config.Spec.{StageRequest}
use cu_mes.Solver.Multigrid.{
  Backend, Settings, Outcome, StageReport, stage_report, enter_stage, solve_stage, stage_loop,
  start, run, status, converged_status,
}

module _ (s : Scalar) where
  -- The reports are those of the first stages of the schedule.
  abbrev pub Visited : List (StageRequest s) → List (StageReport s) → Type 0
  Visited stages [] = Unit {0}
  Visited [] (r ∷ rs) = ⊥
  Visited (st ∷ rest) (r ∷ rs) = (r.ns ≡ st.radial_surfaces) × Visited rest rs

  abbrev pub sum_iterations : List (StageReport s) → ℕ
  sum_iterations [] = 0
  sum_iterations (r ∷ rs) = r.effective_iterations + sum_iterations rs

  abbrev pub AllConverged : List (StageReport s) → Type 0
  AllConverged = All (λ r. r.converged ≡ true)

  module _ (b : Backend s) (c : Settings s) where
    -- Where the loop ended: after the whole schedule, or in a stage that did not converge.
    abbrev pub EndsAt : ℕ → Outcome s b → Option ℕ → Type 0
    EndsAt n o none = length o.stages ≡ n
    EndsAt n o (some g) = (length o.stages ≡ g + 1) × (o.result.converged ≡ false)

    -- The reports that the loop adds from stage `g` on.
    record Traced (g : ℕ) (stages : List (StageRequest s)) (o out : Outcome s b) : Type 0 where
      more : List (StageReport s)
      appended : out.stages ≡ o.stages ++ more
      visited : Visited stages more
      total : out.total_iterations ≡ o.total_iterations + sum_iterations more
      ending : (out.result.converged ≡ true) ↔ ((length more ≡ length stages) × AllConverged more)
      ends : EndsAt c.n_grids out out.failed_stage

    not_first : (x y : Bool) → not x && y ≡ true → x ≡ false
    not_first x y e = ground (arith, e)

    status_iff : (o : Outcome s b) → (status s b o ≡ converged_status) ↔ (o.result.converged ≡ true)
    unfolding status
    status_iff o = (λ e. ground arith, λ e. ground arith)

    -- What one turn of the loop adds.
    record Solved (st : StageRequest s) (o next : Outcome s b) : Type 0 where
      appended : next.stages ≡ o.stages ++ stage_report s b st next.result ∷ []
      total : next.total_iterations ≡ o.total_iterations + next.result.iterations
      same_failure : next.failed_stage ≡ o.failed_stage

    solve_stage-Solved :
        (g ns_old : ℕ) (st : StageRequest s) (o : Outcome s b)
        → Solved st o (solve_stage s b c g st (enter_stage s b c g ns_old st.radial_surfaces o))
    unfolding solve_stage enter_stage
    solve_stage-Solved g ns_old st o = elim (Bool-cases (ltb 0 g)) [
      | inl later ↦ rw later (record { appended = refl; total = refl; same_failure = refl })
      | inr first ↦ rw first (record { appended = refl; total = refl; same_failure = refl })
    ]

    -- The turn is the last one of the loop.
    stopped :
        (g : ℕ) (st : StageRequest s) (rest : List (StageRequest s)) (o next : Outcome s b)
        (failed : Option ℕ)
        → Solved st o next
        → (next.result.converged ≡ true → 1 ≡ length (st ∷ rest))
        → EndsAt c.n_grids (record next { failed_stage = failed }) failed
        → Traced g (st ∷ rest) o (record next { failed_stage = failed })
    unfolding stage_report
    stopped g st rest o next failed h e f = record {
      more = stage_report s b st next.result ∷ [];
      appended = h.appended;
      visited = (refl, tt);
      total = omega (arith, h.total);
      ending = (λ k. (e k, (k, tt)), λ k. k.1.0);
      ends = f;
    }

    -- The loop goes on after a stage that converged.
    continued :
        (g : ℕ) (st : StageRequest s) (rest : List (StageRequest s)) (o next out : Outcome s b)
        → Solved st o next
        → next.result.converged ≡ true
        → Traced (g + 1) rest next out
        → Traced g (st ∷ rest) o out
    unfolding stage_report
    continued g st rest o next out h e later = record {
      more = stage_report s b st next.result ∷ later.more;
      appended =
          later.appended
          ∙ ap (λ l. l ++ later.more) h.appended
          ∙ append_assoc o.stages (stage_report s b st next.result ∷ []) later.more;
      visited = (refl, later.visited);
      total = omega (arith, h.total, later.total);
      ending = (
        λ k. let r = later.ending.0 k in (omega (arith, r.0), (e, r.1)),
        λ k. later.ending.1 (omega (arith, k.0), k.1.1),
      );
      ends = later.ends;
    }

    -- The number of reports after a turn.
    length-Solved :
        (g : ℕ) (st : StageRequest s) (o next : Outcome s b)
        → Solved st o next
        → length o.stages ≡ g
        → length next.stages ≡ g + 1
    length-Solved g st o next h at =
        ap length h.appended
        ∙ length-append o.stages (stage_report s b st next.result ∷ [])
        ∙ omega (arith, at)

    traced :
        (st : StageRequest s) (rest : List (StageRequest s)) (g ns_old : ℕ) (o : Outcome s b)
        → length o.stages ≡ g
        → g + (length rest + 1) ≡ c.n_grids
        → o.failed_stage ≡ none
        → Traced g (st ∷ rest) o (stage_loop s b c g ns_old (st ∷ rest) o)
    unfolding stage_loop
    traced st [] g ns_old o at n fresh =
        let next : Outcome s b =
          solve_stage s b c g st (enter_stage s b c g ns_old st.radial_surfaces o) in
        let solved = solve_stage-Solved g ns_old st o in
        let count = length-Solved g st o next solved at in
        let here : EndsAt c.n_grids next next.failed_stage =
          subst (EndsAt c.n_grids next) (sym (solved.same_failure ∙ fresh))
            (omega (arith, count, n)) in
        if_either (λ out. Traced g (st ∷ []) o out) (not next.result.converged && ltb 1 c.n_grids)
          (λ failing.
            stopped g st [] o next (some g) solved (λ e. refl)
              (count, not_first next.result.converged (ltb 1 c.n_grids) failing))
          (λ e. stopped g st [] o next next.failed_stage solved (λ k. refl) here)
    traced st (st' ∷ rest) g ns_old o at n fresh =
        let next : Outcome s b =
          solve_stage s b c g st (enter_stage s b c g ns_old st.radial_surfaces o) in
        let solved = solve_stage-Solved g ns_old st o in
        let count = length-Solved g st o next solved at in
        let later =
          traced st' rest (g + 1) st.radial_surfaces next count (omega (arith, n))
            (solved.same_failure ∙ fresh) in
        if_either (λ out. Traced g (st ∷ st' ∷ rest) o out)
          (not next.result.converged && ltb 1 c.n_grids)
          (λ failing.
            let bad = not_first next.result.converged (ltb 1 c.n_grids) failing in
            stopped g st (st' ∷ rest) o next (some g) solved (λ e. ground (arith, e, bad))
              (count, bad))
          (λ passing.
            continued g st (st' ∷ rest) o next _ solved (ground (arith, n, passing)) later)

    -- The run over a schedule that is not empty: the reports are those of the first stages in their
    -- order, the iterations are added up, the status is converged exactly if every stage of the
    -- schedule was run and converged, and the loop ends after the schedule or in the failed stage.
    pub run_report :
        (default_initial_step : s.T) (stages : List (StageRequest s)) (seed : b.Storage)
        (vacuum : Option b.Vacuum)
        → 1 ≤ length stages
        → length stages ≡ c.n_grids
        → let o = run s b c default_initial_step stages seed vacuum in
          Visited stages o.stages
          × (o.total_iterations ≡ sum_iterations o.stages)
          × ((status s b o ≡ converged_status)
              ↔ ((length o.stages ≡ length stages) × AllConverged o.stages))
          × EndsAt c.n_grids o o.failed_stage
    unfolding run start status
    run_report d [] seed vacuum h n = absurd (omega (arith, h))
    run_report d (st ∷ rest) seed vacuum h n =
        let o0 = start s b d seed vacuum in
        let t = traced st rest 0 0 o0 refl (omega (arith, n)) refl in
        let o : Outcome s b = run s b c d (st ∷ rest) seed vacuum in
        let total : o.total_iterations ≡ 0 + sum_iterations t.more = t.total in
        (
          subst (Visited (st ∷ rest)) (sym t.appended) t.visited,
          omega (arith, total, ap sum_iterations t.appended),
          subst
              (λ l.
                (status s b o ≡ converged_status)
                ↔ ((length l ≡ length (st ∷ rest)) × AllConverged l))
              (sym t.appended)
              (λ e. t.ending.0 ((status_iff o).0 e), λ k. (status_iff o).1 (t.ending.1 k)),
          t.ends,
        )
