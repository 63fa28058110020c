-- ===== src/Config/CheckLaws.antt =====
-- The checks of src/cumes/config/validated_problem.cpp report no error exactly when what they ask for
-- holds.
use cu_mes.Base.{
  ℕ, ◌≡◌, ◌↔◌, refl, Bool, true, false, ◌&&◌, not, Option, none, some, List, [], ◌∷◌, ◌++◌, ℤ,
  arith, inl, inr, ◌⊎◌,
}
use cu_mes.Solver.Scalar.{Scalar}
use cu_mes.Config.Spec.{StageRequest, MakegridParametersSpec, ProblemSpec}
use cu_mes.Config.Precision.{SolverOptions, tolerance_achievable}
use cu_mes.Config.Profiles.{PowerMath}
use cu_mes.Config.Report.{
  Key, Message, Issue, Report, when, report_error, has_errors, has_errors-append,
}
use cu_mes.Config.Checks.{
  is_empty, prescribes_current, check_scalars, check_profile_lengths, check_edge, check_edges,
  check_steps, check_makegrid, check_embedded, check_field_source, check_free_boundary,
  check_axis_vector, check_axes, check_stage, check_stage_list, check_stages,
}
use cu_mes.Config.Acceptable.{
  IsDivisor, HasScalars, HasSteps, HasStage, Above, IsSchedule, HasProfiles, HasEdges, HasMakegrid,
  HasEmbedded, HasFieldSource, HasFreeBoundary, HasAxes,
}

module _ (s : Scalar) where
  open s use {T}

  -- A report has no errors exactly when `P` holds.
  abbrev pub Passes : List (Issue T) → Type 0 → Type 0
  Passes r P = (has_errors r ≡ false) ↔ P

  pub check_scalars-Passes :
      (spec : ProblemSpec s) → Passes (check_scalars s spec) (HasScalars s spec)
  unfolding check_scalars has_errors
  check_scalars-Passes spec = (λ h. ground arith, λ h. ground arith)

  pub check_steps-Passes : (spec : ProblemSpec s) → Passes (check_steps s spec) (HasSteps s spec)
  unfolding check_steps has_errors
  check_steps-Passes spec = (λ h. ground arith, λ h. ground arith)

  pub check_profile_lengths-Passes :
      (spec : ProblemSpec s) → Passes (check_profile_lengths s spec) (HasProfiles s spec)
  unfolding check_profile_lengths has_errors
  check_profile_lengths-Passes spec = (λ h. ground arith, λ h. ground arith)

  pub check_edge-Passes :
      (edge : T) (key : Key) (a b c : Message T)
      → Passes (check_edge s edge key a b c) (IsDivisor s edge)
  unfolding check_edge has_errors
  check_edge-Passes edge key a b c = (λ h. ground arith, λ h. ground arith)

  pub check_makegrid-Passes :
      (p : MakegridParametersSpec s) (nfp : ℤ)
      → Passes (check_makegrid s p nfp) (HasMakegrid s nfp p)
  unfolding check_makegrid has_errors
  check_makegrid-Passes p nfp = (λ h. ground arith, λ h. ground arith)

  pub check_field_source-Passes :
      (spec : ProblemSpec s)
      → Passes (check_field_source s spec.free_boundary) (HasFieldSource s spec.free_boundary)
  unfolding check_field_source has_errors
  check_field_source-Passes spec = (λ h. ground arith, λ h. ground arith)

  pub check_axes-Passes : (spec : ProblemSpec s) → Passes (check_axes s spec) (HasAxes s spec)
  unfolding check_axes check_axis_vector has_errors
  check_axes-Passes spec = (λ h. ground arith, λ h. ground arith)

  pub check_stage-Passes :
      (options : SolverOptions) (previous : Option ℕ) (st : StageRequest s)
      → Passes
          (check_stage s options previous st)
          (HasStage s options st × Above s previous st.radial_surfaces)
  unfolding check_stage tolerance_achievable has_errors
  check_stage-Passes options previous st = (λ h. ground arith, λ h. ground arith)

  -- The parts of a report are judged one by one.
  pub Passes-append :
      {P Q : Type 0} (xs ys : Report T) → Passes xs P → Passes ys Q → Passes (xs ++ ys) (P × Q)
  Passes-append xs ys p q = (
    λ h. ground (arith, has_errors-append xs ys),
    λ (a, b). rw (has_errors-append xs ys, p.1 a, q.1 b),
  )

  pub Passes-when :
      {P : Type 0} (test : Bool) (r : Report T)
      → Passes r P
      → Passes (when test r) ((test ≡ false) ⊎ P)
  unfolding has_errors
  Passes-when true r p = (λ h. inr (p.0 h), λ h. elim h [ inl e ↦ cc | inr a ↦ p.1 a ])
  Passes-when false r p = (λ h. inl refl, λ h. refl)

  pub check_embedded-Passes :
      (p : Option (MakegridParametersSpec s)) (nfp : ℤ)
      → Passes (check_embedded s p nfp) (HasEmbedded s nfp p)
  unfolding check_embedded has_errors
  check_embedded-Passes none nfp = (λ h. tt, λ h. refl)
  check_embedded-Passes (some p) nfp = check_makegrid-Passes p nfp

  pub check_stage_list-Passes :
      (options : SolverOptions) (previous : Option ℕ) (stages : List (StageRequest s))
      → Passes (check_stage_list s options previous stages) (IsSchedule s options previous stages)
  unfolding check_stage_list has_errors
  check_stage_list-Passes options previous [] = (λ h. tt, λ h. refl)
  check_stage_list-Passes options previous (st ∷ rest) =
      let both =
        Passes-append (check_stage s options previous st) _ (check_stage-Passes options previous st)
          (check_stage_list-Passes options (some st.radial_surfaces) rest) in
      (λ h. let r = both.0 h in (r.0.0, r.0.1, r.1), λ h. both.1 ((h.0, h.1), h.2))

  -- The same report judged by an equivalent condition.
  pub Passes-iff : {P Q : Type 0} (r : Report T) → (P → Q) → (Q → P) → Passes r P → Passes r Q
  Passes-iff r f g p = (λ h. f (p.0 h), λ h. p.1 (g h))

  pub Passes-error :
      (test : Bool) (key : Key) (m : Message T)
      → Passes (when test (report_error key m)) (test ≡ false)
  unfolding has_errors
  Passes-error test key m = (λ h. ground arith, λ h. ground arith)

  pub check_edges-Passes :
      (math : PowerMath s) (spec : ProblemSpec s)
      → Passes (check_edges s math spec) (HasEdges s math spec)
  unfolding check_edges
  check_edges-Passes math spec =
      Passes-iff _
        (λ h. record {
          flux = h.0;
          current = elim h.1 [ inl e ↦ ground arith | inr d ↦ inr (inr d) ];
        })
        (λ h. (h.flux, ground (arith, h.current)))
        (Passes-append _ _ (check_edge-Passes _ _ _ _ _) (
          Passes-when
            (prescribes_current spec.current_model && not (s.eq spec.physical.curtor s.zero)) _
            (check_edge-Passes _ _ _ _ _)))

  pub check_free_boundary-Passes :
      (disabled : Bool) (spec : ProblemSpec s)
      → Passes (check_free_boundary s disabled spec) (HasFreeBoundary s disabled spec)
  unfolding check_free_boundary
  check_free_boundary-Passes disabled spec =
      let f = spec.free_boundary in
      Passes-iff _
        (λ h. elim h [
          | inl e ↦ inl e
          | inr (a, (b, (c, d))) ↦
              inr (record { enabled = a; source = b; currents = c; embedded = d })
        ])
        (λ h. elim h [
          | inl e ↦ inl e
          | inr x ↦ inr (x.enabled, (x.source, (x.currents, x.embedded)))
        ])
        (Passes-when f.lfreeb _ (
          Passes-append _ _ (Passes-error disabled _ _) (
            Passes-append _ _ (check_field_source-Passes spec) (
              Passes-append _ _ (Passes-error (is_empty f.extcur) _ _)
                (check_embedded-Passes f.embedded_makegrid_parameters spec.nfp)))))

  pub check_stages-Passes :
      (options : SolverOptions) (spec : ProblemSpec s)
      → Passes
          (check_stages s options spec)
          ((is_empty spec.stages ≡ false) × IsSchedule s options none spec.stages)
  unfolding check_stages
  check_stages-Passes options spec =
      Passes-append _ _ (Passes-error (is_empty spec.stages) _ _)
        (check_stage_list-Passes options none spec.stages)
