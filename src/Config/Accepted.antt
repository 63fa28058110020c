-- ===== src/Config/Accepted.antt =====
-- `validate` of src/cumes/config/validated_problem.cpp accepts exactly the acceptable problems, and
-- every grid shape of an accepted problem is one that GridShape::validate accepts.
use cu_mes.Base.{◌≡◌, ◌↔◌, inl, inr, refl, Bool, false, Bool-cases, arith}
use cu_mes.Solver.Scalar.{Scalar}
use cu_mes.Config.Spec.{ProblemSpec}
use cu_mes.Config.Precision.{SolverOptions}
use cu_mes.Config.Profiles.{PowerMath}
use cu_mes.Config.Report.{has_errors}
use cu_mes.Config.Acceptable.{IsAcceptable}
use cu_mes.Config.CheckLaws.{
  Passes, Passes-append, Passes-iff, check_scalars-Passes, check_profile_lengths-Passes,
  check_edges-Passes, check_steps-Passes, check_free_boundary-Passes, check_axes-Passes,
  check_stages-Passes,
}
use cu_mes.Config.Keeping.{keep_boundary-Passes}
use cu_mes.Config.Validate.{
  keep_boundary, report_of, ValidatedProblem, accepted, assemble, normalized, validate,
}

module _ (s : Scalar) (math : PowerMath s) (disabled : Bool) (options : SolverOptions) where
  open s use {T}

  pub report_of-Passes :
      (spec : ProblemSpec s)
      → Passes s
          (report_of s math disabled options spec (keep_boundary s math spec))
          (IsAcceptable s math disabled options spec)
  unfolding report_of
  report_of-Passes spec =
      let issues = (keep_boundary s math spec).issues in
      let boundary = keep_boundary-Passes s math spec in
      Passes-iff s _
        (λ (a, (b, (c, (d, (e, (f, (g, h))))))). record {
          scalars = a;
          profiles = b;
          edges = c;
          steps = d;
          free_boundary = e;
          axes = f;
          staged = g.0;
          schedule = g.1;
          boundary = (boundary a.ntor_low).0 h;
        })
        (λ h. (
          h.scalars,
          (
            h.profiles,
            (
              h.edges,
              (
                h.steps,
                (
                  h.free_boundary,
                  (h.axes, ((h.staged, h.schedule), (boundary h.scalars.ntor_low).1 h.boundary)),
                ),
              ),
            ),
          ),
        ))
        (Passes-append s _ _ (check_scalars-Passes s spec) (
          Passes-append s _ _ (check_profile_lengths-Passes s spec) (
            Passes-append s _ _ (check_edges-Passes s math spec) (
              Passes-append s _ _ (check_steps-Passes s spec) (
                Passes-append s _ _ (check_free_boundary-Passes s disabled spec) (
                  Passes-append s _ _ (check_axes-Passes s spec) (
                    Passes-append s {Q = has_errors issues ≡ false} _ _
                      (check_stages-Passes s options spec) (λ h. h, λ h. h))))))))

  -- `validate` accepts a problem exactly when it is acceptable.
  pub accepted_iff :
      (spec : ProblemSpec s)
      → ((vp : ValidatedProblem s math) × (validate s math disabled spec options ≡ accepted vp))
        ↔ IsAcceptable s math disabled options spec
  unfolding validate
  accepted_iff spec =
      let kept = keep_boundary s math spec in
      let report = report_of s math disabled options spec kept in
      let judged = report_of-Passes spec in
      (
        λ (vp, e). elim (Bool-cases (has_errors report)) [
          | inl bad ↦ absurd (ground (arith, bad, e))
          | inr fine ↦ judged.0 fine
        ],
        λ h. (assemble s math options (normalized s math spec kept) report, rw (judged.1 h) refl),
      )

  -- What an accepted problem is made of.
  pub accepted-assembled :
      (spec : ProblemSpec s) (vp : ValidatedProblem s math)
      → validate s math disabled spec options ≡ accepted vp
      → let kept = keep_boundary s math spec in
        vp
        ≡ assemble s math options
            (normalized s math spec kept)
            (report_of s math disabled options spec kept)
  unfolding validate
  accepted-assembled spec vp e = ground arith
