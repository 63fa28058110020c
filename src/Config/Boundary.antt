-- ===== src/Config/Boundary.antt =====
-- The folded boundary of a problem that `validate` of src/cumes/config/validated_problem.cpp accepts.
use cu_mes.Base.{
  ℕ, ◌+◌, ◌*◌, ◌≡◌, ◌≤◌, ◌<◌, Bool, false, sym, subst, none, List, [], ◌∷◌, All, pos_part, arith,
}
use cu_mes.Core.GridShape.{modes}
use cu_mes.Core.Validation.{accepted_extents}
use cu_mes.Solver.Scalar.{Scalar}
use cu_mes.Config.Spec.{StageRequest, ProblemSpec}
use cu_mes.Config.Precision.{SolverOptions}
use cu_mes.Config.Profiles.{PowerMath}
use cu_mes.Config.Checks.{is_empty}
use cu_mes.Config.Acceptable.{IsLeast, HasScalars, HasSteps, IsSchedule}
use cu_mes.Config.Keeping.{keep_symmetric-InRange, keep_asymmetric-InRange}
use cu_mes.Config.Validate.{
  keep_boundary, shape, normalized, assemble, ValidatedProblem, accepted, validate,
}
use cu_mes.Config.Accepted.{accepted_iff, accepted-assembled}
use cu_mes.Config.Shapes.{stage_shape-IsSmall, IsSmall-IsInt32Shape, IsSmall-valid}
use cu_mes.Config.Coefficients.{IsFolded, AllInRange, fold_boundary-IsFolded}

mode_below : (m k n p : ℕ) → m < p → n < k → m * k + n < p * k
mode_below m k n p a b = grind arith

module _ (s : Scalar) where
  -- No harmonic of the symmetric families has the least `int` as its n.
  pub record HasNoLeast (spec : ProblemSpec s) : Type 0 where
    pub rbc : All (λ e. ¬ (IsLeast s e)) spec.rbc
    pub zbs : All (λ e. ¬ (IsLeast s e)) spec.zbs

module _ (s : Scalar) (math : PowerMath s) (disabled : Bool) (options : SolverOptions) where
  -- The mode count of the first shape.
  modes_of_first :
      (spec : ProblemSpec s) (stages : List (StageRequest s))
      → is_empty stages ≡ false
      → HasScalars s spec
      → HasSteps s spec
      → IsSchedule s options none stages
      → modes (shape s math (normalized s math spec (keep_boundary s math spec)) stages)
        ≡ pos_part spec.mpol * (pos_part spec.ntor + 1)
  unfolding shape normalized
  modes_of_first spec [] e a b h = cc
  modes_of_first spec (st ∷ rest) e a b (c, up, more) =
      let small = stage_shape-IsSmall s math disabled options spec st a b c in
      (accepted_extents _ (IsSmall-IsInt32Shape _ small) (IsSmall-valid _ small)).2

  normalized-AllInRange :
      (spec : ProblemSpec s)
      → HasScalars s spec
      → HasNoLeast s spec
      → AllInRange s (normalized s math spec (keep_boundary s math spec))
  unfolding normalized keep_boundary
  normalized-AllInRange spec h k = record {
    rbc = keep_symmetric-InRange s spec.mpol spec.ntor h.ntor_low "rbc" spec.rbc k.rbc;
    zbs = keep_symmetric-InRange s spec.mpol spec.ntor h.ntor_low "zbs" spec.zbs k.zbs;
    rbs = keep_asymmetric-InRange s spec.mpol spec.ntor h.ntor_low "rbs" spec.rbs;
    zbc = keep_asymmetric-InRange s spec.mpol spec.ntor h.ntor_low "zbc" spec.zbc;
  }

  -- In an accepted problem whose `rbc` and `zbs` have no harmonic with the least `int` as its n, each
  -- folded vector has, at the index `m (ntor + 1) + n` of every mode of the range, the sum over the
  -- stored harmonics of that mode and of either sign of n: the plain or the signed values by the
  -- family, 0 for the sine families at m = 0, and no entry for an asymmetric family of a symmetric
  -- problem.
  pub accepted_boundary :
      (spec : ProblemSpec s) (vp : ValidatedProblem s math) (m n : ℕ)
      → HasNoLeast s spec
      → validate s math disabled spec options ≡ accepted vp
      → m < pos_part vp.spec.mpol
      → n ≤ pos_part vp.spec.ntor
      → IsFolded s vp.spec vp.boundary m n (m * (pos_part vp.spec.ntor + 1) + n)
  unfolding assemble normalized
  accepted_boundary spec vp m n no_least e =
      let h = (accepted_iff s math disabled options spec).0 (vp, e) in
      let folded = λ (a : m < pos_part spec.mpol) (b : n ≤ pos_part spec.ntor).
        fold_boundary-IsFolded s (normalized s math spec (keep_boundary s math spec)) _ m n
          h.scalars.mpol_high h.scalars.ntor_low h.scalars.ntor_high
          (normalized-AllInRange spec h.scalars no_least) (omega (arith, b))
          (rw (modes_of_first spec spec.stages h.staged h.scalars h.steps h.schedule)
            (mode_below m (pos_part spec.ntor + 1) n (pos_part spec.mpol) a (omega (arith, b)))) in
      subst
        (λ vp.
          m < pos_part vp.spec.mpol
          → n ≤ pos_part vp.spec.ntor
          → IsFolded s vp.spec vp.boundary m n (m * (pos_part vp.spec.ntor + 1) + n))
        (sym (accepted-assembled s math disabled options spec vp e)) folded
