-- ===== src/Config/Keeping.antt =====
-- The harmonics that `validate` of src/cumes/config/validated_problem.cpp keeps.
use cu_mes.Base.{
  ◌≡◌, ◌≤◌, ◌↔◌, ◌⊎◌, inl, inr, refl, ap, ltb_ℤ, ◌==◌, Bool, true, false, ◌&&◌, List, [], ◌∷◌, All,
  ℤ, pos, negsuc, pos_part, ◌≤ℤ◌, Bool-cases, arith,
}
use Prim.Native.String.{String}
use cu_mes.Solver.Scalar.{Scalar}
use cu_mes.Config.Spec.{BoundaryHarmonic, ProblemSpec}
use cu_mes.Config.Profiles.{PowerMath}
use cu_mes.Config.Report.{Report, has_errors}
use cu_mes.Config.Checks.{is_empty}
use cu_mes.Config.Folding.{
  outside, outside_asymmetric, keep_symmetric, keep_asymmetric, neg_ℤ, abs_ℤ, abs_int,
}
use cu_mes.Config.Acceptable.{
  IsLeast, InRangeOrLeast, InRange, Represented, FiniteInRange, HasBoundary,
}
use cu_mes.Config.CheckLaws.{Passes, Passes-append, Passes-error, Passes-iff}
use cu_mes.Config.Validate.{keep_boundary}

module _ (s : Scalar) (mpol ntor : ℤ) where
  abs_cases :
      (n ntor : ℤ)
      → pos 0 ≤ℤ ntor
      → ltb_ℤ ntor (abs_int n) ≡ false
      → (abs_ℤ n ≤ pos_part ntor) ⊎ (n ≡ negsuc 2147483647)
  abs_cases (pos n) (pos k) h p = inl (ground (arith, p))
  abs_cases (negsuc n) (pos k) h p = elim (Bool-cases (n == 2147483647)) [
    | inl least ↦ inr (ap negsuc (ground (arith, least)))
    | inr other ↦ inl (ground (arith, other, p))
  ]
  abs_cases n (negsuc k) h p = absurd (omega arith)

  abs_small :
      (n ntor : ℤ) → pos 0 ≤ℤ ntor → abs_ℤ n ≤ pos_part ntor → ltb_ℤ ntor (abs_int n) ≡ false
  abs_small (pos n) (pos k) h p = ground (arith, p)
  abs_small (negsuc n) (pos k) h p = ground (arith, p)
  abs_small n (negsuc k) h p = absurd (omega arith)

  abs_least : (n ntor : ℤ) → pos 0 ≤ℤ ntor → n ≡ negsuc 2147483647 → ltb_ℤ ntor (abs_int n) ≡ false
  abs_least n (pos k) h p = rw p (ground arith)
  abs_least n (negsuc k) h p = absurd (omega arith)

  -- The test of the loop is the negation of the range.
  outside_iff :
      (e : BoundaryHarmonic s)
      → pos 0 ≤ℤ ntor
      → (outside s mpol ntor e ≡ false) ↔ InRangeOrLeast s mpol ntor e
  outside_iff e h = (
    λ p. elim (abs_cases e.n ntor h (ground (arith, p))) [
      | inl small ↦ inl (ground (arith, p), ground (arith, p), small)
      | inr least ↦ inr (ground (arith, p), ground (arith, p), least)
    ],
    λ k. elim k [
      | inl within ↦ ground (arith, within, abs_small e.n ntor h within.2)
      | inr least ↦ ground (arith, least, abs_least e.n ntor h least.2)
    ],
  )

  abs_below :
      (n ntor : ℤ) → pos 0 ≤ℤ ntor → (neg_ℤ ntor ≤ℤ n) × (n ≤ℤ ntor) ↔ (abs_ℤ n ≤ pos_part ntor)
  abs_below (pos n) (pos k) h = (λ p. ground arith, λ p. ground arith)
  abs_below (negsuc n) (pos k) h = (λ p. ground arith, λ p. ground arith)
  abs_below n (negsuc k) h = absurd (omega arith)

  outside_asymmetric_iff :
      (e : BoundaryHarmonic s)
      → pos 0 ≤ℤ ntor
      → (outside_asymmetric s mpol ntor e ≡ false) ↔ InRange s mpol ntor e
  outside_asymmetric_iff e h =
      (λ p. ground (arith, abs_below e.n ntor h), λ p. ground (arith, abs_below e.n ntor h))

  module _ (low : pos 0 ≤ℤ ntor) (key : String) where
    -- Leaving a harmonic out is no error.
    keep_symmetric-no_errors :
        (es : List (BoundaryHarmonic s)) → has_errors (keep_symmetric s mpol ntor key es).1 ≡ false
    unfolding keep_symmetric has_errors
    keep_symmetric-no_errors [] = refl
    keep_symmetric-no_errors (e ∷ es) = ground (arith, keep_symmetric-no_errors es)

    not_least :
        (e : BoundaryHarmonic s)
        → InRangeOrLeast s mpol ntor e
        → ¬ (IsLeast s e)
        → InRange s mpol ntor e
    not_least e (inl within) k = within
    not_least e (inr least) k = absurd (k least.2)

    pub keep_symmetric-InRange :
        (es : List (BoundaryHarmonic s))
        → All (λ e. ¬ (IsLeast s e)) es
        → All (InRange s mpol ntor) (keep_symmetric s mpol ntor key es).0
    unfolding keep_symmetric
    keep_symmetric-InRange [] ok = tt
    keep_symmetric-InRange (e ∷ es) ok = elim (Bool-cases (outside s mpol ntor e)) [
      | inl out ↦ rw out (keep_symmetric-InRange es ok.1)
      | inr within ↦
          rw within
            (not_least e ((outside_iff e low).0 within) ok.0, keep_symmetric-InRange es ok.1)
    ]

    keep_symmetric-Represented :
        (es : List (BoundaryHarmonic s))
        → (is_empty (keep_symmetric s mpol ntor key es).0 ≡ false)
          ↔ Represented s (InRangeOrLeast s mpol ntor) es
    unfolding keep_symmetric
    keep_symmetric-Represented [] = (λ h. cc, λ h. absurd h)
    keep_symmetric-Represented (e ∷ es) = elim (Bool-cases (outside s mpol ntor e)) [
      | inl out ↦ rw out (
        λ h. inr ((keep_symmetric-Represented es).0 h),
        λ h. elim h [
          | inl here ↦ absurd (ground (arith, (outside_iff e low).1 here))
          | inr there ↦ (keep_symmetric-Represented es).1 there
        ],
      )
      | inr within ↦ rw within (λ h. inl ((outside_iff e low).0 within), λ h. refl)
    ]

    pub keep_asymmetric-InRange :
        (es : List (BoundaryHarmonic s))
        → All (InRange s mpol ntor) (keep_asymmetric s mpol ntor key es).0
    unfolding keep_asymmetric
    keep_asymmetric-InRange [] = tt
    keep_asymmetric-InRange (e ∷ es) = elim (Bool-cases (outside_asymmetric s mpol ntor e)) [
      | inl out ↦ rw out (keep_asymmetric-InRange es)
      | inr within ↦ rw within (elim (Bool-cases (s.is_finite e.value)) [
        | inl fine ↦ rw fine ((outside_asymmetric_iff e low).0 within, keep_asymmetric-InRange es)
        | inr bad ↦ rw bad (keep_asymmetric-InRange es)
      ])
    ]

    -- A coefficient in the range that is not finite is an error.
    keep_asymmetric-Passes :
        (es : List (BoundaryHarmonic s))
        → Passes s (keep_asymmetric s mpol ntor key es).1 (FiniteInRange s mpol ntor es)
    unfolding keep_asymmetric has_errors
    keep_asymmetric-Passes [] = (λ h. tt, λ h. refl)
    keep_asymmetric-Passes (e ∷ es) = elim (Bool-cases (outside_asymmetric s mpol ntor e)) [
      | inl out ↦ rw out (
        λ h. (
          inr (λ r. ground (arith, (outside_asymmetric_iff e low).1 r)),
          (keep_asymmetric-Passes es).0 h,
        ),
        λ h. (keep_asymmetric-Passes es).1 h.1,
      )
      | inr within ↦ rw within (elim (Bool-cases (s.is_finite e.value)) [
        | inl fine ↦ rw fine (
          λ h. (inl refl, (keep_asymmetric-Passes es).0 h),
          λ h. (keep_asymmetric-Passes es).1 h.1,
        )
        | inr bad ↦ rw bad (
          λ h. cc,
          λ h. elim h.0 [
            | inl e ↦ cc
            | inr out ↦ absurd (out ((outside_asymmetric_iff e low).0 within))
          ],
        )
      ])
    ]

    keep_asymmetric-Represented :
        (es : List (BoundaryHarmonic s))
        → FiniteInRange s mpol ntor es
        → (is_empty (keep_asymmetric s mpol ntor key es).0 ≡ false)
          ↔ Represented s (InRange s mpol ntor) es
    unfolding keep_asymmetric
    keep_asymmetric-Represented [] f = (λ h. cc, λ h. absurd h)
    keep_asymmetric-Represented (e ∷ es) f = elim (Bool-cases (outside_asymmetric s mpol ntor e)) [
      | inl out ↦ rw out (
        λ h. inr ((keep_asymmetric-Represented es f.1).0 h),
        λ h. elim h [
          | inl here ↦ absurd (ground (arith, (outside_asymmetric_iff e low).1 here))
          | inr there ↦ (keep_asymmetric-Represented es f.1).1 there
        ],
      )
      | inr within ↦
          let here = (outside_asymmetric_iff e low).0 within in
          elim f.0 [
            | inl fine ↦ rw (within, fine) (λ h. inl here, λ h. refl)
            | inr out ↦ absurd (out here)
          ]
    ]

either_given :
    {P Q : Type 0} (a b : Bool) → (a && b) ≡ false → (a ≡ false → P) → (b ≡ false → Q) → P ⊎ Q
either_given false b h p q = inl (p refl)
either_given true false h p q = inr (q refl)
either_given true true h p q = cc

module _ (s : Scalar) where
  clean : (r : Report s.T) → has_errors r ≡ false → Passes s r (Unit {0})
  clean r h = (λ _. tt, λ _. h)

  -- The boundary block reports no error exactly when R and Z are given and the asymmetric
  -- coefficients in the range are finite.
  pub keep_boundary-Passes :
      (math : PowerMath s) (spec : ProblemSpec s)
      → pos 0 ≤ℤ spec.ntor
      → Passes s (keep_boundary s math spec).issues (HasBoundary s spec)
  unfolding keep_boundary
  keep_boundary-Passes math spec low =
      let m = spec.mpol in
      let n = spec.ntor in
      let rbc = keep_symmetric-Represented s m n low "rbc" spec.rbc in
      let zbs = keep_symmetric-Represented s m n low "zbs" spec.zbs in
      let zbc = keep_asymmetric-Represented s m n low "zbc" spec.zbc in
      Passes-iff s _
        (λ (_, (_, (fr, (fz, (r, z))))). record {
          rbs_finite = fr;
          zbc_finite = fz;
          r_given = rbc.0 r;
          z_given = either_given _ _ z zbs.0 (zbc fz).0;
        })
        (λ h. (
          tt,
          (
            tt,
            (
              h.rbs_finite,
              (
                h.zbc_finite,
                (
                  rbc.1 h.r_given,
                  elim h.z_given [
                    | inl a ↦ ground (arith, zbs.1 a)
                    | inr a ↦ ground (arith, (zbc h.zbc_finite).1 a)
                  ],
                ),
              ),
            ),
          ),
        ))
        (Passes-append s {P = Unit {0}} _ _
          (clean _ (keep_symmetric-no_errors s m n low "rbc" spec.rbc))
          (Passes-append s {P = Unit {0}} _ _
            (clean _ (keep_symmetric-no_errors s m n low "zbs" spec.zbs))
            (Passes-append s _ _ (keep_asymmetric-Passes s m n low "rbs" spec.rbs) (
              Passes-append s _ _ (keep_asymmetric-Passes s m n low "zbc" spec.zbc) (
                Passes-append s _ _
                  (Passes-error s (is_empty (keep_symmetric s m n "rbc" spec.rbc).0) _ _)
                  (Passes-error s
                    (is_empty (keep_symmetric s m n "zbs" spec.zbs).0
                      && is_empty (keep_asymmetric s m n "zbc" spec.zbc).0)
                    _ _))))))
