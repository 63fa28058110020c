-- ===== src/Config/Folding.antt =====
-- The boundary harmonics in src/cumes/config/validated_problem.cpp: which of them `validate` keeps,
-- and how `fold_boundary` adds them up. `std::abs` gives the least `int` back for the least `int`, as
-- two's complement does. A write past the end of a vector is undefined in the source and changes
-- nothing here.
use Prim.Native.String.{String}
use cu_mes.Base.{
  ℕ, zero, suc, ◌+◌, ◌*◌, ◌%◌, ◌==◌, Bool, ◌||◌, not, List, [], ◌∷◌, ◌++◌, replicate, ltb_ℤ, leb_ℤ,
  if◌then◌else◌, ℤ, pos, negsuc, pos_part, neg_part,
}
use cu_mes.Core.CheckedSize.{size_mod, to_size}
use cu_mes.Solver.Scalar.{Scalar}
use cu_mes.Config.Spec.{BoundaryHarmonic, ProblemSpec}
use cu_mes.Config.Report.{
  name, skipping_mode, outside_mode_range, coefficient_not_finite, Report, report_error,
  report_warn,
}

-- The magnitude.
abbrev pub abs_ℤ : ℤ → ℕ
abs_ℤ a = pos_part a + neg_part a

-- `std::abs` of an `int`.
abbrev pub abs_int : ℤ → ℤ
abs_int (pos n) = pos n
abs_int (negsuc n) = if n == 2147483647 then negsuc n else pos (n + 1)

abbrev pub neg_ℤ : ℤ → ℤ
neg_ℤ (pos zero) = pos 0
neg_ℤ (pos (suc n)) = negsuc n
neg_ℤ (negsuc n) = pos (suc n)

module _ (s : Scalar) where
  open s use {T}

  -- The harmonics kept so far, and the issues.
  abbrev pub Kept : Type 0
  Kept = List (BoundaryHarmonic s) × Report T

  abbrev pub outside : ℤ → ℤ → BoundaryHarmonic s → Bool
  outside mpol ntor e = ltb_ℤ e.m (pos 0) || (leb_ℤ mpol e.m || ltb_ℤ ntor (abs_int e.n))

  -- The loops on `rbc` and `zbs`.
  unfoldable pub keep_symmetric : ℤ → ℤ → String → List (BoundaryHarmonic s) → Kept
  keep_symmetric mpol ntor key [] = ([], [])
  keep_symmetric mpol ntor key (e ∷ rest) =
      let (kept, issues) = keep_symmetric mpol ntor key rest in
      if outside mpol ntor e
      then (kept, report_warn (name key) (skipping_mode e.m e.n mpol ntor) ++ issues)
      else (e ∷ kept, issues)

  abbrev pub outside_asymmetric : ℤ → ℤ → BoundaryHarmonic s → Bool
  outside_asymmetric mpol ntor e =
      ltb_ℤ e.m (pos 0) || (leb_ℤ mpol e.m || (ltb_ℤ e.n (neg_ℤ ntor) || ltb_ℤ ntor e.n))

  unfoldable pub keep_asymmetric : ℤ → ℤ → String → List (BoundaryHarmonic s) → Kept
  keep_asymmetric mpol ntor key [] = ([], [])
  keep_asymmetric mpol ntor key (e ∷ rest) =
      let (kept, issues) = keep_asymmetric mpol ntor key rest in
      if outside_asymmetric mpol ntor e
      then (kept, report_warn (name key) (outside_mode_range e.m e.n) ++ issues)
      else if not (s.is_finite e.value)
      then (kept, report_error (name key) coefficient_not_finite ++ issues)
      else (e ∷ kept, issues)

  -- `(n > 0) ? 1.0 : (n < 0) ? -1.0 : 0.0`
  unfoldable pub sign : ℤ → T
  sign n = if ltb_ℤ (pos 0) n then s.one else if ltb_ℤ n (pos 0) then s.negate s.one else s.zero

  -- The index of mode (m, n) for `ntorp1 = ntor + 1`.
  unfoldable pub mode_index : ℕ → ℤ → ℕ → ℕ
  mode_index ntorp1 m n = (to_size m * ntorp1 + n) % size_mod

  -- `v[i] = f(v[i])`
  unfoldable pub modify : (T → T) → ℕ → List T → List T
  modify f i [] = []
  modify f zero (x ∷ xs) = f x ∷ xs
  modify f (suc i) (x ∷ xs) = x ∷ modify f i xs

  abbrev pub modify_if : Bool → (T → T) → ℕ → List T → List T
  modify_if test f i v = if test then modify f i v else v

  -- The loops on `rbc` and `zbc`: the plain sums at every m, the signed sums at m > 0.
  unfoldable pub fold_cosine : ℕ → List (BoundaryHarmonic s) → List T × List T → List T × List T
  fold_cosine ntorp1 [] (plain, signed) = (plain, signed)
  fold_cosine ntorp1 (e ∷ rest) (plain, signed) =
      let i = mode_index ntorp1 e.m (to_size (abs_int e.n)) in
      fold_cosine ntorp1 rest (
        modify (λ x. s.plus x e.value) i plain,
        modify_if (ltb_ℤ (pos 0) e.m) (λ x. s.plus x (s.times (sign e.n) e.value)) i signed,
      )

  -- The loops on `zbs` and `rbs`: the plain sums at m > 0, the negated signed sums at every m.
  unfoldable pub fold_sine : ℕ → List (BoundaryHarmonic s) → List T × List T → List T × List T
  fold_sine ntorp1 [] (plain, signed) = (plain, signed)
  fold_sine ntorp1 (e ∷ rest) (plain, signed) =
      let i = mode_index ntorp1 e.m (to_size (abs_int e.n)) in
      fold_sine ntorp1 rest (
        modify_if (ltb_ℤ (pos 0) e.m) (λ x. s.plus x e.value) i plain,
        modify (λ x. s.minus x (s.times (sign e.n) e.value)) i signed,
      )

  pub record FoldedBoundary : Type 0 where
    pub rbcc : List T
    pub rbss : List T
    pub zbsc : List T
    pub zbcs : List T
    pub rbsc : List T
    pub rbcs : List T
    pub zbcc : List T
    pub zbss : List T

  -- `static_cast<std::size_t>(ntor + 1)` of an `ntor` that is not negative.
  abbrev pub ntorp1_of : ℤ → ℕ
  ntorp1_of ntor = pos_part ntor + 1

  unfoldable pub fold_boundary : ProblemSpec s → ℕ → FoldedBoundary
  fold_boundary spec modes =
      let zeros = replicate modes s.zero in
      let ntorp1 = ntorp1_of spec.ntor in
      let r = fold_cosine ntorp1 spec.rbc (zeros, zeros) in
      let z = fold_sine ntorp1 spec.zbs (zeros, zeros) in
      let empty : List T × List T = ([], []) in
      let ra = if spec.lasym then fold_sine ntorp1 spec.rbs (zeros, zeros) else empty in
      let za = if spec.lasym then fold_cosine ntorp1 spec.zbc (zeros, zeros) else empty in
      record {
        rbcc = r.0;
        rbss = r.1;
        zbsc = z.0;
        zbcs = z.1;
        rbsc = ra.0;
        rbcs = ra.1;
        zbcc = za.0;
        zbss = za.1;
      }
