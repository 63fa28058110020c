-- ===== src/Config/Shapes.antt =====
-- The grid shapes that `validate` of src/cumes/config/validated_problem.cpp resolves, against
-- GridShape::validate of src/cumes/core/grid_shape.cpp.
use cu_mes.Base.{
  ℕ, ◌+◌, ◌*◌, ◌%◌, ◌≡◌, ◌≤◌, ◌<◌, refl, Bool, false, Option, none, some, List, [], ◌∷◌, map,
  length, All, ℤ, pos, negsuc, pos_part, ◌≤ℤ◌, IsI32, arith,
}
use cu_mes.Core.GridShape as Grid
use cu_mes.Core.GridShape.{GridShape}
use cu_mes.Core.GridBounds.{IsInt32Shape, IsResolved}
use cu_mes.Core.Validation.{validate_iff}
use cu_mes.Solver.Scalar.{Scalar}
use cu_mes.Config.Spec.{StageRequest, ProblemSpec}
use cu_mes.Config.Precision.{SolverOptions}
use cu_mes.Config.Profiles.{PowerMath}
use cu_mes.Config.Checks.{is_empty}
use cu_mes.Config.Acceptable.{HasScalars, HasSteps, HasStage, IsSchedule}
use cu_mes.Config.Validate.{
  keep_boundary, resolve_ntheta, resolve_nzeta, stage_shape, normalized, assemble, ValidatedProblem,
  accepted, validate,
}
use cu_mes.Config.Accepted.{accepted_iff, accepted-assembled}

-- The angular resolution: even, at least `2 * mpol + 6`, and within the documented maximum.
length-map {ℓ κ} :
    {A : Type ℓ} {B : Type κ} (f : A → B) (xs : List A) → length (map f xs) ≡ length xs
length-map f [] = refl
length-map f (x ∷ xs) = omega (arith, length-map f xs)

nonempty-length {ℓ} : {A : Type ℓ} (xs : List A) → is_empty xs ≡ false → 1 ≤ length xs
nonempty-length [] h = cc
nonempty-length (x ∷ xs) h = omega arith

module _ (s : Scalar) (math : PowerMath s) where
  resolve_ntheta_bounds :
      (mpol ntheta : ℤ)
      → pos 2 ≤ℤ mpol
      → mpol ≤ℤ pos 16
      → ntheta ≤ℤ pos 256
      → let r = resolve_ntheta s math mpol ntheta in
        (pos (2 * pos_part mpol + 6) ≤ℤ r) × (r ≤ℤ pos 256) × (pos_part r % 2 ≡ 0)
  unfolding resolve_ntheta
  resolve_ntheta_bounds mpol ntheta a b c = ground arith

  resolve_nzeta_bounds :
      (ntor nzeta : ℤ)
      → pos 0 ≤ℤ ntor
      → ntor ≤ℤ pos 15
      → nzeta ≤ℤ pos 256
      → let r = resolve_nzeta s math ntor nzeta in (pos 1 ≤ℤ r) × (r ≤ℤ pos 256)
  unfolding resolve_nzeta
  resolve_nzeta_bounds ntor nzeta a b c = ground arith

points_small : (n t z : ℕ) → n ≤ 512 → t ≤ 256 → z ≤ 256 → n * t * z ≤ 512 * 256 * 256
points_small n t z h k l = grind arith

-- Bounds under which a shape is a resolved shape of 32-bit extents.
pub record IsSmall (g : GridShape) : Type 0 where
  pub ns_low : pos 3 ≤ℤ g.ns
  pub ns_high : g.ns ≤ℤ pos 512
  pub ntheta_low : pos 2 ≤ℤ g.ntheta
  pub ntheta_high : g.ntheta ≤ℤ pos 256
  pub ntheta_even : pos_part g.ntheta % 2 ≡ 0
  pub nzeta_low : pos 1 ≤ℤ g.nzeta
  pub nzeta_high : g.nzeta ≤ℤ pos 256
  pub mpol_low : pos 2 ≤ℤ g.mpol
  pub mpol_high : g.mpol ≤ℤ pos 16
  pub ntor_low : pos 0 ≤ℤ g.ntor
  pub ntor_high : g.ntor ≤ℤ pos 15
  pub nfp : pos 1 ≤ℤ g.nfp

small-IsI32 : (n : ℤ) → pos 0 ≤ℤ n → n ≤ℤ pos 512 → IsI32 n
small-IsI32 (pos n) h k = (omega arith, omega arith)
small-IsI32 (negsuc n) h k = absurd (omega arith)

pub IsSmall-IsInt32Shape : (g : GridShape) → IsSmall g → IsInt32Shape g
IsSmall-IsInt32Shape g h = record {
  ns = small-IsI32 g.ns (omega (arith, h.ns_low)) h.ns_high;
  ntheta = small-IsI32 g.ntheta (omega (arith, h.ntheta_low)) (omega (arith, h.ntheta_high));
  nzeta = small-IsI32 g.nzeta (omega (arith, h.nzeta_low)) (omega (arith, h.nzeta_high));
  mpol = small-IsI32 g.mpol (omega (arith, h.mpol_low)) (omega (arith, h.mpol_high));
  ntor = small-IsI32 g.ntor h.ntor_low (omega (arith, h.ntor_high));
}

pos_part-le : (n : ℤ) (k : ℕ) → n ≤ℤ pos k → pos_part n ≤ k
pos_part-le (pos n) k h = omega arith
pos_part-le (negsuc n) k h = omega arith

IsSmall-IsResolved : (g : GridShape) → IsSmall g → IsResolved g
IsSmall-IsResolved g h = record {
  surfaces = h.ns_low;
  poloidal = h.mpol_low;
  toroidal = h.ntor_low;
  periods = h.nfp;
  theta = h.ntheta_low;
  theta_even = h.ntheta_even;
  zeta = h.nzeta_low;
  fits =
      let small =
        points_small (pos_part g.ns) (pos_part g.ntheta) (pos_part g.nzeta)
          (pos_part-le g.ns 512 h.ns_high) (pos_part-le g.ntheta 256 h.ntheta_high)
          (pos_part-le g.nzeta 256 h.nzeta_high) in
      omega (arith, small);
}

pub IsSmall-valid : (g : GridShape) → IsSmall g → Grid.validate g ≡ none
IsSmall-valid g h = (validate_iff g (IsSmall-IsInt32Shape g h)).1 (IsSmall-IsResolved g h)

-- Each shape has more surfaces than the one before.
abbrev pub IsRising : Option ℕ → List GridShape → Type 0
IsRising previous [] = Unit {0}
IsRising none (g ∷ rest) = IsRising (some (pos_part g.ns)) rest
IsRising (some n) (g ∷ rest) = (n < pos_part g.ns) × IsRising (some (pos_part g.ns)) rest

module _ (s : Scalar) (math : PowerMath s) (disabled : Bool) (options : SolverOptions) where
  -- The shape of a stage under checked scalars and steps.
  pub stage_shape-IsSmall :
      (spec : ProblemSpec s) (st : StageRequest s)
      → HasScalars s spec
      → HasSteps s spec
      → HasStage s options st
      → IsSmall (stage_shape s math (normalized s math spec (keep_boundary s math spec)) st)
  unfolding stage_shape normalized
  stage_shape-IsSmall spec st a b c =
      let theta =
        resolve_ntheta_bounds s math spec.mpol spec.angular.ntheta a.mpol_low a.mpol_high
          b.ntheta_high in
      let zeta =
        resolve_nzeta_bounds s math spec.ntor spec.angular.nzeta a.ntor_low a.ntor_high
          b.nzeta_high in
      record {
        ns_low = omega (arith, c.surfaces_low);
        ns_high = omega (arith, c.surfaces_high);
        ntheta_low = omega (arith, theta.0, a.mpol_low);
        ntheta_high = theta.1;
        ntheta_even = theta.2;
        nzeta_low = zeta.0;
        nzeta_high = zeta.1;
        mpol_low = a.mpol_low;
        mpol_high = a.mpol_high;
        ntor_low = a.ntor_low;
        ntor_high = a.ntor_high;
        nfp = a.nfp;
      }

  shapes_valid :
      (spec : ProblemSpec s) (previous : Option ℕ) (stages : List (StageRequest s))
      → HasScalars s spec
      → HasSteps s spec
      → IsSchedule s options previous stages
      → let shape = stage_shape s math (normalized s math spec (keep_boundary s math spec)) in
        All (λ g. Grid.validate g ≡ none) (map shape stages) × IsRising previous (map shape stages)
  unfolding stage_shape
  shapes_valid spec previous [] a b h = (tt, tt)
  shapes_valid spec none (st ∷ rest) a b (c, up, more) =
      let later = shapes_valid spec (some st.radial_surfaces) rest a b more in
      ((IsSmall-valid _ (stage_shape-IsSmall spec st a b c), later.0), later.1)
  shapes_valid spec (some n) (st ∷ rest) a b (c, up, more) =
      let later = shapes_valid spec (some st.radial_surfaces) rest a b more in
      ((IsSmall-valid _ (stage_shape-IsSmall spec st a b c), later.0), (up, later.1))

  -- GridShape::validate accepts every shape of an accepted problem; there is one for each stage,
  -- at least one, and the number of surfaces rises from each to the next.
  pub accepted_shapes :
      (spec : ProblemSpec s) (vp : ValidatedProblem s math)
      → validate s math disabled spec options ≡ accepted vp
      → All (λ g. Grid.validate g ≡ none) vp.stage_shapes
        × IsRising none vp.stage_shapes
        × (length vp.stage_shapes ≡ length spec.stages)
        × (1 ≤ length spec.stages)
  unfolding assemble normalized
  accepted_shapes spec vp e =
      let h = (accepted_iff s math disabled options spec).0 (vp, e) in
      let shapes = shapes_valid spec none spec.stages h.scalars h.steps h.schedule in
      rw (accepted-assembled s math disabled options spec vp e)
        (shapes.0, shapes.1, length-map _ spec.stages, nonempty-length spec.stages h.staged)
