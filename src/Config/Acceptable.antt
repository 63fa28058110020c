-- ===== src/Config/Acceptable.antt =====
-- What the checks of `validate` in src/cumes/config/validated_problem.cpp ask for, as predicates.
use cu_mes.Base.{
  ℕ, ◌+◌, ◌≡◌, ◌≤◌, ◌<◌, ◌⊎◌, Bool, true, false, Option, none, some, List, [], ◌∷◌, All, length, ℤ,
  pos, negsuc, pos_part, ◌≤ℤ◌, eqb_ℤ,
}
use cu_mes.Core.CheckedSize.{to_size}
use cu_mes.Core.GridShape.{is_odd}
use cu_mes.Solver.Scalar.{Scalar}
use cu_mes.Config.Spec.{
  BoundaryHarmonic, StageRequest, MakegridParametersSpec, FreeBoundarySpec, ProblemSpec,
}
use cu_mes.Config.Precision.{SolverOptions, tolerance_floor}
use cu_mes.Config.Profiles.{PowerMath, torflux, eval_curr_profile}
use cu_mes.Config.Checks.{
  next_ℤ, is_empty, is_empty_text, is_two_power, prescribes_current, has_value,
}
use cu_mes.Config.Folding.{abs_ℤ}

module _ (s : Scalar) where
  open s use {T}

  -- A value that the solver divides by.
  pub record IsDivisor (x : T) : Type 0 where
    pub finite : s.is_finite x ≡ true
    pub nonzero : s.eq x s.zero ≡ false
    pub large : s.lt (s.abs x) (s.decimal 1 30) ≡ false

  pub record HasScalars (spec : ProblemSpec s) : Type 0 where
    pub mpol_low : pos 2 ≤ℤ spec.mpol
    pub mpol_high : spec.mpol ≤ℤ pos 16
    pub ntor_low : pos 0 ≤ℤ spec.ntor
    pub ntor_high : spec.ntor ≤ℤ pos 15
    pub nfp : pos 1 ≤ℤ spec.nfp
    pub phiedge_finite : s.is_finite spec.physical.phiedge ≡ true
    pub phiedge_nonzero : s.eq spec.physical.phiedge s.zero ≡ false
    pub curtor_finite : s.is_finite spec.physical.curtor ≡ true

  pub record HasSteps (spec : ProblemSpec s) : Type 0 where
    pub delt : s.le spec.delt s.zero ≡ false
    pub ntheta_low : pos 0 ≤ℤ spec.angular.ntheta
    pub ntheta_high : spec.angular.ntheta ≤ℤ pos 256
    pub nzeta_low : pos 0 ≤ℤ spec.angular.nzeta
    pub nzeta_high : spec.angular.nzeta ≤ℤ pos 256
    pub gamma : s.eq spec.physical.adiabatic_index s.zero ≡ true
    pub nvacskip : pos 1 ≤ℤ spec.free_boundary.nvacskip

  pub record HasStage (options : SolverOptions) (st : StageRequest s) : Type 0 where
    pub surfaces_low : 3 ≤ st.radial_surfaces
    pub surfaces_high : st.radial_surfaces ≤ 512
    pub iterations : 1 ≤ st.max_iterations
    pub not_below : s.le st.tolerance s.zero ≡ false
    pub positive : s.lt s.zero st.tolerance ≡ true
    pub reachable : s.le (tolerance_floor s options.precision) st.tolerance ≡ true

  -- The number of surfaces grows from stage to stage, from more than `previous` where there is one.
  abbrev pub Above : Option ℕ → ℕ → Type 0
  Above none ns = Unit {0}
  Above (some previous) ns = previous < ns

  abbrev pub IsSchedule : SolverOptions → Option ℕ → List (StageRequest s) → Type 0
  IsSchedule options previous [] = Unit {0}
  IsSchedule options previous (st ∷ rest) =
      HasStage options st
      × Above previous st.radial_surfaces
      × IsSchedule options (some st.radial_surfaces) rest

  pub record HasProfiles (spec : ProblemSpec s) : Type 0 where
    pub mass : (is_two_power spec.mass.type_of ≡ false) ⊎ (3 ≤ length spec.mass.coefficients)
    pub current :
        (is_two_power spec.current.type_of ≡ false) ⊎ (3 ≤ length spec.current.coefficients)

  pub record HasEdges (math : PowerMath s) (spec : ProblemSpec s) : Type 0 where
    pub flux : IsDivisor (torflux s math spec s.one)
    pub current :
        (prescribes_current spec.current_model ≡ false)
        ⊎ (s.eq spec.physical.curtor s.zero ≡ true)
        ⊎ IsDivisor (eval_curr_profile s math spec s.one)

  pub record HasMakegrid (nfp : ℤ) (p : MakegridParametersSpec s) : Type 0 where
    pub unnormalized : p.normalize_by_currents ≡ false
    pub periods : eqb_ℤ p.number_of_field_periods nfp ≡ true
    pub r_grid : s.lt p.r_grid_minimum p.r_grid_maximum ≡ true
    pub r_points : pos 2 ≤ℤ p.number_of_r_grid_points
    pub z_grid : s.lt p.z_grid_minimum p.z_grid_maximum ≡ true
    pub z_points : pos 2 ≤ℤ p.number_of_z_grid_points
    pub phi_points : pos 1 ≤ℤ p.number_of_phi_grid_points
    pub phi_even :
        (p.assume_stellarator_symmetry ≡ false) ⊎ (is_odd p.number_of_phi_grid_points ≡ false)

  abbrev pub HasEmbedded : ℤ → Option (MakegridParametersSpec s) → Type 0
  HasEmbedded nfp none = Unit {0}
  HasEmbedded nfp (some p) = HasMakegrid nfp p

  -- A table of the field alone, or coils with parameters for a table.
  abbrev pub HasFieldSource : FreeBoundarySpec s → Type 0
  HasFieldSource f =
      ((is_empty_text f.mgrid_file ≡ false)
        × (is_empty_text f.coils_file ≡ true)
        × (is_empty_text f.makegrid_parameters_file ≡ true)
        × (has_value s f.embedded_makegrid_parameters ≡ false))
      ⊎ ((is_empty_text f.mgrid_file ≡ true)
          × (is_empty_text f.coils_file ≡ false)
          × ((is_empty_text f.makegrid_parameters_file ≡ false)
              ⊎ (has_value s f.embedded_makegrid_parameters ≡ true)))

  pub record HasExternalField (disabled : Bool) (spec : ProblemSpec s) : Type 0 where
    pub enabled : disabled ≡ false
    pub source : HasFieldSource spec.free_boundary
    pub currents : is_empty spec.free_boundary.extcur ≡ false
    pub embedded : HasEmbedded spec.nfp spec.free_boundary.embedded_makegrid_parameters

  abbrev pub HasFreeBoundary : Bool → ProblemSpec s → Type 0
  HasFreeBoundary disabled spec =
      (spec.free_boundary.lfreeb ≡ false) ⊎ HasExternalField disabled spec

  -- An axis that is given has `ntor + 1` entries.
  abbrev pub HasAxis : ℤ → Bool → List T → Type 0
  HasAxis ntor has_axis axis = (has_axis ≡ false) ⊎ (length axis ≡ to_size (next_ℤ ntor))

  pub record IsAsymmetric (spec : ProblemSpec s) : Type 0 where
    pub raxis_s : HasAxis spec.ntor spec.has_raxis_s spec.raxis_s
    pub zaxis_c : HasAxis spec.ntor spec.has_zaxis_c spec.zaxis_c

  -- No coefficient of the asymmetric families is given.
  pub record IsSymmetric (spec : ProblemSpec s) : Type 0 where
    pub raxis_s : is_empty spec.raxis_s ≡ true
    pub zaxis_c : is_empty spec.zaxis_c ≡ true
    pub rbs : is_empty spec.rbs ≡ true
    pub zbc : is_empty spec.zbc ≡ true

  pub record HasAxes (spec : ProblemSpec s) : Type 0 where
    pub raxis_c : HasAxis spec.ntor spec.has_raxis_c spec.raxis_c
    pub zaxis_s : HasAxis spec.ntor spec.has_zaxis_s spec.zaxis_s
    pub symmetry :
        ((spec.lasym ≡ true) × IsAsymmetric spec) ⊎ ((spec.lasym ≡ false) × IsSymmetric spec)

  -- A mode of the configured range.
  abbrev pub InRange : ℤ → ℤ → BoundaryHarmonic s → Type 0
  InRange mpol ntor e =
      (pos 0 ≤ℤ e.m) × (pos (pos_part e.m + 1) ≤ℤ mpol) × (abs_ℤ e.n ≤ pos_part ntor)

  -- `std::abs` of the least `int` is negative, so that such an n passes its test.
  abbrev pub IsLeast : BoundaryHarmonic s → Type 0
  IsLeast e = e.n ≡ negsuc 2147483647

  abbrev pub InRangeOrLeast : ℤ → ℤ → BoundaryHarmonic s → Type 0
  InRangeOrLeast mpol ntor e =
      InRange mpol ntor e ⊎ ((pos 0 ≤ℤ e.m) × (pos (pos_part e.m + 1) ≤ℤ mpol) × IsLeast e)

  -- Some harmonic satisfies `P`.
  abbrev pub Represented : (BoundaryHarmonic s → Type 0) → List (BoundaryHarmonic s) → Type 0
  Represented P [] = ⊥
  Represented P (e ∷ rest) = P e ⊎ Represented P rest

  -- The harmonics in the range are finite.
  abbrev pub FiniteInRange : ℤ → ℤ → List (BoundaryHarmonic s) → Type 0
  FiniteInRange mpol ntor = All (λ e. (s.is_finite e.value ≡ true) ⊎ (¬ (InRange mpol ntor e)))

  pub record HasBoundary (spec : ProblemSpec s) : Type 0 where
    pub rbs_finite : FiniteInRange spec.mpol spec.ntor spec.rbs
    pub zbc_finite : FiniteInRange spec.mpol spec.ntor spec.zbc
    pub r_given : Represented (InRangeOrLeast spec.mpol spec.ntor) spec.rbc
    pub z_given :
        Represented (InRangeOrLeast spec.mpol spec.ntor) spec.zbs
        ⊎ Represented (InRange spec.mpol spec.ntor) spec.zbc

  pub record IsAcceptable (math : PowerMath s) (disabled : Bool) (options : SolverOptions)
      (spec : ProblemSpec s) : Type 0 where
    pub scalars : HasScalars spec
    pub profiles : HasProfiles spec
    pub edges : HasEdges math spec
    pub steps : HasSteps spec
    pub free_boundary : HasFreeBoundary disabled spec
    pub axes : HasAxes spec
    pub staged : is_empty spec.stages ≡ false
    pub schedule : IsSchedule options none spec.stages
    pub boundary : HasBoundary spec
