-- ===== src/Config/Spec.antt =====
-- include/cumes/config/problem_spec.hpp: the problem as it is requested. The type `double` is the
-- scalar of the section. A file path is the text of the input.
use Prim.Native.String.{String}
use cu_mes.Base.{ℕ, Bool, false, Option, none, List, [], ℤ, pos}
use cu_mes.Solver.Scalar.{Scalar}

pub data CurrentModel : Type 0 where
  fixed_iota prescribed_current : CurrentModel

pub data ProfileType : Type 0 where
  power_series two_power : ProfileType

unfoldable pub profile_type_to_string : ProfileType → String
profile_type_to_string power_series = "power_series"
profile_type_to_string two_power = "two_power"

pub record AngularResolution : Type 0 where
  pub ntheta : ℤ
  pub nzeta : ℤ

module _ (s : Scalar) where
  open s use {T}

  pub record ProfileSpec : Type 0 where
    pub type_of : ProfileType
    pub coefficients : List T

  pub record PhysicalScalars : Type 0 where
    pub phiedge : T
    pub pres_scale : T
    pub adiabatic_index : T
    pub spres_ped : T
    pub bloat : T
    pub curtor : T
    pub tcon0 : T

  -- The toroidal index is signed.
  pub record BoundaryHarmonic : Type 0 where
    pub m : ℤ
    pub n : ℤ
    pub value : T

  pub record StageRequest : Type 0 where
    pub radial_surfaces : ℕ
    pub max_iterations : ℕ
    pub tolerance : T

  pub record MakegridParametersSpec : Type 0 where
    pub normalize_by_currents : Bool
    pub assume_stellarator_symmetry : Bool
    pub number_of_field_periods : ℤ
    pub r_grid_minimum : T
    pub r_grid_maximum : T
    pub number_of_r_grid_points : ℤ
    pub z_grid_minimum : T
    pub z_grid_maximum : T
    pub number_of_z_grid_points : ℤ
    pub number_of_phi_grid_points : ℤ

  pub record FreeBoundarySpec : Type 0 where
    pub lfreeb : Bool
    pub mgrid_file : String
    pub coils_file : String
    pub makegrid_parameters_file : String
    pub embedded_makegrid_parameters : Option MakegridParametersSpec
    pub extcur : List T
    pub nvacskip : ℤ

  pub record ProblemSpec : Type 0 where
    pub mpol : ℤ
    pub ntor : ℤ
    pub nfp : ℤ
    pub lasym : Bool
    pub angular : AngularResolution
    pub current_model : CurrentModel
    pub delt : T
    pub mass : ProfileSpec
    pub iota : ProfileSpec
    pub current : ProfileSpec
    pub toroidal_flux : ProfileSpec
    pub raxis_c : List T
    pub zaxis_s : List T
    pub has_raxis_c : Bool
    pub has_zaxis_s : Bool
    pub raxis_s : List T
    pub zaxis_c : List T
    pub has_raxis_s : Bool
    pub has_zaxis_c : Bool
    pub rbc : List BoundaryHarmonic
    pub zbs : List BoundaryHarmonic
    pub rbs : List BoundaryHarmonic
    pub zbc : List BoundaryHarmonic
    pub stages : List StageRequest
    pub physical : PhysicalScalars
    pub free_boundary : FreeBoundarySpec

  unfoldable pub default_stage : StageRequest
  default_stage = record { radial_surfaces = 11; max_iterations = 1000; tolerance = s.decimal 1 16 }

  abbrev default_profile : ProfileSpec
  default_profile = record { type_of = power_series; coefficients = [] }

  unfoldable pub default_makegrid_parameters : MakegridParametersSpec
  default_makegrid_parameters = record {
    normalize_by_currents = false;
    assume_stellarator_symmetry = false;
    number_of_field_periods = pos 0;
    r_grid_minimum = s.zero;
    r_grid_maximum = s.zero;
    number_of_r_grid_points = pos 0;
    z_grid_minimum = s.zero;
    z_grid_maximum = s.zero;
    number_of_z_grid_points = pos 0;
    number_of_phi_grid_points = pos 0;
  }

  -- The member initializers of a default-constructed problem.
  unfoldable pub default_problem : ProblemSpec
  default_problem = record {
    mpol = pos 6;
    ntor = pos 0;
    nfp = pos 1;
    lasym = false;
    angular = record { ntheta = pos 0; nzeta = pos 0 };
    current_model = fixed_iota;
    delt = s.decimal 9 1;
    mass = default_profile;
    iota = default_profile;
    current = default_profile;
    toroidal_flux = default_profile;
    raxis_c = [];
    zaxis_s = [];
    has_raxis_c = false;
    has_zaxis_s = false;
    raxis_s = [];
    zaxis_c = [];
    has_raxis_s = false;
    has_zaxis_c = false;
    rbc = [];
    zbs = [];
    rbs = [];
    zbc = [];
    stages = [];
    physical = record {
      phiedge = s.one;
      pres_scale = s.one;
      adiabatic_index = s.zero;
      spres_ped = s.one;
      bloat = s.one;
      curtor = s.zero;
      tcon0 = s.one;
    };
    free_boundary = record {
      lfreeb = false;
      mgrid_file = "";
      coils_file = "";
      makegrid_parameters_file = "";
      embedded_makegrid_parameters = none;
      extcur = [];
      nvacskip = pos 1;
    };
  }
