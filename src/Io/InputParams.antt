-- ===== src/Io/InputParams.antt =====
-- include/cumes/io/input_params.hpp: the embedded normalized-input record, with the defaults of a
-- default-constructed one, and MakegridParametersSpec of include/cumes/config/problem_spec.hpp.
-- A `std::string` is the list of its bytes.
use Prim.Native.String.{String}
use Prim.Native.Char.{code}
use cu_mes.Base.{ℕ, Bool, false, Option, none, List, [], ◌∷◌, ℤ, pos}
use cu_mes.Io.Codec.{Double, zero_double}

pub record MakegridParametersSpec : Type 0 where
  pub normalize_by_currents : Bool
  pub assume_stellarator_symmetry : Bool
  pub number_of_field_periods : ℤ
  pub r_grid_minimum : Double
  pub r_grid_maximum : Double
  pub number_of_r_grid_points : ℤ
  pub z_grid_minimum : Double
  pub z_grid_maximum : Double
  pub number_of_z_grid_points : ℤ
  pub number_of_phi_grid_points : ℤ

pub record InputStage : Type 0 where
  pub ns : ℤ
  pub max_iter : ℤ
  pub ftol : Double

pub record InputParams : Type 0 where
  pub schema : List ℕ
  pub lasym : Bool
  pub mpol : ℤ
  pub ntor : ℤ
  pub nfp : ℤ
  pub ntheta : ℤ
  pub nzeta : ℤ
  pub ncurr : ℤ
  pub delt : Double
  pub phiedge : Double
  pub pres_scale : Double
  pub adiabatic_index : Double
  pub spres_ped : Double
  pub bloat : Double
  pub curtor : Double
  pub tcon0 : Double
  pub pmass_type : List ℕ
  pub piota_type : List ℕ
  pub pcurr_type : List ℕ
  pub lfreeb : Bool
  pub nvacskip : ℤ
  pub mgrid_file : List ℕ
  pub coils_file : List ℕ
  pub makegrid_parameters_file : List ℕ
  pub embedded_makegrid_parameters : Option MakegridParametersSpec
  pub extcur : List Double
  pub am : List Double
  pub ac : List Double
  pub ai : List Double
  pub aphi : List Double
  pub raxis_c : List Double
  pub zaxis_s : List Double
  pub stages : List InputStage
  pub rbc_m : List ℤ
  pub rbc_n : List ℤ
  pub rbc_value : List Double
  pub zbs_m : List ℤ
  pub zbs_n : List ℤ
  pub zbs_value : List Double
  pub rbcc : List Double
  pub rbss : List Double
  pub zbsc : List Double
  pub zbcs : List Double
  pub raxis_s : List Double
  pub zaxis_c : List Double
  pub rbs_m : List ℤ
  pub rbs_n : List ℤ
  pub rbs_value : List Double
  pub zbc_m : List ℤ
  pub zbc_n : List ℤ
  pub zbc_value : List Double
  pub rbsc : List Double
  pub rbcs : List Double
  pub zbcc : List Double
  pub zbss : List Double

abbrev pub codes : String → List ℕ
codes String.[] = []
codes (String.◌∷◌ c s) = code c ∷ codes s

abbrev pub power_series : List ℕ
power_series = codes "power_series"

-- `InputParams{}`
unfoldable pub default_input_params : InputParams
default_input_params = record {
  schema = codes "cumes-config-v1";
  lasym = false;
  mpol = pos 0;
  ntor = pos 0;
  nfp = pos 0;
  ntheta = pos 0;
  nzeta = pos 0;
  ncurr = pos 0;
  delt = zero_double;
  phiedge = zero_double;
  pres_scale = zero_double;
  adiabatic_index = zero_double;
  spres_ped = zero_double;
  bloat = zero_double;
  curtor = zero_double;
  tcon0 = zero_double;
  pmass_type = power_series;
  piota_type = power_series;
  pcurr_type = power_series;
  lfreeb = false;
  nvacskip = pos 1;
  mgrid_file = [];
  coils_file = [];
  makegrid_parameters_file = [];
  embedded_makegrid_parameters = none;
  extcur = [];
  am = [];
  ac = [];
  ai = [];
  aphi = [];
  raxis_c = [];
  zaxis_s = [];
  stages = [];
  rbc_m = [];
  rbc_n = [];
  rbc_value = [];
  zbs_m = [];
  zbs_n = [];
  zbs_value = [];
  rbcc = [];
  rbss = [];
  zbsc = [];
  zbcs = [];
  raxis_s = [];
  zaxis_c = [];
  rbs_m = [];
  rbs_n = [];
  rbs_value = [];
  zbc_m = [];
  zbc_n = [];
  zbc_value = [];
  rbsc = [];
  rbcs = [];
  zbcc = [];
  zbss = [];
}
