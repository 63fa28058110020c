-- ===== src/Examples/Sample.antt =====
-- A small asymmetric state with its input record, and a system to write it on.
use cu_mes.Base.{ℕ, ◌≤◌, ◌≡◌, inr, refl, true, none, List, [], ◌∷◌, length, replicate, pos, arith}
use cu_mes.Core.CheckedSize.{checked_mul}
use cu_mes.Io.Codec.{zero_double, i32_bytes, le_bytes, f64s_bytes, f64_bytes, i32s_bytes}
use cu_mes.Io.InputParams.{InputParams, default_input_params}
use cu_mes.Io.InputRecord.Check.{check_asymmetric_input_params}
use cu_mes.Io.InputRecord.Layout.{FitsRecord, FitsAsymmetric}
use cu_mes.Io.Snapshot.{EquilibriumSnapshot, default_snapshot, lasym}
use cu_mes.Io.StateLaws.{FitsState}
use cu_mes.Io.Publish.{FilePath, FileSystem, Device}
use cu_mes.Io.CheckpointLaws.{checkpoint_bytes}

abbrev pub params : InputParams
params = record default_input_params {
  lasym = true;
  mpol = pos 1;
  stages = record { ns = pos 3; max_iter = pos 100; ftol = zero_double } ∷ [];
  rbc_m = pos 0 ∷ [];
  rbc_n = pos 0 ∷ [];
  rbc_value = zero_double ∷ [];
  raxis_s = zero_double ∷ [];
  zaxis_c = zero_double ∷ [];
  rbsc = zero_double ∷ [];
  rbcs = zero_double ∷ [];
  zbcc = zero_double ∷ [];
  zbss = zero_double ∷ [];
}

pub params-Fits : FitsRecord params
unfolding default_input_params
params-Fits = record {
  mpol = (omega arith, omega arith);
  ntor = (omega arith, omega arith);
  nfp = (omega arith, omega arith);
  ntheta = (omega arith, omega arith);
  nzeta = (omega arith, omega arith);
  ncurr = (omega arith, omega arith);
  schema = omega arith;
  pmass_type = omega arith;
  piota_type = omega arith;
  pcurr_type = omega arith;
  am = omega arith;
  ac = omega arith;
  ai = omega arith;
  aphi = omega arith;
  raxis_c = omega arith;
  zaxis_s = omega arith;
  stage_count = omega arith;
  stages = (((omega arith, omega arith), (omega arith, omega arith)), tt);
  rbc_m = (omega arith, ((omega arith, omega arith), tt));
  rbc_n = (omega arith, ((omega arith, omega arith), tt));
  rbc_value = omega arith;
  zbs_m = (omega arith, tt);
  zbs_n = (omega arith, tt);
  zbs_value = omega arith;
  rbcc = omega arith;
  rbss = omega arith;
  zbsc = omega arith;
  zbcs = omega arith;
  rbc_n_agrees = refl;
  rbc_value_agrees = refl;
  zbs_n_agrees = refl;
  zbs_value_agrees = refl;
  rbss_agrees = refl;
  zbsc_agrees = refl;
  zbcs_agrees = refl;
  nvacskip = (omega arith, omega arith);
  mgrid_file = omega arith;
  extcur = omega arith;
  coils_file = omega arith;
  makegrid_parameters_file = omega arith;
  embedded = tt;
}

pub params-FitsAsymmetric : FitsAsymmetric params
unfolding default_input_params check_asymmetric_input_params checked_mul
params-FitsAsymmetric = record {
  checked = refl;
  raxis_s = omega arith;
  zaxis_c = omega arith;
  rbs_m = (omega arith, tt);
  rbs_n = (omega arith, tt);
  rbs_value = omega arith;
  zbc_m = (omega arith, tt);
  zbc_n = (omega arith, tt);
  zbc_value = omega arith;
  rbsc = omega arith;
  rbcs = omega arith;
  zbcc = omega arith;
  zbss = omega arith;
}

-- Three surfaces, one mode, twelve families.
abbrev pub state : EquilibriumSnapshot
state = record default_snapshot {
  ns = pos 3;
  mnmax = pos 1;
  families = replicate 12 (replicate 3 zero_double);
}

pub state-Fits : FitsState state
state-Fits = record {
  ns = (omega arith, omega arith);
  mnmax = (omega arith, omega arith);
  some_surfaces = omega arith;
  some_modes = omega arith;
  family_count = inr refl;
  sizes = (
    refl,
    (refl, (refl, (refl, (refl, (refl, (refl, (refl, (refl, (refl, (refl, (refl, tt))))))))))),
  );
  bytes = omega arith;
}

-- A system that answers every call with success.
abbrev pub device : Device
device = record {
  opens = true;
  room = 100000;
  flushes = true;
  syncs = true;
  closes = true;
  renames = true;
  opens_directory = true;
  syncs_directory = true;
  closes_directory = true;
  removes = true;
  partial = [];
}

abbrev pub empty_disk : FileSystem
empty_disk q = none

abbrev pub target : FilePath
target = b'c' ∷ []

abbrev pub tag : List ℕ
tag = b'1' ∷ b'.' ∷ b'0' ∷ []

pub container_has_room : length (checkpoint_bytes state params) ≤ 100000
unfolding default_input_params i32_bytes le_bytes f64s_bytes f64_bytes i32s_bytes
container_has_room = omega arith

pub same_symmetry : params.lasym ≡ lasym state
same_symmetry = refl
