-- ===== src/Io/InputRecord/ReadHead.antt =====
-- src/cumes/io/io_common.hpp: the first blocks of `read_input_params`, up to the stages.
use cu_mes.Base.{ℕ, zero, suc, Bool, true, false, not, List, [], ◌∷◌, pos_part}
use cu_mes.Io.Outcome.{truncated_input_record, stage_count_out_of_range, truncated_stage_record}
use cu_mes.Io.File.{Reading, ◌>>=◌, ◌>>◌, pure, with_reason, require}
use cu_mes.Io.Codec.{
  read_i32, read_f64, read_string, read_f64_vec, max_input_params_vector, out_of_range,
}
use cu_mes.Io.InputParams.{InputParams, InputStage, MakegridParametersSpec}
use cu_mes.Io.InputRecord.Check.{is_set}

unfoldable pub read_makegrid_parameters : Reading MakegridParametersSpec
read_makegrid_parameters = do
  normalize ← read_i32
  symmetry ← read_i32
  field_periods ← read_i32
  r_minimum ← read_f64
  r_maximum ← read_f64
  r_points ← read_i32
  z_minimum ← read_f64
  z_maximum ← read_f64
  z_points ← read_i32
  phi_points ← read_i32
  pure (record {
    normalize_by_currents = is_set normalize;
    assume_stellarator_symmetry = is_set symmetry;
    number_of_field_periods = field_periods;
    r_grid_minimum = r_minimum;
    r_grid_maximum = r_maximum;
    number_of_r_grid_points = r_points;
    z_grid_minimum = z_minimum;
    z_grid_maximum = z_maximum;
    number_of_z_grid_points = z_points;
    number_of_phi_grid_points = phi_points;
  })

-- `!read_i32(fp, p.mpol) || …` up to the schema tag.
unfoldable pub read_scalars : InputParams → Reading InputParams
read_scalars p = do
  mpol ← read_i32
  ntor ← read_i32
  nfp ← read_i32
  ntheta ← read_i32
  nzeta ← read_i32
  ncurr ← read_i32
  delt ← read_f64
  phiedge ← read_f64
  pres_scale ← read_f64
  adiabatic_index ← read_f64
  spres_ped ← read_f64
  bloat ← read_f64
  curtor ← read_f64
  tcon0 ← read_f64
  schema ← read_string
  pure (record p {
    mpol = mpol;
    ntor = ntor;
    nfp = nfp;
    ntheta = ntheta;
    nzeta = nzeta;
    ncurr = ncurr;
    delt = delt;
    phiedge = phiedge;
    pres_scale = pres_scale;
    adiabatic_index = adiabatic_index;
    spres_ped = spres_ped;
    bloat = bloat;
    curtor = curtor;
    tcon0 = tcon0;
    schema = schema;
  })

-- Older records lack the three strings, and keep the defaults.
unfoldable pub read_profile_types : Bool → InputParams → Reading InputParams
read_profile_types false p = pure p
read_profile_types true p = do
  pmass_type ← read_string
  piota_type ← read_string
  pcurr_type ← read_string
  pure (record p { pmass_type = pmass_type; piota_type = piota_type; pcurr_type = pcurr_type })

unfoldable pub read_profiles : InputParams → Reading InputParams
read_profiles p = do
  am ← read_f64_vec
  ac ← read_f64_vec
  ai ← read_f64_vec
  aphi ← read_f64_vec
  raxis_c ← read_f64_vec
  zaxis_s ← read_f64_vec
  pure (record p { am = am; ac = ac; ai = ai; aphi = aphi; raxis_c = raxis_c; zaxis_s = zaxis_s })

unfoldable pub read_head : Bool → InputParams → Reading InputParams
read_head with_profile_types p =
    with_reason truncated_input_record
      (do q ← read_scalars p; r ← read_profile_types with_profile_types q; read_profiles r)

unfoldable pub read_stage : Reading InputStage
read_stage = with_reason truncated_stage_record (do
  ns ← read_i32
  max_iter ← read_i32
  ftol ← read_f64
  pure (record { ns = ns; max_iter = max_iter; ftol = ftol }))

-- The loop over the stages that are left.
unfoldable pub read_stage_list : ℕ → Reading (List InputStage)
read_stage_list zero = pure []
read_stage_list (suc n) = do st ← read_stage; rest ← read_stage_list n; pure (st ∷ rest)

unfoldable pub read_stages : InputParams → Reading InputParams
read_stages p = do
  nstages ← with_reason truncated_input_record read_i32
  require (not (out_of_range nstages max_input_params_vector)) stage_count_out_of_range
  stages ← read_stage_list (pos_part nstages)
  pure (record p { stages = stages })
