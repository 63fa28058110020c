-- ===== src/Io/InputRecord/Read.antt =====
-- src/cumes/io/io_common.hpp: `read_input_params`, its chain of calls cut into blocks, each of which
-- sets the fields that it reads.
use cu_mes.Base.{ℕ, Bool, ◌&&◌, ◌||◌, some, length, pos, eqb_ℤ, leb, ◌==◌, if◌then◌else◌}
use cu_mes.Io.Outcome.{
  unset, truncated_input_record, boundary_lengths_disagree, truncated_makegrid,
  malformed_asymmetric_record,
}
use cu_mes.Io.File.{Reading, ◌>>=◌, ◌>>◌, pure, with_reason, require}
use cu_mes.Io.Codec.{read_i32, read_string, read_i32_vec, read_f64_vec}
use cu_mes.Io.InputParams.{InputParams, default_input_params}
use cu_mes.Io.InputRecord.Check.{is_set, check_asymmetric_input_params}
use cu_mes.Io.InputRecord.ReadHead.{read_makegrid_parameters, read_head, read_stages}

unfoldable pub read_boundary_vectors : InputParams → Reading InputParams
read_boundary_vectors p = do
  rbc_m ← read_i32_vec
  rbc_n ← read_i32_vec
  rbc_value ← read_f64_vec
  zbs_m ← read_i32_vec
  zbs_n ← read_i32_vec
  zbs_value ← read_f64_vec
  rbcc ← read_f64_vec
  rbss ← read_f64_vec
  zbsc ← read_f64_vec
  zbcs ← read_f64_vec
  pure (record p {
    rbc_m = rbc_m;
    rbc_n = rbc_n;
    rbc_value = rbc_value;
    zbs_m = zbs_m;
    zbs_n = zbs_n;
    zbs_value = zbs_value;
    rbcc = rbcc;
    rbss = rbss;
    zbsc = zbsc;
    zbcs = zbcs;
  })

unfoldable pub boundary_lengths_agree : InputParams → Bool
boundary_lengths_agree p =
    (length p.rbc_m == length p.rbc_n)
    && (length p.rbc_m == length p.rbc_value)
    && (length p.zbs_m == length p.zbs_n)
    && (length p.zbs_m == length p.zbs_value)
    && (length p.rbcc == length p.rbss)
    && (length p.rbcc == length p.zbsc)
    && (length p.rbcc == length p.zbcs)

unfoldable pub read_boundary : InputParams → Reading InputParams
read_boundary p = do
  q ← with_reason truncated_input_record (read_boundary_vectors p)
  require (boundary_lengths_agree q) boundary_lengths_disagree
  pure q

-- `free_boundary_extension >= 1`
unfoldable pub read_free_boundary : InputParams → Reading InputParams
read_free_boundary p = with_reason truncated_input_record (do
  lfreeb ← read_i32
  nvacskip ← read_i32
  mgrid_file ← read_string
  extcur ← read_f64_vec
  pure (record p {
    lfreeb = is_set lfreeb;
    nvacskip = nvacskip;
    mgrid_file = mgrid_file;
    extcur = extcur;
  }))

-- `free_boundary_extension >= 2`
unfoldable pub read_coils : InputParams → Reading InputParams
read_coils p = with_reason truncated_input_record (do
  coils_file ← read_string
  makegrid_parameters_file ← read_string
  pure (record p { coils_file = coils_file; makegrid_parameters_file = makegrid_parameters_file }))

-- `free_boundary_extension >= 3`
unfoldable pub read_embedded : InputParams → Reading InputParams
read_embedded p = do
  has_embedded ← with_reason truncated_input_record read_i32
  let present = (do
    parameters ← with_reason truncated_makegrid read_makegrid_parameters
    pure (record p { embedded_makegrid_parameters = some parameters }))
  if is_set has_embedded then present else pure p

-- The extensions that a record of the given level carries.
unfoldable pub read_free_boundary_extension : ℕ → InputParams → Reading InputParams
read_free_boundary_extension level p = do
  q ← (if leb 1 level then read_free_boundary p else pure p)
  r ← (if leb 2 level then read_coils q else pure q)
  if leb 3 level then read_embedded r else pure r

unfoldable pub read_asymmetric_vectors : InputParams → Reading InputParams
read_asymmetric_vectors p = do
  raxis_s ← read_f64_vec
  zaxis_c ← read_f64_vec
  rbs_m ← read_i32_vec
  rbs_n ← read_i32_vec
  rbs_value ← read_f64_vec
  zbc_m ← read_i32_vec
  zbc_n ← read_i32_vec
  zbc_value ← read_f64_vec
  rbsc ← read_f64_vec
  rbcs ← read_f64_vec
  zbcc ← read_f64_vec
  zbss ← read_f64_vec
  pure (record p {
    raxis_s = raxis_s;
    zaxis_c = zaxis_c;
    rbs_m = rbs_m;
    rbs_n = rbs_n;
    rbs_value = rbs_value;
    zbc_m = zbc_m;
    zbc_n = zbc_n;
    zbc_value = zbc_value;
    rbsc = rbsc;
    rbcs = rbcs;
    zbcc = zbcc;
    zbss = zbss;
  })

unfoldable pub read_asymmetric : InputParams → Reading InputParams
read_asymmetric p = with_reason malformed_asymmetric_record (do
  lasym ← read_i32
  require (eqb_ℤ lasym (pos 0) || eqb_ℤ lasym (pos 1)) unset
  q ← read_asymmetric_vectors (record p { lasym = is_set lasym })
  require (check_asymmetric_input_params q) unset
  pure q)

unfoldable pub read_input_params : Bool → ℕ → Bool → Reading InputParams
read_input_params with_profile_types free_boundary_extension asymmetric_extension = do
  head ← read_head with_profile_types default_input_params
  staged ← read_stages head
  bounded ← read_boundary staged
  extended ← read_free_boundary_extension free_boundary_extension bounded
  if asymmetric_extension then read_asymmetric extended else pure extended
