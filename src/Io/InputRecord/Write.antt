-- ===== src/Io/InputRecord/Write.antt =====
-- src/cumes/io/io_common.hpp: `write_input_params`, its chain of calls cut into blocks.
use cu_mes.Base.{Bool, true, false, Option, none, some, List, [], ◌∷◌, length, pos, if◌then◌else◌}
use cu_mes.Io.File.{Writing, ◌then_write◌, provided, write_nothing}
use cu_mes.Io.Codec.{write_i32, write_f64, write_string, write_i32_vec, write_f64_vec}
use cu_mes.Io.InputParams.{InputParams, InputStage, MakegridParametersSpec}
use cu_mes.Io.InputRecord.Check.{flag, check_asymmetric_input_params}

unfoldable pub write_makegrid_parameters : MakegridParametersSpec → Writing
write_makegrid_parameters p =
    write_i32 (flag p.normalize_by_currents)
    then_write write_i32 (flag p.assume_stellarator_symmetry)
    then_write write_i32 p.number_of_field_periods
    then_write write_f64 p.r_grid_minimum
    then_write write_f64 p.r_grid_maximum
    then_write write_i32 p.number_of_r_grid_points
    then_write write_f64 p.z_grid_minimum
    then_write write_f64 p.z_grid_maximum
    then_write write_i32 p.number_of_z_grid_points
    then_write write_i32 p.number_of_phi_grid_points

-- `6*i32 (mpol..ncurr), 8*f64 (delt..tcon0)`
unfoldable pub write_scalars : InputParams → Writing
write_scalars p =
    write_i32 p.mpol
    then_write write_i32 p.ntor
    then_write write_i32 p.nfp
    then_write write_i32 p.ntheta
    then_write write_i32 p.nzeta
    then_write write_i32 p.ncurr
    then_write write_f64 p.delt
    then_write write_f64 p.phiedge
    then_write write_f64 p.pres_scale
    then_write write_f64 p.adiabatic_index
    then_write write_f64 p.spres_ped
    then_write write_f64 p.bloat
    then_write write_f64 p.curtor
    then_write write_f64 p.tcon0

unfoldable pub write_profile_types : InputParams → Writing
write_profile_types p =
    write_string p.pmass_type
    then_write write_string p.piota_type
    then_write write_string p.pcurr_type

unfoldable pub write_profiles : InputParams → Writing
write_profiles p =
    write_f64_vec p.am
    then_write write_f64_vec p.ac
    then_write write_f64_vec p.ai
    then_write write_f64_vec p.aphi
    then_write write_f64_vec p.raxis_c
    then_write write_f64_vec p.zaxis_s

unfoldable pub write_stages : List InputStage → Writing
write_stages [] = write_nothing
write_stages (st ∷ rest) =
    write_i32 st.ns
    then_write write_i32 st.max_iter
    then_write write_f64 st.ftol
    then_write write_stages rest

unfoldable pub write_boundary : InputParams → Writing
write_boundary p =
    write_i32_vec p.rbc_m
    then_write write_i32_vec p.rbc_n
    then_write write_f64_vec p.rbc_value
    then_write write_i32_vec p.zbs_m
    then_write write_i32_vec p.zbs_n
    then_write write_f64_vec p.zbs_value
    then_write write_f64_vec p.rbcc
    then_write write_f64_vec p.rbss
    then_write write_f64_vec p.zbsc
    then_write write_f64_vec p.zbcs

unfoldable pub write_embedded : Option MakegridParametersSpec → Writing
write_embedded none = write_i32 (flag false)
write_embedded (some parameters) =
    write_i32 (flag true) then_write write_makegrid_parameters parameters

unfoldable pub write_free_boundary : InputParams → Writing
write_free_boundary p =
    write_i32 (flag p.lfreeb)
    then_write write_i32 p.nvacskip
    then_write write_string p.mgrid_file
    then_write write_f64_vec p.extcur
    then_write write_string p.coils_file
    then_write write_string p.makegrid_parameters_file
    then_write write_embedded p.embedded_makegrid_parameters

unfoldable pub write_asymmetric : InputParams → Writing
write_asymmetric p = provided (check_asymmetric_input_params p) (
    write_i32 (flag p.lasym)
    then_write write_f64_vec p.raxis_s
    then_write write_f64_vec p.zaxis_c
    then_write write_i32_vec p.rbs_m
    then_write write_i32_vec p.rbs_n
    then_write write_f64_vec p.rbs_value
    then_write write_i32_vec p.zbc_m
    then_write write_i32_vec p.zbc_n
    then_write write_f64_vec p.zbc_value
    then_write write_f64_vec p.rbsc
    then_write write_f64_vec p.rbcs
    then_write write_f64_vec p.zbcc
    then_write write_f64_vec p.zbss)

-- The stage count is narrowed to 32 bits by `static_cast<std::int32_t>`, as `write_i32` does.
unfoldable pub write_input_params : InputParams → Bool → Writing
write_input_params p asymmetric_extension =
    write_scalars p
    then_write write_string p.schema
    then_write write_profile_types p
    then_write write_profiles p
    then_write write_i32 (pos (length p.stages))
    then_write write_stages p.stages
    then_write write_boundary p
    then_write write_free_boundary p
    then_write (if asymmetric_extension then write_asymmetric p else write_nothing)
