-- ===== src/Io/InputRecord/Layout.antt =====
-- The bytes of the input record, block by block, and the limits inside which both the writer and
-- the reader of src/cumes/io/io_common.hpp accept it.
use cu_mes.Base.{
  ℕ, ◌≤◌, ◌≡◌, Bool, true, Option, none, some, List, [], ◌∷◌, ◌++◌, length, All, ℤ, pos, IsI32,
  if◌then◌else◌,
}
use cu_mes.Io.Codec.{i32_bytes, f64_bytes, max_string, max_input_params_vector}
use cu_mes.Io.CodecLaws.{string_bytes, i32_vec_bytes, f64_vec_bytes}
use cu_mes.Io.InputParams.{InputParams, InputStage, MakegridParametersSpec}
use cu_mes.Io.InputRecord.Check.{flag, check_asymmetric_input_params}

abbrev pub makegrid_bytes : MakegridParametersSpec → List ℕ
makegrid_bytes p =
    i32_bytes (flag p.normalize_by_currents)
    ++ (i32_bytes (flag p.assume_stellarator_symmetry)
        ++ (i32_bytes p.number_of_field_periods
            ++ (f64_bytes p.r_grid_minimum
                ++ (f64_bytes p.r_grid_maximum
                    ++ (i32_bytes p.number_of_r_grid_points
                        ++ (f64_bytes p.z_grid_minimum
                            ++ (f64_bytes p.z_grid_maximum
                                ++ (i32_bytes p.number_of_z_grid_points
                                    ++ i32_bytes p.number_of_phi_grid_points))))))))

abbrev pub scalar_bytes : InputParams → List ℕ
scalar_bytes p =
    i32_bytes p.mpol
    ++ (i32_bytes p.ntor
        ++ (i32_bytes p.nfp
            ++ (i32_bytes p.ntheta
                ++ (i32_bytes p.nzeta
                    ++ (i32_bytes p.ncurr
                        ++ (f64_bytes p.delt
                            ++ (f64_bytes p.phiedge
                                ++ (f64_bytes p.pres_scale
                                    ++ (f64_bytes p.adiabatic_index
                                        ++ (f64_bytes p.spres_ped
                                            ++ (f64_bytes p.bloat
                                                ++ (f64_bytes p.curtor
                                                    ++ (f64_bytes p.tcon0
                                                        ++ string_bytes p.schema)))))))))))))

abbrev pub profile_type_bytes : InputParams → List ℕ
profile_type_bytes p =
    string_bytes p.pmass_type ++ (string_bytes p.piota_type ++ string_bytes p.pcurr_type)

abbrev pub profile_bytes : InputParams → List ℕ
profile_bytes p =
    f64_vec_bytes p.am
    ++ (f64_vec_bytes p.ac
        ++ (f64_vec_bytes p.ai
            ++ (f64_vec_bytes p.aphi ++ (f64_vec_bytes p.raxis_c ++ f64_vec_bytes p.zaxis_s))))

abbrev pub stage_bytes : InputStage → List ℕ
stage_bytes st = i32_bytes st.ns ++ (i32_bytes st.max_iter ++ f64_bytes st.ftol)

abbrev pub stage_list_bytes : List InputStage → List ℕ
stage_list_bytes [] = []
stage_list_bytes (st ∷ rest) = stage_bytes st ++ stage_list_bytes rest

abbrev pub boundary_bytes : InputParams → List ℕ
boundary_bytes p =
    i32_vec_bytes p.rbc_m
    ++ (i32_vec_bytes p.rbc_n
        ++ (f64_vec_bytes p.rbc_value
            ++ (i32_vec_bytes p.zbs_m
                ++ (i32_vec_bytes p.zbs_n
                    ++ (f64_vec_bytes p.zbs_value
                        ++ (f64_vec_bytes p.rbcc
                            ++ (f64_vec_bytes p.rbss
                                ++ (f64_vec_bytes p.zbsc ++ f64_vec_bytes p.zbcs))))))))

abbrev pub embedded_bytes : Option MakegridParametersSpec → List ℕ
embedded_bytes none = i32_bytes (pos 0)
embedded_bytes (some parameters) = i32_bytes (pos 1) ++ makegrid_bytes parameters

abbrev pub lfreeb_bytes : InputParams → List ℕ
lfreeb_bytes p =
    i32_bytes (flag p.lfreeb)
    ++ (i32_bytes p.nvacskip ++ (string_bytes p.mgrid_file ++ f64_vec_bytes p.extcur))

abbrev pub coils_bytes : InputParams → List ℕ
coils_bytes p = string_bytes p.coils_file ++ string_bytes p.makegrid_parameters_file

abbrev pub asymmetric_vector_bytes : InputParams → List ℕ
asymmetric_vector_bytes p =
    f64_vec_bytes p.raxis_s
    ++ (f64_vec_bytes p.zaxis_c
        ++ (i32_vec_bytes p.rbs_m
            ++ (i32_vec_bytes p.rbs_n
                ++ (f64_vec_bytes p.rbs_value
                    ++ (i32_vec_bytes p.zbc_m
                        ++ (i32_vec_bytes p.zbc_n
                            ++ (f64_vec_bytes p.zbc_value
                                ++ (f64_vec_bytes p.rbsc
                                    ++ (f64_vec_bytes p.rbcs
                                        ++ (f64_vec_bytes p.zbcc ++ f64_vec_bytes p.zbss))))))))))

abbrev pub asymmetric_bytes : InputParams → List ℕ
asymmetric_bytes p = i32_bytes (flag p.lasym) ++ asymmetric_vector_bytes p

abbrev pub head_bytes : InputParams → List ℕ
head_bytes p = scalar_bytes p ++ (profile_type_bytes p ++ profile_bytes p)

abbrev pub stages_bytes : InputParams → List ℕ
stages_bytes p = i32_bytes (pos (length p.stages)) ++ stage_list_bytes p.stages

abbrev pub free_boundary_bytes : InputParams → List ℕ
free_boundary_bytes p =
    lfreeb_bytes p ++ (coils_bytes p ++ embedded_bytes p.embedded_makegrid_parameters)

abbrev pub extension_bytes : Bool → InputParams → List ℕ
extension_bytes asymmetric p = if asymmetric then asymmetric_bytes p else []

abbrev pub record_bytes : Bool → InputParams → List ℕ
record_bytes asymmetric p =
    head_bytes p
    ++ (stages_bytes p
        ++ (boundary_bytes p ++ (free_boundary_bytes p ++ extension_bytes asymmetric p)))

abbrev pub FitsString : List ℕ → Type 0
FitsString s = length s ≤ max_string

abbrev pub FitsVector {ℓ} : {A : Type ℓ} → List A → Type 0
FitsVector v = length v ≤ max_input_params_vector

abbrev pub FitsInts : List ℤ → Type 0
FitsInts v = FitsVector v × All IsI32 v

abbrev pub FitsStage : InputStage → Type 0
FitsStage st = IsI32 st.ns × IsI32 st.max_iter

pub record FitsMakegrid (p : MakegridParametersSpec) : Type 0 where
  pub field_periods : IsI32 p.number_of_field_periods
  pub r_points : IsI32 p.number_of_r_grid_points
  pub z_points : IsI32 p.number_of_z_grid_points
  pub phi_points : IsI32 p.number_of_phi_grid_points

abbrev pub FitsEmbedded : Option MakegridParametersSpec → Type 0
FitsEmbedded none = Unit
FitsEmbedded (some p) = FitsMakegrid p

-- The ranges of the fields that every record carries: 32-bit numbers, strings of at most 2^24 bytes,
-- vectors of at most 2^20 elements,
-- and parallel boundary vectors of one length.
pub record FitsRecord (p : InputParams) : Type 0 where
  pub mpol : IsI32 p.mpol
  pub ntor : IsI32 p.ntor
  pub nfp : IsI32 p.nfp
  pub ntheta : IsI32 p.ntheta
  pub nzeta : IsI32 p.nzeta
  pub ncurr : IsI32 p.ncurr
  pub schema : FitsString p.schema
  pub pmass_type : FitsString p.pmass_type
  pub piota_type : FitsString p.piota_type
  pub pcurr_type : FitsString p.pcurr_type
  pub am : FitsVector p.am
  pub ac : FitsVector p.ac
  pub ai : FitsVector p.ai
  pub aphi : FitsVector p.aphi
  pub raxis_c : FitsVector p.raxis_c
  pub zaxis_s : FitsVector p.zaxis_s
  pub stage_count : FitsVector p.stages
  pub stages : All FitsStage p.stages
  pub rbc_m : FitsInts p.rbc_m
  pub rbc_n : FitsInts p.rbc_n
  pub rbc_value : FitsVector p.rbc_value
  pub zbs_m : FitsInts p.zbs_m
  pub zbs_n : FitsInts p.zbs_n
  pub zbs_value : FitsVector p.zbs_value
  pub rbcc : FitsVector p.rbcc
  pub rbss : FitsVector p.rbss
  pub zbsc : FitsVector p.zbsc
  pub zbcs : FitsVector p.zbcs
  pub rbc_n_agrees : length p.rbc_m ≡ length p.rbc_n
  pub rbc_value_agrees : length p.rbc_m ≡ length p.rbc_value
  pub zbs_n_agrees : length p.zbs_m ≡ length p.zbs_n
  pub zbs_value_agrees : length p.zbs_m ≡ length p.zbs_value
  pub rbss_agrees : length p.rbcc ≡ length p.rbss
  pub zbsc_agrees : length p.rbcc ≡ length p.zbsc
  pub zbcs_agrees : length p.rbcc ≡ length p.zbcs
  pub nvacskip : IsI32 p.nvacskip
  pub mgrid_file : FitsString p.mgrid_file
  pub extcur : FitsVector p.extcur
  pub coils_file : FitsString p.coils_file
  pub makegrid_parameters_file : FitsString p.makegrid_parameters_file
  pub embedded : FitsEmbedded p.embedded_makegrid_parameters

-- The ranges of the asymmetric extension, with the writer's own test.
pub record FitsAsymmetric (p : InputParams) : Type 0 where
  pub checked : check_asymmetric_input_params p ≡ true
  pub raxis_s : FitsVector p.raxis_s
  pub zaxis_c : FitsVector p.zaxis_c
  pub rbs_m : FitsInts p.rbs_m
  pub rbs_n : FitsInts p.rbs_n
  pub rbs_value : FitsVector p.rbs_value
  pub zbc_m : FitsInts p.zbc_m
  pub zbc_n : FitsInts p.zbc_n
  pub zbc_value : FitsVector p.zbc_value
  pub rbsc : FitsVector p.rbsc
  pub rbcs : FitsVector p.rbcs
  pub zbcc : FitsVector p.zbcc
  pub zbss : FitsVector p.zbss
