-- ===== src/Io/InputRecord/Blocks.antt =====
-- The reader of the input record, block by block, on the bytes of its layout.
use cu_mes.Base.{◌≡◌, refl, subst, Bool, true, false, pos, arith}
use cu_mes.Io.Spec.{Decodes, Decodes-bind, Decodes-last}
use cu_mes.Io.Codec.{i32_bytes, read_i32}
use cu_mes.Io.CodecLaws.{Decodes-i32, Decodes-f64, Decodes-string, Decodes-i32_vec, Decodes-f64_vec}
use cu_mes.Io.InputParams.{InputParams, MakegridParametersSpec}
use cu_mes.Io.InputRecord.Check.{flag, is_set}
use cu_mes.Io.InputRecord.Read.{read_boundary_vectors, read_asymmetric_vectors}
use cu_mes.Io.InputRecord.ReadHead.{
  read_makegrid_parameters, read_scalars, read_profile_types, read_profiles,
}
use cu_mes.Io.InputRecord.Layout.{
  makegrid_bytes, scalar_bytes, profile_type_bytes, profile_bytes, boundary_bytes,
  asymmetric_vector_bytes, FitsRecord, FitsAsymmetric, FitsMakegrid,
}

pub is_set-flag : (b : Bool) → is_set (flag b) ≡ b
is_set-flag true = refl
is_set-flag false = refl

pub Decodes-flag : (b : Bool) → Decodes read_i32 (i32_bytes (flag b)) (flag b)
Decodes-flag true = Decodes-i32 (pos 1) (omega arith)
Decodes-flag false = Decodes-i32 (pos 0) (omega arith)

pub Decodes-makegrid :
    (p : MakegridParametersSpec)
    → FitsMakegrid p
    → Decodes read_makegrid_parameters (makegrid_bytes p) p
unfolding read_makegrid_parameters
Decodes-makegrid p h =
    subst (Decodes _ (makegrid_bytes p))
      (rw (is_set-flag p.normalize_by_currents, is_set-flag p.assume_stellarator_symmetry))
      (Decodes-bind _ (Decodes-flag p.normalize_by_currents) (
        Decodes-bind _ (Decodes-flag p.assume_stellarator_symmetry) (
          Decodes-bind _ (Decodes-i32 p.number_of_field_periods h.field_periods) (
            Decodes-bind _ (Decodes-f64 p.r_grid_minimum) (
              Decodes-bind _ (Decodes-f64 p.r_grid_maximum) (
                Decodes-bind _ (Decodes-i32 p.number_of_r_grid_points h.r_points) (
                  Decodes-bind _ (Decodes-f64 p.z_grid_minimum) (
                    Decodes-bind _ (Decodes-f64 p.z_grid_maximum) (
                      Decodes-bind _ (Decodes-i32 p.number_of_z_grid_points h.z_points) (
                        Decodes-last _
                          (Decodes-i32 p.number_of_phi_grid_points h.phi_points)))))))))))

pub Decodes-scalars :
    (p q : InputParams)
    → FitsRecord p
    → Decodes (read_scalars q) (scalar_bytes p) (record q {
      mpol = p.mpol;
      ntor = p.ntor;
      nfp = p.nfp;
      ntheta = p.ntheta;
      nzeta = p.nzeta;
      ncurr = p.ncurr;
      delt = p.delt;
      phiedge = p.phiedge;
      pres_scale = p.pres_scale;
      adiabatic_index = p.adiabatic_index;
      spres_ped = p.spres_ped;
      bloat = p.bloat;
      curtor = p.curtor;
      tcon0 = p.tcon0;
      schema = p.schema;
    })
unfolding read_scalars
Decodes-scalars p q h = Decodes-bind _ (Decodes-i32 p.mpol h.mpol) (
    Decodes-bind _ (Decodes-i32 p.ntor h.ntor) (
      Decodes-bind _ (Decodes-i32 p.nfp h.nfp) (
        Decodes-bind _ (Decodes-i32 p.ntheta h.ntheta) (
          Decodes-bind _ (Decodes-i32 p.nzeta h.nzeta) (
            Decodes-bind _ (Decodes-i32 p.ncurr h.ncurr) (
              Decodes-bind _ (Decodes-f64 p.delt) (
                Decodes-bind _ (Decodes-f64 p.phiedge) (
                  Decodes-bind _ (Decodes-f64 p.pres_scale) (
                    Decodes-bind _ (Decodes-f64 p.adiabatic_index) (
                      Decodes-bind _ (Decodes-f64 p.spres_ped) (
                        Decodes-bind _ (Decodes-f64 p.bloat) (
                          Decodes-bind _ (Decodes-f64 p.curtor) (
                            Decodes-bind _ (Decodes-f64 p.tcon0)
                              (Decodes-last _ (Decodes-string p.schema h.schema)))))))))))))))

pub Decodes-profile_types :
    (p q : InputParams)
    → FitsRecord p
    → Decodes (read_profile_types true q) (profile_type_bytes p) (record q {
      pmass_type = p.pmass_type;
      piota_type = p.piota_type;
      pcurr_type = p.pcurr_type;
    })
unfolding read_profile_types
Decodes-profile_types p q h = Decodes-bind _ (Decodes-string p.pmass_type h.pmass_type) (
    Decodes-bind _ (Decodes-string p.piota_type h.piota_type)
      (Decodes-last _ (Decodes-string p.pcurr_type h.pcurr_type)))

pub Decodes-profiles :
    (p q : InputParams)
    → FitsRecord p
    → Decodes (read_profiles q) (profile_bytes p) (record q {
      am = p.am;
      ac = p.ac;
      ai = p.ai;
      aphi = p.aphi;
      raxis_c = p.raxis_c;
      zaxis_s = p.zaxis_s;
    })
unfolding read_profiles
Decodes-profiles p q h = Decodes-bind _ (Decodes-f64_vec p.am h.am) (
    Decodes-bind _ (Decodes-f64_vec p.ac h.ac) (
      Decodes-bind _ (Decodes-f64_vec p.ai h.ai) (
        Decodes-bind _ (Decodes-f64_vec p.aphi h.aphi) (
          Decodes-bind _ (Decodes-f64_vec p.raxis_c h.raxis_c)
            (Decodes-last _ (Decodes-f64_vec p.zaxis_s h.zaxis_s))))))

pub Decodes-boundary_vectors :
    (p q : InputParams)
    → FitsRecord p
    → Decodes (read_boundary_vectors q) (boundary_bytes p) (record q {
      rbc_m = p.rbc_m;
      rbc_n = p.rbc_n;
      rbc_value = p.rbc_value;
      zbs_m = p.zbs_m;
      zbs_n = p.zbs_n;
      zbs_value = p.zbs_value;
      rbcc = p.rbcc;
      rbss = p.rbss;
      zbsc = p.zbsc;
      zbcs = p.zbcs;
    })
unfolding read_boundary_vectors
Decodes-boundary_vectors p q h = Decodes-bind _ (Decodes-i32_vec p.rbc_m h.rbc_m.0 h.rbc_m.1) (
    Decodes-bind _ (Decodes-i32_vec p.rbc_n h.rbc_n.0 h.rbc_n.1) (
      Decodes-bind _ (Decodes-f64_vec p.rbc_value h.rbc_value) (
        Decodes-bind _ (Decodes-i32_vec p.zbs_m h.zbs_m.0 h.zbs_m.1) (
          Decodes-bind _ (Decodes-i32_vec p.zbs_n h.zbs_n.0 h.zbs_n.1) (
            Decodes-bind _ (Decodes-f64_vec p.zbs_value h.zbs_value) (
              Decodes-bind _ (Decodes-f64_vec p.rbcc h.rbcc) (
                Decodes-bind _ (Decodes-f64_vec p.rbss h.rbss) (
                  Decodes-bind _ (Decodes-f64_vec p.zbsc h.zbsc)
                    (Decodes-last _ (Decodes-f64_vec p.zbcs h.zbcs))))))))))

pub Decodes-asymmetric_vectors :
    (p q : InputParams)
    → FitsAsymmetric p
    → Decodes (read_asymmetric_vectors q) (asymmetric_vector_bytes p) (record q {
      raxis_s = p.raxis_s;
      zaxis_c = p.zaxis_c;
      rbs_m = p.rbs_m;
      rbs_n = p.rbs_n;
      rbs_value = p.rbs_value;
      zbc_m = p.zbc_m;
      zbc_n = p.zbc_n;
      zbc_value = p.zbc_value;
      rbsc = p.rbsc;
      rbcs = p.rbcs;
      zbcc = p.zbcc;
      zbss = p.zbss;
    })
unfolding read_asymmetric_vectors
Decodes-asymmetric_vectors p q h = Decodes-bind _ (Decodes-f64_vec p.raxis_s h.raxis_s) (
    Decodes-bind _ (Decodes-f64_vec p.zaxis_c h.zaxis_c) (
      Decodes-bind _ (Decodes-i32_vec p.rbs_m h.rbs_m.0 h.rbs_m.1) (
        Decodes-bind _ (Decodes-i32_vec p.rbs_n h.rbs_n.0 h.rbs_n.1) (
          Decodes-bind _ (Decodes-f64_vec p.rbs_value h.rbs_value) (
            Decodes-bind _ (Decodes-i32_vec p.zbc_m h.zbc_m.0 h.zbc_m.1) (
              Decodes-bind _ (Decodes-i32_vec p.zbc_n h.zbc_n.0 h.zbc_n.1) (
                Decodes-bind _ (Decodes-f64_vec p.zbc_value h.zbc_value) (
                  Decodes-bind _ (Decodes-f64_vec p.rbsc h.rbsc) (
                    Decodes-bind _ (Decodes-f64_vec p.rbcs h.rbcs) (
                      Decodes-bind _ (Decodes-f64_vec p.zbcc h.zbcc)
                        (Decodes-last _ (Decodes-f64_vec p.zbss h.zbss))))))))))))
