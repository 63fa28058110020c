-- ===== src/Io/InputRecord/Written.antt =====
-- The writer of the input record writes the bytes of its layout.
use cu_mes.Base.{
  ℕ, if◌then◌else◌, Bool, true, false, Option, none, some, List, [], ◌∷◌, ◌++◌, append_assoc,
  length, pos, arith,
}
use cu_mes.Io.File.{write_nothing}
use cu_mes.Io.Spec.{Writes, Writes-then, Writes-nothing, Writes-provided, Writes-regroup}
use cu_mes.Io.Codec.{write_string, i32_bytes, f64_bytes}
use cu_mes.Io.CodecLaws.{
  Writes-i32, Writes-f64, Writes-string, Writes-i32_vec, Writes-f64_vec, string_bytes,
}
use cu_mes.Io.InputParams.{InputParams, InputStage, MakegridParametersSpec}
use cu_mes.Io.InputRecord.Check.{flag}
use cu_mes.Io.InputRecord.Write.{
  write_makegrid_parameters, write_scalars, write_profile_types, write_profiles, write_stages,
  write_boundary, write_embedded, write_free_boundary, write_asymmetric, write_input_params,
}
use cu_mes.Io.InputRecord.Layout.{
  makegrid_bytes, profile_type_bytes, profile_bytes, stage_list_bytes, boundary_bytes,
  embedded_bytes, free_boundary_bytes, asymmetric_bytes, record_bytes, extension_bytes, FitsString,
  FitsRecord, FitsAsymmetric,
}

-- The writer's cap on a string is wider than the reader's.
Writes-short_string : (s : List ℕ) → FitsString s → Writes (write_string s) (string_bytes s)
Writes-short_string s h = Writes-string s (omega arith)

ruleset fields =
    (Writes-then, Writes-i32, Writes-f64, Writes-short_string, Writes-i32_vec, Writes-f64_vec)

Writes-makegrid :
    (p : MakegridParametersSpec) → Writes (write_makegrid_parameters p) (makegrid_bytes p)
unfolding write_makegrid_parameters
Writes-makegrid p = search fields depth 12

Writes-stages : (stages : List InputStage) → Writes (write_stages stages) (stage_list_bytes stages)
unfolding write_stages
Writes-stages [] = Writes-nothing
Writes-stages (st ∷ rest) =
    Writes-regroup
      (Writes-then (Writes-i32 st.ns) (
        Writes-then (Writes-i32 st.max_iter)
          (Writes-then (Writes-f64 st.ftol) (Writes-stages rest))))
      (simp append_assoc)

Writes-embedded : (e : Option MakegridParametersSpec) → Writes (write_embedded e) (embedded_bytes e)
unfolding write_embedded
Writes-embedded none = Writes-i32 (pos 0)
Writes-embedded (some p) = Writes-then (Writes-i32 (pos 1)) (Writes-makegrid p)

-- The numbers in front of the schema tag.
abbrev number_bytes : InputParams → List ℕ
number_bytes p =
    i32_bytes p.mpol
    ++ (i32_bytes p.ntor
        ++ (i32_bytes p.nfp
            ++ (i32_bytes p.ntheta
                ++ (i32_bytes p.nzeta
                    ++ (i32_bytes p.ncurr
                        ++ (f64_bytes p.delt
                            ++ (f64_bytes p.phiedge
                                ++ (f64_bytes p.pres_scale
                                    ++ (f64_bytes p.adiabatic_index
                                        ++ (f64_bytes p.spres_ped
                                            ++ (f64_bytes p.bloat
                                                ++ (f64_bytes p.curtor
                                                    ++ f64_bytes p.tcon0))))))))))))

Writes-numbers : (p : InputParams) → Writes (write_scalars p) (number_bytes p)
unfolding write_scalars
Writes-numbers p = search fields depth 18

Writes-profile_types :
    (p : InputParams) → FitsRecord p → Writes (write_profile_types p) (profile_type_bytes p)
unfolding write_profile_types
Writes-profile_types p h = search fields depth 7

Writes-profiles : (p : InputParams) → FitsRecord p → Writes (write_profiles p) (profile_bytes p)
unfolding write_profiles
Writes-profiles p h = search fields depth 10

Writes-boundary : (p : InputParams) → FitsRecord p → Writes (write_boundary p) (boundary_bytes p)
unfolding write_boundary
Writes-boundary p h = search fields depth 14

Writes-free_boundary :
    (p : InputParams) → FitsRecord p → Writes (write_free_boundary p) (free_boundary_bytes p)
unfolding write_free_boundary
Writes-free_boundary p h =
    Writes-regroup
      (Writes-then (Writes-i32 (flag p.lfreeb)) (
        Writes-then (Writes-i32 p.nvacskip) (
          Writes-then (Writes-short_string p.mgrid_file h.mgrid_file) (
            Writes-then (Writes-f64_vec p.extcur h.extcur) (
              Writes-then (Writes-short_string p.coils_file h.coils_file) (
                Writes-then
                  (Writes-short_string p.makegrid_parameters_file h.makegrid_parameters_file)
                  (Writes-embedded p.embedded_makegrid_parameters)))))))
      (simp append_assoc)

Writes-asymmetric :
    (p : InputParams) → FitsAsymmetric p → Writes (write_asymmetric p) (asymmetric_bytes p)
unfolding write_asymmetric
Writes-asymmetric p h = Writes-provided h.checked (search fields depth 16)

-- A record of the given symmetry; a symmetric one has nothing more to fit.
abbrev pub FitsExtension : Bool → InputParams → Type 0
FitsExtension true p = FitsAsymmetric p
FitsExtension false p = Unit

Writes-extension :
    (asymmetric : Bool) (p : InputParams)
    → FitsExtension asymmetric p
    → Writes
        (if asymmetric then write_asymmetric p else write_nothing)
        (extension_bytes asymmetric p)
Writes-extension true p h = Writes-asymmetric p h
Writes-extension false p h = Writes-nothing

pub Writes-input_params :
    (asymmetric : Bool) (p : InputParams)
    → FitsRecord p
    → FitsExtension asymmetric p
    → Writes (write_input_params p asymmetric) (record_bytes asymmetric p)
unfolding write_input_params
Writes-input_params asymmetric p h x =
    Writes-regroup
      (Writes-then (Writes-numbers p) (
        Writes-then (Writes-short_string p.schema h.schema) (
          Writes-then (Writes-profile_types p h) (
            Writes-then (Writes-profiles p h) (
              Writes-then (Writes-i32 (pos (length p.stages))) (
                Writes-then (Writes-stages p.stages) (
                  Writes-then (Writes-boundary p h) (
                    Writes-then (Writes-free_boundary p h) (Writes-extension asymmetric p x)))))))))
      (simp append_assoc)
