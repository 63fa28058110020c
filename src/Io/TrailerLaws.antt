-- ===== src/Io/TrailerLaws.antt =====
-- The provenance trailer of src/cumes/io/versioned_binary.cpp: its bytes, and what is read of them.

use cu_mes.Base.{
  ℕ, ◌≤◌, ◌<◌, ◌≡◌, ◌⊎◌, Bool, List, [], ◌∷◌, ◌++◌, append_assoc, length, All, ℤ, pos, IsI32, arith,
}
use cu_mes.Io.Spec.{Writes, Writes-then, Writes-nothing, Writes-fwrite, Writes-regroup}
use cu_mes.Io.Codec.{i32_bytes, f64_bytes, i32s_bytes, write_u8, write_string, int32_max}
use cu_mes.Io.CodecLaws.{string_bytes, Writes-i32, Writes-f64, Writes-string}
use cu_mes.Io.InputRecord.Layout.{FitsString, FitsRecord, record_bytes}
use cu_mes.Io.InputRecord.Written.{FitsExtension, Writes-input_params}
use cu_mes.Io.Report.{
  RunReport, StageReport, BuildProvenance, InputProvenance, RuntimeProvenance, double_name,
  float_name,
}
use cu_mes.Io.Trailer.{
  write_restarts, flag_byte, write_stage_reports, write_provenance, write_trailer,
}

abbrev pub stage_head_bytes : StageReport → List ℕ
stage_head_bytes st =
    i32_bytes st.ns
    ++ (i32_bytes st.effective_iterations
        ++ ((flag_byte st.converged ∷ [])
            ++ (f64_bytes st.fsqr
                ++ (f64_bytes st.fsqz
                    ++ (f64_bytes st.fsql ++ i32_bytes (pos (length st.restarts)))))))

abbrev pub stage_reports_bytes : List StageReport → List ℕ
stage_reports_bytes [] = []
stage_reports_bytes (st ∷ rest) =
    (stage_head_bytes st ++ i32s_bytes st.restarts) ++ stage_reports_bytes rest

abbrev pub build_bytes : BuildProvenance → List ℕ
build_bytes b =
    string_bytes b.revision
    ++ ((flag_byte b.dirty ∷ [])
        ++ (string_bytes b.build_type
            ++ (string_bytes b.precision_policy ++ string_bytes b.compile_flags)))

abbrev pub input_bytes : InputProvenance → List ℕ
input_bytes i = string_bytes i.source_path ++ string_bytes i.source_hash

abbrev pub runtime_bytes : RuntimeProvenance → List ℕ
runtime_bytes t =
    string_bytes t.gpu_name
    ++ (string_bytes t.driver ++ (string_bytes t.runtime ++ string_bytes t.toolkit))

abbrev pub trailer_bytes : ℤ → RunReport → Bool → List ℕ
trailer_bytes tag r asymmetric =
    i32_bytes tag
    ++ (i32_bytes (pos r.status)
        ++ (i32_bytes r.total_effective_iterations
            ++ (i32_bytes (pos (length r.stages))
                ++ (build_bytes r.build
                    ++ (input_bytes r.input
                        ++ (runtime_bytes r.runtime
                            ++ (stage_reports_bytes r.stages
                                ++ record_bytes asymmetric r.input_params)))))))

-- 32-bit numbers, and a list of restarts whose length is one.
pub record FitsStageReport (st : StageReport) : Type 0 where
  pub ns : IsI32 st.ns
  pub effective_iterations : IsI32 st.effective_iterations
  pub restart_count : length st.restarts ≤ int32_max
  pub restarts : All IsI32 st.restarts

-- The texts are within the reader's cap.
pub record FitsTexts (r : RunReport) : Type 0 where
  pub revision : FitsString r.build.revision
  pub build_type : FitsString r.build.build_type
  pub precision_policy : FitsString r.build.precision_policy
  pub compile_flags : FitsString r.build.compile_flags
  pub source_path : FitsString r.input.source_path
  pub source_hash : FitsString r.input.source_hash
  pub gpu_name : FitsString r.runtime.gpu_name
  pub driver : FitsString r.runtime.driver
  pub runtime : FitsString r.runtime.runtime
  pub toolkit : FitsString r.runtime.toolkit

-- A report within the limits of the format.
pub record FitsReport (r : RunReport) : Type 0 where
  pub status : r.status < 256
  pub total : IsI32 r.total_effective_iterations
  pub stage_count : length r.stages ≤ int32_max
  pub stages : All FitsStageReport r.stages
  pub texts : FitsTexts r
  pub scalar_type : (r.build.scalar_type ≡ double_name) ⊎ (r.build.scalar_type ≡ float_name)
  pub input_params : FitsRecord r.input_params

Writes-u8 : (v : ℕ) → Writes (write_u8 v) (v ∷ [])
unfolding write_u8
Writes-u8 v = Writes-fwrite (v ∷ [])

Writes-text : (s : List ℕ) → FitsString s → Writes (write_string s) (string_bytes s)
Writes-text s h = Writes-string s (omega arith)

Writes-restarts : (rs : List ℤ) → Writes (write_restarts rs) (i32s_bytes rs)
unfolding write_restarts i32s_bytes
Writes-restarts [] = Writes-nothing
Writes-restarts (r ∷ rs) = Writes-then (Writes-i32 r) (Writes-restarts rs)

Writes-stage_reports :
    (sts : List StageReport) → Writes (write_stage_reports sts) (stage_reports_bytes sts)
unfolding write_stage_reports
Writes-stage_reports [] = Writes-nothing
Writes-stage_reports (st ∷ sts) =
    Writes-regroup
      (Writes-then (Writes-i32 st.ns) (
        Writes-then (Writes-i32 st.effective_iterations) (
          Writes-then (Writes-u8 (flag_byte st.converged)) (
            Writes-then (Writes-f64 st.fsqr) (
              Writes-then (Writes-f64 st.fsqz) (
                Writes-then (Writes-f64 st.fsql) (
                  Writes-then (Writes-i32 (pos (length st.restarts)))
                    (Writes-then (Writes-restarts st.restarts) (Writes-stage_reports sts)))))))))
      (simp append_assoc)

Writes-provenance :
    (r : RunReport)
    → FitsTexts r
    → Writes
        (write_provenance r)
        (build_bytes r.build ++ (input_bytes r.input ++ runtime_bytes r.runtime))
unfolding write_provenance
Writes-provenance r h =
    Writes-regroup
      (Writes-then (Writes-text r.build.revision h.revision) (
        Writes-then (Writes-u8 (flag_byte r.build.dirty)) (
          Writes-then (Writes-text r.build.build_type h.build_type) (
            Writes-then (Writes-text r.build.precision_policy h.precision_policy) (
              Writes-then (Writes-text r.build.compile_flags h.compile_flags) (
                Writes-then (Writes-text r.input.source_path h.source_path) (
                  Writes-then (Writes-text r.input.source_hash h.source_hash) (
                    Writes-then (Writes-text r.runtime.gpu_name h.gpu_name) (
                      Writes-then (Writes-text r.runtime.driver h.driver) (
                        Writes-then (Writes-text r.runtime.runtime h.runtime)
                          (Writes-text r.runtime.toolkit h.toolkit)))))))))))
      (simp append_assoc)

pub Writes-trailer :
    (tag : ℤ) (r : RunReport) (asymmetric : Bool)
    → FitsReport r
    → FitsExtension asymmetric r.input_params
    → Writes (write_trailer tag r asymmetric) (trailer_bytes tag r asymmetric)
unfolding write_trailer
Writes-trailer tag r asymmetric h x =
    Writes-regroup
      (Writes-then (Writes-i32 tag) (
        Writes-then (Writes-i32 (pos r.status)) (
          Writes-then (Writes-i32 r.total_effective_iterations) (
            Writes-then (Writes-i32 (pos (length r.stages))) (
              Writes-then (Writes-provenance r h.texts) (
                Writes-then (Writes-stage_reports r.stages)
                  (Writes-input_params asymmetric r.input_params h.input_params x)))))))
      (simp append_assoc)
