-- ===== src/Io/TrailerBack.antt =====
-- What is read of the bytes of a provenance trailer (src/cumes/io/versioned_binary.cpp).
use mathlib.Core.Path.{ap₂}
use cu_mes.Base.{
  ℕ, ◌<◌, ◌≡◌, refl, ap, subst, Bool, true, false, not, List, [], ◌∷◌, ◌++◌, append-nil, length,
  All, ℤ, pos, IsI32, eqb_ℤ, leb, ◌==◌, if◌then◌else◌, arith,
}
use cu_mes.Io.Spec.{
  Decodes, Decodes-bind, Decodes-last, Decodes-pure, Decodes-fread, Decodes-with_reason,
  Decodes-require, Decodes-regroup,
}
use cu_mes.Io.Codec.{i32s_bytes, i32_word, read_u8, bytes_u8}
use cu_mes.Io.CodecLaws.{string_bytes, Decodes-i32, Decodes-f64, Decodes-string}
use cu_mes.Io.InputRecord.Layout.{FitsRecord, record_bytes}
use cu_mes.Io.InputRecord.Written.{FitsExtension}
use cu_mes.Io.InputRecord.RoundTrip.{stored_part, Decodes-input_params}
use cu_mes.Io.Report.{RunReport, StageReport, run_status_of, double_name, float_name}
use cu_mes.Io.Trailer.{flag_byte}
use cu_mes.Io.TrailerRead.{
  is_set_byte, read_restarts, read_stage_head, read_stage_report, read_stage_reports, read_policy,
  read_build, read_input_provenance, read_runtime,
}
use cu_mes.Io.TrailerLaws.{
  stage_head_bytes, stage_reports_bytes, build_bytes, input_bytes, runtime_bytes, trailer_bytes,
  FitsStageReport, FitsTexts, FitsReport,
}
use cu_mes.Io.TrailerRead.{read_embedded_params, read_report_params, read_trailer}
use cu_mes.Io.SavingLaws.{same_flag_of_eq}
use cu_mes.Io.CheckpointLaws.{lasym-stored_part}
use cu_mes.Io.VersionedBinary.{binary_version_for}

is_set_byte-flag_byte : (b : Bool) → is_set_byte (flag_byte b) ≡ b
is_set_byte-flag_byte true = refl
is_set_byte-flag_byte false = refl

Decodes-u8 : (v : ℕ) → Decodes read_u8 (v ∷ []) v
unfolding read_u8 bytes_u8
Decodes-u8 v = Decodes-last _ (Decodes-fread (v ∷ []))

Decodes-restarts :
    (rs : List ℤ) → All IsI32 rs → Decodes (read_restarts (length rs)) (i32s_bytes rs) rs
unfolding read_restarts i32s_bytes
Decodes-restarts [] h = Decodes-pure []
Decodes-restarts (r ∷ rs) h =
    Decodes-bind _ (Decodes-with_reason _ (Decodes-i32 r h.0))
      (Decodes-last _ (Decodes-restarts rs h.1))

Decodes-stage_head :
    (st : StageReport)
    → FitsStageReport st
    → Decodes read_stage_head
        (stage_head_bytes st)
        (record st { restarts = [] }, pos (length st.restarts))
unfolding read_stage_head
Decodes-stage_head st h =
    subst (Decodes _ (stage_head_bytes st))
      (ap (λ b. (record st { converged = b; restarts = [] }, pos (length st.restarts)))
        (is_set_byte-flag_byte st.converged))
      (Decodes-bind _ (Decodes-i32 st.ns h.ns) (
        Decodes-bind _ (Decodes-i32 st.effective_iterations h.effective_iterations) (
          Decodes-bind _ (Decodes-u8 (flag_byte st.converged)) (
            Decodes-bind _ (Decodes-f64 st.fsqr) (
              Decodes-bind _ (Decodes-f64 st.fsqz) (
                Decodes-bind _ (Decodes-f64 st.fsql) (
                  Decodes-last _ (
                    Decodes-i32 (pos (length st.restarts))
                      (omega (arith, h.restart_count), omega arith)))))))))

Decodes-stage_report :
    (st : StageReport)
    → FitsStageReport st
    → Decodes read_stage_report (stage_head_bytes st ++ i32s_bytes st.restarts) st
unfolding read_stage_report
Decodes-stage_report st h =
    Decodes-bind _ (Decodes-with_reason _ (Decodes-stage_head st h)) (
      Decodes-require _ _ (ground arith) (Decodes-last _ (Decodes-restarts st.restarts h.restarts)))

Decodes-stage_reports :
    (sts : List StageReport)
    → All FitsStageReport sts
    → Decodes (read_stage_reports (length sts)) (stage_reports_bytes sts) sts
unfolding read_stage_reports
Decodes-stage_reports [] h = Decodes-pure []
Decodes-stage_reports (st ∷ sts) h =
    Decodes-bind _ (Decodes-stage_report st h.0) (Decodes-last _ (Decodes-stage_reports sts h.1))

module _ (r : RunReport) (h : FitsTexts r) where
  Decodes-policy :
      Decodes
        (read_policy true)
        (string_bytes r.build.precision_policy ++ string_bytes r.build.compile_flags)
        (r.build.precision_policy, r.build.compile_flags)
  unfolding read_policy
  Decodes-policy =
      Decodes-bind _ (Decodes-string r.build.precision_policy h.precision_policy)
        (Decodes-last _ (Decodes-string r.build.compile_flags h.compile_flags))

  Decodes-build :
      (precision : ℤ)
      → (if eqb_ℤ precision (pos 0) then double_name else float_name) ≡ r.build.scalar_type
      → Decodes (read_build true precision) (build_bytes r.build) r.build
  unfolding read_build
  Decodes-build precision e =
      subst (Decodes _ (build_bytes r.build))
        (ap₂ (λ d t. record r.build { dirty = d; scalar_type = t })
          (is_set_byte-flag_byte r.build.dirty) e)
        (Decodes-bind _ (Decodes-string r.build.revision h.revision) (
          Decodes-bind _ (Decodes-u8 (flag_byte r.build.dirty)) (
            Decodes-bind _ (Decodes-string r.build.build_type h.build_type)
              (Decodes-last _ Decodes-policy))))

  Decodes-input : Decodes read_input_provenance (input_bytes r.input) r.input
  unfolding read_input_provenance
  Decodes-input =
      Decodes-bind _ (Decodes-string r.input.source_path h.source_path)
        (Decodes-last _ (Decodes-string r.input.source_hash h.source_hash))

  Decodes-runtime : Decodes read_runtime (runtime_bytes r.runtime) r.runtime
  unfolding read_runtime
  Decodes-runtime = Decodes-bind _ (Decodes-string r.runtime.gpu_name h.gpu_name) (
      Decodes-bind _ (Decodes-string r.runtime.driver h.driver) (
        Decodes-bind _ (Decodes-string r.runtime.runtime h.runtime)
          (Decodes-last _ (Decodes-string r.runtime.toolkit h.toolkit))))

Decodes-report_params :
    (b : Bool) (r : RunReport)
    → r.input_params.lasym ≡ b
    → FitsRecord r.input_params
    → FitsExtension b r.input_params
    → Decodes
        (read_report_params (binary_version_for b) b)
        (record_bytes b r.input_params)
        (stored_part b r.input_params)
unfolding read_report_params read_embedded_params
Decodes-report_params true r e h x =
    Decodes-regroup
      (Decodes-bind _ (Decodes-input_params true r.input_params h x)
        (Decodes-require _ _ (same_flag_of_eq e refl) (Decodes-pure _)))
      (append-nil _)
Decodes-report_params false r e h x =
    Decodes-regroup
      (Decodes-bind _ (Decodes-input_params false r.input_params h x) (
        Decodes-require _ _ (same_flag_of_eq (lasym-stored_part false r.input_params e) refl)
          (Decodes-pure _)))
      (append-nil _)

run_status_of-pos : (n : ℕ) → n < 256 → run_status_of (pos n) ≡ n
unfolding run_status_of i32_word
run_status_of-pos n h = omega arith

-- The part of a report that the container of a state with the given symmetry holds.
abbrev pub report_part : Bool → RunReport → RunReport
report_part b r = record r { input_params = stored_part b r.input_params }

current_version :
    (b : Bool) → (not (binary_version_for b == 9) ≡ true) × (leb 2 (binary_version_for b) ≡ true)
current_version true = (refl, refl)
current_version false = (refl, refl)

pub Decodes-trailer :
    (b : Bool) (r : RunReport) (tag : ℤ)
    → IsI32 tag
    → (if eqb_ℤ tag (pos 0) then double_name else float_name) ≡ r.build.scalar_type
    → r.input_params.lasym ≡ b
    → FitsReport r
    → FitsExtension b r.input_params
    → Decodes (read_trailer (binary_version_for b) b) (trailer_bytes tag r b) (report_part b r)
unfolding read_trailer
Decodes-trailer b r tag small name same h x =
    subst (Decodes _ (trailer_bytes tag r b))
      (ap (λ (n : ℕ). record (report_part b r) { status = n })
        (run_status_of-pos r.status h.status))
      (Decodes-require _ _ ((current_version b).0) (
        Decodes-bind _ (Decodes-with_reason _ (Decodes-i32 tag small)) (
          Decodes-bind _
            (Decodes-with_reason _
              (Decodes-i32 (pos r.status) (omega (arith, h.status), omega arith)))
            (Decodes-bind _
              (Decodes-with_reason _ (Decodes-i32 r.total_effective_iterations h.total))
              (Decodes-bind _
                (Decodes-with_reason _
                  (Decodes-i32 (pos (length r.stages)) (omega (arith, h.stage_count), omega arith)))
                (Decodes-bind _
                  (Decodes-with_reason _
                    (rw ((current_version b).1) (Decodes-build r h.texts tag name)))
                  (Decodes-bind _ (Decodes-with_reason _ (Decodes-input r h.texts)) (
                    Decodes-bind _ (Decodes-with_reason _ (Decodes-runtime r h.texts)) (
                      Decodes-require _ _ (ground arith) (
                        Decodes-bind _ (Decodes-stage_reports r.stages h.stages) (
                          Decodes-last _
                            (Decodes-report_params b r same h.input_params x))))))))))))
