-- ===== src/Io/TrailerRead.antt =====
-- The provenance trailer of src/cumes/io/versioned_binary.cpp, as the reader reads that of each
-- version.
use cu_mes.Base.{
  ℕ, zero, suc, Bool, true, false, not, ◌||◌, List, [], ◌∷◌, ℤ, pos, pos_part, ltb_ℤ, eqb_ℤ, leb,
  ◌-◌, ◌==◌, if◌then◌else◌,
}
use cu_mes.Io.Outcome.{
  json_record_unsupported, symmetry_mismatch, truncated_trailer, bad_stage_count, bad_restart_count,
  truncated_restart_list, truncated_stage_record,
}
use cu_mes.Io.File.{Reading, ◌>>=◌, ◌>>◌, pure, with_reason, require}
use cu_mes.Io.Codec.{read_u8, read_i32, read_f64, read_string}
use cu_mes.Io.InputParams.{InputParams, default_input_params}
use cu_mes.Io.InputRecord.Read.{read_input_params}
use cu_mes.Io.Saving.{same_flag}
use cu_mes.Io.Report.{
  RunReport, StageReport, BuildProvenance, InputProvenance, RuntimeProvenance, run_status_of,
  double_name, float_name,
}

-- `v != 0`
abbrev pub is_set_byte : ℕ → Bool
is_set_byte v = not (v == 0)

unfoldable pub read_restarts : ℕ → Reading (List ℤ)
read_restarts zero = pure []
read_restarts (suc left) = do
  r ← with_reason truncated_restart_list read_i32
  rest ← read_restarts left
  pure (r ∷ rest)

-- A stage without its restarts, and their number.
unfoldable pub read_stage_head : Reading (StageReport × ℤ)
read_stage_head = do
  ns ← read_i32
  iterations ← read_i32
  converged ← read_u8
  fsqr ← read_f64
  fsqz ← read_f64
  fsql ← read_f64
  nrestarts ← read_i32
  pure (
    record {
      ns = ns;
      effective_iterations = iterations;
      converged = is_set_byte converged;
      fsqr = fsqr;
      fsqz = fsqz;
      fsql = fsql;
      restarts = [];
    },
    nrestarts,
  )

unfoldable pub read_stage_report : Reading StageReport
read_stage_report = do
  head ← with_reason truncated_stage_record read_stage_head
  require (not (ltb_ℤ head.1 (pos 0))) bad_restart_count
  restarts ← read_restarts (pos_part head.1)
  pure (record head.0 { restarts = restarts })

unfoldable pub read_stage_reports : ℕ → Reading (List StageReport)
read_stage_reports zero = pure []
read_stage_reports (suc left) = do
  st ← read_stage_report
  rest ← read_stage_reports left
  pure (st ∷ rest)

-- The two strings of version 2 and later; version 1 has another one instead, which is dropped.
unfoldable pub read_policy : Bool → Reading (List ℕ × List ℕ)
read_policy true = do policy ← read_string; flags ← read_string; pure (policy, flags)
read_policy false = do legacy ← read_string; pure ([], [])

-- `precision` is the tag that was read.
unfoldable pub read_build : Bool → ℤ → Reading BuildProvenance
read_build has_policy_fields precision = do
  revision ← read_string
  dirty ← read_u8
  build_type ← read_string
  policy ← read_policy has_policy_fields
  pure (record {
    revision = revision;
    dirty = is_set_byte dirty;
    build_type = build_type;
    scalar_type = if eqb_ℤ precision (pos 0) then double_name else float_name;
    precision_policy = policy.0;
    compile_flags = policy.1;
  })

unfoldable pub read_input_provenance : Reading InputProvenance
read_input_provenance = do
  path ← read_string
  hash ← read_string
  pure (record { source_path = path; source_hash = hash })

unfoldable pub read_runtime : Reading RuntimeProvenance
read_runtime = do
  gpu_name ← read_string
  driver ← read_string
  runtime ← read_string
  toolkit ← read_string
  pure (record { gpu_name = gpu_name; driver = driver; runtime = runtime; toolkit = toolkit })

abbrev pub report_has_profile_types : ℕ → Bool
report_has_profile_types version = (version == 4) || leb 7 version

abbrev pub report_extension : ℕ → ℕ
report_extension version = if leb 7 version then 3 else if leb 5 version then version - 3 else 0

-- A record, whose symmetry is that of the state.
unfoldable pub read_embedded_params : ℕ → Bool → Reading InputParams
read_embedded_params version asymmetric = do
  p ←
      read_input_params (report_has_profile_types version) (report_extension version)
        (leb 10 version)
  require (same_flag p.lasym asymmetric) symmetry_mismatch
  pure p

-- Version 3 and later have a record.
unfoldable pub read_report_params : ℕ → Bool → Reading InputParams
read_report_params version asymmetric =
    if leb 3 version then read_embedded_params version asymmetric else pure default_input_params

unfoldable pub read_trailer : ℕ → Bool → Reading RunReport
read_trailer version asymmetric = do
  require (not (version == 9)) json_record_unsupported
  precision ← with_reason truncated_trailer read_i32
  status ← with_reason truncated_trailer read_i32
  total ← with_reason truncated_trailer read_i32
  nstages ← with_reason truncated_trailer read_i32
  build ← with_reason truncated_trailer (read_build (leb 2 version) precision)
  input ← with_reason truncated_trailer read_input_provenance
  runtime ← with_reason truncated_trailer read_runtime
  require (not (ltb_ℤ nstages (pos 0))) bad_stage_count
  stages ← read_stage_reports (pos_part nstages)
  params ← read_report_params version asymmetric
  pure (record {
    status = run_status_of status;
    total_effective_iterations = total;
    stages = stages;
    build = build;
    input = input;
    runtime = runtime;
    input_params = params;
  })
