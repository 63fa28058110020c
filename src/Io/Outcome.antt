-- ===== src/Io/Outcome.antt =====
-- Results of the reading functions. `err` carries the reason that the source puts in a message.
use cu_mes.Base.{ℤ}

-- The messages of io_common.hpp, checkpoint.cpp and versioned_binary.cpp. `unset` is a failure that
-- leaves the `reason` string empty.
pub data Reason : Type 0 where
  unset : Reason
  bad_component_count bad_dimensions dimension_overflow implausible_dimensions : Reason
  truncated_vector_count vector_count_out_of_range : Reason
  truncated_input_record stage_count_out_of_range truncated_stage_record : Reason
  boundary_lengths_disagree truncated_makegrid malformed_asymmetric_record : Reason
  cannot_open truncated_header bad_magic unsupported_precision : Reason
  unsupported_version : ℤ → Reason
  truncated_component_count truncated_state json_record_unsupported symmetry_mismatch : Reason
  truncated_derived_dimensions bad_derived_dimensions derived_cap_exceeded : Reason
  derived_payload_truncated truncated_half_field truncated_full_field : Reason
  truncated_trailer bad_stage_count bad_restart_count truncated_restart_list : Reason

pub data Outcome {ℓ} (A : Type ℓ) : Type ℓ where
  ok : A → Outcome A
  err : Reason → Outcome A

-- `if (reason.empty()) reason = "…"`
abbrev pub or_reason {ℓ} : {A : Type ℓ} → Reason → Outcome A → Outcome A
or_reason r (ok a) = ok a
or_reason r (err unset) = err r
or_reason r (err e) = err e
