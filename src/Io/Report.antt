-- ===== src/Io/Report.antt =====
-- include/cumes/io/run_report.hpp: the outcome, the stages and the provenance of a run.
use cu_mes.Base.{ℕ, Bool, List, ℤ, ◌%◌}
use cu_mes.Io.Codec.{Double, i32_word}
use cu_mes.Io.InputParams.{InputParams, codes}

-- An enumeration over `std::uint8_t` is its underlying value.
abbrev pub RunStatus : Type 0
RunStatus = ℕ

-- `static_cast<RunStatus>` of a 32-bit number.
unfoldable pub run_status_of : ℤ → RunStatus
run_status_of v = i32_word v % 256

pub record StageReport : Type 0 where
  pub ns : ℤ
  pub effective_iterations : ℤ
  pub converged : Bool
  pub fsqr : Double
  pub fsqz : Double
  pub fsql : Double
  pub restarts : List ℤ

pub record BuildProvenance : Type 0 where
  pub revision : List ℕ
  pub dirty : Bool
  pub build_type : List ℕ
  pub scalar_type : List ℕ
  pub precision_policy : List ℕ
  pub compile_flags : List ℕ

pub record InputProvenance : Type 0 where
  pub source_path : List ℕ
  pub source_hash : List ℕ

pub record RuntimeProvenance : Type 0 where
  pub gpu_name : List ℕ
  pub driver : List ℕ
  pub runtime : List ℕ
  pub toolkit : List ℕ

pub record RunReport : Type 0 where
  pub status : RunStatus
  pub total_effective_iterations : ℤ
  pub stages : List StageReport
  pub build : BuildProvenance
  pub input : InputProvenance
  pub runtime : RuntimeProvenance
  pub input_params : InputParams

abbrev pub double_name : List ℕ
double_name = codes "double"

abbrev pub float_name : List ℕ
float_name = codes "float"
