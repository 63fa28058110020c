-- ===== src/Examples/ReportSample.antt =====
-- A state with its real-space fields, and a report of one stage.
use cu_mes.Base.{◌≡◌, ◌≤◌, inl, inr, refl, true, [], ◌∷◌, length, replicate, pos, arith}
use cu_mes.Io.Codec.{zero_double, i32_bytes, le_bytes, f64s_bytes, f64_bytes, i32s_bytes}
use cu_mes.Io.InputParams.{codes, default_input_params}
use cu_mes.Io.Snapshot.{EquilibriumSnapshot, lasym, has_any_derived_fields}
use cu_mes.Io.Publish.{same_path}
use cu_mes.Io.StateLaws.{FitsState}
use cu_mes.Io.DerivedLaws.{FitsDerived}
use cu_mes.Io.DerivedWritten.{FitsFields}
use cu_mes.Io.Report.{RunReport, StageReport, double_name}
use cu_mes.Io.Trailer.{precision_tag_for}
use cu_mes.Io.TrailerLaws.{FitsReport}
use cu_mes.Io.VersionedLaws.{binary_bytes}
use cu_mes.Examples.Sample.{params, params-Fits, state, state-Fits}

-- Two angles on three surfaces.
abbrev pub full_state : EquilibriumSnapshot
full_state = record state {
  ntheta = pos 2;
  nzeta = pos 1;
  half_fields = replicate 7 (replicate 4 zero_double);
  full_fields = replicate 6 (replicate 6 zero_double);
}

pub full_state-Fits : FitsState full_state
full_state-Fits = record {
  ns = state-Fits.ns;
  mnmax = state-Fits.mnmax;
  some_surfaces = state-Fits.some_surfaces;
  some_modes = state-Fits.some_modes;
  family_count = inr refl;
  sizes = state-Fits.sizes;
  bytes = state-Fits.bytes;
}

full_state-FitsFields : FitsFields full_state
full_state-FitsFields = record {
  ns = (omega arith, omega arith);
  ntheta = (omega arith, omega arith);
  nzeta = (omega arith, omega arith);
  two_surfaces = omega arith;
  some_theta = omega arith;
  some_zeta = omega arith;
  half_count = refl;
  full_count = refl;
  half_sizes = (refl, (refl, (refl, (refl, (refl, (refl, (refl, tt)))))));
  full_sizes = (refl, (refl, (refl, (refl, (refl, (refl, tt))))));
  cap = omega arith;
}

pub full_state-FitsDerived : FitsDerived full_state
full_state-FitsDerived = inl full_state-FitsFields

abbrev stage : StageReport
stage = record {
  ns = pos 3;
  effective_iterations = pos 57;
  converged = true;
  fsqr = zero_double;
  fsqz = zero_double;
  fsql = zero_double;
  restarts = pos 12 ∷ pos 40 ∷ [];
}

abbrev pub report : RunReport
report = record {
  status = 0;
  total_effective_iterations = pos 57;
  stages = stage ∷ [];
  build = record {
    revision = codes "abc";
    dirty = true;
    build_type = codes "Release";
    scalar_type = double_name;
    precision_policy = codes "verify-double";
    compile_flags = [];
  };
  input = record { source_path = codes "in.json"; source_hash = [] };
  runtime = record { gpu_name = []; driver = []; runtime = []; toolkit = [] };
  input_params = params;
}

pub report-Fits : FitsReport report
report-Fits = record {
  status = omega arith;
  total = (omega arith, omega arith);
  stage_count = omega arith;
  stages = (
    record {
      ns = (omega arith, omega arith);
      effective_iterations = (omega arith, omega arith);
      restart_count = omega arith;
      restarts = ((omega arith, omega arith), ((omega arith, omega arith), tt));
    },
    tt,
  );
  texts = record {
    revision = omega arith;
    build_type = omega arith;
    precision_policy = omega arith;
    compile_flags = omega arith;
    source_path = omega arith;
    source_hash = omega arith;
    gpu_name = omega arith;
    driver = omega arith;
    runtime = omega arith;
    toolkit = omega arith;
  };
  scalar_type = inl refl;
  input_params = params-Fits;
}

pub report_symmetry : report.input_params.lasym ≡ lasym full_state
report_symmetry = refl

pub binary_has_room : length (binary_bytes full_state report) ≤ 100000
unfolding default_input_params i32_bytes le_bytes f64s_bytes f64_bytes i32s_bytes
    has_any_derived_fields precision_tag_for same_path
binary_has_room = omega arith
