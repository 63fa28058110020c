-- ===== src/Examples/ConfigExamples.antt =====
-- The sample problem through validation and through the reader.
use Prim.Native.String.{String}
use cu_mes.Base.{
  ◌+◌, ◌*◌, ◌≡◌, ◌≤◌, ◌↔◌, refl, true, false, none, some, List, [], ◌∷◌, ◌++◌, All, length,
  pos_part, arith,
}
use cu_mes.Core.GridShape as Grid
use cu_mes.Config.Spec.{default_problem}
use cu_mes.Config.Precision.{tolerance_achievable, tolerance_floor}
use cu_mes.Config.Profiles.{torflux, eval_power_series, horner}
use cu_mes.Config.Report.{has_errors}
use cu_mes.Config.Checks.{
  check_scalars, check_profile_lengths, check_edge, check_edges, check_steps, check_free_boundary,
  check_axis_vector, check_axes, check_stage, check_stage_list, check_stages,
}
use cu_mes.Config.Folding.{keep_symmetric, keep_asymmetric}
use cu_mes.Config.Acceptable.{IsAcceptable}
use cu_mes.Config.Validate.{
  KeptBoundary, keep_boundary, report_of, normalized, assemble, ValidatedProblem, accepted,
  validate,
}
use cu_mes.Config.Accepted.{accepted_iff}
use cu_mes.Config.Shapes.{IsRising, accepted_shapes}
use cu_mes.Config.Coefficients.{IsFolded}
use cu_mes.Config.Boundary.{HasNoLeast, accepted_boundary}
use cu_mes.Config.ReadAndValidate.{ParsedProblem, map_problem_spec, read_and_validate}
use cu_mes.Config.ReaderLaws.{IsReadable, read_and_validate_iff}
use cu_mes.Config.ReaderInts.{HasInts, map_problem_spec-HasInts}
use cu_mes.Config.Json.{as_object}
use cu_mes.Config.Reader.{unknown_keys}
use cu_mes.Config.Mapping.{map_fields}
use cu_mes.Examples.Fixed.{fixed}
use cu_mes.Examples.ConfigSample.{power_math, of_int64, options, spec, document}

abbrev kept : KeptBoundary fixed
kept = keep_boundary fixed power_math spec

abbrev problem : ValidatedProblem fixed power_math
problem =
    assemble fixed power_math options (normalized fixed power_math spec kept)
      (report_of fixed power_math false options spec kept)

spec_accepted : validate fixed power_math false spec options ≡ accepted problem
unfolding validate report_of keep_boundary has_errors check_scalars check_profile_lengths
    check_edges check_edge check_steps check_free_boundary check_axes check_axis_vector check_stages
    check_stage_list check_stage tolerance_achievable tolerance_floor keep_symmetric keep_asymmetric
    torflux eval_power_series horner default_problem
spec_accepted = refl

accepted_iff_example :
    ((vp : ValidatedProblem fixed power_math) × (validate fixed power_math false spec options
        ≡ accepted vp))
    ↔ IsAcceptable fixed power_math false options spec
accepted_iff_example = accepted_iff fixed power_math false options spec

accepted_shapes_example :
    All (λ g. Grid.validate g ≡ none) problem.stage_shapes
    × IsRising none problem.stage_shapes
    × (length problem.stage_shapes ≡ length spec.stages)
    × (1 ≤ length spec.stages)
accepted_shapes_example = accepted_shapes fixed power_math false options spec problem spec_accepted

spec-HasNoLeast : HasNoLeast fixed spec
spec-HasNoLeast = record {
  rbc = (λ h. cc, (λ h. cc, (λ h. ground (arith, h), (λ h. cc, tt))));
  zbs = (λ h. cc, tt);
}

accepted_boundary_example :
    IsFolded fixed problem.spec problem.boundary 1 1 (1 * (pos_part problem.spec.ntor + 1) + 1)
unfolding assemble normalized
accepted_boundary_example =
    accepted_boundary fixed power_math false options spec problem 1 1 spec-HasNoLeast spec_accepted
      (omega arith) (omega arith)

read_and_validate_iff_example :
    ((vp : ValidatedProblem fixed power_math) × (read_and_validate fixed power_math of_int64 false
          (some document)
          options
        ≡ some (accepted vp)))
    ↔ ((keys : List String) × IsReadable fixed power_math of_int64 false document options keys)
read_and_validate_iff_example =
    read_and_validate_iff fixed power_math of_int64 false document options

abbrev parsed : ParsedProblem fixed
parsed =
    let fields = map_fields fixed of_int64 document (default_problem fixed) in
    record {
      spec = fields.0;
      report = fields.1 ++ unknown_keys true ("mpol" ∷ "ntor" ∷ "rbc" ∷ "zbs" ∷ []);
    }

document_mapped : map_problem_spec fixed of_int64 document options ≡ some parsed
unfolding map_problem_spec as_object
document_mapped = refl

map_problem_spec-HasInts_example : HasInts fixed parsed.spec
map_problem_spec-HasInts_example =
    map_problem_spec-HasInts fixed of_int64 document options parsed document_mapped
