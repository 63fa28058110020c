-- ===== src/Config/ReadAndValidate.antt =====
-- `map_problem_spec` as a whole, and `read_and_validate`, of src/cumes/config/json_reader.cpp. The
-- document comes from `json::parse_file` of include/JsonParser.h: nothing where that throws.

use cu_mes.Base.{Bool, Option, none, some, [], ◌∷◌, ◌++◌, ℤ, if◌then◌else◌}
use cu_mes.Solver.Scalar.{Scalar}
use cu_mes.Config.Spec.{ProblemSpec, default_problem}
use cu_mes.Config.Precision.{SolverOptions}
use cu_mes.Config.Profiles.{PowerMath}
use cu_mes.Config.Report.{Report, is_error, has_errors}
use cu_mes.Config.Json.{Value, as_object}
use cu_mes.Config.Reader.{unknown_keys}
use cu_mes.Config.Mapping.{map_fields}
use cu_mes.Config.Validate.{ValidatedProblem, ValidationResult, accepted, rejected, validate}

pub record ParsedProblem (s : Scalar) : Type 0 where
  pub spec : ProblemSpec s
  pub report : Report s.T

module _ (s : Scalar) (of_int64 : ℤ → s.T) where
  open s use {T}

  -- `none` is the exception about a document that is no object.
  unfoldable pub map_problem_spec : Value T → SolverOptions → Option (ParsedProblem s)
  map_problem_spec root options = elim (as_object root) [
    | none ↦ none
    | some keys ↦
        let fields = map_fields s of_int64 root (default_problem s) in
        some
          (record { spec = fields.0; report = fields.1 ++ unknown_keys options.strict_schema keys })
  ]

module _ {T : Type 0} where
  -- The loop that carries the warnings of the mapping over into the model.
  unfoldable pub warnings_in : Report T → Report T
  warnings_in [] = []
  warnings_in (i ∷ rest) =
      let found = warnings_in rest in if is_error i.severity then found else i ∷ found

module _ (s : Scalar) (math : PowerMath s) where
  open s use {T}

  unfoldable pub add_warnings : ValidatedProblem s math → Report T → ValidatedProblem s math
  add_warnings vp issues = record vp { warnings = vp.warnings ++ warnings_in issues }

  unfoldable pub merge : Report T → ValidationResult s math → ValidationResult s math
  merge report (accepted vp) =
      if has_errors report then rejected report else accepted (add_warnings vp report)
  merge report (rejected issues) = rejected (report ++ issues)

  -- `none` is an exception.
  unfoldable pub read_and_validate :
      (ℤ → T) → Bool → Option (Value T) → SolverOptions → Option (ValidationResult s math)
  read_and_validate of_int64 disabled none options = none
  read_and_validate of_int64 disabled (some root) options =
      elim (map_problem_spec s of_int64 root options) [
        | none ↦ none
        | some parsed ↦ some (merge parsed.report (validate s math disabled parsed.spec options))
      ]
