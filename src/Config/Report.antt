-- ===== src/Config/Report.antt =====
-- include/cumes/config/validation_report.hpp and src/cumes/config/validation_report.cpp. A key is the
-- name of an input key, an entry `key[i]` or a field `key.name`. The texts of the messages are
-- constructors.
use Prim.Native.String.{String}
use cu_mes.Base.{
  ℕ, ◌≡◌, refl, Bool, true, false, ◌||◌, List, [], ◌∷◌, ◌++◌, ℤ, if◌then◌else◌, arith,
}
use cu_mes.Config.Precision.{PrecisionPolicy}

pub data Severity : Type 0 where
  error warning : Severity

pub data Key : Type 0 where
  name : String → Key
  entry : Key → ℕ → Key
  field : Key → String → Key

abbrev pub is_error : Severity → Bool
is_error error = true
is_error warning = false

-- `json::ValueCategory` of include/JsonParser.h.
pub data ValueCategory : Type 0 where
  null number_int number_float boolean string array object : ValueCategory
  typed_array_complex_double typed_array_complex_float : ValueCategory

-- The messages of `validate` and of the JSON reader. Texts that differ only by the key, which stands
-- beside them, share a constructor.
pub data Message (T : Type 0) : Type 0 where
  mpol_range ntor_range nfp_range phiedge_not_finite phiedge_zero curtor_not_finite : Message T
  two_power_too_short flux_not_finite flux_zero flux_ill_scaled : Message T
  current_not_finite current_zero current_ill_scaled : Message T
  delt_not_positive ntheta_range nzeta_range adiabatic_index_not_zero nvacskip_range : Message T
  vacuum_field_disabled two_field_sources no_field_source no_coil_currents : Message T
  normalized_by_currents field_periods_differ grid_maximum_too_small : Message T
  too_few_grid_points phi_points_odd : Message T
  axis_length asymmetric_coefficients : Message T
  no_stage ns_range ns_not_increasing niter_range ftol_not_positive : Message T
  ftol_below_floor : T → PrecisionPolicy → Message T
  skipping_mode : ℤ → ℤ → ℤ → ℤ → Message T
  outside_mode_range : ℤ → ℤ → Message T
  coefficient_not_finite no_coefficient : Message T
  expected_integer expected_number expected_boolean expected_string : ValueCategory → Message T
  expected_array expected_harmonics expected_object : ValueCategory → Message T
  integer_out_of_range : ℤ → Message T
  expected_harmonic missing_harmonic_field : Message T
  missing_field unknown_field unknown_key unsupported_profile : String → Message T
  ncurr_range two_makegrid_sources stage_arrays_incomplete stage_length_differs : Message T
  two_power_iota spline_not_supported : Message T
  -- the message about entry `[i]` of the key
  at_entry : ℕ → Message T → Message T

module _ (T : Type 0) where
  pub record Issue : Type 0 where
    pub severity : Severity
    pub key : Key
    pub message : Message T

  abbrev pub Report : Type 0
  Report = List Issue

module _ {T : Type 0} where
  -- The report to which one error, or one warning, is appended.
  abbrev pub report_error : Key → Message T → Report T
  report_error k m = record { severity = error; key = k; message = m } ∷ []

  abbrev pub report_warn : Key → Message T → Report T
  report_warn k m = record { severity = warning; key = k; message = m } ∷ []

  -- `if (test) { report.error(...); }`
  abbrev pub when : Bool → Report T → Report T
  when test issues = if test then issues else []

  unfoldable pub has_errors : Report T → Bool
  has_errors [] = false
  has_errors (i ∷ rest) = if is_error i.severity then true else has_errors rest

  -- `errors()` and `warnings()`
  unfoldable pub messages_of : Bool → Report T → List (Message T)
  messages_of wanted [] = []
  messages_of wanted (i ∷ rest) =
      let found = messages_of wanted rest in
      if is_error i.severity
      then (if wanted then i.message ∷ found else found)
      else (if wanted then found else i.message ∷ found)

  -- A report without errors is one whose parts have none.
  pub has_errors-append :
      (xs ys : Report T) → has_errors (xs ++ ys) ≡ (has_errors xs || has_errors ys)
  unfolding has_errors
  has_errors-append [] ys = refl
  has_errors-append (x ∷ xs) ys = ground (arith, has_errors-append xs ys)

  pub has_errors-when :
      (b : Bool) (k : Key) (m : Message T) → has_errors (when b (report_error k m)) ≡ b
  unfolding has_errors
  has_errors-when true k m = refl
  has_errors-when false k m = refl
