-- ===== src/Examples/ConfigSample.antt =====
-- A small problem and its JSON document, on the scalar of whole millionths.

use cu_mes.Base.{◌*◌, true, [], ◌∷◌, ℤ, pos, negsuc, pos_part, ltb_ℤ, eqb_ℤ, if◌then◌else◌}
use cu_mes.Config.Spec.{ProblemSpec, BoundaryHarmonic, default_problem}
use cu_mes.Config.Precision.{SolverOptions, verify_double}
use cu_mes.Config.Profiles.{PowerMath}
use cu_mes.Config.Json.{
  Value, int_value, float_value, array_value, object_value, no_items, item, no_fields, entry,
}
use cu_mes.Examples.Fixed.{fixed}

-- A power that is exact for the exponents 0 and 1.
abbrev pub power_math : PowerMath fixed
power_math = record {
  pow = λ x n. if eqb_ℤ n (pos 0) then pos 1000000 else x;
  fmin = λ a b. if ltb_ℤ a b then a else b;
  root_two = pos 1414213;
  of_int = λ n. pos (n * 1000000);
}

-- The conversion of a number that is not negative.
abbrev pub of_int64 : ℤ → ℤ
of_int64 i = pos (pos_part i * 1000000)

abbrev pub options : SolverOptions
options = record { precision = verify_double; strict_schema = true }

abbrev pub harmonic : ℤ → ℤ → ℤ → BoundaryHarmonic fixed
harmonic m n value = record { m = m; n = n; value = value }

-- Three R harmonics, of which two share a mode, one outside the range, and one Z harmonic.
abbrev pub spec : ProblemSpec fixed
spec = record (default_problem fixed) {
  mpol = pos 2;
  ntor = pos 1;
  rbc =
      harmonic (pos 0) (pos 0) (pos 6000000)
      ∷ harmonic (pos 1) (pos 1) (pos 500000)
      ∷ harmonic (pos 1) (negsuc 0) (pos 200000)
      ∷ harmonic (pos 7) (pos 0) (pos 100000)
      ∷ [];
  zbs = harmonic (pos 1) (pos 0) (pos 2000000) ∷ [];
  toroidal_flux = record (default_problem fixed).toroidal_flux { coefficients = pos 1000000 ∷ [] };
  stages =
      record { radial_surfaces = 5; max_iterations = 100; tolerance = pos 10 }
      ∷ record { radial_surfaces = 11; max_iterations = 200; tolerance = pos 1 }
      ∷ [];
}

abbrev mode : ℤ → ℤ → ℤ → Value ℤ
mode m n value = object_value (
    entry "m" (int_value m) (entry "n" (int_value n) (entry "value" (float_value value) no_fields)))

-- A document with a resolution and a boundary.
abbrev pub document : Value ℤ
document = object_value (
    entry "mpol" (int_value (pos 2)) (
      entry "ntor" (int_value (pos 1)) (
        entry "rbc"
          (array_value (
            item (mode (pos 0) (pos 0) (pos 6000000))
              (item (mode (pos 1) (negsuc 0) (pos 200000)) no_items)))
          (entry "zbs" (array_value (item (mode (pos 1) (pos 0) (pos 2000000)) no_items))
            no_fields))))
