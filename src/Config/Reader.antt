-- ===== src/Config/Reader.antt =====
-- src/cumes/config/json_reader.cpp: the keys, the fields of an object, and
-- `read_makegrid_parameters`.
use Prim.Native.String.{String}
use text.Mathlib.Text as Text
use cu_mes.Base.{
  Bool, true, false, ◌||◌, not, Option, none, some, List, [], ◌∷◌, ◌++◌, ℤ, if◌then◌else◌,
}
use cu_mes.Solver.Scalar.{Scalar}
use cu_mes.Config.Spec.{BoundaryHarmonic, MakegridParametersSpec, default_makegrid_parameters}
use cu_mes.Config.Report.{
  Key, name, field, expected_object, missing_field, unknown_field, unknown_key, Report,
  report_error, report_warn, when,
}
use cu_mes.Config.Json.{Value, value_category, find, as_object}
use cu_mes.Config.Reading.{
  Reading, ◌>>=◌, pure, get_int, get_double, get_bool, get_string, read_double_array, read_boundary,
  if_present,
}

unfoldable pub supported_keys : List String
supported_keys =
    "mpol" ∷ "ntor" ∷ "nfp" ∷ "ntheta" ∷ "nzeta" ∷ "ncurr" ∷ "delt" ∷ "phiedge" ∷ "pres_scale"
    ∷ "adiabatic_index" ∷ "gamma" ∷ "spres_ped" ∷ "curtor" ∷ "bloat" ∷ "tcon0" ∷ "am" ∷ "ac" ∷ "ai"
    ∷ "aphi" ∷ "raxis_c" ∷ "zaxis_s" ∷ "ns_array" ∷ "niter_array" ∷ "ftol_array" ∷ "rbc" ∷ "zbs"
    ∷ "lasym" ∷ "lfreeb" ∷ "pmass_type" ∷ "piota_type" ∷ "pcurr_type" ∷ "am_aux_s" ∷ "am_aux_f"
    ∷ "ai_aux_s" ∷ "ai_aux_f" ∷ "ac_aux_s" ∷ "ac_aux_f" ∷ "raxis_s" ∷ "zaxis_c" ∷ "rbs" ∷ "zbc"
    ∷ "mgrid_file" ∷ "coils_file" ∷ "makegrid_parameters_file" ∷ "makegrid_parameters" ∷ "extcur"
    ∷ "nvacskip" ∷ []

unfoldable pub known_ignored_keys : List String
known_ignored_keys =
    "nstep" ∷ "niter" ∷ "ftolv" ∷ "nsurf" ∷ "tsw" ∷ "tpot" ∷ "tvac" ∷ "lforbal" ∷ "lmorebdy"
    ∷ "lrecon" ∷ "lmove_axis" ∷ "lthreed" ∷ "lpoloidal" ∷ "nthreed" ∷ "npoloidal" ∷ "nlambda"
    ∷ "lspectral" ∷ "lcheck" ∷ "lpsplot" ∷ "lwout" ∷ "lmask" ∷ "nedge" ∷ "nskip"
    ∷ "free_boundary_method" ∷ []

unfoldable pub contains_key : String → List String → Bool
contains_key k [] = false
contains_key k (j ∷ rest) = Text.◌==◌ j k || contains_key k rest

unfoldable pub is_known : String → Bool
unfolding contains_key
is_known k = contains_key k supported_keys || contains_key k known_ignored_keys

-- The fields of the Makegrid object, in the order of the `std::set` that holds them.
abbrev pub makegrid_fields : List String
makegrid_fields =
    "assume_stellarator_symmetry" ∷ "normalize_by_currents" ∷ "number_of_field_periods"
    ∷ "number_of_phi_grid_points" ∷ "number_of_r_grid_points" ∷ "number_of_z_grid_points"
    ∷ "r_grid_maximum" ∷ "r_grid_minimum" ∷ "z_grid_maximum" ∷ "z_grid_minimum" ∷ []

abbrev pub is_present : {T : Type 0} → Option (Value T) → Bool
is_present none = false
is_present (some v) = true

module _ {T : Type 0} where
  unfoldable pub missing_fields : Key → Value T → List String → Report T
  missing_fields key value [] = []
  missing_fields key value (f ∷ rest) =
      when (not (is_present (find f value))) (report_error (field key f) (missing_field f))
      ++ missing_fields key value rest

  unfoldable pub unknown_fields : Key → List String → Report T
  unfolding contains_key
  unknown_fields key [] = []
  unknown_fields key (f ∷ rest) =
      when (not (contains_key f makegrid_fields)) (report_error (field key f) (unknown_field f))
      ++ unknown_fields key rest

  -- The loop over the keys of the document: an unknown key is an error if the schema is strict.
  unfoldable pub unknown_keys : Bool → List String → Report T
  unknown_keys strict [] = []
  unknown_keys strict (k ∷ rest) =
      when (not (is_known k)) (
        if strict
        then report_error (name k) (unknown_key k)
        else report_warn (name k) (unknown_key k))
      ++ unknown_keys strict rest

module _ (s : Scalar) (of_int64 : ℤ → s.T) where
  open s use {T}

  unfoldable pub int_field : Value T → Key → String → ℤ → Reading T ℤ
  int_field root key f a = if_present s root f a (λ v. get_int s v key a)

  unfoldable pub double_field : Value T → Key → String → T → Reading T T
  double_field root key f a = if_present s root f a (λ v. get_double s of_int64 v key a)

  unfoldable pub bool_field : Value T → Key → String → Bool → Reading T Bool
  bool_field root key f a = if_present s root f a (λ v. get_bool s v key a)

  unfoldable pub string_field : Value T → Key → String → String → Reading T String
  string_field root key f a = if_present s root f a (λ v. get_string s v key a)

  unfoldable pub doubles_field : Value T → String → List T → Reading T (List T)
  doubles_field root f a = if_present s root f a (λ v. read_double_array s of_int64 v (name f))

  unfoldable pub harmonics_field :
      Value T → String → List (BoundaryHarmonic s) → Reading T (List (BoundaryHarmonic s))
  harmonics_field root f a = if_present s root f a (λ v. read_boundary s of_int64 v (name f))

  unfoldable pub read_makegrid_fields :
      Value T → Key → MakegridParametersSpec s → Reading T (MakegridParametersSpec s)
  read_makegrid_fields value key p = do
    normalize ←
        bool_field value (field key "normalize_by_currents") "normalize_by_currents"
          p.normalize_by_currents
    symmetry ←
        bool_field value (field key "assume_stellarator_symmetry") "assume_stellarator_symmetry"
          p.assume_stellarator_symmetry
    periods ←
        int_field value (field key "number_of_field_periods") "number_of_field_periods"
          p.number_of_field_periods
    r_min ← double_field value (field key "r_grid_minimum") "r_grid_minimum" p.r_grid_minimum
    r_max ← double_field value (field key "r_grid_maximum") "r_grid_maximum" p.r_grid_maximum
    r_points ←
        int_field value (field key "number_of_r_grid_points") "number_of_r_grid_points"
          p.number_of_r_grid_points
    z_min ← double_field value (field key "z_grid_minimum") "z_grid_minimum" p.z_grid_minimum
    z_max ← double_field value (field key "z_grid_maximum") "z_grid_maximum" p.z_grid_maximum
    z_points ←
        int_field value (field key "number_of_z_grid_points") "number_of_z_grid_points"
          p.number_of_z_grid_points
    phi_points ←
        int_field value (field key "number_of_phi_grid_points") "number_of_phi_grid_points"
          p.number_of_phi_grid_points
    pure (record {
      normalize_by_currents = normalize;
      assume_stellarator_symmetry = symmetry;
      number_of_field_periods = periods;
      r_grid_minimum = r_min;
      r_grid_maximum = r_max;
      number_of_r_grid_points = r_points;
      z_grid_minimum = z_min;
      z_grid_maximum = z_max;
      number_of_z_grid_points = z_points;
      number_of_phi_grid_points = phi_points;
    })

  unfoldable pub read_makegrid_parameters : Value T → Key → Reading T (MakegridParametersSpec s)
  read_makegrid_parameters value key = elim (as_object value) [
    | none ↦
        (default_makegrid_parameters s, report_error key (expected_object (value_category value)))
    | some keys ↦
        let fields = read_makegrid_fields value key (default_makegrid_parameters s) in
        (
          fields.0,
          missing_fields key value makegrid_fields ++ (unknown_fields key keys ++ fields.1),
        )
  ]
