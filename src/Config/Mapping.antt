-- ===== src/Config/Mapping.antt =====
-- `map_problem_spec` of src/cumes/config/json_reader.cpp, cut into its blocks: each takes the problem
-- as read so far. The order of the issues is that of the source.
use Prim.Native.String.{String}
use text.Mathlib.Text as Text
use cu_mes.Base.{
  Bool, true, false, ◌||◌, ◌&&◌, not, none, some, List, [], ◌∷◌, ◌++◌, length, ℤ, pos, pos_part,
  eqb_ℤ, ◌==◌, if◌then◌else◌,
}
use cu_mes.Solver.Scalar.{Scalar}
use cu_mes.Config.Spec.{
  fixed_iota, prescribed_current, ProfileType, power_series, two_power, StageRequest, ProblemSpec,
  default_stage,
}
use cu_mes.Config.Report.{
  name, expected_array, unsupported_profile, ncurr_range, two_makegrid_sources,
  stage_arrays_incomplete, stage_length_differs, two_power_iota, spline_not_supported, Report,
  report_error, report_warn, when,
}
use cu_mes.Config.Checks.{is_empty}
use cu_mes.Config.Json.{Value, value_category, find, as_array}
use cu_mes.Config.Reading.{
  Reading, ◌>>=◌, pure, get_int, get_string, read_int_array, read_double_array, if_present,
}
use cu_mes.Config.Reader.{
  is_present, int_field, double_field, bool_field, string_field, doubles_field, harmonics_field,
  read_makegrid_parameters,
}

module _ (s : Scalar) (of_int64 : ℤ → s.T) where
  open s use {T}

  abbrev root_int : Value T → String → ℤ → Reading T ℤ
  root_int root f a = int_field s of_int64 root (name f) f a

  abbrev root_double : Value T → String → T → Reading T T
  root_double root f a = double_field s of_int64 root (name f) f a

  abbrev root_bool : Value T → String → Bool → Reading T Bool
  root_bool root f a = bool_field s of_int64 root (name f) f a

  abbrev root_string : Value T → String → String → Reading T String
  root_string root f a = string_field s of_int64 root (name f) f a

  unfoldable pub read_resolution : Value T → ProblemSpec s → Reading T (ProblemSpec s)
  read_resolution root p = do
    mpol ← root_int root "mpol" p.mpol
    ntor ← root_int root "ntor" p.ntor
    nfp ← root_int root "nfp" p.nfp
    ntheta ← root_int root "ntheta" p.angular.ntheta
    nzeta ← root_int root "nzeta" p.angular.nzeta
    pure (record p {
      mpol = mpol;
      ntor = ntor;
      nfp = nfp;
      angular = record { ntheta = ntheta; nzeta = nzeta };
    })

  -- `ncurr`: 0 or 1
  unfoldable pub current_model_of : ProblemSpec s → ℤ → Reading T (ProblemSpec s)
  current_model_of p nc =
      if eqb_ℤ nc (pos 0)
      then pure (record p { current_model = fixed_iota })
      else if eqb_ℤ nc (pos 1)
      then pure (record p { current_model = prescribed_current })
      else (p, report_error (name "ncurr") ncurr_range)

  unfoldable pub read_current_model : Value T → ProblemSpec s → Reading T (ProblemSpec s)
  unfolding current_model_of
  read_current_model root p =
      if_present s root "ncurr" p λ v. get_int s v (name "ncurr") (pos 0) >>= current_model_of p

  -- `adiabatic_index`, or else `gamma`.
  unfoldable pub read_gamma : Value T → T → Reading T T
  read_gamma root a =
      if is_present (find "adiabatic_index" root)
      then root_double root "adiabatic_index" a
      else root_double root "gamma" a

  unfoldable pub read_physical : Value T → ProblemSpec s → Reading T (ProblemSpec s)
  read_physical root p = do
    delt ← root_double root "delt" p.delt
    phiedge ← root_double root "phiedge" p.physical.phiedge
    pres_scale ← root_double root "pres_scale" p.physical.pres_scale
    gamma ← read_gamma root p.physical.adiabatic_index
    spres_ped ← root_double root "spres_ped" p.physical.spres_ped
    curtor ← root_double root "curtor" p.physical.curtor
    bloat ← root_double root "bloat" p.physical.bloat
    tcon0 ← root_double root "tcon0" p.physical.tcon0
    pure (record p {
      delt = delt;
      physical = record {
        phiedge = phiedge;
        pres_scale = pres_scale;
        adiabatic_index = gamma;
        spres_ped = spres_ped;
        bloat = bloat;
        curtor = curtor;
        tcon0 = tcon0;
      };
    })

  unfoldable pub read_free_boundary : Value T → ProblemSpec s → Reading T (ProblemSpec s)
  read_free_boundary root p = do
    lfreeb ← root_bool root "lfreeb" p.free_boundary.lfreeb
    mgrid ← root_string root "mgrid_file" p.free_boundary.mgrid_file
    coils ← root_string root "coils_file" p.free_boundary.coils_file
    file ← root_string root "makegrid_parameters_file" p.free_boundary.makegrid_parameters_file
    embedded ←
        if_present s root "makegrid_parameters" p.free_boundary.embedded_makegrid_parameters λ v.
          read_makegrid_parameters s of_int64 v (name "makegrid_parameters") >>= λ m. pure (some m)
    _ ← (
      tt {0},
      when
          (is_present (find "makegrid_parameters_file" root)
            && is_present (find "makegrid_parameters" root))
          (report_warn (name "makegrid_parameters") two_makegrid_sources),
    )
    extcur ← doubles_field s of_int64 root "extcur" p.free_boundary.extcur
    nvacskip ← root_int root "nvacskip" p.free_boundary.nvacskip
    pure (record p {
      free_boundary = record {
        lfreeb = lfreeb;
        mgrid_file = mgrid;
        coils_file = coils;
        makegrid_parameters_file = file;
        embedded_makegrid_parameters = embedded;
        extcur = extcur;
        nvacskip = nvacskip;
      };
    })

  -- The coefficients, where an absent `aphi` is the constant 1, and the axis with its flags.
  unfoldable pub read_profiles : Value T → ProblemSpec s → Reading T (ProblemSpec s)
  read_profiles root p = do
    am ← doubles_field s of_int64 root "am" p.mass.coefficients
    ac ← doubles_field s of_int64 root "ac" p.current.coefficients
    ai ← doubles_field s of_int64 root "ai" p.iota.coefficients
    aphi ← doubles_field s of_int64 root "aphi" (s.one ∷ [])
    raxis_c ← doubles_field s of_int64 root "raxis_c" p.raxis_c
    zaxis_s ← doubles_field s of_int64 root "zaxis_s" p.zaxis_s
    pure (record p {
      mass = record p.mass { coefficients = am };
      current = record p.current { coefficients = ac };
      iota = record p.iota { coefficients = ai };
      toroidal_flux = record p.toroidal_flux { coefficients = aphi };
      raxis_c = raxis_c;
      zaxis_s = zaxis_s;
      has_raxis_c = is_present (find "raxis_c" root);
      has_zaxis_s = is_present (find "zaxis_s" root);
    })

  -- The requests up to the shortest of the three arrays, negative entries as 0.
  unfoldable pub zip_stages : List ℤ → List ℤ → List T → List (StageRequest s)
  zip_stages (n ∷ ns) (i ∷ niter) (f ∷ ftol) =
      record { radial_surfaces = pos_part n; max_iterations = pos_part i; tolerance = f }
      ∷ zip_stages ns niter ftol
  zip_stages ns niter ftol = []

  unfoldable pub read_stage_arrays : Value T → Value T → Value T → Reading T (List (StageRequest s))
  read_stage_arrays ns_value niter_value ftol_value = do
    ns ← read_int_array s ns_value (name "ns_array")
    niter ← read_int_array s niter_value (name "niter_array")
    ftol ← read_double_array s of_int64 ftol_value (name "ftol_array")
    (
      zip_stages ns niter ftol,
      when (not (length niter == length ns))
            (report_error (name "niter_array") stage_length_differs)
          ++ when (not (length ftol == length ns))
              (report_error (name "ftol_array") stage_length_differs),
    )

  -- All of the three arrays or none of them.
  unfoldable pub read_stages : Value T → ProblemSpec s → Reading T (ProblemSpec s)
  read_stages root p = do
    stages ← elim (find "ns_array" root) [
      | none ↦
          if is_present (find "niter_array" root) || is_present (find "ftol_array" root)
          then ([], report_error (name "ns_array") stage_arrays_incomplete)
          else pure (default_stage s ∷ [])
      | some ns ↦ elim (find "niter_array" root) [
        | none ↦ ([], report_error (name "ns_array") stage_arrays_incomplete)
        | some niter ↦ elim (find "ftol_array" root) [
          | none ↦ ([], report_error (name "ns_array") stage_arrays_incomplete)
          | some ftol ↦ read_stage_arrays ns niter ftol
        ]
      ]
    ]
    pure (record p { stages = p.stages ++ stages })

  unfoldable pub read_boundary_keys : Value T → ProblemSpec s → Reading T (ProblemSpec s)
  read_boundary_keys root p = do
    rbc ← harmonics_field s of_int64 root "rbc" p.rbc
    zbs ← harmonics_field s of_int64 root "zbs" p.zbs
    lasym ← root_bool root "lasym" false
    raxis_s ← doubles_field s of_int64 root "raxis_s" p.raxis_s
    zaxis_c ← doubles_field s of_int64 root "zaxis_c" p.zaxis_c
    rbs ← harmonics_field s of_int64 root "rbs" p.rbs
    zbc ← harmonics_field s of_int64 root "zbc" p.zbc
    pure (record p {
      rbc = rbc;
      zbs = zbs;
      lasym = lasym;
      raxis_s = raxis_s;
      zaxis_c = zaxis_c;
      has_raxis_s = is_present (find "raxis_s" root);
      has_zaxis_c = is_present (find "zaxis_c" root);
      rbs = rbs;
      zbc = zbc;
    })

  unfoldable pub profile_type_of : String → Bool → String → ProfileType → Reading T ProfileType
  profile_type_of key two_power_allowed v out =
      if Text.◌==◌ v "power_series"
      then pure power_series
      else if Text.◌==◌ v "two_power"
      then (if two_power_allowed
          then pure two_power
          else (out, report_error (name key) two_power_iota))
      else (out, report_error (name key) (unsupported_profile v))

  unfoldable pub read_profile_type : Value T → String → Bool → ProfileType → Reading T ProfileType
  read_profile_type root key two_power_allowed out = if_present s root key out λ v.
      get_string s v (name key) "power_series" >>= λ t. profile_type_of key two_power_allowed t out

  unfoldable pub read_profile_types : Value T → ProblemSpec s → Reading T (ProblemSpec s)
  read_profile_types root p = do
    mass ← read_profile_type root "pmass_type" true p.mass.type_of
    iota ← read_profile_type root "piota_type" false p.iota.type_of
    current ← read_profile_type root "pcurr_type" true p.current.type_of
    pure (record p {
      mass = record p.mass { type_of = mass };
      iota = record p.iota { type_of = iota };
      current = record p.current { type_of = current };
    })

  unfoldable pub aux_arrays : List String
  aux_arrays = "am_aux_s" ∷ "am_aux_f" ∷ "ai_aux_s" ∷ "ai_aux_f" ∷ "ac_aux_s" ∷ "ac_aux_f" ∷ []

  unfoldable pub check_aux : Value T → String → Report T
  check_aux root k = elim (find k root) [
    | none ↦ []
    | some v ↦ elim (as_array v) [
      | none ↦ report_error (name k) (expected_array (value_category v))
      | some es ↦ when (not (is_empty es)) (report_error (name k) spline_not_supported)
    ]
  ]

  unfoldable pub check_aux_arrays : Value T → List String → Report T
  unfolding check_aux
  check_aux_arrays root [] = []
  check_aux_arrays root (k ∷ rest) = check_aux root k ++ check_aux_arrays root rest

  -- The blocks that read the fields.
  unfoldable pub read_fields : Value T → ProblemSpec s → Reading T (ProblemSpec s)
  read_fields root p0 = do
    p1 ← read_resolution root p0
    p2 ← read_current_model root p1
    p3 ← read_physical root p2
    p4 ← read_free_boundary root p3
    p5 ← read_profiles root p4
    p6 ← read_stages root p5
    p7 ← read_boundary_keys root p6
    read_profile_types root p7

  -- All blocks up to the loop over the unknown keys.
  unfoldable pub map_fields : Value T → ProblemSpec s → Reading T (ProblemSpec s)
  unfolding read_fields
  map_fields root p0 = do p ← read_fields root p0; (p, check_aux_arrays root aux_arrays)
