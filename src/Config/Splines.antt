-- ===== src/Config/Splines.antt =====
-- The arrays of spline coefficients that map_problem_spec of src/cumes/config/json_reader.cpp refuses.
use Prim.Native.String.{String}
use cu_mes.Base.{
  ◌≡◌, ◌⊎◌, inl, inr, refl, sym, subst, false, not, none, some, List, [], ◌∷◌, All, ℤ, Option-cases,
  arith,
}
use cu_mes.Solver.Scalar.{Scalar}
use cu_mes.Config.Spec.{ProblemSpec}
use cu_mes.Config.Report.{
  name, expected_array, spline_not_supported, report_error, when, has_errors,
}
use cu_mes.Config.Checks.{is_empty}
use cu_mes.Config.CheckLaws.{Passes, Passes-append, Passes-iff}
use cu_mes.Config.Json.{Value, value_category, find, as_array}
use cu_mes.Config.Mapping.{read_fields, aux_arrays, check_aux, check_aux_arrays, map_fields}

module _ (s : Scalar) where
  open s use {T}

  -- The key is absent, or an array without elements.
  abbrev pub IsUnused : Value T → String → Type 0
  IsUnused root k =
      (find k root ≡ none) ⊎ ((v : Value T) × (find k root ≡ some v) × (as_array v ≡ some []))

  -- No coefficients of a spline are given for any profile.
  pub record HasNoSplines (root : Value T) : Type 0 where
    pub am_aux_s : IsUnused root "am_aux_s"
    pub am_aux_f : IsUnused root "am_aux_f"
    pub ai_aux_s : IsUnused root "ai_aux_s"
    pub ai_aux_f : IsUnused root "ai_aux_f"
    pub ac_aux_s : IsUnused root "ac_aux_s"
    pub ac_aux_f : IsUnused root "ac_aux_f"

  module _ (of_int64 : ℤ → T) (root : Value T) where
    check_aux_absent : (k : String) → find k root ≡ none → check_aux s of_int64 root k ≡ []
    unfolding check_aux
    check_aux_absent k e = ground (arith, e)

    aux_no_array :
        (k : String) (v : Value T)
        → find k root ≡ some v
        → as_array v ≡ none
        → check_aux s of_int64 root k ≡ report_error (name k) (expected_array (value_category v))
    unfolding check_aux
    aux_no_array k v e f = ground (arith, e, f)

    aux_array :
        (k : String) (v : Value T) (es : List (Value T))
        → find k root ≡ some v
        → as_array v ≡ some es
        → check_aux s of_int64 root k
          ≡ when (not (is_empty es)) (report_error (name k) spline_not_supported)
    unfolding check_aux
    aux_array k v es e f = ground (arith, e, f)

    array-IsUnused :
        (k : String) (v : Value T) (es : List (Value T))
        → find k root ≡ some v
        → as_array v ≡ some es
        → Passes s
            (when (not (is_empty es)) (report_error (name k) spline_not_supported))
            (IsUnused root k)
    unfolding has_errors
    array-IsUnused k v [] e f = (λ h. inr (v, e, f), λ h. refl)
    array-IsUnused k v (x ∷ es) e f = (
      λ h. cc,
      λ h. elim h [
        | inl g ↦ absurd (ground (arith, e, g))
        | inr (w, g, i) ↦ absurd (ground (arith, e, f, g, i))
      ],
    )

    no_array-IsUnused :
        (k : String) (v : Value T)
        → find k root ≡ some v
        → as_array v ≡ none
        → Passes s (report_error (name k) (expected_array (value_category v))) (IsUnused root k)
    unfolding has_errors
    no_array-IsUnused k v e f = (
      λ h. cc,
      λ h. elim h [
        | inl g ↦ absurd (ground (arith, e, g))
        | inr (w, g, i) ↦ absurd (ground (arith, e, f, g, i))
      ],
    )

    check_aux-Passes : (k : String) → Passes s (check_aux s of_int64 root k) (IsUnused root k)
    unfolding has_errors
    check_aux-Passes k = elim (Option-cases (find k root)) [
      | inl e ↦
          subst (λ r. Passes s r (IsUnused root k)) (sym (check_aux_absent k e))
            (λ h. inl e, λ h. refl)
      | inr (v, e) ↦ elim (Option-cases (as_array v)) [
        | inl f ↦
            subst (λ r. Passes s r (IsUnused root k)) (sym (aux_no_array k v e f))
              (no_array-IsUnused k v e f)
        | inr (es, f) ↦
            subst (λ r. Passes s r (IsUnused root k)) (sym (aux_array k v es e f))
              (array-IsUnused k v es e f)
      ]
    ]

    all-IsUnused :
        (keys : List String)
        → Passes s (check_aux_arrays s of_int64 root keys) (All (IsUnused root) keys)
    unfolding check_aux_arrays has_errors
    all-IsUnused [] = (λ h. tt, λ h. refl)
    all-IsUnused (k ∷ rest) =
        Passes-append s (check_aux s of_int64 root k) (check_aux_arrays s of_int64 root rest)
          (check_aux-Passes k) (all-IsUnused rest)

    check_aux_arrays-Passes :
        Passes s (check_aux_arrays s of_int64 root (aux_arrays s of_int64)) (HasNoSplines root)
    unfolding aux_arrays
    check_aux_arrays-Passes =
        Passes-iff s (check_aux_arrays s of_int64 root (aux_arrays s of_int64))
          (λ (a, (b, (c, (d, (e, (f, g)))))). record {
            am_aux_s = a;
            am_aux_f = b;
            ai_aux_s = c;
            ai_aux_f = d;
            ac_aux_s = e;
            ac_aux_f = f;
          })
          (λ h.
            (h.am_aux_s, (h.am_aux_f, (h.ai_aux_s, (h.ai_aux_f, (h.ac_aux_s, (h.ac_aux_f, tt)))))))
          (all-IsUnused (aux_arrays s of_int64))

    pub map_fields-Passes :
        (p : ProblemSpec s)
        → Passes s
            (map_fields s of_int64 root p).1
            ((has_errors (read_fields s of_int64 root p).1 ≡ false) × HasNoSplines root)
    unfolding map_fields
    map_fields-Passes p =
        Passes-append s {P = has_errors (read_fields s of_int64 root p).1 ≡ false}
          (read_fields s of_int64 root p).1
          (check_aux_arrays s of_int64 root (aux_arrays s of_int64)) (λ h. h, λ h. h)
          check_aux_arrays-Passes
