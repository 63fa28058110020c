-- ===== src/Config/ReaderLaws.antt =====
-- Which documents `read_and_validate` of src/cumes/config/json_reader.cpp accepts.
use Prim.Native.String.{String}
use cu_mes.Base.{
  ◌≡◌, ◌↔◌, ◌⊎◌, inl, inr, refl, sym, ap, subst, Bool, true, false, none, some, List, [], ◌∷◌, ◌++◌,
  All, ℤ, Bool-cases, Option-cases, arith,
}
use cu_mes.Solver.Scalar.{Scalar}
use cu_mes.Config.Spec.{ProblemSpec, default_problem}
use cu_mes.Config.Precision.{SolverOptions}
use cu_mes.Config.Profiles.{PowerMath}
use cu_mes.Config.Report.{Report, has_errors}
use cu_mes.Config.Acceptable.{IsAcceptable}
use cu_mes.Config.CheckLaws.{Passes, Passes-append}
use cu_mes.Config.Accepted.{accepted_iff}
use cu_mes.Config.Json.{Value, as_object}
use cu_mes.Config.Reader.{is_known, unknown_keys}
use cu_mes.Config.Mapping.{read_fields, map_fields}
use cu_mes.Config.Splines.{HasNoSplines, map_fields-Passes}
use cu_mes.Config.Validate.{ValidatedProblem, ValidationResult, accepted, rejected, validate}
use cu_mes.Config.ReadAndValidate.{map_problem_spec, merge, add_warnings, read_and_validate}

-- Every key is known, or the schema is not strict.
abbrev pub KeysAllowed : Bool → List String → Type 0
KeysAllowed strict keys = (strict ≡ false) ⊎ All (λ k. is_known k ≡ true) keys

module _ (s : Scalar) where
  open s use {T}

  lenient : (keys : List String) → has_errors {T = T} (unknown_keys false keys) ≡ false
  unfolding unknown_keys has_errors
  lenient [] = refl
  lenient (k ∷ rest) = elim (Bool-cases (is_known k)) [
    | inl known ↦ rw known (lenient rest)
    | inr unknown ↦ rw unknown (lenient rest)
  ]

  -- The loop over the keys reports an error exactly for an unknown key under the strict schema.
  unknown_keys-Passes :
      (strict : Bool) (keys : List String)
      → Passes s (unknown_keys strict keys) (KeysAllowed strict keys)
  unfolding unknown_keys has_errors
  unknown_keys-Passes strict [] = (λ h. inr tt, λ h. refl)
  unknown_keys-Passes true (k ∷ rest) = elim (Bool-cases (is_known k)) [
    | inl known ↦
        let ih = unknown_keys-Passes true rest in
        rw known (
          λ h. elim (ih.0 h) [ inl e ↦ cc | inr all ↦ inr (refl, all) ],
          λ h. elim h [ inl e ↦ cc | inr all ↦ ih.1 (inr all.1) ],
        )
    | inr unknown ↦ rw unknown (λ h. cc, λ h. elim h [ inl e ↦ cc | inr all ↦ cc (all.0) ])
  ]
  unknown_keys-Passes false (k ∷ rest) = (λ h. inl refl, λ h. lenient (k ∷ rest))

module _ (s : Scalar) (math : PowerMath s) (of_int64 : ℤ → s.T) (disabled : Bool) where
  open s use {T}

  -- The result with the issues of the mapping is an accepted problem exactly if both are fine.
  merge-accepted :
      (report : Report T) (r : ValidationResult s math)
      → ((vp : ValidatedProblem s math) × (merge s math report r ≡ accepted vp))
        ↔ ((has_errors report ≡ false) × ((vp : ValidatedProblem s math) × (r ≡ accepted vp)))
  unfolding merge
  merge-accepted report (rejected issues) = (λ h. ground (arith, h.1), λ h. ground (arith, h.1.1))
  merge-accepted report (accepted vp) = elim (Bool-cases (has_errors report)) [
    | inl bad ↦ rw bad (λ h. ground (arith, h.1), λ h. ground (arith, h.0))
    | inr fine ↦ rw fine (λ h. (refl, (vp, refl)), λ h. (add_warnings s math vp report, refl))
  ]

  read_no_object :
      (root : Value T) (options : SolverOptions)
      → as_object root ≡ none
      → read_and_validate s math of_int64 disabled (some root) options ≡ none
  unfolding read_and_validate map_problem_spec
  read_no_object root options e = ground (arith, e)

  abbrev fields : Value T → ProblemSpec s × Report T
  fields root = map_fields s of_int64 root (default_problem s)

  read_object :
      (root : Value T) (options : SolverOptions) (keys : List String)
      → as_object root ≡ some keys
      → read_and_validate s math of_int64 disabled (some root) options
        ≡ some (
            merge s math
              ((fields root).1 ++ unknown_keys options.strict_schema keys)
              (validate s math disabled (fields root).0 options))
  unfolding read_and_validate map_problem_spec
  read_object root options keys e = ground (arith, e)

  -- What makes a document acceptable: an object whose fields map without an error, which gives no
  -- spline coefficients, whose keys the schema allows, and whose problem is acceptable.
  pub record IsReadable (root : Value T) (options : SolverOptions) (keys : List String)
      : Type 0 where
    pub object : as_object root ≡ some keys
    pub mapped : has_errors (read_fields s of_int64 root (default_problem s)).1 ≡ false
    pub no_splines : HasNoSplines s root
    pub allowed : KeysAllowed options.strict_schema keys
    pub problem :
        IsAcceptable s math disabled options (read_fields s of_int64 root (default_problem s)).0

  -- `read_and_validate` accepts a parsed document exactly when it is an object whose fields map
  -- without an error and give an acceptable problem, which has no arrays of spline coefficients but
  -- empty ones, and whose keys are all known if the schema is strict.
  pub read_and_validate_iff :
      (root : Value T) (options : SolverOptions)
      → ((vp : ValidatedProblem s math) × (read_and_validate s math of_int64 disabled
              (some root)
              options
            ≡ some (accepted vp)))
        ↔ ((keys : List String) × IsReadable root options keys)
  unfolding map_fields read_fields
  read_and_validate_iff root options = elim (Option-cases (as_object root)) [
    | inl e ↦
        rw (read_no_object root options e)
          (λ h. ground (arith, h.1), λ h. ground (arith, h.1.object, e))
    | inr (keys, e) ↦
        let report = (fields root).1 ++ unknown_keys options.strict_schema keys in
        let merged = merge-accepted report (validate s math disabled (fields root).0 options) in
        let judged = accepted_iff s math disabled options (fields root).0 in
        let parts =
          Passes-append s (fields root).1 (unknown_keys options.strict_schema keys)
            (map_fields-Passes s of_int64 root (default_problem s))
            (unknown_keys-Passes s options.strict_schema keys) in
        rw (read_object root options keys e) (
          λ (vp, h).
              let both = merged.0 (vp, ground (arith, h)) in
              let clean = parts.0 both.0 in
              (
                keys,
                record {
                  object = e;
                  mapped = clean.0.0;
                  no_splines = clean.0.1;
                  allowed = clean.1;
                  problem = judged.0 both.1;
                },
              ),
          λ (ks, h).
              let same : keys ≡ ks = ground (arith, h.object, e) in
              let r = merged.1 (
                parts.1 (
                  (h.mapped, h.no_splines),
                  subst (KeysAllowed options.strict_schema) (sym same) h.allowed,
                ),
                judged.1 h.problem,
              ) in
              (r.0, ap some r.1),
        )
  ]
