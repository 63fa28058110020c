-- ===== src/Config/Reading.antt =====
-- The typed getters of src/cumes/config/json_reader.cpp. A reading gives its value and the issues
-- that it appends to the report.
use Prim.Native.String.{String}
use cu_mes.Base.{
  ℕ, ◌+◌, ◌-◌, ◌^◌, Bool, ◌||◌, Option, none, some, List, [], ◌∷◌, ◌++◌, ℤ, pos, negsuc, ltb_ℤ,
  if◌then◌else◌,
}
use cu_mes.Solver.Scalar.{Scalar}
use cu_mes.Config.Spec.{BoundaryHarmonic}
use cu_mes.Config.Report.{
  Key, entry, field, Message, expected_integer, expected_number, expected_boolean, expected_string,
  expected_array, expected_harmonics, integer_out_of_range, expected_harmonic,
  missing_harmonic_field, at_entry, Report, report_error,
}
use cu_mes.Config.Json.{
  Value, value_category, find, as_int, as_double, as_boolean, as_string, as_array, as_object,
}

-- The bounds of `int`.
abbrev pub int_min : ℤ
int_min = negsuc (2 ^ 31 - 1)

abbrev pub int_max : ℤ
int_max = pos (2 ^ 31 - 1)

abbrev pub Reading : Type 0 → Type 0 → Type 0
Reading T A = A × Report T

module _ {T : Type 0} where
  infixl 5 ◌>>=◌
  abbrev pub ◌>>=◌ : {A B : Type 0} → Reading T A → (A → Reading T B) → Reading T B
  m >>= f = ((f m.0).0, m.1 ++ (f m.0).1)

  abbrev pub pure : {A : Type 0} → A → Reading T A
  pure a = (a, [])

module _ (s : Scalar) where
  open s use {T}

  -- The value that was found, or the fallback with an error.
  unfoldable pub or_report : {A : Type 0} → Option A → A → Key → Message T → Reading T A
  or_report none fallback key message = (fallback, report_error key message)
  or_report (some a) fallback key message = (a, [])

  -- An integer that fits in an `int`, or the fallback with an error, whose message `say` completes.
  unfoldable pub narrow : (Message T → Message T) → ℤ → Key → ℤ → Reading T ℤ
  narrow say i key fallback =
      if ltb_ℤ i int_min || ltb_ℤ int_max i
      then (fallback, report_error key (say (integer_out_of_range i)))
      else (i, [])

  unfoldable pub int_of : (Message T → Message T) → Value T → Key → ℤ → Reading T ℤ
  unfolding narrow
  int_of say v key fallback = elim (as_int v) [
    | none ↦ (fallback, report_error key (say (expected_integer (value_category v))))
    | some i ↦ narrow say i key fallback
  ]

  unfoldable pub get_int : Value T → Key → ℤ → Reading T ℤ
  unfolding int_of
  get_int v key fallback = int_of (λ m. m) v key fallback

  unfoldable pub get_double : (ℤ → T) → Value T → Key → T → Reading T T
  unfolding or_report
  get_double of_int64 v key fallback =
      or_report (as_double of_int64 v) fallback key (expected_number (value_category v))

  unfoldable pub get_bool : Value T → Key → Bool → Reading T Bool
  unfolding or_report
  get_bool v key fallback =
      or_report (as_boolean v) fallback key (expected_boolean (value_category v))

  unfoldable pub get_string : Value T → Key → String → Reading T String
  unfolding or_report
  get_string v key fallback =
      or_report (as_string v) fallback key (expected_string (value_category v))

  -- The loop over the entries from index `i` on.
  unfoldable pub read_ints : Key → ℕ → List (Value T) → Reading T (List ℤ)
  unfolding int_of
  read_ints key i [] = pure []
  read_ints key i (e ∷ rest) =
      int_of (at_entry i) e key (pos 0) >>= λ x. read_ints key (i + 1) rest >>= λ xs. pure (x ∷ xs)

  unfoldable pub read_int_array : Value T → Key → Reading T (List ℤ)
  unfolding read_ints
  read_int_array v key = elim (as_array v) [
    | none ↦ ([], report_error key (expected_array (value_category v)))
    | some es ↦ read_ints key 0 es
  ]

  unfoldable pub read_doubles : (ℤ → T) → Key → ℕ → List (Value T) → Reading T (List T)
  unfolding or_report
  read_doubles of_int64 key i [] = pure []
  read_doubles of_int64 key i (e ∷ rest) =
      or_report (as_double of_int64 e) s.zero key (at_entry i (expected_number (value_category e)))
      >>= λ x. read_doubles of_int64 key (i + 1) rest >>= λ xs. pure (x ∷ xs)

  unfoldable pub read_double_array : (ℤ → T) → Value T → Key → Reading T (List T)
  unfolding read_doubles
  read_double_array of_int64 v key = elim (as_array v) [
    | none ↦ ([], report_error key (expected_array (value_category v)))
    | some es ↦ read_doubles of_int64 key 0 es
  ]

  -- One entry of a boundary array: a harmonic, or nothing with an error.
  unfoldable pub read_harmonic : (ℤ → T) → Value T → Key → Reading T (List (BoundaryHarmonic s))
  unfolding get_int get_double
  read_harmonic of_int64 e where_at = elim (as_object e) [
    | none ↦ ([], report_error where_at expected_harmonic)
    | some keys ↦ elim (find "m" e) [
      | none ↦ ([], report_error where_at missing_harmonic_field)
      | some m ↦ elim (find "n" e) [
        | none ↦ ([], report_error where_at missing_harmonic_field)
        | some n ↦ elim (find "value" e) [
          | none ↦ ([], report_error where_at missing_harmonic_field)
          | some value ↦ get_int m (field where_at "m") (pos 0) >>= λ m.
              get_int n (field where_at "n") (pos 0) >>= λ n.
              get_double of_int64 value (field where_at "value") s.zero >>= λ x.
              pure (record { m = m; n = n; value = x } ∷ [])
        ]
      ]
    ]
  ]

  unfoldable pub read_harmonics :
      (ℤ → T) → Key → ℕ → List (Value T) → Reading T (List (BoundaryHarmonic s))
  unfolding read_harmonic
  read_harmonics of_int64 key i [] = pure []
  read_harmonics of_int64 key i (e ∷ rest) = read_harmonic of_int64 e (entry key i) >>= λ x.
      read_harmonics of_int64 key (i + 1) rest >>= λ xs. pure (x ++ xs)

  unfoldable pub read_boundary : (ℤ → T) → Value T → Key → Reading T (List (BoundaryHarmonic s))
  unfolding read_harmonics
  read_boundary of_int64 v key = elim (as_array v) [
    | none ↦ ([], report_error key (expected_harmonics (value_category v)))
    | some es ↦ read_harmonics of_int64 key 0 es
  ]

  -- `if_present(key, ...)`: the reading of the field, or the value as it is.
  unfoldable pub if_present :
      {A : Type 0} → Value T → String → A → (Value T → Reading T A) → Reading T A
  if_present root key a read = elim (find key root) [ none ↦ pure a | some v ↦ read v ]
