-- ===== src/Config/ReaderBounds.antt =====
-- The integers of a problem that src/cumes/config/json_reader.cpp maps fit in an `int`, whatever the
-- document holds.
use Prim.Native.String.{String}
use cu_mes.Base.{ℕ, ◌+◌, Option, none, some, List, [], ◌∷◌, ◌++◌, All, ℤ, pos, negsuc, IsI32, arith}
use cu_mes.Solver.Scalar.{Scalar}
use cu_mes.Config.Spec.{BoundaryHarmonic}
use cu_mes.Config.Report.{Key, name, Message, at_entry}
use cu_mes.Config.Json.{Value, find, as_int, as_object, as_array}
use cu_mes.Config.Reading.{
  Reading, narrow, int_of, get_int, read_ints, read_int_array, read_harmonic, read_harmonics,
  read_boundary, if_present,
}
use cu_mes.Config.Reader.{int_field, harmonics_field}

-- What holds of both cases of a split on an option holds of the split.
pub option_inv :
    {A B : Type 0} (P : B → Type 0) (o : Option A) (d : B) (f : A → B)
    → P d
    → ((a : A) → P (f a))
    → P (elim o [ none ↦ d | some a ↦ f a ])
option_inv P none d f h k = h
option_inv P (some a) d f h k = k a

module _ (s : Scalar) where
  open s use {T}

  abbrev pub Yields : {A : Type 0} → (A → Type 0) → Reading T A → Type 0
  Yields P r = P r.0

  narrow-IsI32 :
      (say : Message T → Message T) (i : ℤ) (key : Key) (a : ℤ)
      → IsI32 a
      → IsI32 (narrow s say i key a).0
  unfolding narrow
  narrow-IsI32 say (pos n) key a h = ground arith
  narrow-IsI32 say (negsuc n) key a h = ground arith

  int_of-IsI32 :
      (say : Message T → Message T) (v : Value T) (key : Key) (a : ℤ)
      → IsI32 a
      → IsI32 (int_of s say v key a).0
  unfolding int_of
  int_of-IsI32 say v key a h =
      option_inv (Yields IsI32) (as_int v) _ _ h (λ i. narrow-IsI32 say i key a h)

  pub get_int-IsI32 : (v : Value T) (key : Key) (a : ℤ) → IsI32 a → IsI32 (get_int s v key a).0
  unfolding get_int
  get_int-IsI32 v key a h = int_of-IsI32 (λ m. m) v key a h

  -- What holds of every reading and of the value that stands for an absent field holds of both.
  pub if_present_inv :
      {A : Type 0} (P : A → Type 0) (root : Value T) (f : String) (a : A)
      (read : Value T → Reading T A)
      → P a
      → ((v : Value T) → P (read v).0)
      → P (if_present s root f a read).0
  unfolding if_present
  if_present_inv P root f a read h k = option_inv (Yields P) (find f root) _ _ h k

  pub zero-IsI32 : IsI32 (pos 0)
  zero-IsI32 = (omega arith, omega arith)

  read_ints-IsI32 : (key : Key) (i : ℕ) (es : List (Value T)) → All IsI32 (read_ints s key i es).0
  unfolding read_ints
  read_ints-IsI32 key i [] = tt
  read_ints-IsI32 key i (e ∷ es) =
      (int_of-IsI32 (at_entry i) e key (pos 0) zero-IsI32, read_ints-IsI32 key (i + 1) es)

  pub read_int_array-IsI32 : (v : Value T) (key : Key) → All IsI32 (read_int_array s v key).0
  unfolding read_int_array
  read_int_array-IsI32 v key =
      option_inv (Yields (All IsI32)) (as_array v) _ _ tt (read_ints-IsI32 key 0)

  pub record HasModeInts (e : BoundaryHarmonic s) : Type 0 where
    pub m : IsI32 e.m
    pub n : IsI32 e.n

  module _ (of_int64 : ℤ → T) where
    read_harmonic-HasModeInts :
        (e : Value T) (key : Key) → All HasModeInts (read_harmonic s of_int64 e key).0
    unfolding read_harmonic
    read_harmonic-HasModeInts e key =
        option_inv (Yields (All HasModeInts)) (as_object e) _ _ tt λ keys.
          option_inv (Yields (All HasModeInts)) (find "m" e) _ _ tt λ m.
            option_inv (Yields (All HasModeInts)) (find "n" e) _ _ tt λ n.
              option_inv (Yields (All HasModeInts)) (find "value" e) _ _ tt λ x. (
                record {
                  m = get_int-IsI32 m _ (pos 0) zero-IsI32;
                  n = get_int-IsI32 n _ (pos 0) zero-IsI32;
                },
                tt,
              )

    All-append :
        (P : BoundaryHarmonic s → Type 0) (xs ys : List (BoundaryHarmonic s))
        → All P xs
        → All P ys
        → All P (xs ++ ys)
    All-append P [] ys h k = k
    All-append P (x ∷ xs) ys h k = (h.0, All-append P xs ys h.1 k)

    read_harmonics-HasModeInts :
        (key : Key) (i : ℕ) (es : List (Value T))
        → All HasModeInts (read_harmonics s of_int64 key i es).0
    unfolding read_harmonics
    read_harmonics-HasModeInts key i [] = tt
    read_harmonics-HasModeInts key i (e ∷ es) =
        All-append HasModeInts _ _ (read_harmonic-HasModeInts e _)
          (read_harmonics-HasModeInts key (i + 1) es)

    read_boundary-HasModeInts :
        (v : Value T) (key : Key) → All HasModeInts (read_boundary s of_int64 v key).0
    unfolding read_boundary
    read_boundary-HasModeInts v key =
        option_inv (Yields (All HasModeInts)) (as_array v) _ _ tt (read_harmonics-HasModeInts key 0)

    pub int_field-IsI32 :
        (root : Value T) (key : Key) (f : String) (a : ℤ)
        → IsI32 a
        → IsI32 (int_field s of_int64 root key f a).0
    unfolding int_field
    int_field-IsI32 root key f a h =
        if_present_inv IsI32 root f a _ h (λ v. get_int-IsI32 v key a h)

    pub harmonics_field-HasModeInts :
        (root : Value T) (f : String) (a : List (BoundaryHarmonic s))
        → All HasModeInts a
        → All HasModeInts (harmonics_field s of_int64 root f a).0
    unfolding harmonics_field
    harmonics_field-HasModeInts root f a h =
        if_present_inv (All HasModeInts) root f a _ h (λ v. read_boundary-HasModeInts v (name f))
