-- ===== src/Io/InputRecord/RoundTrip.antt =====
-- The reader of the input record on the bytes that the writer writes.
use cu_mes.Base.{
  ℕ, ◌+◌, eqb_ℤ, ◌||◌, ◌≡◌, refl, sym, subst, Bool, true, false, List, [], ◌++◌, length, pos,
}
use cu_mes.Io.Outcome.{ok, unset}
use cu_mes.Io.File.{OutFile, ◌>>=◌, ◌>>◌, pure, require}
use cu_mes.Io.Spec.{
  written, Decodes, Decodes-bind, Decodes-pure, Decodes-with_reason, Decodes-require,
  Decodes-checked,
}
use cu_mes.Io.InputParams.{InputParams, default_input_params}
use cu_mes.Io.InputRecord.Check.{flag, check_asymmetric_input_params}
use cu_mes.Io.InputRecord.Read.{read_asymmetric, read_asymmetric_vectors, read_input_params}
use cu_mes.Io.InputRecord.Layout.{
  asymmetric_bytes, asymmetric_vector_bytes, record_bytes, FitsRecord, FitsAsymmetric,
}
use cu_mes.Io.InputRecord.Write.{write_input_params}
use cu_mes.Io.InputRecord.Written.{FitsExtension, Writes-input_params}
use cu_mes.Io.InputRecord.Blocks.{is_set-flag, Decodes-flag, Decodes-asymmetric_vectors}
use cu_mes.Io.InputRecord.ReadBack.{
  Decodes-head, Decodes-stages, Decodes-boundary, Decodes-free_boundary,
}

-- What a symmetric record holds: the complementary fields are not written.
unfoldable pub symmetric_part : InputParams → InputParams
symmetric_part p = record p {
  lasym = false;
  raxis_s = [];
  zaxis_c = [];
  rbs_m = [];
  rbs_n = [];
  rbs_value = [];
  zbc_m = [];
  zbc_n = [];
  zbc_value = [];
  rbsc = [];
  rbcs = [];
  zbcc = [];
  zbss = [];
}

pub Decodes-symmetric :
    (p : InputParams)
    → FitsRecord p
    → Decodes (read_input_params true 3 false) (record_bytes false p) (symmetric_part p)
unfolding read_input_params symmetric_part default_input_params
Decodes-symmetric p h = Decodes-bind _ (Decodes-head p default_input_params h) (
    Decodes-bind _ (Decodes-stages p _ h) (
      Decodes-bind _ (Decodes-boundary p _ h)
        (Decodes-bind _ (Decodes-free_boundary p _ h refl) (Decodes-pure _))))

flag_in_range : (b : Bool) → eqb_ℤ (flag b) (pos 0) || eqb_ℤ (flag b) (pos 1) ≡ true
flag_in_range true = refl
flag_in_range false = refl

Decodes-asymmetric :
    (p : InputParams)
    → FitsAsymmetric p
    → Decodes (read_asymmetric (symmetric_part p)) (asymmetric_bytes p) p
unfolding read_asymmetric symmetric_part
Decodes-asymmetric p h = Decodes-with_reason _ (
    Decodes-bind _ (Decodes-flag p.lasym) (
      Decodes-require _ _ (flag_in_range p.lasym) (
        subst
          (λ b.
            Decodes
              (read_asymmetric_vectors (record (symmetric_part p) { lasym = b }) >>= λ x.
                require (check_asymmetric_input_params x) unset >> pure x)
              (asymmetric_vector_bytes p) p)
          (sym (is_set-flag p.lasym))
          (Decodes-checked check_asymmetric_input_params unset h.checked
            (Decodes-asymmetric_vectors p _ h)))))

pub Decodes-extended :
    (p : InputParams)
    → FitsRecord p
    → FitsAsymmetric p
    → Decodes (read_input_params true 3 true) (record_bytes true p) p
unfolding read_input_params symmetric_part default_input_params
Decodes-extended p h x = Decodes-bind _ (Decodes-head p default_input_params h) (
    Decodes-bind _ (Decodes-stages p _ h) (
      Decodes-bind _ (Decodes-boundary p _ h)
        (Decodes-bind _ (Decodes-free_boundary p _ h refl) (Decodes-asymmetric p x))))

-- What the reader returns of a record of the given symmetry.
abbrev pub stored_part : Bool → InputParams → InputParams
stored_part true p = p
stored_part false p = symmetric_part p

pub Decodes-input_params :
    (asymmetric : Bool) (p : InputParams)
    → FitsRecord p
    → FitsExtension asymmetric p
    → Decodes
        (read_input_params true 3 asymmetric)
        (record_bytes asymmetric p)
        (stored_part asymmetric p)
Decodes-input_params true p h x = Decodes-extended p h x
Decodes-input_params false p h x = Decodes-symmetric p h

-- Every record within the limits is written exactly when the device has room for its bytes; what is
-- written reads back to the record, the complementary fields of a symmetric record being left out,
-- whatever follows it in the file.
pub read-write_input_params :
    (asymmetric : Bool) (p : InputParams) (f : OutFile)
    → FitsRecord p
    → FitsExtension asymmetric p
    → (bytes : List ℕ) × (write_input_params p asymmetric f ≡ written bytes f)
      × ((position : ℕ) (rest : List ℕ)
          → read_input_params true 3 asymmetric
              (record { position = position; rest = bytes ++ rest })
            ≡ ok (
              stored_part asymmetric p,
              record { position = position + length bytes; rest = rest },
            ))
read-write_input_params asymmetric p f h x = (
  record_bytes asymmetric p,
  (Writes-input_params asymmetric p h x).at f,
  (Decodes-input_params asymmetric p h x).at,
)
