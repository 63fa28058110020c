-- ===== src/Io/Derived.antt =====
-- The real-space fields of src/cumes/io/io_common.hpp (write_derived_fields, read_derived_fields).
use cu_mes.Base.{
  ℕ, ◌-◌, not, ◌&&◌, ◌||◌, Option, none, some, List, [], ◌∷◌, ℤ, pos, ltb_ℤ, eqb_ℤ, ltb,
  if◌then◌else◌,
}
use cu_mes.Core.CheckedSize.{to_size, checked_mul, checked_add}
use cu_mes.Core.GridShape.{pred_ℤ}
use cu_mes.Io.Outcome.{
  ok, err, truncated_derived_dimensions, bad_derived_dimensions, derived_cap_exceeded,
  derived_payload_truncated, truncated_half_field, truncated_full_field,
}
use cu_mes.Io.File.{
  Reading, Writing, ◌>>=◌, ◌>>◌, pure, fail, ◌then_write◌, provided, write_nothing, with_reason,
}
use cu_mes.Io.Codec.{Double, write_i32, read_i32, write_f64_array}
use cu_mes.Io.Snapshot.{
  EquilibriumSnapshot, half_field_count, full_field_count, has_derived_fields,
  has_any_derived_fields,
}
use cu_mes.Io.State.{file_size, read_families}

-- MAX_REAL_FIELD_ELEMENTS
abbrev pub max_real_field_elements : ℕ
max_real_field_elements = 16777216

unfoldable pub write_fields : List (List Double) → Writing
write_fields [] = write_nothing
write_fields (f ∷ fs) = write_f64_array f then_write write_fields fs

unfoldable pub write_derived_fields : EquilibriumSnapshot → Writing
write_derived_fields s =
    if not (has_any_derived_fields s)
    then write_i32 (pos 0) then_write write_i32 (pos 0)
    else provided (has_derived_fields s) (
        write_i32 s.ntheta
        then_write write_i32 s.nzeta
        then_write write_fields s.half_fields
        then_write write_fields s.full_fields)

-- `x ? checked_mul(k, *x) : nullopt`
abbrev pub scaled : ℕ → Option ℕ → Option ℕ
scaled k none = none
scaled k (some n) = checked_mul k n

-- `a && b ? checked_add(*a, *b) : nullopt`
abbrev pub added : Option ℕ → Option ℕ → Option ℕ
added (some a) (some b) = checked_add a b
added _ _ = none

-- `checked_mul(*x, k)` for an `x` that engages.
abbrev pub scaled_by : Option ℕ → ℕ → Option ℕ
scaled_by none k = none
scaled_by (some n) k = checked_mul n k

-- The sizes of a half-grid and a full-grid field, if both engage and are within the cap.
abbrev pub within_cap : Option ℕ → Option ℕ → Option (ℕ × ℕ)
within_cap (some half) (some full) =
    if ltb max_real_field_elements half || ltb max_real_field_elements full
    then none
    else some (half, full)
within_cap _ _ = none

unfoldable pub field_sizes : ℤ → ℤ → ℤ → Option (ℕ × ℕ)
field_sizes ns ntheta nzeta =
    let points = checked_mul (to_size ntheta) (to_size nzeta) in
    within_cap (scaled (to_size (pred_ℤ ns)) points) (scaled (to_size ns) points)

-- The bytes of all fields; `sizeof(double)` is 8.
unfoldable pub payload_bytes : ℕ → ℕ → Option ℕ
payload_bytes half full =
    scaled_by (added (checked_mul half half_field_count) (checked_mul full full_field_count)) 8

-- `!bytes || *size - pos < *bytes`
unfoldable pub require_bytes : Option ℕ → Reading (Unit {0})
require_bytes none f = err derived_payload_truncated
require_bytes (some bytes) f =
    if ltb (file_size f - f.position) bytes then err derived_payload_truncated else ok (tt, f)

unfoldable pub read_sized_fields :
    EquilibriumSnapshot → ℤ → ℤ → Option (ℕ × ℕ) → Reading EquilibriumSnapshot
read_sized_fields s ntheta nzeta none = fail derived_cap_exceeded
read_sized_fields s ntheta nzeta (some (half, full)) = do
  require_bytes (payload_bytes half full)
  halves ← with_reason truncated_half_field (read_families half half_field_count)
  fulls ← with_reason truncated_full_field (read_families full full_field_count)
  pure (record s { ntheta = ntheta; nzeta = nzeta; half_fields = halves; full_fields = fulls })

-- After the dimensions.
unfoldable pub read_derived_body : EquilibriumSnapshot → ℤ → ℤ → Reading EquilibriumSnapshot
read_derived_body s ntheta nzeta =
    if eqb_ℤ ntheta (pos 0) && eqb_ℤ nzeta (pos 0)
    then pure s
    else if ltb_ℤ ntheta (pos 1) || ltb_ℤ nzeta (pos 1) || ltb_ℤ s.ns (pos 2)
    then fail bad_derived_dimensions
    else read_sized_fields s ntheta nzeta (field_sizes s.ns ntheta nzeta)

unfoldable pub read_derived_fields : EquilibriumSnapshot → Reading EquilibriumSnapshot
read_derived_fields s = do
  ntheta ← with_reason truncated_derived_dimensions read_i32
  nzeta ← with_reason truncated_derived_dimensions read_i32
  read_derived_body s ntheta nzeta
