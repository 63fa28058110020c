-- ===== src/Io/State.antt =====
-- src/cumes/io/io_common.hpp: the state payload that the checkpoint and the versioned binary share.
use cu_mes.Base.{
  ℕ, zero, suc, ◌+◌, ◌*◌, ◌%◌, ◌&&◌, ◌||◌, not, Option, none, some, List, [], ◌∷◌, length, ℤ, pos,
  ltb_ℤ, eqb_ℤ, ltb, ◌==◌, if◌then◌else◌,
}
use cu_mes.Core.CheckedSize.{to_size, checked_mul, size_mod}
use cu_mes.Io.Outcome.{
  Outcome, ok, err, bad_component_count, bad_dimensions, dimension_overflow, implausible_dimensions,
}
use cu_mes.Io.File.{InFile, Reading, Writing, ◌>>=◌, pure, ◌then_write◌, provided, write_nothing}
use cu_mes.Io.Codec.{Double, write_f64_array, read_f64_array}
use cu_mes.Io.Snapshot.{EquilibriumSnapshot, components, family_size}

-- `file_size`: the position is put back, so only the size is seen.
abbrev pub file_size : InFile → ℕ
file_size f = f.position + length f.rest

-- `!needed || *sz < *needed`, and what is set on success.
abbrev pub bounded_by : ℕ → Option ℕ → Option ℕ → InFile → Outcome (ℕ × InFile)
bounded_by size none needed f = err dimension_overflow
bounded_by size (some n) none f = err implausible_dimensions
bounded_by size (some n) (some needed) f =
    if ltb size needed then err implausible_dimensions else ok (n, f)

-- `sizeof(double)` is 8.
abbrev pub needed_bytes : Option ℕ → ℤ → Option ℕ
needed_bytes none c = none
needed_bytes (some n) c = checked_mul n (to_size c * 8 % size_mod)

unfoldable pub check_state_dimensions : ℤ → ℤ → ℤ → Reading ℕ
check_state_dimensions ns mnmax c f =
    if not (eqb_ℤ c (pos 6)) && not (eqb_ℤ c (pos 12))
    then err bad_component_count
    else if ltb_ℤ ns (pos 1) || ltb_ℤ mnmax (pos 1)
    then err bad_dimensions
    else let n = checked_mul (to_size ns) (to_size mnmax) in
      bounded_by (file_size f) n (needed_bytes n c) f

unfoldable pub write_families : ℕ → List (List Double) → Writing
write_families n [] = write_nothing
write_families n (fam ∷ rest) =
    provided (length fam == n) (write_f64_array fam then_write write_families n rest)

unfoldable pub write_state_families : EquilibriumSnapshot → Writing
write_state_families s =
    provided (components s == 6 || components s == 12) (write_families (family_size s) s.families)

-- `for (auto& fam : snapshot.families)` over the families that are left.
unfoldable pub read_families : ℕ → ℕ → Reading (List (List Double))
read_families n zero = pure []
read_families n (suc left) = do
  fam ← read_f64_array n
  rest ← read_families n left
  pure (fam ∷ rest)
