-- ===== src/Io/Snapshot.antt =====
-- include/cumes/io/equilibrium_snapshot.hpp: the state and the derived fields of a container.
use cu_mes.Base.{
  ℕ, ◌*◌, ◌%◌, Bool, true, false, ◌&&◌, ◌||◌, not, List, [], ◌∷◌, length, replicate, ℤ, pos, ltb_ℤ,
  leb_ℤ, eqb_ℤ, ◌==◌, if◌then◌else◌,
}
use cu_mes.Core.CheckedSize.{to_size, size_mod}
use cu_mes.Core.GridShape.{pred_ℤ}
use cu_mes.Io.Codec.{Double}

pub record EquilibriumSnapshot : Type 0 where
  pub ns : ℤ
  pub mnmax : ℤ
  pub families : List (List Double)
  pub ntheta : ℤ
  pub nzeta : ℤ
  pub half_fields : List (List Double)
  pub full_fields : List (List Double)

abbrev pub half_field_count : ℕ
half_field_count = 7

abbrev pub full_field_count : ℕ
full_field_count = 6

-- `EquilibriumSnapshot{}`
abbrev pub default_snapshot : EquilibriumSnapshot
default_snapshot = record {
  ns = pos 0;
  mnmax = pos 0;
  families = replicate 6 [];
  ntheta = pos 0;
  nzeta = pos 0;
  half_fields = replicate half_field_count [];
  full_fields = replicate full_field_count [];
}

abbrev pub lasym : EquilibriumSnapshot → Bool
lasym s = length s.families == 12

abbrev pub components : EquilibriumSnapshot → ℕ
components s = length s.families

unfoldable pub family_size : EquilibriumSnapshot → ℕ
family_size s = to_size s.ns * to_size s.mnmax % size_mod

unfoldable pub points_per_surface : EquilibriumSnapshot → ℕ
points_per_surface s = to_size s.ntheta * to_size s.nzeta % size_mod

unfoldable pub half_field_size : EquilibriumSnapshot → ℕ
half_field_size s =
    if ltb_ℤ (pos 0) s.ns then to_size (pred_ℤ s.ns) * points_per_surface s % size_mod else 0

unfoldable pub full_field_size : EquilibriumSnapshot → ℕ
full_field_size s = to_size s.ns * points_per_surface s % size_mod

-- Every field has the given size.
abbrev pub all_sized {ℓ} : {A : Type ℓ} → ℕ → List (List A) → Bool
all_sized n [] = true
all_sized n (f ∷ fs) = (length f == n) && all_sized n fs

abbrev pub any_nonempty {ℓ} : {A : Type ℓ} → List (List A) → Bool
any_nonempty [] = false
any_nonempty (f ∷ fs) = not (length f == 0) || any_nonempty fs

unfoldable pub has_derived_fields : EquilibriumSnapshot → Bool
has_derived_fields s =
    not (leb_ℤ s.ntheta (pos 0) || leb_ℤ s.nzeta (pos 0) || leb_ℤ s.ns (pos 1))
    && all_sized (half_field_size s) s.half_fields
    && all_sized (full_field_size s) s.full_fields

unfoldable pub has_any_derived_fields : EquilibriumSnapshot → Bool
has_any_derived_fields s =
    (not (eqb_ℤ s.ntheta (pos 0)) || not (eqb_ℤ s.nzeta (pos 0)))
    || any_nonempty s.half_fields
    || any_nonempty s.full_fields
