-- ===== src/Io/DerivedWritten.antt =====
-- The writer of the real-space fields (src/cumes/io/io_common.hpp) and their bytes.
use native.Mathlib.Nat.{mod-eq_of_lt}
use cu_mes.Base.{
  ℕ, ◌-◌, ◌*◌, ◌≤◌, ◌≡◌, refl, true, false, ◌||◌, List, [], ◌∷◌, ◌++◌, length, replicate, All, pos,
  pos_part, ◌≤ℤ◌, IsI32, leb_ℤ, ==-refl, arith,
}
use cu_mes.Core.CheckedSize.{size_max, size_mod, to_size}
use cu_mes.Core.GridShape.{pred_ℤ}
use cu_mes.Core.GridBounds.{to_size-nonneg}
use cu_mes.Core.Validation.{to_size_pred}
use cu_mes.Io.Spec.{Writes, Writes-then, Writes-nothing, Writes-provided}
use cu_mes.Io.Codec.{Double, i32_bytes}
use cu_mes.Io.CodecLaws.{Writes-i32, Writes-f64_array}
use cu_mes.Io.Snapshot.{
  EquilibriumSnapshot, half_field_count, full_field_count, points_per_surface, half_field_size,
  full_field_size, all_sized, has_derived_fields, has_any_derived_fields,
}
use cu_mes.Io.StateLaws.{families_bytes, product_small}
use cu_mes.Io.Derived.{max_real_field_elements, write_fields, write_derived_fields}

abbrev pub points : EquilibriumSnapshot → ℕ
points s = pos_part s.ntheta * pos_part s.nzeta

abbrev pub half_size : EquilibriumSnapshot → ℕ
half_size s = (pos_part s.ns - 1) * points s

abbrev pub full_size : EquilibriumSnapshot → ℕ
full_size s = pos_part s.ns * points s

abbrev pub Sized : ℕ → List Double → Type 0
Sized n f = length f ≡ n

-- All thirteen fields, of the sizes that the dimensions give, within the cap of the reader.
pub record FitsFields (s : EquilibriumSnapshot) : Type 0 where
  pub ns : IsI32 s.ns
  pub ntheta : IsI32 s.ntheta
  pub nzeta : IsI32 s.nzeta
  pub two_surfaces : pos 2 ≤ℤ s.ns
  pub some_theta : pos 1 ≤ℤ s.ntheta
  pub some_zeta : pos 1 ≤ℤ s.nzeta
  pub half_count : length s.half_fields ≡ half_field_count
  pub full_count : length s.full_fields ≡ full_field_count
  pub half_sizes : All (Sized (half_size s)) s.half_fields
  pub full_sizes : All (Sized (full_size s)) s.full_fields
  pub cap : full_size s ≤ max_real_field_elements

-- No fields at all.
pub record IsBare (s : EquilibriumSnapshot) : Type 0 where
  pub ntheta : s.ntheta ≡ pos 0
  pub nzeta : s.nzeta ≡ pos 0
  pub half_fields : s.half_fields ≡ replicate half_field_count []
  pub full_fields : s.full_fields ≡ replicate full_field_count []

abbrev pub present_bytes : EquilibriumSnapshot → List ℕ
present_bytes s =
    i32_bytes s.ntheta
    ++ (i32_bytes s.nzeta ++ (families_bytes s.half_fields ++ families_bytes s.full_fields))

abbrev pub bare_bytes : List ℕ
bare_bytes = i32_bytes (pos 0) ++ i32_bytes (pos 0)

Writes-fields : (fs : List (List Double)) → Writes (write_fields fs) (families_bytes fs)
unfolding write_fields
Writes-fields [] = Writes-nothing
Writes-fields (f ∷ fs) = Writes-then (Writes-f64_array f) (Writes-fields fs)

Sized-true : (n : ℕ) (fs : List (List Double)) → All (Sized n) fs → all_sized n fs ≡ true
Sized-true n [] h = refl
Sized-true n (f ∷ fs) h = rw (h.0, ==-refl n) (Sized-true n fs h.1)

half_le_full : (n p : ℕ) → (n - 1) * p ≤ n * p
half_le_full n p = grind arith

module _ (s : EquilibriumSnapshot) (h : FitsFields s) where
  pub theta_size : to_size s.ntheta ≡ pos_part s.ntheta
  theta_size = to_size-nonneg s.ntheta h.ntheta (omega (arith, h.some_theta))

  pub zeta_size : to_size s.nzeta ≡ pos_part s.nzeta
  zeta_size = to_size-nonneg s.nzeta h.nzeta (omega (arith, h.some_zeta))

  pub surface_size : to_size s.ns ≡ pos_part s.ns
  surface_size = to_size-nonneg s.ns h.ns (omega (arith, h.two_surfaces))

  pub gap_size : to_size (pred_ℤ s.ns) ≡ pos_part s.ns - 1
  gap_size = to_size_pred s.ns h.ns (omega (arith, h.two_surfaces))

  pub points_small : points s ≤ size_max
  points_small = product_small (pos_part s.ntheta) (pos_part s.nzeta) h.ntheta.0 h.nzeta.0

  pub half_within_cap : half_size s ≤ max_real_field_elements
  half_within_cap = omega (arith, half_le_full (pos_part s.ns) (points s), h.cap)

  points_exact : points_per_surface s ≡ points s
  unfolding points_per_surface
  points_exact = rw (theta_size, zeta_size) (mod-eq_of_lt (omega (arith, points_small)))

  half_exact : half_field_size s ≡ half_size s
  unfolding half_field_size
  half_exact =
      rw (points_exact, gap_size)
        (ground (
          arith,
          h.two_surfaces,
          mod-eq_of_lt {n = half_size s} {m = size_mod} (omega (arith, half_within_cap)),
        ))

  full_exact : full_field_size s ≡ full_size s
  unfolding full_field_size
  full_exact = rw (points_exact, surface_size) (mod-eq_of_lt (omega (arith, h.cap)))

  dimensions_positive :
      leb_ℤ s.ntheta (pos 0) || leb_ℤ s.nzeta (pos 0) || leb_ℤ s.ns (pos 1) ≡ false
  dimensions_positive = ground (arith, h.some_theta, h.some_zeta, h.two_surfaces)

  derived_present : has_derived_fields s ≡ true
  unfolding has_derived_fields
  derived_present = rw (
    dimensions_positive,
    half_exact,
    full_exact,
    Sized-true (half_size s) s.half_fields h.half_sizes,
    Sized-true (full_size s) s.full_fields h.full_sizes,
  )

  pub any_present : has_any_derived_fields s ≡ true
  unfolding has_any_derived_fields
  any_present = ground (arith, h.some_theta)

  pub Writes-present : Writes (write_derived_fields s) (present_bytes s)
  unfolding write_derived_fields
  Writes-present = rw any_present (
      Writes-provided derived_present (
        Writes-then (Writes-i32 s.ntheta) (
          Writes-then (Writes-i32 s.nzeta)
            (Writes-then (Writes-fields s.half_fields) (Writes-fields s.full_fields)))))
