-- ===== src/Io/DerivedLaws.antt =====
-- The real-space fields of src/cumes/io/io_common.hpp: what is written is read back.

use cu_mes.Base.{
  ℕ, ◌+◌, ◌-◌, ◌*◌, ◌≤◌, ◌≡◌, ◌⊎◌, inl, inr, ap, subst, false, ◌&&◌, ◌||◌, some, List, [], ◌++◌,
  append-nil, length, length-append, replicate, All, ℤ, pos, pos_part, ltb_ℤ, eqb_ℤ, ltb, le→leb,
  if◌then◌else◌, arith,
}
use cu_mes.Core.CheckedSize.{size_max}
use cu_mes.Core.GridBounds.{checked_add_exact}
use cu_mes.Io.File.{Reading, ◌>>=◌, ◌>>◌}
use cu_mes.Io.Spec.{
  Decodes, Writes, Decodes-bind, Decodes-last, Decodes-pure, Decodes-with_reason, Decodes-regroup,
  Writes-then,
}
use cu_mes.Io.Codec.{Double}
use cu_mes.Io.CodecLaws.{Writes-i32, Decodes-i32}
use cu_mes.Io.Snapshot.{
  EquilibriumSnapshot, half_field_count, full_field_count, has_any_derived_fields,
}
use cu_mes.Io.State.{read_families}
use cu_mes.Io.StateLaws.{families_bytes, Decodes-families, length-families_bytes, checked_mul-some}
use cu_mes.Io.Derived.{
  write_derived_fields, field_sizes, payload_bytes, require_bytes, read_sized_fields,
  read_derived_body, read_derived_fields,
}
use cu_mes.Io.CheckpointLaws.{state_part}
use cu_mes.Io.DerivedWritten.{
  theta_size, zeta_size, surface_size, gap_size, points_small, half_within_cap, any_present,
  Writes-present, points, half_size, full_size, Sized, FitsFields, IsBare, present_bytes,
  bare_bytes,
}

not_less : (a b : ℕ) → b ≤ a → ltb a b ≡ false
not_less a b h = ground arith

-- The test of the remaining bytes passes where enough bytes follow, and takes none.
Decodes-require_bytes :
    {A : Type 0} {k : Reading A} {xs : List ℕ} {a : A} (n : ℕ)
    → n ≤ length xs
    → Decodes k xs a
    → Decodes (require_bytes (some n) >> k) xs a
unfolding require_bytes ◌>>=◌
Decodes-require_bytes {xs} n enough d = record {
  at = λ p rest.
      rw (not_less (p + length (xs ++ rest) - p) n (omega (arith, length-append xs rest)))
        (d.at p rest);
}

module _ (s : EquilibriumSnapshot) (h : FitsFields s) where
  sizes_found : field_sizes s.ns s.ntheta s.nzeta ≡ some (half_size s, full_size s)
  unfolding field_sizes
  sizes_found =
      rw
        (
          theta_size s h,
          zeta_size s h,
          surface_size s h,
          gap_size s h,
          checked_mul-some (pos_part s.ntheta) (pos_part s.nzeta) (points_small s h),
          checked_mul-some (pos_part s.ns - 1) (points s) (omega (arith, half_within_cap s h)),
          checked_mul-some (pos_part s.ns) (points s) (omega (arith, h.cap)),
        )
        (ground (arith, half_within_cap s h, h.cap))

  total_fits : half_size s * half_field_count + full_size s * full_field_count ≤ size_max
  total_fits = omega (arith, half_within_cap s h, h.cap)

  payload_found :
      payload_bytes (half_size s) (full_size s)
      ≡ some ((half_size s * half_field_count + full_size s * full_field_count) * 8)
  unfolding payload_bytes
  payload_found =
      rw
        (
          checked_mul-some (half_size s) half_field_count (omega (arith, half_within_cap s h)),
          checked_mul-some (full_size s) full_field_count (omega (arith, h.cap)),
          checked_add_exact (half_size s * half_field_count) (full_size s * full_field_count)
              (omega (arith, half_within_cap s h)),
        )
        (rw (le→leb _ size_max (total_fits)) (
          checked_mul-some (half_size s * half_field_count + full_size s * full_field_count) 8
            (omega (arith, half_within_cap s h, h.cap))))

  all_bytes :
      length (families_bytes s.half_fields ++ families_bytes s.full_fields)
      ≡ (half_size s * half_field_count + full_size s * full_field_count) * 8
  all_bytes = omega (
    arith,
    length-append (families_bytes s.half_fields) (families_bytes s.full_fields),
    length-families_bytes (half_size s) s.half_fields h.half_sizes,
    length-families_bytes (full_size s) s.full_fields h.full_sizes,
    ap (λ (n : ℕ). n * (half_size s * 8)) h.half_count,
    ap (λ (n : ℕ). n * (full_size s * 8)) h.full_count,
  )

  Decodes-fields :
      (n count : ℕ) (fs : List (List Double))
      → length fs ≡ count
      → All (Sized n) fs
      → Decodes (read_families n count) (families_bytes fs) fs
  Decodes-fields n count fs e sizes =
      subst (λ count. Decodes (read_families n count) (families_bytes fs) fs) e
        (Decodes-families n fs sizes)

  Decodes-sized :
      Decodes
        (read_sized_fields (state_part s) s.ntheta s.nzeta (some (half_size s, full_size s)))
        (families_bytes s.half_fields ++ families_bytes s.full_fields)
        s
  unfolding read_sized_fields
  Decodes-sized = rw payload_found (
      Decodes-require_bytes _ (omega (arith, all_bytes)) (
        Decodes-bind _
          (Decodes-with_reason _ (Decodes-fields _ _ s.half_fields h.half_count h.half_sizes))
          (Decodes-last _
            (Decodes-with_reason _ (Decodes-fields _ _ s.full_fields h.full_count h.full_sizes)))))

  not_absent : eqb_ℤ s.ntheta (pos 0) && eqb_ℤ s.nzeta (pos 0) ≡ false
  not_absent = ground (arith, h.some_theta)

  accepted_dimensions :
      ltb_ℤ s.ntheta (pos 1) || ltb_ℤ s.nzeta (pos 1) || ltb_ℤ s.ns (pos 2) ≡ false
  accepted_dimensions = ground (arith, h.some_theta, h.some_zeta, h.two_surfaces)

  Decodes-present : Decodes (read_derived_fields (state_part s)) (present_bytes s) s
  unfolding read_derived_fields read_derived_body
  Decodes-present = Decodes-bind _ (Decodes-with_reason _ (Decodes-i32 s.ntheta h.ntheta)) (
      Decodes-bind _ (Decodes-with_reason _ (Decodes-i32 s.nzeta h.nzeta))
        (rw (not_absent, accepted_dimensions, sizes_found) Decodes-sized))

module _ (s : EquilibriumSnapshot) (b : IsBare s) where
  any_bare : has_any_derived_fields s ≡ false
  unfolding has_any_derived_fields
  any_bare = rw (b.ntheta, b.nzeta, b.half_fields, b.full_fields)

  abbrev with_fields : ℤ → ℤ → List (List Double) → List (List Double) → EquilibriumSnapshot
  with_fields ntheta nzeta half full = record s {
    ntheta = ntheta;
    nzeta = nzeta;
    half_fields = half;
    full_fields = full;
  }

  bare_is_state :
      with_fields (pos 0) (pos 0) (replicate half_field_count []) (replicate full_field_count [])
      ≡ with_fields s.ntheta s.nzeta s.half_fields s.full_fields
  bare_is_state = rw (b.ntheta, b.nzeta, b.half_fields, b.full_fields)

  Writes-bare : Writes (write_derived_fields s) bare_bytes
  unfolding write_derived_fields
  Writes-bare = rw any_bare (Writes-then (Writes-i32 (pos 0)) (Writes-i32 (pos 0)))

  Decodes-bare : Decodes (read_derived_fields (state_part s)) bare_bytes s
  unfolding read_derived_fields read_derived_body
  Decodes-bare =
      Decodes-bind _ (Decodes-with_reason _ (Decodes-i32 (pos 0) (omega arith, omega arith))) (
        Decodes-regroup
          (Decodes-bind _ (Decodes-with_reason _ (Decodes-i32 (pos 0) (omega arith, omega arith)))
            (subst (Decodes _ []) bare_is_state (Decodes-pure _)))
          (append-nil _))

-- All the fields or none.
abbrev pub FitsDerived : EquilibriumSnapshot → Type 0
FitsDerived s = FitsFields s ⊎ IsBare s

abbrev pub derived_bytes : EquilibriumSnapshot → List ℕ
derived_bytes s = if has_any_derived_fields s then present_bytes s else bare_bytes

pub Writes-derived :
    (s : EquilibriumSnapshot) → FitsDerived s → Writes (write_derived_fields s) (derived_bytes s)
Writes-derived s (inl h) = rw (any_present s h) (Writes-present s h)
Writes-derived s (inr b) = rw (any_bare s b) (Writes-bare s b)

pub Decodes-derived :
    (s : EquilibriumSnapshot)
    → FitsDerived s
    → Decodes (read_derived_fields (state_part s)) (derived_bytes s) s
Decodes-derived s (inl h) = rw (any_present s h) (Decodes-present s h)
Decodes-derived s (inr b) = rw (any_bare s b) (Decodes-bare s b)
