-- ===== src/Io/StateLaws.antt =====
-- The state payload of src/cumes/io/io_common.hpp against its bytes.
use native.Mathlib.Nat.{mod-eq_of_lt}
use cu_mes.Base.{
  ℕ, ◌*◌, ◌^◌, ◌≤◌, ◌<◌, ◌≡◌, ◌⊎◌, ap, ◌∙◌, false, ◌&&◌, ◌||◌, not, some, List, [], ◌∷◌, ◌++◌,
  length, length-append, All, pos, pos_part, ◌≤ℤ◌, IsI32, ltb_ℤ, eqb_ℤ, ==-refl, arith,
}
use cu_mes.Core.CheckedSize.{to_size, size_max, checked_mul}
use cu_mes.Core.GridBounds.{to_size-nonneg, checked_mul_exact}
use cu_mes.Io.Outcome.{ok}
use cu_mes.Io.File.{InFile, Reading, ◌>>=◌}
use cu_mes.Io.Codec.{Double, f64s_bytes}
use cu_mes.Io.CodecLaws.{Writes-f64_array, Decodes-f64_array, length-f64s_bytes}
use cu_mes.Io.Spec.{
  Decodes, Writes, Decodes-bind, Decodes-last, Decodes-pure, Writes-then, Writes-provided,
  Writes-nothing,
}
use cu_mes.Io.Snapshot.{EquilibriumSnapshot, components, family_size}
use cu_mes.Io.State.{
  file_size, needed_bytes, check_state_dimensions, write_families, write_state_families,
  read_families,
}

abbrev pub families_bytes : List (List Double) → List ℕ
families_bytes [] = []
families_bytes (fam ∷ rest) = f64s_bytes fam ++ families_bytes rest

-- The number of elements of a family.
abbrev pub modes_by_surfaces : EquilibriumSnapshot → ℕ
modes_by_surfaces s = pos_part s.ns * pos_part s.mnmax

-- A state with positive 32-bit dimensions, six or twelve families of the right size, and fewer than
-- 2^64 bytes in all.
pub record FitsState (s : EquilibriumSnapshot) : Type 0 where
  pub ns : IsI32 s.ns
  pub mnmax : IsI32 s.mnmax
  pub some_surfaces : pos 1 ≤ℤ s.ns
  pub some_modes : pos 1 ≤ℤ s.mnmax
  pub family_count : (components s ≡ 6) ⊎ (components s ≡ 12)
  pub sizes : All (λ (f : List Double). length f ≡ modes_by_surfaces s) s.families
  pub bytes : modes_by_surfaces s * (components s * 8) ≤ size_max

module _ (n : ℕ) where
  abbrev Sized : List Double → Type 0
  Sized f = length f ≡ n

  Writes-families :
      (fams : List (List Double))
      → All Sized fams
      → Writes (write_families n fams) (families_bytes fams)
  unfolding write_families
  Writes-families [] h = Writes-nothing
  Writes-families (fam ∷ rest) h =
      Writes-provided (rw h.0 (==-refl n))
        (Writes-then (Writes-f64_array fam) (Writes-families rest h.1))

  pub Decodes-families :
      (fams : List (List Double))
      → All Sized fams
      → Decodes (read_families n (length fams)) (families_bytes fams) fams
  unfolding read_families
  Decodes-families [] h = Decodes-pure []
  Decodes-families (fam ∷ rest) h =
      Decodes-bind _ (Decodes-f64_array n fam h.0) (Decodes-last _ (Decodes-families rest h.1))

  pub length-families_bytes :
      (fams : List (List Double))
      → All Sized fams
      → length (families_bytes fams) ≡ length fams * (n * 8)
  length-families_bytes [] h = omega arith
  length-families_bytes (fam ∷ rest) h = omega (
    arith,
    length-append (f64s_bytes fam) (families_bytes rest),
    length-f64s_bytes fam,
    length-families_bytes rest h.1,
    ap (λ (t : ℕ). t * 8) h.0,
  )

pub product_small : (m n : ℕ) → m < 2 ^ 31 → n < 2 ^ 31 → m * n ≤ size_max
product_small m n h k = grind arith

pub checked_mul-some : (a b : ℕ) → a * b ≤ size_max → checked_mul a b ≡ some (a * b)
checked_mul-some a b h = checked_mul_exact a b ∙ ground arith

needed_bytes_lem :
    (n c : ℕ)
    → (c ≡ 6) ⊎ (c ≡ 12)
    → n * (c * 8) ≤ size_max
    → needed_bytes (some n) (pos c) ≡ some (n * (c * 8))
needed_bytes_lem n c count h = ap (checked_mul n) (omega arith) ∙ checked_mul-some n (c * 8) h

count_accepted :
    (c : ℕ)
    → (c ≡ 6) ⊎ (c ≡ 12)
    → not (eqb_ℤ (pos c) (pos 6)) && not (eqb_ℤ (pos c) (pos 12)) ≡ false
count_accepted c h = ground arith

module _ (s : EquilibriumSnapshot) (h : FitsState s) where
  dimensions_small : modes_by_surfaces s ≤ size_max
  dimensions_small = product_small (pos_part s.ns) (pos_part s.mnmax) h.ns.0 h.mnmax.0

  family_size_exact : family_size s ≡ modes_by_surfaces s
  unfolding family_size
  family_size_exact =
      rw
        (
          to_size-nonneg s.ns h.ns (omega (arith, h.some_surfaces)),
          to_size-nonneg s.mnmax h.mnmax (omega (arith, h.some_modes)),
        )
        (mod-eq_of_lt (omega (arith, dimensions_small)))

  pub Writes-state : Writes (write_state_families s) (families_bytes s.families)
  unfolding write_state_families
  Writes-state =
      Writes-provided (ground (arith, h.family_count))
        (rw family_size_exact (Writes-families _ s.families h.sizes))

  dimensions_positive : ltb_ℤ s.ns (pos 1) || ltb_ℤ s.mnmax (pos 1) ≡ false
  dimensions_positive = ground (arith, h.some_surfaces, h.some_modes)

  checked_dimensions : checked_mul (to_size s.ns) (to_size s.mnmax) ≡ some (modes_by_surfaces s)
  checked_dimensions =
      rw
        (
          to_size-nonneg s.ns h.ns (omega (arith, h.some_surfaces)),
          to_size-nonneg s.mnmax h.mnmax (omega (arith, h.some_modes)),
        )
        (checked_mul-some (pos_part s.ns) (pos_part s.mnmax) dimensions_small)

  -- The reader's bound holds in every stream that has room for the families.
  check_state_dimensions_lem :
      (f : InFile)
      → modes_by_surfaces s * (components s * 8) ≤ file_size f
      → check_state_dimensions s.ns s.mnmax (pos (components s)) f ≡ ok (modes_by_surfaces s, f)
  unfolding check_state_dimensions
  check_state_dimensions_lem f room =
      rw
        (
          count_accepted (components s) h.family_count,
          dimensions_positive,
          checked_dimensions,
          needed_bytes_lem (modes_by_surfaces s) (components s) h.family_count h.bytes,
        )
        (ground arith)

module _ {ℓ} {A : Type ℓ} (s : EquilibriumSnapshot) (h : FitsState s) where
  -- The dimension test passes where the families follow, and takes no bytes.
  pub Decodes-dimensions :
      (ys : List ℕ) {a : A} (k : ℕ → Reading A)
      → Decodes (k (modes_by_surfaces s)) (families_bytes s.families ++ ys) a
      → Decodes
          (check_state_dimensions s.ns s.mnmax (pos (components s)) >>= k)
          (families_bytes s.families ++ ys)
          a
  unfolding ◌>>=◌
  Decodes-dimensions ys k d = record {
    at = λ p rest.
        rw
          (check_state_dimensions_lem s h
            (record { position = p; rest = (families_bytes s.families ++ ys) ++ rest })
            (omega (
              arith,
              length-append (families_bytes s.families ++ ys) rest,
              length-append (families_bytes s.families) ys,
              length-families_bytes (modes_by_surfaces s) s.families h.sizes,
            )))
          (d.at p rest);
  }
