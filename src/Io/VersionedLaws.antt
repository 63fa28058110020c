-- ===== src/Io/VersionedLaws.antt =====
-- The versioned binary container of src/cumes/io/versioned_binary.cpp: what is written is read back.
use cu_mes.Base.{
  ℕ, ◌≡◌, ◌⊎◌, inl, inr, refl, ◌∙◌, subst, Bool, true, false, ◌||◌, not, Option, none, some, List,
  [], ◌++◌, append_assoc, ℤ, pos, pos_part, IsI32, ltb_ℤ, eqb_ℤ, leb, Bool-cases, if◌then◌else◌,
  arith,
}
use cu_mes.Io.Outcome.{truncated_component_count, truncated_state}
use cu_mes.Io.File.{OutFile, Reading, ◌>>=◌, pure, ◌then_write◌, with_reason}
use cu_mes.Io.Codec.{Double, i32_bytes, read_i32}
use cu_mes.Io.CodecLaws.{Writes-i32, Writes-bytes, Decodes-i32, Decodes-bytes}
use cu_mes.Io.Spec.{
  written, Decodes, Writes, Decodes-bind, Decodes-last, Decodes-pure, Decodes-with_reason,
  Decodes-require, Writes-then, Writes-regroup,
}
use cu_mes.Io.InputRecord.Written.{FitsExtension}
use cu_mes.Io.Snapshot.{EquilibriumSnapshot, lasym, components}
use cu_mes.Io.State.{check_state_dimensions, read_families, write_state_families}
use cu_mes.Io.StateLaws.{
  FitsState, families_bytes, modes_by_surfaces, Decodes-families, Decodes-dimensions, Writes-state,
}
use cu_mes.Io.Derived.{write_derived_fields}
use cu_mes.Io.DerivedLaws.{FitsDerived, derived_bytes, Writes-derived, Decodes-derived}
use cu_mes.Io.CheckpointLaws.{count_bytes, Writes-count}
use cu_mes.Io.Paths.{same_path_refl}
use cu_mes.Io.SavingLaws.{as_option, refused_or_written}
use cu_mes.Io.Report.{RunReport, double_name, float_name}
use cu_mes.Io.Trailer.{precision_tag_for, write_trailer}
use cu_mes.Io.TrailerLaws.{FitsReport, trailer_bytes, Writes-trailer}
use cu_mes.Io.TrailerBack.{report_part, Decodes-trailer}
use cu_mes.Io.VersionedBinary.{
  binary_magic, binary_version, binary_version_for, write_binary_header, write_tagged_trailer,
  write_binary_payload, BinaryHeader, read_binary_header, Contents, read_report, read_binary_body,
  read_binary_stream,
}

abbrev pub binary_header_bytes : EquilibriumSnapshot → List ℕ
binary_header_bytes s =
    binary_magic
    ++ (i32_bytes (pos (binary_version_for (lasym s))) ++ (i32_bytes s.ns ++ i32_bytes s.mnmax))

-- 0 for "double", 1 for anything else.
abbrev pub tag_of : RunReport → ℤ
tag_of r = elim (precision_tag_for r.build.scalar_type) [ none ↦ pos 1 | some t ↦ t ]

-- The whole container.
abbrev pub binary_bytes : EquilibriumSnapshot → RunReport → List ℕ
binary_bytes s r =
    binary_header_bytes s
    ++ (count_bytes s
        ++ (families_bytes s.families ++ (derived_bytes s ++ trailer_bytes (tag_of r) r (lasym s))))

-- What the container of a report within the limits says of its precision.
pub record IsTagged (r : RunReport) : Type 0 where
  pub found : precision_tag_for r.build.scalar_type ≡ some (tag_of r)
  pub small : IsI32 (tag_of r)
  pub name : (if eqb_ℤ (tag_of r) (pos 0) then double_name else float_name) ≡ r.build.scalar_type

tagged :
    (r : RunReport)
    → (r.build.scalar_type ≡ double_name) ⊎ (r.build.scalar_type ≡ float_name)
    → IsTagged r
unfolding precision_tag_for
tagged r (inl e) = record { found = rw e; small = rw e (omega arith, omega arith); name = rw e }
tagged r (inr e) = record { found = rw e; small = rw e (omega arith, omega arith); name = rw e }

Writes-binary_header :
    (s : EquilibriumSnapshot)
    → Writes (write_binary_header s) (binary_header_bytes s ++ count_bytes s)
unfolding write_binary_header
Writes-binary_header s =
    Writes-regroup
      (Writes-then (Writes-bytes binary_magic) (
        Writes-then (Writes-i32 (pos (binary_version_for (lasym s))))
          (Writes-then (Writes-i32 s.ns) (Writes-then (Writes-i32 s.mnmax) (Writes-count s)))))
      (simp append_assoc)

chain_of_tagged :
    (t : Option ℤ) (tag : ℤ) (r : RunReport) (b : Bool) (f : OutFile)
    → t ≡ some tag
    → as_option (write_tagged_trailer t r b f) ≡ write_trailer tag r b f
chain_of_tagged none tag r b f e = cc
chain_of_tagged (some t) tag r b f e = ground arith

binary_version_small : (b : Bool) → IsI32 (pos (binary_version_for b))
binary_version_small true = (omega arith, omega arith)
binary_version_small false = (omega arith, omega arith)

abbrev binary_header_of : EquilibriumSnapshot → BinaryHeader
binary_header_of s = record {
  magic = binary_magic;
  version = pos (binary_version_for (lasym s));
  ns = s.ns;
  mnmax = s.mnmax;
}

Decodes-binary_header :
    (s : EquilibriumSnapshot)
    → FitsState s
    → Decodes read_binary_header (binary_header_bytes s) (binary_header_of s)
unfolding read_binary_header
Decodes-binary_header s h = Decodes-with_reason _ (
    Decodes-bind _ (Decodes-bytes binary_magic) (
      Decodes-bind _
        (Decodes-i32 (pos (binary_version_for (lasym s))) (binary_version_small (lasym s)))
        (Decodes-bind _ (Decodes-i32 s.ns h.ns) (Decodes-last _ (Decodes-i32 s.mnmax h.mnmax)))))

-- From the dimension test on, for the component count `c` of the stream.
abbrev after_binary_count :
    EquilibriumSnapshot → (List (List Double) → Reading Contents) → ℤ → Reading Contents
after_binary_count s k c = do
  n ← check_state_dimensions s.ns s.mnmax c
  families ← with_reason truncated_state (read_families n (pos_part c))
  k families

Decodes-after_binary_count :
    (s : EquilibriumSnapshot) (ys : List ℕ) (a : Contents)
    (k : List (List Double) → Reading Contents) (c : ℕ)
    → FitsState s
    → components s ≡ c
    → Decodes (k s.families) ys a
    → Decodes (after_binary_count s k (pos c)) (families_bytes s.families ++ ys) a
Decodes-after_binary_count s ys a k c h e d =
    subst (λ c. Decodes (after_binary_count s k (pos c)) (families_bytes s.families ++ ys) a) e
      (Decodes-dimensions s h ys _ (
        Decodes-bind _
          (Decodes-with_reason _ (Decodes-families (modes_by_surfaces s) s.families h.sizes)) d))

abbrev binary_counted : EquilibriumSnapshot → Reading ℤ
binary_counted s =
    if leb 9 (binary_version_for (lasym s))
    then with_reason truncated_component_count read_i32
    else pure (pos 6)

Decodes-binary_counted :
    (s : EquilibriumSnapshot) (ys : List ℕ) (a : Contents)
    (k : List (List Double) → Reading Contents)
    → FitsState s
    → Decodes (k s.families) ys a
    → Decodes
        (binary_counted s >>= after_binary_count s k)
        (count_bytes s ++ (families_bytes s.families ++ ys))
        a
Decodes-binary_counted s ys a k h d = elim (Bool-cases (lasym s)) [
  | inl e ↦ rw e (
      Decodes-bind _ (Decodes-with_reason _ (Decodes-i32 (pos (components s)) (ground arith)))
        (Decodes-after_binary_count s ys a k (components s) h refl d))
  | inr e ↦ rw e (
      Decodes-bind _ (Decodes-pure (pos 6))
        (Decodes-after_binary_count s ys a k 6 h (ground (arith, h.family_count)) d))
]

binary_version_accepted :
    (b : Bool)
    → (not (
          ltb_ℤ (pos (binary_version_for b)) (pos 1)
          || ltb_ℤ (pos binary_version) (pos (binary_version_for b)))
        ≡ true)
      × (leb 8 (binary_version_for b) ≡ true)
binary_version_accepted true = (refl, refl)
binary_version_accepted false = (refl, refl)

module _ (s : EquilibriumSnapshot) (h : FitsState s) (v : FitsDerived s) where
  -- A stream that goes on with what the report takes.
  Decodes-binary_stream :
      (want : Bool) (ys : List ℕ) (a : Contents)
      → Decodes (read_report want (binary_version_for (lasym s)) s) ys a
      → Decodes
          (read_binary_stream want)
          (binary_header_bytes s
            ++ (count_bytes s ++ (families_bytes s.families ++ (derived_bytes s ++ ys))))
          a
  unfolding read_binary_stream read_binary_body
  Decodes-binary_stream want ys a d = Decodes-bind _ (Decodes-binary_header s h) (
      Decodes-require _ _ (same_path_refl binary_magic) (
        Decodes-require _ _ ((binary_version_accepted (lasym s)).0) (
          Decodes-binary_counted s (derived_bytes s ++ ys) a _ h
            (rw ((binary_version_accepted (lasym s)).1) (Decodes-bind _ (Decodes-derived s v) d)))))

  pub Decodes-binary_state :
      Decodes
        (read_binary_stream false)
        (binary_header_bytes s
          ++ (count_bytes s ++ (families_bytes s.families ++ (derived_bytes s ++ []))))
        (s, none)
  Decodes-binary_state =
      Decodes-binary_stream false [] (s, none) (unfold read_report in Decodes-pure _)

  module _ (r : RunReport) (same : r.input_params.lasym ≡ lasym s) (g : FitsReport r)
      (x : FitsExtension (lasym s) r.input_params) where
    pub Decodes-binary :
        Decodes (read_binary_stream true) (binary_bytes s r) (s, some (report_part (lasym s) r))
    Decodes-binary =
        let t = tagged r g.scalar_type in
        Decodes-binary_stream true (trailer_bytes (tag_of r) r (lasym s)) _ (
          unfold read_report in
          Decodes-last _ (Decodes-trailer (lasym s) r (tag_of r) t.small t.name same g x))

  chain_of_binary :
      (r : RunReport) (g : FitsReport r) (f : OutFile)
      → as_option (write_binary_payload s r f)
        ≡ (write_binary_header s
              then_write write_state_families s
              then_write write_derived_fields s
              then_write write_trailer (tag_of r) r (lasym s))
            f
  unfolding write_binary_payload ◌then_write◌
  chain_of_binary r g f = refused_or_written _ (write_binary_header s f) _ _ λ f1.
      refused_or_written _ (write_state_families s f1) _ _ λ f2.
        refused_or_written _ (write_derived_fields s f2) _ _
          λ f3. chain_of_tagged _ (tag_of r) r (lasym s) f3 ((tagged r g.scalar_type).found)

  -- The payload is the whole container, if the device has room for it.
  pub binary_payload_written :
      (r : RunReport)
      → FitsReport r
      → FitsExtension (lasym s) r.input_params
      → (f : OutFile) → as_option (write_binary_payload s r f) ≡ written (binary_bytes s r) f
  binary_payload_written r g x f =
      chain_of_binary r g f
      ∙ (Writes-regroup
            (Writes-then (Writes-binary_header s) (
              Writes-then (Writes-state s h)
                (Writes-then (Writes-derived s v) (Writes-trailer (tag_of r) r (lasym s) g x))))
            (append_assoc (binary_header_bytes s) (count_bytes s) _)).at
          f
