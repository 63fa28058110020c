-- ===== src/Io/CheckpointLaws.antt =====
-- The checkpoint of src/cumes/io/checkpoint.cpp: what is written is read back.
use cu_mes.Base.{
  ℕ, ◌≡◌, inl, inr, refl, subst, Bool, true, false, ◌||◌, not, none, some, List, [], ◌++◌,
  append-nil, append_assoc, ℤ, pos, pos_part, IsI32, ltb_ℤ, leb, Bool-cases, if◌then◌else◌, arith,
}
use cu_mes.Io.Outcome.{truncated_component_count, truncated_state}
use cu_mes.Io.File.{Reading, ◌>>=◌, pure, write_nothing, with_reason}
use cu_mes.Io.Codec.{Double, i32_bytes, write_i32, read_i32}
use cu_mes.Io.CodecLaws.{Writes-i32, Writes-bytes, Decodes-i32, Decodes-bytes}
use cu_mes.Io.Spec.{
  Decodes, Writes, Decodes-bind, Decodes-last, Decodes-pure, Decodes-with_reason, Decodes-require,
  Decodes-regroup, Writes-then, Writes-nothing, Writes-regroup,
}
use cu_mes.Io.InputParams.{InputParams}
use cu_mes.Io.InputRecord.Layout.{record_bytes, FitsRecord}
use cu_mes.Io.InputRecord.Written.{FitsExtension}
use cu_mes.Io.InputRecord.RoundTrip.{stored_part, Decodes-input_params}
use cu_mes.Io.InputRecord.RoundTrip.{symmetric_part}
use cu_mes.Io.Snapshot.{EquilibriumSnapshot, default_snapshot, lasym, components}
use cu_mes.Io.State.{check_state_dimensions, read_families}
use cu_mes.Io.StateLaws.{
  FitsState, families_bytes, modes_by_surfaces, Decodes-families, Decodes-dimensions,
}
use cu_mes.Io.Paths.{same_path_refl}
use cu_mes.Io.SavingLaws.{same_flag_of_eq}
use cu_mes.Io.Checkpoint.{
  checkpoint_magic, checkpoint_version, version_for, write_header, Header, read_header,
  read_restart_body, read_restart_record, read_stream, Restart,
}

abbrev pub header_bytes : EquilibriumSnapshot → List ℕ
header_bytes s =
    checkpoint_magic
    ++ (i32_bytes (pos (version_for (lasym s)))
        ++ (i32_bytes (pos 0) ++ (i32_bytes s.ns ++ i32_bytes s.mnmax)))

abbrev pub count_bytes : EquilibriumSnapshot → List ℕ
count_bytes s = if lasym s then i32_bytes (pos (components s)) else []

-- The whole container.
abbrev pub checkpoint_bytes : EquilibriumSnapshot → InputParams → List ℕ
checkpoint_bytes s p =
    header_bytes s ++ (count_bytes s ++ (families_bytes s.families ++ record_bytes (lasym s) p))

pub Writes-count :
    (s : EquilibriumSnapshot)
    → Writes (if lasym s then write_i32 (pos (components s)) else write_nothing) (count_bytes s)
Writes-count s = elim (Bool-cases (lasym s)) [
  | inl e ↦ rw e (Writes-i32 (pos (components s)))
  | inr e ↦ rw e Writes-nothing
]

pub Writes-header :
    (s : EquilibriumSnapshot) → Writes (write_header s) (header_bytes s ++ count_bytes s)
unfolding write_header
Writes-header s =
    Writes-regroup
      (Writes-then (Writes-bytes checkpoint_magic) (
        Writes-then (Writes-i32 (pos (version_for (lasym s)))) (
          Writes-then (Writes-i32 (pos 0))
            (Writes-then (Writes-i32 s.ns) (Writes-then (Writes-i32 s.mnmax) (Writes-count s))))))
      (simp append_assoc)

version_small : (b : Bool) → IsI32 (pos (version_for b))
version_small true = omega arith
version_small false = omega arith

Decodes-header :
    (s : EquilibriumSnapshot)
    → FitsState s
    → Decodes read_header (header_bytes s) (record {
      magic = checkpoint_magic;
      version = pos (version_for (lasym s));
      precision = pos 0;
      ns = s.ns;
      mnmax = s.mnmax;
    })
unfolding read_header
Decodes-header s h = Decodes-with_reason _ (
    Decodes-bind _ (Decodes-bytes checkpoint_magic) (
      Decodes-bind _ (Decodes-i32 (pos (version_for (lasym s))) (version_small (lasym s))) (
        Decodes-bind _ (Decodes-i32 (pos 0) (omega arith))
          (Decodes-bind _ (Decodes-i32 s.ns h.ns) (Decodes-last _ (Decodes-i32 s.mnmax h.mnmax))))))

-- The part of a snapshot that a checkpoint holds.
abbrev pub state_part : EquilibriumSnapshot → EquilibriumSnapshot
state_part s = record default_snapshot { ns = s.ns; mnmax = s.mnmax; families = s.families }

abbrev header_of : EquilibriumSnapshot → Header
header_of s = record {
  magic = checkpoint_magic;
  version = pos (version_for (lasym s));
  precision = pos 0;
  ns = s.ns;
  mnmax = s.mnmax;
}

-- From the dimension test on, for the component count `c` of the stream.
abbrev after_count :
    EquilibriumSnapshot → (List (List Double) → Reading Restart) → ℤ → Reading Restart
after_count s k c = do
  n ← check_state_dimensions s.ns s.mnmax c
  families ← with_reason truncated_state (read_families n (pos_part c))
  k families

Decodes-after_count :
    (s : EquilibriumSnapshot) (ys : List ℕ) (a : Restart) (k : List (List Double) → Reading Restart)
    (c : ℕ)
    → FitsState s
    → components s ≡ c
    → Decodes (k s.families) ys a
    → Decodes (after_count s k (pos c)) (families_bytes s.families ++ ys) a
Decodes-after_count s ys a k c h e d =
    subst (λ c. Decodes (after_count s k (pos c)) (families_bytes s.families ++ ys) a) e
      (Decodes-dimensions s h ys _ (
        Decodes-bind _
          (Decodes-with_reason _ (Decodes-families (modes_by_surfaces s) s.families h.sizes)) d))

abbrev counted : EquilibriumSnapshot → Reading ℤ
counted s =
    if leb 7 (version_for (lasym s))
    then with_reason truncated_component_count read_i32
    else pure (pos 6)

Decodes-counted :
    (s : EquilibriumSnapshot) (ys : List ℕ) (a : Restart) (k : List (List Double) → Reading Restart)
    → FitsState s
    → Decodes (k s.families) ys a
    → Decodes (counted s >>= after_count s k) (count_bytes s ++ (families_bytes s.families ++ ys)) a
Decodes-counted s ys a k h d = elim (Bool-cases (lasym s)) [
  | inl e ↦ rw e (
      Decodes-bind _ (Decodes-with_reason _ (Decodes-i32 (pos (components s)) (ground arith)))
        (Decodes-after_count s ys a k (components s) h refl d))
  | inr e ↦ rw e (
      Decodes-bind _ (Decodes-pure (pos 6))
        (Decodes-after_count s ys a k 6 h (ground (arith, h.family_count)) d))
]

pub lasym-stored_part : (b : Bool) (p : InputParams) → p.lasym ≡ b → (stored_part b p).lasym ≡ b
unfolding symmetric_part
lasym-stored_part true p e = e
lasym-stored_part false p e = refl

Decodes-restart_record :
    (b : Bool) (s : EquilibriumSnapshot) (p : InputParams)
    → lasym s ≡ b
    → p.lasym ≡ b
    → FitsRecord p
    → FitsExtension b p
    → Decodes (read_restart_record (version_for b) s) (record_bytes b p) (s, some (stored_part b p))
unfolding read_restart_record
Decodes-restart_record true s p e q h x = Decodes-require _ _ refl (
    Decodes-regroup
      (Decodes-bind _ (Decodes-input_params true p h x)
        (Decodes-require _ _ (same_flag_of_eq q e) (Decodes-pure _)))
      (append-nil _))
Decodes-restart_record false s p e q h x = Decodes-require _ _ refl (
    Decodes-regroup
      (Decodes-bind _ (Decodes-input_params false p h x)
        (Decodes-require _ _ (same_flag_of_eq (lasym-stored_part false p q) e) (Decodes-pure _)))
      (append-nil _))

module _ (s : EquilibriumSnapshot) (h : FitsState s) where
  version_accepted :
      not (
        ltb_ℤ (pos (version_for (lasym s))) (pos 1)
        || ltb_ℤ (pos checkpoint_version) (pos (version_for (lasym s))))
      ≡ true
  version_accepted = elim (Bool-cases (lasym s)) [ inl e ↦ rw e | inr e ↦ rw e ]

  -- A stream that goes on with what the restart part takes.
  Decodes-stream :
      (want : Bool) (ys : List ℕ) (a : Restart)
      → Decodes (read_restart_body want (version_for (lasym s)) (header_of s)) ys a
      → Decodes (read_stream want) (header_bytes s ++ ys) a
  unfolding read_stream
  Decodes-stream want ys a d = Decodes-bind _ (Decodes-header s h) (
      Decodes-require _ _ (same_path_refl checkpoint_magic)
        (Decodes-require _ _ version_accepted (Decodes-require _ _ refl d)))

  pub Decodes-state_only :
      Decodes
        (read_stream false)
        (header_bytes s ++ (count_bytes s ++ (families_bytes s.families ++ [])))
        (state_part s, none)
  Decodes-state_only =
      Decodes-stream false _ _
        (unfold read_restart_body in Decodes-counted s [] (state_part s, none) _ h (Decodes-pure _))

  module _ (p : InputParams) (same : p.lasym ≡ lasym s) (r : FitsRecord p)
      (x : FitsExtension (lasym s) p) where
    version_has_record : leb 2 (version_for (lasym s)) ≡ true
    version_has_record = elim (Bool-cases (lasym s)) [ inl e ↦ rw e | inr e ↦ rw e ]

    pub Decodes-with_record :
        Decodes
          (read_stream true)
          (checkpoint_bytes s p)
          (state_part s, some (stored_part (lasym s) p))
    Decodes-with_record = Decodes-stream true _ _ (
        unfold read_restart_body in
        Decodes-counted s (record_bytes (lasym s) p) _ _ h
          (rw version_has_record (Decodes-restart_record (lasym s) (state_part s) p refl same r x)))
