-- ===== src/Io/VersionedStore.antt =====
-- A versioned binary container on the file system (src/cumes/io/versioned_binary.cpp).
use cu_mes.Base.{
  ℕ, ◌≡◌, ◌≤◌, refl, sym, ap, ◌∙◌, Bool, true, false, none, some, List, [], ◌++◌, append-nil,
  append_assoc, length,
}
use cu_mes.Io.Outcome.{ok}
use cu_mes.Io.Spec.{Decodes}
use cu_mes.Io.InputRecord.Written.{FitsExtension}
use cu_mes.Io.Snapshot.{EquilibriumSnapshot, lasym}
use cu_mes.Io.StateLaws.{FitsState}
use cu_mes.Io.DerivedLaws.{FitsDerived}
use cu_mes.Io.Report.{RunReport}
use cu_mes.Io.TrailerLaws.{FitsReport, trailer_bytes}
use cu_mes.Io.TrailerBack.{report_part}
use cu_mes.Io.Publish.{FilePath, FileSystem, Device}
use cu_mes.Io.Saving.{same_flag}
use cu_mes.Io.SavingLaws.{
  IsAtomic, save-IsAtomic, same_flag→eq, same_flag_of_eq, saved_symmetry, saved_contents,
  save_succeeds,
}
use cu_mes.Io.VersionedBinary.{
  write_binary_payload, write_atomic, Contents, read_binary_stream, read_binary,
}
use cu_mes.Io.VersionedLaws.{
  tag_of, binary_bytes, binary_payload_written, Decodes-binary, Decodes-binary_state,
}

-- Whatever the system answers, a call of `write_atomic` either leaves the target as it was and
-- reports an error, or puts the complete payload in its place. It leaves a temporary file that was
-- not there only if it reports an error and the removal of the file failed, and no other path changes.
pub write_atomic-IsAtomic :
    (d : Device) (tag : List ℕ) (s : EquilibriumSnapshot) (r : RunReport) (path : FilePath)
    (fs : FileSystem)
    → IsAtomic d tag (write_binary_payload s r) path fs (write_atomic d tag s r path fs)
unfolding write_atomic
write_atomic-IsAtomic d tag s r path fs =
    save-IsAtomic d tag (write_binary_payload s r) path fs
      (same_flag (lasym s) r.input_params.lasym)

decoded_container :
    (want : Bool) (bytes : List ℕ) (a : Contents) (path : FilePath) (fs : FileSystem)
    → Decodes (read_binary_stream want) bytes a
    → (more : List ℕ) → fs path ≡ some (bytes ++ more)
    → read_binary want path fs ≡ ok a
unfolding read_binary
decoded_container want bytes a path fs d more e = rw (e, read_binary) (rw (d.at 0 more))

module _ (d : Device) (tag : List ℕ) (s : EquilibriumSnapshot) (r : RunReport) (path : FilePath)
    (fs : FileSystem) (h : FitsState s) (v : FitsDerived s) (g : FitsReport r)
    (x : FitsExtension (lasym s) r.input_params) where
  binary_contents :
      (write_atomic d tag s r path fs).0 ≡ none
      → (r.input_params.lasym ≡ lasym s)
        × ((write_atomic d tag s r path fs).1 path ≡ some (binary_bytes s r))
  unfolding write_atomic
  binary_contents e = (
    same_flag→eq (lasym s) r.input_params.lasym
        (saved_symmetry _ d tag (write_binary_payload s r) path fs e),
    saved_contents _ d tag (write_binary_payload s r) path fs (binary_bytes s r)
        (binary_payload_written s h v r g x) e,
  )

  -- For a state with all its real-space fields or none, and a report, within the limits of the
  -- format, after a successful write the path reads back to the whole snapshot and, for a caller
  -- that asks for it, to the report, whose input record lacks the complementary fields if it is
  -- symmetric; a caller that does not ask gets the snapshot alone.
  pub read-write_atomic :
      (write_atomic d tag s r path fs).0 ≡ none
      → (read_binary true path (write_atomic d tag s r path fs).1
          ≡ ok (s, some (report_part (lasym s) r)))
        × (read_binary false path (write_atomic d tag s r path fs).1 ≡ ok (s, none))
  read-write_atomic e =
      let (same, contents) = binary_contents e in
      (
        decoded_container true _ _ path _ (Decodes-binary s h v r same g x) []
            (contents ∙ ap some (sym (append-nil _))),
        decoded_container false _ _ path _ (Decodes-binary_state s h v)
            (trailer_bytes (tag_of r) r (lasym s)) (contents ∙ ap some (simp append_assoc)),
      )

  -- For a state and a report of one symmetry within the limits of the format, with a system that
  -- answers every call with success, and room for the container, the write succeeds.
  pub write_atomic_succeeds :
      r.input_params.lasym ≡ lasym s
      → d.opens ≡ true
      → length (binary_bytes s r) ≤ d.room
      → d.flushes ≡ true
      → d.syncs ≡ true
      → d.closes ≡ true
      → d.renames ≡ true
      → d.opens_directory ≡ true
      → d.syncs_directory ≡ true
      → d.closes_directory ≡ true
      → (write_atomic d tag s r path fs).0 ≡ none
  unfolding write_atomic
  write_atomic_succeeds same =
      save_succeeds _ d tag (write_binary_payload s r) path fs (binary_bytes s r)
        (binary_payload_written s h v r g x) (same_flag_of_eq refl same)
