-- ===== src/Io/CheckpointStore.antt =====
-- What a checkpoint on the file system reads back to (src/cumes/io/checkpoint.cpp).
use cu_mes.Base.{
  some, ℕ, ◌≤◌, ◌≡◌, refl, sym, ap, ◌∙◌, Bool, true, false, Option, none, some, List, [], ◌++◌,
  append-nil, append_assoc, length,
}
use cu_mes.Io.Outcome.{ok}
use cu_mes.Io.File.{OutFile, ◌then_write◌}
use cu_mes.Io.Spec.{Decodes, Writes, written, Writes-then, Writes-regroup}
use cu_mes.Io.InputParams.{InputParams}
use cu_mes.Io.InputRecord.Write.{write_input_params}
use cu_mes.Io.InputRecord.Layout.{record_bytes, FitsRecord}
use cu_mes.Io.InputRecord.Written.{FitsExtension, Writes-input_params}
use cu_mes.Io.InputRecord.RoundTrip.{stored_part}
use cu_mes.Io.Snapshot.{EquilibriumSnapshot, lasym}
use cu_mes.Io.State.{write_state_families}
use cu_mes.Io.StateLaws.{FitsState, Writes-state}
use cu_mes.Io.Publish.{FilePath, FileSystem, Device}
use cu_mes.Io.Checkpoint.{
  write_header, write_payload, write_checkpoint, read_stream, read_checkpoint, Restart,
}
use cu_mes.Io.CheckpointLaws.{
  checkpoint_bytes, header_bytes, count_bytes, state_part, Writes-header, Decodes-state_only,
  Decodes-with_record,
}
use cu_mes.Io.StateLaws.{FitsState}
use cu_mes.Io.Saving.{WriteError, saved, or_refuse, saved, or_refuse}
use cu_mes.Io.SavingLaws.{
  refused_or_written, as_option, same_flag→eq, same_flag_of_eq, saved_symmetry, saved_contents,
  save_succeeds,
}

written_is_saved : (e : WriteError) (o : Option OutFile) → as_option (or_refuse e o saved) ≡ o
written_is_saved e none = refl
written_is_saved e (some f) = refl

chain_of_payload :
    (s : EquilibriumSnapshot) (p : InputParams) (f : OutFile)
    → as_option (write_payload s p f)
      ≡ (write_header s then_write write_state_families s then_write write_input_params p (lasym s))
          f
unfolding write_payload ◌then_write◌
chain_of_payload s p f = refused_or_written _ (write_header s f) _ _ λ g.
    refused_or_written _ (write_state_families s g) _ _
      λ h. written_is_saved _ (write_input_params p (lasym s) h)

module _ (s : EquilibriumSnapshot) (p : InputParams) (h : FitsState s) (r : FitsRecord p)
    (x : FitsExtension (lasym s) p) where
  Writes-checkpoint :
      Writes
        (write_header s then_write write_state_families s then_write write_input_params p (lasym s))
        (checkpoint_bytes s p)
  Writes-checkpoint =
      Writes-regroup
        (Writes-then (Writes-header s)
          (Writes-then (Writes-state s h) (Writes-input_params (lasym s) p r x)))
        (append_assoc (header_bytes s) (count_bytes s) _)

  -- The payload is the whole container, if the device has room for it.
  payload_written :
      (f : OutFile) → as_option (write_payload s p f) ≡ written (checkpoint_bytes s p) f
  payload_written f = chain_of_payload s p f ∙ Writes-checkpoint.at f

decoded_file :
    (want : Bool) (bytes : List ℕ) (a : Restart) (path : FilePath) (fs : FileSystem)
    → Decodes (read_stream want) bytes a
    → (more : List ℕ) → fs path ≡ some (bytes ++ more)
    → read_checkpoint want path fs ≡ ok a
unfolding read_checkpoint
decoded_file want bytes a path fs d more e = rw (e, read_checkpoint) (rw (d.at 0 more))

module _ (d : Device) (tag : List ℕ) (s : EquilibriumSnapshot) (p : InputParams) (path : FilePath)
    (fs : FileSystem) (h : FitsState s) (r : FitsRecord p) (x : FitsExtension (lasym s) p) where
  checkpoint_contents :
      (write_checkpoint d tag s p path fs).0 ≡ none
      → (p.lasym ≡ lasym s)
        × ((write_checkpoint d tag s p path fs).1 path ≡ some (checkpoint_bytes s p))
  unfolding write_checkpoint
  checkpoint_contents e = (
    same_flag→eq (lasym s) p.lasym (saved_symmetry _ d tag (write_payload s p) path fs e),
    saved_contents _ d tag (write_payload s p) path fs (checkpoint_bytes s p)
        (payload_written s p h r x) e,
  )

  -- For a state and an input record within the limits of the format, after a successful write the
  -- path reads back to the state and, for a caller that asks for it, to the input record, without
  -- the complementary fields of a symmetric one; a caller that does not ask gets the state alone.
  pub read-write_checkpoint :
      (write_checkpoint d tag s p path fs).0 ≡ none
      → (read_checkpoint true path (write_checkpoint d tag s p path fs).1
          ≡ ok (state_part s, some (stored_part (lasym s) p)))
        × (read_checkpoint false path (write_checkpoint d tag s p path fs).1
            ≡ ok (state_part s, none))
  read-write_checkpoint e =
      let (same, contents) = checkpoint_contents e in
      (
        decoded_file true _ _ path _ (Decodes-with_record s h p same r x) []
            (contents ∙ ap some (sym (append-nil _))),
        decoded_file false _ _ path _ (Decodes-state_only s h) (record_bytes (lasym s) p)
            (contents ∙ ap some (simp append_assoc)),
      )

  -- For a state and an input record of one symmetry within the limits of the format, with a system
  -- that answers every call with success, and room for the container, the write succeeds.
  pub write_checkpoint_succeeds :
      p.lasym ≡ lasym s
      → d.opens ≡ true
      → length (checkpoint_bytes s p) ≤ d.room
      → d.flushes ≡ true
      → d.syncs ≡ true
      → d.closes ≡ true
      → d.renames ≡ true
      → d.opens_directory ≡ true
      → d.syncs_directory ≡ true
      → d.closes_directory ≡ true
      → (write_checkpoint d tag s p path fs).0 ≡ none
  unfolding write_checkpoint
  write_checkpoint_succeeds same =
      save_succeeds _ d tag (write_payload s p) path fs (checkpoint_bytes s p)
        (payload_written s p h r x) (same_flag_of_eq refl same)
