-- ===== src/Io/Checkpoint.antt =====
-- src/cumes/io/checkpoint.cpp: the versioned checkpoint.
use cu_mes.Base.{
  ℕ, ◌-◌, Bool, ◌&&◌, ◌||◌, not, Option, none, some, List, ℤ, pos, pos_part, ltb_ℤ, eqb_ℤ, leb,
  ◌==◌, if◌then◌else◌,
}
use cu_mes.Io.Outcome.{
  Outcome, ok, err, cannot_open, truncated_header, bad_magic, unsupported_version,
  unsupported_precision, truncated_component_count, truncated_state, json_record_unsupported,
  symmetry_mismatch,
}
use cu_mes.Io.File.{
  InFile, OutFile, Reading, Writing, ◌>>=◌, ◌>>◌, pure, ◌then_write◌, write_nothing, with_reason,
  require,
}
use cu_mes.Io.Codec.{write_i32, read_i32, write_bytes, read_bytes}
use cu_mes.Io.InputParams.{InputParams, codes}
use cu_mes.Io.InputRecord.Write.{write_input_params}
use cu_mes.Io.InputRecord.Read.{read_input_params}
use cu_mes.Io.Snapshot.{EquilibriumSnapshot, default_snapshot, lasym, components}
use cu_mes.Io.State.{check_state_dimensions, write_state_families, read_families}
use cu_mes.Io.Saving.{
  WriteError, payload_failed, input_record_failed, Saved, saved, or_refuse, same_flag, save,
}
use cu_mes.Io.Publish.{FilePath, FileSystem, same_path, Device}

abbrev pub checkpoint_magic : List ℕ
checkpoint_magic = codes "CUMECKP1"

abbrev pub checkpoint_version : ℕ
checkpoint_version = 8

-- The version of a container with the given symmetry.
abbrev pub version_for : Bool → ℕ
version_for asymmetric = if asymmetric then checkpoint_version else 6

unfoldable pub write_header : EquilibriumSnapshot → Writing
write_header s =
    write_bytes checkpoint_magic
    then_write write_i32 (pos (version_for (lasym s)))
    then_write write_i32 (pos 0)
    then_write write_i32 s.ns
    then_write write_i32 s.mnmax
    then_write (if lasym s then write_i32 (pos (components s)) else write_nothing)

unfoldable pub write_payload : EquilibriumSnapshot → InputParams → OutFile → Saved
write_payload s p f = or_refuse payload_failed (write_header s f) λ g.
    or_refuse payload_failed (write_state_families s g)
      λ h. or_refuse input_record_failed (write_input_params p (lasym s) h) saved

-- The `Status` (`none` is success) and the file system afterwards.
unfoldable pub write_checkpoint :
    Device
    → List ℕ
    → EquilibriumSnapshot
    → InputParams
    → FilePath
    → FileSystem
    → Option WriteError × FileSystem
unfolding save
write_checkpoint d tag s p path fs =
    save (same_flag (lasym s) p.lasym) d tag (write_payload s p) path fs

pub record Header : Type 0 where
  pub magic : List ℕ
  pub version : ℤ
  pub precision : ℤ
  pub ns : ℤ
  pub mnmax : ℤ

unfoldable pub read_header : Reading Header
read_header = with_reason truncated_header (do
  magic ← read_bytes 8
  version ← read_i32
  precision ← read_i32
  ns ← read_i32
  mnmax ← read_i32
  pure (record { magic = magic; version = version; precision = precision; ns = ns; mnmax = mnmax }))

abbrev pub Restart : Type 0
Restart = EquilibriumSnapshot × Option InputParams

abbrev pub has_profile_types : ℕ → Bool
has_profile_types version = (version == 3) || leb 6 version

abbrev pub free_boundary_extension : ℕ → ℕ
free_boundary_extension version =
    if leb 6 version then 3 else if leb 4 version then version - 2 else 0

unfoldable pub read_restart_record : ℕ → EquilibriumSnapshot → Reading Restart
read_restart_record version s = do
  require (not (version == 7)) json_record_unsupported
  p ←
      read_input_params (has_profile_types version) (free_boundary_extension version)
        (leb 8 version)
  require (same_flag p.lasym (lasym s)) symmetry_mismatch
  pure (s, some p)

-- After the header, whose version is `version`.
unfoldable pub read_restart_body : Bool → ℕ → Header → Reading Restart
read_restart_body want version h = do
  count ← (if leb 7 version then with_reason truncated_component_count read_i32 else pure (pos 6))
  n ← check_state_dimensions h.ns h.mnmax count
  families ← with_reason truncated_state (read_families n (pos_part count))
  let s = record default_snapshot { ns = h.ns; mnmax = h.mnmax; families = families }
  if want && leb 2 version then read_restart_record version s else pure (s, none)

-- `want` says whether the caller asks for the input record.
unfoldable pub read_stream : Bool → Reading Restart
read_stream want = do
  h ← read_header
  require (same_path h.magic checkpoint_magic) bad_magic
  require (not (ltb_ℤ h.version (pos 1) || ltb_ℤ (pos checkpoint_version) h.version))
      (unsupported_version h.version)
  require (eqb_ℤ h.precision (pos 0)) unsupported_precision
  read_restart_body want (pos_part h.version) h

abbrev pub returned : Outcome (Restart × InFile) → Outcome Restart
returned (ok (r, f)) = ok r
returned (err e) = err e

-- A path that is not there cannot be opened.
unfoldable pub read_checkpoint : Bool → FilePath → FileSystem → Outcome Restart
read_checkpoint want path fs = elim (fs path) [
  | none ↦ err cannot_open
  | some bytes ↦ returned (read_stream want (record { position = 0; rest = bytes }))
]
