-- ===== src/Io/VersionedBinary.antt =====
-- src/cumes/io/versioned_binary.cpp: the versioned binary container.
use cu_mes.Base.{
  ℕ, Bool, true, false, not, ◌||◌, Option, none, some, List, ℤ, pos, pos_part, ltb_ℤ, leb,
  if◌then◌else◌,
}
use cu_mes.Io.Outcome.{
  Outcome, ok, err, cannot_open, truncated_header, bad_magic, unsupported_version,
  truncated_component_count, truncated_state,
}
use cu_mes.Io.File.{
  InFile, OutFile, Reading, Writing, ◌>>=◌, ◌>>◌, pure, ◌then_write◌, write_nothing, with_reason,
  require,
}
use cu_mes.Io.Codec.{write_i32, read_i32, write_bytes, read_bytes}
use cu_mes.Io.InputParams.{codes}
use cu_mes.Io.Snapshot.{EquilibriumSnapshot, default_snapshot, lasym, components}
use cu_mes.Io.State.{check_state_dimensions, write_state_families, read_families}
use cu_mes.Io.Derived.{write_derived_fields, read_derived_fields}
use cu_mes.Io.Report.{RunReport}
use cu_mes.Io.Trailer.{precision_tag_for, write_trailer}
use cu_mes.Io.TrailerRead.{read_trailer}
use cu_mes.Io.Publish.{FilePath, FileSystem, same_path, Device}
use cu_mes.Io.Saving.{
  WriteError, payload_failed, derived_failed, unknown_precision, trailer_failed, Saved, saved,
  refused, or_refuse, same_flag, save,
}

abbrev pub binary_magic : List ℕ
binary_magic = codes "CUMES001"

abbrev pub binary_version : ℕ
binary_version = 10

abbrev pub binary_version_for : Bool → ℕ
binary_version_for asymmetric = if asymmetric then binary_version else 8

unfoldable pub write_binary_header : EquilibriumSnapshot → Writing
write_binary_header s =
    write_bytes binary_magic
    then_write write_i32 (pos (binary_version_for (lasym s)))
    then_write write_i32 s.ns
    then_write write_i32 s.mnmax
    then_write (if lasym s then write_i32 (pos (components s)) else write_nothing)

-- The trailer, if the precision has a tag.
abbrev pub write_tagged_trailer : Option ℤ → RunReport → Bool → OutFile → Saved
write_tagged_trailer none r asymmetric f = refused unknown_precision
write_tagged_trailer (some tag) r asymmetric f =
    or_refuse trailer_failed (write_trailer tag r asymmetric f) saved

unfoldable pub write_binary_payload : EquilibriumSnapshot → RunReport → OutFile → Saved
write_binary_payload s r f = or_refuse payload_failed (write_binary_header s f) λ g.
    or_refuse payload_failed (write_state_families s g) λ h.
      or_refuse derived_failed (write_derived_fields s h)
        λ k. write_tagged_trailer (precision_tag_for r.build.scalar_type) r (lasym s) k

-- The `Status` (`none` is success) and the file system afterwards.
unfoldable pub write_atomic :
    Device
    → List ℕ
    → EquilibriumSnapshot
    → RunReport
    → FilePath
    → FileSystem
    → Option WriteError × FileSystem
unfolding save
write_atomic d tag s r path fs =
    save (same_flag (lasym s) r.input_params.lasym) d tag (write_binary_payload s r) path fs

pub record BinaryHeader : Type 0 where
  pub magic : List ℕ
  pub version : ℤ
  pub ns : ℤ
  pub mnmax : ℤ

unfoldable pub read_binary_header : Reading BinaryHeader
read_binary_header = with_reason truncated_header (do
  magic ← read_bytes 8
  version ← read_i32
  ns ← read_i32
  mnmax ← read_i32
  pure (record { magic = magic; version = version; ns = ns; mnmax = mnmax }))

abbrev pub Contents : Type 0
Contents = EquilibriumSnapshot × Option RunReport

-- After the state: the report, if the caller asks for it.
unfoldable pub read_report : Bool → ℕ → EquilibriumSnapshot → Reading Contents
read_report false version s = pure (s, none)
read_report true version s = do r ← read_trailer version (lasym s); pure (s, some r)

-- After the header, whose version is `version`.
unfoldable pub read_binary_body : Bool → ℕ → BinaryHeader → Reading Contents
read_binary_body want version h = do
  count ← (if leb 9 version then with_reason truncated_component_count read_i32 else pure (pos 6))
  n ← check_state_dimensions h.ns h.mnmax count
  families ← with_reason truncated_state (read_families n (pos_part count))
  let s = record default_snapshot { ns = h.ns; mnmax = h.mnmax; families = families }
  t ← (if leb 8 version then read_derived_fields s else pure s)
  read_report want version t

unfoldable pub read_binary_stream : Bool → Reading Contents
read_binary_stream want = do
  h ← read_binary_header
  require (same_path h.magic binary_magic) bad_magic
  require (not (ltb_ℤ h.version (pos 1) || ltb_ℤ (pos binary_version) h.version))
      (unsupported_version h.version)
  read_binary_body want (pos_part h.version) h

abbrev pub contents_of : Outcome (Contents × InFile) → Outcome Contents
contents_of (ok (c, f)) = ok c
contents_of (err e) = err e

-- A path that is not there cannot be opened.
unfoldable pub read_binary : Bool → FilePath → FileSystem → Outcome Contents
read_binary want path fs = elim (fs path) [
  | none ↦ err cannot_open
  | some bytes ↦ contents_of (read_binary_stream want (record { position = 0; rest = bytes }))
]
