-- ===== src/Io/Saving.antt =====
-- What the binary writers share (write_checkpoint of src/cumes/io/checkpoint.cpp and write_atomic of
-- src/cumes/io/versioned_binary.cpp): the symmetry test, the temporary file, and publication.
use cu_mes.Base.{ℕ, Bool, true, false, not, Option, none, some, List, [], if◌then◌else◌}
use cu_mes.Io.File.{OutFile}
use cu_mes.Io.Publish.{
  FilePath, FileSystem, update, remove, Device, PublishError, temp_path_for, publish_atomic,
}

-- The messages of the writers.
pub data WriteError : Type 0 where
  input_symmetry_mismatch cannot_open_temp payload_failed input_record_failed : WriteError
  derived_failed unknown_precision trailer_failed : WriteError
  publish_failed : PublishError → WriteError

pub data Saved : Type 0 where
  saved : OutFile → Saved
  refused : WriteError → Saved

-- `if (!write) return fail(message);`
abbrev pub or_refuse : WriteError → Option OutFile → (OutFile → Saved) → Saved
or_refuse e none k = refused e
or_refuse e (some f) k = k f

abbrev pub same_flag : Bool → Bool → Bool
same_flag true b = b
same_flag false b = not b

abbrev pub status_of : Option PublishError → Option WriteError
status_of none = none
status_of (some e) = some (publish_failed e)

-- `fail` closes and removes the temporary file; its result does not depend on whether that succeeds.
abbrev pub publish_saved :
    Device → FilePath → FilePath → FileSystem → Saved → Option WriteError × FileSystem
publish_saved d tmp path fs (refused e) = (some e, remove d (update fs tmp (some d.partial)) tmp)
publish_saved d tmp path fs (saved f) =
    let (r, after) = publish_atomic d f.data_bytes tmp path (update fs tmp (some d.partial)) in
    (status_of r, after)

-- The writer whose symmetry test has the result `same`: its `Status` (`none` is success) and the file
-- system afterwards.
unfoldable pub save :
    Bool
    → Device
    → List ℕ
    → (OutFile → Saved)
    → FilePath
    → FileSystem
    → Option WriteError × FileSystem
save same d tag payload path fs =
    if not same
    then (some input_symmetry_mismatch, fs)
    else if not d.opens
    then (some cannot_open_temp, fs)
    else publish_saved d (temp_path_for path tag) path fs
        (payload (record { data_bytes = []; room = d.room }))
