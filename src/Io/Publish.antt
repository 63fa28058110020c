-- ===== src/Io/Publish.antt =====
-- include/cumes/io/writer_helpers.hpp: atomic publication. The file system is a map from paths to
-- contents; what the C and POSIX calls answer is given by a `Device`. The bytes that a stream was given
-- are in its file only after the calls that put them there have succeeded.
use cu_mes.Base.{
  ℕ, Bool, true, false, ◌&&◌, ◌==◌, not, Option, none, some, List, [], ◌∷◌, ◌++◌, if◌then◌else◌,
}

abbrev pub FilePath : Type 0
FilePath = List ℕ

-- Two paths of the same bytes.
unfoldable pub same_path : FilePath → FilePath → Bool
same_path [] [] = true
same_path (a ∷ p) (b ∷ q) = (a == b) && same_path p q
same_path _ _ = false

abbrev pub FileSystem : Type 0
FileSystem = FilePath → Option (List ℕ)

unfoldable pub update : FileSystem → FilePath → Option (List ℕ) → FileSystem
update fs p v q = if same_path q p then v else fs q

-- The answers of the system during one publication.
pub record Device : Type 0 where
  -- `fopen(tmp, "wb")` gives a stream
  pub opens : Bool
  -- the bytes that can be written
  pub room : ℕ
  pub flushes : Bool
  pub syncs : Bool
  pub closes : Bool
  pub renames : Bool
  -- the calls on the directory of the target
  pub opens_directory : Bool
  pub syncs_directory : Bool
  pub closes_directory : Bool
  -- whether `remove` removes
  pub removes : Bool
  -- what is in the temporary file before the flush, and after a flush, fsync or close that failed
  pub partial : List ℕ

pub data PublishError : Type 0 where
  fflush_failed fsync_failed fclose_failed rename_failed : PublishError
  directory_open_failed directory_fsync_failed directory_close_failed : PublishError
  reopen_failed library_close_failed : PublishError

-- `path + ".tmp." + pid + "." + sequence`; the text of the two numbers is the argument `tag`.
abbrev pub temp_path_for : FilePath → List ℕ → FilePath
temp_path_for path tag = path ++ (b'.' ∷ b't' ∷ b'm' ∷ b'p' ∷ b'.' ∷ tag)

-- Both `fsync` and `close` are called on a directory that opens; the error of `fsync` comes first.
unfoldable pub fsync_directory_of : Device → Option PublishError
fsync_directory_of d =
    if not d.opens_directory
    then some directory_open_failed
    else if not d.syncs_directory
    then some directory_fsync_failed
    else if not d.closes_directory
    then some directory_close_failed
    else none

-- `remove`; its result is ignored.
unfoldable pub remove : Device → FileSystem → FilePath → FileSystem
unfolding update
remove d fs tmp = if d.removes then update fs tmp none else fs

-- `rename(tmp, path)` moves the contents of `tmp` to `path`.
unfoldable pub rename : FileSystem → FilePath → FilePath → FileSystem
unfolding update
rename fs tmp path = update (update fs path (fs tmp)) tmp none

-- `fflush` puts the bytes of the stream in the file.
unfoldable pub flushed : Device → List ℕ → FilePath → FileSystem → FileSystem
unfolding update
flushed d data_bytes tmp fs = update fs tmp (some (if d.flushes then data_bytes else d.partial))

-- An `fsync` or a close keeps what is in the file, if it succeeds.
unfoldable pub settled : Device → Bool → FilePath → FileSystem → FileSystem
unfolding update
settled d ok tmp fs = if ok then fs else update fs tmp (some d.partial)

unfoldable pub rename_publish :
    Device → FilePath → FilePath → FileSystem → Option PublishError × FileSystem
rename_publish d tmp path fs =
    if d.renames
    then (fsync_directory_of d, rename fs tmp path)
    else (some rename_failed, remove d fs tmp)

-- The stream was given the bytes `data_bytes`. `fsync` is called only after a flush that succeeded,
-- `fclose` in any case.
unfoldable pub publish_atomic :
    Device → List ℕ → FilePath → FilePath → FileSystem → Option PublishError × FileSystem
publish_atomic d data_bytes tmp path fs =
    let after_flush = flushed d data_bytes tmp fs in
    let after_sync = settled d d.syncs tmp after_flush in
    let after_close = settled d d.closes tmp after_sync in
    if not d.flushes
    then (some fflush_failed, remove d (settled d d.closes tmp after_flush) tmp)
    else if not d.syncs
    then (some fsync_failed, remove d after_close tmp)
    else if not d.closes
    then (some fclose_failed, remove d after_close tmp)
    else rename_publish d tmp path after_close

-- For a file that a library has written and closed. `opens`, `syncs` and `closes` of the device are
-- about the descriptor that is opened anew.
unfoldable pub publish_library_file :
    Device → FilePath → FilePath → FileSystem → Option PublishError × FileSystem
publish_library_file d tmp path fs =
    let after_sync = settled d d.syncs tmp fs in
    let after_close = settled d d.closes tmp after_sync in
    if not d.opens
    then (some reopen_failed, remove d fs tmp)
    else if not d.syncs
    then (some fsync_failed, remove d after_close tmp)
    else if not d.closes
    then (some library_close_failed, remove d after_close tmp)
    else rename_publish d tmp path after_close
