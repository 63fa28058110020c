-- ===== src/Io/CheckpointAtomic.antt =====
-- Atomic publication of a checkpoint (src/cumes/io/checkpoint.cpp).
use cu_mes.Base.{ℕ, List}
use cu_mes.Io.InputParams.{InputParams}
use cu_mes.Io.Snapshot.{EquilibriumSnapshot, lasym}
use cu_mes.Io.Publish.{FilePath, FileSystem, Device}
use cu_mes.Io.Saving.{same_flag}
use cu_mes.Io.SavingLaws.{IsAtomic, save-IsAtomic}
use cu_mes.Io.Checkpoint.{write_payload, write_checkpoint}

-- Whatever the system answers, a call of `write_checkpoint` either leaves the target as it was
-- and reports an error, or puts the complete payload in its place. It leaves a temporary file
-- that was not there only if it reports an error and the removal of the file failed, and no other
-- path changes.
pub write_checkpoint-IsAtomic :
    (d : Device) (tag : List ℕ) (s : EquilibriumSnapshot) (p : InputParams) (path : FilePath)
    (fs : FileSystem)
    → IsAtomic d tag (write_payload s p) path fs (write_checkpoint d tag s p path fs)
unfolding write_checkpoint
write_checkpoint-IsAtomic d tag s p path fs =
    save-IsAtomic d tag (write_payload s p) path fs (same_flag (lasym s) p.lasym)
