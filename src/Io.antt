-- ===== src/Io.antt =====
-- include/cumes/io and src/cumes/io: the binary containers.
pub mod Outcome
pub mod File
pub mod Codec
pub mod Spec
pub mod CodecLaws
pub mod InputParams
pub mod InputRecord
pub mod Snapshot
pub mod State
pub mod Derived
pub mod Report
pub mod RestartOffsets
pub mod Trailer
pub mod TrailerRead
pub mod Publish
pub mod Paths
pub mod PublishLaws
pub mod Saving
pub mod SavingLaws
pub mod Checkpoint
pub mod VersionedBinary
pub mod StateLaws
pub mod CheckpointLaws
pub mod DerivedWritten
pub mod DerivedLaws
pub mod TrailerLaws
pub mod TrailerBack
pub mod VersionedLaws
pub mod CheckpointAtomic
pub mod CheckpointStore
pub mod VersionedStore
pub mod StringCap
pub mod OutputSpec
