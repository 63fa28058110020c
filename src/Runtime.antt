-- ===== src/Runtime.antt =====
-- include/cumes/runtime: the device arena and the retry of a stage in it.
pub mod Bits
pub mod Arena
pub mod Carving
pub mod Layout
pub mod StageArena
pub mod Retry
pub mod Needs
pub mod Construction
