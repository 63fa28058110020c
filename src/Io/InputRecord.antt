-- ===== src/Io/InputRecord.antt =====
-- The embedded normalized-input record of src/cumes/io/io_common.hpp.
pub mod Check
pub mod Write
pub mod ReadHead
pub mod Read
pub mod Layout
pub mod Written
pub mod Blocks
pub mod ReadBack
pub mod RoundTrip
