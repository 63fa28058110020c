-- ===== src/Core.antt =====
-- include/cumes/core and src/cumes/core: checked sizes, the grid shape, the mode table.
pub mod CheckedSize
pub mod GridShape
pub mod GridBounds
pub mod Validation
pub mod ModeTable
pub mod ModeIndex
