-- ===== src/Config.antt =====
-- include/cumes/config and src/cumes/config: the problem, its validation and its JSON form.
pub mod Spec
pub mod Precision
pub mod Profiles
pub mod Report
pub mod Checks
pub mod Folding
pub mod Validate
pub mod Acceptable
pub mod CheckLaws
pub mod Keeping
pub mod Accepted
pub mod Shapes
pub mod Coefficients
pub mod Boundary
pub mod Json
pub mod Reading
pub mod Reader
pub mod Mapping
pub mod ReadAndValidate
pub mod Splines
pub mod ReaderLaws
pub mod ReaderBounds
pub mod ReaderInts
