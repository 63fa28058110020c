-- ===== src/Examples.antt =====
-- Concrete inputs, and the theorems applied to them.
mod Fixed
mod Sample
mod ReportSample
mod BinaryExamples
mod GridExamples
mod IoExamples
mod SolverExamples
mod MultigridExamples
mod VacuumExamples
mod ArenaExamples
mod ConfigSample
mod ConfigExamples
