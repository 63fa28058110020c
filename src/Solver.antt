-- ===== src/Solver.antt =====
-- include/cumes/solver: the fixed-point iteration controller and its policy.
pub mod Scalar
pub mod Policy
pub mod Controller
pub mod Decision
pub mod Actions
pub mod Transitions
pub mod Anchors
pub mod Progress
pub mod History
pub mod StepBound
pub mod Maintenance
pub mod StartPolicy
pub mod Multigrid
pub mod MultigridReport
pub mod Vacuum
pub mod VacuumPasses
pub mod VacuumFactors
pub mod VacuumRestarts
