-- ===== src/Runtime/StageArena.antt =====
-- include/cumes/solver/stage_solver.hpp: the first size of a stage's arena, and the retry with a larger
-- one.

use cu_mes.Base.{ℕ, zero, suc, ◌+◌, ◌-◌, ◌*◌, ◌/◌, ◌%◌, ◌^◌, Bool, min, if◌then◌else◌}
use cu_mes.Core.CheckedSize.{size_mod}
use cu_mes.Runtime.Arena.{DeviceArena, allocate, empty_arena}

-- The extents of `DeviceParams` that the first size depends on.
pub record StageExtents : Type 0 where
  pub ns : ℕ
  pub n_znt : ℕ
  pub mnmax : ℕ
  pub ntheta : ℕ
  pub nzeta : ℕ
  pub mpol : ℕ
  pub lasym : Bool

-- `sizeof` of the scalar, of `int`, of the complex scalar and of the control record.
pub record Sizes : Type 0 where
  pub scalar : ℕ
  pub integer : ℕ
  pub complex : ℕ
  pub control : ℕ

abbrev half_theta : StageExtents → ℕ
half_theta p = if p.lasym then p.ntheta else p.ntheta / 2 + 1

-- The profiles, the metric and the mode table; `ns` is at least 1.
unfoldable pub metric_bytes : Sizes → StageExtents → ℕ
metric_bytes z p =
    let nh = p.ns - 1 in
    let jacobian_blocks = min 128 ((nh * p.n_znt + 255) % size_mod / 256) in
    (4 * p.ns + 7 * nh) * z.scalar
    + 15 * nh * p.n_znt * z.scalar
    + jacobian_blocks * (3 * z.scalar + 2 * z.integer)
    + 2 * p.mnmax * z.integer

-- The Fourier part; `p.mpol - 2` is converted to `size_t`.
unfoldable pub fourier_bytes : Sizes → StageExtents → ℕ
fourier_bytes z p =
    let nz2 = p.nzeta / 2 + 1 in
    let batch_da = 2 * (p.mpol + size_mod - 2) * (p.ns - 1) in
    43 * p.ns * p.n_znt * z.scalar
    + 12 * p.mpol * p.ns * nz2 * z.complex
    + 12 * p.mpol * p.ns * p.nzeta * z.scalar
    + 4 * p.mpol * p.ntheta * z.scalar
    + half_theta p * z.scalar
    + 4 * p.mpol * half_theta p * z.scalar
    + batch_da * p.nzeta * z.scalar
    + batch_da * nz2 * z.complex

-- The preconditioner, the constraint and the solver.
unfoldable pub solver_bytes : Sizes → StageExtents → ℕ
solver_bytes z p =
    let nh = p.ns - 1 in
    (25 * nh + 9 * p.ns + 7 * p.mnmax * p.ns + 3 * (p.ns + 1) + 1) * z.scalar
    + p.mnmax * z.integer
    + (10 * p.ns * p.n_znt + p.ns + p.mnmax) * z.scalar
    + ((if p.lasym then 12 else 6) * p.mnmax * p.ns + 4 * (p.ns - 1)) * z.scalar
    + z.control

-- The additions wrap around in `size_t`; 64 * 1024 is the slack for the alignment.
unfoldable pub stage_arena_seed_bytes : Sizes → StageExtents → ℕ
unfolding metric_bytes fourier_bytes solver_bytes
stage_arena_seed_bytes z p =
    (metric_bytes z p + fourier_bytes z p + solver_bytes z p + 64 * 1024) % size_mod

-- What the body of a stage does with an arena: it returns, overflows it, or throws something else.
pub data Attempt (R : Type 0) : Type 0 where
  returned : R → Attempt R
  overflowed : (required_bytes : ℕ) → Attempt R
  raised : Attempt R

pub data StageOutcome (R : Type 0) : Type 0 where
  stage_returned : R → StageOutcome R
  stage_raised : StageOutcome R
  sizing_did_not_converge : StageOutcome R

-- `2 * over.required_bytes + (1u << 20)`
abbrev pub grown_budget : ℕ → ℕ
grown_budget required = (2 * required + 2 ^ 20) % size_mod

module _ {R : Type 0} where
  abbrev pub after_attempt : Attempt R → (ℕ → StageOutcome R) → StageOutcome R
  after_attempt (returned r) retry = stage_returned r
  after_attempt (overflowed required) retry = retry (grown_budget required)
  after_attempt raised retry = stage_raised

  -- The attempts that are left, and the budget of the next one.
  unfoldable pub attempts : ℕ → ℕ → (DeviceArena → Attempt R) → StageOutcome R
  attempts zero budget fn = sizing_did_not_converge
  attempts (suc n) budget fn =
      after_attempt (fn (allocate budget empty_arena)) (λ larger. attempts n larger fn)

  unfoldable pub run_in_stage_arena :
      Sizes → StageExtents → (DeviceArena → Attempt R) → StageOutcome R
  unfolding attempts stage_arena_seed_bytes
  run_in_stage_arena z p fn = attempts 16 (stage_arena_seed_bytes z p) fn
