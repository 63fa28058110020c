-- ===== src/Runtime/Retry.antt =====
-- When the retry of include/cumes/solver/stage_solver.hpp finds a budget.
use native.Mathlib.Nat.{pow-suc, mul-le-mul_left}
use cu_mes.Base.{ℕ, zero, suc, ◌+◌, ◌*◌, ◌^◌, ◌≤◌, ◌<◌, ◌≡◌, refl, sym, subst, ap, arith}
use cu_mes.Core.CheckedSize.{size_mod}
use cu_mes.Runtime.Arena.{DeviceArena, allocate, empty_arena}
use cu_mes.Runtime.StageArena.{
  Sizes, StageExtents, Attempt, returned, overflowed, StageOutcome, stage_returned, grown_budget,
  after_attempt, attempts, stage_arena_seed_bytes, run_in_stage_arena,
}

-- One doubling of the budget.
doubled_budget :
    (m budget required need : ℕ)
    → need + 2 ^ 20 ≤ 2 ^ suc m * (budget + 2 ^ 20)
    → budget < required
    → need + 2 ^ 20 ≤ 2 ^ m * (2 * required + 2 ^ 20 + 2 ^ 20)
doubled_budget m budget required need h l =
    let grows =
      mul-le-mul_left {m = 2 * (budget + 2 ^ 20)} {n = 2 * required + 2 ^ 20 + 2 ^ 20} (2 ^ m)
        (omega (arith, l)) in
    omega (arith, h, grows, ap (λ (t : ℕ). t * (budget + 2 ^ 20)) (pow-suc 2 m))

module _ {R : Type 0} where
  pub data Asks (need budget : ℕ) : Attempt R → Type 0 where
    content : (r : R) → Asks need budget (returned r)
    short :
        (required : ℕ)
        → budget < required
        → required ≤ need
        → Asks need budget (overflowed required)

  -- The body returns, or asks for more than the arena has and no more than `need`.
  abbrev pub NeedsAtMost : ℕ → ℕ → (DeviceArena → Attempt R) → Type 0
  NeedsAtMost limit need fn =
      (budget : ℕ) → budget ≤ limit → Asks need budget (fn (allocate budget empty_arena))

  pub data Returns (fn : DeviceArena → Attempt R) : StageOutcome R → Type 0 where
    returns :
        (budget : ℕ) (r : R)
        → fn (allocate budget empty_arena) ≡ returned r
        → Returns fn (stage_returned r)

  after_attempt-Returns :
      (limit n budget need : ℕ) (fn : DeviceArena → Attempt R) (x : Attempt R)
      → limit < size_mod
      → fn (allocate budget empty_arena) ≡ x
      → Asks need budget x
      → 2 * need + 2 ^ 20 ≤ limit
      → need + 2 ^ 20 ≤ 2 ^ n * (budget + 2 ^ 20)
      → ((m larger : ℕ)
          → n ≡ suc m
          → larger ≤ limit
          → need + 2 ^ 20 ≤ 2 ^ m * (larger + 2 ^ 20)
          → Returns fn (attempts n larger fn))
      → Returns fn (after_attempt x (λ larger. attempts n larger fn))
  after_attempt-Returns limit n budget need fn _ top e (content r) small enough later =
      returns budget r e
  after_attempt-Returns limit zero budget need fn _ top e (short required more most) small enough
        later =
      absurd (omega (arith, more, most, enough))
  after_attempt-Returns limit (suc m) budget need fn _ top e (short required more most) small enough
        later =
      let exact : grown_budget required ≡ 2 * required + 2 ^ 20 = omega (arith, most, small, top) in
      later m _ refl (omega (arith, exact, most, small)) (
        subst (λ b. need + 2 ^ 20 ≤ 2 ^ m * (b + 2 ^ 20)) (sym exact)
          (doubled_budget m budget required need enough more))

  attempts-Returns :
      (limit n budget need : ℕ) (fn : DeviceArena → Attempt R)
      → limit < size_mod
      → NeedsAtMost limit need fn
      → budget ≤ limit
      → 2 * need + 2 ^ 20 ≤ limit
      → need + 2 ^ 20 ≤ 2 ^ n * (budget + 2 ^ 20)
      → Returns fn (attempts (suc n) budget fn)
  unfolding attempts
  attempts-Returns limit zero budget need fn top h size small enough =
      after_attempt-Returns limit zero budget need fn _ top refl (h budget size) small enough
        (λ m larger e. absurd (omega (arith, e)))
  attempts-Returns limit (suc n) budget need fn top h size small enough =
      after_attempt-Returns limit (suc n) budget need fn _ top refl (h budget size) small enough
        (λ m larger e inside k.
          attempts-Returns limit n larger need fn top h inside small
            (subst (λ i. need + 2 ^ 20 ≤ 2 ^ i * (larger + 2 ^ 20)) (omega (arith, e)) k))

  -- If the body of a stage never throws anything but an overflow, which asks for more than it had and
  -- for at most `need` bytes, and `need` is at most 32768 times the first budget and a MiB, less a MiB,
  -- the retry ends with what the body returned. The limit bounds the budgets that are tried.
  pub run_in_stage_arena-Returns :
      (limit : ℕ) (z : Sizes) (p : StageExtents) (need : ℕ) (fn : DeviceArena → Attempt R)
      → limit < size_mod
      → NeedsAtMost limit need fn
      → stage_arena_seed_bytes z p ≤ limit
      → 2 * need + 2 ^ 20 ≤ limit
      → need + 2 ^ 20 ≤ 32768 * (stage_arena_seed_bytes z p + 2 ^ 20)
      → Returns fn (run_in_stage_arena z p fn)
  unfolding run_in_stage_arena
  run_in_stage_arena-Returns limit z p need fn top h seed small enough =
      attempts-Returns limit 15 (stage_arena_seed_bytes z p) need fn top h seed small enough
