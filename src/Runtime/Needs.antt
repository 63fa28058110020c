-- ===== src/Runtime/Needs.antt =====
-- The bytes that a list of calls of `alloc_span` of include/cumes/runtime/device_arena.cuh needs.

use native.Mathlib.Nat.{div-add-mod', mul-le-mul_right}
use cu_mes.Base.{
  ℕ, ◌+◌, ◌-◌, ◌*◌, ◌/◌, ◌≤◌, ◌<◌, ◌≡◌, List, [], ◌∷◌, All, ◌==◌, if◌then◌else◌, ◌⊎◌, inl, inr,
  arith,
}
use cu_mes.Core.CheckedSize.{size_mod}
use cu_mes.Runtime.Bits.{IsPowerOfTwo, smaller_factor}
use cu_mes.Runtime.Carving.{IsNext, rounded, positive_power}
use cu_mes.Runtime.Layout.{Request}

-- The bytes in use after a request, and after a list of them, in an arena without an end.
abbrev pub advanced : Request → ℕ → ℕ
advanced q used =
    if q.count == 0 then used else (used + q.align - 1) / q.align * q.align + q.count * q.size

abbrev pub needed : List Request → ℕ → ℕ
needed [] used = used
needed (q ∷ rest) used = needed rest (advanced q used)

-- The alignments are powers of two that leave room above the limit.
pub record IsAligned (limit : ℕ) (q : Request) : Type 0 where
  pub power : IsPowerOfTwo q.align
  pub room : limit + q.align ≤ size_mod

no_later : (p a b used : ℕ) → IsNext p used a → IsNext p used b → a ≤ b
no_later p a b used h k = elim (ltb_cases b a) [
  | inl less ↦
      let q =
        smaller_factor (b / p) (a / p) p
          (omega (arith, div-add-mod' a p, div-add-mod' b p, h.divides, k.divides, less)) in
      let gap = mul-le-mul_right {m = b / p + 1} {n = a / p} p (omega (arith, q)) in
      absurd (
        omega
          (arith, gap, div-add-mod' a p, div-add-mod' b p, h.divides, k.divides, h.least, k.after))
  | inr more ↦ more
]
  where
    ltb_cases : (x y : ℕ) → (x < y) ⊎ (y ≤ x)
    ltb_cases x y = ground arith

pub next_is :
    (p used offset : ℕ) → IsPowerOfTwo p → IsNext p used offset → offset ≡ (used + p - 1) / p * p
next_is p used offset power n =
    let other = rounded used p (positive_power p power) in
    omega (
      arith,
      no_later p offset ((used + p - 1) / p * p) used n other,
      no_later p ((used + p - 1) / p * p) offset used other n,
    )

pub not_less :
    (requests : List Request) (used : ℕ)
    → All (λ q. 1 ≤ q.align) requests
    → used ≤ needed requests used
not_less [] used h = omega arith
not_less (q ∷ rest) used h =
    let next = rounded used q.align h.0 in
    let step : used ≤ advanced q used = ground (arith, next.after) in
    omega (arith, step, not_less rest (advanced q used) h.1)

pub all_positive :
    (limit : ℕ) (requests : List Request)
    → All (IsAligned limit) requests
    → All (λ q. 1 ≤ q.align) requests
all_positive limit [] h = tt
all_positive limit (q ∷ rest) h = (positive_power q.align h.0.power, all_positive limit rest h.1)
