-- ===== src/Runtime/Carving.antt =====
-- The answer of `carve_span` of include/cumes/runtime/device_arena.cuh, branch by branch.
use Prim.Native.Nat.{bit_and}
use Prim.Native.String.{String}
use native.Mathlib.Nat.{one-le-pow, pow-le-pow_right, mod-lt, div-add-mod', mul-mod_left}
use cu_mes.Base.{
  ℕ, ◌+◌, ◌-◌, ◌*◌, ◌/◌, ◌%◌, ◌^◌, ◌≤◌, ◌<◌, ◌≡◌, ◌∙◌, sym, subst, ap₂, true, false, not, ◌||◌, ltb,
  ◌==◌, if_either, ◌⊎◌, inl, inr, arith,
}
use cu_mes.Core.CheckedSize.{size_mod, size_max}
use cu_mes.Runtime.Bits.{IsPowerOfTwo, bit_and_power, aligned_mask}
use cu_mes.Runtime.Arena.{
  DeviceArena, ArenaError, bad_alignment, arena_overflow, aligned_offset, carve_offsets, with_span,
  place, carve_span,
}

-- The least multiple of the alignment that is not below the bytes in use.
pub record IsNext (align used offset : ℕ) : Type 0 where
  pub after : used ≤ offset
  pub least : offset < used + align
  pub divides : offset % align ≡ 0

pub data Carved (name : String) (bytes align : ℕ) (a : DeviceArena)
    : (ArenaError ⊎ ℕ) × DeviceArena → Type 0 where
  misaligned : ¬ IsPowerOfTwo align → Carved name bytes align a (inl bad_alignment, a)
  exhausted :
      (offset : ℕ)
      → IsPowerOfTwo align
      → IsNext align a.used_bytes offset
      → a.total_bytes < offset + bytes
      → Carved name bytes align a (inl (arena_overflow ((offset + bytes) % size_mod)), a)
  placed :
      (offset : ℕ)
      → IsPowerOfTwo align
      → IsNext align a.used_bytes offset
      → offset + bytes ≤ a.total_bytes
      → Carved name bytes align a (inr offset, with_span name offset bytes a)

-- The arena leaves room for the alignment below the end of the addresses.
pub record HasRoom (align : ℕ) (a : DeviceArena) : Type 0 where
  pub in_total : a.used_bytes ≤ a.total_bytes
  pub in_size : a.total_bytes + align ≤ size_mod

either_side : (k : ℕ) → (k ≤ 64) ⊎ (65 ≤ k)
either_side k = ground arith

small_exponent : (k : ℕ) → 2 ^ k ≤ 2 ^ 64 → k ≤ 64
small_exponent k h = elim (either_side k) [
  | inl small ↦ small
  | inr large ↦ absurd (omega (arith, h, pow-le-pow_right {n = 2} (omega arith) large))
]

pub rounded : (used p : ℕ) → 1 ≤ p → IsNext p used ((used + p - 1) / p * p)
rounded used p h =
    let whole = div-add-mod' (used + p - 1) p in
    let below = mod-lt (used + p - 1) {m = p} h in
    record {
      after = omega (arith, whole, below);
      least = omega (arith, whole, below);
      divides = mul-mod_left _ _;
    }

-- What the mask computes for a power of two, when the sum does not wrap around.
masked :
    (used k : ℕ)
    → used + 2 ^ k ≤ size_mod
    → bit_and ((used + 2 ^ k - 1) % size_mod) (size_max - (2 ^ k - 1))
      ≡ (used + 2 ^ k - 1) / 2 ^ k * 2 ^ k
masked used k h =
    let positive = one-le-pow k 2 (omega arith) in
    let sum : (used + 2 ^ k - 1) % size_mod ≡ used + 2 ^ k - 1 = omega (arith, h, positive) in
    let mask : size_max - (2 ^ k - 1) ≡ 2 ^ 64 - 2 ^ k = omega (arith, positive) in
    ap₂ bit_and sum mask
    ∙ aligned_mask (used + 2 ^ k - 1) k (omega (arith, h, positive))
        (small_exponent k (omega (arith, h)))

aligned_offset-IsNext :
    (align : ℕ) (a : DeviceArena)
    → IsPowerOfTwo align
    → HasRoom align a
    → IsNext align a.used_bytes (aligned_offset align a)
aligned_offset-IsNext align a p r =
    let room : a.used_bytes + align ≤ size_mod = omega (arith, r.in_total, r.in_size) in
    subst
      (λ q.
        a.used_bytes + q ≤ size_mod
        → IsNext q a.used_bytes (bit_and ((a.used_bytes + q - 1) % size_mod) (size_max - (q - 1))))
      (sym p.equation)
      (λ h.
        subst (IsNext (2 ^ p.exponent) a.used_bytes) (sym (masked a.used_bytes p.exponent h))
          (rounded a.used_bytes (2 ^ p.exponent) (one-le-pow p.exponent 2 (omega arith))))
      room

pub positive_power : (align : ℕ) → IsPowerOfTwo align → 1 ≤ align
positive_power align p = omega (arith, p.equation, one-le-pow p.exponent 2 (omega arith))

refused :
    (align : ℕ)
    → ((align == 0) || not (bit_and align (align - 1) == 0)) ≡ true
    → ¬ IsPowerOfTwo align
refused align h p =
    let positive = positive_power align p in
    ground (arith, h, positive, (bit_and_power align positive).1 p)

granted :
    (align : ℕ)
    → ((align == 0) || not (bit_and align (align - 1) == 0)) ≡ false
    → IsPowerOfTwo align
granted align h = (bit_and_power align (ground (arith, h))).0 (ground (arith, h))

-- `carve_span` refuses an alignment that is no power of two, asks for more bytes exactly if the span
-- does not fit at the least aligned offset after the bytes in use, and else places it there.
pub carve_span-Carved :
    (name : String) (bytes align : ℕ) (a : DeviceArena)
    → HasRoom align a
    → Carved name bytes align a (carve_span name bytes align a)
unfolding carve_span carve_offsets
carve_span-Carved name bytes align a r =
    if_either (λ o. Carved name bytes align a (place name bytes a o))
      ((align == 0) || not (bit_and align (align - 1) == 0)) (λ e. misaligned (refused align e))
      (λ e.
        let power = granted align e in
        let next = aligned_offset-IsNext align a power r in
        let offset = aligned_offset align a in
        if_either (Carved name bytes align a)
          (not (ltb a.total_bytes offset || ltb (a.total_bytes - offset) bytes))
          (λ fits. placed offset power next (ground (arith, fits)))
          (λ full. exhausted offset power next (ground (arith, full))))
