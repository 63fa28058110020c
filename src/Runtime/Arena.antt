-- ===== src/Runtime/Arena.antt =====
-- include/cumes/runtime/device_arena.cuh: spans that are carved out of one allocation. A pointer into
-- the arena is its offset from `data()`, and the null pointer is `none`. The device memory itself is
-- left out, and so are the calls that need it (`zero_span`, and a failure of `cudaMalloc`).
use Prim.Native.Nat.{bit_and}
use Prim.Native.String.{String}
use cu_mes.Base.{
  ℕ, ◌+◌, ◌-◌, ◌*◌, ◌%◌, Bool, not, ◌||◌, Option, none, some, List, [], ◌∷◌, ◌++◌, length, ltb,
  ◌==◌, if◌then◌else◌, ◌⊎◌, inl, inr,
}
use cu_mes.Core.CheckedSize.{size_mod, size_max}

pub record SpanInfo : Type 0 where
  pub name : String
  pub offset : ℕ
  pub bytes : ℕ

pub record DeviceArena : Type 0 where
  pub spans : List SpanInfo
  pub total_bytes : ℕ
  pub used_bytes : ℕ
  pub peak_bytes : ℕ

-- `CumesError` of an alignment, and `ArenaOverflow` with the bytes that it asks for.
pub data ArenaError : Type 0 where
  bad_alignment : ArenaError
  arena_overflow : (required_bytes : ℕ) → ArenaError

abbrev pub empty_arena : DeviceArena
empty_arena = record { spans = []; total_bytes = 0; used_bytes = 0; peak_bytes = 0 }

-- `release` leaves the empty arena.
unfoldable pub release : DeviceArena → DeviceArena
release a = empty_arena

unfoldable pub allocate : ℕ → DeviceArena → DeviceArena
unfolding release
allocate bytes a = record (release a) { total_bytes = bytes; used_bytes = 0 }

-- The arena that the move assigns, and the one that it leaves behind.
unfoldable pub move_from : DeviceArena → DeviceArena × DeviceArena
move_from other =
    (other, record other { spans = []; total_bytes = 0; used_bytes = 0; peak_bytes = 0 })

-- `(used_bytes_ + align - 1) & ~(align - 1)`
abbrev pub aligned_offset : ℕ → DeviceArena → ℕ
aligned_offset align a = bit_and ((a.used_bytes + align - 1) % size_mod) (size_max - (align - 1))

-- The offset of a span, and whether it fits.
unfoldable pub carve_offsets : ℕ → ℕ → DeviceArena → ArenaError ⊎ (ℕ × Bool)
carve_offsets bytes align a =
    if (align == 0) || not (bit_and align (align - 1) == 0)
    then inl bad_alignment
    else inr (
      aligned_offset align a,
      not (
          ltb a.total_bytes (aligned_offset align a)
          || ltb (a.total_bytes - aligned_offset align a) bytes),
    )

-- The arena with the span registered.
abbrev pub with_span : String → ℕ → ℕ → DeviceArena → DeviceArena
with_span name offset bytes a =
    let used = offset + bytes in
    record a {
      spans = a.spans ++ record { name = name; offset = offset; bytes = bytes } ∷ [];
      used_bytes = used;
      peak_bytes = if ltb a.peak_bytes used then used else a.peak_bytes;
    }

-- `required_bytes` of an `ArenaOverflow` is the sum in `size_t`.
abbrev pub place :
    String → ℕ → DeviceArena → ArenaError ⊎ (ℕ × Bool) → (ArenaError ⊎ ℕ) × DeviceArena
place name bytes a (inl e) = (inl e, a)
place name bytes a (inr (offset, fits)) =
    if fits
    then (inr offset, with_span name offset bytes a)
    else (inl (arena_overflow ((offset + bytes) % size_mod)), a)

unfoldable pub carve_span : String → ℕ → ℕ → DeviceArena → (ArenaError ⊎ ℕ) × DeviceArena
unfolding carve_offsets
carve_span name bytes align a = place name bytes a (carve_offsets bytes align a)

abbrev pub pointer : ArenaError ⊎ ℕ → ArenaError ⊎ Option ℕ
pointer (inl e) = inl e
pointer (inr offset) = inr (some offset)

-- `size` is `sizeof(T)`; the product is not checked.
unfoldable pub alloc_span : String → ℕ → ℕ → ℕ → DeviceArena → (ArenaError ⊎ Option ℕ) × DeviceArena
unfolding carve_span
alloc_span name count size align a =
    if count == 0
    then (inr none, a)
    else let (carved, after) = carve_span name (count * size % size_mod) align a in
      (pointer carved, after)

unfoldable pub span_count : DeviceArena → ℕ
span_count a = length a.spans

unfoldable pub empty : DeviceArena → Bool
empty a = a.total_bytes == 0
