-- ===== src/Examples/ArenaExamples.antt =====
-- A small arena, and a stage that needs more memory than its first arena has.

use cu_mes.Base.{ℕ, ◌^◌, ◌≡◌, refl, false, some, List, [], ◌∷◌, inl, inr, All, arith}
use cu_mes.Runtime.Arena.{
  DeviceArena, allocate, release, empty_arena, carve_span, carve_offsets, alloc_span,
  arena_overflow, bad_alignment,
}
use cu_mes.Runtime.Carving.{Carved, HasRoom, carve_span-Carved}
use cu_mes.Runtime.Layout.{
  Request, alloc_all, granted, IsWithinSize, IsWellFormed, alloc_all-IsWellFormed,
}
use cu_mes.Runtime.StageArena.{
  Sizes, StageExtents, stage_returned, run_in_stage_arena, stage_arena_seed_bytes, metric_bytes,
  fourier_bytes, solver_bytes,
}
use cu_mes.Runtime.Bits.{IsPowerOfTwo}
use cu_mes.Runtime.Needs.{IsAligned, needed}
use cu_mes.Runtime.Construction.{construct, run_in_stage_arena-construct}

-- 5 of 64 bytes in use.
abbrev started : DeviceArena
started = record {
  spans = record { name = "flags"; offset = 0; bytes = 5 } ∷ [];
  total_bytes = 64;
  used_bytes = 5;
  peak_bytes = 5;
}

started-HasRoom : HasRoom 8 started
started-HasRoom = record { in_total = omega arith; in_size = omega arith }

carve_span-Carved_example : Carved "fsq" 24 8 started (carve_span "fsq" 24 8 started)
carve_span-Carved_example = carve_span-Carved "fsq" 24 8 started started-HasRoom

-- The span starts at 8; 57 bytes more do not fit; 12 is no power of two.
carved :
    ((carve_span "fsq" 24 8 started).0 ≡ inr 8)
    × ((carve_span "fsq" 57 8 started).0 ≡ inl (arena_overflow 65))
    × ((carve_span "fsq" 8 12 started).0 ≡ inl bad_alignment)
unfolding carve_span carve_offsets
carved = (refl, refl, refl)

-- The product of a count and a size is not checked: 2^61 doubles are granted as a span of no bytes.
oversized : (alloc_span "huge" (2 ^ 61) 8 8 started).0 ≡ inr (some 8)
unfolding alloc_span carve_span carve_offsets
oversized = refl

abbrev request : ℕ → ℕ → ℕ → Request
request count size align = record { name = "span"; count = count; size = size; align = align }

abbrev requests : List Request
requests = request 5 1 1 ∷ request 3 8 8 ∷ request 100 8 8 ∷ request 0 8 8 ∷ request 4 4 4 ∷ []

abbrev small_arena : DeviceArena
small_arena = alloc_all requests (allocate 64 empty_arena)

-- The third request overflows the arena, and the fourth asks for nothing.
small_arena_used : small_arena.used_bytes ≡ 48
unfolding alloc_span carve_span carve_offsets allocate release
small_arena_used = refl

requests-IsWithinSize : All (IsWithinSize 64) requests
requests-IsWithinSize = (
  record { bytes = omega arith; room = omega arith },
  (
    record { bytes = omega arith; room = omega arith },
    (
      record { bytes = omega arith; room = omega arith },
      (
        record { bytes = omega arith; room = omega arith },
        (record { bytes = omega arith; room = omega arith }, tt),
      ),
    ),
  ),
)

alloc_all-IsWellFormed_example :
    IsWellFormed (alloc_all requests (allocate 64 empty_arena))
    × ((alloc_all requests (allocate 64 empty_arena)).spans
        ≡ granted requests (allocate 64 empty_arena))
alloc_all-IsWellFormed_example = alloc_all-IsWellFormed requests 64 requests-IsWithinSize

abbrev sizes : Sizes
sizes = record { scalar = 8; integer = 4; complex = 16; control = 256 }

abbrev extents : StageExtents
extents = record { ns = 5; n_znt = 16; mnmax = 4; ntheta = 16; nzeta = 1; mpol = 4; lasym = false }

-- The first span needs 5 * 10^9 bytes.
abbrev workspaces : List Request
workspaces = request 625000000 8 8 ∷ request 3 1 1 ∷ request 7 4 4 ∷ []

seed : stage_arena_seed_bytes sizes extents ≡ 120864
unfolding stage_arena_seed_bytes metric_bytes fourier_bytes solver_bytes
seed = refl

eight-IsPowerOfTwo : IsPowerOfTwo 8
eight-IsPowerOfTwo = record { exponent = 3; equation = refl }

four-IsPowerOfTwo : IsPowerOfTwo 4
four-IsPowerOfTwo = record { exponent = 2; equation = refl }

one-IsPowerOfTwo : IsPowerOfTwo 1
one-IsPowerOfTwo = record { exponent = 0; equation = refl }

workspaces-IsAligned : All (IsAligned (2 ^ 62)) workspaces
workspaces-IsAligned = (
  record { power = eight-IsPowerOfTwo; room = omega arith },
  (
    record { power = one-IsPowerOfTwo; room = omega arith },
    (record { power = four-IsPowerOfTwo; room = omega arith }, tt),
  ),
)

workspaces_need : needed workspaces 0 ≡ 5000000032
workspaces_need = refl

run_in_stage_arena-construct_example :
    run_in_stage_arena {R = ℕ} sizes extents (construct workspaces 7) ≡ stage_returned 7
run_in_stage_arena-construct_example =
    run_in_stage_arena-construct (2 ^ 62) sizes extents workspaces 7 (omega arith)
      workspaces-IsAligned (omega (arith, seed)) (omega (arith, workspaces_need))
      (omega (arith, seed, workspaces_need))
