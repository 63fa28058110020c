-- ===== src/Runtime/Construction.antt =====
-- A stage of include/cumes/solver/stage_solver.hpp that carves its workspaces out of the arena.
use Prim.Native.String.{String}
use cu_mes.Base.{
  ℕ, ◌+◌, ◌-◌, ◌*◌, ◌/◌, ◌%◌, ◌^◌, ◌≤◌, ◌<◌, ◌≡◌, refl, sym, subst, ap, ◌∙◌, Option, List, [], ◌∷◌,
  All, ◌==◌, if_either, ◌⊎◌, inl, inr, arith,
}
use cu_mes.Core.CheckedSize.{size_mod}
use cu_mes.Runtime.Bits.{IsPowerOfTwo}
use cu_mes.Runtime.Arena.{
  DeviceArena, ArenaError, bad_alignment, arena_overflow, allocate, release, empty_arena, pointer,
  with_span, carve_span, alloc_span,
}
use cu_mes.Runtime.Carving.{Carved, misaligned, exhausted, placed, carve_span-Carved}
use cu_mes.Runtime.Layout.{Request}
use cu_mes.Runtime.StageArena.{
  Sizes, StageExtents, Attempt, returned, overflowed, raised, StageOutcome, stage_returned,
  stage_arena_seed_bytes, run_in_stage_arena,
}
use cu_mes.Runtime.Retry.{Asks, content, short, Returns, returns, run_in_stage_arena-Returns}
use cu_mes.Runtime.Needs.{advanced, needed, IsAligned, next_is, not_less, all_positive}

module _ {R : Type 0} where
  -- An `ArenaOverflow` ends the construction.
  abbrev pub after_span :
      (ArenaError ⊎ Option ℕ) × DeviceArena → (DeviceArena → Attempt R) → Attempt R
  after_span (inl bad_alignment, a) next = raised
  after_span (inl (arena_overflow required), a) next = overflowed required
  after_span (inr p, a) next = next a

  abbrev pub construct : List Request → R → DeviceArena → Attempt R
  construct [] r a = returned r
  construct (q ∷ rest) r a =
      after_span (alloc_span q.name q.count q.size q.align a) (λ b. construct rest r b)

  -- What one span does to the construction after it.
  span-Asks :
      {name : String} {bytes : ℕ} (q : Request) (rest : List Request) (a : DeviceArena)
      (next : DeviceArena → Attempt R) (res : (ArenaError ⊎ ℕ) × DeviceArena)
      → IsPowerOfTwo q.align
      → All (λ x. 1 ≤ x.align) rest
      → needed rest ((a.used_bytes + q.align - 1) / q.align * q.align + bytes) < size_mod
      → Carved name bytes q.align a res
      → ((b : DeviceArena)
          → b.total_bytes ≡ a.total_bytes
          → b.used_bytes ≡ (a.used_bytes + q.align - 1) / q.align * q.align + bytes
          → b.used_bytes ≤ b.total_bytes
          → Asks (needed rest b.used_bytes) b.total_bytes (next b))
      → Asks
          (needed rest ((a.used_bytes + q.align - 1) / q.align * q.align + bytes))
          a.total_bytes
          (after_span (pointer res.0, res.1) next)
  span-Asks q rest a next _ p h s (misaligned m) later = absurd (m p)
  span-Asks {name} {bytes} q rest a next _ p h s (exhausted offset p' n full) later =
      let same = next_is q.align a.used_bytes offset p n in
      let more = not_less rest (offset + bytes) h in
      let total = subst (λ o. needed rest (o + bytes) < size_mod) (sym same) s in
      subst
        (λ o.
          Asks {R = R} (needed rest (o + bytes)) a.total_bytes
            (overflowed ((offset + bytes) % size_mod)))
        same (short _ (omega (arith, full, more, total)) (omega (arith, more, total)))
  span-Asks {name} {bytes} q rest a next _ p h s (placed offset p' n fits) later =
      let same = next_is q.align a.used_bytes offset p n in
      subst
        (λ o.
          Asks {R = R} (needed rest (o + bytes)) a.total_bytes
            (next (with_span name offset bytes a)))
        same (later (with_span name offset bytes a) refl (ap (λ (o : ℕ). o + bytes) same) fits)

  construct-Asks :
      (limit : ℕ) (requests : List Request) (r : R) (a : DeviceArena)
      → All (IsAligned limit) requests
      → a.used_bytes ≤ a.total_bytes
      → a.total_bytes ≤ limit
      → needed requests a.used_bytes < size_mod
      → Asks (needed requests a.used_bytes) a.total_bytes (construct requests r a)
  unfolding alloc_span
  construct-Asks limit [] r a h u l s = content r
  construct-Asks limit (q ∷ rest) r a h u l s =
      if_either
        (λ (res : (ArenaError ⊎ Option ℕ) × DeviceArena).
          Asks (needed rest (advanced q a.used_bytes)) a.total_bytes
            (after_span res (λ b. construct rest r b)))
        (q.count == 0)
        (λ e.
          let same : advanced q a.used_bytes ≡ a.used_bytes = ground (arith, e) in
          subst (λ n. Asks {R = R} (needed rest n) a.total_bytes (construct rest r a)) (sym same)
            (construct-Asks limit rest r a h.1 u l (subst (λ n. needed rest n < size_mod) same s)))
        (λ e.
          let next = (a.used_bytes + q.align - 1) / q.align * q.align in
          let exact : advanced q a.used_bytes ≡ next + q.count * q.size = ground (arith, e) in
          let ones = all_positive limit rest h.1 in
          let fits = not_less rest (advanced q a.used_bytes) ones in
          let same : advanced q a.used_bytes ≡ next + q.count * q.size % size_mod =
            omega (arith, exact, fits, s) in
          subst
            (λ n. Asks {R = R} (needed rest n) a.total_bytes (
              after_span
                (
                  pointer (carve_span q.name (q.count * q.size % size_mod) q.align a).0,
                  (carve_span q.name (q.count * q.size % size_mod) q.align a).1,
                )
                (λ b. construct rest r b)))
            (sym same)
            (span-Asks q rest a (λ b. construct rest r b) _ h.0.power ones
              (subst (λ n. needed rest n < size_mod) same s)
              (carve_span-Carved q.name (q.count * q.size % size_mod) q.align a
                (record { in_total = u; in_size = omega (arith, l, h.0.room) }))
              (λ b t used in_total.
                construct-Asks limit rest r b h.1 in_total (omega (arith, t, l))
                  (subst (λ n. needed rest n < size_mod) (same ∙ sym used) s))))

  Yields : R → Attempt R → Type 0
  Yields r (returned r') = r' ≡ r
  Yields r (overflowed required) = Unit
  Yields r raised = Unit

  after_span-Yields :
      (r : R) (res : (ArenaError ⊎ Option ℕ) × DeviceArena) (next : DeviceArena → Attempt R)
      → ((b : DeviceArena) → Yields r (next b))
      → Yields r (after_span res next)
  unfolding Yields
  after_span-Yields r (inl bad_alignment, a) next h = tt
  after_span-Yields r (inl (arena_overflow required), a) next h = tt
  after_span-Yields r (inr p, a) next h = h a

  construct-Yields :
      (requests : List Request) (r : R) (a : DeviceArena) → Yields r (construct requests r a)
  unfolding Yields
  construct-Yields [] r a = refl
  construct-Yields (q ∷ rest) r a =
      after_span-Yields r (alloc_span q.name q.count q.size q.align a) (λ b. construct rest r b)
        (λ b. construct-Yields rest r b)

  returned_value :
      (requests : List Request) (r : R) (o : StageOutcome R)
      → Returns (construct requests r) o
      → o ≡ stage_returned r
  unfolding Yields
  returned_value requests r _ (returns budget r' e) =
      ap stage_returned
        (subst (Yields r) e (construct-Yields requests r (allocate budget empty_arena)))

  -- The retry constructs a stage that carves any list of spans, if their alignments are powers of two
  -- and the limit leaves room for them, for the first budget and for twice the bytes needed and a MiB,
  -- and if the bytes needed are at most 32768 times the first budget and a MiB, less a MiB.
  pub run_in_stage_arena-construct :
      (limit : ℕ) (z : Sizes) (p : StageExtents) (requests : List Request) (r : R)
      → limit < size_mod
      → All (IsAligned limit) requests
      → stage_arena_seed_bytes z p ≤ limit
      → 2 * needed requests 0 + 2 ^ 20 ≤ limit
      → needed requests 0 + 2 ^ 20 ≤ 32768 * (stage_arena_seed_bytes z p + 2 ^ 20)
      → run_in_stage_arena z p (construct requests r) ≡ stage_returned r
  unfolding allocate release
  run_in_stage_arena-construct limit z p requests r top h seed small enough =
      returned_value requests r _ (
        run_in_stage_arena-Returns limit z p (needed requests 0) (construct requests r) top
          (λ budget l.
            construct-Asks limit requests r (allocate budget empty_arena) h (omega arith) l
              (omega (arith, small, top)))
          seed small enough)
