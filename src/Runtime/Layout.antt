-- ===== src/Runtime/Layout.antt =====
-- The spans that a stage carves out of the arena of include/cumes/runtime/device_arena.cuh, together.
use Prim.Native.String.{String}
use cu_mes.Base.{
  ℕ, ◌+◌, ◌*◌, ◌%◌, ◌≤◌, ◌<◌, ◌≡◌, refl, sym, ap, ◌∙◌, subst, append-nil, append_assoc, none, some,
  inl, inr, Option, List, [], ◌∷◌, ◌++◌, All, ◌==◌, if_either, ◌⊎◌, arith,
}
use cu_mes.Core.CheckedSize.{size_mod}
use cu_mes.Runtime.Arena.{
  SpanInfo, DeviceArena, ArenaError, allocate, release, empty_arena, pointer, alloc_span,
}
use cu_mes.Runtime.Carving.{Carved, misaligned, exhausted, placed, carve_span-Carved}

-- The spans lie one after the other, without overlap, from `first` up to `last`.
abbrev pub IsLaidOut : ℕ → List SpanInfo → ℕ → Type 0
IsLaidOut first [] last = first ≤ last
IsLaidOut first (x ∷ xs) last = (first ≤ x.offset) × IsLaidOut (x.offset + x.bytes) xs last

pub record IsWellFormed (a : DeviceArena) : Type 0 where
  pub laid_out : IsLaidOut 0 a.spans a.used_bytes
  pub in_total : a.used_bytes ≤ a.total_bytes
  pub at_peak : a.peak_bytes ≡ a.used_bytes

-- One call of `alloc_span`.
pub record Request : Type 0 where
  pub name : String
  pub count : ℕ
  pub size : ℕ
  pub align : ℕ

abbrev pub alloc_all : List Request → DeviceArena → DeviceArena
alloc_all [] a = a
alloc_all (q ∷ rest) a = alloc_all rest (alloc_span q.name q.count q.size q.align a).1

-- What a call grants its caller: nothing, or a span for all bytes of its elements.
abbrev pub grant : Request → ArenaError ⊎ Option ℕ → List SpanInfo
grant q (inl e) = []
grant q (inr none) = []
grant q (inr (some offset)) =
    record { name = q.name; offset = offset; bytes = q.count * q.size } ∷ []

-- The spans that the calls grant, one after the other.
abbrev pub granted : List Request → DeviceArena → List SpanInfo
granted [] a = []
granted (q ∷ rest) a =
    let (r, after) = alloc_span q.name q.count q.size q.align a in grant q r ++ granted rest after

-- The bytes of the elements are within `size_t`, and the arena leaves room for the alignment below the
-- end of the addresses.
pub record IsWithinSize (total : ℕ) (q : Request) : Type 0 where
  pub bytes : q.count * q.size < size_mod
  pub room : total + q.align ≤ size_mod

IsLaidOut-append :
    (first : ℕ) (xs : List SpanInfo) (last : ℕ) (x : SpanInfo)
    → IsLaidOut first xs last
    → last ≤ x.offset
    → IsLaidOut first (xs ++ x ∷ []) (x.offset + x.bytes)
IsLaidOut-append first [] last x h l = (omega (arith, h, l), omega arith)
IsLaidOut-append first (y ∷ ys) last x h l =
    (h.0, IsLaidOut-append (y.offset + y.bytes) ys last x h.1 l)

Carved-IsWellFormed :
    {name : String} {bytes align : ℕ} {a : DeviceArena} (r : (ArenaError ⊎ ℕ) × DeviceArena)
    → Carved name bytes align a r
    → IsWellFormed a
    → IsWellFormed r.1 × (r.1.total_bytes ≡ a.total_bytes)
Carved-IsWellFormed _ (misaligned p) w = (w, refl)
Carved-IsWellFormed _ (exhausted offset p next full) w = (w, refl)
Carved-IsWellFormed {name} {bytes} {align} {a} _ (placed offset p next fits) w = (
  record {
    laid_out =
        IsLaidOut-append 0 a.spans a.used_bytes
          (record { name = name; offset = offset; bytes = bytes }) w.laid_out next.after;
    in_total = fits;
    at_peak = ground (arith, w.at_peak, next.after);
  },
  refl,
)

Carved-granted :
    (q : Request) {a : DeviceArena} (r : (ArenaError ⊎ ℕ) × DeviceArena)
    → Carved q.name (q.count * q.size % size_mod) q.align a r
    → q.count * q.size < size_mod
    → r.1.spans ≡ a.spans ++ grant q (pointer r.0)
Carved-granted q {a} _ (misaligned p) h = sym (append-nil a.spans)
Carved-granted q {a} _ (exhausted offset p next full) h = sym (append-nil a.spans)
Carved-granted q {a} _ (placed offset p next fits) h =
    ap (λ (b : ℕ). a.spans ++ record { name = q.name; offset = offset; bytes = b } ∷ [])
      (omega (arith, h))

-- What one call does to a well-formed arena.
record IsAllocated (q : Request) (a : DeviceArena) (r : (ArenaError ⊎ Option ℕ) × DeviceArena)
    : Type 0 where
  formed : IsWellFormed r.1
  same_total : r.1.total_bytes ≡ a.total_bytes
  spans : r.1.spans ≡ a.spans ++ grant q r.0

alloc_span-IsAllocated :
    (q : Request) (a : DeviceArena)
    → IsWithinSize a.total_bytes q
    → IsWellFormed a
    → IsAllocated q a (alloc_span q.name q.count q.size q.align a)
unfolding alloc_span
alloc_span-IsAllocated q a h w =
    let carved =
      carve_span-Carved q.name (q.count * q.size % size_mod) q.align a
        (record { in_total = w.in_total; in_size = h.room }) in
    let kept = Carved-IsWellFormed _ carved w in
    if_either (IsAllocated q a) (q.count == 0)
      (λ e. record { formed = w; same_total = refl; spans = sym (append-nil a.spans) })
      (λ e. record {
        formed = kept.0;
        same_total = kept.1;
        spans = Carved-granted q _ carved h.bytes;
      })

alloc_all-kept :
    (requests : List Request) (a : DeviceArena)
    → All (IsWithinSize a.total_bytes) requests
    → IsWellFormed a
    → IsWellFormed (alloc_all requests a)
      × ((alloc_all requests a).spans ≡ a.spans ++ granted requests a)
alloc_all-kept [] a h w = (w, sym (append-nil a.spans))
alloc_all-kept (q ∷ rest) a h w =
    let next = alloc_span-IsAllocated q a h.0 w in
    let after = alloc_span q.name q.count q.size q.align a in
    let (formed, spans) =
      alloc_all-kept rest after.1 (subst (λ t. All (IsWithinSize t) rest) (sym next.same_total) h.1)
        next.formed in
    (
      formed,
      spans
          ∙ ap (λ xs. xs ++ granted rest after.1) next.spans
          ∙ append_assoc a.spans (grant q after.0) (granted rest after.1),
    )

-- After any calls of `alloc_span` on a fresh arena, failed ones included, each for elements whose
-- bytes are within `size_t`, and with room for the alignment below the end of the addresses: the spans
-- granted, each of the bytes of all its elements, are those that the arena registers, and they lie one
-- after the other without overlap in the bytes in use, which fit in the arena and are its peak.
pub alloc_all-IsWellFormed :
    (requests : List Request) (total : ℕ)
    → All (IsWithinSize total) requests
    → IsWellFormed (alloc_all requests (allocate total empty_arena))
      × ((alloc_all requests (allocate total empty_arena)).spans
          ≡ granted requests (allocate total empty_arena))
unfolding allocate release
alloc_all-IsWellFormed requests total h =
    alloc_all-kept requests _ h
      (record { laid_out = omega arith; in_total = omega arith; at_peak = refl })
