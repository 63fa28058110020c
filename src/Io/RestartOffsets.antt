-- ===== src/Io/RestartOffsets.antt =====
-- `validate_restart_offsets` of include/cumes/io/run_report.hpp.
use cu_mes.Base.{
  ℕ, ◌≤◌, ◌≡◌, ◌↔◌, refl, ap, ==-refl, Bool, false, not, Option, none, some, List, [], ◌∷◌, length,
  ℤ, pos, negsuc, pos_part, ◌≤ℤ◌, ltb_ℤ, eqb_ℤ, ltb, ◌==◌, if◌then◌else◌, arith,
}

-- The reasons, in the order of the tests.
pub data OffsetError : Type 0 where
  length_differs first_not_zero negative beyond_restarts not_monotonic : OffsetError

-- `g + 1 < nstages && offsets[g + 1] < offsets[g]`
abbrev pub falls : ℤ → List ℤ → Bool
falls a [] = false
falls a (b ∷ _) = ltb_ℤ b a

-- The loop over the stages that are left.
unfoldable pub check_offsets : List ℤ → ℕ → Option OffsetError
check_offsets [] nrestarts = none
check_offsets (a ∷ rest) nrestarts =
    let later = check_offsets rest nrestarts in
    if ltb_ℤ a (pos 0)
    then some negative
    else if ltb nrestarts (pos_part a)
    then some beyond_restarts
    else if falls a rest
    then some not_monotonic
    else later

-- `nstages > 0 && offsets[0] != 0`
abbrev pub starts_wrong : List ℤ → Bool
starts_wrong [] = false
starts_wrong (a ∷ _) = not (eqb_ℤ a (pos 0))

-- `none` is the empty string.
unfoldable pub validate_restart_offsets : List ℤ → ℕ → ℕ → Option OffsetError
unfolding check_offsets
validate_restart_offsets offsets nstages nrestarts =
    if not (length offsets == nstages)
    then some length_differs
    else if starts_wrong offsets
    then some first_not_zero
    else check_offsets offsets nrestarts

-- From `low` to `high`, and never falling.
abbrev pub Rises : ℤ → List ℤ → ℕ → Type 0
Rises low [] high = Unit
Rises low (a ∷ rest) high = (low ≤ℤ a) × (pos 0 ≤ℤ a) × (pos_part a ≤ high) × Rises a rest high

abbrev pub StartsAtZero : List ℤ → Type 0
StartsAtZero [] = Unit
StartsAtZero (a ∷ _) = a ≡ pos 0

-- One offset for each stage, the first 0, none beyond the restarts, and never falling.
pub record IsPartition (offsets : List ℤ) (nstages nrestarts : ℕ) : Type 0 where
  pub count : length offsets ≡ nstages
  pub starts : StartsAtZero offsets
  pub rises : Rises (pos 0) offsets nrestarts

-- What the turn of the loop at `a` tests, when it goes on.
turn_passed :
    (a : ℤ) (b c : Bool) (n : ℕ) (later : Option OffsetError)
    → (if b
        then some negative
        else if ltb n (pos_part a)
        then some beyond_restarts
        else if c
        then some not_monotonic
        else later)
      ≡ none
    → (b ≡ false) × (pos_part a ≤ n) × (c ≡ false) × (later ≡ none)
turn_passed a b c n later h = ground arith

falls-cons : (low a : ℤ) (rest : List ℤ) → falls low (a ∷ rest) ≡ false → low ≤ℤ a
falls-cons low a rest h = ground arith

not_negative : (a : ℤ) → ltb_ℤ a (pos 0) ≡ false → pos 0 ≤ℤ a
not_negative a h = ground arith

check-Rises :
    (low : ℤ) (xs : List ℤ) (n : ℕ)
    → falls low xs ≡ false
    → check_offsets xs n ≡ none
    → Rises low xs n
unfolding check_offsets
check-Rises low [] n f h = tt
check-Rises low (a ∷ rest) n f h =
    let (positive, bounded, rising, later) =
      turn_passed a (ltb_ℤ a (pos 0)) (falls a rest) n (check_offsets rest n) h in
    (falls-cons low a rest f, not_negative a positive, bounded, check-Rises a rest n rising later)

Rises-falls : (low : ℤ) (xs : List ℤ) (n : ℕ) → Rises low xs n → falls low xs ≡ false
Rises-falls low [] n h = refl
Rises-falls low (a ∷ rest) n (l, _, _, _) = ground arith

Rises-check : (low : ℤ) (xs : List ℤ) (n : ℕ) → Rises low xs n → check_offsets xs n ≡ none
unfolding check_offsets
Rises-check low [] n h = refl
Rises-check low (a ∷ rest) n (l, p, b, r) =
    rw (Rises-falls a rest n r, Rises-check a rest n r) (ground arith)

starts_at_zero :
    (xs : List ℤ) → starts_wrong xs ≡ false → StartsAtZero xs × (falls (pos 0) xs ≡ false)
starts_at_zero [] h = (tt, refl)
starts_at_zero (pos n ∷ xs) h = (ap pos (ground arith), ground arith)
starts_at_zero (negsuc n ∷ xs) h = absurd (ground arith)

StartsAtZero-starts : (xs : List ℤ) → StartsAtZero xs → starts_wrong xs ≡ false
StartsAtZero-starts [] h = refl
StartsAtZero-starts (a ∷ xs) h = rw h

tests_passed :
    (n m : ℕ) (b : Bool) (later : Option OffsetError)
    → (if not (n == m) then some length_differs else if b then some first_not_zero else later)
      ≡ none
    → (n ≡ m) × (b ≡ false) × (later ≡ none)
tests_passed n m b later h = ground arith

accepted-IsPartition :
    (xs : List ℤ) (nstages nrestarts : ℕ)
    → validate_restart_offsets xs nstages nrestarts ≡ none
    → IsPartition xs nstages nrestarts
unfolding validate_restart_offsets
accepted-IsPartition xs nstages nrestarts h =
    let (count, first, later) =
      tests_passed (length xs) nstages (starts_wrong xs) (check_offsets xs nrestarts) h in
    let (starts, rising) = starts_at_zero xs first in
    record { count = count; starts = starts; rises = check-Rises (pos 0) xs nrestarts rising later }

IsPartition-accepted :
    (xs : List ℤ) (nstages nrestarts : ℕ)
    → IsPartition xs nstages nrestarts
    → validate_restart_offsets xs nstages nrestarts ≡ none
unfolding validate_restart_offsets
IsPartition-accepted xs nstages nrestarts h = rw (
  h.count,
  ==-refl nstages,
  StartsAtZero-starts xs h.starts,
  Rises-check (pos 0) xs nrestarts h.rises,
)

-- The offsets are accepted exactly if there is one for each stage, the first is 0, none is beyond
-- the number of restarts, and they never fall.
pub validate_restart_offsets_iff :
    (offsets : List ℤ) (nstages nrestarts : ℕ)
    → (validate_restart_offsets offsets nstages nrestarts ≡ none)
      ↔ IsPartition offsets nstages nrestarts
validate_restart_offsets_iff offsets nstages nrestarts =
    (accepted-IsPartition offsets nstages nrestarts, IsPartition-accepted offsets nstages nrestarts)
