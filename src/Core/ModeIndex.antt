-- ===== src/Core/ModeIndex.antt =====
-- The order of the mode table of src/cumes/core/mode_table.cpp.
use cu_mes.Base.{
  ℕ, zero, suc, ◌+◌, ◌-◌, ◌*◌, ◌≤◌, ◌<◌, ◌≡◌, refl, ap, ap₂, ◌∙◌, some, List, [], ◌∷◌, ◌++◌, length,
  length-append, get_elem?, pos_part, arith, ◌↔◌, pos, ◌^◌, ◌%◌, ◌/◌, if◌then◌else◌, ◌==◌,
}
use cu_mes.Core.GridShape.{GridShape}
use cu_mes.Core.ModeTable.{
  TableScalar, ModeParity, ModeEntry, even, odd, wrap_i32, entry, toroidal_loop, poloidal_loop,
  build,
}

module _ {ℓ} {A : Type ℓ} where
  get_elem?-append_left :
      (xs ys : List A) (i : ℕ) → i < length xs → get_elem? (xs ++ ys) i ≡ get_elem? xs i
  get_elem?-append_left [] ys i h = absurd (omega arith)
  get_elem?-append_left (x ∷ xs) ys zero h = refl
  get_elem?-append_left (x ∷ xs) ys (suc i) h = get_elem?-append_left xs ys i (omega arith)

  get_elem?-append_right :
      (xs ys : List A) (i : ℕ)
      → length xs ≤ i
      → get_elem? (xs ++ ys) i ≡ get_elem? ys (i - length xs)
  get_elem?-append_right [] ys i h = ap (get_elem? ys) (omega arith)
  get_elem?-append_right (x ∷ xs) ys zero h = absurd (omega arith)
  get_elem?-append_right (x ∷ xs) ys (suc i) h =
      get_elem?-append_right xs ys i (omega arith) ∙ ap (get_elem? ys) (omega arith)

module _ (scalar : TableScalar) where
  open scalar use {one, root_two, of_int, times}

  length-toroidal_loop :
      (nfp m first left : ℕ) → length (toroidal_loop scalar nfp m first left) ≡ left
  unfolding toroidal_loop
  length-toroidal_loop nfp m first zero = refl
  length-toroidal_loop nfp m first (suc left) = ap suc (length-toroidal_loop nfp m (first + 1) left)

  length-poloidal_loop :
      (nfp ntor first left : ℕ)
      → length (poloidal_loop scalar nfp ntor first left) ≡ left * (ntor + 1)
  unfolding poloidal_loop
  length-poloidal_loop nfp ntor first zero = omega arith
  length-poloidal_loop nfp ntor first (suc left) = omega (
    arith,
    length-append (toroidal_loop scalar nfp first 0 (ntor + 1))
        (poloidal_loop scalar nfp ntor (first + 1) left),
    length-toroidal_loop nfp first 0 (ntor + 1),
    length-poloidal_loop nfp ntor (first + 1) left,
  )

  get_elem?-toroidal_loop :
      (nfp m first left i : ℕ)
      → i < left
      → get_elem? (toroidal_loop scalar nfp m first left) i ≡ some (entry scalar nfp m (first + i))
  unfolding toroidal_loop
  get_elem?-toroidal_loop nfp m first zero i h = absurd (omega arith)
  get_elem?-toroidal_loop nfp m first (suc left) zero h =
      ap (λ (n : ℕ). some (entry scalar nfp m n)) (omega arith)
  get_elem?-toroidal_loop nfp m first (suc left) (suc i) h =
      get_elem?-toroidal_loop nfp m (first + 1) left i (omega arith)
      ∙ ap (λ (n : ℕ). some (entry scalar nfp m n)) (omega arith)

  get_elem?-poloidal_loop :
      (nfp ntor first left i n : ℕ)
      → i < left
      → n ≤ ntor
      → get_elem? (poloidal_loop scalar nfp ntor first left) (i * (ntor + 1) + n)
        ≡ some (entry scalar nfp (first + i) n)
  unfolding poloidal_loop
  get_elem?-poloidal_loop nfp ntor first zero i n h k = absurd (omega arith)
  get_elem?-poloidal_loop nfp ntor first (suc left) zero n h k =
      get_elem?-append_left (toroidal_loop scalar nfp first 0 (ntor + 1)) _ (0 * (ntor + 1) + n)
        (omega (arith, length-toroidal_loop nfp first 0 (ntor + 1)))
      ∙ get_elem?-toroidal_loop nfp first 0 (ntor + 1) (0 * (ntor + 1) + n) (omega arith)
      ∙ ap₂ (λ (m n : ℕ). some (entry scalar nfp m n)) (omega arith) (omega arith)
  get_elem?-poloidal_loop nfp ntor first (suc left) (suc i) n h k =
      get_elem?-append_right (toroidal_loop scalar nfp first 0 (ntor + 1)) _
        (suc i * (ntor + 1) + n) (omega (arith, length-toroidal_loop nfp first 0 (ntor + 1)))
      ∙ ap (get_elem? (poloidal_loop scalar nfp ntor (first + 1) left))
          (omega (arith, length-toroidal_loop nfp first 0 (ntor + 1)))
      ∙ get_elem?-poloidal_loop nfp ntor (first + 1) left i n (omega arith) k
      ∙ ap (λ (m : ℕ). some (entry scalar nfp m n)) (omega arith)

  -- What the table documents of the mode (m, n) of a configuration with `nfp` field periods.
  pub record IsMode (nfp m n : ℕ) (e : ModeEntry scalar) : Type 0 where
    pub poloidal : e.m ≡ m
    pub toroidal : e.n ≡ n
    pub physical : e.physical_n ≡ pos (n * nfp)
    -- the axis belongs to the modes with m = 0 alone
    pub on_axis : (m ≡ 0) ↔ (e.first_surface ≡ 0)
    pub off_axis : (1 ≤ m) ↔ (e.first_surface ≡ 1)
    pub parity_even : (e.parity ≡ even) ↔ ((k : ℕ) × (m ≡ 2 * k))
    pub parity_odd : (e.parity ≡ odd) ↔ ((k : ℕ) × (m ≡ 2 * k + 1))
    -- 1 for the constant mode, and a root of two for each number that is not 0
    pub constant : m ≡ 0 → n ≡ 0 → e.mn_scale ≡ times one one
    pub poloidal_only : 1 ≤ m → n ≡ 0 → e.mn_scale ≡ times root_two one
    pub toroidal_only : m ≡ 0 → 1 ≤ n → e.mn_scale ≡ times one root_two
    pub mixed : 1 ≤ m → 1 ≤ n → e.mn_scale ≡ times root_two root_two
    pub constraint_factor : e.xmpq ≡ of_int (pos (m * (m - 1)))

  abbrev parity_of : ℕ → ModeParity
  parity_of m = if m % 2 == 0 then even else odd

  even_rest : (m : ℕ) → parity_of m ≡ even → m % 2 ≡ 0
  even_rest m e = ground arith

  odd_rest : (m : ℕ) → parity_of m ≡ odd → m % 2 ≡ 1
  odd_rest m e = ground arith

  parity_of_even : (m j : ℕ) → m ≡ 2 * j → parity_of m ≡ even
  parity_of_even m j e = ground (arith, e)

  parity_of_odd : (m j : ℕ) → m ≡ 2 * j + 1 → parity_of m ≡ odd
  parity_of_odd m j e = ground (arith, e)

  wrap_small : (x : ℕ) → x < 2 ^ 31 → wrap_i32 x ≡ pos x
  unfolding wrap_i32
  wrap_small x h = ground (arith, h)

  entry-IsMode :
      (nfp m n : ℕ)
      → n * nfp < 2 ^ 31
      → m * (m - 1) < 2 ^ 31
      → IsMode nfp m n (entry scalar nfp m n)
  unfolding entry
  entry-IsMode nfp m n h k = record {
    poloidal = refl;
    toroidal = refl;
    physical = wrap_small (n * nfp) h;
    on_axis = (λ z. ground (arith, z), λ e. ground arith);
    off_axis = (λ z. ground (arith, z), λ e. ground arith);
    parity_even = (λ e. (m / 2, omega (arith, even_rest m e)), λ (j, e). parity_of_even m j e);
    parity_odd = (λ e. (m / 2, omega (arith, odd_rest m e)), λ (j, e). parity_of_odd m j e);
    constant = λ a b. ground (arith, a, b);
    poloidal_only = λ a b. ground (arith, a, b);
    toroidal_only = λ a b. ground (arith, a, b);
    mixed = λ a b. ground (arith, a, b);
    constraint_factor = ap of_int (wrap_small (m * (m - 1)) k);
  }

  -- For a mode (m, n) whose products n * nfp and m * (m - 1) are within `int`, the table has
  -- `mpol * (ntor + 1)` entries, and the one at the documented index `m * (ntor + 1) + n` has the two
  -- numbers of the mode, its physical toroidal number, first surface, parity, scale and constraint
  -- factor.
  pub build_index :
      (s : GridShape) (m n : ℕ)
      → m < pos_part s.mpol
      → n ≤ pos_part s.ntor
      → n * pos_part s.nfp < 2 ^ 31
      → m * (m - 1) < 2 ^ 31
      → (length (build scalar s) ≡ pos_part s.mpol * (pos_part s.ntor + 1))
        × ((e : ModeEntry scalar) × (get_elem? (build scalar s) (m * (pos_part s.ntor + 1) + n)
              ≡ some e)
            × IsMode (pos_part s.nfp) m n e)
  unfolding build
  build_index s m n h k physical factor = (
    length-poloidal_loop (pos_part s.nfp) (pos_part s.ntor) 0 (pos_part s.mpol),
    (
      entry scalar (pos_part s.nfp) m n,
      get_elem?-poloidal_loop (pos_part s.nfp) (pos_part s.ntor) 0 (pos_part s.mpol) m n h k
          ∙ ap (λ (i : ℕ). some (entry scalar (pos_part s.nfp) i n)) (omega arith),
      entry-IsMode (pos_part s.nfp) m n physical factor,
    ),
  )
