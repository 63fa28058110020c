-- ===== src/Config/Coefficients.antt =====
-- What `fold_boundary` of src/cumes/config/validated_problem.cpp puts at a mode: the sums over the
-- harmonics of that mode.
use native.Mathlib.Nat.{mod-eq_of_lt}
use mathlib.Core.List.{foldl}
use cu_mes.Base.{
  ℕ, zero, suc, ◌+◌, ◌*◌, ◌≡◌, ◌≤◌, ◌<◌, ◌∙◌, sym, ap, subst, ◌≢◌, refl, Bool, true, false, ◌&&◌,
  none, some, List, [], ◌∷◌, replicate, All, get_elem?, length, ℤ, pos, negsuc, pos_part, ltb_ℤ,
  ◌≤ℤ◌, ◌==◌, if◌then◌else◌, Bool-cases, inl, inr, arith,
}
use cu_mes.Core.CheckedSize.{to_size}
use cu_mes.Solver.Scalar.{Scalar}
use cu_mes.Config.Spec.{BoundaryHarmonic, ProblemSpec}
use cu_mes.Config.Folding.{
  abs_ℤ, abs_int, sign, mode_index, modify, modify_if, fold_cosine, fold_sine, FoldedBoundary,
  fold_boundary,
}
use cu_mes.Config.Acceptable.{InRange}

-- `std::abs` and the conversion to `size_t` of a small number.
abs_int_small : (n : ℤ) → abs_ℤ n ≤ 15 → to_size (abs_int n) ≡ abs_ℤ n
abs_int_small (pos n) h = ground (arith, h)
abs_int_small (negsuc n) h = ground (arith, h)

-- Different modes have different indices.
index_injective : (m m' k n n' : ℕ) → n < k → n' < k → m * k + n ≡ m' * k + n' → (m ≡ m') × (n ≡ n')
index_injective zero zero k n n' h h' e = (refl, omega (arith, e))
index_injective zero (suc m') k n n' h h' e = absurd (grind arith)
index_injective (suc m) zero k n n' h h' e = absurd (grind arith)
index_injective (suc m) (suc m') k n n' h h' e =
    let r = index_injective m m' k n n' h h' (grind arith) in (ap suc r.0, r.1)

row_small :
    (m mpol : ℤ) → pos 0 ≤ℤ m → pos (pos_part m + 1) ≤ℤ mpol → mpol ≤ℤ pos 16 → pos_part m < 16
row_small (pos m) mpol a b c = omega arith
row_small (negsuc m) mpol a b c = absurd (omega arith)

k_small : (ntor : ℤ) → pos 0 ≤ℤ ntor → ntor ≤ℤ pos 15 → pos_part ntor + 1 ≤ 16
k_small (pos n) a b = omega arith
k_small (negsuc n) a b = absurd (omega arith)

to_size_small : (m : ℤ) → pos 0 ≤ℤ m → pos_part m < 16 → to_size m ≡ pos_part m
to_size_small (pos m) a b = omega arith
to_size_small (negsuc m) a b = absurd (omega arith)

index_small : (m k n : ℕ) → m < 16 → n < k → k ≤ 16 → m * k + n < 512
index_small m k n a b c = grind arith

module _ (s : Scalar) where
  open s use {T}

  -- The harmonics of mode (m, n), in their order.
  abbrev pub at_mode : ℕ → ℕ → List (BoundaryHarmonic s) → List (BoundaryHarmonic s)
  at_mode m n [] = []
  at_mode m n (e ∷ rest) =
      let found = at_mode m n rest in
      if pos_part e.m == m && abs_ℤ e.n == n then e ∷ found else found

  abbrev pub add_value : T → BoundaryHarmonic s → T
  add_value x e = s.plus x e.value

  abbrev pub add_signed : T → BoundaryHarmonic s → T
  add_signed x e = s.plus x (s.times (sign s e.n) e.value)

  abbrev pub subtract_signed : T → BoundaryHarmonic s → T
  subtract_signed x e = s.minus x (s.times (sign s e.n) e.value)

  -- One of the two sums of a loop.
  fold_one :
      ℕ
      → (BoundaryHarmonic s → Bool)
      → (T → BoundaryHarmonic s → T)
      → List (BoundaryHarmonic s)
      → List T
      → List T
  fold_one k test f [] v = v
  fold_one k test f (e ∷ rest) v =
      fold_one k test f rest
        (modify_if s (test e) (λ x. f x e) (mode_index s k e.m (to_size (abs_int e.n))) v)

  abbrev always : BoundaryHarmonic s → Bool
  always e = true

  abbrev above_zero : BoundaryHarmonic s → Bool
  above_zero e = ltb_ℤ (pos 0) e.m

  abbrev tested : (T → BoundaryHarmonic s → T) → T → BoundaryHarmonic s → T
  tested f x e = if above_zero e then f x e else x

  fold_cosine-fold_one :
      (k : ℕ) (es : List (BoundaryHarmonic s)) (v w : List T)
      → fold_cosine s k es (v, w)
        ≡ (fold_one k always add_value es v, fold_one k above_zero add_signed es w)
  unfolding fold_cosine fold_one
  fold_cosine-fold_one k [] v w = refl
  fold_cosine-fold_one k (e ∷ es) v w = fold_cosine-fold_one k es _ _

  fold_sine-fold_one :
      (k : ℕ) (es : List (BoundaryHarmonic s)) (v w : List T)
      → fold_sine s k es (v, w)
        ≡ (fold_one k above_zero add_value es v, fold_one k always subtract_signed es w)
  unfolding fold_sine fold_one
  fold_sine-fold_one k [] v w = refl
  fold_sine-fold_one k (e ∷ es) v w = fold_sine-fold_one k es _ _

  get_elem?-modify_same :
      (f : T → T) (i : ℕ) (v : List T) (x : T)
      → get_elem? v i ≡ some x
      → get_elem? (modify s f i v) i ≡ some (f x)
  unfolding modify
  get_elem?-modify_same f i [] x h = cc
  get_elem?-modify_same f zero (y ∷ v) x h = ground (arith, h)
  get_elem?-modify_same f (suc i) (y ∷ v) x h = get_elem?-modify_same f i v x h

  get_elem?-modify_other :
      (f : T → T) (i j : ℕ) (v : List T)
      → (i == j) ≡ false
      → get_elem? (modify s f i v) j ≡ get_elem? v j
  unfolding modify
  get_elem?-modify_other f i j [] h = refl
  get_elem?-modify_other f zero zero (y ∷ v) h = absurd (ground (arith, h))
  get_elem?-modify_other f zero (suc j) (y ∷ v) h = refl
  get_elem?-modify_other f (suc i) zero (y ∷ v) h = refl
  get_elem?-modify_other f (suc i) (suc j) (y ∷ v) h =
      get_elem?-modify_other f i j v (ground (arith, h))

  -- An entry after a write, in place or elsewhere.
  get_elem?-modify_if_same :
      (test : Bool) (f : T → T) (i j : ℕ) (v : List T) (x : T)
      → i ≡ j
      → get_elem? v j ≡ some x
      → get_elem? (modify_if s test f i v) j ≡ some (if test then f x else x)
  get_elem?-modify_if_same true f i j v x e h =
      subst (λ (l : ℕ). get_elem? (modify s f i v) l ≡ some (f x)) e
        (get_elem?-modify_same f i v x (rw e h))
  get_elem?-modify_if_same false f i j v x e h = h

  get_elem?-modify_if_other :
      (test : Bool) (f : T → T) (i j : ℕ) (v : List T) (x : T)
      → i ≢ j
      → get_elem? v j ≡ some x
      → get_elem? (modify_if s test f i v) j ≡ some x
  get_elem?-modify_if_other true f i j v x e h =
      get_elem?-modify_other f i j v (ground (arith, e)) ∙ h
  get_elem?-modify_if_other false f i j v x e h = h

  length-modify : (f : T → T) (i : ℕ) (v : List T) → length (modify s f i v) ≡ length v
  unfolding modify
  length-modify f i [] = refl
  length-modify f zero (y ∷ v) = refl
  length-modify f (suc i) (y ∷ v) = ap suc (length-modify f i v)

  get_elem?-replicate : (l i : ℕ) → i < l → get_elem? (replicate l s.zero) i ≡ some s.zero
  get_elem?-replicate zero i h = absurd (omega arith)
  get_elem?-replicate (suc l) zero h = refl
  get_elem?-replicate (suc l) (suc i) h = get_elem?-replicate l i (omega arith)

  not_above :
      (e : BoundaryHarmonic s) (m : ℕ) (b : Bool)
      → pos 0 ≤ℤ e.m
      → (pos_part e.m == m && b) ≡ true
      → (m == 0) ≡ true
      → above_zero e ≡ false
  not_above e m b h here first = ground (arith, here, first)

  is_above :
      (e : BoundaryHarmonic s) (m : ℕ) (b : Bool)
      → pos 0 ≤ℤ e.m
      → (pos_part e.m == m && b) ≡ true
      → (m == 0) ≡ false
      → above_zero e ≡ true
  is_above e m b h here later = ground (arith, here, later)

  module _ (mpol ntor : ℤ) (mpol_high : mpol ≤ℤ pos 16) (ntor_low : pos 0 ≤ℤ ntor)
      (ntor_high : ntor ≤ℤ pos 15) where
    abbrev k : ℕ
    k = pos_part ntor + 1

    magnitude_index :
        (e : BoundaryHarmonic s)
        → InRange s mpol ntor e
        → mode_index s k e.m (abs_ℤ e.n) ≡ pos_part e.m * k + abs_ℤ e.n
    unfolding mode_index
    magnitude_index e h =
        let m : ℕ = pos_part e.m in
        let small =
          index_small m k (abs_ℤ e.n) (row_small e.m mpol h.0 h.1 mpol_high) (omega (arith, h.2))
            (k_small ntor ntor_low ntor_high) in
        rw (to_size_small e.m h.0 (omega (arith, row_small e.m mpol h.0 h.1 mpol_high)))
          (mod-eq_of_lt (omega (arith, small)))

    mode_index_lem :
        (e : BoundaryHarmonic s)
        → InRange s mpol ntor e
        → mode_index s k e.m (to_size (abs_int e.n)) ≡ pos_part e.m * k + abs_ℤ e.n
    mode_index_lem e h =
        rw (abs_int_small e.n (omega (arith, h.2, k_small ntor ntor_low ntor_high)))
          (magnitude_index e h)

    fold_one_at :
        (test : BoundaryHarmonic s → Bool) (f : T → BoundaryHarmonic s → T) (m n : ℕ)
        → n < k
        → (es : List (BoundaryHarmonic s)) (v : List T) (x : T) → All (InRange s mpol ntor) es
        → get_elem? v (m * k + n) ≡ some x
        → get_elem? (fold_one k test f es v) (m * k + n)
          ≡ some (foldl (λ x e. if test e then f x e else x) x (at_mode m n es))
    unfolding fold_one
    fold_one_at test f m n small [] v x within h = h
    fold_one_at test f m n small (e ∷ es) v x within h =
        let i = mode_index s k e.m (to_size (abs_int e.n)) in
        let at = mode_index_lem e within.0 in
        elim (Bool-cases (pos_part e.m == m && abs_ℤ e.n == n)) [
          | inl here ↦ rw here (
              fold_one_at test f m n small es _ _ within.1 (
                get_elem?-modify_if_same (test e) (λ x. f x e) i (m * k + n) v x
                  (ground (arith, at, here)) h))
          | inr there ↦ rw there (
              fold_one_at test f m n small es _ x within.1 (
                get_elem?-modify_if_other (test e) (λ x. f x e) i (m * k + n) v x
                  (λ same.
                    let r =
                      index_injective (pos_part e.m) m k (abs_ℤ e.n) n (omega (arith, within.0.2))
                        small (sym at ∙ same) in
                    ground (arith, there, r.0, r.1))
                  h))
        ]

    -- At one mode the loop's test of m is the same for every harmonic.
    foldl-above_zero :
        (f : T → BoundaryHarmonic s → T) (m n : ℕ) (es : List (BoundaryHarmonic s)) (x : T)
        → All (InRange s mpol ntor) es
        → foldl (λ x e. if above_zero e then f x e else x) x (at_mode m n es)
          ≡ (if m == 0 then x else foldl f x (at_mode m n es))
    foldl-above_zero f m n [] x within = ground arith
    foldl-above_zero f m n (e ∷ es) x within =
        elim (Bool-cases (pos_part e.m == m && abs_ℤ e.n == n)) [
          | inl here ↦ elim (Bool-cases (m == 0)) [
            | inl first ↦
                rw (here, first)
                  (ap (λ y. foldl (tested f) y (at_mode m n es))
                      (rw (not_above e m _ within.0.0 here first) refl)
                    ∙ (foldl-above_zero f m n es x within.1 ∙ rw first refl))
            | inr later ↦
                rw (here, later)
                  (ap (λ y. foldl (tested f) y (at_mode m n es))
                      (rw (is_above e m _ within.0.0 here later) refl)
                    ∙ (foldl-above_zero f m n es (f x e) within.1 ∙ rw later refl))
          ]
          | inr there ↦ rw there (foldl-above_zero f m n es x within.1)
        ]

  -- What stands at mode (m, n) in each vector: the sum over the harmonics of the mode.
  pub record IsFolded (spec : ProblemSpec s) (fb : FoldedBoundary s) (m n i : ℕ) : Type 0 where
    pub rbcc : get_elem? fb.rbcc i ≡ some (foldl add_value s.zero (at_mode m n spec.rbc))
    pub rbss :
        get_elem? fb.rbss i
        ≡ some (if m == 0 then s.zero else foldl add_signed s.zero (at_mode m n spec.rbc))
    pub zbsc :
        get_elem? fb.zbsc i
        ≡ some (if m == 0 then s.zero else foldl add_value s.zero (at_mode m n spec.zbs))
    pub zbcs : get_elem? fb.zbcs i ≡ some (foldl subtract_signed s.zero (at_mode m n spec.zbs))
    pub rbsc : get_elem? fb.rbsc i ≡ (
        if spec.lasym
        then some (if m == 0 then s.zero else foldl add_value s.zero (at_mode m n spec.rbs))
        else none)
    pub rbcs :
        get_elem? fb.rbcs i
        ≡ (if spec.lasym then some (foldl subtract_signed s.zero (at_mode m n spec.rbs)) else none)
    pub zbcc :
        get_elem? fb.zbcc i
        ≡ (if spec.lasym then some (foldl add_value s.zero (at_mode m n spec.zbc)) else none)
    pub zbss : get_elem? fb.zbss i ≡ (
        if spec.lasym
        then some (if m == 0 then s.zero else foldl add_signed s.zero (at_mode m n spec.zbc))
        else none)

  -- Every harmonic of the four families is in the range.
  pub record AllInRange (spec : ProblemSpec s) : Type 0 where
    pub rbc : All (InRange s spec.mpol spec.ntor) spec.rbc
    pub zbs : All (InRange s spec.mpol spec.ntor) spec.zbs
    pub rbs : All (InRange s spec.mpol spec.ntor) spec.rbs
    pub zbc : All (InRange s spec.mpol spec.ntor) spec.zbc

  pub fold_boundary-IsFolded :
      (spec : ProblemSpec s) (modes m n : ℕ)
      → spec.mpol ≤ℤ pos 16
      → pos 0 ≤ℤ spec.ntor
      → spec.ntor ≤ℤ pos 15
      → AllInRange spec
      → n < pos_part spec.ntor + 1
      → m * (pos_part spec.ntor + 1) + n < modes
      → IsFolded spec (fold_boundary s spec modes) m n (m * (pos_part spec.ntor + 1) + n)
  unfolding fold_boundary
  fold_boundary-IsFolded spec modes m n a b c r small fits =
      let k = pos_part spec.ntor + 1 in
      let zeros = replicate modes s.zero in
      let start = get_elem?-replicate modes (m * k + n) fits in
      let plain =
        λ (f : T → BoundaryHarmonic s → T) (es : List (BoundaryHarmonic s))
            (w : All (InRange s spec.mpol spec.ntor) es).
          fold_one_at spec.mpol spec.ntor a b c always f m n small es zeros s.zero w start in
      let signed =
        λ (f : T → BoundaryHarmonic s → T) (es : List (BoundaryHarmonic s))
            (w : All (InRange s spec.mpol spec.ntor) es).
          fold_one_at spec.mpol spec.ntor a b c above_zero f m n small es zeros s.zero w start
          ∙ ap some (foldl-above_zero spec.mpol spec.ntor a b c f m n es s.zero w) in
      rw
        (
          fold_cosine-fold_one k spec.rbc zeros zeros,
          fold_sine-fold_one k spec.zbs zeros zeros,
          fold_sine-fold_one k spec.rbs zeros zeros,
          fold_cosine-fold_one k spec.zbc zeros zeros,
        )
        (elim (Bool-cases spec.lasym) [
          | inl asymmetric ↦ rw asymmetric (record {
            rbcc = plain add_value spec.rbc r.rbc;
            rbss = signed add_signed spec.rbc r.rbc;
            zbsc = signed add_value spec.zbs r.zbs;
            zbcs = plain subtract_signed spec.zbs r.zbs;
            rbsc = (signed add_value spec.rbs r.rbs);
            rbcs = (plain subtract_signed spec.rbs r.rbs);
            zbcc = (plain add_value spec.zbc r.zbc);
            zbss = (signed add_signed spec.zbc r.zbc);
          })
          | inr symmetric ↦ rw symmetric (record {
            rbcc = plain add_value spec.rbc r.rbc;
            rbss = signed add_signed spec.rbc r.rbc;
            zbsc = signed add_value spec.zbs r.zbs;
            zbcs = plain subtract_signed spec.zbs r.zbs;
            rbsc = refl;
            rbcs = refl;
            zbcc = refl;
            zbss = refl;
          })
        ])
