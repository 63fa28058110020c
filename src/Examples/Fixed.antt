-- ===== src/Examples/Fixed.antt =====
-- A scalar of whole millionths, for runs of the controller on concrete numbers. Its logarithm is the
-- identity.
use cu_mes.Base.{
  ℕ, ◌+◌, ◌-◌, ◌*◌, ◌/◌, ◌^◌, ◌≡◌, Bool, true, ◌&&◌, ◌||◌, not, ltb, leb, if◌then◌else◌, ℤ, pos,
  negsuc, pos_part, neg_part, ltb_ℤ, leb_ℤ, eqb_ℤ, arith,
}
use cu_mes.Solver.Scalar.{Scalar}
use cu_mes.Solver.StepBound.{IsOrdered}

abbrev difference : ℕ → ℕ → ℤ
difference a b = if leb b a then pos (a - b) else negsuc (b - a - 1)

abbrev magnitude : ℤ → ℕ
magnitude a = pos_part a + neg_part a

abbrev is_negative : ℤ → Bool
is_negative a = ltb 0 (neg_part a)

abbrev signed : Bool → ℕ → ℤ
signed negative n = if negative then difference 0 n else pos n

abbrev differs : Bool → Bool → Bool
differs a b = (a && not b) || (b && not a)

abbrev million : ℕ
million = 1000000

abbrev pub times : ℤ → ℤ → ℤ
times a b = signed (differs (is_negative a) (is_negative b)) (magnitude a * magnitude b / million)

abbrev pub over : ℤ → ℤ → ℤ
over a b = signed (differs (is_negative a) (is_negative b)) (magnitude a * million / magnitude b)

abbrev plus : ℤ → ℤ → ℤ
plus a b = difference (pos_part a + pos_part b) (neg_part a + neg_part b)

abbrev minus : ℤ → ℤ → ℤ
minus a b = difference (pos_part a + neg_part b) (neg_part a + pos_part b)

abbrev pub fixed : Scalar
fixed = record {
  T = ℤ;
  zero = pos 0;
  one = pos million;
  decimal = λ m d. pos (m * million / 10 ^ d);
  negate = λ a. difference (neg_part a) (pos_part a);
  plus = plus;
  minus = minus;
  times = times;
  over = over;
  fmax = λ a b. if ltb_ℤ a b then b else a;
  abs = λ a. pos (magnitude a);
  log = λ a. a;
  lt = ltb_ℤ;
  le = leb_ℤ;
  eq = eqb_ℤ;
  is_finite = λ a. true;
}

-- `y` lies between 0 and `x`.
abbrev Shrinks : ℤ → ℤ → Type 0
Shrinks x y = (leb_ℤ (pos 0) y ≡ true) × (leb_ℤ y x ≡ true)

restart-Shrinks : (x : ℤ) → leb_ℤ (pos 0) x ≡ true → Shrinks x (times x (pos 900000))
restart-Shrinks (pos n) h = ground arith
restart-Shrinks (negsuc n) h = absurd (ground arith)

progress-Shrinks : (x : ℤ) → leb_ℤ (pos 0) x ≡ true → Shrinks x (over x (pos 1030000))
progress-Shrinks (pos n) h = ground arith
progress-Shrinks (negsuc n) h = absurd (ground arith)

first-Shrinks : (x : ℤ) → leb_ℤ (pos 0) x ≡ true → Shrinks x (times (pos 980000) x)
first-Shrinks (pos n) h = ground arith
first-Shrinks (negsuc n) h = absurd (ground arith)

second-Shrinks : (x : ℤ) → leb_ℤ (pos 0) x ≡ true → Shrinks x (times (pos 960000) x)
second-Shrinks (pos n) h = ground arith
second-Shrinks (negsuc n) h = absurd (ground arith)

recovery_not_negative :
    (x : ℤ) → leb_ℤ (pos 0) x ≡ true → leb_ℤ (pos 0) (times x (pos 1100000)) ≡ true
recovery_not_negative (pos n) h = ground arith
recovery_not_negative (negsuc n) h = absurd (ground arith)

pub fixed-IsOrdered : IsOrdered fixed
fixed-IsOrdered = record {
  reflexive = λ x h. ground arith;
  transitive = λ x y z h k. ground arith;
  strict = λ x y h. ground arith;
  restart_shrinks = restart-Shrinks;
  progress_shrinks = progress-Shrinks;
  first_shrinks = first-Shrinks;
  second_shrinks = second-Shrinks;
  recovery_not_negative = recovery_not_negative;
}
