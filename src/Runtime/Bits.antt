-- ===== src/Runtime/Bits.antt =====
-- The masks of the arena's alignment in arithmetic, and the test for a power of two.
use Prim.Native.Nat.{min, digits, bit_and, bit_and-bitwise}
use native.Mathlib.Nat.{pow-suc, one-le-pow}
use cu_mes.Base.{
  ℕ, zero, suc, ◌+◌, ◌-◌, ◌*◌, ◌/◌, ◌%◌, ◌^◌, ◌≤◌, ◌<◌, ◌≡◌, refl, ap, sym, ◌∙◌, ◌↔◌, ◌⊎◌, inl, inr,
  arith,
}

-- `bit_and` with a number of digits to go.
abbrev and_digits : ℕ → ℕ → ℕ → ℕ
and_digits n a b = digits (λ b. zero) min n a b

-- A mask of `j` ones keeps a number below `2 ^ j`.
full_mask : (n a b j : ℕ) → a ≤ n → b + 1 ≡ 2 ^ j → a < 2 ^ j → and_digits n a b ≡ a
full_mask zero a b j h e l = omega arith
full_mask (suc n) zero b j h e l = refl
full_mask (suc n) (suc a) b zero h e l = absurd (omega (arith, l))
full_mask (suc n) (suc a) b (suc j) h e l = omega (
  arith,
  full_mask n (suc a / 2) (b / 2) j (omega arith) (omega (arith, e, pow-suc 2 j))
      (omega (arith, l, pow-suc 2 j)),
  e,
  pow-suc 2 j,
)

doubled : (q k : ℕ) → q * 2 ^ suc k ≡ q * 2 ^ k * 2
doubled q k = omega (arith, ap (λ (t : ℕ). q * t) (pow-suc 2 k))

-- `j` ones before `k` zeros keep the multiple of `2 ^ k`.
high_mask :
    (n a b m j k q r : ℕ)
    → a ≤ n
    → m + 1 ≡ 2 ^ j
    → b ≡ m * 2 ^ k
    → q < 2 ^ j
    → r < 2 ^ k
    → a ≡ q * 2 ^ k + r
    → and_digits n a b ≡ q * 2 ^ k
high_mask n a b m j zero q r h e f l s g =
    full_mask n a b j h (omega (arith, e, f)) (omega (arith, g, l, s)) ∙ omega (arith, g, s)
high_mask zero a b m j (suc k) q r h e f l s g = omega (arith, h, g)
high_mask (suc n) zero b m j (suc k) q r h e f l s g = omega (arith, h, g)
high_mask (suc n) (suc a) b m j (suc k) q r h e f l s g = omega (
  arith,
  high_mask n (suc a / 2) (b / 2) m j k q (r / 2) (omega arith) e (omega (arith, f, doubled m k)) l
      (omega (arith, s, pow-suc 2 k)) (omega (arith, g, doubled q k)),
  f,
  g,
  doubled m k,
  doubled q k,
)

same_digits : (n a b : ℕ) → a ≤ n → b ≡ a → and_digits n a b ≡ a
same_digits zero a b h e = omega arith
same_digits (suc n) zero b h e = refl
same_digits (suc n) (suc a) b h e =
    omega (arith, same_digits n (suc a / 2) (b / 2) (omega arith) (omega (arith, e)), e)

zero_digits : (n b : ℕ) → and_digits n 0 b ≡ 0
zero_digits zero b = refl
zero_digits (suc n) b = refl

power_digits : (n a b k : ℕ) → a ≤ n → b + 1 ≡ a → a ≡ 2 ^ k → and_digits n a b ≡ 0
power_digits zero a b k h e f = refl
power_digits (suc n) zero b k h e f = refl
power_digits (suc n) (suc zero) b k h e f = omega (arith, e, zero_digits n (b / 2))
power_digits (suc n) (suc (suc a)) b zero h e f = absurd (omega (arith, f))
power_digits (suc n) (suc (suc a)) b (suc k) h e f = omega (
  arith,
  power_digits n (suc (suc a) / 2) (b / 2) k (omega arith) (omega (arith, e, f, pow-suc 2 k))
      (omega (arith, f, pow-suc 2 k)),
  e,
  f,
  pow-suc 2 k,
)

pub record IsPowerOfTwo (n : ℕ) : Type 0 where
  pub exponent : ℕ
  pub equation : n ≡ 2 ^ exponent

doubled-IsPowerOfTwo : (n m : ℕ) → n ≡ m * 2 → IsPowerOfTwo m → IsPowerOfTwo n
doubled-IsPowerOfTwo n m e p = record {
  exponent = suc p.exponent;
  equation = omega (arith, e, p.equation, pow-suc 2 p.exponent);
}

parity : (n : ℕ) → (n ≡ n / 2 * 2) ⊎ (n ≡ n / 2 * 2 + 1)
parity n = ground arith

digits-IsPowerOfTwo : (n a b : ℕ) → a ≤ n → b + 1 ≡ a → and_digits n a b ≡ 0 → IsPowerOfTwo a
digits-IsPowerOfTwo zero a b h e z = absurd (omega (arith, e))
digits-IsPowerOfTwo (suc n) zero b h e z = absurd (omega (arith, e))
digits-IsPowerOfTwo (suc n) (suc zero) b h e z = record { exponent = 0; equation = refl }
digits-IsPowerOfTwo (suc n) (suc (suc a)) b h e z = elim (parity (suc (suc a))) [
  | inl even ↦ doubled-IsPowerOfTwo (suc (suc a)) (suc (suc a) / 2) even (
      digits-IsPowerOfTwo n (suc (suc a) / 2) (b / 2) (omega arith) (omega (arith, e, even))
        (omega (arith, z)))
  | inr odd ↦ absurd (
      omega
        (arith, same_digits n (suc (suc a) / 2) (b / 2) (omega arith) (omega (arith, e, odd)), z))
]

-- `(a & (a - 1)) == 0` for an `a` that is not zero.
pub bit_and_power : (a : ℕ) → 1 ≤ a → (bit_and a (a - 1) ≡ 0) ↔ IsPowerOfTwo a
bit_and_power a h = (
  λ z.
      digits-IsPowerOfTwo a a (a - 1) (omega arith) (omega (arith, h))
        (sym (bit_and-bitwise a (a - 1)) ∙ z),
  λ p.
      bit_and-bitwise a (a - 1)
      ∙ power_digits a a (a - 1) p.exponent (omega arith) (omega (arith, h)) p.equation,
)

same_power : (j k : ℕ) → j ≡ k → 2 ^ j ≡ 2 ^ k
same_power j k e = ap (λ (t : ℕ). 2 ^ t) e

power_sum : (j k : ℕ) → 2 ^ (j + k) ≡ 2 ^ j * 2 ^ k
power_sum j zero = same_power (j + 0) j (omega arith) ∙ omega arith
power_sum j (suc k) =
    same_power (j + suc k) (suc (j + k)) (omega arith)
    ∙ pow-suc 2 (j + k)
    ∙ omega (arith, power_sum j k, doubled (2 ^ j) k)

pub smaller_factor : (q m p : ℕ) → q * p < m * p → q < m
smaller_factor q m p h = grind arith

multiple : (m p : ℕ) → 1 ≤ m → (m - 1) * p + p ≡ m * p
multiple zero p h = absurd (omega arith)
multiple (suc m) p h = grind arith

-- `a & ~(2 ^ k - 1)` on 64 bits.
pub aligned_mask : (a k : ℕ) → a < 2 ^ 64 → k ≤ 64 → bit_and a (2 ^ 64 - 2 ^ k) ≡ a / 2 ^ k * 2 ^ k
aligned_mask a k h l =
    let split : 2 ^ 64 ≡ 2 ^ (64 - k) * 2 ^ k =
      same_power 64 (64 - k + k) (omega (arith, l)) ∙ power_sum (64 - k) k in
    let positive = one-le-pow (64 - k) 2 (omega arith) in
    let whole : a ≡ a / 2 ^ k * 2 ^ k + a % 2 ^ k = grind (arith, one-le-pow k 2) in
    let below : a % 2 ^ k < 2 ^ k = grind (arith, one-le-pow k 2) in
    bit_and-bitwise a (2 ^ 64 - 2 ^ k)
    ∙ high_mask a a (2 ^ 64 - 2 ^ k) (2 ^ (64 - k) - 1) (64 - k) k (a / 2 ^ k) (a % 2 ^ k)
        (omega arith) (omega (arith, positive))
        (omega (arith, split, multiple (2 ^ (64 - k)) (2 ^ k) positive))
        (smaller_factor (a / 2 ^ k) (2 ^ (64 - k)) (2 ^ k) (omega (arith, whole, h, split))) below
        whole
