-- ===== src/Core/CheckedSize.antt =====
-- include/cumes/core/checked_size.hpp: overflow-checked `size_t` arithmetic.
use cu_mes.Base.{
  ℕ, ◌+◌, ◌-◌, ◌*◌, ◌/◌, ◌%◌, ◌^◌, Option, none, some, ◌&&◌, not, ℤ, pos, negsuc, ltb, ◌==◌,
  if◌then◌else◌,
}

-- One more than `std::numeric_limits<std::size_t>::max()`.
abbrev pub size_mod : ℕ
size_mod = 2 ^ 64

abbrev pub size_max : ℕ
size_max = 2 ^ 64 - 1

-- `static_cast<std::size_t>` of an `int`.
abbrev pub to_size : ℤ → ℕ
to_size (pos n) = n % size_mod
to_size (negsuc n) = size_mod - 1 - n % size_mod

unfoldable pub checked_mul : ℕ → ℕ → Option ℕ
checked_mul a b = if not (a == 0) && ltb (size_max / a) b then none else some (a * b % size_mod)

unfoldable pub checked_add : ℕ → ℕ → Option ℕ
checked_add a b = if ltb (size_max - a) b then none else some ((a + b) % size_mod)
