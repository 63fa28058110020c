-- ===== src/Io/Codec.antt =====
-- src/cumes/io/io_common.hpp: the little-endian field functions.
-- A `double` is its object representation, since these functions only copy it.
use cu_mes.Base.{
  ℕ, zero, suc, ◌+◌, ◌-◌, ◌*◌, ◌/◌, ◌%◌, ◌^◌, Bool, ◌||◌, List, [], ◌∷◌, ◌++◌, length, ℤ, pos,
  negsuc, pos_part, ltb_ℤ, leb, ltb, if◌then◌else◌,
}
use cu_mes.Io.Outcome.{ok, err, unset, truncated_vector_count, vector_count_out_of_range}
use cu_mes.Io.File.{
  Reading, Writing, ◌>>=◌, pure, fail, fread, fwrite, ◌then_write◌, provided, write_nothing,
}

pub record Double : Type 0 where
  pub b0 : ℕ
  pub b1 : ℕ
  pub b2 : ℕ
  pub b3 : ℕ
  pub b4 : ℕ
  pub b5 : ℕ
  pub b6 : ℕ
  pub b7 : ℕ

-- The object representation of the numbers, least significant byte first.
unfoldable pub le_bytes : ℕ → ℕ → List ℕ
le_bytes zero w = []
le_bytes (suc k) w = (w % 256) ∷ le_bytes k (w / 256)

unfoldable pub of_le_bytes : List ℕ → ℕ
of_le_bytes [] = 0
of_le_bytes (b ∷ bs) = b + 256 * of_le_bytes bs

-- Two's complement.
unfoldable pub i32_word : ℤ → ℕ
i32_word (pos n) = n % 2 ^ 32
i32_word (negsuc n) = 2 ^ 32 - 1 - n % 2 ^ 32

unfoldable pub word_i32 : ℕ → ℤ
word_i32 w = if ltb w (2 ^ 31) then pos w else negsuc (2 ^ 32 - 1 - w)

unfoldable pub i32_bytes : ℤ → List ℕ
i32_bytes v = le_bytes 4 (i32_word v)

unfoldable pub f64_bytes : Double → List ℕ
f64_bytes d = d.b0 ∷ d.b1 ∷ d.b2 ∷ d.b3 ∷ d.b4 ∷ d.b5 ∷ d.b6 ∷ d.b7 ∷ []

abbrev pub zero_double : Double
zero_double = record { b0 = 0; b1 = 0; b2 = 0; b3 = 0; b4 = 0; b5 = 0; b6 = 0; b7 = 0 }

-- `fread` hands over eight bytes, so the last clause is not reached.
unfoldable pub bytes_f64 : List ℕ → Double
bytes_f64 (a ∷ b ∷ c ∷ d ∷ e ∷ f ∷ g ∷ h ∷ []) = record {
  b0 = a;
  b1 = b;
  b2 = c;
  b3 = d;
  b4 = e;
  b5 = f;
  b6 = g;
  b7 = h;
}
bytes_f64 _ = zero_double

-- A byte.
unfoldable pub write_u8 : ℕ → Writing
write_u8 v = fwrite (v ∷ [])

-- `fread` hands over one byte, so the second clause is not reached.
unfoldable pub bytes_u8 : List ℕ → ℕ
bytes_u8 (b ∷ _) = b
bytes_u8 [] = 0

unfoldable pub read_u8 : Reading ℕ
unfolding bytes_u8
read_u8 = do bytes ← fread 1; pure (bytes_u8 bytes)

unfoldable pub write_i32 : ℤ → Writing
write_i32 v = fwrite (i32_bytes v)

unfoldable pub write_f64 : Double → Writing
write_f64 d = fwrite (f64_bytes d)

-- `n == 0 || …`
unfoldable pub write_bytes : List ℕ → Writing
write_bytes [] = write_nothing
write_bytes (b ∷ bs) = fwrite (b ∷ bs)

abbrev pub int32_max : ℕ
int32_max = 2147483647

-- A string is its bytes.
unfoldable pub write_string : List ℕ → Writing
write_string s =
    provided (leb (length s) int32_max) (write_i32 (pos (length s)) then_write write_bytes s)

unfoldable pub read_i32 : Reading ℤ
read_i32 = do bytes ← fread 4; pure (word_i32 (of_le_bytes bytes))

unfoldable pub read_f64 : Reading Double
read_f64 = do bytes ← fread 8; pure (bytes_f64 bytes)

unfoldable pub read_bytes : ℕ → Reading (List ℕ)
read_bytes zero = pure []
read_bytes (suc n) = fread (suc n)

abbrev pub max_string : ℕ
max_string = 16777216

abbrev pub max_input_params_vector : ℕ
max_input_params_vector = 1048576

-- `n < 0 || n > cap`
abbrev pub out_of_range : ℤ → ℕ → Bool
out_of_range n cap = ltb_ℤ n (pos 0) || ltb_ℤ (pos cap) n

unfoldable pub read_string : Reading (List ℕ)
read_string = do
  n ← read_i32
  if out_of_range n max_string then fail unset else read_bytes (pos_part n)

-- The object representation of a vector's elements, one after the other, and back.
unfoldable pub i32s_bytes : List ℤ → List ℕ
i32s_bytes [] = []
i32s_bytes (v ∷ vs) = i32_bytes v ++ i32s_bytes vs

unfoldable pub f64s_bytes : List Double → List ℕ
f64s_bytes [] = []
f64s_bytes (v ∷ vs) = f64_bytes v ++ f64s_bytes vs

unfoldable pub bytes_i32s : List ℕ → List ℤ
bytes_i32s (a ∷ b ∷ c ∷ d ∷ rest) = word_i32 (of_le_bytes (a ∷ b ∷ c ∷ d ∷ [])) ∷ bytes_i32s rest
bytes_i32s _ = []

unfoldable pub bytes_f64s : List ℕ → List Double
bytes_f64s (a ∷ b ∷ c ∷ d ∷ e ∷ f ∷ g ∷ h ∷ rest) =
    record { b0 = a; b1 = b; b2 = c; b3 = d; b4 = e; b5 = f; b6 = g; b7 = h } ∷ bytes_f64s rest
bytes_f64s _ = []

-- A span of doubles; a family of doubles has no count in front.
unfoldable pub write_f64_array : List Double → Writing
write_f64_array v = write_bytes (f64s_bytes v)

unfoldable pub read_f64_array : ℕ → Reading (List Double)
read_f64_array n = do bytes ← read_bytes (n * 8); pure (bytes_f64s bytes)

unfoldable pub write_i32_vec : List ℤ → Writing
write_i32_vec v =
    provided (leb (length v) max_input_params_vector)
      (write_i32 (pos (length v)) then_write write_bytes (i32s_bytes v))

unfoldable pub write_f64_vec : List Double → Writing
write_f64_vec v =
    provided (leb (length v) max_input_params_vector)
      (write_i32 (pos (length v)) then_write write_bytes (f64s_bytes v))

-- The count in front of a vector, with its bound.
unfoldable pub read_vector_count : Reading ℕ
read_vector_count f = elim (read_i32 f) [
  | err e ↦ err truncated_vector_count
  | ok (n, g) ↦
      if out_of_range n max_input_params_vector
      then err vector_count_out_of_range
      else ok (pos_part n, g)
]

unfoldable pub read_i32_vec : Reading (List ℤ)
read_i32_vec = do n ← read_vector_count; bytes ← read_bytes (n * 4); pure (bytes_i32s bytes)

unfoldable pub read_f64_vec : Reading (List Double)
read_f64_vec = do n ← read_vector_count; bytes ← read_bytes (n * 8); pure (bytes_f64s bytes)
