-- ===== src/Io/CodecLaws.antt =====
-- The field functions of src/cumes/io/io_common.hpp against their bytes.
use native.Mathlib.Nat.{pow-suc}
use mathlib.Core.Path.{subst, ap₂}
use cu_mes.Base.{
  ℕ, zero, suc, ◌*◌, ◌/◌, ◌^◌, ◌≤◌, ◌<◌, ◌≡◌, refl, ap, false, List, [], ◌∷◌, ◌++◌, length, All,
  length-append, ℤ, pos, negsuc, IsI32, le→leb, arith,
}
use cu_mes.Io.File.{fread}
use cu_mes.Io.Spec.{
  Decodes, Writes, Decodes-bind, Decodes-last, Decodes-pure, Decodes-fread, Writes-fwrite,
  Writes-nothing, Writes-provided, Writes-then,
}
use cu_mes.Io.Codec.{
  Double, le_bytes, of_le_bytes, i32_word, word_i32, i32_bytes, f64_bytes, bytes_f64, write_i32,
  write_f64, write_bytes, write_string, read_i32, read_f64, read_bytes, read_string, out_of_range,
  int32_max, max_string, max_input_params_vector, i32s_bytes, f64s_bytes, bytes_i32s, bytes_f64s,
  write_f64_array, read_f64_array, write_i32_vec, write_f64_vec, read_vector_count, read_i32_vec,
  read_f64_vec,
}

pub of_le_bytes-le_bytes : (k w : ℕ) → w < 256 ^ k → of_le_bytes (le_bytes k w) ≡ w
unfolding of_le_bytes le_bytes
of_le_bytes-le_bytes zero w h = omega arith
of_le_bytes-le_bytes (suc k) w h =
    omega (arith, of_le_bytes-le_bytes k (w / 256) (omega (arith, pow-suc 256 k)))

word_i32-i32_word : (v : ℤ) → IsI32 v → word_i32 (i32_word v) ≡ v
unfolding word_i32 i32_word
word_i32-i32_word (pos n) h = ground arith
word_i32-i32_word (negsuc n) h = ground arith

i32_word-lt : (v : ℤ) → i32_word v < 256 ^ 4
unfolding i32_word
i32_word-lt (pos n) = omega arith
i32_word-lt (negsuc n) = omega arith

pub i32_bytes_back : (v : ℤ) → IsI32 v → word_i32 (of_le_bytes (i32_bytes v)) ≡ v
unfolding i32_bytes
i32_bytes_back v h =
    rw (of_le_bytes-le_bytes 4 (i32_word v) (i32_word-lt v)) (word_i32-i32_word v h)

length-i32_bytes : (v : ℤ) → length (i32_bytes v) ≡ 4
unfolding i32_bytes le_bytes
length-i32_bytes v = refl

length-f64_bytes : (d : Double) → length (f64_bytes d) ≡ 8
unfolding f64_bytes
length-f64_bytes d = refl

bytes_f64-f64_bytes : (d : Double) → bytes_f64 (f64_bytes d) ≡ d
unfolding f64_bytes bytes_f64
bytes_f64-f64_bytes d = refl

-- `fread` of a given number of bytes.
Decodes-count : {n : ℕ} (xs : List ℕ) → length xs ≡ n → Decodes (fread n) xs xs
Decodes-count xs e = subst (λ n. Decodes (fread n) xs xs) e (Decodes-fread xs)

pub Decodes-i32 : (v : ℤ) → IsI32 v → Decodes read_i32 (i32_bytes v) v
unfolding read_i32
Decodes-i32 v h =
    subst (Decodes _ (i32_bytes v)) (i32_bytes_back v h)
      (Decodes-last _ (Decodes-count (i32_bytes v) (length-i32_bytes v)))

pub Decodes-f64 : (d : Double) → Decodes read_f64 (f64_bytes d) d
unfolding read_f64
Decodes-f64 d =
    subst (Decodes _ (f64_bytes d)) (bytes_f64-f64_bytes d)
      (Decodes-last _ (Decodes-count (f64_bytes d) (length-f64_bytes d)))

pub Decodes-bytes : (xs : List ℕ) → Decodes (read_bytes (length xs)) xs xs
unfolding read_bytes
Decodes-bytes [] = Decodes-pure []
Decodes-bytes (x ∷ xs) = Decodes-fread (x ∷ xs)

Decodes-bytes_count : {n : ℕ} (xs : List ℕ) → length xs ≡ n → Decodes (read_bytes n) xs xs
Decodes-bytes_count xs e = subst (λ n. Decodes (read_bytes n) xs xs) e (Decodes-bytes xs)

pub Writes-i32 : (v : ℤ) → Writes (write_i32 v) (i32_bytes v)
unfolding write_i32
Writes-i32 v = Writes-fwrite (i32_bytes v)

pub Writes-f64 : (d : Double) → Writes (write_f64 d) (f64_bytes d)
unfolding write_f64
Writes-f64 d = Writes-fwrite (f64_bytes d)

pub Writes-bytes : (xs : List ℕ) → Writes (write_bytes xs) xs
unfolding write_bytes
Writes-bytes [] = Writes-nothing
Writes-bytes (x ∷ xs) = Writes-fwrite (x ∷ xs)

-- The bytes of a counted run.
abbrev pub string_bytes : List ℕ → List ℕ
string_bytes s = i32_bytes (pos (length s)) ++ s

abbrev pub i32_vec_bytes : List ℤ → List ℕ
i32_vec_bytes v = i32_bytes (pos (length v)) ++ i32s_bytes v

abbrev pub f64_vec_bytes : List Double → List ℕ
f64_vec_bytes v = i32_bytes (pos (length v)) ++ f64s_bytes v

pub Writes-string : (s : List ℕ) → length s ≤ int32_max → Writes (write_string s) (string_bytes s)
unfolding write_string
Writes-string s h =
    Writes-provided (le→leb _ _ h) (Writes-then (Writes-i32 (pos (length s))) (Writes-bytes s))

pub pos_in_range : (n cap : ℕ) → n ≤ cap → out_of_range (pos n) cap ≡ false
pos_in_range n cap h = ground arith

pub Decodes-string : (s : List ℕ) → length s ≤ max_string → Decodes read_string (string_bytes s) s
unfolding read_string
Decodes-string s h =
    Decodes-bind _ (Decodes-i32 (pos (length s)) (omega arith))
      (rw (pos_in_range (length s) max_string h) (Decodes-bytes s))

length-i32s_bytes : (v : List ℤ) → length (i32s_bytes v) ≡ length v * 4
unfolding i32s_bytes
length-i32s_bytes [] = refl
length-i32s_bytes (x ∷ v) =
    omega
      (arith, length-append (i32_bytes x) (i32s_bytes v), length-i32_bytes x, length-i32s_bytes v)

pub length-f64s_bytes : (v : List Double) → length (f64s_bytes v) ≡ length v * 8
unfolding f64s_bytes
length-f64s_bytes [] = refl
length-f64s_bytes (x ∷ v) =
    omega
      (arith, length-append (f64_bytes x) (f64s_bytes v), length-f64_bytes x, length-f64s_bytes v)

bytes_i32s-i32s_bytes : (v : List ℤ) → All IsI32 v → bytes_i32s (i32s_bytes v) ≡ v
unfolding bytes_i32s i32s_bytes i32_bytes le_bytes
bytes_i32s-i32s_bytes [] h = refl
bytes_i32s-i32s_bytes (x ∷ v) h = ap₂ ◌∷◌ (i32_bytes_back x h.0) (bytes_i32s-i32s_bytes v h.1)

bytes_f64s-f64s_bytes : (v : List Double) → bytes_f64s (f64s_bytes v) ≡ v
unfolding bytes_f64s f64s_bytes f64_bytes
bytes_f64s-f64s_bytes [] = refl
bytes_f64s-f64s_bytes (x ∷ v) = ap (λ l. x ∷ l) (bytes_f64s-f64s_bytes v)

pub Writes-f64_array : (v : List Double) → Writes (write_f64_array v) (f64s_bytes v)
unfolding write_f64_array
Writes-f64_array v = Writes-bytes (f64s_bytes v)

pub Decodes-f64_array :
    (n : ℕ) (v : List Double) → length v ≡ n → Decodes (read_f64_array n) (f64s_bytes v) v
unfolding read_f64_array
Decodes-f64_array n v e =
    subst (Decodes _ (f64s_bytes v)) (bytes_f64s-f64s_bytes v)
      (Decodes-last _ (Decodes-bytes_count _ (omega (arith, length-f64s_bytes v))))

pub Writes-i32_vec :
    (v : List ℤ) → length v ≤ max_input_params_vector → Writes (write_i32_vec v) (i32_vec_bytes v)
unfolding write_i32_vec
Writes-i32_vec v h =
    Writes-provided (le→leb _ _ h)
      (Writes-then (Writes-i32 (pos (length v))) (Writes-bytes (i32s_bytes v)))

pub Writes-f64_vec :
    (v : List Double)
    → length v ≤ max_input_params_vector
    → Writes (write_f64_vec v) (f64_vec_bytes v)
unfolding write_f64_vec
Writes-f64_vec v h =
    Writes-provided (le→leb _ _ h)
      (Writes-then (Writes-i32 (pos (length v))) (Writes-bytes (f64s_bytes v)))

Decodes-vector_count :
    (n : ℕ) → n ≤ max_input_params_vector → Decodes read_vector_count (i32_bytes (pos n)) n
unfolding read_vector_count
Decodes-vector_count n h = record {
  at = λ p rest.
      rw ((Decodes-i32 (pos n) (omega arith)).at p rest, read_vector_count)
        (rw (pos_in_range n max_input_params_vector h));
}

pub Decodes-i32_vec :
    (v : List ℤ)
    → length v ≤ max_input_params_vector
    → All IsI32 v
    → Decodes read_i32_vec (i32_vec_bytes v) v
unfolding read_i32_vec
Decodes-i32_vec v h r = Decodes-bind _ (Decodes-vector_count (length v) h) (
    subst (Decodes _ (i32s_bytes v)) (bytes_i32s-i32s_bytes v r)
      (Decodes-last _ (Decodes-bytes_count _ (length-i32s_bytes v))))

pub Decodes-f64_vec :
    (v : List Double)
    → length v ≤ max_input_params_vector
    → Decodes read_f64_vec (f64_vec_bytes v) v
unfolding read_f64_vec
Decodes-f64_vec v h = Decodes-bind _ (Decodes-vector_count (length v) h) (
    subst (Decodes _ (f64s_bytes v)) (bytes_f64s-f64s_bytes v)
      (Decodes-last _ (Decodes-bytes_count _ (length-f64s_bytes v))))
