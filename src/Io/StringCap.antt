-- ===== src/Io/StringCap.antt =====
-- The length limits of write_string and read_string (src/cumes/io/io_common.hpp).
use cu_mes.Base.{ℕ, ◌≤◌, ◌<◌, ◌≡◌, ◌∙◌, List, ◌++◌, append_assoc, length, pos, true, arith}
use cu_mes.Io.Outcome.{err, unset}
use cu_mes.Io.File.{OutFile, ◌>>=◌, fail}
use cu_mes.Io.Spec.{written, continue-ok}
use cu_mes.Io.Codec.{write_string, read_string, i32_bytes, int32_max, max_string, out_of_range}
use cu_mes.Io.CodecLaws.{string_bytes, Writes-string, Decodes-i32}

beyond_the_cap : (n cap : ℕ) → cap < n → out_of_range (pos n) cap ≡ true
beyond_the_cap n cap h = ground arith

read_string_refuses :
    (s : List ℕ) (position : ℕ) (rest : List ℕ)
    → max_string < length s
    → length s ≤ int32_max
    → read_string (record { position = position; rest = string_bytes s ++ rest }) ≡ err unset
unfolding read_string ◌>>=◌ fail
read_string_refuses s position rest long fits =
    rw (append_assoc (i32_bytes (pos (length s))) s rest) (
      continue-ok _
        ((Decodes-i32 (pos (length s)) (omega arith, omega arith)).at position (s ++ rest))
      ∙ rw (beyond_the_cap (length s) max_string long))

-- A string of more than 2^24 and at most 2^31 - 1 bytes is written, if the device has room for it
-- and its count, but what was written is refused on reading, whatever follows it.
pub long_string_is_lost :
    (s : List ℕ) (f : OutFile) (position : ℕ) (rest : List ℕ)
    → max_string < length s
    → length s ≤ int32_max
    → (write_string s f ≡ written (string_bytes s) f)
      × (read_string (record { position = position; rest = string_bytes s ++ rest }) ≡ err unset)
long_string_is_lost s f position rest long fits =
    ((Writes-string s fits).at f, read_string_refuses s position rest long fits)
