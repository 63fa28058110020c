-- ===== src/Io/File.antt =====
-- The C streams that the container functions use: `fread`, `fwrite`, `ftell`, and the monads of the
-- functions that read or write through a `FILE*`.
use cu_mes.Base.{
  ℕ, ◌+◌, ◌-◌, Bool, true, false, Option, none, some, List, ◌++◌, length, take, drop, leb,
  if◌then◌else◌,
}
use cu_mes.Io.Outcome.{Outcome, ok, err, Reason, unset, or_reason}

-- A stream open for reading: the position that `ftell` gives, and the bytes from there on.
pub record InFile : Type 0 where
  pub position : ℕ
  pub rest : List ℕ

-- A stream open for writing: the bytes written, and the bytes for which the device has room.
pub record OutFile : Type 0 where
  pub data_bytes : List ℕ
  pub room : ℕ

abbrev pub Reading {ℓ} : Type ℓ → Type ℓ
Reading A = InFile → Outcome (A × InFile)

-- The functions that write return false on failure; their callers then remove the file.
abbrev pub Writing : Type 0
Writing = OutFile → Option OutFile

abbrev pub continue {ℓ κ} :
    {A : Type ℓ} {B : Type κ} → Outcome (A × InFile) → (A → Reading B) → Outcome (B × InFile)
continue (ok (a, f)) k = k a f
continue (err e) k = err e

infixl 5 ◌>>=◌ ◌>>◌
unfoldable pub ◌>>=◌ {ℓ κ} : {A : Type ℓ} {B : Type κ} → Reading A → (A → Reading B) → Reading B
◌>>=◌ m k f = continue (m f) k

abbrev pub ◌>>◌ {ℓ κ} : {A : Type ℓ} {B : Type κ} → Reading A → Reading B → Reading B
m >> k = m >>= λ _. k

unfoldable pub pure {ℓ} : {A : Type ℓ} → A → Reading A
pure a f = ok (a, f)

unfoldable pub fail {ℓ} : {A : Type ℓ} → Reason → Reading A
fail r f = err r

-- `fread(p, 1, n, fp) == n`
unfoldable pub fread : ℕ → Reading (List ℕ)
fread n f =
    if leb n (length f.rest)
    then ok (take n f.rest, record { position = f.position + n; rest = drop n f.rest })
    else err unset

-- `fwrite(p, 1, n, fp) == n`
unfoldable pub fwrite : List ℕ → Writing
fwrite bytes f =
    if leb (length bytes) f.room
    then some (record { data_bytes = f.data_bytes ++ bytes; room = f.room - length bytes })
    else none

abbrev pub then_on : Option OutFile → Writing → Option OutFile
then_on none w = none
then_on (some f) w = w f

-- `a && b` of two writing calls.
infixr 6 ◌then_write◌
unfoldable pub ◌then_write◌ : Writing → Writing → Writing
◌then_write◌ a b f = then_on (a f) b

-- A test that fails before anything is written.
unfoldable pub provided : Bool → Writing → Writing
provided true w = w
provided false w = λ f. none

unfoldable pub write_nothing : Writing
write_nothing f = some f

-- A block of calls whose failure is given the reason `r`, if it has none yet.
unfoldable pub with_reason {ℓ} : {A : Type ℓ} → Reason → Reading A → Reading A
with_reason r m f = or_reason r (m f)

-- A test in the middle of a block.
unfoldable pub require : Bool → Reason → Reading (Unit {0})
require true r f = ok (tt, f)
require false r f = err r
