-- ===== src/Io/OutputSpec.antt =====
-- src/cumes/io/output_spec.cpp and include/cumes/io/output_spec.hpp: the output format by the suffix
-- of the path. A path is its bytes, none of them 0.
use cu_mes.Base.{
  ℕ, ◌+◌, ◌≡◌, refl, Bool, true, false, not, ◌&&◌, ◌||◌, Option, none, some, List, [], ◌∷◌, ◌++◌,
  map, leb, ◌==◌, if◌then◌else◌, arith,
}
use cu_mes.Io.InputParams.{codes}
use cu_mes.Io.Publish.{same_path}

pub data OutputFormat : Type 0 where
  binary netcdf hdf5 : OutputFormat

pub record OutputSpec : Type 0 where
  pub format : OutputFormat
  pub path : List ℕ

unfoldable pub output_suffix : OutputFormat → List ℕ
output_suffix binary = codes ".bin"
output_suffix netcdf = codes ".nc"
output_suffix hdf5 = codes ".h5"

-- The letter that `strcasecmp` compares: a capital is its small letter.
abbrev pub lower : ℕ → ℕ
lower c = if leb b'A' c && leb c b'Z' then c + 32 else c

-- `strcasecmp(a, b) == 0`
unfoldable pub same_text : List ℕ → List ℕ → Bool
unfolding same_path
same_text a b = same_path (map lower a) (map lower b)

abbrev pub is_dot : ℕ → Bool
is_dot c = c == b'.'

unfoldable pub has_dot : List ℕ → Bool
has_dot [] = false
has_dot (c ∷ rest) = is_dot c || has_dot rest

-- From the last dot on, or nothing: `path.find_last_of('.')` and `path.substr(dot)`.
unfoldable pub extension : List ℕ → List ℕ
unfolding has_dot
extension [] = []
extension (c ∷ rest) =
    let later = extension rest in if is_dot c && not (has_dot rest) then c ∷ rest else later

abbrev pub format_of_extension : List ℕ → Option OutputFormat
format_of_extension ext =
    if same_text ext (codes ".bin")
    then some binary
    else if same_text ext (codes ".nc")
    then some netcdf
    else if same_text ext (codes ".h5") || same_text ext (codes ".hdf5")
    then some hdf5
    else none

unfoldable pub suffix_format : List ℕ → Option OutputFormat
unfolding extension same_text
suffix_format path = format_of_extension (extension path)

abbrev pub spec_of : List ℕ → Option OutputFormat → Option OutputSpec
spec_of path none = none
spec_of path (some format) = some (record { format = format; path = path })

-- `none` is the error about the suffix.
unfoldable pub resolve_output_spec : List ℕ → Option OutputSpec
unfolding suffix_format
resolve_output_spec path = spec_of path (suffix_format path)

has_dot-append : (stem ext : List ℕ) → has_dot ext ≡ true → has_dot (stem ++ ext) ≡ true
unfolding has_dot
has_dot-append [] ext h = h
has_dot-append (c ∷ stem) ext h = rw (has_dot-append stem ext h) (ground arith)

extension-append :
    (stem ext : List ℕ) → has_dot ext ≡ true → extension (stem ++ ext) ≡ extension ext
unfolding extension
extension-append [] ext h = refl
extension-append (c ∷ stem) ext h =
    rw (has_dot-append stem ext h) (ground (arith, extension-append stem ext h))

suffix_found : (format : OutputFormat) → has_dot (output_suffix format) ≡ true
unfolding has_dot output_suffix
suffix_found binary = refl
suffix_found netcdf = refl
suffix_found hdf5 = refl

format_found :
    (format : OutputFormat) → format_of_extension (extension (output_suffix format)) ≡ some format
unfolding extension has_dot output_suffix same_text same_path
format_found binary = refl
format_found netcdf = refl
format_found hdf5 = refl

-- A path that ends in the suffix of a format resolves to that format, whatever comes before.
pub resolve_output_spec-output_suffix :
    (stem : List ℕ) (format : OutputFormat)
    → resolve_output_spec (stem ++ output_suffix format)
      ≡ some (record { format = format; path = stem ++ output_suffix format })
unfolding resolve_output_spec suffix_format
resolve_output_spec-output_suffix stem format =
    rw (extension-append stem (output_suffix format) (suffix_found format), format_found format)
