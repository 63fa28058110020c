-- ===== src/Io/Paths.antt =====
-- The paths of a file system, and the temporary ones (include/cumes/io/writer_helpers.hpp).
use cu_mes.Base.{
  ℕ, ◌≡◌, ◌≢◌, refl, ap, true, false, List, [], ◌∷◌, length, length-append, if◌then◌else◌, ◌||◌,
  arith,
}
use cu_mes.Io.Publish.{FilePath, same_path, FileSystem, temp_path_for}

pub same_path_refl : (p : FilePath) → same_path p p ≡ true
unfolding same_path
same_path_refl [] = refl
same_path_refl (a ∷ p) = ground (arith, same_path_refl p)

same_path→eq : (p q : FilePath) → same_path p q ≡ true → p ≡ q
unfolding same_path
same_path→eq [] [] h = refl
same_path→eq [] (b ∷ q) h = cc
same_path→eq (a ∷ p) [] h = cc
same_path→eq (a ∷ p) (b ∷ q) h = ground (arith, same_path→eq p q)

ne→same_path : (p q : FilePath) → p ≢ q → same_path p q ≡ false
ne→same_path p q h = ground (arith, same_path→eq p q)

-- A temporary path is longer than the path it stands for.
pub temp_path-ne :
    (path : FilePath) (tag : List ℕ) → same_path path (temp_path_for path tag) ≡ false
temp_path-ne path tag = ne→same_path path (temp_path_for path tag) (λ e.
    absurd
      (omega (arith, ap length e, length-append path (b'.' ∷ b't' ∷ b'm' ∷ b'p' ∷ b'.' ∷ tag))))

-- The two file systems agree on every path but `tmp` and `path`.
abbrev pub AgreeElsewhere : FilePath → FilePath → FileSystem → FileSystem → Type 0
AgreeElsewhere tmp path fs fs' =
    (q : FilePath) → fs' q ≡ (if same_path q tmp || same_path q path then fs' q else fs q)
