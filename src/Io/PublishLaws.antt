-- ===== src/Io/PublishLaws.antt =====
-- What publication leaves on the file system (include/cumes/io/writer_helpers.hpp).
use cu_mes.Base.{
  ℕ, ◌≡◌, ◌≢◌, refl, sym, ◌∙◌, Bool-cases, ◌⊎◌, inl, inr, Bool, true, false, not, Option, none,
  some, List, [], ◌∷◌, if◌then◌else◌, but_for, arith,
}
use cu_mes.Io.Publish.{
  FilePath, same_path, FileSystem, update, Device, PublishError, remove, rename, flushed, settled,
  publish_atomic, publish_library_file, fsync_directory_of, rename_publish, fflush_failed,
  fsync_failed, directory_open_failed, directory_fsync_failed, directory_close_failed,
  fclose_failed, rename_failed, reopen_failed, library_close_failed,
}
use cu_mes.Io.Paths.{same_path_refl, AgreeElsewhere}

-- The error of the first call that fails, in a list of the answers and the errors.
abbrev pub first_failure : List (Bool × PublishError) → Option PublishError
first_failure [] = none
first_failure ((true, e) ∷ calls) = first_failure calls
first_failure ((false, e) ∷ calls) = some e

abbrev pub atomic_calls : Device → List (Bool × PublishError)
atomic_calls d =
    (d.flushes, fflush_failed)
    ∷ (d.syncs, fsync_failed)
    ∷ (d.closes, fclose_failed)
    ∷ (d.renames, rename_failed)
    ∷ []

abbrev pub library_calls : Device → List (Bool × PublishError)
library_calls d =
    (d.opens, reopen_failed)
    ∷ (d.syncs, fsync_failed)
    ∷ (d.closes, library_close_failed)
    ∷ (d.renames, rename_failed)
    ∷ []

abbrev pub directory_calls : Device → List (Bool × PublishError)
directory_calls d =
    (d.opens_directory, directory_open_failed)
    ∷ (d.syncs_directory, directory_fsync_failed)
    ∷ (d.closes_directory, directory_close_failed)
    ∷ []

fsync_directory_of_lem : (d : Device) → fsync_directory_of d ≡ first_failure (directory_calls d)
unfolding fsync_directory_of
fsync_directory_of_lem d = ground arith

-- If all calls up to the rename succeed, the target has the contents, and the result is the error of
-- the first call on the directory that failed; else the target is as it was, and the result is the error of the first
-- call that failed. A temporary file is left only if a call and its removal failed, and no other path
-- changes.
pub record Published (d : Device) (calls : List (Bool × PublishError)) (contents : Option (List ℕ))
    (tmp path : FilePath) (fs : FileSystem) (r : Option PublishError × FileSystem) : Type 0 where
  pub target :
      ((first_failure calls ≡ none)
        × (r.0 ≡ first_failure (directory_calls d))
        × (r.1 path ≡ contents))
      ⊎ ((first_failure calls ≢ none) × (r.0 ≡ first_failure calls) × (r.1 path ≡ fs path))
  pub temporary : (r.1 tmp ≡ none) ⊎ ((d.removes ≡ false) × (first_failure calls ≢ none))
  pub others : AgreeElsewhere tmp path fs r.1

module _ (ok : Bool) (e : PublishError) (calls : List (Bool × PublishError)) where
  fails_here : not ok ≡ true → first_failure ((ok, e) ∷ calls) ≡ some e
  fails_here h = ground (arith, h)

  fails_later : not ok ≡ false → first_failure ((ok, e) ∷ calls) ≡ first_failure calls
  fails_later h = ground (arith, h)

module _ (d : Device) (calls : List (Bool × PublishError)) (contents : Option (List ℕ))
    (tmp path : FilePath) (fs : FileSystem) where
  Published-if :
      (b : Bool) {x y : Option PublishError × FileSystem}
      → (b ≡ true → Published d calls contents tmp path fs x)
      → (b ≡ false → Published d calls contents tmp path fs y)
      → Published d calls contents tmp path fs (if b then x else y)
  Published-if true p q = p refl
  Published-if false p q = q refl

pub Published-reports :
    {d : Device} {calls : List (Bool × PublishError)} {contents : Option (List ℕ)}
    {tmp path : FilePath} {fs : FileSystem} {r : Option PublishError × FileSystem}
    → Published d calls contents tmp path fs r
    → first_failure calls ≢ none
    → r.0 ≢ none
Published-reports p failed e = elim p.target [
  | inl (done, _, _) ↦ failed done
  | inr (_, reason, _) ↦ failed (sym reason ∙ e)
]

-- Only the temporary path may differ.
abbrev SameBut : FilePath → FileSystem → FileSystem → Type 0
SameBut tmp fs fs' = (q : FilePath) → same_path q tmp ≡ false → fs' q ≡ fs q

module _ (d : Device) (tmp path : FilePath) (fs : FileSystem) where
  SameBut-flushed : (data_bytes : List ℕ) → SameBut tmp fs (flushed d data_bytes tmp fs)
  unfolding flushed update
  SameBut-flushed data_bytes q h = rw h

  SameBut-settled :
      (ok : Bool) (fs' : FileSystem) → SameBut tmp fs fs' → SameBut tmp fs (settled d ok tmp fs')
  unfolding settled update
  SameBut-settled true fs' same q h = same q h
  SameBut-settled false fs' same q h = rw h (same q h)

  settled_file :
      (ok : Bool) (fs' : FileSystem) (v : Option (List ℕ))
      → not ok ≡ false
      → fs' tmp ≡ v
      → settled d ok tmp fs' tmp ≡ v
  unfolding settled
  settled_file true fs' v h e = e
  settled_file false fs' v h e = cc

  flushed_file :
      (data_bytes : List ℕ)
      → not d.flushes ≡ false
      → flushed d data_bytes tmp fs tmp ≡ some data_bytes
  unfolding flushed update
  flushed_file data_bytes h = ground (arith, h, same_path_refl tmp)

  module _ (apart : same_path path tmp ≡ false) where
    Published-removed :
        (calls : List (Bool × PublishError)) (contents : Option (List ℕ)) (e : PublishError)
        (fs' : FileSystem)
        → first_failure calls ≡ some e
        → SameBut tmp fs fs'
        → Published d calls contents tmp path fs (some e, remove d fs' tmp)
    unfolding remove update
    Published-removed calls contents e fs' failed same = elim (Bool-cases d.removes) [
      | inl removed ↦ record {
        target = inr (λ h. cc, sym failed, rw (removed, apart) (same path apart));
        temporary = inl (rw (removed, same_path_refl tmp));
        others =
            λ q. but_for (same_path q tmp) (same_path q path) _ _ λ h k. rw (removed, h) (same q h);
      }
      | inr kept ↦ record {
        target = inr (λ h. cc, sym failed, rw kept (same path apart));
        temporary = inr (kept, λ h. cc);
        others = λ q. but_for (same_path q tmp) (same_path q path) _ _ λ h k. rw kept (same q h);
      }
    ]

    Published-renamed :
        (calls : List (Bool × PublishError)) (contents : Option (List ℕ)) (fs' : FileSystem)
        → first_failure calls ≡ none
        → SameBut tmp fs fs'
        → fs' tmp ≡ contents
        → Published d calls contents tmp path fs (fsync_directory_of d, rename fs' tmp path)
    unfolding rename update
    Published-renamed calls contents fs' done same holds = record {
      target = inl (done, fsync_directory_of_lem d, rw (apart, same_path_refl path) holds);
      temporary = inl (rw (same_path_refl tmp));
      others = λ q. but_for (same_path q tmp) (same_path q path) _ _ λ h k. rw (h, k) (same q h);
    }

    -- The rename, after calls that succeeded.
    rename_publish-Published :
        (calls : List (Bool × PublishError)) (contents : Option (List ℕ)) (fs' : FileSystem)
        → first_failure calls ≡ first_failure ((d.renames, rename_failed) ∷ [])
        → SameBut tmp fs fs'
        → fs' tmp ≡ contents
        → Published d calls contents tmp path fs (rename_publish d tmp path fs')
    unfolding rename_publish
    rename_publish-Published calls contents fs' before same holds =
        Published-if d calls contents tmp path fs d.renames
          (λ h. Published-renamed calls contents fs' (before ∙ ground (arith, h)) same holds)
          (λ h. Published-removed calls contents _ fs' (before ∙ ground (arith, h)) same)

    -- Whatever the system answers, if the temporary path is not the target: if the flush, the fsync,
    -- the close and the rename succeed, `publish_atomic` leaves the stream's bytes at the target and
    -- returns the error of the first call on the directory that failed, if any; else it leaves the target as it
    -- was and returns the error of the first of these calls that failed. The temporary file is left
    -- only if one of these calls failed and its removal too, and no other path changes.
    pub publish_atomic-Published :
        (data_bytes : List ℕ)
        → Published d
            (atomic_calls d)
            (some data_bytes)
            tmp
            path
            fs
            (publish_atomic d data_bytes tmp path fs)
    unfolding publish_atomic
    publish_atomic-Published data_bytes =
        let calls = atomic_calls d in
        let flush = flushed d data_bytes tmp fs in
        let same = SameBut-flushed data_bytes in
        let sync = settled d d.syncs tmp flush in
        let same_sync = SameBut-settled d.syncs flush same in
        let close = settled d d.closes tmp sync in
        let same_close = SameBut-settled d.closes sync same_sync in
        let removed = Published-removed calls (some data_bytes) in
        Published-if _ _ _ _ _ _ (not d.flushes)
          (λ a. removed _ _ (fails_here _ _ _ a) (SameBut-settled d.closes flush same))
          (λ a.
            Published-if _ _ _ _ _ _ (not d.syncs)
              (λ b. removed _ close (fails_later _ _ _ a ∙ fails_here _ _ _ b) same_close)
              (λ b.
                Published-if _ _ _ _ _ _ (not d.closes)
                  (λ c.
                    removed _ close (fails_later _ _ _ a ∙ fails_later _ _ _ b ∙ fails_here _ _ _ c)
                      same_close)
                  (λ c.
                    rename_publish-Published calls (some data_bytes) close
                      (fails_later _ _ _ a ∙ fails_later _ _ _ b ∙ fails_later _ _ _ c) same_close
                      (settled_file d.closes sync _ c
                        (settled_file d.syncs flush _ b (flushed_file data_bytes a))))))

    -- Whatever the system answers, if the temporary path is not the target: if the reopening, the
    -- fsync, the close and the rename succeed, `publish_library_file` leaves the contents of the
    -- temporary file at the target and returns the error of the first call on the directory that failed, if any;
    -- else it leaves the target as it was and returns the error of the first of these calls that
    -- failed. The temporary file is left only if one of these calls failed and its removal too, and
    -- no other path changes.
    pub publish_library_file-Published :
        Published d (library_calls d) (fs tmp) tmp path fs (publish_library_file d tmp path fs)
    unfolding publish_library_file
    publish_library_file-Published =
        let calls = library_calls d in
        let sync = settled d d.syncs tmp fs in
        let same_sync = SameBut-settled d.syncs fs (λ q h. refl) in
        let close = settled d d.closes tmp sync in
        let same_close = SameBut-settled d.closes sync same_sync in
        let removed = Published-removed calls (fs tmp) in
        Published-if _ _ _ _ _ _ (not d.opens)
          (λ a. removed _ fs (fails_here _ _ _ a) (λ q h. refl))
          (λ a.
            Published-if _ _ _ _ _ _ (not d.syncs)
              (λ b. removed _ close (fails_later _ _ _ a ∙ fails_here _ _ _ b) same_close)
              (λ b.
                Published-if _ _ _ _ _ _ (not d.closes)
                  (λ c.
                    removed _ close (fails_later _ _ _ a ∙ fails_later _ _ _ b ∙ fails_here _ _ _ c)
                      same_close)
                  (λ c.
                    rename_publish-Published calls (fs tmp) close
                      (fails_later _ _ _ a ∙ fails_later _ _ _ b ∙ fails_later _ _ _ c) same_close
                      (settled_file d.closes sync _ c (settled_file d.syncs fs _ b refl)))))
