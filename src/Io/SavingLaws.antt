-- ===== src/Io/SavingLaws.antt =====
-- What the binary writers leave on the file system (src/cumes/io/checkpoint.cpp,
-- src/cumes/io/versioned_binary.cpp).
use cu_mes.Base.{
  ℕ, ◌≡◌, ◌≢◌, ◌⊎◌, inl, inr, refl, ◌∙◌, Bool, true, false, not, Option, none, some, List, [], sym,
  ap, ◌++◌, length, ◌-◌, ◌≤◌, le→leb, Bool-cases, arith, but_for, elsewhere, if◌then◌else◌,
}
use cu_mes.Io.File.{OutFile, Writing, then_on}
use cu_mes.Io.Spec.{written}
use cu_mes.Io.Publish.{
  FilePath, FileSystem, same_path, update, remove, Device, PublishError, temp_path_for,
  publish_atomic, rename_publish, fsync_directory_of,
}
use cu_mes.Io.Paths.{AgreeElsewhere, same_path_refl, temp_path-ne}
use cu_mes.Io.PublishLaws.{Published-reports, publish_atomic-Published}
use cu_mes.Io.Saving.{
  or_refuse, Saved, saved, refused, WriteError, input_symmetry_mismatch, same_flag, publish_saved,
  status_of, save,
}

abbrev pub as_option : Saved → Option OutFile
as_option (saved f) = some f
as_option (refused e) = none

-- A chain of tests is the chain of its writing calls.
pub refused_or_written :
    (e : WriteError) (o : Option OutFile) (k : OutFile → Saved) (w : Writing)
    → ((g : OutFile) → as_option (k g) ≡ w g)
    → as_option (or_refuse e o k) ≡ then_on o w
refused_or_written e none k w h = refl
refused_or_written e (some g) k w h = h g

-- Either the target is as it was and the call reports an error, or the target is the complete
-- payload. The temporary path has no file, or what it had before, or what is left by a call that
-- reports an error and whose removal failed; no other path changes.
pub record IsAtomic (d : Device) (tag : List ℕ) (payload : OutFile → Saved) (path : FilePath)
    (fs : FileSystem) (r : Option WriteError × FileSystem) : Type 0 where
  pub target :
      ((r.1 path ≡ fs path) × (r.0 ≢ none))
      ⊎ ((f : OutFile) × (payload (record { data_bytes = []; room = d.room }) ≡ saved f)
          × (r.1 path ≡ some f.data_bytes))
  pub temporary :
      (r.1 (temp_path_for path tag) ≡ none)
      ⊎ (r.1 (temp_path_for path tag) ≡ fs (temp_path_for path tag))
      ⊎ ((d.removes ≡ false) × (r.0 ≢ none))
  pub others : AgreeElsewhere (temp_path_for path tag) path fs r.1

status_of-none : (e : Option PublishError) → status_of e ≡ none → e ≡ none
status_of-none none h = refl
status_of-none (some e) h = cc

module _ (d : Device) (tag : List ℕ) (payload : OutFile → Saved) (path : FilePath)
    (fs : FileSystem) where
  abbrev tmp : FilePath
  tmp = temp_path_for path tag

  IsAtomic-if :
      (b : Bool) {x y : Option WriteError × FileSystem}
      → IsAtomic d tag payload path fs x
      → IsAtomic d tag payload path fs y
      → IsAtomic d tag payload path fs (if b then x else y)
  IsAtomic-if true a b = a
  IsAtomic-if false a b = b

  IsAtomic-refused : (e : WriteError) → IsAtomic d tag payload path fs (some e, fs)
  IsAtomic-refused e = record {
    target = inl (refl, λ h. cc);
    temporary = inr (inl refl);
    others = λ q. but_for (same_path q tmp) (same_path q path) _ _ λ h k. refl;
  }

  IsAtomic-saved :
      (m : Saved)
      → payload (record { data_bytes = []; room = d.room }) ≡ m
      → IsAtomic d tag payload path fs (publish_saved d tmp path fs m)
  unfolding update remove
  IsAtomic-saved (refused e) result = elim (Bool-cases d.removes) [
    | inl removed ↦ record {
      target = inl (rw (removed, temp_path-ne path tag), λ h. cc);
      temporary = inl (rw (removed, same_path_refl tmp));
      others = λ q. but_for (same_path q tmp) (same_path q path) _ _ λ h k. rw (removed, h);
    }
    | inr kept ↦ record {
      target = inl (rw (kept, temp_path-ne path tag), λ h. cc);
      temporary = inr (inr (kept, λ h. cc));
      others = λ q. but_for (same_path q tmp) (same_path q path) _ _ λ h k. rw (kept, h);
    }
  ]
  IsAtomic-saved (saved f) result =
      let fs' = update fs tmp (some d.partial) in
      let done = publish_atomic-Published d tmp path fs' (temp_path-ne path tag) f.data_bytes in
      record {
        target = elim done.target [
          | inl (_, _, moved) ↦ inr (f, result, moved)
          | inr (failed, reason, kept) ↦
              inl
                (kept ∙ (rw (temp_path-ne path tag)), λ h. failed (sym reason ∙ status_of-none _ h))
        ];
        temporary = elim done.temporary [
          | inl removed ↦ inl removed
          | inr (kept, failed) ↦
              inr (inr (kept, λ h. Published-reports done failed (status_of-none _ h)))
        ];
        others = λ q.
            but_for (same_path q tmp) (same_path q path) _ _ λ h k.
              elsewhere (same_path q tmp) (same_path q path) _ _ (done.others q) h k ∙ (rw h);
      }

  pub save-IsAtomic :
      (same : Bool) → IsAtomic d tag payload path fs (save same d tag payload path fs)
  unfolding save
  save-IsAtomic same =
      IsAtomic-if (not same) (IsAtomic-refused _)
        (IsAtomic-if (not d.opens) (IsAtomic-refused _) (IsAtomic-saved _ refl))

saved_data :
    (bytes : List ℕ) (f g : OutFile)
    → some g ≡ written bytes f
    → f.data_bytes ≡ []
    → g.data_bytes ≡ bytes
saved_data bytes f g e empty = ground arith

payload_saved : (m : Saved) (f : OutFile) → as_option m ≡ some f → m ≡ saved f
payload_saved (saved g) f e = ground arith
payload_saved (refused g) f e = cc

pub same_flag→eq : (a b : Bool) → same_flag a b ≡ true → b ≡ a
same_flag→eq true b h = h
same_flag→eq false true h = cc
same_flag→eq false false h = refl

pub same_flag_of_eq : {a b c : Bool} → a ≡ c → b ≡ c → same_flag a b ≡ true
same_flag_of_eq {c = true} p q = rw (p, q)
same_flag_of_eq {c = false} p q = rw (p, q)

module _ (same : Bool) (d : Device) (tag : List ℕ) (payload : OutFile → Saved) (path : FilePath)
    (fs : FileSystem) where
  pub saved_symmetry : (save same d tag payload path fs).0 ≡ none → same ≡ true
  unfolding save
  saved_symmetry e = elim (Bool-cases same) [
    | inl agree ↦ agree
    | inr differ ↦ let wrong : (some input_symmetry_mismatch) ≡ none = rw differ at e in cc wrong
  ]

  -- A payload that writes `bytes`.
  module _ (bytes : List ℕ) (whole : (f : OutFile) → as_option (payload f) ≡ written bytes f) where
    pub saved_contents :
        (save same d tag payload path fs).0 ≡ none
        → (save same d tag payload path fs).1 path ≡ some bytes
    saved_contents e = elim (save-IsAtomic d tag payload path fs same).target [
      | inl (_, failed) ↦ absurd (failed e)
      | inr (f, result, contents) ↦
          contents ∙ ap some (saved_data bytes _ f (sym (ap as_option result) ∙ whole _) refl)
    ]

    payload_fits :
        (room : ℕ)
        → length bytes ≤ room
        → payload (record { data_bytes = []; room = room })
          ≡ saved (record { data_bytes = [] ++ bytes; room = room - length bytes })
    payload_fits room fits = payload_saved (payload (record { data_bytes = []; room = room })) _ (
        whole _
        ∙ ap
            (λ b.
              if b
              then some (record { data_bytes = [] ++ bytes; room = room - length bytes })
              else none)
            (le→leb _ room fits))

    pub save_succeeds :
        same ≡ true
        → d.opens ≡ true
        → length bytes ≤ d.room
        → d.flushes ≡ true
        → d.syncs ≡ true
        → d.closes ≡ true
        → d.renames ≡ true
        → d.opens_directory ≡ true
        → d.syncs_directory ≡ true
        → d.closes_directory ≡ true
        → (save same d tag payload path fs).0 ≡ none
    unfolding save publish_atomic rename_publish fsync_directory_of
    save_succeeds agree opens room flushes syncs closes renames opened synced closed =
        rw (agree, opens, payload_fits (d.room) room)
          (rw (flushes, syncs, closes, renames, opened, synced, closed))
