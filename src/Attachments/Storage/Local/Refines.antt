-- ===== src/Attachments/Storage/Local/Refines.antt =====
-- `LocalStorageProvider` (attachments/infrastructure/storage/local.py) against a table of files,
-- whatever the disk does.
use govahee.Prelude.{
  ◌≡◌, refl, ap, ◌∙◌, ◌⊎◌, inl, inr, String, true, ◌||◌, not, List, Option, none, some, is_some,
  arith, length, str_eq, Bool-cases,
}
use govahee.Prelude.Text.{get, put, get-put, member}
use govahee.Exec.{Result, ok, err, continue}
use govahee.Attachments.Chunks.{Bytes, iter_chunks, join, join-iter_chunks}
use govahee.Attachments.Storage.{Stored, SavedAs, RemovedAs, ReadAs}
use govahee.Attachments.Storage.Paths.{full_path, ancestors, up, path_text, remove, get-remove}
use govahee.Attachments.Storage.Local.{
  Disk, is_dir, opens, unlinks, written, mkdir, write_chunks, path_of, save, open_stream, delete,
}
use govahee.Attachments.Storage.Local.Laws.{
  Wrote, mkdir-files, save-Wrote, tidy-files, delete-files,
}

-- writing touches the file's own place only, however it ends
write_chunks-frame :
    (digest : Bytes → String) (key path at : String) (cs : List Bytes) (s : Disk)
    → (str_eq at path ≡ true)
      ⊎ (get at (write_chunks digest key path cs s).1.files ≡ get at s.files)
unfolding write_chunks
write_chunks-frame digest key path at cs s = elim (Bool-cases (str_eq at path)) [
  | inl own ↦ inl own
  | inr other ↦
      inr (elim (Bool-cases (is_dir s path || (not (opens s.fault) || member path s.locked))) [
        | inl shut ↦ rw (shut) refl
        | inr open_ ↦
            rw (open_) (get-put path at (join (written s.fault cs)) s.files ∙ rw (other) refl)
      ])
]

module _ (digest : Bytes → String) (root : String) where
  save-frame :
      (key mime_type at : String) (bytes : Bytes) (s : Disk)
      → (str_eq at (path_of digest root key) ≡ true)
        ⊎ (get at (save digest root key bytes mime_type s).1.files ≡ get at s.files)
  unfolding save
  save-frame key mime_type at bytes s =
      let path = path_of digest root key in
      saved_after key path at (iter_chunks 8192 bytes)
        (mkdir (ancestors (up (full_path root key))) s) s
        (mkdir-files (ancestors (up (full_path root key))) s)
    where
      saved_after :
          (key path at : String) (cs : List Bytes) (r : Result (Unit {0}) × Disk) (s : Disk)
          → r.1.files ≡ s.files
          → (str_eq at path ≡ true)
            ⊎ (get at (continue r (λ _. write_chunks digest key path cs)).1.files ≡ get at s.files)
      saved_after key path at cs (ok u, s1) s same =
          elim (write_chunks-frame digest key path at cs s1) [
            | inl own ↦ inl own
            | inr kept ↦ inr (kept ∙ ap (get at) same)
          ]
      saved_after key path at cs (err e, s1) s same = inr (ap (get at) same)

  saved_as :
      (key mime_type at : String) (bytes : Bytes) (s : Disk) (r : Result Stored × Disk)
      → save digest root key bytes mime_type s ≡ r
      → (str_eq at (path_of digest root key) ≡ true) ⊎ (get at r.1.files ≡ get at s.files)
      → SavedAs bytes (str_eq at (path_of digest root key)) (get at s.files) (get at r.1.files) r.0
  unfolding SavedAs Wrote
  saved_as key mime_type at bytes s (ok stored, t) e frame =
      let all_ = join-iter_chunks 8192 bytes (omega arith) in
      let (same_key, same_size, files, unlocked) =
        save-Wrote digest root key mime_type bytes s t stored e in
      (
        ap (get at) (files ∙ ap (λ b. put (path_of digest root key) b s.files) all_)
            ∙ get-put (path_of digest root key) at bytes s.files,
        same_size ∙ ap length all_,
      )
  saved_as key mime_type at bytes s (err x, t) e frame = frame

  -- a removal leaves the files as they are, or takes its own away
  delete-kept :
      (key : String) (s : Disk)
      → let t = (delete digest root key s).1 in
        (t.files ≡ remove (path_of digest root key) s.files) ⊎ (t.files ≡ s.files)
  unfolding delete
  delete-kept key s =
      let path = path_of digest root key in
      let parent = path_text (up (full_path root key)) in
      elim (Bool-cases (is_some (get path s.files))) [
        | inl held ↦ elim (Bool-cases (unlinks s.removal)) [
          | inl gone ↦ inl (
              rw (held, gone)
                (tidy-files digest root parent (record s { files = remove path s.files })))
          | inr stays ↦ inr (rw (held, stays) refl)
        ]
        | inr absent ↦ elim (Bool-cases (is_dir s path)) [
          | inl dir ↦ inr (rw (absent, dir) refl)
          | inr free ↦ inr (rw (absent, free) (tidy-files digest root parent s))
        ]
      ]

  removed_as :
      (key at : String) (s : Disk) (r : Result (Unit {0}) × Disk)
      → delete digest root key s ≡ r
      → (r.1.files ≡ remove (path_of digest root key) s.files) ⊎ (r.1.files ≡ s.files)
      → RemovedAs (str_eq at (path_of digest root key)) (get at s.files) (get at r.1.files) r.0
  unfolding RemovedAs
  removed_as key at s (ok u, t) e kept = delete-files digest root key s t e at
  removed_as key at s (err x, t) e (inl gone) =
      let path = path_of digest root key in
      let after = ap (get at) gone ∙ get-remove path at s.files in
      elim (Bool-cases (str_eq at path)) [
        | inl own ↦ inl (own, after ∙ rw (own) refl)
        | inr other ↦ inr (after ∙ rw (other) refl)
      ]
  removed_as key at s (err x, t) e (inr same) = inr (ap (get at) same)

  read_as :
      (key : String) (s : Disk) (held : Option Bytes)
      → get (path_of digest root key) s.files ≡ held
      → ReadAs (member (path_of digest root key) s.locked) held (open_stream digest root key s).0
  unfolding open_stream ReadAs
  read_as key s none e = ground (arith, e)
  read_as key s (some bytes) e = elim (Bool-cases (member (path_of digest root key) s.locked)) [
    | inl locked ↦ rw (open_stream, e, locked) (inr refl)
    | inr free ↦ rw (open_stream, e, free) refl
  ]

  -- The local provider is a table of files, whatever of its faults the disk has (directories that
  -- are not made or removed, files that are not opened, not wholly written or not unlinked): at
  -- every place, a save that returns has put the whole file into its own place, and a save that
  -- returns or raises, even half way, touches no other place; a removal that returns has emptied its
  -- own place, one that raises has emptied it or changed nothing, and neither touches another place;
  -- and reading gives what the place holds, raises only where it holds no file or the file is
  -- locked, and changes nothing.
  pub local_refines :
      (key mime_type at : String) (bytes : Bytes) (s : Disk)
      → let own = str_eq at (path_of digest root key) in
        let saved = save digest root key bytes mime_type s in
        let removed = delete digest root key s in
        let read = open_stream digest root key s in
        SavedAs bytes own (get at s.files) (get at saved.1.files) saved.0
        × RemovedAs own (get at s.files) (get at removed.1.files) removed.0
        × ReadAs
            (member (path_of digest root key) s.locked)
            (get (path_of digest root key) s.files)
            read.0
        × (read.1 ≡ s)
  unfolding open_stream
  local_refines key mime_type at bytes s = (
    saved_as key mime_type at bytes s (save digest root key bytes mime_type s) refl
        (save-frame key mime_type at bytes s),
    removed_as key at s (delete digest root key s) refl (delete-kept key s),
    read_as key s (get (path_of digest root key) s.files) refl,
    ground arith,
  )
