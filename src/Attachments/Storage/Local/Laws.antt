-- ===== src/Attachments/Storage/Local/Laws.antt =====
-- `LocalStorageProvider` (attachments/infrastructure/storage/local.py) is a provider.

use govahee.Prelude.{
  ℕ, ◌-◌, ◌≡◌, refl, sym, ap, ◌∙◌, String, false, ◌||◌, not, List, [], ◌∷◌, none, arith, str_eq,
  str_eq_iff, first, ltb, length, Bool-cases, Option-cases, inl, inr, if◌then◌else◌,
}
use govahee.Prelude.Text.{get, put, get-put, member}
use govahee.Exec.{Result, ok, continue-inv}
use govahee.Attachments.Chunks.{Bytes, iter_chunks, join, total-join, join-iter_chunks}
use govahee.Attachments.Storage.{Stored, IsStore}
use govahee.Attachments.Storage.Paths.{full_path, ancestors, up, path_text, remove, get-remove}
use govahee.Attachments.Storage.Local.{
  Fault, sound, no_directory, no_open, full, Disk, is_dir, opens, unlinks, written, mkdir,
  write_chunks, path_of, save, open_stream, tidy, delete, exists, provider,
}

first-all :
    (n : ℕ) (cs : List Bytes) → ltb (length (first n cs)) (length cs) ≡ false → first n cs ≡ cs
first-all n [] h = refl
first-all n (c ∷ cs) h = ground (arith, first-all (n - 1) cs)

written-all :
    (f : Fault) (cs : List Bytes)
    → ltb (length (written f cs)) (length cs) ≡ false
    → written f cs ≡ cs
written-all sound cs h = refl
written-all no_directory cs h = refl
written-all no_open cs h = refl
written-all (full n) cs h = first-all n cs h

pub mkdir-files : (wanted : List String) (s : Disk) → (mkdir wanted s).1.files ≡ s.files
unfolding mkdir
mkdir-files wanted s = ground arith

-- a file that was written without an error
unfoldable pub Wrote : String → String → List Bytes → Disk → Stored → Disk → Type 0
Wrote key path cs s stored t =
    (stored.storage_key ≡ key)
    × (stored.size ≡ length (join cs))
    × (t.files ≡ put path (join cs) s.files)
    × (member path t.locked ≡ false)

write_chunks-Wrote :
    (digest : Bytes → String) (key path : String) (cs : List Bytes) (s : Disk) (stored : Stored)
    (t : Disk)
    → write_chunks digest key path cs s ≡ (ok stored, t)
    → Wrote key path cs s stored t
unfolding write_chunks Wrote
write_chunks-Wrote digest key path cs s stored t h =
    elim (Bool-cases (is_dir s path || (not (opens s.fault) || member path s.locked))) [
      | inl shut ↦ absurd (ground (arith, rw (shut) at h))
      | inr open_ ↦ elim (Bool-cases (ltb (length (written s.fault cs)) (length cs))) [
        | inl cut ↦ absurd (ground (arith, rw (open_, cut) at h))
        | inr all_ ↦
            let h' = rw (open_, all_, written-all s.fault cs all_) at h in
            (
              ground (arith, h'),
              ground (arith, h', total-join cs),
              ground (arith, h'),
              ground (arith, h', open_),
            )
      ]
    ]

pub tidy-files :
    (digest : Bytes → String) (root dir : String) (s : Disk)
    → (tidy digest root dir s).1.files ≡ s.files
unfolding tidy
tidy-files digest root dir s = ground arith

module _ (digest : Bytes → String) (root : String) where
  pub save-Wrote :
      (key mime_type : String) (bytes : Bytes) (s t : Disk) (stored : Stored)
      → save digest root key bytes mime_type s ≡ (ok stored, t)
      → Wrote key (path_of digest root key) (iter_chunks 8192 bytes) s stored t
  unfolding save Wrote
  save-Wrote key mime_type bytes s t stored h =
      let wanted = ancestors (up (full_path root key)) in
      let path = path_of digest root key in
      let (u, made, rest) =
        continue-inv (mkdir wanted s) (λ _. write_chunks digest key path (iter_chunks 8192 bytes))
          stored t h in
      let (same_key, same_size, files, unlocked) =
        write_chunks-Wrote digest key path (iter_chunks 8192 bytes) (mkdir wanted s).1 stored t
          rest in
      (
        same_key,
        same_size,
        files ∙ ap (put path (join (iter_chunks 8192 bytes))) (mkdir-files wanted s),
        unlocked,
      )

  pub delete-files :
      (key : String) (s t : Disk)
      → delete digest root key s ≡ (ok tt, t)
      → (at : String)
      → get at t.files ≡ (if str_eq at (path_of digest root key) then none else get at s.files)
  unfolding delete
  delete-files key s t h at =
      let path = path_of digest root key in
      let parent = path_text (up (full_path root key)) in
      elim (Option-cases (get path s.files)) [
        | inr (bytes, held) ↦ elim (Bool-cases (unlinks s.removal)) [
          | inr stays ↦ absurd (ground (arith, rw (held, stays) at h))
          | inl gone ↦
              let e : t.files ≡ remove path s.files =
                ap (λ (r : Result (Unit {0}) × Disk). r.1.files) (sym (rw (held, gone) at h))
                ∙ tidy-files digest root parent (record s { files = remove path s.files }) in
              ap (get at) e ∙ get-remove path at s.files
        ]
        | inl absent ↦ elim (Bool-cases (is_dir s path)) [
          | inl dir ↦ absurd (ground (arith, rw (absent, dir) at h))
          | inr free ↦
              let e : t.files ≡ s.files =
                ap (λ (r : Result (Unit {0}) × Disk). r.1.files) (sym (rw (absent, free) at h))
                ∙ tidy-files digest root parent s in
              ap (get at) e ∙ ground (arith, str_eq_iff at path, absent)
        ]
      ]

  -- The local provider keeps what a provider promises.
  pub local-IsStore : IsStore (provider digest root)
  unfolding open_stream exists Wrote
  local-IsStore = record {
    place = path_of digest root;
    view = λ s at. get at s.files;
    works = λ s at. member at s.locked ≡ false;
    save_view = λ key mime_type bytes s t stored h.
        let (same_key, same_size, files, unlocked) = save-Wrote key mime_type bytes s t stored h in
        let all_ = join-iter_chunks 8192 bytes (omega arith) in
        (
          unlocked,
          same_key,
          same_size ∙ ap length all_,
          λ at.
              ap (get at) (files ∙ ap (λ b. put (path_of digest root key) b s.files) all_)
              ∙ get-put (path_of digest root key) at bytes s.files,
        );
    delete_view = delete-files;
    open_view = λ key s t bytes h. elim (Option-cases (get (path_of digest root key) s.files)) [
      | inl absent ↦ absurd (ground (arith, absent))
      | inr (held, found) ↦ (ground (arith, found), ground (arith, found))
    ];
    view_open = λ key s bytes w h. (ground (arith, h, w), ground (arith, h));
  }
