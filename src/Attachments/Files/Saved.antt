-- ===== src/Attachments/Files/Saved.antt =====
-- What an upload (attachments/services/__init__.py, attachments/views.py) that returns has saved.
use mathlib.Core.Path.{subst}
use govahee.Prelude.{
  ℕ, ◌≡◌, sym, ap, ◌∙◌, inl, inr, String, true, false, ◌∷◌, Option, some, arith, str_eq, any, map,
  length, Bool-cases,
}
use govahee.Prelude.Text.{str_eq_refl}
use govahee.Exec.{ok, continue-inv}
use govahee.Billing.State.{next_pk}
use govahee.Attachments.Chunks.{Bytes}
use govahee.Attachments.Storage.{Stored, StorageProvider, IsStore}
use govahee.Attachments.Files.{
  StoredFile, Files, UploadedFile, Details, Response, created, allowed_image, is_too_large,
  is_allowed, validate_upload, storage_key_of, create_row, in_store, save_bytes, details_of,
  upload_checked, upload,
}

-- a row that was made, and what it says
module _ (P : StorageProvider) (digest : Bytes → String) where
  create_row-row :
      (d : Details) (bytes : Bytes) (stored : Stored) (s t : Files P) (f : StoredFile)
      → create_row P digest d bytes stored s ≡ (ok f, t)
      → (f.id ≡ next_pk (map (λ (g : StoredFile). g.id) s.rows))
        × (f.organization ≡ d.organization)
        × (f.original_name ≡ d.original_name)
        × (f.mime_type ≡ d.mime_type)
        × (f.size ≡ stored.size)
        × (f.storage_key ≡ stored.storage_key)
        × (t.rows ≡ f ∷ s.rows)
        × (t.store ≡ s.store)
  unfolding create_row
  create_row-row d bytes stored s t f h =
      elim (Bool-cases (any (λ (g : StoredFile). str_eq g.storage_key stored.storage_key) s.rows)) [
        | inl taken ↦ absurd (ground (arith, rw (taken) at h))
        | inr free ↦
            let h' = rw (free) at h in
            (
              ground (arith, h'),
              ground (arith, h'),
              ground (arith, h'),
              ground (arith, h'),
              ground (arith, h'),
              ground (arith, h'),
              ground (arith, h'),
              ground (arith, h'),
            )
      ]

  -- a row that `save_bytes` made, whose bytes are read from the store
  abbrev pub Saved : Details → Bytes → Files P → StoredFile → Files P → Type 0
  Saved d bytes s f t =
      (f.id ≡ next_pk (map (λ (g : StoredFile). g.id) s.rows))
      × (f.organization ≡ d.organization)
      × (f.original_name ≡ d.original_name)
      × (f.mime_type ≡ d.mime_type)
      × (f.size ≡ length bytes)
      × (t.rows ≡ f ∷ s.rows)
      × (P.open_stream f.storage_key t.store ≡ (ok bytes, t.store))

  save_bytes-Saved :
      (L : IsStore P) (d : Details) (bytes : Bytes) (s t : Files P) (f : StoredFile)
      → save_bytes P digest d bytes s ≡ (ok f, t)
      → Saved d bytes s f t
  unfolding save_bytes
  save_bytes-Saved L d bytes s t f h =
      let key = storage_key_of d in
      let (stored, saved, rest) =
        continue-inv (in_store P (P.save key bytes d.mime_type) s) (create_row P digest d bytes) f t
          h in
      let store = (P.save key bytes d.mime_type s.store).1 in
      let (works, same_key, same_size, views) =
        L.save_view key d.mime_type bytes s.store store stored (ap (λ r. (r, store)) saved) in
      let (id, org, name, mime, size, at, rows, kept) =
        create_row-row d bytes stored (record s { store = store }) t f rest in
      let key_of : f.storage_key ≡ key = at ∙ same_key in
      let held : L.view store (L.place key) ≡ some bytes =
        views (L.place key) ∙ ground (arith, str_eq_refl (L.place key)) in
      let read = (L.view_open key store bytes works held).0 in
      (
        id,
        org,
        name,
        mime,
        size ∙ same_size,
        rows,
        subst (λ k. P.open_stream k t.store ≡ (ok bytes, t.store)) (sym key_of)
            (subst (λ u. P.open_stream key u ≡ (ok bytes, u)) (sym kept) read),
      )

  pub upload-Saved :
      (L : IsStore P) (max_mb org : ℕ) (user : Option ℕ) (uuid : String) (file : UploadedFile)
      (s t : Files P) (r : Response)
      → upload P digest max_mb org user uuid (some file) s ≡ (ok r, t)
      → (is_too_large max_mb file ≡ false)
        × (is_allowed allowed_image file ≡ true)
        × (f : StoredFile) × Saved (details_of org user uuid file) file.bytes s f t
        × (r ≡ created f.id f.original_name f.size f.mime_type)
  unfolding upload upload_checked validate_upload
  upload-Saved L max_mb org user uuid file s t r h = elim (Bool-cases (is_too_large max_mb file)) [
    | inl large ↦ absurd (ground (arith, rw (large) at h))
    | inr fits ↦ elim (Bool-cases (is_allowed allowed_image file)) [
      | inr other ↦ absurd (ground (arith, rw (fits, other) at h))
      | inl allowed ↦
          let d = details_of org user uuid file in
          let (f, saved, rest) =
            continue-inv (save_bytes P digest d file.bytes s) _ r t (rw (fits, allowed) at h) in
          let u = (save_bytes P digest d file.bytes s).1 in
          let same : u ≡ t = ground (arith, rest) in
          (
            fits,
            allowed,
            f,
            subst (λ v. Saved d file.bytes s f v) same
                (save_bytes-Saved L d file.bytes s u f (ap (λ x. (x, u)) saved)),
            ground (arith, rest),
          )
    ]
  ]
