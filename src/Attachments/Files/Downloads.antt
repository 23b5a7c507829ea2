-- ===== src/Attachments/Files/Downloads.antt =====
-- Files that were uploaded (attachments/views.py), downloaded again.

use govahee.Prelude.{
  ℕ, ◌≡◌, ◌≤◌, refl, ap, ◌∙◌, ◌⊎◌, inl, inr, String, true, false, ◌&&◌, List, [], ◌∷◌, Option, none,
  some, arith, ◌==◌, ==_refl, find, map, length, or_else, Bool-cases,
}
use govahee.Exec.{ok, err, type_error, storage}
use govahee.Billing.State.{next_pk}
use govahee.Attachments.Chunks.{Bytes}
use govahee.Attachments.Storage.{streamed, StorageProvider, IsStore}
use govahee.Attachments.Storage.Bucket.{Parspack, Signer, parspack, parspack_download, returns}
use govahee.Attachments.Files.Saved.{upload-Saved}
use govahee.Attachments.Files.{
  StoredFile, Files, UploadedFile, not_found, created, streaming, allowed_image, is_too_large,
  is_allowed, type_text, upload, belongs, is_file_of, file_response, send_file, file_view,
}

-- `get_download` sends on what `open_stream` gives.
abbrev pub Streams : StorageProvider → Type 0
Streams P =
    (key mime_type file_name : String) (file_size : ℕ) (bytes : Bytes) (s : P.State)
    → P.open_stream key s ≡ (ok bytes, s)
    → P.get_download key mime_type file_name file_size s
      ≡ (ok (streamed key mime_type file_name file_size bytes), s)

below_next :
    (rows : List StoredFile) (k : ℕ)
    → next_pk (map (λ (f : StoredFile). f.id) rows) ≤ k
    → (org : ℕ) → find (λ (f : StoredFile). belongs org f.organization && f.id == k) rows ≡ none
below_next [] k h org = refl
below_next (f ∷ fs) k h org = ground (arith, below_next fs k (ground arith) org)

-- the file that was found, sent
file_view-streams :
    (P : StorageProvider) (org pk : ℕ) (t : Files P) (f : StoredFile) (bytes : Bytes)
    → Streams P
    → find (is_file_of org pk) t.rows ≡ some f
    → P.open_stream f.storage_key t.store ≡ (ok bytes, t.store)
    → file_view P org pk t
      ≡ (ok (streaming bytes f.original_name (or_else f.mime_type "application/octet-stream")), t)
unfolding file_view send_file file_response
file_view-streams P org pk t f bytes sends found opened =
    rw
      (
        found,
        sends f.storage_key f.mime_type f.original_name f.size bytes t.store opened,
        file_view,
      )
      refl

-- a name of a type is not empty
named :
    (o : Option String)
    → let m = or_else (type_text o) "application/octet-stream" in
      or_else m "application/octet-stream" ≡ m
named none = refl
named (some String.[]) = refl
named (some (String.◌∷◌ c s)) = refl

-- A file that was uploaded is downloaded as it was, over every provider that keeps what a provider
-- promises and sends on what it opens: an upload that is answered with an id was within the limit
-- of size and of an allowed type or suffix; the download by this id, in the same organization,
-- gives the same bytes, under the name of the upload and with the type that was answered; and no
-- other organization is given the file under this id.
pub upload-file_view :
    (P : StorageProvider)
    → IsStore P
    → Streams P
    → (digest : Bytes → String) (max_mb org : ℕ) (user : Option ℕ) (uuid : String)
      (file : UploadedFile)
    → (s t : Files P) (pk size : ℕ) (name mime_type : String)
    → upload P digest max_mb org user uuid (some file) s ≡ (ok (created pk name size mime_type), t)
    → (is_too_large max_mb file ≡ false)
      × (is_allowed allowed_image file ≡ true)
      × (name ≡ file.name)
      × (size ≡ length file.bytes)
      × (file_view P org pk t ≡ (ok (streaming file.bytes file.name mime_type), t))
      × ((other : ℕ) → (org == other) ≡ false → file_view P other pk t ≡ (ok not_found, t))
unfolding file_view send_file
upload-file_view P L sends digest max_mb org user uuid file s t pk size name mime_type h =
    let (fits, allowed, f, saved, answer) =
      upload-Saved P digest L max_mb org user uuid file s t _ h in
    let (id, own, same_name, mime, same_size, rows, opened) = saved in
    let same_pk : pk ≡ f.id = ground (arith, answer) in
    let name_f : name ≡ f.original_name = ground (arith, answer) in
    let mime_f : mime_type ≡ f.mime_type = ground (arith, answer) in
    let size_f : size ≡ f.size = ground (arith, answer) in
    let mine : is_file_of org pk f ≡ true =
      rw (own, same_pk) (ground (arith, ==_refl org, ==_refl f.id)) in
    let found : find (is_file_of org pk) t.rows ≡ some f = rw (rows) (ground (arith, mine)) in
    let typed : or_else f.mime_type "application/octet-stream" ≡ mime_type =
      rw (mime_f, mime) (named file.content_type) in
    (
      fits,
      allowed,
      name_f ∙ same_name,
      size_f ∙ same_size,
      file_view-streams P org pk t f file.bytes sends found opened
          ∙ ap
              (λ n.
                (ok (streaming file.bytes n (or_else f.mime_type "application/octet-stream")), t))
              same_name
          ∙ ap (λ m. (ok (streaming file.bytes file.name m), t)) typed,
      λ other apart.
          let hidden : is_file_of other pk f ≡ false = rw (own) (ground (arith, apart)) in
          let none_ : find (is_file_of other pk) t.rows ≡ none =
            rw (rows)
              (ground (arith, hidden, below_next s.rows pk (ground (arith, same_pk, id)) other)) in
          rw (none_) refl,
    )

-- With signed addresses, as the settings have it by default, no file in Parspack's store is ever
-- sent: where the organization has the file, `FileView` raises, since the download that it gets has
-- an address in place of a stream.
pub signed_never_sent :
    (digest : Bytes → String) (sign : Signer) (cfg : Parspack) (org pk : ℕ)
    (s : Files (parspack digest sign cfg)) (f : StoredFile)
    → cfg.use_signed_urls ≡ true
    → find (is_file_of org pk) s.rows ≡ some f
    → (file_view (parspack digest sign cfg) org pk s ≡ (err type_error, s))
      ⊎ (file_view (parspack digest sign cfg) org pk s
          ≡ (err (storage "The address could not be signed."), s))
unfolding file_view send_file file_response parspack_download
signed_never_sent digest sign cfg org pk s f signs found =
    elim (Bool-cases (returns s.store.signs)) [
      | inl works ↦ inl (rw (found, signs, works, file_view) refl)
      | inr fails ↦ inr (rw (found, signs, fails, file_view) refl)
    ]
