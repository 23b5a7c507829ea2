-- ===== src/Attachments/Tests.antt =====
-- Runs of uploads and downloads, and the theorems about storage at concrete inputs.
use govahee.Prelude.{
  ℕ, ◌≡◌, refl, ◌⊎◌, String, true, false, [], ◌∷◌, some, ◌==◌, length, truthy, str_eq,
}
use govahee.Prelude.Text.{get, member, ◌+++◌, lower, decimal, strip, rstrip_slash}
use govahee.Exec.{ok, err, type_error, storage, configuration}
use govahee.Attachments.Chunks.{Bytes, chunks, iter_chunks}
use govahee.Attachments.Storage.{StorageProvider, SavedAs, RemovedAs, ReadAs}
use govahee.Attachments.Storage.Paths.{split_slash, parts, resolve, path_text, full_path, ancestors}
use govahee.Attachments.Storage.Local.{
  full, delete, sound, removes, Disk, mkdir, write_chunks, path_of, save, open_stream, get_download,
  provider,
}
use govahee.Attachments.Storage.Local.Laws.{local-IsStore}
use govahee.Attachments.Storage.Bucket.{answered, Signer, Parspack, parspack, normalize_endpoint}
use govahee.Attachments.Storage.Local.Refines.{local_refines}
use govahee.Attachments.Storage.Bucket.Disposition.{
  content_disposition, content_disposition_safe, is_plain, is_quoted, all_chars,
}
use govahee.Attachments.Storage.Factory.{provider_type_of}
use govahee.Attachments.Files.{
  StoredFile, Files, UploadedFile, not_found, created, streaming, allowed_image, is_too_large,
  is_allowed, validate_upload, from_last_dot, extension, storage_key_of, create_row, save_bytes,
  upload_checked, upload, file_view,
}
use govahee.Attachments.Files.Downloads.{Streams, upload-file_view, signed_never_sent}

abbrev digest : Bytes → String
digest bytes = "sha256"

abbrev logo : UploadedFile
logo = record { name = "My Logo.PNG"; content_type = some "image/png"; bytes = 137 ∷ 80 ∷ 78 ∷ [] }

abbrev local_provider : StorageProvider
local_provider = provider digest "/srv/files"

abbrev empty_disk : Files local_provider
empty_disk = record {
  store = record { files = []; dirs = []; fault = sound; removal = removes; locked = [] };
  rows = [];
}

-- the disk and the row after the upload
abbrev logo_disk : Files local_provider
logo_disk = record {
  store = record {
    files = ("/srv/files/orgs/7/uploads/u1.png", 137 ∷ 80 ∷ 78 ∷ []) ∷ [];
    dirs =
        "/srv/files/orgs/7/uploads" ∷ "/srv/files/orgs/7" ∷ "/srv/files/orgs" ∷ "/srv/files"
        ∷ "/srv" ∷ [];
    fault = sound;
    removal = removes;
    locked = [];
  };
  rows =
      record {
        id = 1;
        organization = some 7;
        original_name = "My Logo.PNG";
        mime_type = "image/png";
        size = 3;
        checksum = "sha256";
        storage_key = "orgs/7/uploads/u1.png";
        storage_provider = "local";
        uploaded_by = some 3;
      }
      ∷ [];
}

logo_is_stored :
    upload local_provider digest 10 7 (some 3) "u1" (some logo) empty_disk
    ≡ (ok (created 1 "My Logo.PNG" 3 "image/png"), logo_disk)
unfolding upload upload_checked validate_upload save_bytes create_row storage_key_of extension
    from_last_dot parts split_slash lower decimal save mkdir write_chunks path_of full_path
    path_text resolve ancestors iter_chunks chunks
logo_is_stored = refl

local-Streams : Streams local_provider
unfolding get_download
local-Streams key mime_type file_name file_size bytes s h = rw (h) refl

upload-file_view_example :
    (is_too_large 10 logo ≡ false)
    × (is_allowed allowed_image logo ≡ true)
    × ("My Logo.PNG" ≡ logo.name)
    × (3 ≡ length logo.bytes)
    × (file_view local_provider 7 1 logo_disk
        ≡ (ok (streaming logo.bytes logo.name "image/png"), logo_disk))
    × ((other : ℕ)
        → (7 == other) ≡ false
        → file_view local_provider other 1 logo_disk ≡ (ok not_found, logo_disk))
upload-file_view_example =
    upload-file_view local_provider (local-IsStore digest "/srv/files") local-Streams digest 10 7
      (some 3) "u1" logo empty_disk logo_disk 1 3 "My Logo.PNG" "image/png" logo_is_stored

-- a disk that is full after one chunk
abbrev full_disk : Disk
full_disk = record logo_disk.store { fault = full 1 }

local_refines_example :
    let own = str_eq "/srv/files/a" (path_of digest "/srv/files" "a") in
    let saved = save digest "/srv/files" "a" (1 ∷ 2 ∷ []) "text/csv" full_disk in
    let removed = delete digest "/srv/files" "a" full_disk in
    let read = open_stream digest "/srv/files" "a" full_disk in
    SavedAs
      (1 ∷ 2 ∷ [])
      own
      (get "/srv/files/a" full_disk.files)
      (get "/srv/files/a" saved.1.files)
      saved.0
    × RemovedAs own
        (get "/srv/files/a" full_disk.files)
        (get "/srv/files/a" removed.1.files)
        removed.0
    × ReadAs
        (member (path_of digest "/srv/files" "a") full_disk.locked)
        (get (path_of digest "/srv/files" "a") full_disk.files)
        read.0
    × (read.1 ≡ full_disk)
local_refines_example =
    local_refines digest "/srv/files" "a" "text/csv" "/srv/files/a" (1 ∷ 2 ∷ []) full_disk

abbrev sign : Signer
sign key mime_type disposition expiry = "https://s3.example.org/" +++ key

abbrev settings : Parspack
settings = record {
  endpoint = "https://s3.example.org";
  addressing_style = "path";
  signature_version = "s3v4";
  region = "us-east-1";
  signed_url_expiry_seconds = 300;
  use_signed_urls = true;
}

abbrev remote : StorageProvider
remote = parspack digest sign settings

abbrev bucket : Files remote
bucket = record {
  store = record {
    objects = ("orgs/7/uploads/u1.png", 137 ∷ []) ∷ [];
    made = true;
    creates = answered;
    answers = answered;
    signs = answered;
  };
  rows = logo_disk.rows;
}

abbrev row : StoredFile
row = record {
  id = 1;
  organization = some 7;
  original_name = "My Logo.PNG";
  mime_type = "image/png";
  size = 3;
  checksum = "sha256";
  storage_key = "orgs/7/uploads/u1.png";
  storage_provider = "local";
  uploaded_by = some 3;
}

signed_never_sent_example :
    (file_view remote 7 1 bucket ≡ (err type_error, bucket))
    ⊎ (file_view remote 7 1 bucket ≡ (err (storage "The address could not be signed."), bucket))
signed_never_sent_example = signed_never_sent digest sign settings 7 1 bucket row refl refl

content_disposition_safe_example :
    (name : String) × (encoded : String) × (content_disposition "a\"b.png" true
      ≡ "attachment" +++ "; filename=\"" +++ name +++ "\"; filename*=UTF-8''" +++ encoded)
    × (all_chars is_plain name ≡ true)
    × (truthy name ≡ true)
    × (all_chars is_quoted encoded ≡ true)
content_disposition_safe_example = content_disposition_safe "a\"b.png" true

-- The name of a provider may have spaces around it and be in capitals.
unknown_provider :
    provider_type_of (some " S3 ") ≡ err (configuration "The storage provider is not supported.")
unfolding provider_type_of strip lower
unknown_provider = refl

endpoint_gets_a_scheme : normalize_endpoint " s3.example.org/ " ≡ "https://s3.example.org"
unfolding normalize_endpoint strip rstrip_slash
endpoint_gets_a_scheme = refl
