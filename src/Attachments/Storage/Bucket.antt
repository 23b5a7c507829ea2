-- ===== src/Attachments/Storage/Bucket.antt =====
-- Object stores over S3: `MinIOStorageProvider` of attachments/infrastructure/storage/minio.py and
-- `ParspackStorageProvider` of attachments/infrastructure/storage/parspack.py. The service behind
-- boto3 is a bucket of objects with what it answers; SHA-256 and the signing of addresses are
-- parameters.
pub mod Disposition
pub mod Laws
use govahee.Prelude.{
  ℕ, ◌+◌, String, Bool, true, false, ◌&&◌, ◌||◌, not, List, [], ◌∷◌, Option, none, some, is_some,
  str_eq, keep, map, truthy, or_else, if◌then◌else◌,
}
use text.Mathlib.Text.{starts_with, find?}
use govahee.Prelude.Text.{◌+++◌, get, put, strip, rstrip_slash, lower, member}
use govahee.Exec.{Exec, Result, ok, err, botocore_error, storage, pure, ◌>>◌, ◌>>=◌}
use govahee.Attachments.Chunks.{Bytes, iter_chunks, join, total}
use govahee.Attachments.Storage.{Stored, DownloadResult, streamed, StorageProvider, storage_error}
use govahee.Attachments.Storage.Paths.{remove}
use govahee.Attachments.Storage.Bucket.Disposition.{content_disposition}

-- how a call ends: it returns, raises a ClientError with a code, or raises another exception
pub data Answer : Type 0 where
  answered unreachable : Answer
  client_error : String → Answer

-- the objects of the bucket; `creates` is the answer to making it, `answers` to every call on
-- objects, and `signs` to signing an address
pub record Bucket : Type 0 where
  pub objects : List (String × Bytes)
  pub made : Bool
  pub creates : Answer
  pub answers : Answer
  pub signs : Answer

abbrev pub returns : Answer → Bool
returns answered = true
returns _ = false

-- the codes of a bucket that is there already
abbrev pub is_there : String → Bool
is_there code = str_eq code "BucketAlreadyOwnedByYou" || str_eq code "BucketAlreadyExists"

unfoldable pub create_bucket : Answer → Exec Bucket (Unit {0})
create_bucket answered s = (ok tt, record s { made = true })
create_bucket (client_error code) s =
    if is_there code then (ok tt, s) else storage_error "The bucket could not be made." s
create_bucket unreachable s = (err botocore_error, s)

-- `head_bucket`, which is a ClientError where there is no such bucket
unfoldable pub head_bucket : Answer → Bool → Answer
head_bucket answered true = answered
head_bucket answered false = client_error "404"
head_bucket (client_error code) made = client_error code
head_bucket unreachable made = unreachable

unfoldable pub after_head : Answer → Exec Bucket (Unit {0})
after_head answered s = (ok tt, s)
after_head (client_error code) s = create_bucket s.creates s
after_head unreachable s = (err botocore_error, s)

-- `_ensure_bucket`
unfoldable pub ensure_bucket : Exec Bucket (Unit {0})
ensure_bucket s = after_head (head_bucket s.answers s.made) s

module _ (digest : Bytes → String) where
  -- `put_object`, on the chunks that were read into memory
  unfoldable pub put_object : String → List Bytes → Exec Bucket Stored
  put_object key cs s =
      if returns s.answers && s.made
      then (
        ok (record { storage_key = key; size = total cs; checksum = digest (join cs) }),
        record s { objects = put key (join cs) s.objects },
      )
      else storage_error "The file could not be saved." s

  -- `MinIOStorageProvider.save` and `ParspackStorageProvider.save`
  unfoldable pub minio_save : String → Bytes → String → Exec Bucket Stored
  minio_save key bytes mime_type = ensure_bucket >> put_object key (iter_chunks 8192 bytes)

  unfoldable pub parspack_save : String → Bytes → String → Exec Bucket Stored
  parspack_save key bytes mime_type = put_object key (iter_chunks 8192 bytes)

-- `open_stream`, which turns every exception into one of its own
unfoldable pub open_stream : String → Exec Bucket Bytes
open_stream key s =
    let found = get key s.objects in
    if returns s.answers && s.made
    then elim found [
      | some bytes ↦ (ok bytes, s)
      | none ↦ storage_error "The file was not found." s
    ]
    else storage_error "The file was not found." s

-- `delete`: deleting what is not there is no error
unfoldable pub delete : String → Exec Bucket (Unit {0})
delete key s =
    if returns s.answers && s.made
    then (ok tt, record s { objects = remove key s.objects })
    else storage_error "The file could not be deleted." s

-- `exists`
unfoldable pub exists : String → Bucket → Bool
exists key s = returns s.answers && s.made && is_some (get key s.objects)

-- `MinIOStorageProvider.get_download`
unfoldable pub minio_download : String → String → String → ℕ → Exec Bucket DownloadResult
minio_download key mime_type file_name file_size =
    open_stream key >>= λ bytes. pure (streamed key mime_type file_name file_size bytes)

-- what the parameters of `generate_presigned_url` are signed into, for an expiry
abbrev pub Signer : Type 0
Signer = String → String → String → ℕ → String

abbrev pub signed : String → String → String → ℕ → String → ℕ → DownloadResult
signed key mime_type file_name file_size url expiry = record {
  storage_key = key;
  mime_type = mime_type;
  file_name = file_name;
  file_size = file_size;
  stream = none;
  signed_url = some url;
  signed_url_expires_in = some expiry;
}

-- the settings of the provider, after `__init__`
pub record Parspack : Type 0 where
  pub endpoint : String
  pub addressing_style : String
  pub signature_version : String
  pub region : String
  pub signed_url_expiry_seconds : ℕ
  pub use_signed_urls : Bool

-- `ParspackStorageProvider.get_download`
unfoldable pub parspack_download :
    Signer → Parspack → Bool → String → String → String → ℕ → Exec Bucket DownloadResult
parspack_download sign cfg as_attachment key mime_type file_name file_size s =
    let url =
      sign key mime_type (content_disposition file_name as_attachment)
        cfg.signed_url_expiry_seconds in
    if cfg.use_signed_urls
    then (if returns s.signs
        then (ok (signed key mime_type file_name file_size url cfg.signed_url_expiry_seconds), s)
        else storage_error "The address could not be signed." s)
    else minio_download key mime_type file_name file_size s

-- `_normalize_endpoint`
unfoldable pub normalize_endpoint : String → String
normalize_endpoint endpoint =
    let value = rstrip_slash (strip endpoint) in
    if truthy value && not (is_some (find? value "://")) then "https://" +++ value else value

-- `ParspackStorageProvider.__init__`: `expiry` and `use_signed` are None where the caller leaves
-- them out, and the last two are what the settings say then
unfoldable pub init_parspack :
    String → String → Option ℕ → Option Bool → String → String → ℕ → Bool → Parspack
init_parspack endpoint region expiry use_signed addressing_style signature_version default_expiry
      default_signed =
    let style = lower (strip (or_else addressing_style "path")) in
    record {
      endpoint = normalize_endpoint endpoint;
      addressing_style = if str_eq style "path" || str_eq style "virtual" then style else "path";
      signature_version = or_else (strip (or_else signature_version "s3v4")) "s3v4";
      region = or_else region "us-east-1";
      signed_url_expiry_seconds = elim expiry [ none ↦ default_expiry | some n ↦ n ];
      use_signed_urls = elim use_signed [ none ↦ default_signed | some b ↦ b ];
    }

-- `list_objects`: the keys and sizes of the objects with the prefix, which is not blank
unfoldable pub list_objects : String → Exec Bucket (List (String × Bytes))
list_objects prefix_ s =
    if not (truthy (strip prefix_))
    then storage_error "An empty prefix is not allowed." s
    else if returns s.answers && s.made
    then (ok (keep (λ (o : String × Bytes). starts_with o.0 prefix_) s.objects), s)
    else storage_error "The objects could not be listed." s

module _ (digest : Bytes → String) where
  abbrev pub minio : StorageProvider
  minio = record {
    State = Bucket;
    provider_type = "minio";
    save = minio_save digest;
    open_stream = open_stream;
    get_download = minio_download;
    delete = delete;
    exists = exists;
  }

  abbrev pub parspack : Signer → Parspack → StorageProvider
  parspack sign cfg = record {
    State = Bucket;
    provider_type = "parspack";
    save = parspack_save digest;
    open_stream = open_stream;
    get_download = parspack_download sign cfg true;
    delete = delete;
    exists = exists;
  }
