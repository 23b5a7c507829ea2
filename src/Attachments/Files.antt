-- ===== src/Attachments/Files.antt =====
-- attachments/services/__init__.py and attachments/views.py, over any storage provider. SHA-256 and
-- the hexadecimal text of a new UUID are parameters.

pub mod Saved
pub mod Downloads
use Prim.Native.Char.{code}
use govahee.Prelude.{
  ℕ, ◌*◌, String, Bool, true, false, ◌&&◌, ◌||◌, not, List, [], ◌∷◌, Option, none, some, ◌==◌, ltb,
  length, find, any, map, or_else, str_eq, if◌then◌else◌,
}
use govahee.Prelude.Text.{◌+++◌, lower, decimal, member}
use govahee.Exec.{
  Exec, Result, ok, err, validation, integrity_error, type_error, continue, pure, ◌>>=◌,
}
use govahee.Billing.State.{next_pk}
use govahee.Attachments.Chunks.{Bytes}
use govahee.Attachments.Storage.{Stored, DownloadResult, StorageProvider}
use govahee.Attachments.Storage.Paths.{parts}

-- a row of attachments.StoredFile
pub record StoredFile : Type 0 where
  pub id : ℕ
  pub organization : Option ℕ
  pub original_name : String
  pub mime_type : String
  pub size : ℕ
  pub checksum : String
  pub storage_key : String
  pub storage_provider : String
  pub uploaded_by : Option ℕ

pub record Files (P : StorageProvider) : Type 0 where
  pub store : P.State
  pub rows : List StoredFile

-- an uploaded file, with the type that the browser says
pub record UploadedFile : Type 0 where
  pub name : String
  pub content_type : Option String
  pub bytes : Bytes

abbrev pub allowed_image : List String
allowed_image = "image/png" ∷ "image/jpeg" ∷ "image/webp" ∷ "image/svg+xml" ∷ []

abbrev pub allowed_suffixes : List String
allowed_suffixes = ".png" ∷ ".jpg" ∷ ".jpeg" ∷ ".webp" ∷ ".pdf" ∷ ".csv" ∷ ".xlsx" ∷ []

-- `name.endswith(suffix)`, for a suffix that is not empty
unfoldable pub ends_with : String → String → Bool
ends_with String.[] suffix = false
ends_with (String.◌∷◌ c s) suffix = str_eq (String.◌∷◌ c s) suffix || ends_with s suffix

abbrev pub type_text : Option String → String
type_text none = ""
type_text (some t) = t

abbrev pub is_too_large : ℕ → UploadedFile → Bool
is_too_large max_mb file = ltb (max_mb * 1048576) (length file.bytes)

abbrev pub is_allowed : List String → UploadedFile → Bool
is_allowed allowed_types file =
    member (type_text file.content_type) allowed_types
    || any (ends_with (lower file.name)) allowed_suffixes

-- `validate_upload`
unfoldable pub validate_upload : List String → ℕ → UploadedFile → Result UploadedFile
validate_upload allowed_types max_mb file =
    if is_too_large max_mb file
    then err (validation "The file is too large.")
    else if not (is_allowed allowed_types file)
    then err (validation "The type of the file is not allowed.")
    else ok file

-- the text from the last dot on
unfoldable pub from_last_dot : String → Option String
from_last_dot String.[] = none
from_last_dot (String.◌∷◌ c s) = elim (from_last_dot s) [
  | some t ↦ some t
  | none ↦ if code c == 46 then some (String.◌∷◌ c s) else none
]

-- a suffix is more than the dot, and does not begin the name
abbrev pub name_suffix : String → String
name_suffix String.[] = ""
name_suffix (String.◌∷◌ c s) = elim (from_last_dot s) [
  | none ↦ ""
  | some t ↦ if str_eq t "." then "" else t
]

abbrev pub last_part : List String → String
last_part [] = ""
last_part (p ∷ []) = p
last_part (p ∷ q ∷ ps) = last_part (q ∷ ps)

-- `Path(original_name).suffix.lower() or ".bin"`
unfoldable pub extension : String → String
extension original_name = or_else (lower (name_suffix (last_part (parts original_name)))) ".bin"

-- what goes with the bytes into `save_bytes`
pub record Details : Type 0 where
  pub organization : Option ℕ
  pub original_name : String
  pub mime_type : String
  pub uploaded_by : Option ℕ
  pub folder : String
  pub uuid : String

abbrev pub org_part : Option ℕ → String
org_part none = "platform"
org_part (some pk) = decimal pk

-- the key of a new file
unfoldable pub storage_key_of : Details → String
storage_key_of d =
    "orgs/"
    +++ org_part d.organization
    +++ "/"
    +++ d.folder
    +++ "/"
    +++ d.uuid
    +++ extension d.original_name

-- what the views answer
pub data Response : Type 0 where
  missing not_found : Response
  created : ℕ → String → ℕ → String → Response
  streaming : Bytes → String → String → Response

-- the details that the view passes on
abbrev pub details_of : ℕ → Option ℕ → String → UploadedFile → Details
details_of org user uuid file = record {
  organization = some org;
  original_name = file.name;
  mime_type = or_else (type_text file.content_type) "application/octet-stream";
  uploaded_by = user;
  folder = "uploads";
  uuid = uuid;
}

abbrev pub belongs : ℕ → Option ℕ → Bool
belongs org none = false
belongs org (some pk) = pk == org

-- `StoredFile.objects.for_org(organization).filter(pk=pk).first()`
abbrev pub is_file_of : ℕ → ℕ → StoredFile → Bool
is_file_of org pk f = belongs org f.organization && f.id == pk

module _ (P : StorageProvider) where
  -- `StoredFile.objects.create(...)`: keys are unique
  unfoldable pub create_row :
      (Bytes → String) → Details → Bytes → Stored → Exec (Files P) StoredFile
  create_row digest d bytes stored s =
      let row : StoredFile = record {
        id = next_pk (map (λ (f : StoredFile). f.id) s.rows);
        organization = d.organization;
        original_name = d.original_name;
        mime_type = d.mime_type;
        size = stored.size;
        checksum = digest bytes;
        storage_key = stored.storage_key;
        storage_provider = P.provider_type;
        uploaded_by = d.uploaded_by;
      } in
      if any (λ (f : StoredFile). str_eq f.storage_key stored.storage_key) s.rows
      then (err integrity_error, s)
      else (ok row, record s { rows = row ∷ s.rows })

  -- a call of the provider
  abbrev pub in_store : {A : Type 0} → Exec P.State A → Exec (Files P) A
  in_store m s = let r = m s.store in (r.0, record s { store = r.1 })

  -- `save_bytes`
  unfoldable pub save_bytes : (Bytes → String) → Details → Bytes → Exec (Files P) StoredFile
  save_bytes digest d bytes =
      in_store (P.save (storage_key_of d) bytes d.mime_type) >>= create_row digest d bytes

  unfoldable pub upload_checked :
      (Bytes → String) → ℕ → Option ℕ → String → Result UploadedFile → Exec (Files P) Response
  upload_checked digest org user uuid (err e) s = (err e, s)
  upload_checked digest org user uuid (ok file) s =
      (save_bytes digest (details_of org user uuid file) file.bytes >>= λ f.
      pure (created f.id f.original_name f.size f.mime_type))
        s

  -- `UploadView.post`
  unfoldable pub upload :
      (Bytes → String) → ℕ → ℕ → Option ℕ → String → Option UploadedFile → Exec (Files P) Response
  upload digest max_mb org user uuid none s = (ok missing, s)
  upload digest max_mb org user uuid (some file) s =
      upload_checked digest org user uuid (validate_upload allowed_image max_mb file) s

  -- `FileResponse(result.stream, ...)`, which iterates over the stream
  unfoldable pub file_response : StoredFile → DownloadResult → Exec (Files P) Response
  file_response f d s = elim d.stream [
    | none ↦ (err type_error, s)
    | some bytes ↦
        (ok (streaming bytes f.original_name (or_else f.mime_type "application/octet-stream")), s)
  ]

  unfoldable pub send_file : Option StoredFile → Exec (Files P) Response
  send_file none s = (ok not_found, s)
  send_file (some f) s =
      (in_store (P.get_download f.storage_key f.mime_type f.original_name f.size)
          >>= file_response f)
        s

  -- `FileView.get`
  unfoldable pub file_view : ℕ → ℕ → Exec (Files P) Response
  file_view org pk s = send_file (find (is_file_of org pk) s.rows) s
