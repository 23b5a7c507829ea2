-- ===== src/Attachments/Storage.antt =====
-- `StorageProvider` of attachments/infrastructure/storage/base.py: the methods of a provider over
-- an unknown state, and what a provider promises.
pub mod Paths
pub mod Local
pub mod Bucket
pub mod Factory
use govahee.Prelude.{
  ℕ, ◌≡◌, ◌≢◌, ◌↔◌, ◌⊎◌, String, Bool, true, false, Option, none, some, is_some, str_eq, length,
  if◌then◌else◌,
}
use govahee.Exec.{Exec, Result, ok, err, Error, storage}
use govahee.Attachments.Chunks.{Bytes}

-- the dataclass `StoredFile`
pub record Stored : Type 0 where
  pub storage_key : String
  pub size : ℕ
  pub checksum : String

pub record DownloadResult : Type 0 where
  pub storage_key : String
  pub mime_type : String
  pub file_name : String
  pub file_size : ℕ
  pub stream : Option Bytes
  pub signed_url : Option String
  pub signed_url_expires_in : Option ℕ

-- what `open_stream` gives, sent on
abbrev pub streamed : String → String → String → ℕ → Bytes → DownloadResult
streamed key mime_type file_name file_size bytes = record {
  storage_key = key;
  mime_type = mime_type;
  file_name = file_name;
  file_size = file_size;
  stream = some bytes;
  signed_url = none;
  signed_url_expires_in = none;
}

-- the methods, in the order of the class; `save` takes the key, the file and its mime type
pub record StorageProvider : Type 1 where
  pub State : Type 0
  pub provider_type : String
  pub save : String → Bytes → String → Exec State Stored
  pub open_stream : String → Exec State Bytes
  pub get_download : String → String → String → ℕ → Exec State DownloadResult
  pub delete : String → Exec State (Unit {0})
  pub exists : String → State → Bool

-- What a provider promises, by a view of its state: the bytes that each place holds, a key having
-- one place. A save that returns has put the file in its place, and a removal that returns has
-- emptied it; other places keep what they hold. Reading gives what the place holds, and changes
-- nothing.
pub record IsStore (P : StorageProvider) : Type 1 where
  pub place : String → String
  pub view : P.State → String → Option Bytes
  -- the place is read without an error, if it holds a file
  pub works : P.State → String → Type 0
  pub save_view :
      (key mime_type : String) (bytes : Bytes) (s t : P.State) (stored : Stored)
      → P.save key bytes mime_type s ≡ (ok stored, t)
      → works t (place key)
        × (stored.storage_key ≡ key)
        × (stored.size ≡ length bytes)
        × ((at : String) → view t at ≡ (if str_eq at (place key) then some bytes else view s at))
  pub delete_view :
      (key : String) (s t : P.State)
      → P.delete key s ≡ (ok tt, t)
      → (at : String) → view t at ≡ (if str_eq at (place key) then none else view s at)
  pub open_view :
      (key : String) (s t : P.State) (bytes : Bytes)
      → P.open_stream key s ≡ (ok bytes, t)
      → (view s (place key) ≡ some bytes) × (t ≡ s)
  pub view_open :
      (key : String) (s : P.State) (bytes : Bytes)
      → works s (place key)
      → view s (place key) ≡ some bytes
      → (P.open_stream key s ≡ (ok bytes, s)) × (P.exists key s ≡ true)

-- `raise AttachmentStorageError(message)`
abbrev pub storage_error : {S A : Type 0} → String → Exec S A
storage_error message s = (err (storage message), s)

-- What a table of files does, place by place: `before` and `after` are what a place held and holds.
-- A save that returned has put the bytes into its own place, and no save touches another place.
pub SavedAs : Bytes → Bool → Option Bytes → Option Bytes → Result Stored → Type 0
SavedAs bytes own before after (ok stored) =
    (after ≡ (if own then some bytes else before)) × (stored.size ≡ length bytes)
SavedAs bytes own before after (err e) = (own ≡ true) ⊎ (after ≡ before)

-- A removal that returned has emptied its own place; one that raises has emptied it, too, or has
-- changed nothing. No removal touches another place.
pub RemovedAs : Bool → Option Bytes → Option Bytes → Result (Unit {0}) → Type 0
RemovedAs own before after (ok u) = after ≡ (if own then none else before)
RemovedAs own before after (err e) = ((own ≡ true) × (after ≡ none)) ⊎ (after ≡ before)

-- Reading gives what the place holds, and an error only where it holds nothing or is locked.
pub ReadAs : Bool → Option Bytes → Result Bytes → Type 0
ReadAs locked held (ok bytes) = held ≡ some bytes
ReadAs locked held (err e) = (held ≡ none) ⊎ (locked ≡ true)
