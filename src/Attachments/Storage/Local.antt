-- ===== src/Attachments/Storage/Local.antt =====
-- `LocalStorageProvider` of attachments/infrastructure/storage/local.py, over a disk that may
-- fail to be written. SHA-256 is a parameter.
pub mod Laws
pub mod Refines
use govahee.Prelude.{
  first, ℕ, ◌+◌, String, Bool, true, false, ◌&&◌, ◌||◌, not, List, [], ◌∷◌, ◌++◌, Option, none,
  some, is_some, str_eq, any, keep, length, ltb, map, truthy, if◌then◌else◌,
}
use text.Mathlib.Text.{starts_with}
use govahee.Prelude.Text.{◌+++◌, get, put, member}
use govahee.Exec.{Exec, Result, ok, err, os_error, storage, modify, pure, ◌>>◌, ◌>>=◌}
use govahee.Attachments.Chunks.{Bytes, iter_chunks, join, total}
use govahee.Attachments.Storage.{Stored, DownloadResult, streamed, StorageProvider, storage_error}
use govahee.Attachments.Storage.Paths.{full_path, path_text, ancestors, up, remove}

-- what goes wrong when the disk is written: no directory is made, no file is opened, or writing
-- stops after some chunks
pub data Fault : Type 0 where
  sound no_directory no_open : Fault
  full : ℕ → Fault

-- what goes wrong when a file is removed: it is not unlinked, or its directory, which is empty then,
-- cannot be read or removed
pub data Removal : Type 0 where
  removes no_unlink no_rmdir : Removal

-- files and directories by their paths; the root is always there. `locked` are the paths of files
-- that the process may not open, neither to read nor to write.
pub record Disk : Type 0 where
  pub files : List (String × Bytes)
  pub dirs : List String
  pub fault : Fault
  pub removal : Removal
  pub locked : List String

abbrev pub is_file : Disk → String → Bool
is_file s path = is_some (get path s.files)

abbrev pub is_dir : Disk → String → Bool
is_dir s path = not (truthy path) || member path s.dirs

-- `path.exists()`
abbrev pub path_exists : Disk → String → Bool
path_exists s path = is_file s path || is_dir s path

abbrev pub no_directories : Fault → Bool
no_directories no_directory = true
no_directories _ = false

abbrev pub opens : Fault → Bool
opens no_open = false
opens _ = true

abbrev pub unlinks : Removal → Bool
unlinks no_unlink = false
unlinks _ = true

abbrev pub rmdirs : Removal → Bool
rmdirs no_rmdir = false
rmdirs _ = true

-- how many of the chunks are written
abbrev pub written : Fault → List Bytes → List Bytes
written (full n) cs = first n cs
written _ cs = cs

-- `dest.parent.mkdir(parents=True, exist_ok=True)`, on the directories that are to be there
unfoldable pub mkdir : List String → Exec Disk (Unit {0})
mkdir wanted s =
    if no_directories s.fault || any (is_file s) wanted
    then (err os_error, s)
    else (ok tt, record s { dirs = keep (λ d. not (member d s.dirs)) wanted ++ s.dirs })

module _ (digest : Bytes → String) where
  -- the `with` block: what was written before an error stays
  unfoldable pub write_chunks : String → String → List Bytes → Exec Disk Stored
  write_chunks key path cs s =
      if is_dir s path || (not (opens s.fault) || member path s.locked)
      then storage_error "The file could not be saved on the disk." s
      else (
        if ltb (length (written s.fault cs)) (length cs)
            then err (storage "The file could not be saved on the disk.")
            else ok (record { storage_key = key; size = total cs; checksum = digest (join cs) }),
        record s { files = put path (join (written s.fault cs)) s.files },
      )

  module _ (root : String) where
    -- `_full_path`
    unfoldable pub path_of : String → String
    path_of key = path_text (full_path root key)

    -- `save`
    unfoldable pub save : String → Bytes → String → Exec Disk Stored
    save key bytes mime_type =
        mkdir (ancestors (up (full_path root key)))
        >> write_chunks key (path_of key) (iter_chunks 8192 bytes)

    -- `open_stream`
    unfoldable pub open_stream : String → Exec Disk Bytes
    open_stream key s = elim (get (path_of key) s.files) [
      | some bytes ↦ if member (path_of key) s.locked then (err os_error, s) else (ok bytes, s)
      | none ↦
          if is_dir s (path_of key)
          then (err os_error, s)
          else storage_error "The file was not found in the local storage." s
    ]

    -- `get_download`
    unfoldable pub get_download : String → String → String → ℕ → Exec Disk DownloadResult
    get_download key mime_type file_name file_size =
        open_stream key >>= λ bytes. pure (streamed key mime_type file_name file_size bytes)

    -- the directory of a file that was removed goes, too, if it is empty
    unfoldable pub tidy : String → Exec Disk (Unit {0})
    tidy dir s =
        let inside = λ (path : String). starts_with path (dir +++ "/") in
        let used = any (λ (f : String × Bytes). inside f.0) s.files || any inside s.dirs in
        if not (member dir s.dirs && not used)
        then (ok tt, s)
        else if rmdirs s.removal
        then (ok tt, record s { dirs = keep (λ d. not (str_eq d dir)) s.dirs })
        else (err os_error, s)

    -- `delete`
    unfoldable pub delete : String → Exec Disk (Unit {0})
    delete key s =
        let path = path_of key in
        let parent = path_text (up (full_path root key)) in
        if is_file s path
        then (if unlinks s.removal
            then tidy parent (record s { files = remove path s.files })
            else (err os_error, s))
        else if is_dir s path
        then (err os_error, s)
        else tidy parent s

    -- `exists`
    unfoldable pub exists : String → Disk → Bool
    exists key s = path_exists s (path_of key)

    abbrev pub provider : StorageProvider
    provider = record {
      State = Disk;
      provider_type = "local";
      save = save;
      open_stream = open_stream;
      get_download = get_download;
      delete = delete;
      exists = exists;
    }
