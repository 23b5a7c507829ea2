-- ===== src/Attachments/Storage/Factory.antt =====
-- attachments/infrastructure/storage/factory.py.
use govahee.Prelude.{String, Option, none, some, str_eq, or_else, if◌then◌else◌}
use govahee.Prelude.Text.{strip, lower}
use govahee.Exec.{Result, ok, err, configuration}
use govahee.Attachments.Chunks.{Bytes}
use govahee.Attachments.Storage.{StorageProvider}
use govahee.Attachments.Storage.Local.{provider}
use govahee.Attachments.Storage.Bucket.{Signer, Parspack, minio, parspack}

-- `StorageProviderType`
pub data ProviderType : Type 0 where
  local_ minio_ parspack_ : ProviderType

-- the name of a provider; None and the empty text stand for the local one
abbrev pub provider_name : Option String → String
provider_name none = "local"
provider_name (some s) = or_else s "local"

-- which provider `build_storage_provider` makes
unfoldable pub provider_type_of : Option String → Result ProviderType
provider_type_of given =
    let name = lower (strip (provider_name given)) in
    if str_eq name "minio"
    then ok minio_
    else if str_eq name "parspack"
    then ok parspack_
    else if str_eq name "local"
    then ok local_
    else err (configuration "The storage provider is not supported.")

-- `build_storage_provider`, with the settings of the providers
unfoldable pub build_storage_provider :
    (Bytes → String) → String → Signer → Parspack → ProviderType → StorageProvider
build_storage_provider digest root sign cfg local_ = provider digest root
build_storage_provider digest root sign cfg minio_ = minio digest
build_storage_provider digest root sign cfg parspack_ = parspack digest sign cfg
