-- ===== src/Block/DriveConfig.antt =====
-- virtio/device.rs: `VirtioBlockConfig` and the configuration of any drive.
use herm_os_test.Prelude.{◌≡◌, refl, Bool, false, Option, none, some, Outcome, ok, err, String}
use herm_os_test.Block.Types.{FileEngineType, sync}
use herm_os_test.Block.Device.{CacheType}

pub record VirtioBlockConfig (R : Type 0) : Type 0 where
  pub drive_id : String
  pub partuuid : Option String
  pub is_root_device : Bool
  pub cache_type : CacheType
  pub is_read_only : Bool
  pub path_on_host : String
  pub rate_limiter : Option R
  pub file_engine_type : FileEngineType

-- the configuration of any drive, of this kind or of the kind with a socket
pub record BlockDeviceConfig (R : Type 0) : Type 0 where
  pub drive_id : String
  pub partuuid : Option String
  pub is_root_device : Bool
  pub cache_type : CacheType
  pub is_read_only : Option Bool
  pub path_on_host : Option String
  pub rate_limiter : Option R
  pub file_engine_type : Option FileEngineType
  pub socket : Option String

-- `unwrap_or`
abbrev pub unwrap_or : {A : Type 0} → A → Option A → A
unwrap_or a none = a
unwrap_or a (some b) = b

-- `VirtioBlockError::Config`
pub data ConfigError : Type 0 where
  config_error : ConfigError

-- `TryFrom<&BlockDeviceConfig>`, from the path and the socket
abbrev pub with_path :
    {R : Type 0}
    → BlockDeviceConfig R
    → Option String
    → Option String
    → Outcome ConfigError (VirtioBlockConfig R)
with_path value (some path) none = ok (record {
  drive_id = value.drive_id;
  partuuid = value.partuuid;
  is_root_device = value.is_root_device;
  cache_type = value.cache_type;
  is_read_only = unwrap_or false value.is_read_only;
  path_on_host = path;
  rate_limiter = value.rate_limiter;
  file_engine_type = unwrap_or sync value.file_engine_type;
})
with_path value (some path) (some socket) = err config_error
with_path value none socket = err config_error

unfoldable pub try_from :
    {R : Type 0} → BlockDeviceConfig R → Outcome ConfigError (VirtioBlockConfig R)
try_from value = with_path value value.path_on_host value.socket

-- `From<VirtioBlockConfig> for BlockDeviceConfig`
unfoldable pub from_config : {R : Type 0} → VirtioBlockConfig R → BlockDeviceConfig R
from_config value = record {
  drive_id = value.drive_id;
  partuuid = value.partuuid;
  is_root_device = value.is_root_device;
  cache_type = value.cache_type;
  is_read_only = some value.is_read_only;
  path_on_host = some value.path_on_host;
  rate_limiter = value.rate_limiter;
  file_engine_type = some value.file_engine_type;
  socket = none;
}

-- Every configuration of a virtio block device is read back from the configuration of a drive that is
-- made of it.
pub try_from-from_config : {R : Type 0} (c : VirtioBlockConfig R) → try_from (from_config c) ≡ ok c
unfolding try_from from_config
try_from-from_config c = refl
