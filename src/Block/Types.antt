-- ===== src/Block/Types.antt =====
-- The data types of virtio/mod.rs and virtio/request.rs. Error payloads of libraries are parameters.
use herm_os_test.Prelude.{ℕ, ◌*◌, ◌%◌, ◌^◌, Bool, true, false, String, u64_mod}

-- SECTOR_SHIFT and SECTOR_SIZE
abbrev pub sector_shift : ℕ
sector_shift = 9

abbrev pub sector_size : ℕ
sector_size = 2 ^ sector_shift

pub data RequestType : Type 0 where
  read_in write_out flush get_device_id : RequestType
  unsupported : ℕ → RequestType

-- the derived `PartialEq` of `RequestType`, at the four constants that the code compares with
abbrev pub is_in : RequestType → Bool
is_in read_in = true
is_in _ = false

abbrev pub is_out : RequestType → Bool
is_out write_out = true
is_out _ = false

abbrev pub is_flush : RequestType → Bool
is_flush flush = true
is_flush _ = false

abbrev pub is_get_id : RequestType → Bool
is_get_id get_device_id = true
is_get_id _ = false

-- the parts of `RequestHeader` that are read; the reserved word is not
pub record RequestHeader : Type 0 where
  pub request_type : ℕ
  pub sector : ℕ

pub record PendingRequest : Type 0 where
  pub type : RequestType
  pub data_len : ℕ
  pub status_addr : ℕ
  pub desc_idx : ℕ

pub record FinishedRequest : Type 0 where
  pub num_bytes_to_mem : ℕ
  pub desc_idx : ℕ

pub data ProcessingResult : Type 0 where
  submitted throttled : ProcessingResult
  executed : FinishedRequest → ProcessingResult

pub data IoErr (G F : Type 0) : Type 0 where
  get_id : G → IoErr G F
  partial_transfer : ℕ → ℕ → IoErr G F
  file_engine : F → IoErr G F

pub data Status (G F : Type 0) : Type 0 where
  status_ok : ℕ → Status G F
  status_io_err : ℕ → IoErr G F → Status G F
  status_unsupported : ℕ → Status G F

-- The variants of `VirtioBlockError` that a request can end in.
pub data VirtioBlockError (G : Type 0) : Type 0 where
  descriptor_chain_too_short descriptor_length_too_small : VirtioBlockError G
  guest_memory : G → VirtioBlockError G
  invalid_data_length invalid_offset : VirtioBlockError G
  unexpected_read_only_descriptor unexpected_write_only_descriptor : VirtioBlockError G

pub record Request : Type 0 where
  pub type : RequestType
  pub data_len : ℕ
  pub status_addr : ℕ
  pub sector : ℕ
  pub data_addr : ℕ

pub data TokenType : Type 0 where
  bytes ops : TokenType

pub data FileEngineType : Type 0 where
  async sync : FileEngineType

-- `FileEngineOk` and the error of `block_io`, as `Request::process` matches on them
pub data EngineResult (F : Type 0) : Type 0 where
  engine_submitted : EngineResult F
  engine_executed : PendingRequest → ℕ → EngineResult F
  engine_failed : PendingRequest → F → EngineResult F

-- The counters of `BlockDeviceMetrics` that the code touches, and the calls it makes on them.
pub data Counter : Type 0 where
  read_bytes read_count write_bytes write_count flush_count invalid_reqs_count : Counter
  execute_fails event_fails no_avail_buffer update_count cfg_fails activate_fails : Counter
  queue_event_count rate_limiter_event_count remaining_reqs_count : Counter
  rate_limiter_throttled_events io_engine_throttled_events : Counter

pub data Metric : Type 0 where
  inc : Counter → Metric
  add : Counter → ℕ → Metric

-- `self.sector << SECTOR_SHIFT` on a u64: bits shifted out are lost
unfoldable pub offset : Request → ℕ
offset r = (r.sector * sector_size) % u64_mod

unfoldable pub to_pending_request : Request → ℕ → PendingRequest
to_pending_request r desc_idx = record {
  type = r.type;
  data_len = r.data_len;
  status_addr = r.status_addr;
  desc_idx = desc_idx;
}

-- one line of the block trace, but for its timestamp
pub record TraceLine : Type 0 where
  pub drive_id : String
  pub op : String
  pub offset : ℕ
  pub length : ℕ
