-- ===== src/Block/Host.antt =====
-- What the block device takes from code outside of the repository: guest memory, descriptor chains,
-- the virtqueue, the rate limiter, the file engine, event descriptors, interrupts, the environment.
-- Their state, and all that they share with the guest, is one abstract `World`.
use herm_os_test.Prelude.{ℕ, Bool, Option, List, String, Outcome}
use herm_os_test.Block.Types.{
  RequestHeader, PendingRequest, TokenType, FileEngineType, EngineResult, TraceLine,
}

pub record Host : Type 1 where
  pub World : Type 0
  pub Chain : Type 0
  pub GuestMemoryError : Type 0
  pub BlockIoError : Type 0
  pub IoError : Type 0
  pub QueueError : Type 0
  -- generated/virtio_blk.rs
  pub blk_t_in : ℕ
  pub blk_t_out : ℕ
  pub blk_t_flush : ℕ
  pub blk_t_get_id : ℕ
  pub blk_s_ok : ℕ
  pub blk_s_ioerr : ℕ
  pub blk_s_unsupp : ℕ
  pub blk_id_bytes : ℕ
  -- `DescriptorChain`
  pub addr : Chain → ℕ
  pub len : Chain → ℕ
  pub index : Chain → ℕ
  pub is_write_only : Chain → Bool
  pub has_next : Chain → Bool
  pub next_descriptor : World → Chain → Option Chain
  -- `GuestMemoryMmap`: a failed write may have written a part
  pub read_header : World → ℕ → Outcome GuestMemoryError RequestHeader
  pub write_obj : ℕ → ℕ → World → Outcome GuestMemoryError (Unit {0}) × World
  pub write_slice : List ℕ → ℕ → World → Outcome GuestMemoryError (Unit {0}) × World
  -- `RateLimiter`
  pub consume : ℕ → TokenType → World → Bool × World
  pub manual_replenish : ℕ → TokenType → World → World
  pub is_blocked : World → Bool
  pub limiter_event_handler : World → Outcome IoError (Unit {0}) × World
  -- `FileEngine`
  pub engine_type : World → FileEngineType
  pub engine_read : ℕ → ℕ → ℕ → PendingRequest → World → EngineResult BlockIoError × World
  pub engine_write : ℕ → ℕ → ℕ → PendingRequest → World → EngineResult BlockIoError × World
  pub engine_flush : PendingRequest → World → EngineResult BlockIoError × World
  pub is_throttling_err : BlockIoError → Bool
  pub kick_submission_queue : World → World
  -- `engine.pop(mem)`: an error, no completion, or a completed request with its result
  pub engine_pop :
      World → Outcome IoError (Option (PendingRequest × Outcome BlockIoError ℕ)) × World
  pub completion_evt_read : World → Outcome IoError (Unit {0}) × World
  pub drain : Bool → World → Outcome BlockIoError (Unit {0}) × World
  pub drain_and_flush : Bool → World → Outcome BlockIoError (Unit {0}) × World
  -- `Queue`
  pub pop_or_enable_notification : World → Outcome QueueError (Option Chain) × World
  pub queue_len : World → ℕ
  pub undo_pop : World → World
  pub add_used : ℕ → ℕ → World → Outcome QueueError (Unit {0}) × World
  pub advance_used_ring_idx : World → World
  pub prepare_kick : World → Bool × World
  pub initialize_queue : World → Outcome QueueError (Unit {0}) × World
  pub enable_notif_suppression : World → World
  -- `has_feature(VIRTIO_RING_F_EVENT_IDX)`, of the acked features
  pub has_event_idx : ℕ → Bool
  -- the backing file: open by path and read-only flag, seek to the end, the device id of its metadata
  pub File : Type 0
  pub open_file : String → Bool → World → Outcome IoError File × World
  pub seek_end : File → World → Outcome IoError ℕ × World
  pub device_id_bytes : File → Outcome IoError (List ℕ)
  pub update_engine_file : File → World → Outcome BlockIoError (Unit {0}) × World
  -- event descriptors and interrupts
  pub queue_evt_read : World → Outcome IoError (Unit {0}) × World
  pub activate_evt_write : World → Outcome IoError (Unit {0}) × World
  pub trigger_queue_interrupt : World → Outcome IoError (Unit {0}) × World
  pub trigger_config_interrupt : World → Outcome IoError (Unit {0}) × World
  -- FC_BLOCK_TRACE_PATH and FC_BLOCK_TRACE_DRIVE, and an appended line with its timestamp
  pub trace_path : Option String
  pub trace_drive : Option String
  pub append_line : String → TraceLine → World → World
