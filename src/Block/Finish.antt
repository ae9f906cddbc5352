-- ===== src/Block/Finish.antt =====
-- The end of a request: `Status::from_data`, `PendingRequest::write_status_and_finish` and
-- `PendingRequest::finish` of virtio/request.rs. Log lines and latency metrics are left out.
pub mod Reports
use herm_os_test.Prelude.{
  ℕ, ◌+◌, ◌%◌, Bool, true, false, List, ◌∷◌, Outcome, ok, err, ◌==◌, if◌then◌else◌, u32_mod,
}
use herm_os_test.Block.Types.{
  RequestType, read_in, write_out, flush, get_device_id, unsupported, PendingRequest,
  FinishedRequest, IoErr, partial_transfer, Status, status_ok, status_io_err, status_unsupported,
  Metric, inc, add, read_bytes, read_count, write_bytes, write_count, flush_count,
  invalid_reqs_count,
}
use herm_os_test.Block.Host.{Host}

-- The outside world, and the calls on metrics so far, newest first.
pub record Ctx (W : Type 0) : Type 0 where
  pub world : W
  pub metrics : List Metric

abbrev pub count : {W : Type 0} → Metric → Ctx W → Ctx W
count m c = record c { metrics = m ∷ c.metrics }

module _ {G F : Type 0} where
  unfoldable pub from_data : ℕ → ℕ → Bool → Status G F
  from_data data_len transferred_data_len data_to_mem =
      let num_bytes_to_mem = if data_to_mem then transferred_data_len else 0 in
      if transferred_data_len == data_len
      then status_ok num_bytes_to_mem
      else status_io_err num_bytes_to_mem (partial_transfer transferred_data_len data_len)

  -- `if let Status::Ok { .. } = status`
  abbrev pub count_if_ok : {W : Type 0} → Metric → Status G F → Ctx W → Ctx W
  count_if_ok m (status_ok n) c = count m c
  count_if_ok m _ c = c

module _ (h : Host) where
  open h use {World, GuestMemoryError, BlockIoError, blk_s_ok, blk_s_ioerr, blk_s_unsupp, write_obj}

  -- the bytes in guest memory, the status code, and the metrics
  unfoldable pub report : Status GuestMemoryError BlockIoError → Ctx World → (ℕ × ℕ) × Ctx World
  report (status_ok n) c = ((n, blk_s_ok), c)
  report (status_io_err n e) c = ((n, blk_s_ioerr), count (inc invalid_reqs_count) c)
  report (status_unsupported op) c = ((0, blk_s_unsupp), count (inc invalid_reqs_count) c)

  -- if the status cannot be written, the descriptor is discarded; `+ 1` is on a u32
  abbrev pub bytes_with_status : ℕ → Outcome GuestMemoryError (Unit {0}) → ℕ
  bytes_with_status n (ok _) = (n + 1) % u32_mod
  bytes_with_status n (err e) = 0

  unfoldable pub write_status_and_finish :
      PendingRequest
      → Status GuestMemoryError BlockIoError
      → Ctx World
      → FinishedRequest × Ctx World
  unfolding report
  write_status_and_finish p status c =
      let ((num_bytes_to_mem, status_code), c') = report status c in
      let (written, w) = write_obj status_code p.status_addr c'.world in
      (
        record {
          num_bytes_to_mem = bytes_with_status num_bytes_to_mem written;
          desc_idx = p.desc_idx;
        },
        record c' { world = w },
      )

  -- the `match` of `finish`, on the result and the type
  unfoldable pub finish_status :
      Outcome (IoErr GuestMemoryError BlockIoError) ℕ
      → RequestType
      → ℕ
      → Ctx World
      → Status GuestMemoryError BlockIoError × Ctx World
  unfolding from_data
  finish_status (ok transferred) read_in data_len c =
      let status = from_data data_len transferred true in
      (status, count_if_ok (inc read_count) status (count (add read_bytes transferred) c))
  finish_status (ok transferred) write_out data_len c =
      let status = from_data data_len transferred false in
      (status, count_if_ok (inc write_count) status (count (add write_bytes transferred) c))
  finish_status (ok _) flush data_len c = (status_ok 0, count (inc flush_count) c)
  finish_status (ok transferred) get_device_id data_len c = (from_data data_len transferred true, c)
  finish_status _ (unsupported op) data_len c = (status_unsupported op, c)
  finish_status (err e) _ data_len c = (status_io_err 0 e, c)

  unfoldable pub finish :
      PendingRequest
      → Outcome (IoErr GuestMemoryError BlockIoError) ℕ
      → Ctx World
      → FinishedRequest × Ctx World
  unfolding finish_status write_status_and_finish
  finish p res c =
      let (status, c') = finish_status res p.type p.data_len c in
      write_status_and_finish p status c'
