-- ===== src/Block/Process.antt =====
-- `Request::rate_limit` and `Request::process` of virtio/request.rs.
pub mod DeviceId
use herm_os_test.Prelude.{
  ℕ, Bool, true, false, not, ◌||◌, List, Outcome, ok, err, String, if◌then◌else◌,
}
use herm_os_test.Block.Types.{
  RequestType, read_in, write_out, flush, get_device_id, unsupported, is_in, is_out, Request,
  PendingRequest, ProcessingResult, submitted, throttled, executed, IoErr, get_id, file_engine,
  EngineResult, engine_submitted, engine_executed, engine_failed, ops, bytes, offset,
  to_pending_request,
}
use herm_os_test.Block.Host.{Host}
use herm_os_test.Block.Finish.{Ctx, finish}
use herm_os_test.Block.Trace.{trace_record}

module _ (h : Host) where
  open h use {
    World, GuestMemoryError, BlockIoError, blk_id_bytes, write_slice, consume, manual_replenish,
    engine_read, engine_write, engine_flush, is_throttling_err,
  }

  -- the second half of `rate_limit`, for requests that transfer data
  unfoldable pub rate_limit_bytes : Request → World → Bool × World
  rate_limit_bytes r w =
      let (enough, w') = consume r.data_len bytes w in
      if not enough then (true, manual_replenish 1 ops w') else (false, w')

  -- `true`: the request has to wait
  unfoldable pub rate_limit : Request → World → Bool × World
  unfolding rate_limit_bytes
  rate_limit r w =
      let (enough, w') = consume 1 ops w in
      if not enough
      then (true, w')
      else if is_in r.type || is_out r.type
      then rate_limit_bytes r w'
      else (false, w')

  unfoldable pub execute :
      PendingRequest
      → Outcome (IoErr GuestMemoryError BlockIoError) ℕ
      → Ctx World
      → ProcessingResult × Ctx World
  unfolding finish
  execute p res c = let (finished, c') = finish h p res c in (executed finished, c')

  -- the `match` on what the file engine returned
  unfoldable pub after_engine : EngineResult BlockIoError → Ctx World → ProcessingResult × Ctx World
  unfolding execute
  after_engine engine_submitted c = (submitted, c)
  after_engine (engine_executed req count) c = execute req (ok count) c
  after_engine (engine_failed req error) c =
      if is_throttling_err error then (throttled, c) else execute req (err (file_engine error)) c

  -- runs the file engine on the world, then `after_engine`
  abbrev pub with_engine :
      (World → EngineResult BlockIoError × World) → Ctx World → ProcessingResult × Ctx World
  with_engine run c = let (res, w) = run c.world in after_engine res (record c { world = w })

  abbrev pub id_written :
      Outcome GuestMemoryError (Unit {0}) → Outcome (IoErr GuestMemoryError BlockIoError) ℕ
  id_written (ok _) = ok blk_id_bytes
  id_written (err e) = err (get_id e)

  -- `disk` is given by what `process` reads of it, the image id
  unfoldable pub process_as :
      RequestType
      → String
      → List ℕ
      → Request
      → PendingRequest
      → Ctx World
      → ProcessingResult × Ctx World
  unfolding after_engine execute trace_record
  process_as read_in drive_id image_id r pending c =
      with_engine
        (λ w.
          engine_read (offset r) r.data_addr r.data_len pending
            (trace_record h drive_id "read" (offset r) r.data_len w))
        c
  process_as write_out drive_id image_id r pending c =
      with_engine
        (λ w.
          engine_write (offset r) r.data_addr r.data_len pending
            (trace_record h drive_id "write" (offset r) r.data_len w))
        c
  process_as flush drive_id image_id r pending c =
      with_engine (λ w. engine_flush pending (trace_record h drive_id "flush" 0 0 w)) c
  process_as get_device_id drive_id image_id r pending c =
      let (written, w) = write_slice image_id r.data_addr c.world in
      execute pending (id_written written) (record c { world = w })
  process_as (unsupported op) drive_id image_id r pending c = execute pending (ok 0) c

  unfoldable pub process : String → List ℕ → Request → ℕ → Ctx World → ProcessingResult × Ctx World
  unfolding process_as
  process drive_id image_id r desc_idx c =
      process_as r.type drive_id image_id r (to_pending_request r desc_idx) c
