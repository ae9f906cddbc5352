-- ===== src/Block/Queue.antt =====
-- `VirtioBlock::process_queue` of virtio/device.rs. The loop over the available ring takes fuel;
-- `out_of_fuel` is the model's own.
pub mod Laws
pub mod Frame
pub mod Served
pub mod Drain
use herm_os_test.Prelude.{
  ℕ, zero, suc, Bool, true, false, not, ◌&&◌, List, ◌∷◌, Option, none, some, Outcome, ok, err,
  String, if◌then◌else◌, Run, returned, panicked, out_of_fuel,
}
use herm_os_test.Block.Types.{
  Request, ProcessingResult, submitted, throttled, executed, VirtioBlockError, FileEngineType,
  async, sync, FinishedRequest, Metric, inc, add, remaining_reqs_count,
  rate_limiter_throttled_events, execute_fails, event_fails, no_avail_buffer,
}
use herm_os_test.Block.Host.{Host}
use herm_os_test.Block.Parse.{parse}
use herm_os_test.Block.Finish.{Ctx, count}
use herm_os_test.Block.Process.{rate_limit, process}

-- `DiskProperties`; the file engine is part of the world
pub record Disk : Type 0 where
  pub file_path : String
  pub nsectors : ℕ
  pub image_id : List ℕ

-- what the loop changes: the world, the metrics, `used_any` and `self.is_io_engine_throttled`
pub record LoopState (W : Type 0) : Type 0 where
  pub ctx : Ctx W
  pub used_any : Bool
  pub io_throttled : Bool

-- what the body of the loop does next: another round, or `break`
pub data Next (W : Type 0) : Type 0 where
  again stop : LoopState W → Next W

module _ (h : Host) where
  open h use {
    World, Chain, GuestMemoryError, QueueError, index, engine_type, kick_submission_queue,
    pop_or_enable_notification, queue_len, undo_pop, add_used, advance_used_ring_idx, prepare_kick,
    trigger_queue_interrupt,
  }

  abbrev on_world : (World → World) → Ctx World → Ctx World
  on_world f c = record c { world = f c.world }

  -- an error of `add_used` is logged only
  abbrev complete : Chain → ℕ → World → World
  complete head n w = (add_used (index head) n w).1

  -- the `match processing_result`
  unfoldable pub settle : Chain → ProcessingResult → LoopState World → Next World
  settle head submitted s = again s
  settle head throttled s = stop (record s { ctx = on_world undo_pop s.ctx; io_throttled = true })
  settle head (executed finished) s =
      again (record s {
        ctx = on_world (complete head finished.num_bytes_to_mem) s.ctx;
        used_any = true;
      })

  unfoldable pub serve_request : String → Disk → Chain → Request → LoopState World → Next World
  unfolding settle
  serve_request id disk head request s =
      let (wait, w) = rate_limit h request s.ctx.world in
      let c = record s.ctx { world = w } in
      if wait
      then stop (record s { ctx = count (inc rate_limiter_throttled_events) (on_world undo_pop c) })
      else let (result, c') = process h id disk.image_id request (index head) c in
        settle head result (record s { ctx = c' })

  -- the `match` on `Request::parse`
  unfoldable pub serve_parsed :
      String
      → Disk
      → Chain
      → Outcome (VirtioBlockError GuestMemoryError) Request
      → LoopState World
      → Next World
  unfolding serve_request settle
  serve_parsed id disk head (ok request) s = serve_request id disk head request s
  serve_parsed id disk head (err e) s =
      settle head (executed (record { num_bytes_to_mem = 0; desc_idx = index head }))
        (record s { ctx = count (inc execute_fails) s.ctx })

  -- the body of the `while let`
  unfoldable pub serve : String → Disk → Chain → LoopState World → Next World
  unfolding serve_parsed
  serve id disk head s =
      let c = count (add remaining_reqs_count (queue_len s.ctx.world)) s.ctx in
      serve_parsed id disk head (parse h s.ctx.world head disk.nsectors) (record s { ctx = c })

  -- `Err` leaves the function at once, with what was done so far
  abbrev pub Drained : Type 0
  Drained = Outcome (QueueError × LoopState World) (LoopState World)

  unfoldable pub drain : ℕ → String → Disk → LoopState World → Run Drained
  drain zero id disk s = out_of_fuel
  drain (suc fuel) id disk s =
      let (popped, w) = pop_or_enable_notification s.ctx.world in
      let s' = record s { ctx = record s.ctx { world = w } } in
      elim popped [
        | err e ↦ returned (err (e, s'))
        | ok none ↦ returned (ok s')
        | ok (some head) ↦ elim (serve id disk head s') [
          | again t ↦ drain fuel id disk t
          | stop t ↦ returned (ok t)
        ]
      ]

  unfoldable pub interrupt : Ctx World → Ctx World
  interrupt c =
      let (triggered, w) = trigger_queue_interrupt c.world in
      let c' = record c { world = w } in
      elim triggered [ ok _ ↦ c' | err e ↦ count (inc event_fails) c' ]

  -- `used_any && queue.prepare_kick()`
  unfoldable pub kick_if_used : Bool → Ctx World → Ctx World
  unfolding interrupt
  kick_if_used false c = c
  kick_if_used true c =
      let (kick, w) = prepare_kick c.world in
      let c' = record c { world = w } in if kick then interrupt c' else c'

  abbrev submit_async : FileEngineType → World → World
  submit_async async w = kick_submission_queue w
  submit_async sync w = w

  -- what follows the loop
  unfoldable pub after_drain : LoopState World → Ctx World
  unfolding kick_if_used
  after_drain s =
      let c = kick_if_used s.used_any (on_world advance_used_ring_idx s.ctx) in
      let c' = on_world (λ w. submit_async (engine_type w) w) c in
      if not s.used_any then count (inc no_avail_buffer) c' else c'
