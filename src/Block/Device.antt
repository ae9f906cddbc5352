-- ===== src/Block/Device.antt =====
-- The event handlers of `VirtioBlock` in virtio/device.rs. The device has one queue, of index 0.
pub mod Events
pub mod Completions
use herm_os_test.Prelude.{
  ℕ, zero, suc, Bool, true, false, not, List, Option, none, some, Outcome, ok, err, String,
  if◌then◌else◌, Run, returned, panicked, out_of_fuel, bind_run,
}
use herm_os_test.Block.Types.{
  Counter, FileEngineType, async, sync, IoErr, file_engine, PendingRequest, inc, queue_event_count,
  event_fails, rate_limiter_throttled_events, io_engine_throttled_events, rate_limiter_event_count,
}
use herm_os_test.Block.Host.{Host}
use herm_os_test.Block.Finish.{Ctx, count, finish}
use herm_os_test.Block.Queue.{Disk, LoopState, drain, after_drain, interrupt}

pub data CacheType : Type 0 where
  unsafe writeback : CacheType

-- The fields of `VirtioBlock` that its own code keeps; queues, event descriptors, the rate limiter and
-- the file engine are part of the world. `activated` tells the two states of `DeviceState` apart.
pub record VirtioBlock : Type 0 where
  pub avail_features : ℕ
  pub acked_features : ℕ
  pub config_space : List ℕ
  pub activated : Bool
  pub id : String
  pub partuuid : Option String
  pub cache_type : CacheType
  pub root_device : Bool
  pub read_only : Bool
  pub disk : Disk
  pub is_io_engine_throttled : Bool

pub record State (W : Type 0) : Type 0 where
  pub dev : VirtioBlock
  pub ctx : Ctx W

-- `self.metrics.<counter>.inc()`
abbrev pub tally : {W : Type 0} → Counter → State W → State W
tally m s = record s { ctx = count (inc m) s.ctx }

module _ (h : Host) where
  open h use {
    World, BlockIoError, GuestMemoryError, QueueError, IoError, is_blocked, limiter_event_handler,
    engine_type, engine_pop, completion_evt_read, drain_and_flush, queue_evt_read, add_used,
    advance_used_ring_idx, prepare_kick,
  }

  abbrev run_world : {A : Type 0} → (World → A × World) → State World → A × State World
  run_world f s = let (a, w) = f s.ctx.world in (a, record s { ctx = record s.ctx { world = w } })

  -- `Err` comes back with the state at the time of the early return
  unfoldable pub process_queue : ℕ → State World → Run (Outcome QueueError (Unit {0}) × State World)
  process_queue fuel s =
      if not s.dev.activated
      then panicked
      else bind_run
          (drain h fuel s.dev.id s.dev.disk
            (record { ctx = s.ctx; used_any = false; io_throttled = s.dev.is_io_engine_throttled }))
          λ d. elim d [
            | ok t ↦ returned (
              ok tt,
              record {
                dev = record s.dev { is_io_engine_throttled = t.io_throttled };
                ctx = after_drain h t;
              },
            )
            | err (e, t) ↦ returned (
              err e,
              record {
                dev = record s.dev { is_io_engine_throttled = t.io_throttled };
                ctx = t.ctx;
              },
            )
          ]

  -- `.unwrap()`
  abbrev unwrap : Outcome QueueError (Unit {0}) × State World → Run (State World)
  unwrap (ok _, s) = returned s
  unwrap (err e, s) = panicked

  unfoldable pub process_queue_unwrap : ℕ → State World → Run (State World)
  unfolding process_queue
  process_queue_unwrap fuel s = bind_run (process_queue fuel s) unwrap

  -- the `else if` ladder of `process_queue_event`
  unfoldable pub serve_or_put_off : ℕ → State World → Run (State World)
  serve_or_put_off fuel s =
      if is_blocked s.ctx.world
      then returned (tally rate_limiter_throttled_events s)
      else if s.dev.is_io_engine_throttled
      then returned (tally io_engine_throttled_events s)
      else process_queue_unwrap fuel s

  unfoldable pub on_queue_evt : ℕ → Outcome IoError (Unit {0}) → State World → Run (State World)
  unfolding serve_or_put_off
  on_queue_evt fuel (err e) s = returned (tally event_fails s)
  on_queue_evt fuel (ok _) s = serve_or_put_off fuel s

  unfoldable pub process_queue_event : ℕ → State World → Run (State World)
  unfolding on_queue_evt
  process_queue_event fuel s0 =
      let (evt, s) = run_world queue_evt_read (tally queue_event_count s0) in
      on_queue_evt fuel evt s

  unfoldable pub process_rate_limiter_event : ℕ → State World → Run (State World)
  process_rate_limiter_event fuel s0 =
      let (handled, s) = run_world limiter_event_handler (tally rate_limiter_event_count s0) in
      elim handled [ ok _ ↦ process_queue_unwrap fuel s | err e ↦ returned s ]

  -- a completed io_uring entry: its request is finished and put into the used ring
  abbrev pub completion_result :
      Outcome BlockIoError ℕ → Outcome (IoErr GuestMemoryError BlockIoError) ℕ
  completion_result (ok n) = ok n
  completion_result (err e) = err (file_engine e)

  unfoldable pub complete_one : PendingRequest × Outcome BlockIoError ℕ → Ctx World → Ctx World
  complete_one (pending, res) c =
      let (finished, c') = finish h pending (completion_result res) c in
      record c' { world = (add_used finished.desc_idx finished.num_bytes_to_mem c'.world).1 }

  -- the `loop` over `engine.pop`
  unfoldable pub pop_completions : ℕ → Ctx World → Run (Ctx World)
  pop_completions zero c = out_of_fuel
  pop_completions (suc fuel) c =
      let (popped, w) = engine_pop c.world in
      let c' = record c { world = w } in
      elim popped [
        | err e ↦ returned c'
        | ok none ↦ returned c'
        | ok (some cqe) ↦ pop_completions fuel (complete_one cqe c')
      ]

  unfoldable pub after_completions : Ctx World → Ctx World
  after_completions c =
      let (kick, w) = prepare_kick (advance_used_ring_idx c.world) in
      let c' = record c { world = w } in if kick then interrupt h c' else c'

  -- a device with a Sync engine logs an error and returns
  unfoldable pub process_async_completion_queue : ℕ → State World → Run (State World)
  process_async_completion_queue fuel s = elim (engine_type s.ctx.world) [
    | sync ↦ returned s
    | async ↦
        if not s.dev.activated
        then panicked
        else bind_run (pop_completions fuel s.ctx)
            λ c. returned (record s { ctx = after_completions c })
  ]

  unfoldable pub retry_throttled : ℕ → State World → Run (State World)
  retry_throttled fuel s =
      if s.dev.is_io_engine_throttled
      then process_queue_unwrap fuel
          (record s { dev = record s.dev { is_io_engine_throttled = false } })
      else returned s

  unfoldable pub process_async_completion_event : ℕ → State World → Run (State World)
  unfolding retry_throttled
  process_async_completion_event fuel s0 = elim (engine_type s0.ctx.world) [
    | sync ↦ returned s0
    | async ↦
        let (evt, s) = run_world completion_evt_read s0 in
        elim evt [
          | err e ↦ returned s
          | ok _ ↦ bind_run (process_async_completion_queue fuel s) (retry_throttled fuel)
        ]
  ]

  -- an error of `drain_and_flush` is logged only
  unfoldable pub prepare_save : ℕ → State World → Run (State World)
  prepare_save fuel s =
      if not s.dev.activated
      then returned s
      else let (_, s') = run_world (drain_and_flush false) s in
        elim (engine_type s'.ctx.world) [
          | async ↦ process_async_completion_queue fuel s'
          | sync ↦ returned s'
        ]
