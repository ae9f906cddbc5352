-- ===== src/Block/Device/Events.antt =====
-- What the event handlers do with the queue.
use mathlib.Core.Path.{subst}
use herm_os_test.Prelude.{
  ℕ, ◌<◌, ◌≡◌, ◌⊎◌, inl, inr, refl, Bool, true, false, Outcome, ok, err, sym, ap, ◌∷◌, arith,
  length, Bool-cases, Run, returned,
}
use herm_os_test.Block.Types.{
  Counter, inc, queue_event_count, event_fails, rate_limiter_throttled_events,
  io_engine_throttled_events,
}
use herm_os_test.Block.Host.{Host}
use herm_os_test.Block.Finish.{Ctx}
use herm_os_test.Block.Queue.{LoopState, after_drain, kick_if_used}
use herm_os_test.Block.Queue.Laws.{Rings, QueueLaws, SyncEngine}
use herm_os_test.Block.Queue.Drain.{Accounts, Accounts-none, drain-accounts}
use herm_os_test.Block.Device.{
  State, process_queue, process_queue_unwrap, serve_or_put_off, on_queue_evt, process_queue_event,
}

module _ (h : Host) (law : QueueLaws h) where
  open h use {World, engine_type}
  open law use {rings, advance_frame, prepare_kick_frame, trigger_frame, submit_frame}

  rings-kick_if_used : (b : Bool) (c : Ctx World) → rings (kick_if_used h b c).world ≡ rings c.world
  unfolding kick_if_used
  rings-kick_if_used b c =
      ground (arith, prepare_kick_frame c.world, trigger_frame (h.prepare_kick c.world).1)

  rings-after_drain : (t : LoopState World) → rings (after_drain h t).world ≡ rings t.ctx.world
  unfolding after_drain
  rings-after_drain t =
      let c1 : Ctx World = record t.ctx { world = h.advance_used_ring_idx t.ctx.world } in
      let c2 = kick_if_used h t.used_any c1 in
      ground
        (arith, submit_frame c2.world, rings-kick_if_used t.used_any c1, advance_frame t.ctx.world)

module _ (h : Host) (law : QueueLaws h) (sync_engine : SyncEngine h) where
  open h use {World, QueueError, queue_evt_read, is_blocked}
  open law use {rings, evt_read_frame}

  Accounts-frame :
      (r : Rings h.Chain) {p q : Rings h.Chain} → q ≡ p → Accounts h law r p → Accounts h law r q
  Accounts-frame r e acc = subst (Accounts h law r) (sym e) acc

  -- With a Sync engine, an active device and more fuel than waiting chains, `process_queue`
  -- returns without an error, and the chains that it took from the available ring are the ones
  -- that it put into the used ring, each once, in the order taken; a chain that had to wait is
  -- back in its place.
  pub process_queue-Accounts :
      (fuel : ℕ) (s : State World)
      → s.dev.activated ≡ true
      → length (rings s.ctx.world).available < fuel
      → (t : State World) × (process_queue h fuel s ≡ returned (ok tt, t))
        × Accounts h law (rings s.ctx.world) (rings t.ctx.world)
  unfolding process_queue
  process_queue-Accounts fuel s active enough =
      let (t, (run, acc)) =
        drain-accounts h law sync_engine fuel s.dev.id s.dev.disk
          (record { ctx = s.ctx; used_any = false; io_throttled = s.dev.is_io_engine_throttled })
          enough in
      (
        record {
          dev = record s.dev { is_io_engine_throttled = t.io_throttled };
          ctx = after_drain h t;
        },
        simp (active, run),
        Accounts-frame _ (rings-after_drain h law t) acc,
      )

  unwrapped :
      (fuel : ℕ) (s t : State World)
      → process_queue h fuel s ≡ returned (ok tt, t)
      → process_queue_unwrap h fuel s ≡ returned t
  unfolding process_queue_unwrap
  unwrapped fuel s t run = rw run refl

  -- the state with one more metric, and the state once the event descriptor was read
  abbrev pub noted : Counter → State World → State World
  noted m s = record s { ctx = record { world = s.ctx.world; metrics = inc m ∷ s.ctx.metrics } }

  abbrev pub noticed : State World → State World
  noticed s = record s {
    ctx = record {
      world = (queue_evt_read s.ctx.world).1;
      metrics = inc queue_event_count ∷ s.ctx.metrics;
    };
  }

  -- how an event that the descriptor gave with `evt` is answered in `s`, ending in `t`
  abbrev pub IsAnswered : ℕ → Outcome h.IoError (Unit {0}) → State World → State World → Type 0
  IsAnswered fuel evt s t =
      ((x : h.IoError) × (evt ≡ err x) × (t ≡ noted event_fails s))
      ⊎ (((evt ≡ ok tt)
            × (is_blocked s.ctx.world ≡ true)
            × (t ≡ noted rate_limiter_throttled_events s))
          ⊎ (((evt ≡ ok tt)
                × (is_blocked s.ctx.world ≡ false)
                × (s.dev.is_io_engine_throttled ≡ true)
                × (t ≡ noted io_engine_throttled_events s))
              ⊎ ((evt ≡ ok tt)
                  × (is_blocked s.ctx.world ≡ false)
                  × (s.dev.is_io_engine_throttled ≡ false)
                  × (process_queue h fuel s ≡ returned (ok tt, t)))))

  -- what a handler that ran on `s` must end in, the rings being `r` before
  abbrev Ends :
      ℕ → Outcome h.IoError (Unit {0}) → Rings h.Chain → State World → Run (State World) → Type 0
  Ends fuel evt r s run =
      (t : State World) × (run ≡ returned t)
      × IsAnswered fuel evt s t
      × Accounts h law r (rings t.ctx.world)

  untouched :
      (r : Rings h.Chain) (s : State World)
      → rings s.ctx.world ≡ r
      → Accounts h law r (rings s.ctx.world)
  untouched r s same =
      Accounts-none h law r _ (ap (λ (x : Rings h.Chain). x.available) same)
        (ap (λ (x : Rings h.Chain). x.used) same)

  serve_or_put_off-Ends :
      (fuel : ℕ) (s : State World)
      → s.dev.activated ≡ true
      → length (rings s.ctx.world).available < fuel
      → Ends fuel (ok tt) (rings s.ctx.world) s (serve_or_put_off h fuel s)
  unfolding serve_or_put_off
  serve_or_put_off-Ends fuel s active enough = elim (Bool-cases (is_blocked s.ctx.world)) [
    | inl blocked ↦ (
      noted rate_limiter_throttled_events s,
      rw (serve_or_put_off, blocked) refl,
      inr (inl (refl, blocked, refl)),
      untouched _ s refl,
    )
    | inr free ↦ elim (Bool-cases s.dev.is_io_engine_throttled) [
      | inl busy ↦ (
        noted io_engine_throttled_events s,
        rw (serve_or_put_off, free, busy) refl,
        inr (inr (inl (refl, free, busy, refl))),
        untouched _ s refl,
      )
      | inr idle ↦
          let (t, run, acc) = process_queue-Accounts fuel s active enough in
          (
            t,
            simp (free, idle, unwrapped fuel s t run),
            inr (inr (inr (refl, free, idle, run))),
            acc,
          )
    ]
  ]

  on_queue_evt-Ends :
      (fuel : ℕ) (evt : Outcome h.IoError (Unit {0})) (s : State World)
      → s.dev.activated ≡ true
      → length (rings s.ctx.world).available < fuel
      → Ends fuel evt (rings s.ctx.world) s (on_queue_evt h fuel evt s)
  unfolding on_queue_evt
  on_queue_evt-Ends fuel (err e) s active enough =
      (noted event_fails s, refl, inl (e, refl, refl), untouched _ s refl)
  on_queue_evt-Ends fuel (ok _) s active enough = serve_or_put_off-Ends fuel s active enough

  -- With a Sync engine, an active device and more fuel than waiting chains, the queue event of the guest
  -- returns without a panic. If the event descriptor cannot be read, if the rate limiter is blocked, or,
  -- the limiter being free, if the file engine is throttled, only the counter of that case is raised and
  -- the device and the rest of the world stay; in no other case is the event put off: `process_queue`
  -- runs and succeeds. In all cases the chains taken from the available ring are the ones put into the
  -- used ring, each once, in order.
  pub process_queue_event-Accounts :
      (fuel : ℕ) (s : State World)
      → s.dev.activated ≡ true
      → length (rings s.ctx.world).available < fuel
      → (t : State World) × (process_queue_event h fuel s ≡ returned t)
        × IsAnswered fuel (queue_evt_read s.ctx.world).0 (noticed s) t
        × Accounts h law (rings s.ctx.world) (rings t.ctx.world)
  unfolding process_queue_event
  process_queue_event-Accounts fuel s active enough =
      let same = evt_read_frame s.ctx.world in
      let evt = (queue_evt_read s.ctx.world).0 in
      subst (λ r. Ends fuel evt r (noticed s) (process_queue_event h fuel s)) same
        (on_queue_evt-Ends fuel evt (noticed s) active
          (subst (λ (r : Rings h.Chain). length r.available < fuel) (sym same) enough))
