-- ===== src/Block/Device/Completions.antt =====
-- The completions of the Async engine: each of them reaches the driver, once.
use mathlib.Core.List.{append_assoc, append-nil}
use herm_os_test.Prelude.{
  ℕ, zero, suc, ◌<◌, ◌≡◌, refl, sym, ap, ◌∙◌, Bool-cases, inl, inr, true, List, [], ◌∷◌, ◌++◌, map,
  none, some, Outcome, ok, Outcome-cases, returned, arith, length,
}
use herm_os_test.Block.Types.{PendingRequest, IoErr, async}
use herm_os_test.Block.Host.{Host}
use herm_os_test.Block.Finish.{Ctx, finish}
use herm_os_test.Block.Queue.{interrupt}
use herm_os_test.Block.Queue.Laws.{Rings, QueueLaws}
use herm_os_test.Block.Queue.Frame.{rings-finish}
use herm_os_test.Block.Device.{
  State, complete_one, completion_result, pop_completions, after_completions,
  process_async_completion_queue,
}

-- What the proofs take from the Async engine: a pop takes the oldest completion, and nothing else takes
-- or adds one meanwhile.
pub record AsyncEngine (h : Host) (law : QueueLaws h) : Type 0 where
  pub completions : h.World → List (PendingRequest × Outcome h.BlockIoError ℕ)
  pub pop_none :
      (w : h.World)
      → completions w ≡ []
      → ((h.engine_pop w).0 ≡ ok none) × (completions (h.engine_pop w).1 ≡ [])
  pub pop_one :
      (w : h.World) (cqe : PendingRequest × Outcome h.BlockIoError ℕ)
      (rest : List (PendingRequest × Outcome h.BlockIoError ℕ))
      → completions w ≡ cqe ∷ rest
      → ((h.engine_pop w).0 ≡ ok (some cqe)) × (completions (h.engine_pop w).1 ≡ rest)
  pub pop_frame : (w : h.World) → law.rings (h.engine_pop w).1 ≡ law.rings w
  pub write_obj_keeps : (v a : ℕ) (w : h.World) → completions (h.write_obj v a w).1 ≡ completions w
  pub add_used_keeps : (i n : ℕ) (w : h.World) → completions (h.add_used i n w).1 ≡ completions w
  pub advance_keeps : (w : h.World) → completions (h.advance_used_ring_idx w) ≡ completions w
  pub prepare_kick_keeps : (w : h.World) → completions (h.prepare_kick w).1 ≡ completions w
  pub trigger_keeps : (w : h.World) → completions (h.trigger_queue_interrupt w).1 ≡ completions w

module _ (h : Host) (law : QueueLaws h) (engine : AsyncEngine h law) where
  open h use {World, Chain, GuestMemoryError, BlockIoError, blk_s_ok, blk_s_ioerr, blk_s_unsupp}
  open law use {rings, add_used_appends, advance_frame, prepare_kick_frame, trigger_frame}
  open engine use {
    completions, pop_none, pop_one, pop_frame, write_obj_keeps, add_used_keeps, advance_keeps,
    prepare_kick_keeps, trigger_keeps,
  }

  abbrev Cqe : Type 0
  Cqe = PendingRequest × Outcome BlockIoError ℕ

  -- the chains of the completions, and of the used entries
  abbrev chains : List Cqe → List ℕ
  chains cqes = map (λ (c : Cqe). c.0.desc_idx) cqes

  abbrev used_chains : World → List ℕ
  used_chains w = map (λ (e : ℕ × ℕ). e.0) (rings w).used

  finish-keeps :
      (p : PendingRequest) (res : Outcome (IoErr GuestMemoryError BlockIoError) ℕ) (c : Ctx World)
      → completions (finish h p res c).1.world ≡ completions c.world
  unfolding finish
  finish-keeps p res c = ground (
    arith,
    write_obj_keeps blk_s_ok p.status_addr c.world,
    write_obj_keeps blk_s_ioerr p.status_addr c.world,
    write_obj_keeps blk_s_unsupp p.status_addr c.world,
  )

  finish-desc_idx :
      (p : PendingRequest) (res : Outcome (IoErr GuestMemoryError BlockIoError) ℕ) (c : Ctx World)
      → (finish h p res c).0.desc_idx ≡ p.desc_idx
  unfolding finish
  finish-desc_idx p res c = refl

  map-append : {A B : Type 0} (f : A → B) (xs ys : List A) → map f (xs ++ ys) ≡ map f xs ++ map f ys
  map-append f [] ys = refl
  map-append f (x ∷ xs) ys = ap (◌∷◌ (f x)) (map-append f xs ys)

  complete_one-keeps :
      (cqe : Cqe) (c : Ctx World) → completions (complete_one h cqe c).world ≡ completions c.world
  unfolding complete_one
  complete_one-keeps (p, res) c =
      let (finished, c') = finish h p (completion_result h res) c in
      add_used_keeps finished.desc_idx finished.num_bytes_to_mem c'.world
      ∙ finish-keeps p (completion_result h res) c

  complete_one-used :
      (cqe : Cqe) (c : Ctx World)
      → used_chains (complete_one h cqe c).world ≡ used_chains c.world ++ (cqe.0.desc_idx ∷ [])
  unfolding complete_one
  complete_one-used (p, res) c =
      let (finished, c') = finish h p (completion_result h res) c in
      let added = add_used_appends finished.desc_idx finished.num_bytes_to_mem c'.world in
      ap (λ (r : Rings Chain). map (λ (e : ℕ × ℕ). e.0) r.used) added
      ∙ map-append (λ (e : ℕ × ℕ). e.0) (rings c'.world).used
          ((finished.desc_idx, finished.num_bytes_to_mem) ∷ [])
      ∙ ap (λ (i : ℕ). map (λ (e : ℕ × ℕ). e.0) (rings c'.world).used ++ (i ∷ []))
          (finish-desc_idx p (completion_result h res) c)
      ∙ ap (λ (r : Rings Chain). map (λ (e : ℕ × ℕ). e.0) r.used ++ (p.desc_idx ∷ []))
          (rings-finish h law p (completion_result h res) c)

  -- the chains of `cqes` are used, in order, and no completion is left
  abbrev pub Reaches : List Cqe → World → World → Type 0
  Reaches cqes w w' = (used_chains w' ≡ used_chains w ++ chains cqes) × (completions w' ≡ [])

  pop_completions-Reaches :
      (cqes : List Cqe) (fuel : ℕ) (c : Ctx World)
      → completions c.world ≡ cqes
      → length cqes < fuel
      → (c' : Ctx World) × (pop_completions h fuel c ≡ returned c') × Reaches cqes c.world c'.world
  unfolding pop_completions
  pop_completions-Reaches cqes zero c e enough = absurd (omega (arith, enough))
  pop_completions-Reaches [] (suc fuel) c e enough =
      let (popped, left) = pop_none c.world e in
      let c' : Ctx World = record c { world = (h.engine_pop c.world).1 } in
      let ends : pop_completions h (suc fuel) c ≡ returned c' = rw (pop_completions, popped) refl in
      (
        c',
        ends,
        (
          ap (λ (r : Rings Chain). map (λ (u : ℕ × ℕ). u.0) r.used) (pop_frame c.world)
              ∙ sym (append-nil (used_chains c.world)),
          left,
        ),
      )
  pop_completions-Reaches (cqe ∷ cqes) (suc fuel) c e enough =
      let (popped, left) = pop_one c.world cqe cqes e in
      let c1 : Ctx World = record c { world = (h.engine_pop c.world).1 } in
      let c2 : Ctx World = complete_one h cqe c1 in
      let (c', rest, (used, none_left)) =
        pop_completions-Reaches cqes fuel c2 (complete_one-keeps cqe c1 ∙ left)
          (omega (arith, enough)) in
      let step : pop_completions h (suc fuel) c ≡ pop_completions h fuel c2 =
        rw (pop_completions, popped) refl in
      (
        c',
        step ∙ rest,
        (
          used
              ∙ ap (λ l. l ++ chains cqes)
                  (complete_one-used cqe c1
                    ∙ ap
                        (λ (r : Rings Chain).
                          map (λ (u : ℕ × ℕ). u.0) r.used ++ (cqe.0.desc_idx ∷ []))
                        (pop_frame c.world))
              ∙ append_assoc (used_chains c.world) (cqe.0.desc_idx ∷ []) (chains cqes),
          none_left,
        ),
      )

  -- what moves neither a ring nor a completion
  abbrev Keeps : World → World → Type 0
  Keeps w w' = (rings w' ≡ rings w) × (completions w' ≡ completions w)

  interrupt-Keeps : (c : Ctx World) → Keeps c.world (interrupt h c).world
  unfolding interrupt
  interrupt-Keeps c = elim (Outcome-cases (h.trigger_queue_interrupt c.world).0) [
    | inl (a, e) ↦ rw (interrupt, e) (trigger_frame c.world, trigger_keeps c.world)
    | inr (x, e) ↦ rw (interrupt, e) (trigger_frame c.world, trigger_keeps c.world)
  ]

  after_completions-Keeps : (c : Ctx World) → Keeps c.world (after_completions h c).world
  unfolding after_completions
  after_completions-Keeps c =
      let w1 = h.advance_used_ring_idx c.world in
      let c2 : Ctx World = record c { world = (h.prepare_kick w1).1 } in
      let kept : Keeps c.world c2.world = (
        prepare_kick_frame w1 ∙ advance_frame c.world,
        prepare_kick_keeps w1 ∙ advance_keeps c.world,
      ) in
      elim (Bool-cases (h.prepare_kick w1).0) [
        | inl kick ↦
            let (rings', completions') = interrupt-Keeps c2 in
            rw (after_completions, kick) (rings' ∙ kept.0, completions' ∙ kept.1)
        | inr quiet ↦ rw (after_completions, quiet) kept
      ]

  -- With an Async engine, on an active device and with more fuel than there are completions: the handler
  -- of the completions returns, and has put the chain of every completion into the used ring, each once
  -- and in the order of the completions, whatever their results. No completion is left.
  pub process_async_completion_queue-Reaches :
      (fuel : ℕ) (s : State World)
      → h.engine_type s.ctx.world ≡ async
      → s.dev.activated ≡ true
      → length (completions s.ctx.world) < fuel
      → (t : State World) × (process_async_completion_queue h fuel s ≡ returned t)
        × (t.dev ≡ s.dev)
        × Reaches (completions s.ctx.world) s.ctx.world t.ctx.world
  unfolding process_async_completion_queue
  process_async_completion_queue-Reaches fuel s is_async on enough =
      let (c, popped, (used, none_left)) =
        pop_completions-Reaches (completions s.ctx.world) fuel s.ctx refl enough in
      let (rings', completions') = after_completions-Keeps c in
      (
        record s { ctx = after_completions h c },
        rw (process_async_completion_queue, is_async, on, popped) refl,
        refl,
        (
          ap (λ (r : Rings Chain). map (λ (u : ℕ × ℕ). u.0) r.used) rings' ∙ used,
          completions' ∙ none_left,
        ),
      )
