-- ===== src/Block/Queue/Frame.antt =====
-- Handling one request leaves the rings alone: only the loop itself moves chains.
use herm_os_test.Prelude.{ℕ, ◌≡◌, refl, List, Outcome, ok, err, String, ◌∙◌, arith}
use herm_os_test.Block.Types.{
  RequestType, read_in, write_out, flush, get_device_id, unsupported, PendingRequest, Request,
  IoErr, file_engine, EngineResult, engine_submitted, engine_executed, engine_failed, bytes, ops,
  offset,
}
use herm_os_test.Block.Host.{Host}
use herm_os_test.Block.Finish.{Ctx, finish}
use herm_os_test.Block.Trace.{trace_record}
use herm_os_test.Block.Process.{rate_limit, after_engine, process_as, process}
use herm_os_test.Block.Queue.Laws.{QueueLaws}

module _ (h : Host) (law : QueueLaws h) where
  open h use {
    World, Chain, GuestMemoryError, BlockIoError, index, blk_s_ok, blk_s_ioerr, blk_s_unsupp,
  }
  open law use {
    rings, write_obj_frame, write_slice_frame, consume_frame, replenish_frame, read_frame,
    write_frame, flush_frame, trace_frame,
  }

  pub rings-finish :
      (p : PendingRequest) (res : Outcome (IoErr GuestMemoryError BlockIoError) ℕ) (c : Ctx World)
      → rings (finish h p res c).1.world ≡ rings c.world
  unfolding finish
  rings-finish p res c = ground (
    arith,
    write_obj_frame blk_s_ok p.status_addr c.world,
    write_obj_frame blk_s_ioerr p.status_addr c.world,
    write_obj_frame blk_s_unsupp p.status_addr c.world,
  )

  pub rings-rate_limit : (r : Request) (w : World) → rings (rate_limit h r w).1 ≡ rings w
  unfolding rate_limit
  rings-rate_limit r w =
      let w1 = (h.consume 1 ops w).1 in
      let w2 = (h.consume r.data_len bytes w1).1 in
      ground
        (arith, consume_frame 1 ops w, consume_frame r.data_len bytes w1, replenish_frame 1 ops w2)

  rings-trace :
      (id op : String) (o n : ℕ) (w : World) → rings (trace_record h id op o n w) ≡ rings w
  unfolding trace_record
  rings-trace id op o n w = grind (arith, trace_frame)

  rings-after_engine :
      (e : EngineResult BlockIoError) (c : Ctx World)
      → rings (after_engine h e c).1.world ≡ rings c.world
  unfolding after_engine
  rings-after_engine engine_submitted c = refl
  rings-after_engine (engine_executed req n) c = rings-finish req (ok n) c
  rings-after_engine (engine_failed req e) c =
      ground (arith, rings-finish req (err (file_engine e)) c)

  rings-process_as :
      (t : RequestType) (id : String) (image : List ℕ) (r : Request) (p : PendingRequest)
      (c : Ctx World)
      → rings (process_as h t id image r p c).1.world ≡ rings c.world
  unfolding process_as
  rings-process_as read_in id image r p c =
      let w = trace_record h id "read" (offset r) r.data_len c.world in
      rings-after_engine _ (record c { world = _ })
      ∙ read_frame (offset r) r.data_addr r.data_len p w
      ∙ rings-trace id "read" (offset r) r.data_len c.world
  rings-process_as write_out id image r p c =
      let w = trace_record h id "write" (offset r) r.data_len c.world in
      rings-after_engine _ (record c { world = _ })
      ∙ write_frame (offset r) r.data_addr r.data_len p w
      ∙ rings-trace id "write" (offset r) r.data_len c.world
  rings-process_as flush id image r p c =
      let w = trace_record h id "flush" 0 0 c.world in
      rings-after_engine _ (record c { world = _ })
      ∙ flush_frame p w
      ∙ rings-trace id "flush" 0 0 c.world
  rings-process_as get_device_id id image r p c =
      rings-finish p _ (record c { world = _ }) ∙ write_slice_frame image r.data_addr c.world
  rings-process_as (unsupported op) id image r p c = rings-finish p (ok 0) c

  pub rings-process :
      (id : String) (image : List ℕ) (r : Request) (i : ℕ) (c : Ctx World)
      → rings (process h id image r i c).1.world ≡ rings c.world
  rings-process id image r i c = unfold process in rings-process_as r.type id image r _ c
