-- ===== src/Block/Queue/Served.antt =====
-- What one round of the loop does with the chain that it took.
use herm_os_test.Prelude.{
  ℕ, ◌≡◌, ◌≢◌, inl, inr, refl, List, [], ◌∷◌, ◌++◌, some, Outcome, ok, err, String, ap, ◌∙◌, arith,
  Bool-cases,
}
use herm_os_test.Block.Types.{
  inc, execute_fails, FinishedRequest, VirtioBlockError, RequestType, read_in, write_out, flush,
  get_device_id, unsupported, PendingRequest, Request, ProcessingResult, submitted, throttled,
  executed, EngineResult, engine_submitted,
}
use herm_os_test.Block.Host.{Host}
use herm_os_test.Block.Parse.{parse}
use herm_os_test.Block.Finish.{count, Ctx}
use herm_os_test.Block.Process.{rate_limit, execute, after_engine, process_as, process}
use herm_os_test.Block.Queue.{
  Disk, LoopState, Next, again, stop, settle, serve_request, serve_parsed, serve,
}
use herm_os_test.Block.Queue.Laws.{Rings, QueueLaws, SyncEngine}
use herm_os_test.Block.Queue.Frame.{rings-rate_limit, rings-process}

executed-ne-submitted : (f : FinishedRequest) → executed f ≢ submitted
executed-ne-submitted f e = cc

module _ (h : Host) (sync : SyncEngine h) where
  open h use {World, BlockIoError}

  after_engine-ne-submitted :
      (e : EngineResult BlockIoError) (c : Ctx World)
      → e ≢ engine_submitted
      → (after_engine h e c).0 ≢ submitted
  unfolding after_engine execute
  after_engine-ne-submitted e c ne = ground arith

  process_as-ne-submitted :
      (t : RequestType) (id : String) (image : List ℕ) (r : Request) (p : PendingRequest)
      (c : Ctx World)
      → (process_as h t id image r p c).0 ≢ submitted
  unfolding process_as execute
  process_as-ne-submitted read_in id image r p c =
      after_engine-ne-submitted _ _ (sync.read_done _ _ _ p _)
  process_as-ne-submitted write_out id image r p c =
      after_engine-ne-submitted _ _ (sync.write_done _ _ _ p _)
  process_as-ne-submitted flush id image r p c = after_engine-ne-submitted _ _ (sync.flush_done p _)
  process_as-ne-submitted get_device_id id image r p c = λ e. cc
  process_as-ne-submitted (unsupported op) id image r p c = λ e. cc

  process-ne-submitted :
      (id : String) (image : List ℕ) (r : Request) (i : ℕ) (c : Ctx World)
      → (process h id image r i c).0 ≢ submitted
  process-ne-submitted id image r i c =
      unfold process in process_as-ne-submitted r.type id image r _ c

module _ (h : Host) (law : QueueLaws h) (sync : SyncEngine h) where
  open h use {World, Chain, GuestMemoryError, BlockIoError, index}
  open law use {rings, undo_pop_last, add_used_appends}

  -- A chain that was taken is either used, once, under its own index, or put back.
  abbrev pub Served : Chain → Rings Chain → Next World → Type 0
  Served head r (again t) =
      ((rings t.ctx.world).available ≡ r.available)
      × ((n : ℕ) × ((rings t.ctx.world).used ≡ r.used ++ (index head, n) ∷ []))
  Served head r (stop t) =
      ((rings t.ctx.world).available ≡ head ∷ r.available) × ((rings t.ctx.world).used ≡ r.used)

  put_back :
      (head : Chain) (r : Rings Chain) (w : World)
      → rings w ≡ r
      → r.last ≡ some head
      → ((rings (h.undo_pop w)).available ≡ head ∷ r.available)
        × ((rings (h.undo_pop w)).used ≡ r.used)
  put_back head r w same e =
      let u = undo_pop_last w head (ap (λ (x : Rings Chain). x.last) same ∙ e) in
      (
        cc (ap (λ (x : Rings Chain). x.available) u, same),
        cc (ap (λ (x : Rings Chain). x.used) u, same),
      )

  settle-Served :
      (head : Chain) (r : Rings Chain) (res : ProcessingResult) (s : LoopState World)
      → res ≢ submitted
      → rings s.ctx.world ≡ r
      → r.last ≡ some head
      → Served head r (settle h head res s)
  unfolding settle
  settle-Served head r submitted s ne same e = absurd (ne refl)
  settle-Served head r throttled s ne same e = put_back head r s.ctx.world same e
  settle-Served head r (executed f) s ne same e =
      let a = add_used_appends (index head) f.num_bytes_to_mem s.ctx.world in
      (
        cc (ap (λ (x : Rings Chain). x.available) a, same),
        (f.num_bytes_to_mem, cc (ap (λ (x : Rings Chain). x.used) a, same)),
      )

  serve_request-Served :
      (id : String) (disk : Disk) (head : Chain) (rs : Rings Chain) (r : Request)
      (s : LoopState World)
      → rings s.ctx.world ≡ rs
      → rs.last ≡ some head
      → Served head rs (serve_request h id disk head r s)
  unfolding serve_request
  serve_request-Served id disk head rs r s same e =
      let w1 = (rate_limit h r s.ctx.world).1 in
      let frame = rings-rate_limit h law r s.ctx.world ∙ same in
      elim (Bool-cases (rate_limit h r s.ctx.world).0) [
        | inl wait ↦ rw wait (put_back head rs w1 frame e)
        | inr enough ↦ rw enough (
            settle-Served head rs _ _
              (process-ne-submitted h sync id disk.image_id r (index head) _)
              (rings-process h law id disk.image_id r (index head) _ ∙ frame) e)
      ]

  serve_parsed-Served :
      (id : String) (disk : Disk) (head : Chain) (rs : Rings Chain)
      (parsed : Outcome (VirtioBlockError GuestMemoryError) Request) (s : LoopState World)
      → rings s.ctx.world ≡ rs
      → rs.last ≡ some head
      → Served head rs (serve_parsed h id disk head parsed s)
  unfolding serve_parsed
  serve_parsed-Served id disk head rs (ok r) s same e =
      serve_request-Served id disk head rs r s same e
  serve_parsed-Served id disk head rs (err x) s same e =
      let f : FinishedRequest = record { num_bytes_to_mem = 0; desc_idx = index head } in
      settle-Served head rs (executed f) (record s { ctx = count (inc execute_fails) s.ctx })
        (executed-ne-submitted f) same e

  pub serve-Served :
      (id : String) (disk : Disk) (head : Chain) (s : LoopState World)
      → (rings s.ctx.world).last ≡ some head
      → Served head (rings s.ctx.world) (serve h id disk head s)
  unfolding serve
  serve-Served id disk head s e =
      serve_parsed-Served id disk head _ (parse h s.ctx.world head disk.nsectors) _ refl e
