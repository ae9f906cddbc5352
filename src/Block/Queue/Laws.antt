-- ===== src/Block/Queue/Laws.antt =====
-- What the proofs about the queue take from the virtqueue and the file engine: documented behaviour
-- of code outside of the repository, while the driver adds no chain and no buffer overlaps the rings.
use herm_os_test.Prelude.{ℕ, ◌≡◌, ◌≢◌, List, [], ◌∷◌, ◌++◌, Option, none, some, ok, String}
use herm_os_test.Block.Types.{PendingRequest, TokenType, engine_submitted, TraceLine}
use herm_os_test.Block.Host.{Host}

-- the two rings, and the chain that was taken last
pub record Rings (C : Type 0) : Type 0 where
  pub available : List C
  pub used : List (ℕ × ℕ)
  pub last : Option C

pub record QueueLaws (h : Host) : Type 1 where
  pub rings : h.World → Rings h.Chain
  -- a pop takes the oldest chain; on an empty ring it takes nothing
  pub pop_empty :
      (w : h.World)
      → (rings w).available ≡ []
      → ((h.pop_or_enable_notification w).0 ≡ ok none)
        × (rings (h.pop_or_enable_notification w).1 ≡ rings w)
  pub pop_some :
      (w : h.World) (c : h.Chain) (cs : List h.Chain)
      → (rings w).available ≡ c ∷ cs
      → ((h.pop_or_enable_notification w).0 ≡ ok (some c))
        × (rings (h.pop_or_enable_notification w).1
            ≡ record { available = cs; used = (rings w).used; last = some c })
  pub undo_pop_last :
      (w : h.World) (c : h.Chain)
      → (rings w).last ≡ some c
      → rings (h.undo_pop w)
        ≡ record { available = c ∷ (rings w).available; used = (rings w).used; last = none }
  pub add_used_appends :
      (i n : ℕ) (w : h.World)
      → rings (h.add_used i n w).1 ≡ record {
        available = (rings w).available;
        used = (rings w).used ++ (i, n) ∷ [];
        last = (rings w).last;
      }
  -- everything else leaves the rings alone
  pub write_obj_frame : (v a : ℕ) (w : h.World) → rings (h.write_obj v a w).1 ≡ rings w
  pub write_slice_frame :
      (v : List ℕ) (a : ℕ) (w : h.World) → rings (h.write_slice v a w).1 ≡ rings w
  pub consume_frame : (n : ℕ) (t : TokenType) (w : h.World) → rings (h.consume n t w).1 ≡ rings w
  pub replenish_frame :
      (n : ℕ) (t : TokenType) (w : h.World) → rings (h.manual_replenish n t w) ≡ rings w
  pub read_frame :
      (o a n : ℕ) (p : PendingRequest) (w : h.World) → rings (h.engine_read o a n p w).1 ≡ rings w
  pub write_frame :
      (o a n : ℕ) (p : PendingRequest) (w : h.World) → rings (h.engine_write o a n p w).1 ≡ rings w
  pub flush_frame : (p : PendingRequest) (w : h.World) → rings (h.engine_flush p w).1 ≡ rings w
  pub trace_frame :
      (path : String) (l : TraceLine) (w : h.World) → rings (h.append_line path l w) ≡ rings w
  pub advance_frame : (w : h.World) → rings (h.advance_used_ring_idx w) ≡ rings w
  pub prepare_kick_frame : (w : h.World) → rings (h.prepare_kick w).1 ≡ rings w
  pub trigger_frame : (w : h.World) → rings (h.trigger_queue_interrupt w).1 ≡ rings w
  pub submit_frame : (w : h.World) → rings (h.kick_submission_queue w) ≡ rings w
  pub evt_read_frame : (w : h.World) → rings (h.queue_evt_read w).1 ≡ rings w

-- the Sync engine finishes every request before it returns
pub record SyncEngine (h : Host) : Type 0 where
  pub read_done :
      (o a n : ℕ) (p : PendingRequest) (w : h.World)
      → (h.engine_read o a n p w).0 ≢ engine_submitted
  pub write_done :
      (o a n : ℕ) (p : PendingRequest) (w : h.World)
      → (h.engine_write o a n p w).0 ≢ engine_submitted
  pub flush_done : (p : PendingRequest) (w : h.World) → (h.engine_flush p w).0 ≢ engine_submitted
