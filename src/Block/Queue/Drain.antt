-- ===== src/Block/Queue/Drain.antt =====
-- The loop over the available ring ends, and accounts for every chain.
use mathlib.Core.List.{append-nil, append_assoc, map-append}
use herm_os_test.Prelude.{
  ℕ, suc, zero, ◌<◌, ◌≡◌, refl, List, [], ◌∷◌, ◌++◌, map, some, ok, String, ap, sym, ◌∙◌, arith,
  length, returned,
}
use herm_os_test.Block.Host.{Host}
use herm_os_test.Block.Queue.{Disk, LoopState, Next, again, stop, serve, drain}
use herm_os_test.Block.Queue.Laws.{Rings, QueueLaws, SyncEngine}
use herm_os_test.Block.Queue.Served.{Served, serve-Served}

module _ (h : Host) (law : QueueLaws h) where
  open h use {World, Chain, index}
  open law use {rings, pop_empty, pop_some}

  abbrev pub indices : List (ℕ × ℕ) → List ℕ
  indices = map (λ p. p.0)

  -- Chains taken from the available ring, and how many of them, all have their entry in the used ring.
  pub record Accounts (before after : Rings Chain) : Type 0 where
    pub processed : List Chain
    pub taken : before.available ≡ processed ++ after.available
    pub answered : indices after.used ≡ indices before.used ++ map index processed

  pub Accounts-none :
      (r q : Rings Chain) → q.available ≡ r.available → q.used ≡ r.used → Accounts r q
  Accounts-none r q same_available same_used = record {
    processed = [];
    taken = sym same_available;
    answered = ap indices same_used ∙ sym (append-nil _);
  }

  Accounts-cons :
      (head : Chain) (n : ℕ) (r q p : Rings Chain)
      → r.available ≡ head ∷ q.available
      → q.used ≡ r.used ++ (index head, n) ∷ []
      → Accounts q p
      → Accounts r p
  Accounts-cons head n r q p a u acc = record {
    processed = head ∷ acc.processed;
    taken = a ∙ ap (◌∷◌ head) acc.taken;
    answered =
        acc.answered
        ∙ ap (λ x. indices x ++ map index acc.processed) u
        ∙ ap (λ x. x ++ map index acc.processed) (map-append (λ (p : ℕ × ℕ). p.0) r.used _)
        ∙ append_assoc (indices r.used) _ _;
  }

module _ (h : Host) (law : QueueLaws h) (sync : SyncEngine h) where
  open h use {World, Chain}
  open law use {rings, pop_empty, pop_some}

  -- How the loop ends: by itself, with every chain accounted for.
  abbrev pub Drains : ℕ → String → Disk → LoopState World → LoopState World → Type 0
  Drains fuel id disk s t =
      (drain h fuel id disk s ≡ returned (ok t))
      × Accounts h law (rings s.ctx.world) (rings t.ctx.world)

  drain_step :
      (fuel : ℕ) (id : String) (disk : Disk) (s : LoopState World) (c : Chain) (cs : List Chain)
      → (rings s.ctx.world).available ≡ c ∷ cs
      → ((s' : LoopState World)
          → (rings s'.ctx.world).available ≡ cs
          → (t : LoopState World) × Drains fuel id disk s' t)
      → (t : LoopState World) × Drains (suc fuel) id disk s t
  unfolding drain
  drain_step fuel id disk s c cs e rec =
      go (serve h id disk c s') refl (serve-Served h law sync id disk c s' (cc after))
    where
      s' : LoopState World
      s' = record s { ctx = record s.ctx { world = (h.pop_or_enable_notification s.ctx.world).1 } }

      popped : (h.pop_or_enable_notification s.ctx.world).0 ≡ ok (some c)
      popped = (pop_some s.ctx.world c cs e).0

      after :
          rings s'.ctx.world
          ≡ record { available = cs; used = (rings s.ctx.world).used; last = some c }
      after = (pop_some s.ctx.world c cs e).1

      go :
          (next : Next World)
          → serve h id disk c s' ≡ next
          → Served h law sync c (rings s'.ctx.world) next
          → (t : LoopState World) × Drains (suc fuel) id disk s t
      go (again t) eq (same, (n, u)) =
          let (t', (run, acc)) = rec t (cc (same, after)) in
          (
            t',
            (
              rw (popped, eq, drain) run,
              Accounts-cons h law c n _ _ _ (e ∙ ap (◌∷◌ c) (cc (same, after))) (cc (u, after)) acc,
            ),
          )
      go (stop t) eq (put, u) = (
        t,
        (rw (popped, eq, drain), Accounts-none h law _ _ (cc (put, after, e)) (cc (u, after))),
      )

  -- induction on the chains that are left
  drain_total :
      (fuel : ℕ) (cs : List Chain) (id : String) (disk : Disk) (s : LoopState World)
      → (rings s.ctx.world).available ≡ cs
      → length cs < fuel
      → (t : LoopState World) × Drains fuel id disk s t
  drain_total zero cs id disk s e enough = absurd (omega arith)
  drain_total (suc fuel) [] id disk s e enough =
      let (none_left, same) = pop_empty s.ctx.world e in
      let w = (h.pop_or_enable_notification s.ctx.world).1 in
      (
        record s { ctx = record s.ctx { world = w } },
        (unfold drain in rw (none_left, drain), Accounts-none h law _ _ (cc same) (cc same)),
      )
  drain_total (suc fuel) (c ∷ cs) id disk s e enough =
      drain_step fuel id disk s c cs e λ s' e'. drain_total fuel cs id disk s' e' (omega arith)

  pub drain-accounts :
      (fuel : ℕ) (id : String) (disk : Disk) (s : LoopState World)
      → length (rings s.ctx.world).available < fuel
      → (t : LoopState World) × Drains fuel id disk s t
  drain-accounts fuel id disk s enough = drain_total fuel _ id disk s refl enough
