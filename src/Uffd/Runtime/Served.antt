-- ===== src/Uffd/Runtime/Served.antt =====
-- Every descriptor that is polled has its handler.
use herm_os_test.Prelude.{
  ℕ, zero, suc, ◌≡◌, ◌≢◌, refl, sym, ap, ◌∙◌, ◌⊎◌, inl, inr, true, Bool-cases, List, [], ◌∷◌, ◌++◌,
  some, ◌==◌, arith, Run, returned, panicked, bind_run,
}
use herm_os_test.Uffd.Region.{UffdHandler}
use herm_os_test.Uffd.Runtime.{
  Revents, Polled, interrupted, failed, ready, BackingMemory, RuntimeHost, receive, Runtime,
  handler_at, annotate, still_open, accept, dispatch_at, serve_entry, serve_entries, Turn, stopped,
  polling, after_poll, next_turn, turn, turns, run,
}

module _ (r : RuntimeHost) where
  open r use {World, stream, poll, shutdown_requested}

  -- the stream, or a descriptor with a handler
  abbrev pub IsServed : List (ℕ × UffdHandler) → ℕ → Type 0
  IsServed uffds fd = (fd == stream ≡ true) ⊎ ((h : UffdHandler) × (handler_at r uffds fd ≡ some h))

  abbrev pub AreServed : List (ℕ × UffdHandler) → List ℕ → Type 0
  AreServed uffds [] = Unit {0}
  AreServed uffds (fd ∷ fds) = IsServed uffds fd × AreServed uffds fds

  -- what had a handler has one still
  abbrev pub Grows : List (ℕ × UffdHandler) → List (ℕ × UffdHandler) → Type 0
  Grows old new = (fd : ℕ) → IsServed old fd → IsServed new fd

  Grows-insert :
      (k : ℕ) (h : UffdHandler) (uffds : List (ℕ × UffdHandler)) → Grows uffds ((k, h) ∷ uffds)
  unfolding handler_at
  Grows-insert k h uffds fd (inl is) = inl is
  Grows-insert k h uffds fd (inr (g, e)) = elim (Bool-cases (k == fd)) [
    | inl here ↦ inr (h, rw (handler_at, here) refl)
    | inr there ↦ inr (g, rw (handler_at, there) e)
  ]

  inserted :
      (k : ℕ) (h : UffdHandler) (uffds : List (ℕ × UffdHandler)) → IsServed ((k, h) ∷ uffds) k
  unfolding handler_at
  inserted k h uffds =
      let same : k == k ≡ true = ground arith in inr (h, rw (handler_at, same) refl)

  AreServed-Grows :
      (old new : List (ℕ × UffdHandler)) (fds : List ℕ)
      → Grows old new
      → AreServed old fds
      → AreServed new fds
  AreServed-Grows old new [] grows all = tt
  AreServed-Grows old new (fd ∷ fds) grows (is, all) =
      (grows fd is, AreServed-Grows old new fds grows all)

  AreServed-append :
      (uffds : List (ℕ × UffdHandler)) (fds more : List ℕ)
      → AreServed uffds fds
      → AreServed uffds more
      → AreServed uffds (fds ++ more)
  AreServed-append uffds [] more all rest = rest
  AreServed-append uffds (fd ∷ fds) more (is, all) rest =
      (is, AreServed-append uffds fds more all rest)

  -- the descriptors of the entries
  abbrev fds_of : List (ℕ × Revents) → List ℕ
  fds_of [] = []
  fds_of ((fd, e) ∷ entries) = fd ∷ fds_of entries

  annotated-AreServed :
      (uffds : List (ℕ × UffdHandler)) (events : ℕ → Revents) (i : ℕ) (fds : List ℕ)
      → AreServed uffds fds
      → AreServed uffds (fds_of (annotate r events i fds))
  annotated-AreServed uffds events i [] all = tt
  annotated-AreServed uffds events i (fd ∷ fds) (is, all) =
      (is, annotated-AreServed uffds events (suc i) fds all)

  still_open-AreServed :
      (uffds : List (ℕ × UffdHandler)) (entries : List (ℕ × Revents))
      → AreServed uffds (fds_of entries)
      → AreServed uffds (still_open r entries)
  still_open-AreServed uffds [] all = tt
  still_open-AreServed uffds ((fd, e) ∷ entries) (is, all) = elim (Bool-cases e.hung_up) [
    | inl gone ↦ rw (still_open, gone) (still_open-AreServed uffds entries all)
    | inr here ↦ rw (still_open, here) (is, still_open-AreServed uffds entries all)
  ]

  -- poll gave events, or was interrupted by a signal that asks for the end
  abbrev pub IsHandled : Polled × World → Type 0
  IsHandled (failed, w) = ⊥
  IsHandled (interrupted, w) = shutdown_requested w ≡ true
  IsHandled (ready n events, w) = Unit {0}

  -- The handler of the faults does not panic, a descriptor that comes is received, and `poll` works.
  pub record Calm (backing : BackingMemory)
      (dispatch : UffdHandler → World → Run (UffdHandler × World)) : Type 0 where
    pub dispatched :
        (h : UffdHandler) (w : World)
        → (done : UffdHandler × World) × (dispatch h w ≡ returned done)
    pub received :
        (w : World) → (got : (UffdHandler × ℕ) × World) × (receive r backing w ≡ returned got)
    pub handled : (fds : List ℕ) (w : World) → IsHandled (poll fds w)

  module _ (backing : BackingMemory) (dispatch : UffdHandler → World → Run (UffdHandler × World))
      (calm : Calm backing dispatch) where
    open calm use {dispatched, received, handled}

    -- a result whose pushed descriptors have their handlers, as had all that had them before
    abbrev pub IsFine : List (ℕ × UffdHandler) → Run (List ℕ × Runtime r) → Type 0
    IsFine old run' =
        (pushed : List ℕ) × (rt : Runtime r) × (run' ≡ returned (pushed, rt))
        × AreServed rt.uffds pushed
        × Grows old rt.uffds

    accept-IsFine :
        (pushed : List ℕ) (rt : Runtime r)
        → AreServed rt.uffds pushed
        → IsFine rt.uffds (accept r backing dispatch pushed rt)
    accept-IsFine pushed rt all =
        let (((h, fd), w), e) = received rt.world in
        (
          pushed ++ (fd ∷ []),
          record { uffds = (fd, h) ∷ rt.uffds; world = w },
          rw e refl,
          AreServed-append ((fd, h) ∷ rt.uffds) pushed (fd ∷ [])
              (AreServed-Grows rt.uffds ((fd, h) ∷ rt.uffds) pushed (Grows-insert fd h rt.uffds)
                all)
              (inserted fd h rt.uffds, tt),
          Grows-insert fd h rt.uffds,
        )

    dispatch_at-IsFine :
        (fd : ℕ) (pushed : List ℕ) (rt : Runtime r) (h : UffdHandler)
        → AreServed rt.uffds pushed
        → IsFine rt.uffds (dispatch_at r backing dispatch fd pushed rt (some h))
    dispatch_at-IsFine fd pushed rt h all =
        let ((h', w), e) = dispatched h rt.world in
        (
          pushed,
          record { uffds = (fd, h') ∷ rt.uffds; world = w },
          rw e refl,
          AreServed-Grows rt.uffds ((fd, h') ∷ rt.uffds) pushed (Grows-insert fd h' rt.uffds) all,
          Grows-insert fd h' rt.uffds,
        )

    serve_entry-IsFine :
        (fd : ℕ) (pushed : List ℕ) (rt : Runtime r)
        → IsServed rt.uffds fd
        → AreServed rt.uffds pushed
        → IsFine rt.uffds (serve_entry r backing dispatch fd pushed rt)
    serve_entry-IsFine fd pushed rt is all = elim (Bool-cases (fd == stream)) [
      | inl yes_stream ↦ rw (serve_entry, yes_stream) (accept-IsFine pushed rt all)
      | inr no_stream ↦ elim is [
        | inl yes_stream ↦ absurd (ground (arith, yes_stream, no_stream))
        | inr (h, e) ↦ rw (serve_entry, no_stream, e) (dispatch_at-IsFine fd pushed rt h all)
      ]
    ]

    serve_entries-IsFine :
        (entries : List (ℕ × Revents)) (nready : ℕ) (pushed : List ℕ) (rt : Runtime r)
        → AreServed rt.uffds (fds_of entries)
        → AreServed rt.uffds pushed
        → IsFine rt.uffds (serve_entries r backing dispatch entries nready pushed rt)
    unfolding serve_entries
    serve_entries-IsFine [] nready pushed rt each all = (pushed, rt, refl, all, λ fd is. is)
    serve_entries-IsFine (entry ∷ entries) zero pushed rt each all =
        (pushed, rt, refl, all, λ fd is. is)
    serve_entries-IsFine ((fd, e) ∷ entries) (suc nready) pushed rt (is, each) all =
        elim (Bool-cases e.pollin) [
          | inl is_ready ↦
              let (pushed', rt', first, all', grows) = serve_entry-IsFine fd pushed rt is all in
              let (last, rt'', rest, all'', grows') =
                serve_entries-IsFine entries nready pushed' rt'
                  (AreServed-Grows rt.uffds rt'.uffds (fds_of entries) grows each) all' in
              (
                last,
                rt'',
                rw (serve_entries, is_ready, first) rest,
                all'',
                λ k before. grows' k (grows k before),
              )
          | inr idle ↦
              rw (serve_entries, idle)
                (serve_entries-IsFine entries (suc nready) pushed rt each all)
        ]

    -- a turn that stops, or goes on with descriptors that have their handlers
    abbrev pub IsGood : Turn r backing dispatch → Type 0
    IsGood (stopped rt) = Unit {0}
    IsGood (polling fds rt) = AreServed rt.uffds fds

    after_poll-IsGood :
        (fds : List ℕ) (uffds : List (ℕ × UffdHandler)) (o : Polled × World)
        → AreServed uffds fds
        → IsHandled o
        → (t : Turn r backing dispatch) × (after_poll r backing dispatch fds uffds o ≡ returned t)
          × IsGood t
    after_poll-IsGood fds uffds (failed, w) all ok = absurd ok
    after_poll-IsGood fds uffds (interrupted, w) all ok =
        (stopped (record { uffds = uffds; world = w }), rw (after_poll, ok) refl, tt)
    after_poll-IsGood fds uffds (ready n events, w) all ok =
        let entries = annotate r events 0 fds in
        let each = annotated-AreServed uffds events 0 fds all in
        let (pushed, rt, ran, all', grows) =
          serve_entries-IsFine entries n [] (record { uffds = uffds; world = w }) each tt in
        elim (Bool-cases (shutdown_requested rt.world)) [
          | inl end ↦ (stopped rt, rw (after_poll, ran, end) refl, tt)
          | inr on ↦ (
            polling (still_open r entries ++ pushed) rt,
            rw (after_poll, ran, on) refl,
            AreServed-append rt.uffds (still_open r entries) pushed
                (still_open-AreServed rt.uffds entries
                  (AreServed-Grows uffds rt.uffds (fds_of entries) grows each))
                all',
          )
        ]

    next-AreServed :
        (fuel : ℕ)
        → ((fds : List ℕ) (rt : Runtime r)
            → AreServed rt.uffds fds
            → turns r backing dispatch fuel fds rt ≢ panicked)
        → (t : Turn r backing dispatch) → IsGood t
        → next_turn r backing dispatch (turns r backing dispatch fuel) t ≢ panicked
    next-AreServed fuel later (stopped rt) good e = absurd (ground (arith, e))
    next-AreServed fuel later (polling fds rt) good e = later fds rt good e

    turns-AreServed :
        (fuel : ℕ) (fds : List ℕ) (rt : Runtime r)
        → AreServed rt.uffds fds
        → turns r backing dispatch fuel fds rt ≢ panicked
    unfolding turns turn
    turns-AreServed zero fds rt all e = absurd (ground (arith, e))
    turns-AreServed (suc fuel) fds rt all e =
        let (t, ran, good) =
          after_poll-IsGood fds rt.uffds (poll fds rt.world) all (handled fds rt.world) in
        let before : bind_run (returned t)
              (next_turn r backing dispatch (turns r backing dispatch fuel))
            ≡ panicked =
          sym (
            ap (λ x. bind_run x (next_turn r backing dispatch (turns r backing dispatch fuel))) ran)
          ∙ e in
        next-AreServed fuel (turns-AreServed fuel) t good before

    -- When the dispatch of faults does not panic, every descriptor that comes is received, and poll fails
    -- only for a signal that asks for the end: `run` does not panic, however many turns it takes. In
    -- particular each descriptor that it polls, but the stream, has a handler to unwrap.
    pub run-no_panic : (fuel : ℕ) (rt : Runtime r) → run r backing dispatch fuel rt ≢ panicked
    unfolding run
    run-no_panic fuel rt = turns-AreServed fuel (stream ∷ []) rt (inl (ground arith), tt)
