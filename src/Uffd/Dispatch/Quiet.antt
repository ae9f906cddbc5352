-- ===== src/Uffd/Dispatch/Quiet.antt =====
-- A burst of events with nothing arriving while it is handled: one round serves all of it.
use mathlib.Core.List.{append-nil, append_assoc}
use herm_os_test.Prelude.{
  ℕ, zero, suc, ◌+◌, ◌<◌, ◌≡◌, refl, sym, ap, ◌∙◌, true, List, [], ◌∷◌, ◌++◌, none, some, ok, arith,
  length, returned,
}
use herm_os_test.Uffd.Dispatch.{
  Event, pagefault, remove, other_event, Handler, Progress, read_all, handle_event, handle_all,
  round, dispatch, is_empty,
}
use herm_os_test.Uffd.Dispatch.Totals.{EventLog}

abbrev pub All : {A : Type 0} → (A → Type 0) → List A → Type 0
All P [] = Unit
All P (x ∷ xs) = P x × All P xs

All-append : {A : Type 0} (P : A → Type 0) (xs ys : List A) → All P xs → All P ys → All P (xs ++ ys)
All-append P [] ys a b = b
All-append P (x ∷ xs) ys a b = (a.0, All-append P xs ys a.1 b)

-- The descriptor as a queue of unread events. While none is unread, ioctls on the descriptor are not
-- refused with EAGAIN, so a known fault is copied and a known range unregistered.
pub record QuietLaws {S E : Type 0} (h : Handler S E) : Type 1 where
  pub unread : S → List Event
  pub Known : Event → Type 0
  pub read_none :
      (s : S) → unread s ≡ [] → ((h.read_event s).0 ≡ ok none) × (unread (h.read_event s).1 ≡ [])
  pub read_some :
      (s : S) (e : Event) (es : List Event)
      → unread s ≡ e ∷ es
      → ((h.read_event s).0 ≡ ok (some e)) × (unread (h.read_event s).1 ≡ es)
  pub serve_known :
      (addr : ℕ) (s : S)
      → unread s ≡ []
      → Known (pagefault addr)
      → (t : S) × (h.serve addr s ≡ returned (true, t)) × (unread t ≡ [])
  pub unregister_known :
      (start end : ℕ) (s : S)
      → unread s ≡ []
      → Known (remove start end)
      → (t : S) × (h.unregister start end s ≡ returned t) × (unread t ≡ [])
  pub other_unknown : ¬ Known other_event

abbrev pub faults : List Event → ℕ
faults [] = 0
faults (pagefault addr ∷ es) = suc (faults es)
faults (_ ∷ es) = faults es

faults-append : (xs ys : List Event) → faults (xs ++ ys) ≡ faults xs + faults ys
faults-append [] ys = omega arith
faults-append (pagefault addr ∷ xs) ys = omega (arith, faults-append xs ys)
faults-append (remove start end ∷ xs) ys = omega (arith, faults-append xs ys)
faults-append (other_event ∷ xs) ys = omega (arith, faults-append xs ys)

module _ {S E : Type 0} (h : Handler S E) (log : EventLog h) (law : QuietLaws h) where
  open log use {handled, handled-read, log-serve, log-unregister}
  open law use {unread, Known, read_none, read_some, serve_known, unregister_known, other_unknown}

  read_all-unread :
      (fuel : ℕ) (news events : List Event) (s : S)
      → unread s ≡ news
      → length news < fuel
      → (t : S) × (read_all h fuel events s ≡ returned (events ++ news, t))
        × (unread t ≡ [])
        × (handled t ≡ handled s)
  unfolding read_all
  read_all-unread zero news events s e enough = absurd (omega arith)
  read_all-unread (suc fuel) [] events s e enough =
      let (got, left) = read_none s e in
      ((h.read_event s).1, rw (got, read_all, append-nil events), left, handled-read s)
  read_all-unread (suc fuel) (x ∷ news) events s e enough =
      let (got, left) = read_some s x news e in
      let (t, run, gone, same) =
        read_all-unread fuel news (events ++ x ∷ []) (h.read_event s).1 left (omega arith) in
      (
        t,
        rw (got, read_all) (run ∙ ap (λ l. returned (l, t)) (append_assoc events (x ∷ []) news)),
        gone,
        same ∙ handled-read s,
      )

  -- one event, then all of them: nothing is deferred
  handle_event_known :
      (event : Event) (p : Progress S)
      → unread p.state ≡ []
      → Known event
      → (q : Progress S) × (handle_event h event p ≡ returned q)
        × (q.deferred ≡ p.deferred)
        × (q.copied_pages ≡ p.copied_pages + faults (event ∷ []))
        × (unread q.state ≡ [])
        × (handled q.state ≡ handled p.state ++ (event ∷ []))
  unfolding handle_event
  handle_event_known (pagefault addr) p e known =
      let (t, run, gone) = serve_known addr p.state e known in
      (
        record p { copied_pages = p.copied_pages + 1; state = t },
        rw run,
        refl,
        refl,
        gone,
        (log-serve addr p.state (true, t) run).1,
      )
  handle_event_known (remove start end) p e known =
      let (t, run, gone) = unregister_known start end p.state e known in
      (
        record p { state = t },
        rw run,
        refl,
        omega arith,
        gone,
        (log-unregister start end p.state t run).1,
      )
  handle_event_known other_event p e known = absurd (other_unknown known)

  handle_all_known :
      (events : List Event) (p : Progress S)
      → unread p.state ≡ []
      → All Known events
      → (q : Progress S) × (handle_all h events p ≡ returned q)
        × (q.deferred ≡ p.deferred)
        × (q.copied_pages ≡ p.copied_pages + faults events)
        × (unread q.state ≡ [])
        × (handled q.state ≡ handled p.state ++ events)
  unfolding handle_all
  handle_all_known [] p e known =
      (p, refl, refl, omega arith, e, sym (append-nil (handled p.state)))
  handle_all_known (x ∷ events) p e known =
      let (m, first, same, n, gone, one) = handle_event_known x p e known.0 in
      let (q, rest, same', n', gone', more) = handle_all_known events m gone known.1 in
      (
        q,
        rw first rest,
        same' ∙ same,
        omega (arith, n, n', faults-append (x ∷ []) events),
        gone',
        more ∙ ap (λ l. l ++ events) one ∙ append_assoc (handled p.state) (x ∷ []) events,
      )

  dispatch_done :
      (rounds fuel : ℕ) (p q : Progress S)
      → round h fuel p ≡ returned q
      → q.deferred ≡ []
      → dispatch h (suc rounds) fuel p ≡ returned q
  unfolding dispatch
  dispatch_done rounds fuel p q run gone =
      let done : is_empty q.deferred ≡ true = ap is_empty gone in ground (arith, run, done)

  -- If no event arrives while a burst is handled, and every waiting event is one that the handler
  -- knows, the closure returns after one round, and has carried out each waiting event once, first those
  -- that had been put off and then those just read, in their order: a fault is served, a range
  -- unregistered. The counter has grown by the page faults among them, and no event is left.
  pub dispatch_quiet :
      (rounds fuel : ℕ) (p : Progress S)
      → length (unread p.state) < fuel
      → All Known p.deferred
      → All Known (unread p.state)
      → (q : Progress S) × (dispatch h (suc rounds) fuel p ≡ returned q)
        × (q.deferred ≡ [])
        × (handled q.state ≡ handled p.state ++ (p.deferred ++ unread p.state))
        × (q.copied_pages ≡ p.copied_pages + faults p.deferred + faults (unread p.state))
        × (unread q.state ≡ [])
  dispatch_quiet rounds fuel p enough known_deferred known_unread =
      let news = unread p.state in
      let (t, read, gone, same) = read_all-unread fuel news p.deferred p.state refl enough in
      let (q, run, none_left, n, gone', all) =
        handle_all_known (p.deferred ++ news) (record p { deferred = []; state = t }) gone
          (All-append Known p.deferred news known_deferred known_unread) in
      (
        q,
        dispatch_done rounds fuel p q (unfold round in rw (read, run)) none_left,
        none_left,
        all ∙ ap (λ l. l ++ (p.deferred ++ news)) same,
        omega (arith, n, faults-append p.deferred news),
        gone',
      )
