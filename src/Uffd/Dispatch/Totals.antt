-- ===== src/Uffd/Dispatch/Totals.antt =====
-- No event is lost and none is handled twice.
use mathlib.Core.Path.{subst}
use mathlib.Core.List.{append-nil}
use herm_os_test.Prelude.{
  ℕ, zero, suc, ◌+◌, ◌≡◌, refl, ap, ◌∙◌, Bool, true, false, List, [], ◌∷◌, ◌++◌, Option, none, some,
  Outcome, ok, err, arith, Bool-cases, inl, inr, returned, returned-injective, bind_run-returned,
  if◌then◌else◌,
}
use herm_os_test.Uffd.Dispatch.{
  Event, pagefault, remove, other_event, Handler, Progress, read_all, after_serve, handle_event,
  handle_all, round, dispatch, is_empty,
}

abbrev pub count : (Event → Bool) → List Event → ℕ
count f [] = 0
count f (e ∷ es) = (if f e then 1 else 0) + count f es

abbrev pub is_fault : Event → Bool
is_fault (pagefault addr) = true
is_fault _ = false

count-append :
    (f : Event → Bool) (xs ys : List Event) → count f (xs ++ ys) ≡ count f xs + count f ys
count-append f [] ys = omega arith
count-append f (x ∷ xs) ys = omega (arith, count-append f xs ys)

is_empty-nil : (es : List Event) → is_empty es ≡ true → es ≡ []
is_empty-nil [] e = refl
is_empty-nil (x ∷ es) e = absurd (ground arith)

-- what a read of the descriptor gives
data Read {E : Type 0} (o : Outcome E (Option Event)) : Type 0 where
  none_left : o ≡ ok none → Read o
  one_more : (event : Event) → o ≡ ok (some event) → Read o
  failed : (x : E) → o ≡ err x → Read o

Read-cases : {E : Type 0} (o : Outcome E (Option Event)) → Read o
Read-cases (ok none) = none_left refl
Read-cases (ok (some event)) = one_more event refl
Read-cases (err x) = failed x refl

abbrev pub given : {E : Type 0} → Outcome E (Option Event) → List Event
given (ok (some event)) = event ∷ []
given _ = []

abbrev pub done_if : Bool → Event → List Event
done_if true event = event ∷ []
done_if false event = []

-- The events that the descriptor has given, and those that were carried out: a fault that `serve` reported as
-- done, a range that was unregistered. Each operation writes down what it does, and nothing else.
pub record EventLog {S E : Type 0} (h : Handler S E) : Type 0 where
  pub arrived : S → List Event
  pub handled : S → List Event
  pub arrived-read : (s : S) → arrived (h.read_event s).1 ≡ arrived s ++ given (h.read_event s).0
  pub handled-read : (s : S) → handled (h.read_event s).1 ≡ handled s
  pub log-serve :
      (addr : ℕ) (s : S) (r : Bool × S)
      → h.serve addr s ≡ returned r
      → (arrived r.1 ≡ arrived s) × (handled r.1 ≡ handled s ++ done_if r.0 (pagefault addr))
  pub log-unregister :
      (start end : ℕ) (s t : S)
      → h.unregister start end s ≡ returned t
      → (arrived t ≡ arrived s) × (handled t ≡ handled s ++ (remove start end ∷ []))

module _ {S E : Type 0} (h : Handler S E) (log : EventLog h) where
  open h use {read_event, serve, unregister}
  open log use {arrived, handled, arrived-read, handled-read, log-serve, log-unregister}

  -- the copies that were counted are the faults that were carried out
  abbrev IsCounted : Progress S → Progress S → Type 0
  IsCounted p q =
      q.copied_pages + count is_fault (handled p.state)
      ≡ p.copied_pages + count is_fault (handled q.state)

  module _ (f : Event → Bool) where
    -- carried out or put off, of the events that pass the test
    abbrev total : Progress S → ℕ
    total p = count f (handled p.state) + count f p.deferred

    abbrev Handles : List Event → Progress S → Progress S → Type 0
    Handles events p q =
        (total q ≡ total p + count f events) × (arrived q.state ≡ arrived p.state) × IsCounted p q

    after_serve-Handles :
        (addr : ℕ) (p q : Progress S) (r : Bool × S)
        → (arrived r.1 ≡ arrived p.state)
          × (handled r.1 ≡ handled p.state ++ done_if r.0 (pagefault addr))
        → after_serve h (pagefault addr) p r ≡ returned q
        → Handles (pagefault addr ∷ []) p q
    after_serve-Handles addr p q (true, s) (same, more) e =
        subst (Handles (pagefault addr ∷ []) p) (returned-injective e) (
          omega (arith, ap (count f) more, count-append f (handled p.state) (pagefault addr ∷ [])),
          same,
          omega (
            arith,
            ap (count is_fault) more,
            count-append is_fault (handled p.state) (pagefault addr ∷ []),
          ),
        )
    after_serve-Handles addr p q (false, s) (same, more) e =
        let kept = more ∙ append-nil (handled p.state) in
        subst (Handles (pagefault addr ∷ []) p) (returned-injective e) (
          omega (arith, ap (count f) kept, count-append f p.deferred (pagefault addr ∷ [])),
          same,
          omega (arith, ap (count is_fault) kept),
        )

    handle_event-Handles :
        (event : Event) (p q : Progress S)
        → handle_event h event p ≡ returned q
        → Handles (event ∷ []) p q
    unfolding handle_event
    handle_event-Handles (pagefault addr) p q e =
        let (r, served, after) = bind_run-returned (serve addr p.state) _ e in
        after_serve-Handles addr p q r (log-serve addr p.state r served) after
    handle_event-Handles (remove start end) p q e =
        let (s, gone, after) = bind_run-returned (unregister start end p.state) _ e in
        let (same, more) = log-unregister start end p.state s gone in
        subst (Handles (remove start end ∷ []) p) (returned-injective after) (
          omega
              (arith, ap (count f) more, count-append f (handled p.state) (remove start end ∷ [])),
          same,
          omega (
            arith,
            ap (count is_fault) more,
            count-append is_fault (handled p.state) (remove start end ∷ []),
          ),
        )
    handle_event-Handles other_event p q e = absurd (ground arith)

    handle_all-Handles :
        (events : List Event) (p q : Progress S)
        → handle_all h events p ≡ returned q
        → Handles events p q
    unfolding handle_all
    handle_all-Handles [] p q e =
        subst (Handles [] p) (returned-injective e) (omega arith, refl, refl)
    handle_all-Handles (event ∷ events) p q e =
        let (m, first, rest) = bind_run-returned (handle_event h event p) _ e in
        let (one, same, counted) = handle_event-Handles event p m first in
        let (all, same', counted') = handle_all-Handles events m q rest in
        (omega (arith, one, all), same' ∙ same, omega (arith, counted, counted'))

    read_all-arrived :
        (fuel : ℕ) (events : List Event) (s : S) (r : List Event × S)
        → read_all h fuel events s ≡ returned r
        → (count f r.0 + count f (arrived s) ≡ count f events + count f (arrived r.1))
          × (handled r.1 ≡ handled s)
    unfolding read_all
    read_all-arrived zero events s r e = absurd (ground arith)
    read_all-arrived (suc fuel) events s r e = elim (Read-cases (read_event s).0) [
      | none_left q ↦
          let ends : (events, (read_event s).1) ≡ r = returned-injective (rw (read_all, q) at e) in
          let none_new =
            arrived-read s ∙ ap (λ o. arrived s ++ given o) q ∙ append-nil (arrived s) in
          subst
            (λ (r : List Event × S).
              (count f r.0 + count f (arrived s) ≡ count f events + count f (arrived r.1))
              × (handled r.1 ≡ handled s))
            ends (omega (arith, ap (count f) none_new), handled-read s)
      | one_more event q ↦
          let one_new = arrived-read s ∙ ap (λ o. arrived s ++ given o) q in
          let (later, same) =
            read_all-arrived fuel (events ++ event ∷ []) (read_event s).1 r
              (rw (read_all, q) at e) in
          (
            omega (
              arith,
              later,
              ap (count f) one_new,
              count-append f (arrived s) (event ∷ []),
              count-append f events (event ∷ []),
            ),
            same ∙ handled-read s,
          )
      | failed x q ↦ absurd (ground (arith, rw (read_all, q) at e))
    ]

    -- what was carried out or put off grows by what arrived
    abbrev Conserves : Progress S → Progress S → Type 0
    Conserves p q =
        (total q + count f (arrived p.state) ≡ total p + count f (arrived q.state)) × IsCounted p q

    round-Conserves : (fuel : ℕ) (p q : Progress S) → round h fuel p ≡ returned q → Conserves p q
    unfolding round
    round-Conserves fuel p q e =
        let (r, read, rest) = bind_run-returned (read_all h fuel p.deferred p.state) _ e in
        let (news, kept) = read_all-arrived fuel p.deferred p.state r read in
        let (all, same, counted) = handle_all-Handles r.0 _ q rest in
        (
          omega (arith, news, all, ap (count f) kept, ap (count f) same),
          omega (arith, counted, ap (count is_fault) kept),
        )

    dispatch-Conserves :
        (rounds fuel : ℕ) (p q : Progress S)
        → dispatch h rounds fuel p ≡ returned q
        → (q.deferred ≡ []) × Conserves p q
    unfolding dispatch
    dispatch-Conserves zero fuel p q e = absurd (ground arith)
    dispatch-Conserves (suc rounds) fuel p q e =
        let (m, run, rest) = bind_run-returned (round h fuel p) _ e in
        let (moved, counted) = round-Conserves fuel p m run in
        elim (Bool-cases (is_empty m.deferred)) [
          | inl done ↦
              let gone = is_empty-nil m.deferred done in
              let same : m ≡ q = ground (arith, rw done at rest) in
              subst (λ (t : Progress S). (t.deferred ≡ []) × Conserves p t) same
                (gone, (moved, counted))
          | inr left ↦
              let (gone, (moved', counted')) =
                dispatch-Conserves rounds fuel m q (rw left at rest) in
              (gone, (omega (arith, moved, moved'), omega (arith, counted, counted')))
        ]

  -- When the closure returns, nothing is put off, and for every test on events the number of events that
  -- pass it among those carried out meanwhile is the number among those that had been put off before and
  -- those that the descriptor gave meanwhile: no event is lost, and none is carried out twice, however
  -- often it was put off. The copies counted meanwhile are the page faults carried out meanwhile.
  pub dispatch-copied :
      (rounds fuel : ℕ) (p q : Progress S) (f : Event → Bool)
      → dispatch h rounds fuel p ≡ returned q
      → (q.deferred ≡ [])
        × (count f (handled q.state) + count f (arrived p.state)
            ≡ count f (handled p.state) + count f p.deferred + count f (arrived q.state))
        × (q.copied_pages + count is_fault (handled p.state)
            ≡ p.copied_pages + count is_fault (handled q.state))
  dispatch-copied rounds fuel p q f e =
      let (gone, (moved, counted)) = dispatch-Conserves f rounds fuel p q e in
      (gone, omega (arith, moved, ap (count f) gone), counted)
