-- ===== src/Uffd/Dispatch.antt =====
-- The closure that `main` of on_demand_handler.rs and of remote_range_handler.rs hands to
-- `Runtime::run`: one loop over the events of a userfaultfd, with what it captures as the state `S`.
pub mod Totals
pub mod Quiet
use herm_os_test.Prelude.{
  ℕ, zero, suc, ◌+◌, Bool, true, false, List, [], ◌∷◌, ◌++◌, Option, none, some, Outcome, ok, err,
  if◌then◌else◌, Run, returned, panicked, out_of_fuel, bind_run,
}

pub data Event : Type 0 where
  pagefault : ℕ → Event
  remove : ℕ → ℕ → Event
  other_event : Event

-- the operations of the handler that the loop calls: `read_event`, `serve_pf` (or
-- `serve_remote_pf`) and `unregister_range`
pub record Handler (S E : Type 0) : Type 0 where
  pub read_event : S → Outcome E (Option Event) × S
  pub serve : ℕ → S → Run (Bool × S)
  pub unregister : ℕ → ℕ → S → Run S

-- the local variables of the closure
pub record Progress (S : Type 0) : Type 0 where
  pub deferred : List Event
  pub copied_pages : ℕ
  pub state : S

abbrev pub is_empty : List Event → Bool
is_empty [] = true
is_empty (e ∷ es) = false

module _ {S E : Type 0} (h : Handler S E) where
  open h use {read_event, serve, unregister}

  -- `while let Some(event) = read_event()`, appending to the events
  unfoldable pub read_all : ℕ → List Event → S → Run (List Event × S)
  read_all zero events s = out_of_fuel
  read_all (suc fuel) events s =
      let (res, s') = read_event s in
      elim res [
        | err e ↦ panicked
        | ok none ↦ returned (events, s')
        | ok (some event) ↦ read_all fuel (events ++ event ∷ []) s'
      ]

  abbrev after_serve : Event → Progress S → Bool × S → Run (Progress S)
  after_serve event p (done, s) =
      if done
      then returned (record p { copied_pages = p.copied_pages + 1; state = s })
      else returned (record p { deferred = p.deferred ++ event ∷ []; state = s })

  unfoldable pub handle_event : Event → Progress S → Run (Progress S)
  handle_event (pagefault addr) p = bind_run (serve addr p.state) (after_serve (pagefault addr) p)
  handle_event (remove start end) p =
      bind_run (unregister start end p.state) (λ s. returned (record p { state = s }))
  handle_event other_event p = panicked

  -- `for event in events_to_handle.drain(..)`
  unfoldable pub handle_all : List Event → Progress S → Run (Progress S)
  handle_all [] p = returned p
  handle_all (event ∷ events) p = bind_run (handle_event event p) (handle_all events)

  -- one round of the outer loop: the deferred events first, then all that can be read
  unfoldable pub round : ℕ → Progress S → Run (Progress S)
  round fuel p =
      bind_run (read_all fuel p.deferred p.state)
        λ q. handle_all q.0 (record p { deferred = []; state = q.1 })

  -- `rounds` bounds the outer loop, `fuel` the reads of each round
  unfoldable pub dispatch : ℕ → ℕ → Progress S → Run (Progress S)
  dispatch zero fuel p = out_of_fuel
  dispatch (suc rounds) fuel p =
      bind_run (round fuel p)
        λ q. elim (is_empty q.deferred) [ true ↦ returned q | false ↦ dispatch rounds fuel q ]
