-- ===== src/Uffd/Runtime.antt =====
-- uffd_utils.rs: receiving the mappings, and the poll loop of `Runtime::run`.
pub mod Served
use herm_os_test.Prelude.{
  ℕ, zero, suc, ◌+◌, ◌-◌, Bool, true, false, not, ◌&&◌, List, [], ◌∷◌, ◌++◌, Option, none, some,
  Outcome, ok, err, if◌then◌else◌, ◌==◌, Run, returned, panicked, out_of_fuel, bind_run, Text,
}
use herm_os_test.Uffd.Region.{
  GuestRegionUffdMapping, UffdHandler, from_mappings, from_mappings_remote,
}

-- POLLIN, and POLLRDHUP or POLLHUP
pub record Revents : Type 0 where
  pub pollin : Bool
  pub hung_up : Bool

-- `poll`: -1 with EINTR or another error, or how many are ready, and the events by position
pub data Polled : Type 0 where
  interrupted failed : Polled
  ready : ℕ → (ℕ → Revents) → Polled

pub data BackingMemory : Type 0 where
  file_backing : ℕ → ℕ → BackingMemory
  remote_backing : BackingMemory

-- The socket, `poll` and the flag of the signal handlers. A descriptor is its number; a received body is
-- `none` when it is not UTF-8.
pub record RuntimeHost : Type 1 where
  pub World : Type 0
  pub IoError : Type 0
  pub stream : ℕ
  pub recv_with_fd : World → Outcome IoError (Option Text × Option ℕ) × World
  pub sleep : World → World
  pub deserialize : Text → Option (List GuestRegionUffdMapping)
  pub poll : List ℕ → World → Polled × World
  pub shutdown_requested : World → Bool

module _ (r : RuntimeHost) where
  open r use {World, IoError, stream, recv_with_fd, sleep, deserialize, poll, shutdown_requested}

  -- one try of `get_mappings_and_file`, with the later ones as `go_on`
  abbrev pub one_try :
      (World → Run ((Text × ℕ) × World))
      → Outcome IoError (Option Text × Option ℕ) × World
      → Run ((Text × ℕ) × World)
  one_try go_on (err e, w) = go_on (sleep w)
  one_try go_on (ok (none, file), w) = panicked
  one_try go_on (ok (some text, some file), w) = returned ((text, file), w)
  one_try go_on (ok (some text, none), w) = go_on (sleep w)

  unfoldable pub tries : ℕ → World → Run ((Text × ℕ) × World)
  tries zero w = panicked
  tries (suc k) w = one_try (tries k) (recv_with_fd w)

  abbrev pub get_mappings_and_file : World → Run ((Text × ℕ) × World)
  get_mappings_and_file w = tries 5 w

  -- `from_unix_stream` or `from_unix_stream_remote`
  abbrev pub handler_of : BackingMemory → Option (List GuestRegionUffdMapping) → Run UffdHandler
  handler_of (file_backing memory size) mappings = from_mappings mappings memory size
  handler_of remote_backing mappings = from_mappings_remote mappings

  unfoldable pub receive : BackingMemory → World → Run ((UffdHandler × ℕ) × World)
  unfolding tries
  receive backing w = bind_run (get_mappings_and_file w) λ got.
      bind_run (handler_of backing (deserialize got.0.0))
        λ handler. returned ((handler, got.0.1), got.1)

  -- the handlers by descriptor, and the world
  pub record Runtime : Type 0 where
    pub uffds : List (ℕ × UffdHandler)
    pub world : World

  unfoldable pub handler_at : List (ℕ × UffdHandler) → ℕ → Option UffdHandler
  handler_at [] fd = none
  handler_at ((k, handler) ∷ uffds) fd = if k == fd then some handler else handler_at uffds fd

  -- what `poll` wrote to the entries, from a position on
  abbrev pub annotate : (ℕ → Revents) → ℕ → List ℕ → List (ℕ × Revents)
  annotate events i [] = []
  annotate events i (fd ∷ fds) = (fd, events i) ∷ annotate events (suc i) fds

  -- `retain`
  abbrev pub still_open : List (ℕ × Revents) → List ℕ
  still_open [] = []
  still_open ((fd, e) ∷ entries) =
      let rest = still_open entries in if e.hung_up then rest else fd ∷ rest

  module _ (backing : BackingMemory)
      (dispatch : UffdHandler → World → Run (UffdHandler × World)) where
    -- a new handler from the stream, whose descriptor is pushed
    abbrev pub accept : List ℕ → Runtime → Run (List ℕ × Runtime)
    accept pushed rt = bind_run (receive backing rt.world) λ got.
        returned (
          pushed ++ (got.0.1 ∷ []),
          record { uffds = (got.0.1, got.0.0) ∷ rt.uffds; world = got.1 },
        )

    -- `pf_event_dispatch(self.uffds.get_mut(&fd).unwrap())`
    abbrev pub dispatch_at : ℕ → List ℕ → Runtime → Option UffdHandler → Run (List ℕ × Runtime)
    dispatch_at fd pushed rt none = panicked
    dispatch_at fd pushed rt (some handler) =
        bind_run (dispatch handler rt.world)
          λ done. returned (pushed, record { uffds = (fd, done.0) ∷ rt.uffds; world = done.1 })

    abbrev pub serve_entry : ℕ → List ℕ → Runtime → Run (List ℕ × Runtime)
    serve_entry fd pushed rt =
        if fd == stream then accept pushed rt else dispatch_at fd pushed rt (handler_at rt.uffds fd)

    -- the `for` loop: the entries that were polled, while `nready` are left
    unfoldable pub serve_entries :
        List (ℕ × Revents) → ℕ → List ℕ → Runtime → Run (List ℕ × Runtime)
    serve_entries [] nready pushed rt = returned (pushed, rt)
    serve_entries (entry ∷ entries) zero pushed rt = returned (pushed, rt)
    serve_entries ((fd, e) ∷ entries) (suc nready) pushed rt = elim e.pollin [
      | false ↦ serve_entries entries (suc nready) pushed rt
      | true ↦ bind_run (serve_entry fd pushed rt) λ got. serve_entries entries nready got.0 got.1
    ]

    -- how a turn of the loop ends: with `break`, or with the descriptors to poll next
    pub data Turn : Type 0 where
      stopped : Runtime → Turn
      polling : List ℕ → Runtime → Turn

    abbrev pub after_entries : List (ℕ × Revents) → List ℕ × Runtime → Turn
    after_entries entries (pushed, rt) =
        if shutdown_requested rt.world
        then stopped rt
        else polling (still_open entries ++ pushed) rt

    abbrev pub after_poll : List ℕ → List (ℕ × UffdHandler) → Polled × World → Run Turn
    after_poll fds uffds (failed, w) = panicked
    after_poll fds uffds (interrupted, w) =
        if shutdown_requested w
        then returned (stopped (record { uffds = uffds; world = w }))
        else panicked
    after_poll fds uffds (ready nready events, w) =
        let entries = annotate events 0 fds in
        bind_run (serve_entries entries nready [] (record { uffds = uffds; world = w }))
          λ got. returned (after_entries entries got)

    unfoldable pub turn : List ℕ → Runtime → Run Turn
    unfolding serve_entries receive handler_at
    turn fds rt = after_poll fds rt.uffds (poll fds rt.world)

    abbrev pub next_turn : (List ℕ → Runtime → Run Runtime) → Turn → Run Runtime
    next_turn go_on (stopped rt) = returned rt
    next_turn go_on (polling fds rt) = go_on fds rt

    -- the `loop`, with at most `fuel` turns
    unfoldable pub turns : ℕ → List ℕ → Runtime → Run Runtime
    unfolding turn
    turns zero fds rt = out_of_fuel
    turns (suc fuel) fds rt = bind_run (turn fds rt) (next_turn (turns fuel))

    unfoldable pub run : ℕ → Runtime → Run Runtime
    unfolding turns
    run fuel rt = turns fuel (stream ∷ []) rt
