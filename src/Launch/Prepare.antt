-- ===== src/Launch/Prepare.antt =====
-- create_firecracker.rs: the contexts that are prepared, and the runner that takes them one by one.
use herm_os_test.Prelude.{
  ℕ, zero, suc, ◌+◌, List, [], ◌∷◌, ◌++◌, none, some, Outcome, ok, err, Text, codes, display,
}
use herm_os_test.Netns.Command.{NetnsError, NetnsHost}
use herm_os_test.Netns.Vm.{VmNetnsContext, VmState, prepare_full, drop_context}
use herm_os_test.Launch.{
  ErrorKind, Call, Answer, LaunchError, FirecrackerContext, Result, remove_socket_if_exists,
  run_once, stale_socket, no_context_left, netns_error,
}

pub data NetnsMode : Type 0 where
  no_netns full_netns : NetnsMode

unfoldable pub build_socket_path : ℕ → ℕ → Text
build_socket_path thread_id iteration =
    codes "/tmp/firecracker-api/"
    ++ (display 10 thread_id ++ (codes "-" ++ (display 10 iteration ++ codes ".sock")))

module _ (n : NetnsHost) (sys : (c : Call) → n.World → Answer c × n.World) where
  -- What `prepare_with_netns` makes of its next context: the counter of the namespaces moves on.
  abbrev pub context_of :
      Text
      → Outcome NetnsError VmNetnsContext × VmState n
      → Outcome LaunchError FirecrackerContext × VmState n
  context_of path (err e, s) = (err (netns_error e), s)
  context_of path (ok c, s) = (ok (record { socket_path = path; netns = some c }), s)

  abbrev pub with_mode :
      NetnsMode
      → Text
      → Text
      → VmState n
      → Outcome ErrorKind (Unit {0}) × n.World
      → Outcome LaunchError FirecrackerContext × VmState n
  with_mode mode token path s (err e, w) = (err (stale_socket e), record s { world = w })
  with_mode no_netns token path s (ok _, w) =
      (ok (record { socket_path = path; netns = none }), record s { world = w })
  with_mode full_netns token path s (ok _, w) =
      context_of path (prepare_full n token (record s { world = w }))

  unfoldable pub next_context :
      NetnsMode → Text → ℕ → ℕ → VmState n → Outcome LaunchError FirecrackerContext × VmState n
  unfolding remove_socket_if_exists
  next_context mode token thread_id iteration s =
      let path = build_socket_path thread_id iteration in
      with_mode mode token path s (remove_socket_if_exists n sys path s.world)

  abbrev pub drop_one : FirecrackerContext → n.World → n.World
  drop_one c w = elim c.netns [ some x ↦ drop_context n x w | none ↦ w ]

  -- the contexts left, dropped in their order
  unfoldable pub drop_contexts : List FirecrackerContext → n.World → n.World
  drop_contexts [] w = w
  drop_contexts (c ∷ contexts) w = drop_contexts contexts (drop_one c w)

  -- the `for` loop of `prepare_with_netns`: `contexts` were prepared for the iterations below `iteration`
  unfoldable pub prepare_contexts :
      NetnsMode
      → Text
      → ℕ
      → ℕ
      → ℕ
      → List FirecrackerContext
      → VmState n
      → Outcome LaunchError (List FirecrackerContext) × VmState n
  unfolding next_context drop_contexts
  prepare_contexts mode token thread_id iteration zero contexts s = (ok contexts, s)
  prepare_contexts mode token thread_id iteration (suc k) contexts s =
      let made = next_context mode token thread_id iteration s in
      elim made.0 [
        | ok c ↦
            prepare_contexts mode token thread_id (iteration + 1) k (contexts ++ (c ∷ [])) made.1
        | err e ↦ (err e, record made.1 { world = drop_contexts contexts made.1.world })
      ]

  unfoldable pub prepare_with_netns :
      NetnsMode
      → Text
      → ℕ
      → ℕ
      → VmState n
      → Outcome LaunchError (List FirecrackerContext) × VmState n
  unfolding prepare_contexts
  prepare_with_netns mode token thread_id iterations s =
      prepare_contexts mode token thread_id 0 iterations [] s

  -- the closure that it returns, with the contexts left
  unfoldable pub run_next :
      List FirecrackerContext → n.World → Result n sys (Unit {0}) × List FirecrackerContext
  run_next [] w = ((err no_context_left, w), [])
  run_next (c ∷ contexts) w = (run_once n sys c w, contexts)
