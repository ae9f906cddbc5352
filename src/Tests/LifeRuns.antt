-- ===== src/Tests/LifeRuns.antt =====
-- The life of three vCPU threads, of which the last one does not start.
use herm_os_test.Prelude.{
  ℕ, ◌+◌, ◌≡◌, refl, [], ◌∷◌, ◌++◌, Outcome, ok, err, if◌then◌else◌, ltb, List, Run, returned,
  out_of_fuel, bind_run, arith,
}
use herm_os_test.Vmm.Vcpus.{VcpuEvent, VcpuResponse, VmState, VcpuHost, Vmm}
use herm_os_test.Vmm.Life.{LifeHost, start_vcpus, drop_vmm, start_each, finish_each, join_each}
use herm_os_test.Vmm.Life.Ended.{
  Threads, no_threads, add_started, Watched, DropsAfter, start_vcpus-drop_vmm,
}

abbrev tell : ℕ → VcpuEvent → Threads ℕ → Threads ℕ
tell x VcpuEvent.finish t = record t { told = t.told ++ (x ∷ []) }
tell x _ t = t

abbrev threads : VcpuHost
threads = record {
  World = Threads ℕ;
  Handle = ℕ;
  SendError = ℕ;
  Saved = ℕ;
  Config = ℕ;
  VcpuError = ℕ;
  Reason = ℕ;
  send_event = λ x event w. (ok tt, tell x event w);
  recv_timeout = λ x w. (ok VcpuResponse.resumed, w);
  kick_virtio_devices = λ w. w;
}

abbrev start : ℕ → Outcome ℕ ℕ
start c = if ltb c 3 then ok (c + 10) else err c

-- a join while some thread waits at the barrier never returns
abbrev join_thread : List ℕ → ℕ → Threads ℕ → Run (Threads ℕ)
join_thread [] x w = returned (record w { ended = w.ended ++ (x ∷ []) })
join_thread (y ∷ ys) x w = out_of_fuel

abbrev terminal : LifeHost threads
terminal = record {
  Vcpu = ℕ;
  StdinError = ℕ;
  StartError = ℕ;
  KvmState = ℕ;
  VmSaved = ℕ;
  DeviceStates = ℕ;
  SaveError = ℕ;
  VmInfo = ℕ;
  set_raw_mode = λ w. (ok tt, w);
  set_non_block = λ w. (ok tt, w);
  start_threaded = λ c w. (start c, add_started (start c) w);
  barrier_wait = λ n w. record w { waiting = [] };
  joined = λ x w. join_thread w.waiting x w;
  set_canon_mode = λ w. w;
  write_metrics = λ w. w;
  save_devices = λ w. (0, w);
  save_kvm = λ w. (0, w);
  save_vm = λ w. (ok 0, w);
}

pub join_thread_ends :
    (ys : List ℕ) (x : ℕ) (w : Threads ℕ)
    → ys ≡ []
    → (w' : Threads ℕ) × (join_thread ys x w ≡ returned w')
      × (w' ≡ record w { ended = w.ended ++ (x ∷ []) })
join_thread_ends [] x w free = (record w { ended = w.ended ++ (x ∷ []) }, refl, refl)
join_thread_ends (y ∷ ys) x w free = absurd (ground (arith, free))

pub join_thread_hangs :
    (ys earlier later : List ℕ) (x : ℕ) (w : Threads ℕ)
    → ys ≡ earlier ++ (x ∷ later)
    → join_thread ys x w ≡ out_of_fuel
join_thread_hangs (y ∷ ys) earlier later x w waits = refl
join_thread_hangs [] [] later x w waits = absurd (ground (arith, waits))
join_thread_hangs [] (z ∷ earlier) later x w waits = absurd (ground (arith, waits))

abbrev watched : Watched threads terminal
watched = record {
  threads = λ w. w;
  threads-raw = λ w. refl;
  threads-block = λ w. refl;
  threads-start = λ c w. refl;
  threads-barrier = λ n w all. refl;
  threads-finish = λ x w. refl;
  joined_ends = λ x earlier later (w : Threads ℕ) free told. join_thread_ends w.waiting x w free;
  joined_hangs =
      λ x earlier later (w : Threads ℕ) waits. join_thread_hangs w.waiting earlier later x w waits;
  threads-canon = λ w. refl;
  threads-metrics = λ w. refl;
}

abbrev not_started : Vmm threads
not_started = record { state = VmState.not_started; vcpus_handles = []; world = no_threads }

start_vcpus-drop_vmm_example :
    DropsAfter threads terminal watched 3
      (start_vcpus threads terminal (1 ∷ 2 ∷ 3 ∷ []) not_started)
start_vcpus-drop_vmm_example =
    start_vcpus-drop_vmm threads terminal watched (1 ∷ 2 ∷ 3 ∷ []) not_started refl refl

-- two threads end, and two threads of three never do
two_end :
    bind_run
      (drop_vmm threads terminal (start_vcpus threads terminal (1 ∷ 2 ∷ []) not_started).1)
      (λ w. returned w.ended)
    ≡ returned (11 ∷ 12 ∷ [])
unfolding start_vcpus drop_vmm start_each finish_each join_each
two_end = refl

three_hang :
    drop_vmm threads terminal (start_vcpus threads terminal (1 ∷ 2 ∷ 3 ∷ []) not_started).1
    ≡ out_of_fuel
unfolding start_vcpus drop_vmm start_each finish_each join_each
three_hang = refl
