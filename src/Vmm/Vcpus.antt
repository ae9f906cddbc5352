-- ===== src/Vmm/Vcpus.antt =====
-- lib.rs: commands to the vCPU threads. `World` holds the channels to the threads and the devices.
pub mod Commands
use herm_os_test.Prelude.{
  ℕ, Bool, true, false, List, [], ◌∷◌, Outcome, ok, err, if◌then◌else◌, ◌>>=◌,
}

pub data VcpuEvent : Type 0 where
  resume pause save_state dump_cpu_config finish : VcpuEvent

-- `VcpuResponse`, with the exit codes left out: the state, the configuration, the error, the reason
pub data VcpuResponse (S C E R : Type 0) : Type 0 where
  resumed paused exited : VcpuResponse S C E R
  saved_state : S → VcpuResponse S C E R
  dumped_cpu_config : C → VcpuResponse S C E R
  error : E → VcpuResponse S C E R
  not_allowed : R → VcpuResponse S C E R

pub data VmState : Type 0 where
  not_started running paused_vm : VmState

pub record VcpuHost : Type 1 where
  pub World : Type 0
  pub Handle : Type 0
  pub SendError : Type 0
  pub Saved : Type 0
  pub Config : Type 0
  pub VcpuError : Type 0
  pub Reason : Type 0
  -- `VcpuHandle::send_event`, and `recv_timeout` on its response channel
  pub send_event : Handle → VcpuEvent → World → Outcome SendError (Unit {0}) × World
  pub recv_timeout :
      Handle → World → Outcome (Unit {0}) (VcpuResponse Saved Config VcpuError Reason) × World
  -- `DeviceManager::kick_virtio_devices`
  pub kick_virtio_devices : World → World

pub record Vmm (v : VcpuHost) : Type 0 where
  pub state : VmState
  pub vcpus_handles : List v.Handle
  pub world : v.World

-- the variants of `VmmError` and of `MicrovmStateError` and `DumpCpuConfigError`
pub data CommandError (v : VcpuHost) : Type 0 where
  vcpu_message : CommandError v
  signal_vcpu : v.SendError → CommandError v
  unexpected_vcpu_response : CommandError v
  vcpu_failed : v.VcpuError → CommandError v
  vcpu_not_allowed : v.Reason → CommandError v

module _ (v : VcpuHost) where
  open v use {
    World, Handle, SendError, Saved, Config, VcpuError, Reason, send_event, recv_timeout,
    kick_virtio_devices,
  }

  abbrev pub Response : Type 0
  Response = VcpuResponse Saved Config VcpuError Reason

  -- `try_for_each(|handle| handle.send_event(event))`: the first error ends it
  unfoldable pub send_all : VcpuEvent → List Handle → World → Outcome SendError (Unit {0}) × World
  send_all event [] w = (ok tt, w)
  send_all event (x ∷ xs) w =
      let (sent, w') = send_event x event w in
      let rest = send_all event xs w' in elim sent [ ok _ ↦ rest | err e ↦ (err e, w') ]

  -- `!any(|response| !matches!(response, Ok(expected)))`: the first other answer ends it
  unfoldable pub all_answer : (Response → Bool) → List Handle → World → Bool × World
  all_answer expected [] w = (true, w)
  all_answer expected (x ∷ xs) w =
      let (got, w') = recv_timeout x w in
      let rest = all_answer expected xs w' in
      elim got [
        | ok response ↦ if expected response then rest else (false, w')
        | err _ ↦ (false, w')
      ]

  abbrev pub is_resumed : Response → Bool
  is_resumed resumed = true
  is_resumed _ = false

  abbrev pub is_paused : Response → Bool
  is_paused paused = true
  is_paused _ = false

  abbrev pub Reply : Type 0
  Reply = Outcome (CommandError v) (Unit {0}) × Vmm v

  abbrev pub after_answers : VmState → Vmm v → Bool × World → Reply
  after_answers next s (true, w) = (ok tt, record s { world = w; state = next })
  after_answers next s (false, w) = (err vcpu_message, record s { world = w })

  abbrev pub after_sends :
      (Response → Bool) → VmState → Vmm v → Outcome SendError (Unit {0}) × World → Reply
  after_sends expected next s (err e, w) = (err vcpu_message, record s { world = w })
  after_sends expected next s (ok _, w) =
      after_answers next s (all_answer expected s.vcpus_handles w)

  -- sends `event` to all, checks all answers, and sets the state
  abbrev pub command : VcpuEvent → (Response → Bool) → VmState → Vmm v → Reply
  command event expected next s =
      after_sends expected next s (send_all event s.vcpus_handles s.world)

  unfoldable pub kick_virtio_devices_for_resume : Vmm v → Vmm v
  kick_virtio_devices_for_resume s = record s { world = kick_virtio_devices s.world }

  unfoldable pub resume_vcpus_after_kick : Vmm v → Reply
  resume_vcpus_after_kick s = command resume is_resumed running s

  unfoldable pub resume_vm : Vmm v → Reply
  resume_vm s = command resume is_resumed running (record s { world = kick_virtio_devices s.world })

  unfoldable pub pause_vm : Vmm v → Reply
  pause_vm s = command pause is_paused paused_vm s

  abbrev pub Collected : Type 0
  Collected = Outcome (Unit {0}) (List Response) × World

  abbrev pub cons_response : Response → Collected → Collected
  cons_response response (ok responses, w) = (ok (response ∷ responses), w)
  cons_response response (err e, w) = (err e, w)

  abbrev pub after_recv : Outcome (Unit {0}) Response × World → Collected → Collected
  after_recv (ok response, w) rest = cons_response response rest
  after_recv (err e, w) rest = (err e, w)

  -- `collect::<Result<Vec<_>, _>>()` of the answers: the first timeout ends it
  unfoldable pub collect_responses : List Handle → World → Collected
  collect_responses [] w = (ok [], w)
  collect_responses (x ∷ xs) w =
      let got = recv_timeout x w in after_recv got (collect_responses xs got.1)

  -- the same on the answers that came, each read by `f`
  unfoldable pub collect_map :
      {A : Type 0}
      → (Response → Outcome (CommandError v) A)
      → List Response
      → Outcome (CommandError v) (List A)
  collect_map f [] = ok []
  collect_map f (x ∷ xs) = f x >>= λ a. collect_map f xs >>= λ as'. ok (a ∷ as')

  abbrev pub saved : Response → Outcome (CommandError v) Saved
  saved (saved_state s) = ok s
  saved (error e) = err (vcpu_failed e)
  saved (not_allowed r) = err (vcpu_not_allowed r)
  saved _ = err unexpected_vcpu_response

  abbrev pub dumped : Response → Outcome (CommandError v) Config
  dumped (dumped_cpu_config c) = ok c
  dumped (error e) = err (vcpu_failed e)
  dumped (not_allowed r) = err (vcpu_not_allowed r)
  dumped _ = err unexpected_vcpu_response

  abbrev pub after_responses :
      {A : Type 0}
      → (Response → Outcome (CommandError v) A)
      → Vmm v
      → Outcome (Unit {0}) (List Response) × World
      → Outcome (CommandError v) (List A) × Vmm v
  after_responses f s (err e, w) = (err unexpected_vcpu_response, record s { world = w })
  after_responses f s (ok responses, w) = (collect_map f responses, record s { world = w })

  abbrev pub after_signals :
      {A : Type 0}
      → (Response → Outcome (CommandError v) A)
      → Vmm v
      → Outcome SendError (Unit {0}) × World
      → Outcome (CommandError v) (List A) × Vmm v
  after_signals f s (err e, w) = (err (signal_vcpu e), record s { world = w })
  after_signals f s (ok _, w) = after_responses f s (collect_responses s.vcpus_handles w)

  abbrev pub gather :
      {A : Type 0}
      → VcpuEvent
      → (Response → Outcome (CommandError v) A)
      → Vmm v
      → Outcome (CommandError v) (List A) × Vmm v
  gather event f s = after_signals f s (send_all event s.vcpus_handles s.world)

  unfoldable pub save_vcpu_states : Vmm v → Outcome (CommandError v) (List Saved) × Vmm v
  save_vcpu_states = gather save_state saved

  unfoldable pub dump_cpu_configs : Vmm v → Outcome (CommandError v) (List Config) × Vmm v
  dump_cpu_configs = gather dump_cpu_config dumped
