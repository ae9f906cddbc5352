-- ===== src/Vmm/Vcpus/Commands.antt =====
-- When a command to the vCPUs succeeds, and what it leaves.
use mathlib.Core.Path.{subst}
use herm_os_test.Prelude.{
  ℕ, suc, ◌≡◌, ◌⊎◌, ◌↔◌, inl, inr, refl, sym, ◌∙◌, Bool-cases, Outcome-cases, ap, Bool, true, false,
  List, [], ◌∷◌, map, >>=-eq-ok, ok-injective, Outcome, ok, err, arith, length,
}
use herm_os_test.Vmm.Vcpus.{
  VcpuEvent, VcpuResponse, VmState, VcpuHost, Vmm, CommandError, send_all, all_answer, command,
  gather, collect_responses, collect_map, kick_virtio_devices_for_resume, resume_vcpus_after_kick,
  resume_vm, pause_vm, save_vcpu_states, dump_cpu_configs,
}
use herm_os_test.Vmm.Vcpus

module _ (v : VcpuHost) where
  open v use {World, Handle, SendError}

  -- every vCPU takes the event, one after the other, from `w` to `w'`
  abbrev pub Taken : VcpuEvent → List Handle → World → World → Type 0
  Taken event [] w w' = w' ≡ w
  Taken event (x ∷ xs) w w' =
      ((v.send_event x event w).0 ≡ ok tt) × Taken event xs (v.send_event x event w).1 w'

  -- every vCPU gives this response, one after the other, in time
  abbrev pub Agreed : Vcpus.Response v → List Handle → World → Type 0
  Agreed response [] w = Unit {0}
  Agreed response (x ∷ xs) w =
      ((v.recv_timeout x w).0 ≡ ok response) × Agreed response xs (v.recv_timeout x w).1

  abbrev pub Obeyed : VcpuEvent → Vcpus.Response v → List Handle → World → Type 0
  Obeyed event response xs w = (w' : World) × Taken event xs w w' × Agreed response xs w'

  send_all-Taken :
      (event : VcpuEvent) (xs : List Handle) (w w' : World)
      → send_all v event xs w ≡ (ok tt, w')
      → Taken event xs w w'
  unfolding send_all
  send_all-Taken event [] w w' e = sym (ap (λ (p : Outcome SendError (Unit {0}) × World). p.1) e)
  send_all-Taken event (x ∷ xs) w w' e = elim (Outcome-cases (v.send_event x event w).0) [
    | inl (a, sent) ↦ (sent, send_all-Taken event xs _ w' (rw (send_all, sent) at e))
    | inr (z, bad) ↦ absurd (ground (arith, rw (send_all, bad) at e))
  ]

  Taken-send_all :
      (event : VcpuEvent) (xs : List Handle) (w w' : World)
      → Taken event xs w w'
      → send_all v event xs w ≡ (ok tt, w')
  unfolding send_all
  Taken-send_all event [] w w' e = ap (λ (u : World). (ok tt, u)) (sym e)
  Taken-send_all event (x ∷ xs) w w' (sent, rest) =
      rw (send_all, sent) (Taken-send_all event xs (v.send_event x event w).1 w' rest)

  module _ (expected : Vcpus.Response v → Bool) (response : Vcpus.Response v)
      (yes : expected response ≡ true)
      (only : (r : Vcpus.Response v) → expected r ≡ true → r ≡ response) where
    all_answer-Agreed :
        (xs : List Handle) (w : World)
        → (all_answer v expected xs w).0 ≡ true
        → Agreed response xs w
    unfolding all_answer
    all_answer-Agreed [] w e = tt
    all_answer-Agreed (x ∷ xs) w e = elim (Outcome-cases (v.recv_timeout x w).0) [
      | inl (r, got) ↦ elim (Bool-cases (expected r)) [
        | inl same ↦ (
          got ∙ ap ok (only r same),
          all_answer-Agreed xs (v.recv_timeout x w).1 (rw (all_answer, got, same) at e),
        )
        | inr other ↦ absurd (ground (arith, rw (all_answer, got, other) at e))
      ]
      | inr (z, late) ↦ absurd (ground (arith, rw (all_answer, late) at e))
    ]

    Agreed-all_answer :
        (xs : List Handle) (w : World)
        → Agreed response xs w
        → (all_answer v expected xs w).0 ≡ true
    unfolding all_answer
    Agreed-all_answer [] w e = refl
    Agreed-all_answer (x ∷ xs) w (got, rest) =
        rw (all_answer, got, yes) (Agreed-all_answer xs (v.recv_timeout x w).1 rest)

    after_sends_iff :
        (next : VmState) (s : Vmm v) (sent : Outcome SendError (Unit {0}) × World)
        → ((Vcpus.after_sends v expected next s sent).0 ≡ ok tt)
          ↔ ((sent.0 ≡ ok tt) × ((all_answer v expected s.vcpus_handles sent.1).0 ≡ true))
    after_sends_iff next s (err e, w) =
        (λ h. absurd (ground (arith, h)), λ h. absurd (ground (arith, h.0)))
    after_sends_iff next s (ok _, w) = answered (all_answer v expected s.vcpus_handles w)
      where
        answered :
            (a : Bool × World)
            → ((Vcpus.after_answers v next s a).0 ≡ ok tt)
              ↔ (◌≡◌ {A = Outcome SendError (Unit {0})} (ok tt) (ok tt) × (a.0 ≡ true))
        answered (true, w) = (λ h. (refl, refl), λ h. refl)
        answered (false, w) = (λ h. absurd (ground (arith, h)), λ h. absurd (ground (arith, h.1)))

    command_iff :
        (event : VcpuEvent) (next : VmState) (s : Vmm v)
        → ((command v event expected next s).0 ≡ ok tt)
          ↔ Obeyed event response s.vcpus_handles s.world
    command_iff event next s =
        let sent = send_all v event s.vcpus_handles s.world in
        let (there, back) = after_sends_iff next s sent in
        (
          λ h.
              let (took, answered) = there h in
              (
                sent.1,
                send_all-Taken event s.vcpus_handles s.world sent.1
                    (ap (λ (o : Outcome SendError (Unit {0})). (o, sent.1)) took),
                all_answer-Agreed s.vcpus_handles sent.1 answered,
              ),
          λ h.
              let (w', took, agreed) = h in
              let all = Taken-send_all event s.vcpus_handles s.world w' took in
              back (
                ap (λ (o : Outcome SendError (Unit {0}) × World). o.0) all,
                ap
                      (λ (o : Outcome SendError (Unit {0}) × World).
                        (all_answer v expected s.vcpus_handles o.1).0)
                      all
                    ∙ Agreed-all_answer s.vcpus_handles w' agreed,
              ),
        )

  resumed_only : (r : Vcpus.Response v) → Vcpus.is_resumed v r ≡ true → r ≡ VcpuResponse.resumed
  resumed_only VcpuResponse.resumed e = refl
  resumed_only VcpuResponse.paused e = cc
  resumed_only VcpuResponse.exited e = cc
  resumed_only (VcpuResponse.saved_state c) e = cc
  resumed_only (VcpuResponse.dumped_cpu_config c) e = cc
  resumed_only (VcpuResponse.error x) e = cc
  resumed_only (VcpuResponse.not_allowed x) e = cc

  paused_only : (r : Vcpus.Response v) → Vcpus.is_paused v r ≡ true → r ≡ VcpuResponse.paused
  paused_only VcpuResponse.resumed e = cc
  paused_only VcpuResponse.paused e = refl
  paused_only VcpuResponse.exited e = cc
  paused_only (VcpuResponse.saved_state c) e = cc
  paused_only (VcpuResponse.dumped_cpu_config c) e = cc
  paused_only (VcpuResponse.error x) e = cc
  paused_only (VcpuResponse.not_allowed x) e = cc

  -- the reply is `ok` and the state is `next`, or it is the error and the state is the old one
  abbrev pub Settles : VmState → Vmm v → Vcpus.Reply v → Type 0
  Settles next s r =
      (r.1.vcpus_handles ≡ s.vcpus_handles)
      × (((r.0 ≡ ok tt) × (r.1.state ≡ next))
          ⊎ ((r.0 ≡ err CommandError.vcpu_message) × (r.1.state ≡ s.state)))

  after_answers-Settles :
      (next : VmState) (s : Vmm v) (answers : Bool × World)
      → Settles next s (Vcpus.after_answers v next s answers)
  after_answers-Settles next s (true, w) = (refl, inl (refl, refl))
  after_answers-Settles next s (false, w) = (refl, inr (refl, refl))

  after_sends-Settles :
      (expected : Vcpus.Response v → Bool) (next : VmState) (s : Vmm v)
      (sent : Outcome SendError (Unit {0}) × World)
      → Settles next s (Vcpus.after_sends v expected next s sent)
  after_sends-Settles expected next s (err e, w) = (refl, inr (refl, refl))
  after_sends-Settles expected next s (ok _, w) =
      after_answers-Settles next s (all_answer v expected s.vcpus_handles w)

  -- Kicking the devices and then resuming the vCPUs is `resume_vm`: the same reply and the same
  -- state and world, on success and on error.
  pub resume_vcpus_after_kick-kick :
      (s : Vmm v) → resume_vcpus_after_kick v (kick_virtio_devices_for_resume v s) ≡ resume_vm v s
  unfolding resume_vcpus_after_kick kick_virtio_devices_for_resume resume_vm
  resume_vcpus_after_kick-kick s = refl

  -- Resuming, after it has kicked the devices, succeeds exactly when every vCPU takes the event and then
  -- every vCPU answers in time that it is resumed; pausing the same, with paused, and without the kick.
  -- Both keep the handles, and change the state of the VM to the one asked for exactly when they report
  -- success; on an error the state is the old one.
  pub resume_vm-pause_vm-Settles :
      (s : Vmm v)
      → Settles VmState.running s (resume_vm v s)
        × (((resume_vm v s).0 ≡ ok tt)
            ↔ Obeyed VcpuEvent.resume VcpuResponse.resumed s.vcpus_handles
                (v.kick_virtio_devices s.world))
        × Settles VmState.paused_vm s (pause_vm v s)
        × (((pause_vm v s).0 ≡ ok tt)
            ↔ Obeyed VcpuEvent.pause VcpuResponse.paused s.vcpus_handles s.world)
  unfolding resume_vm pause_vm
  resume_vm-pause_vm-Settles s =
      let w = v.kick_virtio_devices s.world in
      let kicked : Vmm v = record s { world = w } in
      (
        after_sends-Settles (Vcpus.is_resumed v) VmState.running kicked
            (send_all v VcpuEvent.resume s.vcpus_handles w),
        command_iff (Vcpus.is_resumed v) VcpuResponse.resumed refl resumed_only VcpuEvent.resume
            VmState.running kicked,
        after_sends-Settles (Vcpus.is_paused v) VmState.paused_vm s
            (send_all v VcpuEvent.pause s.vcpus_handles s.world),
        command_iff (Vcpus.is_paused v) VcpuResponse.paused refl paused_only VcpuEvent.pause
            VmState.paused_vm s,
      )

  cons : {A : Type 0} {x y : A} {xs ys : List A} → x ≡ y → xs ≡ ys → (x ∷ xs) ≡ (y ∷ ys)
  cons p q = cc

  -- `states` are what the responses of all the vCPUs carry, in their order
  collect_map-reads :
      {A : Type 0} (f : Vcpus.Response v → Outcome (CommandError v) A) (g : A → Vcpus.Response v)
      (reads : (r : Vcpus.Response v) (a : A) → f r ≡ ok a → r ≡ g a) (rs : List (Vcpus.Response v))
      (as' : List A)
      → collect_map v f rs ≡ ok as'
      → rs ≡ map g as'
  unfolding collect_map
  collect_map-reads f g reads [] as' e = subst (λ o. [] ≡ map g o) (ok-injective e) refl
  collect_map-reads f g reads (r ∷ rs) as' e =
      let (a, one, more) = >>=-eq-ok (f r) _ e in
      let (rest, others, whole) = >>=-eq-ok (collect_map v f rs) _ more in
      subst (λ o. (r ∷ rs) ≡ map g o) (ok-injective whole)
        (cons (reads r a one) (collect_map-reads f g reads rs rest others))

  saved-eq-ok :
      (r : Vcpus.Response v) (a : v.Saved) → Vcpus.saved v r ≡ ok a → r ≡ VcpuResponse.saved_state a
  saved-eq-ok (VcpuResponse.saved_state s) a e = ap VcpuResponse.saved_state (ok-injective e)
  saved-eq-ok VcpuResponse.resumed a e = cc
  saved-eq-ok VcpuResponse.paused a e = cc
  saved-eq-ok VcpuResponse.exited a e = cc
  saved-eq-ok (VcpuResponse.dumped_cpu_config c) a e = cc
  saved-eq-ok (VcpuResponse.error x) a e = cc
  saved-eq-ok (VcpuResponse.not_allowed x) a e = cc

  dumped-eq-ok :
      (r : Vcpus.Response v) (a : v.Config)
      → Vcpus.dumped v r ≡ ok a
      → r ≡ VcpuResponse.dumped_cpu_config a
  dumped-eq-ok (VcpuResponse.dumped_cpu_config s) a e =
      ap VcpuResponse.dumped_cpu_config (ok-injective e)
  dumped-eq-ok VcpuResponse.resumed a e = cc
  dumped-eq-ok VcpuResponse.paused a e = cc
  dumped-eq-ok VcpuResponse.exited a e = cc
  dumped-eq-ok (VcpuResponse.saved_state c) a e = cc
  dumped-eq-ok (VcpuResponse.error x) a e = cc
  dumped-eq-ok (VcpuResponse.not_allowed x) a e = cc

  after_collect-length :
      (x : Handle) (r : Vcpus.Response v)
      (rest : Outcome (Unit {0}) (List (Vcpus.Response v)) × World) (n : ℕ)
      → ((rs : List (Vcpus.Response v)) → rest.0 ≡ ok rs → length rs ≡ n)
      → (rs : List (Vcpus.Response v)) → (Vcpus.cons_response v r rest).0 ≡ ok rs
      → length rs ≡ suc n
  after_collect-length x r (ok got, w) n ih rs e =
      subst (λ o. length o ≡ suc n) (ok-injective e) (ap suc (ih got refl))
  after_collect-length x r (err z, w) n ih rs e = cc

  after_recv-length :
      (x : Handle) (got : Outcome (Unit {0}) (Vcpus.Response v) × World)
      (rest : Outcome (Unit {0}) (List (Vcpus.Response v)) × World) (n : ℕ)
      → ((rs : List (Vcpus.Response v)) → rest.0 ≡ ok rs → length rs ≡ n)
      → (rs : List (Vcpus.Response v)) → (Vcpus.after_recv v got rest).0 ≡ ok rs
      → length rs ≡ suc n
  after_recv-length x (ok r, w) rest n ih rs e = after_collect-length x r rest n ih rs e
  after_recv-length x (err z, w) rest n ih rs e = cc

  collect_responses-length :
      (hs : List Handle) (w : World) (rs : List (Vcpus.Response v))
      → (collect_responses v hs w).0 ≡ ok rs
      → length rs ≡ length hs
  unfolding collect_responses
  collect_responses-length [] w rs e = subst (λ o. length o ≡ 0) (ok-injective e) refl
  collect_responses-length (x ∷ hs) w rs e =
      after_recv-length x (v.recv_timeout x w) _ (length hs)
        (collect_responses-length hs (v.recv_timeout x w).1) rs e

  length-map : {A B : Type 0} (g : A → B) (xs : List A) → length (map g xs) ≡ length xs
  length-map g [] = refl
  length-map g (x ∷ xs) = ap suc (length-map g xs)

  -- every vCPU took the event, and answered with what `g` makes of its element of `as'`
  abbrev pub AllAnswered :
      {A : Type 0} → VcpuEvent → (A → Vcpus.Response v) → Vmm v → List A → Type 0
  AllAnswered event g s as' =
      (length as' ≡ length s.vcpus_handles)
      × ((w : World) × (send_all v event s.vcpus_handles s.world ≡ (ok tt, w))
          × ((collect_responses v s.vcpus_handles w).0 ≡ ok (map g as')))

  after_responses-reads :
      {A : Type 0} (f : Vcpus.Response v → Outcome (CommandError v) A) (g : A → Vcpus.Response v)
      (reads : (r : Vcpus.Response v) (a : A) → f r ≡ ok a → r ≡ g a) (s : Vmm v)
      (got : Outcome (Unit {0}) (List (Vcpus.Response v)) × World) (as' : List A)
      → (Vcpus.after_responses v f s got).0 ≡ ok as'
      → got.0 ≡ ok (map g as')
  after_responses-reads f g reads s (err e, w) as' run = cc
  after_responses-reads f g reads s (ok rs, w) as' run =
      ap ok (collect_map-reads f g reads rs as' run)

  after_signals-AllAnswered :
      {A : Type 0} (f : Vcpus.Response v → Outcome (CommandError v) A) (g : A → Vcpus.Response v)
      (reads : (r : Vcpus.Response v) (a : A) → f r ≡ ok a → r ≡ g a) (s : Vmm v)
      (sent : Outcome SendError (Unit {0}) × World) (as' : List A)
      → (Vcpus.after_signals v f s sent).0 ≡ ok as'
      → (length as' ≡ length s.vcpus_handles)
        × ((w : World) × (sent ≡ (ok tt, w))
            × ((collect_responses v s.vcpus_handles w).0 ≡ ok (map g as')))
  after_signals-AllAnswered f g reads s (err e, w) as' run = cc
  after_signals-AllAnswered f g reads s (ok _, w) as' run =
      let got = after_responses-reads f g reads s (collect_responses v s.vcpus_handles w) as' run in
      let count = collect_responses-length s.vcpus_handles w (map g as') got in
      (omega (arith, count, length-map g as'), (w, refl, got))

  -- When saving the vCPU states succeeds, there is one state for each vCPU, in the order of the
  -- handles: every vCPU took the event and answered with that saved state.
  pub save_vcpu_states-AllAnswered :
      (s : Vmm v) (states : List v.Saved)
      → (save_vcpu_states v s).0 ≡ ok states
      → AllAnswered VcpuEvent.save_state VcpuResponse.saved_state s states
  unfolding save_vcpu_states
  save_vcpu_states-AllAnswered s states run =
      after_signals-AllAnswered (Vcpus.saved v) VcpuResponse.saved_state saved-eq-ok s
        (send_all v VcpuEvent.save_state s.vcpus_handles s.world) states run

  -- When dumping the CPU configurations succeeds, there is one configuration for each vCPU, in the
  -- order of the handles: every vCPU took the event and answered with that configuration.
  pub dump_cpu_configs-AllAnswered :
      (s : Vmm v) (configs : List v.Config)
      → (dump_cpu_configs v s).0 ≡ ok configs
      → AllAnswered VcpuEvent.dump_cpu_config VcpuResponse.dumped_cpu_config s configs
  unfolding dump_cpu_configs
  dump_cpu_configs-AllAnswered s configs run =
      after_signals-AllAnswered (Vcpus.dumped v) VcpuResponse.dumped_cpu_config dumped-eq-ok s
        (send_all v VcpuEvent.dump_cpu_config s.vcpus_handles s.world) configs run
