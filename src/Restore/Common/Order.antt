-- ===== src/Restore/Common/Order.antt =====
-- In which order a VM is built from a snapshot.
use mathlib.Core.Path.{subst}
use herm_os_test.Prelude.{
  u64_mod, ℕ, ◌<◌, ◌≡◌, refl, sym, ap, ◌∙◌, Bool, Bool-cases, inl, inr, List, [], ◌∷◌, ◌++◌,
  Outcome, ok, err, arith, ltb, length,
}
use herm_os_test.Restore.Kvm.{StepError, KvmHost, VmInfo}
use herm_os_test.Restore.Common.{
  Step, wrapped, build_kvm, build_vm, vcpu_count, vm_resources_from_state, resources_of, first_tsc,
  restore_vcpu_states, DeviceRestoreContext, context_of, fill_vm, build_device_restore_context,
  Resources,
}
use herm_os_test.Restore.Common.Calls.{
  Call, new_kvm_call, new_vm_call, create_vcpus_call, memory_regions_call, restore_vm_call,
  new_manager_call, Logged, vcpu_calls, tsc_calls, Wrote, Wrote-trans, Requires, call-ok, after-ok,
  wrapped-ok, done-injective, restore_vcpu_states-Wrote,
}

module _ {World : Type 0} (k : KvmHost World) (l : Logged k) where
  open l use {log, log-kvm, log-vm, log-vcpus, log-regions, log-state, log-manager}

  vcpu_count-ok :
      (s : k.MicrovmState) (n : ℕ)
      → vcpu_count k s ≡ ok n
      → (n ≡ length (k.vcpu_states s)) × (n < 256)
  unfolding vcpu_count
  vcpu_count-ok s n e = elim (Bool-cases (ltb (length (k.vcpu_states s)) 256)) [
    | inl fits ↦ (ground (arith, fits, e), ground (arith, fits, e))
    | inr over ↦ absurd (ground (arith, over, e))
  ]

  resources_of-count :
      (n : ℕ) (info : VmInfo k.Template k.HugePages k.BootSource) (r : Resources k)
      → resources_of k n info ≡ ok r
      → r.vcpu_count ≡ n
  resources_of-count n info r e = elim (Bool-cases (ltb info.mem_size_mib u64_mod)) [
    | inl fits ↦ ground (arith, fits, e)
    | inr over ↦ absurd (ground (arith, over, e))
  ]

  vm_resources-count :
      (s : k.MicrovmState) (r : Resources k)
      → vm_resources_from_state k s ≡ ok r
      → r.vcpu_count ≡ length (k.vcpu_states s)
  unfolding vm_resources_from_state
  vm_resources-count s r e = counted (vcpu_count k s) (vcpu_count-ok s) e
    where
      counted :
          (o : Outcome (StepError k.CallError) ℕ)
          → ((n : ℕ) → o ≡ ok n → (n ≡ length (k.vcpu_states s)) × (n < 256))
          → elim o [ ok count ↦ resources_of k count (k.vm_info s) | err x ↦ err x ] ≡ ok r
          → r.vcpu_count ≡ length (k.vcpu_states s)
      counted (ok n) right e = resources_of-count n (k.vm_info s) r e ∙ (right n refl).0
      counted (err x) right e = absurd (ground (arith, e))

  -- the calls of a build, in their order
  pub build_calls :
      k.MicrovmState → k.GuestMemory → k.Kvm → k.Vm → List k.Vcpu → Bool → List (Call k)
  build_calls s m kvm vm vcpus required =
      new_kvm_call (k.kvm_cap_modifiers s)
      ∷ new_vm_call kvm
      ∷ create_vcpus_call vm (length (k.vcpu_states s))
      ∷ memory_regions_call vm m
      ∷ ((tsc_calls k (first_tsc k (k.vcpu_states s)) vcpus required
            ++ vcpu_calls k vcpus (k.vcpu_states s))
          ++ (restore_vm_call vm (k.vm_state s) ∷ new_manager_call ∷ []))

  context_of-Wrote :
      (s : k.MicrovmState) (vm : k.Vm) (exit_evt : k.EventFd) (w w' : World)
      (c : DeviceRestoreContext k)
      → context_of k s vm exit_evt w ≡ (ok c, w')
      → Wrote k l w w' (new_manager_call ∷ [])
        × (c.vm ≡ vm)
        × (c.microvm_state ≡ s)
        × (c.vm_resources.vcpu_count ≡ length (k.vcpu_states s))
  context_of-Wrote s vm exit_evt w w' c e =
      let (r, resources, made) = after-ok k l (vm_resources_from_state k s, w) _ c w' e in
      let (manager, called, same) = call-ok k l _ (k.new_event_manager w) _ c w' made in
      let count : r.vcpu_count ≡ length (k.vcpu_states s) =
        vm_resources-count s r (ap (λ (o : Step k (Resources k)). o.0) resources) in
      let (field, world) = done-injective k l _ c _ w' same in
      (
        ap log (sym world) ∙ log-manager w,
        ap (λ (x : DeviceRestoreContext k). x.vm) (sym field),
        ap (λ (x : DeviceRestoreContext k). x.microvm_state) (sym field),
        ap (λ (x : DeviceRestoreContext k). x.vm_resources.vcpu_count) (sym field) ∙ count,
      )

  -- from the creation of the vCPUs on
  filled : k.MicrovmState → k.GuestMemory → k.Vm → List k.Vcpu → Bool → List (Call k)
  filled s m vm vcpus required =
      memory_regions_call vm m
      ∷ ((tsc_calls k (first_tsc k (k.vcpu_states s)) vcpus required
            ++ vcpu_calls k vcpus (k.vcpu_states s))
          ++ (restore_vm_call vm (k.vm_state s) ∷ new_manager_call ∷ []))

  fill_vm-Wrote :
      (s : k.MicrovmState) (m : k.GuestMemory) (vm : k.Vm) (made : List k.Vcpu × k.EventFd)
      (w w' : World) (c : DeviceRestoreContext k)
      → fill_vm k s m vm made w ≡ (ok c, w')
      → (required : Bool) × Requires k l
          (first_tsc k (k.vcpu_states s))
          made.0
          required
          (k.restore_memory_regions vm m (k.memory (k.vm_state s)) w).1
        × Wrote k l w w' (filled s m vm made.0 required)
        × (c.vm ≡ vm)
        × (c.microvm_state ≡ s)
        × (c.vm_resources.vcpu_count ≡ length (k.vcpu_states s))
  unfolding filled
  fill_vm-Wrote s m vm made w w' c e =
      let w1 = (k.restore_memory_regions vm m (k.memory (k.vm_state s)) w).1 in
      let (_, regions, rest) =
        call-ok k l _ (k.restore_memory_regions vm m (k.memory (k.vm_state s)) w) _ c w' e in
      let o : Step k (Unit {0}) = wrapped k (restore_vcpu_states k made.0 s w1) in
      let (_, states, rest) = after-ok k l o _ c w' rest in
      let w2 = o.1 in
      let (required, asked, wrote) =
        restore_vcpu_states-Wrote k l made.0 s w1 w2
          (wrapped-ok k l (restore_vcpu_states k made.0 s w1) tt w2 states) in
      let (_, restored, rest) = call-ok k l _ (k.restore_vm vm (k.vm_state s) w2) _ c w' rest in
      let w3 = (k.restore_vm vm (k.vm_state s) w2).1 in
      let (last, same_vm, same_state, count) = context_of-Wrote s vm made.1 w3 w' c rest in
      (
        required,
        asked,
        Wrote-trans k l w w1 w' (memory_regions_call vm m ∷ []) _
            (log-regions vm m (k.memory (k.vm_state s)) w)
            (Wrote-trans k l w1 w2 w' _ _ wrote (
              Wrote-trans k l w2 w3 w' (restore_vm_call vm (k.vm_state s) ∷ []) _
                (log-state vm (k.vm_state s) w2) last)),
        same_vm,
        same_state,
        count,
      )

  build_vm-Wrote :
      (caps : k.Caps) (w w' : World) (vm : k.Vm)
      → build_vm k caps w ≡ (ok vm, w')
      → (kvm : k.Kvm) × ((k.new_kvm caps w).0 ≡ ok kvm)
        × ((k.new_vm kvm (k.new_kvm caps w).1).0 ≡ ok vm)
        × (w' ≡ (k.new_vm kvm (k.new_kvm caps w).1).1)
        × Wrote k l w w' (new_kvm_call caps ∷ new_vm_call kvm ∷ [])
  unfolding build_vm build_kvm
  build_vm-Wrote caps w w' vm e =
      let made : Step k k.Kvm = build_kvm k caps w in
      let (kvm, built, rest) = after-ok k l made _ vm w' e in
      let (kvm', called, fresh) = call-ok k l _ (k.new_kvm caps w) _ kvm made.1 built in
      let (vm', called', same) = call-ok k l _ (k.new_vm kvm made.1) _ vm w' rest in
      let (one, at) = done-injective k l _ kvm _ made.1 fresh in
      let (two, last) = done-injective k l _ vm _ w' same in
      let first : Wrote k l w made.1 (new_kvm_call caps ∷ []) = ap log (sym at) ∙ log-kvm caps w in
      let second : Wrote k l made.1 w' (new_vm_call kvm ∷ []) =
        ap log (sym last) ∙ log-vm kvm made.1 in
      (
        kvm,
        called ∙ ap ok one,
        ap (λ v. (k.new_vm kvm v).0) at ∙ called' ∙ ap ok two,
        sym last ∙ ap (λ v. (k.new_vm kvm v).1) (sym at),
        Wrote-trans k l w made.1 w' _ _ first second,
      )

  -- What was answered: the KVM and the VM that were made, the vCPUs that were created in it, as many as
  -- there are states, and whether the first of them, asked once the memory is there, requires scaling.
  abbrev pub Answered :
      k.MicrovmState → k.GuestMemory → World → k.Kvm → k.Vm → List k.Vcpu → Bool → Type 0
  Answered s m w kvm vm vcpus required =
      let w1 = (k.new_kvm (k.kvm_cap_modifiers s) w).1 in
      let created = k.create_vcpus vm (length (k.vcpu_states s)) (k.new_vm kvm w1).1 in
      ((k.new_kvm (k.kvm_cap_modifiers s) w).0 ≡ ok kvm)
      × ((k.new_vm kvm w1).0 ≡ ok vm)
      × ((exit_evt : k.EventFd) × (created.0 ≡ ok (vcpus, exit_evt)))
      × Requires k l (first_tsc k (k.vcpu_states s)) vcpus required
          (k.restore_memory_regions vm m (k.memory (k.vm_state s)) created.1).1

  -- When `build_device_restore_context` succeeds, the snapshot has at most 255 vCPUs, which the
  -- resources of the context count, the context has this snapshot, and the calls of KVM were these, in
  -- this order: a KVM, a VM in that KVM, as many vCPUs in that VM as there are states, the memory
  -- regions, the scaling of the clocks of all the vCPUs that were created where the first one answers
  -- that it requires it, every created vCPU with the state of its index, the state of the VM, and the
  -- event manager.
  pub build_device_restore_context-order :
      (s : k.MicrovmState) (m : k.GuestMemory) (w w' : World) (c : DeviceRestoreContext k)
      → build_device_restore_context k s m w ≡ (ok c, w')
      → (kvm : k.Kvm) × (vcpus : List k.Vcpu) × (required : Bool) × Answered s m w kvm c.vm vcpus
          required
        × (log w' ≡ log w ++ build_calls s m kvm c.vm vcpus required)
        × (length (k.vcpu_states s) < 256)
        × (c.vm_resources.vcpu_count ≡ length (k.vcpu_states s))
        × (c.microvm_state ≡ s)
  unfolding build_device_restore_context build_calls filled
  build_device_restore_context-order s m w w' c e =
      let o : Step k k.Vm = build_vm k (k.kvm_cap_modifiers s) w in
      let (vm, built, rest) = after-ok k l o _ c w' e in
      let (kvm, kvm_made, vm_made, at, fresh) =
        build_vm-Wrote (k.kvm_cap_modifiers s) w o.1 vm built in
      let (n, counted, rest) = after-ok k l (vcpu_count k s, o.1) _ c w' rest in
      let (count, small) = vcpu_count-ok s n (ap (λ (x : Step k ℕ). x.0) counted) in
      let (made, called, rest) = call-ok k l _ (k.create_vcpus vm n o.1) _ c w' rest in
      let w2 = (k.create_vcpus vm n o.1).1 in
      let (required, asked, wrote, same_vm, same_state, resources) =
        fill_vm-Wrote s m vm made w2 w' c rest in
      let vcpus : Wrote k l o.1 w2 (create_vcpus_call vm (length (k.vcpu_states s)) ∷ []) =
        log-vcpus vm n o.1 ∙ ap (λ i. log o.1 ++ (create_vcpus_call vm i ∷ [])) count in
      let whole : Wrote k l w w' (build_calls s m kvm vm made.0 required) =
        Wrote-trans k l w o.1 w' _ _ fresh (Wrote-trans k l o.1 w2 w' _ _ vcpus wrote) in
      let u = (k.new_vm kvm (k.new_kvm (k.kvm_cap_modifiers s) w).1).1 in
      let moved : k.create_vcpus vm n o.1 ≡ k.create_vcpus vm (length (k.vcpu_states s)) u =
        ap (λ i. k.create_vcpus vm i o.1) count
        ∙ ap (k.create_vcpus vm (length (k.vcpu_states s))) at in
      let answers : Answered s m w kvm vm made.0 required = (
        kvm_made,
        vm_made,
        (
          made.1,
          ap (λ (p : Outcome k.CallError (List k.Vcpu × k.EventFd) × World). p.0) (sym moved)
              ∙ called,
        ),
        subst
            (λ (p : Outcome k.CallError (List k.Vcpu × k.EventFd) × World).
              Requires k l (first_tsc k (k.vcpu_states s)) made.0 required
                (k.restore_memory_regions vm m (k.memory (k.vm_state s)) p.1).1)
            moved asked,
      ) in
      (
        kvm,
        made.0,
        required,
        subst (λ v. Answered s m w kvm v made.0 required) (sym same_vm) answers,
        subst (λ v. Wrote k l w w' (build_calls s m kvm v made.0 required)) (sym same_vm) whole,
        omega (arith, count, small),
        resources,
        same_state,
      )
