-- ===== src/Restore/Common/Calls.antt =====
-- The log of the calls, and what the restoring of the vCPUs writes to it.
use mathlib.Core.List.{append_assoc, append-nil}
use herm_os_test.Prelude.{
  ok-injective, ℕ, ◌≡◌, refl, sym, ap, ◌∙◌, Bool, true, false, List, [], ◌∷◌, ◌++◌, map, Option,
  none, some, Outcome, ok, err, arith, if◌then◌else◌,
}
use herm_os_test.Restore.Kvm.{StepError, KvmHost}
use herm_os_test.Restore.Common.{
  Step, call, after, wrapped, first_tsc, set_all_tsc, scale_tsc, restore_each, restore_vcpu_states,
}

-- a call that changes the VM or asks KVM
pub data Call {World : Type 0} (k : KvmHost World) : Type 0 where
  new_kvm_call : k.Caps → Call k
  new_vm_call : k.Kvm → Call k
  create_vcpus_call : k.Vm → ℕ → Call k
  memory_regions_call : k.Vm → k.GuestMemory → Call k
  tsc_check_call set_tsc_call : k.Vcpu → ℕ → Call k
  restore_vcpu_call : k.Vcpu → k.VcpuState → Call k
  restore_vm_call : k.Vm → k.VmState → Call k
  new_manager_call : Call k

-- The log of these calls: each writes itself at the end, whether it succeeds or not.
pub record Logged {World : Type 0} (k : KvmHost World) : Type 0 where
  pub log : World → List (Call k)
  pub log-kvm :
      (caps : k.Caps) (w : World) → log (k.new_kvm caps w).1 ≡ log w ++ (new_kvm_call caps ∷ [])
  pub log-vm : (kvm : k.Kvm) (w : World) → log (k.new_vm kvm w).1 ≡ log w ++ (new_vm_call kvm ∷ [])
  pub log-vcpus :
      (vm : k.Vm) (n : ℕ) (w : World)
      → log (k.create_vcpus vm n w).1 ≡ log w ++ (create_vcpus_call vm n ∷ [])
  pub log-regions :
      (vm : k.Vm) (m : k.GuestMemory) (s : k.MemoryState) (w : World)
      → log (k.restore_memory_regions vm m s w).1 ≡ log w ++ (memory_regions_call vm m ∷ [])
  pub log-check :
      (v : k.Vcpu) (khz : ℕ) (w : World)
      → log (k.is_tsc_scaling_required v khz w).1 ≡ log w ++ (tsc_check_call v khz ∷ [])
  pub log-tsc :
      (v : k.Vcpu) (khz : ℕ) (w : World)
      → log (k.set_tsc_khz v khz w).1 ≡ log w ++ (set_tsc_call v khz ∷ [])
  pub log-vcpu :
      (v : k.Vcpu) (s : k.VcpuState) (w : World)
      → log (k.restore_vcpu v s w).1 ≡ log w ++ (restore_vcpu_call v s ∷ [])
  pub log-state :
      (vm : k.Vm) (s : k.VmState) (w : World)
      → log (k.restore_vm vm s w).1 ≡ log w ++ (restore_vm_call vm s ∷ [])
  pub log-manager : (w : World) → log (k.new_event_manager w).1 ≡ log w ++ (new_manager_call ∷ [])

-- the calls that the vCPUs get with their states, as long as there are both
pub vcpu_calls :
    {World : Type 0} → (k : KvmHost World) → List k.Vcpu → List k.VcpuState → List (Call k)
vcpu_calls k [] states = []
vcpu_calls k (v ∷ vcpus) [] = []
vcpu_calls k (v ∷ vcpus) (s ∷ states) = restore_vcpu_call v s ∷ vcpu_calls k vcpus states

-- the calls that scale the clock: one vCPU is asked, and all are set where it is required
pub tsc_calls :
    {World : Type 0} → (k : KvmHost World) → Option ℕ → List k.Vcpu → Bool → List (Call k)
tsc_calls k none vcpus required = []
tsc_calls k (some khz) [] required = []
tsc_calls k (some khz) (v ∷ vcpus) false = tsc_check_call v khz ∷ []
tsc_calls k (some khz) (v ∷ vcpus) true =
    tsc_check_call v khz ∷ map (λ u. set_tsc_call u khz) (v ∷ vcpus)

module _ {World : Type 0} (k : KvmHost World) (l : Logged k) where
  open l use {
    log, log-kvm, log-vm, log-vcpus, log-regions, log-check, log-tsc, log-vcpu, log-state,
    log-manager,
  }

  abbrev pub Wrote : World → World → List (Call k) → Type 0
  Wrote w w' calls = log w' ≡ log w ++ calls

  pub Wrote-trans :
      (w v u : World) (xs ys : List (Call k)) → Wrote w v xs → Wrote v u ys → Wrote w u (xs ++ ys)
  Wrote-trans w v u xs ys first second =
      second ∙ ap (λ h. h ++ ys) first ∙ append_assoc (log w) xs ys

  Wrote-none : (w w' : World) → w ≡ w' → Wrote w w' []
  Wrote-none w w' e = ap log (sym e) ∙ sym (append-nil (log w))

  pub done-injective :
      {A : Type 0} (a b : A) (w v : World)
      → ◌≡◌ {A = Step k A} (ok a, w) (ok b, v)
      → (a ≡ b) × (w ≡ v)
  done-injective a b w v e =
      (ok-injective (ap (λ (p : Step k _). p.0) e), ap (λ (p : Step k _). p.1) e)

  pub call-ok :
      {A B : Type 0} (f : k.CallError → StepError k.CallError) (o : Outcome k.CallError A × World)
      (rest : A → World → Step k B) (b : B) (w : World)
      → call k f o rest ≡ (ok b, w)
      → (a : A) × (o.0 ≡ ok a) × (rest a o.1 ≡ (ok b, w))
  call-ok f (ok a, v) rest b w e = (a, refl, e)
  call-ok f (err x, v) rest b w e = absurd (ground (arith, e))

  pub after-ok :
      {A B : Type 0} (o : Step k A) (rest : A → World → Step k B) (b : B) (w : World)
      → after k o rest ≡ (ok b, w)
      → (a : A) × (o ≡ (ok a, o.1)) × (rest a o.1 ≡ (ok b, w))
  after-ok (ok a, v) rest b w e = (a, refl, e)
  after-ok (err x, v) rest b w e = absurd (ground (arith, e))

  pub wrapped-ok :
      {A : Type 0} (o : Step k A) (a : A) (w : World) → wrapped k o ≡ (ok a, w) → o ≡ (ok a, w)
  wrapped-ok (ok a', v) a w e = e
  wrapped-ok (err x, v) a w e = absurd (ground (arith, e))

  set_all_tsc-Wrote :
      (khz : ℕ) (vcpus : List k.Vcpu) (w w' : World)
      → set_all_tsc k khz vcpus w ≡ (ok tt, w')
      → Wrote w w' (map (λ u. set_tsc_call u khz) vcpus)
  unfolding set_all_tsc
  set_all_tsc-Wrote khz [] w w' e = Wrote-none w w' (done-injective tt tt w w' e).1
  set_all_tsc-Wrote khz (v ∷ vcpus) w w' e =
      let (a, set, rest) = call-ok _ (k.set_tsc_khz v khz w) _ tt w' e in
      Wrote-trans w (k.set_tsc_khz v khz w).1 w' (set_tsc_call v khz ∷ []) _ (log-tsc v khz w)
        (set_all_tsc-Wrote khz vcpus (k.set_tsc_khz v khz w).1 w' rest)

  restore_each-Wrote :
      (vcpus : List k.Vcpu) (states : List k.VcpuState) (w w' : World)
      → restore_each k vcpus states w ≡ (ok tt, w')
      → Wrote w w' (vcpu_calls k vcpus states)
  unfolding restore_each vcpu_calls
  restore_each-Wrote [] states w w' e = Wrote-none w w' (done-injective tt tt w w' e).1
  restore_each-Wrote (v ∷ vcpus) [] w w' e = Wrote-none w w' (done-injective tt tt w w' e).1
  restore_each-Wrote (v ∷ vcpus) (s ∷ states) w w' e =
      let (a, set, rest) = call-ok _ (k.restore_vcpu v s w) _ tt w' e in
      Wrote-trans w (k.restore_vcpu v s w).1 w' (restore_vcpu_call v s ∷ []) _ (log-vcpu v s w)
        (restore_each-Wrote vcpus states (k.restore_vcpu v s w).1 w' rest)

  -- `required` is what the first vCPU answers in `w`, where it is asked
  abbrev pub Requires : Option ℕ → List k.Vcpu → Bool → World → Type 0
  Requires none vcpus required w = Unit {0}
  Requires (some khz) [] required w = Unit {0}
  Requires (some khz) (v ∷ vcpus) required w = (k.is_tsc_scaling_required v khz w).0 ≡ ok required

  scale_tsc-Wrote :
      (khz : Option ℕ) (vcpus : List k.Vcpu) (w w' : World)
      → scale_tsc k khz vcpus w ≡ (ok tt, w')
      → (required : Bool) × Requires khz vcpus required w
        × Wrote w w' (tsc_calls k khz vcpus required)
  unfolding tsc_calls
  scale_tsc-Wrote none vcpus w w' e = (false, tt, Wrote-none w w' (done-injective tt tt w w' e).1)
  scale_tsc-Wrote (some khz) [] w w' e =
      (false, tt, Wrote-none w w' (done-injective tt tt w w' e).1)
  scale_tsc-Wrote (some khz) (v ∷ vcpus) w w' e =
      let v' = (k.is_tsc_scaling_required v khz w).1 in
      let (required, asked, rest) = call-ok _ (k.is_tsc_scaling_required v khz w) _ tt w' e in
      (required, asked, set_or_not required rest)
    where
      set_or_not :
          (required : Bool)
          → (if required
              then set_all_tsc k khz (v ∷ vcpus) (k.is_tsc_scaling_required v khz w).1
              else (ok tt, (k.is_tsc_scaling_required v khz w).1))
            ≡ (ok tt, w')
          → Wrote w w' (tsc_calls k (some khz) (v ∷ vcpus) required)
      set_or_not true rest =
          Wrote-trans w (k.is_tsc_scaling_required v khz w).1 w' (tsc_check_call v khz ∷ []) _
            (log-check v khz w)
            (set_all_tsc-Wrote khz (v ∷ vcpus) (k.is_tsc_scaling_required v khz w).1 w' rest)
      set_or_not false rest =
          ap log (sym (ap (λ (p : Step k (Unit {0})). p.1) rest)) ∙ log-check v khz w

  -- Restoring the vCPUs that succeeds: the clocks first, then every vCPU with its state, in order.
  pub restore_vcpu_states-Wrote :
      (vcpus : List k.Vcpu) (s : k.MicrovmState) (w w' : World)
      → restore_vcpu_states k vcpus s w ≡ (ok tt, w')
      → (required : Bool) × Requires (first_tsc k (k.vcpu_states s)) vcpus required w
        × Wrote w w' (
            tsc_calls k (first_tsc k (k.vcpu_states s)) vcpus required
            ++ vcpu_calls k vcpus (k.vcpu_states s))
  unfolding restore_vcpu_states
  restore_vcpu_states-Wrote vcpus s w w' e =
      let scaled = scale_tsc k (first_tsc k (k.vcpu_states s)) vcpus w in
      let (a, first, rest) = after-ok scaled _ tt w' e in
      let (required, asked, wrote) =
        scale_tsc-Wrote (first_tsc k (k.vcpu_states s)) vcpus w scaled.1 first in
      (
        required,
        asked,
        Wrote-trans w scaled.1 w' _ _ wrote
            (restore_each-Wrote vcpus (k.vcpu_states s) scaled.1 w' rest),
      )
