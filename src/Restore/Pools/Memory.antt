-- ===== src/Restore/Pools/Memory.antt =====
-- restore_memory_regions.rs: the memory of a context is there when it is taken.
use herm_os_test.Prelude.{ℕ, suc, ◌+◌, ◌≡◌, List, [], ◌∷◌, some, length}
use herm_os_test.Restore.Kvm.{KvmHost}
use herm_os_test.Restore.Pools.{Deque, Ran, RegionsContext, run_regions}
use herm_os_test.Restore.Pools.Drained.{runs, IsServed, AllServed}

module _ {World : Type 0} (k : KvmHost World) where
  open k use {GuestMemory, MicrovmState, vm_state, memory, kvm_cap_modifiers}

  abbrev HasMemory : RegionsContext k → Type 0
  HasMemory c = (m : GuestMemory) × (c.guest_memory ≡ some m)

  abbrev AllFilled : List (RegionsContext k) → Type 0
  AllFilled [] = Unit {0}
  AllFilled (c ∷ contexts) = HasMemory c × AllFilled contexts

  -- what the runs on a pool come to
  abbrev IsUsedUp : ℕ → Deque (RegionsContext k) → World → Type 0
  IsUsedUp n p w =
      let (answers, w', p') = runs k (run_regions k) n p w in
      (length answers ≡ n)
      × AllServed k answers
      × (p'.contexts ≡ [])
      × (length p'.completed ≡ length p.completed + n)

  -- a run that is served, and the runs after it
  abbrev IsFirst : ℕ → Deque (RegionsContext k) → Ran k (Deque (RegionsContext k)) → Type 0
  IsFirst n p (o, w, p') =
      IsServed k o × IsUsedUp n p' w × (length p'.completed ≡ suc (length p.completed))
