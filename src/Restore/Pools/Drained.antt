-- ===== src/Restore/Pools/Drained.antt =====
-- Every prepared context is used once, in its order.
use herm_os_test.Prelude.{
  ℕ, zero, suc, ◌+◌, ◌≡◌, refl, sym, ap, ◌∙◌, List, [], ◌∷◌, ◌++◌, Outcome, ok, err, arith, length,
  length-append,
}
use herm_os_test.Restore.Kvm.{KvmHost}
use herm_os_test.Restore.Common.{Step, after}
use herm_os_test.Restore.Pools.{
  PoolError, step_failed, no_context_left, missing_guest_memory, Deque, prepare_contexts, Ran, ran,
  run_next,
}

module _ {World : Type 0} (k : KvmHost World) where
  open k use {CallError}

  abbrev pub Answer : Type 0
  Answer = Outcome (PoolError CallError) (Unit {0})

  -- `n` runs one after another: what they answer, and what they leave
  unfoldable pub runs :
      {P : Type 0} → (P → World → Ran k P) → ℕ → P → World → List Answer × World × P
  runs run zero p w = ([], w, p)
  runs run (suc n) p w =
      let (o, w', p') = run p w in let (os, w'', p'') = runs run n p' w' in (o ∷ os, w'', p'')

  -- the operation ran, with a success or with an error of its own
  abbrev pub IsServed : Answer → Type 0
  IsServed (ok _) = Unit {0}
  IsServed (err (step_failed e)) = Unit {0}
  IsServed (err no_context_left) = ⊥
  IsServed (err missing_guest_memory) = ⊥

  abbrev pub AllServed : List Answer → Type 0
  AllServed [] = Unit {0}
  AllServed (o ∷ os) = IsServed o × AllServed os

  pub after-ok :
      {A B : Type 0} (o : Step k A) (rest : A → World → Step k B) (b : B) (w : World)
      → after k o rest ≡ (ok b, w)
      → (a : A) × (o ≡ (ok a, o.1)) × (rest a o.1 ≡ (ok b, w))
  after-ok (ok a, v) rest b w e = (a, refl, e)
  after-ok (err x, v) rest b w e = absurd (ground (arith, e))

  pub prepare_contexts-length :
      {C : Type 0} (make : World → Step k C) (n : ℕ) (contexts prepared : List C) (w w' : World)
      → prepare_contexts k make n contexts w ≡ (ok prepared, w')
      → length prepared ≡ length contexts + n
  unfolding prepare_contexts
  prepare_contexts-length make zero contexts prepared w w' e =
      ap length (sym (ok-same e)) ∙ omega arith
    where
      ok-same : ◌≡◌ {A = Step k (List _)} (ok contexts, w) (ok prepared, w') → contexts ≡ prepared
      ok-same e = cc
  prepare_contexts-length make (suc n) contexts prepared w w' e =
      let (c, made, rest) = after-ok (make w) _ prepared w' e in
      omega (
        arith,
        prepare_contexts-length make n (contexts ++ (c ∷ [])) prepared (make w).1 w' rest,
        length-append contexts (c ∷ []),
      )

  abbrev drained :
      {C : Type 0} → (C → World → Step k (Unit {0})) → Deque C → World → Ran k (Deque C)
  drained f = run_next k λ c w. ran k c (f c w)
