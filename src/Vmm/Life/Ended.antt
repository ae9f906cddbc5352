-- ===== src/Vmm/Life/Ended.antt =====
-- What the drop of the Vmm does with the threads that were started.
use mathlib.Core.Path.{subst}
use mathlib.Core.List.{append_assoc, append-nil}
use herm_os_test.Prelude.{
  ℕ, ◌+◌, ◌≡◌, refl, sym, ap, ◌∙◌, ◌⊎◌, List, [], ◌∷◌, ◌++◌, Outcome, ok, err, Outcome-cases, inl,
  inr, arith, length, length-append, returned, out_of_fuel, bind_run,
}
use herm_os_test.Vmm.Vcpus.{finish, VcpuHost, Vmm}
use herm_os_test.Vmm.Life.{
  LifeHost, vcpu_handle, Started, start_each, all_started, after_non_block, after_raw_mode,
  start_vcpus, finish_each, join_each, drop_vmm,
}

-- the threads that were started, that were told to finish, that were joined, and that wait at their
-- barrier, each in its order
pub record Threads (H : Type 0) : Type 0 where
  pub started : List H
  pub told : List H
  pub ended : List H
  pub waiting : List H

abbrev pub no_threads : {H : Type 0} → Threads H
no_threads = record { started = []; told = []; ended = []; waiting = [] }

abbrev pub add_started : {H : Type 0} {E : Type 0} → Outcome E H → Threads H → Threads H
add_started (ok x) t = record t { started = t.started ++ (x ∷ []); waiting = t.waiting ++ (x ∷ []) }
add_started (err e) t = t

-- What the calls do to the threads. A thread that is started waits at the barrier, until as many threads
-- as the barrier counts are there. A thread counts as told when the event was sent to it, whether or not
-- it took it. The join of a thread that was told to finish returns if none waits; that of a thread that
-- waits at the barrier never returns.
pub record Watched (v : VcpuHost) (h : LifeHost v) : Type 0 where
  pub threads : v.World → Threads v.Handle
  pub threads-raw : (w : v.World) → threads (h.set_raw_mode w).1 ≡ threads w
  pub threads-block : (w : v.World) → threads (h.set_non_block w).1 ≡ threads w
  pub threads-start :
      (c : h.Vcpu) (w : v.World)
      → threads (h.start_threaded c w).1 ≡ add_started (h.start_threaded c w).0 (threads w)
  pub threads-barrier :
      (n : ℕ) (w : v.World)
      → length (threads w).waiting + 1 ≡ n
      → threads (h.barrier_wait n w) ≡ record (threads w) { waiting = [] }
  pub threads-finish :
      (x : v.Handle) (w : v.World)
      → threads (v.send_event x finish w).1
        ≡ record (threads w) { told = (threads w).told ++ (x ∷ []) }
  pub joined_ends :
      (x : v.Handle) (earlier later : List v.Handle) (w : v.World)
      → (threads w).waiting ≡ []
      → (threads w).told ≡ earlier ++ (x ∷ later)
      → (w' : v.World) × (h.joined x w ≡ returned w')
        × (threads w' ≡ record (threads w) { ended = (threads w).ended ++ (x ∷ []) })
  pub joined_hangs :
      (x : v.Handle) (earlier later : List v.Handle) (w : v.World)
      → (threads w).waiting ≡ earlier ++ (x ∷ later)
      → h.joined x w ≡ out_of_fuel
  pub threads-canon : (w : v.World) → threads (h.set_canon_mode w) ≡ threads w
  pub threads-metrics : (w : v.World) → threads (h.write_metrics w) ≡ threads w

module _ (v : VcpuHost) (h : LifeHost v) (watch : Watched v h) where
  open watch use {
    threads, threads-raw, threads-block, threads-start, threads-barrier, threads-finish,
    joined_ends, joined_hangs, threads-canon, threads-metrics,
  }

  -- the handles are those of the started threads, no thread was told to finish, and `waiting` wait
  abbrev HasThreads : List v.Handle → Vmm v → Type 0
  HasThreads waiting s =
      threads s.world
      ≡ record { started = s.vcpus_handles; told = []; ended = []; waiting = waiting }

  -- in the loop, and when it ends early, all threads wait
  abbrev IsWaiting : Vmm v → Type 0
  IsWaiting s = HasThreads s.vcpus_handles s

  -- a success has one handle more for each vCPU
  abbrev HasAll : ℕ → Started v h → Type 0
  HasAll n (ok _, s) = length s.vcpus_handles ≡ n
  HasAll n (err e, s) = Unit {0}

  start_each-IsWaiting :
      (vcpus : List h.Vcpu) (s : Vmm v)
      → IsWaiting s
      → IsWaiting (start_each v h vcpus s).1
        × HasAll (length s.vcpus_handles + length vcpus) (start_each v h vcpus s)
  unfolding start_each
  start_each-IsWaiting [] s live = (live, omega arith)
  start_each-IsWaiting (c ∷ vcpus) s live =
      let w = (h.start_threaded c s.world).1 in
      let hs = s.vcpus_handles in
      let seen : (o : Outcome h.StartError v.Handle)
          → (h.start_threaded c s.world).0 ≡ o
          → threads w
            ≡ add_started o (record { started = hs; told = []; ended = []; waiting = hs }) =
        λ o e.
          threads-start c s.world
          ∙ ap (λ r. add_started r (threads s.world)) e
          ∙ ap (add_started o) live in
      elim (Outcome-cases (h.start_threaded c s.world).0) [
        | inl (x, e) ↦
            let s' : Vmm v = record s { vcpus_handles = hs ++ (x ∷ []); world = w } in
            let step : start_each v h (c ∷ vcpus) s ≡ start_each v h vcpus s' =
              rw (start_each, e) refl in
            let (later, all) = start_each-IsWaiting vcpus s' (seen (ok x) e) in
            let count : (length hs + 1) + length vcpus ≡ length hs + length (c ∷ vcpus) =
              omega arith in
            let whole : HasAll (length hs + length (c ∷ vcpus)) (start_each v h vcpus s') =
              subst (λ n. HasAll n (start_each v h vcpus s'))
                (ap (λ n. n + length vcpus) (length-append hs (x ∷ [])) ∙ count) all in
            subst (λ r. IsWaiting r.1 × HasAll (length hs + length (c ∷ vcpus)) r) (sym step)
              (later, whole)
        | inr (e, bad) ↦
            let step : start_each v h (c ∷ vcpus) s
                ≡ (err (vcpu_handle e), record s { world = w }) =
              rw (start_each, bad) refl in
            subst (λ r. IsWaiting r.1 × HasAll (length hs + length (c ∷ vcpus)) r) (sym step)
              (seen (err e) bad, tt)
      ]

  finish_each-threads :
      (handles : List v.Handle) (w : v.World)
      → threads (finish_each v h handles w)
        ≡ record (threads w) { told = (threads w).told ++ handles }
  unfolding finish_each
  finish_each-threads [] w =
      ap (λ (l : List v.Handle). record (threads w) { told = l })
        (sym (append-nil (threads w).told))
  finish_each-threads (x ∷ handles) w =
      finish_each-threads handles (v.send_event x finish w).1
      ∙ ap (λ (t : Threads v.Handle). record t { told = t.told ++ handles }) (threads-finish x w)
      ∙ ap (λ (l : List v.Handle). record (threads w) { told = l })
          (append_assoc (threads w).told (x ∷ []) handles)

  -- the joins, when all were told and none waits
  join_each-threads :
      (handles earlier : List v.Handle) (w : v.World)
      → (threads w).waiting ≡ []
      → (threads w).told ≡ earlier ++ handles
      → (w' : v.World) × (join_each v h handles w ≡ returned w')
        × (threads w' ≡ record (threads w) { ended = (threads w).ended ++ handles })
  unfolding join_each
  join_each-threads [] earlier w free told = (
    w,
    refl,
    ap (λ (l : List v.Handle). record (threads w) { ended = l })
        (sym (append-nil (threads w).ended)),
  )
  join_each-threads (x ∷ handles) earlier w free told =
      let (w1, run, one) = joined_ends x earlier handles w free told in
      let told1 =
        ap (λ (t : Threads v.Handle). t.told) one
        ∙ told
        ∙ sym (append_assoc earlier (x ∷ []) handles) in
      let (w', rest, all) =
        join_each-threads handles (earlier ++ (x ∷ [])) w1
          (ap (λ (t : Threads v.Handle). t.waiting) one ∙ free) told1 in
      (
        w',
        rw (join_each, run) rest,
        all
            ∙ ap (λ (t : Threads v.Handle). record t { ended = t.ended ++ handles }) one
            ∙ ap (λ (l : List v.Handle). record (threads w) { ended = l })
                (append_assoc (threads w).ended (x ∷ []) handles),
      )

  finished :
      (waiting : List v.Handle) (s : Vmm v)
      → HasThreads waiting s
      → threads (finish_each v h s.vcpus_handles s.world) ≡ record {
        started = s.vcpus_handles;
        told = s.vcpus_handles;
        ended = [];
        waiting = waiting;
      }
  finished waiting s known =
      finish_each-threads s.vcpus_handles s.world
      ∙ ap (λ (t : Threads v.Handle). record t { told = t.told ++ s.vcpus_handles }) known

  -- the drop returns, and every thread was told to finish once and joined once, in their order
  abbrev pub IsEnded : Vmm v → Type 0
  IsEnded s =
      (w : v.World) × (drop_vmm v h s ≡ returned w)
      × (threads w ≡ record {
        started = s.vcpus_handles;
        told = s.vcpus_handles;
        ended = s.vcpus_handles;
        waiting = [];
      })

  drop_vmm-IsEnded : (s : Vmm v) → HasThreads [] s → IsEnded s
  unfolding drop_vmm
  drop_vmm-IsEnded s known =
      let told = finished [] s known in
      let (w, run, all) =
        join_each-threads s.vcpus_handles [] (finish_each v h s.vcpus_handles s.world)
          (ap (λ (t : Threads v.Handle). t.waiting) told)
          (ap (λ (t : Threads v.Handle). t.told) told) in
      (
        h.write_metrics (h.set_canon_mode w),
        rw (drop_vmm, run) refl,
        threads-metrics _
            ∙ threads-canon w
            ∙ all
            ∙ ap (λ (t : Threads v.Handle). record t { ended = t.ended ++ s.vcpus_handles }) told,
      )

  -- How the drop ends after a start of `n` vCPUs: after a success there is a handle for each vCPU, and all
  -- threads end; after an error, all is well if no thread was started, and else the drop never returns.
  abbrev pub DropsAfter : ℕ → Started v h → Type 0
  DropsAfter n (ok _, s) = (length s.vcpus_handles ≡ n) × IsEnded s
  DropsAfter n (err e, s) =
      ((s.vcpus_handles ≡ []) × IsEnded s)
      ⊎ ((x : v.Handle) × (xs : List v.Handle) × (s.vcpus_handles ≡ x ∷ xs)
          × (drop_vmm v h s ≡ out_of_fuel))

  drop_vmm-waiting :
      (s : Vmm v) (hs : List v.Handle)
      → s.vcpus_handles ≡ hs
      → IsWaiting s
      → ((s.vcpus_handles ≡ []) × IsEnded s)
        ⊎ ((x : v.Handle) × (xs : List v.Handle) × (s.vcpus_handles ≡ x ∷ xs)
            × (drop_vmm v h s ≡ out_of_fuel))
  unfolding drop_vmm join_each
  drop_vmm-waiting s [] same live =
      inl (same, drop_vmm-IsEnded s (subst (λ hs. HasThreads hs s) same live))
  drop_vmm-waiting s (x ∷ xs) same live =
      let w = finish_each v h s.vcpus_handles s.world in
      let stuck =
        joined_hangs x [] xs w
          (ap (λ (t : Threads v.Handle). t.waiting) (finished s.vcpus_handles s live) ∙ same) in
      let first : join_each v h (x ∷ xs) w ≡ out_of_fuel = rw (join_each, stuck) refl in
      let hangs : join_each v h s.vcpus_handles w ≡ out_of_fuel =
        ap (λ hs. join_each v h hs w) same ∙ first in
      inr (
        x,
        xs,
        same,
        ap (λ m. bind_run m λ u. returned (h.write_metrics (h.set_canon_mode u))) hangs,
      )

  after_non_block-DropsAfter :
      (vcpus : List h.Vcpu) (s : Vmm v) (o : Outcome h.StdinError (Unit {0}) × v.World)
      → s.vcpus_handles ≡ []
      → threads o.1 ≡ no_threads
      → DropsAfter (length vcpus) (after_non_block v h vcpus s o)
  after_non_block-DropsAfter vcpus s (err e, w) fresh none_yet =
      drop_vmm-waiting (record s { world = w }) [] fresh
        (none_yet
          ∙ ap (λ hs. record { started = hs; told = []; ended = []; waiting = hs }) (sym fresh))
  after_non_block-DropsAfter vcpus s (ok _, w) fresh none_yet =
      waited (start_each v h vcpus (record s { world = w })) (
        start_each-IsWaiting vcpus (record s { world = w })
          (none_yet
            ∙ ap (λ hs. record { started = hs; told = []; ended = []; waiting = hs }) (sym fresh)))
    where
      waited :
          (o : Started v h)
          → IsWaiting o.1 × HasAll (length s.vcpus_handles + length vcpus) o
          → DropsAfter (length vcpus) (all_started v h (length vcpus) o)
      waited (err e, t) (live, all) = drop_vmm-waiting t t.vcpus_handles refl live
      waited (ok _, t) (live, all) =
          let count : length t.vcpus_handles ≡ length vcpus = omega (arith, all, ap length fresh) in
          let here : length (threads t.world).waiting + 1 ≡ length vcpus + 1 =
            ap (λ (r : Threads v.Handle). length r.waiting + 1) live ∙ ap (λ n. n + 1) count in
          (
            count,
            drop_vmm-IsEnded _ (
                threads-barrier (length vcpus + 1) t.world here
                ∙ ap (λ (r : Threads v.Handle). record r { waiting = [] }) live),
          )

  -- Starting the vCPUs of a Vmm that has no threads yet, and then dropping the Vmm. If the start succeeds,
  -- there is a handle for each vCPU, and the drop returns, having told each thread to finish once and
  -- joined each once, in their order. If the start fails before a thread was started, the drop returns. If
  -- it fails when a thread was started, that thread waits at a barrier that the failed start never
  -- reaches, and the drop never returns.
  pub start_vcpus-drop_vmm :
      (vcpus : List h.Vcpu) (s : Vmm v)
      → s.vcpus_handles ≡ []
      → threads s.world ≡ no_threads
      → DropsAfter (length vcpus) (start_vcpus v h vcpus s)
  unfolding start_vcpus
  start_vcpus-drop_vmm vcpus s fresh none_yet =
      raw (h.set_raw_mode s.world) (threads-raw s.world ∙ none_yet)
    where
      raw :
          (o : Outcome h.StdinError (Unit {0}) × v.World)
          → threads o.1 ≡ no_threads
          → DropsAfter (length vcpus) (after_raw_mode v h vcpus s o)
      raw (err e, w) live = after_non_block-DropsAfter vcpus s (err e, w) fresh live
      raw (ok _, w) live =
          after_non_block-DropsAfter vcpus s (h.set_non_block w) fresh (threads-block w ∙ live)
