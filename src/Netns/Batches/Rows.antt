-- ===== src/Netns/Batches/Rows.antt =====
-- The batches measure every instance once, in order, and end.
use mathlib.Core.List.{append_assoc, append-nil}
use native.Mathlib.Nat.{add-mul-mod_self_right, mod-eq_of_lt}
use herm_os_test.Prelude.{
  ℕ, zero, suc, ◌+◌, ◌-◌, ◌*◌, ◌%◌, ◌≤◌, ◌<◌, ◌≡◌, refl, sym, ap, ◌∙◌, ◌⊎◌, inl, inr, min, true,
  false, Bool-cases, List, [], ◌++◌, Outcome, ok, ltb, Run, returned, arith,
}
use herm_os_test.Netns.Batches.{join_batch, with_batch, run_batches}

module _ {E M : Type 0} (thread : ℕ → ℕ → Outcome E (List M)) (rows : ℕ → ℕ → List M) where
  -- the rows of `k` instances from `start` on, when there are `c` threads
  unfoldable pub rows_from : ℕ → ℕ → ℕ → List M
  rows_from c start zero = []
  rows_from c start (suc k) = rows (start % c) start ++ rows_from c (suc start) k

  rows_from-append :
      (c start a b : ℕ)
      → rows_from c start (a + b) ≡ rows_from c start a ++ rows_from c (start + a) b
  unfolding rows_from
  rows_from-append c start zero b =
      ap (λ i. rows_from c start i) {x = 0 + b} {y = b} (omega arith)
      ∙ ap (λ i. rows_from c i b) {x = start} {y = start + 0} (omega arith)
  rows_from-append c start (suc a) b =
      ap (λ i. rows_from c start i) {x = suc a + b} {y = suc (a + b)} (omega arith)
      ∙ ap (λ l. rows (start % c) start ++ l)
          (rows_from-append c (suc start) a b
            ∙ ap (λ i. rows_from c (suc start) a ++ rows_from c i b) {x = suc start + a}
                {y = start + suc a} (omega arith))
      ∙ sym (
          append_assoc (rows (start % c) start) (rows_from c (suc start) a)
            (rows_from c (start + suc a) b))

  -- a batch that starts at a multiple of the number of threads
  join_batch-rows_from :
      (c q k tid : ℕ)
      → ((t g : ℕ) → thread t g ≡ ok (rows t g))
      → tid + k ≤ c
      → join_batch thread k tid (q * c) ≡ ok (rows_from c (q * c + tid) k)
  unfolding join_batch rows_from
  join_batch-rows_from c q zero tid runs fits = refl
  join_batch-rows_from c q (suc k) tid runs fits =
      let number : (q * c + tid) % c ≡ tid =
        ap (λ i. i % c) {x = q * c + tid} {y = tid + q * c} (omega arith)
        ∙ add-mul-mod_self_right tid q c
        ∙ mod-eq_of_lt (omega (arith, fits)) in
      let rest : join_batch thread k (suc tid) (q * c) ≡ ok (rows_from c (suc (q * c + tid)) k) =
        join_batch-rows_from c q k (suc tid) runs (omega (arith, fits))
        ∙ ap (λ i. ok (rows_from c i k)) {x = q * c + suc tid} {y = suc (q * c + tid)}
            (omega arith) in
      rw (runs tid (q * c + tid), rest, number) refl

  -- the next batch starts at a multiple again, or there is none
  next_start :
      (c total q next : ℕ)
      → next < total
      → next ≡ q * c
      → (next + min c (total - next) ≡ suc q * c) ⊎ (next + min c (total - next) ≡ total)
  next_start c total q next more at = elim (Bool-cases (ltb c (total - next))) [
    | inl whole ↦ inl (omega (arith, at, lt_of whole))
    | inr last ↦ inr (omega (arith, more, ge_of last))
  ]
    where
      lt_of : ltb c (total - next) ≡ true → c < total - next
      lt_of h = ground (arith, h)

      ge_of : ltb c (total - next) ≡ false → total - next ≤ c
      ge_of h = ground (arith, h)

  no_rows : (c start : ℕ) → rows_from c start 0 ≡ []
  unfolding rows_from
  no_rows c start = refl

  -- one batch and the rest of the loop, which gives the rows of the other instances
  batch-rows_from :
      (c total q next : ℕ) (all_results : List M) (go_on : List M → Run (Outcome E (List M)))
      → ((t g : ℕ) → thread t g ≡ ok (rows t g))
      → next < total
      → next ≡ q * c
      → (let size = min c (total - next) in
          (acc : List M)
          → go_on acc ≡ returned (ok (acc ++ rows_from c (next + size) (total - (next + size)))))
      → with_batch thread go_on all_results (join_batch thread (min c (total - next)) 0 next)
        ≡ returned (ok (all_results ++ rows_from c next (total - next)))
  batch-rows_from c total q next all_results go_on runs more at rest =
      let size : ℕ = min c (total - next) in
      let whole : size + (total - (next + size)) ≡ total - next = omega arith in
      let here : join_batch thread size 0 next ≡ ok (rows_from c next size) =
        ap (join_batch thread size 0) at
        ∙ join_batch-rows_from c q size 0 runs (omega arith)
        ∙ ap (λ i. ok (rows_from c i size)) {x = q * c + 0} {y = next} (omega (arith, at)) in
      ap (with_batch thread go_on all_results) here
      ∙ rest (all_results ++ rows_from c next size)
      ∙ ap (λ l. returned (ok l))
          (append_assoc all_results (rows_from c next size)
              (rows_from c (next + size) (total - (next + size)))
            ∙ ap (λ l. all_results ++ l)
                (sym (rows_from-append c next size (total - (next + size)))
                  ∙ ap (rows_from c next) whole))

  loop-rows_from :
      (fuel c total q next : ℕ) (all_results : List M)
      → ((t g : ℕ) → thread t g ≡ ok (rows t g))
      → 0 < c
      → next ≤ total
      → total - next < fuel
      → (next ≡ q * c) ⊎ (next ≡ total)
      → run_batches thread fuel c total next all_results
        ≡ returned (ok (all_results ++ rows_from c next (total - next)))
  unfolding run_batches
  loop-rows_from zero c total q next all_results runs some_threads inside enough at =
      absurd (omega (arith, enough))
  loop-rows_from (suc fuel) c total q next all_results runs some_threads inside enough at =
      elim (Bool-cases (ltb next total)) [
        | inl more ↦
            let less : next < total = ground (arith, more) in
            let start : next ≡ q * c = ground (arith, at, less) in
            let later = next_start c total q next less start in
            rw more (
              batch-rows_from c total q next all_results
                (run_batches thread fuel c total (next + min c (total - next))) runs less start
                (λ acc.
                  loop-rows_from fuel c total (suc q) (next + min c (total - next)) acc runs
                    some_threads (omega arith) (omega (arith, enough, less, some_threads)) later))
        | inr over ↦
            let none_left : total - next ≡ 0 = ground (arith, over, inside) in
            let empty : rows_from c next (total - next) ≡ [] =
              ap (rows_from c next) none_left ∙ no_rows c next in
            rw over (
              ap (λ l. returned (ok l))
                (sym (append-nil all_results) ∙ ap (λ l. all_results ++ l) (sym empty)))
      ]

  -- With at least one thread, with more fuel than there are instances, and when every thread ends with its
  -- rows: the loop over the batches ends, and gives the rows of the instances 0, 1, … in their order,
  -- each once, the instance `g` measured by the thread `g % concurrency` of its batch.
  pub run_batches-rows_from :
      (fuel concurrency total : ℕ)
      → ((t g : ℕ) → thread t g ≡ ok (rows t g))
      → 0 < concurrency
      → total < fuel
      → run_batches thread fuel concurrency total 0 []
        ≡ returned (ok (rows_from concurrency 0 total))
  run_batches-rows_from fuel concurrency total runs some_threads enough =
      loop-rows_from fuel concurrency total 0 0 [] runs some_threads (omega arith)
        (omega (arith, enough)) (inl (omega arith))
      ∙ ap (λ i. returned (ok (rows_from concurrency 0 i))) {x = total - 0} {y = total}
          (omega arith)
