-- ===== src/Tests/BatchRuns.antt =====
-- Five instances in batches of two threads.
use herm_os_test.Prelude.{ℕ, ◌≡◌, refl, List, [], ◌∷◌, Outcome, ok, returned, arith}
use herm_os_test.Netns.Batches.{run_batches}
use herm_os_test.Netns.Batches.Rows.{rows_from, run_batches-rows_from}

abbrev one_row : ℕ → ℕ → List (ℕ × ℕ)
one_row t g = (t, g) ∷ []

abbrev ends_well : ℕ → ℕ → Outcome ℕ (List (ℕ × ℕ))
ends_well t g = ok (one_row t g)

run_batches-rows_from_example :
    run_batches ends_well 6 2 5 0 [] ≡ returned (ok (rows_from ends_well one_row 2 0 5))
run_batches-rows_from_example =
    run_batches-rows_from ends_well one_row 6 2 5 (λ t g. refl) (omega arith) (omega arith)

five_rows : rows_from ends_well one_row 2 0 5 ≡ (0, 0) ∷ (1, 1) ∷ (0, 2) ∷ (1, 3) ∷ (0, 4) ∷ []
unfolding rows_from
five_rows = refl
