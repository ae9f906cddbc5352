-- ===== src/Bench/Ops/Listed.antt =====
-- The usage text lists the operations that can be asked for, and no others.
use text.Mathlib.Text.{◌==◌ as str_eq}
use herm_os_test.Prelude.{
  ◌≡◌, ◌↔◌, ◌⊎◌, inl, inr, Bool-cases, List, [], ◌∷◌, map, some, String, eq_iff, arith,
}
use herm_os_test.Bench.Ops.{Op, arms, find_arm, get_op, list_ops}

abbrev pub IsListed : String → List String → Type 0
IsListed name [] = ⊥
IsListed name (x ∷ xs) = (x ≡ name) ⊎ IsListed name xs

find_arm-IsListed :
    (table : List (String × Op)) (name : String) (op : Op)
    → find_arm table name ≡ some op
    → IsListed name (map (λ (a : String × Op). a.0) table)
unfolding find_arm
find_arm-IsListed [] name op e = absurd (ground arith)
find_arm-IsListed (arm ∷ later) name op e = elim (Bool-cases (str_eq arm.0 name)) [
  | inl same ↦ inl ((eq_iff arm.0 name).0 same)
  | inr other ↦ inr (find_arm-IsListed later name op (ground (arith, other, e)))
]

IsListed-find_arm :
    (table : List (String × Op)) (name : String)
    → IsListed name (map (λ (a : String × Op). a.0) table)
    → (op : Op) × (find_arm table name ≡ some op)
unfolding find_arm
IsListed-find_arm [] name l = absurd l
IsListed-find_arm (arm ∷ later) name (inl here) =
    let hit = (eq_iff arm.0 name).1 here in (arm.1, ground (arith, hit))
IsListed-find_arm (arm ∷ later) name (inr l) = elim (Bool-cases (str_eq arm.0 name)) [
  | inl same ↦ (arm.1, ground (arith, same))
  | inr other ↦ let (op, e) = IsListed-find_arm later name l in (op, ground (arith, other, e))
]

-- A name is in the list that the usage text prints exactly when it names an operation.
pub get_op-list_ops :
    (name : String) → IsListed name list_ops ↔ ((op : Op) × (get_op name ≡ some op))
unfolding get_op
get_op-list_ops name =
    (λ l. IsListed-find_arm arms name l, λ found. find_arm-IsListed arms name found.0 found.1)
