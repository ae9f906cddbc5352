-- ===== src/Uffd/Region/Paging.antt =====
-- Rounding a fault address down to its page.
use native.Mathlib.Nat.{pow-suc, one-le-pow, div-mul-le_self, lt-div-mul-add}
use herm_os_test.Prelude.{
  ℕ, zero, suc, ◌+◌, ◌-◌, ◌*◌, ◌/◌, ◌^◌, ◌≤◌, ◌<◌, ◌≡◌, ap, true, ◌==◌, ◌∙◌, Bool-cases, inl, inr,
  arith, u64_mod,
}
use herm_os_test.Prelude.Bits.{and-clear}
use herm_os_test.Uffd.Region.{is_power_below, is_power_of_two, page_base}

pow-add : (k m : ℕ) → 2 ^ (k + m) ≡ 2 ^ k * 2 ^ m
pow-add k zero = let e : k + 0 ≡ k = omega arith in rw e (omega arith)
pow-add k (suc m) =
    let e : k + suc m ≡ suc (k + m) = omega arith in
    rw (e, pow-suc 2 (k + m), pow-suc 2 m, pow-add k m) (omega arith)

power_exponent : (j n : ℕ) → is_power_below j n ≡ true → (k : ℕ) × (k < j) × (n ≡ 2 ^ k)
power_exponent zero n h = absurd (ground arith)
power_exponent (suc j) n h = elim (Bool-cases (n == 2 ^ j)) [
  | inl hit ↦ (j, omega arith, ground arith)
  | inr miss ↦ let (k, below, e) = power_exponent j n (ground arith) in (k, omega arith, e)
]

mask_of_pages : (n p d : ℕ) → n ≡ p * d → 0 < p → 0 < d → n - 1 - (p - 1) ≡ (d - 1) * p
mask_of_pages n p zero e hp hd = absurd (omega arith)
mask_of_pages n p (suc d) e hp hd =
    let one_less : suc d - 1 ≡ d = omega arith in rw one_less (omega arith)

page_base-pow :
    (k addr : ℕ) → k < 64 → addr < u64_mod → page_base (2 ^ k) addr ≡ addr / 2 ^ k * 2 ^ k
unfolding page_base
page_base-pow k addr hk ha =
    let split : u64_mod ≡ 2 ^ k * 2 ^ (64 - k) =
      ap (λ (n : ℕ). 2 ^ n) {x = 64} {y = k + (64 - k)} (omega arith) ∙ pow-add k (64 - k) in
    let mask =
      mask_of_pages u64_mod (2 ^ k) (2 ^ (64 - k)) split (one-le-pow k 2 (omega arith))
        (one-le-pow (64 - k) 2 (omega arith)) in
    rw mask (and-clear k (64 - k) addr (omega (arith, split)))

-- For a page size that is a power of two and a 64-bit address, masking gives the start of the
-- address's page: the largest multiple of the page size that is not above the address, so the
-- address is less than a page away.
pub page_base_lem :
    (page_size addr : ℕ)
    → is_power_of_two page_size ≡ true
    → addr < u64_mod
    → (page_base page_size addr ≡ addr / page_size * page_size)
      × (page_base page_size addr ≤ addr)
      × (addr < page_base page_size addr + page_size)
page_base_lem page_size addr pow ha =
    let (k, hk, e) = power_exponent 64 page_size pow in
    let base : page_base page_size addr ≡ addr / page_size * page_size =
      rw e (page_base-pow k addr hk ha) in
    let pos : 0 < page_size = omega (arith, one-le-pow k 2, e) in
    (base, rw base (div-mul-le_self addr page_size), rw base (lt-div-mul-add pos))
