-- ===== src/Prelude/Bits.antt =====
-- `x & !(2^k - 1)` clears the k low bits, at every word width.
use Prim.Native.Nat.{
  ℕ, zero, suc, ◌+◌, ◌-◌, ◌*◌, ◌/◌, ◌%◌, ◌^◌, ◌≤◌, ◌<◌, min, bit_and, digits, bit_and-bitwise,
}
use mathlib.Core.Path.{◌≡◌, refl, ap, ap₂, subst}
use native.Mathlib.Nat.{pow-suc, one-le-pow, div-add-mod', mod-lt, div-lt_iff_lt-mul}
use native.Mathlib.Omega.{arith}

-- what `bit_and` stands for, with a bound on the number of binary digits
abbrev upto : ℕ → ℕ → ℕ → ℕ
upto = digits (λ _. zero) min

-- any two bounds that are large enough agree
upto_enough : (a b n m : ℕ) → a ≤ n → a ≤ m → upto n a b ≡ upto m a b
upto_enough zero b zero zero p q = refl
upto_enough zero b zero (suc m) p q = refl
upto_enough zero b (suc n) zero p q = refl
upto_enough zero b (suc n) (suc m) p q = refl
upto_enough (suc a) b zero m p q = absurd (omega arith)
upto_enough (suc a) b (suc n) zero p q = absurd (omega arith)
upto_enough (suc a) b (suc n) (suc m) p q =
    omega (arith, upto_enough (suc a / 2) (b / 2) n m (omega arith) (omega arith))

and_halves : (a b : ℕ) → bit_and a b ≡ 2 * bit_and (a / 2) (b / 2) + min (a % 2) (b % 2)
and_halves zero b = omega (arith, bit_and-bitwise 0 b, bit_and-bitwise 0 (b / 2))
and_halves (suc a) b = omega (
  arith,
  bit_and-bitwise (suc a) b,
  bit_and-bitwise (suc a / 2) (b / 2),
  upto_enough (suc a / 2) (b / 2) a (suc a / 2) (omega arith) (omega arith),
)

and_ones : (d a : ℕ) → a < 2 ^ d → bit_and a (2 ^ d - 1) ≡ a
and_ones zero a h = let e : a ≡ 0 = omega arith in rw e
and_ones (suc d) a h = omega (
  arith,
  pow-suc 2 d,
  one-le-pow d 2,
  and_halves a (2 ^ suc d - 1),
  and_ones d (a / 2) (omega (arith, pow-suc 2 d)),
  half_ones,
)
  where
    half_ones : bit_and (a / 2) ((2 ^ suc d - 1) / 2) ≡ bit_and (a / 2) (2 ^ d - 1)
    half_ones = ap (bit_and (a / 2)) (omega (arith, pow-suc 2 d, one-le-pow d 2))

double-mul-pow : (x k : ℕ) → x * 2 ^ suc k ≡ 2 * (x * 2 ^ k)
double-mul-pow x k = omega (arith, ap (λ (t : ℕ). x * t) (pow-suc 2 k))

-- with the high part `q` and the low part `r` of the word apart
and_high :
    (k d q r : ℕ)
    → r < 2 ^ k
    → q < 2 ^ d
    → bit_and (q * 2 ^ k + r) ((2 ^ d - 1) * 2 ^ k) ≡ q * 2 ^ k
and_high zero d q r low high =
    let a : q * 2 ^ 0 + r ≡ q = omega arith in
    let m : (2 ^ d - 1) * 2 ^ 0 ≡ 2 ^ d - 1 = omega arith in
    rw (a, m) (omega (arith, and_ones d q high))
and_high (suc k) d q r low high =
    let a : (q * 2 ^ suc k + r) / 2 ≡ q * 2 ^ k + r / 2 = omega (arith, double-mul-pow q k) in
    let m : (2 ^ d - 1) * 2 ^ suc k / 2 ≡ (2 ^ d - 1) * 2 ^ k =
      omega (arith, double-mul-pow (2 ^ d - 1) k) in
    let even : (2 ^ d - 1) * 2 ^ suc k % 2 ≡ 0 = omega (arith, double-mul-pow (2 ^ d - 1) k) in
    let rest = and_high k d q (r / 2) (omega (arith, pow-suc 2 k)) high in
    let step = and_halves (q * 2 ^ suc k + r) ((2 ^ d - 1) * 2 ^ suc k) in
    omega (arith, step, ap₂ bit_and a m, rest, even, double-mul-pow q k)

-- Clearing the k low bits of a word of k + d bits gives the multiple of 2^k below it.
pub and-clear :
    (k d a : ℕ) → a < 2 ^ k * 2 ^ d → bit_and a ((2 ^ d - 1) * 2 ^ k) ≡ a / 2 ^ k * 2 ^ k
and-clear k d a h =
    let low = mod-lt a (omega (arith, one-le-pow k 2)) in
    let high = (div-lt_iff_lt-mul (omega (arith, one-le-pow k 2))).1 (omega (arith, h)) in
    subst (λ x. bit_and x ((2 ^ d - 1) * 2 ^ k) ≡ a / 2 ^ k * 2 ^ k) (div-add-mod' a (2 ^ k))
      (and_high k d (a / 2 ^ k) (a % 2 ^ k) low high)
