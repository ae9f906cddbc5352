-- ===== src/Prelude/Numerals.antt =====
-- Numbers written in a base and read back, as `format!` and `parse` do.
use Prim.Native.Nat.{ℕ, zero, suc, ◌+◌, ◌-◌, ◌*◌, ◌/◌, ◌%◌, ◌^◌, ◌<◌, ◌≤◌}
use mathlib.Core.Path.{◌≡◌, refl, sym, ap, ◌∙◌, subst}
use mathlib.Core.Bool.{Bool, true, false, ◌&&◌}
use mathlib.Core.List.{[], ◌∷◌}
use mathlib.Core.Option.{Option, none, some}
use native.Mathlib.Omega.{arith}
use native.Mathlib.Numerals.{unary_clauses}
use native.Mathlib.Nat.{pow-suc, div-add-mod', div-lt_iff_lt-mul, mod-lt, div-eq_of_lt}
use mathlib.Core.Logic.{inl, inr}
use herm_os_test.Prelude.Lists.{length}
use herm_os_test.Prelude.Tests.{ltb, leb, ◌==◌, if◌then◌else◌, Bool-cases}
use herm_os_test.Prelude.Texts.{Text, Lacks}

-- a digit of a base up to sixteen, in lower case
abbrev pub digit : ℕ → ℕ
digit d = if ltb d 10 then b'0' + d else b'a' + (d - 10)

-- at most `suc k` digits, in front of `out`
unfoldable pub emit : ℕ → ℕ → ℕ → Text → Text
emit base zero n out = digit (n % base) ∷ out
emit base (suc k) n out =
    let rest = emit base k (n / base) (digit (n % base) ∷ out) in
    if n / base == 0 then digit (n % base) ∷ out else rest

-- A usize has at most 64 digits, in any base.
abbrev pub display : ℕ → ℕ → Text
display base n = emit base 63 n []

-- what a digit stands for
abbrev pub worth : ℕ → ℕ
worth c = if ltb c b'a' then c - b'0' else (c - b'a') + 10

abbrev pub value : ℕ → ℕ → Text → ℕ
value base n [] = n
value base n (c ∷ cs) = value base (n * base + worth c) cs

worth-digit : (d : ℕ) → d < 16 → worth (digit d) ≡ d
worth-digit d h = ground arith

last_digit : (base n : ℕ) → 1 < base → base ≤ 16 → n / base * base + worth (digit (n % base)) ≡ n
last_digit base n two small =
    let low : n % base < base = mod-lt n (omega arith) in
    omega (arith, worth-digit (n % base) (omega (arith, low)), div-add-mod' n base)

first_digit :
    (base n : ℕ) → 1 < base → base ≤ 16 → n / base ≡ 0 → 0 * base + worth (digit (n % base)) ≡ n
first_digit base n two small none_left =
    omega (arith, last_digit base n two small, ap (λ i. i * base) none_left)

-- Reading the digits of a number, then `out`, is reading `out` from that number.
pub value-emit :
    (base k n : ℕ) (out : Text)
    → 1 < base
    → base ≤ 16
    → n < base ^ suc k
    → value base 0 (emit base k n out) ≡ value base n out
unfolding emit
value-emit base zero n out two small h =
    ap (λ i. value base i out) (first_digit base n two small (div-eq_of_lt (under h)))
  where
    under : n < base ^ 1 → n < base
    under h =
        let one : base ^ 0 ≡ 1 = simp unary_clauses in
        omega (arith, pow-suc base 0, ap (λ i. i * base) one)
value-emit base (suc k) n out two small h = elim (Bool-cases (n / base == 0)) [
  | inl last ↦ rw last (ap (λ i. value base i out) (first_digit base n two small (none_left last)))
  | inr more ↦ rw more (
      value-emit base k (n / base) (digit (n % base) ∷ out) two small fewer
      ∙ ap (λ i. value base i out) (last_digit base n two small))
]
  where
    none_left : (n / base == 0) ≡ true → n / base ≡ 0
    none_left last = ground (arith, last)

    fewer : n / base < base ^ suc k
    fewer = (div-lt_iff_lt-mul (omega arith)).1 (omega (arith, h, pow-suc base (suc k)))

-- Two numbers of 64 bits that are written alike are equal.
pub display-injective :
    (base m n : ℕ)
    → 1 < base
    → base ≤ 16
    → m < base ^ 64
    → n < base ^ 64
    → display base m ≡ display base n
    → m ≡ n
display-injective base m n two small hm hn e =
    sym (value-emit base 63 m [] two small hm)
    ∙ ap (value base 0) e
    ∙ value-emit base 63 n [] two small hn

low : (base n : ℕ) → 1 < base → base ≤ 16 → n % base < 16
low base n two small = let under : n % base < base = mod-lt n (omega arith) in omega (arith, under)

pub emit-Lacks :
    (q base k n : ℕ) (out : Text)
    → 1 < base
    → base ≤ 16
    → ((d : ℕ) → d < 16 → digit d == q ≡ false)
    → Lacks q out
    → Lacks q (emit base k n out)
unfolding emit
emit-Lacks q base zero n out two small apart lacks =
    (apart (n % base) (low base n two small), lacks)
emit-Lacks q base (suc k) n out two small apart lacks = elim (Bool-cases (n / base == 0)) [
  | inl last ↦ rw last (apart (n % base) (low base n two small), lacks)
  | inr more ↦ rw more (
      emit-Lacks q base k (n / base) (digit (n % base) ∷ out) two small apart
        (apart (n % base) (low base n two small), lacks))
]

-- A number below a power of the base has at most so many digits.
pub length-emit :
    (base k j n : ℕ) (out : Text)
    → 1 < base
    → n < base ^ suc j
    → length (emit base k n out) ≤ suc j + length out
unfolding emit
length-emit base zero j n out two h = omega arith
length-emit base (suc k) zero n out two h =
    let one : base ^ 0 ≡ 1 = simp unary_clauses in
    let small : n < base = omega (arith, h, pow-suc base 0, ap (λ i. i * base) one) in
    let last : n / base ≡ 0 = div-eq_of_lt small in rw last (omega arith)
length-emit base (suc k) (suc j) n out two h = elim (Bool-cases (n / base == 0)) [
  | inl last ↦ rw last (omega arith)
  | inr more ↦
      let fewer : n / base < base ^ suc j =
        (div-lt_iff_lt-mul (omega arith)).1 (omega (arith, h, pow-suc base (suc j))) in
      rw more (omega (arith, length-emit base k j (n / base) (digit (n % base) ∷ out) two fewer))
]

abbrev pub is_digit : ℕ → Bool
is_digit c = leb b'0' c && leb c b'9'

-- The digits of a number below `limit`, after `n`; the sums and products are checked.
unfoldable pub scan : ℕ → ℕ → Text → Option ℕ
scan limit n [] = some n
scan limit n (c ∷ s) =
    let rest = scan limit (n * 10 + (c - b'0')) s in
    if is_digit c && ltb (n * 10 + (c - b'0')) limit then rest else none

-- `str::parse` at an unsigned type: one `+` may stand in front of the digits
unfoldable pub parse_unsigned : ℕ → Text → Option ℕ
unfolding scan
parse_unsigned limit [] = none
parse_unsigned limit (c ∷ []) = scan limit 0 (c ∷ [])
parse_unsigned limit (c ∷ (d ∷ s)) =
    if c == b'+' then scan limit 0 (d ∷ s) else scan limit 0 (c ∷ (d ∷ s))

decimal_digit : (d : ℕ) → d < 10 → (is_digit (digit d) ≡ true) × (digit d - b'0' ≡ d)
decimal_digit d h = (ground arith, ground arith)

scan-digit :
    (limit m n : ℕ) (out : Text)
    → n < limit
    → m * 10 + n % 10 ≡ n
    → scan limit m (digit (n % 10) ∷ out) ≡ scan limit n out
unfolding scan
scan-digit limit m n out h e =
    let (is, worth) = decimal_digit (n % 10) (omega arith) in
    let next : m * 10 + (digit (n % 10) - b'0') ≡ n = omega (arith, worth, e) in
    let fits : ltb n limit ≡ true = ground (arith, h) in rw (is, next, fits) refl

scan-emit :
    (limit k n : ℕ) (out : Text)
    → n < limit
    → n < 10 ^ suc k
    → scan limit 0 (emit 10 k n out) ≡ scan limit n out
unfolding emit
scan-emit limit zero n out h small = scan-digit limit 0 n out h (omega (arith, pow-suc 10 0))
scan-emit limit (suc k) n out h small = elim (Bool-cases (n / 10 == 0)) [
  | inl last ↦
      let none_left : n / 10 ≡ 0 = ground (arith, last) in
      rw last (scan-digit limit 0 n out h (omega (arith, none_left)))
  | inr more ↦ rw more (
      scan-emit limit k (n / 10) (digit (n % 10) ∷ out) (omega arith)
        (omega (arith, pow-suc 10 (suc k)))
      ∙ scan-digit limit (n / 10) n out h (omega arith))
]

-- with the first character apart
first_character : (base k n : ℕ) (out : Text) → (c : ℕ) × (s : Text) × (emit base k n out ≡ c ∷ s)
unfolding emit
first_character base zero n out = (digit (n % base), out, refl)
first_character base (suc k) n out = elim (Bool-cases (n / base == 0)) [
  | inl last ↦ (digit (n % base), out, rw last refl)
  | inr more ↦
      let (c, s, e) = first_character base k (n / base) (digit (n % base) ∷ out) in
      (c, s, rw more e)
]

digit_not_plus : (d : ℕ) → d < 16 → digit d == b'+' ≡ false
digit_not_plus d h = ground arith

no_plus :
    (limit : ℕ) (c : ℕ) (s : Text)
    → Lacks b'+' (c ∷ s)
    → parse_unsigned limit (c ∷ s) ≡ scan limit 0 (c ∷ s)
unfolding parse_unsigned
no_plus limit c [] lacks = refl
no_plus limit c (d ∷ s) (differs, lacks) = rw differs refl

-- Parsing what `format!` wrote gives the number.
pub parse_unsigned-display :
    (limit n : ℕ) → n < limit → n < 10 ^ 64 → parse_unsigned limit (display 10 n) ≡ some n
unfolding scan
parse_unsigned-display limit n h small =
    let (c, s, e) = first_character 10 63 n [] in
    let lacks : Lacks b'+' (display 10 n) =
      emit-Lacks b'+' 10 63 n [] (omega arith) (omega arith) digit_not_plus tt in
    ap (parse_unsigned limit) e
    ∙ no_plus limit c s (subst (Lacks b'+') e lacks)
    ∙ ap (scan limit 0) (sym e)
    ∙ scan-emit limit 63 n [] h small
