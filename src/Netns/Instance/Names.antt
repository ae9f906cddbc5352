-- ===== src/Netns/Instance/Names.antt =====
-- The names of two namespaces of a run differ; their networks repeat.
use Prim.Native.Nat.{◌^◌, ◌<◌}
use mathlib.Core.List.{append_cancel_left, append_cancel_right}
use herm_os_test.Prelude.{
  ℕ, ◌+◌, ◌/◌, ◌%◌, ◌≤◌, ◌≡◌, refl, sym, ap, ◌∙◌, ◌↔◌, false, [], ◌∷◌, ◌++◌, some, arith, ◌==◌,
  Text, codes, digit, display, before, before-append, Lacks, emit-Lacks, length, length-append,
  length-emit, display-injective, take, take_all, drop,
}
use herm_os_test.Netns.Instance.{run_token, suffix, octet2, octet3, address, build_instance}

length-run_token : (now : ℕ) → length (run_token now) ≤ 5
unfolding run_token
length-run_token now = length-emit 16 63 4 (now % 1048576) [] (omega arith) (omega arith)

length-suffix : (now seq : ℕ) → seq < 16 ^ 7 → length (suffix (run_token now) seq) ≤ 12
unfolding suffix
length-suffix now seq h = omega (
  arith,
  length-append (display 16 seq) (run_token now),
  length-run_token now,
  length-emit 16 63 6 seq [] (omega arith) h,
)

suffix-injective :
    (token : Text) (m n : ℕ) → m < 16 ^ 7 → n < 16 ^ 7 → suffix token m ≡ suffix token n → m ≡ n
unfolding suffix
suffix-injective token m n hm hn e =
    display-injective 16 m n (omega arith) (omega arith) (omega arith) (omega arith)
      (append_cancel_right (display 16 m) (display 16 n) token e)

-- For the first 16^7 sequence numbers of a run, no name is cut off: the veth name is "fcv" and the
-- namespace "fc", each followed by all hexadecimal digits of the sequence number and of the token of
-- the run, in at most 15 and 31 characters. Two instances have the same veth name, or the same
-- namespace, exactly when they have the same sequence number.
pub build_instance_names :
    (now m n : ℕ)
    → m < 16 ^ 7
    → n < 16 ^ 7
    → ((build_instance (run_token now) m).host_veth
        ≡ codes "fcv" ++ (display 16 m ++ display 16 (now % 1048576)))
      × ((build_instance (run_token now) m).namespace
          ≡ codes "fc" ++ (display 16 m ++ display 16 (now % 1048576)))
      × (length (build_instance (run_token now) m).host_veth ≤ 15)
      × (length (build_instance (run_token now) m).namespace ≤ 31)
      × (((build_instance (run_token now) m).host_veth
            ≡ (build_instance (run_token now) n).host_veth)
          ↔ (m ≡ n))
      × (((build_instance (run_token now) m).namespace
            ≡ (build_instance (run_token now) n).namespace)
          ↔ (m ≡ n))
unfolding build_instance
build_instance_names now m n hm hn =
    let veth-m =
      take_all 15 (codes "fcv" ++ suffix (run_token now) m)
        (omega (arith, length-suffix now m hm)) in
    let veth-n =
      take_all 15 (codes "fcv" ++ suffix (run_token now) n)
        (omega (arith, length-suffix now n hn)) in
    let ns-m =
      take_all 31 (codes "fc" ++ suffix (run_token now) m)
        (omega (arith, length-suffix now m hm)) in
    let ns-n =
      take_all 31 (codes "fc" ++ suffix (run_token now) n)
        (omega (arith, length-suffix now n hn)) in
    (
      veth-m ∙ unfold suffix run_token in refl,
      ns-m ∙ unfold suffix run_token in refl,
      omega (arith, ap length veth-m, length-suffix now m hm),
      omega (arith, ap length ns-m, length-suffix now m hm),
      (
        λ e. suffix-injective (run_token now) m n hm hn (ap (drop 3) (sym veth-m ∙ e ∙ veth-n)),
        λ e. ap (λ i. take 15 (codes "fcv" ++ suffix (run_token now) i)) e,
      ),
      (
        λ e. suffix-injective (run_token now) m n hm hn (ap (drop 2) (sym ns-m ∙ e ∙ ns-n)),
        λ e. ap (λ i. take 31 (codes "fc" ++ suffix (run_token now) i)) e,
      ),
    )

digit_not_dot : (d : ℕ) → d < 16 → digit d == 46 ≡ false
digit_not_dot d h = ground arith

decimal-Lacks : (n : ℕ) → Lacks 46 (display 10 n)
decimal-Lacks n = emit-Lacks 46 10 63 n [] (omega arith) (omega arith) digit_not_dot tt

-- the number before the first dot, and what follows it
dotted :
    (m n : ℕ) (s t : Text)
    → m < 10 ^ 64
    → n < 10 ^ 64
    → display 10 m ++ (46 ∷ s) ≡ display 10 n ++ (46 ∷ t)
    → (m ≡ n) × (s ≡ t)
dotted m n s t hm hn e = (
  display-injective 10 m n (omega arith) (omega arith) hm hn same,
  ap (drop 1) (
      append_cancel_left (display 10 m) (46 ∷ s) (46 ∷ t) (e ∙ ap (λ x. x ++ (46 ∷ t)) (sym same))),
)
  where
    some_inj : {a b : Text} → some a ≡ some b → a ≡ b
    some_inj h = cc

    same : display 10 m ≡ display 10 n
    same = some_inj (
        sym (before-append 46 (display 10 m) s (decimal-Lacks m))
        ∙ ap (before 46) e
        ∙ before-append 46 (display 10 n) t (decimal-Lacks n))

-- Two addresses with the same ending are equal only if their octets are.
address-octets :
    (m n : ℕ) (rest : Text)
    → address m (46 ∷ rest) ≡ address n (46 ∷ rest)
    → (octet2 m ≡ octet2 n) × (octet3 m ≡ octet3 n)
unfolding address octet2 octet3
address-octets m n rest e =
    let (second, more) =
      dotted (octet2 m) (octet2 n) (display 10 (octet3 m) ++ (46 ∷ rest))
        (display 10 (octet3 n) ++ (46 ∷ rest)) (omega arith) (omega arith) (ap (drop 3) e) in
    (second, (dotted (octet3 m) (octet3 n) rest rest (omega arith) (omega arith) more).0)

-- The networks of two instances are the same one exactly when their sequence numbers are the same
-- modulo 16384.
pub build_instance_networks :
    (token : Text) (m n : ℕ)
    → ((build_instance token m).veth_network ≡ (build_instance token n).veth_network)
      ↔ (m % 16384 ≡ n % 16384)
unfolding build_instance address octet2 octet3
build_instance_networks token m n = (
  λ e. let octets = address-octets m n (codes "0/30") e in omega (arith, octets.0, octets.1),
  λ e.
      let high : 64 + m / 256 % 64 ≡ 64 + n / 256 % 64 = omega (arith, e) in
      let low : m % 256 ≡ n % 256 = omega (arith, e) in rw (high, low) refl,
)
