-- ===== src/Tags/MaskedType/Arith.antt =====
-- Sums and differences of masked words: the run of bits known in both from the lowest on stays known.
use mathlib.Core.Path.{subst}
use native.Mathlib.Nat.{mod-eq_of_lt}
use native.Mathlib.Decide.{ℕ_discrete, dec_lt}
use llir_opt.Prelude.{
  ℕ, ◌+◌, ◌-◌, ◌%◌, ◌^◌, ◌≤◌, ◌<◌, bit_and, ◌≡◌, refl, sym, ap, ◌∙◌, true, arith, ltb, ◌==◌, ==_iff,
  ==_ne, if◌then◌else◌, Bool-cases, inl, inr,
}
use llir_opt.Bits.{
  test_bit, test_bit-bit_and, test_bit-bit_not, test_bit-zero, bit_and-lt, test_bit_above,
  eq_of_test_bit,
}
use llir_opt.Bits.Scan.{test_bit-low, pow-lt}
use llir_opt.Bits.Sums.{test_bit-mod, test_bit-add}
use llir_opt.Tags.MaskedType.{
  u64, all_ones, not64, BitScan, MaskedType, exact, masked, complement, add, sub,
}
use llir_opt.Tags.MaskedType.Sound.{
  Matches, IsMask, masked-IsMask, masked_value, complement_sound, complement-IsMask,
}

pow_small : (t : ℕ) → t < 64 → 2 ^ t < 2 ^ 64
pow_small t h = pow-lt 64 t h

bit_and-all_ones : (x : ℕ) → x < u64 → bit_and x all_ones ≡ x
bit_and-all_ones x h =
    eq_of_test_bit 64 (bit_and x all_ones) x (bit_and-lt 64 x all_ones h (omega arith)) h
      λ i l. ground (arith, test_bit-bit_and i x all_ones, test_bit-low 64 i)

module _ (scan : BitScan) where
  open scan use {count_trailing_zeros}

  abbrev both_known : MaskedType → MaskedType → ℕ
  both_known a b = bit_and a.known b.known

  abbrev run : MaskedType → MaskedType → ℕ
  run a b = count_trailing_zeros (not64 (both_known a b))

  -- Below the run every bit of both masks is known.
  run_known :
      (a b : MaskedType) (i : ℕ)
      → IsMask a
      → IsMask b
      → i < run a b
      → (test_bit a.known i ≡ true) × (test_bit b.known i ≡ true)
  run_known a b i ma mb h =
      let word = bit_and-lt 64 a.known b.known ma.known_word mb.known_word in
      let clear = scan.zeros (not64 (both_known a b)) i h in
      let flips =
        test_bit-bit_not 64 i (both_known a b) word
          (omega (arith, scan.within (not64 (both_known a b)))) in
      let both = test_bit-bit_and i a.known b.known in
      (ground (arith, clear, flips, both), ground (arith, clear, flips, both))

  add_known :
      (a b : MaskedType) (i : ℕ) → i < 64 → test_bit (add scan a b).known i ≡ ltb i (run a b)
  unfolding add masked
  add_known a b i h = elim (ℕ_discrete (run a b) 64) [
    | yes e ↦ rw ((==_iff (run a b) 64).1 e) (test_bit-low 64 i ∙ rw e refl)
    | no d ↦ rw (==_ne (run a b) 64 d) (
        ap (λ t. test_bit (t - 1) i)
          (mod-eq_of_lt (pow_small (run a b) (omega (arith, scan.within (not64 (both_known a b))))))
        ∙ test_bit-low (run a b) i)
  ]

  add_value :
      (a b : MaskedType) (i : ℕ)
      → test_bit (add scan a b).known i ≡ true
      → test_bit (add scan a b).value i ≡ test_bit ((a.value + b.value) % u64) i
  unfolding add
  add_value a b i k = masked_value ((a.value + b.value) % u64) _ i k

  -- `+` of two valid masks matches the sum, taken modulo 2^64, of any two words that they match.
  pub add_sound :
      (a b : MaskedType) (x y : ℕ)
      → IsMask a
      → IsMask b
      → Matches a x
      → Matches b y
      → Matches (add scan a b) ((x + y) % u64)
  add_sound a b x y ma mb p q = record {
    word = omega arith;
    agrees = λ i h k.
        let in_run : i < run a b = ground (arith, add_known a b i h) in
        let known = λ (j : ℕ) (l : j ≤ i). run_known a b j ma mb (omega arith) in
        let sum =
          test_bit-add i x a.value y b.value (λ j l. p.agrees j (omega arith) (known j l).0)
            (λ j l. q.agrees j (omega arith) (known j l).1) in
        test_bit-mod 64 i (x + y) h
        ∙ sum
        ∙ sym (test_bit-mod 64 i (a.value + b.value) h)
        ∙ sym (add_value a b i k);
  }

  pub add-IsMask : (a b : MaskedType) → IsMask (add scan a b)
  unfolding add
  add-IsMask a b = masked-IsMask _ _ (omega arith) (low_word (run a b))
    where
      low_word : (t : ℕ) → (if t == 64 then all_ones else (2 ^ t) % u64 - 1) < u64
      low_word t = ground arith

  exact-IsMask : (v : ℕ) → v < u64 → IsMask (exact v)
  unfolding exact
  exact-IsMask v h = record {
    value_word = h;
    known_word = omega arith;
    inside = λ i k. elim (Bool-cases (ltb i 64)) [
      | inl l ↦ test_bit-low 64 i ∙ l
      | inr l ↦ absurd (cc (test_bit_above 64 i v h (ground arith)))
    ];
  }

  exact-Matches : (v : ℕ) → v < u64 → Matches (exact v) v
  unfolding exact
  exact-Matches v h = record { word = h; agrees = λ i l k. refl }

  -- `-` of two valid masks matches the difference, taken modulo 2^64, of any two words that they
  -- match.
  pub sub_sound :
      (a b : MaskedType) (x y : ℕ)
      → IsMask a
      → IsMask b
      → Matches a x
      → Matches b y
      → Matches (sub scan a b) ((x + u64 - y) % u64)
  unfolding sub
  sub_sound a b x y ma mb p q =
      let wrapped : ((x + not64 y) % u64 + 1) % u64 ≡ (x + u64 - y) % u64 =
        omega (arith, p.word, q.word) in
      subst (Matches (sub scan a b)) wrapped (
        add_sound (add scan a (complement b)) (exact 1) ((x + not64 y) % u64) 1
          (add-IsMask a (complement b)) (exact-IsMask 1 (omega arith))
          (add_sound a (complement b) x (not64 y) ma (complement-IsMask b mb) p
            (complement_sound b y mb q))
          (exact-Matches 1 (omega arith)))

  count_trailing_zeros_zero : count_trailing_zeros 0 ≡ 64
  count_trailing_zeros_zero = elim (dec_lt (count_trailing_zeros 0) 64) [
    | yes l ↦ absurd (cc (scan.stops 0 l, test_bit-zero (count_trailing_zeros 0)))
    | no l ↦ omega (arith, scan.within 0)
  ]

  -- `+` of the masks of two constants is the mask of their sum, taken modulo 2^64.
  add-exact : (v w : ℕ) → v < u64 → w < u64 → add scan (exact v) (exact w) ≡ exact ((v + w) % u64)
  unfolding add exact masked
  add-exact v w h k = rw count_trailing_zeros_zero (
      ap (λ t. record { value = t; known = all_ones })
        (bit_and-all_ones ((v + w) % u64) (omega arith)))
