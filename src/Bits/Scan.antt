-- ===== src/Bits/Scan.antt =====
-- The compiler's scans of a word: `__builtin_ctzll`, `__builtin_clzll` and `__builtin_popcountll` on
-- a word of `w` bits, and the words `1 << k`.
use native.Mathlib.Nat.{pow-suc, one-le-pow}
use native.Mathlib.Decide.{ℕ_discrete}
use llir_opt.Prelude.{
  ℕ, zero, suc, ◌+◌, ◌-◌, ◌/◌, ◌%◌, ◌^◌, ◌≤◌, ◌<◌, bit_or, bit_xor, ◌≡◌, ◌≢◌, refl, ap, sym, ◌∙◌,
  inl, inr, true, false, arith, ltb, ◌==◌, if◌then◌else◌, Bool-cases, ==_ne,
}
use llir_opt.Bits.Step.{bit_or_step}
use llir_opt.Bits.{test_bit, bit_xor_digits, test_bit-bit_or, test_bit-zero, eq_of_test_bit}

-- The index of the lowest bit that is set, `w` where there is none.
unfoldable pub ctz : ℕ → ℕ → ℕ
ctz zero x = 0
ctz (suc w) x = let rest = ctz w (x / 2) in if x % 2 == 1 then 0 else suc rest

-- One more than the index of the highest bit that is set, 0 where there is none.
unfoldable pub bit_length : ℕ → ℕ → ℕ
bit_length zero x = 0
bit_length (suc w) x = let rest = bit_length w x in if test_bit x w then suc w else rest

-- The number of zeros above the highest bit that is set.
unfoldable pub clz : ℕ → ℕ → ℕ
unfolding bit_length
clz w x = w - bit_length w x

-- The number of bits that are set.
unfoldable pub popcount : ℕ → ℕ → ℕ
popcount zero x = 0
popcount (suc w) x = x % 2 + popcount w (x / 2)

pub ctz-le : (w x : ℕ) → ctz w x ≤ w
unfolding ctz
ctz-le zero x = omega arith
ctz-le (suc w) x = ground (arith, ctz-le w (x / 2))

pub ctz_zeros : (w x i : ℕ) → i < ctz w x → test_bit x i ≡ false
unfolding ctz
ctz_zeros zero x i h = absurd (omega arith)
ctz_zeros (suc w) x zero h = ground arith
ctz_zeros (suc w) x (suc i) h = ctz_zeros w (x / 2) i (ground arith)

pub ctz_set : (w x : ℕ) → ctz w x < w → test_bit x (ctz w x) ≡ true
unfolding ctz
ctz_set zero x h = absurd (omega arith)
ctz_set (suc w) x h = elim (Bool-cases (x % 2 == 1)) [
  | inl e ↦ rw e e
  | inr e ↦ rw e (ctz_set w (x / 2) (ground arith))
]

-- A word that is not zero has a bit.
pub ctz-lt : (w x : ℕ) → x < 2 ^ w → x ≢ 0 → ctz w x < w
unfolding ctz
ctz-lt zero x h d = absurd (d (omega arith))
ctz-lt (suc w) x h d = elim (Bool-cases (x % 2 == 1)) [
  | inl e ↦ rw e (omega arith)
  | inr e ↦
      let rest = ctz-lt w (x / 2) (omega (arith, pow-suc 2 w)) (λ z. d (ground arith)) in
      rw e (omega (arith, rest))
]

pub bit_length-le : (w x : ℕ) → bit_length w x ≤ w
unfolding bit_length
bit_length-le zero x = omega arith
bit_length-le (suc w) x = ground (arith, bit_length-le w x)

-- The highest bit that is set, and none above.
pub bit_length_set : (w x n : ℕ) → bit_length w x ≡ suc n → test_bit x n ≡ true
unfolding bit_length
bit_length_set zero x n h = absurd (omega arith)
bit_length_set (suc w) x n h = elim (Bool-cases (test_bit x w)) [
  | inl e ↦ let same : w ≡ n = ground arith in rw (sym same) e
  | inr e ↦ bit_length_set w x n (ground arith)
]

pub bit_length_zeros : (w x i : ℕ) → bit_length w x ≤ i → i < w → test_bit x i ≡ false
unfolding bit_length
bit_length_zeros zero x i h k = absurd (omega arith)
bit_length_zeros (suc w) x i h k = elim (Bool-cases (test_bit x w)) [
  | inl e ↦ absurd (ground arith)
  | inr e ↦ elim (Bool-cases (i == w)) [
    | inl f ↦ let same : i ≡ w = ground arith in rw same e
    | inr f ↦ bit_length_zeros w x i (ground arith) (ground arith)
  ]
]

pub bit_length_pos : (w x : ℕ) → x < 2 ^ w → x ≢ 0 → 0 < bit_length w x
bit_length_pos w x h d = elim (Bool-cases (bit_length w x == 0)) [
  | inr e ↦ ground arith
  | inl e ↦ absurd (
      d (
        eq_of_test_bit w x 0 h (one-le-pow w 2 (omega arith))
          (λ i k. bit_length_zeros w x i (ground arith) k ∙ sym (test_bit-zero i))))
]

pub test_bit-pow : (k i : ℕ) → test_bit (2 ^ k) i ≡ (i == k)
test_bit-pow zero zero = refl
test_bit-pow zero (suc i) = test_bit-zero i ∙ sym (==_ne (suc i) 0 (omega arith))
test_bit-pow (suc k) zero = ground (arith, pow-suc 2 k)
test_bit-pow (suc k) (suc i) =
    let half : 2 ^ suc k / 2 ≡ 2 ^ k = omega (arith, pow-suc 2 k) in
    rw half (ground (arith, test_bit-pow k i))

pub clz_lem : (w x : ℕ) → clz w x ≡ w - bit_length w x
unfolding clz
clz_lem w x = refl

-- The mask of the bits below `t`.
pub test_bit-low : (t i : ℕ) → test_bit (2 ^ t - 1) i ≡ ltb i t
test_bit-low zero i = test_bit-zero i ∙ ground arith
test_bit-low (suc t) zero = ground (arith, pow-suc 2 t, one-le-pow t 2)
test_bit-low (suc t) (suc i) =
    let half : (2 ^ suc t - 1) / 2 ≡ 2 ^ t - 1 =
      omega (arith, pow-suc 2 t, one-le-pow t 2 (omega arith)) in
    ap (λ x. test_bit x i) half ∙ test_bit-low t i ∙ ground arith

pub pow-lt : (w k : ℕ) → k < w → 2 ^ k < 2 ^ w
pow-lt zero k h = elim h [ ]
pow-lt (suc w) k h = elim (ℕ_discrete k w) [
  | yes e ↦ omega (arith, pow-suc 2 w, one-le-pow w 2 (omega arith), ap (λ (n : ℕ). 2 ^ n) e)
  | no d ↦ omega (arith, pow-suc 2 w, pow-lt w k (omega arith))
]

-- The bits that an `or` sets anew.
pub popcount-or :
    (w x y : ℕ) → popcount w (bit_or x y) ≡ popcount w x + popcount w (bit_xor x (bit_or x y))
unfolding popcount
popcount-or zero x y = omega arith
popcount-or (suc w) x y =
    let half : bit_or x y / 2 ≡ bit_or (x / 2) (y / 2) = omega (arith, bit_or_step x y) in
    let half' : bit_xor x (bit_or x y) / 2 ≡ bit_xor (x / 2) (bit_or (x / 2) (y / 2)) =
      omega (arith, bit_xor_digits x (bit_or x y)) ∙ ap (bit_xor (x / 2)) half in
    let digits : bit_or x y % 2 ≡ x % 2 + bit_xor x (bit_or x y) % 2 =
      ground (arith, bit_xor_digits x (bit_or x y), test_bit-bit_or 0 x y) in
    rw (half, half') (omega (arith, digits, popcount-or w (x / 2) (y / 2)))
