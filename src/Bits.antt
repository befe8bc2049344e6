-- ===== src/Bits.antt =====
-- The bits of a number, and what the machine's bitwise operators do to each of them.
mod Step
pub mod Sums
pub mod Scan
use Step.{bit_and_step, bit_or_step, bit_xor_step, differ_digits}
use mathlib.Core.WellFounded
use native.Mathlib.Nat.{pow-suc, one-le-pow}
use llir_opt.Prelude.{
  ℕ, zero, suc, ◌+◌, ◌-◌, ◌*◌, ◌/◌, ◌%◌, ◌^◌, ◌≤◌, ◌<◌, bit_and, bit_or, bit_xor, ◌≡◌, refl, ap,
  Bool, true, false, not, xor, ◌&&◌, ◌||◌, arith, ◌==◌,
}

-- Bit `i` of `x`.
abbrev pub test_bit : ℕ → ℕ → Bool
test_bit x zero = x % 2 == 1
test_bit x (suc i) = test_bit (x / 2) i

-- `~x` on a word of `w` bits.
abbrev pub bit_not : ℕ → ℕ → ℕ
bit_not w x = 2 ^ w - 1 - x

pub test_bit-bit_and : (i a b : ℕ) → test_bit (bit_and a b) i ≡ (test_bit a i && test_bit b i)
test_bit-bit_and zero a b = ground (arith, bit_and_step a b)
test_bit-bit_and (suc i) a b =
    let half : bit_and a b / 2 ≡ bit_and (a / 2) (b / 2) = omega (arith, bit_and_step a b) in
    rw half (test_bit-bit_and i (a / 2) (b / 2))

pub test_bit-bit_or : (i a b : ℕ) → test_bit (bit_or a b) i ≡ (test_bit a i || test_bit b i)
test_bit-bit_or zero a b = ground (arith, bit_or_step a b)
test_bit-bit_or (suc i) a b =
    let half : bit_or a b / 2 ≡ bit_or (a / 2) (b / 2) = omega (arith, bit_or_step a b) in
    rw half (test_bit-bit_or i (a / 2) (b / 2))

pub bit_xor_digits : (a b : ℕ) → bit_xor a b ≡ bit_xor (a / 2) (b / 2) * 2 + (a % 2 + b % 2) % 2
bit_xor_digits a b =
    omega (arith, bit_xor_step a b, differ_digits (a % 2) (b % 2) (omega arith) (omega arith))

pub test_bit-bit_xor : (i a b : ℕ) → test_bit (bit_xor a b) i ≡ xor (test_bit a i) (test_bit b i)
test_bit-bit_xor zero a b = ground (arith, bit_xor_digits a b)
test_bit-bit_xor (suc i) a b =
    let half : bit_xor a b / 2 ≡ bit_xor (a / 2) (b / 2) = omega (arith, bit_xor_digits a b) in
    rw half (test_bit-bit_xor i (a / 2) (b / 2))

-- Inside the word, complement flips the bit.
pub test_bit-bit_not :
    (w i x : ℕ) → x < 2 ^ w → i < w → test_bit (bit_not w x) i ≡ not (test_bit x i)
test_bit-bit_not zero i x h k = absurd (omega arith)
test_bit-bit_not (suc w) zero x h k = ground (arith, pow-suc 2 w)
test_bit-bit_not (suc w) (suc i) x h k =
    let half : bit_not (suc w) x / 2 ≡ bit_not w (x / 2) = omega (arith, pow-suc 2 w) in
    rw half (test_bit-bit_not w i (x / 2) (omega (arith, pow-suc 2 w)) (omega arith))

pub test_bit-zero : (i : ℕ) → test_bit 0 i ≡ false
test_bit-zero zero = refl
test_bit-zero (suc i) = test_bit-zero i

-- Past the word there are no bits.
pub test_bit_above : (w i x : ℕ) → x < 2 ^ w → w ≤ i → test_bit x i ≡ false
test_bit_above zero i x h k = let e : x ≡ 0 = omega arith in rw e (test_bit-zero i)
test_bit_above (suc w) zero x h k = absurd (omega arith)
test_bit_above (suc w) (suc i) x h k =
    test_bit_above w i (x / 2) (omega (arith, pow-suc 2 w)) (omega arith)

-- Words with the same bits are the same word.
pub eq_of_test_bit :
    (w x y : ℕ) → x < 2 ^ w → y < 2 ^ w → ((i : ℕ) → i < w → test_bit x i ≡ test_bit y i) → x ≡ y
eq_of_test_bit zero x y p q h = omega arith
eq_of_test_bit (suc w) x y p q h =
    let rest : x / 2 ≡ y / 2 =
      eq_of_test_bit w (x / 2) (y / 2) (omega (arith, pow-suc 2 w)) (omega (arith, pow-suc 2 w))
        (λ i k. h (suc i) (omega arith)) in
    let first : x % 2 ≡ y % 2 = ground (arith, h 0 (omega arith)) in omega arith

-- A number with no bit from `w` on fits into `w` bits.
pub lt_pow_of_test_bit :
    (w n x : ℕ) → x < 2 ^ n → ((i : ℕ) → w ≤ i → test_bit x i ≡ false) → x < 2 ^ w
lt_pow_of_test_bit w zero x p h = omega (arith, one-le-pow w 2)
lt_pow_of_test_bit zero (suc n) x p h =
    let rest : x / 2 < 1 =
      lt_pow_of_test_bit zero n (x / 2) (omega (arith, pow-suc 2 n))
        (λ i k. h (suc i) (omega arith)) in
    let first : x % 2 ≡ 0 = ground (arith, h 0 (omega arith)) in omega arith
lt_pow_of_test_bit (suc w) (suc n) x p h =
    let rest : x / 2 < 2 ^ w =
      lt_pow_of_test_bit w n (x / 2) (omega (arith, pow-suc 2 n))
        (λ i k. h (suc i) (omega arith)) in
    omega (arith, pow-suc 2 w)

-- Words are closed under the operators.
pub bit_and-lt : (w a b : ℕ) → a < 2 ^ w → b < 2 ^ w → bit_and a b < 2 ^ w
bit_and-lt zero a b p q =
    let e : a ≡ 0 = omega arith in let f : b ≡ 0 = omega arith in rw (e, f) (omega arith)
bit_and-lt (suc w) a b p q = omega (
  arith,
  pow-suc 2 w,
  bit_and_step a b,
  bit_and-lt w (a / 2) (b / 2) (omega (arith, pow-suc 2 w)) (omega (arith, pow-suc 2 w)),
)

pub bit_or-lt : (w a b : ℕ) → a < 2 ^ w → b < 2 ^ w → bit_or a b < 2 ^ w
bit_or-lt zero a b p q =
    let e : a ≡ 0 = omega arith in let f : b ≡ 0 = omega arith in rw (e, f) (omega arith)
bit_or-lt (suc w) a b p q = omega (
  arith,
  pow-suc 2 w,
  bit_or_step a b,
  bit_or-lt w (a / 2) (b / 2) (omega (arith, pow-suc 2 w)) (omega (arith, pow-suc 2 w)),
)

pub bit_xor-lt : (w a b : ℕ) → a < 2 ^ w → b < 2 ^ w → bit_xor a b < 2 ^ w
bit_xor-lt zero a b p q =
    let e : a ≡ 0 = omega arith in let f : b ≡ 0 = omega arith in rw (e, f) (omega arith)
bit_xor-lt (suc w) a b p q = omega (
  arith,
  pow-suc 2 w,
  bit_xor_digits a b,
  bit_xor-lt w (a / 2) (b / 2) (omega (arith, pow-suc 2 w)) (omega (arith, pow-suc 2 w)),
)

pub bit_not-lt : (w x : ℕ) → bit_not w x < 2 ^ w
bit_not-lt w x = omega (arith, one-le-pow w 2 (omega arith))
