-- ===== src/Tags/TaggedType/Words.antt =====
-- What the tests of `INT` say of the words that the mask stands for.
use llir_opt.Prelude.{ℕ, ◌<◌, ◌≡◌, ◌≢◌, ap, ◌∙◌, ◌⊎◌, true, false, not, arith}
use llir_opt.Bits.{test_bit, test_bit-bit_not, test_bit-bit_and, eq_of_test_bit, test_bit-zero}
use llir_opt.Tags.MaskedType.{all_ones, MaskedType}
use llir_opt.Tags.MaskedType.Sound.{Matches, IsMask}
use llir_opt.Tags.TaggedType.{int, is_odd, is_even, is_zero, is_one, is_zero_or_one, is_non_zero}

all_ones_bits : (i : ℕ) → i < 64 → test_bit all_ones i ≡ true
all_ones_bits i h = test_bit-bit_not 64 i 0 (omega arith) h ∙ ap not (test_bit-zero i)

-- A mask that knows all bits stands for its value only.
pub known_word :
    (m : MaskedType) (x : ℕ) → IsMask m → Matches m x → m.known ≡ all_ones → x ≡ m.value
known_word m x p h e =
    eq_of_test_bit 64 x m.value h.word p.value_word
      (λ i k. h.agrees i k (ap (λ z. test_bit z i) e ∙ all_ones_bits i k))

-- The lowest bit of a word of a mask that knows it.
pub is_odd-word :
    (m : MaskedType) (x : ℕ) → Matches m x → is_odd (int m) ≡ true → test_bit x 0 ≡ true
unfolding is_odd
is_odd-word m x h e =
    ground
      (arith, h.agrees 0 (omega arith), test_bit-bit_and 0 m.known 1, test_bit-bit_and 0 m.value 1)

pub is_even-word :
    (m : MaskedType) (x : ℕ) → Matches m x → is_even (int m) ≡ true → test_bit x 0 ≡ false
unfolding is_even
is_even-word m x h e =
    ground
      (arith, h.agrees 0 (omega arith), test_bit-bit_and 0 m.known 1, test_bit-bit_and 0 m.value 1)

pub is_zero-word :
    (m : MaskedType) (x : ℕ) → IsMask m → Matches m x → is_zero (int m) ≡ true → x ≡ 0
unfolding is_zero
is_zero-word m x p h e = ground (arith, known_word m x p h)

pub is_one-word : (m : MaskedType) (x : ℕ) → IsMask m → Matches m x → is_one (int m) ≡ true → x ≡ 1
unfolding is_one
is_one-word m x p h e = ground (arith, known_word m x p h)

pub is_zero_or_one-word :
    (m : MaskedType) (x : ℕ)
    → IsMask m
    → Matches m x
    → is_zero_or_one (int m) ≡ true
    → (x ≡ 0) ⊎ (x ≡ 1)
unfolding is_zero_or_one
is_zero_or_one-word m x p h e = ground (arith, known_word m x p h)

-- A known bit that is set is set in the word, which is then not zero.
pub is_non_zero-word :
    (m : MaskedType) (x : ℕ) → IsMask m → Matches m x → is_non_zero (int m) ≡ true → x ≢ 0
unfolding is_non_zero
is_non_zero-word m x p h e z =
    let zero_value : m.value ≡ 0 = eq_of_test_bit 64 m.value 0 p.value_word (omega arith) (λ i k.
      ground (arith, p.inside i, h.agrees i k, ap (λ n. test_bit n i) z, test_bit-zero i)) in
    ground arith
