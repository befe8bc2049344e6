-- ===== src/Sccp/Lattice/Tests.antt =====
-- The laws of the lattice on integers and floats of eight bits.
use llir_opt.Prelude.{
  ℕ, ◌%◌, ◌^◌, ◌<◌, bit_and, bit_xor, ◌≡◌, refl, sym, ap, ◌∙◌, ◌↔◌, inr, Bool, true, false, not,
  ◌||◌, arith, ==_iff, ◌==◌,
}
use llir_opt.Bits.{
  test_bit, bit_not, test_bit-bit_and, test_bit-bit_xor, test_bit-bit_not, eq_of_test_bit,
  test_bit-zero,
}
use llir_opt.Bits.Sums.{test_bit-mod}
use llir_opt.Sccp.Lattice.{ApInt, ApFloat, int, mask, Fact, is_true, lub}
use llir_opt.Sccp.Lattice.Values.{int_value, Agrees, Holds, truth}
use llir_opt.Sccp.Lattice.Bounds.{lub_sound, decided_sound}

pub flip_bit : (i x : ℕ) → i < 8 → test_bit (bit_not 8 (x % 2 ^ 8)) i ≡ not (test_bit x i)
flip_bit i x h = test_bit-bit_not 8 i (x % 2 ^ 8) (omega arith) h ∙ ap not (test_bit-mod 8 i x h)

pub null_iff : (x : ℕ) → ((x % 2 ^ 8 == 0) ≡ true) ↔ ((i : ℕ) → i < 8 → test_bit x i ≡ false)
null_iff x = (
  λ e i h. sym (test_bit-mod 8 i x h) ∙ rw ((==_iff (x % 2 ^ 8) 0).0 e) (test_bit-zero i),
  λ f. (==_iff (x % 2 ^ 8) 0).1 (
      eq_of_test_bit 8 (x % 2 ^ 8) 0 (omega arith) (omega arith)
        (λ i h. test_bit-mod 8 i x h ∙ f i h ∙ sym (test_bit-zero i))),
)

abbrev pub bytes : ApInt
bytes = record {
  Carrier = ℕ;
  width = 8;
  bit = test_bit;
  conj = bit_and;
  differ = bit_xor;
  flip = λ x. bit_not 8 (x % 2 ^ 8);
  is_null_value = λ x. x % 2 ^ 8 == 0;
  same_int = λ x y. x == y;
  bit-conj = λ i a b h. test_bit-bit_and i a b;
  bit-differ = λ i a b h. test_bit-bit_xor i a b;
  bit-flip = λ i a h. flip_bit i a h;
  is_null_value_iff = null_iff;
  same_int_iff = ==_iff;
}

-- Sign and magnitude, with two zeros.
abbrev pub tiny_floats : ApFloat
tiny_floats = record {
  Carrier = ℕ;
  is_zero = λ x. x == 0 || x == 128;
  bitwise_is_equal = λ x y. x == y;
  bitwise_is_equal_iff = ==_iff;
}

-- Symbol 1 is weak.
abbrev pub weak_one : ℕ → Bool
weak_one sym = sym == 1

abbrev five : Fact bytes tiny_floats weak_one
five = int 5

lub_sound_example :
    Holds bytes tiny_floats weak_one
      (lub bytes tiny_floats weak_one (int 12) (int 10))
      (int_value 10)
unfolding Holds
lub_sound_example =
    lub_sound bytes tiny_floats weak_one (int 12) (int 10) (int_value 10) refl (inr refl)

decided_sound_example : truth bytes tiny_floats weak_one (int_value 6) ≡ true
unfolding Holds Agrees is_true
decided_sound_example =
    decided_sound bytes tiny_floats weak_one true (mask 4 4) (int_value 6) refl refl
      (λ i h e. ground (arith, test_bit-bit_and i 6 4))
