-- ===== src/Tags/MaskedType/Tests.antt =====
-- The operations on masked words at concrete masks: the low bit of one is not known.
use llir_opt.Prelude.{ℕ, ◌+◌, ◌-◌, ◌%◌, ◌<◌, bit_and, bit_or, bit_xor, arith}
use llir_opt.Bits.{test_bit-bit_and}
use llir_opt.Bits.Scan.{ctz, ctz-le, ctz_zeros, ctz_set}
use llir_opt.Tags.MaskedType.{
  u64, all_ones, not64, BitScan, MaskedType, masked, and, or, exclusive_or, complement, add, sub,
}
use llir_opt.Tags.MaskedType.Sound.{Matches, IsMask, Covers, masked-IsMask, bitwise_sound}
use llir_opt.Tags.MaskedType.Arith.{add_sound, sub_sound}

abbrev pub scan : BitScan
scan = record {
  count_trailing_zeros = λ x. ctz 64 x;
  within = λ x. ctz-le 64 x;
  zeros = λ x i h. ctz_zeros 64 x i h;
  stops = λ x h. ctz_set 64 x h;
}

masked-Matches : (x known : ℕ) → x < u64 → Matches (masked x known) x
unfolding masked
masked-Matches x known h = record {
  word = h;
  agrees = λ i k e. ground (arith, test_bit-bit_and i x known);
}

-- An even or odd small word, of which the lowest bit is not known, and one of which it is known.
abbrev four_or_five : MaskedType
four_or_five = masked 4 (all_ones - 1)

abbrev an_odd : MaskedType
an_odd = masked 1 1

four_or_five-IsMask : IsMask four_or_five
four_or_five-IsMask = masked-IsMask 4 (all_ones - 1) (omega arith) (omega arith)

an_odd-IsMask : IsMask an_odd
an_odd-IsMask = masked-IsMask 1 1 (omega arith) (omega arith)

five-Matches : Matches four_or_five 5
unfolding masked
five-Matches = masked-Matches 5 (all_ones - 1) (omega arith)

seven-Matches : Matches an_odd 7
unfolding masked
seven-Matches = masked-Matches 7 1 (omega arith)

add_sound_example : Matches (add scan four_or_five an_odd) ((5 + 7) % u64)
add_sound_example =
    add_sound scan four_or_five an_odd 5 7 four_or_five-IsMask an_odd-IsMask five-Matches
      seven-Matches

sub_sound_example : Matches (sub scan four_or_five an_odd) ((5 + u64 - 7) % u64)
sub_sound_example =
    sub_sound scan four_or_five an_odd 5 7 four_or_five-IsMask an_odd-IsMask five-Matches
      seven-Matches

bitwise_sound_example :
    Covers (and four_or_five an_odd) (bit_and 5 7)
    × Covers (or four_or_five an_odd) (bit_or 5 7)
    × Covers (exclusive_or four_or_five an_odd) (bit_xor 5 7)
    × Covers (complement four_or_five) (not64 5)
bitwise_sound_example =
    bitwise_sound four_or_five an_odd 5 7 (four_or_five-IsMask, five-Matches)
      (an_odd-IsMask, seven-Matches)
