-- ===== src/Tags/TaggedType/Idempotent.antt =====
-- passes/tags/tagged_type.cpp: `operator|` of a type with itself.
use llir_opt.Prelude.{ℕ, ◌<◌, bit_and, bit_xor, ◌≡◌, ap, ◌∙◌, ◌≢◌, some, arith}
use llir_opt.Bits.{
  test_bit, test_bit-bit_and, test_bit-bit_xor, test_bit-bit_not, eq_of_test_bit, bit_xor-lt,
  bit_and-lt, bit_not-lt,
}
use llir_opt.Tags.MaskedType.{u64, not64, MaskedType, masked}
use llir_opt.Tags.MaskedType.Sound.{IsMask}
use llir_opt.Tags.TaggedType.{TaggedType, int, addr_null, join_mask}
use llir_opt.Tags.TaggedType.Operators.{join}
use llir_opt.Tags.TaggedType.Join.{WellFormed}

join_mask-same_known :
    (m : MaskedType) (i : ℕ)
    → IsMask m
    → i < 64
    → test_bit (join_mask m m).known i ≡ test_bit m.known i
unfolding join_mask masked
join_mask-same_known m i p h =
    let same = not64 (bit_xor m.value m.value) in
    ground (
      arith,
      test_bit-bit_not 64 i _ (bit_xor-lt 64 _ _ p.value_word p.value_word) h,
      test_bit-bit_xor i m.value m.value,
      test_bit-bit_and i same m.known,
      test_bit-bit_and i (bit_and same m.known) m.known,
    )

join_mask-same_value :
    (m : MaskedType) (i : ℕ)
    → IsMask m
    → i < 64
    → test_bit (join_mask m m).value i ≡ test_bit m.value i
unfolding join_mask masked
join_mask-same_value m i p h =
    let known = (join_mask m m).known in
    ground (
      arith,
      p.inside i,
      join_mask-same_known m i p h,
      test_bit-bit_and i m.value known,
      test_bit-bit_and i (bit_and m.value known) known,
    )

known_word-join_mask : (m : MaskedType) → IsMask m → (join_mask m m).known < u64
unfolding join_mask masked
known_word-join_mask m p =
    bit_and-lt 64 _ _ (bit_and-lt 64 _ _ (bit_not-lt 64 _) p.known_word) p.known_word

value_word-join_mask : (m : MaskedType) → IsMask m → (join_mask m m).value < u64
unfolding join_mask masked
value_word-join_mask m p =
    bit_and-lt 64 _ _ (bit_and-lt 64 _ _ p.value_word (known_word-join_mask m p))
      (known_word-join_mask m p)

join_mask-same : (m : MaskedType) → IsMask m → join_mask m m ≡ m
join_mask-same m p =
    let known : (join_mask m m).known ≡ m.known =
      eq_of_test_bit 64 _ _ (known_word-join_mask m p) p.known_word
        (λ i h. join_mask-same_known m i p h) in
    let value : (join_mask m m).value ≡ m.value =
      eq_of_test_bit 64 _ _ (value_word-join_mask m p) p.value_word
        (λ i h. join_mask-same_value m i p h) in
    ap (λ v. record { value = v; known = (join_mask m m).known }) value
    ∙ ap (λ k. record { value = m.value; known = k }) known

-- `operator|` of a type that has a valid mask with itself is the type, but for `ADDR_NULL`, where it
-- is not implemented.
pub join_idempotent : (t : TaggedType) → WellFormed t → t ≢ addr_null → join t t ≡ some t
unfolding join WellFormed
join_idempotent (int m) p d = ap (λ n. some (int n)) (join_mask-same m p)
join_idempotent t p d = ground arith
