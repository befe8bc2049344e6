-- ===== src/Tags/TaggedType/Join.antt =====
-- passes/tags/tagged_type.cpp: `operator|` is an upper bound. A value that either operand allows is
-- allowed by the result, wherever the join is implemented.
use llir_opt.Prelude.{
  ℕ, ◌<◌, bit_and, bit_xor, ◌≡◌, sym, ◌∙◌, ◌⊎◌, inl, inr, true, some, arith, eq_of_some,
}
use llir_opt.Bits.{test_bit, test_bit-bit_and, test_bit-bit_xor, test_bit-bit_not, bit_xor-lt}
use llir_opt.Tags.MaskedType.{u64, not64, MaskedType, masked}
use llir_opt.Tags.MaskedType.Sound.{Matches, IsMask}
use llir_opt.Tags.TaggedType.{TaggedType, int, is_odd, is_zero, join_mask}
use llir_opt.Tags.TaggedType.Operators.{join}
use llir_opt.Tags.TaggedType.Values.{Region, Value, word, pointer, allows, HasWord, WordOf, Has}
use llir_opt.Tags.TaggedType.Words.{is_odd-word, is_zero-word}

-- The pointers of either operand are allowed by the join.
join-allows_left :
    (a b c : TaggedType) (r : Region) → join a b ≡ some c → allows a r ≡ true → allows c r ≡ true
unfolding join allows
join-allows_left a b c r h k = ground arith

join-allows_right :
    (a b c : TaggedType) (r : Region) → join a b ≡ some c → allows b r ≡ true → allows c r ≡ true
unfolding join allows
join-allows_right a b c r h k = ground arith

-- A bit that the joined mask knows is known to both, with the value that it has in both.
join_mask_bits :
    (m n : MaskedType) (i : ℕ)
    → IsMask m
    → IsMask n
    → i < 64
    → test_bit (join_mask m n).known i ≡ true
    → (test_bit m.known i ≡ true)
      × (test_bit n.known i ≡ true)
      × (test_bit (join_mask m n).value i ≡ test_bit m.value i)
      × (test_bit m.value i ≡ test_bit n.value i)
unfolding join_mask masked
join_mask_bits m n i p q k e =
    let same = not64 (bit_xor m.value n.value) in
    let both = bit_and (bit_and same m.known) n.known in
    ground (
      arith,
      test_bit-bit_not 64 i _ (bit_xor-lt 64 _ _ p.value_word q.value_word) k,
      test_bit-bit_xor i m.value n.value,
      test_bit-bit_and i same m.known,
      test_bit-bit_and i (bit_and same m.known) n.known,
      test_bit-bit_and i m.value both,
      test_bit-bit_and i (bit_and m.value both) both,
    )

-- The words of either mask are words of the joined mask.
pub join_mask-Matches :
    (m n : MaskedType) (x : ℕ)
    → IsMask m
    → IsMask n
    → Matches m x ⊎ Matches n x
    → Matches (join_mask m n) x
join_mask-Matches m n x p q (inl h) = record {
  word = h.word;
  agrees = λ i k e. let b = join_mask_bits m n i p q k e in h.agrees i k (b.0) ∙ sym (b.2);
}
join_mask-Matches m n x p q (inr h) = record {
  word = h.word;
  agrees =
      λ i k e. let b = join_mask_bits m n i p q k e in h.agrees i k (b.1) ∙ (sym (b.3) ∙ sym (b.2));
}

-- The masks inside a type are masks.
unfoldable pub WellFormed : TaggedType → Type 0
WellFormed (int m) = IsMask m
WellFormed _ = Unit

-- What the rows for `INT` use of the words of a mask.
pub word_facts :
    (m : MaskedType) (x : ℕ)
    → WellFormed (int m)
    → WordOf m x
    → (x < u64) × (is_odd (int m) ≡ true → test_bit x 0 ≡ true) × (is_zero (int m) ≡ true → x ≡ 0)
unfolding WordOf WellFormed
word_facts m x p h = (h.word, is_odd-word m x h, is_zero-word m x p h)

join_int_words :
    (m n : MaskedType) (c : TaggedType) (x : ℕ)
    → WellFormed (int m)
    → WellFormed (int n)
    → int (join_mask m n) ≡ c
    → WordOf m x ⊎ WordOf n x
    → HasWord c x
unfolding WordOf WellFormed HasWord
join_int_words m n c x p q e h = rw (sym e) (join_mask-Matches m n x p q h)

join_words_left :
    (a b c : TaggedType) (x : ℕ)
    → WellFormed a
    → WellFormed b
    → join a b ≡ some c
    → HasWord a x
    → HasWord c x
unfolding join HasWord
join_words_left (int m) (int n) c x p q h k = join_int_words m n c x p q (eq_of_some h) (inl k)
join_words_left (int m) b c x p q h k = ground (arith, word_facts m x p k)
join_words_left a b c x p q h k = ground arith

join_words_right :
    (a b c : TaggedType) (x : ℕ)
    → WellFormed a
    → WellFormed b
    → join a b ≡ some c
    → HasWord b x
    → HasWord c x
unfolding join HasWord
join_words_right (int m) (int n) c x p q h k = join_int_words m n c x p q (eq_of_some h) (inr k)
join_words_right a (int n) c x p q h k = ground (arith, word_facts n x q k)
join_words_right a b c x p q h k = ground arith

-- Wherever the join of two types with valid masks is implemented, it allows every value that
-- either of them allows.
pub join_sound :
    (a b c : TaggedType) (v : Value)
    → WellFormed a
    → WellFormed b
    → join a b ≡ some c
    → Has a v ⊎ Has b v
    → Has c v
unfolding Has
join_sound a b c (word x) p q h (inl k) = join_words_left a b c x p q h k
join_sound a b c (word x) p q h (inr k) = join_words_right a b c x p q h k
join_sound a b c (pointer r) p q h (inl k) = join-allows_left a b c r h k
join_sound a b c (pointer r) p q h (inr k) = join-allows_right a b c r h k
