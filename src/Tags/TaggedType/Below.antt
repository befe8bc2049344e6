-- ===== src/Tags/TaggedType/Below.antt =====
-- passes/tags/tagged_type.cpp: `operator<` compares the types by the values that they allow, but
-- for two of its entries.
use llir_opt.Prelude.{ℕ, bit_and, ◌≡◌, refl, ap, ◌∙◌, Bool, true, false, arith}
use llir_opt.Bits.{test_bit, test_bit-bit_and}
use llir_opt.Tags.MaskedType.{MaskedType}
use llir_opt.Tags.TaggedType.{TaggedType, int, val, ptr, addr_null, is_odd, is_zero}
use llir_opt.Tags.TaggedType.Operators.{less, less_mask}
use llir_opt.Tags.TaggedType.Values.{Region, Value, word, pointer, allows, HasWord, WordOf, Has}
use llir_opt.Tags.TaggedType.Join.{WellFormed, word_facts}

less_mask_bits :
    (m n : MaskedType) (i : ℕ)
    → bit_and n.known m.known ≡ n.known
    → bit_and n.value n.known ≡ bit_and m.value n.known
    → test_bit n.known i ≡ true
    → (test_bit m.known i ≡ true) × (test_bit m.value i ≡ test_bit n.value i)
less_mask_bits m n i e f h = ground (
  arith,
  ap (λ z. test_bit z i) e,
  ap (λ z. test_bit z i) f,
  test_bit-bit_and i n.known m.known,
  test_bit-bit_and i n.value n.known,
  test_bit-bit_and i m.value n.known,
)

-- The words of a mask are words of every mask above it.
less_mask-WordOf : (m n : MaskedType) (x : ℕ) → less_mask m n ≡ true → WordOf m x → WordOf n x
unfolding less_mask WordOf
less_mask-WordOf m n x h k = record {
  word = k.word;
  agrees = λ i b e.
      let bits = less_mask_bits m n i (ground arith) (ground arith) e in
      k.agrees i b (bits.0) ∙ bits.1;
}

-- The two entries that are no inclusions: `VAL < PTR` and `ADDR_NULL < PTR`.
abbrev pub drops_words : TaggedType → TaggedType → Bool
drops_words val ptr = true
drops_words addr_null ptr = true
drops_words _ _ = false

less-allows :
    (a b : TaggedType) (r : Region) → less a b ≡ true → allows a r ≡ true → allows b r ≡ true
unfolding less allows
less-allows a b r h k = ground arith

less_words :
    (a b : TaggedType) (x : ℕ)
    → WellFormed a
    → less a b ≡ true
    → drops_words a b ≡ false
    → HasWord a x
    → HasWord b x
unfolding less HasWord is_odd is_zero
less_words (int m) (int n) x p h d k = less_mask-WordOf m n x h k
less_words (int m) b x p h d k = ground (arith, word_facts m x p k)
less_words a b x p h d k = ground arith

-- Where a type with a valid mask is less than another, but for the entries `VAL < PTR` and
-- `ADDR_NULL < PTR`, every value that the smaller allows is allowed by the greater.
pub less_sound :
    (a b : TaggedType) (v : Value)
    → WellFormed a
    → less a b ≡ true
    → drops_words a b ≡ false
    → Has a v
    → Has b v
unfolding Has
less_sound a b (word x) p h d k = less_words a b x p h d k
less_sound a b (pointer r) p h d k = less-allows a b r h k

-- For the entries `VAL < PTR` and `ADDR_NULL < PTR` of `operator<` there is a value that the
-- smaller type allows and the greater does not.
pub less-drops_words :
    (a b : TaggedType)
    → drops_words a b ≡ true
    → (less a b ≡ true) × ((v : Value) × Has a v × ¬ Has b v)
unfolding less Has HasWord
less-drops_words val ptr h = (refl, (word 1, (omega arith, refl), λ k. k))
less-drops_words addr_null ptr h = (refl, (word 0, refl, λ k. k))
less-drops_words a b h = absurd (ground arith)
