-- ===== src/Tags/Step/Pointers.antt =====
-- passes/tags/eval/add.cpp: the table of `Step::Add` covers the addition of words, and of a word to a
-- pointer.
use llir_opt.Prelude.{
  ℕ, ◌<◌, zero, suc, ◌+◌, ◌%◌, ◌≡◌, sym, ap, ◌∙◌, true, false, some, arith, eq_of_some, ◌==◌,
}
use llir_opt.Bits.{test_bit, test_bit-bit_and}
use llir_opt.Tags.MaskedType.{u64, MaskedType, BitScan, add, is_aligned}
use llir_opt.Tags.MaskedType.Arith.{add_sound}
use llir_opt.Tags.TaggedType.{TaggedType, int}
use llir_opt.Tags.TaggedType.Values.{
  Region, Value, word, pointer, derived, in_heap, allows, HasWord, WordOf, Has,
}
use llir_opt.Tags.TaggedType.Join.{WellFormed}
use llir_opt.Tags.Step.Add.{step_add}

-- Where a pointer may point after a number of bytes was added: into the same region, or, from a heap
-- and off by no multiple of eight, to an address derived from a block.
pub data Moves : ℕ → Region → Region → Type 0 where
  stays : {x : ℕ} {r : Region} → Moves x r r
  derives : {x : ℕ} {r : Region} → (x % 8 == 0) ≡ false → in_heap r ≡ true → Moves x r derived

-- What a machine's addition gives. The sum of two pointers is nothing that the types speak of.
pub data Sum : Value → Value → Value → Type 0 where
  words : {x y : ℕ} → Sum (word x) (word y) (word ((x + y) % u64))
  pointer_word : {x : ℕ} {r s : Region} → Moves x r s → Sum (pointer r) (word x) (pointer s)
  word_pointer : {x : ℕ} {r s : Region} → Moves x r s → Sum (word x) (pointer r) (pointer s)

low_zero : (x : ℕ) → test_bit x 0 ≡ false → test_bit x 1 ≡ false → test_bit x 2 ≡ false → x % 8 ≡ 0
low_zero x a b c = ground arith

-- The words of an aligned mask are multiples of eight.
is_aligned-word : (m : MaskedType) (x : ℕ) → WordOf m x → is_aligned m ≡ true → (x % 8 == 0) ≡ true
unfolding is_aligned WordOf
is_aligned-word m x h e = ground (
  arith,
  low_zero x (agree 0 (omega arith) (omega arith)) (agree 1 (omega arith) (omega arith))
      (agree 2 (omega arith) (omega arith)),
)
  where
    agree : (i : ℕ) → i < 64 → i < 3 → test_bit x i ≡ false
    agree zero l k =
        ground (arith, h.agrees 0 l, test_bit-bit_and 0 m.known 7, test_bit-bit_and 0 m.value 7)
    agree (suc zero) l k =
        ground (arith, h.agrees 1 l, test_bit-bit_and 1 m.known 7, test_bit-bit_and 1 m.value 7)
    agree (suc (suc i)) l k =
        let two : suc (suc i) ≡ 2 = omega arith in
        ap (test_bit x) two
        ∙ ground (
          arith,
          h.agrees 2 (omega arith),
          test_bit-bit_and 2 m.known 7,
          test_bit-bit_and 2 m.value 7,
        )

module _ (scan : BitScan) where
  add_int :
      (l r : MaskedType) (c : TaggedType) (x y : ℕ)
      → WellFormed (int l)
      → WellFormed (int r)
      → int (add scan l r) ≡ c
      → WordOf l x
      → WordOf r y
      → HasWord c ((x + y) % u64)
  unfolding WordOf WellFormed HasWord
  add_int l r c x y p q e h k = rw (sym e) (add_sound scan l r x y p q h k)

  step_add_words :
      (vl vr c : TaggedType) (x y : ℕ)
      → WellFormed vl
      → WellFormed vr
      → step_add scan vl vr ≡ some c
      → HasWord vl x
      → HasWord vr y
      → HasWord c ((x + y) % u64)
  unfolding step_add HasWord
  step_add_words (int l) (int r) c x y p q e h k = add_int l r c x y p q (eq_of_some e) h k
  step_add_words vl vr c x y p q e h k = ground arith

  -- A pointer on the left, and one on the right.
  step_add-allows_left :
      (vl vr c : TaggedType) (x : ℕ) (r s : Region)
      → step_add scan vl vr ≡ some c
      → allows vl r ≡ true
      → HasWord vr x
      → Moves x r s
      → allows c s ≡ true
  unfolding step_add HasWord allows
  step_add-allows_left vl (int m) c x r _ e h k stays = ground arith
  step_add-allows_left vl vr c x r _ e h k stays = ground arith
  step_add-allows_left vl (int m) c x r _ e h k (derives a b) =
      ground (arith, is_aligned-word m x k)
  step_add-allows_left vl vr c x r _ e h k (derives a b) = ground arith

  step_add-allows_right :
      (vl vr c : TaggedType) (x : ℕ) (r s : Region)
      → step_add scan vl vr ≡ some c
      → HasWord vl x
      → allows vr r ≡ true
      → Moves x r s
      → allows c s ≡ true
  unfolding step_add HasWord allows
  step_add-allows_right vl vr c x r _ e h k stays = ground arith
  step_add-allows_right vl vr c x r _ e h k (derives a b) = ground arith

  -- Wherever `Step::Add` of two types with valid masks is implemented, its result allows the sum of
  -- any two words of the operands, and what a pointer of either becomes by adding a word of the
  -- other.
  pub step_add_sound :
      (vl vr c : TaggedType) (a b v : Value)
      → WellFormed vl
      → WellFormed vr
      → step_add scan vl vr ≡ some c
      → Has vl a
      → Has vr b
      → Sum a b v
      → Has c v
  unfolding Has
  step_add_sound vl vr c (word x) (word y) _ p q e h k words = step_add_words vl vr c x y p q e h k
  step_add_sound vl vr c (pointer r) (word x) (pointer s) p q e h k (pointer_word m) =
      step_add-allows_left vl vr c x r s e h k m
  step_add_sound vl vr c (word x) (pointer r) (pointer s) p q e h k (word_pointer m) =
      step_add-allows_right vl vr c x r s e h k m
  step_add_sound vl vr c (word x) (pointer r) (word _) p q e h k sum = elim sum [ ]
  step_add_sound vl vr c (pointer r) (word x) (word _) p q e h k sum = elim sum [ ]
  step_add_sound vl vr c (pointer r) (pointer _) v p q e h k sum = elim sum [ ]
