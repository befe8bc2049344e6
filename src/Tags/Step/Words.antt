-- ===== src/Tags/Step/Words.antt =====
-- The tables of passes/tags/eval cover the words that their operands allow.
use mathlib.Core.Path.{subst}
use llir_opt.Prelude.{
  ℕ, zero, suc, ◌<◌, ◌/◌, ◌==◌, ◌+◌, ◌-◌, ◌%◌, bit_and, bit_or, bit_xor, ◌≡◌, refl, sym, ap, ◌∙◌,
  ◌⊎◌, inl, inr, true, false, Option, none, some, arith, eq_of_some, Bool-cases, Option-cases,
}
use llir_opt.Bits.{
  test_bit, test_bit-bit_and, bit_and-lt, bit_or-lt, bit_xor-lt, test_bit-zero, lt_pow_of_test_bit,
}
use llir_opt.Tags.MaskedType.{
  u64, all_ones, MaskedType, BitScan, masked, sub, and, or, exclusive_or, as_const,
}
use llir_opt.Tags.MaskedType.Sound.{bitwise_sound}
use llir_opt.Tags.MaskedType.Arith.{sub_sound}
use llir_opt.Tags.TaggedType.{TaggedType, int, val, any_int, zero_one}
use llir_opt.Tags.TaggedType.Values.{HasWord, WordOf}
use llir_opt.Tags.TaggedType.Words.{known_word}
use llir_opt.Tags.TaggedType.Join.{WellFormed}
use llir_opt.Tags.Step.Sub.{step_sub}
use llir_opt.Tags.Step.And.{step_and, clears_page, after_and}
use llir_opt.Tags.Step.Or.{step_or}
use llir_opt.Tags.Step.Xor.{step_xor}

-- Any word is an `Int()`.
pub any_int-HasWord : (x : ℕ) → x < u64 → HasWord any_int x
unfolding any_int HasWord WordOf masked
any_int-HasWord x h = record {
  word = h;
  agrees = λ i l k. absurd (ground (arith, test_bit-zero i, k));
}

-- The words of the types in the tables are words.
pub HasWord-lt : (t : TaggedType) (x : ℕ) → HasWord t x → x < u64
unfolding HasWord WordOf
HasWord-lt (int m) x h = h.word
HasWord-lt t x h = ground arith

module _ (scan : BitScan) where
  sub_int :
      (l r : MaskedType) (c : TaggedType) (x y : ℕ)
      → WellFormed (int l)
      → WellFormed (int r)
      → int (sub scan l r) ≡ c
      → WordOf l x
      → WordOf r y
      → HasWord c ((x + u64 - y) % u64)
  unfolding WordOf WellFormed HasWord
  sub_int l r c x y p q e h k = rw (sym e) (sub_sound scan l r x y p q h k)

  step_sub_words :
      (vl vr c : TaggedType) (x y : ℕ)
      → WellFormed vl
      → WellFormed vr
      → step_sub scan vl vr ≡ some c
      → HasWord vl x
      → HasWord vr y
      → HasWord c ((x + u64 - y) % u64)
  unfolding step_sub HasWord
  step_sub_words (int l) (int r) c x y p q e h k = sub_int l r c x y p q (eq_of_some e) h k
  step_sub_words vl vr c x y p q e h k = ground (arith, any_int-HasWord ((x + u64 - y) % u64))

bitwise_int :
    (l r : MaskedType) (x y : ℕ)
    → WellFormed (int l)
    → WellFormed (int r)
    → WordOf l x
    → WordOf r y
    → WordOf (and l r) (bit_and x y)
      × WordOf (or l r) (bit_or x y)
      × WordOf (exclusive_or l r) (bit_xor x y)
unfolding WordOf WellFormed
bitwise_int l r x y p q h k =
    let (a, o, e, _) = bitwise_sound l r x y (p, h) (q, k) in (a.1, o.1, e.1)

-- A word below two has one bit.
one_bit : (x i : ℕ) → x < 2 → 0 < i → test_bit x i ≡ false
one_bit x zero h l = absurd (omega arith)
one_bit x (suc i) h l = let half : x / 2 ≡ 0 = omega arith in rw half (test_bit-zero i)

zero_one-HasWord : (x : ℕ) → x < 2 → HasWord zero_one x
unfolding zero_one HasWord WordOf masked
zero_one-HasWord x h = record {
  word = omega arith;
  agrees = λ i l k. elim (Bool-cases (i == 0)) [
    | inl e ↦ absurd (cc (k, ap (test_bit (all_ones - 1)) (zero_index i e)))
    | inr e ↦
        one_bit x i h (ground arith)
        ∙ sym (test_bit-bit_and i 0 (all_ones - 1) ∙ ground (arith, test_bit-zero i))
  ];
}
  where
    zero_index : (i : ℕ) → (i == 0) ≡ true → i ≡ 0
    zero_index i e = ground arith

-- What is left of a word masked with one.
bit_and-one : (x : ℕ) → x < u64 → bit_and x 1 < 2
bit_and-one x h =
    lt_pow_of_test_bit 1 64 (bit_and x 1) (bit_and-lt 64 x 1 h (omega arith))
      (λ i l. test_bit-bit_and i x 1 ∙ ground (arith, one_bit 1 i (omega arith) l))

after_and_words :
    (r : MaskedType) (x y : ℕ)
    → WellFormed (int r)
    → x < u64
    → WordOf r y
    → HasWord (after_and r) (bit_and x y)
unfolding after_and as_const WordOf WellFormed HasWord
after_and_words r x y p l h =
    let small = bit_and-lt 64 x y l h.word in
    elim (Bool-cases (r.known == all_ones)) [
      | inr e ↦ elim (Bool-cases (clears_page r)) [
        | inl f ↦ rw (after_and, e, f) (any_int-HasWord (bit_and x y) small)
        | inr f ↦ rw (after_and, e, f) small
      ]
      | inl e ↦ elim (Bool-cases (r.value == 1)) [
        | inl f ↦
            let one : y ≡ 1 = known_word r y p h (ground arith) ∙ ground arith in
            rw (after_and, e, f, one) (zero_one-HasWord (bit_and x 1) (bit_and-one x l))
        | inr f ↦ elim (Bool-cases (clears_page r)) [
          | inl g ↦ rw (after_and, e, f, g) (any_int-HasWord (bit_and x y) small)
          | inr g ↦ rw (after_and, e, f, g) small
        ]
      ]
    ]

step_and_words :
    (vl vr c : TaggedType) (x y : ℕ)
    → WellFormed vl
    → WellFormed vr
    → step_and vl vr ≡ some c
    → HasWord vl x
    → HasWord vr y
    → HasWord c (bit_and x y)
unfolding step_and HasWord
step_and_words (int l) (int r) c x y p q e h k = ground (arith, (bitwise_int l r x y p q h k).0)
step_and_words val (int r) c x y p q e h k =
    subst (λ t. HasWord t (bit_and x y)) (eq_of_some e) (after_and_words r x y q h.0 k)
step_and_words vl vr c x y p q e h k = ground (
  arith,
  any_int-HasWord (bit_and x y),
  HasWord-lt vl x h,
  HasWord-lt vr y k,
  bit_and-lt 64 x y,
  test_bit-bit_and 0 x y,
)

step_or_words :
    (vl vr c : TaggedType) (x y : ℕ)
    → WellFormed vl
    → WellFormed vr
    → step_or vl vr ≡ some c
    → HasWord vl x
    → HasWord vr y
    → HasWord c (bit_or x y)
unfolding step_or HasWord
step_or_words (int l) (int r) c x y p q e h k = ground (arith, (bitwise_int l r x y p q h k).1)
step_or_words vl vr c x y p q e h k =
    ground
      (arith, any_int-HasWord (bit_or x y), HasWord-lt vl x h, HasWord-lt vr y k, bit_or-lt 64 x y)

step_xor_words :
    (vl vr c : TaggedType) (x y : ℕ)
    → WellFormed vl
    → WellFormed vr
    → step_xor vl vr ≡ some c
    → HasWord vl x
    → HasWord vr y
    → HasWord c (bit_xor x y) ⊎ ((vl ≡ val) × (vr ≡ val))
unfolding step_xor HasWord
step_xor_words (int l) (int r) c x y p q e h k =
    inl (ground (arith, (bitwise_int l r x y p q h k).2))
step_xor_words val val c x y p q e h k = inr (refl, refl)
step_xor_words vl vr c x y p q e h k = inl (
    ground (
      arith,
      any_int-HasWord (bit_xor x y),
      HasWord-lt vl x h,
      HasWord-lt vr y k,
      bit_xor-lt 64 x y,
    ))

-- A result of a table that is implemented allows the word.
unfoldable pub Allowed : Option TaggedType → ℕ → Type 0
Allowed none x = Unit
Allowed (some t) x = HasWord t x

of_some :
    (o : Option TaggedType) (x : ℕ) → ((c : TaggedType) → o ≡ some c → HasWord c x) → Allowed o x
unfolding Allowed
of_some none x h = tt
of_some (some t) x h = h t refl

-- `Step::Sub`, `Step::And` and `Step::Or` of two types with valid masks, wherever they are implemented,
-- allow the difference, the bitwise and and the bitwise or of any two words of the operands. So does
-- `Step::Xor` with the exclusive or, unless both types are `VAL`.
pub step_words_sound :
    (scan : BitScan) (vl vr : TaggedType) (x y : ℕ)
    → WellFormed vl
    → WellFormed vr
    → HasWord vl x
    → HasWord vr y
    → Allowed (step_sub scan vl vr) ((x + u64 - y) % u64)
      × Allowed (step_and vl vr) (bit_and x y)
      × Allowed (step_or vl vr) (bit_or x y)
      × (Allowed (step_xor vl vr) (bit_xor x y) ⊎ ((vl ≡ val) × (vr ≡ val)))
step_words_sound scan vl vr x y p q h k = (
  of_some _ _ (λ c e. step_sub_words scan vl vr c x y p q e h k),
  of_some _ _ (λ c e. step_and_words vl vr c x y p q e h k),
  of_some _ _ (λ c e. step_or_words vl vr c x y p q e h k),
  xor_words,
)
  where
    xor_words : Allowed (step_xor vl vr) (bit_xor x y) ⊎ ((vl ≡ val) × (vr ≡ val))
    xor_words = elim (Option-cases (step_xor vl vr)) [
      | inl e ↦ inl (of_some _ _ (λ c f. absurd (cc (e, f))))
      | inr (c, e) ↦ elim (step_xor_words vl vr c x y p q e h k) [
        | inl a ↦
            inl
              (of_some _ _ (λ d f. subst (λ t. HasWord t (bit_xor x y)) (eq_of_some (sym e ∙ f)) a))
        | inr b ↦ inr b
      ]
    ]
