-- ===== src/Tags/MaskedType/Sound.antt =====
-- Each operation on masked words covers the machine's operation on the words that they stand for.
use llir_opt.Prelude.{ℕ, ◌<◌, bit_and, bit_or, bit_xor, ◌≡◌, true, not, ◌&&◌, ◌||◌, arith}
use llir_opt.Bits.{
  test_bit, test_bit-bit_and, test_bit-bit_or, test_bit-bit_xor, test_bit-bit_not, bit_and-lt,
  bit_or-lt, bit_xor-lt, bit_not-lt,
}
use llir_opt.Tags.MaskedType.{u64, not64, MaskedType, masked, and, or, exclusive_or, complement}

-- A word that `m` stands for: it has the value of every known bit.
pub record Matches (m : MaskedType) (x : ℕ) : Type 0 where
  pub word : x < u64
  pub agrees : (i : ℕ) → i < 64 → test_bit m.known i ≡ true → test_bit x i ≡ test_bit m.value i

-- The class invariant: two words, and no value outside the known bits.
pub record IsMask (m : MaskedType) : Type 0 where
  pub value_word : m.value < u64
  pub known_word : m.known < u64
  pub inside : (i : ℕ) → test_bit m.value i ≡ true → test_bit m.known i ≡ true

pub masked-IsMask : (value known : ℕ) → value < u64 → known < u64 → IsMask (masked value known)
unfolding masked
masked-IsMask value known p q = record {
  value_word = bit_and-lt 64 value known p q;
  known_word = q;
  inside = λ i h. ground (arith, test_bit-bit_and i value known);
}

-- The value bits of a mask that is built, where they are known.
pub masked_value :
    (value known i : ℕ)
    → test_bit known i ≡ true
    → test_bit (masked value known).value i ≡ test_bit value i
unfolding masked
masked_value value known i h = ground (arith, test_bit-bit_and i value known)

-- `^` of two masks matches the bitwise exclusive or of any two words that they match.
exclusive_or_sound :
    (a b : MaskedType) (x y : ℕ)
    → Matches a x
    → Matches b y
    → Matches (exclusive_or a b) (bit_xor x y)
unfolding exclusive_or
exclusive_or_sound a b x y p q = record {
  word = bit_xor-lt 64 x y p.word q.word;
  agrees = λ i h k.
      let both = test_bit-bit_and i a.known b.known in
      ground (
        arith,
        both,
        p.agrees i h,
        q.agrees i h,
        test_bit-bit_xor i x y,
        test_bit-bit_xor i a.value b.value,
        test_bit-bit_and i (bit_xor a.value b.value) (bit_and a.known b.known),
      );
}

-- `~` of a valid mask matches the complement of any word that it matches.
pub complement_sound :
    (a : MaskedType) (x : ℕ) → IsMask a → Matches a x → Matches (complement a) (not64 x)
unfolding complement
complement_sound a x m p = record {
  word = bit_not-lt 64 x;
  agrees = λ i h k. ground (
    arith,
    p.agrees i h,
    test_bit-bit_not 64 i x p.word h,
    test_bit-bit_not 64 i a.value m.value_word h,
    test_bit-bit_and i (not64 a.value) a.known,
  );
}

-- `|` of two valid masks matches the bitwise or of any two words that they match.
or_sound :
    (a b : MaskedType) (x y : ℕ)
    → IsMask a
    → IsMask b
    → Matches a x
    → Matches b y
    → Matches (or a b) (bit_or x y)
unfolding or
or_sound a b x y ma mb p q = record {
  word = bit_or-lt 64 x y p.word q.word;
  agrees = λ i h k. ground (
    arith,
    p.agrees i h,
    q.agrees i h,
    ma.inside i,
    mb.inside i,
    test_bit-bit_or i x y,
    test_bit-bit_or i a.value b.value,
    test_bit-bit_and i a.known b.known,
    test_bit-bit_or i (bit_and a.known b.known) a.value,
    test_bit-bit_or i (bit_or (bit_and a.known b.known) a.value) b.value,
    test_bit-bit_and i (bit_or a.value b.value)
        (bit_or (bit_or (bit_and a.known b.known) a.value) b.value),
  );
}

-- The known bits of `a & b`, bit by bit.
and-known :
    (a b : MaskedType) (i : ℕ)
    → IsMask a
    → IsMask b
    → i < 64
    → test_bit (and a b).known i ≡ (
        ((not (test_bit a.value i) && test_bit a.known i)
          || (not (test_bit b.value i) && test_bit b.known i))
        || (test_bit a.known i && test_bit b.known i))
unfolding and
and-known a b i ma mb h = ground (
  arith,
  test_bit-bit_not 64 i a.value ma.value_word h,
  test_bit-bit_not 64 i b.value mb.value_word h,
  test_bit-bit_and i (not64 a.value) a.known,
  test_bit-bit_and i (not64 b.value) b.known,
  test_bit-bit_and i a.known b.known,
  test_bit-bit_or i (bit_and (not64 a.value) a.known) (bit_and (not64 b.value) b.known),
  test_bit-bit_or i (bit_or (bit_and (not64 a.value) a.known) (bit_and (not64 b.value) b.known))
      (bit_and a.known b.known),
)

and-value :
    (a b : MaskedType) (i : ℕ)
    → test_bit (and a b).value i
      ≡ ((test_bit a.value i && test_bit b.value i) && test_bit (and a b).known i)
unfolding and
and-value a b i =
    let known = (and a b).known in
    ground (
      arith,
      test_bit-bit_and i a.value b.value,
      test_bit-bit_and i (bit_and a.value b.value) known,
      test_bit-bit_and i (bit_and (bit_and a.value b.value) known) known,
    )

-- `&` of two valid masks matches the bitwise and of any two words that they match.
and_sound :
    (a b : MaskedType) (x y : ℕ)
    → IsMask a
    → IsMask b
    → Matches a x
    → Matches b y
    → Matches (and a b) (bit_and x y)
and_sound a b x y ma mb p q = record {
  word = bit_and-lt 64 x y p.word q.word;
  agrees = λ i h k. ground (
    arith,
    p.agrees i h,
    q.agrees i h,
    and-known a b i ma mb h,
    and-value a b i,
    test_bit-bit_and i x y,
  );
}

and-IsMask : (a b : MaskedType) → IsMask a → IsMask b → IsMask (and a b)
unfolding and
and-IsMask a b ma mb =
    let zeros = bit_or (bit_and (not64 a.value) a.known) (bit_and (not64 b.value) b.known) in
    let zeros_word : zeros < u64 =
      bit_or-lt 64 _ _ (bit_and-lt 64 _ _ (bit_not-lt 64 a.value) ma.known_word)
        (bit_and-lt 64 _ _ (bit_not-lt 64 b.value) mb.known_word) in
    let both_word = bit_and-lt 64 _ _ ma.known_word mb.known_word in
    let known_word = bit_or-lt 64 _ _ zeros_word both_word in
    masked-IsMask _ _ (bit_and-lt 64 _ _ (bit_and-lt 64 _ _ ma.value_word mb.value_word) known_word)
      known_word

or-IsMask : (a b : MaskedType) → IsMask a → IsMask b → IsMask (or a b)
unfolding or
or-IsMask a b ma mb = masked-IsMask _ _ (bit_or-lt 64 _ _ ma.value_word mb.value_word) (
    bit_or-lt 64 _ _
      (bit_or-lt 64 _ _ (bit_and-lt 64 _ _ ma.known_word mb.known_word) ma.value_word)
      mb.value_word)

exclusive_or-IsMask : (a b : MaskedType) → IsMask a → IsMask b → IsMask (exclusive_or a b)
unfolding exclusive_or
exclusive_or-IsMask a b ma mb =
    masked-IsMask _ _ (bit_xor-lt 64 _ _ ma.value_word mb.value_word)
      (bit_and-lt 64 _ _ ma.known_word mb.known_word)

pub complement-IsMask : (a : MaskedType) → IsMask a → IsMask (complement a)
unfolding complement
complement-IsMask a ma = masked-IsMask _ _ (bit_not-lt 64 a.value) ma.known_word

-- A valid mask, and a word that it stands for.
abbrev pub Covers : MaskedType → ℕ → Type 0
Covers m x = IsMask m × Matches m x

-- `&`, `|`, `^` and `~` of valid masks give valid masks, which match the bitwise and, or, exclusive or
-- and complement of any words that the operands match.
pub bitwise_sound :
    (a b : MaskedType) (x y : ℕ)
    → Covers a x
    → Covers b y
    → Covers (and a b) (bit_and x y)
      × Covers (or a b) (bit_or x y)
      × Covers (exclusive_or a b) (bit_xor x y)
      × Covers (complement a) (not64 x)
bitwise_sound a b x y (ma, p) (mb, q) = (
  (and-IsMask a b ma mb, and_sound a b x y ma mb p q),
  (or-IsMask a b ma mb, or_sound a b x y ma mb p q),
  (exclusive_or-IsMask a b ma mb, exclusive_or_sound a b x y p q),
  (complement-IsMask a ma, complement_sound a x ma p),
)
