-- ===== src/Tags/Step/Products.antt =====
-- passes/tags/eval/mul.cpp and shift.cpp: `Step::Mul`, `Step::Shl` and `Step::Shr` cover the product and the
-- shifts of the words that their operands allow.
use native.Mathlib.Nat.{mul_assoc, mul_comm, pow-suc, div-le_self}
use llir_opt.Prelude.{
  ℕ, zero, suc, ◌<◌, ◌+◌, ◌*◌, ◌/◌, ◌%◌, ◌^◌, ◌≡◌, ◌≢◌, refl, ap, ◌∙◌, ◌⊎◌, inl, inr, ◌&&◌, ◌||◌,
  true, false, arith, Bool-cases,
}
use llir_opt.Bits.{test_bit, test_bit-zero}
use llir_opt.Tags.MaskedType.{u64, masked}
use llir_opt.Tags.TaggedType.{
  TaggedType, int, zero_type, even, odd, is_zero, is_one, is_even, is_odd, is_non_zero, const,
}
use llir_opt.Tags.MaskedType.{exact}
use llir_opt.Tags.TaggedType.Values.{HasWord, WordOf, Has}
use llir_opt.Tags.TaggedType.Join.{WellFormed}
use llir_opt.Tags.TaggedType.Refine.{tests_sound}
use llir_opt.Tags.Step.Words.{any_int-HasWord, HasWord-lt}
use llir_opt.Tags.Step.Mul.{is_unknown, step_mul, step_mul_one}
use llir_opt.Tags.Step.Shift.{step_shl, step_shr}

-- The parity of a product.
even_product : (x y : ℕ) → x % 2 ≡ 0 → x * y % u64 % 2 ≡ 0
even_product x y h =
    let half : x ≡ 2 * (x / 2) = omega (arith, h) in
    let whole : x * y ≡ 2 * (x / 2 * y) = ap (λ n. n * y) half ∙ mul_assoc 2 (x / 2) y in
    omega (arith, whole)

odd_product : (x y : ℕ) → x % 2 ≡ 1 → y % 2 ≡ 1 → x * y % u64 % 2 ≡ 1
odd_product x y h k =
    let half : x ≡ 2 * (x / 2) + 1 = omega (arith, h) in
    let whole : x * y ≡ 2 * (x / 2 * y) + y = ap (λ n. n * y) half ∙ omega arith in
    omega (arith, whole, k)

zero_product : (x y : ℕ) → (x ≡ 0) ⊎ (y ≡ 0) → x * y % u64 ≡ 0
zero_product x y (inl h) =
    let whole : x * y ≡ 0 = ap (λ n. n * y) h ∙ omega arith in omega (arith, whole)
zero_product x y (inr h) =
    let whole : x * y ≡ 0 = ap (λ n. x * n) h ∙ omega arith in omega (arith, whole)

one_product : (x y : ℕ) → x ≡ 1 → y < u64 → x * y % u64 ≡ y
one_product x y h l =
    let whole : x * y ≡ y = ap (λ n. n * y) h ∙ omega arith in omega (arith, whole)

-- A mask that knows the lowest bit only.
lowest_bit :
    (z b i : ℕ)
    → b < 2
    → test_bit z 0 ≡ test_bit b 0
    → test_bit 1 i ≡ true
    → test_bit z i ≡ test_bit b i
lowest_bit z b zero l h e = h
lowest_bit z b (suc i) l h e = absurd (cc (e, test_bit-zero i))

even-HasWord : (z : ℕ) → z < u64 → z % 2 ≡ 0 → HasWord even z
unfolding even HasWord WordOf masked
even-HasWord z l h = record {
  word = l;
  agrees = λ i k e. lowest_bit z 0 i (omega arith) (ground arith) e;
}

odd-HasWord : (z : ℕ) → z < u64 → z % 2 ≡ 1 → HasWord odd z
unfolding odd HasWord WordOf masked
odd-HasWord z l h = record {
  word = l;
  agrees = λ i k e. lowest_bit z 1 i (omega arith) (ground arith) e;
}

zero-HasWord : (z : ℕ) → z ≡ 0 → HasWord zero_type z
unfolding zero_type const exact HasWord WordOf
zero-HasWord z e = rw e (record { word = omega arith; agrees = λ i k h. refl })

known_type : (t : TaggedType) (x : ℕ) → HasWord t x → is_unknown t ≡ false
unfolding is_unknown HasWord
known_type t x h = ground arith

mul_one-HasWord : (t : TaggedType) (y : ℕ) → HasWord t y → HasWord (step_mul_one t) y
unfolding step_mul_one HasWord
mul_one-HasWord (int m) y h = h
mul_one-HasWord t y h = ground (arith, any_int-HasWord y, HasWord-lt t y h)

-- `Step::Mul` of two types with valid masks allows the product of any two words of the operands.
step_mul_words :
    (vl vr : TaggedType) (x y : ℕ)
    → WellFormed vl
    → WellFormed vr
    → HasWord vl x
    → HasWord vr y
    → HasWord (step_mul vl vr) (x * y % u64)
unfolding step_mul Has
step_mul_words vl vr x y p q h k =
    let (el, ol, zl, onel, _, _) = tests_sound vl x p h in
    let (er, o_r, zr, oner, _, _) = tests_sound vr y q k in
    let ul = known_type vl x h in
    let ur = known_type vr y k in
    let lx = HasWord-lt vl x h in
    let ly = HasWord-lt vr y k in
    let z = x * y % u64 in
    let small : z < u64 = omega arith in
    elim (Bool-cases (is_zero vl || is_zero vr)) [
      | inl a ↦
          rw (ul, ur, a)
            (zero-HasWord z (
              zero_product x y (elim (Bool-cases (is_zero vl)) [
                | inl i ↦ inl (zl i)
                | inr i ↦ inr (zr (ground arith))
              ])))
      | inr a ↦ elim (Bool-cases (is_one vl || is_one vr)) [
        | inl b ↦
            rw (ul, ur, a, b)
              (elim (Bool-cases (is_one vl)) [
                | inl i ↦ rw (i, one_product x y (onel i) ly) (mul_one-HasWord vr y k)
                | inr i ↦
                    rw (i, mul_comm x y, one_product y x (oner (ground arith)) lx)
                      (mul_one-HasWord vl x h)
              ])
        | inr b ↦ elim (Bool-cases (is_even vl || is_even vr)) [
          | inl c ↦
              rw (ul, ur, a, b, c)
                (even-HasWord z small (elim (Bool-cases (is_even vl)) [
                  | inl i ↦ even_product x y (ground (arith, el i))
                  | inr i ↦
                      ap (λ n. n % u64 % 2) (mul_comm x y) ∙ even_product y x (ground (arith, er))
                ]))
          | inr c ↦ elim (Bool-cases (is_odd vl && is_odd vr)) [
            | inl d ↦
                rw (ul, ur, a, b, c, d)
                  (odd-HasWord z small (odd_product x y (ground arith) (ground arith)))
            | inr d ↦ rw (ul, ur, a, b, c, d) (any_int-HasWord z small)
          ]
        ]
      ]
    ]

-- `Step::Shl` too, with the word shifted to the left.
step_shl_words :
    (vl vr : TaggedType) (x y : ℕ)
    → WellFormed vr
    → HasWord vl x
    → HasWord vr y
    → HasWord (step_shl vl vr) (x * 2 ^ y % u64)
unfolding step_shl Has
step_shl_words vl vr x y q h k =
    let (_, _, _, _, _, nr) = tests_sound vr y q k in
    let z = x * 2 ^ y % u64 in
    let small : z < u64 = omega arith in
    elim (Bool-cases (is_non_zero vr)) [
      | inl a ↦
          rw (known_type vl x h, known_type vr y k, a)
            (even-HasWord z small (even_shift x y (nr a)))
      | inr a ↦ rw (known_type vl x h, known_type vr y k, a) (any_int-HasWord z small)
    ]
  where
    even_shift : (x y : ℕ) → y ≢ 0 → x * 2 ^ y % u64 % 2 ≡ 0
    even_shift x zero d = absurd (d refl)
    even_shift x (suc y) d =
        let whole : x * 2 ^ suc y ≡ 2 ^ suc y * x = mul_comm x (2 ^ suc y) in
        ap (λ n. n % u64 % 2) whole ∙ even_product (2 ^ suc y) x (omega (arith, pow-suc 2 y))

step_shr_words :
    (vl vr : TaggedType) (x y : ℕ)
    → HasWord vl x
    → HasWord vr y
    → HasWord (step_shr vl vr) (x / 2 ^ y)
unfolding step_shr HasWord
step_shr_words vl vr x y h k =
    let small : x / 2 ^ y < u64 = omega (arith, div-le_self x (2 ^ y), HasWord-lt vl x h) in
    ground (arith, any_int-HasWord (x / 2 ^ y), known_type vr y k)

-- `Step::Mul`, `Step::Shl` and `Step::Shr` of two types with valid masks allow the product of any two
-- words of the operands and the left shift of the first by the second, both modulo 2^64, and its
-- right shift.
pub step_mul_shift_sound :
    (vl vr : TaggedType) (x y : ℕ)
    → WellFormed vl
    → WellFormed vr
    → HasWord vl x
    → HasWord vr y
    → HasWord (step_mul vl vr) (x * y % u64)
      × HasWord (step_shl vl vr) (x * 2 ^ y % u64)
      × HasWord (step_shr vl vr) (x / 2 ^ y)
step_mul_shift_sound vl vr x y p q h k =
    (step_mul_words vl vr x y p q h k, step_shl_words vl vr x y q h k, step_shr_words vl vr x y h k)
