-- ===== src/Tags/TaggedType/Refine.antt =====
-- passes/tags/tagged_type.cpp: the tests on types, and the parts of a type.
use llir_opt.Prelude.{ℕ, zero, suc, ◌<◌, ◌≡◌, ◌≢◌, refl, ◌⊎◌, true, false, arith}
use llir_opt.Bits.{test_bit, test_bit-zero}
use llir_opt.Tags.MaskedType.{u64, exact, masked}
use llir_opt.Tags.TaggedType.{
  TaggedType, int, addr_null, addr_int, val, ptr_null, ptr_int, odd, zero_type, any_int, const,
  is_odd, is_even, is_zero, is_one, is_zero_or_one, is_non_zero, to_integer, to_pointer,
}
use llir_opt.Tags.TaggedType.Values.{Region, word, pointer, allows, HasWord, WordOf, Has}
use llir_opt.Tags.TaggedType.Words.{
  is_odd-word, is_even-word, is_zero-word, is_one-word, is_zero_or_one-word, is_non_zero-word,
}
use llir_opt.Tags.TaggedType.Join.{WellFormed}

-- Of a type with a valid mask, a word that it allows is even, odd, zero, one, zero or one, or not
-- zero, where the type passes the test of that name.
pub tests_sound :
    (t : TaggedType) (x : ℕ)
    → WellFormed t
    → Has t (word x)
    → (is_even t ≡ true → test_bit x 0 ≡ false)
      × (is_odd t ≡ true → test_bit x 0 ≡ true)
      × (is_zero t ≡ true → x ≡ 0)
      × (is_one t ≡ true → x ≡ 1)
      × (is_zero_or_one t ≡ true → (x ≡ 0) ⊎ (x ≡ 1))
      × (is_non_zero t ≡ true → x ≢ 0)
unfolding Has HasWord WordOf WellFormed is_even is_odd is_zero is_one is_zero_or_one is_non_zero
tests_sound (int m) x p h = (
  is_even-word m x h,
  is_odd-word m x h,
  is_zero-word m x p h,
  is_one-word m x p h,
  is_zero_or_one-word m x p h,
  is_non_zero-word m x p h,
)
tests_sound t x p h = ground arith

any_int-WordOf : (x : ℕ) → x < u64 → WordOf (masked 0 0) x
unfolding WordOf masked
any_int-WordOf x h = record { word = h; agrees = λ i k e. ground (arith, test_bit-zero i) }

odd_bit : (x i : ℕ) → test_bit x 0 ≡ true → test_bit 1 i ≡ true → test_bit x i ≡ test_bit 1 i
odd_bit x zero o e = o
odd_bit x (suc i) o e = ground (arith, test_bit-zero i)

odd-WordOf : (x : ℕ) → x < u64 → test_bit x 0 ≡ true → WordOf (masked 1 1) x
unfolding WordOf masked
odd-WordOf x h o = record { word = h; agrees = λ i k e. odd_bit x i o e }

zero-WordOf : WordOf (exact 0) 0
unfolding WordOf exact
zero-WordOf = record { word = omega arith; agrees = λ i k e. refl }

zero_type-word : (x : ℕ) → x ≡ 0 → WordOf (exact 0) x
zero_type-word x e = rw e zero-WordOf

to_integer-word : (t : TaggedType) (x : ℕ) → HasWord t x → HasWord (to_integer t) x
unfolding HasWord to_integer any_int odd zero_type const
to_integer-word (int m) x h = h
to_integer-word val x h = odd-WordOf x (h.0) (h.1)
to_integer-word ptr_null x h = zero_type-word x h
to_integer-word addr_null x h = zero_type-word x h
to_integer-word ptr_int x h = any_int-WordOf x h
to_integer-word addr_int x h = any_int-WordOf x h
to_integer-word t x h = ground arith

to_integer-allows : (t : TaggedType) (r : Region) → allows (to_integer t) r ≡ false
unfolding allows to_integer any_int odd zero_type const
to_integer-allows t r = ground arith

-- The integer part of a type keeps the words that the type allows, and allows no pointer.
to_integer_sound :
    (t : TaggedType)
    → ((x : ℕ) → Has t (word x) → Has (to_integer t) (word x))
      × ((r : Region) → ¬ Has (to_integer t) (pointer r))
unfolding Has
to_integer_sound t = (to_integer-word t, λ r h. ground (arith, to_integer-allows t r))

-- The pointer part of a type keeps the pointers that the type allows, and allows no word.
to_pointer_sound :
    (t : TaggedType)
    → ((r : Region) → Has t (pointer r) → Has (to_pointer t) (pointer r))
      × ((x : ℕ) → ¬ Has (to_pointer t) (word x))
unfolding Has HasWord allows to_pointer
to_pointer_sound t = (λ r h. ground arith, λ x h. ground arith)

-- The integer part of a type keeps the words that the type allows, and allows no pointer; its pointer part
-- keeps the pointers that the type allows, and allows no word.
pub conversions_sound :
    (t : TaggedType)
    → (((x : ℕ) → Has t (word x) → Has (to_integer t) (word x))
        × ((r : Region) → ¬ Has (to_integer t) (pointer r)))
      × ((r : Region) → Has t (pointer r) → Has (to_pointer t) (pointer r))
      × ((x : ℕ) → ¬ Has (to_pointer t) (word x))
conversions_sound t =
    let (pointers, words) = to_pointer_sound t in (to_integer_sound t, pointers, words)
