-- ===== src/Tags/MaskedType.antt =====
-- passes/tags/masked_type.h and masked_type.cpp: `MaskedType`, a 64-bit word of which some bits are
-- known. A `uint64_t` is a number below 2^64. `llvm::countTrailingZeros` is not part of the program:
-- it is a parameter with its documented behaviour.
pub mod Sound
pub mod Arith
pub mod Tests
use llir_opt.Prelude.{
  ℕ, ◌+◌, ◌-◌, ◌%◌, ◌^◌, ◌≤◌, ◌<◌, bit_and, bit_or, bit_xor, ◌≡◌, Bool, true, false, ◌&&◌, Option,
  none, some, ◌==◌, if◌then◌else◌,
}
use llir_opt.Bits.{test_bit, bit_not}

abbrev pub u64 : ℕ
u64 = 2 ^ 64

-- `static_cast<uint64_t>(-1)`
abbrev pub all_ones : ℕ
all_ones = 2 ^ 64 - 1

abbrev pub not64 : ℕ → ℕ
not64 x = bit_not 64 x

-- `llvm::countTrailingZeros` on a 64-bit word: the index of the lowest set bit, 64 where none is set.
pub record BitScan : Type 0 where
  pub count_trailing_zeros : ℕ → ℕ
  pub within : (x : ℕ) → count_trailing_zeros x ≤ 64
  pub zeros : (x i : ℕ) → i < count_trailing_zeros x → test_bit x i ≡ false
  pub stops : (x : ℕ) → count_trailing_zeros x < 64 → test_bit x (count_trailing_zeros x) ≡ true

pub record MaskedType : Type 0 where
  pub value : ℕ
  pub known : ℕ

-- `MaskedType(uint64_t value)`
unfoldable pub exact : ℕ → MaskedType
exact value = record { value = value; known = all_ones }

-- `MaskedType(uint64_t value, uint64_t known)`
unfoldable pub masked : ℕ → ℕ → MaskedType
masked value known = record { value = bit_and value known; known = known }

-- `operator&`
unfoldable pub and : MaskedType → MaskedType → MaskedType
unfolding masked
and this that =
    let zeros =
      bit_or (bit_and (not64 this.value) this.known) (bit_and (not64 that.value) that.known) in
    let known = bit_or zeros (bit_and this.known that.known) in
    masked (bit_and (bit_and this.value that.value) known) known

-- `operator|`
unfoldable pub or : MaskedType → MaskedType → MaskedType
unfolding masked
or this that =
    let known = bit_or (bit_or (bit_and this.known that.known) this.value) that.value in
    let value = bit_or this.value that.value in masked value known

-- `operator^`
unfoldable pub exclusive_or : MaskedType → MaskedType → MaskedType
unfolding masked
exclusive_or this that =
    let known = bit_and this.known that.known in
    let value = bit_xor this.value that.value in masked value known

-- `operator~`
unfoldable pub complement : MaskedType → MaskedType
unfolding masked
complement this = masked (not64 this.value) this.known

unfoldable pub same_mask : MaskedType → MaskedType → Bool
same_mask this that = this.value == that.value && this.known == that.known

-- `AsConst`. The `int64_t` is given by its bit pattern.
unfoldable pub as_const : MaskedType → Option ℕ
as_const this = if this.known == all_ones then some this.value else none

unfoldable pub is_aligned : MaskedType → Bool
is_aligned this = bit_and this.known 7 == 7 && bit_and this.value 7 == 0

module _ (scan : BitScan) where
  open scan use {count_trailing_zeros}

  -- `operator+`
  unfoldable pub add : MaskedType → MaskedType → MaskedType
  unfolding masked
  add this that =
      let sum = (this.value + that.value) % u64 in
      let t = count_trailing_zeros (not64 (bit_and this.known that.known)) in
      let mask = if t == 64 then all_ones else (2 ^ t) % u64 - 1 in masked sum mask

  -- `operator-`
  unfoldable pub sub : MaskedType → MaskedType → MaskedType
  unfolding add complement exact
  sub this that = add (add this (complement that)) (exact 1)
