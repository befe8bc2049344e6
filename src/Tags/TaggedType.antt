-- ===== src/Tags/TaggedType.antt =====
-- passes/tags/tagged_type.h and tagged_type.cpp: `TaggedType`, the kinds of OCaml values and C
-- pointers that a register may hold. The copy constructor, the destructor and `operator=` of the C++
-- class handle the payload of `INT` and are the data type itself here. `llvm_unreachable`, where the
-- join of two kinds is not implemented, is `none`.
pub mod Operators
pub mod Values
pub mod Words
pub mod Join
pub mod Below
pub mod Refine
pub mod Idempotent
pub mod Tests
use llir_opt.Prelude.{
  ℕ, ◌-◌, ◌^◌, bit_and, Bool, true, false, not, ◌&&◌, ◌||◌, Option, none, some, ◌==◌, if◌then◌else◌,
  bit_xor,
}
use llir_opt.Tags.MaskedType.{MaskedType, exact, masked, all_ones, not64, same_mask}

pub data TaggedType : Type 0 where
  unknown : TaggedType
  int : MaskedType → TaggedType
  func : TaggedType
  young heap_off heap addr addr_null addr_int : TaggedType
  val : TaggedType
  ptr ptr_null ptr_int : TaggedType
  undef : TaggedType

-- `Const`, `Zero`, `One`, `Even`, `Odd`, `Int`, `ZeroOne`.
unfoldable pub const : ℕ → TaggedType
unfolding exact
const value = int (exact value)

unfoldable pub zero_type : TaggedType
unfolding const
zero_type = const 0

unfoldable pub one_type : TaggedType
unfolding const
one_type = const 1

unfoldable pub even : TaggedType
unfolding masked
even = int (masked 0 1)

unfoldable pub odd : TaggedType
unfolding masked
odd = int (masked 1 1)

unfoldable pub any_int : TaggedType
unfolding masked
any_int = int (masked 0 0)

-- `Mask({ 0ull, static_cast<uint64_t>(-1 & ~1) })`
unfoldable pub zero_one : TaggedType
unfolding masked
zero_one = int (masked 0 (all_ones - 1))

unfoldable pub is_even : TaggedType → Bool
is_even young = true
is_even heap_off = true
is_even (int m) = bit_and m.known 1 == 1 && bit_and m.value 1 == 0
is_even _ = false

unfoldable pub is_odd : TaggedType → Bool
is_odd (int m) = bit_and m.known 1 == 1 && bit_and m.value 1 == 1
is_odd _ = false

unfoldable pub is_zero : TaggedType → Bool
is_zero (int m) = m.known == all_ones && m.value == 0
is_zero _ = false

unfoldable pub is_one : TaggedType → Bool
is_one (int m) = m.known == all_ones && m.value == 1
is_one _ = false

unfoldable pub is_ptr_like : TaggedType → Bool
is_ptr_like young = true
is_ptr_like heap = true
is_ptr_like ptr = true
is_ptr_like addr = true
is_ptr_like _ = false

unfoldable pub is_ptr_union : TaggedType → Bool
is_ptr_union val = true
is_ptr_union ptr_null = true
is_ptr_union ptr_int = true
is_ptr_union addr_null = true
is_ptr_union addr_int = true
is_ptr_union _ = false

unfoldable pub is_zero_or_one : TaggedType → Bool
is_zero_or_one (int m) = m.known == all_ones && (m.value == 0 || m.value == 1)
is_zero_or_one _ = false

unfoldable pub is_non_zero : TaggedType → Bool
is_non_zero unknown = false
is_non_zero undef = false
is_non_zero ptr_null = false
is_non_zero addr_null = false
is_non_zero ptr_int = false
is_non_zero addr_int = false
is_non_zero (int m) = not (m.value == 0)
is_non_zero young = true
is_non_zero heap_off = true
is_non_zero heap = true
is_non_zero val = true
is_non_zero ptr = true
is_non_zero addr = true
is_non_zero func = true

unfoldable pub to_integer : TaggedType → TaggedType
unfolding any_int odd zero_type
to_integer unknown = unknown
to_integer undef = undef
to_integer (int m) = int m
to_integer young = any_int
to_integer heap = any_int
to_integer heap_off = any_int
to_integer ptr = any_int
to_integer addr = any_int
to_integer func = any_int
to_integer val = odd
to_integer ptr_null = zero_type
to_integer addr_null = zero_type
to_integer ptr_int = any_int
to_integer addr_int = any_int

unfoldable pub to_pointer : TaggedType → TaggedType
to_pointer unknown = unknown
to_pointer undef = undef
to_pointer (int m) = ptr
to_pointer young = young
to_pointer heap = heap
to_pointer heap_off = heap_off
to_pointer ptr = ptr
to_pointer addr = addr
to_pointer func = func
to_pointer val = heap
to_pointer addr_null = addr
to_pointer addr_int = addr
to_pointer ptr_null = ptr
to_pointer ptr_int = ptr

-- `operator==`
unfoldable pub same_type : TaggedType → TaggedType → Bool
unfolding same_mask
same_type unknown unknown = true
same_type (int m) (int n) = same_mask m n
same_type func func = true
same_type young young = true
same_type heap_off heap_off = true
same_type heap heap = true
same_type addr addr = true
same_type addr_null addr_null = true
same_type addr_int addr_int = true
same_type val val = true
same_type ptr ptr = true
same_type ptr_null ptr_null = true
same_type ptr_int ptr_int = true
same_type undef undef = true
same_type _ _ = false

-- `INT | INT`: the bits that both know and agree on.
unfoldable pub join_mask : MaskedType → MaskedType → MaskedType
unfolding masked
join_mask this that =
    let same = not64 (bit_xor this.value that.value) in
    let k = bit_and (bit_and same this.known) that.known in masked (bit_and this.value k) k
