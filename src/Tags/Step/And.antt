-- ===== src/Tags/Step/And.antt =====
-- passes/tags/eval/and.cpp: a function for each row of the switch. `llvm_unreachable` is `none`.
use llir_opt.Prelude.{
  ◌-◌, ◌*◌, ◌^◌, ◌%◌, bit_and, Bool, not, Option, none, some, ◌==◌, if◌then◌else◌,
}
use llir_opt.Tags.MaskedType.{MaskedType, and, as_const, u64, not64}
use llir_opt.Tags.TaggedType.{
  TaggedType, unknown, int, func, young, heap_off, heap, addr, addr_null, addr_int, val, ptr,
  ptr_null, ptr_int, undef, any_int, zero_one,
}

-- Whether the mask has a zero among the most significant 64 - 12 bits.
unfoldable pub clears_page : MaskedType → Bool
clears_page mask =
    let m = (2 ^ 64 - 1) * 2 ^ 12 % u64 in
    not (bit_and (bit_and mask.known m) (not64 mask.value) == 0)

-- `VAL & INT`
unfoldable pub after_and : MaskedType → TaggedType
unfolding as_const clears_page zero_one any_int
after_and r = elim (as_const r) [
  | none ↦ if clears_page r then any_int else ptr_int
  | some c ↦ if c == 1 then zero_one else (if clears_page r then any_int else ptr_int)
]

unfoldable pub step_and_int : MaskedType → TaggedType → Option TaggedType
step_and_int l unknown = some unknown
step_and_int l ptr = some (if clears_page l then any_int else addr_int)
step_and_int l (int r) = some (int (and l r))
step_and_int l addr_int = some (if clears_page l then any_int else addr_int)
step_and_int l ptr_int = some (if clears_page l then any_int else ptr_int)
step_and_int l val = some (if clears_page l then any_int else ptr_int)
step_and_int l _ = none

unfoldable pub step_and_val : TaggedType → Option TaggedType
step_and_val unknown = some unknown
step_and_val ptr_int = some ptr_int
step_and_val val = some val
step_and_val addr_int = some ptr_int
step_and_val (int r) = some (after_and r)
step_and_val _ = none

unfoldable pub step_and_heap_off : TaggedType → Option TaggedType
step_and_heap_off unknown = some unknown
step_and_heap_off _ = none

unfoldable pub step_and_heap : TaggedType → Option TaggedType
step_and_heap unknown = some unknown
step_and_heap (int r) = some (if clears_page r then zero_one else ptr_int)
step_and_heap _ = none

unfoldable pub step_and_ptr : TaggedType → Option TaggedType
step_and_ptr unknown = some unknown
step_and_ptr ptr_int = some ptr_int
step_and_ptr (int r) = some (if clears_page r then any_int else ptr_int)
step_and_ptr _ = none

unfoldable pub step_and_ptr_int : TaggedType → Option TaggedType
step_and_ptr_int unknown = some unknown
step_and_ptr_int (int r) = some (if clears_page r then any_int else ptr_int)
step_and_ptr_int ptr_int = some ptr_int
step_and_ptr_int val = some ptr_int
step_and_ptr_int heap = some ptr_int
step_and_ptr_int ptr = some ptr_int
step_and_ptr_int addr_int = some ptr_int
step_and_ptr_int _ = none

unfoldable pub step_and_ptr_null : TaggedType → Option TaggedType
step_and_ptr_null unknown = some unknown
step_and_ptr_null ptr_null = some ptr_null
step_and_ptr_null (int r) = some (if clears_page r then any_int else ptr_int)
step_and_ptr_null _ = none

unfoldable pub step_and_addr_int : TaggedType → Option TaggedType
step_and_addr_int unknown = some unknown
step_and_addr_int val = some ptr_int
step_and_addr_int ptr_null = some ptr_int
step_and_addr_int (int r) = some (if clears_page r then any_int else addr_int)
step_and_addr_int addr_int = some addr_int
step_and_addr_int _ = none

unfoldable pub step_and_func : TaggedType → Option TaggedType
step_and_func unknown = some unknown
step_and_func (int r) = some (if clears_page r then any_int else ptr_int)
step_and_func _ = none

-- `Step::And`
unfoldable pub step_and : TaggedType → TaggedType → Option TaggedType
unfolding step_and_int step_and_val step_and_heap_off step_and_heap step_and_ptr step_and_ptr_int
    step_and_ptr_null step_and_addr_int step_and_func
step_and unknown vr = some unknown
step_and undef vr = some vr
step_and (int l) vr = step_and_int l vr
step_and val vr = step_and_val vr
step_and heap_off vr = step_and_heap_off vr
step_and heap vr = step_and_heap vr
step_and ptr vr = step_and_ptr vr
step_and young vr = none
step_and ptr_int vr = step_and_ptr_int vr
step_and ptr_null vr = step_and_ptr_null vr
step_and addr vr = none
step_and addr_int vr = step_and_addr_int vr
step_and func vr = step_and_func vr
step_and addr_null vr = none
