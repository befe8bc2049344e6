-- ===== src/Tags/Step/Xor.antt =====
-- passes/tags/eval/xor.cpp: a function for each row of the switch. `llvm_unreachable` is `none`.
use llir_opt.Prelude.{Option, none, some}
use llir_opt.Tags.MaskedType.{MaskedType, exclusive_or}
use llir_opt.Tags.TaggedType.{
  TaggedType, unknown, int, func, young, heap_off, heap, addr, addr_null, addr_int, val, ptr,
  ptr_null, ptr_int, undef, any_int,
}

unfoldable pub step_xor_int : MaskedType → TaggedType → Option TaggedType
step_xor_int l unknown = some unknown
step_xor_int l ptr_int = some ptr_int
step_xor_int l val = some ptr_int
step_xor_int l heap = some ptr_int
step_xor_int l ptr = some ptr_int
step_xor_int l addr_int = some addr_int
step_xor_int l (int r) = some (int (exclusive_or l r))
step_xor_int l _ = none

unfoldable pub step_xor_val : TaggedType → Option TaggedType
step_xor_val unknown = some unknown
step_xor_val (int m) = some ptr_int
step_xor_val ptr_int = some ptr_int
step_xor_val val = some val
step_xor_val addr_int = some ptr_int
step_xor_val _ = none

unfoldable pub step_xor_heap : TaggedType → Option TaggedType
step_xor_heap unknown = some unknown
step_xor_heap heap = some any_int
step_xor_heap _ = none

unfoldable pub step_xor_heap_off : TaggedType → Option TaggedType
step_xor_heap_off unknown = some unknown
step_xor_heap_off _ = none

unfoldable pub step_xor_ptr : TaggedType → Option TaggedType
step_xor_ptr unknown = some unknown
step_xor_ptr (int m) = some ptr_int
step_xor_ptr ptr_int = some ptr_int
step_xor_ptr ptr = some any_int
step_xor_ptr ptr_null = some ptr_int
step_xor_ptr _ = none

unfoldable pub step_xor_ptr_int : TaggedType → Option TaggedType
step_xor_ptr_int unknown = some unknown
step_xor_ptr_int (int m) = some ptr_int
step_xor_ptr_int ptr_int = some ptr_int
step_xor_ptr_int val = some ptr_int
step_xor_ptr_int heap = some any_int
step_xor_ptr_int ptr = some ptr_int
step_xor_ptr_int ptr_null = some ptr_int
step_xor_ptr_int _ = none

unfoldable pub step_xor_ptr_null : TaggedType → Option TaggedType
step_xor_ptr_null unknown = some unknown
step_xor_ptr_null (int m) = some ptr_int
step_xor_ptr_null _ = none

unfoldable pub step_xor_addr : TaggedType → Option TaggedType
step_xor_addr unknown = some unknown
step_xor_addr val = some ptr_int
step_xor_addr _ = none

unfoldable pub step_xor_addr_int : TaggedType → Option TaggedType
step_xor_addr_int unknown = some unknown
step_xor_addr_int (int m) = some addr_int
step_xor_addr_int val = some ptr_int
step_xor_addr_int heap = some any_int
step_xor_addr_int _ = none

-- `Step::Xor`
unfoldable pub step_xor : TaggedType → TaggedType → Option TaggedType
unfolding step_xor_int step_xor_val step_xor_heap step_xor_heap_off step_xor_ptr step_xor_ptr_int
    step_xor_ptr_null step_xor_addr step_xor_addr_int
step_xor unknown vr = some unknown
step_xor undef vr = some undef
step_xor (int l) vr = step_xor_int l vr
step_xor val vr = step_xor_val vr
step_xor heap vr = step_xor_heap vr
step_xor heap_off vr = step_xor_heap_off vr
step_xor ptr vr = step_xor_ptr vr
step_xor young vr = none
step_xor ptr_int vr = step_xor_ptr_int vr
step_xor ptr_null vr = step_xor_ptr_null vr
step_xor addr vr = step_xor_addr vr
step_xor addr_int vr = step_xor_addr_int vr
step_xor addr_null vr = none
step_xor func vr = none
