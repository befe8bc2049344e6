-- ===== src/Tags/Step/Or.antt =====
-- passes/tags/eval/or.cpp: a function for each row of the switch. `llvm_unreachable` is `none`.
use llir_opt.Prelude.{Option, none, some}
use llir_opt.Tags.MaskedType.{MaskedType, or}
use llir_opt.Tags.TaggedType.{
  TaggedType, unknown, int, func, young, heap_off, heap, addr, addr_null, addr_int, val, ptr,
  ptr_null, ptr_int, undef, any_int,
}

unfoldable pub step_or_int : MaskedType → TaggedType → Option TaggedType
step_or_int l unknown = some unknown
step_or_int l ptr_int = some ptr_int
step_or_int l val = some ptr_int
step_or_int l ptr = some ptr_int
step_or_int l undef = some undef
step_or_int l addr = some addr_int
step_or_int l addr_int = some addr_int
step_or_int l (int r) = some (int (or l r))
step_or_int l _ = none

unfoldable pub step_or_val : TaggedType → Option TaggedType
step_or_val unknown = some unknown
step_or_val (int m) = some ptr_int
step_or_val ptr_int = some ptr_int
step_or_val val = some ptr_int
step_or_val addr_int = some ptr_int
step_or_val _ = none

unfoldable pub step_or_heap_off : TaggedType → Option TaggedType
step_or_heap_off unknown = some unknown
step_or_heap_off _ = none

unfoldable pub step_or_heap : TaggedType → Option TaggedType
step_or_heap unknown = some unknown
step_or_heap (int m) = some ptr_int
step_or_heap ptr_int = some ptr_int
step_or_heap heap = some any_int
step_or_heap _ = none

unfoldable pub step_or_ptr : TaggedType → Option TaggedType
step_or_ptr unknown = some unknown
step_or_ptr (int m) = some ptr_int
step_or_ptr ptr_int = some ptr_int
step_or_ptr ptr = some ptr_int
step_or_ptr _ = none

unfoldable pub step_or_ptr_int : TaggedType → Option TaggedType
step_or_ptr_int unknown = some unknown
step_or_ptr_int (int m) = some ptr_int
step_or_ptr_int ptr_int = some ptr_int
step_or_ptr_int val = some ptr_int
step_or_ptr_int heap = some ptr_int
step_or_ptr_int ptr = some ptr_int
step_or_ptr_int ptr_null = some ptr_int
step_or_ptr_int addr_int = some ptr_int
step_or_ptr_int _ = none

unfoldable pub step_or_ptr_null : TaggedType → Option TaggedType
step_or_ptr_null unknown = some unknown
step_or_ptr_null (int m) = some ptr_int
step_or_ptr_null ptr_int = some ptr_int
step_or_ptr_null ptr_null = some ptr_null
step_or_ptr_null _ = none

unfoldable pub step_or_addr_int : TaggedType → Option TaggedType
step_or_addr_int unknown = some unknown
step_or_addr_int (int m) = some addr_int
step_or_addr_int ptr_int = some ptr_int
step_or_addr_int val = some ptr_int
step_or_addr_int _ = none

-- `Step::Or`
unfoldable pub step_or : TaggedType → TaggedType → Option TaggedType
unfolding step_or_int step_or_val step_or_heap_off step_or_heap step_or_ptr step_or_ptr_int
    step_or_ptr_null step_or_addr_int
step_or unknown vr = some unknown
step_or (int l) vr = step_or_int l vr
step_or val vr = step_or_val vr
step_or heap_off vr = step_or_heap_off vr
step_or heap vr = step_or_heap vr
step_or ptr vr = step_or_ptr vr
step_or young vr = none
step_or undef unknown = some unknown
step_or undef vr = some undef
step_or ptr_int vr = step_or_ptr_int vr
step_or ptr_null vr = step_or_ptr_null vr
step_or addr vr = none
step_or addr_int vr = step_or_addr_int vr
step_or addr_null vr = none
step_or func unknown = some unknown
step_or func vr = some any_int
