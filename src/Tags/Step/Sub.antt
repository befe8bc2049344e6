-- ===== src/Tags/Step/Sub.antt =====
-- passes/tags/eval/sub.cpp: a function for each row of the switch. `llvm_unreachable` is `none`.
use llir_opt.Prelude.{Option, none, some}
use llir_opt.Tags.MaskedType.{MaskedType, BitScan, sub}
use llir_opt.Tags.TaggedType.{
  TaggedType, unknown, int, func, young, heap_off, heap, addr, addr_null, addr_int, val, ptr,
  ptr_null, ptr_int, undef, any_int,
}

module _ (scan : BitScan) where
  unfoldable pub step_sub_int : MaskedType → TaggedType → Option TaggedType
  step_sub_int l unknown = some unknown
  step_sub_int l val = some any_int
  step_sub_int l heap = some any_int
  step_sub_int l ptr = some any_int
  step_sub_int l ptr_int = some any_int
  step_sub_int l ptr_null = some any_int
  step_sub_int l addr = some any_int
  step_sub_int l addr_int = some any_int
  step_sub_int l (int r) = some (int (sub scan l r))
  step_sub_int l _ = none

  unfoldable pub step_sub_val : TaggedType → Option TaggedType
  step_sub_val unknown = some unknown
  step_sub_val val = some addr_int
  step_sub_val (int m) = some addr_int
  step_sub_val heap = some any_int
  step_sub_val ptr_int = some addr_int
  step_sub_val addr_int = some addr_int
  step_sub_val _ = none

  unfoldable pub step_sub_heap : TaggedType → Option TaggedType
  step_sub_heap unknown = some unknown
  step_sub_heap (int m) = some addr
  step_sub_heap ptr_int = some addr_int
  step_sub_heap val = some ptr_int
  step_sub_heap heap = some any_int
  step_sub_heap ptr = some any_int
  step_sub_heap addr = some any_int
  step_sub_heap _ = none

  unfoldable pub step_sub_heap_off : TaggedType → Option TaggedType
  step_sub_heap_off unknown = some unknown
  step_sub_heap_off _ = none

  unfoldable pub step_sub_ptr : TaggedType → Option TaggedType
  step_sub_ptr unknown = some unknown
  step_sub_ptr val = some ptr_int
  step_sub_ptr heap = some ptr_int
  step_sub_ptr ptr = some any_int
  step_sub_ptr undef = some undef
  step_sub_ptr ptr_int = some ptr_int
  step_sub_ptr ptr_null = some ptr_int
  step_sub_ptr (int m) = some ptr
  step_sub_ptr _ = none

  unfoldable pub step_sub_ptr_int : TaggedType → Option TaggedType
  step_sub_ptr_int unknown = some unknown
  step_sub_ptr_int val = some ptr_int
  step_sub_ptr_int heap = some any_int
  step_sub_ptr_int ptr = some any_int
  step_sub_ptr_int ptr_int = some ptr_int
  step_sub_ptr_int ptr_null = some ptr_int
  step_sub_ptr_int (int m) = some ptr_int
  step_sub_ptr_int addr_int = some ptr_int
  step_sub_ptr_int _ = none

  unfoldable pub step_sub_ptr_null : TaggedType → Option TaggedType
  step_sub_ptr_null unknown = some unknown
  step_sub_ptr_null (int m) = some ptr_int
  step_sub_ptr_null ptr = some any_int
  step_sub_ptr_null ptr_int = some ptr_int
  step_sub_ptr_null ptr_null = some ptr_int
  step_sub_ptr_null _ = none

  unfoldable pub step_sub_addr : TaggedType → Option TaggedType
  step_sub_addr unknown = some unknown
  step_sub_addr (int m) = some addr
  step_sub_addr ptr = some ptr
  step_sub_addr ptr_int = some addr_int
  step_sub_addr _ = none

  unfoldable pub step_sub_addr_int : TaggedType → Option TaggedType
  step_sub_addr_int unknown = some unknown
  step_sub_addr_int (int m) = some addr_int
  step_sub_addr_int ptr = some ptr_int
  step_sub_addr_int val = some addr_int
  step_sub_addr_int ptr_int = some ptr_int
  step_sub_addr_int ptr_null = some ptr_int
  step_sub_addr_int addr_int = some addr_int
  step_sub_addr_int _ = none

  -- `Step::Sub`
  unfoldable pub step_sub : TaggedType → TaggedType → Option TaggedType
  unfolding step_sub_int step_sub_val step_sub_heap step_sub_heap_off step_sub_ptr step_sub_ptr_int
      step_sub_ptr_null step_sub_addr step_sub_addr_int
  step_sub unknown vr = some unknown
  step_sub undef vr = some undef
  step_sub (int l) vr = step_sub_int l vr
  step_sub val vr = step_sub_val vr
  step_sub heap vr = step_sub_heap vr
  step_sub heap_off vr = step_sub_heap_off vr
  step_sub ptr vr = step_sub_ptr vr
  step_sub young unknown = some unknown
  step_sub young vr = some young
  step_sub ptr_int vr = step_sub_ptr_int vr
  step_sub ptr_null vr = step_sub_ptr_null vr
  step_sub addr vr = step_sub_addr vr
  step_sub addr_int vr = step_sub_addr_int vr
  step_sub addr_null vr = none
  step_sub func vr = none
