-- ===== src/Tags/Step/Add.antt =====
-- passes/tags/eval/add.cpp: a function for each row of the switch. `llvm_unreachable` is `none`.
use llir_opt.Prelude.{Option, none, some, if◌then◌else◌}
use llir_opt.Tags.MaskedType.{MaskedType, BitScan, add, is_aligned}
use llir_opt.Tags.TaggedType.{
  TaggedType, unknown, int, func, young, heap_off, heap, addr, addr_null, addr_int, val, ptr,
  ptr_null, ptr_int, undef,
}

module _ (scan : BitScan) where
  unfoldable pub step_add_val : TaggedType → Option TaggedType
  step_add_val unknown = some unknown
  step_add_val val = some addr_int
  step_add_val ptr_int = some ptr_int
  step_add_val (int m) = some addr_int
  step_add_val addr_int = some addr_int
  step_add_val _ = none

  unfoldable pub step_add_heap : TaggedType → Option TaggedType
  step_add_heap unknown = some unknown
  step_add_heap val = some ptr
  step_add_heap ptr_int = some ptr
  step_add_heap (int r) = some (if is_aligned r then heap_off else addr)
  step_add_heap _ = none

  unfoldable pub step_add_ptr : TaggedType → Option TaggedType
  step_add_ptr unknown = some unknown
  step_add_ptr ptr = some ptr
  step_add_ptr ptr_int = some ptr
  step_add_ptr ptr_null = some ptr_int
  step_add_ptr (int m) = some ptr
  step_add_ptr _ = none

  unfoldable pub step_add_young : TaggedType → Option TaggedType
  step_add_young unknown = some unknown
  step_add_young (int r) = some (if is_aligned r then heap_off else addr)
  step_add_young _ = none

  unfoldable pub step_add_heap_off : TaggedType → Option TaggedType
  step_add_heap_off unknown = some unknown
  step_add_heap_off (int r) = some (if is_aligned r then heap_off else addr)
  step_add_heap_off _ = none

  unfoldable pub step_add_ptr_int : TaggedType → Option TaggedType
  step_add_ptr_int unknown = some unknown
  step_add_ptr_int ptr = some ptr_int
  step_add_ptr_int val = some ptr_int
  step_add_ptr_int heap = some ptr
  step_add_ptr_int ptr_int = some ptr_int
  step_add_ptr_int ptr_null = some ptr_int
  step_add_ptr_int (int m) = some ptr_int
  step_add_ptr_int addr_int = some ptr_int
  step_add_ptr_int _ = none

  unfoldable pub step_add_ptr_null : TaggedType → Option TaggedType
  step_add_ptr_null unknown = some unknown
  step_add_ptr_null ptr_int = some ptr_int
  step_add_ptr_null (int m) = some ptr_int
  step_add_ptr_null _ = none

  unfoldable pub step_add_int : MaskedType → TaggedType → Option TaggedType
  step_add_int l unknown = some unknown
  step_add_int l (int r) = some (int (add scan l r))
  step_add_int l ptr = some ptr
  step_add_int l val = some addr_int
  step_add_int l heap = some ptr
  step_add_int l ptr_int = some ptr_int
  step_add_int l ptr_null = some ptr_int
  step_add_int l addr = some addr_int
  step_add_int l addr_int = some addr_int
  step_add_int l _ = none

  unfoldable pub step_add_addr : TaggedType → Option TaggedType
  step_add_addr unknown = some unknown
  step_add_addr (int m) = some addr
  step_add_addr ptr = some ptr_int
  step_add_addr val = some ptr_int
  step_add_addr heap = some ptr_int
  step_add_addr ptr_int = some ptr_int
  step_add_addr ptr_null = some ptr_int
  step_add_addr _ = none

  unfoldable pub step_add_addr_int : TaggedType → Option TaggedType
  step_add_addr_int unknown = some unknown
  step_add_addr_int (int m) = some addr_int
  step_add_addr_int ptr = some ptr_int
  step_add_addr_int val = some addr_int
  step_add_addr_int heap = some addr_int
  step_add_addr_int ptr_int = some ptr_int
  step_add_addr_int ptr_null = some ptr_int
  step_add_addr_int addr_int = some addr_int
  step_add_addr_int _ = none

  -- `Step::Add`
  unfoldable pub step_add : TaggedType → TaggedType → Option TaggedType
  unfolding step_add_val step_add_heap step_add_ptr step_add_young step_add_heap_off
      step_add_ptr_int step_add_ptr_null step_add_int step_add_addr step_add_addr_int
  step_add unknown vr = some unknown
  step_add val vr = step_add_val vr
  step_add heap vr = step_add_heap vr
  step_add ptr vr = step_add_ptr vr
  step_add young vr = step_add_young vr
  step_add heap_off vr = step_add_heap_off vr
  step_add undef unknown = some unknown
  step_add undef vr = some undef
  step_add ptr_int vr = step_add_ptr_int vr
  step_add ptr_null vr = step_add_ptr_null vr
  step_add (int l) vr = step_add_int l vr
  step_add addr vr = step_add_addr vr
  step_add addr_int vr = step_add_addr_int vr
  step_add addr_null vr = none
  step_add func vr = none
