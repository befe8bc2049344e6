-- ===== src/Tags/TaggedType/Operators.antt =====
-- passes/tags/tagged_type.cpp: `operator|`, a function for each row of its switch, and `operator<`.
use llir_opt.Prelude.{bit_and, Bool, true, false, ◌&&◌, Option, none, some, ◌==◌, if◌then◌else◌}
use llir_opt.Tags.MaskedType.{MaskedType, all_ones, same_mask}
use llir_opt.Tags.TaggedType.{
  TaggedType, unknown, int, func, young, heap_off, heap, addr, addr_null, addr_int, val, ptr,
  ptr_null, ptr_int, undef, is_odd, is_zero, join_mask,
}

unfoldable pub join_undef : TaggedType → Option TaggedType
join_undef unknown = some undef
join_undef that = some that

unfoldable pub join_int : MaskedType → TaggedType → Option TaggedType
join_int m undef = some (int m)
join_int m unknown = some (int m)
join_int m val = some (if is_odd (int m) then val else ptr_int)
join_int m heap = some (if is_odd (int m) then val else ptr_int)
join_int m ptr_int = some ptr_int
join_int m ptr = some (if is_zero (int m) then ptr_null else ptr_int)
join_int m ptr_null = some (if is_zero (int m) then ptr_null else ptr_int)
join_int m addr_int = some addr_int
join_int m addr = some (if is_zero (int m) then addr_null else addr_int)
join_int m addr_null = some (if is_zero (int m) then addr_null else addr_int)
join_int m heap_off = none
join_int m young = some (if is_odd (int m) then val else ptr_int)
join_int m (int n) = some (int (join_mask m n))
join_int m func = some ptr_int

unfoldable pub join_val : TaggedType → Option TaggedType
join_val undef = some val
join_val unknown = some val
join_val val = some val
join_val heap = some val
join_val heap_off = some val
join_val young = some val
join_val ptr = some ptr_int
join_val ptr_int = some ptr_int
join_val ptr_null = some ptr_int
join_val addr = some addr_int
join_val addr_int = some addr_int
join_val addr_null = some addr_int
join_val (int n) = some (if is_odd (int n) then val else ptr_int)
join_val func = none

unfoldable pub join_heap : TaggedType → Option TaggedType
join_heap undef = some heap
join_heap unknown = some heap
join_heap heap = some heap
join_heap young = some heap
join_heap heap_off = some heap_off
join_heap ptr = some ptr_int
join_heap val = some val
join_heap ptr_int = some ptr_int
join_heap ptr_null = some ptr_null
join_heap addr = some addr
join_heap addr_int = some ptr_int
join_heap addr_null = some ptr_null
join_heap (int n) = some (if is_odd (int n) then val else ptr_int)
join_heap func = none

unfoldable pub join_ptr : TaggedType → Option TaggedType
join_ptr undef = some ptr
join_ptr unknown = some ptr
join_ptr heap = some ptr
join_ptr ptr = some ptr
join_ptr young = some ptr
join_ptr heap_off = some ptr
join_ptr (int n) = some (if is_zero (int n) then ptr_null else ptr_int)
join_ptr val = some ptr_int
join_ptr ptr_int = some ptr_int
join_ptr ptr_null = some ptr_null
join_ptr addr = some ptr
join_ptr addr_int = some ptr_int
join_ptr addr_null = some ptr_null
join_ptr func = some ptr

unfoldable pub join_ptr_null : TaggedType → Option TaggedType
join_ptr_null unknown = some ptr_null
join_ptr_null ptr = some ptr_null
join_ptr_null ptr_null = some ptr_null
join_ptr_null ptr_int = some ptr_int
join_ptr_null val = some ptr_int
join_ptr_null heap = some ptr_null
join_ptr_null undef = some ptr_null
join_ptr_null young = none
join_ptr_null heap_off = none
join_ptr_null (int n) = some (if is_zero (int n) then ptr_null else ptr_int)
join_ptr_null addr = some ptr_null
join_ptr_null addr_int = some ptr_int
join_ptr_null addr_null = some ptr_null
join_ptr_null func = none

unfoldable pub join_addr : TaggedType → Option TaggedType
join_addr unknown = some addr
join_addr ptr = some ptr
join_addr ptr_null = some ptr_null
join_addr ptr_int = some ptr_int
join_addr val = some addr_int
join_addr heap = some addr
join_addr undef = none
join_addr young = none
join_addr heap_off = some addr
join_addr (int n) = some addr_int
join_addr addr = some addr
join_addr addr_int = some addr_int
join_addr addr_null = some addr_null
join_addr func = none

unfoldable pub join_addr_int : TaggedType → Option TaggedType
join_addr_int unknown = some addr_int
join_addr_int undef = some addr_int
join_addr_int ptr = some ptr_int
join_addr_int ptr_null = some ptr_int
join_addr_int ptr_int = some ptr_int
join_addr_int val = some addr_int
join_addr_int heap = some addr_int
join_addr_int young = none
join_addr_int heap_off = some addr_int
join_addr_int (int n) = some addr_int
join_addr_int addr = some addr_int
join_addr_int addr_int = some addr_int
join_addr_int addr_null = some addr_int
join_addr_int func = none

unfoldable pub join_young : TaggedType → Option TaggedType
join_young unknown = some young
join_young young = some young
join_young heap_off = none
join_young ptr = some ptr
join_young ptr_int = some ptr_int
join_young heap = some heap
join_young val = some val
join_young (int n) = some ptr_int
join_young undef = none
join_young ptr_null = none
join_young addr = some ptr
join_young addr_int = some ptr_int
join_young addr_null = some ptr_null
join_young func = none

unfoldable pub join_heap_off : TaggedType → Option TaggedType
join_heap_off unknown = some heap_off
join_heap_off young = some heap_off
join_heap_off heap_off = some heap_off
join_heap_off ptr = some ptr
join_heap_off ptr_int = some ptr_int
join_heap_off heap = some heap_off
join_heap_off val = some val
join_heap_off (int n) = none
join_heap_off undef = none
join_heap_off ptr_null = none
join_heap_off addr = some addr
join_heap_off addr_int = some addr_int
join_heap_off addr_null = none
join_heap_off func = none

unfoldable pub join_func : TaggedType → Option TaggedType
join_func unknown = some func
join_func undef = some func
join_func young = some young
join_func heap_off = some heap_off
join_func ptr = some ptr
join_func ptr_int = some ptr_int
join_func heap = some heap
join_func val = some val
join_func (int n) = some ptr_int
join_func ptr_null = some ptr_null
join_func addr = some ptr
join_func addr_int = some ptr_int
join_func addr_null = some ptr_null
join_func func = some func

-- `operator|`
unfoldable pub join : TaggedType → TaggedType → Option TaggedType
unfolding join_undef join_int join_val join_heap join_ptr join_ptr_null join_addr join_addr_int
    join_young join_heap_off join_func
join unknown that = some that
join undef that = join_undef that
join (int m) that = join_int m that
join val that = join_val that
join heap that = join_heap that
join ptr that = join_ptr that
join ptr_int that = some ptr_int
join ptr_null that = join_ptr_null that
join addr that = join_addr that
join addr_int that = join_addr_int that
join addr_null that = none
join young that = join_young that
join heap_off that = join_heap_off that
join func that = join_func that

-- `INT < INT`
unfoldable pub less_mask : MaskedType → MaskedType → Bool
unfolding same_mask
less_mask this that =
    if same_mask this that
    then false
    else bit_and that.known this.known == that.known
      && bit_and that.value that.known == bit_and this.value that.known

unfoldable pub less_int : MaskedType → TaggedType → Bool
unfolding less_mask
less_int m (int n) = less_mask m n
less_int m ptr_null = m.known == all_ones && m.value == 0
less_int m addr_null = m.known == all_ones && m.value == 0
less_int m ptr_int = true
less_int m addr_int = true
less_int m val = bit_and m.known 1 == 1 && bit_and m.value 1 == 1
less_int m young = false
less_int m heap_off = false
less_int m heap = false
less_int m ptr = false
less_int m addr = false
less_int m func = false
less_int m unknown = false
less_int m undef = false

-- `operator<`
unfoldable pub less : TaggedType → TaggedType → Bool
unfolding less_int
less unknown unknown = false
less unknown _ = true
less (int m) that = less_int m that
less val ptr = true
less val ptr_int = true
less val addr_int = true
less val _ = false
less heap val = true
less heap heap_off = true
less heap ptr = true
less heap ptr_null = true
less heap ptr_int = true
less heap addr = true
less heap addr_null = true
less heap addr_int = true
less heap _ = false
less young heap = true
less young val = true
less young ptr = true
less young ptr_int = true
less young _ = false
less heap_off heap = true
less heap_off val = true
less heap_off ptr = true
less heap_off ptr_null = true
less heap_off ptr_int = true
less heap_off addr = true
less heap_off addr_null = true
less heap_off addr_int = true
less heap_off _ = false
less ptr ptr_int = true
less ptr ptr_null = true
less ptr _ = false
less ptr_int _ = false
less addr ptr = true
less addr ptr_int = true
less addr ptr_null = true
less addr addr_int = true
less addr addr_null = true
less addr _ = false
less addr_null ptr = true
less addr_null ptr_int = true
less addr_null addr_int = true
less addr_null addr_null = true
less addr_null _ = false
less addr_int ptr_int = true
less addr_int _ = false
less undef unknown = false
less undef undef = false
less undef _ = true
less ptr_null ptr_int = true
less ptr_null _ = false
less func ptr = true
less func ptr_int = true
less func val = true
less func heap = true
less func heap_off = true
less func young = true
less func _ = false
