-- ===== src/Tags/Step/Conv.antt =====
-- passes/tags/eval/conv.cpp: `Step::Ext` and `Step::Trunc`. Of the target only the type of its pointers
-- matters, `none` without a target.
use native.Mathlib.Nat.{mod-le}
use llir_opt.Prelude.{
  ℕ, ◌<◌, ◌%◌, ◌^◌, Bool, true, not, Option, none, some, ltb, arith, if◌then◌else◌,
}
use llir_opt.Sccp.Compare.{Ty, get_size}
use llir_opt.Tags.MaskedType.{u64}
use llir_opt.Tags.TaggedType.{
  TaggedType, unknown, int, young, heap_off, heap, val, undef, any_int, even,
}
use llir_opt.Tags.TaggedType.Values.{HasWord}
use llir_opt.Tags.Step.Words.{Allowed, any_int-HasWord, HasWord-lt}

unfoldable pub step_ext : TaggedType → TaggedType
unfolding even any_int
step_ext unknown = unknown
step_ext (int m) = int m
step_ext young = even
step_ext heap = even
step_ext heap_off = even
step_ext undef = undef
step_ext _ = any_int

unfoldable pub fits_pointer : Option Ty → Ty → Bool
unfolding get_size
fits_pointer none ty = true
fits_pointer (some pointer_type) ty = not (ltb (get_size ty) (get_size pointer_type))

unfoldable pub step_trunc : Option Ty → Ty → TaggedType → Option TaggedType
unfolding any_int fits_pointer
step_trunc target ty unknown = some unknown
step_trunc target ty (int m) = some any_int
step_trunc target ty val = some any_int
step_trunc target ty undef = some undef
step_trunc target ty young = none
step_trunc target ty arg = some (if fits_pointer target ty then arg else any_int)

-- `Step::Ext` allows the words of its operand, as they are without a sign. `Step::Trunc`, wherever it is
-- implemented, allows the lowest bits of any word of its operand, whatever their number.
pub step_conv_sound :
    (target : Option Ty) (ty : Ty) (t : TaggedType) (x w : ℕ)
    → HasWord t x
    → HasWord (step_ext t) x × Allowed (step_trunc target ty t) (x % 2 ^ w)
unfolding step_ext step_trunc HasWord Allowed
step_conv_sound target ty t x w h =
    let whole = HasWord-lt t x h in
    let low : x % 2 ^ w < u64 = omega (arith, mod-le x (2 ^ w), whole) in
    (
      ground (arith, any_int-HasWord x whole),
      ground (arith, any_int-HasWord (x % 2 ^ w) low, mod-le x (2 ^ w)),
    )
