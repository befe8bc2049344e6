-- ===== src/Tags/Step/Shift.antt =====
-- passes/tags/eval/shift.cpp: `Step::Shr` and `Step::Shl`.
use llir_opt.Prelude.{◌||◌, if◌then◌else◌}
use llir_opt.Tags.TaggedType.{
  TaggedType, unknown, young, heap_off, heap, val, undef, any_int, even, is_non_zero,
}
use llir_opt.Tags.Step.Mul.{is_unknown}

unfoldable pub step_shr : TaggedType → TaggedType → TaggedType
unfolding any_int is_unknown
step_shr unknown vr = unknown
step_shr undef vr = undef
step_shr val vr = if is_unknown vr then vr else any_int
step_shr heap_off vr = if is_unknown vr then vr else any_int
step_shr young vr = if is_unknown vr then vr else any_int
step_shr heap vr = if is_unknown vr then vr else any_int
step_shr _ vr = any_int

unfoldable pub step_shl : TaggedType → TaggedType → TaggedType
unfolding any_int even is_unknown is_non_zero
step_shl vl vr =
    if is_unknown vl || is_unknown vr then unknown else (if is_non_zero vr then even else any_int)
