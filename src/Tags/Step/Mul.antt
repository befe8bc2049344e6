-- ===== src/Tags/Step/Mul.antt =====
-- passes/tags/eval/mul.cpp: `Step::Mul`.
use llir_opt.Prelude.{Bool, true, false, ◌&&◌, ◌||◌, if◌then◌else◌}
use llir_opt.Tags.TaggedType.{
  TaggedType, unknown, int, undef, any_int, zero_type, even, odd, is_zero, is_one, is_even, is_odd,
}

unfoldable pub is_unknown : TaggedType → Bool
is_unknown unknown = true
is_unknown _ = false

-- The product with one.
unfoldable pub step_mul_one : TaggedType → TaggedType
unfolding any_int
step_mul_one unknown = unknown
step_mul_one (int m) = int m
step_mul_one undef = undef
step_mul_one _ = any_int

unfoldable pub step_mul : TaggedType → TaggedType → TaggedType
unfolding is_unknown is_zero is_one is_even is_odd zero_type even odd any_int step_mul_one
step_mul vl vr =
    if is_unknown vl || is_unknown vr
    then unknown
    else (if is_zero vl || is_zero vr
        then zero_type
        else (if is_one vl || is_one vr
            then step_mul_one (if is_one vl then vr else vl)
            else (if is_even vl || is_even vr
                then even
                else (if is_odd vl && is_odd vr then odd else any_int))))
