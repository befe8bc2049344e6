-- ===== src/Tags/Step/Tests.antt =====
-- The tables of passes/tags/eval at concrete operands: words of four or five with an odd word, and a
-- heap pointer that moves by a tagged word.
use llir_opt.Prelude.{
  some, ◌*◌, ◌/◌, ◌^◌, ◌+◌, ◌-◌, ◌%◌, ◌≡◌, refl, ◌⊎◌, bit_and, bit_or, bit_xor, arith,
}
use llir_opt.Sccp.Compare.{i32, i64}
use llir_opt.Tags.MaskedType.{u64}
use llir_opt.Tags.MaskedType.Tests.{scan}
use llir_opt.Tags.TaggedType.{val, heap, ptr, ptr_int}
use llir_opt.Tags.TaggedType.Values.{word, pointer, ocaml_heap, derived, Has, HasWord, allows}
use llir_opt.Tags.TaggedType.Join.{WellFormed}
use llir_opt.Tags.Step.Add.{step_add}
use llir_opt.Tags.Step.Sub.{step_sub}
use llir_opt.Tags.Step.And.{step_and}
use llir_opt.Tags.Step.Or.{step_or}
use llir_opt.Tags.Step.Xor.{step_xor}
use llir_opt.Tags.Step.Words.{Allowed, step_words_sound}
use llir_opt.Tags.Step.Mul.{step_mul}
use llir_opt.Tags.Step.Shift.{step_shl, step_shr}
use llir_opt.Tags.Step.Products.{step_mul_shift_sound}
use llir_opt.Tags.Step.Conv.{step_ext, step_trunc, step_conv_sound}
use llir_opt.Tags.Step.Pointers.{derives, pointer_word, step_add_sound}

-- The address of an odd word past a heap pointer.
step_add_sound_example : Has ptr (pointer derived)
unfolding step_add Has HasWord WellFormed allows
step_add_sound_example =
    step_add_sound scan heap val ptr (pointer ocaml_heap) (word 3) (pointer derived) tt tt refl refl
      (omega arith, refl) (pointer_word (derives refl refl))

step_words_sound_example :
    Allowed (step_sub scan val val) ((5 + u64 - 3) % u64)
    × Allowed (step_and val val) (bit_and 5 3)
    × Allowed (step_or val val) (bit_or 5 3)
    × (Allowed (step_xor val val) (bit_xor 5 3) ⊎ ((val ≡ val) × (val ≡ val)))
unfolding HasWord WellFormed
step_words_sound_example =
    step_words_sound scan val val 5 3 tt tt (omega arith, refl) (omega arith, refl)

step_mul_shift_sound_example :
    HasWord (step_mul val val) (5 * 3 % u64)
    × HasWord (step_shl val val) (5 * 2 ^ 3 % u64)
    × HasWord (step_shr val val) (5 / 2 ^ 3)
unfolding HasWord WellFormed
step_mul_shift_sound_example =
    step_mul_shift_sound val val 5 3 tt tt (omega arith, refl) (omega arith, refl)

step_conv_sound_example :
    HasWord (step_ext ptr_int) 5 × Allowed (step_trunc (some i64) i32 ptr_int) (5 % 2 ^ 32)
unfolding HasWord
step_conv_sound_example = step_conv_sound (some i64) i32 ptr_int 5 32 (omega arith)
