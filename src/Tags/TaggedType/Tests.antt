-- ===== src/Tags/TaggedType/Tests.antt =====
-- The laws of the types of registers at concrete types and values.
use llir_opt.Prelude.{ℕ, ◌≡◌, ◌≢◌, refl, ◌⊎◌, inr, true, false, some, arith}
use llir_opt.Bits.{test_bit}
use llir_opt.Tags.MaskedType.{masked}
use llir_opt.Tags.MaskedType.Sound.{masked-IsMask}
use llir_opt.Tags.TaggedType.{
  val, heap, young, odd, is_even, is_odd, is_zero, is_one, is_zero_or_one, is_non_zero, to_integer,
  to_pointer, addr_null,
}
use llir_opt.Tags.TaggedType.Operators.{join, less}
use llir_opt.Tags.TaggedType.Values.{Region, young_heap, ocaml_heap, word, pointer, Has}
use llir_opt.Tags.TaggedType.Join.{WellFormed, join_sound}
use llir_opt.Tags.TaggedType.Below.{less_sound}
use llir_opt.Tags.TaggedType.Refine.{tests_sound, conversions_sound}

odd-WellFormed : WellFormed odd
unfolding WellFormed odd
odd-WellFormed = masked-IsMask 1 1 (omega arith) (omega arith)

young-WellFormed : WellFormed young
unfolding WellFormed
young-WellFormed = tt

-- A young pointer joined with an odd word may be an OCaml value.
join_sound_example : Has val (pointer young_heap)
unfolding join odd masked is_odd Has
join_sound_example =
    join_sound odd young val (pointer young_heap) odd-WellFormed young-WellFormed joined
      (inr allowed)
  where
    joined : join odd young ≡ some val
    joined = refl

    allowed : Has young (pointer young_heap)
    allowed = refl

heap-WellFormed : WellFormed heap
unfolding WellFormed
heap-WellFormed = tt

less_sound_example : Has val (pointer ocaml_heap)
unfolding less Has
less_sound_example = less_sound heap val (pointer ocaml_heap) heap-WellFormed below refl allowed
  where
    below : less heap val ≡ true
    below = refl

    allowed : Has heap (pointer ocaml_heap)
    allowed = refl

abbrev seven : ℕ
seven = 7

tests_sound_example :
    (is_even val ≡ true → test_bit seven 0 ≡ false)
    × (is_odd val ≡ true → test_bit seven 0 ≡ true)
    × (is_zero val ≡ true → seven ≡ 0)
    × (is_one val ≡ true → seven ≡ 1)
    × (is_zero_or_one val ≡ true → (seven ≡ 0) ⊎ (seven ≡ 1))
    × (is_non_zero val ≡ true → seven ≢ 0)
unfolding WellFormed Has
tests_sound_example = tests_sound val seven val-WellFormed allowed
  where
    val-WellFormed : WellFormed val
    val-WellFormed = tt

    allowed : Has val (word seven)
    allowed = (omega arith, refl)

odd_is_implemented : odd ≢ addr_null
unfolding odd
odd_is_implemented = ground arith

conversions_sound_example :
    (((x : ℕ) → Has val (word x) → Has (to_integer val) (word x))
      × ((r : Region) → ¬ Has (to_integer val) (pointer r)))
    × ((r : Region) → Has val (pointer r) → Has (to_pointer val) (pointer r))
    × ((x : ℕ) → ¬ Has (to_pointer val) (word x))
conversions_sound_example = conversions_sound val
