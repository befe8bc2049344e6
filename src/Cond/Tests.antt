-- ===== src/Cond/Tests.antt =====
-- The laws of the condition codes at concrete codes.
use llir_opt.Prelude.{◌≡◌, refl, ◌≢◌, ◌⊎◌, ◌↔◌, true, false, not, some, arith}
use llir_opt.Cond.{
  ule, ugt, get_inverse_cond, cmp_less_than, cmp_unordered, compare_float, is_redundant, same_cond,
  Cond-discrete,
}
use llir_opt.Cond.Inverse.{get_inverse_cond_iff, inverts_unordered, is_redundant_sound}

less_than_is_ordered : cmp_less_than ≢ cmp_unordered
less_than_is_ordered = ground arith

get_inverse_cond_iff_example :
    (compare_float cmp_less_than (get_inverse_cond ule) ≡ not (compare_float cmp_less_than ule))
    ↔ ((cmp_less_than ≢ cmp_unordered) ⊎ (inverts_unordered ule ≡ true))
get_inverse_cond_iff_example = get_inverse_cond_iff cmp_less_than ule

-- After a jump on `ULE` that was taken, `UGT` of the same operands is false.
is_redundant_sound_example : compare_float cmp_less_than ugt ≡ false
unfolding compare_float is_redundant same_cond get_inverse_cond Cond-discrete
is_redundant_sound_example =
    is_redundant_sound cmp_less_than ugt ule true true true false less_than_is_ordered taken decided
  where
    taken : compare_float cmp_less_than ule ≡ true
    taken = refl

    decided : is_redundant ugt ule true true true ≡ some false
    decided = refl
