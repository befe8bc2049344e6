-- ===== src/Sccp/Compare/Tests.antt =====
-- The laws of comparisons on integers and floats of eight bits. The float 127 is no number.
use llir_opt.Prelude.{
  ℕ, ◌+◌, ◌%◌, ◌≡◌, refl, Bool, false, not, ◌||◌, some, ltb, ◌==◌, if◌then◌else◌, arith,
}
use llir_opt.Bits.{test_bit-bit_and}
use llir_opt.Cond.{
  ult, eq, get_inverse_cond, CmpResult, cmp_less_than, cmp_equal, cmp_greater_than, cmp_unordered,
}
use llir_opt.Sccp.Lattice.{int, mask, Fact}
use llir_opt.Sccp.Lattice.Values.{Holds, Agrees, int_value}
use llir_opt.Sccp.Lattice.Tests.{bytes, tiny_floats, weak_one}
use llir_opt.Sccp.Compare.{
  i8, i32, GlobalKind, atom, ApOrder, make_boolean, get_size, compare_equality,
}
use llir_opt.Sccp.Compare.Visit.{
  compare_int, visit_cmp_inst, visit_known, visit_int, order_mask, unequal,
}
use llir_opt.Sccp.Compare.Inverse.{negate, visit_cmp_inst-get_inverse_cond}
use llir_opt.Sccp.Compare.Sound.{visit_cmp_inst_integers}

abbrev signed_lt : ℕ → ℕ → Bool
signed_lt x y = ltb ((x + 128) % 256) ((y + 128) % 256)

abbrev compare_tiny : ℕ → ℕ → CmpResult
compare_tiny x y =
    if x == 127 || y == 127
    then cmp_unordered
    else (if ltb x y then cmp_less_than else (if x == y then cmp_equal else cmp_greater_than))

abbrev orders : ApOrder bytes tiny_floats
orders = record {
  slt = signed_lt;
  sgt = λ x y. signed_lt y x;
  sle = λ x y. not (signed_lt y x);
  sge = λ x y. not (signed_lt x y);
  unsigned_lt = ltb;
  unsigned_gt = λ x y. ltb y x;
  unsigned_le = λ x y. not (ltb y x);
  unsigned_ge = λ x y. not (ltb x y);
  is_one_value = λ x. x == 1;
  compare = compare_tiny;
  sgt_flips = λ x y. refl;
  sle_negates = λ x y. refl;
  sge_negates = λ x y. refl;
  unsigned_gt_flips = λ x y. refl;
  unsigned_le_negates = λ x y. refl;
  unsigned_ge_negates = λ x y. refl;
}

abbrev all_atoms : ℕ → GlobalKind
all_atoms _ = atom

abbrev six : Fact bytes tiny_floats weak_one
six = int 6

abbrev an_odd : Fact bytes tiny_floats weak_one
an_odd = mask 1 1

seven_is_odd : Holds bytes tiny_floats weak_one an_odd (int_value 7)
unfolding Holds Agrees
seven_is_odd = λ i h e. ground (arith, test_bit-bit_and i 7 1)

visit_cmp_inst_integers_example :
    compare_int bytes tiny_floats orders weak_one all_atoms 6 7 eq ≡ some false
unfolding Holds visit_cmp_inst visit_known visit_int order_mask unequal compare_equality
    make_boolean get_size
visit_cmp_inst_integers_example =
    visit_cmp_inst_integers bytes tiny_floats orders weak_one all_atoms six an_odd 6 7 eq i32 32
      false refl seven_is_odd refl

visit_cmp_inst-get_inverse_cond_example :
    visit_cmp_inst bytes tiny_floats orders weak_one all_atoms six an_odd (get_inverse_cond ult) i8
    ≡ negate (visit_cmp_inst bytes tiny_floats orders weak_one all_atoms six an_odd ult i8)
visit_cmp_inst-get_inverse_cond_example =
    visit_cmp_inst-get_inverse_cond bytes tiny_floats orders weak_one all_atoms six an_odd ult i8
      (λ x. x)
