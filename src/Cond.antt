-- ===== src/Cond.antt =====
-- core/cond.h and core/cond.cpp: the condition codes of comparisons, and their inverse; the float
-- comparison of passes/sccp/compare.cpp, which says what a code means; and the rule by which
-- passes/cond_simplify.cpp takes a comparison for decided by an earlier jump.
pub mod Inverse
pub mod Tests
use llir_opt.Prelude.{Bool, true, false, not, ◌&&◌, List, Option, none, some, if◌then◌else◌}

pub data Cond : Type 0 where
  eq oeq ueq : Cond
  ne one une : Cond
  lt olt ult : Cond
  gt ogt ugt : Cond
  le ole ule : Cond
  ge oge uge : Cond
  o uo : Cond

unfoldable pub get_inverse_cond : Cond → Cond
get_inverse_cond eq = ne
get_inverse_cond oeq = one
get_inverse_cond ueq = une
get_inverse_cond ne = eq
get_inverse_cond one = oeq
get_inverse_cond une = oeq
get_inverse_cond lt = ge
get_inverse_cond olt = oge
get_inverse_cond ult = uge
get_inverse_cond gt = le
get_inverse_cond ogt = ole
get_inverse_cond ugt = ule
get_inverse_cond le = gt
get_inverse_cond ole = ogt
get_inverse_cond ule = ugt
get_inverse_cond ge = lt
get_inverse_cond oge = olt
get_inverse_cond uge = ult
get_inverse_cond o = uo
get_inverse_cond uo = o

unfoldable pub is_ordered : Cond → Bool
is_ordered oeq = true
is_ordered one = true
is_ordered olt = true
is_ordered ogt = true
is_ordered ole = true
is_ordered oge = true
is_ordered o = true
is_ordered _ = false

unfoldable pub is_equality : Cond → Bool
is_equality eq = true
is_equality ueq = true
is_equality oeq = true
is_equality ne = true
is_equality une = true
is_equality one = true
is_equality _ = false

-- `APFloat::cmpResult`, what `lhs.compare(rhs)` returns.
pub data CmpResult : Type 0 where
  cmp_less_than cmp_equal cmp_greater_than cmp_unordered : CmpResult

-- `Compare(const APFloat &, const APFloat &, Cond, Type)`, by what `lhs.compare(rhs)` returned.
unfoldable pub compare_float : CmpResult → Cond → Bool
compare_float cmp_unordered o = false
compare_float cmp_unordered uo = true
compare_float _ o = true
compare_float _ uo = false
compare_float cmp_unordered ueq = true
compare_float cmp_unordered une = true
compare_float cmp_unordered ult = true
compare_float cmp_unordered ugt = true
compare_float cmp_unordered ule = true
compare_float cmp_unordered uge = true
compare_float cmp_unordered _ = false
compare_float cmp_equal eq = true
compare_float cmp_equal oeq = true
compare_float cmp_equal ueq = true
compare_float cmp_equal le = true
compare_float cmp_equal ole = true
compare_float cmp_equal ule = true
compare_float cmp_equal ge = true
compare_float cmp_equal oge = true
compare_float cmp_equal uge = true
compare_float cmp_equal _ = false
compare_float cmp_less_than ne = true
compare_float cmp_less_than one = true
compare_float cmp_less_than une = true
compare_float cmp_less_than lt = true
compare_float cmp_less_than olt = true
compare_float cmp_less_than ult = true
compare_float cmp_less_than le = true
compare_float cmp_less_than ole = true
compare_float cmp_less_than ule = true
compare_float cmp_less_than _ = false
compare_float cmp_greater_than ne = true
compare_float cmp_greater_than one = true
compare_float cmp_greater_than une = true
compare_float cmp_greater_than gt = true
compare_float cmp_greater_than ogt = true
compare_float cmp_greater_than ugt = true
compare_float cmp_greater_than ge = true
compare_float cmp_greater_than oge = true
compare_float cmp_greater_than uge = true
compare_float cmp_greater_than _ = false

pub Cond-discrete : Discrete Cond
Cond-discrete = hlevel

-- `cc == that`
unfoldable pub same_cond : Cond → Cond → Bool
same_cond a b = elim (Cond-discrete a b) [ yes _ ↦ true | no _ ↦ false ]

-- `IsRedundant` for a jump on an earlier comparison: `same_lhs` and `same_rhs` say whether the
-- operands are the same, `flag` which way the jump went.
unfoldable pub is_redundant : Cond → Cond → Bool → Bool → Bool → Option Bool
is_redundant cc prior_cc same_lhs same_rhs flag =
    if same_lhs && same_rhs
    then (if same_cond cc prior_cc
        then some flag
        else (if same_cond cc (get_inverse_cond prior_cc) then some (not flag) else none))
    else none
