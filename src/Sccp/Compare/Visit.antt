-- ===== src/Sccp/Compare/Visit.antt =====
-- passes/sccp/compare.cpp: `Compare` of integers, frames and globals, and `VisitCmpInst`, a function
-- for each row of its table. The facts of the operands stand for `GetValue` of them, and the answer
-- for the call of `Mark`.
use llir_opt.Prelude.{
  ℕ, Bool, true, false, not, ◌&&◌, ◌||◌, Option, none, some, ◌==◌, if◌then◌else◌,
}
use llir_opt.Cond.{
  Cond, eq, oeq, ueq, ne, one, une, lt, olt, ult, gt, ogt, ugt, le, ole, ule, ge, oge, uge, o, uo,
  compare_float,
}
use llir_opt.Sccp.Lattice.{
  ApInt, ApFloat, unknown, overdefined, int, mask, float, float_zero, frame, global, pointer, range,
  undefined, Fact,
}
use llir_opt.Sccp.Compare.{
  Ty, Answer, other, unmarked, GlobalKind, atom, ApOrder, make_boolean, compare_offsets,
  compare_equality, int_order,
}

module _ (ints : ApInt) (floats : ApFloat) (orders : ApOrder ints floats) (is_weak : ℕ → Bool)
    (kind : ℕ → GlobalKind) where
  open ints use {conj, differ, is_null_value, same_int}

  abbrev pub Marked : Type 0
  Marked = Option (Answer (Fact ints floats is_weak))

  abbrev mark_overdefined : Marked
  mark_overdefined = some (other overdefined)

  abbrev mark_undefined : Marked
  mark_undefined = some (other undefined)

  unfoldable pub compare_int : ints.Carrier → ints.Carrier → Cond → Option Bool
  compare_int lhs rhs eq = some (same_int lhs rhs)
  compare_int lhs rhs oeq = some (same_int lhs rhs)
  compare_int lhs rhs ueq = some (same_int lhs rhs)
  compare_int lhs rhs ne = some (not (same_int lhs rhs))
  compare_int lhs rhs one = some (not (same_int lhs rhs))
  compare_int lhs rhs une = some (not (same_int lhs rhs))
  compare_int lhs rhs lt = some (orders.slt lhs rhs)
  compare_int lhs rhs olt = some (orders.slt lhs rhs)
  compare_int lhs rhs ult = some (orders.unsigned_lt lhs rhs)
  compare_int lhs rhs gt = some (orders.sgt lhs rhs)
  compare_int lhs rhs ogt = some (orders.sgt lhs rhs)
  compare_int lhs rhs ugt = some (orders.unsigned_gt lhs rhs)
  compare_int lhs rhs le = some (orders.sle lhs rhs)
  compare_int lhs rhs ole = some (orders.sle lhs rhs)
  compare_int lhs rhs ule = some (orders.unsigned_le lhs rhs)
  compare_int lhs rhs ge = some (orders.sge lhs rhs)
  compare_int lhs rhs oge = some (orders.sge lhs rhs)
  compare_int lhs rhs uge = some (orders.unsigned_ge lhs rhs)
  compare_int lhs rhs o = none
  compare_int lhs rhs uo = none

  -- `MakeBoolean(Compare(lhs, rhs, cc), ty)`
  unfoldable pub boolean_of : Option Bool → Ty → Marked
  boolean_of none ty = none
  boolean_of (some value) ty = make_boolean value ty

  unfoldable pub compare_frame : ℕ → ℕ → ℕ → ℕ → Cond → Ty → Marked
  unfolding compare_offsets
  compare_frame lobj loff robj roff cc ty =
      let same = lobj == robj in
      compare_offsets (λ value. make_boolean value ty)
        (λ value. if same then make_boolean value ty else mark_undefined) (same && loff == roff)
        loff roff cc

  -- The switch on the kinds of two globals that are not weak.
  unfoldable pub compare_kinds : GlobalKind → GlobalKind → ℕ → ℕ → ℕ → ℕ → Cond → Ty → Marked
  unfolding compare_offsets compare_equality
  compare_kinds atom atom lg loff rg roff cc ty =
      let same = lg == rg in
      compare_offsets (λ value. make_boolean value ty)
        (λ value. if same then make_boolean value ty else mark_overdefined) (same && loff == roff)
        loff roff cc
  compare_kinds atom _ lg loff rg roff cc ty =
      compare_equality (λ value. make_boolean value ty) mark_overdefined false cc
  compare_kinds _ _ lg loff rg roff cc ty =
      compare_equality (λ value. make_boolean value ty) mark_overdefined (lg == rg && loff == roff)
        cc

  unfoldable pub compare_global : ℕ → ℕ → ℕ → ℕ → Cond → Ty → Marked
  unfolding compare_kinds
  compare_global lg loff rg roff cc ty =
      if is_weak lg || is_weak rg
      then mark_overdefined
      else compare_kinds (kind lg) (kind rg) lg loff rg roff cc ty

  -- `Unequal`
  unfoldable pub unequal : Cond → Ty → Marked
  unfolding compare_equality
  unequal cc ty = compare_equality (λ value. make_boolean value ty) mark_overdefined false cc

  -- A test against a null integer.
  unfoldable pub order_null : Bool → ints.Carrier → Cond → Ty → Marked
  unfolding int_order
  order_null lower i cc ty = if is_null_value i then int_order lower cc ty else mark_overdefined

  -- An integer against the known bits of a mask.
  unfoldable pub order_mask : ints.Carrier → ints.Carrier → ints.Carrier → Cond → Ty → Marked
  unfolding unequal
  order_mask known value i cc ty =
      if is_null_value (conj known (differ value i)) then mark_overdefined else unequal cc ty

  unfoldable pub visit_float : floats.Carrier → Fact ints floats is_weak → Cond → Ty → Marked
  unfolding compare_float
  visit_float f overdefined cc ty = mark_overdefined
  visit_float f undefined cc ty = mark_undefined
  visit_float f (float g) cc ty = make_boolean (compare_float (orders.compare f g) cc) ty
  visit_float f _ cc ty = none

  unfoldable pub visit_int : ints.Carrier → Fact ints floats is_weak → Cond → Ty → Marked
  unfolding order_null order_mask boolean_of int_order
  visit_int i undefined cc ty = mark_undefined
  visit_int i (frame _ _) cc ty = order_null true i cc ty
  visit_int i (global sym _) cc ty =
      if is_null_value i
      then (if is_weak sym then mark_overdefined else int_order true cc ty)
      else mark_overdefined
  visit_int i (int j) cc ty = boolean_of (compare_int i j cc) ty
  visit_int i (mask known value) cc ty = order_mask known value i cc ty
  visit_int i pointer cc ty = order_null true i cc ty
  visit_int i (range _) cc ty = none
  visit_int i _ cc ty = mark_overdefined

  unfoldable pub visit_mask :
      ints.Carrier → ints.Carrier → Fact ints floats is_weak → Cond → Ty → Marked
  unfolding order_mask
  visit_mask known value undefined cc ty = mark_undefined
  visit_mask known value (int i) cc ty = order_mask known value i cc ty
  visit_mask known value (range _) cc ty = none
  visit_mask known value _ cc ty = mark_overdefined

  unfoldable pub visit_frame : ℕ → ℕ → Fact ints floats is_weak → Cond → Ty → Marked
  unfolding order_null compare_frame unequal
  visit_frame obj off undefined cc ty = mark_undefined
  visit_frame obj off (global _ _) cc ty = unequal cc ty
  visit_frame obj off (int i) cc ty = order_null false i cc ty
  visit_frame obj off (frame obj' off') cc ty = compare_frame obj off obj' off' cc ty
  visit_frame obj off (range _) cc ty = none
  visit_frame obj off _ cc ty = mark_overdefined

  unfoldable pub visit_global : ℕ → ℕ → Fact ints floats is_weak → Cond → Ty → Marked
  unfolding compare_global int_order
  visit_global sym off undefined cc ty = mark_undefined
  visit_global sym off (global sym' off') cc ty = compare_global sym off sym' off' cc ty
  visit_global sym off (int i) cc ty =
      if is_null_value i || orders.is_one_value i
      then (if is_weak sym then mark_overdefined else int_order false cc ty)
      else mark_overdefined
  visit_global sym off (mask _ _) cc ty = none
  visit_global sym off (range sym') cc ty =
      some (other (if sym == sym' then range sym' else pointer))
  visit_global sym off _ cc ty = mark_overdefined

  -- The rows of `POINTER` and of `RANGE`.
  unfoldable pub visit_pointer : Fact ints floats is_weak → Cond → Ty → Marked
  unfolding order_null
  visit_pointer undefined cc ty = mark_undefined
  visit_pointer (int i) cc ty = order_null false i cc ty
  visit_pointer (mask _ _) cc ty = none
  visit_pointer _ cc ty = mark_overdefined

  -- `VisitCmpInst`, by the kind of the left operand.
  unfoldable pub visit_known :
      Fact ints floats is_weak → Fact ints floats is_weak → Cond → Ty → Marked
  unfolding visit_float visit_int visit_mask visit_frame visit_global visit_pointer
  visit_known unknown rhs cc ty = none
  visit_known overdefined rhs cc ty = mark_overdefined
  visit_known float_zero rhs cc ty = mark_overdefined
  visit_known undefined rhs cc ty = mark_undefined
  visit_known (float f) rhs cc ty = visit_float f rhs cc ty
  visit_known (int i) rhs cc ty = visit_int i rhs cc ty
  visit_known (mask known value) rhs cc ty = visit_mask known value rhs cc ty
  visit_known (frame obj off) rhs cc ty = visit_frame obj off rhs cc ty
  visit_known (global sym off) rhs cc ty = visit_global sym off rhs cc ty
  visit_known pointer rhs cc ty = visit_pointer rhs cc ty
  visit_known (range _) rhs cc ty = visit_pointer rhs cc ty

  -- `VisitCmpInst`
  unfoldable pub visit_cmp_inst :
      Fact ints floats is_weak → Fact ints floats is_weak → Cond → Ty → Marked
  unfolding visit_known
  visit_cmp_inst unknown rhs cc ty = some unmarked
  visit_cmp_inst lhs unknown cc ty = some unmarked
  visit_cmp_inst lhs rhs cc ty = visit_known lhs rhs cc ty
