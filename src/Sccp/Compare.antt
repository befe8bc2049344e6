-- ===== src/Sccp/Compare.antt =====
-- passes/sccp/compare.cpp: what the solver marks a comparison with, given what it knows of the two
-- operands; `GetSize` of core/type.cpp, which gives the width of the result. The order of `APInt`
-- and `APFloat::compare` are parameters, and so is the kind of a global. `llvm_unreachable` is `none`.
pub mod Visit
pub mod Inverse
pub mod Sound
pub mod Tests
use llir_opt.Prelude.{
  ℕ, ◌+◌, ◌*◌, ◌%◌, ◌^◌, ◌≡◌, Bool, true, false, not, ◌&&◌, ◌||◌, Option, none, some, ltb, ◌==◌,
  if◌then◌else◌,
}
use llir_opt.Cond.{
  Cond, eq, oeq, ueq, ne, one, une, lt, olt, ult, gt, ogt, ugt, le, ole, ule, ge, oge, uge, o, uo,
  CmpResult, compare_float, is_equality,
}
use llir_opt.Sccp.Lattice.{
  ApInt, ApFloat, Lattice, unknown, overdefined, int, mask, float, float_zero, frame, global,
  pointer, range, undefined, Fact,
}

pub data Ty : Type 0 where
  i8 i16 i32 i64 i128 v64 f32 f64 f80 f128 : Ty

-- `GetSize`, in bytes.
unfoldable pub get_size : Ty → ℕ
get_size i8 = 1
get_size i16 = 2
get_size i32 = 4
get_size i64 = 8
get_size v64 = 8
get_size f32 = 4
get_size f64 = 8
get_size f80 = 10
get_size i128 = 16
get_size f128 = 16

-- What a comparison is marked with: an integer of some width that is 0 or 1, or another fact. An
-- instruction that is not marked is `unmarked`.
pub data Answer (L : Type 0) : Type 0 where
  boolean : ℕ → Bool → Answer L
  other : L → Answer L
  unmarked : Answer L

pub data GlobalKind : Type 0 where
  extern func block atom : GlobalKind

-- The comparisons of `APInt`, each by the test for less, and `APFloat::compare`.
pub record ApOrder (ints : ApInt) (floats : ApFloat) : Type 1 where
  pub slt : ints.Carrier → ints.Carrier → Bool
  pub sgt : ints.Carrier → ints.Carrier → Bool
  pub sle : ints.Carrier → ints.Carrier → Bool
  pub sge : ints.Carrier → ints.Carrier → Bool
  pub unsigned_lt : ints.Carrier → ints.Carrier → Bool
  pub unsigned_gt : ints.Carrier → ints.Carrier → Bool
  pub unsigned_le : ints.Carrier → ints.Carrier → Bool
  pub unsigned_ge : ints.Carrier → ints.Carrier → Bool
  pub is_one_value : ints.Carrier → Bool
  pub compare : floats.Carrier → floats.Carrier → CmpResult
  pub sgt_flips : (a b : ints.Carrier) → sgt a b ≡ slt b a
  pub sle_negates : (a b : ints.Carrier) → sle a b ≡ not (slt b a)
  pub sge_negates : (a b : ints.Carrier) → sge a b ≡ not (slt a b)
  pub unsigned_gt_flips : (a b : ints.Carrier) → unsigned_gt a b ≡ unsigned_lt b a
  pub unsigned_le_negates : (a b : ints.Carrier) → unsigned_le a b ≡ not (unsigned_lt b a)
  pub unsigned_ge_negates : (a b : ints.Carrier) → unsigned_ge a b ≡ not (unsigned_lt a b)

-- `loff < roff` on `int64_t`, by bit patterns.
abbrev pub lt_int64 : ℕ → ℕ → Bool
lt_int64 a b = ltb ((a + 2 ^ 63) % 2 ^ 64) ((b + 2 ^ 63) % 2 ^ 64)

module _ {L : Type 0} where
  unfoldable pub make_boolean : Bool → Ty → Option (Answer L)
  unfolding get_size
  make_boolean value i8 = some (boolean (get_size i8 * 8) value)
  make_boolean value i16 = some (boolean (get_size i16 * 8) value)
  make_boolean value i32 = some (boolean (get_size i32 * 8) value)
  make_boolean value i64 = some (boolean (get_size i64 * 8) value)
  make_boolean value i128 = some (boolean (get_size i128 * 8) value)
  make_boolean value _ = none

  -- The codes of `Compare` on two addresses: `flag` by whether they are equal, `order` by offsets.
  unfoldable pub compare_offsets :
      (Bool → Option (Answer L))
      → (Bool → Option (Answer L))
      → Bool
      → ℕ
      → ℕ
      → Cond
      → Option (Answer L)
  compare_offsets flag order equal loff roff eq = flag equal
  compare_offsets flag order equal loff roff oeq = flag equal
  compare_offsets flag order equal loff roff ueq = flag equal
  compare_offsets flag order equal loff roff ne = flag (not equal)
  compare_offsets flag order equal loff roff one = flag (not equal)
  compare_offsets flag order equal loff roff une = flag (not equal)
  compare_offsets flag order equal loff roff lt = order (lt_int64 loff roff)
  compare_offsets flag order equal loff roff olt = order (lt_int64 loff roff)
  compare_offsets flag order equal loff roff ult = order (lt_int64 loff roff)
  compare_offsets flag order equal loff roff gt = order (lt_int64 roff loff)
  compare_offsets flag order equal loff roff ogt = order (lt_int64 roff loff)
  compare_offsets flag order equal loff roff ugt = order (lt_int64 roff loff)
  compare_offsets flag order equal loff roff le = order (not (lt_int64 roff loff))
  compare_offsets flag order equal loff roff ole = order (not (lt_int64 roff loff))
  compare_offsets flag order equal loff roff ule = order (not (lt_int64 roff loff))
  compare_offsets flag order equal loff roff ge = order (not (lt_int64 loff roff))
  compare_offsets flag order equal loff roff oge = order (not (lt_int64 loff roff))
  compare_offsets flag order equal loff roff uge = order (not (lt_int64 loff roff))
  compare_offsets flag order equal loff roff o = none
  compare_offsets flag order equal loff roff uo = none

  -- The switches that decide the codes for equality and leave the others to the default.
  unfoldable pub compare_equality :
      (Bool → Option (Answer L)) → Option (Answer L) → Bool → Cond → Option (Answer L)
  compare_equality flag default equal eq = flag equal
  compare_equality flag default equal oeq = flag equal
  compare_equality flag default equal ueq = flag equal
  compare_equality flag default equal ne = flag (not equal)
  compare_equality flag default equal one = flag (not equal)
  compare_equality flag default equal une = flag (not equal)
  compare_equality flag default equal _ = default

  -- `IntOrder`
  unfoldable pub int_order : Bool → Cond → Ty → Option (Answer L)
  int_order lower eq ty = make_boolean false ty
  int_order lower oeq ty = make_boolean false ty
  int_order lower ueq ty = make_boolean false ty
  int_order lower ne ty = make_boolean true ty
  int_order lower one ty = make_boolean true ty
  int_order lower une ty = make_boolean true ty
  int_order lower le ty = make_boolean lower ty
  int_order lower ole ty = make_boolean lower ty
  int_order lower ule ty = make_boolean lower ty
  int_order lower lt ty = make_boolean lower ty
  int_order lower olt ty = make_boolean lower ty
  int_order lower ult ty = make_boolean lower ty
  int_order lower ge ty = make_boolean (not lower) ty
  int_order lower oge ty = make_boolean (not lower) ty
  int_order lower uge ty = make_boolean (not lower) ty
  int_order lower gt ty = make_boolean (not lower) ty
  int_order lower ogt ty = make_boolean (not lower) ty
  int_order lower ugt ty = make_boolean (not lower) ty
  int_order lower o ty = none
  int_order lower uo ty = none
