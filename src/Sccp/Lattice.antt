-- ===== src/Sccp/Lattice.antt =====
-- passes/sccp/lattice.h and lattice.cpp: `Lattice`, what the pass knows of the value of an
-- instruction. The copy constructor, the destructor and `operator=` of the C++ class handle the
-- union of payloads and are the data type itself here. `llvm::APInt` and `llvm::APFloat` are not
-- part of the program: they are parameters with their documented behaviour. The integers that meet
-- have one width, as `APInt` asks of the operands of its operators. A `Global *` is a number, and
-- `Global::IsWeak` a test on it. An offset, an `int64_t`, is its bit pattern.
pub mod Values
pub mod Bounds
pub mod Tests
use llir_opt.Prelude.{
  ℕ, ◌<◌, ◌≡◌, ◌↔◌, Bool, true, false, not, xor, ◌&&◌, ◌||◌, Option, none, some, ◌==◌,
  if◌then◌else◌,
}

-- `llvm::APInt` at one width.
pub record ApInt : Type 1 where
  pub Carrier : Type 0
  pub width : ℕ
  pub bit : Carrier → ℕ → Bool
  pub conj : Carrier → Carrier → Carrier
  pub differ : Carrier → Carrier → Carrier
  pub flip : Carrier → Carrier
  pub is_null_value : Carrier → Bool
  pub same_int : Carrier → Carrier → Bool
  pub bit-conj : (i : ℕ) (a b : Carrier) → i < width → bit (conj a b) i ≡ (bit a i && bit b i)
  pub bit-differ :
      (i : ℕ) (a b : Carrier) → i < width → bit (differ a b) i ≡ xor (bit a i) (bit b i)
  pub bit-flip : (i : ℕ) (a : Carrier) → i < width → bit (flip a) i ≡ not (bit a i)
  pub is_null_value_iff :
      (a : Carrier) → (is_null_value a ≡ true) ↔ ((i : ℕ) → i < width → bit a i ≡ false)
  pub same_int_iff : (a b : Carrier) → (same_int a b ≡ true) ↔ (a ≡ b)

-- `llvm::APFloat`, of which the lattice asks for zeros and for the same bits.
pub record ApFloat : Type 1 where
  pub Carrier : Type 0
  pub is_zero : Carrier → Bool
  pub bitwise_is_equal : Carrier → Carrier → Bool
  pub bitwise_is_equal_iff : (a b : Carrier) → (bitwise_is_equal a b ≡ true) ↔ (a ≡ b)

pub data Lattice (I F : Type 0) : Type 0 where
  unknown : Lattice I F
  overdefined : Lattice I F
  int : I → Lattice I F
  mask : I → I → Lattice I F
  float : F → Lattice I F
  float_zero : Lattice I F
  frame : ℕ → ℕ → Lattice I F
  global : ℕ → ℕ → Lattice I F
  pointer : Lattice I F
  range : ℕ → Lattice I F
  undefined : Lattice I F

module _ {I F : Type 0} where
  unfoldable pub is_pointer_like : Lattice I F → Bool
  is_pointer_like pointer = true
  is_pointer_like (frame _ _) = true
  is_pointer_like (global _ _) = true
  is_pointer_like _ = false

module _ (ints : ApInt) (floats : ApFloat) (is_weak : ℕ → Bool) where
  open ints use {conj, differ, flip, is_null_value, same_int}
  open floats use {is_zero, bitwise_is_equal}

  abbrev pub Fact : Type 0
  Fact = Lattice ints.Carrier floats.Carrier

  -- `IsTrue`. The `llvm_unreachable` of `UNKNOWN` is `none`.
  unfoldable pub is_true : Fact → Option Bool
  is_true (int i) = some (not (is_null_value i))
  is_true (float f) = some (not (is_zero f))
  is_true (mask known value) = some (not (is_null_value (conj known value)))
  is_true (frame _ _) = some true
  is_true (global _ _) = some true
  is_true pointer = some true
  is_true (range _) = some true
  is_true undefined = some false
  is_true overdefined = some false
  is_true float_zero = some false
  is_true unknown = none

  unfoldable pub is_false : Fact → Option Bool
  is_false (int i) = some (is_null_value i)
  is_false (float f) = some (is_zero f)
  is_false float_zero = some true
  is_false (frame _ _) = some false
  is_false (global _ _) = some false
  is_false pointer = some false
  is_false (mask _ _) = some false
  is_false (range _) = some false
  is_false undefined = some false
  is_false overdefined = some false
  is_false unknown = none

  -- `operator==`
  unfoldable pub same_fact : Fact → Fact → Bool
  same_fact unknown unknown = true
  same_fact undefined undefined = true
  same_fact overdefined overdefined = true
  same_fact pointer pointer = true
  same_fact float_zero float_zero = true
  same_fact (mask known value) (mask known' value') = same_int known known' && same_int value value'
  same_fact (int i) (int j) = same_int i j
  same_fact (float f) (float g) = bitwise_is_equal f g
  same_fact (frame obj off) (frame obj' off') = obj == obj' && off == off'
  same_fact (global sym off) (global sym' off') = sym == sym' && off == off'
  same_fact (range sym) (range sym') = sym == sym'
  same_fact _ _ = false

  -- `if (!mask.isNullValue()) return CreateMask(mask, value); else return Overdefined();`
  unfoldable pub known_bits : ints.Carrier → ints.Carrier → Fact
  known_bits known value = if not (is_null_value known) then mask known value else overdefined

  -- `if (sym->IsWeak() && !off) return Overdefined(); else return Pointer();`
  unfoldable pub join_symbol : ℕ → ℕ → Fact
  join_symbol sym off = if is_weak sym && off == 0 then overdefined else pointer

  -- The end of `LUB`, from the first test of `IsGlobal` on.
  unfoldable pub join_pointers : Fact → Fact → Fact
  unfolding join_symbol is_pointer_like
  join_pointers (global sym off) that =
      if is_pointer_like that then join_symbol sym off else overdefined
  join_pointers this (global sym off) =
      if is_pointer_like this then join_symbol sym off else overdefined
  join_pointers this that =
      if is_pointer_like this && is_pointer_like that then pointer else overdefined

  -- `LUB` of two facts that are not the same.
  unfoldable pub lub_distinct : Fact → Fact → Fact
  unfolding known_bits join_pointers
  lub_distinct this unknown = this
  lub_distinct unknown that = that
  lub_distinct this undefined = this
  lub_distinct undefined that = that
  lub_distinct (int lhs) (int rhs) = known_bits (flip (differ lhs rhs)) (conj lhs rhs)
  lub_distinct (mask known value) (mask known' value') =
      let both = conj (conj known known') (flip (differ value' value)) in
      known_bits both (conj both value)
  lub_distinct (int lhs) (mask known value) =
      let agree = conj (flip (differ value lhs)) known in known_bits agree (conj agree value)
  lub_distinct (mask known value) (int rhs) =
      let agree = conj (flip (differ value rhs)) known in known_bits agree (conj agree value)
  lub_distinct (frame _ _) (frame _ _) = pointer
  lub_distinct this that = join_pointers this that

  unfoldable pub lub : Fact → Fact → Fact
  unfolding same_fact lub_distinct
  lub this that = if same_fact this that then this else lub_distinct this that
