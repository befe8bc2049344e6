-- ===== src/Sccp/Lattice/Values.antt =====
-- What the facts of the lattice mean: the values that each of them allows.
use llir_opt.Prelude.{ℕ, ◌<◌, ◌≡◌, Bool, true, false, not, ◌&&◌, ◌==◌}
use llir_opt.Sccp.Lattice.{
  ApInt, ApFloat, overdefined, int, mask, float, float_zero, frame, global, pointer, range, Fact,
}

-- A value at run time. An address is given by where it comes from: the frame, a symbol, or elsewhere.
pub data Value (I F : Type 0) : Type 0 where
  int_value : I → Value I F
  float_value : F → Value I F
  frame_address : ℕ → ℕ → Value I F
  symbol_address : ℕ → ℕ → Value I F
  other_address : Value I F

module _ (ints : ApInt) (floats : ApFloat) (is_weak : ℕ → Bool) where
  -- A weak symbol may be undefined, and then its address is null.
  abbrev pub maybe_null : ℕ → ℕ → Bool
  maybe_null sym off = is_weak sym && off == 0

  -- Agreement with the known bits of a mask.
  unfoldable pub Agrees : ints.Carrier → ints.Carrier → ints.Carrier → Type 0
  Agrees known value x =
      (i : ℕ) → i < ints.width → ints.bit known i ≡ true → ints.bit x i ≡ ints.bit value i

  -- The values that a fact allows. `UNKNOWN` and `UNDEFINED` allow none: no value was seen yet, or
  -- any may be chosen. `POINTER` is a pointer that is not null.
  unfoldable pub Holds : Fact ints floats is_weak → Value ints.Carrier floats.Carrier → Type 0
  unfolding Agrees
  Holds overdefined v = Unit
  Holds (int i) (int_value x) = x ≡ i
  Holds (mask known value) (int_value x) = Agrees known value x
  Holds (float f) (float_value x) = x ≡ f
  Holds float_zero (float_value x) = floats.is_zero x ≡ true
  Holds (frame obj off) (frame_address o d) = (o ≡ obj) × (d ≡ off)
  Holds (global sym off) (symbol_address s d) = (s ≡ sym) × (d ≡ off)
  Holds pointer (frame_address o d) = Unit
  Holds pointer (symbol_address s d) = maybe_null s d ≡ false
  Holds pointer other_address = Unit
  Holds (range sym) (symbol_address s d) = s ≡ sym
  Holds _ _ = ⊥

  -- Whether a value counts as true where it is tested. An address that may be null does not for sure.
  unfoldable pub truth : Value ints.Carrier floats.Carrier → Bool
  truth (int_value x) = not (ints.is_null_value x)
  truth (float_value x) = not (floats.is_zero x)
  truth (frame_address _ _) = true
  truth (symbol_address s d) = not (maybe_null s d)
  truth other_address = true
