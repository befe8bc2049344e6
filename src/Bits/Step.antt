-- ===== src/Bits/Step.antt =====
-- The machine's `&`, `|` and `^` on the lowest binary digit of their operands. The native
-- operations are specified by a recursion on digits with fuel; here the fuel is gone.
use Prim.Native.Nat.{
  min, max, differ, digits, bitwise, bit_and-bitwise, bit_or-bitwise, bit_xor-bitwise,
}
use llir_opt.Prelude.{
  ℕ, zero, suc, ◌+◌, ◌*◌, ◌/◌, ◌%◌, ◌≤◌, bit_and, bit_or, bit_xor, ◌≡◌, refl, sym, arith,
}

module _ (last : ℕ → ℕ) (op : ℕ → ℕ → ℕ) where
  exhausted : (fuel y : ℕ) → digits last op fuel 0 y ≡ last y
  exhausted zero y = refl
  exhausted (suc fuel) y = refl

  -- Any two amounts of fuel that reach the first operand agree.
  enough_fuel :
      (fuel fuel' x y : ℕ)
      → x ≤ fuel
      → x ≤ fuel'
      → digits last op fuel x y ≡ digits last op fuel' x y
  enough_fuel fuel fuel' zero y p q = rw (exhausted fuel y) (sym (exhausted fuel' y))
  enough_fuel zero _ (suc x) y p q = absurd (omega arith)
  enough_fuel (suc fuel) zero (suc x) y p q = absurd (omega arith)
  enough_fuel (suc fuel) (suc fuel') (suc x) y p q =
      rw (enough_fuel fuel fuel' (suc x / 2) (y / 2) (omega arith) (omega arith))

  lowest_digit :
      (x y : ℕ)
      → bitwise last op (suc x) y ≡ bitwise last op (suc x / 2) (y / 2) * 2 + op (suc x % 2) (y % 2)
  lowest_digit x y = rw (enough_fuel x (suc x / 2) (suc x / 2) (y / 2) (omega arith) (omega arith))

pub bit_and_step : (x y : ℕ) → bit_and x y ≡ bit_and (x / 2) (y / 2) * 2 + min (x % 2) (y % 2)
bit_and_step zero y = omega (arith, bit_and-bitwise 0 y, bit_and-bitwise 0 (y / 2))
bit_and_step (suc x) y = simp bit_and-bitwise (lowest_digit (λ _. 0) min x y)

pub bit_or_step : (x y : ℕ) → bit_or x y ≡ bit_or (x / 2) (y / 2) * 2 + max (x % 2) (y % 2)
bit_or_step zero y = omega (arith, bit_or-bitwise 0 y, bit_or-bitwise 0 (y / 2))
bit_or_step (suc x) y = simp bit_or-bitwise (lowest_digit (λ b. b) max x y)

differ-zero : (y : ℕ) → differ 0 y ≡ y
differ-zero y = refl

pub bit_xor_step : (x y : ℕ) → bit_xor x y ≡ bit_xor (x / 2) (y / 2) * 2 + differ (x % 2) (y % 2)
bit_xor_step zero y = omega (arith, bit_xor-bitwise 0 y, bit_xor-bitwise 0 (y / 2))
bit_xor_step (suc x) y = simp bit_xor-bitwise (lowest_digit (λ b. b) differ x y)

-- What `differ` is on digits.
pub differ_digits : (a b : ℕ) → a ≤ 1 → b ≤ 1 → differ a b ≡ (a + b) % 2
differ_digits zero b p q = omega arith
differ_digits (suc zero) zero p q = refl
differ_digits (suc zero) (suc zero) p q = refl
differ_digits (suc (suc a)) b p q = absurd (omega arith)
differ_digits (suc zero) (suc (suc b)) p q = absurd (omega arith)
