-- ===== src/Bits/Sums.antt =====
-- The low bits of a sum depend on the low bits of its terms alone, and a word keeps the bits below
-- its width.
use native.Mathlib.Nat.{
  add-mul-mod_self_left, mod-add-div, mod-eq_of_lt, mod-lt, pow-suc, one-le-pow,
}
use llir_opt.Prelude.{
  ℕ, zero, suc, ◌+◌, ◌*◌, ◌/◌, ◌%◌, ◌^◌, ◌≤◌, ◌<◌, ◌≡◌, sym, ap, ◌∙◌, arith, ◌==◌,
}
use llir_opt.Bits.{test_bit}

half_mod : (s m : ℕ) → 0 < m → s % (2 * m) / 2 ≡ s / 2 % m
half_mod s m h =
    let q = s / (2 * m) in
    let r = s % (2 * m) in
    let small : r / 2 < m = omega (arith, mod-lt s {m = 2 * m} (omega arith)) in
    let split : s / 2 ≡ r / 2 + m * q = omega (arith, mod-add-div s (2 * m)) in
    sym (ap (λ t. t % m) split ∙ add-mul-mod_self_left (r / 2) m q ∙ mod-eq_of_lt small)

parity_mod : (s m : ℕ) → s % (2 * m) % 2 ≡ s % 2
parity_mod s m = omega (arith, mod-add-div s (2 * m))

pow_suc : (w : ℕ) → 2 ^ suc w ≡ 2 * 2 ^ w
pow_suc w = omega (arith, pow-suc 2 w)

pub test_bit-mod : (w i s : ℕ) → i < w → test_bit (s % 2 ^ w) i ≡ test_bit s i
test_bit-mod zero i s h = elim h [ ]
test_bit-mod (suc w) zero s h =
    let same : s % 2 ^ suc w % 2 ≡ s % 2 = ap (λ t. s % t % 2) (pow_suc w) ∙ parity_mod s (2 ^ w) in
    ap (λ t. t == 1) same
test_bit-mod (suc w) (suc i) s h =
    let half : s % 2 ^ suc w / 2 ≡ s / 2 % 2 ^ w =
      ap (λ t. s % t / 2) (pow_suc w) ∙ half_mod s (2 ^ w) (one-le-pow w 2 (omega arith)) in
    ap (λ t. test_bit t i) half ∙ test_bit-mod w i (s / 2) (omega arith)

pub parity_eq : (x y : ℕ) → test_bit x 0 ≡ test_bit y 0 → x % 2 ≡ y % 2
parity_eq x y h = ground arith

-- With a carry in, which need not be a bit.
sum_bit :
    (i x x' y y' c : ℕ)
    → ((j : ℕ) → j ≤ i → test_bit x j ≡ test_bit x' j)
    → ((j : ℕ) → j ≤ i → test_bit y j ≡ test_bit y' j)
    → test_bit (x + y + c) i ≡ test_bit (x' + y' + c) i
sum_bit zero x x' y y' c p q =
    let same_x = parity_eq x x' (p 0 (omega arith)) in
    let same_y = parity_eq y y' (q 0 (omega arith)) in
    let same : (x + y + c) % 2 ≡ (x' + y' + c) % 2 = omega arith in ap (λ t. t == 1) same
sum_bit (suc i) x x' y y' c p q =
    let same_x = parity_eq x x' (p 0 (omega arith)) in
    let same_y = parity_eq y y' (q 0 (omega arith)) in
    let carry = (x % 2 + y % 2 + c) / 2 in
    let left : (x + y + c) / 2 ≡ x / 2 + y / 2 + carry = omega arith in
    let right : (x' + y' + c) / 2 ≡ x' / 2 + y' / 2 + carry = omega arith in
    ap (λ t. test_bit t i) left
    ∙ sum_bit i (x / 2) (x' / 2) (y / 2) (y' / 2) carry (λ j h. p (suc j) (omega arith))
        (λ j h. q (suc j) (omega arith))
    ∙ ap (λ t. test_bit t i) (sym right)

pub test_bit-add :
    (i x x' y y' : ℕ)
    → ((j : ℕ) → j ≤ i → test_bit x j ≡ test_bit x' j)
    → ((j : ℕ) → j ≤ i → test_bit y j ≡ test_bit y' j)
    → test_bit (x + y) i ≡ test_bit (x' + y') i
test_bit-add i x x' y y' p q =
    ap (λ t. test_bit t i) (omega arith)
    ∙ sum_bit i x x' y y' 0 p q
    ∙ ap (λ t. test_bit t i) (omega arith)
