-- ===== src/Syntax/Printed.antt =====
-- core/type.cpp: a printer of numbers as LLVM has one, for the examples.
use llir_opt.Prelude.{
  ℕ, zero, suc, ◌<◌, ◌≤◌, ◌+◌, ◌-◌, ◌*◌, ◌/◌, ◌%◌, ◌≡◌, refl, ◌∙◌, inl, inr, true, List, [], ◌∷◌,
  ◌++◌, arith, ltb, if◌then◌else◌, Bool-cases,
}
use llir_opt.Syntax.Chars.{is_digit}
use llir_opt.Syntax.Words.{all_of}
use llir_opt.Syntax.Lexer.{char}
use llir_opt.Syntax.Digits.{value_of, Decimal}

unfoldable pub digits_of : ℕ → ℕ → List ℕ
digits_of zero n = []
digits_of (suc fuel) n =
    let more = digits_of fuel (n / 10) in
    if ltb n 10 then (b'0' + n) ∷ [] else more ++ (b'0' + n % 10) ∷ []

abbrev pub decimal_of : ℕ → List ℕ
decimal_of n = digits_of (suc n) n

all_of-append :
    (cs : List ℕ) (c : ℕ)
    → all_of is_digit cs ≡ true
    → is_digit c ≡ true
    → all_of is_digit (cs ++ c ∷ []) ≡ true
unfolding all_of
all_of-append [] c h e = ground (arith, e)
all_of-append (d ∷ cs) c h e = ground (arith, h, all_of-append cs c, e)

value_of-append :
    (n : ℕ) (cs : List ℕ) (c : ℕ) → value_of n (cs ++ c ∷ []) ≡ value_of n cs * 10 + (c - b'0')
unfolding value_of
value_of-append n [] c = refl
value_of-append n (d ∷ cs) c = value_of-append (n * 10 + (d - b'0')) cs c

char-append : (cs ds : List ℕ) → 0 < char cs → char (cs ++ ds) ≡ char cs
unfolding char
char-append [] ds h = absurd (omega arith)
char-append (c ∷ cs) ds h = refl

last-is_digit : (n : ℕ) → is_digit (b'0' + n % 10) ≡ true
unfolding is_digit
last-is_digit n = ground arith

only-is_digit : (n : ℕ) → n < 10 → is_digit (b'0' + n) ≡ true
unfolding is_digit
only-is_digit n h = ground arith

all_of-digits_of : (fuel n : ℕ) → all_of is_digit (digits_of fuel n) ≡ true
unfolding digits_of all_of
all_of-digits_of zero n = refl
all_of-digits_of (suc fuel) n = elim (Bool-cases (ltb n 10)) [
  | inl e ↦ rw e (ground (arith, only-is_digit n (ground (arith, e))))
  | inr e ↦ rw e (
      all_of-append (digits_of fuel (n / 10)) (b'0' + n % 10) (all_of-digits_of fuel (n / 10))
        (last-is_digit n))
]

value_of-digits_of : (fuel n : ℕ) → n < fuel → value_of 0 (digits_of fuel n) ≡ n
unfolding digits_of value_of
value_of-digits_of zero n h = absurd (omega arith)
value_of-digits_of (suc fuel) n h = elim (Bool-cases (ltb n 10)) [
  | inl e ↦ rw e (omega arith)
  | inr e ↦
      let big : 10 ≤ n = ground (arith, e) in
      let rest = value_of-digits_of fuel (n / 10) (omega (arith, big)) in
      rw e (value_of-append 0 (digits_of fuel (n / 10)) (b'0' + n % 10) ∙ omega (arith, rest))
]

char-digits_of : (fuel n : ℕ) → n < fuel → 0 < n → 48 < char (digits_of fuel n)
unfolding digits_of char
char-digits_of zero n h p = absurd (omega arith)
char-digits_of (suc fuel) n h p = elim (Bool-cases (ltb n 10)) [
  | inl e ↦ rw e (omega arith)
  | inr e ↦
      let big : 10 ≤ n = ground (arith, e) in
      let rest = char-digits_of fuel (n / 10) (omega (arith, big)) (omega (arith, big)) in
      let same =
        char-append (digits_of fuel (n / 10)) ((b'0' + n % 10) ∷ []) (omega (arith, rest)) in
      rw e (omega (arith, rest, same))
]

pub decimal_of-Decimal : Decimal decimal_of
unfolding digits_of char
decimal_of-Decimal = record {
  digits = λ n. all_of-digits_of (suc n) n;
  value = λ n. value_of-digits_of (suc n) n (omega arith);
  zero_digit = refl;
  first = λ n h. let low = char-digits_of (suc n) n (omega arith) h in ground (arith, low);
}
