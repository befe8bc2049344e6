-- ===== src/Syntax/Numbers.antt =====
-- core/lexer.cpp: the bounds of the numbers in a text. A signed value that overflows is undefined, the number
-- of a virtual register wraps.
use llir_opt.Prelude.{
  ℕ, zero, suc, ◌<◌, ◌≤◌, ◌+◌, ◌-◌, ◌*◌, ◌^◌, ◌%◌, ◌≡◌, refl, ap, ◌∙◌, ◌⊎◌, inl, inr, true, false,
  List, [], ◌∷◌, ◌++◌, length, length-append, arith, ltb, ◌==◌, Bool-cases,
}
use llir_opt.Syntax.Chars.{is_digit, is_ident_cont}
use llir_opt.Syntax.Words.{next_token-dollar, all_of, drop_while-append}
use llir_opt.Syntax.Lexer.{
  Lexer, lexed, undefined, vreg, char, next_char, vreg_value, lex_dollar, lex_digits, lex_number,
  next_token,
}
use llir_opt.Syntax.Digits.{
  value_of, Decimal, Numbered, to_int-digit, is_digit_of-ten, is_digit-cont, next_token-digit,
  next_token-Decimal,
}

-- A value that does not fit is undefined, whichever digit makes it too large.
lex_digits-overflow :
    (fuel c : ℕ) (cs rest str : List ℕ) (int : ℕ) (l : Lexer)
    → all_of is_digit (c ∷ cs) ≡ true
    → 2 ^ 63 ≤ value_of int (c ∷ cs)
    → length cs < fuel
    → lex_digits fuel 10 str int (c ∷ cs ++ rest) l ≡ undefined
unfolding all_of value_of lex_digits char next_char
lex_digits-overflow zero c cs rest str int l d v f = absurd (omega arith)
lex_digits-overflow (suc fuel) c [] rest str int l d v f =
    let first : is_digit c ≡ true = ground (arith, d) in
    let wide : ltb (int * 10 + (c - b'0')) (2 ^ 63) ≡ false = ground (arith, v) in
    rw (lex_digits, to_int-digit c first, wide) refl
lex_digits-overflow (suc fuel) c (d' ∷ cs) rest str int l d v f =
    let first : is_digit c ≡ true = ground (arith, d) in
    let others : all_of is_digit (d' ∷ cs) ≡ true = ground (arith, d) in
    let second : is_digit d' ≡ true = ground (arith, d) in
    elim (Bool-cases (ltb (int * 10 + (c - b'0')) (2 ^ 63))) [
      | inr e ↦ rw (lex_digits, to_int-digit c first, e) refl
      | inl e ↦
          rw (lex_digits, to_int-digit c first, e, is_digit_of-ten d', second)
            (lex_digits-overflow fuel d' cs rest (str ++ c ∷ []) (int * 10 + (c - b'0')) l others v
              (omega arith))
    ]

next_token-overflow :
    (ds rest : List ℕ) (l : Lexer)
    → all_of is_digit ds ≡ true
    → 2 ^ 63 ≤ value_of 0 ds
    → (char ds == b'0') ≡ false
    → next_token (record l { input = ds ++ rest }) ≡ undefined
unfolding lex_number value_of all_of char
next_token-overflow [] rest l d v z = absurd (omega arith)
next_token-overflow (c ∷ cs) rest l d v z =
    let first : is_digit c ≡ true = ground (arith, d) in
    next_token-digit c (cs ++ rest) l first
    ∙ rw (lex_number, z)
        (lex_digits-overflow (suc (suc (length (cs ++ rest)))) c cs rest [] 0
          (record l { input = c ∷ cs ++ rest; str = []; int = 0 }) d v
          (omega (arith, length-append cs rest)))

-- The digits of a register's number are reduced one by one.
vreg_value-digits :
    (n m : ℕ) (ds rest : List ℕ)
    → all_of is_digit ds ≡ true
    → is_digit (char rest) ≡ false
    → n ≡ m % 2 ^ 64
    → vreg_value n (ds ++ rest) ≡ value_of m ds % 2 ^ 64
unfolding vreg_value value_of all_of char
vreg_value-digits n m [] [] d e h = h
vreg_value-digits n m [] (r ∷ rest) d e h = rw e h
vreg_value-digits n m (c ∷ ds) rest d e h =
    let first : is_digit c ≡ true = ground (arith, d) in
    let others : all_of is_digit ds ≡ true = ground (arith, d) in
    rw first (
      vreg_value-digits ((n * 10 + (c - b'0')) % 2 ^ 64) (m * 10 + (c - b'0')) ds rest others e
        (omega (arith, h)))

next_token-vreg :
    (ds rest : List ℕ) (l : Lexer)
    → all_of is_digit ds ≡ true
    → 0 < length ds
    → is_digit (char rest) ≡ false
    → next_token (record l { input = b'$' ∷ (ds ++ rest) })
      ≡ lexed (record l {
        input = rest;
        token = vreg;
        str = [];
        int = 0;
        vreg = value_of 0 ds % 2 ^ 64;
      })
unfolding lex_dollar all_of char
next_token-vreg [] rest l d p e = absurd (omega arith)
next_token-vreg (c ∷ cs) rest l d p e =
    let first : is_digit c ≡ true = ground (arith, d) in
    next_token-dollar (c ∷ cs ++ rest) l
    ∙ rw
        (
          lex_dollar,
          first,
          vreg_value-digits 0 0 (c ∷ cs) rest d e refl,
          drop_while-append is_digit (c ∷ cs) rest d e,
        )
        refl

value_of-length : (ds : List ℕ) → 0 < value_of 0 ds → 0 < length ds
unfolding value_of
value_of-length [] h = h
value_of-length (c ∷ cs) h = omega arith

Decimal-length : (decimal : ℕ → List ℕ) (n : ℕ) → Decimal decimal → 0 < length (decimal n)
Decimal-length decimal n d = elim (Bool-cases (n == 0)) [
  | inl z ↦
      let same : n ≡ 0 = ground (arith, z) in
      omega (arith, ap (λ (m : ℕ). length (decimal m)) same, ap length d.zero_digit)
  | inr z ↦
      let some_ : 0 < n = ground (arith, z) in
      value_of-length (decimal n) (omega (arith, d.value n, some_))
]

-- Before a character that ends it, a number in decimal digits is read as the number below 2^63, and is
-- undefined from there on; behind `$` it is read as the number of a virtual register, modulo 2^64.
pub next_token-bounds :
    (decimal : ℕ → List ℕ) (n : ℕ) (rest : List ℕ) (l : Lexer)
    → Decimal decimal
    → is_ident_cont (char rest) ≡ false
    → (((n < 2 ^ 63) × Numbered n rest l (next_token (record l { input = decimal n ++ rest })))
        ⊎ ((2 ^ 63 ≤ n) × (next_token (record l { input = decimal n ++ rest }) ≡ undefined)))
      × (next_token (record l { input = b'$' ∷ (decimal n ++ rest) })
          ≡ lexed (record l { input = rest; token = vreg; str = []; int = 0; vreg = n % 2 ^ 64 }))
next_token-bounds decimal n rest l d e = (
  elim (Bool-cases (ltb n (2 ^ 63))) [
    | inl h ↦
        let small : n < 2 ^ 63 = ground (arith, h) in
        inl (small, next_token-Decimal decimal n rest l d small e)
    | inr h ↦
        let large : 2 ^ 63 ≤ n = ground (arith, h) in
        inr (
          large,
          next_token-overflow (decimal n) rest l (d.digits n) (omega (arith, d.value n, large))
              (d.first n (omega (arith, large))),
        )
  ],
  next_token-vreg (decimal n) rest l (d.digits n) (Decimal-length decimal n d)
        (is_digit-cont (char rest) e)
      ∙ ap
          (λ (m : ℕ).
            lexed (record l { input = rest; token = vreg; str = []; int = 0; vreg = m % 2 ^ 64 }))
          (d.value n),
)
