-- ===== src/Syntax/Digits.antt =====
-- core/lexer.cpp: numbers in decimal digits.
use mathlib.Core.Path.{subst}
use llir_opt.Prelude.{
  ℕ, zero, suc, ◌<◌, ◌≤◌, ◌+◌, ◌-◌, ◌*◌, ◌^◌, ◌≡◌, refl, ◌∙◌, inl, inr, true, false, ◌||◌, List, [],
  ◌∷◌, ◌++◌, none, some, length, length-append, arith, ltb, ◌==◌, Bool-cases,
}
use llir_opt.Syntax.Chars.{
  is_space, is_alpha, is_digit, is_digit_of, to_int, is_alpha_num, is_ident_start, is_ident_cont,
}
use llir_opt.Syntax.Words.{all_of}
use llir_opt.Syntax.Lexer.{
  Lexer, Outcome, lexed, number, char, next_char, skip_blank, punctuation, lex_digits, lex_number,
  lex_token, next_token,
}

-- The number that digits add to the number before them.
unfoldable pub value_of : ℕ → List ℕ → ℕ
value_of n [] = n
value_of n (c ∷ cs) = value_of (n * 10 + (c - b'0')) cs

-- How LLVM prints a number: in decimal digits, without zeros before it.
pub record Decimal (decimal : ℕ → List ℕ) : Type 0 where
  pub digits : (n : ℕ) → all_of is_digit (decimal n) ≡ true
  pub value : (n : ℕ) → value_of 0 (decimal n) ≡ n
  pub zero_digit : decimal 0 ≡ b'0' ∷ []
  pub first : (n : ℕ) → 0 < n → (char (decimal n) == b'0') ≡ false

value_of-le : (n : ℕ) (cs : List ℕ) → n ≤ value_of n cs
unfolding value_of
value_of-le n [] = omega arith
value_of-le n (c ∷ cs) = omega (arith, value_of-le (n * 10 + (c - b'0')) cs)

pub data Numbered (n : ℕ) (rest : List ℕ) (l : Lexer) (outcome : Outcome) : Type 0 where
  numbered :
      (str : List ℕ)
      → outcome ≡ lexed (record l { input = rest; token = number; str = str; int = n })
      → Numbered n rest l outcome

pub to_int-digit : (c : ℕ) → is_digit c ≡ true → to_int c ≡ some (c - b'0')
unfolding is_digit to_int
to_int-digit c h = ground (arith, h)

pub is_digit_of-ten : (c : ℕ) → is_digit_of 10 c ≡ is_digit c
unfolding is_digit_of
is_digit_of-ten c = refl

pub is_digit-cont : (c : ℕ) → is_ident_cont c ≡ false → is_digit c ≡ false
unfolding is_ident_cont is_alpha_num
is_digit-cont c h = ground (arith, h)

lex_digits-Numbered :
    (fuel c : ℕ) (cs rest str : List ℕ) (int : ℕ) (l : Lexer)
    → all_of is_digit (c ∷ cs) ≡ true
    → is_ident_cont (char rest) ≡ false
    → value_of int (c ∷ cs) < 2 ^ 63
    → length cs < fuel
    → Numbered (value_of int (c ∷ cs)) rest l (lex_digits fuel 10 str int (c ∷ cs ++ rest) l)
unfolding all_of value_of lex_digits char next_char
lex_digits-Numbered zero c cs rest str int l d e v f = absurd (omega arith)
lex_digits-Numbered (suc fuel) c [] rest str int l d e v f =
    let first : is_digit c ≡ true = ground (arith, d) in
    let digit = to_int-digit c first in
    let fits : ltb (int * 10 + (c - b'0')) (2 ^ 63) ≡ true = ground (arith, v) in
    let stop = is_digit-cont (char rest) e in
    numbered (str ++ c ∷ [])
      (rw (lex_digits, digit, fits, is_digit_of-ten (char rest), stop, e) refl)
lex_digits-Numbered (suc fuel) c (d' ∷ cs) rest str int l d e v f =
    let first : is_digit c ≡ true = ground (arith, d) in
    let others : all_of is_digit (d' ∷ cs) ≡ true = ground (arith, d) in
    let second : is_digit d' ≡ true = ground (arith, d) in
    let digit = to_int-digit c first in
    let below = value_of-le (int * 10 + (c - b'0')) (d' ∷ cs) in
    let fits : ltb (int * 10 + (c - b'0')) (2 ^ 63) ≡ true = ground (arith, v, below) in
    elim (lex_digits-Numbered fuel d' cs rest (str ++ c ∷ []) (int * 10 + (c - b'0')) l others e v
      (omega arith)) [
        | numbered text k ↦
            numbered text (rw (lex_digits, digit, fits, is_digit_of-ten d', second) k)
      ]

digit-is_space : (c : ℕ) → is_digit c ≡ true → (is_space c || c == 10 || c == b'#') ≡ false
unfolding is_digit is_space
digit-is_space c h = ground (arith, h)

digit-punctuation :
    (c : ℕ)
    → is_digit c ≡ true
    → (punctuation c ≡ none)
      × ((c == 0) ≡ false)
      × ((c == b'$') ≡ false)
      × ((c == b'@') ≡ false)
      × ((c == 34) ≡ false)
      × (is_ident_start c ≡ false)
unfolding is_digit is_ident_start is_alpha punctuation
digit-punctuation c h = ground (arith, h)

pub next_token-digit :
    (c : ℕ) (cs : List ℕ) (l : Lexer)
    → is_digit c ≡ true
    → next_token (record l { input = c ∷ cs })
      ≡ lex_number (c ∷ cs) (record l { input = c ∷ cs; str = []; int = 0 })
unfolding next_token skip_blank lex_token char next_char
next_token-digit c cs l h =
    let plain = digit-is_space c h in
    let (other, nonzero, dollar, at, quote, start) = digit-punctuation c h in
    rw (next_token, skip_blank, plain, lex_token, nonzero, other, dollar, at, quote, start, h) refl

plain_end :
    (c : ℕ)
    → is_ident_cont c ≡ false
    → ((c == b'x') ≡ false) × ((c == b'b') ≡ false) × ((c == b'o') ≡ false) × (is_digit c ≡ false)
unfolding is_ident_cont is_alpha_num is_alpha
plain_end c h = ground (arith, h)

zero-is_digit : is_digit b'0' ≡ true
unfolding is_digit
zero-is_digit = refl

next_token-zero :
    (rest : List ℕ) (l : Lexer)
    → is_ident_cont (char rest) ≡ false
    → next_token (record l { input = b'0' ∷ rest })
      ≡ lexed (record l { input = rest; token = number; str = b'0' ∷ char rest ∷ []; int = 0 })
unfolding lex_number char next_char
next_token-zero rest l e =
    let (x, b, o, d) = plain_end (char rest) e in
    next_token-digit b'0' rest l zero-is_digit ∙ rw (lex_number, x, b, o, d) refl

next_token-digits :
    (ds rest : List ℕ) (l : Lexer)
    → all_of is_digit ds ≡ true
    → 0 < value_of 0 ds
    → value_of 0 ds < 2 ^ 63
    → (char ds == b'0') ≡ false
    → is_ident_cont (char rest) ≡ false
    → Numbered (value_of 0 ds) rest l (next_token (record l { input = ds ++ rest }))
unfolding lex_number value_of all_of char
next_token-digits [] rest l d p v z e = absurd (omega arith)
next_token-digits (c ∷ cs) rest l d p v z e =
    let first : is_digit c ≡ true = ground (arith, d) in
    let step = next_token-digit c (cs ++ rest) l first in
    elim (lex_digits-Numbered (suc (suc (length (cs ++ rest)))) c cs rest [] 0
      (record l { input = c ∷ cs ++ rest; str = []; int = 0 }) d e v
      (omega (arith, length-append cs rest))) [
        | numbered text k ↦ numbered text (step ∙ rw (lex_number, z) k)
      ]

-- The lexer reads a number back that was printed in decimal digits, before a character that ends it.
pub next_token-Decimal :
    (decimal : ℕ → List ℕ) (n : ℕ) (rest : List ℕ) (l : Lexer)
    → Decimal decimal
    → n < 2 ^ 63
    → is_ident_cont (char rest) ≡ false
    → Numbered n rest l (next_token (record l { input = decimal n ++ rest }))
next_token-Decimal decimal n rest l d h e = elim (Bool-cases (n == 0)) [
  | inl z ↦
      let same : n ≡ 0 = ground arith in
      rw (same, d.zero_digit) (numbered (b'0' ∷ char rest ∷ []) (next_token-zero rest l e))
  | inr z ↦
      let positive : 0 < n = ground arith in
      subst (λ (m : ℕ). Numbered m rest l (next_token (record l { input = decimal n ++ rest })))
        (d.value n)
        (next_token-digits (decimal n) rest l (d.digits n) (omega (arith, d.value n, positive))
          (omega (arith, d.value n, h)) (d.first n positive) e)
]
