-- ===== src/Syntax/Left.antt =====
-- core/lexer.cpp: the characters that each kind of token leaves.
use llir_opt.Prelude.{
  ℕ, zero, suc, ◌<◌, ◌≤◌, ◌+◌, ◌-◌, ◌*◌, ◌%◌, ◌^◌, ◌≡◌, inl, inr, Bool, true, false, ◌||◌, List, [],
  ◌∷◌, ◌++◌, some, length, arith, ltb, ◌==◌, Bool-cases, Option-cases,
}
use llir_opt.Syntax.Chars.{
  is_digit, is_alpha, is_octal, to_int, is_digit_of, is_ident_cont, is_alpha_num,
}
use llir_opt.Syntax.Lexer.{
  Lexer, Outcome, lexed, error, undefined, no_fuel, char, next_char, take_while, drop_while, lookup,
  registers, escape, octal, lex_string, lex_dollar, lex_annot, is_annot, lex_ident, is_ident,
  lex_digits, lex_number,
}

pub drop_while-le : (p : ℕ → Bool) (cs : List ℕ) → length (drop_while p cs) ≤ length cs
unfolding drop_while
drop_while-le p [] = omega arith
drop_while-le p (c ∷ cs) = ground (arith, drop_while-le p cs)

pub next_char-le : (cs : List ℕ) → length (next_char cs) ≤ length cs
unfolding next_char
next_char-le [] = omega arith
next_char-le (c ∷ cs) = omega arith

pub next_char-lt : (cs : List ℕ) → (char cs == 0) ≡ false → length (next_char cs) < length cs
unfolding next_char char
next_char-lt [] h = absurd (ground (arith, h))
next_char-lt (c ∷ cs) h = omega arith

octal-le : (n chr : ℕ) (input : List ℕ) → length (octal n chr input).1 ≤ length input
unfolding octal
octal-le zero chr input = omega arith
octal-le (suc n) chr input =
    ground (arith, next_char-le input, octal-le n (chr * 8 + char input - b'0') (next_char input))

-- Whether a text has a character that passes a test.
unfoldable pub has : (ℕ → Bool) → List ℕ → Bool
has p [] = false
has p (c ∷ cs) = p c || has p cs

-- The characters with which a comment or a string begins.
abbrev pub is_open : ℕ → Bool
is_open c = c == b'#' || c == 34

-- What a text admits: a loop that does not end, and a number whose value is undefined.
pub record Risks : Type 0 where
  pub endless : Bool
  pub numeric : Bool

abbrev pub risks_of : List ℕ → Risks
risks_of cs = record { endless = has is_open cs; numeric = has is_digit cs }

-- The characters that are left, where a token was read.
abbrev pub Left : ℕ → Risks → Outcome → Type 0
Left n risks (lexed l) = length l.input ≤ n
Left n risks error = Unit
Left n risks undefined = risks.numeric ≡ true
Left n risks no_fuel = risks.endless ≡ true

Left-mono : (m n : ℕ) (risks : Risks) (o : Outcome) → m ≤ n → Left m risks o → Left n risks o
Left-mono m n risks (lexed l) h k = omega (arith, k, h)
Left-mono m n risks error h k = tt
Left-mono m n risks undefined h k = k
Left-mono m n risks no_fuel h k = k

pub lex_string-Left :
    (fuel : ℕ) (str input : List ℕ) (risks : Risks) (l : Lexer)
    → risks.endless ≡ true
    → Left (length input) risks (lex_string fuel str input l)
unfolding lex_string
lex_string-Left zero str input risks l h = h
lex_string-Left (suc fuel) str input risks l h =
    let one = next_char-le input in
    let two = next_char-le (next_char input) in
    elim (Bool-cases (char input == 34)) [
      | inl e ↦ rw (lex_string, e) one
      | inr e ↦ elim (Bool-cases (char input == 92)) [
        | inr f ↦
            rw (lex_string, e, f)
              (Left-mono (length (next_char input)) (length input) risks
                (lex_string fuel (str ++ char input ∷ []) (next_char input) l) one
                (lex_string-Left fuel (str ++ char input ∷ []) (next_char input) risks l h))
        | inl f ↦ elim (Option-cases (escape (char (next_char input)))) [
          | inr (c, g) ↦
              rw (lex_string, e, f, g)
                (Left-mono (length (next_char (next_char input))) (length input) risks
                  (lex_string fuel (str ++ c ∷ []) (next_char (next_char input)) l)
                  (omega (arith, one, two))
                  (lex_string-Left fuel (str ++ c ∷ []) (next_char (next_char input)) risks l h))
          | inl g ↦ elim (Bool-cases (is_octal (char (next_char input)))) [
            | inr i ↦ rw (lex_string, e, f, g, i) tt
            | inl i ↦
                let read = octal 3 0 (next_char input) in
                rw (lex_string, e, f, g, i)
                  (Left-mono (length (read.1)) (length input) risks
                    (lex_string fuel (str ++ read.0 % 256 ∷ []) (read.1) l)
                    (omega (arith, octal-le 3 0 (next_char input), one))
                    (lex_string-Left fuel (str ++ read.0 % 256 ∷ []) (read.1) risks l h))
          ]
        ]
      ]
    ]

pub lex_dollar-Left :
    (input : List ℕ) (risks : Risks) (l : Lexer) → Left (length input) risks (lex_dollar input l)
unfolding lex_dollar
lex_dollar-Left input risks l = elim (Bool-cases (is_digit (char input))) [
  | inl e ↦ rw (lex_dollar, e) (drop_while-le is_digit input)
  | inr e ↦ elim (Bool-cases (is_alpha (char input))) [
    | inr f ↦ rw (lex_dollar, e, f) tt
    | inl f ↦ elim (Option-cases (lookup (take_while is_alpha_num input) registers)) [
      | inl g ↦ rw (lex_dollar, e, f, g) tt
      | inr (r, g) ↦ rw (lex_dollar, e, f, g) (drop_while-le is_alpha_num input)
    ]
  ]
]

pub lex_annot-Left :
    (input : List ℕ) (risks : Risks) (l : Lexer) → Left (length input) risks (lex_annot input l)
unfolding lex_annot
lex_annot-Left input risks l = elim (Bool-cases (is_alpha_num (char input))) [
  | inl e ↦ rw (lex_annot, e) (drop_while-le is_annot input)
  | inr e ↦ rw (lex_annot, e) tt
]

pub lex_ident-Left :
    (input : List ℕ) (risks : Risks) (l : Lexer)
    → Left (length (next_char input)) risks (lex_ident input l)
unfolding lex_ident
lex_ident-Left input risks l = drop_while-le is_ident (next_char input)

to_int-nonzero : (c d : ℕ) → to_int c ≡ some d → (c == 0) ≡ false
unfolding to_int
to_int-nonzero c d h = ground (arith, h)

lex_digits-Left :
    (fuel base : ℕ) (str : List ℕ) (int : ℕ) (input : List ℕ) (risks : Risks) (l : Lexer)
    → length input < fuel
    → risks.numeric ≡ true
    → Left (length (next_char input)) risks (lex_digits fuel base str int input l)
unfolding lex_digits
lex_digits-Left zero base str int input risks l h d = absurd (omega arith)
lex_digits-Left (suc fuel) base str int input risks l h d =
    elim (Option-cases (to_int (char input))) [
      | inl e ↦ rw (lex_digits, e) d
      | inr (digit, e) ↦ elim (Bool-cases (ltb (int * base + digit) (2 ^ 63))) [
        | inr f ↦ rw (lex_digits, e, f) d
        | inl f ↦
            let rest = next_char input in
            let less = next_char-lt input (to_int-nonzero (char input) digit e) in
            elim (Bool-cases (is_digit_of base (char rest))) [
              | inl g ↦
                  rw (lex_digits, e, f, g)
                    (Left-mono (length (next_char rest)) (length rest) risks
                      (lex_digits fuel base (str ++ char input ∷ []) (int * base + digit) rest l)
                      (next_char-le rest)
                      (lex_digits-Left fuel base (str ++ char input ∷ []) (int * base + digit) rest
                        risks l (omega (arith, less, h)) d))
              | inr g ↦ elim (Bool-cases (is_ident_cont (char rest))) [
                | inl i ↦ rw (lex_digits, e, f, g, i) (drop_while-le is_ident rest)
                | inr i ↦ rw (lex_digits, e, f, g, i) (omega arith)
              ]
            ]
      ]
    ]

pub lex_number-Left :
    (input : List ℕ) (risks : Risks) (l : Lexer)
    → risks.numeric ≡ true
    → Left (length (next_char input)) risks (lex_number input l)
unfolding lex_number
lex_number-Left input risks l n =
    let second = char (next_char input) in
    let body = next_char (next_char input) in
    let prefix = char input ∷ second ∷ [] in
    let fuel = suc (length input) in
    let shorter = λ (base : ℕ).
      Left-mono (length (next_char body)) (length (next_char input)) risks
        (lex_digits fuel base prefix 0 body l)
        (omega (arith, next_char-le body, next_char-le (next_char input)))
        (lex_digits-Left fuel base prefix 0 body risks l
          (omega (arith, next_char-le body, next_char-le (next_char input), next_char-le input))
          n) in
    elim (Bool-cases (char input == b'0')) [
      | inr e ↦ rw (lex_number, e) (lex_digits-Left fuel 10 [] 0 input risks l (omega arith) n)
      | inl e ↦ elim (Bool-cases (second == b'x')) [
        | inl x ↦ rw (lex_number, e, x) (shorter 16)
        | inr x ↦ elim (Bool-cases (second == b'b')) [
          | inl b ↦ rw (lex_number, e, x, b) (shorter 2)
          | inr b ↦ elim (Bool-cases (second == b'o')) [
            | inl o ↦ rw (lex_number, e, x, b, o) (shorter 8)
            | inr o ↦ elim (Bool-cases (is_digit second)) [
              | inl d ↦ rw (lex_number, e, x, b, o, d) tt
              | inr d ↦ rw (lex_number, e, x, b, o, d) (omega arith)
            ]
          ]
        ]
      ]
    ]
