-- ===== src/Syntax/Progress.antt =====
-- core/lexer.cpp: every token takes a character.
use llir_opt.Prelude.{
  ℕ, suc, ◌<◌, ◌≡◌, refl, ◌⊎◌, inl, inr, Bool, true, false, List, [], ◌∷◌, length, arith, ◌==◌,
  Bool-cases, Option-cases,
}
use llir_opt.Syntax.Chars.{is_digit, is_ident_start}
use llir_opt.Syntax.Lexer.{
  Lexer, end, Outcome, lexed, error, undefined, no_fuel, char, next_char, lex_string, lex_dollar,
  lex_annot, lex_ident, lex_number, punctuation, lex_token,
}
use llir_opt.Syntax.Left.{
  next_char-lt, has, is_open, Risks, Left, lex_string-Left, lex_dollar-Left, lex_annot-Left,
  lex_ident-Left, lex_number-Left,
}

-- A token other than the end takes one of `n` characters. The lexer may not end only where there is a comment
-- or a string, and what it does is undefined only where there is a digit.
unfoldable pub Takes : ℕ → Risks → Outcome → Type 0
Takes n risks (lexed l) = (l.token ≡ end) ⊎ (length l.input < n)
Takes n risks error = Unit
Takes n risks undefined = risks.numeric ≡ true
Takes n risks no_fuel = risks.endless ≡ true

-- The risks of a text are among those given.
abbrev pub Within : List ℕ → Risks → Type 0
Within cs risks =
    (has is_open cs ≡ true → risks.endless ≡ true) × (has is_digit cs ≡ true → risks.numeric ≡ true)

Left-Takes : (m n : ℕ) (risks : Risks) (o : Outcome) → m < n → Left m risks o → Takes n risks o
unfolding Takes
Left-Takes m n risks (lexed l) h k = inr (omega (arith, k, h))
Left-Takes m n risks error h k = tt
Left-Takes m n risks undefined h k = k
Left-Takes m n risks no_fuel h k = k

pub has-char : (p : ℕ → Bool) (cs : List ℕ) → p 0 ≡ false → p (char cs) ≡ true → has p cs ≡ true
unfolding has char
has-char p [] z h = cc
has-char p (c ∷ cs) z h = ground (arith, h)

pub zero-is_digit : is_digit 0 ≡ false
unfolding is_digit
zero-is_digit = refl

pub lex_token-Takes :
    (input : List ℕ) (risks : Risks) (l : Lexer)
    → Within input risks
    → Takes (length input) risks (lex_token input l)
unfolding lex_token Takes
lex_token-Takes input risks l h = elim (Bool-cases (char input == 0)) [
  | inl e ↦ rw (lex_token, e) (inl refl)
  | inr e ↦
      let less = next_char-lt input e in
      let n = length (next_char input) in
      elim (Option-cases (punctuation (char input))) [
        | inr (t, f) ↦ rw (lex_token, e, f) (inr less)
        | inl f ↦ elim (Bool-cases (char input == b'$')) [
          | inl g ↦
              rw (lex_token, e, f, g)
                (Left-Takes n (length input) risks (lex_dollar (next_char input) l) less
                  (lex_dollar-Left (next_char input) risks l))
          | inr g ↦ elim (Bool-cases (char input == b'@')) [
            | inl i ↦
                rw (lex_token, e, f, g, i)
                  (Left-Takes n (length input) risks (lex_annot (next_char input) l) less
                    (lex_annot-Left (next_char input) risks l))
            | inr i ↦ elim (Bool-cases (char input == 34)) [
              | inl j ↦
                  rw (lex_token, e, f, g, i, j)
                    (Left-Takes n (length input) risks
                      (lex_string (suc (length input)) [] (next_char input) l) less
                      (lex_string-Left (suc (length input)) [] (next_char input) risks l
                        (h.0 (has-char is_open input refl (ground (arith, j))))))
              | inr j ↦ elim (Bool-cases (is_ident_start (char input))) [
                | inl k ↦
                    rw (lex_token, e, f, g, i, j, k)
                      (Left-Takes n (length input) risks (lex_ident input l) less
                        (lex_ident-Left input risks l))
                | inr k ↦ elim (Bool-cases (is_digit (char input))) [
                  | inl m ↦
                      rw (lex_token, e, f, g, i, j, k, m)
                        (Left-Takes n (length input) risks (lex_number input l) less (
                          lex_number-Left input risks l
                            (h.1 (has-char is_digit input zero-is_digit m))))
                  | inr m ↦ rw (lex_token, e, f, g, i, j, k, m) tt
                ]
              ]
            ]
          ]
        ]
      ]
]
