-- ===== src/Syntax/Quote.antt =====
-- core/printer.cpp: `Print` of a string, which the lexer reads back. `is_print` is `isprint` of the C
-- library, of which nothing is needed.
use llir_opt.Prelude.{
  ℕ, zero, suc, ◌<◌, ◌≤◌, ◌+◌, ◌-◌, ◌*◌, ◌/◌, ◌%◌, ◌≡◌, refl, sym, ap, ◌∙◌, inl, inr, Bool, true,
  false, ◌&&◌, List, [], ◌∷◌, ◌++◌, none, length, length-append, arith, ltb, leb, ◌==◌,
  if◌then◌else◌, Bool-cases,
}
use mathlib.Core.List.{append_assoc, append-nil}
use llir_opt.Syntax.Chars.{is_octal, is_space}
use llir_opt.Syntax.Lexer.{
  Lexer, lexed, string, finish_text, char, next_char, escape, octal, lex_string, drop_while,
  skip_blank, punctuation, lex_token, next_token,
}

-- The character of an octal digit.
abbrev digit : ℕ → ℕ
digit n = b'0' + n % 8

unfoldable pub print_char : (ℕ → Bool) → ℕ → List ℕ
print_char is_print c =
    if c == 9
    then 92 ∷ b't' ∷ []
    else (if c == 10
        then 92 ∷ b'n' ∷ []
        else (if c == 92
            then 92 ∷ 92 ∷ []
            else (if c == 34
                then 92 ∷ 34 ∷ []
                else (if is_print c
                    then c ∷ []
                    else 92 ∷ digit (c / 8 / 8) ∷ digit (c / 8) ∷ digit c ∷ []))))

unfoldable pub print_chars : (ℕ → Bool) → List ℕ → List ℕ
print_chars is_print [] = []
print_chars is_print (c ∷ str) = print_char is_print c ++ print_chars is_print str

unfoldable pub print_string : (ℕ → Bool) → List ℕ → List ℕ
print_string is_print str = 34 ∷ print_chars is_print str ++ 34 ∷ []

octal_step :
    (n chr d : ℕ) (more : List ℕ)
    → d < 8
    → chr * 8 + d ≤ 256
    → octal (suc n) chr ((b'0' + d) ∷ more) ≡ octal n (chr * 8 + d) more
unfolding octal is_octal char next_char
octal_step n chr d more h l =
    let here : (leb b'0' (b'0' + d) && leb (b'0' + d) b'7') ≡ true = ground arith in
    let next : chr * 8 + (b'0' + d) - b'0' ≡ chr * 8 + d = omega arith in
    let fits : ltb 256 (chr * 8 + d) ≡ false = ground arith in rw (here, next, fits) refl

-- The three digits of a byte.
octal-digits :
    (c : ℕ) (more : List ℕ)
    → c < 256
    → octal 3 0 (digit (c / 8 / 8) ∷ digit (c / 8) ∷ digit c ∷ more) ≡ (c, more)
unfolding octal
octal-digits c more h =
    octal_step 2 0 (c / 8 / 8 % 8) (digit (c / 8) ∷ digit c ∷ more) (omega arith) (omega arith)
    ∙ octal_step 1 (0 * 8 + c / 8 / 8 % 8) (c / 8 % 8) (digit c ∷ more) (omega arith) (omega arith)
    ∙ octal_step 0 ((0 * 8 + c / 8 / 8 % 8) * 8 + c / 8 % 8) (c % 8) more (omega arith)
        (omega arith)
    ∙ ap (λ (n : ℕ). (n, more)) (omega arith)

-- A plain character of a string, and one in octal digits.
lex_string_plain :
    (fuel c : ℕ) (acc more : List ℕ) (l : Lexer)
    → (c == 92) ≡ false
    → (c == 34) ≡ false
    → lex_string (suc fuel) acc (c ∷ more) l ≡ lex_string fuel (acc ++ c ∷ []) more l
unfolding lex_string char next_char
lex_string_plain fuel c acc more l g i = rw (lex_string, i, g) refl

digit-is_octal : (n : ℕ) → is_octal (digit n) ≡ true
unfolding is_octal
digit-is_octal n = ground arith

escape-digit : (n : ℕ) → escape (digit n) ≡ none
unfolding escape
escape-digit n = ground arith

lex_string_octal :
    (fuel c : ℕ) (acc more : List ℕ) (l : Lexer)
    → c < 256
    → lex_string (suc fuel) acc (92 ∷ digit (c / 8 / 8) ∷ digit (c / 8) ∷ digit c ∷ more) l
      ≡ lex_string fuel (acc ++ c ∷ []) more l
unfolding lex_string char next_char
lex_string_octal fuel c acc more l h =
    let low : c % 256 ≡ c = omega arith in
    rw
      (lex_string, escape-digit (c / 8 / 8), digit-is_octal (c / 8 / 8), octal-digits c more h, low)
      refl

-- One character is read back.
lex_string-print_char :
    (is_print : ℕ → Bool) (fuel c : ℕ) (acc more : List ℕ) (l : Lexer)
    → c < 256
    → lex_string (suc fuel) acc (print_char is_print c ++ more) l
      ≡ lex_string fuel (acc ++ c ∷ []) more l
unfolding print_char lex_string char next_char escape
lex_string-print_char is_print fuel c acc more l h = elim (Bool-cases (c == 9)) [
  | inl e ↦ let same : c ≡ 9 = ground arith in rw same refl
  | inr e ↦ elim (Bool-cases (c == 10)) [
    | inl f ↦ let same : c ≡ 10 = ground arith in rw same refl
    | inr f ↦ elim (Bool-cases (c == 92)) [
      | inl g ↦ let same : c ≡ 92 = ground arith in rw same refl
      | inr g ↦ elim (Bool-cases (c == 34)) [
        | inl i ↦ let same : c ≡ 34 = ground arith in rw same refl
        | inr i ↦ elim (Bool-cases (is_print c)) [
          | inl j ↦
              let out : print_char is_print c ≡ c ∷ [] = rw (e, f, g, i, j) refl in
              rw out (lex_string_plain fuel c acc more l g i)
          | inr j ↦
              let out : print_char is_print c
                  ≡ 92 ∷ digit (c / 8 / 8) ∷ digit (c / 8) ∷ digit c ∷ [] =
                rw (e, f, g, i, j) refl in
              rw out (lex_string_octal fuel c acc more l h)
        ]
      ]
    ]
  ]
]

abbrev pub AllBytes : List ℕ → Type 0
AllBytes [] = Unit
AllBytes (c ∷ str) = (c < 256) × AllBytes str

lex_string-print_chars :
    (is_print : ℕ → Bool) (str : List ℕ) (fuel : ℕ) (acc rest : List ℕ) (l : Lexer)
    → AllBytes str
    → length str < fuel
    → lex_string fuel acc (print_chars is_print str ++ 34 ∷ rest) l
      ≡ finish_text string (acc ++ str) rest l
unfolding print_chars lex_string char next_char
lex_string-print_chars is_print str zero acc rest l h f = absurd (omega arith)
lex_string-print_chars is_print [] (suc fuel) acc rest l h f =
    ap (λ text. finish_text string text rest l) (sym (append-nil acc))
lex_string-print_chars is_print (c ∷ str) (suc fuel) acc rest l h f =
    ap (λ text. lex_string (suc fuel) acc text l)
      (append_assoc (print_char is_print c) (print_chars is_print str) (34 ∷ rest))
    ∙ lex_string-print_char is_print fuel c acc (print_chars is_print str ++ 34 ∷ rest) l h.0
    ∙ lex_string-print_chars is_print str fuel (acc ++ c ∷ []) rest l h.1 (omega arith)
    ∙ ap (λ text. finish_text string text rest l) (append_assoc acc (c ∷ []) str)

length-print_char : (is_print : ℕ → Bool) (c : ℕ) → 1 ≤ length (print_char is_print c)
unfolding print_char
length-print_char is_print c = ground arith

length-print_chars :
    (is_print : ℕ → Bool) (str : List ℕ) → length str ≤ length (print_chars is_print str)
unfolding print_chars
length-print_chars is_print [] = omega arith
length-print_chars is_print (c ∷ str) = omega (
  arith,
  length-print_char is_print c,
  length-print_chars is_print str,
  length-append (print_char is_print c) (print_chars is_print str),
)

-- A text that begins with a quote is a string.
next_token-quote :
    (text : List ℕ) (l : Lexer)
    → next_token (record l { input = 34 ∷ text })
      ≡ lex_string
          (suc (suc (length text)))
          []
          text
          (record l { input = 34 ∷ text; str = []; int = 0 })
unfolding next_token skip_blank lex_token punctuation char next_char is_space drop_while
next_token-quote text l = refl

-- The lexer reads a string of bytes that the printer printed back, whatever `isprint` says of a character,
-- and stops behind it.
pub next_token-print_string :
    (is_print : ℕ → Bool) (str rest : List ℕ) (l : Lexer)
    → AllBytes str
    → next_token (record l { input = print_string is_print str ++ rest })
      ≡ lexed (record l { input = rest; token = string; str = str; int = 0 })
unfolding print_string
next_token-print_string is_print str rest l h =
    let text = (print_chars is_print str ++ 34 ∷ []) ++ rest in
    next_token-quote text l
    ∙ ap
        (λ t.
          lex_string (suc (suc (length text))) [] t
            (record l { input = 34 ∷ text; str = []; int = 0 }))
        (append_assoc (print_chars is_print str) (34 ∷ []) rest)
    ∙ lex_string-print_chars is_print str (suc (suc (length text))) [] rest
        (record l { input = 34 ∷ text; str = []; int = 0 }) h
        (omega (
          arith,
          length-print_chars is_print str,
          length-append (print_chars is_print str) (34 ∷ []),
          length-append (print_chars is_print str ++ 34 ∷ []) rest,
        ))
