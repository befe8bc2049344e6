-- ===== src/Syntax/Tests.antt =====
-- core/lexer.cpp, core/printer.cpp: examples.
use llir_opt.Prelude.{
  ◌==◌, ◌<◌, ◌≤◌, ◌^◌, ◌%◌, ◌⊎◌, Option, none, some, ◌||◌, if◌then◌else◌, ◌>>=◌, ℕ, zero, suc, ◌≡◌,
  refl, Bool, ◌&&◌, List, [], ◌∷◌, ◌++◌, leb, arith,
}
use llir_opt.Sccp.Compare.{i64}
use llir_opt.Syntax.Chars.{
  codes, is_space, is_alpha, is_digit, is_octal, is_hex, is_digit_of, to_int, is_alpha_num,
  is_ident_start, is_ident_cont,
}
use llir_opt.Syntax.Lexer.{
  newline, Lexer, lexed, undefined, end, reg, vreg, frame_addr, number, string, char, next_char,
  is_ident, drop_while, skip_blank, skip_comment, lex_digits, lex_number, punctuation, lex_token,
  next_token,
}
use llir_opt.Syntax.Left.{risks_of}
use llir_opt.Syntax.Progress.{Takes}
use llir_opt.Syntax.Blank.{next_token-Takes}
use llir_opt.Syntax.Quote.{print_string, next_token-print_string}
use llir_opt.Syntax.Names.{
  caml, weak_hidden, print_type, print_conv, print_visibility, register_name, print_register,
  parse_type, parse_calling_conv, parse_visibility,
}
use llir_opt.Syntax.Args.{FlaggedType, sext, by_val, next, print_params, parse_args}
use llir_opt.Syntax.ArgList.{starts_blank, parse_args-print_params}
use llir_opt.Syntax.Digits.{Numbered}
use llir_opt.Syntax.Printed.{decimal_of, decimal_of-Decimal}
use llir_opt.Syntax.Numbers.{next_token-bounds}
use llir_opt.Syntax.RoundTrip.{read_name, read_name-print}

-- A lexer before a text.
abbrev before : List ℕ → Lexer
before text = record { input = text; token = end; str = []; int = 0; reg = none; vreg = 0 }

-- The printable characters of ASCII.
abbrev printable : ℕ → Bool
printable c = leb 32 c && leb c 126

next_token-print_string_example :
    next_token (before (print_string printable (200 ∷ 34 ∷ 65 ∷ []) ++ codes ", 1"))
    ≡ lexed (record (before (codes ", 1")) { token = string; str = 200 ∷ 34 ∷ 65 ∷ [] })
next_token-print_string_example =
    next_token-print_string printable (200 ∷ 34 ∷ 65 ∷ []) (codes ", 1") (before [])
      (omega arith, (omega arith, (omega arith, tt)))

read_name-print_example :
    (read_name parse_type (next_token (before (print_type i64 ++ codes ", i8")))
      ≡ some (i64, codes ", i8"))
    × (read_name parse_calling_conv (next_token (before (print_conv caml ++ codes ", i8")))
        ≡ some (caml, codes ", i8"))
    × (read_name parse_visibility
          (next_token (before (print_visibility weak_hidden ++ codes ", i8")))
        ≡ some (weak_hidden, codes ", i8"))
    × (next_token (before (print_register frame_addr ++ codes ", i8"))
        ≡ lexed (record (before (codes ", i8")) {
          token = reg;
          str = codes "frame_addr";
          reg = some frame_addr;
        }))
unfolding register_name char is_ident is_ident_cont is_alpha_num is_alpha is_digit
read_name-print_example =
    read_name-print i64 caml weak_hidden frame_addr (codes ", i8") (before []) refl

-- A hexadecimal number, and the text of a zero, which has the character after it.
hex :
    next_token (before (codes " 0xff,"))
    ≡ lexed (record (before (codes ",")) { token = number; str = codes "0xff"; int = 255 })
unfolding next_token skip_blank lex_token lex_number lex_digits to_int is_digit_of is_octal is_hex
    is_digit is_space is_ident_start is_ident_cont is_alpha_num is_alpha punctuation char next_char
    drop_while
hex = refl

zero_text :
    next_token (before (codes "0,"))
    ≡ lexed (record (before (codes ",")) { token = number; str = codes "0," })
unfolding next_token skip_blank lex_token lex_number is_digit is_space is_ident_start is_alpha
    punctuation char next_char drop_while
zero_text = refl

-- A comment without an end: the fuel is used up, whatever there is of it.
open_comment : (fuel : ℕ) → skip_comment fuel [] ≡ none
unfolding skip_comment char next_char
open_comment zero = refl
open_comment (suc fuel) = open_comment fuel

next_token-Takes_example : Takes 4 (risks_of (codes " 12,")) (next_token (before (codes " 12,")))
next_token-Takes_example = next_token-Takes (before (codes " 12,"))

-- Alignments, and two parameters.
abbrev align_of : ℕ → Option ℕ
align_of n = if n == 1 || n == 2 || n == 4 || n == 8 || n == 16 then some n else none

abbrev two_params : List FlaggedType
two_params = record { ty = i64; flag = by_val 24 8 } ∷ record { ty = i64; flag = sext } ∷ []

parse_args-print_params_example :
    (next (before (print_params decimal_of two_params ++ 10 ∷ codes "f:"))
      >>= parse_args align_of 2)
    ≡ some (record (before (codes "f:")) { token = newline }, two_params)
unfolding starts_blank is_space char
parse_args-print_params_example =
    parse_args-print_params decimal_of decimal_of-Decimal align_of two_params (codes "f:")
      (before []) ((omega arith, omega arith, refl), (tt, tt)) refl

-- The first number that does not fit.
next_token-bounds_example :
    (((2 ^ 63 < 2 ^ 63)
        × Numbered
            (2 ^ 63)
            (codes ",")
            (before [])
            (next_token (before (decimal_of (2 ^ 63) ++ codes ","))))
      ⊎ ((2 ^ 63 ≤ 2 ^ 63) × (next_token (before (decimal_of (2 ^ 63) ++ codes ",")) ≡ undefined)))
    × (next_token (before (b'$' ∷ (decimal_of (2 ^ 63) ++ codes ",")))
        ≡ lexed (record (before (codes ",")) { token = vreg; vreg = 2 ^ 63 % 2 ^ 64 }))
unfolding char is_ident_cont is_alpha_num is_alpha is_digit
next_token-bounds_example =
    next_token-bounds decimal_of (2 ^ 63) (codes ",") (before []) decimal_of-Decimal refl
