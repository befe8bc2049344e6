-- ===== src/Syntax/Params.antt =====
-- core/parser.cpp: the parameters of a function are read back as core/printer.cpp prints them.
use mathlib.Core.List.{append_assoc}
use llir_opt.Prelude.{
  ℕ, ◌%◌, ◌^◌, ◌≡◌, refl, ap, ◌∙◌, true, false, List, [], ◌∷◌, ◌++◌, Option, some, arith,
}
use llir_opt.Sccp.Compare.{Ty}
use llir_opt.Syntax.Chars.{codes, is_alpha, is_digit, is_alpha_num, is_ident_cont}
use llir_opt.Syntax.Lexer.{Token, ident, colon, number, Lexer, char, is_ident, same_text}
use llir_opt.Syntax.Words.{is_word}
use llir_opt.Syntax.Names.{print_type}
use llir_opt.Syntax.RoundTrip.{type-Reads}
use llir_opt.Syntax.Digits.{Decimal}
use llir_opt.Syntax.Args.{
  TypeFlag, no_flag, sext, zext, by_val, get_by_val, FlaggedType, print_flag, token_number,
  has_token, check, parse_type_flags, parse_param,
}
use llir_opt.Syntax.Steps.{
  next_word, next_colon, next-Decimal, expect-next, Stops, Fits, ident-cont, word_sext, word_zext,
  word_byval, colon_ends,
}

module _ (decimal : ℕ → List ℕ) (d : Decimal decimal) (make_align : ℕ → Option ℕ) where
  parse_type_flags_sext :
      (rest rest' : List ℕ) (tok : Token) (l : Lexer)
      → Stops tok rest rest'
      → parse_type_flags make_align
          (record l { input = rest; token = ident; str = codes "sext"; int = 0 })
        ≡ some (record l { input = rest'; token = tok; str = []; int = 0 }, sext)
  unfolding parse_type_flags same_text
  parse_type_flags_sext rest rest' tok l s =
      rw (s.stop (record l { input = rest; token = ident; str = codes "sext"; int = 0 })) refl

  parse_type_flags_zext :
      (rest rest' : List ℕ) (tok : Token) (l : Lexer)
      → Stops tok rest rest'
      → parse_type_flags make_align
          (record l { input = rest; token = ident; str = codes "zext"; int = 0 })
        ≡ some (record l { input = rest'; token = tok; str = []; int = 0 }, zext)
  unfolding parse_type_flags same_text
  parse_type_flags_zext rest rest' tok l s =
      rw (s.stop (record l { input = rest; token = ident; str = codes "zext"; int = 0 })) refl

  parse_type_flags_by_val :
      (size align : ℕ) (rest rest' : List ℕ) (tok : Token) (l : Lexer)
      → Fits make_align (by_val size align)
      → Stops tok rest rest'
      → parse_type_flags make_align (record l {
        input = b':' ∷ (decimal size ++ (b':' ∷ (decimal align ++ rest)));
        token = ident;
        str = codes "byval";
        int = 0;
      })
        ≡ some (record l { input = rest'; token = tok; str = []; int = 0 }, by_val size align)
  unfolding parse_type_flags same_text get_by_val is_ident_cont is_alpha_num is_alpha is_digit char
      has_token token_number
  parse_type_flags_by_val size align rest rest' tok l h s =
      let more = b':' ∷ (decimal align ++ rest) in
      let start : Lexer = record l {
        input = b':' ∷ (decimal size ++ more);
        token = ident;
        str = codes "byval";
        int = 0;
      } in
      let one : Lexer = record l {
        input = decimal size ++ more;
        token = colon;
        str = [];
        int = 0;
      } in
      let (s1, n1) = next-Decimal decimal size more one d (omega arith) refl in
      let two : Lexer = record l { input = more; token = number; str = s1; int = size } in
      let three : Lexer = record l {
        input = decimal align ++ rest;
        token = colon;
        str = [];
        int = 0;
      } in
      let (s2, n2) =
        next-Decimal decimal align rest three d (omega arith) (ident-cont (char rest) s.ends) in
      let four : Lexer = record l { input = rest; token = number; str = s2; int = align } in
      let e1 = expect-next colon start one (next_colon (decimal size ++ more) start) refl in
      let e2 = expect-next number one two n1 refl in
      let e3 = expect-next colon two three (next_colon (decimal align ++ rest) two) refl in
      let e4 = expect-next number three four n2 refl in
      let low : size % 2 ^ 32 ≡ size = omega arith in
      let low' : align % 2 ^ 32 ≡ align = omega arith in
      let small : size % 2 ^ 16 ≡ size = omega arith in
      let small' : align % 2 ^ 16 ≡ align = omega arith in
      rw (e1, e2, e3, e4, s.stop four, low', low, h.2, small, small') refl

  -- A parameter without a flag, and one with a flag behind a colon.
  parse_param_plain :
      (ty : Ty) (rest rest' : List ℕ) (tok : Token) (l : Lexer)
      → Stops tok rest rest'
      → parse_param make_align
          (record l { input = rest; token = ident; str = print_type ty; int = 0 })
        ≡ some (
          record l { input = rest'; token = tok; str = []; int = 0 },
          record { ty = ty; flag = no_flag },
        )
  unfolding parse_param check has_token token_number
  parse_param_plain ty rest rest' tok l s =
      let found = (type-Reads ty).found in
      rw
        (
          found,
          s.stop (record l { input = rest; token = ident; str = print_type ty; int = 0 }),
          s.other,
        )
        refl

  parse_param_flag :
      (ty : Ty) (flag : TypeFlag) (name text : List ℕ) (l l' : Lexer)
      → is_word name ≡ true
      → is_ident (char text) ≡ false
      → parse_type_flags make_align (record l { input = text; token = ident; str = name; int = 0 })
        ≡ some (l', flag)
      → parse_param make_align
          (record l { input = b':' ∷ (name ++ text); token = ident; str = print_type ty; int = 0 })
        ≡ some (l', record { ty = ty; flag = flag })
  unfolding parse_param check has_token token_number
  parse_param_flag ty flag name text l l' w e f =
      let found = (type-Reads ty).found in
      let start : Lexer = record l {
        input = b':' ∷ (name ++ text);
        token = ident;
        str = print_type ty;
        int = 0;
      } in
      let after : Lexer = record l { input = name ++ text; token = colon; str = []; int = 0 } in
      let word =
        expect-next ident after (record l { input = text; token = ident; str = name; int = 0 })
          (next_word name text after w e) refl in
      rw (found, next_colon (name ++ text) start, word, f) refl

  pub parse_param-print_flag :
      (p : FlaggedType) (rest rest' : List ℕ) (tok : Token) (l : Lexer)
      → Fits make_align p.flag
      → Stops tok rest rest'
      → parse_param make_align (record l {
        input = print_flag decimal p.flag ++ rest;
        token = ident;
        str = print_type p.ty;
        int = 0;
      })
        ≡ some (record l { input = rest'; token = tok; str = []; int = 0 }, p)
  unfolding print_flag char
  parse_param-print_flag p rest rest' tok l h s = go p.ty p.flag h
    where
      go :
          (ty : Ty) (flag : TypeFlag)
          → Fits make_align flag
          → parse_param make_align (record l {
            input = print_flag decimal flag ++ rest;
            token = ident;
            str = print_type ty;
            int = 0;
          })
            ≡ some (
              record l { input = rest'; token = tok; str = []; int = 0 },
              record { ty = ty; flag = flag },
            )
      go ty no_flag h' = parse_param_plain ty rest rest' tok l s
      go ty sext h' =
          parse_param_flag ty sext (codes "sext") rest l
            (record l { input = rest'; token = tok; str = []; int = 0 }) word_sext s.ends
            (parse_type_flags_sext rest rest' tok l s)
      go ty zext h' =
          parse_param_flag ty zext (codes "zext") rest l
            (record l { input = rest'; token = tok; str = []; int = 0 }) word_zext s.ends
            (parse_type_flags_zext rest rest' tok l s)
      go ty (by_val size align) h' =
          ap
            (λ text. parse_param make_align (record l {
              input = b':' ∷ (codes "byval" ++ text);
              token = ident;
              str = print_type ty;
              int = 0;
            }))
            (ap (λ text. b':' ∷ text) (append_assoc (decimal size) (b':' ∷ decimal align) rest))
          ∙ parse_param_flag ty (by_val size align) (codes "byval")
              (b':' ∷ (decimal size ++ (b':' ∷ (decimal align ++ rest)))) l
              (record l { input = rest'; token = tok; str = []; int = 0 }) word_byval colon_ends
              (parse_type_flags_by_val size align rest rest' tok l h' s)
