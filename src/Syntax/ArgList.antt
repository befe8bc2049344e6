-- ===== src/Syntax/ArgList.antt =====
-- core/parser.cpp, core/printer.cpp: `.args`, the list of the parameters of a function.
use mathlib.Core.List.{append_assoc}
use llir_opt.Prelude.{
  ℕ, zero, suc, ◌<◌, ◌≡◌, refl, ◌∙◌, Bool, true, false, ◌||◌, List, [], ◌∷◌, ◌++◌, Option, some,
  length, arith, ◌==◌, ◌>>=◌,
}
use llir_opt.Syntax.Chars.{
  is_space, is_alpha, is_digit, is_alpha_num, is_ident_start, is_ident_cont,
}
use llir_opt.Syntax.Lexer.{
  newline, comma, ident, Lexer, char, next_char, is_ident, drop_while, skip_blank, lex_ident,
  lex_token, next_token,
}
use llir_opt.Syntax.Words.{is_word, all_of, start-punctuation, take_while-append, drop_while-append}
use llir_opt.Syntax.Names.{print_type}
use llir_opt.Syntax.RoundTrip.{type-Reads}
use llir_opt.Syntax.Digits.{Decimal}
use llir_opt.Syntax.Args.{
  FlaggedType, TypeFlag, no_flag, sext, zext, by_val, print_flag, print_param, print_more,
  print_params, next, token_number, has_token, check, parse_params, parse_args,
}
use llir_opt.Syntax.Steps.{next_comma, next_word, Stops, AllFit}
use llir_opt.Syntax.Params.{parse_param-print_flag}

-- A text that begins with a blank or a comment.
unfoldable pub starts_blank : List ℕ → Bool
starts_blank text = is_space (char text) || char text == 10 || char text == b'#'

start-not_space :
    (c : ℕ)
    → is_ident_start c ≡ true
    → (is_space c ≡ false) × ((c == 10) ≡ false) × ((c == b'#') ≡ false)
unfolding is_ident_start is_alpha is_space
start-not_space c h = ground (arith, h)

next_space_word :
    (name rest : List ℕ) (l : Lexer)
    → is_word name ≡ true
    → is_ident (char rest) ≡ false
    → next (record l { input = 32 ∷ (name ++ rest) })
      ≡ some (record l { input = rest; token = ident; str = name; int = 0 })
unfolding next next_token skip_blank lex_token lex_ident is_word is_space char next_char drop_while
next_space_word [] rest l h e = cc
next_space_word (c ∷ cs) rest l h e =
    let first : is_ident_start c ≡ true = ground (arith, h) in
    let others : all_of is_ident cs ≡ true = ground (arith, h) in
    let (space, line, comment) = start-not_space c first in
    let (other, nonzero, dollar, at, quote) = start-punctuation c first in
    rw
      (
        next,
        next_token,
        skip_blank,
        space,
        comment,
        line,
        skip_blank,
        space,
        line,
        comment,
        lex_token,
        nonzero,
        other,
        dollar,
        at,
        quote,
        first,
        lex_ident,
        take_while-append is_ident cs rest others e,
        drop_while-append is_ident cs rest others e,
      )
      refl

next_newline :
    (tail : List ℕ) (l : Lexer)
    → starts_blank tail ≡ false
    → next (record l { input = 10 ∷ tail })
      ≡ some (record l { input = tail; token = newline; str = []; int = 0 })
unfolding next next_token skip_blank is_space char next_char drop_while starts_blank
next_newline tail l h = rw (next, next_token, skip_blank, skip_blank, h) refl

comma-Stops : (more : List ℕ) → Stops comma (b',' ∷ more) more
unfolding is_ident is_ident_cont is_alpha is_alpha_num is_digit char token_number
comma-Stops more = record { ends = refl; other = refl; stop = next_comma more }

newline-Stops : (tail : List ℕ) → starts_blank tail ≡ false → Stops newline (10 ∷ tail) tail
unfolding is_ident is_ident_cont is_alpha is_alpha_num is_digit char token_number
newline-Stops tail h = record { ends = refl; other = refl; stop = λ l. next_newline tail l h }

module _ (decimal : ℕ → List ℕ) (d : Decimal decimal) (make_align : ℕ → Option ℕ) where
  -- What follows the name of a type ends it.
  print_flag-ends :
      (flag : TypeFlag) (rest : List ℕ)
      → is_ident (char rest) ≡ false
      → is_ident (char (print_flag decimal flag ++ rest)) ≡ false
  unfolding print_flag is_ident is_ident_cont is_alpha is_alpha_num is_digit char
  print_flag-ends no_flag rest h = h
  print_flag-ends sext rest h = refl
  print_flag-ends zext rest h = refl
  print_flag-ends (by_val size align) rest h = refl

  print_more-ends :
      (params : List FlaggedType) (tail : List ℕ)
      → is_ident (char (print_more decimal params ++ 10 ∷ tail)) ≡ false
  unfolding print_more is_ident is_ident_cont is_alpha is_alpha_num is_digit char
  print_more-ends [] tail = refl
  print_more-ends (p ∷ params) tail = refl

  parse_params-print_more :
      (fuel : ℕ) (p : FlaggedType) (params : List FlaggedType) (tail : List ℕ) (l : Lexer)
      → AllFit make_align (p ∷ params)
      → starts_blank tail ≡ false
      → length params < fuel
      → parse_params make_align fuel (record l {
        input = print_flag decimal p.flag ++ (print_more decimal params ++ 10 ∷ tail);
        token = ident;
        str = print_type p.ty;
        int = 0;
      })
        ≡ some (record l { input = tail; token = newline; str = []; int = 0 }, p ∷ params)
  unfolding parse_params print_more print_param has_token token_number
  parse_params-print_more zero p params tail l h b f = absurd (omega arith)
  parse_params-print_more (suc fuel) p [] tail l h b f =
      rw
        (parse_param-print_flag decimal d make_align p (10 ∷ tail) tail newline l h.0
          (newline-Stops tail b))
        refl
  parse_params-print_more (suc fuel) p (q ∷ params) tail l h b f =
      let name = print_type q.ty in
      let end_ = print_more decimal params ++ 10 ∷ tail in
      let text = print_flag decimal q.flag ++ end_ in
      let same : name ++ print_flag decimal q.flag ++ print_more decimal params ++ 10 ∷ tail
          ≡ name ++ text =
        append_assoc (name ++ print_flag decimal q.flag) (print_more decimal params) (10 ∷ tail)
        ∙ append_assoc name (print_flag decimal q.flag) end_ in
      let one =
        parse_param-print_flag decimal d make_align p (b',' ∷ 32 ∷ (name ++ text))
          (32 ∷ (name ++ text)) comma l h.0 (comma-Stops (32 ∷ (name ++ text))) in
      let word =
        next_space_word name text (record l { token = comma; str = []; int = 0 })
          (type-Reads q.ty).word (print_flag-ends q.flag end_ (print_more-ends params tail)) in
      let others = parse_params-print_more fuel q params tail l h.1 b (omega arith) in
      rw (same, one, word, others) refl

  -- Where sizes and alignments fit into 16 bits, `Align` accepts the alignments and numbers are printed in
  -- decimal digits, the parser reads a list of parameters back that the printer printed, and stops behind
  -- the newline after it, if neither a blank nor a comment follows.
  pub parse_args-print_params :
      (params : List FlaggedType) (tail : List ℕ) (l : Lexer)
      → AllFit make_align params
      → starts_blank tail ≡ false
      → (next (record l { input = print_params decimal params ++ 10 ∷ tail })
          >>= parse_args make_align (length params))
        ≡ some (record l { input = tail; token = newline; str = []; int = 0 }, params)
  unfolding parse_args print_params print_param check has_token token_number
  parse_args-print_params [] tail l h b = rw (next_newline tail l b) refl
  parse_args-print_params (p ∷ params) tail l h b =
      let name = print_type p.ty in
      let end_ = print_more decimal params ++ 10 ∷ tail in
      let text = print_flag decimal p.flag ++ end_ in
      let same : name ++ print_flag decimal p.flag ++ print_more decimal params ++ 10 ∷ tail
          ≡ name ++ text =
        append_assoc (name ++ print_flag decimal p.flag) (print_more decimal params) (10 ∷ tail)
        ∙ append_assoc name (print_flag decimal p.flag) end_ in
      let word =
        next_word name text l (type-Reads p.ty).word
          (print_flag-ends p.flag end_ (print_more-ends params tail)) in
      let all = parse_params-print_more (suc (length params)) p params tail l h b (omega arith) in
      rw (same, word, all) refl
