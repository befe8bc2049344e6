-- ===== src/Syntax/Steps.antt =====
-- core/parser.cpp: the steps of the lexer through the parameters of a function.
use llir_opt.Prelude.{
  ℕ, ◌<◌, ◌^◌, ◌≡◌, refl, true, false, List, [], ◌∷◌, ◌++◌, Option, some, arith, ◌==◌,
}
use llir_opt.Syntax.Chars.{
  codes, is_space, is_alpha, is_digit, is_alpha_num, is_ident_start, is_ident_cont,
}
use llir_opt.Syntax.Lexer.{
  Token, comma, ident, colon, number, Lexer, char, next_char, is_ident, skip_blank, punctuation,
  lex_token, next_token,
}
use llir_opt.Syntax.Words.{is_word, all_of, next_token-is_word}
use llir_opt.Syntax.Digits.{Decimal, numbered, next_token-Decimal}
use llir_opt.Syntax.Args.{
  TypeFlag, by_val, FlaggedType, next, token_number, has_token, check, expect,
}

pub next_word :
    (name rest : List ℕ) (l : Lexer)
    → is_word name ≡ true
    → is_ident (char rest) ≡ false
    → next (record l { input = name ++ rest })
      ≡ some (record l { input = rest; token = ident; str = name; int = 0 })
unfolding next
next_word name rest l w e = rw (next, next_token-is_word name rest l w e) refl

pub next_colon :
    (rest : List ℕ) (l : Lexer)
    → next (record l { input = b':' ∷ rest })
      ≡ some (record l { input = rest; token = colon; str = []; int = 0 })
unfolding next next_token skip_blank lex_token punctuation is_space char next_char
next_colon rest l = refl

pub next_comma :
    (rest : List ℕ) (l : Lexer)
    → next (record l { input = b',' ∷ rest })
      ≡ some (record l { input = rest; token = comma; str = []; int = 0 })
unfolding next next_token skip_blank lex_token punctuation is_space char next_char
next_comma rest l = refl

pub next-Decimal :
    (decimal : ℕ → List ℕ) (n : ℕ) (rest : List ℕ) (l : Lexer)
    → Decimal decimal
    → n < 2 ^ 63
    → is_ident_cont (char rest) ≡ false
    → (str : List ℕ) × (next (record l { input = decimal n ++ rest })
        ≡ some (record l { input = rest; token = number; str = str; int = n }))
unfolding next
next-Decimal decimal n rest l d h e = elim (next_token-Decimal decimal n rest l d h e) [
  | numbered str k ↦ (str, rw (next, k) refl)
]

pub expect-next :
    (token : Token) (l l' : Lexer)
    → next l ≡ some l'
    → has_token token l' ≡ true
    → expect token l ≡ some l'
unfolding expect check
expect-next token l l' e h = rw (e, h) refl

-- A character that ends a parameter, and the token that it begins.
pub record Stops (tok : Token) (rest rest' : List ℕ) : Type 0 where
  pub ends : is_ident (char rest) ≡ false
  pub other : (token_number tok == 10) ≡ false
  pub stop :
      (l : Lexer)
      → next (record l { input = rest })
        ≡ some (record l { input = rest'; token = tok; str = []; int = 0 })

-- The fields of a flag hold its size and alignment, and the alignment is one.
abbrev pub Fits : (ℕ → Option ℕ) → TypeFlag → Type 0
Fits make_align (by_val size align) =
    (size < 2 ^ 16) × (align < 2 ^ 16) × (make_align align ≡ some align)
Fits make_align _ = Unit

abbrev pub AllFit : (ℕ → Option ℕ) → List FlaggedType → Type 0
AllFit make_align [] = Unit
AllFit make_align (p ∷ params) = Fits make_align p.flag × AllFit make_align params

pub ident-cont : (c : ℕ) → is_ident c ≡ false → is_ident_cont c ≡ false
unfolding is_ident
ident-cont c h = ground (arith, h)

pub word_sext : is_word (codes "sext") ≡ true
unfolding is_word all_of is_ident is_ident_start is_ident_cont is_alpha is_alpha_num is_digit
word_sext = refl

pub word_zext : is_word (codes "zext") ≡ true
unfolding is_word all_of is_ident is_ident_start is_ident_cont is_alpha is_alpha_num is_digit
word_zext = refl

pub word_byval : is_word (codes "byval") ≡ true
unfolding is_word all_of is_ident is_ident_start is_ident_cont is_alpha is_alpha_num is_digit
word_byval = refl

pub colon_ends : is_ident b':' ≡ false
unfolding is_ident is_ident_cont is_alpha is_alpha_num is_digit
colon_ends = refl
