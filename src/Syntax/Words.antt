-- ===== src/Syntax/Words.antt =====
-- core/lexer.cpp: identifiers.
use llir_opt.Prelude.{
  ℕ, ◌≡◌, refl, ap, Bool, true, false, ◌&&◌, ◌||◌, List, [], ◌∷◌, ◌++◌, none, arith, ◌==◌,
}
use llir_opt.Syntax.Chars.{is_space, is_alpha, is_ident_start}
use llir_opt.Syntax.Lexer.{
  lex_dollar, Lexer, lexed, ident, char, next_char, take_while, drop_while, is_ident, skip_blank,
  punctuation, lex_ident, lex_token, next_token,
}

-- Whether all characters of a text are of a class, and what the loop over that class reads.
unfoldable pub all_of : (ℕ → Bool) → List ℕ → Bool
all_of p [] = true
all_of p (c ∷ cs) = p c && all_of p cs

pub take_while-append :
    (p : ℕ → Bool) (cs rest : List ℕ)
    → all_of p cs ≡ true
    → p (char rest) ≡ false
    → take_while p (cs ++ rest) ≡ cs
unfolding all_of take_while char
take_while-append p [] [] h e = refl
take_while-append p [] (r ∷ rest) h e = rw e refl
take_while-append p (c ∷ cs) rest h e =
    let first : p c ≡ true = ground (arith, h) in
    let others : all_of p cs ≡ true = ground (arith, h) in
    rw first (ap (λ text. c ∷ text) (take_while-append p cs rest others e))

pub drop_while-append :
    (p : ℕ → Bool) (cs rest : List ℕ)
    → all_of p cs ≡ true
    → p (char rest) ≡ false
    → drop_while p (cs ++ rest) ≡ rest
unfolding all_of drop_while char
drop_while-append p [] [] h e = refl
drop_while-append p [] (r ∷ rest) h e = rw e refl
drop_while-append p (c ∷ cs) rest h e =
    let first : p c ≡ true = ground (arith, h) in
    let others : all_of p cs ≡ true = ground (arith, h) in
    rw first (drop_while-append p cs rest others e)

-- Whether the lexer reads a text as one identifier.
unfoldable pub is_word : List ℕ → Bool
is_word [] = false
is_word (c ∷ cs) = is_ident_start c && all_of is_ident cs

pub start-is_space :
    (c : ℕ) → is_ident_start c ≡ true → (is_space c || c == 10 || c == b'#') ≡ false
unfolding is_ident_start is_alpha is_space
start-is_space c h = ground (arith, h)

pub start-punctuation :
    (c : ℕ)
    → is_ident_start c ≡ true
    → (punctuation c ≡ none)
      × ((c == 0) ≡ false)
      × ((c == b'$') ≡ false)
      × ((c == b'@') ≡ false)
      × ((c == 34) ≡ false)
unfolding is_ident_start is_alpha punctuation
start-punctuation c h = ground (arith, h)

-- The lexer reads an identifier up to a character that does not belong to it.
pub next_token-is_word :
    (name rest : List ℕ) (l : Lexer)
    → is_word name ≡ true
    → is_ident (char rest) ≡ false
    → next_token (record l { input = name ++ rest })
      ≡ lexed (record l { input = rest; token = ident; str = name; int = 0 })
unfolding is_word char next_char next_token skip_blank lex_token lex_ident
next_token-is_word [] rest l h e = cc
next_token-is_word (c ∷ cs) rest l h e =
    let first : is_ident_start c ≡ true = ground (arith, h) in
    let others : all_of is_ident cs ≡ true = ground (arith, h) in
    let plain = start-is_space c first in
    let (other, nonzero, dollar, at, quote) = start-punctuation c first in
    rw
      (
        next_token,
        skip_blank,
        plain,
        lex_token,
        nonzero,
        other,
        dollar,
        at,
        quote,
        first,
        lex_ident,
        take_while-append is_ident cs rest others e,
        drop_while-append is_ident cs rest others e,
      )
      refl

-- A text that begins with `$` is a register.
pub next_token-dollar :
    (text : List ℕ) (l : Lexer)
    → next_token (record l { input = b'$' ∷ text })
      ≡ lex_dollar text (record l { input = b'$' ∷ text; str = []; int = 0 })
unfolding next_token skip_blank lex_token punctuation is_space char next_char
next_token-dollar text l = refl
