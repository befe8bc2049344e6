-- ===== src/Syntax/Args.antt =====
-- core/type.h and core/type.cpp: types with a flag. core/printer.cpp and core/parser.cpp: the parameters of
-- a function in `.args`. The printer of numbers of LLVM and `llvm::Align`, which accepts the alignments that
-- there are, are parameters.
use llir_opt.Prelude.{
  ℕ, zero, suc, ◌^◌, ◌%◌, Bool, List, [], ◌∷◌, ◌++◌, Option, none, some, ◌==◌, ◌>>=◌, if◌then◌else◌,
}
use llir_opt.Sccp.Compare.{Ty}
use llir_opt.Syntax.Chars.{codes}
use llir_opt.Syntax.Lexer.{
  Token, newline, end, lbracket, rbracket, lparen, rparen, comma, reg, vreg, ident, colon, number,
  annot, string, plus, minus, Lexer, lexed, same_text, next_token,
}
use llir_opt.Syntax.Names.{print_type, parse_type}

-- The fields for the size and the alignment have 16 bits.
pub data TypeFlag : Type 0 where
  no_flag sext zext : TypeFlag
  by_val : ℕ → ℕ → TypeFlag

unfoldable pub get_by_val : ℕ → ℕ → TypeFlag
get_by_val size align = by_val (size % 2 ^ 16) (align % 2 ^ 16)

pub record FlaggedType : Type 0 where
  pub ty : Ty
  pub flag : TypeFlag

unfoldable pub print_flag : (ℕ → List ℕ) → TypeFlag → List ℕ
print_flag decimal no_flag = []
print_flag decimal sext = codes ":sext"
print_flag decimal zext = codes ":zext"
print_flag decimal (by_val size align) =
    codes ":byval" ++ b':' ∷ decimal size ++ b':' ∷ decimal align

unfoldable pub print_param : (ℕ → List ℕ) → FlaggedType → List ℕ
print_param decimal p = print_type p.ty ++ print_flag decimal p.flag

-- The loop over the parameters, from the second.
unfoldable pub print_more : (ℕ → List ℕ) → List FlaggedType → List ℕ
print_more decimal [] = []
print_more decimal (p ∷ params) = b',' ∷ 32 ∷ print_param decimal p ++ print_more decimal params

unfoldable pub print_params : (ℕ → List ℕ) → List FlaggedType → List ℕ
print_params decimal [] = []
print_params decimal (p ∷ params) = print_param decimal p ++ print_more decimal params

-- `NextToken`, `Check` and `Expect`, `none` being a call of `Error`.
unfoldable pub next : Lexer → Option Lexer
next l = elim (next_token l) [ lexed l' ↦ some l' | _ ↦ none ]

unfoldable pub token_number : Token → ℕ
token_number newline = 0
token_number end = 1
token_number lbracket = 2
token_number rbracket = 3
token_number lparen = 4
token_number rparen = 5
token_number comma = 6
token_number reg = 7
token_number vreg = 8
token_number ident = 9
token_number colon = 10
token_number number = 11
token_number annot = 12
token_number string = 13
token_number plus = 14
token_number minus = 15

unfoldable pub has_token : Token → Lexer → Bool
unfolding token_number
has_token token l = token_number l.token == token_number token

unfoldable pub check : Token → Lexer → Option Lexer
unfolding has_token
check token l = if has_token token l then some l else none

unfoldable pub expect : Token → Lexer → Option Lexer
expect token l = do l' ← next l; check token l'

module _ (make_align : ℕ → Option ℕ) where
  unfoldable pub parse_type_flags : Lexer → Option (Lexer × TypeFlag)
  unfolding same_text
  parse_type_flags l =
      if same_text l.str (codes "sext")
      then (do l' ← next l; some (l', sext))
      else (if same_text l.str (codes "zext")
          then (do l' ← next l; some (l', zext))
          else (if same_text l.str (codes "byval")
              then (do
                one ← expect colon l
                two ← expect number one
                three ← expect colon two
                four ← expect number three
                five ← next four
                align ← make_align (four.int % 2 ^ 32)
                some (five, get_by_val (two.int % 2 ^ 32) align))
              else none))

  -- One parameter: the lexer after it.
  unfoldable pub parse_param : Lexer → Option (Lexer × FlaggedType)
  parse_param l = do
    l' ← check ident l
    ty ← parse_type l'.str
    after ← next l'
    if has_token colon after
        then (do
          flagged ← expect ident after
          (l'', flag) ← parse_type_flags flagged
          some (l'', record { ty = ty; flag = flag }))
        else some (after, record { ty = ty; flag = no_flag })

  -- `do { ... } while (GetToken() == COMMA && NextToken() == IDENT)`, on fuel.
  unfoldable pub parse_params : ℕ → Lexer → Option (Lexer × List FlaggedType)
  parse_params zero l = none
  parse_params (suc fuel) l = do
    (l', p) ← parse_param l
    if has_token comma l'
        then (do
          after ← next l'
          if has_token ident after
              then (do (l'', params) ← parse_params fuel after; some (l'', p ∷ params))
              else some (after, p ∷ []))
        else some (l', p ∷ [])

  unfoldable pub parse_args : ℕ → Lexer → Option (Lexer × List FlaggedType)
  parse_args fuel l =
      if has_token ident l
      then (do (l', params) ← parse_params fuel l; l'' ← check newline l'; some (l'', params))
      else (do l' ← check newline l; some (l', []))
