-- ===== src/Syntax/RoundTrip.antt =====
-- core/parser.cpp: names that are printed are read back.
use llir_opt.Prelude.{ℕ, ◌≡◌, refl, true, false, List, ◌++◌, Option, none, some, ◌>>=◌}
use llir_opt.Sccp.Compare.{Ty, i8, i16, i32, i64, i128, v64, f32, f64, f80, f128}
use llir_opt.Syntax.Chars.{is_alpha, is_digit, is_alpha_num, is_ident_start, is_ident_cont}
use llir_opt.Syntax.Registers.{next_token-print_register}
use llir_opt.Syntax.Lexer.{
  Register, reg, Lexer, Outcome, lexed, char, is_ident, lookup, same_text, next_token,
}
use llir_opt.Syntax.Words.{is_word, all_of, next_token-is_word}
use llir_opt.Syntax.Names.{
  CallingConv, c, caml, caml_alloc, caml_gc, setjmp, xen, intr, multiboot, win64, Visibility, local,
  global_default, global_hidden, weak_default, weak_hidden, print_type, print_conv,
  print_visibility, register_name, print_register, parse_type, parse_calling_conv, parse_visibility,
}

-- A name is read as an identifier, and found in the table that the parser looks it up in.
pub record Reads {A : Type 0} (name : List ℕ) (parse : List ℕ → Option A) (value : A) : Type 0 where
  pub word : is_word name ≡ true
  pub found : parse name ≡ some value

pub type-Reads : (ty : Ty) → Reads (print_type ty) parse_type ty
unfolding print_type parse_type lookup same_text is_word all_of is_ident is_ident_start
    is_ident_cont is_alpha is_alpha_num is_digit
type-Reads i8 = record { word = refl; found = refl }
type-Reads i16 = record { word = refl; found = refl }
type-Reads i32 = record { word = refl; found = refl }
type-Reads i64 = record { word = refl; found = refl }
type-Reads i128 = record { word = refl; found = refl }
type-Reads v64 = record { word = refl; found = refl }
type-Reads f32 = record { word = refl; found = refl }
type-Reads f64 = record { word = refl; found = refl }
type-Reads f80 = record { word = refl; found = refl }
type-Reads f128 = record { word = refl; found = refl }

conv-Reads : (conv : CallingConv) → Reads (print_conv conv) parse_calling_conv conv
unfolding print_conv parse_calling_conv lookup same_text is_word all_of is_ident is_ident_start
    is_ident_cont is_alpha is_alpha_num is_digit
conv-Reads c = record { word = refl; found = refl }
conv-Reads caml = record { word = refl; found = refl }
conv-Reads caml_alloc = record { word = refl; found = refl }
conv-Reads caml_gc = record { word = refl; found = refl }
conv-Reads setjmp = record { word = refl; found = refl }
conv-Reads xen = record { word = refl; found = refl }
conv-Reads intr = record { word = refl; found = refl }
conv-Reads multiboot = record { word = refl; found = refl }
conv-Reads win64 = record { word = refl; found = refl }

visibility-Reads : (v : Visibility) → Reads (print_visibility v) parse_visibility v
unfolding print_visibility parse_visibility lookup same_text is_word all_of is_ident is_ident_start
    is_ident_cont is_alpha is_alpha_num is_digit
visibility-Reads local = record { word = refl; found = refl }
visibility-Reads global_default = record { word = refl; found = refl }
visibility-Reads global_hidden = record { word = refl; found = refl }
visibility-Reads weak_default = record { word = refl; found = refl }
visibility-Reads weak_hidden = record { word = refl; found = refl }

-- What the lexer reads of a text, as the name that the parser looks up, and where it stops.
unfoldable pub read_name : {A : Type 0} → (List ℕ → Option A) → Outcome → Option (A × List ℕ)
read_name parse (lexed l) = do value ← parse l.str; some (value, l.input)
read_name parse _ = none

Reads-read_name :
    {A : Type 0} (name rest : List ℕ) (parse : List ℕ → Option A) (value : A) (l : Lexer)
    → Reads name parse value
    → is_ident (char rest) ≡ false
    → read_name parse (next_token (record l { input = name ++ rest })) ≡ some (value, rest)
unfolding read_name
Reads-read_name name rest parse value l h e =
    rw (next_token-is_word name rest l h.word e, h.found) refl

-- The names of types, calling conventions, visibilities and registers are read back as they were printed,
-- before any character that does not belong to an identifier.
pub read_name-print :
    (ty : Ty) (conv : CallingConv) (v : Visibility) (r : Register) (rest : List ℕ) (l : Lexer)
    → is_ident (char rest) ≡ false
    → (read_name parse_type (next_token (record l { input = print_type ty ++ rest }))
        ≡ some (ty, rest))
      × (read_name parse_calling_conv (next_token (record l { input = print_conv conv ++ rest }))
          ≡ some (conv, rest))
      × (read_name parse_visibility (next_token (record l { input = print_visibility v ++ rest }))
          ≡ some (v, rest))
      × (next_token (record l { input = print_register r ++ rest })
          ≡ lexed (record l {
            input = rest;
            token = reg;
            str = register_name r;
            int = 0;
            reg = some r;
          }))
read_name-print ty conv v r rest l e = (
  Reads-read_name (print_type ty) rest parse_type ty l (type-Reads ty) e,
  Reads-read_name (print_conv conv) rest parse_calling_conv conv l (conv-Reads conv) e,
  Reads-read_name (print_visibility v) rest parse_visibility v l (visibility-Reads v) e,
  next_token-print_register r rest l e,
)
