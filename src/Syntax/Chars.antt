-- ===== src/Syntax/Chars.antt =====
-- core/lexer.cpp: the classes of characters.
use Prim.Native.Char.{code}
use Prim.Native.String.{String}
use llir_opt.Prelude.{
  ℕ, ◌+◌, ◌-◌, Bool, ◌&&◌, ◌||◌, List, [], ◌∷◌, Option, none, some, leb, ◌==◌, if◌then◌else◌,
}

-- The bytes of an ASCII text.
abbrev pub codes : String → List ℕ
codes String.[] = []
codes (String.◌∷◌ c s) = code c ∷ codes s

unfoldable pub is_space : ℕ → Bool
is_space chr = chr == b' ' || chr == 9 || chr == 11

unfoldable pub is_alpha : ℕ → Bool
is_alpha chr = (leb b'a' chr && leb chr b'z') || (leb b'A' chr && leb chr b'Z') || chr == b'_'

unfoldable pub is_digit : ℕ → Bool
is_digit chr = leb b'0' chr && leb chr b'9'

unfoldable pub is_octal : ℕ → Bool
is_octal chr = leb b'0' chr && leb chr b'7'

unfoldable pub is_hex : ℕ → Bool
is_hex chr =
    (leb b'0' chr && leb chr b'9')
    || (leb b'a' chr && leb chr b'f')
    || (leb b'A' chr && leb chr b'F')

-- `IsDigit` with a base, `false` standing for a base that is not there.
unfoldable pub is_digit_of : ℕ → ℕ → Bool
is_digit_of base chr =
    if base == 2
    then chr == b'0' || chr == b'1'
    else (if base == 8
        then is_octal chr
        else (if base == 10 then is_digit chr else base == 16 && is_hex chr))

unfoldable pub to_int : ℕ → Option ℕ
to_int chr =
    if leb b'0' chr && leb chr b'9'
    then some (chr - b'0')
    else (if leb b'a' chr && leb chr b'f'
        then some (chr - b'a' + 10)
        else (if leb b'A' chr && leb chr b'F' then some (chr - b'A' + 10) else none))

unfoldable pub is_alpha_num : ℕ → Bool
is_alpha_num chr = is_alpha chr || is_digit chr || chr == b'_'

unfoldable pub is_ident_start : ℕ → Bool
is_ident_start chr = is_alpha chr || chr == b'_' || chr == b'.' || chr == 1

unfoldable pub is_ident_cont : ℕ → Bool
is_ident_cont chr = is_alpha_num chr || chr == b'$' || chr == b'@'
