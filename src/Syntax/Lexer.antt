-- ===== src/Syntax/Lexer.antt =====
-- core/lexer.cpp: `Lexer`. The characters that are left begin with the current one; past the last one the
-- current character is 0 and stays. The row and the column, which only messages show, are left out.
mod Tokens
unfoldable pub use Tokens.*
use llir_opt.Prelude.{
  ℕ, zero, suc, ◌+◌, ◌-◌, ◌*◌, ◌^◌, ◌%◌, Bool, true, false, ◌&&◌, ◌||◌, List, [], ◌∷◌, ◌++◌, Option,
  none, some, length, ltb, ◌==◌, if◌then◌else◌, ◌>>=◌,
}
use llir_opt.Syntax.Chars.{
  codes, is_space, is_alpha, is_digit, is_octal, is_digit_of, to_int, is_alpha_num, is_ident_start,
  is_ident_cont,
}

-- Spaces, newlines and comments, on fuel: the rest, and whether there was a newline.
unfoldable pub skip_comment : ℕ → List ℕ → Option (List ℕ)
skip_comment zero input = none
skip_comment (suc fuel) input =
    let rest = skip_comment fuel (next_char input) in
    if char (next_char input) == 10 then some (next_char input) else rest

unfoldable pub skip_blank : ℕ → List ℕ → Bool → Option (List ℕ × Bool)
skip_blank zero input broken = none
skip_blank (suc fuel) input broken =
    let found = char (drop_while is_space input) in
    if is_space (char input) || char input == 10 || char input == b'#'
    then (do
      rest ←
          (if found == b'#'
            then skip_comment (suc (length input)) (drop_while is_space input)
            else some (drop_while is_space input))
      elim (char rest == 10) [
        | true ↦ skip_blank fuel (next_char rest) true
        | false ↦ skip_blank fuel rest broken
      ])
    else some (input, broken)

-- `$`
abbrev pub registers : List (List ℕ × Register)
registers =
    (codes "sp", sp)
    ∷ (codes "fs", fs)
    ∷ (codes "ret_addr", ret_addr)
    ∷ (codes "frame_addr", frame_addr)
    ∷ (codes "x86_cr0", x86_cr0)
    ∷ (codes "x86_cr2", x86_cr2)
    ∷ (codes "x86_cr3", x86_cr3)
    ∷ (codes "x86_cr4", x86_cr4)
    ∷ (codes "x86_cs", x86_cs)
    ∷ (codes "x86_ds", x86_ds)
    ∷ (codes "x86_ss", x86_ss)
    ∷ (codes "x86_es", x86_es)
    ∷ (codes "x86_fs", x86_fs)
    ∷ (codes "x86_gs", x86_gs)
    ∷ (codes "aarch64_fpsr", aarch64_fpsr)
    ∷ (codes "aarch64_fpcr", aarch64_fpcr)
    ∷ (codes "aarch64_cntvct", aarch64_cntvct)
    ∷ (codes "aarch64_cntfrq", aarch64_cntfrq)
    ∷ (codes "aarch64_far", aarch64_far)
    ∷ (codes "aarch64_vbar", aarch64_vbar)
    ∷ (codes "riscv_fcsr", riscv_fcsr)
    ∷ (codes "riscv_frm", riscv_frm)
    ∷ (codes "riscv_fflags", riscv_fflags)
    ∷ (codes "ppc_fpscr", ppc_fpscr)
    ∷ []

unfoldable pub vreg_value : ℕ → List ℕ → ℕ
vreg_value n [] = n
vreg_value n (c ∷ cs) =
    let rest = vreg_value ((n * 10 + (c - b'0')) % 2 ^ 64) cs in if is_digit c then rest else n

unfoldable pub lex_dollar : List ℕ → Lexer → Outcome
lex_dollar input l =
    if is_digit (char input)
    then lexed
        (record l { token = vreg; vreg = vreg_value 0 input; input = drop_while is_digit input })
    else (if is_alpha (char input)
        then elim (lookup (take_while is_alpha_num input) registers) [
          | none ↦ error
          | some r ↦ lexed (record l {
            token = reg;
            reg = some r;
            str = take_while is_alpha_num input;
            input = drop_while is_alpha_num input;
          })
        ]
        else error)

-- `@`
unfoldable pub is_annot : ℕ → Bool
is_annot c = is_alpha_num c || c == b'.'

unfoldable pub lex_annot : List ℕ → Lexer → Outcome
lex_annot input l =
    if is_alpha_num (char input)
    then finish_text annot (take_while is_annot input) (drop_while is_annot input) l
    else error

-- The escapes of a string: the character of a letter, and up to three octal digits.
unfoldable pub escape : ℕ → Option ℕ
escape c =
    if c == b'b'
    then some 8
    else (if c == b'f'
        then some 12
        else (if c == b'n'
            then some 10
            else (if c == b'r'
                then some 13
                else (if c == b't'
                    then some 9
                    else (if c == 92 then some 92 else (if c == 34 then some 34 else none))))))

unfoldable pub octal : ℕ → ℕ → List ℕ → ℕ × List ℕ
octal zero chr input = (chr, input)
octal (suc n) chr input =
    let next = chr * 8 + char input - b'0' in
    let rest = octal n next (next_char input) in
    if is_octal (char input) then (if ltb 256 next then (chr, input) else rest) else (chr, input)

-- The loop over a string. It does not end where the quote is missing.
unfoldable pub lex_string : ℕ → List ℕ → List ℕ → Lexer → Outcome
lex_string zero str input l = no_fuel
lex_string (suc fuel) str input l = elim (char input == 34) [
  | true ↦ finish_text string str (next_char input) l
  | false ↦ elim (char input == 92) [
    | false ↦ lex_string fuel (str ++ char input ∷ []) (next_char input) l
    | true ↦ elim (escape (char (next_char input))) [
      | some c ↦ lex_string fuel (str ++ c ∷ []) (next_char (next_char input)) l
      | none ↦ elim (is_octal (char (next_char input))) [
        | false ↦ error
        | true ↦
            let read = octal 3 0 (next_char input) in
            lex_string fuel (str ++ read.0 % 256 ∷ []) (read.1) l
      ]
    ]
  ]
]

-- Identifiers.
unfoldable pub is_ident : ℕ → Bool
is_ident c = is_ident_cont c || c == b'.'

unfoldable pub lex_ident : List ℕ → Lexer → Outcome
lex_ident input l =
    finish_text ident (char input ∷ take_while is_ident (next_char input))
      (drop_while is_ident (next_char input)) l

-- The body of a number: a loop that reads a digit before it tests for the next, on fuel. Overflow of the
-- signed value is undefined.
unfoldable pub lex_digits : ℕ → ℕ → List ℕ → ℕ → List ℕ → Lexer → Outcome
lex_digits zero base str int input l = no_fuel
lex_digits (suc fuel) base str int input l = elim (to_int (char input)) [
  | none ↦ undefined
  | some digit ↦
      let value = int * base + digit in
      let str' = str ++ char input ∷ [] in
      let rest = next_char input in
      elim (ltb value (2 ^ 63)) [
        | false ↦ undefined
        | true ↦ elim (is_digit_of base (char rest)) [
          | true ↦ lex_digits fuel base str' value rest l
          | false ↦ elim (is_ident_cont (char rest)) [
            | true ↦ lexed (record l {
              token = ident;
              str = str' ++ take_while is_ident rest;
              int = value;
              input = drop_while is_ident rest;
            })
            | false ↦ lexed (record l { token = number; str = str'; int = value; input = rest })
          ]
        ]
      ]
]

unfoldable pub lex_number : List ℕ → Lexer → Outcome
lex_number input l =
    let second = char (next_char input) in
    let prefix = char input ∷ second ∷ [] in
    let body = next_char (next_char input) in
    let fuel = suc (length input) in
    if char input == b'0'
    then (if second == b'x'
        then lex_digits fuel 16 prefix 0 body l
        else (if second == b'b'
            then lex_digits fuel 2 prefix 0 body l
            else (if second == b'o'
                then lex_digits fuel 8 prefix 0 body l
                else (if is_digit second
                    then error
                    else finish_text number prefix (next_char input) l))))
    else lex_digits fuel 10 [] 0 input l

-- The characters that are tokens.
unfoldable pub punctuation : ℕ → Option Token
punctuation c =
    if c == b'['
    then some lbracket
    else (if c == b']'
        then some rbracket
        else (if c == b'('
            then some lparen
            else (if c == b')'
                then some rparen
                else (if c == b','
                    then some comma
                    else (if c == b'+'
                        then some plus
                        else (if c == b'-'
                            then some minus
                            else (if c == b':'
                                then some colon
                                else (if c == b';' then some newline else none))))))))

-- `switch (char_)`
unfoldable pub lex_token : List ℕ → Lexer → Outcome
lex_token input l =
    if char input == 0 then finish end input l else (elim (punctuation (char input)) [
      | some token ↦ finish token (next_char input) l
      | none ↦
          if char input == b'$'
          then lex_dollar (next_char input) l
          else (if char input == b'@'
              then lex_annot (next_char input) l
              else (if char input == 34
                  then lex_string (suc (length input)) [] (next_char input) l
                  else (if is_ident_start (char input)
                      then lex_ident input l
                      else (if is_digit (char input) then lex_number input l else error))))
    ])

unfoldable pub next_token : Lexer → Outcome
next_token l = elim (skip_blank (suc (length l.input)) l.input false) [
  | none ↦ no_fuel
  | some (input, newlines) ↦
      let l' : Lexer = record l { str = []; int = 0 } in
      if newlines then finish newline input l' else lex_token input l'
]
