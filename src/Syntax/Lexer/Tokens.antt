-- ===== src/Syntax/Lexer/Tokens.antt =====
-- core/lexer.h: the tokens, the registers and the state of the lexer, and what its loops read.
use llir_opt.Prelude.{
  ℕ, Bool, true, false, ◌&&◌, List, [], ◌∷◌, Option, none, some, ◌==◌, if◌then◌else◌,
}

pub data Token : Type 0 where
  newline end lbracket rbracket lparen rparen comma reg vreg ident colon number annot string plus
        minus :
      Token

pub data Register : Type 0 where
  sp fs ret_addr frame_addr : Register
  x86_cr0 x86_cr2 x86_cr3 x86_cr4 x86_ds x86_es x86_ss x86_fs x86_gs x86_cs : Register
  aarch64_fpsr aarch64_fpcr aarch64_cntvct aarch64_cntfrq aarch64_far aarch64_vbar : Register
  riscv_fflags riscv_frm riscv_fcsr ppc_fpscr : Register

pub record Lexer : Type 0 where
  pub input : List ℕ
  pub token : Token
  pub str : List ℕ
  pub int : ℕ
  pub reg : Option Register
  pub vreg : ℕ

-- How a call ends: with a token, with a call of `Error`, or where C++ leaves undefined what happens; or
-- the fuel runs out.
pub data Outcome : Type 0 where
  lexed : Lexer → Outcome
  error undefined no_fuel : Outcome

unfoldable pub char : List ℕ → ℕ
char [] = 0
char (c ∷ cs) = c

unfoldable pub next_char : List ℕ → List ℕ
next_char [] = []
next_char (c ∷ cs) = cs

-- The characters of a class, and the rest.
unfoldable pub take_while : (ℕ → Bool) → List ℕ → List ℕ
take_while p [] = []
take_while p (c ∷ cs) = let more = take_while p cs in if p c then c ∷ more else []

unfoldable pub drop_while : (ℕ → Bool) → List ℕ → List ℕ
drop_while p [] = []
drop_while p (c ∷ cs) = let rest = drop_while p cs in if p c then rest else c ∷ cs

unfoldable pub same_text : List ℕ → List ℕ → Bool
same_text [] [] = true
same_text (a ∷ as') (b ∷ bs) = a == b && same_text as' bs
same_text _ _ = false

unfoldable pub lookup : {A : Type 0} → List ℕ → List (List ℕ × A) → Option A
lookup name [] = none
lookup name ((key, value) ∷ rest) =
    let later = lookup name rest in if same_text key name then some value else later

-- The end of `NextToken`, with the token and the characters after it.
abbrev pub finish : Token → List ℕ → Lexer → Outcome
finish token input l = lexed (record l { token = token; input = input })

abbrev pub finish_text : Token → List ℕ → List ℕ → Lexer → Outcome
finish_text token str input l = lexed (record l { token = token; str = str; input = input })
