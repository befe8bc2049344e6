-- ===== src/Syntax/Registers.antt =====
-- core/register.cpp, core/lexer.cpp: registers that are printed are read back.
use llir_opt.Prelude.{ℕ, ◌≡◌, refl, ◌∙◌, true, false, List, [], ◌∷◌, ◌++◌, some, arith}
use llir_opt.Syntax.Chars.{is_alpha, is_digit, is_alpha_num, is_ident_cont}
use llir_opt.Syntax.Lexer.{
  Register, sp, fs, ret_addr, frame_addr, x86_cr0, x86_cr2, x86_cr3, x86_cr4, x86_cs, x86_ds,
  x86_ss, x86_es, x86_fs, x86_gs, aarch64_fpsr, aarch64_fpcr, aarch64_cntvct, aarch64_cntfrq,
  aarch64_far, aarch64_vbar, riscv_fcsr, riscv_frm, riscv_fflags, ppc_fpscr, reg, Lexer, lexed,
  char, is_ident, take_while, drop_while, lookup, same_text, registers, lex_dollar, next_token,
}
use llir_opt.Syntax.Words.{all_of, take_while-append, drop_while-append, next_token-dollar}
use llir_opt.Syntax.Names.{register_name, print_register}

-- The name of a register is read behind `$`, and found in the table of the lexer.
record Registers (name : List ℕ) (r : Register) : Type 0 where
  start : is_alpha (char name) ≡ true
  word : all_of is_alpha_num name ≡ true
  found : lookup name registers ≡ some r

register_name-Registers : (r : Register) → Registers (register_name r) r
unfolding register_name lookup same_text char all_of is_alpha is_alpha_num is_digit
register_name-Registers sp = record { start = refl; word = refl; found = refl }
register_name-Registers fs = record { start = refl; word = refl; found = refl }
register_name-Registers ret_addr = record { start = refl; word = refl; found = refl }
register_name-Registers x86_cr0 = record { start = refl; word = refl; found = refl }
register_name-Registers x86_cr2 = record { start = refl; word = refl; found = refl }
register_name-Registers x86_cr3 = record { start = refl; word = refl; found = refl }
register_name-Registers x86_cr4 = record { start = refl; word = refl; found = refl }
register_name-Registers x86_cs = record { start = refl; word = refl; found = refl }
register_name-Registers x86_ds = record { start = refl; word = refl; found = refl }
register_name-Registers x86_ss = record { start = refl; word = refl; found = refl }
register_name-Registers x86_es = record { start = refl; word = refl; found = refl }
register_name-Registers x86_fs = record { start = refl; word = refl; found = refl }
register_name-Registers x86_gs = record { start = refl; word = refl; found = refl }
register_name-Registers frame_addr = record { start = refl; word = refl; found = refl }
register_name-Registers aarch64_fpsr = record { start = refl; word = refl; found = refl }
register_name-Registers aarch64_fpcr = record { start = refl; word = refl; found = refl }
register_name-Registers aarch64_cntvct = record { start = refl; word = refl; found = refl }
register_name-Registers aarch64_cntfrq = record { start = refl; word = refl; found = refl }
register_name-Registers aarch64_far = record { start = refl; word = refl; found = refl }
register_name-Registers aarch64_vbar = record { start = refl; word = refl; found = refl }
register_name-Registers riscv_fflags = record { start = refl; word = refl; found = refl }
register_name-Registers riscv_frm = record { start = refl; word = refl; found = refl }
register_name-Registers riscv_fcsr = record { start = refl; word = refl; found = refl }
register_name-Registers ppc_fpscr = record { start = refl; word = refl; found = refl }

alpha-is_digit : (c : ℕ) → is_alpha c ≡ true → is_digit c ≡ false
unfolding is_alpha is_digit
alpha-is_digit c h = ground (arith, h)

ident-is_alpha_num : (c : ℕ) → is_ident c ≡ false → is_alpha_num c ≡ false
unfolding is_ident is_ident_cont
ident-is_alpha_num c h = ground (arith, h)

empty-is_alpha : ¬ (is_alpha (char []) ≡ true)
unfolding is_alpha char
empty-is_alpha h = cc

lex_dollar-Registers :
    (name rest : List ℕ) (r : Register) (l : Lexer)
    → Registers name r
    → is_ident (char rest) ≡ false
    → lex_dollar (name ++ rest) l
      ≡ lexed (record l { input = rest; token = reg; str = name; reg = some r })
unfolding lex_dollar char
lex_dollar-Registers [] rest r l h e = absurd (empty-is_alpha h.start)
lex_dollar-Registers (c ∷ cs) rest r l h e =
    let other = ident-is_alpha_num (char rest) e in
    let word : take_while is_alpha_num (c ∷ cs ++ rest) ≡ c ∷ cs =
      take_while-append is_alpha_num (c ∷ cs) rest h.word other in
    let left : drop_while is_alpha_num (c ∷ cs ++ rest) ≡ rest =
      drop_while-append is_alpha_num (c ∷ cs) rest h.word other in
    rw (lex_dollar, alpha-is_digit c h.start, h.start, word, h.found, word, left) refl

pub next_token-print_register :
    (r : Register) (rest : List ℕ) (l : Lexer)
    → is_ident (char rest) ≡ false
    → next_token (record l { input = print_register r ++ rest })
      ≡ lexed (record l { input = rest; token = reg; str = register_name r; int = 0; reg = some r })
unfolding print_register
next_token-print_register r rest l e =
    next_token-dollar (register_name r ++ rest) l
    ∙ lex_dollar-Registers (register_name r) rest r
        (record l { input = b'$' ∷ (register_name r ++ rest); str = []; int = 0 })
        (register_name-Registers r) e
