-- ===== src/Syntax/Names.antt =====
-- core/type.cpp, core/calling_conv.cpp, core/visibility.cpp and core/register.cpp: the names of types, calling
-- conventions, visibilities and registers as they are printed, and core/parser.cpp, which reads them.
use llir_opt.Prelude.{ℕ, Bool, true, false, List, [], ◌∷◌, Option}
use llir_opt.Sccp.Compare.{Ty, i8, i16, i32, i64, i128, v64, f32, f64, f80, f128}
use llir_opt.Syntax.Chars.{codes}
use llir_opt.Syntax.Lexer.{
  Register, sp, fs, ret_addr, x86_cr0, x86_cr2, x86_cr3, x86_cr4, x86_cs, x86_ds, x86_ss, x86_es,
  x86_fs, x86_gs, frame_addr, aarch64_fpsr, aarch64_fpcr, aarch64_cntvct, aarch64_cntfrq,
  aarch64_far, aarch64_vbar, riscv_fflags, riscv_frm, riscv_fcsr, ppc_fpscr, lookup,
}

pub data CallingConv : Type 0 where
  c caml caml_alloc caml_gc setjmp xen intr multiboot win64 : CallingConv

pub data Visibility : Type 0 where
  local global_default global_hidden weak_default weak_hidden : Visibility

unfoldable pub is_caml_call : CallingConv → Bool
is_caml_call caml = true
is_caml_call caml_alloc = true
is_caml_call caml_gc = true
is_caml_call _ = false

unfoldable pub print_type : Ty → List ℕ
print_type i8 = codes "i8"
print_type i16 = codes "i16"
print_type i32 = codes "i32"
print_type i64 = codes "i64"
print_type v64 = codes "v64"
print_type i128 = codes "i128"
print_type f32 = codes "f32"
print_type f64 = codes "f64"
print_type f80 = codes "f80"
print_type f128 = codes "f128"

unfoldable pub print_conv : CallingConv → List ℕ
print_conv c = codes "c"
print_conv caml = codes "caml"
print_conv caml_alloc = codes "caml_alloc"
print_conv caml_gc = codes "caml_gc"
print_conv setjmp = codes "setjmp"
print_conv xen = codes "xen"
print_conv intr = codes "intr"
print_conv multiboot = codes "multiboot"
print_conv win64 = codes "win64"

unfoldable pub print_visibility : Visibility → List ℕ
print_visibility local = codes "local"
print_visibility global_default = codes "global_default"
print_visibility global_hidden = codes "global_hidden"
print_visibility weak_default = codes "weak_default"
print_visibility weak_hidden = codes "weak_hidden"

-- The name of a register, behind `$`.
unfoldable pub register_name : Register → List ℕ
register_name sp = codes "sp"
register_name fs = codes "fs"
register_name ret_addr = codes "ret_addr"
register_name x86_cr0 = codes "x86_cr0"
register_name x86_cr2 = codes "x86_cr2"
register_name x86_cr3 = codes "x86_cr3"
register_name x86_cr4 = codes "x86_cr4"
register_name x86_cs = codes "x86_cs"
register_name x86_ds = codes "x86_ds"
register_name x86_ss = codes "x86_ss"
register_name x86_es = codes "x86_es"
register_name x86_fs = codes "x86_fs"
register_name x86_gs = codes "x86_gs"
register_name frame_addr = codes "frame_addr"
register_name aarch64_fpsr = codes "aarch64_fpsr"
register_name aarch64_fpcr = codes "aarch64_fpcr"
register_name aarch64_cntvct = codes "aarch64_cntvct"
register_name aarch64_cntfrq = codes "aarch64_cntfrq"
register_name aarch64_far = codes "aarch64_far"
register_name aarch64_vbar = codes "aarch64_vbar"
register_name riscv_fflags = codes "riscv_fflags"
register_name riscv_frm = codes "riscv_frm"
register_name riscv_fcsr = codes "riscv_fcsr"
register_name ppc_fpscr = codes "ppc_fpscr"

unfoldable pub print_register : Register → List ℕ
print_register r = b'$' ∷ register_name r

-- `ParseToken` of the tables, `none` being a call of `Error`.
abbrev pub types : List (List ℕ × Ty)
types =
    (codes "i8", i8)
    ∷ (codes "i16", i16)
    ∷ (codes "i32", i32)
    ∷ (codes "i64", i64)
    ∷ (codes "v64", v64)
    ∷ (codes "i128", i128)
    ∷ (codes "f32", f32)
    ∷ (codes "f64", f64)
    ∷ (codes "f80", f80)
    ∷ (codes "f128", f128)
    ∷ []

unfoldable pub parse_type : List ℕ → Option Ty
parse_type str = lookup str types

abbrev pub conventions : List (List ℕ × CallingConv)
conventions =
    (codes "c", c)
    ∷ (codes "caml", caml)
    ∷ (codes "caml_alloc", caml_alloc)
    ∷ (codes "caml_gc", caml_gc)
    ∷ (codes "setjmp", setjmp)
    ∷ (codes "xen", xen)
    ∷ (codes "intr", intr)
    ∷ (codes "multiboot", multiboot)
    ∷ (codes "win64", win64)
    ∷ []

unfoldable pub parse_calling_conv : List ℕ → Option CallingConv
parse_calling_conv str = lookup str conventions

abbrev pub visibilities : List (List ℕ × Visibility)
visibilities =
    (codes "local", local)
    ∷ (codes "global_default", global_default)
    ∷ (codes "global_hidden", global_hidden)
    ∷ (codes "weak_default", weak_default)
    ∷ (codes "weak_hidden", weak_hidden)
    ∷ []

unfoldable pub parse_visibility : List ℕ → Option Visibility
parse_visibility str = lookup str visibilities
