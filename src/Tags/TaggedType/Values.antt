-- ===== src/Tags/TaggedType/Values.antt =====
-- What the types mean: the values of a register that each of them allows. The regions of memory are
-- the ones that the kinds name, nested as `operator|` nests them: a code pointer is allowed wherever
-- a heap pointer is, `HEAP` and `HEAP_OFF` allow the same pointers, and so each is below the other
-- in `operator<`.
use llir_opt.Prelude.{ℕ, ◌<◌, ◌≡◌, Bool, true, false}
use llir_opt.Bits.{test_bit}
use llir_opt.Tags.MaskedType.{u64, MaskedType}
use llir_opt.Tags.MaskedType.Sound.{Matches}
use llir_opt.Tags.TaggedType.{
  TaggedType, unknown, int, func, young, heap_off, heap, addr, addr_null, addr_int, val, ptr,
  ptr_null, ptr_int, undef,
}

-- Where a pointer points: code, the young heap, the OCaml heap, an address derived from a block of
-- it, or anywhere else.
pub data Region : Type 0 where
  code young_heap ocaml_heap derived foreign : Region

pub data Value : Type 0 where
  word : ℕ → Value
  pointer : Region → Value

-- The regions allowed by each kind that is a pointer or a union with one.
abbrev pub in_young : Region → Bool
in_young code = true
in_young young_heap = true
in_young _ = false

abbrev pub in_heap : Region → Bool
in_heap ocaml_heap = true
in_heap r = in_young r

abbrev pub in_addr : Region → Bool
in_addr derived = true
in_addr r = in_heap r

abbrev pub is_code : Region → Bool
is_code code = true
is_code _ = false

-- The pointers that a type allows, by the region that they point to.
unfoldable pub allows : TaggedType → Region → Bool
allows unknown r = false
allows undef r = false
allows (int m) r = false
allows func r = is_code r
allows young r = in_young r
allows heap r = in_heap r
allows heap_off r = in_heap r
allows val r = in_heap r
allows addr r = in_addr r
allows addr_null r = in_addr r
allows addr_int r = in_addr r
allows ptr r = true
allows ptr_null r = true
allows ptr_int r = true

-- The words of `INT`.
unfoldable pub WordOf : MaskedType → ℕ → Type 0
WordOf m x = Matches m x

-- The words that a type allows: of `VAL` the odd ones, of the unions with null the zero.
unfoldable pub HasWord : TaggedType → ℕ → Type 0
HasWord (int m) x = WordOf m x
HasWord val x = (x < u64) × (test_bit x 0 ≡ true)
HasWord ptr_null x = x ≡ 0
HasWord addr_null x = x ≡ 0
HasWord ptr_int x = x < u64
HasWord addr_int x = x < u64
HasWord _ x = ⊥

-- The values that a type allows. `UNKNOWN` and `UNDEF` allow none.
unfoldable pub Has : TaggedType → Value → Type 0
unfolding allows HasWord
Has t (word x) = HasWord t x
Has t (pointer r) = allows t r ≡ true
