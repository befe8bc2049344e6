-- ===== src/BitSet/Chunk.antt =====
-- core/adt/bitset.h: `Node`, eight words of 64 bits. A position is below 512, as the set passes it;
-- a loop over the words is a recursion over them.
use llir_opt.Prelude.{
  ℕ, zero, suc, ◌+◌, ◌-◌, ◌*◌, ◌/◌, ◌^◌, bit_and, bit_or, bit_xor, Bool, true, false, not, ◌&&◌,
  List, [], ◌∷◌, get_or, set, ◌==◌, if◌then◌else◌,
}
use llir_opt.Bits.{bit_not}
use llir_opt.Bits.Scan.{ctz, clz, popcount}

abbrev pub Node : Type 0
Node = List ℕ

abbrev pub empty_node : Node
empty_node = 0 ∷ 0 ∷ 0 ∷ 0 ∷ 0 ∷ 0 ∷ 0 ∷ 0 ∷ []

abbrev pub word_at : Node → ℕ → ℕ
word_at arr i = get_or arr i 0

-- `1ull << (bit - bucket * kBitsInBucket)`
abbrev pub mask_of : ℕ → ℕ
mask_of bit = let bucket = bit / 64 in 2 ^ (bit - bucket * 64)

unfoldable pub node_insert : Node → ℕ → Node × Bool
node_insert arr bit =
    let bucket = bit / 64 in
    let val = word_at arr bucket in
    (set arr bucket (bit_or val (mask_of bit)), bit_and val (mask_of bit) == 0)

unfoldable pub node_contains : Node → ℕ → Bool
node_contains arr bit =
    let bucket = bit / 64 in not (bit_and (word_at arr bucket) (mask_of bit) == 0)

unfoldable pub all_zero : Node → Bool
all_zero [] = true
all_zero (w ∷ ws) = w == 0 && all_zero ws

unfoldable pub node_erase : Node → ℕ → Node × Bool
unfolding all_zero
node_erase arr bit =
    let bucket = bit / 64 in
    let arr' = set arr bucket (bit_and (word_at arr bucket) (bit_not 64 (mask_of bit))) in
    (arr', all_zero arr')

unfoldable pub node_size : Node → ℕ
node_size [] = 0
node_size (w ∷ ws) = popcount 64 w + node_size ws

unfoldable pub same_node : Node → Node → Bool
same_node (v ∷ vs) (w ∷ ws) = v == w && same_node vs ws
same_node [] [] = true
same_node _ _ = false

-- `Union`: the new words and the number of bits that changed.
unfoldable pub node_union : Node → Node → Node × ℕ
node_union (v ∷ vs) (w ∷ ws) =
    let (rest, changed) = node_union vs ws in
    (bit_or v w ∷ rest, popcount 64 (bit_xor v (bit_or v w)) + changed)
node_union vs _ = (vs, 0)

-- `Subtract` and `And`: the new words, and whether all are zero.
unfoldable pub node_subtract : Node → Node → Node × Bool
node_subtract (v ∷ vs) (w ∷ ws) =
    let (rest, empty) = node_subtract vs ws in
    let v' = bit_and v (bit_not 64 w) in (v' ∷ rest, v' == 0 && empty)
node_subtract vs _ = (vs, true)

unfoldable pub node_and : Node → Node → Node × Bool
node_and (v ∷ vs) (w ∷ ws) =
    let (rest, empty) = node_and vs ws in let v' = bit_and v w in (v' ∷ rest, v' == 0 && empty)
node_and vs _ = (vs, true)

-- `for (i = from; i < N; ++i) if (arr[i]) return i * kBitsInBucket + ctz(arr[i]); return 0;`, on the
-- words from `from` on.
unfoldable pub first_from : ℕ → Node → ℕ
first_from i [] = 0
first_from i (w ∷ ws) =
    let rest = first_from (suc i) ws in if w == 0 then rest else i * 64 + ctz 64 w

abbrev pub drop : ℕ → Node → Node
drop zero ws = ws
drop (suc n) [] = []
drop (suc n) (w ∷ ws) = drop n ws

unfoldable pub node_first : Node → ℕ
unfolding first_from
node_first arr = first_from 0 arr

unfoldable pub node_next : Node → ℕ → ℕ
unfolding first_from
node_next arr bit =
    let bucket = bit / 64 in
    let offset = bit - bucket * 64 in
    let mask =
      if offset + 1 == 64
      then 0
      else bit_and (word_at arr bucket) (bit_not 64 (2 ^ (offset + 1) - 1)) in
    if mask == 0 then first_from (bucket + 1) (drop (bucket + 1) arr) else bucket * 64 + ctz 64 mask

-- `for (int i = below - 1; i >= 0; --i) if (arr[i]) return (i + 1) * kBitsInBucket - clz(arr[i]) - 1;
-- return kBitsInChunk;`
unfoldable pub last_below : Node → ℕ → ℕ
last_below arr zero = 512
last_below arr (suc i) =
    let rest = last_below arr i in
    let w = word_at arr i in if w == 0 then rest else (i + 1) * 64 - clz 64 w - 1

unfoldable pub node_prev : Node → ℕ → ℕ
unfolding last_below
node_prev arr bit =
    let bucket = bit / 64 in
    let offset = bit - bucket * 64 in
    let mask = if offset == 0 then 0 else bit_and (word_at arr bucket) (2 ^ offset - 1) in
    if mask == 0 then last_below arr bucket else (bucket + 1) * 64 - clz 64 mask - 1

unfoldable pub node_last : Node → ℕ
unfolding last_below
node_last arr = last_below arr 8
