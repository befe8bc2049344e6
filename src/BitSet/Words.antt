-- ===== src/BitSet/Words.antt =====
-- core/adt/bitset.h: which positions are in a node, and what the operations of `Node` do to them.
use llir_opt.Prelude.{
  ℕ, zero, suc, ◌+◌, ◌-◌, ◌*◌, ◌/◌, ◌%◌, ◌^◌, ◌<◌, bit_and, bit_or, ◌≡◌, refl, sym, ap, ◌∙◌, inl,
  inr, Bool, true, false, not, ◌&&◌, ◌||◌, [], ◌∷◌, length, length-set, set, arith, ◌==◌,
  if◌then◌else◌, Bool-cases,
}
use llir_opt.Bits.{
  test_bit, bit_not, test_bit-bit_and, test_bit-bit_or, test_bit-bit_not, test_bit-zero,
  eq_of_test_bit, bit_and-lt, bit_or-lt, bit_not-lt,
}
use llir_opt.Bits.Scan.{test_bit-pow, pow-lt}
use llir_opt.BitSet.Chunk.{
  Node, empty_node, word_at, mask_of, node_insert, node_contains, all_zero, node_erase,
}

-- A position that is in the node.
abbrev pub has : Node → ℕ → Bool
has arr p = test_bit (word_at arr (p / 64)) (p % 64)

abbrev pub AllWords : Node → Type 0
AllWords [] = Unit
AllWords (w ∷ ws) = (w < 2 ^ 64) × AllWords ws

pub record IsNode (arr : Node) : Type 0 where
  pub size : length arr ≡ 8
  pub words : AllWords arr

pub word_at-lt : (arr : Node) (i : ℕ) → AllWords arr → word_at arr i < 2 ^ 64
word_at-lt [] i h = omega arith
word_at-lt (w ∷ ws) zero h = h.0
word_at-lt (w ∷ ws) (suc i) h = word_at-lt ws i h.1

word_at-set :
    (arr : Node) (i j v : ℕ)
    → i < length arr
    → word_at (set arr i v) j ≡ (if j == i then v else word_at arr j)
word_at-set [] i j v h = elim h [ ]
word_at-set (w ∷ ws) zero zero v h = refl
word_at-set (w ∷ ws) zero (suc j) v h = ground arith
word_at-set (w ∷ ws) (suc i) zero v h = ground arith
word_at-set (w ∷ ws) (suc i) (suc j) v h = ground (arith, word_at-set ws i j v (omega arith))

AllWords-set : (arr : Node) (i v : ℕ) → v < 2 ^ 64 → AllWords arr → AllWords (set arr i v)
AllWords-set [] i v l h = tt
AllWords-set (w ∷ ws) zero v l h = (l, h.1)
AllWords-set (w ∷ ws) (suc i) v l h = (h.0, AllWords-set ws i v l h.1)

pub set-IsNode : (arr : Node) (i v : ℕ) → v < 2 ^ 64 → IsNode arr → IsNode (set arr i v)
set-IsNode arr i v l n = record {
  size = length-set arr i v ∙ n.size;
  words = AllWords-set arr i v l n.words;
}

pub empty_node-IsNode : IsNode empty_node
empty_node-IsNode = record {
  size = refl;
  words = let z : 0 < 2 ^ 64 = omega arith in (z, (z, (z, (z, (z, (z, (z, (z, tt))))))));
}

word_at_zero : (arr : Node) (i : ℕ) → all_zero arr ≡ true → word_at arr i ≡ 0
unfolding all_zero
word_at_zero [] i h = refl
word_at_zero (w ∷ ws) zero h = ground arith
word_at_zero (w ∷ ws) (suc i) h = word_at_zero ws i (ground arith)

pub has-empty : (p : ℕ) → has empty_node p ≡ false
unfolding all_zero
has-empty p = rw (word_at_zero empty_node (p / 64) refl) (test_bit-zero (p % 64))

-- The mask of a position is the bit of its word.
mask_of-bit : (p i : ℕ) → test_bit (mask_of p) i ≡ (i == p % 64)
mask_of-bit p i = let e : p - p / 64 * 64 ≡ p % 64 = omega arith in rw e (test_bit-pow (p % 64) i)

mask_of-lt : (p : ℕ) → mask_of p < 2 ^ 64
mask_of-lt p = pow-lt 64 (p - p / 64 * 64) (omega arith)

-- A word and a bit have nothing in common exactly where the word lacks the bit.
bit_and-mask_of : (w p : ℕ) → w < 2 ^ 64 → (bit_and w (mask_of p) == 0) ≡ not (test_bit w (p % 64))
bit_and-mask_of w p h = elim (Bool-cases (test_bit w (p % 64))) [
  | inr e ↦
      let none_left : bit_and w (mask_of p) ≡ 0 =
        eq_of_test_bit 64 _ 0 (bit_and-lt 64 _ _ h (mask_of-lt p)) (omega arith) (λ i l.
          ground (arith, test_bit-bit_and i w (mask_of p), mask_of-bit p i, test_bit-zero i)) in
      ground arith
  | inl e ↦ ground (
    arith,
    test_bit-bit_and (p % 64) w (mask_of p),
    mask_of-bit p (p % 64),
    λ (z : bit_and w (mask_of p) ≡ 0). ap (λ u. test_bit u (p % 64)) z,
    test_bit-zero (p % 64),
  )
]

pub node_contains_lem : (arr : Node) (p : ℕ) → IsNode arr → node_contains arr p ≡ has arr p
unfolding node_contains
node_contains_lem arr p n =
    ground (arith, bit_and-mask_of (word_at arr (p / 64)) p (word_at-lt arr (p / 64) n.words))

-- Positions are the same exactly where word and bit are.
same_position : (p q : ℕ) → (q == p) ≡ ((q / 64 == p / 64) && (q % 64 == p % 64))
same_position p q = ground arith

pub node_insert_lem :
    (arr : Node) (p : ℕ)
    → IsNode arr
    → p < 512
    → IsNode (node_insert arr p).0
      × ((node_insert arr p).1 ≡ not (has arr p))
      × ((q : ℕ) → has (node_insert arr p).0 q ≡ (q == p || has arr q))
unfolding node_insert
node_insert_lem arr p n h =
    let w = word_at arr (p / 64) in
    let small = word_at-lt arr (p / 64) n.words in
    (
      set-IsNode arr (p / 64) (bit_or w (mask_of p))
          (bit_or-lt 64 w (mask_of p) small (mask_of-lt p)) n,
      bit_and-mask_of w p small,
      λ q. ground (
        arith,
        n.size,
        word_at-set arr (p / 64) (q / 64) (bit_or w (mask_of p)) (omega (arith, n.size)),
        test_bit-bit_or (q % 64) w (mask_of p),
        mask_of-bit p (q % 64),
        same_position p q,
      ),
    )

-- Reading the words position by position says whether all are zero.
pub has-all_zero : (arr : Node) (p : ℕ) → all_zero arr ≡ true → has arr p ≡ false
has-all_zero arr p h = rw (word_at_zero arr (p / 64) h) (test_bit-zero (p % 64))

all_zero_of_words :
    (arr : Node) → ((i : ℕ) → i < length arr → word_at arr i ≡ 0) → all_zero arr ≡ true
unfolding all_zero
all_zero_of_words [] h = refl
all_zero_of_words (w ∷ ws) h =
    ground (arith, h 0 (omega arith), all_zero_of_words ws (λ i l. h (suc i) (omega arith)))

-- A position by word and bit.
pub has_at : (arr : Node) (i j : ℕ) → j < 64 → has arr (i * 64 + j) ≡ test_bit (word_at arr i) j
has_at arr i j h =
    let word : (i * 64 + j) / 64 ≡ i = omega arith in
    let bit : (i * 64 + j) % 64 ≡ j = omega arith in rw (word, bit) refl

pub all_zero_of_has :
    (arr : Node) → IsNode arr → ((p : ℕ) → p < 512 → has arr p ≡ false) → all_zero arr ≡ true
all_zero_of_has arr n h = all_zero_of_words arr (λ i l.
    eq_of_test_bit 64 (word_at arr i) 0 (word_at-lt arr i n.words) (omega arith) (λ j k.
      sym (has_at arr i j k) ∙ h (i * 64 + j) (omega (arith, n.size)) ∙ sym (test_bit-zero j)))

pub node_erase_lem :
    (arr : Node) (p : ℕ)
    → IsNode arr
    → p < 512
    → IsNode (node_erase arr p).0
      × ((node_erase arr p).1 ≡ all_zero (node_erase arr p).0)
      × ((q : ℕ) → has (node_erase arr p).0 q ≡ (not (q == p) && has arr q))
unfolding node_erase
node_erase_lem arr p n h =
    let w = word_at arr (p / 64) in
    let small = word_at-lt arr (p / 64) n.words in
    let w' = bit_and w (bit_not 64 (mask_of p)) in
    (
      set-IsNode arr (p / 64) w' (bit_and-lt 64 _ _ small (bit_not-lt 64 (mask_of p))) n,
      refl,
      λ q. ground (
        arith,
        word_at-set arr (p / 64) (q / 64) w' (omega (arith, n.size)),
        test_bit-bit_and (q % 64) w (bit_not 64 (mask_of p)),
        test_bit-bit_not 64 (q % 64) (mask_of p) (mask_of-lt p) (omega arith),
        mask_of-bit p (q % 64),
        same_position p q,
      ),
    )
