-- ===== src/BitSet/Combine.antt =====
-- core/adt/bitset.h: `Union`, `Subtract`, `And` and `operator==` of `Node`.
use llir_opt.Prelude.{
  ℕ, zero, suc, ◌+◌, ◌*◌, ◌/◌, ◌%◌, ◌^◌, ◌<◌, bit_and, bit_or, ◌≡◌, ◌↔◌, refl, sym, ap, ◌∙◌, true,
  not, ◌&&◌, ◌||◌, [], ◌∷◌, length, arith, ◌==◌,
}
use llir_opt.Bits.{
  test_bit, bit_not, test_bit-bit_and, test_bit-bit_or, test_bit-bit_not, eq_of_test_bit,
  bit_and-lt, bit_or-lt, bit_not-lt,
}
use llir_opt.BitSet.Chunk.{Node, word_at, all_zero, node_union, node_subtract, node_and, same_node}
use llir_opt.BitSet.Words.{has, AllWords, IsNode, word_at-lt, has_at}

-- The loops over the words of two nodes combine them word by word.
abbrev combine : (ℕ → ℕ → ℕ) → Node → Node → Node
combine op [] _ = []
combine op (v ∷ vs) [] = v ∷ vs
combine op (v ∷ vs) (w ∷ ws) = op v w ∷ combine op vs ws

combine_words :
    (op : ℕ → ℕ → ℕ) (v w : Node) (i : ℕ)
    → length v ≡ length w
    → i < length v
    → word_at (combine op v w) i ≡ op (word_at v i) (word_at w i)
combine_words op [] w i h l = absurd (omega arith)
combine_words op (x ∷ xs) [] i h l = absurd (omega arith)
combine_words op (x ∷ xs) (y ∷ ys) zero h l = refl
combine_words op (x ∷ xs) (y ∷ ys) (suc i) h l =
    combine_words op xs ys i (omega arith) (omega arith)

combine-AllWords :
    (op : ℕ → ℕ → ℕ) (v w : Node)
    → ((x y : ℕ) → x < 2 ^ 64 → y < 2 ^ 64 → op x y < 2 ^ 64)
    → AllWords v
    → AllWords w
    → AllWords (combine op v w)
combine-AllWords op [] w f p q = tt
combine-AllWords op (x ∷ xs) [] f p q = p
combine-AllWords op (x ∷ xs) (y ∷ ys) f p q = (f x y p.0 q.0, combine-AllWords op xs ys f p.1 q.1)

length-combine : (op : ℕ → ℕ → ℕ) (v w : Node) → length (combine op v w) ≡ length v
length-combine op [] w = refl
length-combine op (x ∷ xs) [] = refl
length-combine op (x ∷ xs) (y ∷ ys) = ap suc (length-combine op xs ys)

combine-IsNode :
    (op : ℕ → ℕ → ℕ) (v w : Node)
    → ((x y : ℕ) → x < 2 ^ 64 → y < 2 ^ 64 → op x y < 2 ^ 64)
    → IsNode v
    → IsNode w
    → IsNode (combine op v w)
combine-IsNode op v w f m n = record {
  size = length-combine op v w ∙ m.size;
  words = combine-AllWords op v w f m.words n.words;
}

node_union-combine : (v w : Node) → (node_union v w).0 ≡ combine bit_or v w
unfolding node_union
node_union-combine [] w = refl
node_union-combine (x ∷ xs) [] = refl
node_union-combine (x ∷ xs) (y ∷ ys) = ap (λ r. bit_or x y ∷ r) (node_union-combine xs ys)

abbrev and_not : ℕ → ℕ → ℕ
and_not x y = bit_and x (bit_not 64 y)

node_subtract-combine :
    (v w : Node)
    → length v ≡ length w
    → ((node_subtract v w).0 ≡ combine and_not v w)
      × ((node_subtract v w).1 ≡ all_zero (combine and_not v w))
unfolding node_subtract all_zero
node_subtract-combine [] w h = (refl, refl)
node_subtract-combine (x ∷ xs) [] h = absurd (omega arith)
node_subtract-combine (x ∷ xs) (y ∷ ys) h =
    let (words, empty) = node_subtract-combine xs ys (omega arith) in
    (ap (λ r. and_not x y ∷ r) words, ap (λ b. and_not x y == 0 && b) empty)

node_and-combine :
    (v w : Node)
    → length v ≡ length w
    → ((node_and v w).0 ≡ combine bit_and v w) × ((node_and v w).1 ≡ all_zero (combine bit_and v w))
unfolding node_and all_zero
node_and-combine [] w h = (refl, refl)
node_and-combine (x ∷ xs) [] h = absurd (omega arith)
node_and-combine (x ∷ xs) (y ∷ ys) h =
    let (words, empty) = node_and-combine xs ys (omega arith) in
    (ap (λ r. bit_and x y ∷ r) words, ap (λ b. bit_and x y == 0 && b) empty)

has-combine :
    (op : ℕ → ℕ → ℕ) (v w : Node) (q : ℕ)
    → IsNode v
    → IsNode w
    → q < 512
    → has (combine op v w) q ≡ test_bit (op (word_at v (q / 64)) (word_at w (q / 64))) (q % 64)
has-combine op v w q m n h =
    ap (λ u. test_bit u (q % 64))
      (combine_words op v w (q / 64) (m.size ∙ sym n.size) (omega (arith, m.size)))

pub node_union_lem :
    (v w : Node)
    → IsNode v
    → IsNode w
    → IsNode (node_union v w).0
      × ((q : ℕ) → q < 512 → has (node_union v w).0 q ≡ (has v q || has w q))
node_union_lem v w m n = rw (node_union-combine v w) (
  combine-IsNode bit_or v w (λ x y. bit_or-lt 64 x y) m n,
  λ q h.
      has-combine bit_or v w q m n h
      ∙ test_bit-bit_or (q % 64) (word_at v (q / 64)) (word_at w (q / 64)),
)

pub node_subtract_lem :
    (v w : Node)
    → IsNode v
    → IsNode w
    → IsNode (node_subtract v w).0
      × ((node_subtract v w).1 ≡ all_zero (node_subtract v w).0)
      × ((q : ℕ) → q < 512 → has (node_subtract v w).0 q ≡ (has v q && not (has w q)))
node_subtract_lem v w m n =
    let (words, empty) = node_subtract-combine v w (m.size ∙ sym n.size) in
    rw words (
      combine-IsNode and_not v w (λ x y p q. bit_and-lt 64 x (bit_not 64 y) p (bit_not-lt 64 y)) m
          n,
      empty,
      λ q h.
          let y = word_at w (q / 64) in
          has-combine and_not v w q m n h
          ∙ test_bit-bit_and (q % 64) (word_at v (q / 64)) (bit_not 64 y)
          ∙ ap (λ b. has v q && b)
              (test_bit-bit_not 64 (q % 64) y (word_at-lt w (q / 64) n.words) (omega arith)),
    )

pub node_and_lem :
    (v w : Node)
    → IsNode v
    → IsNode w
    → IsNode (node_and v w).0
      × ((node_and v w).1 ≡ all_zero (node_and v w).0)
      × ((q : ℕ) → q < 512 → has (node_and v w).0 q ≡ (has v q && has w q))
node_and_lem v w m n =
    let (words, empty) = node_and-combine v w (m.size ∙ sym n.size) in
    rw words (
      combine-IsNode bit_and v w (λ x y. bit_and-lt 64 x y) m n,
      empty,
      λ q h.
          has-combine bit_and v w q m n h
          ∙ test_bit-bit_and (q % 64) (word_at v (q / 64)) (word_at w (q / 64)),
    )

eq_of_words :
    (v w : Node)
    → length v ≡ length w
    → ((i : ℕ) → i < length v → word_at v i ≡ word_at w i)
    → v ≡ w
eq_of_words [] [] e h = refl
eq_of_words [] (y ∷ ys) e h = absurd (omega arith)
eq_of_words (x ∷ xs) [] e h = absurd (omega arith)
eq_of_words (x ∷ xs) (y ∷ ys) e h =
    ap (λ u. u ∷ xs) (h 0 (omega arith))
    ∙ ap (λ r. y ∷ r) (eq_of_words xs ys (omega arith) (λ i l. h (suc i) (omega arith)))

-- Nodes with the same positions are the same.
pub node_ext : (v w : Node) → IsNode v → IsNode w → ((q : ℕ) → q < 512 → has v q ≡ has w q) → v ≡ w
node_ext v w m n h = eq_of_words v w (m.size ∙ sym n.size) (λ i l.
    eq_of_test_bit 64 (word_at v i) (word_at w i) (word_at-lt v i m.words) (word_at-lt w i n.words)
      (λ j k. sym (has_at v i j k) ∙ h (i * 64 + j) (omega (arith, m.size)) ∙ has_at w i j k))

pub same_node_iff : (v w : Node) → (same_node v w ≡ true) ↔ (v ≡ w)
unfolding same_node
same_node_iff [] [] = ground arith
same_node_iff [] (y ∷ ys) = ground arith
same_node_iff (x ∷ xs) [] = ground arith
same_node_iff (x ∷ xs) (y ∷ ys) = ground (arith, same_node_iff xs ys)
