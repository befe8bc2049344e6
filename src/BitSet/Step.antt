-- ===== src/BitSet/Step.antt =====
-- core/adt/bitset.h: `Next` and `Prev` of `Node` find the nearest position past another one.
use mathlib.Core.Path.{subst}
use llir_opt.Prelude.{
  ℕ, zero, suc, ◌+◌, ◌-◌, ◌*◌, ◌/◌, ◌%◌, ◌^◌, ◌<◌, ◌≤◌, bit_and, ◌≡◌, refl, sym, ap, ◌∙◌, inl, inr,
  Bool, true, ◌&&◌, [], ◌∷◌, length, arith, ltb, ◌==◌, if◌then◌else◌, Bool-cases,
}
use llir_opt.Bits.{
  test_bit, bit_not, test_bit-bit_and, test_bit-bit_not, test_bit-zero, bit_and-lt, bit_not-lt,
}
use llir_opt.Bits.Scan.{pow-lt, test_bit-low, ctz, clz}
use llir_opt.BitSet.Chunk.{Node, word_at, first_from, drop, node_next, last_below, node_prev}
use llir_opt.BitSet.Words.{has, AllWords, IsNode, word_at-lt, has_at}
use llir_opt.BitSet.Extremes.{
  Greatest, NoneIn, FoundUp, FoundDown, up_past, down_past, Least-extend, Greatest-weaken,
}
use llir_opt.BitSet.Scan.{word_up, word_none, word_down, first_from_lem, last_below_lem}

word_at-drop : (arr : Node) (n i : ℕ) → word_at (drop n arr) i ≡ word_at arr (n + i)
word_at-drop arr zero i = ap (word_at arr) (omega arith)
word_at-drop [] (suc n) i = refl
word_at-drop (w ∷ ws) (suc n) i =
    let shift : suc n + i ≡ suc (n + i) = omega arith in word_at-drop ws n i ∙ rw shift refl

AllWords-drop : (arr : Node) (n : ℕ) → AllWords arr → AllWords (drop n arr)
AllWords-drop arr zero h = h
AllWords-drop [] (suc n) h = tt
AllWords-drop (w ∷ ws) (suc n) h = AllWords-drop ws n h.1

length-drop : (arr : Node) (n : ℕ) → length (drop n arr) ≡ length arr - n
length-drop arr zero = omega arith
length-drop [] (suc n) = omega arith
length-drop (w ∷ ws) (suc n) = omega (arith, length-drop ws n)

has-drop : (arr : Node) (n p : ℕ) → has (drop n arr) p ≡ has arr (n * 64 + p)
has-drop arr n p =
    let word : (n * 64 + p) / 64 ≡ n + p / 64 = omega arith in
    let bit : (n * 64 + p) % 64 ≡ p % 64 = omega arith in
    ap (λ u. test_bit u (p % 64)) (word_at-drop arr n (p / 64)) ∙ rw (word, bit) refl

-- The positions of a node past `bit`, and those before it.
abbrev later : Node → ℕ → ℕ → Bool
later arr bit p = has arr p && ltb bit p

abbrev earlier : Node → ℕ → ℕ → Bool
earlier arr bit p = has arr p && ltb p bit

-- The bits of a word above `o`, and those below.
abbrev above_mask : ℕ → ℕ → ℕ
above_mask w o = if o + 1 == 64 then 0 else bit_and w (bit_not 64 (2 ^ (o + 1) - 1))

abbrev below_mask : ℕ → ℕ → ℕ
below_mask w o = if o == 0 then 0 else bit_and w (2 ^ o - 1)

low-lt : (o : ℕ) → o < 64 → 2 ^ o - 1 < 2 ^ 64
low-lt o h = omega (arith, pow-lt 64 o h)

above_mask-bit :
    (w o j : ℕ) → o < 64 → j < 64 → test_bit (above_mask w o) j ≡ (test_bit w j && ltb o j)
above_mask-bit w o j h k = elim (Bool-cases (o + 1 == 64)) [
  | inl e ↦ rw e (test_bit-zero j ∙ ground arith)
  | inr e ↦
      let low = low-lt (o + 1) (ground arith) in
      rw e (
        ground (
          arith,
          test_bit-bit_and j w (bit_not 64 (2 ^ (o + 1) - 1)),
          test_bit-bit_not 64 j (2 ^ (o + 1) - 1) low k,
          test_bit-low (o + 1) j,
        ))
]

below_mask-bit : (w o j : ℕ) → test_bit (below_mask w o) j ≡ (test_bit w j && ltb j o)
below_mask-bit w o j = elim (Bool-cases (o == 0)) [
  | inl e ↦ rw e (test_bit-zero j ∙ ground arith)
  | inr e ↦ rw e (ground (arith, test_bit-bit_and j w (2 ^ o - 1), test_bit-low o j))
]

above_mask-lt : (w o : ℕ) → w < 2 ^ 64 → above_mask w o < 2 ^ 64
above_mask-lt w o h = elim (Bool-cases (o + 1 == 64)) [
  | inl e ↦ rw e (omega arith)
  | inr e ↦
      rw e (bit_and-lt 64 w (bit_not 64 (2 ^ (o + 1) - 1)) h (bit_not-lt 64 (2 ^ (o + 1) - 1)))
]

below_mask-lt : (w o : ℕ) → w < 2 ^ 64 → o < 64 → below_mask w o < 2 ^ 64
below_mask-lt w o h k = elim (Bool-cases (o == 0)) [
  | inl e ↦ rw e (omega arith)
  | inr e ↦ rw e (bit_and-lt 64 w (2 ^ o - 1) h (low-lt o k))
]

later_up :
    (arr : Node) (bit lo r : ℕ)
    → lo ≤ suc bit
    → FoundUp (later arr bit) lo 512 r
    → FoundUp (has arr) (suc bit) 512 r
later_up arr bit lo r l (inl h) = inl (record {
  above = ground (arith, h.holds);
  below = h.below;
  holds = ground (arith, h.holds);
  first = λ p a b. ground (arith, h.first p (omega arith) b);
})
later_up arr bit lo r l (inr h) = inr (h.0, λ p a b. ground (arith, h.1 p (omega arith) b))

earlier_down :
    (arr : Node) (bit hi r : ℕ)
    → bit ≤ hi
    → FoundDown (earlier arr bit) 0 hi r
    → FoundDown (has arr) 0 bit r
earlier_down arr bit hi r l (inl h) = inl (record {
  above = omega arith;
  below = ground (arith, h.holds);
  holds = ground (arith, h.holds);
  last = λ p a b. ground (arith, h.last p a (omega arith));
})
earlier_down arr bit hi r l (inr h) = inr (h.0, λ p a b. ground (arith, h.1 p a (omega arith)))

-- Between a word and the positions that it holds.
later_word :
    (arr : Node) (bit j : ℕ)
    → j < 64
    → test_bit (above_mask (word_at arr (bit / 64)) (bit - bit / 64 * 64)) j
      ≡ later arr bit (bit / 64 * 64 + j)
later_word arr bit j h =
    above_mask-bit (word_at arr (bit / 64)) (bit - bit / 64 * 64) j (omega arith) h
    ∙ ground (arith, has_at arr (bit / 64) j h)

earlier_word :
    (arr : Node) (bit j : ℕ)
    → j < 64
    → test_bit (below_mask (word_at arr (bit / 64)) (bit - bit / 64 * 64)) j
      ≡ earlier arr bit (bit / 64 * 64 + j)
earlier_word arr bit j h =
    below_mask-bit (word_at arr (bit / 64)) (bit - bit / 64 * 64) j
    ∙ ground (arith, has_at arr (bit / 64) j h)

pub node_next_lem :
    (arr : Node) (bit : ℕ)
    → IsNode arr
    → bit < 512
    → FoundUp (has arr) (suc bit) 512 (node_next arr bit)
unfolding node_next
node_next_lem arr bit n h =
    let b = bit / 64 in
    let w = word_at arr b in
    let mask = above_mask w (bit - b * 64) in
    let here = λ (j : ℕ) (l : j < 64). later_word arr bit j l in
    let past = λ (p : ℕ) (l : b * 64 + 64 ≤ p). later_past p l in
    let next : b * 64 + 64 ≡ (b + 1) * 64 = omega arith in
    let end : (b + 1 + length (drop (b + 1) arr)) * 64 ≡ 512 =
      omega (arith, length-drop arr (b + 1), n.size) in
    let rest : FoundUp (later arr bit) ((b + 1) * 64) 512 (first_from (b + 1) (drop (b + 1) arr)) =
      subst (λ u. FoundUp (later arr bit) ((b + 1) * 64) u (first_from (b + 1) (drop (b + 1) arr)))
        end
        (first_from_lem (later arr bit) (b + 1) (drop (b + 1) arr)
          (AllWords-drop arr (b + 1) n.words)
          (λ p l. has-drop arr (b + 1) p ∙ later_past ((b + 1) * 64 + p) (omega arith))) in
    elim (Bool-cases (mask == 0)) [
      | inl z ↦ rw z (
          later_up arr bit (b * 64) (first_from (b + 1) (drop (b + 1) arr)) (omega arith) (
            up_past (later arr bit) (b * 64) ((b + 1) * 64) 512
              (first_from (b + 1) (drop (b + 1) arr))
              (subst (NoneIn (later arr bit) (b * 64)) next
                (word_none (later arr bit) (b * 64) mask here (ground arith)))
              (omega arith) rest))
      | inr z ↦ rw z (
          later_up arr bit (b * 64) (b * 64 + ctz 64 mask) (omega arith) (
            inl (
              Least-extend (later arr bit) (b * 64) (b * 64 + 64) 512 (b * 64 + ctz 64 mask)
                (omega arith)
                (word_up (later arr bit) (b * 64) mask
                  (above_mask-lt w (bit - b * 64) (word_at-lt arr b n.words)) here
                  (ground arith)))))
    ]
  where
    later_past : (p : ℕ) → bit / 64 * 64 + 64 ≤ p → has arr p ≡ later arr bit p
    later_past p l = let passed : ltb bit p ≡ true = ground arith in rw passed (ground arith)

pub node_prev_lem :
    (arr : Node) (bit : ℕ) → IsNode arr → bit < 512 → FoundDown (has arr) 0 bit (node_prev arr bit)
unfolding node_prev
node_prev_lem arr bit n h =
    let b = bit / 64 in
    let w = word_at arr b in
    let mask = below_mask w (bit - b * 64) in
    let here = λ (j : ℕ) (l : j < 64). earlier_word arr bit j l in
    let next : b * 64 + 64 ≡ (b + 1) * 64 = omega arith in
    let place : b * 64 + 64 - clz 64 mask - 1 ≡ (b + 1) * 64 - clz 64 mask - 1 = omega arith in
    let rest = below_bit (last_below arr b) (last_below_lem arr b n) in
    elim (Bool-cases (mask == 0)) [
      | inl z ↦ rw z (
          earlier_down arr bit ((b + 1) * 64) (last_below arr b) (omega arith) (
            down_past (earlier arr bit) 0 (b * 64) ((b + 1) * 64) (last_below arr b)
              (subst (NoneIn (earlier arr bit) (b * 64)) next
                (word_none (earlier arr bit) (b * 64) mask here (ground arith)))
              (omega arith) rest))
      | inr z ↦ rw z (
          earlier_down arr bit (b * 64 + 64) ((b + 1) * 64 - clz 64 mask - 1) (omega arith) (
            inl (
              Greatest-weaken (earlier arr bit) 0 (b * 64) (b * 64 + 64) _ (omega arith) (
                subst (Greatest (earlier arr bit) (b * 64) (b * 64 + 64)) place (
                  word_down (earlier arr bit) (b * 64) mask
                    (below_mask-lt w (bit - b * 64) (word_at-lt arr b n.words) (omega arith)) here
                    (ground arith))))))
    ]
  where
    same_below : (p : ℕ) → p < bit / 64 * 64 → has arr p ≡ earlier arr bit p
    same_below p l = let passed : ltb p bit ≡ true = ground arith in rw passed (ground arith)

    below_bit :
        (r : ℕ)
        → FoundDown (has arr) 0 (bit / 64 * 64) r
        → FoundDown (earlier arr bit) 0 (bit / 64 * 64) r
    below_bit r (inl g) = inl (record {
      above = g.above;
      below = g.below;
      holds = sym (same_below r g.below) ∙ g.holds;
      last = λ p x y. sym (same_below p y) ∙ g.last p x y;
    })
    below_bit r (inr g) = inr (g.0, λ p x y. sym (same_below p y) ∙ g.1 p x y)
