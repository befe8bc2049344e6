-- ===== src/BitSet/Scan.antt =====
-- core/adt/bitset.h: `First`, `Last`, `Next` and `Prev` of `Node` find the nearest position that is in
-- the node.
use mathlib.Core.Path.{subst}
use llir_opt.Prelude.{
  ℕ, zero, suc, ◌+◌, ◌-◌, ◌*◌, ◌/◌, ◌%◌, ◌^◌, ◌<◌, ◌≡◌, ◌≢◌, refl, sym, ap, ◌∙◌, inl, inr, Bool,
  false, [], ◌∷◌, length, arith, ◌==◌, Bool-cases,
}
use llir_opt.Bits.{test_bit, test_bit-zero}
use llir_opt.Bits.Scan.{
  ctz, clz, bit_length, ctz_zeros, ctz_set, ctz-lt, bit_length-le, bit_length_set, bit_length_zeros,
  bit_length_pos, clz_lem,
}
use llir_opt.BitSet.Chunk.{Node, word_at, first_from, node_first, last_below, node_last}
use llir_opt.BitSet.Words.{has, AllWords, IsNode, word_at-lt, has_at}
use llir_opt.BitSet.Extremes.{
  shift_back, Least, Greatest, NoneIn, Least-extend, Greatest-weaken, shift_back, Least-shift,
  Greatest-shift, FoundUp, FoundDown, up_past, down_past,
}

word_Least : (x : ℕ) → x < 2 ^ 64 → x ≢ 0 → Least (test_bit x) 0 64 (ctz 64 x)
word_Least x h d = record {
  above = omega arith;
  below = ctz-lt 64 x h d;
  holds = ctz_set 64 x (ctz-lt 64 x h d);
  first = λ p _ l. ctz_zeros 64 x p l;
}

word_Greatest : (x : ℕ) → x < 2 ^ 64 → x ≢ 0 → Greatest (test_bit x) 0 64 (64 - clz 64 x - 1)
word_Greatest x h d =
    let pos = bit_length_pos 64 x h d in
    let le = bit_length-le 64 x in
    let top : 64 - clz 64 x - 1 ≡ bit_length 64 x - 1 = omega (arith, clz_lem 64 x) in
    rw top (record {
      above = omega arith;
      below = omega arith;
      holds = bit_length_set 64 x (bit_length 64 x - 1) (omega arith);
      last = λ p l k. bit_length_zeros 64 x p (omega arith) k;
    })

has-low : (w : ℕ) (ws : Node) (j : ℕ) → j < 64 → has (w ∷ ws) j ≡ test_bit w j
has-low w ws j h =
    let word : j / 64 ≡ 0 = omega arith in let bit : j % 64 ≡ j = omega arith in rw (word, bit) refl

has-high : (w : ℕ) (ws : Node) (p : ℕ) → has (w ∷ ws) (64 + p) ≡ has ws p
has-high w ws p =
    let word : (64 + p) / 64 ≡ suc (p / 64) = omega arith in
    let bit : (64 + p) % 64 ≡ p % 64 = omega arith in rw (word, bit) refl

pub word_up :
    (P : ℕ → Bool) (k w : ℕ)
    → w < 2 ^ 64
    → ((j : ℕ) → j < 64 → test_bit w j ≡ P (k + j))
    → w ≢ 0
    → Least P k (k + 64) (k + ctz 64 w)
word_up P k w h e d =
    let z : k + 0 ≡ k = omega arith in
    subst (λ u. Least P u (k + 64) (k + ctz 64 w)) z
      (Least-shift (test_bit w) P k 64 0 (ctz 64 w) e (word_Least w h d))

pub word_none :
    (P : ℕ → Bool) (k w : ℕ)
    → ((j : ℕ) → j < 64 → test_bit w j ≡ P (k + j))
    → w ≡ 0
    → NoneIn P k (k + 64)
word_none P k w e z p a b =
    shift_back (test_bit w) P k 64 p false e a b (rw z (test_bit-zero (p - k)))

pub word_down :
    (P : ℕ → Bool) (k w : ℕ)
    → w < 2 ^ 64
    → ((j : ℕ) → j < 64 → test_bit w j ≡ P (k + j))
    → w ≢ 0
    → Greatest P k (k + 64) (k + 64 - clz 64 w - 1)
word_down P k w h e d =
    let top = word_Greatest w h d in
    let place : k + (64 - clz 64 w - 1) ≡ k + 64 - clz 64 w - 1 =
      omega (arith, top.below, clz_lem 64 w, bit_length_pos 64 w h d) in
    subst (Greatest P k (k + 64)) place
      (Greatest-shift (test_bit w) P k 64 64 (64 - clz 64 w - 1) (omega arith) e top)

pub first_from_lem :
    (P : ℕ → Bool) (i : ℕ) (ws : Node)
    → AllWords ws
    → ((p : ℕ) → p < length ws * 64 → has ws p ≡ P (i * 64 + p))
    → FoundUp P (i * 64) ((i + length ws) * 64) (first_from i ws)
unfolding first_from
first_from_lem P i [] h e = inr (refl, λ p a b. absurd (omega arith))
first_from_lem P i (w ∷ ws) h e =
    let here = λ (j : ℕ) (l : j < 64). sym (has-low w ws j l) ∙ e j (omega arith) in
    let rest = first_from_lem P (suc i) ws h.1 (λ p l.
      let shift : i * 64 + (64 + p) ≡ suc i * 64 + p = omega arith in
      sym (has-high w ws p) ∙ e (64 + p) (omega arith) ∙ ap P shift) in
    let next : i * 64 + 64 ≡ suc i * 64 = omega arith in
    let end : (suc i + length ws) * 64 ≡ (i + suc (length ws)) * 64 = omega arith in
    elim (Bool-cases (w == 0)) [
      | inl z ↦ rw z (
          up_past P (i * 64) (suc i * 64) ((i + suc (length ws)) * 64) (first_from (suc i) ws)
            (subst (NoneIn P (i * 64)) next (word_none P (i * 64) w here (ground arith)))
            (omega arith) (subst (λ u. FoundUp P (suc i * 64) u (first_from (suc i) ws)) end rest))
      | inr z ↦ rw z (
          inl (
            Least-extend P (i * 64) (i * 64 + 64) ((i + suc (length ws)) * 64) (i * 64 + ctz 64 w)
              (omega arith) (word_up P (i * 64) w h.0 here (ground arith))))
    ]

pub node_first_lem : (arr : Node) → IsNode arr → FoundUp (has arr) 0 512 (node_first arr)
unfolding node_first
node_first_lem arr n =
    let end : (0 + length arr) * 64 ≡ 512 = omega (arith, n.size) in
    subst (λ u. FoundUp (has arr) 0 u (first_from 0 arr)) end
      (first_from_lem (has arr) 0 arr n.words
        (λ p l. let same : p ≡ 0 * 64 + p = omega arith in ap (has arr) same))

pub last_below_lem :
    (arr : Node) (k : ℕ) → IsNode arr → FoundDown (has arr) 0 (k * 64) (last_below arr k)
unfolding last_below
last_below_lem arr zero n = inr (refl, λ p a b. absurd (omega arith))
last_below_lem arr (suc i) n =
    let w = word_at arr i in
    let here = λ (j : ℕ) (l : j < 64). sym (has_at arr i j l) in
    let next : i * 64 + 64 ≡ suc i * 64 = omega arith in
    let next' : i * 64 + 64 - clz 64 w - 1 ≡ (i + 1) * 64 - clz 64 w - 1 = omega arith in
    elim (Bool-cases (w == 0)) [
      | inl z ↦ rw z (
          down_past (has arr) 0 (i * 64) (suc i * 64) (last_below arr i)
            (subst (NoneIn (has arr) (i * 64)) next
              (word_none (has arr) (i * 64) w here (ground arith)))
            (omega arith) (last_below_lem arr i n))
      | inr z ↦ rw z (
          inl (
            Greatest-weaken (has arr) 0 (i * 64) (suc i * 64) _ (omega arith) (
              subst (λ u. Greatest (has arr) (i * 64) (suc i * 64) u) next'
                (subst (λ u. Greatest (has arr) (i * 64) u (i * 64 + 64 - clz 64 w - 1)) next
                  (word_down (has arr) (i * 64) w (word_at-lt arr i n.words) here
                    (ground arith))))))
    ]

pub node_last_lem : (arr : Node) → IsNode arr → FoundDown (has arr) 0 512 (node_last arr)
unfolding node_last
node_last_lem arr n = last_below_lem arr 8 n
