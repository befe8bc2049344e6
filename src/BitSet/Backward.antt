-- ===== src/BitSet/Backward.antt =====
-- core/adt/bitset.h: `operator++` of the reverse iterator.
use llir_opt.Prelude.{
  ℕ, suc, ◌+◌, ◌*◌, ◌/◌, ◌%◌, ◌<◌, ◌≡◌, refl, sym, ap, ◌∙◌, inl, inr, true, false, List, [], ◌∷◌,
  some, arith, ltb, ◌==◌, Bool-cases, ltb→lt,
}
use llir_opt.SortedMap.{lookup, seek, seek_back}
use llir_opt.SortedMap.Back.{Down, lookup-Down, seek_back-Before}
use llir_opt.BitSet.Chunk.{Node, node_last, node_prev}
use llir_opt.BitSet.Words.{has}
use llir_opt.BitSet.Extremes.{Greatest, NoneIn}
use llir_opt.BitSet.Step.{node_prev_lem}
use llir_opt.BitSet.{BitSet, reverse_at, prev, step_back, prev_node}
use llir_opt.BitSet.Valid.{in_node, mem, IsNodes, IsValid, mem_narrow}
use llir_opt.BitSet.Nodes.{mem-cons}
use llir_opt.BitSet.Ends.{chunk_Greatest}
use llir_opt.BitSet.Places.{mem-Home, mem_chunk}

-- Between the node before and the chunk of a reverse iterator there is nothing.
none_between :
    (nodes : List (ℕ × Node)) (k key : ℕ) (w : Node) (rest : List (ℕ × Node))
    → lookup k nodes ≡ some w
    → Down key ((k, w) ∷ rest)
    → ((q : ℕ) → q < key → lookup q ((k, w) ∷ rest) ≡ lookup q nodes)
    → Greatest (has w) 0 512 (node_last w)
    → NoneIn (mem nodes) (suc (k * 512 + node_last w)) (key * 512)
none_between nodes k key w rest there d same most x p q = elim (Bool-cases (x / 512 == k)) [
  | inl e ↦
      mem_chunk nodes k w x there (ground arith) ∙ most.last (x % 512) (ground arith) (omega arith)
  | inr e ↦
      sym (ap (λ o. in_node o (x % 512)) (same (x / 512) (omega (arith, q))))
      ∙ mem-cons k w rest x
      ∙ ground (
        arith,
        e,
        ap (λ o. in_node o (x % 512)) ((lookup-Down k (x / 512) rest d.1 (omega (arith, p))).0),
      )
]

-- The node before that of a reverse iterator.
prev_node_lem :
    (nodes rest : List (ℕ × Node)) (key z : ℕ)
    → IsNodes nodes
    → Down key rest
    → ((q : ℕ) → q < key → lookup q rest ≡ lookup q nodes)
    → ((q : ℕ) → q < key → seek q rest ≡ seek_back q nodes [])
    → z / 512 < key
    → mem nodes z ≡ true
    → (y : ℕ) × (prev_node rest ≡ some (record { it = seek_back (y / 512) nodes []; current = y }))
      × Greatest (mem nodes) z (key * 512) y
unfolding prev_node lookup seek
prev_node_lem nodes [] key z n d same back l h =
    absurd (ground (arith, ap (λ o. in_node o (z % 512)) (same (z / 512) l), h))
prev_node_lem nodes ((k, w) ∷ rest) key z n d same back l h =
    let there : lookup k nodes ≡ some w = sym (same k d.0) ∙ ground arith in
    let most = chunk_Greatest k w (n.chunks k w there) in
    let bound = d.0 in
    let y = k * 512 + node_last w in
    let home : y / 512 ≡ k = omega (arith, most.below) in
    let place : y % 512 ≡ node_last w = omega (arith, most.below) in
    let start : seek_back (y / 512) nodes [] ≡ (k, w) ∷ rest =
      ap (λ q. seek_back q nodes []) home ∙ sym (back k bound) ∙ ground arith in
    let past : NoneIn (mem nodes) (suc y) (key * 512) =
      none_between nodes k key w rest there d same most in
    (
      y,
      rw start refl,
      record {
        above = elim (Bool-cases (ltb y z)) [
          | inl e ↦ absurd (cc (past z (ltb→lt y z e) (omega (arith, l)), h))
          | inr e ↦ ground arith
        ];
        below = omega (arith, bound, most.below);
        holds = mem_chunk nodes k w y there home ∙ ap (has w) place ∙ most.holds;
        last = λ x p q. past x p q;
      },
    )

-- `operator++` of a reverse iterator at an identifier of a valid set, after the first one, gives the
-- iterator at the next smaller identifier of the set.
pub prev_item :
    (s : BitSet) (x : ℕ)
    → IsValid s
    → mem s.nodes x ≡ true
    → s.first < x
    → (y : ℕ) × (prev s (reverse_at s x) ≡ some (reverse_at s y))
      × Greatest (mem s.nodes) s.first x y
unfolding prev step_back
prev_item s x v m l =
    let home = mem-Home s.nodes x v.nodes m in
    let a = seek_back-Before (x / 512) home.node s.nodes v.nodes.ordered home.there in
    let first_in : mem s.nodes s.first ≡ true = elim v.ends [
      | inl (_, top, _) ↦ absurd (omega (arith, top, l, mem_narrow s.nodes x v.nodes m))
      | inr (p, _) ↦ p
    ] in
    let other : (x == s.first) ≡ false = ground arith in
    let pos = node_prev home.node (x % 512) in
    let in_chunk =
      λ (p : ℕ) (e : p / 512 ≡ x / 512). mem_chunk s.nodes (x / 512) home.node p home.there e in
    elim (node_prev_lem home.node (x % 512) home.chunk.is_node (omega arith)) [
      | inl most ↦
          let y = x / 512 * 512 + pos in
          let more : (pos == 512) ≡ false = ground (arith, most.below) in
          let here : y / 512 ≡ x / 512 = omega (arith, most.below) in
          let place : y % 512 ≡ pos = omega (arith, most.below) in
          let holds : mem s.nodes y ≡ true =
            in_chunk y here ∙ ap (has home.node) place ∙ most.holds in
          (
            y,
            rw (other, a.found, more, here, a.found) refl,
            record {
              above = v.lower y holds;
              below = omega (arith, most.below);
              holds = holds;
              last = λ p g k.
                  in_chunk p (omega (arith, most.below))
                  ∙ most.last (p % 512) (omega (arith, most.below)) (omega (arith, most.below));
            },
          )
      | inr (no_pos, none_left) ↦
          let none_in = λ (p : ℕ) (e : p / 512 ≡ x / 512) (g : p < x).
            in_chunk p e ∙ none_left (p % 512) (omega arith) (omega arith) in
          let beneath : s.first / 512 < x / 512 = elim (Bool-cases (s.first / 512 == x / 512)) [
            | inl e ↦ absurd (cc (none_in s.first (ground arith) l, first_in))
            | inr e ↦ ground arith
          ] in
          let (y, step, most) =
            prev_node_lem s.nodes a.rest (x / 512) s.first v.nodes a.below a.agrees a.back beneath
              first_in in
          (
            y,
            rw (other, a.found, no_pos) step,
            record {
              above = most.above;
              below = omega (arith, most.below);
              holds = most.holds;
              last = λ p g k. elim (Bool-cases (p / 512 == x / 512)) [
                | inl e ↦ none_in p (ground arith) k
                | inr e ↦ most.last p g (ground arith)
              ];
            },
          )
    ]
