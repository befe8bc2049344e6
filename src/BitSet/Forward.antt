-- ===== src/BitSet/Forward.antt =====
-- core/adt/bitset.h: `operator++` of the iterator.
use llir_opt.Prelude.{
  ℕ, suc, ◌+◌, ◌*◌, ◌/◌, ◌%◌, ◌<◌, ◌≡◌, refl, sym, ap, ◌∙◌, inl, inr, true, false, List, [], ◌∷◌,
  some, arith, ◌==◌, Bool-cases,
}
use llir_opt.SortedMap.{lookup, seek}
use llir_opt.SortedMap.Laws.{After, seek-After, lookup_bound}
use llir_opt.BitSet.Chunk.{Node, node_first, node_next}
use llir_opt.BitSet.Words.{has}
use llir_opt.BitSet.Extremes.{Least}
use llir_opt.BitSet.Step.{node_next_lem}
use llir_opt.BitSet.{BitSet, iterator_at, next, step_in, next_node}
use llir_opt.BitSet.Valid.{in_node, mem, IsNodes, IsValid}
use llir_opt.BitSet.Nodes.{NodesFrom, NodesFrom-uncons}
use llir_opt.BitSet.Ends.{chunk_Least, mem_at, first_lower}
use llir_opt.BitSet.Places.{mem-Home, mem_chunk}

-- The entries after the iterator at a node.
rest-NodesFrom :
    (nodes : List (ℕ × Node)) (key : ℕ) (node : Node)
    → IsNodes nodes
    → (a : After key node nodes)
    → NodesFrom (suc key) a.rest × ((x : ℕ) → key < x / 512 → mem a.rest x ≡ mem nodes x)
rest-NodesFrom nodes key node n a = (
  record {
    ordered = a.above;
    chunks =
        λ k v e. n.chunks k v (sym (a.agrees k (lookup_bound (suc key) k v a.rest a.above e)) ∙ e);
  },
  λ x l. ap (λ o. in_node o (x % 512)) (a.agrees (x / 512) l),
)

-- The next node of an iterator.
next_node_lem :
    (nodes rest : List (ℕ × Node)) (key z : ℕ)
    → NodesFrom (suc key) rest
    → ((x : ℕ) → key < x / 512 → mem rest x ≡ mem nodes x)
    → ((q : ℕ) → key < q → seek q rest ≡ seek q nodes)
    → key < z / 512
    → mem nodes z ≡ true
    → (y : ℕ) × (next_node rest ≡ some (record { it = seek (y / 512) nodes; current = y }))
      × Least (mem nodes) (suc key * 512) (suc z) y
unfolding next_node lookup seek
next_node_lem nodes [] key z n same on l h = absurd (ground (arith, same z l))
next_node_lem nodes ((k, w) ∷ rest) key z n same on l h =
    let (chunk, tail) = NodesFrom-uncons (suc key) k w rest n in
    let least = chunk_Least k w chunk in
    let bound = n.ordered.0 in
    let y = k * 512 + node_first w in
    let home : y / 512 ≡ k = omega (arith, least.below) in
    let start : seek (y / 512) nodes ≡ (k, w) ∷ rest =
      ap (λ q. seek q nodes) home ∙ sym (on k bound) ∙ ground arith in
    (
      y,
      rw start refl,
      record {
        above = omega (arith, bound);
        below = omega (arith, first_lower (suc key) k w rest z n (same z l ∙ h));
        holds =
            sym (same y (omega (arith, home, bound)))
            ∙ mem_at k w rest (node_first w) least.below
            ∙ least.holds;
        first = λ x p q. elim (Bool-cases (mem nodes x)) [
          | inl m ↦
              absurd (
                omega
                  (arith, q, first_lower (suc key) k w rest x n (same x (omega (arith, p)) ∙ m)))
          | inr m ↦ m
        ];
      },
    )

-- `operator++` of an iterator at an identifier of a valid set, before the last one, gives the iterator
-- at the next larger identifier of the set.
pub next_item :
    (s : BitSet) (x : ℕ)
    → IsValid s
    → mem s.nodes x ≡ true
    → x < s.last
    → (y : ℕ) × (next s (iterator_at s x) ≡ some (iterator_at s y))
      × Least (mem s.nodes) (suc x) (suc s.last) y
unfolding next step_in
next_item s x v m l =
    let home = mem-Home s.nodes x v.nodes m in
    let a = seek-After 0 (x / 512) home.node s.nodes v.nodes.ordered home.there in
    let last_in : mem s.nodes s.last ≡ true = elim v.ends [
      | inl (_, _, low) ↦ absurd (omega (arith, low, l))
      | inr (_, p) ↦ p
    ] in
    let other : (x == s.last) ≡ false = ground arith in
    let pos = node_next home.node (x % 512) in
    let in_chunk =
      λ (p : ℕ) (e : p / 512 ≡ x / 512). mem_chunk s.nodes (x / 512) home.node p home.there e in
    elim (node_next_lem home.node (x % 512) home.chunk.is_node (omega arith)) [
      | inl least ↦
          let y = x / 512 * 512 + pos in
          let more : (pos == 0) ≡ false = ground (arith, least.above) in
          let here : y / 512 ≡ x / 512 = omega (arith, least.below) in
          let place : y % 512 ≡ pos = omega (arith, least.below) in
          let holds : mem s.nodes y ≡ true =
            in_chunk y here ∙ ap (has home.node) place ∙ least.holds in
          (
            y,
            rw (other, a.found, more, here, a.found) refl,
            record {
              above = omega (arith, least.above);
              below = omega (arith, v.upper y holds);
              holds = holds;
              first = λ p g k.
                  in_chunk p (omega (arith, least.below))
                  ∙ least.first (p % 512) (omega (arith, least.below)) (omega (arith, least.below));
            },
          )
      | inr (zero_pos, none_left) ↦
          let none_in = λ (p : ℕ) (e : p / 512 ≡ x / 512) (g : x < p).
            in_chunk p e ∙ none_left (p % 512) (omega arith) (omega arith) in
          let beyond : x / 512 < s.last / 512 = elim (Bool-cases (s.last / 512 == x / 512)) [
            | inl e ↦ absurd (cc (none_in s.last (ground arith) l, last_in))
            | inr e ↦ ground arith
          ] in
          let (ok, same) = rest-NodesFrom s.nodes (x / 512) home.node v.nodes a in
          let (y, step, least) =
            next_node_lem s.nodes a.rest (x / 512) s.last ok same a.onward beyond last_in in
          (
            y,
            rw (other, a.found, zero_pos) step,
            record {
              above = omega (arith, least.above);
              below = least.below;
              holds = least.holds;
              first = λ p g k. elim (Bool-cases (p / 512 == x / 512)) [
                | inl e ↦ none_in p (ground arith) g
                | inr e ↦ least.first p (ground arith) k
              ];
            },
          )
    ]
