-- ===== src/BitSet/Equal.antt =====
-- core/adt/bitset.h: `operator==` of the set.
use llir_opt.Prelude.{
  ℕ, ◌+◌, ◌*◌, ◌/◌, ◌%◌, ◌<◌, ◌≡◌, ◌↔◌, refl, sym, ap, ◌∙◌, inl, inr, true, List, [], ◌∷◌, some,
  length, arith, Option-cases,
}
use llir_opt.SortedMap.{lookup}
use llir_opt.SortedMap.Laws.{eq_of_lookup}
use llir_opt.BitSet.Chunk.{Node, node_first}
use llir_opt.BitSet.Combine.{node_ext, same_node_iff}
use llir_opt.BitSet.{BitSet, same_nodes, same_set, contains}
use llir_opt.BitSet.Valid.{in_node, mem, IsNodes, IsValid}
use llir_opt.BitSet.Insert.{contains-mem}
use llir_opt.BitSet.Ends.{chunk_Least}

same_nodes_iff : (m n : List (ℕ × Node)) → (same_nodes m n ≡ true) ↔ (m ≡ n)
unfolding same_nodes
same_nodes_iff [] [] = ground arith
same_nodes_iff [] (_ ∷ _) = ground arith
same_nodes_iff (_ ∷ _) [] = ground arith
same_nodes_iff ((j, v) ∷ m) ((k, w) ∷ n) = ground (arith, same_node_iff v w, same_nodes_iff m n)

-- The item of a place in a chunk.
mem_place :
    (nodes : List (ℕ × Node)) (key p : ℕ)
    → p < 512
    → mem nodes (key * 512 + p) ≡ in_node (lookup key nodes) p
mem_place nodes key p h =
    let chunk : (key * 512 + p) / 512 ≡ key = omega arith in
    let place : (key * 512 + p) % 512 ≡ p = omega arith in rw (chunk, place) refl

-- Rows with the same identifiers have the same nodes.
found_too :
    (m n : List (ℕ × Node)) (key : ℕ) (v : Node)
    → IsNodes m
    → IsNodes n
    → ((x : ℕ) → mem m x ≡ mem n x)
    → lookup key m ≡ some v
    → lookup key n ≡ some v
found_too m n key v a b h e =
    let chunk = a.chunks key v e in
    let least = chunk_Least key v chunk in
    let same = λ (p : ℕ) (l : p < 512).
      sym (ap (λ o. in_node o p) e)
      ∙ sym (mem_place m key p l)
      ∙ h (key * 512 + p)
      ∙ mem_place n key p l in
    elim (Option-cases (lookup key n)) [
      | inl f ↦
          absurd (
            cc (least.holds, same (node_first v) least.below, ap (λ o. in_node o (node_first v)) f))
      | inr (w, f) ↦
          f
          ∙ ap some (
              sym (
                node_ext v w chunk.is_node ((b.chunks key w f).is_node)
                  (λ p l. same p l ∙ ap (λ o. in_node o p) f)))
    ]

nodes_ext : (m n : List (ℕ × Node)) → IsNodes m → IsNodes n → ((x : ℕ) → mem m x ≡ mem n x) → m ≡ n
nodes_ext m n a b h = eq_of_lookup 0 m n a.ordered b.ordered (λ q.
    elim (Option-cases (lookup q m)) [
      | inr (v, e) ↦ e ∙ sym (found_too m n q v a b h e)
      | inl e ↦ elim (Option-cases (lookup q n)) [
        | inl f ↦ e ∙ sym f
        | inr (w, f) ↦ absurd (cc (e, found_too n m q w b a (λ x. sym (h x)) f))
      ]
    ])

-- The ends of a set with the same identifiers are the same.
ends_ext :
    (s t : BitSet)
    → IsValid s
    → IsValid t
    → ((x : ℕ) → mem s.nodes x ≡ mem t.nodes x)
    → (s.first ≡ t.first) × (s.last ≡ t.last)
ends_ext s t v w h = elim v.ends [
  | inl (e, top, low) ↦ elim w.ends [
    | inl (_, top', low') ↦ (top ∙ sym top', low ∙ sym low')
    | inr (m, l) ↦
        let below = v.lower t.first (h t.first ∙ m) in
        let above = v.upper t.first (h t.first ∙ m) in absurd (omega (arith, top, low))
  ]
  | inr (m, l) ↦
      let below = w.lower s.first (sym (h s.first) ∙ m) in
      let above = w.upper s.last (sym (h s.last) ∙ l) in
      elim w.ends [
        | inl (_, top, low) ↦
            let past = w.upper s.first (sym (h s.first) ∙ m) in absurd (omega (arith, top, low))
        | inr (m', l') ↦
            let below' = v.lower t.first (h t.first ∙ m') in
            let above' = v.upper t.last (h t.last ∙ l') in (omega arith, omega arith)
      ]
]

same_set-mem :
    (s t : BitSet)
    → IsValid s
    → IsValid t
    → (same_set s t ≡ true) ↔ ((x : ℕ) → mem s.nodes x ≡ mem t.nodes x)
unfolding same_set
same_set-mem s t v w = (
  λ e x.
      let same : s.nodes ≡ t.nodes = (same_nodes_iff s.nodes t.nodes).0 (ground arith) in
      ap (λ nodes. mem nodes x) same,
  λ h.
      let nodes = nodes_ext s.nodes t.nodes v.nodes w.nodes h in
      let (first, last) = ends_ext s t v w h in
      let same = (same_nodes_iff s.nodes t.nodes).1 nodes in
      let size : length s.nodes ≡ length t.nodes = ap length nodes in
      ground (arith, first, last, same, size),
)

-- `Contains` of a valid set says whether an identifier is in it, and `operator==` of two valid sets
-- whether they have the same identifiers.
pub contains-same_set :
    (s t : BitSet)
    → IsValid s
    → IsValid t
    → ((item : ℕ) → contains s item ≡ mem s.nodes item)
      × ((same_set s t ≡ true) ↔ ((x : ℕ) → mem s.nodes x ≡ mem t.nodes x))
contains-same_set s t v w = (λ item. contains-mem s item v, same_set-mem s t v w)
