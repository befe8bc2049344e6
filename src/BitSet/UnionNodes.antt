-- ===== src/BitSet/UnionNodes.antt =====
-- core/adt/bitset.h: the loop of `Union` over the nodes, and the number of the bits that it changes.
use llir_opt.Prelude.{
  ℕ, suc, ◌+◌, ◌/◌, ◌%◌, ◌<◌, ◌≡◌, refl, ap, ◌∙◌, inl, inr, true, false, ◌&&◌, ◌||◌, List, [], ◌∷◌,
  arith, ltb, ◌==◌, Bool-cases,
}
use llir_opt.Bits.Scan.{popcount, popcount-or}
use llir_opt.SortedMap.{lookup, put, at_or}
use llir_opt.SortedMap.Laws.{From, at_or-cons, at_or-From}
use llir_opt.BitSet.Chunk.{Node, empty_node, all_zero, node_union, node_size, node_first}
use llir_opt.BitSet.Words.{has, IsNode, all_zero_of_has}
use llir_opt.BitSet.Scan.{node_first_lem}
use llir_opt.BitSet.Combine.{node_union_lem}
use llir_opt.BitSet.{union_nodes, size_nodes}
use llir_opt.BitSet.Valid.{mem, IsNodes, at_or_lem, put-IsNodes}
use llir_opt.BitSet.Nodes.{NodesFrom, NodesFrom-uncons, mem-cons, mem_below}
use llir_opt.BitSet.Insert.{mem_written, mem_in, not_empty_of_has}

-- A node that is not empty has something in it.
pub some_in_node :
    (node : Node) → IsNode node → all_zero node ≡ false → (p : ℕ) × (p < 512) × (has node p ≡ true)
some_in_node node n z = elim (node_first_lem node n) [
  | inl l ↦ (node_first node, l.below, l.holds)
  | inr (_, h) ↦ absurd (cc (all_zero_of_has node n (λ p l. h p (omega arith) l), z))
]

-- A step of the loop of `Union` writes a node that is not empty.
pub union_written :
    (b : ℕ) (nodes : List (ℕ × Node)) (key : ℕ) (that : Node) (rest : List (ℕ × Node))
    → IsNodes nodes
    → NodesFrom b ((key, that) ∷ rest)
    → IsNodes (put key (node_union (at_or empty_node key nodes) that).0 nodes)
union_written b nodes key that rest n m =
    let (chunk, tail) = NodesFrom-uncons b key that rest m in
    let node = at_or empty_node key nodes in
    let (node_ok, same) = at_or_lem nodes key n in
    let (ok, now) = node_union_lem node that node_ok chunk.is_node in
    let (p, small, there) = some_in_node that chunk.is_node chunk.not_empty in
    put-IsNodes nodes key (node_union node that).0 n (record {
      is_node = ok;
      not_empty = not_empty_of_has (node_union node that).0 p (now p small ∙ ground arith);
      narrow = chunk.narrow;
    })

-- The identifiers after the nodes of another set were merged in.
pub union_nodes_lem :
    (b : ℕ) (nodes those : List (ℕ × Node))
    → IsNodes nodes
    → NodesFrom b those
    → IsNodes (union_nodes nodes those).0
      × ((x : ℕ) → mem (union_nodes nodes those).0 x ≡ (mem nodes x || mem those x))
unfolding union_nodes lookup
union_nodes_lem b nodes [] n m = (n, λ x. ground arith)
union_nodes_lem b nodes ((key, that) ∷ rest) n m =
    let (chunk, tail) = NodesFrom-uncons b key that rest m in
    let node = at_or empty_node key nodes in
    let (node_ok, same) = at_or_lem nodes key n in
    let (ok, now) = node_union_lem node that node_ok chunk.is_node in
    let new = (node_union node that).0 in
    let written = union_written b nodes key that rest n m in
    let (later, members) = union_nodes_lem (suc key) (put key new nodes) rest written tail in
    (
      later,
      λ x.
          members x
          ∙ ap (λ c. c || mem rest x)
              (mem_written nodes key new x (mem nodes x || (key == x / 512 && has that (x % 512)))
                (λ e.
                  now (x % 512) (omega arith)
                  ∙ ap (λ c. c || has that (x % 512)) (same (x % 512) ∙ mem_in nodes key x e)
                  ∙ ground arith)
                (λ e. ground arith))
          ∙ ground (arith, mem-cons key that rest x, mem_below (suc key) rest x tail.ordered),
    )

-- The size of a node after `Union`, and of the nodes after a node was written.
node_size-union : (v w : Node) → node_size (node_union v w).0 ≡ node_size v + (node_union v w).1
unfolding node_size node_union
node_size-union [] w = omega arith
node_size-union (x ∷ xs) [] = omega arith
node_size-union (x ∷ xs) (y ∷ ys) = omega (arith, popcount-or 64 x y, node_size-union xs ys)

size_empty : node_size empty_node ≡ 0
unfolding node_size popcount
size_empty = refl

size_nodes-put :
    (b key : ℕ) (node : Node) (nodes : List (ℕ × Node))
    → From b nodes
    → size_nodes (put key node nodes) + node_size (at_or empty_node key nodes)
      ≡ size_nodes nodes + node_size node
unfolding size_nodes put
size_nodes-put b key node [] h =
    omega
      (arith, size_empty, ap node_size (at_or-From empty_node (suc key) key [] tt (omega arith)))
size_nodes-put b key node ((j, w) ∷ rest) h =
    let later = size_nodes-put (suc j) key node rest h.1 in
    let read = at_or-cons empty_node key j w rest in
    elim (Bool-cases (ltb key j)) [
      | inl e ↦
          let missing : (j == key) ≡ false = ground arith in
          let absent = at_or-From empty_node (suc j) key rest h.1 (ground arith) in
          rw (e, read, missing, absent) (omega (arith, size_empty))
      | inr e ↦ elim (Bool-cases (j == key)) [
        | inl f ↦ rw (e, read, f) (omega arith)
        | inr f ↦ rw (e, read, f) (omega (arith, later))
      ]
    ]

pub union_nodes-size :
    (b : ℕ) (nodes those : List (ℕ × Node))
    → IsNodes nodes
    → NodesFrom b those
    → size_nodes (union_nodes nodes those).0 ≡ size_nodes nodes + (union_nodes nodes those).1
unfolding union_nodes
union_nodes-size b nodes [] n m = omega arith
union_nodes-size b nodes ((key, that) ∷ rest) n m =
    let (chunk, tail) = NodesFrom-uncons b key that rest m in
    let node = at_or empty_node key nodes in
    omega (
      arith,
      node_size-union node that,
      size_nodes-put 0 key (node_union node that).0 nodes n.ordered,
      union_nodes-size (suc key) (put key (node_union node that).0 nodes) rest
          (union_written b nodes key that rest n m) tail,
    )
