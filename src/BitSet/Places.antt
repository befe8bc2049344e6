-- ===== src/BitSet/Places.antt =====
-- core/adt/bitset.h: the node that an identifier lies in.
use llir_opt.Prelude.{
  ℕ, ◌/◌, ◌%◌, ◌≡◌, sym, ap, ◌∙◌, inl, inr, true, List, some, arith, Option-cases,
}
use llir_opt.SortedMap.{lookup}
use llir_opt.BitSet.Chunk.{Node}
use llir_opt.BitSet.Words.{has}
use llir_opt.BitSet.Valid.{in_node, mem, IsChunk, IsNodes}

-- The chunk of an identifier that is in the nodes.
pub record Home (nodes : List (ℕ × Node)) (x : ℕ) : Type 0 where
  pub node : Node
  pub there : lookup (x / 512) nodes ≡ some node
  pub bit : has node (x % 512) ≡ true
  pub chunk : IsChunk (x / 512) node

pub mem-Home : (nodes : List (ℕ × Node)) (x : ℕ) → IsNodes nodes → mem nodes x ≡ true → Home nodes x
mem-Home nodes x n h = elim (Option-cases (lookup (x / 512) nodes)) [
  | inl e ↦ absurd (ground (arith, ap (λ o. in_node o (x % 512)) e))
  | inr (node, e) ↦ record {
    node = node;
    there = e;
    bit = sym (ap (λ o. in_node o (x % 512)) e) ∙ h;
    chunk = n.chunks (x / 512) node e;
  }
]

-- In the chunk of a node, the identifiers are those of the node.
pub mem_chunk :
    (nodes : List (ℕ × Node)) (key : ℕ) (node : Node) (x : ℕ)
    → lookup key nodes ≡ some node
    → x / 512 ≡ key
    → mem nodes x ≡ has node (x % 512)
mem_chunk nodes key node x e f =
    ap (λ k. in_node (lookup k nodes) (x % 512)) f ∙ ap (λ o. in_node o (x % 512)) e
