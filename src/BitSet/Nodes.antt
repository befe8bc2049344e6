-- ===== src/BitSet/Nodes.antt =====
-- core/adt/bitset.h: the nodes of a set one by one, from the first.
use mathlib.Core.Path.{subst}
use llir_opt.Prelude.{
  ℕ, suc, ◌/◌, ◌%◌, ◌<◌, ◌≤◌, ◌≡◌, refl, ap, inl, inr, false, List, [], ◌∷◌, some, arith, ◌==◌,
  if◌then◌else◌, Bool-cases,
}
use llir_opt.SortedMap.{lookup}
use llir_opt.SortedMap.Laws.{From, From-weaken, lookup-From, lookup_bound}
use llir_opt.BitSet.Chunk.{Node}
use llir_opt.BitSet.Words.{has}
use llir_opt.BitSet.Valid.{in_node, mem, IsChunk, IsNodes}

-- Nodes whose keys ascend from `b` on.
pub record NodesFrom (b : ℕ) (nodes : List (ℕ × Node)) : Type 0 where
  pub ordered : From b nodes
  pub chunks : (key : ℕ) (node : Node) → lookup key nodes ≡ some node → IsChunk key node

pub IsNodes-NodesFrom : (nodes : List (ℕ × Node)) → IsNodes nodes → NodesFrom 0 nodes
IsNodes-NodesFrom nodes n = record { ordered = n.ordered; chunks = n.chunks }

pub NodesFrom-IsNodes : (b : ℕ) (nodes : List (ℕ × Node)) → NodesFrom b nodes → IsNodes nodes
NodesFrom-IsNodes b nodes n = record {
  ordered = From-weaken b 0 nodes (omega arith) n.ordered;
  chunks = n.chunks;
}

pub NodesFrom-weaken :
    (b c : ℕ) (nodes : List (ℕ × Node)) → c ≤ b → NodesFrom b nodes → NodesFrom c nodes
NodesFrom-weaken b c nodes l n = record {
  ordered = From-weaken b c nodes l n.ordered;
  chunks = n.chunks;
}

pub NodesFrom-nil : (b : ℕ) → NodesFrom b []
unfolding lookup
NodesFrom-nil b = record { ordered = tt; chunks = λ key node e. absurd (ground (arith, e)) }

-- The first node, and the others.
pub NodesFrom-uncons :
    (b key : ℕ) (node : Node) (rest : List (ℕ × Node))
    → NodesFrom b ((key, node) ∷ rest)
    → IsChunk key node × NodesFrom (suc key) rest
unfolding lookup
NodesFrom-uncons b key node rest n = (
  n.chunks key node (ground arith),
  record {
    ordered = n.ordered.1;
    chunks =
        λ k v e. n.chunks k v (ground (arith, lookup_bound (suc key) k v rest n.ordered.1 e, e));
  },
)

pub NodesFrom-cons :
    (b key : ℕ) (node : Node) (rest : List (ℕ × Node))
    → b ≤ key
    → IsChunk key node
    → NodesFrom (suc key) rest
    → NodesFrom b ((key, node) ∷ rest)
unfolding lookup
NodesFrom-cons b key node rest l c n = record {
  ordered = (l, n.ordered);
  chunks = λ k v e. elim (Bool-cases (key == k)) [
    | inl f ↦
        let same : key ≡ k = ground arith in
        let value : node ≡ v = ground arith in
        subst (λ j. IsChunk j v) same (subst (IsChunk key) value c)
    | inr f ↦ n.chunks k v (ground (arith, e, f))
  ];
}

-- The identifiers of the first node and of the others are apart.
pub mem-cons :
    (key : ℕ) (node : Node) (rest : List (ℕ × Node)) (x : ℕ)
    → mem ((key, node) ∷ rest) x ≡ (if key == x / 512 then has node (x % 512) else mem rest x)
unfolding lookup
mem-cons key node rest x = elim (Bool-cases (key == x / 512)) [
  | inl e ↦ rw e refl
  | inr e ↦ rw e refl
]

pub mem_below :
    (b : ℕ) (nodes : List (ℕ × Node)) (x : ℕ) → From b nodes → x / 512 < b → mem nodes x ≡ false
mem_below b nodes x h l = ap (λ o. in_node o (x % 512)) (lookup-From b (x / 512) nodes h l)
