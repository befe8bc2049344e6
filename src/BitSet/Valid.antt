-- ===== src/BitSet/Valid.antt =====
-- core/adt/bitset.h: the identifiers in a set, the invariant of the class, and the nodes of a set as
-- a map from chunks to nodes.
use mathlib.Core.Path.{subst}
use llir_opt.Prelude.{
  ℕ, ◌/◌, ◌%◌, ◌^◌, ◌<◌, ◌≤◌, ◌≡◌, refl, sym, ap, ◌∙◌, ◌⊎◌, inl, inr, Bool, true, false, List, [],
  Option, none, some, arith, ◌==◌, if◌then◌else◌, Bool-cases, Option-cases, eq_of_some,
}
use llir_opt.SortedMap.{lookup, put, erase, at_or}
use llir_opt.SortedMap.Laws.{From, lookup-put, lookup-erase, put-From, erase-From}
use llir_opt.BitSet.Chunk.{Node, empty_node, all_zero}
use llir_opt.BitSet.Words.{has, IsNode, has-empty, empty_node-IsNode}
use llir_opt.BitSet.{BitSet, u32_max}

abbrev pub in_node : Option Node → ℕ → Bool
in_node none p = false
in_node (some node) p = has node p

-- An identifier that is in the nodes.
abbrev pub mem : List (ℕ × Node) → ℕ → Bool
mem nodes x = in_node (lookup (x / 512) nodes) (x % 512)

-- Every node has eight words, not all zero, and its identifiers have 32 bits.
pub record IsChunk (key : ℕ) (node : Node) : Type 0 where
  pub is_node : IsNode node
  pub not_empty : all_zero node ≡ false
  pub narrow : key < 2 ^ 23

pub record IsNodes (nodes : List (ℕ × Node)) : Type 0 where
  pub ordered : From 0 nodes
  pub chunks : (key : ℕ) (node : Node) → lookup key nodes ≡ some node → IsChunk key node

-- The class invariant. `first_` and `last_` are the least and the greatest identifier, or the values
-- that the empty set has.
pub record IsValid (s : BitSet) : Type 0 where
  pub nodes : IsNodes s.nodes
  pub lower : (x : ℕ) → mem s.nodes x ≡ true → s.first ≤ x
  pub upper : (x : ℕ) → mem s.nodes x ≡ true → x ≤ s.last
  pub ends :
      ((s.nodes ≡ []) × (s.first ≡ u32_max) × (s.last ≡ 0))
      ⊎ ((mem s.nodes s.first ≡ true) × (mem s.nodes s.last ≡ true))

pub mem-put :
    (nodes : List (ℕ × Node)) (key : ℕ) (node : Node) (x : ℕ)
    → mem (put key node nodes) x ≡ (if x / 512 == key then has node (x % 512) else mem nodes x)
mem-put nodes key node x =
    ap (λ o. in_node o (x % 512)) (lookup-put key (x / 512) node nodes)
    ∙ elim (Bool-cases (x / 512 == key)) [ inl e ↦ rw e refl | inr e ↦ rw e refl ]

pub mem-erase :
    (nodes : List (ℕ × Node)) (key x : ℕ)
    → From 0 nodes
    → mem (erase key nodes) x ≡ (if x / 512 == key then false else mem nodes x)
mem-erase nodes key x h =
    ap (λ o. in_node o (x % 512)) (lookup-erase 0 key (x / 512) nodes h)
    ∙ elim (Bool-cases (x / 512 == key)) [ inl e ↦ rw e refl | inr e ↦ rw e refl ]

-- What `operator[]` gives is a node with the identifiers of its chunk.
pub at_or_lem :
    (nodes : List (ℕ × Node)) (key : ℕ)
    → IsNodes nodes
    → IsNode (at_or empty_node key nodes)
      × ((p : ℕ) → has (at_or empty_node key nodes) p ≡ in_node (lookup key nodes) p)
unfolding at_or
at_or_lem nodes key n = elim (Option-cases (lookup key nodes)) [
  | inl e ↦ rw (at_or, e) (empty_node-IsNode, has-empty)
  | inr (node, e) ↦ rw (at_or, e) ((n.chunks key node e).is_node, λ p. refl)
]

pub put-IsNodes :
    (nodes : List (ℕ × Node)) (key : ℕ) (node : Node)
    → IsNodes nodes
    → IsChunk key node
    → IsNodes (put key node nodes)
put-IsNodes nodes key node n c = record {
  ordered = put-From 0 key node nodes (omega arith) n.ordered;
  chunks = λ k v e. elim (Bool-cases (k == key)) [
    | inl f ↦
        let same : k ≡ key = ground arith in
        let value : node ≡ v = eq_of_some (sym (lookup-put key k node nodes ∙ rw f refl) ∙ e) in
        subst (λ j. IsChunk j v) (sym same) (subst (IsChunk key) value c)
    | inr f ↦ n.chunks k v (sym (lookup-put key k node nodes ∙ rw f refl) ∙ e)
  ];
}

pub erase-IsNodes : (nodes : List (ℕ × Node)) (key : ℕ) → IsNodes nodes → IsNodes (erase key nodes)
erase-IsNodes nodes key n = record {
  ordered = erase-From 0 key nodes n.ordered;
  chunks = λ k v e. elim (Bool-cases (k == key)) [
    | inl f ↦ absurd (ground (arith, lookup-erase 0 key k nodes n.ordered, e, f))
    | inr f ↦ n.chunks k v (sym (lookup-erase 0 key k nodes n.ordered ∙ rw f refl) ∙ e)
  ];
}

-- An identifier in the nodes has 32 bits.
pub mem_narrow : (nodes : List (ℕ × Node)) (x : ℕ) → IsNodes nodes → mem nodes x ≡ true → x < 2 ^ 32
mem_narrow nodes x n h = elim (Option-cases (lookup (x / 512) nodes)) [
  | inl e ↦ absurd (ground (arith, ap (λ o. in_node o (x % 512)) e))
  | inr (node, e) ↦ omega (arith, (n.chunks (x / 512) node e).narrow)
]
