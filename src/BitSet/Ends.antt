-- ===== src/BitSet/Ends.antt =====
-- core/adt/bitset.h: `ResetFirstLast`, and the ends of a row of nodes.
use llir_opt.Prelude.{
  ℕ, suc, ◌+◌, ◌*◌, ◌/◌, ◌%◌, ◌^◌, ◌<◌, ◌≤◌, ◌≡◌, refl, ap, ◌∙◌, inl, inr, true, List, [], ◌∷◌,
  arith, ltb, ◌==◌, Bool-cases,
}
use llir_opt.SortedMap.{last_entry}
use llir_opt.BitSet.Chunk.{Node, node_first, node_last}
use llir_opt.BitSet.Words.{has, all_zero_of_has}
use llir_opt.BitSet.Extremes.{Least, Greatest}
use llir_opt.BitSet.Scan.{node_first_lem, node_last_lem}
use llir_opt.BitSet.{reset}
use llir_opt.BitSet.Valid.{mem, IsChunk, IsValid, mem_narrow}
use llir_opt.BitSet.Nodes.{NodesFrom, NodesFrom-IsNodes, NodesFrom-uncons, mem-cons, mem_below}

-- The ends of a node that is not empty.
pub chunk_Least :
    (key : ℕ) (node : Node) → IsChunk key node → Least (has node) 0 512 (node_first node)
chunk_Least key node c = elim (node_first_lem node c.is_node) [
  | inl l ↦ l
  | inr (_, h) ↦
      absurd (cc (all_zero_of_has node c.is_node (λ p l. h p (omega arith) l), c.not_empty))
]

pub chunk_Greatest :
    (key : ℕ) (node : Node) → IsChunk key node → Greatest (has node) 0 512 (node_last node)
chunk_Greatest key node c = elim (node_last_lem node c.is_node) [
  | inl l ↦ l
  | inr (_, h) ↦
      absurd (cc (all_zero_of_has node c.is_node (λ p l. h p (omega arith) l), c.not_empty))
]

-- An item by its chunk and its place there.
pub mem_at :
    (key : ℕ) (node : Node) (rest : List (ℕ × Node)) (p : ℕ)
    → p < 512
    → mem ((key, node) ∷ rest) (key * 512 + p) ≡ has node p
mem_at key node rest p h =
    let chunk : (key * 512 + p) / 512 ≡ key = omega arith in
    let place : (key * 512 + p) % 512 ≡ p = omega arith in
    mem-cons key node rest (key * 512 + p) ∙ rw (chunk, place) (ground arith)

pub first_lower :
    (b key : ℕ) (node : Node) (rest : List (ℕ × Node)) (x : ℕ)
    → NodesFrom b ((key, node) ∷ rest)
    → mem ((key, node) ∷ rest) x ≡ true
    → key * 512 + node_first node ≤ x
first_lower b key node rest x n h =
    let (chunk, tail) = NodesFrom-uncons b key node rest n in
    let least = chunk_Least key node chunk in
    elim (Bool-cases (key == x / 512)) [
      | inl e ↦ elim (Bool-cases (ltb (x % 512) (node_first node))) [
        | inl l ↦ absurd (
            ground (
              arith,
              mem-cons key node rest x,
              least.first (x % 512) (omega arith) (ground arith),
              h,
            ))
        | inr l ↦ ground arith
      ]
      | inr e ↦ elim (Bool-cases (ltb (x / 512) (suc key))) [
        | inl l ↦ absurd (
            ground (
              arith,
              mem-cons key node rest x,
              mem_below (suc key) rest x tail.ordered (ground arith),
              h,
            ))
        | inr l ↦ ground (arith, least.below)
      ]
    ]

-- The last entry holds the greatest item.
last_upper :
    (b key : ℕ) (node : Node) (rest : List (ℕ × Node))
    → NodesFrom b ((key, node) ∷ rest)
    → let e = last_entry (key, node) rest in
      let top = e.0 * 512 + node_last e.1 in
      (mem ((key, node) ∷ rest) top ≡ true)
      × ((x : ℕ) → mem ((key, node) ∷ rest) x ≡ true → x ≤ top)
unfolding last_entry
last_upper b key node [] n =
    let (chunk, tail) = NodesFrom-uncons b key node [] n in
    let most = chunk_Greatest key node chunk in
    (
      mem_at key node [] (node_last node) most.below ∙ most.holds,
      λ x h. elim (Bool-cases (key == x / 512)) [
        | inl e ↦ elim (Bool-cases (ltb (node_last node) (x % 512))) [
          | inl l ↦ absurd (
              ground (
                arith,
                mem-cons key node [] x,
                most.last (x % 512) (ground arith) (omega arith),
                h,
              ))
          | inr l ↦ ground arith
        ]
        | inr e ↦ absurd (
            ground
              (arith, mem-cons key node [] x, mem_below (x / 512 + 1) [] x tt (omega arith), h))
      ],
    )
last_upper b key node ((j, w) ∷ rest) n =
    let (chunk, tail) = NodesFrom-uncons b key node ((j, w) ∷ rest) n in
    let (there, above) = last_upper (suc key) j w rest tail in
    let e = last_entry (j, w) rest in
    let top = e.0 * 512 + node_last e.1 in
    let past = first_lower (suc key) j w rest top tail there in
    let bound = tail.ordered.0 in
    (
      ground (arith, mem-cons key node ((j, w) ∷ rest) top, there, past, bound),
      λ x h. elim (Bool-cases (key == x / 512)) [
        | inl e ↦ ground (arith, past, bound)
        | inr e ↦ above x (ground (arith, mem-cons key node ((j, w) ∷ rest) x, h))
      ],
    )

-- `ResetFirstLast` makes nodes into a valid set.
pub reset-IsValid :
    (nodes : List (ℕ × Node))
    → NodesFrom 0 nodes
    → IsValid (reset nodes) × ((reset nodes).nodes ≡ nodes)
unfolding reset
reset-IsValid [] n = (
  record {
    nodes = NodesFrom-IsNodes 0 [] n;
    lower = λ x h. absurd (ground (arith, mem_below (x / 512 + 1) [] x tt (omega arith), h));
    upper = λ x h. absurd (ground (arith, mem_below (x / 512 + 1) [] x tt (omega arith), h));
    ends = inl (refl, refl, refl);
  },
  refl,
)
reset-IsValid ((key, node) ∷ rest) n =
    let (chunk, tail) = NodesFrom-uncons 0 key node rest n in
    let ok = NodesFrom-IsNodes 0 ((key, node) ∷ rest) n in
    let least = chunk_Least key node chunk in
    let (there, above) = last_upper 0 key node rest n in
    let e = last_entry (key, node) rest in
    let narrow : (key * 512 + node_first node) % 2 ^ 32 ≡ key * 512 + node_first node =
      omega (arith, chunk.narrow, least.below) in
    let narrow' : (e.0 * 512 + node_last e.1) % 2 ^ 32 ≡ e.0 * 512 + node_last e.1 =
      omega (arith, mem_narrow ((key, node) ∷ rest) (e.0 * 512 + node_last e.1) ok there) in
    (
      record {
        nodes = ok;
        lower = λ x h. omega (arith, narrow, first_lower 0 key node rest x n h);
        upper = λ x h. omega (arith, narrow', above x h);
        ends = inr (
          ap (mem ((key, node) ∷ rest)) narrow
              ∙ mem_at key node rest (node_first node) least.below
              ∙ least.holds,
          ap (mem ((key, node) ∷ rest)) narrow' ∙ there,
        );
      },
      refl,
    )
