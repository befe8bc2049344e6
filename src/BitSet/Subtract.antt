-- ===== src/BitSet/Subtract.antt =====
-- core/adt/bitset.h: `Subtract`, which walks the nodes of two sets side by side.
use llir_opt.Prelude.{
  ℕ, suc, ◌+◌, ◌/◌, ◌%◌, ◌≡◌, ap, ◌∙◌, ◌⊎◌, inl, inr, Bool, true, false, not, ◌&&◌, List, [], ◌∷◌,
  arith, ltb, Bool-cases,
}
use llir_opt.BitSet.Chunk.{Node, all_zero, node_subtract}
use llir_opt.BitSet.Words.{IsNode, has-all_zero}
use llir_opt.BitSet.Combine.{node_subtract_lem}
use llir_opt.BitSet.{BitSet, subtract_nodes, subtract}
use llir_opt.BitSet.Valid.{mem, IsChunk, IsValid}
use llir_opt.BitSet.Nodes.{
  NodesFrom, IsNodes-NodesFrom, NodesFrom-uncons, NodesFrom-cons, NodesFrom-weaken, mem-cons,
  mem_below,
}
use llir_opt.BitSet.Ends.{reset-IsValid}

-- What is left of a node is empty, or a node of the set.
pub left_over :
    (key : ℕ) (old new : Node) (zero_left : Bool)
    → IsChunk key old
    → IsNode new
    → zero_left ≡ all_zero new
    → (all_zero new ≡ true) × (zero_left ≡ true) ⊎ ((zero_left ≡ false) × IsChunk key new)
left_over key old new zero_left c n e = elim (Bool-cases (all_zero new)) [
  | inl z ↦ inl (z, e ∙ z)
  | inr z ↦ inr (e ∙ z, record { is_node = n; not_empty = z; narrow = c.narrow })
]

-- The nodes that `Subtract` leaves have the items of the first that are not in the second.
subtract_nodes_lem :
    (b c : ℕ) (nodes those : List (ℕ × Node))
    → NodesFrom b nodes
    → NodesFrom c those
    → NodesFrom b (subtract_nodes nodes those)
      × ((x : ℕ) → mem (subtract_nodes nodes those) x ≡ (mem nodes x && not (mem those x)))
unfolding subtract_nodes
subtract_nodes_lem b c [] those n m =
    (n, λ x. ground (arith, mem_below (x / 512 + 1) [] x tt (omega arith)))
subtract_nodes_lem b c ((j, v) ∷ rest) [] n m =
    (n, λ x. ground (arith, mem_below (x / 512 + 1) [] x tt (omega arith)))
subtract_nodes_lem b c ((j, v) ∷ rest) ((k, w) ∷ those) n m =
    let (chunk, tail) = NodesFrom-uncons b j v rest n in
    let (chunk', tail') = NodesFrom-uncons c k w those m in
    let low = n.ordered.0 in
    elim (Bool-cases (ltb j k)) [
      | inl e ↦
          let (ok, members) = subtract_nodes_lem (suc j) c rest ((k, w) ∷ those) tail m in
          rw e (
            NodesFrom-cons b j v (subtract_nodes rest ((k, w) ∷ those)) low chunk ok,
            λ x.
                mem-cons j v (subtract_nodes rest ((k, w) ∷ those)) x
                ∙ ground (
                  arith,
                  mem-cons j v rest x,
                  mem-cons k w those x,
                  mem_below (suc k) those x tail'.ordered,
                  members x,
                  e,
                ),
          )
      | inr e ↦ elim (Bool-cases (ltb k j)) [
        | inl f ↦
            let (ok, members) = subtract_nodes_lem b (suc k) ((j, v) ∷ rest) those n tail' in
            rw (e, f)
              (
                ok,
                λ x.
                    members x
                    ∙ ground (
                      arith,
                      mem-cons j v rest x,
                      mem-cons k w those x,
                      mem_below (suc j) rest x tail.ordered,
                      f,
                    ),
              )
        | inr f ↦
            let (ok, members) = subtract_nodes_lem (suc j) c rest ((k, w) ∷ those) tail m in
            let (sound, empty, now) = node_subtract_lem v w chunk.is_node chunk'.is_node in
            elim (left_over j v (node_subtract v w).0 (node_subtract v w).1 chunk sound empty) [
              | inl (z, zz) ↦
                  rw (e, f, zz)
                    (
                      NodesFrom-weaken (suc j) b (subtract_nodes rest ((k, w) ∷ those))
                          (omega (arith, low)) ok,
                      λ x.
                          members x
                          ∙ ground (
                            arith,
                            mem-cons j v rest x,
                            mem-cons k w those x,
                            mem_below (suc j) rest x tail.ordered,
                            now (x % 512) (omega arith),
                            has-all_zero (node_subtract v w).0 (x % 512) z,
                            e,
                            f,
                          ),
                    )
              | inr (zz, left) ↦
                  rw (e, f, zz)
                    (
                      NodesFrom-cons b j (node_subtract v w).0
                          (subtract_nodes rest ((k, w) ∷ those)) low left ok,
                      λ x.
                          mem-cons j (node_subtract v w).0 (subtract_nodes rest ((k, w) ∷ those)) x
                          ∙ ground (
                            arith,
                            members x,
                            mem-cons j v rest x,
                            mem-cons k w those x,
                            mem_below (suc k) those x tail'.ordered,
                            now (x % 512) (omega arith),
                            e,
                            f,
                          ),
                    )
            ]
      ]
    ]

-- `Subtract` of valid sets gives the valid set of the identifiers of the first that are not in the
-- second.
pub mem-subtract :
    (s t : BitSet)
    → IsValid s
    → IsValid t
    → IsValid (subtract s t)
      × ((x : ℕ) → mem (subtract s t).nodes x ≡ (mem s.nodes x && not (mem t.nodes x)))
unfolding subtract
mem-subtract s t v w =
    let (ok, members) =
      subtract_nodes_lem 0 0 s.nodes t.nodes (IsNodes-NodesFrom s.nodes v.nodes)
        (IsNodes-NodesFrom t.nodes w.nodes) in
    let (valid, same) = reset-IsValid (subtract_nodes s.nodes t.nodes) ok in
    (valid, λ x. ap (λ nodes. mem nodes x) same ∙ members x)
