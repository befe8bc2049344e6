-- ===== src/BitSet/Intersect.antt =====
-- core/adt/bitset.h: `Intersect`, which walks the nodes of two sets side by side.
use llir_opt.Prelude.{
  ℕ, suc, ◌+◌, ◌/◌, ◌%◌, ◌≡◌, ap, ◌∙◌, inl, inr, Bool, true, ◌&&◌, ◌||◌, List, [], ◌∷◌, arith, ltb,
  Bool-cases,
}
use llir_opt.BitSet.Chunk.{Node, node_and}
use llir_opt.BitSet.Words.{has-all_zero}
use llir_opt.BitSet.Combine.{node_and_lem}
use llir_opt.BitSet.{BitSet, intersect_nodes, intersect}
use llir_opt.BitSet.Valid.{mem, IsValid}
use llir_opt.BitSet.Nodes.{
  NodesFrom, IsNodes-NodesFrom, NodesFrom-uncons, NodesFrom-cons, NodesFrom-weaken, mem-cons,
  mem_below,
}
use llir_opt.BitSet.Ends.{reset-IsValid}
use llir_opt.BitSet.Subtract.{left_over}

-- Past all nodes, by key.
abbrev pub beyond : List (ℕ × Node) → ℕ → Bool
beyond [] x = true
beyond ((k, _) ∷ rest) x = ltb k (x / 512) && beyond rest x

intersect_nodes_lem :
    (b c : ℕ) (nodes those : List (ℕ × Node))
    → NodesFrom b nodes
    → NodesFrom c those
    → NodesFrom b (intersect_nodes nodes those)
      × ((x : ℕ)
          → mem (intersect_nodes nodes those) x ≡ (mem nodes x && (mem those x || beyond those x)))
unfolding intersect_nodes
intersect_nodes_lem b c [] those n m =
    (n, λ x. ground (arith, mem_below (x / 512 + 1) [] x tt (omega arith)))
intersect_nodes_lem b c ((j, v) ∷ rest) [] n m = (n, λ x. ground arith)
intersect_nodes_lem b c ((j, v) ∷ rest) ((k, w) ∷ those) n m =
    let (chunk, tail) = NodesFrom-uncons b j v rest n in
    let (chunk', tail') = NodesFrom-uncons c k w those m in
    let low = n.ordered.0 in
    elim (Bool-cases (ltb j k)) [
      | inl e ↦
          let (ok, members) = intersect_nodes_lem (suc j) c rest ((k, w) ∷ those) tail m in
          rw e (
            NodesFrom-weaken (suc j) b (intersect_nodes rest ((k, w) ∷ those)) (omega (arith, low))
                ok,
            λ x.
                members x
                ∙ ground (
                  arith,
                  mem-cons j v rest x,
                  mem-cons k w those x,
                  mem_below (suc j) rest x tail.ordered,
                  mem_below (suc k) those x tail'.ordered,
                  e,
                ),
          )
      | inr e ↦ elim (Bool-cases (ltb k j)) [
        | inl f ↦
            let (ok, members) = intersect_nodes_lem b (suc k) ((j, v) ∷ rest) those n tail' in
            rw (e, f)
              (
                ok,
                λ x.
                    members x
                    ∙ ground (
                      arith,
                      mem-cons j v rest x,
                      mem-cons k w those x,
                      mem_below (suc j) rest x tail.ordered,
                      f,
                    ),
              )
        | inr f ↦
            let (ok, members) = intersect_nodes_lem (suc j) (suc k) rest those tail tail' in
            let (sound, empty, now) = node_and_lem v w chunk.is_node chunk'.is_node in
            elim (left_over j v (node_and v w).0 (node_and v w).1 chunk sound empty) [
              | inl (z, zz) ↦
                  rw (e, f, zz)
                    (
                      NodesFrom-weaken (suc j) b (intersect_nodes rest those) (omega (arith, low))
                          ok,
                      λ x.
                          members x
                          ∙ ground (
                            arith,
                            mem-cons j v rest x,
                            mem-cons k w those x,
                            mem_below (suc j) rest x tail.ordered,
                            mem_below (suc k) those x tail'.ordered,
                            now (x % 512) (omega arith),
                            has-all_zero (node_and v w).0 (x % 512) z,
                            e,
                            f,
                          ),
                    )
              | inr (zz, left) ↦
                  rw (e, f, zz)
                    (
                      NodesFrom-cons b j (node_and v w).0 (intersect_nodes rest those) low left ok,
                      λ x.
                          mem-cons j (node_and v w).0 (intersect_nodes rest those) x
                          ∙ ground (
                            arith,
                            members x,
                            mem-cons j v rest x,
                            mem-cons k w those x,
                            mem_below (suc j) rest x tail.ordered,
                            mem_below (suc k) those x tail'.ordered,
                            now (x % 512) (omega arith),
                            e,
                            f,
                          ),
                    )
            ]
      ]
    ]

-- `Intersect` of valid sets gives a valid set. It has the identifiers that are in both, and also
-- those of the first set whose chunk comes after all chunks of the second.
pub mem-intersect :
    (s t : BitSet)
    → IsValid s
    → IsValid t
    → IsValid (intersect s t)
      × ((x : ℕ)
          → mem (intersect s t).nodes x ≡ (mem s.nodes x && (mem t.nodes x || beyond t.nodes x)))
unfolding intersect
mem-intersect s t v w =
    let (ok, members) =
      intersect_nodes_lem 0 0 s.nodes t.nodes (IsNodes-NodesFrom s.nodes v.nodes)
        (IsNodes-NodesFrom t.nodes w.nodes) in
    let (valid, same) = reset-IsValid (intersect_nodes s.nodes t.nodes) ok in
    (valid, λ x. ap (λ nodes. mem nodes x) same ∙ members x)
