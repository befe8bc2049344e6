-- ===== src/BitSet/Erase.antt =====
-- core/adt/bitset.h: `Erase`.
use llir_opt.Prelude.{
  ℕ, suc, ◌+◌, ◌-◌, ◌*◌, ◌/◌, ◌%◌, ◌^◌, ◌<◌, ◌≡◌, ◌≢◌, refl, sym, ap, ◌∙◌, inl, inr, true, false,
  not, ◌&&◌, List, [], ◌∷◌, some, arith, ◌==◌, if◌then◌else◌, Bool-cases,
}
use llir_opt.SortedMap.{put, erase, at_or}
use llir_opt.SortedMap.Laws.{lookup-put, lookup-erase, put-From, erase-From}
use llir_opt.BitSet.Chunk.{Node, empty_node, node_erase, node_first}
use llir_opt.BitSet.Words.{has-all_zero, node_erase_lem}
use llir_opt.BitSet.Extremes.{Least, Greatest}
use llir_opt.BitSet.{BitSet, u32_max, no_nodes, begin, rbegin, erase_ends, erase_nodes, erase_item}
use llir_opt.BitSet.Valid.{
  mem, IsNodes, IsValid, mem-put, mem-erase, at_or_lem, put-IsNodes, mem_narrow,
}
use llir_opt.BitSet.Nodes.{IsNodes-NodesFrom, NodesFrom-uncons}
use llir_opt.BitSet.Ends.{chunk_Least, mem_at}
use llir_opt.BitSet.Insert.{mem_in, mem_written}
use llir_opt.BitSet.Forward.{next_item}
use llir_opt.BitSet.Backward.{prev_item}

-- A row of nodes without items is empty.
nil_of_mem :
    (nodes : List (ℕ × Node)) → IsNodes nodes → ((x : ℕ) → mem nodes x ≡ false) → nodes ≡ []
nil_of_mem [] n h = refl
nil_of_mem ((key, node) ∷ rest) n h =
    let (chunk, tail) = NodesFrom-uncons 0 key node rest (IsNodes-NodesFrom _ n) in
    let least = chunk_Least key node chunk in
    absurd (
      ground (
        arith,
        h (key * 512 + node_first node),
        mem_at key node rest (node_first node) least.below,
        least.holds,
      ))

-- A node may be written and erased again.
erase_written :
    (nodes : List (ℕ × Node)) (key : ℕ) (node : Node)
    → IsNodes nodes
    → IsNodes (erase key (put key node nodes))
      × ((x : ℕ)
          → mem (erase key (put key node nodes)) x
            ≡ (if x / 512 == key then false else mem nodes x))
erase_written nodes key node n =
    let ordered = put-From 0 key node nodes (omega arith) n.ordered in
    let same = λ (k : ℕ). lookup-erase 0 key k (put key node nodes) ordered in
    (
      record {
        ordered = erase-From 0 key (put key node nodes) ordered;
        chunks = λ k v e. elim (Bool-cases (k == key)) [
          | inl f ↦ absurd (ground (arith, same k, e, f))
          | inr f ↦
              n.chunks k v
                (sym (lookup-put key k node nodes ∙ rw f refl) ∙ sym (same k ∙ rw f refl) ∙ e)
        ];
      },
      λ x. mem-erase (put key node nodes) key x ordered ∙ elim (Bool-cases (x / 512 == key)) [
        | inl f ↦ rw f refl
        | inr f ↦ rw f (mem-put nodes key node x ∙ rw f refl)
      ],
    )

erase_nodes_lem :
    (nodes : List (ℕ × Node)) (item : ℕ)
    → IsNodes nodes
    → item < 2 ^ 32
    → IsNodes (erase_nodes nodes item)
      × ((x : ℕ) → mem (erase_nodes nodes item) x ≡ (not (x == item) && mem nodes x))
unfolding erase_nodes
erase_nodes_lem nodes item n h =
    let key = item / 512 in
    let bit = item - key * 512 in
    let (node_ok, same) = at_or_lem nodes key n in
    let (ok, empty, now) = node_erase_lem (at_or empty_node key nodes) bit node_ok (omega arith) in
    let node = node_erase (at_or empty_node key nodes) bit in
    let left = λ (x : ℕ) (e : x / 512 ≡ key).
      now (x % 512)
      ∙ ap (λ b. not (x % 512 == bit) && b) (same (x % 512) ∙ mem_in nodes key x e)
      ∙ ap (λ b. not b && mem nodes x) (same_item x e) in
    elim (Bool-cases node.1) [
      | inl f ↦
          let (sound, members) = erase_written nodes key node.0 n in
          rw f (
            sound,
            λ x. members x ∙ elim (Bool-cases (x / 512 == key)) [
              | inl e ↦
                  rw e (sym (has-all_zero node.0 (x % 512) (sym empty ∙ f)) ∙ left x (ground arith))
              | inr e ↦ rw e (ground arith)
            ],
          )
      | inr f ↦ rw f (
        put-IsNodes nodes key node.0 n
            (record { is_node = ok; not_empty = sym empty ∙ f; narrow = omega arith }),
        λ x.
            mem_written nodes key node.0 x (not (x == item) && mem nodes x) (left x)
              (λ e. ground arith),
      )
    ]
  where
    same_item : (x : ℕ) → x / 512 ≡ item / 512 → (x % 512 == item - item / 512 * 512) ≡ (x == item)
    same_item x e = ground arith

-- What is left after the only item is erased, after the first one, and after the last one.
erase_only :
    (s : BitSet) (item : ℕ) (nodes : List (ℕ × Node))
    → IsValid s
    → IsNodes nodes
    → ((x : ℕ) → mem nodes x ≡ (not (x == item) && mem s.nodes x))
    → item ≡ s.first
    → item ≡ s.last
    → IsValid (record { first = u32_max; last = 0; nodes = nodes })
erase_only s item nodes v n members f l = record {
  nodes = n;
  lower = λ x h. absurd (cc (none_left x, h));
  upper = λ x h. absurd (cc (none_left x, h));
  ends = inl (nil_of_mem nodes n none_left, refl, refl);
}
  where
    none_left : (x : ℕ) → mem nodes x ≡ false
    none_left x = ground (arith, members x, v.lower x, v.upper x)

erase_first :
    (s : BitSet) (item y : ℕ) (nodes : List (ℕ × Node))
    → IsValid s
    → IsNodes nodes
    → ((x : ℕ) → mem nodes x ≡ (not (x == item) && mem s.nodes x))
    → mem s.nodes s.last ≡ true
    → item ≡ s.first
    → item ≢ s.last
    → Least (mem s.nodes) (suc s.first) (suc s.last) y
    → IsValid (record { first = y % 2 ^ 32; last = s.last; nodes = nodes })
erase_first s item y nodes v n members m f l least =
    let narrow : y % 2 ^ 32 ≡ y = omega (arith, mem_narrow s.nodes y v.nodes least.holds) in
    rw narrow (record {
      nodes = n;
      lower = λ x h. ground (arith, members x, v.lower x, least.first x);
      upper = λ x h. ground (arith, members x, v.upper x);
      ends = inr (
        ground (arith, members y, least.holds, least.above),
        ground (arith, members s.last, m, l),
      );
    })

erase_last :
    (s : BitSet) (item y : ℕ) (nodes : List (ℕ × Node))
    → IsValid s
    → IsNodes nodes
    → ((x : ℕ) → mem nodes x ≡ (not (x == item) && mem s.nodes x))
    → mem s.nodes s.first ≡ true
    → item ≢ s.first
    → item ≡ s.last
    → Greatest (mem s.nodes) s.first s.last y
    → IsValid (record { first = s.first; last = y % 2 ^ 32; nodes = nodes })
erase_last s item y nodes v n members m f l most =
    let narrow : y % 2 ^ 32 ≡ y = omega (arith, mem_narrow s.nodes y v.nodes most.holds) in
    rw narrow (record {
      nodes = n;
      lower = λ x h. ground (arith, members x, v.lower x);
      upper = λ x h. ground (arith, members x, v.upper x, most.last x);
      ends = inr (
        ground (arith, members s.first, m, f),
        ground (arith, members y, most.holds, most.below),
      );
    })

-- `Erase` of an identifier, in the set or not, is defined on every valid set with a node. It gives a
-- valid set with the other identifiers of the set.
pub mem-erase_item :
    (s : BitSet) (item : ℕ)
    → IsValid s
    → no_nodes s.nodes ≡ false
    → item < 2 ^ 32
    → (s' : BitSet) × (erase_item s item ≡ some s')
      × IsValid s'
      × ((x : ℕ) → mem s'.nodes x ≡ (not (x == item) && mem s.nodes x))
unfolding erase_item erase_ends begin rbegin
mem-erase_item s item v h small =
    let (ok, members) = erase_nodes_lem s.nodes item v.nodes small in
    let (m, l) = both_ends in
    elim (Bool-cases (item == s.first)) [
      | inl f ↦ elim (Bool-cases (item == s.last)) [
        | inl g ↦ (
          record { first = u32_max; last = 0; nodes = erase_nodes s.nodes item },
          rw (f, g) refl,
          erase_only s item _ v ok members (ground arith) (ground arith),
          members,
        )
        | inr g ↦
            let (y, step, least) = next_item s s.first v m (ground (arith, v.upper s.first m)) in
            (
              record { first = y % 2 ^ 32; last = s.last; nodes = erase_nodes s.nodes item },
              rw (f, g, h, step) refl,
              erase_first s item y _ v ok members l (ground arith) (ground arith) least,
              members,
            )
      ]
      | inr f ↦ elim (Bool-cases (item == s.last)) [
        | inl g ↦
            let (y, step, most) = prev_item s s.last v l (ground (arith, v.lower s.last l)) in
            (
              record { first = s.first; last = y % 2 ^ 32; nodes = erase_nodes s.nodes item },
              rw (f, g, h, step) refl,
              erase_last s item y _ v ok members m (ground arith) (ground arith) most,
              members,
            )
        | inr g ↦ (
          record { first = s.first; last = s.last; nodes = erase_nodes s.nodes item },
          rw (f, g) refl,
          record {
            nodes = ok;
            lower = λ x e. ground (arith, members x, v.lower x);
            upper = λ x e. ground (arith, members x, v.upper x);
            ends = inr (ground (arith, members s.first, m), ground (arith, members s.last, l));
          },
          members,
        )
      ]
    ]
  where
    both_ends : (mem s.nodes s.first ≡ true) × (mem s.nodes s.last ≡ true)
    both_ends = elim v.ends [ inl (e, _, _) ↦ absurd (cc (sym (ap no_nodes e), h)) | inr p ↦ p ]
