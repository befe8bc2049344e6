-- ===== src/BitSet/Insert.antt =====
-- core/adt/bitset.h: `Insert`, `Contains` and the empty set.
use llir_opt.Prelude.{
  ℕ, ◌-◌, ◌*◌, ◌/◌, ◌%◌, ◌^◌, ◌<◌, ◌≡◌, refl, sym, ap, ◌∙◌, inl, inr, Bool, true, false, not, ◌||◌,
  List, arith, ltb, ◌==◌, if◌then◌else◌, Bool-cases, Option-cases,
}
use llir_opt.SortedMap.{lookup, put, at_or}
use llir_opt.BitSet.Chunk.{Node, empty_node, all_zero, node_insert}
use llir_opt.BitSet.Words.{has, has-all_zero, node_insert_lem, node_contains_lem}
use llir_opt.BitSet.{BitSet, empty_set, insert, contains, contains_in}
use llir_opt.BitSet.Valid.{in_node, mem, IsNodes, IsValid, mem-put, at_or_lem, put-IsNodes}

-- `BitSet()` is valid and has nothing in it.
pub empty_set-IsValid : IsValid empty_set × ((x : ℕ) → mem empty_set.nodes x ≡ false)
unfolding empty_set lookup
empty_set-IsValid = (
  record {
    nodes = record { ordered = tt; chunks = λ key node e. absurd (ground (arith, e)) };
    lower = λ x h. absurd (ground (arith, h));
    upper = λ x h. absurd (ground (arith, h));
    ends = inl (refl, refl, refl);
  },
  λ x. refl,
)

-- A node with something in it is not empty.
pub not_empty_of_has : (node : Node) (p : ℕ) → has node p ≡ true → all_zero node ≡ false
not_empty_of_has node p h = elim (Bool-cases (all_zero node)) [
  | inl e ↦ absurd (cc (has-all_zero node p e, h))
  | inr e ↦ e
]

-- The identifiers after a node was written: those of the node in its chunk, and the others.
pub mem_written :
    (nodes : List (ℕ × Node)) (key : ℕ) (node : Node) (x : ℕ) (b : Bool)
    → (x / 512 ≡ key → has node (x % 512) ≡ b)
    → ((x / 512 == key) ≡ false → mem nodes x ≡ b)
    → mem (put key node nodes) x ≡ b
mem_written nodes key node x b f g =
    mem-put nodes key node x
    ∙ elim (Bool-cases (x / 512 == key)) [ inl e ↦ rw e (f (ground arith)) | inr e ↦ rw e (g e) ]

-- The identifiers of a chunk, by the chunk.
pub mem_in :
    (nodes : List (ℕ × Node)) (key x : ℕ)
    → x / 512 ≡ key
    → in_node (lookup key nodes) (x % 512) ≡ mem nodes x
mem_in nodes key x e = ap (λ k. in_node (lookup k nodes) (x % 512)) (sym e)

insert_first :
    (s : BitSet) (item : ℕ)
    → IsValid s
    → item < 2 ^ 32
    → ((if ltb item s.first then item else s.first) == item
        || mem s.nodes (if ltb item s.first then item else s.first))
      ≡ true
insert_first s item v h = elim (Bool-cases (ltb item s.first)) [
  | inl e ↦ rw e (ground arith)
  | inr e ↦ rw e (elim v.ends [ inl (_, top, _) ↦ ground arith | inr (m, _) ↦ ground (arith, m) ])
]

insert_last :
    (s : BitSet) (item : ℕ)
    → IsValid s
    → ((if ltb s.last item then item else s.last) == item
        || mem s.nodes (if ltb s.last item then item else s.last))
      ≡ true
insert_last s item v = elim (Bool-cases (ltb s.last item)) [
  | inl e ↦ rw e (ground arith)
  | inr e ↦ rw e (elim v.ends [ inl (_, _, low) ↦ ground arith | inr (_, m) ↦ ground (arith, m) ])
]

insert_members :
    (nodes : List (ℕ × Node)) (item x : ℕ)
    → IsNodes nodes
    → mem
        (put
          (item / 512)
          (node_insert (at_or empty_node (item / 512) nodes) (item - item / 512 * 512)).0
          nodes)
        x
      ≡ (x == item || mem nodes x)
insert_members nodes item x n =
    let key = item / 512 in
    let bit = item - key * 512 in
    let node = at_or empty_node key nodes in
    let (node_ok, same) = at_or_lem nodes key n in
    let (ok, fresh, now) = node_insert_lem node bit node_ok (omega arith) in
    mem_written nodes key (node_insert node bit).0 x (x == item || mem nodes x)
      (λ e.
        now (x % 512)
        ∙ ap (λ b. x % 512 == bit || b) (same (x % 512) ∙ mem_in nodes key x e)
        ∙ ap (λ b. b || mem nodes x) (same_item e))
      (λ e. ground arith)
  where
    same_item : x / 512 ≡ item / 512 → (x % 512 == item - item / 512 * 512) ≡ (x == item)
    same_item e = ground arith

-- `Insert` of an identifier into a valid set gives a valid set, with that identifier and those that
-- were in it, and returns whether the identifier was missing.
pub mem-insert :
    (s : BitSet) (item : ℕ)
    → IsValid s
    → item < 2 ^ 32
    → IsValid (insert s item).0
      × ((x : ℕ) → mem (insert s item).0.nodes x ≡ (x == item || mem s.nodes x))
      × ((insert s item).1 ≡ not (mem s.nodes item))
unfolding insert
mem-insert s item v h =
    let key = item / 512 in
    let bit = item - key * 512 in
    let node = at_or empty_node key s.nodes in
    let (node_ok, same) = at_or_lem s.nodes key v.nodes in
    let (ok, fresh, now) = node_insert_lem node bit node_ok (omega arith) in
    let place : bit ≡ item % 512 = omega arith in
    let new = (node_insert node bit).0 in
    let members = λ (x : ℕ). insert_members s.nodes item x v.nodes in
    (
      record {
        nodes = put-IsNodes s.nodes key new v.nodes (record {
          is_node = ok;
          not_empty = not_empty_of_has new bit (now bit ∙ ground arith);
          narrow = omega arith;
        });
        lower = λ x e. ground (arith, members x, v.lower x, e);
        upper = λ x e. ground (arith, members x, v.upper x, e);
        ends = inr (members _ ∙ insert_first s item v h, members _ ∙ insert_last s item v);
      },
      members,
      fresh ∙ ap not (same bit ∙ ap (λ p. in_node (lookup key s.nodes) p) place),
    )

-- `Contains` of a valid set says whether an identifier is in it.
pub contains-mem : (s : BitSet) (item : ℕ) → IsValid s → contains s item ≡ mem s.nodes item
unfolding contains contains_in
contains-mem s item v = elim (Bool-cases (ltb item s.first || ltb s.last item)) [
  | inl e ↦ rw e (elim (Bool-cases (mem s.nodes item)) [
    | inl m ↦ absurd (ground (arith, v.lower item m, v.upper item m))
    | inr m ↦ sym m
  ])
  | inr e ↦ rw e (elim (Option-cases (lookup (item / 512) s.nodes)) [
    | inl none_there ↦ rw none_there refl
    | inr (node, there) ↦
        let place : item - item / 512 * 512 ≡ item % 512 = omega arith in
        rw there (
          node_contains_lem node (item - item / 512 * 512)
            ((v.nodes.chunks (item / 512) node there).is_node)
          ∙ ap (has node) place)
  ])
]
