-- ===== src/BitSet/Union.antt =====
-- core/adt/bitset.h: `Union`.
use llir_opt.Prelude.{
  ℕ, ◌-◌, ◌%◌, ◌^◌, ◌≤◌, ◌≡◌, refl, sym, ap, ◌∙◌, ◌⊎◌, inl, inr, Bool, true, ◌||◌, List, [], arith,
  ltb, if◌then◌else◌, Bool-cases,
}
use llir_opt.BitSet.Chunk.{Node}
use llir_opt.BitSet.{BitSet, u32_max, union_nodes, union_set, size_nodes}
use llir_opt.BitSet.Valid.{mem, IsValid, mem_narrow}
use llir_opt.BitSet.Nodes.{IsNodes-NodesFrom}
use llir_opt.BitSet.UnionNodes.{union_nodes_lem, union_nodes-size}

-- `min` and `max` of the two ends are ends of the union.
least_of_two :
    (P Q : ℕ → Bool) (a b : ℕ)
    → (P a ≡ true) ⊎ (a ≡ u32_max)
    → (Q b ≡ true) ⊎ (b ≡ u32_max)
    → (P a ≡ true) ⊎ (Q b ≡ true)
    → a ≤ u32_max
    → b ≤ u32_max
    → (P (if ltb b a then b else a) || Q (if ltb b a then b else a)) ≡ true
least_of_two P Q a b p q r la lb = elim (Bool-cases (ltb b a)) [
  | inl e ↦ rw e (elim q [ inl h ↦ ground (arith, h) | inr h ↦ absurd (ground arith) ])
  | inr e ↦ rw e (elim p [
    | inl h ↦ ground (arith, h)
    | inr h ↦ elim r [
      | inl k ↦ ground (arith, k)
      | inr k ↦ let same : b ≡ a = ground arith in ground (arith, sym (ap Q same) ∙ k)
    ]
  ])
]

greatest_of_two :
    (P Q : ℕ → Bool) (a b : ℕ)
    → (P a ≡ true) ⊎ (a ≡ 0)
    → (Q b ≡ true) ⊎ (b ≡ 0)
    → (P a ≡ true) ⊎ (Q b ≡ true)
    → (P (if ltb a b then b else a) || Q (if ltb a b then b else a)) ≡ true
greatest_of_two P Q a b p q r = elim (Bool-cases (ltb a b)) [
  | inl e ↦ rw e (elim q [ inl h ↦ ground (arith, h) | inr h ↦ absurd (ground arith) ])
  | inr e ↦ rw e (elim p [
    | inl h ↦ ground (arith, h)
    | inr h ↦ elim r [
      | inl k ↦ ground (arith, k)
      | inr k ↦ let same : b ≡ a = ground arith in ground (arith, sym (ap Q same) ∙ k)
    ]
  ])
]

-- The ends of a valid set: in it, or the ones of the empty set.
first_cases :
    (s : BitSet)
    → IsValid s
    → ((mem s.nodes s.first ≡ true) ⊎ (s.first ≡ u32_max)) × (s.first ≤ u32_max)
first_cases s v = elim v.ends [
  | inl (_, top, _) ↦ (inr top, omega (arith, top))
  | inr (m, _) ↦ (inl m, omega (arith, mem_narrow s.nodes s.first v.nodes m))
]

last_cases : (s : BitSet) → IsValid s → (mem s.nodes s.last ≡ true) ⊎ (s.last ≡ 0)
last_cases s v = elim v.ends [ inl (_, _, low) ↦ inr low | inr (_, m) ↦ inl m ]

union_ends :
    (s t : BitSet) (merged : List (ℕ × Node))
    → IsValid s
    → IsValid t
    → (s.nodes ≡ [] → t.nodes ≡ [] → merged ≡ [])
    → ((x : ℕ) → mem merged x ≡ (mem s.nodes x || mem t.nodes x))
    → ((merged ≡ [])
        × ((if ltb t.first s.first then t.first else s.first) ≡ u32_max)
        × ((if ltb s.last t.last then t.last else s.last) ≡ 0))
      ⊎ ((mem merged (if ltb t.first s.first then t.first else s.first) ≡ true)
          × (mem merged (if ltb s.last t.last then t.last else s.last) ≡ true))
union_ends s t merged v w none_left members =
    let (p, la) = first_cases s v in
    let (q, lb) = first_cases t w in
    let first = λ (r : (mem s.nodes s.first ≡ true) ⊎ (mem t.nodes t.first ≡ true)).
      members _ ∙ least_of_two (mem s.nodes) (mem t.nodes) s.first t.first p q r la lb in
    let last = λ (r : (mem s.nodes s.last ≡ true) ⊎ (mem t.nodes t.last ≡ true)).
      members _
      ∙ greatest_of_two (mem s.nodes) (mem t.nodes) s.last t.last (last_cases s v) (last_cases t w)
          r in
    elim v.ends [
      | inr (m, l) ↦ inr (first (inl m), last (inl l))
      | inl (none_here, top, low) ↦ elim w.ends [
        | inr (m, l) ↦ inr (first (inr m), last (inr l))
        | inl (none_there, top', low') ↦
            inl (none_left none_here none_there, ground arith, ground arith)
      ]
    ]

-- `Union` of two valid sets is a valid set with the identifiers of both. What it returns is
-- by how much `Size` grew, modulo 2^32.
pub mem-union :
    (s t : BitSet)
    → IsValid s
    → IsValid t
    → IsValid (union_set s t).0
      × ((x : ℕ) → mem (union_set s t).0.nodes x ≡ (mem s.nodes x || mem t.nodes x))
      × ((union_set s t).1 ≡ (size_nodes (union_set s t).0.nodes - size_nodes s.nodes) % 2 ^ 32)
unfolding union_set
mem-union s t v w =
    let (ok, members) =
      union_nodes_lem 0 s.nodes t.nodes v.nodes (IsNodes-NodesFrom t.nodes w.nodes) in
    let grown = union_nodes-size 0 s.nodes t.nodes v.nodes (IsNodes-NodesFrom t.nodes w.nodes) in
    (
      record {
        nodes = ok;
        lower = λ x e. ground (arith, members x, v.lower x, w.lower x, e);
        upper = λ x e. ground (arith, members x, v.upper x, w.upper x, e);
        ends =
            union_ends s t (union_nodes s.nodes t.nodes).0 v w (λ e f. rw (e, f, union_nodes) refl)
              members;
      },
      members,
      ap (λ n. n % 2 ^ 32) (omega (arith, grown)),
    )
