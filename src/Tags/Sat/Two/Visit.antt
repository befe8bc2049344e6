-- ===== src/Tags/Sat/Two/Visit.antt =====
-- passes/tags/sat_2.cpp: `visit` returns, and gives a component of its own to each node it enters.
use llir_opt.Prelude.{
  ℕ, zero, suc, ◌<◌, ◌≤◌, ◌≡◌, refl, sym, ◌∙◌, inl, inr, Bool, true, List, [], ◌∷◌, Option, some,
  arith, length, get_elem?, get_elem?-set_self, get_elem?_lt, get_elem?_total, ◌==◌, Bool-cases,
}
use mathlib.Core.Path.{subst}
use mathlib.Core.Option.{some-injective}
use llir_opt.Tags.Sat.Two.{Node, Walk, visit, visit_succs}
use llir_opt.Tags.Sat.Two.Quiet.{
  AllBelow, Quiet, unvisited, Grows, Grows-refl, Grows-trans, unvisited-set, entered_node, entered,
  enter-entered, lower-same, finished, leave-finished,
}
use llir_opt.Tags.Sat.Two.Entered.{entered-Quiet, finished-Quiet, finished-Grows}

module _ (members : ℕ → Bool) where
  -- What `visit` of a node ends with.
  pub data Visited (v : ℕ) (s : Walk) (outcome : Option Walk) : Type 0 where
    visited :
        (t : Walk) (node : Node)
        → outcome ≡ some t
        → Quiet members t
        → Grows s t
        → get_elem? t.nodes v ≡ some node
        → 0 < node.index
        → Visited v s outcome

  data Followed (s : Walk) (outcome : Option Walk) : Type 0 where
    followed : (t : Walk) → outcome ≡ some t → Quiet members t → Grows s t → Followed s outcome

  Followed-trans :
      (s t : Walk) (outcome : Option Walk) → Grows s t → Followed t outcome → Followed s outcome
  Followed-trans s t outcome h (followed r e q g) = followed r e q (Grows-trans s t r h g)

  -- `visit` of the nodes that were not entered, while at most `fuel` of them are left.
  abbrev pub Visits : ℕ → (ℕ → Walk → Option Walk) → Type 0
  Visits fuel go =
      (u : ℕ) (s : Walk) (node : Node)
      → Quiet members s
      → get_elem? s.nodes u ≡ some node
      → node.index ≡ 0
      → unvisited s.nodes ≤ fuel
      → Visited u s (go u s)

  linked :
      (t : Walk) (j : ℕ) (n : Node)
      → Quiet members t
      → get_elem? t.nodes j ≡ some n
      → 0 < n.index
      → (n.link ≡ n.index) × (n.in_component ≡ true)
  linked t j n q g l = elim (q.settled j n g).1 [ inl z ↦ absurd (omega (arith, z, l)) | inr m ↦ m ]

  -- The loop over the successors changes nothing of the node itself.
  visit_succs-Followed :
      (fuel : ℕ) (go : ℕ → Walk → Option Walk) (v : ℕ) (us : List ℕ) (s : Walk) (node : Node)
      → Visits fuel go
      → Quiet members s
      → AllBelow (length s.nodes) us
      → get_elem? s.nodes v ≡ some node
      → 0 < node.index
      → unvisited s.nodes ≤ fuel
      → Followed s (visit_succs go v us s)
  unfolding visit_succs
  visit_succs-Followed fuel go v [] s node k q b e p f = followed s refl q (Grows-refl s)
  visit_succs-Followed fuel go v (u ∷ us) s node k q b e p f =
      let (succ, i) = get_elem?_total s.nodes u b.0 in
      elim (Bool-cases (succ.index == 0)) [
        | inr z ↦
            let marked : succ.in_component ≡ true = (linked s u succ q i (ground arith)).1 in
            rw (i, z, marked) (visit_succs-Followed fuel go v us s node k q b.1 e p f)
        | inl z ↦ elim (k u s succ q i (ground arith) f) [
          | visited t n o q' g i' l ↦
              let here : get_elem? t.nodes v ≡ some node = g.kept v node e p in
              let later : node.index < n.index = elim (g.fresh u n i' l) [
                | inr m ↦ omega (arith, m.0, (q.settled v node e).0)
                | inl same ↦ absurd (ground (arith, some-injective succ n (sym i ∙ same)))
              ] in
              let bottom : node.link ≤ n.link =
                omega (arith, (linked t v node q' here p).0, (linked t u n q' i' l).0, later) in
              let kept = lower-same v u t node n here i' bottom in
              rw (i, z, o, kept)
                (Followed-trans s t (visit_succs go v us t) g (
                  visit_succs-Followed fuel go v us t node k q'
                    (subst (λ (m : ℕ). AllBelow m us) (sym g.size) b.1) here p
                    (omega (arith, g.fewer, f))))
        ]
      ]

  pub visit-Visits : (fuel : ℕ) → Visits fuel (visit fuel)
  unfolding visit
  visit-Visits zero v s node q e z f =
      absurd
        (omega (arith, f, unvisited-set s.nodes v node (entered_node s node) e z (omega arith)))
  visit-Visits (suc fuel) v s node q e z f =
      let start = entered v s node in
      let next = entered_node s node in
      let here : get_elem? start.nodes v ≡ some next =
        get_elem?-set_self s.nodes v next (get_elem?_lt s.nodes v node e) in
      let q' = entered-Quiet members v s node q e in
      let left = unvisited-set s.nodes v node next e z (omega arith) in
      elim (visit_succs-Followed fuel (visit fuel) v node.next start next (visit-Visits fuel) q'
        (q'.ranged v next here) here (omega arith) (omega (arith, left, f))) [
          | followed t o q'' g ↦
              let there = g.kept v next here (omega arith) in
              let done = leave-finished v t next there refl refl q''.stack in
              visited (finished v t next) next (rw (enter-entered v s node e, here, o) done)
                (finished-Quiet members v t next q'' there)
                (finished-Grows members v s t node next e z g) there (omega arith)
        ]
