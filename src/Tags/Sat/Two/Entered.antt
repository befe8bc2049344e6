-- ===== src/Tags/Sat/Two/Entered.antt =====
-- passes/tags/sat_2.cpp: `visit` of a node, from entering it to leaving it.
use llir_opt.Prelude.{
  ℕ, suc, ◌<◌, ◌+◌, ◌≡◌, ◌≢◌, refl, sym, ap, ◌∙◌, ◌⊎◌, inl, inr, Bool, true, List, [], ◌∷◌, ◌++◌,
  some, arith, length, length-append, length-set, get_elem?, set, get_elem?-set_self,
  get_elem?-set_ne, get_elem?_lt, get_elem?-append_left, get_elem?-append_end, ◌==◌, Bool-cases,
}
use mathlib.Core.Path.{subst}
use mathlib.Core.Option.{some-injective}
use llir_opt.Tags.Sat.Two.{Node, Walk, find_scc, emplace, follow}
use llir_opt.Tags.Sat.Two.Entries.{
  Alone, emplace-Alone, emplace-cases, emplace-keeps, emplace-finds,
}
use llir_opt.Tags.Sat.Two.Quiet.{
  Settled, AllBelow, AllIn, AllInhabited, AllInhabited-emplace, follow-AllInhabited, Quiet, Grows,
  unvisited-set, entered_node, entered, finished,
}

-- A node after a write to another, or to itself.
pub set-cases :
    (nodes : List Node) (v i : ℕ) (x node : Node)
    → v < length nodes
    → get_elem? (set nodes v x) i ≡ some node
    → ((i ≡ v) × (node ≡ x)) ⊎ ((i ≢ v) × (get_elem? nodes i ≡ some node))
set-cases nodes v i x node l e = elim (Bool-cases (i == v)) [
  | inl k ↦
      let same : i ≡ v = ground arith in
      inl (
        same,
        some-injective node x
            (sym e ∙ ap (get_elem? (set nodes v x)) same ∙ get_elem?-set_self nodes v x l),
      )
  | inr k ↦
      let other : v ≢ i = ground arith in
      inr ((λ h. other (sym h)), sym (get_elem?-set_ne nodes v i x other) ∙ e)
]

module _ (members : ℕ → Bool) where
  pub entered-Quiet :
      (v : ℕ) (s : Walk) (node : Node)
      → Quiet members s
      → get_elem? s.nodes v ≡ some node
      → Quiet members (entered v s node)
  entered-Quiet v s node h e = record {
    stack = h.stack;
    settled = λ i n f. elim (set-cases s.nodes v i (entered_node s node) n l f) [
      | inl k ↦ subst (Settled (s.index + 1)) (sym k.1) (omega arith, inr (refl, refl))
      | inr k ↦ let old = h.settled i n k.1 in (omega (arith, old.0), old.1)
    ];
    ranged = λ i n f.
        subst (λ (m : ℕ). AllBelow m n.next) (sym size)
          (elim (set-cases s.nodes v i (entered_node s node) n l f) [
            | inl k ↦
                subst (λ (x : Node). AllBelow (length s.nodes) x.next) (sym k.1) (h.ranged v node e)
            | inr k ↦ h.ranged i n k.1
          ]);
    implied = λ i n f. elim (set-cases s.nodes v i (entered_node s node) n l f) [
      | inl k ↦ λ m.
          subst (λ (x : Node). AllIn members x.next) (sym k.1)
            (h.implied v node e (ap members (sym k.0) ∙ m))
      | inr k ↦ h.implied i n k.1
    ];
    sound = h.sound;
    alone = subst (λ (m : ℕ). Alone m (length s.graph) s.scc_of) (sym size) h.alone;
  }
    where
      l : v < length s.nodes
      l = get_elem?_lt s.nodes v node e

      size : length (set s.nodes v (entered_node s node)) ≡ length s.nodes
      size = length-set s.nodes v (entered_node s node)

  pub finished-Quiet :
      (v : ℕ) (s : Walk) (node : Node)
      → Quiet members s
      → get_elem? s.nodes v ≡ some node
      → Quiet members (finished v s node)
  finished-Quiet v s node h e = record {
    stack = refl;
    settled = h.settled;
    ranged = h.ranged;
    implied = h.implied;
    sound = sound;
    alone =
        subst (λ (m : ℕ). Alone (length s.nodes) m scc_of) (sym more)
          (emplace-Alone (length s.nodes) count v s.scc_of (get_elem?_lt s.nodes v node e) h.alone);
  }
    where
      count : ℕ
      count = length s.graph

      scc_of : List (ℕ × ℕ)
      scc_of = emplace v count s.scc_of

      edges : List ℕ
      edges = follow scc_of node.next []

      more : length (s.graph ++ edges ∷ []) ≡ suc count
      more = omega (arith, length-append s.graph (edges ∷ []))

      sound :
          (a : ℕ) (es : List ℕ) (u : ℕ)
          → get_elem? (s.graph ++ edges ∷ []) a ≡ some es
          → find_scc u scc_of ≡ some a
          → members u ≡ true
          → AllInhabited members scc_of es
      sound a es u g f m = elim (emplace-cases v count u a s.scc_of f) [
        | inl f' ↦
            let l : a < length s.graph = h.alone.values u a f' in
            AllInhabited-emplace members v count s.scc_of es
              (h.sound a es u (sym (get_elem?-append_left s.graph (edges ∷ []) a l) ∙ g) f' m)
        | inr k ↦
            let same : es ≡ edges = some-injective es edges (
              sym g
              ∙ ap (get_elem? (s.graph ++ edges ∷ [])) k.1
              ∙ get_elem?-append_end s.graph edges) in
            subst (AllInhabited members scc_of) (sym same) (
              follow-AllInhabited members scc_of node.next []
                (h.implied v node e (ap members (sym k.0) ∙ m)) tt)
      ]

  -- From entering a node to leaving it.
  pub finished-Grows :
      (v : ℕ) (s t : Walk) (node last : Node)
      → get_elem? s.nodes v ≡ some node
      → node.index ≡ 0
      → Grows (entered v s node) t
      → Grows s (finished v t last)
  finished-Grows v s t node last e z h = record {
    size = h.size ∙ length-set s.nodes v (entered_node s node);
    index = omega (arith, h.index);
    kept = λ i n g p.
        h.kept i n (get_elem?-set_ne s.nodes v i (entered_node s node) (apart i n g p) ∙ g) p;
    fresh = λ i n g p. elim (h.fresh i n g p) [
      | inr (m, a, f) ↦ inr (omega arith, a, emplace-keeps v (length t.graph) i a t.scc_of f)
      | inl g' ↦
          elim (set-cases s.nodes v i (entered_node s node) n (get_elem?_lt s.nodes v node e) g') [
            | inr k ↦ inl k.1
            | inl k ↦
                let new = emplace-finds v (length t.graph) t.scc_of in
                let number : n.index ≡ s.index + 1 = ap Node.index k.1 in
                inr (
                  omega (arith, number),
                  new.0,
                  ap (λ j. find_scc j (emplace v (length t.graph) t.scc_of)) k.0 ∙ new.1,
                )
          ]
    ];
    entries = λ i a f. emplace-keeps v (length t.graph) i a t.scc_of (h.entries i a f);
    fewer =
        omega
          (arith, h.fewer, unvisited-set s.nodes v node (entered_node s node) e z (omega arith));
  }
    where
      apart : (i : ℕ) (n : Node) → get_elem? s.nodes i ≡ some n → 0 < n.index → v ≢ i
      apart i n g p k =
          let same : n ≡ node =
            some-injective n node (sym g ∙ ap (get_elem? s.nodes) (sym k) ∙ e) in
          let number : n.index ≡ node.index = ap Node.index same in omega (arith, number)
