-- ===== src/Tags/Sat/Two/Outcome.antt =====
-- passes/tags/sat_2.cpp: what the constructor ends with.
use llir_opt.Prelude.{
  ℕ, zero, suc, ◌<◌, ◌≤◌, ◌+◌, ◌%◌, ◌≡◌, refl, ◌∙◌, inl, inr, Bool, false, List, [], ◌∷◌, Option,
  some, arith, length, get_elem?, get_elem?_total, ◌==◌, Bool-cases,
}
use mathlib.Core.Path.{subst}
use llir_opt.Tags.Sat.Two.{Node, Walk, negate, find_scc, visit_all, Solver2, new_solver2}
use llir_opt.Tags.Sat.Two.Entries.{find_unsat-false}
use llir_opt.Tags.Sat.Two.Quiet.{Quiet, unvisited, Grows}
use llir_opt.Tags.Sat.Two.Visit.{visit-Visits, visited}
use llir_opt.Tags.Sat.Two.Build.{Built, build-Built, AllRespect, AllFit}
use llir_opt.Tags.Sat.Two.Reach.{Closed}

-- A node has a component.
abbrev pub Placed : Walk → ℕ → Type 0
Placed s j = (a : ℕ) × (find_scc j s.scc_of ≡ some a)

module _ (members : ℕ → Bool) where
  -- Every node is visited, and has a component in the end.
  data Complete (size : ℕ) (outcome : Option Walk) : Type 0 where
    complete :
        (t : Walk)
        → outcome ≡ some t
        → Quiet members t
        → length t.nodes ≡ size
        → ((j : ℕ) → j < size → Placed t j)
        → Complete size outcome

  visit_all-Complete :
      (fuel i n size : ℕ) (s : Walk)
      → Quiet members s
      → length s.nodes ≡ size
      → i + n ≡ size
      → unvisited s.nodes ≤ fuel
      → ((j : ℕ) (node : Node) → get_elem? s.nodes j ≡ some node → 0 < node.index → Placed s j)
      → ((j : ℕ) → j < i → Placed s j)
      → Complete size (visit_all fuel i n s)
  unfolding visit_all
  visit_all-Complete fuel i zero size s q l k f h p = complete s refl q l (λ j m. p j (omega arith))
  visit_all-Complete fuel i (suc n) size s q l k f h p =
      let (node, e) = get_elem?_total s.nodes i (omega arith) in
      elim (Bool-cases (node.index == 0)) [
        | inr z ↦
            rw (e, z)
              (visit_all-Complete fuel (suc i) n size s q l (omega arith) f h (λ j m.
                elim (Bool-cases (j == i)) [
                  | inl c ↦
                      let same : i ≡ j = ground arith in
                      subst (Placed s) same (h i node e (ground arith))
                  | inr c ↦ p j (ground arith)
                ]))
        | inl z ↦ elim (visit-Visits members fuel i s node q e (ground arith) f) [
          | visited t last o q' g e' m ↦
              let placed =
                λ (j : ℕ) (n : Node) (b : get_elem? t.nodes j ≡ some n) (c : 0 < n.index).
                  all_placed s t j n g h b c in
              rw (e, z, o)
                (visit_all-Complete fuel (suc i) n size t q' (g.size ∙ l) (omega arith)
                  (omega (arith, g.fewer)) placed
                  (λ j b. elim (Bool-cases (j == i)) [
                    | inl c ↦
                        let same : i ≡ j = ground arith in
                        subst (Placed t) same (placed i last e' m)
                    | inr c ↦ let old = p j (ground arith) in (old.0, g.entries j old.0 old.1)
                  ]))
        ]
      ]
    where
      all_placed :
          (s t : Walk) (j : ℕ) (n : Node)
          → Grows s t
          → ((j : ℕ) (node : Node) → get_elem? s.nodes j ≡ some node → 0 < node.index → Placed s j)
          → get_elem? t.nodes j ≡ some n
          → 0 < n.index
          → Placed t j
      all_placed s t j n g h b c = elim (g.fresh j n b c) [
        | inl d ↦ let old = h j n d c in (old.0, g.entries j old.0 old.1)
        | inr d ↦ (d.1, d.2)
      ]

unvisited-le : (nodes : List Node) → unvisited nodes ≤ length nodes
unfolding unvisited
unvisited-le [] = omega arith
unvisited-le (node ∷ nodes) = ground (arith, unvisited-le nodes)

empty-Built : (members : ℕ → Bool) → Built members []
empty-Built members = record {
  blank = λ i node e. cc;
  ranged = λ i node e. cc;
  implied = λ i node e. cc;
  even = refl;
}

abbrev pub start : List Node → Walk
start nodes = record { nodes = nodes; index = 0; stack = []; graph = []; scc_of = [] }

start-Quiet :
    (members : ℕ → Bool) (nodes : List Node) → Built members nodes → Quiet members (start nodes)
unfolding find_scc
start-Quiet members nodes h = record {
  stack = refl;
  settled = λ i node e. (omega (arith, h.blank i node e), inl (h.blank i node e));
  ranged = h.ranged;
  implied = h.implied;
  sound = λ a edges v e f m. cc;
  alone = record { keys = λ v a e. cc; values = λ v a e. cc; apart = λ v w a e f. cc; found = tt };
}

negate-lt : (size v : ℕ) → size % 2 ≡ 0 → v < size → negate v < size
unfolding negate
negate-lt size v e l = ground arith

-- A solver that the constructor returns, for a set that the edges do not leave.
pub data Constructed (members : ℕ → Bool) (outcome : Option Solver2) : Type 0 where
  constructed :
      (s : Solver2)
      → outcome ≡ some s
      → s.unsat ≡ false
      → Closed members s.scc_of_node s.scc_graph
      → Constructed members outcome

pub new_solver2-Constructed :
    (members : ℕ → Bool) (garbage : Bool) (clauses : List (List ℕ))
    → AllFit clauses
    → AllRespect members clauses
    → Constructed members (new_solver2 garbage clauses)
unfolding new_solver2
new_solver2-Constructed members garbage clauses f r =
    let (nodes, e, b) = build-Built members garbage [] clauses (empty-Built members) f r in
    elim (visit_all-Complete members (length nodes) 0 (length nodes) (length nodes) (start nodes)
      (start-Quiet members nodes b) refl (omega arith) (unvisited-le nodes)
      (λ j node g l. absurd (omega (arith, b.blank j node g, l)))
      (λ j l. absurd (omega (arith, l)))) [
        | complete t o q l p ↦
            let unsat =
              find_unsat-false (length t.nodes) (length t.graph) t.scc_of t.scc_of q.alone
                q.alone.found
                (λ v m. p (negate v) (negate-lt (length nodes) v b.even (omega (arith, l)))) in
            constructed (record { unsat = false; scc_graph = t.graph; scc_of_node = t.scc_of })
              (rw (e, o, unsat) refl) refl
              (record { size = length t.nodes; alone = q.alone; sound = q.sound })
      ]
