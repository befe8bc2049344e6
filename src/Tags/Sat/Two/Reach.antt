-- ===== src/Tags/Sat/Two/Reach.antt =====
-- passes/tags/sat_2.cpp: the loop of `IsSatisfiableWith` over the components.
use llir_opt.Prelude.{
  ℕ, zero, suc, ◌<◌, ◌+◌, ◌≡◌, refl, sym, ap, ◌∙◌, ◌⊎◌, inl, inr, Bool, true, false, List, [], ◌∷◌,
  ◌++◌, some, arith, length, length-append, get_elem?, get_elem?_total, ◌==◌, if◌then◌else◌,
  Bool-cases,
}
use mathlib.Core.Path.{subst}
use mathlib.Core.Option.{some-injective}
use llir_opt.Tags.Sat.Two.{find_scc, contains_scc, find_path, total_edges}
use llir_opt.Tags.Sat.Two.Entries.{Alone}
use llir_opt.Tags.Sat.Two.Quiet.{Inhabited, AllInhabited}

-- The edges of the components that the loop has not seen, numbered from `i`.
unfoldable pub open_edges : ℕ → List (List ℕ) → List ℕ → ℕ
open_edges i [] visited = 0
open_edges i (edges ∷ graph) visited =
    (if contains_scc i visited then 0 else length edges) + open_edges (suc i) graph visited

open_edges-earlier :
    (j i : ℕ) (graph : List (List ℕ)) (visited : List ℕ)
    → j < i
    → open_edges i graph (j ∷ visited) ≡ open_edges i graph visited
unfolding open_edges contains_scc
open_edges-earlier j i [] visited l = refl
open_edges-earlier j i (edges ∷ graph) visited l =
    let other : (i == j) ≡ false = ground arith in
    rw other (
      ap (λ (n : ℕ). (if contains_scc i visited then 0 else length edges) + n)
        (open_edges-earlier j (suc i) graph visited (omega arith)))

open_edges-visit :
    (n i : ℕ) (graph : List (List ℕ)) (visited edges : List ℕ)
    → get_elem? graph n ≡ some edges
    → contains_scc (i + n) visited ≡ false
    → open_edges i graph ((i + n) ∷ visited) + length edges ≡ open_edges i graph visited
unfolding open_edges contains_scc
open_edges-visit n i [] visited edges e c = cc
open_edges-visit zero i (es ∷ graph) visited edges e c =
    let here : i + 0 ≡ i = omega arith in
    let same : (i == i) ≡ true = ground arith in
    let size : length es ≡ length edges = ap length (some-injective es edges e) in
    let out : contains_scc i visited ≡ false =
      ap (λ (j : ℕ). contains_scc j visited) (sym here) ∙ c in
    let later = open_edges-earlier i (suc i) graph visited (omega arith) in
    rw (here, same, out) (omega (arith, later, size))
open_edges-visit (suc n) i (es ∷ graph) visited edges e c =
    let index : i + suc n ≡ suc i + n = omega arith in
    let later =
      open_edges-visit n (suc i) graph visited edges e
        (ap (λ (j : ℕ). contains_scc j visited) (sym index) ∙ c) in
    let other : (i == suc i + n) ≡ false = ground arith in rw (index, other) (omega (arith, later))

open_edges-first :
    (n : ℕ) (graph : List (List ℕ)) (visited edges : List ℕ)
    → get_elem? graph n ≡ some edges
    → contains_scc n visited ≡ false
    → open_edges 0 graph (n ∷ visited) + length edges ≡ open_edges 0 graph visited
open_edges-first n graph visited edges e c =
    let index : 0 + n ≡ n = omega arith in
    subst (λ (j : ℕ). open_edges 0 graph (j ∷ visited) + length edges ≡ open_edges 0 graph visited)
      index
      (open_edges-visit n 0 graph visited edges e
        (ap (λ (j : ℕ). contains_scc j visited) index ∙ c))

pub open_edges-total : (i : ℕ) (graph : List (List ℕ)) → open_edges i graph [] ≡ total_edges graph
unfolding open_edges total_edges contains_scc
open_edges-total i [] = refl
open_edges-total i (edges ∷ graph) =
    ap (λ (n : ℕ). length edges + n) (open_edges-total (suc i) graph)

-- A set of nodes, the components of its members, and the edges that lead from them to others.
module _ (members : ℕ → Bool) (scc_of : List (ℕ × ℕ)) (graph : List (List ℕ)) where
  AllInhabited-append :
      (xs ys : List ℕ)
      → AllInhabited members scc_of xs
      → AllInhabited members scc_of ys
      → AllInhabited members scc_of (xs ++ ys)
  AllInhabited-append [] ys h k = k
  AllInhabited-append (x ∷ xs) ys h k = (h.0, AllInhabited-append xs ys h.1 k)

  pub record Closed : Type 0 where
    pub size : ℕ
    pub alone : Alone size (length graph) scc_of
    pub sound :
        (a : ℕ) (edges : List ℕ) (v : ℕ)
        → get_elem? graph a ≡ some edges
        → find_scc v scc_of ≡ some a
        → members v ≡ true
        → AllInhabited members scc_of edges

  -- The loop ends, and says `false` only where the component it looks for has a member.
  pub find_path_sound :
      (fuel end : ℕ) (visited q : List ℕ)
      → Closed
      → AllInhabited members scc_of q
      → length q + open_edges 0 graph visited < fuel
      → (find_path fuel end graph visited q ≡ some true)
        ⊎ ((find_path fuel end graph visited q ≡ some false) × Inhabited members scc_of end)
  unfolding find_path
  find_path_sound zero end visited q h k f = absurd (omega arith)
  find_path_sound (suc fuel) end visited [] h k f = inl refl
  find_path_sound (suc fuel) end visited (node ∷ q) h k f = elim (Bool-cases (node == end)) [
    | inl e ↦
        let same : node ≡ end = ground arith in
        inr (rw e refl, (k.0.0, k.0.1 ∙ ap some same, k.0.2))
    | inr e ↦ elim (Bool-cases (contains_scc node visited)) [
      | inl c ↦ rw (e, c) (find_path_sound fuel end visited q h k.1 (omega arith))
      | inr c ↦
          let (next, g) = get_elem?_total graph node (h.alone.values k.0.0 node k.0.1) in
          let left = open_edges-first node graph visited next g c in
          rw (e, c, g)
            (find_path_sound fuel end (node ∷ visited) (q ++ next) h
              (AllInhabited-append q next k.1 (h.sound node next k.0.0 g k.0.1 k.0.2))
              (omega (arith, left, length-append q next)))
    ]
  ]
