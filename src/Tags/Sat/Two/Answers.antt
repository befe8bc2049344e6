-- ===== src/Tags/Sat/Two/Answers.antt =====
-- passes/tags/sat_2.cpp: the answers of a solver that the constructor returns.
use llir_opt.Prelude.{
  ℕ, ◌+◌, ◌-◌, ◌%◌, ◌^◌, ◌<◌, ◌≡◌, refl, ap, ◌∙◌, ◌⊎◌, inl, inr, Bool, true, false, List, [], ◌∷◌,
  some, arith, ◌==◌, Bool-cases, Option-cases, not, ◌*◌, ◌/◌,
}
use llir_opt.Tags.Sat.Two.{
  negate, find_scc, Solver2, new_solver2, is_satisfiable2, is_satisfiable_with2, enough,
}
use llir_opt.Tags.Sat.Two.Build.{AllRespect, AllFit}
use llir_opt.Tags.Sat.Two.Reach.{Closed, find_path_sound, open_edges-total}
use llir_opt.Tags.Sat.Clauses.{lit_holds, clause_holds, all_hold}
use llir_opt.Tags.Sat.Two.Outcome.{constructed, new_solver2-Constructed}

-- An answer `false` of `IsSatisfiableWith` stands for a path from the literal to its negation.
with2-cases :
    (members : ℕ → Bool) (id : ℕ) (s : Solver2)
    → s.unsat ≡ false
    → Closed members s.scc_of_node s.scc_graph
    → members (id * 2 % 2 ^ 32) ≡ true
    → (is_satisfiable_with2 (enough s) id s ≡ some true)
      ⊎ ((is_satisfiable_with2 (enough s) id s ≡ some false)
          × (members (id * 2 % 2 ^ 32 + 1) ≡ true))
unfolding is_satisfiable_with2
with2-cases members id s u h m = elim (Option-cases (find_scc (id * 2 % 2 ^ 32) s.scc_of_node)) [
  | inl e ↦ inl (rw (u, e) refl)
  | inr (a, e) ↦ elim (Option-cases (find_scc (id * 2 % 2 ^ 32 + 1) s.scc_of_node)) [
    | inl f ↦ inl (rw (u, e, f) refl)
    | inr (b, f) ↦
        elim (find_path_sound members s.scc_of_node s.scc_graph (enough s) b [] (a ∷ []) h
          ((id * 2 % 2 ^ 32, e, m), tt) (omega (arith, open_edges-total 0 s.scc_graph))) [
            | inl g ↦ inl (rw (u, e, f) g)
            | inr (g, (w, i, j)) ↦
                inr (rw (u, e, f) g, ap members (h.alone.apart (id * 2 % 2 ^ 32 + 1) w b f i) ∙ j)
          ]
  ]
]

all-AllRespect : (clauses : List (List ℕ)) → AllRespect (λ _. true) clauses
all-AllRespect [] = tt
all-AllRespect ([] ∷ clauses) = (tt, all-AllRespect clauses)
all-AllRespect ((a ∷ []) ∷ clauses) = (λ _. refl, all-AllRespect clauses)
all-AllRespect ((a ∷ b ∷ []) ∷ clauses) = ((λ _. refl, λ _. refl), all-AllRespect clauses)
all-AllRespect ((a ∷ b ∷ c ∷ rest) ∷ clauses) = (tt, all-AllRespect clauses)

-- On clauses whose literals are below 2^32 - 2 the constructor returns, however the flags of new nodes are
-- set, with a solver that finds the clauses satisfiable whatever they are, and that answers for each literal.
pub new_solver2-is_satisfiable2 :
    (garbage : Bool) (clauses : List (List ℕ)) (id : ℕ)
    → AllFit clauses
    → (s : Solver2) × (new_solver2 garbage clauses ≡ some s)
      × (is_satisfiable2 s ≡ true)
      × (answer : Bool) × (is_satisfiable_with2 (enough s) id s ≡ some answer)
unfolding is_satisfiable2
new_solver2-is_satisfiable2 garbage clauses id fits =
    elim (new_solver2-Constructed (λ _. true) garbage clauses fits (all-AllRespect clauses)) [
      | constructed s e u c ↦ elim (with2-cases (λ _. true) id s u c refl) [
        | inl g ↦ (s, e, rw u refl, true, g)
        | inr (g, _) ↦ (s, e, rw u refl, false, g)
      ]
    ]

negate-lit_holds : (a : ℕ → Bool) (lit : ℕ) → lit_holds a (negate lit) ≡ not (lit_holds a lit)
unfolding lit_holds negate
negate-lit_holds a lit = elim (Bool-cases (lit % 2 == 0)) [
  | inl e ↦
      let half : (lit + 1) / 2 ≡ lit / 2 = ground arith in
      let odd : ((lit + 1) % 2 == 0) ≡ false = ground arith in rw (e, odd, half) refl
  | inr e ↦
      let half : (lit - 1) / 2 ≡ lit / 2 = ground arith in
      let even : ((lit - 1) % 2 == 0) ≡ true = ground arith in rw (e, even, half) (ground arith)
]

lit_holds-AllRespect :
    (a : ℕ → Bool) (clauses : List (List ℕ))
    → all_hold a clauses ≡ true
    → AllRespect (lit_holds a) clauses
unfolding all_hold clause_holds
lit_holds-AllRespect a [] h = tt
lit_holds-AllRespect a ([] ∷ clauses) h = cc
lit_holds-AllRespect a ((x ∷ []) ∷ clauses) h = (
  λ m. ground (arith, negate-lit_holds a x, h, m),
  lit_holds-AllRespect a clauses (ground (arith, h)),
)
lit_holds-AllRespect a ((x ∷ y ∷ []) ∷ clauses) h = (
  (
    λ m. ground (arith, negate-lit_holds a x, h, m),
    λ m. ground (arith, negate-lit_holds a y, h, m),
  ),
  lit_holds-AllRespect a clauses (ground (arith, h)),
)
lit_holds-AllRespect a ((x ∷ y ∷ z ∷ rest) ∷ clauses) h =
    (tt, lit_holds-AllRespect a clauses (ground (arith, h)))

-- Where an assignment under which a variable is true satisfies the clauses, `IsSatisfiableWith` accepts the
-- variable.
pub is_satisfiable_with2_accepts :
    (garbage : Bool) (clauses : List (List ℕ)) (id : ℕ) (a : ℕ → Bool)
    → AllFit clauses
    → id < 2 ^ 31
    → all_hold a clauses ≡ true
    → a id ≡ true
    → (s : Solver2) × (new_solver2 garbage clauses ≡ some s)
      × (is_satisfiable_with2 (enough s) id s ≡ some true)
unfolding lit_holds
is_satisfiable_with2_accepts garbage clauses id a fits l h i =
    let half : id * 2 % 2 ^ 32 / 2 ≡ id = omega arith in
    let half' : (id * 2 % 2 ^ 32 + 1) / 2 ≡ id = omega arith in
    elim (new_solver2-Constructed (lit_holds a) garbage clauses fits
      (lit_holds-AllRespect a clauses h)) [
        | constructed s e u c ↦ (
          s,
          e,
          elim (with2-cases (lit_holds a) id s u c (ground (arith, ap a half, i))) [
            | inl g ↦ g
            | inr (_, g) ↦ absurd (ground (arith, ap a half', i, g))
          ],
        )
      ]
