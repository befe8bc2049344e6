-- ===== src/Tags/Sat/Problem/Ask.antt =====
-- passes/tags/sat.cpp: the first question that a problem is asked.
use llir_opt.Prelude.{
  ℕ, suc, ◌<◌, ◌+◌, ◌^◌, ◌≡◌, ◌≢◌, ◌↔◌, refl, ap, ◌∙◌, inl, inr, Bool, true, false, List, [], ◌∷◌,
  none, some, length, arith, ltb, ◌==◌, Bool-cases,
}
use llir_opt.Tags.Sat.Clauses.{all_hold}
use llir_opt.Tags.Sat.Problem.{
  Problem, is_satisfiable, is_satisfiable_with, solver2_of, solver_n_of,
}
use llir_opt.Tags.Sat.Search.{
  Solver, undef, all_undef, new_solver, problem_size, search, search_with, pick, first_undef,
  is_assigned,
}
use llir_opt.Tags.Sat.Search.Trail.{Base}
use llir_opt.Tags.Sat.Search.Correct.{
  Decides, search-Decides, search_with-Decides, all_undef-length,
}
use llir_opt.Tags.Sat.Two.Build.{AllFit}
use llir_opt.Tags.Sat.Two.Answers.{is_satisfiable_with2_accepts}

-- A literal that is not in the problem is accepted.
search_with-past :
    (fuel id : ℕ) (cs : List (List ℕ))
    → problem_size 0 cs < id
    → search_with fuel id (new_solver cs) ≡ some (new_solver cs, true)
unfolding search_with new_solver
search_with-past fuel id cs l =
    let past : ltb (length (all_undef (problem_size 0 cs))) id ≡ true =
      ground (arith, all_undef-length (problem_size 0 cs)) in
    rw past refl

-- The only literal of a problem is accepted.
search_with-only :
    (fuel : ℕ) (cs : List (List ℕ))
    → problem_size 0 cs ≡ 1
    → (s : Solver) × (search_with (suc fuel) 0 (new_solver cs) ≡ some (s, true))
unfolding search_with new_solver search pick first_undef is_assigned all_undef
search_with-only fuel cs e =
    (record { clauses = cs; lits = undef ∷ []; trail = []; level = 0 }, rw e refl)

search_with-accepts :
    (cs : List (List ℕ)) (id : ℕ) (a : ℕ → Bool)
    → id ≢ problem_size 0 cs
    → all_hold a cs ≡ true
    → a id ≡ true
    → (s : Solver) × (search_with (2 ^ (problem_size 0 cs + 1)) id (new_solver cs) ≡ some (s, true))
unfolding Decides Base
search_with-accepts cs id a d h i = elim (Bool-cases (ltb (problem_size 0 cs) id)) [
  | inl past ↦ (new_solver cs, search_with-past (2 ^ (problem_size 0 cs + 1)) id cs (ground arith))
  | inr near ↦ elim (Bool-cases (problem_size 0 cs == 1)) [
    | inl one ↦
        let size : problem_size 0 cs ≡ 1 = ground arith in
        let first : id ≡ 0 = ground arith in
        let (s, runs) = search_with-only 3 cs size in
        (
          s,
          ap (λ n. search_with (2 ^ (n + 1)) id (new_solver cs)) size
              ∙ ap (λ i. search_with 4 i (new_solver cs)) first
              ∙ runs,
        )
    | inr more ↦
        let (s, answer, runs, right) = search_with-Decides cs id (ground arith) (ground arith) in
        (s, runs ∙ ap (λ b. some (s, b)) (right.1 (a, i, h)))
  ]
]

-- A problem that is not marked as 2-SAT, has a variable and has no solver yet is found satisfiable where an
-- assignment satisfies its clauses, and only there.
pub is_satisfiable_decides :
    (garbage : Bool) (p : Problem)
    → p.is_2sat ≡ false
    → p.solver_nsat ≡ none
    → 0 < problem_size 0 p.clauses
    → (p' : Problem) × (answer : Bool) × (is_satisfiable garbage p ≡ some (p', answer))
      × ((answer ≡ true) ↔ ((a : ℕ → Bool) × (all_hold a p.clauses ≡ true)))
unfolding is_satisfiable solver_n_of Decides Base new_solver
is_satisfiable_decides garbage p f n l =
    let (s, answer, runs, right) = search-Decides p.clauses l in
    (
      record p { solver_nsat = some s },
      answer,
      rw (f, n, runs) refl,
      (λ e. let (a, _, h) = right.0 e in (a, h), λ (a, h). right.1 (a, tt, h)),
    )

-- Where an assignment under which a variable below 2^31 is true satisfies the clauses of a problem without a
-- solver, and all literals are below 2^32 - 2, `IsSatisfiableWith` accepts the variable, unless it is the
-- one after the last of the problem.
pub is_satisfiable_with_accepts :
    (garbage : Bool) (p : Problem) (id : ℕ) (a : ℕ → Bool)
    → p.solver_2sat ≡ none
    → p.solver_nsat ≡ none
    → AllFit p.clauses
    → id < 2 ^ 31
    → id ≢ problem_size 0 p.clauses
    → all_hold a p.clauses ≡ true
    → a id ≡ true
    → (p' : Problem) × (is_satisfiable_with garbage id p ≡ some (p', true))
unfolding is_satisfiable_with solver2_of solver_n_of new_solver
is_satisfiable_with_accepts garbage p id a m n f l d h i = elim (Bool-cases p.is_2sat) [
  | inl e ↦
      let (s, made, answers) = is_satisfiable_with2_accepts garbage p.clauses id a f l h i in
      (record p { solver_2sat = some s }, rw (e, m, made, answers) refl)
  | inr e ↦
      let (s, answers) = search_with-accepts p.clauses id a d h i in
      (record p { solver_nsat = some s }, rw (e, n, answers) refl)
]
