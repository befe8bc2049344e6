-- ===== src/Tags/Sat/Tests.antt =====
-- passes/tags/sat.h and sat*.cpp: examples.
use llir_opt.Prelude.{
  ℕ, ◌^◌, ◌+◌, ◌≡◌, ◌↔◌, refl, Bool, true, false, ◌&&◌, ◌||◌, List, [], ◌∷◌, map, Option, none,
  some, arith, ◌>>=◌,
}
use llir_opt.Tags.Sat.Clauses.{make_clause, lit_holds, clause_holds, all_hold}
use llir_opt.Tags.Sat.Search.{
  clause_size, problem_size, all_undef, new_solver, is_assigned, lit_open, clause_open,
  find_conflict, first_undef, pick, unwind, backtrack, resolve, search, search_with,
}
use llir_opt.Tags.Sat.Search.Correct.{Decides, search_with-Decides}
use llir_opt.Tags.Sat.Two.{
  Solver2, negate, set_insert, resize, max, min, add_edge, add_clause, build, find_scc, emplace,
  enter, lower, visit_succs, pop_component, follow, follow_all, leave, visit, visit_all, find_unsat,
  new_solver2, is_satisfiable2, is_satisfiable_with2, enough,
}
use llir_opt.Tags.Sat.Two.Build.{AllFit}
use llir_opt.Tags.Sat.Two.Answers.{new_solver2-is_satisfiable2}
use llir_opt.Tags.Sat.Problem.{
  Problem, new_problem, add, solver2_of, solver_n_of, is_satisfiable, is_satisfiable_with,
}
use llir_opt.Tags.Sat.Problem.Add.{
  variable, any_true, any_false, all_short, add-AllFit, add-all_hold,
}
use llir_opt.Tags.Sat.Problem.Ask.{is_satisfiable_decides, is_satisfiable_with_accepts}

-- Some variable of three is true, and one of them is false.
abbrev mixed : List (List ℕ)
mixed = (0 ∷ 2 ∷ 4 ∷ []) ∷ (1 ∷ 3 ∷ 5 ∷ []) ∷ []

abbrev mixed_problem : Problem
mixed_problem = record { clauses = mixed; is_2sat = false; solver_2sat = none; solver_nsat = none }

-- If the first variable is true the second is.
abbrev implication : List (List ℕ)
implication = (2 ∷ 1 ∷ []) ∷ []

abbrev implication_problem : Problem
implication_problem = record {
  clauses = implication;
  is_2sat = true;
  solver_2sat = none;
  solver_nsat = none;
}

abbrev always : ℕ → Bool
always v = true

mixed_size : problem_size 0 mixed ≡ 3
unfolding problem_size clause_size
mixed_size = refl

is_satisfiable_decides_example :
    (p' : Problem) × (answer : Bool) × (is_satisfiable true mixed_problem ≡ some (p', answer))
    × ((answer ≡ true) ↔ ((a : ℕ → Bool) × (all_hold a mixed ≡ true)))
is_satisfiable_decides_example =
    is_satisfiable_decides true mixed_problem refl refl (omega (arith, mixed_size))

search_with-Decides_example :
    Decides mixed (some 1) (search_with (2 ^ (problem_size 0 mixed + 1)) 1 (new_solver mixed))
search_with-Decides_example =
    search_with-Decides mixed 1 (omega (arith, mixed_size)) (omega (arith, mixed_size))

implication_fits : AllFit implication
unfolding add make_clause
implication_fits = add-AllFit (1 ∷ []) (0 ∷ []) new_problem tt (omega arith, tt) (omega arith, tt)

new_solver2-is_satisfiable2_example :
    (s : Solver2) × (new_solver2 false implication ≡ some s)
    × (is_satisfiable2 s ≡ true)
    × (answer : Bool) × (is_satisfiable_with2 (enough s) 0 s ≡ some answer)
new_solver2-is_satisfiable2_example =
    new_solver2-is_satisfiable2 false implication 0 implication_fits

implication_size : problem_size 0 implication ≡ 2
unfolding problem_size clause_size
implication_size = refl

implication_holds : all_hold always implication ≡ true
unfolding all_hold clause_holds lit_holds
implication_holds = refl

is_satisfiable_with_accepts_example :
    (p' : Problem) × (is_satisfiable_with true 0 implication_problem ≡ some (p', true))
is_satisfiable_with_accepts_example =
    is_satisfiable_with_accepts true implication_problem 0 always refl refl implication_fits
      (omega arith) (λ e. absurd (omega (arith, e, implication_size))) implication_holds refl

implication_short : true ≡ all_short implication
unfolding all_short
implication_short = refl

add-all_hold_example :
    (all_hold always (Problem.clauses (add (0 ∷ []) (1 ∷ 2 ∷ []) implication_problem)) ≡ (
      all_hold always implication
      && (any_true always (map variable (0 ∷ [])) || any_false always (map variable (1 ∷ 2 ∷ [])))))
    × (Problem.is_2sat (add (0 ∷ []) (1 ∷ 2 ∷ []) implication_problem)
        ≡ all_short (Problem.clauses (add (0 ∷ []) (1 ∷ 2 ∷ []) implication_problem)))
add-all_hold_example =
    add-all_hold always (0 ∷ []) (1 ∷ 2 ∷ []) implication_problem implication_short

-- The answers to a question and to the next.
abbrev answers :
    Option (Problem × Bool) → (Problem → Option (Problem × Bool)) → Option (Bool × Bool)
answers outcome next = do (p, one) ← outcome; (_, two) ← next p; some (one, two)

-- The clauses `v` and `not v`.
contradiction_accepted :
    (p : Problem) × (is_satisfiable false (add [] (0 ∷ []) (add (0 ∷ []) [] new_problem))
      ≡ some (p, true))
unfolding is_satisfiable solver2_of add make_clause negate set_insert resize max min add_edge
    add_clause build find_scc emplace enter lower visit_succs pop_component follow follow_all leave
    visit visit_all find_unsat new_solver2 is_satisfiable2
contradiction_accepted = (_, refl)

-- The same with clauses of three literals, asked twice.
abbrev refuted : Problem
refuted = record {
  clauses = (0 ∷ 0 ∷ 0 ∷ []) ∷ (1 ∷ 1 ∷ 1 ∷ []) ∷ [];
  is_2sat = false;
  solver_2sat = none;
  solver_nsat = none;
}

refuted_twice : answers (is_satisfiable false refuted) (is_satisfiable false) ≡ some (false, true)
unfolding is_satisfiable solver_n_of clause_size problem_size all_undef new_solver is_assigned
    lit_open clause_open find_conflict first_undef pick unwind backtrack resolve search
refuted_twice = refl
