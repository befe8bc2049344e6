-- ===== src/Tags/Sat/Problem.antt =====
-- passes/tags/sat.cpp, passes/tags/sat.h: `SATProblem`, which makes its solver on the first question and
-- keeps it. The bounds of the loops of the solvers are those of the solver at hand.
pub mod Add
pub mod Ask
use llir_opt.Prelude.{
  ℕ, ◌+◌, ◌^◌, Bool, true, false, List, [], ◌∷◌, ◌++◌, Option, none, some, length, ltb, ◌>>=◌,
  if◌then◌else◌,
}
use llir_opt.Tags.Sat.Clauses.{make_clause}
use llir_opt.Tags.Sat.Search.{Solver, new_solver, problem_size, search, search_with}
use llir_opt.Tags.Sat.Two.{Solver2, new_solver2, is_satisfiable2, is_satisfiable_with2, enough}

pub record Problem : Type 0 where
  pub clauses : List (List ℕ)
  pub is_2sat : Bool
  pub solver_2sat : Option Solver2
  pub solver_nsat : Option Solver

abbrev pub new_problem : Problem
new_problem = record { clauses = []; is_2sat = true; solver_2sat = none; solver_nsat = none }

unfoldable pub add : List ℕ → List ℕ → Problem → Problem
add pos neg p = record p {
  clauses = p.clauses ++ make_clause pos neg ∷ [];
  is_2sat = if ltb 2 (length (make_clause pos neg)) then false else p.is_2sat;
}

-- The solver for the question, made if there is none.
unfoldable pub solver2_of : Bool → Problem → Option Solver2
solver2_of garbage p = elim p.solver_2sat [ none ↦ new_solver2 garbage p.clauses | some s ↦ some s ]

unfoldable pub solver_n_of : Problem → Solver
solver_n_of p = elim p.solver_nsat [ none ↦ new_solver p.clauses | some s ↦ s ]

abbrev pub rounds_of : Solver → ℕ
rounds_of s = 2 ^ (problem_size 0 s.clauses + 1)

unfoldable pub is_satisfiable : Bool → Problem → Option (Problem × Bool)
is_satisfiable garbage p =
    if p.is_2sat
    then (do s ← solver2_of garbage p; some (record p { solver_2sat = some s }, is_satisfiable2 s))
    else (do
      (s, answer) ← search (rounds_of (solver_n_of p)) (solver_n_of p)
      some (record p { solver_nsat = some s }, answer))

unfoldable pub is_satisfiable_with : Bool → ℕ → Problem → Option (Problem × Bool)
is_satisfiable_with garbage id p =
    if p.is_2sat
    then (do
      s ← solver2_of garbage p
      answer ← is_satisfiable_with2 (enough s) id s
      some (record p { solver_2sat = some s }, answer))
    else (do
      (s, answer) ← search_with (rounds_of (solver_n_of p)) id (solver_n_of p)
      some (record p { solver_nsat = some s }, answer))
