-- ===== src/Tags/Sat/Search.antt =====
-- passes/tags/sat_n.cpp: `SATNSolver`, the search for problems with clauses of more than two literals.
-- A pointer to a literal is its number; the null pointer that starts a decision level in the trail is
-- `none`. What C++ leaves undefined is `none`.
pub mod Conflict
pub mod Trail
pub mod Loop
pub mod Correct
use llir_opt.Prelude.{
  ℕ, zero, suc, ◌+◌, ◌-◌, ◌/◌, ◌%◌, Bool, true, false, not, ◌&&◌, ◌||◌, List, [], ◌∷◌, Option, none,
  some, get_or, set, length, ltb, ◌==◌, ◌>>=◌, if◌then◌else◌,
}

-- `Literal::State`
pub data State : Type 0 where
  is_false is_true undef : State

unfoldable pub is_assigned : State → Bool
is_assigned undef = false
is_assigned _ = true

-- The trail has its last entry first.
pub record Solver : Type 0 where
  pub clauses : List (List ℕ)
  pub lits : List State
  pub trail : List (Option ℕ)
  pub level : ℕ

-- The number of variables, as the constructor finds it.
unfoldable pub clause_size : ℕ → List ℕ → ℕ
clause_size size [] = size
clause_size size (lit ∷ lits) =
    clause_size (if ltb size (lit / 2 + 1) then lit / 2 + 1 else size) lits

unfoldable pub problem_size : ℕ → List (List ℕ) → ℕ
problem_size size [] = size
problem_size size (clause ∷ clauses) = problem_size (clause_size size clause) clauses

unfoldable pub all_undef : ℕ → List State
all_undef zero = []
all_undef (suc n) = undef ∷ all_undef n

unfoldable pub new_solver : List (List ℕ) → Solver
new_solver clauses = record {
  clauses = clauses;
  lits = all_undef (problem_size 0 clauses);
  trail = [];
  level = 0;
}

-- `hasTrue || hasUndef` after the loop over a clause.
unfoldable pub lit_open : List State → ℕ → Bool
lit_open lits lit = elim (get_or lits (lit / 2) undef) [
  | undef ↦ true
  | is_true ↦ lit % 2 == 0
  | is_false ↦ lit % 2 == 1
]

unfoldable pub clause_open : List State → List ℕ → Bool
unfolding lit_open
clause_open lits [] = false
clause_open lits (lit ∷ rest) = lit_open lits lit || clause_open lits rest

unfoldable pub find_conflict : List (List ℕ) → List State → Bool
unfolding clause_open
find_conflict [] lits = false
find_conflict (clause ∷ clauses) lits = not (clause_open lits clause) || find_conflict clauses lits

-- The first literal that is not assigned.
unfoldable pub first_undef : ℕ → List State → Option ℕ
unfolding is_assigned
first_undef i [] = none
first_undef i (l ∷ lits) =
    let rest = first_undef (suc i) lits in if is_assigned l then rest else some i

-- `PickBranchingVariable`, `none` being the null pointer.
unfoldable pub pick : Solver → Option Solver
unfolding first_undef
pick s = do
  lit ← first_undef 0 s.lits
  some (record s {
    lits = set s.lits lit is_true;
    trail = some lit ∷ none ∷ s.trail;
    level = suc s.level;
  })

-- The loop of `Backtrack`, with the literal that was popped last: the literals and the trail that are
-- left, and that literal.
unfoldable pub unwind :
    List (Option ℕ) → List State → Option ℕ → Option (List State × List (Option ℕ) × ℕ)
unwind [] lits lit = none
unwind (some v ∷ trail) lits lit = unwind trail (set lits v undef) (some v)
unwind (none ∷ trail) lits none = none
unwind (none ∷ trail) lits (some v) = some (lits, trail, v)

unfoldable pub backtrack : Solver → Option Solver
unfolding unwind
backtrack s = do
  (lits, trail, lit) ← unwind s.trail s.lits none
  some (record s { lits = set lits lit is_false; trail = some lit ∷ trail; level = s.level - 1 })

-- `while (FindConflict()) { ... }`: whether the search goes on, on fuel.
unfoldable pub resolve : ℕ → Solver → Option (Solver × Bool)
resolve zero s = none
resolve (suc fuel) s =
    if find_conflict s.clauses s.lits
    then (if s.level == 0 then some (s, false) else (do s' ← backtrack s; resolve fuel s'))
    else some (s, true)

-- `while (auto lit = PickBranchingVariable()) { ... }`: the answer.
unfoldable pub search : ℕ → Solver → Option (Solver × Bool)
search zero s = none
search (suc fuel) s = elim (pick s) [
  | none ↦ some (s, true)
  | some s' ↦ do
    (s'', going) ← resolve fuel s'
    if going then search fuel s'' else some (s'', false)
]

-- `IsSatisfiableWith`. A literal past the end is undefined.
unfoldable pub search_with : ℕ → ℕ → Solver → Option (Solver × Bool)
search_with fuel id s =
    if ltb (length s.lits) id
    then some (s, true)
    else (if length s.lits == id then none else (do
      (s', found) ← search fuel (record s { lits = set s.lits id is_true })
      some (record s' { lits = set s'.lits id undef }, found)))
