-- ===== src/Tags/Sat/Clauses.antt =====
-- passes/tags/sat.cpp: the clauses of a problem, and what they mean.
use llir_opt.Prelude.{
  ℕ, ◌+◌, ◌*◌, ◌/◌, ◌%◌, ◌^◌, Bool, true, false, not, ◌&&◌, ◌||◌, List, [], ◌∷◌, ◌++◌, map, ◌==◌,
  if◌then◌else◌,
}

-- The clause that `Add` makes of variables and negated variables, shifted in 32 bits.
unfoldable pub make_clause : List ℕ → List ℕ → List ℕ
make_clause pos neg =
    map (λ (lit : ℕ). lit * 2 % 2 ^ 32) pos ++ map (λ (lit : ℕ). lit * 2 % 2 ^ 32 + 1) neg

-- An assignment of the variables satisfies a literal, a clause, all clauses.
unfoldable pub lit_holds : (ℕ → Bool) → ℕ → Bool
lit_holds a lit = if lit % 2 == 0 then a (lit / 2) else not (a (lit / 2))

unfoldable pub clause_holds : (ℕ → Bool) → List ℕ → Bool
clause_holds a [] = false
clause_holds a (lit ∷ lits) = lit_holds a lit || clause_holds a lits

unfoldable pub all_hold : (ℕ → Bool) → List (List ℕ) → Bool
all_hold a [] = true
all_hold a (clause ∷ clauses) = clause_holds a clause && all_hold a clauses
