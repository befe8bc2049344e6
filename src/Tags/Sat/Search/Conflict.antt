-- ===== src/Tags/Sat/Search/Conflict.antt =====
-- passes/tags/sat_n.cpp: a conflict that `FindConflict` finds refutes every assignment that extends the
-- literals; where it finds none and all are assigned, they satisfy the clauses.
use llir_opt.Prelude.{
  ℕ, ◌<◌, ◌≤◌, ◌+◌, ◌/◌, ◌≡◌, ◌≢◌, refl, inl, inr, Bool, true, false, List, [], ◌∷◌, get_or, arith,
  ltb, if◌then◌else◌, Bool-cases,
}
use llir_opt.Tags.Sat.Clauses.{lit_holds, clause_holds, all_hold}
use llir_opt.Tags.Sat.Search.{
  State, is_false, is_true, undef, lit_open, clause_open, find_conflict, clause_size, problem_size,
}

-- An assignment has the values that the literals have.
pub record Extends (a : ℕ → Bool) (lits : List State) : Type 0 where
  pub trues : (v : ℕ) → get_or lits v undef ≡ is_true → a v ≡ true
  pub falses : (v : ℕ) → get_or lits v undef ≡ is_false → a v ≡ false

closed_clause :
    (a : ℕ → Bool) (lits : List State) (clause : List ℕ)
    → Extends a lits
    → clause_open lits clause ≡ false
    → clause_holds a clause ≡ false
unfolding clause_open clause_holds lit_open lit_holds
closed_clause a lits [] h e = refl
closed_clause a lits (lit ∷ rest) h e =
    ground (arith, h.trues (lit / 2), h.falses (lit / 2), closed_clause a lits rest h, e)

pub conflict_refutes :
    (a : ℕ → Bool) (lits : List State) (clauses : List (List ℕ))
    → Extends a lits
    → find_conflict clauses lits ≡ true
    → all_hold a clauses ≡ false
unfolding find_conflict all_hold
conflict_refutes a lits [] h e = cc
conflict_refutes a lits (clause ∷ clauses) h e =
    ground (arith, closed_clause a lits clause h, conflict_refutes a lits clauses h, e)

-- The variables of a clause, and of all clauses, are below `n`.
abbrev pub ClauseBelow : ℕ → List ℕ → Type 0
ClauseBelow n [] = Unit
ClauseBelow n (lit ∷ lits) = (lit / 2 < n) × ClauseBelow n lits

abbrev pub AllBelow : ℕ → List (List ℕ) → Type 0
AllBelow n [] = Unit
AllBelow n (clause ∷ clauses) = ClauseBelow n clause × AllBelow n clauses

-- The assignment that the literals are.
abbrev pub assignment_of : List State → ℕ → Bool
assignment_of lits v = elim (get_or lits v undef) [ is_true ↦ true | _ ↦ false ]

open_clause :
    (lits : List State) (n : ℕ) (clause : List ℕ)
    → ((v : ℕ) → v < n → get_or lits v undef ≢ undef)
    → ClauseBelow n clause
    → clause_open lits clause ≡ true
    → clause_holds (assignment_of lits) clause ≡ true
unfolding clause_open clause_holds lit_open lit_holds
open_clause lits n [] h b e = e
open_clause lits n (lit ∷ rest) h b e =
    ground (arith, h (lit / 2) b.0, open_clause lits n rest h b.1, e)

pub no_conflict_satisfies :
    (lits : List State) (n : ℕ) (clauses : List (List ℕ))
    → ((v : ℕ) → v < n → get_or lits v undef ≢ undef)
    → AllBelow n clauses
    → find_conflict clauses lits ≡ false
    → all_hold (assignment_of lits) clauses ≡ true
unfolding find_conflict all_hold
no_conflict_satisfies lits n [] h b e = refl
no_conflict_satisfies lits n (clause ∷ clauses) h b e =
    ground (arith, open_clause lits n clause h b.0, no_conflict_satisfies lits n clauses h b.1, e)

-- The constructor sees every variable.
clause_size-le : (size : ℕ) (clause : List ℕ) → size ≤ clause_size size clause
unfolding clause_size
clause_size-le size [] = omega arith
clause_size-le size (lit ∷ lits) = elim (Bool-cases (ltb size (lit / 2 + 1))) [
  | inl e ↦ rw e (ground (arith, clause_size-le (lit / 2 + 1) lits))
  | inr e ↦ rw e (clause_size-le size lits)
]

clause_size-ClauseBelow :
    (n size : ℕ) (clause : List ℕ) → clause_size size clause ≤ n → ClauseBelow n clause
unfolding clause_size
clause_size-ClauseBelow n size [] h = tt
clause_size-ClauseBelow n size (lit ∷ lits) h =
    let next = if ltb size (lit / 2 + 1) then lit / 2 + 1 else size in
    let enough : lit / 2 < next = ground arith in
    (omega (arith, clause_size-le next lits, enough, h), clause_size-ClauseBelow n next lits h)

pub problem_size-le : (size : ℕ) (clauses : List (List ℕ)) → size ≤ problem_size size clauses
unfolding problem_size
problem_size-le size [] = omega arith
problem_size-le size (clause ∷ clauses) =
    omega (arith, clause_size-le size clause, problem_size-le (clause_size size clause) clauses)

pub problem_size-AllBelow :
    (n size : ℕ) (clauses : List (List ℕ)) → problem_size size clauses ≤ n → AllBelow n clauses
unfolding problem_size
problem_size-AllBelow n size [] h = tt
problem_size-AllBelow n size (clause ∷ clauses) h =
    let next = clause_size size clause in
    (
      clause_size-ClauseBelow n size clause (omega (arith, problem_size-le next clauses, h)),
      problem_size-AllBelow n next clauses h,
    )
