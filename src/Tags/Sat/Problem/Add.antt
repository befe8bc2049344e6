-- ===== src/Tags/Sat/Problem/Add.antt =====
-- passes/tags/sat.cpp: what `Add` adds.
use llir_opt.Prelude.{
  ℕ, ◌-◌, ◌+◌, ◌*◌, ◌/◌, ◌%◌, ◌≡◌, refl, sym, ap, ◌∙◌, Bool, true, false, not, ◌&&◌, ◌||◌, List, [],
  ◌∷◌, ◌++◌, map, ◌^◌, length, arith, ltb, ◌==◌, if◌then◌else◌,
}
use llir_opt.Tags.Sat.Clauses.{make_clause, lit_holds, clause_holds, all_hold}
use llir_opt.Tags.Sat.Two.Quiet.{AllBelow}
use llir_opt.Tags.Sat.Two.Build.{AllFit}
use llir_opt.Tags.Sat.Problem.{Problem, add}

-- Whether some variable of a list is true, and whether some is false.
unfoldable pub any_true : (ℕ → Bool) → List ℕ → Bool
any_true a [] = false
any_true a (v ∷ vs) = a v || any_true a vs

unfoldable pub any_false : (ℕ → Bool) → List ℕ → Bool
any_false a [] = false
any_false a (v ∷ vs) = not (a v) || any_false a vs

all_hold-append :
    (a : ℕ → Bool) (clauses : List (List ℕ)) (clause : List ℕ)
    → all_hold a (clauses ++ clause ∷ []) ≡ (all_hold a clauses && clause_holds a clause)
unfolding all_hold
all_hold-append a [] clause = ground arith
all_hold-append a (c ∷ clauses) clause = ground (arith, all_hold-append a clauses clause)

-- The variable that a shift in 32 bits makes of a number.
abbrev pub variable : ℕ → ℕ
variable v = v % 2 ^ 31

even_holds : (a : ℕ → Bool) (v : ℕ) → lit_holds a (v * 2 % 2 ^ 32) ≡ a (variable v)
unfolding lit_holds
even_holds a v =
    let even : (v * 2 % 2 ^ 32 % 2 == 0) ≡ true = ground arith in
    let half : v * 2 % 2 ^ 32 / 2 ≡ variable v = omega arith in rw (even, half) refl

odd_holds : (a : ℕ → Bool) (v : ℕ) → lit_holds a (v * 2 % 2 ^ 32 + 1) ≡ not (a (variable v))
unfolding lit_holds
odd_holds a v =
    let odd : ((v * 2 % 2 ^ 32 + 1) % 2 == 0) ≡ false = ground arith in
    let half : (v * 2 % 2 ^ 32 + 1) / 2 ≡ variable v = omega arith in rw (odd, half) refl

make_clause-neg :
    (a : ℕ → Bool) (neg : List ℕ)
    → clause_holds a (make_clause [] neg) ≡ any_false a (map variable neg)
unfolding clause_holds make_clause any_false
make_clause-neg a [] = refl
make_clause-neg a (v ∷ neg) =
    rw (odd_holds a v) (ap (λ b. not (a (variable v)) || b) (make_clause-neg a neg))

make_clause-holds :
    (a : ℕ → Bool) (pos neg : List ℕ)
    → clause_holds a (make_clause pos neg)
      ≡ (any_true a (map variable pos) || any_false a (map variable neg))
unfolding clause_holds make_clause any_true
make_clause-holds a [] neg = make_clause-neg a neg
make_clause-holds a (v ∷ pos) neg =
    rw (even_holds a v) (ground (arith, make_clause-holds a pos neg))

-- Whether all clauses have at most two literals.
unfoldable pub all_short : List (List ℕ) → Bool
all_short [] = true
all_short (clause ∷ clauses) = not (ltb 2 (length clause)) && all_short clauses

all_short-append :
    (clauses : List (List ℕ)) (clause : List ℕ)
    → all_short (clauses ++ clause ∷ [])
      ≡ (if ltb 2 (length clause) then false else all_short clauses)
unfolding all_short
all_short-append [] clause = ground arith
all_short-append (c ∷ clauses) clause = ground (arith, all_short-append clauses clause)

-- The flag says which problems the solver for short clauses can take.
add-is_2sat :
    (pos neg : List ℕ) (p : Problem)
    → p.is_2sat ≡ all_short p.clauses
    → Problem.is_2sat (add pos neg p) ≡ all_short (Problem.clauses (add pos neg p))
unfolding add
add-is_2sat pos neg p h = rw h (sym (all_short-append p.clauses (make_clause pos neg)))

even_literals-AllBelow :
    (pos neg : List ℕ)
    → AllBelow (2 ^ 31 - 1) pos
    → AllBelow (2 ^ 32 - 2) (make_clause [] neg)
    → AllBelow (2 ^ 32 - 2) (make_clause pos neg)
unfolding make_clause
even_literals-AllBelow [] neg h k = k
even_literals-AllBelow (v ∷ pos) neg h k =
    (omega (arith, h.0), even_literals-AllBelow pos neg h.1 k)

odd_literals-AllBelow :
    (neg : List ℕ) → AllBelow (2 ^ 31 - 1) neg → AllBelow (2 ^ 32 - 2) (make_clause [] neg)
unfolding make_clause
odd_literals-AllBelow [] h = tt
odd_literals-AllBelow (v ∷ neg) h = (omega (arith, h.0), odd_literals-AllBelow neg h.1)

AllFit-append :
    (clauses : List (List ℕ)) (clause : List ℕ)
    → AllFit clauses
    → AllBelow (2 ^ 32 - 2) clause
    → AllFit (clauses ++ clause ∷ [])
AllFit-append [] clause h k = (k, tt)
AllFit-append (c ∷ clauses) clause h k = (h.0, AllFit-append clauses clause h.1 k)

-- Where the variables are below 2^31 - 1, the solver for short clauses can number the literals.
pub add-AllFit :
    (pos neg : List ℕ) (p : Problem)
    → AllFit p.clauses
    → AllBelow (2 ^ 31 - 1) pos
    → AllBelow (2 ^ 31 - 1) neg
    → AllFit (Problem.clauses (add pos neg p))
unfolding add
add-AllFit pos neg p h k l =
    AllFit-append p.clauses (make_clause pos neg) h
      (even_literals-AllBelow pos neg k (odd_literals-AllBelow neg l))

-- After `Add` an assignment satisfies the clauses where it did before and one of the variables of the first
-- list is true or one of the second is false, their numbers taken modulo 2^31; and the flag of a problem
-- still says whether all clauses have at most two literals, if it did.
pub add-all_hold :
    (a : ℕ → Bool) (pos neg : List ℕ) (p : Problem)
    → p.is_2sat ≡ all_short p.clauses
    → (all_hold a (Problem.clauses (add pos neg p)) ≡ (
        all_hold a p.clauses && (any_true a (map variable pos) || any_false a (map variable neg))))
      × (Problem.is_2sat (add pos neg p) ≡ all_short (Problem.clauses (add pos neg p)))
unfolding add
add-all_hold a pos neg p h = (
  all_hold-append a p.clauses (make_clause pos neg)
      ∙ ap (λ b. all_hold a p.clauses && b) (make_clause-holds a pos neg),
  add-is_2sat pos neg p h,
)
