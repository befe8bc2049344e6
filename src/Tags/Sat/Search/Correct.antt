-- ===== src/Tags/Sat/Search/Correct.antt =====
-- passes/tags/sat_n.cpp: `IsSatisfiable` and `IsSatisfiableWith` of a new solver.
use native.Mathlib.Nat.{pow-suc}
use llir_opt.Prelude.{
  ℕ, zero, suc, ◌<◌, ◌≤◌, ◌+◌, ◌^◌, ◌≡◌, ◌≢◌, ◌↔◌, refl, ap, ◌∙◌, ◌⊎◌, inl, inr, Bool, true, false,
  List, [], ◌∷◌, Option, none, some, get_or, set, length, length-set, get_or-set, arith, ltb, ◌==◌,
  if◌then◌else◌, Bool-cases, Option-cases,
}
use llir_opt.Tags.Sat.Clauses.{all_hold}
use llir_opt.Tags.Sat.Search.{
  State, is_true, undef, Solver, find_conflict, first_undef, pick, resolve, search, search_with,
  new_solver, all_undef, problem_size,
}
use llir_opt.Tags.Sat.Search.Conflict.{
  AllBelow, assignment_of, conflict_refutes, no_conflict_satisfies, problem_size-AllBelow,
}
use llir_opt.Tags.Sat.Search.Trail.{
  Entry, decided, flatten, depth, weight, count, count-set, rounds, pending, Base, base_value,
  value, Shows,
}
use llir_opt.Tags.Sat.Search.Loop.{
  Reaches, measure, Agrees-Extends, Agrees-flat, value_fixed, pick-Reaches, backtrack-Reaches,
  Unsatisfiable, first_undef-none, pick-none,
}

module _ (cs : List (List ℕ)) (fixed : Option ℕ) (n : ℕ) where
  -- What the inner loop ends with: no conflict, or a refutation of the clauses.
  data Resolved (fuel : ℕ) (s : Solver) (g : List Entry) : Type 0 where
    goes_on :
        (s' : Solver) (g' : List Entry)
        → resolve fuel s ≡ some (s', true)
        → Reaches cs fixed n s' g'
        → find_conflict cs s'.lits ≡ false
        → measure cs fixed n s' g' ≤ measure cs fixed n s g
        → Resolved fuel s g
    refutes :
        (s' : Solver)
        → resolve fuel s ≡ some (s', false)
        → Unsatisfiable cs fixed n
        → Resolved fuel s g

  resolve-Resolved :
      (fuel : ℕ) (s : Solver) (g : List Entry)
      → Reaches cs fixed n s g
      → measure cs fixed n s g < fuel
      → Resolved fuel s g
  unfolding resolve
  resolve-Resolved zero s g r f = absurd (omega arith)
  resolve-Resolved (suc fuel) s g r f =
      let same = ap (λ k. find_conflict k s.lits) r.clauses in
      elim (Bool-cases (find_conflict cs s.lits)) [
        | inr c ↦ goes_on s g (rw (same ∙ c) refl) r c (omega arith)
        | inl c ↦ elim (Bool-cases (s.level == 0)) [
          | inl z ↦ refutes s (rw (same ∙ c, z) refl) (λ a b. elim (Bool-cases (all_hold a cs)) [
            | inr k ↦ k
            | inl k ↦
                let flat = Agrees-flat cs fixed n a g (ground (arith, r.level)) r.refuted k b in
                conflict_refutes a s.lits cs (Agrees-Extends cs fixed n a s g r flat) c
          ])
          | inr z ↦
              let (s', g', runs, r', less) =
                backtrack-Reaches cs fixed n s g r c (ground (arith, r.level)) in
              elim (resolve-Resolved fuel s' g' r' (omega arith)) [
                | goes_on t h e w d m ↦ goes_on t h (rw (same ∙ c, z, runs) e) w d (omega arith)
                | refutes t e u ↦ refutes t (rw (same ∙ c, z, runs) e) u
              ]
        ]
      ]

  -- The answer of the outer loop, and that it is right.
  pub data Answered (outcome : Option (Solver × Bool)) : Type 0 where
    found :
        (s' : Solver) (a : ℕ → Bool)
        → outcome ≡ some (s', true)
        → Base fixed a
        → all_hold a cs ≡ true
        → Answered outcome
    failed :
        (s' : Solver) → outcome ≡ some (s', false) → Unsatisfiable cs fixed n → Answered outcome

  assignment-Base :
      (fixed' : Option ℕ) (a : ℕ → Bool) → ((f : ℕ) → fixed' ≡ some f → a f ≡ true) → Base fixed' a
  unfolding Base
  assignment-Base none a h = tt
  assignment-Base (some f) a h = h f refl

  -- The loop starts with a literal to assign or without a conflict.
  pub search-Answered :
      (fuel : ℕ) (s : Solver) (g : List Entry)
      → Reaches cs fixed n s g
      → AllBelow n cs
      → measure cs fixed n s g < fuel
      → (first_undef 0 s.lits ≢ none) ⊎ (find_conflict cs s.lits ≡ false)
      → Answered (search fuel s)
  unfolding search
  search-Answered zero s g r b f h = absurd (omega arith)
  search-Answered (suc fuel) s g r b f h = elim (Option-cases (first_undef 0 s.lits)) [
    | inl e ↦ elim h [
      | inl d ↦ absurd (d e)
      | inr c ↦
          let nothing : pick s ≡ none = pick-none s e in
          found s (assignment_of s.lits) (rw (search, nothing) refl)
            (assignment-Base fixed (assignment_of s.lits) (λ i k.
              let here : get_or s.lits i undef ≡ is_true =
                r.shows.values i ∙ value_fixed cs fixed n i g k r.shows.fresh in
              rw (assignment_of, here) refl))
            (no_conflict_satisfies s.lits n cs
              (λ v l. first_undef-none 0 s.lits v e (omega (arith, r.shows.size))) b c)
    ]
    | inr (j, e) ↦
        let (s', runs, r', less) = pick-Reaches cs fixed n s g j r e in
        elim (resolve-Resolved fuel s' (decided j ∷ g) r' (omega arith)) [
          | refutes t o u ↦ failed t (rw (search, runs, o) refl) u
          | goes_on t i o w c m ↦ elim (search-Answered fuel t i w b (omega arith) (inr c)) [
            | found t' a q x y ↦ found t' a (rw (search, runs, o) q) x y
            | failed t' q u ↦ failed t' (rw (search, runs, o) q) u
          ]
        ]
  ]

pub all_undef-length : (n : ℕ) → length (all_undef n) ≡ n
unfolding all_undef
all_undef-length zero = refl
all_undef-length (suc n) = ap suc (all_undef-length n)

all_undef-get : (n v : ℕ) → get_or (all_undef n) v undef ≡ undef
unfolding all_undef
all_undef-get zero v = refl
all_undef-get (suc n) zero = refl
all_undef-get (suc n) (suc v) = all_undef-get n v

count-all_undef : (n : ℕ) → count (all_undef n) ≡ n
unfolding all_undef count weight
count-all_undef zero = refl
count-all_undef (suc n) = omega (arith, count-all_undef n)

rounds-pow : (m : ℕ) → rounds m + 2 ≡ 2 ^ (m + 1)
unfolding rounds
rounds-pow zero = refl
rounds-pow (suc m) =
    let index : suc m + 1 ≡ suc (m + 1) = omega arith in
    rw index (omega (arith, rounds-pow m, pow-suc 2 (m + 1)))

-- The answer, as a value.
unfoldable pub Decides : List (List ℕ) → Option ℕ → Option (Solver × Bool) → Type 0
Decides cs fixed outcome =
    (s' : Solver) × (answer : Bool) × (outcome ≡ some (s', answer))
    × ((answer ≡ true) ↔ ((a : ℕ → Bool) × Base fixed a × (all_hold a cs ≡ true)))

Answered-Decides :
    (cs : List (List ℕ)) (fixed : Option ℕ) (n : ℕ) (outcome : Option (Solver × Bool))
    → Answered cs fixed n outcome
    → Decides cs fixed outcome
unfolding Decides
Answered-Decides cs fixed n outcome (found s' a e b h) = (s', true, e, (λ _. (a, b, h), λ _. refl))
Answered-Decides cs fixed n outcome (failed s' e u) =
    (s', false, e, (λ f. absurd (cc f), λ h. absurd (cc (u h.0 h.1, h.2))))

start-Reaches :
    (cs : List (List ℕ)) (fixed : Option ℕ) (n : ℕ) (lits : List State)
    → Shows cs fixed n lits []
    → Reaches cs fixed n (record { clauses = cs; lits = lits; trail = []; level = 0 }) []
unfolding flatten depth
start-Reaches cs fixed n lits h = record {
  clauses = refl;
  trail = refl;
  level = refl;
  shows = h;
  refuted = tt;
}

some_undef :
    (lits : List State) (v : ℕ)
    → v < length lits
    → get_or lits v undef ≡ undef
    → first_undef 0 lits ≢ none
some_undef lits v l e d = first_undef-none 0 lits v d l e

-- `IsSatisfiable` of a new solver of a problem with a variable ends, with at most two rounds for each
-- assignment of the variables, and says whether an assignment satisfies the clauses.
pub search-Decides :
    (cs : List (List ℕ))
    → 0 < problem_size 0 cs
    → Decides cs none (search (2 ^ (problem_size 0 cs + 1)) (new_solver cs))
unfolding new_solver base_value value pending
search-Decides cs l =
    let n = problem_size 0 cs in
    let size = all_undef-length n in
    Answered-Decides cs none n (search (2 ^ (n + 1)) (new_solver cs)) (
      search-Answered cs none n (2 ^ (n + 1)) (new_solver cs) []
        (start-Reaches cs none n (all_undef n)
          (record { size = size; values = all_undef-get n; fresh = tt }))
        (problem_size-AllBelow n 0 cs (omega arith))
        (omega (arith, count-all_undef n, ap rounds (count-all_undef n), rounds-pow n))
        (inl (some_undef (all_undef n) 0 (omega (arith, size)) (all_undef-get n 0))))

with-Decides :
    (cs : List (List ℕ)) (fixed : Option ℕ) (fuel id : ℕ) (s : Solver)
    → id < length s.lits
    → Decides cs fixed (search fuel (record s { lits = set s.lits id is_true }))
    → Decides cs fixed (search_with fuel id s)
unfolding search_with Decides
with-Decides cs fixed fuel id s l (s', answer, runs, right) =
    let fits : ltb (length s.lits) id ≡ false = ground arith in
    let proper : (length s.lits == id) ≡ false = ground arith in
    (record s' { lits = set s'.lits id undef }, answer, rw (fits, proper, runs) refl, right)

-- `IsSatisfiableWith` of a new solver of a problem with another variable than the given one ends too,
-- and says whether an assignment under which the given one is true satisfies the clauses.
pub search_with-Decides :
    (cs : List (List ℕ)) (id : ℕ)
    → 1 < problem_size 0 cs
    → id < problem_size 0 cs
    → Decides cs (some id) (search_with (2 ^ (problem_size 0 cs + 1)) id (new_solver cs))
unfolding new_solver base_value value pending weight rounds
search_with-Decides cs id l i =
    let n = problem_size 0 cs in
    let size = all_undef-length n in
    let lits = set (all_undef n) id is_true in
    let written = λ (v : ℕ). get_or-set (all_undef n) id v is_true undef (omega (arith, size, i)) in
    let counted = count-set (all_undef n) id is_true (omega (arith, size, i)) in
    let left : count lits + 1 ≡ n =
      omega (arith, counted, count-all_undef n, ap weight (all_undef-get n id)) in
    let other : ℕ = if id == 0 then 1 else 0 in
    let inside : other < n = ground arith in
    let apart : (other == id) ≡ false = ground arith in
    let next : suc (count lits) ≡ n = omega (arith, left) in
    let more : rounds (count lits) ≤ rounds n = omega (arith, ap rounds next) in
    with-Decides cs (some id) (2 ^ (n + 1)) id (new_solver cs) (omega (arith, size, i)) (
      Answered-Decides cs (some id) n
        (search (2 ^ (n + 1)) (record (new_solver cs) { lits = lits }))
        (search-Answered cs (some id) n (2 ^ (n + 1)) (record (new_solver cs) { lits = lits }) []
          (start-Reaches cs (some id) n lits (record {
            size = length-set (all_undef n) id is_true ∙ size;
            values = λ v. written v ∙ elim (Bool-cases (v == id)) [
              | inl e ↦ rw e refl
              | inr e ↦ rw e (all_undef-get n v)
            ];
            fresh = tt;
          }))
          (problem_size-AllBelow n 0 cs (omega arith)) (omega (arith, more, rounds-pow n))
          (inl (
            some_undef lits other (omega (arith, size, length-set (all_undef n) id is_true, inside))
              (written other ∙ rw apart (all_undef-get n other))))))
