-- ===== src/Tags/Sat/Search/Loop.antt =====
-- passes/tags/sat_n.cpp: the two loops of `IsSatisfiable`, from any state that they reach.
use llir_opt.Prelude.{
  ℕ, zero, suc, ◌<◌, ◌+◌, ◌-◌, ◌≡◌, ◌≢◌, refl, sym, ap, ◌∙◌, inl, inr, Bool, true, false, List, [],
  ◌∷◌, Option, none, some, get_or, set, length, arith, ◌==◌, Bool-cases,
}
use llir_opt.Tags.Sat.Clauses.{all_hold}
use llir_opt.Tags.Sat.Search.{
  State, is_false, is_true, undef, is_assigned, Solver, find_conflict, first_undef, pick, backtrack,
}
use llir_opt.Tags.Sat.Search.Conflict.{Extends, conflict_refutes}
use llir_opt.Tags.Sat.Search.Trail.{
  Entry, decided, flipped, variable, flatten, depth, weight, count, count-set, rounds, pending,
  Base, base_value, value, Fresh, Agrees, Refuted, Shows, Shows-push, unwind-Unwound,
}

-- What the scan for an unassigned literal finds.
first_undef-some :
    (i j : ℕ) (lits : List State)
    → first_undef i lits ≡ some j
    → (v : ℕ) × (j ≡ i + v) × (v < length lits) × (get_or lits v undef ≡ undef)
unfolding first_undef is_assigned
first_undef-some i j [] e = cc
first_undef-some i j (undef ∷ lits) e = (0, ground arith, omega arith, refl)
first_undef-some i j (is_true ∷ lits) e =
    let (v, at, l, u) = first_undef-some (suc i) j lits e in
    (suc v, omega (arith, at), omega (arith, l), u)
first_undef-some i j (is_false ∷ lits) e =
    let (v, at, l, u) = first_undef-some (suc i) j lits e in
    (suc v, omega (arith, at), omega (arith, l), u)

pub first_undef-none :
    (i : ℕ) (lits : List State) (v : ℕ)
    → first_undef i lits ≡ none
    → v < length lits
    → get_or lits v undef ≢ undef
unfolding first_undef is_assigned
first_undef-none i [] v e l = absurd (omega arith)
first_undef-none i (undef ∷ lits) v e l = absurd (cc e)
first_undef-none i (is_true ∷ lits) zero e l = ground arith
first_undef-none i (is_true ∷ lits) (suc v) e l = first_undef-none (suc i) lits v e (omega arith)
first_undef-none i (is_false ∷ lits) zero e l = ground arith
first_undef-none i (is_false ∷ lits) (suc v) e l = first_undef-none (suc i) lits v e (omega arith)

pub pick-none : (s : Solver) → first_undef 0 s.lits ≡ none → pick s ≡ none
unfolding pick
pick-none s e = rw e refl

Base-holds :
    (fixed : Option ℕ) (a : ℕ → Bool) (v : ℕ)
    → Base fixed a
    → (base_value fixed v ≡ is_true → a v ≡ true) × (base_value fixed v ≡ is_false → a v ≡ false)
unfolding Base base_value
Base-holds none a v h = (λ e. cc e, λ e. cc e)
Base-holds (some f) a v h = elim (Bool-cases (v == f)) [
  | inl i ↦ rw i (λ e. ap a (same i) ∙ h, λ e. absurd (cc e))
  | inr i ↦ rw i (λ e. absurd (cc e), λ e. absurd (cc e))
]
  where
    same : (v == f) ≡ true → v ≡ f
    same i = ground arith

module _ (cs : List (List ℕ)) (fixed : Option ℕ) (n : ℕ) where
  -- The state of a search, by its trail.
  pub record Reaches (s : Solver) (g : List Entry) : Type 0 where
    pub clauses : s.clauses ≡ cs
    pub trail : s.trail ≡ flatten g
    pub level : s.level ≡ depth g
    pub shows : Shows cs fixed n s.lits g
    pub refuted : Refuted cs fixed n g

  -- The rounds that are left.
  abbrev pub measure : Solver → List Entry → ℕ
  measure s g = rounds (count s.lits) + pending (count s.lits) g

  Agrees-value :
      (a : ℕ → Bool) (g : List Entry) (v : ℕ)
      → Agrees cs fixed n a g
      → (value cs fixed n g v ≡ is_true → a v ≡ true)
        × (value cs fixed n g v ≡ is_false → a v ≡ false)
  unfolding value
  Agrees-value a [] v h = Base-holds fixed a v h
  Agrees-value a (decided w ∷ g) v h =
      let (t, f) = Agrees-value a g v h.1 in
      (λ e. ground (arith, h.0, t, e), λ e. ground (arith, h.0, f, e))
  Agrees-value a (flipped w ∷ g) v h =
      let (t, f) = Agrees-value a g v h.1 in
      (λ e. ground (arith, h.0, t, e), λ e. ground (arith, h.0, f, e))

  pub Agrees-Extends :
      (a : ℕ → Bool) (s : Solver) (g : List Entry)
      → Reaches s g
      → Agrees cs fixed n a g
      → Extends a s.lits
  Agrees-Extends a s g r h = record {
    trues = λ v e. (Agrees-value a g v h).0 (sym (r.shows.values v) ∙ e);
    falses = λ v e. (Agrees-value a g v h).1 (sym (r.shows.values v) ∙ e);
  }

  -- Where no decision is left, every solution agrees with the trail.
  pub Agrees-flat :
      (a : ℕ → Bool) (g : List Entry)
      → depth g ≡ 0
      → Refuted cs fixed n g
      → all_hold a cs ≡ true
      → Base fixed a
      → Agrees cs fixed n a g
  unfolding depth
  Agrees-flat a [] d r h b = b
  Agrees-flat a (decided v ∷ g) d r h b = absurd (omega arith)
  Agrees-flat a (flipped v ∷ g) d r h b = let w = Agrees-flat a g d r.1 h b in (r.0 a h w, w)

  -- The literal that is true throughout stays true.
  pub value_fixed :
      (f : ℕ) (g : List Entry)
      → fixed ≡ some f
      → Fresh cs fixed n g
      → value cs fixed n g f ≡ is_true
  unfolding value base_value variable
  value_fixed f [] e h = let same : (f == f) ≡ true = ground arith in rw (e, base_value, same) refl
  value_fixed f (decided w ∷ g) e h = ground (arith, value_fixed f g e h.2, h.1)
  value_fixed f (flipped w ∷ g) e h = ground (arith, value_fixed f g e h.2, h.1)

  -- A pick adds a decision.
  pub pick-Reaches :
      (s : Solver) (g : List Entry) (j : ℕ)
      → Reaches s g
      → first_undef 0 s.lits ≡ some j
      → (s' : Solver) × (pick s ≡ some s')
        × Reaches s' (decided j ∷ g)
        × (measure s' (decided j ∷ g) < measure s g)
  unfolding pick variable value flatten depth weight rounds pending
  pick-Reaches s g j r e =
      let (v, at, l, u) = first_undef-some 0 j s.lits e in
      let here : v ≡ j = omega (arith, at) in
      let inside : j < length s.lits = omega (arith, here, l) in
      let free : get_or s.lits j undef ≡ undef = ap (λ k. get_or s.lits k undef) (sym here) ∙ u in
      let size = count-set s.lits j is_true inside in
      let counted : count s.lits ≡ suc (count (set s.lits j is_true)) =
        omega (arith, size, ap weight free) in
      let new = record s {
        lits = set s.lits j is_true;
        trail = some j ∷ none ∷ s.trail;
        level = suc s.level;
      } in
      (
        new,
        rw e refl,
        record {
          clauses = r.clauses;
          trail = ap (λ t. some j ∷ none ∷ t) r.trail;
          level = ap suc r.level;
          shows =
              Shows-push cs fixed n s.lits g (decided j) is_true r.shows
                (omega (arith, inside, r.shows.size)) (sym (r.shows.values j) ∙ free) (λ w. refl);
          refuted = r.refuted;
        },
        rw counted (omega arith),
      )

  -- `Backtrack` after a conflict refutes the last decision.
  pub backtrack-Reaches :
      (s : Solver) (g : List Entry)
      → Reaches s g
      → find_conflict cs s.lits ≡ true
      → 0 < depth g
      → (s' : Solver) × (g' : List Entry) × (backtrack s ≡ some s')
        × Reaches s' g'
        × (measure s' g' < measure s g)
  unfolding backtrack variable value flatten depth weight rounds pending
  backtrack-Reaches s g r c h =
      let u = unwind-Unwound cs fixed n s.lits g none r.shows h in
      let d = u.decision in
      let inside : d < length u.lits' = omega (arith, u.below, u.shows.size) in
      let free : get_or u.lits' d undef ≡ undef = u.shows.values d ∙ u.free in
      let size = count-set u.lits' d is_false inside in
      let counted : count (set u.lits' d is_false) ≡ u.left =
        omega (arith, size, ap weight free, u.counted) in
      (
        record s {
          lits = set u.lits' d is_false;
          trail = some d ∷ flatten u.rest;
          level = s.level - 1;
        },
        flipped d ∷ u.rest,
        rw (r.trail, u.runs) refl,
        record {
          clauses = r.clauses;
          trail = refl;
          level = omega (arith, r.level, u.level);
          shows =
              Shows-push cs fixed n u.lits' u.rest (flipped d) is_false u.shows u.below u.free
                (λ w. refl);
          refuted = (
            λ a i j. elim (Bool-cases (a d)) [
              | inl k ↦ absurd (
                  cc (
                    conflict_refutes a s.lits cs
                        (Agrees-Extends a s g r (u.agrees r.refuted a i j k)) c,
                    i,
                  ))
              | inr k ↦ k
            ],
            u.refuted r.refuted,
          );
        },
        rw counted (omega (arith, u.fewer)),
      )

  -- No assignment satisfies the clauses.
  abbrev pub Unsatisfiable : Type 0
  Unsatisfiable = (a : ℕ → Bool) → Base fixed a → all_hold a cs ≡ false
