-- ===== src/Tags/Sat/Search/Trail.antt =====
-- passes/tags/sat_n.cpp: the trail as a list of decisions and of literals that were flipped to false, the
-- last entry first, and what `Backtrack` does to it.
use mathlib.Core.Path.{subst}
use llir_opt.Prelude.{
  ℕ, zero, suc, ◌<◌, ◌+◌, ◌*◌, ◌≡◌, refl, sym, ap, ◌∙◌, inl, inr, Bool, true, false, List, [], ◌∷◌,
  Option, none, some, get_or, set, length, length-set, get_or-set, arith, ◌==◌, if◌then◌else◌,
  Bool-cases,
}
use llir_opt.Tags.Sat.Clauses.{all_hold}
use llir_opt.Tags.Sat.Search.{State, is_false, is_true, undef, unwind}

pub data Entry : Type 0 where
  decided : ℕ → Entry
  flipped : ℕ → Entry

unfoldable pub variable : Entry → ℕ
variable (decided v) = v
variable (flipped v) = v

unfoldable pub flatten : List Entry → List (Option ℕ)
flatten [] = []
flatten (decided v ∷ g) = some v ∷ none ∷ flatten g
flatten (flipped v ∷ g) = some v ∷ flatten g

unfoldable pub depth : List Entry → ℕ
depth [] = 0
depth (decided v ∷ g) = suc (depth g)
depth (flipped v ∷ g) = depth g

-- The unassigned literals.
unfoldable pub weight : State → ℕ
weight undef = 1
weight _ = 0

unfoldable pub count : List State → ℕ
unfolding weight
count [] = 0
count (l ∷ lits) = weight l + count lits

pub count-set :
    (lits : List State) (v : ℕ) (x : State)
    → v < length lits
    → count (set lits v x) + weight (get_or lits v undef) ≡ count lits + weight x
unfolding count
count-set [] v x h = elim h [ ]
count-set (l ∷ lits) zero x h = omega arith
count-set (l ∷ lits) (suc v) x h = omega (arith, count-set lits v x (omega arith))

-- The rounds that are enough to go through all values of `m` literals, and those that the decisions of a
-- trail leave.
unfoldable pub rounds : ℕ → ℕ
rounds zero = 0
rounds (suc m) = 2 * rounds m + 2

unfoldable pub pending : ℕ → List Entry → ℕ
unfolding rounds
pending m [] = 0
pending m (decided v ∷ g) = rounds m + 1 + pending (suc m) g
pending m (flipped v ∷ g) = pending (suc m) g

-- The literal that is true throughout, if any: what it asks of an assignment, and the values it gives.
unfoldable pub Base : Option ℕ → (ℕ → Bool) → Type 0
Base none a = Unit
Base (some f) a = a f ≡ true

unfoldable pub base_value : Option ℕ → ℕ → State
base_value none v = undef
base_value (some f) v = if v == f then is_true else undef

-- The clauses of a search, the literal that is true throughout, and the number of literals.
module _ (cs : List (List ℕ)) (fixed : Option ℕ) (n : ℕ) where
  -- The value that a trail gives to a literal.
  unfoldable pub value : List Entry → ℕ → State
  unfolding base_value
  value [] v = base_value fixed v
  value (decided w ∷ g) v = if v == w then is_true else value g v
  value (flipped w ∷ g) v = if v == w then is_false else value g v

  abbrev pub Fresh : List Entry → Type 0
  Fresh [] = Unit
  Fresh (e ∷ g) = (variable e < n) × (value g (variable e) ≡ undef) × Fresh g

  abbrev pub Agrees : (ℕ → Bool) → List Entry → Type 0
  Agrees a [] = Base fixed a
  Agrees a (decided v ∷ g) = (a v ≡ true) × Agrees a g
  Agrees a (flipped v ∷ g) = (a v ≡ false) × Agrees a g

  -- Every literal that was flipped is false wherever the clauses hold and the entries before it do.
  abbrev pub Refuted : List Entry → Type 0
  Refuted [] = Unit
  Refuted (decided v ∷ g) = Refuted g
  Refuted (flipped v ∷ g) =
      ((a : ℕ → Bool) → all_hold a cs ≡ true → Agrees a g → a v ≡ false) × Refuted g

  -- The literals have the values of the trail.
  pub record Shows (lits : List State) (g : List Entry) : Type 0 where
    pub size : length lits ≡ n
    pub values : (v : ℕ) → get_or lits v undef ≡ value g v
    pub fresh : Fresh g

  pub Shows-push :
      (lits : List State) (g : List Entry) (e : Entry) (x : State)
      → Shows lits g
      → variable e < n
      → value g (variable e) ≡ undef
      → ((v : ℕ) → value (e ∷ g) v ≡ (if v == variable e then x else value g v))
      → Shows (set lits (variable e) x) (e ∷ g)
  Shows-push lits g e x s l f h = record {
    size = length-set lits (variable e) x ∙ s.size;
    values = λ v.
        get_or-set lits (variable e) v x undef (omega (arith, s.size, l))
        ∙ elim (Bool-cases (v == variable e)) [
          | inl i ↦ rw i (sym (h v ∙ rw i refl))
          | inr i ↦ rw i (s.values v ∙ sym (h v ∙ rw i refl))
        ];
    fresh = (l, f, s.fresh);
  }

  pub Shows-pop :
      (lits : List State) (g : List Entry) (e : Entry) (x : State)
      → Shows lits (e ∷ g)
      → ((v : ℕ) → value (e ∷ g) v ≡ (if v == variable e then x else value g v))
      → Shows (set lits (variable e) undef) g
  Shows-pop lits g e x s h = record {
    size = length-set lits (variable e) undef ∙ s.size;
    values = λ v.
        get_or-set lits (variable e) v undef undef (omega (arith, s.size, s.fresh.0))
        ∙ elim (Bool-cases (v == variable e)) [
          | inl i ↦ rw i (sym (ap (value g) (same v i) ∙ s.fresh.1))
          | inr i ↦ rw i (s.values v ∙ h v ∙ rw i refl)
        ];
    fresh = s.fresh.2;
  }
    where
      same : (v : ℕ) → (v == variable e) ≡ true → v ≡ variable e
      same v i = ground arith

  -- `Backtrack` takes the trail back to the last decision, which had not been refuted before.
  pub record Unwound (lits : List State) (g : List Entry) (lit : Option ℕ) : Type 0 where
    pub lits' : List State
    pub rest : List Entry
    pub decision : ℕ
    pub runs : unwind (flatten g) lits lit ≡ some (lits', flatten rest, decision)
    pub shows : Shows lits' rest
    pub below : decision < n
    pub free : value rest decision ≡ undef
    pub level : depth g ≡ suc (depth rest)
    pub refuted : Refuted g → Refuted rest
    pub agrees :
        Refuted g
        → (a : ℕ → Bool) → all_hold a cs ≡ true
        → Agrees a rest
        → a decision ≡ true
        → Agrees a g
    pub left : ℕ
    pub counted : count lits' ≡ suc left
    pub fewer : rounds left + pending (suc left) rest < pending (count lits) g

  pub unwind-Unwound :
      (lits : List State) (g : List Entry) (lit : Option ℕ)
      → Shows lits g
      → 0 < depth g
      → Unwound lits g lit
  unfolding unwind flatten depth pending value variable weight
  unwind-Unwound lits [] lit s h = absurd (omega arith)
  unwind-Unwound lits (decided d ∷ g) lit s h =
      let size = count-set lits d undef (omega (arith, s.size, s.fresh.0)) in
      let assigned : get_or lits d undef ≡ is_true = s.values d ∙ ground arith in
      let counted : count (set lits d undef) ≡ suc (count lits) =
        omega (arith, size, ap weight assigned) in
      record {
        lits' = set lits d undef;
        rest = g;
        decision = d;
        runs = refl;
        shows = Shows-pop lits g (decided d) is_true s (λ v. refl);
        below = s.fresh.0;
        free = s.fresh.1;
        level = refl;
        refuted = λ r. r;
        agrees = λ r a i j k. (k, j);
        left = count lits;
        counted = counted;
        fewer = omega arith;
      }
  unwind-Unwound lits (flipped v ∷ g) lit s h =
      let size = count-set lits v undef (omega (arith, s.size, s.fresh.0)) in
      let assigned : get_or lits v undef ≡ is_false = s.values v ∙ ground arith in
      let counted : count (set lits v undef) ≡ suc (count lits) =
        omega (arith, size, ap weight assigned) in
      let u =
        unwind-Unwound (set lits v undef) g (some v)
          (Shows-pop lits g (flipped v) is_false s (λ w. refl)) h in
      record {
        lits' = u.lits';
        rest = u.rest;
        decision = u.decision;
        runs = u.runs;
        shows = u.shows;
        below = u.below;
        free = u.free;
        level = u.level;
        refuted = λ r. u.refuted r.1;
        agrees = λ r a i j k. let w = u.agrees r.1 a i j k in (r.0 a i w, w);
        left = u.left;
        counted = u.counted;
        fewer =
            subst (λ c. rounds u.left + pending (suc u.left) u.rest < pending c g) counted u.fewer;
      }
